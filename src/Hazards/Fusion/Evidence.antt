-- ===== src/Hazards/Fusion/Evidence.antt =====
-- Which evidence a verified hazard of services/hazards/marga_hazards/fusion.py has.
use mathlib.Core.Path.{subst}
use mathlib.Core.Option
use marga.Prelude.{
  ◌⊎◌, not, ℕ, ◌≡◌, refl, sym, ap, ◌∙◌, inl, inr, String, Bool, true, false, ◌&&◌, Option, none,
  some, List, [], ◌∷◌, arith, if◌then◌else◌, Bool-cases, Option-cases, nat_eqb, nat_eq, length, ltb,
  string_eq,
}
use marga.Prelude.Dict
use marga.Prelude.Dict.{Dict}
use marga.Hazards.Hazard.{
  Hazard, HazardObservation, HazardState, candidate, verified, stale, expired,
}
use marga.Hazards.Lifecycle.{
  Measures, Hazards, Lifecycle, swept, new_state, sweep_all, retire, retire_all, sweep,
}
use marga.Hazards.Fusion.Agreement.{get-sweep_all, Operation, ingests, contradicts, sweeps, operate}
use marga.Hazards.Fusion.{
  Tunables, file, new_hazard, merged, promoted, absorb, looked_up, find_best_match,
  ingest_observation, contradicted, contradict, contradict_all, apply_negative_evidence, nearby,
}
use marga.Hazards.Observed.{sources_with}
use marga.Hazards.Fusion.Sources.{Distinct, sources_with-Distinct, sources_with-le}

abbrev pub is_verified : HazardState → Bool
is_verified verified = true
is_verified _ = false

module _ (ms : Measures) (count : ℕ) where
  abbrev H : Type 0
  H = Hazard ms.F ms.Point

  -- The sources are distinct, and a verified hazard has at least `count` of them.
  pub record Grounded (h : H) : Type 0 where
    pub distinct : Distinct h.source_ids
    pub enough : (is_verified h.state && ltb (length h.source_ids) count) ≡ false

  promoted-enough :
      (t : Tunables ms) (state : HazardState) (sources : List String)
      → (is_verified (promoted ms t state sources)
          && not (is_verified state)
          && ltb (length sources) t.verification_source_count)
        ≡ false
  unfolding promoted
  promoted-enough t candidate sources = ground arith
  promoted-enough t s sources = ground arith

  new_state-verified :
      (now : ℕ) (l : Lifecycle ms) (h : H)
      → (is_verified (new_state ms now l h) && not (is_verified h.state)) ≡ false
  unfolding new_state
  new_state-verified now l h = ground arith

  merged-Grounded :
      (t : Tunables ms) (h : H) (o : HazardObservation ms.F ms.Point)
      → t.verification_source_count ≡ count
      → Grounded h
      → Grounded (merged ms t h o)
  unfolding merged promoted
  merged-Grounded t h o same g = record {
    distinct = sources_with-Distinct o.source_id h.source_ids g.distinct;
    enough = ground (
      arith,
      g.enough,
      same,
      sources_with-le o.source_id h.source_ids,
      promoted-enough t h.state (sources_with o.source_id h.source_ids),
    );
  }

  swept-Grounded : (now : ℕ) (l : Lifecycle ms) (h : H) → Grounded h → Grounded (swept ms now l h)
  unfolding swept
  swept-Grounded now l h g = record {
    distinct = ground (arith, g.distinct);
    enough = ground (arith, g.enough, new_state-verified now l h);
  }

  -- Every active hazard is grounded.
  abbrev pub AllGrounded : Hazards ms → Type 0
  AllGrounded s = (i : ℕ) (h : H) → Dict.get i s.active ≡ some h → Grounded h

  put-Grounded :
      (i : ℕ) (h : H) (d : Dict ℕ H)
      → Grounded h
      → ((j : ℕ) (x : H) → Dict.get j d ≡ some x → Grounded x)
      → (j : ℕ) (x : H) → Dict.get j (Dict.put i h d) ≡ some x
      → Grounded x
  put-Grounded i h d g all j x e = elim (Bool-cases (nat_eqb i j)) [
    | inl same ↦
        let it : h ≡ x = Dict.some_injective (
          ap (λ b. if b then some h else Dict.get j d) (sym same)
          ∙ sym (Dict.get-put i j h d)
          ∙ e) in
        subst Grounded it g
    | inr other ↦ all j x (sym (Dict.get-put_other i j h d other) ∙ e)
  ]

  pop-Grounded :
      (i : ℕ) (d : Dict ℕ H)
      → ((j : ℕ) (x : H) → Dict.get j d ≡ some x → Grounded x)
      → (j : ℕ) (x : H) → Dict.get j (Dict.pop i d) ≡ some x
      → Grounded x
  pop-Grounded i d all j x e = elim (Bool-cases (nat_eqb i j)) [
    | inl same ↦ absurd (Dict.pop_gone i j d same e)
    | inr other ↦ all j x (sym (Dict.get-pop_other i j d other) ∙ e)
  ]

  file-Grounded :
      (i : ℕ) (h : H) (s : Hazards ms) → Grounded h → AllGrounded s → AllGrounded (file ms i h s)
  unfolding file
  file-Grounded i h s g all = put-Grounded i h s.active g all

  retire-Grounded : (i : ℕ) (s : Hazards ms) → AllGrounded s → AllGrounded (retire ms i s)
  unfolding retire
  retire-Grounded i s all = pop-Grounded i s.active all

  retire_all-Grounded :
      (is : List ℕ) (s : Hazards ms) → AllGrounded s → AllGrounded (retire_all ms is s)
  unfolding retire_all
  retire_all-Grounded [] s all = all
  retire_all-Grounded (i ∷ is) s all =
      retire_all-Grounded is (retire ms i s) (retire-Grounded i s all)

  sweep-Grounded :
      (now : ℕ) (l : Lifecycle ms) (s : Hazards ms) → AllGrounded s → AllGrounded (sweep ms now l s)
  unfolding sweep
  sweep-Grounded now l s all =
      retire_all-Grounded (sweep_all ms now l s.active).1
        (record s { active = (sweep_all ms now l s.active).0 })
        (λ i h e.
          from i h (Option-cases (Dict.get i s.active))
            (sym (get-sweep_all ms now l i s.active) ∙ e))
    where
      from :
          (i : ℕ) (h : H)
          → (Dict.get i s.active ≡ none) ⊎ ((x : H) × (Dict.get i s.active ≡ some x))
          → Option.map (swept ms now l) (Dict.get i s.active) ≡ some h
          → Grounded h
      from i h (inl gone) e =
          absurd (ground (arith, ap (Option.map (swept ms now l)) (sym gone) ∙ e))
      from i h (inr (x, there)) e =
          let it : swept ms now l x ≡ h =
            Dict.some_injective (ap (Option.map (swept ms now l)) (sym there) ∙ e) in
          subst Grounded it (swept-Grounded now l x (all i x there))

  new-Grounded : (i : ℕ) (o : HazardObservation ms.F ms.Point) → Grounded (new_hazard ms i o)
  unfolding new_hazard
  new-Grounded i o = record { distinct = (refl, tt); enough = refl }

  absorb-Grounded :
      (t : Tunables ms) (new : ℕ) (o : HazardObservation ms.F ms.Point) (best : Option ℕ)
      (s : Hazards ms)
      → t.verification_source_count ≡ count
      → AllGrounded s
      → AllGrounded (absorb ms t new o best (looked_up ms best s) s)
  absorb-Grounded t new o none s same all =
      file-Grounded new (new_hazard ms new o) s (new-Grounded new o) all
  absorb-Grounded t new o (some i) s same all = elim (Option-cases (Dict.get i s.active)) [
    | inl gone ↦ rw gone (file-Grounded new (new_hazard ms new o) s (new-Grounded new o) all)
    | inr (h, there) ↦
        rw there
          (file-Grounded i (merged ms t h o) s (merged-Grounded t h o same (all i h there)) all)
  ]

  ingest-Grounded :
      (t : Tunables ms) (new : ℕ) (o : HazardObservation ms.F ms.Point) (s : Hazards ms)
      → t.verification_source_count ≡ count
      → AllGrounded s
      → AllGrounded (ingest_observation ms t new o s)
  unfolding ingest_observation
  ingest-Grounded t new o s same all =
      elim (Bool-cases (ms.at_most t.min_association_score (find_best_match ms t o s).1)) [
        | inl matched ↦ rw matched (absorb-Grounded t new o (find_best_match ms t o s).0 s same all)
        | inr fresh ↦ rw fresh (absorb-Grounded t new o none s same all)
      ]

  contradict-Grounded :
      (i : ℕ) (s : Hazards ms)
      → AllGrounded s
      → AllGrounded (contradict ms i (Dict.get i s.active) s)
  unfolding contradict contradicted
  contradict-Grounded i s all = elim (Option-cases (Dict.get i s.active)) [
    | inl gone ↦ rw gone all
    | inr (h, there) ↦
        let c : H = contradicted ms h in
        let g = all i h there in
        let out : H = record c { state = expired } in
        let low : H = record c { state = stale } in
        elim (Bool-cases (ms.less c.confidence (ms.hundredths 10))) [
          | inl weak ↦
              rw (there, weak)
                (retire-Grounded i (record s { active = Dict.put i out s.active })
                  (put-Grounded i out s.active (record { distinct = g.distinct; enough = refl })
                    all))
          | inr strong ↦ elim (Bool-cases (ms.less c.confidence (ms.hundredths 30))) [
            | inl fading ↦
                rw (there, strong, fading)
                  (file-Grounded i low s (record { distinct = g.distinct; enough = refl }) all)
            | inr high ↦
                rw (there, strong, high)
                  (file-Grounded i c s (record { distinct = g.distinct; enough = g.enough }) all)
          ]
        ]
  ]

  contradict_all-Grounded :
      (is : List ℕ) (s : Hazards ms) → AllGrounded s → AllGrounded (contradict_all ms is s)
  unfolding contradict_all
  contradict_all-Grounded [] s all = all
  contradict_all-Grounded (i ∷ is) s all =
      contradict_all-Grounded is (contradict ms i (Dict.get i s.active) s)
        (contradict-Grounded i s all)

  -- The engine is set to `count` sources.
  abbrev pub IsTuned : Operation ms → Type 0
  IsTuned (ingests t new o) = t.verification_source_count ≡ count
  IsTuned _ = Unit {0}

  -- Where the engine asks for `count` sources, every operation of the engine and of its lifecycle manager
  -- keeps this: the sources of an active hazard are distinct, and a verified one has at least `count`.
  pub operate-Grounded :
      (op : Operation ms) (s : Hazards ms)
      → IsTuned op
      → AllGrounded s
      → AllGrounded (operate ms op s)
  unfolding operate apply_negative_evidence
  operate-Grounded (ingests t new o) s same all = ingest-Grounded t new o s same all
  operate-Grounded (contradicts radius p t) s set all =
      contradict_all-Grounded (nearby ms p radius (some t) s) s all
  operate-Grounded (sweeps now l) s set all = sweep-Grounded now l s all
