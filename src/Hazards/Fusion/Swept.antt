-- ===== src/Hazards/Fusion/Swept.antt =====
-- What `sweep` of services/hazards/marga_hazards/lifecycle.py leaves active and what it archives.
use mathlib.Core.Option
use marga.Prelude.{
  Option-cases, ℕ, ◌-◌, ◌<◌, ◌≤◌, ◌≡◌, refl, sym, ap, ◌∙◌, inl, inr, Bool, true, false, Option,
  none, some, List, [], ◌∷◌, arith, if◌then◌else◌, Bool-cases, nat_eqb, nat_eqb_iff, nat_eq,
}
use marga.Prelude.Dict
use marga.Prelude.Dict.{Dict}
use marga.Prelude.Tidy
use marga.Hazards.Hazard.{Hazard}
use marga.Hazards.Spatial.{elem}
use marga.Hazards.Lifecycle.{
  Measures, Hazards, Lifecycle, swept, is_gone, is_changed, is_expired, decayed, sweep_all,
  archived, retire, retire_all, sweep,
}
use marga.Hazards.Fusion.Agreement.{Agree, get-sweep_all, sweep-Agree}

module _ (ms : Measures) where
  abbrev H : Type 0
  H = Hazard ms.F ms.Point

  abbrev pub or_else : Option H → Option H → Option H
  or_else none b = b
  or_else (some a) b = some a

  get-retire_all :
      (i : ℕ) (is : List ℕ) (s : Hazards ms)
      → Dict.get i (retire_all ms is s).active ≡ (if elem i is then none else Dict.get i s.active)
  unfolding retire_all retire elem
  get-retire_all i [] s = refl
  get-retire_all i (j ∷ is) s =
      get-retire_all i is (retire ms j s) ∙ ground (arith, Dict.get-pop j i s.active)

  get-archived :
      (i j : ℕ) (o : Option H) (d : Dict ℕ H)
      → Dict.get i (archived ms j o d)
        ≡ (if nat_eqb j i then or_else o (Dict.get i d) else Dict.get i d)
  get-archived i j none d = ground arith
  get-archived i j (some h) d = Dict.get-put j i h d ∙ ground arith

  archive-retire_all :
      (i : ℕ) (is : List ℕ) (s : Hazards ms)
      → Dict.get i (retire_all ms is s).expired_archive ≡ (
          if elem i is
          then or_else (Dict.get i s.active) (Dict.get i s.expired_archive)
          else Dict.get i s.expired_archive)
  unfolding retire_all retire elem
  archive-retire_all i [] s = refl
  archive-retire_all i (j ∷ is) s =
      archive-retire_all i is (retire ms j s) ∙ elim (Bool-cases (nat_eqb j i)) [
        | inr other ↦ ground (
          arith,
          other,
          Dict.get-pop j i s.active,
          get-archived i j (Dict.get j s.active) s.expired_archive,
        )
        | inl same ↦
            let it : Dict.get j s.active ≡ Dict.get i s.active =
              ap (λ x. Dict.get x s.active) ((nat_eqb_iff j i).0 same) in
            ground (
              arith,
              same,
              it,
              Dict.get-pop j i s.active,
              get-archived i j (Dict.get j s.active) s.expired_archive,
            )
      ]

  -- Whether the sweep takes the hazard of an identifier out of the store.
  abbrev pub leaves : ℕ → Lifecycle ms → Option H → Bool
  leaves now l none = false
  leaves now l (some h) = is_gone ms now l h

  elem-gone :
      (now : ℕ) (l : Lifecycle ms) (i : ℕ) (d : Dict ℕ H)
      → Tidy.Tidy (λ (h : H). h.hazard_id) d
      → elem i (sweep_all ms now l d).1 ≡ leaves now l (Dict.get i d)
  unfolding sweep_all elem Tidy.Tidy Dict.get
  elem-gone now l i [] t = refl
  elem-gone now l i ((j, h) ∷ d) (own, new, t) =
      let rest = elem-gone now l i d t in
      elim (Bool-cases (nat_eqb j i)) [
        | inr other ↦ ground (arith, other, rest)
        | inl same ↦
            let gone : Dict.get i d ≡ none =
              ap (λ x. Dict.get x d) (sym ((nat_eqb_iff j i).0 same)) ∙ new in
            ground (arith, same, rest ∙ ap (leaves now l) gone)
      ]

  -- A sweep over a store in which each hazard stands under its own identifier: a hazard that it expires, by
  -- its age or by its confidence, is in the archive and no longer active; every other active hazard stays,
  -- as the sweep leaves it; and the archive keeps what it held of other identifiers.
  pub sweep_lem :
      (now : ℕ) (l : Lifecycle ms) (s : Hazards ms) (i : ℕ)
      → Agree ms s
      → (Dict.get i (sweep ms now l s).active ≡ (
          if leaves now l (Dict.get i s.active)
          then none
          else Option.map (swept ms now l) (Dict.get i s.active)))
        × (Dict.get i (sweep ms now l s).expired_archive ≡ (
            if leaves now l (Dict.get i s.active)
            then or_else
                (Option.map (swept ms now l) (Dict.get i s.active))
                (Dict.get i s.expired_archive)
            else Dict.get i s.expired_archive))
  unfolding sweep
  sweep_lem now l s i v =
      let (after, gone) = sweep_all ms now l s.active in
      let s' : Hazards ms = record s { active = after } in
      let out = elem-gone now l i s.active v.tidy in
      let there = get-sweep_all ms now l i s.active in
      (
        get-retire_all i gone s'
            ∙ ap (λ b. if b then none else Dict.get i after) out
            ∙ ap (λ o. if leaves now l (Dict.get i s.active) then none else o) there,
        archive-retire_all i gone s'
            ∙ ap
                (λ b.
                  if b
                  then or_else (Dict.get i after) (Dict.get i s.expired_archive)
                  else Dict.get i s.expired_archive)
                out
            ∙ ap
                (λ o.
                  if leaves now l (Dict.get i s.active)
                  then or_else o (Dict.get i s.expired_archive)
                  else Dict.get i s.expired_archive)
                there,
      )

  -- A hazard that is active after a sweep is what the sweep makes of one that was active before.
  survivor :
      (now : ℕ) (l : Lifecycle ms) (s : Hazards ms) (i : ℕ) {h k : H}
      → Agree ms s
      → Dict.get i s.active ≡ some h
      → Dict.get i (sweep ms now l s).active ≡ some k
      → (k ≡ swept ms now l h) × (is_gone ms now l h ≡ false)
  survivor now l s i {h} {k} v there after =
      let out = (sweep_lem now l s i v).0 in
      elim (Bool-cases (is_gone ms now l h)) [
        | inl gone ↦ absurd (ground (arith, out, there, gone, after))
        | inr stays ↦ (ground (arith, out, there, stays, after), stays)
      ]

  -- A confidence after a time since the hazard was last seen, and one that is not below nought.
  abbrev pub fade : ms.F → ℕ → Lifecycle ms → ms.F
  fade c elapsed l = ms.mul c (ms.half_power elapsed l.decay_half_life)

  abbrev pub floored : ms.F → ms.F
  floored c = ms.max_of (ms.hundredths 0) c

  -- The confidence that a sweep writes.
  swept-confidence :
      (now : ℕ) (l : Lifecycle ms) (h : H)
      → h.last_seen < now
      → 0 < l.decay_half_life
      → is_expired h.state ≡ false
      → ms.differs (fade h.confidence (now - h.last_seen) l) h.confidence ≡ true
      → (swept ms now l h).confidence ≡ floored (fade h.confidence (now - h.last_seen) l)
  unfolding swept is_changed decayed
  swept-confidence now l h seen on active fades = ground arith

  swept-kept :
      (now : ℕ) (l : Lifecycle ms) (h : H)
      → is_expired h.state ≡ false
      → is_gone ms now l h ≡ false
      → ((swept ms now l h).last_seen ≡ h.last_seen) × (is_expired (swept ms now l h).state ≡ false)
  unfolding swept is_gone
  swept-kept now l h active stays = ground arith

  -- On a store and an index that agree, with a positive half-life: a hazard of the store that is not expired
  -- goes through two sweeps, both after it was last seen, and is still active. Where each of them fades its
  -- confidence by more than the tolerance, the decays multiply, each over the whole time since the hazard
  -- was last seen, though the spans overlap.
  pub decays_overlap :
      (first later : ℕ) (l : Lifecycle ms) (s : Hazards ms) (i : ℕ) {h k : H}
      → Agree ms s
      → Dict.get i s.active ≡ some h
      → is_expired h.state ≡ false
      → h.last_seen < first
      → first ≤ later
      → 0 < l.decay_half_life
      → Dict.get i (sweep ms later l (sweep ms first l s)).active ≡ some k
      → ms.differs (fade h.confidence (first - h.last_seen) l) h.confidence ≡ true
      → ms.differs
          (fade (floored (fade h.confidence (first - h.last_seen) l)) (later - h.last_seen) l)
          (floored (fade h.confidence (first - h.last_seen) l))
        ≡ true
      → k.confidence
        ≡ floored
            (fade (floored (fade h.confidence (first - h.last_seen) l)) (later - h.last_seen) l)
  decays_overlap first later l s i {h} {k} v there active seen order on kept fades again =
      let v' = sweep-Agree ms first l v in
      elim (Option-cases (Dict.get i (sweep ms first l s).active)) [
        | inl gone ↦
            absurd (ground (arith, (sweep_lem later l (sweep ms first l s) i v').0, gone, kept))
        | inr (h', there') ↦
            let (same, stays) = survivor first l s i v there there' in
            let (same', stays') =
              survivor later l (sweep ms first l s) i v' (there' ∙ ap some same) kept in
            let (seen', active') = swept-kept first l h active stays in
            let once : (swept ms first l h).confidence
                ≡ floored (fade h.confidence (first - h.last_seen) l) =
              swept-confidence first l h seen on active fades in
            let twice =
              swept-confidence later l (swept ms first l h) (rw seen' (omega (arith, seen, order)))
                on active' (rw (seen', once) again) in
            ap (λ (x : H). x.confidence) same' ∙ twice ∙ rw (seen', once) refl
      ]
