-- ===== src/Hazards/Fusion/Agreement.antt =====
-- The store and the index of services/hazards/marga_hazards agree, whatever the engine and the lifecycle
-- manager do.
use mathlib.Core.Path.{subst}
use mathlib.Core.Option
use marga.Prelude.{
  ℕ, max, ◌≤◌, ◌≡◌, refl, sym, ap, ◌∙◌, ◌↔◌, inl, inr, Bool, true, false, Option, none, some, List,
  [], ◌∷◌, arith, if◌then◌else◌, Bool-cases, Option-cases, nat_eqb, nat_eqb_iff, nat_eq,
}
use marga.Prelude.Dict
use marga.Prelude.Dict.{Dict}
use marga.Prelude.Tidy
use marga.Hazards.Hazard.{Hazard, HazardType, HazardObservation, expired, stale}
use marga.Hazards.Spatial.{Cell, elem}
use marga.Hazards.Spatial.Agreement.{
  IsIndex, remove_hazard-IsIndex, insert-IsIndex, get-remove, get-insert,
}
use marga.Hazards.Spatial.Query.{IsNear, query_nearby_iff}
use marga.Hazards.Lifecycle.{
  Measures, Hazards, Lifecycle, swept, sweep_all, retire, retire_all, sweep,
}
use marga.Hazards.Fusion.{
  Tunables, file, new_hazard, merged, absorb, looked_up, find_best_match, ingest_observation,
  contradicted, contradict, contradict_all, apply_negative_evidence, nearby, passes,
}

module _ (ms : Measures) where
  abbrev pub H : Type 0
  H = Hazard ms.F ms.Point

  abbrev pub cell_at : Option H → Option Cell
  cell_at none = none
  cell_at (some h) = some (ms.cell_of h.position)

  -- The index files exactly the hazards of the store, each under the cell of its position, and the store
  -- holds each under its own identifier.
  pub record Agree (s : Hazards ms) : Type 0 where
    pub index : IsIndex s.spatial_index
    pub tidy : Tidy.Tidy (λ (h : H). h.hazard_id) s.active
    pub placed : (i : ℕ) → Dict.get i s.spatial_index.id_to_key ≡ cell_at (Dict.get i s.active)

  put_own-Tidy :
      (i : ℕ) (h : H) (d : Dict ℕ H)
      → h.hazard_id ≡ i
      → Tidy.Tidy (λ (x : H). x.hazard_id) d
      → Tidy.Tidy (λ (x : H). x.hazard_id) (Dict.put i h d)
  put_own-Tidy i h d own t =
      subst (λ k. Tidy.Tidy (λ (x : H). x.hazard_id) (Dict.put k h d)) own
        (Tidy.put-Tidy (λ (x : H). x.hazard_id) h d t)

  cell_at-if :
      (b : Bool) (x y : Option H)
      → cell_at (if b then x else y) ≡ (if b then cell_at x else cell_at y)
  cell_at-if true x y = refl
  cell_at-if false x y = refl

  pub file-Agree :
      (i : ℕ) (h : H) {s : Hazards ms} → h.hazard_id ≡ i → Agree s → Agree (file ms i h s)
  unfolding file
  file-Agree i h {s} own v = record {
    index = insert-IsIndex i (ms.cell_of h.position) v.index;
    tidy = put_own-Tidy i h s.active own v.tidy;
    placed = λ j.
        get-insert i j (ms.cell_of h.position) s.spatial_index
        ∙ ap (λ o. if nat_eqb i j then some (ms.cell_of h.position) else o) (v.placed j)
        ∙ sym (cell_at-if (nat_eqb i j) (some h) (Dict.get j s.active))
        ∙ ap cell_at (sym (Dict.get-put i j h s.active));
  }

  retire-Agree : (i : ℕ) {s : Hazards ms} → Agree s → Agree (retire ms i s)
  unfolding retire
  retire-Agree i {s} v = record {
    index = remove_hazard-IsIndex i v.index;
    tidy = Tidy.pop-Tidy _ i s.active v.tidy;
    placed = λ j.
        get-remove i j s.spatial_index
        ∙ ap (λ o. if nat_eqb i j then none else o) (v.placed j)
        ∙ sym (cell_at-if (nat_eqb i j) none (Dict.get j s.active))
        ∙ ap cell_at (sym (Dict.get-pop i j s.active));
  }

  -- A hazard is written without being moved.
  touch-Agree :
      (i : ℕ) (h old : H) {s : Hazards ms}
      → Dict.get i s.active ≡ some old
      → h.hazard_id ≡ i
      → h.position ≡ old.position
      → Agree s
      → Agree (record s { active = Dict.put i h s.active })
  touch-Agree i h old {s} there own still v = record {
    index = v.index;
    tidy = put_own-Tidy i h s.active own v.tidy;
    placed = λ j. elim (Bool-cases (nat_eqb i j)) [
      | inr other ↦ v.placed j ∙ ap cell_at (sym (Dict.get-put_other i j h s.active other))
      | inl same ↦
          let it : i ≡ j = (nat_eqb_iff i j).0 same in
          subst
            (λ k.
              Dict.get k s.spatial_index.id_to_key ≡ cell_at (Dict.get k (Dict.put i h s.active)))
            it
            (v.placed i
              ∙ ap cell_at there
              ∙ ap (λ p. some (ms.cell_of p)) (sym still)
              ∙ ap cell_at (sym (Dict.get-put_self i h s.active)))
    ];
  }

  own_id :
      (i : ℕ) (h : H) {s : Hazards ms} → Agree s → Dict.get i s.active ≡ some h → h.hazard_id ≡ i
  own_id i h {s} v there = Tidy.get-Tidy _ i h s.active v.tidy there

  absorb-Agree :
      (t : Tunables ms) (new : ℕ) (o : HazardObservation ms.F ms.Point) (best : Option ℕ)
      {s : Hazards ms}
      → Agree s
      → Agree (absorb ms t new o best (looked_up ms best s) s)
  unfolding new_hazard merged
  absorb-Agree t new o none v = file-Agree new (new_hazard ms new o) refl v
  absorb-Agree t new o (some i) {s} v = elim (Option-cases (Dict.get i s.active)) [
    | inl gone ↦ rw gone (file-Agree new (new_hazard ms new o) refl v)
    | inr (h, there) ↦ rw there (file-Agree i (merged ms t h o) (own_id i h v there) v)
  ]

  ingest_observation-Agree :
      (t : Tunables ms) (new : ℕ) (o : HazardObservation ms.F ms.Point) {s : Hazards ms}
      → Agree s
      → Agree (ingest_observation ms t new o s)
  unfolding ingest_observation
  ingest_observation-Agree t new o {s} v =
      elim (Bool-cases (ms.at_most t.min_association_score (find_best_match ms t o s).1)) [
        | inl matched ↦ rw matched (absorb-Agree t new o (find_best_match ms t o s).0 v)
        | inr fresh ↦ rw fresh (absorb-Agree t new o none v)
      ]

  contradict-Agree :
      (i : ℕ) {s : Hazards ms} → Agree s → Agree (contradict ms i (Dict.get i s.active) s)
  unfolding contradict contradicted
  contradict-Agree i {s} v = elim (Option-cases (Dict.get i s.active)) [
    | inl gone ↦ rw gone v
    | inr (h, there) ↦
        let c : H = contradicted ms h in
        let own = own_id i h v there in
        let out : Agree (
            retire ms i
              (record s { active = Dict.put i (record c { state = expired }) s.active })) =
          retire-Agree i (touch-Agree i (record c { state = expired }) h there own refl v) in
        elim (Bool-cases (ms.less c.confidence (ms.hundredths 10))) [
          | inl weak ↦ rw (there, weak) out
          | inr strong ↦ elim (Bool-cases (ms.less c.confidence (ms.hundredths 30))) [
            | inl low ↦ rw (there, strong, low) (file-Agree i (record c { state = stale }) own v)
            | inr high ↦ rw (there, strong, high) (file-Agree i c own v)
          ]
        ]
  ]

  contradict_all-Agree : (is : List ℕ) {s : Hazards ms} → Agree s → Agree (contradict_all ms is s)
  unfolding contradict_all
  contradict_all-Agree [] v = v
  contradict_all-Agree (i ∷ is) v = contradict_all-Agree is (contradict-Agree i v)

  swept_kept :
      (now : ℕ) (l : Lifecycle ms) (h : H)
      → ((swept ms now l h).hazard_id ≡ h.hazard_id) × ((swept ms now l h).position ≡ h.position)
  unfolding swept
  swept_kept now l h = ground arith

  pub get-sweep_all :
      (now : ℕ) (l : Lifecycle ms) (i : ℕ) (d : Dict ℕ H)
      → Dict.get i (sweep_all ms now l d).0 ≡ Option.map (swept ms now l) (Dict.get i d)
  unfolding sweep_all Dict.get
  get-sweep_all now l i [] = refl
  get-sweep_all now l i ((j, h) ∷ d) = elim (Bool-cases (nat_eqb j i)) [
    | inl same ↦ rw same refl
    | inr other ↦ rw other (get-sweep_all now l i d)
  ]

  sweep_all-Tidy :
      (now : ℕ) (l : Lifecycle ms) (d : Dict ℕ H)
      → Tidy.Tidy (λ (h : H). h.hazard_id) d
      → Tidy.Tidy (λ (h : H). h.hazard_id) (sweep_all ms now l d).0
  unfolding sweep_all Tidy.Tidy
  sweep_all-Tidy now l [] t = tt
  sweep_all-Tidy now l ((j, h) ∷ d) (own, new, t) = (
    (swept_kept now l h).0 ∙ own,
    get-sweep_all now l j d ∙ ap (Option.map (swept ms now l)) new,
    sweep_all-Tidy now l d t,
  )

  retire_all-Agree : (is : List ℕ) {s : Hazards ms} → Agree s → Agree (retire_all ms is s)
  unfolding retire_all
  retire_all-Agree [] v = v
  retire_all-Agree (i ∷ is) v = retire_all-Agree is (retire-Agree i v)

  pub sweep-Agree :
      (now : ℕ) (l : Lifecycle ms) {s : Hazards ms} → Agree s → Agree (sweep ms now l s)
  unfolding sweep
  sweep-Agree now l {s} v = retire_all-Agree (sweep_all ms now l s.active).1 (record {
    index = v.index;
    tidy = sweep_all-Tidy now l s.active v.tidy;
    placed = λ i.
        v.placed i
        ∙ unmoved (Dict.get i s.active)
        ∙ ap cell_at (sym (get-sweep_all now l i s.active));
  })
    where
      unmoved : (o : Option H) → cell_at o ≡ cell_at (Option.map (swept ms now l) o)
      unmoved none = refl
      unmoved (some h) = ap (λ p. some (ms.cell_of p)) (sym (swept_kept now l h).1)

  -- What the engine and its lifecycle manager do.
  pub data Operation : Type 0 where
    ingests : Tunables ms → ℕ → HazardObservation ms.F ms.Point → Operation
    contradicts : ms.F → ms.Point → HazardType → Operation
    sweeps : ℕ → Lifecycle ms → Operation

  unfoldable pub operate : Operation → Hazards ms → Hazards ms
  operate (ingests t new o) s = ingest_observation ms t new o s
  operate (contradicts radius p t) s = apply_negative_evidence ms radius p t s
  operate (sweeps now l) s = sweep ms now l s

  -- Every operation of the engine and of its lifecycle manager keeps the store and the index in agreement.
  pub operate-Agree : (op : Operation) {s : Hazards ms} → Agree s → Agree (operate op s)
  unfolding operate apply_negative_evidence
  operate-Agree (ingests t new o) v = ingest_observation-Agree t new o v
  operate-Agree (contradicts radius p t) {s} v =
      contradict_all-Agree (nearby ms p radius (some t) s) v
  operate-Agree (sweeps now l) v = sweep-Agree now l v

  -- On a store and an index that agree, a query for hazards returns exactly the active ones within the radius,
  -- of the type asked for, that are filed under a cell that the query visits.
  pub nearby_iff :
      (p : ms.Point) (radius : ms.F) (t : Option HazardType) (s : Hazards ms) (i : ℕ)
      → Agree s
      → max 1 (ms.cell_span radius) ≤ (ms.cell_of p).0
      → max 1 (ms.cell_span radius) ≤ (ms.cell_of p).1
      → (elem i (nearby ms p radius t s) ≡ true) ↔ (
          (h : H) × (Dict.get i s.active ≡ some h)
          × (passes ms p radius t (some h) ≡ true)
          × IsNear (ms.cell_of p) (max 1 (ms.cell_span radius)) (ms.cell_of h.position))
  unfolding nearby
  nearby_iff p radius t s i v hx hy =
      let span : ℕ = max 1 (ms.cell_span radius) in
      let q =
        query_nearby_iff (ms.cell_of p) span (λ j. passes ms p radius t (Dict.get j s.active))
          s.spatial_index i v.index hx hy in
      (
        λ found.
            let (good, k, filed, near) = q.0 found in
            elim (Option-cases (Dict.get i s.active)) [
              | inl gone ↦
                  let both : Path (Option Cell) (some k) none =
                    sym filed ∙ v.placed i ∙ ap cell_at gone in
                  absurd (ground (arith, both))
              | inr (h, there) ↦
                  let here : k ≡ ms.cell_of h.position =
                    Dict.some_injective (sym filed ∙ v.placed i ∙ ap cell_at there) in
                  (
                    h,
                    there,
                    ap (passes ms p radius t) (sym there) ∙ good,
                    subst (IsNear (ms.cell_of p) span) here near,
                  )
            ],
        λ w. q.1 (
          ap (passes ms p radius t) w.1 ∙ w.2,
          ms.cell_of w.0.position,
          v.placed i ∙ ap cell_at w.1,
          w.3,
        ),
      )
