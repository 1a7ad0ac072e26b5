-- ===== src/Hazards/Spatial/Agreement.antt =====
-- The two maps of services/hazards/marga_hazards/spatial.py agree.
use marga.Prelude.{
  ℕ, ◌≡◌, refl, sym, ap, ◌∙◌, inl, inr, Bool, true, false, not, ◌&&◌, ◌||◌, Option, none, some,
  List, [], ◌∷◌, ◌++◌, arith, if◌then◌else◌, Bool-cases, Option-cases, nat_eqb, nat_eqb_iff, ◌==◌,
  nat_eq, pair_eq, pair_eqb_iff, Eq,
}
use marga.Prelude.Dict
use marga.Hazards.Spatial.{
  Cell, SpatialIndex, elem, add, remove, bucket, store_bucket, drop_from, remove_hazard, insert,
}

abbrev pub is_at : Cell → Option Cell → Bool
is_at k none = false
is_at k (some j) = j == k

-- A cell holds exactly the hazards that are filed under it.
pub record IsIndex (ix : SpatialIndex) : Type 0 where
  pub agrees : (i : ℕ) (k : Cell) → elem i (bucket k ix.grid) ≡ is_at k (Dict.get i ix.id_to_key)

pub elem-append : (i : ℕ) (xs ys : List ℕ) → elem i (xs ++ ys) ≡ (elem i xs || elem i ys)
unfolding elem
elem-append i [] ys = refl
elem-append i (x ∷ xs) ys = ground (arith, elem-append i xs ys)

elem_one : (i j : ℕ) → elem i (j ∷ []) ≡ nat_eqb j i
unfolding elem
elem_one i j = ground arith

elem-add : (i j : ℕ) (ids : List ℕ) → elem i (add j ids) ≡ (nat_eqb j i || elem i ids)
elem-add i j ids = elim (Bool-cases (elem j ids)) [
  | inr new ↦ ground (arith, new, elem-append i ids (j ∷ []), elem_one i j)
  | inl old ↦ elim (Bool-cases (nat_eqb j i)) [
    | inr other ↦ ground (arith, old, other)
    | inl same ↦
        let there : elem i ids ≡ true =
          ap (λ x. elem x ids) (sym ((nat_eqb_iff j i).0 same)) ∙ old in
        ground (arith, old, same, there)
  ]
]

elem-remove : (i j : ℕ) (ids : List ℕ) → elem i (remove j ids) ≡ (not (nat_eqb j i) && elem i ids)
unfolding elem remove
elem-remove i j [] = ground arith
elem-remove i j (x ∷ xs) = ground (arith, elem-remove i j xs, nat_eqb_iff x i, nat_eqb_iff x j)

module _ {K : Type 0} ⦃e : Eq K⦄ where
  bucket-put :
      (k c : K) (ids : List ℕ) (grid : Dict.Dict K (List ℕ))
      → bucket c (Dict.put k ids grid) ≡ (if k == c then ids else bucket c grid)
  unfolding bucket
  bucket-put k c ids grid = ground (arith, Dict.get-put k c ids grid)

  bucket-store :
      (k c : K) (ids : List ℕ) (grid : Dict.Dict K (List ℕ))
      → bucket c (store_bucket k ids grid) ≡ (if k == c then ids else bucket c grid)
  unfolding bucket
  bucket-store k c [] grid = ground (arith, Dict.get-pop k c grid)
  bucket-store k c (j ∷ js) grid = ground (arith, Dict.get-put k c (j ∷ js) grid)

  bucket-none :
      (k c : K) (grid : Dict.Dict K (List ℕ))
      → Dict.get k grid ≡ none
      → (k == c) ≡ true
      → bucket c grid ≡ []
  unfolding bucket
  bucket-none k c grid empty same =
      let there : Dict.get c grid ≡ none =
        ap (λ x. Dict.get x grid) (sym ((e.eqb_iff k c).0 same)) ∙ empty in
      ground (arith, there)

  bucket-some :
      (k c : K) (ids : List ℕ) (grid : Dict.Dict K (List ℕ))
      → Dict.get k grid ≡ some ids
      → (k == c) ≡ true
      → bucket c grid ≡ ids
  unfolding bucket
  bucket-some k c ids grid held same =
      let there : Dict.get c grid ≡ some ids =
        ap (λ x. Dict.get x grid) (sym ((e.eqb_iff k c).0 same)) ∙ held in
      ground (arith, there)

  bucket-drop :
      (i : ℕ) (k c : K) (grid : Dict.Dict K (List ℕ))
      → bucket c (drop_from i k (Dict.get k grid) grid)
        ≡ (if k == c then remove i (bucket c grid) else bucket c grid)
  unfolding remove
  bucket-drop i k c grid = elim (Option-cases (Dict.get k grid)) [
    | inl empty ↦ elim (Bool-cases (k == c)) [
      | inr other ↦ rw (empty, other) refl
      | inl same ↦ ground (arith, empty, same, bucket-none k c grid empty same)
    ]
    | inr (ids, held) ↦ elim (Bool-cases (k == c)) [
      | inr other ↦ ground (arith, held, other, bucket-store k c (remove i ids) grid)
      | inl same ↦ ground (
        arith,
        held,
        same,
        bucket-store k c (remove i ids) grid,
        bucket-some k c ids grid held same,
      )
    ]
  ]

module _ {ix : SpatialIndex} (v : IsIndex ix) (i : ℕ) (k : Cell)
    (filed : Dict.get i ix.id_to_key ≡ some k) where
  drop-agrees :
      (j : ℕ) (c : Cell)
      → elem j (bucket c (drop_from i k (Dict.get k ix.grid) ix.grid))
        ≡ is_at c (Dict.get j (Dict.pop i ix.id_to_key))
  drop-agrees j c =
      let b = ap (elem j) (bucket-drop i k c ix.grid) in
      elim (Bool-cases (nat_eqb i j)) [
        | inr other ↦
            b
            ∙ spread other (k == c)
            ∙ v.agrees j c
            ∙ ap (is_at c) (sym (Dict.get-pop_other i j ix.id_to_key other))
        | inl same ↦
            let own : i ≡ j = (nat_eqb_iff i j).0 same in
            let mine : elem j (bucket c ix.grid) ≡ (k == c) =
              v.agrees j c ∙ ap (is_at c) (ap (λ x. Dict.get x ix.id_to_key) (sym own) ∙ filed) in
            let gone : Dict.get j (Dict.pop i ix.id_to_key) ≡ none =
              ap (λ x. Dict.get x (Dict.pop i ix.id_to_key)) (sym own)
              ∙ Dict.get-pop_self i ix.id_to_key in
            b ∙ clean same (k == c) mine ∙ ap (is_at c) (sym gone)
      ]
    where
      spread :
          nat_eqb i j ≡ false
          → (here : Bool)
          → elem j (if here then remove i (bucket c ix.grid) else bucket c ix.grid)
            ≡ elem j (bucket c ix.grid)
      spread other true = ground (arith, other, elem-remove j i (bucket c ix.grid))
      spread other false = refl

      clean :
          nat_eqb i j ≡ true
          → (here : Bool) → elem j (bucket c ix.grid) ≡ here
          → elem j (if here then remove i (bucket c ix.grid) else bucket c ix.grid) ≡ false
      clean same true e = ground (arith, same, elem-remove j i (bucket c ix.grid))
      clean same false e = e

-- Taking a hazard out of the index keeps its two maps in agreement.
pub remove_hazard-IsIndex : (i : ℕ) {ix : SpatialIndex} → IsIndex ix → IsIndex (remove_hazard i ix)
unfolding remove_hazard
remove_hazard-IsIndex i {ix} v = elim (Option-cases (Dict.get i ix.id_to_key)) [
  | inl absent ↦ rw (absent, remove_hazard) v
  | inr (k, filed) ↦ rw (filed, remove_hazard) (record { agrees = drop-agrees v i k filed })
]

pub remove_hazard-absent :
    (i : ℕ) (ix : SpatialIndex) → Dict.get i (remove_hazard i ix).id_to_key ≡ none
unfolding remove_hazard
remove_hazard-absent i ix = elim (Option-cases (Dict.get i ix.id_to_key)) [
  | inl absent ↦ rw (absent, remove_hazard) absent
  | inr (k, filed) ↦ rw (filed, remove_hazard) (Dict.get-pop_self i ix.id_to_key)
]

module _ {ix : SpatialIndex} (v : IsIndex ix) (i : ℕ) (k : Cell)
    (absent : Dict.get i ix.id_to_key ≡ none) where
  filed-agrees :
      (j : ℕ) (c : Cell)
      → elem j (bucket c (Dict.put k (add i (bucket k ix.grid)) ix.grid))
        ≡ is_at c (Dict.get j (Dict.put i k ix.id_to_key))
  filed-agrees j c =
      let b = ap (elem j) (bucket-put k c (add i (bucket k ix.grid)) ix.grid) in
      let p = Dict.get-put i j k ix.id_to_key in
      elim (Bool-cases (nat_eqb i j)) [
        | inl same ↦
            let gone : Dict.get j ix.id_to_key ≡ none =
              ap (λ x. Dict.get x ix.id_to_key) (sym ((nat_eqb_iff i j).0 same)) ∙ absent in
            let new : Dict.get j (Dict.put i k ix.id_to_key) ≡ some k = rw same at p in
            b ∙ mine same (k == c) (v.agrees j c ∙ ap (is_at c) gone) ∙ ap (is_at c) (sym new)
        | inr other ↦
            let old : Dict.get j (Dict.put i k ix.id_to_key) ≡ Dict.get j ix.id_to_key =
              rw other at p in
            b ∙ theirs other (k == c) refl ∙ v.agrees j c ∙ ap (is_at c) (sym old)
      ]
    where
      mine :
          nat_eqb i j ≡ true
          → (here : Bool) → elem j (bucket c ix.grid) ≡ false
          → elem j (if here then add i (bucket k ix.grid) else bucket c ix.grid) ≡ here
      mine same true e = ground (arith, same, elem-add j i (bucket k ix.grid))
      mine same false e = e

      theirs :
          nat_eqb i j ≡ false
          → (here : Bool) → (k == c) ≡ here
          → elem j (if here then add i (bucket k ix.grid) else bucket c ix.grid)
            ≡ elem j (bucket c ix.grid)
      theirs other true e =
          let place : k ≡ c = (pair_eqb_iff k c).0 e in
          elem-add j i (bucket k ix.grid)
          ∙ ap (λ b. b || elem j (bucket k ix.grid)) other
          ∙ ap (λ x. elem j (bucket x ix.grid)) place
      theirs other false e = refl

-- Filing a hazard under a cell, where it is filed already or not, keeps the two maps in agreement.
pub insert-IsIndex : (i : ℕ) (k : Cell) {ix : SpatialIndex} → IsIndex ix → IsIndex (insert i k ix)
unfolding insert
insert-IsIndex i k {ix} v = record {
  agrees = filed-agrees (remove_hazard-IsIndex i v) i k (remove_hazard-absent i ix);
}

pub get-remove :
    (i j : ℕ) (ix : SpatialIndex)
    → Dict.get j (remove_hazard i ix).id_to_key
      ≡ (if nat_eqb i j then none else Dict.get j ix.id_to_key)
unfolding remove_hazard
get-remove i j ix = elim (Option-cases (Dict.get i ix.id_to_key)) [
  | inr (k, filed) ↦ ground (arith, filed, Dict.get-pop i j ix.id_to_key)
  | inl absent ↦ ground (arith, absent, nat_eqb_iff i j)
]

pub get-insert :
    (i j : ℕ) (k : Cell) (ix : SpatialIndex)
    → Dict.get j (insert i k ix).id_to_key
      ≡ (if nat_eqb i j then some k else Dict.get j ix.id_to_key)
unfolding insert
get-insert i j k ix =
    ground (arith, Dict.get-put i j k (remove_hazard i ix).id_to_key, get-remove i j ix)
