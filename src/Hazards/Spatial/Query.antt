-- ===== src/Hazards/Spatial/Query.antt =====
-- What `query_nearby` of services/hazards/marga_hazards/spatial.py finds.
use marga.Prelude.{
  ℕ, zero, suc, ◌+◌, ◌-◌, ◌≤◌, ◌≡◌, refl, sym, ap, ◌∙◌, ◌↔◌, inl, inr, Bool, true, false, ◌&&◌,
  ◌||◌, Option, none, some, List, [], ◌∷◌, ◌++◌, arith, Bool-cases, Option-cases, nat_eqb,
  nat_eqb_iff, ltb, leb, keep, ◌==◌, nat_eq, pair_eq,
}
use marga.Prelude.Dict
use marga.Hazards.Spatial.{
  Cell, SpatialIndex, elem, bucket, range_from, row, block, cells_around, visit, query_nearby,
}
use marga.Hazards.Spatial.Agreement.{is_at, IsIndex, elem-append}

has : Cell → List Cell → Bool
has k [] = false
has k (c ∷ cs) = c == k || has k cs

has-append : (k : Cell) (xs ys : List Cell) → has k (xs ++ ys) ≡ (has k xs || has k ys)
unfolding has
has-append k [] ys = refl
has-append k (x ∷ xs) ys =
    ap (λ b. x == k || b) (has-append k xs ys) ∙ or_assoc (x == k) (has k xs) (has k ys)
  where
    or_assoc : (a b c : Bool) → (a || (b || c)) ≡ ((a || b) || c)
    or_assoc true b c = refl
    or_assoc false b c = refl

has-row : (k : Cell) (x : ℕ) (ys : List ℕ) → has k (row x ys) ≡ (nat_eqb x k.0 && elem k.1 ys)
unfolding has row elem
has-row k x [] = ground arith
has-row k x (y ∷ ys) = ground (arith, has-row k x ys)

has-block : (k : Cell) (xs ys : List ℕ) → has k (block xs ys) ≡ (elem k.0 xs && elem k.1 ys)
unfolding has block elem
has-block k [] ys = refl
has-block k (x ∷ xs) ys =
    has-append k (row x ys) (block xs ys) ∙ ground (arith, has-row k x ys, has-block k xs ys)

elem-range : (x a n : ℕ) → elem x (range_from a n) ≡ (leb a x && ltb x (a + n))
unfolding elem range_from
elem-range x a zero = ground arith
elem-range x a (suc n) = ground (arith, elem-range x (suc a) n)

-- Whether a hazard is filed under one of the cells.
placed : Option Cell → List Cell → Bool
placed none cells = false
placed (some k) cells = has k cells

elem-visit :
    (i : ℕ) (cells : List Cell) (ix : SpatialIndex)
    → IsIndex ix
    → elem i (visit cells ix) ≡ placed (Dict.get i ix.id_to_key) cells
unfolding visit placed has elem
elem-visit i [] ix v = nowhere (Dict.get i ix.id_to_key)
  where
    nowhere : (o : Option Cell) → false ≡ placed o []
    nowhere none = refl
    nowhere (some k) = refl
elem-visit i (c ∷ cells) ix v =
    elem-append i (bucket c ix.grid) (visit cells ix)
    ∙ ap (λ b. b || elem i (visit cells ix)) (v.agrees i c)
    ∙ ap (λ b. is_at c (Dict.get i ix.id_to_key) || b) (elem-visit i cells ix v)
    ∙ joined (Dict.get i ix.id_to_key)
  where
    joined : (o : Option Cell) → (is_at c o || placed o cells) ≡ placed o (c ∷ cells)
    joined none = refl
    joined (some k) = ground arith

elem-keep : (i : ℕ) (p : ℕ → Bool) (ids : List ℕ) → elem i (keep p ids) ≡ (p i && elem i ids)
unfolding elem keep
elem-keep i p [] = ground arith
elem-keep i p (j ∷ js) = elim (Bool-cases (p j)) [
  | inl good ↦ elim (Bool-cases (nat_eqb j i)) [
    | inl same ↦
        let mine : p i ≡ true = ap p (sym ((nat_eqb_iff j i).0 same)) ∙ good in
        ground (arith, good, same, mine)
    | inr other ↦ ground (arith, good, other, elem-keep i p js)
  ]
  | inr bad ↦ elim (Bool-cases (nat_eqb j i)) [
    | inl same ↦
        let mine : p i ≡ false = ap p (sym ((nat_eqb_iff j i).0 same)) ∙ bad in
        ground (arith, bad, mine, elem-keep i p js)
    | inr other ↦ ground (arith, bad, other, elem-keep i p js)
  ]
]

-- A cell at most `span` cells away, in each direction.
abbrev pub IsNear : Cell → ℕ → Cell → Type 0
IsNear centre span k =
    (centre.0 ≤ k.0 + span)
    × (k.0 ≤ centre.0 + span)
    × (centre.1 ≤ k.1 + span)
    × (k.1 ≤ centre.1 + span)

has-around :
    (centre : Cell) (span : ℕ) (k : Cell)
    → span ≤ centre.0
    → span ≤ centre.1
    → (has k (cells_around centre span) ≡ true) ↔ IsNear centre span k
unfolding cells_around
has-around centre span k hx hy = (forward, backward)
  where
    xs : List ℕ
    xs = range_from (centre.0 - span) (span + span + 1)

    ys : List ℕ
    ys = range_from (centre.1 - span) (span + span + 1)

    both : has k (block xs ys) ≡ (elem k.0 xs && elem k.1 ys)
    both = has-block k xs ys

    forward : has k (block xs ys) ≡ true → IsNear centre span k
    forward h = ground (
      arith,
      both,
      elem-range k.0 (centre.0 - span) (span + span + 1),
      elem-range k.1 (centre.1 - span) (span + span + 1),
    )

    backward : IsNear centre span k → has k (block xs ys) ≡ true
    backward near = ground (
      arith,
      both,
      elem-range k.0 (centre.0 - span) (span + span + 1),
      elem-range k.1 (centre.1 - span) (span + span + 1),
    )

-- On an index whose maps agree, a query returns exactly the hazards that pass its tests and are filed under
-- a cell at most `span` cells away from the centre in each direction, as a scan of all of them would.
pub query_nearby_iff :
    (centre : Cell) (span : ℕ) (passes : ℕ → Bool) (ix : SpatialIndex) (i : ℕ)
    → IsIndex ix
    → span ≤ centre.0
    → span ≤ centre.1
    → (elem i (query_nearby centre span passes ix) ≡ true)
      ↔ ((passes i ≡ true) × (k : Cell) × (Dict.get i ix.id_to_key ≡ some k) × IsNear centre span k)
unfolding query_nearby placed
query_nearby_iff centre span passes ix i v hx hy = (forward, backward)
  where
    cells : List Cell
    cells = cells_around centre span

    found :
        elem i (keep passes (visit cells ix)) ≡ (passes i && placed (Dict.get i ix.id_to_key) cells)
    found = elem-keep i passes (visit cells ix) ∙ ap (λ b. passes i && b) (elem-visit i cells ix v)

    forward :
        elem i (keep passes (visit cells ix)) ≡ true
        → (passes i ≡ true) × (k : Cell) × (Dict.get i ix.id_to_key ≡ some k) × IsNear centre span k
    forward h = elim (Option-cases (Dict.get i ix.id_to_key)) [
      | inl absent ↦
          let nothing : (passes i && false) ≡ true =
            ap (λ o. passes i && placed o cells) (sym absent) ∙ sym found ∙ h in
          absurd (ground (arith, nothing))
      | inr (k, filed) ↦
          let here : (passes i && has k cells) ≡ true =
            ap (λ o. passes i && placed o cells) (sym filed) ∙ sym found ∙ h in
          (
            ground (arith, here),
            k,
            filed,
            (has-around centre span k hx hy).0 (ground (arith, here)),
          )
    ]

    backward :
        ((passes i ≡ true) × (k : Cell) × (Dict.get i ix.id_to_key ≡ some k) × IsNear centre span k)
        → elem i (keep passes (visit cells ix)) ≡ true
    backward (good, k, filed, near) =
        found
        ∙ ap (λ o. passes i && placed o cells) filed
        ∙ ap (λ b. b && has k cells) good
        ∙ (has-around centre span k hx hy).1 near
