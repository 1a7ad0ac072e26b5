-- ===== src/Hazards/Fusion/Sources.antt =====
-- The sources that services/hazards/marga_hazards/fusion.py keeps of a hazard.
use marga.Prelude.{
  ◌≤◌, ◌≡◌, refl, inl, inr, String, true, false, List, [], ◌∷◌, ◌++◌, arith, Bool-cases, nat_eq,
  length, length-append, string_eq,
}
use marga.Hazards.Observed.{has_source, sources_with}

-- No source is named twice.
abbrev pub Distinct : List String → Type 0
Distinct [] = Unit {0}
Distinct (s ∷ rest) = (has_source s rest ≡ false) × Distinct rest

has_source-append :
    (s x : String) (xs : List String)
    → has_source s (xs ++ x ∷ []) ≡ true
    → (has_source s xs ≡ false)
    → s ≡ x
has_source-append s x [] h no_one = ground (arith, string_eq.eqb_iff x s)
has_source-append s x (y ∷ ys) h no_one = ground (arith, has_source-append s x ys)

append-Distinct :
    (x : String) (xs : List String)
    → has_source x xs ≡ false
    → Distinct xs
    → Distinct (xs ++ x ∷ [])
append-Distinct x [] new d = (refl, tt)
append-Distinct x (y ∷ ys) new (other, d) = (
  elim (Bool-cases (has_source y (ys ++ x ∷ []))) [
    | inr none_there ↦ none_there
    | inl there ↦
        let same : y ≡ x = has_source-append y x ys there other in
        absurd (ground (arith, new, string_eq.eqb_iff y x))
  ],
  append-Distinct x ys (ground (arith, new)) d,
)

pub sources_with-Distinct :
    (s : String) (xs : List String) → Distinct xs → Distinct (sources_with s xs)
sources_with-Distinct s xs d = elim (Bool-cases (has_source s xs)) [
  | inl old ↦ rw old d
  | inr new ↦ rw new (append-Distinct s xs new d)
]

pub sources_with-le : (s : String) (xs : List String) → length xs ≤ length (sources_with s xs)
sources_with-le s xs = elim (Bool-cases (has_source s xs)) [
  | inl old ↦ rw old (omega arith)
  | inr new ↦ rw new (omega (arith, length-append xs (s ∷ [])))
]
