-- ===== src/Alerts/Store/Query.antt =====
-- `query` of services/alerts/marga_alerts/store.py.
use marga.Prelude.{
  ℕ, zero, suc, ◌-◌, ◌≡◌, refl, ◌∙◌, sym, ap, List, [], ◌∷◌, ◌++◌, arith, keep, take, length,
  length-append, leb, Bool-cases, inl, inr,
}
use marga.Alerts.Alert.{Alert}
use marga.Alerts.Store.{Store, Filters, matches, query_from, source, query}

append_nil {ℓ} : {A : Type ℓ} (xs : List A) → xs ++ [] ≡ xs
append_nil [] = refl
append_nil (x ∷ xs) = ap (λ ys. x ∷ ys) (append_nil xs)

append_assoc {ℓ} : {A : Type ℓ} (xs ys zs : List A) → (xs ++ ys) ++ zs ≡ xs ++ (ys ++ zs)
append_assoc [] ys zs = refl
append_assoc (x ∷ xs) ys zs = ap (λ ws. x ∷ ws) (append_assoc xs ys zs)

take-zero {ℓ} : {A : Type ℓ} (n : ℕ) (xs : List A) → n ≡ 0 → take n xs ≡ []
take-zero zero xs e = refl
take-zero (suc n) xs e = absurd (omega arith)

take-cons {ℓ} :
    {A : Type ℓ} (n : ℕ) (x : A) (xs : List A) {m : ℕ} → n ≡ suc m → take n (x ∷ xs) ≡ x ∷ take m xs
take-cons n x xs {m} e = ap (λ k. take k (x ∷ xs)) e

take-nil {ℓ} : {A : Type ℓ} (n : ℕ) → Path (List A) (take n []) []
take-nil zero = refl
take-nil (suc n) = refl

query_from-take :
    (f : Filters) (limit : ℕ) (results xs : List Alert)
    → query_from f limit results xs ≡ results ++ take (limit - length results) (keep (matches f) xs)
unfolding query_from keep
query_from-take f limit results [] =
    sym (ap (λ ys. results ++ ys) (take-nil (limit - length results)) ∙ append_nil results)
query_from-take f limit results (a ∷ rest) = elim (Bool-cases (leb limit (length results))) [
  | inl full ↦ rw full (
      sym (
        ap (λ ys. results ++ ys) (take-zero (limit - length results) _ (ground arith))
        ∙ append_nil results))
  | inr room ↦ elim (Bool-cases (matches f a)) [
    | inr skip ↦ rw (room, skip) (query_from-take f limit results rest)
    | inl hit ↦
        let one_less : limit - length results ≡ suc (limit - length (results ++ a ∷ [])) =
          ground (arith, length-append results (a ∷ [])) in
        rw (room, hit)
          (query_from-take f limit (results ++ a ∷ []) rest
            ∙ append_assoc results (a ∷ []) _
            ∙ ap (λ ys. results ++ ys) (sym (take-cons _ a (keep (matches f) rest) one_less)))
  ]
]

-- `query` returns the first `limit` of the alerts that pass all filters, from the history where the
-- filter asks for a terminal state, and else from the active alerts.
pub query-refines :
    (f : Filters) (limit : ℕ) (s : Store)
    → query f limit s ≡ take limit (keep (matches f) (source f s))
unfolding query
query-refines f limit s =
    let all : limit - 0 ≡ limit = omega arith in
    query_from-take f limit [] (source f s) ∙ ap (λ n. take n (keep (matches f) (source f s))) all
