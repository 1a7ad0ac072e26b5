-- ===== src/Prelude/Tidy.antt =====
-- Dictionaries that hold each value under its own identifier, once.
use mathlib.Core.Path.{subst}
use mathlib.Core.Path.{◌≡◌, refl, ap, ◌∙◌}
use mathlib.Core.Logic.{inl, inr}
use mathlib.Core.Bool.{Bool, true, false, ◌||◌, ◌&&◌}
use mathlib.Core.Option.{Option, none, some}
use mathlib.Core.List.{List, [], ◌∷◌, map}
use Prim.Native.Nat.{ℕ}
use native.Mathlib.Omega.{arith}
use marga.Prelude.Tests.{◌==◌, nat_eq, nat_eqb, nat_eqb_iff, Bool-cases}
use marga.Prelude.Dict
use marga.Prelude.Dict.{Dict}

module _ {ℓ} {V : Type ℓ} (id : V → ℕ) where
  unfoldable pub Tidy : Dict ℕ V → Type ℓ
  Tidy [] = Unit
  Tidy ((k, a) ∷ d) = (id a ≡ k) × (Dict.get k d ≡ none) × Tidy d

  pub put-Tidy : (a : V) (d : Dict ℕ V) → Tidy d → Tidy (Dict.put (id a) a d)
  unfolding Tidy Dict.put Dict.get
  put-Tidy a [] t = (refl, refl, tt)
  put-Tidy a ((j, b) ∷ d) (own, new, t) = elim (Bool-cases (j == id a)) [
    | inl e ↦ rw e (refl, ground (arith, nat_eqb_iff j (id a)), t)
    | inr n ↦ rw n (
      own,
      ground (arith, Dict.get-put (id a) j a d, nat_eqb_iff j (id a), nat_eqb_iff (id a) j),
      put-Tidy a d t,
    )
  ]

  pub get-Tidy : (k : ℕ) (a : V) (d : Dict ℕ V) → Tidy d → Dict.get k d ≡ some a → id a ≡ k
  unfolding Tidy Dict.get
  get-Tidy k a [] t e = ground arith
  get-Tidy k a ((j, b) ∷ d) (own, new, t) e = ground (arith, get-Tidy k a d t, nat_eqb_iff j k)

  pub pop-Tidy : (k : ℕ) (d : Dict ℕ V) → Tidy d → Tidy (Dict.pop k d)
  unfolding Tidy Dict.pop
  pop-Tidy k [] t = tt
  pop-Tidy k ((j, b) ∷ d) (own, new, t) = elim (Bool-cases (j == k)) [
    | inl e ↦ rw (e, Dict.pop, Tidy) (pop-Tidy k d t)
    | inr n ↦ rw (n, Dict.pop, Tidy) (own, ground (arith, Dict.get-pop k j d), pop-Tidy k d t)
  ]

  -- Whether some value passes a test and has the identifier.
  unfoldable pub any_with : (V → Bool) → ℕ → List V → Bool
  any_with test k [] = false
  any_with test k (a ∷ xs) = (nat_eqb (id a) k && test a) || any_with test k xs

  unfoldable pub tested : (V → Bool) → Option V → Bool
  tested test none = false
  tested test (some a) = test a

  pub any_with-values :
      (test : V → Bool) (k : ℕ) (d : Dict ℕ V)
      → Tidy d
      → any_with test k (map (λ e. e.1) d) ≡ tested test (Dict.get k d)
  unfolding Tidy Dict.get any_with tested
  any_with-values test k [] t = refl
  any_with-values test k ((j, b) ∷ d) (own, new, t) = elim (Bool-cases (nat_eqb j k)) [
    | inl same ↦
        let there : j ≡ k = (nat_eqb_iff j k).0 same in
        let gone : Dict.get k d ≡ none = subst (λ i. Dict.get i d ≡ none) there new in
        let mine : nat_eqb (id b) k ≡ true = (nat_eqb_iff (id b) k).1 (own ∙ there) in
        let others : any_with test k (map (λ e. e.1) d) ≡ false =
          any_with-values test k d t ∙ ap (tested test) gone in
        rw (mine, same, others) (ground arith)
    | inr other ↦
        let not_mine : nat_eqb (id b) k ≡ false =
          ground (arith, nat_eqb_iff (id b) k, nat_eqb_iff j k) in
        rw (not_mine, other) (any_with-values test k d t)
  ]
