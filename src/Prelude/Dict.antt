-- ===== src/Prelude/Dict.antt =====
-- Python's `dict`: pairs in insertion order. A write to a present key stays in its place, and a
-- new key goes to the end.
use Prim.Native.Nat.{◌+◌, ◌≤◌}
use mathlib.Core.Path.{◌≡◌, refl, sym, ap, ◌∙◌}
use mathlib.Core.Logic.{◌≢◌, inl, inr}
use mathlib.Core.Bool.{true, false}
use mathlib.Core.Option.{Option, none, some}
use mathlib.Core.List.{List, [], ◌∷◌, ◌++◌}
use native.Mathlib.Omega.{arith}
use marga.Prelude.Tests.{if◌then◌else◌, Eq, ◌==◌, Bool-cases}
use marga.Prelude.Lists.{length}

abbrev pub Dict {ℓ κ} : Type ℓ → Type κ → Type (ℓ ⊔ κ)
Dict K V = List (K × V)

pub eqb_refl {ℓ} : {K : Type ℓ} ⦃e : Eq K⦄ (k : K) → (k == k) ≡ true
eqb_refl ⦃e⦄ k = (e.eqb_iff k k).1 refl

pub some_injective {ℓ} : {A : Type ℓ} {x y : A} → some x ≡ some y → x ≡ y
some_injective e = ground (arith, e)

pub unequal {ℓ} : {K : Type ℓ} ⦃e : Eq K⦄ (k j : K) → (k == j) ≡ false → k ≢ j
unequal ⦃e⦄ k j n = ground (arith, e.eqb_iff k j)

module _ {ℓ κ} {K : Type ℓ} {V : Type κ} ⦃e : Eq K⦄ where
  -- `d.get(k)`
  unfoldable pub get : K → Dict K V → Option V
  get k [] = none
  get k ((j, v) ∷ d) = if j == k then some v else get k d

  -- `d[k] = v`
  unfoldable pub put : K → V → Dict K V → Dict K V
  put k v [] = (k, v) ∷ []
  put k v ((j, w) ∷ d) = if j == k then (k, v) ∷ d else (j, w) ∷ put k v d

  -- `d.pop(k, None)`
  unfoldable pub pop : K → Dict K V → Dict K V
  pop k [] = []
  pop k ((j, w) ∷ d) = let rest = pop k d in if j == k then rest else (j, w) ∷ rest

  pub get-put :
      (k j : K) (v : V) (d : Dict K V) → get j (put k v d) ≡ (if k == j then some v else get j d)
  unfolding get put
  get-put k j v [] = refl
  get-put k j v ((i, w) ∷ d) =
      ground (arith, e.eqb_iff k j, e.eqb_iff i k, e.eqb_iff i j, get-put k j v d)

  pub get-pop : (k j : K) (d : Dict K V) → get j (pop k d) ≡ (if k == j then none else get j d)
  unfolding get pop
  get-pop k j [] = ground arith
  get-pop k j ((i, w) ∷ d) =
      ground (arith, e.eqb_iff k j, e.eqb_iff i k, e.eqb_iff i j, get-pop k j d)

  pub get-put_self : (k : K) (v : V) (d : Dict K V) → get k (put k v d) ≡ some v
  get-put_self k v d = ground (arith, get-put k k v d, eqb_refl k)

  pub get-put_other :
      (k j : K) (v : V) (d : Dict K V) → (k == j) ≡ false → get j (put k v d) ≡ get j d
  get-put_other k j v d n = ground (arith, get-put k j v d)

  pub get-pop_self : (k : K) (d : Dict K V) → get k (pop k d) ≡ none
  get-pop_self k d = ground (arith, get-pop k k d, eqb_refl k)

  pub get-pop_other : (k j : K) (d : Dict K V) → (k == j) ≡ false → get j (pop k d) ≡ get j d
  get-pop_other k j d n = ground (arith, get-pop k j d)

  -- A missing key is none of the present ones.
  pub absent_differs :
      (k j : K) (d : Dict K V) {v : V} → get k d ≡ none → get j d ≡ some v → (k == j) ≡ false
  absent_differs k j d {v} gone there = elim (Bool-cases (k == j)) [
    | inr n ↦ n
    | inl same ↦
        let both : Path (Option V) none (some v) =
          sym gone ∙ ap (λ i. get i d) ((e.eqb_iff k j).0 same) ∙ there in
        absurd (ground (arith, both))
  ]

  -- Keys of different values are different.
  pub values_differ :
      (k j : K) (d : Dict K V) {v w : V}
      → get k d ≡ some v
      → get j d ≡ some w
      → v ≢ w
      → (k == j) ≡ false
  values_differ k j d {v} {w} there here n = elim (Bool-cases (k == j)) [
    | inr other ↦ other
    | inl same ↦
        let both : some v ≡ some w =
          sym there ∙ ap (λ i. get i d) ((e.eqb_iff k j).0 same) ∙ here in
        absurd (n (some_injective both))
  ]

  pub pop_gone : (k j : K) (d : Dict K V) {v : V} → (k == j) ≡ true → get j (pop k d) ≢ some v
  pop_gone k j d same = ground (arith, get-pop k j d)

  pub length-put-le : (k : K) (v : V) (d : Dict K V) → length (put k v d) ≤ length d + 1
  unfolding put
  length-put-le k v [] = omega arith
  length-put-le k v ((j, w) ∷ d) = ground (arith, length-put-le k v d)

  pub length-pop-le : (k : K) (d : Dict K V) → length (pop k d) ≤ length d
  unfolding pop
  length-pop-le k [] = omega arith
  length-pop-le k ((j, w) ∷ d) = ground (arith, length-pop-le k d)

  -- `list(d)`
  abbrev pub keys : Dict K V → List K
  keys [] = []
  keys ((k, v) ∷ d) = k ∷ keys d

  pub keys-put_present :
      (k : K) (v w : V) (d : Dict K V) → get k d ≡ some w → keys (put k v d) ≡ keys d
  unfolding get put
  keys-put_present k v w [] there = absurd (ground (arith, there))
  keys-put_present k v w ((j, u) ∷ d) there = elim (Bool-cases (j == k)) [
    | inl same ↦ rw same (ap (λ i. i ∷ keys d) (sym ((e.eqb_iff j k).0 same)))
    | inr other ↦ rw other (ap (λ l. j ∷ l) (keys-put_present k v w d (rw (other, get) at there)))
  ]

  pub keys-put_absent :
      (k : K) (v : V) (d : Dict K V) → get k d ≡ none → keys (put k v d) ≡ keys d ++ k ∷ []
  unfolding get put
  keys-put_absent k v [] gone = refl
  keys-put_absent k v ((j, u) ∷ d) gone = ground (arith, keys-put_absent k v d)

  pub pop_absent : (k : K) (d : Dict K V) → get k d ≡ none → pop k d ≡ d
  unfolding get pop
  pop_absent k [] gone = refl
  pop_absent k ((j, u) ∷ d) gone = ground (arith, pop_absent k d)
