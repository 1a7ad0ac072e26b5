-- ===== src/Routing/Pathfinder/Heap.antt =====
-- What services/routing/marga_routing/pathfinder.py relies on in `heapq`, and lists kept in order as
-- one way to provide it.
use mathlib.Core.Path.{subst}
use marga.Prelude.{
  suc, ◌≡◌, refl, sym, ap, inl, inr, true, false, Option, none, some, List, [], ◌∷◌, arith, All,
  length, if◌then◌else◌, leb, Bool-cases,
}
use marga.Prelude.Dict.{some_injective}
use marga.Routing.Pathfinder.{HeapItem, HeapOps}

-- `heappush` adds one item; `heappop` fails on the empty heap alone, and takes one item out.
pub record IsHeap (ops : HeapOps) : Type 1 where
  pub pop-none : (xs : List HeapItem) → ops.pop xs ≡ none → xs ≡ []
  pub push-All :
      (P : HeapItem → Type 0) (x : HeapItem) (xs : List HeapItem)
      → P x
      → All P xs
      → All P (ops.push x xs)
  pub pop-All :
      (P : HeapItem → Type 0) (xs ys : List HeapItem) (x : HeapItem)
      → ops.pop xs ≡ some (x, ys)
      → All P xs
      → P x × All P ys
  pub All-push :
      (P : HeapItem → Type 0) (x : HeapItem) (xs : List HeapItem)
      → All P (ops.push x xs)
      → P x × All P xs
  pub All-pop :
      (P : HeapItem → Type 0) (xs ys : List HeapItem) (x : HeapItem)
      → ops.pop xs ≡ some (x, ys)
      → P x
      → All P ys
      → All P xs
  pub push-length : (x : HeapItem) (xs : List HeapItem) → length (ops.push x xs) ≡ suc (length xs)
  pub pop-length :
      (xs ys : List HeapItem) (x : HeapItem)
      → ops.pop xs ≡ some (x, ys)
      → length xs ≡ suc (length ys)

unfoldable pub insert : HeapItem → List HeapItem → List HeapItem
insert x [] = x ∷ []
insert x (y ∷ ys) = if leb y.f x.f then y ∷ insert x ys else x ∷ y ∷ ys

abbrev pub head_of : List HeapItem → Option (HeapItem × List HeapItem)
head_of [] = none
head_of (x ∷ xs) = some (x, xs)

-- An ordered list, where the first of several least items comes first.
abbrev pub ordered : HeapOps
ordered = record { push = insert; pop = head_of }

insert-All :
    (P : HeapItem → Type 0) (x : HeapItem) (xs : List HeapItem)
    → P x
    → All P xs
    → All P (insert x xs)
unfolding insert
insert-All P x [] p h = (p, tt)
insert-All P x (y ∷ ys) p h = elim (Bool-cases (leb y.f x.f)) [
  | inl e ↦ rw e (h.0, insert-All P x ys p h.1)
  | inr e ↦ rw e (p, h)
]

insert-later :
    (x y : HeapItem) (ys : List HeapItem) → leb y.f x.f ≡ true → insert x (y ∷ ys) ≡ y ∷ insert x ys
unfolding insert
insert-later x y ys e = rw e refl

insert-first :
    (x y : HeapItem) (ys : List HeapItem) → leb y.f x.f ≡ false → insert x (y ∷ ys) ≡ x ∷ y ∷ ys
unfolding insert
insert-first x y ys e = rw e refl

All-insert :
    (P : HeapItem → Type 0) (x : HeapItem) (xs : List HeapItem)
    → All P (insert x xs)
    → P x × All P xs
unfolding insert
All-insert P x [] h = h
All-insert P x (y ∷ ys) h = elim (Bool-cases (leb y.f x.f)) [
  | inl e ↦
      let both : P y × All P (insert x ys) = subst (All P) (insert-later x y ys e) h in
      let later = All-insert P x ys both.1 in (later.0, (both.0, later.1))
  | inr e ↦ subst (All P) (insert-first x y ys e) h
]

insert-length : (x : HeapItem) (xs : List HeapItem) → length (insert x xs) ≡ suc (length xs)
unfolding insert
insert-length x [] = refl
insert-length x (y ∷ ys) = ground (arith, insert-length x ys)

pub ordered-IsHeap : IsHeap ordered
ordered-IsHeap = record {
  pop-none = none_nil;
  push-All = insert-All;
  pop-All = head-All;
  All-push = All-insert;
  All-pop = All-head;
  push-length = insert-length;
  pop-length = head-length;
}
  where
    none_nil : (xs : List HeapItem) → head_of xs ≡ none → xs ≡ []
    none_nil [] e = refl
    none_nil (x ∷ xs) e = absurd (ground arith)

    head-All :
        (P : HeapItem → Type 0) (xs ys : List HeapItem) (x : HeapItem)
        → head_of xs ≡ some (x, ys)
        → All P xs
        → P x × All P ys
    head-All P [] ys x e h = absurd (ground arith)
    head-All P (z ∷ zs) ys x e h =
        let same : Path (HeapItem × List HeapItem) (z, zs) (x, ys) = some_injective e in
        (
          subst P (ap (λ (p : HeapItem × List HeapItem). p.0) same) h.0,
          subst (All P) (ap (λ (p : HeapItem × List HeapItem). p.1) same) h.1,
        )

    head-length :
        (xs ys : List HeapItem) (x : HeapItem)
        → head_of xs ≡ some (x, ys)
        → length xs ≡ suc (length ys)
    head-length [] ys x e = absurd (ground arith)
    head-length (z ∷ zs) ys x e =
        ap (λ (p : HeapItem × List HeapItem). suc (length p.1)) (some_injective e)

    All-head :
        (P : HeapItem → Type 0) (xs ys : List HeapItem) (x : HeapItem)
        → head_of xs ≡ some (x, ys)
        → P x
        → All P ys
        → All P xs
    All-head P [] ys x e p h = tt
    All-head P (z ∷ zs) ys x e p h =
        let same : Path (HeapItem × List HeapItem) (z, zs) (x, ys) = some_injective e in
        (
          subst P (sym (ap (λ (p : HeapItem × List HeapItem). p.0) same)) p,
          subst (All P) (sym (ap (λ (p : HeapItem × List HeapItem). p.1) same)) h,
        )
