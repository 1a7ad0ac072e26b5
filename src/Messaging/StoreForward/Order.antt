-- ===== src/Messaging/StoreForward/Order.antt =====
-- The order in which `flush` of services/messaging/marga_messaging/store_forward.py goes through the
-- entries.
use marga.Prelude.{
  ℕ, ◌≤◌, inl, inr, Bool, List, [], ◌∷◌, arith, keep, All, All-map, leb, Bool-cases,
}
use marga.Messaging.StoreForward.{Entry, class_rank, insert, sort}

-- The classes of a list do not fall.
abbrev pub Ordered : List Entry → Type 0
Ordered [] = Unit
Ordered (x ∷ xs) =
    All (λ (y : Entry). class_rank x.queue_class ≤ class_rank y.queue_class) xs × Ordered xs

All-insert :
    (n : ℕ) (x : Entry) (xs : List Entry)
    → n ≤ class_rank x.queue_class
    → All (λ (y : Entry). n ≤ class_rank y.queue_class) xs
    → All (λ (y : Entry). n ≤ class_rank y.queue_class) (insert x xs)
unfolding insert
All-insert n x [] le h = (le, tt)
All-insert n x (y ∷ ys) le h =
    elim (Bool-cases (leb (class_rank x.queue_class) (class_rank y.queue_class))) [
      | inl e ↦ rw e (le, h)
      | inr e ↦ rw e (h.0, All-insert n x ys le h.1)
    ]

insert-Ordered : (x : Entry) (xs : List Entry) → Ordered xs → Ordered (insert x xs)
unfolding insert
insert-Ordered x [] h = (tt, tt)
insert-Ordered x (y ∷ ys) h =
    elim (Bool-cases (leb (class_rank x.queue_class) (class_rank y.queue_class))) [
      | inl e ↦
          let le : class_rank x.queue_class ≤ class_rank y.queue_class = ground arith in
          rw e ((le, All-map ys (λ z below. omega (arith, below, le)) h.0), h)
      | inr e ↦ rw e (All-insert _ x ys (ground arith) h.0, insert-Ordered x ys h.1)
    ]

pub sort-Ordered : (xs : List Entry) → Ordered (sort xs)
unfolding sort
sort-Ordered [] = tt
sort-Ordered (x ∷ xs) = insert-Ordered x (sort xs) (sort-Ordered xs)

All-keep :
    (n : ℕ) (p : Entry → Bool) (xs : List Entry)
    → All (λ (y : Entry). n ≤ class_rank y.queue_class) xs
    → All (λ (y : Entry). n ≤ class_rank y.queue_class) (keep p xs)
unfolding keep
All-keep n p [] h = tt
All-keep n p (x ∷ xs) h = elim (Bool-cases (p x)) [
  | inl e ↦ rw e (h.0, All-keep n p xs h.1)
  | inr e ↦ rw e (All-keep n p xs h.1)
]

pub keep-Ordered : (p : Entry → Bool) (xs : List Entry) → Ordered xs → Ordered (keep p xs)
unfolding keep
keep-Ordered p [] h = tt
keep-Ordered p (x ∷ xs) h = elim (Bool-cases (p x)) [
  | inl e ↦ rw e (All-keep _ p xs h.0, keep-Ordered p xs h.1)
  | inr e ↦ rw e (keep-Ordered p xs h.1)
]
