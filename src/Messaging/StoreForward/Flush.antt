-- ===== src/Messaging/StoreForward/Flush.antt =====
-- What `flush` and `cleanup` of services/messaging/marga_messaging/store_forward.py deliver and keep.
use marga.Prelude.{
  ℕ, ◌+◌, ◌≡◌, refl, ◌∙◌, sym, ap, inl, inr, Bool, not, ◌&&◌, ◌||◌, Option, none, some, List, [],
  ◌∷◌, map, arith, keep, if◌then◌else◌, nat_eq, nat_eqb, nat_eqb_iff, string_eq, pair_eq,
  Bool-cases, Option-cases,
}
use marga.Prelude.Dict
use marga.Prelude.Tidy.{any_with, tested, any_with-values}
use marga.Messaging.Message.{is_expired}
use marga.Messaging.PriorityQueue.{has}
use marga.Messaging.StoreForward.{
  Entry, ConnectivityState, Manager, forward_eligible, insert, sort, flush_from, remove_entry,
  remove_all, values, flush, expired_ids, cleanup,
}
use marga.Messaging.StoreForward.Order.{Ordered, sort-Ordered, keep-Ordered}
use marga.Messaging.StoreForward.Agreement.{IsForward, remove_all-IsForward}

-- The entry is forwarded.
unfoldable pub delivers : ℕ → ConnectivityState → Entry → Bool
delivers now c e = not (is_expired now e.message) && forward_eligible e.queue_class c

-- The entry leaves the store.
unfoldable pub leaves : ℕ → ConnectivityState → Entry → Bool
leaves now c e = is_expired now e.message || forward_eligible e.queue_class c

abbrev entry_id_of : Entry → ℕ
entry_id_of e = e.entry_id

remove_entry-get :
    (i j : ℕ) (s : Manager)
    → Dict.get j (remove_entry i s).entries ≡ (if nat_eqb i j then none else Dict.get j s.entries)
unfolding remove_entry
remove_entry-get i j s = elim (Option-cases (Dict.get i s.entries)) [
  | inr (x, e) ↦ rw (e, remove_entry) (Dict.get-pop i j s.entries)
  | inl e ↦
      rw (e, remove_entry)
        (elim (Bool-cases (nat_eqb i j)) [
          | inr other ↦ rw other refl
          | inl same ↦ rw same (ap (λ n. Dict.get n s.entries) (sym ((nat_eqb_iff i j).0 same)) ∙ e)
        ])
]

remove_all-get :
    (is : List ℕ) (j : ℕ) (s : Manager)
    → Dict.get j (remove_all is s).entries ≡ (if has j is then none else Dict.get j s.entries)
unfolding remove_all has
remove_all-get [] j s = refl
remove_all-get (i ∷ is) j s =
    ground (arith, remove_all-get is j (remove_entry i s), remove_entry-get i j s)

flush_from-eligible :
    (now : ℕ) (c : ConnectivityState) (xs : List Entry)
    → (flush_from now c xs).eligible ≡ map (λ e. e.message) (keep (delivers now c) xs)
unfolding flush_from delivers keep
flush_from-eligible now c [] = refl
flush_from-eligible now c (x ∷ xs) = elim (Bool-cases (is_expired now x.message)) [
  | inl e ↦ rw e (flush_from-eligible now c xs)
  | inr e ↦ elim (Bool-cases (forward_eligible x.queue_class c)) [
    | inl f ↦ rw (e, f) (ap (λ ms. x.message ∷ ms) (flush_from-eligible now c xs))
    | inr f ↦ rw (e, f) (flush_from-eligible now c xs)
  ]
]

flush_from-to_remove :
    (now : ℕ) (c : ConnectivityState) (j : ℕ) (xs : List Entry)
    → has j (flush_from now c xs).to_remove ≡ any_with entry_id_of (leaves now c) j xs
unfolding flush_from leaves has any_with
flush_from-to_remove now c j [] = refl
flush_from-to_remove now c j (x ∷ xs) = ground (arith, flush_from-to_remove now c j xs)

any_with-insert :
    (test : Entry → Bool) (j : ℕ) (x : Entry) (xs : List Entry)
    → any_with entry_id_of test j (insert x xs)
      ≡ ((nat_eqb x.entry_id j && test x) || any_with entry_id_of test j xs)
unfolding any_with insert
any_with-insert test j x [] = refl
any_with-insert test j x (y ∷ ys) = ground (arith, any_with-insert test j x ys)

any_with-sort :
    (test : Entry → Bool) (j : ℕ) (xs : List Entry)
    → any_with entry_id_of test j (sort xs) ≡ any_with entry_id_of test j xs
unfolding any_with sort
any_with-sort test j [] = refl
any_with-sort test j (x ∷ xs) =
    any_with-insert test j x (sort xs)
    ∙ ap (λ b. (nat_eqb x.entry_id j && test x) || b) (any_with-sort test j xs)

abbrev pub settle : (Entry → Bool) → Option Entry → Option Entry
settle test none = none
settle test (some e) = if test e then none else some e

settled :
    (test : Entry → Bool) (o : Option Entry) {b : Bool}
    → b ≡ tested entry_id_of test o
    → (if b then none else o) ≡ settle test o
unfolding tested
settled test none e = ground arith
settled test (some x) e = rw e refl

-- `flush` delivers exactly the messages that have not expired and whose class the connectivity
-- permits, the critical local ones first and the analytics last; it removes these and the expired ones, keeps every other
-- entry as it is, and keeps the indices in agreement.
pub flush-delivers :
    (now : ℕ) (c : ConnectivityState) (s : Manager)
    → IsForward s
    → ((flush now c s).0 ≡ map (λ e. e.message) (keep (delivers now c) (sort (values s.entries))))
      × Ordered (keep (delivers now c) (sort (values s.entries)))
      × ((j : ℕ)
          → Dict.get j (flush now c s).1.entries ≡ settle (leaves now c) (Dict.get j s.entries))
      × IsForward (flush now c s).1
unfolding flush
flush-delivers now c s f =
    let xs = sort (values s.entries) in
    let s' : Manager = record s {
      total_forwarded = s.total_forwarded + (flush_from now c xs).forwarded;
      total_expired = s.total_expired + (flush_from now c xs).expired;
    } in
    (
      flush_from-eligible now c xs,
      keep-Ordered (delivers now c) xs (sort-Ordered (values s.entries)),
      λ j.
          remove_all-get (flush_from now c xs).to_remove j s'
          ∙ settled (leaves now c) (Dict.get j s.entries) (
              flush_from-to_remove now c j xs
              ∙ any_with-sort (leaves now c) j (values s.entries)
              ∙ any_with-values entry_id_of (leaves now c) j s.entries f.tidy),
      remove_all-IsForward (flush_from now c xs).to_remove
          (record { tidy = f.tidy; seen_of = f.seen_of; entry_of = f.entry_of }),
    )

expired_ids-has :
    (now j : ℕ) (xs : List Entry)
    → has j (expired_ids now xs)
      ≡ any_with entry_id_of (λ (e : Entry). is_expired now e.message) j xs
unfolding expired_ids has any_with
expired_ids-has now j [] = refl
expired_ids-has now j (x ∷ xs) = ground (arith, expired_ids-has now j xs)

-- `cleanup` removes exactly the expired entries, and keeps the indices in agreement.
pub cleanup-expires :
    (now : ℕ) (s : Manager)
    → IsForward s
    → ((j : ℕ)
        → Dict.get j (cleanup now s).1.entries
          ≡ settle (λ (e : Entry). is_expired now e.message) (Dict.get j s.entries))
      × IsForward (cleanup now s).1
unfolding cleanup
cleanup-expires now s f =
    let g = remove_all-IsForward (expired_ids now (values s.entries)) f in
    (
      λ j.
          remove_all-get (expired_ids now (values s.entries)) j s
          ∙ settled (λ (e : Entry). is_expired now e.message) (Dict.get j s.entries)
              (expired_ids-has now j (values s.entries)
                ∙ any_with-values entry_id_of (λ (e : Entry). is_expired now e.message) j s.entries
                    f.tidy),
      record { tidy = g.tidy; seen_of = g.seen_of; entry_of = g.entry_of },
    )
