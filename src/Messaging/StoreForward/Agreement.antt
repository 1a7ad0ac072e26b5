-- ===== src/Messaging/StoreForward/Agreement.antt =====
-- The two indices of services/messaging/marga_messaging/store_forward.py.
use mathlib.Core.Path.{subst}
use marga.Prelude.{
  ℕ, ◌≡◌, ◌∙◌, sym, ap, inl, inr, String, none, some, List, [], ◌∷◌, arith, ltb, ◌==◌, nat_eq,
  nat_eqb_iff, string_eq, pair_eq, pair_eqb_iff, Bool-cases, Option-cases,
}
use marga.Prelude.Dict
use marga.Prelude.Tidy.{Tidy, put-Tidy, get-Tidy, pop-Tidy}
use marga.Messaging.Message.{V2XMessage}
use marga.Messaging.StoreForward.{
  QueueClass, Entry, Manager, init, dedup_key, existing_entry, renew, new_entry, store,
  remove_entry, remove_all,
}

-- Each entry is under its identifier, `_seen` leads to it, and leads to nothing else.
pub record IsForward (s : Manager) : Type 0 where
  pub tidy : Tidy (λ (e : Entry). e.entry_id) s.entries
  pub seen_of :
      (i : ℕ) (e : Entry)
      → Dict.get i s.entries ≡ some e
      → Dict.get (dedup_key e.message) s.seen ≡ some i
  pub entry_of :
      (k : ℕ × String) (i : ℕ)
      → Dict.get k s.seen ≡ some i
      → (e : Entry) × (Dict.get i s.entries ≡ some e) × (dedup_key e.message ≡ k)

pub init-IsForward : IsForward init
unfolding Dict.get Tidy
init-IsForward = record {
  tidy = tt;
  seen_of = λ i e f. absurd (ground arith);
  entry_of = λ k i f. absurd (ground arith);
}

-- One entry replaced by a version with the same key.
renew-IsForward :
    (i : ℕ) (e e' : Entry) {s : Manager}
    → Dict.get i s.entries ≡ some e
    → e'.entry_id ≡ i
    → dedup_key e'.message ≡ dedup_key e.message
    → IsForward s
    → IsForward (record s { entries = Dict.put i e' s.entries })
renew-IsForward i e e' {s} held same_id same_key f = record {
  tidy =
      subst (λ j. Tidy (λ (x : Entry). x.entry_id) (Dict.put j e' s.entries)) same_id
        (put-Tidy (λ (x : Entry). x.entry_id) e' s.entries f.tidy);
  seen_of = λ j x g. elim (Bool-cases (i == j)) [
    | inr other ↦ f.seen_of j x (sym (Dict.get-put_other i j e' s.entries other) ∙ g)
    | inl same ↦
        let at_j : i ≡ j = (nat_eqb_iff i j).0 same in
        let is_new : e' ≡ x = Dict.some_injective (
          sym (
            subst (λ n. Dict.get n (Dict.put i e' s.entries) ≡ some e') at_j
              (Dict.get-put_self i e' s.entries))
          ∙ g) in
        ap (λ (y : Entry). Dict.get (dedup_key y.message) s.seen) (sym is_new)
        ∙ ap (λ k. Dict.get k s.seen) same_key
        ∙ f.seen_of i e held
        ∙ ap (λ n. some n) at_j
  ];
  entry_of = λ k j g. elim (Bool-cases (i == j)) [
    | inr other ↦
        let (x, there, key) = f.entry_of k j g in
        (x, Dict.get-put_other i j e' s.entries other ∙ there, key)
    | inl same ↦
        let at_j : i ≡ j = (nat_eqb_iff i j).0 same in
        let (x, there, key) = f.entry_of k j g in
        let is_old : e ≡ x =
          Dict.some_injective (sym held ∙ ap (λ n. Dict.get n s.entries) at_j ∙ there) in
        (
          e',
          ap (λ n. Dict.get n (Dict.put i e' s.entries)) (sym at_j)
              ∙ Dict.get-put_self i e' s.entries,
          same_key ∙ ap (λ (y : Entry). dedup_key y.message) is_old ∙ key,
        )
  ];
}

-- A new entry, for a key that is not seen.
new-IsForward :
    (e : Entry) (n : ℕ) {s : Manager}
    → Dict.get e.entry_id s.entries ≡ none
    → Dict.get (dedup_key e.message) s.seen ≡ none
    → IsForward s
    → IsForward (record s {
      entries = Dict.put e.entry_id e s.entries;
      seen = Dict.put (dedup_key e.message) e.entry_id s.seen;
      total_stored = n;
    })
new-IsForward e n {s} new unseen f = record {
  tidy = put-Tidy (λ (x : Entry). x.entry_id) e s.entries f.tidy;
  seen_of = λ j x g. elim (Bool-cases (e.entry_id == j)) [
    | inl same ↦
        let at_j : e.entry_id ≡ j = (nat_eqb_iff e.entry_id j).0 same in
        let is_new : e ≡ x = Dict.some_injective (
          sym (
            subst (λ n. Dict.get n (Dict.put e.entry_id e s.entries) ≡ some e) at_j
              (Dict.get-put_self e.entry_id e s.entries))
          ∙ g) in
        ap
          (λ (y : Entry).
            Dict.get (dedup_key y.message) (Dict.put (dedup_key e.message) e.entry_id s.seen))
          (sym is_new)
        ∙ Dict.get-put_self (dedup_key e.message) e.entry_id s.seen
        ∙ ap (λ n. some n) at_j
    | inr other ↦
        let seen_x = f.seen_of j x (sym (Dict.get-put_other e.entry_id j e s.entries other) ∙ g) in
        Dict.get-put_other (dedup_key e.message) (dedup_key x.message) e.entry_id s.seen
          (Dict.absent_differs (dedup_key e.message) (dedup_key x.message) s.seen unseen seen_x)
        ∙ seen_x
  ];
  entry_of = λ k j g. elim (Bool-cases (dedup_key e.message == k)) [
    | inl same ↦
        let at_k : dedup_key e.message ≡ k = (pair_eqb_iff (dedup_key e.message) k).0 same in
        let is_id : e.entry_id ≡ j = Dict.some_injective (
          sym (Dict.get-put_self (dedup_key e.message) e.entry_id s.seen)
          ∙ ap (λ q. Dict.get q (Dict.put (dedup_key e.message) e.entry_id s.seen)) at_k
          ∙ g) in
        (
          e,
          ap (λ n. Dict.get n (Dict.put e.entry_id e s.entries)) (sym is_id)
              ∙ Dict.get-put_self e.entry_id e s.entries,
          at_k,
        )
    | inr other ↦
        let (x, there, key) =
          f.entry_of k j
            (sym (Dict.get-put_other (dedup_key e.message) k e.entry_id s.seen other) ∙ g) in
        (
          x,
          Dict.get-put_other e.entry_id j e s.entries
                (Dict.absent_differs e.entry_id j s.entries new there)
              ∙ there,
          key,
        )
  ];
}

-- `store` keeps the indices in agreement, given a fresh identifier for a new entry.
pub store-IsForward :
    (m : V2XMessage) (c : QueueClass) (now entry_id : ℕ) {s : Manager}
    → IsForward s
    → Dict.get entry_id s.entries ≡ none
    → IsForward (store m c now entry_id s).1
unfolding store existing_entry
store-IsForward m c now entry_id {s} f fresh = elim (Option-cases (Dict.get (dedup_key m) s.seen)) [
  | inl e ↦ rw (e, store, existing_entry) (new-IsForward (new_entry m c now entry_id) _ fresh e f)
  | inr (i, e) ↦
      let (x, there, key) = f.entry_of (dedup_key m) i e in
      let own = get-Tidy (λ (y : Entry). y.entry_id) i x s.entries f.tidy there in
      elim (Bool-cases (ltb x.message.timestamp m.timestamp)) [
        | inl newer ↦
            rw (e, there, newer, store, existing_entry)
              (subst (λ j. IsForward (record s { entries = Dict.put j (renew m c x) s.entries }))
                (sym own) (renew-IsForward i x (renew m c x) there own (sym key) f))
        | inr older ↦ rw (e, there, older, store, existing_entry) f
      ]
]

-- An entry and its record in `_seen` taken out.
pop-IsForward :
    (i : ℕ) (x : Entry) {s : Manager}
    → Dict.get i s.entries ≡ some x
    → IsForward s
    → IsForward
        (record s { entries = Dict.pop i s.entries; seen = Dict.pop (dedup_key x.message) s.seen })
pop-IsForward i x {s} held f = record {
  tidy = pop-Tidy (λ (y : Entry). y.entry_id) i s.entries f.tidy;
  seen_of = λ j y g. elim (Bool-cases (i == j)) [
    | inl same ↦ absurd (Dict.pop_gone i j s.entries same g)
    | inr other ↦
        let seen_y = f.seen_of j y (sym (Dict.get-pop_other i j s.entries other) ∙ g) in
        let differ =
          Dict.values_differ (dedup_key x.message) (dedup_key y.message) s.seen (f.seen_of i x held)
            seen_y (λ e. ground (arith, e, nat_eqb_iff i j)) in
        Dict.get-pop_other (dedup_key x.message) (dedup_key y.message) s.seen differ ∙ seen_y
  ];
  entry_of = λ k j g. elim (Bool-cases (dedup_key x.message == k)) [
    | inl same ↦ absurd (Dict.pop_gone (dedup_key x.message) k s.seen same g)
    | inr other ↦
        let (y, there, key) =
          f.entry_of k j (sym (Dict.get-pop_other (dedup_key x.message) k s.seen other) ∙ g) in
        let differ = Dict.values_differ i j s.entries held there (λ e.
          Dict.unequal (dedup_key x.message) k other
            (ap (λ (z : Entry). dedup_key z.message) e ∙ key)) in
        (y, Dict.get-pop_other i j s.entries differ ∙ there, key)
  ];
}

pub remove_entry-IsForward : (i : ℕ) {s : Manager} → IsForward s → IsForward (remove_entry i s)
unfolding remove_entry
remove_entry-IsForward i {s} f = elim (Option-cases (Dict.get i s.entries)) [
  | inl e ↦ rw (e, remove_entry) f
  | inr (x, e) ↦ rw (e, remove_entry) (pop-IsForward i x e f)
]

pub remove_all-IsForward : (is : List ℕ) {s : Manager} → IsForward s → IsForward (remove_all is s)
unfolding remove_all
remove_all-IsForward [] f = f
remove_all-IsForward (i ∷ is) f = remove_all-IsForward is (remove_entry-IsForward i f)
