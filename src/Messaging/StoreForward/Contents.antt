-- ===== src/Messaging/StoreForward/Contents.antt =====
-- What `store` of services/messaging/marga_messaging/store_forward.py does to the messages held.
use mathlib.Core.Option
use marga.Prelude.{
  ℕ, ◌+◌, ◌≡◌, refl, ◌∙◌, sym, ap, inl, inr, String, Bool, true, false, Option, none, some,
  if◌then◌else◌, ltb, ◌==◌, nat_eq, string_eq, pair_eq, pair_eqb_iff, Bool-cases, Option-cases,
}
use marga.Prelude.Dict
use marga.Prelude.Tidy.{get-Tidy}
use marga.Messaging.Message.{V2XMessage}
use marga.Messaging.StoreForward.{
  QueueClass, Entry, Manager, dedup_key, existing_entry, renew, new_entry, store,
}
use marga.Messaging.StoreForward.Agreement.{IsForward}

-- The message held for a key, with its class.
unfoldable pub held : ℕ × String → Manager → Option (V2XMessage × QueueClass)
held k s = Option.map (λ (e : Entry). (e.message, e.queue_class)) (existing_entry k s)

-- The newer of what is held and what comes in; a tie keeps what is held.
unfoldable pub newest :
    Option (V2XMessage × QueueClass) → V2XMessage → QueueClass → V2XMessage × QueueClass
newest none m c = (m, c)
newest (some (old, oc)) m c = if ltb old.timestamp m.timestamp then (m, c) else (old, oc)

existing-seen :
    (k : ℕ × String) (s : Manager) (i : ℕ)
    → Dict.get k s.seen ≡ some i
    → existing_entry k s ≡ Dict.get i s.entries
unfolding existing_entry
existing-seen k s i e = rw (e, existing_entry) refl

existing-none :
    (k : ℕ × String) (s : Manager) → Dict.get k s.seen ≡ none → existing_entry k s ≡ none
unfolding existing_entry
existing-none k s e = rw (e, existing_entry) refl

-- Another key is left alone by a write at the entry of this one.
existing-put :
    (k : ℕ × String) (i : ℕ) (x : Entry) (s : Manager)
    → ((j : ℕ) → Dict.get k s.seen ≡ some j → (i == j) ≡ false)
    → existing_entry k (record s { entries = Dict.put i x s.entries }) ≡ existing_entry k s
existing-put k i x s apart = elim (Option-cases (Dict.get k s.seen)) [
  | inl e ↦
      existing-none k (record s { entries = Dict.put i x s.entries }) e ∙ sym (existing-none k s e)
  | inr (j, e) ↦
      existing-seen k (record s { entries = Dict.put i x s.entries }) j e
      ∙ Dict.get-put_other i j x s.entries (apart j e)
      ∙ sym (existing-seen k s j e)
]

abbrev pair_of : Entry → V2XMessage × QueueClass
pair_of e = (e.message, e.queue_class)

-- The manager with a new entry, and its record in `_seen`.
abbrev added : Entry → Manager → Manager
added x s = record s {
  entries = Dict.put x.entry_id x s.entries;
  seen = Dict.put (dedup_key x.message) x.entry_id s.seen;
  total_stored = s.total_stored + 1;
}

abbrev renewed : ℕ → Entry → Manager → Manager
renewed i x s = record s { entries = Dict.put i x s.entries }

added-same :
    (x : Entry) (s : Manager) (k : ℕ × String)
    → (dedup_key x.message == k) ≡ true
    → existing_entry k (added x s) ≡ some x
added-same x s k same =
    let at_k : dedup_key x.message ≡ k = (pair_eqb_iff (dedup_key x.message) k).0 same in
    existing-seen k (added x s) x.entry_id (
      ap (λ q. Dict.get q (added x s).seen) (sym at_k)
      ∙ Dict.get-put_self (dedup_key x.message) x.entry_id s.seen)
    ∙ Dict.get-put_self x.entry_id x s.entries

added-other :
    (x : Entry) (s : Manager) (k : ℕ × String)
    → IsForward s
    → Dict.get x.entry_id s.entries ≡ none
    → (dedup_key x.message == k) ≡ false
    → existing_entry k (added x s) ≡ existing_entry k s
added-other x s k f fresh other =
    let seen_k = Dict.get-put_other (dedup_key x.message) k x.entry_id s.seen other in
    elim (Option-cases (Dict.get k s.seen)) [
      | inl e ↦ existing-none k (added x s) (seen_k ∙ e) ∙ sym (existing-none k s e)
      | inr (j, e) ↦
          let (y, there, _) = f.entry_of k j e in
          existing-seen k (added x s) j (seen_k ∙ e)
          ∙ Dict.get-put_other x.entry_id j x s.entries
              (Dict.absent_differs x.entry_id j s.entries fresh there)
          ∙ sym (existing-seen k s j e)
    ]

renewed-other :
    (m : V2XMessage) (i : ℕ) (x x' : Entry) (s : Manager) (k : ℕ × String)
    → IsForward s
    → Dict.get i s.entries ≡ some x
    → dedup_key x.message ≡ dedup_key m
    → (dedup_key m == k) ≡ false
    → existing_entry k (renewed i x' s) ≡ existing_entry k s
renewed-other m i x x' s k f held_i key other = existing-put k i x' s (λ j e.
    let (y, there, key_y) = f.entry_of k j e in
    Dict.values_differ i j s.entries held_i there (λ same.
      Dict.unequal (dedup_key m) k other
        (sym key ∙ ap (λ (z : Entry). dedup_key z.message) same ∙ key_y)))

store-added :
    (m : V2XMessage) (c : QueueClass) (now entry_id : ℕ) (s : Manager)
    → existing_entry (dedup_key m) s ≡ none
    → (store m c now entry_id s).1 ≡ added (new_entry m c now entry_id) s
unfolding store
store-added m c now entry_id s e = rw (e, store) refl

store-renewed :
    (m : V2XMessage) (c : QueueClass) (now entry_id : ℕ) (s : Manager) (x : Entry)
    → existing_entry (dedup_key m) s ≡ some x
    → (store m c now entry_id s).1
      ≡ (if ltb x.message.timestamp m.timestamp then renewed x.entry_id (renew m c x) s else s)
unfolding store
store-renewed m c now entry_id s x e = elim (Bool-cases (ltb x.message.timestamp m.timestamp)) [
  | inl t ↦ rw (e, t, store) refl
  | inr t ↦ rw (e, t, store) refl
]

-- What `store` finds under a key, for a message whose key is held by `x` at `i`.
renewed-existing :
    (b : Bool) (m : V2XMessage) (i : ℕ) (x x' : Entry) (s : Manager) (k : ℕ × String)
    → IsForward s
    → Dict.get (dedup_key m) s.seen ≡ some i
    → Dict.get i s.entries ≡ some x
    → dedup_key x.message ≡ dedup_key m
    → existing_entry k (if b then renewed i x' s else s)
      ≡ (if dedup_key m == k then some (if b then x' else x) else existing_entry k s)
renewed-existing b m i x x' s k f seen there key = elim (Bool-cases (dedup_key m == k)) [
  | inl same ↦
      let at_k : dedup_key m ≡ k = (pair_eqb_iff (dedup_key m) k).0 same in
      let seen_k : Dict.get k s.seen ≡ some i = ap (λ q. Dict.get q s.seen) (sym at_k) ∙ seen in
      elim (Bool-cases b) [
        | inl t ↦
            rw (same, t)
              (existing-seen k (renewed i x' s) i seen_k ∙ Dict.get-put_self i x' s.entries)
        | inr t ↦ rw (same, t) (existing-seen k s i seen_k ∙ there)
      ]
  | inr other ↦ elim (Bool-cases b) [
    | inl t ↦ rw (other, t) (renewed-other m i x x' s k f there key other)
    | inr t ↦ rw (other, t) refl
  ]
]

newest-some :
    (x : Entry) (m : V2XMessage) (c : QueueClass) {o : Option (V2XMessage × QueueClass)}
    → o ≡ some (pair_of x)
    → pair_of (if ltb x.message.timestamp m.timestamp then renew m c x else x) ≡ newest o m c
unfolding newest
newest-some x m c {o} e = elim (Bool-cases (ltb x.message.timestamp m.timestamp)) [
  | inl t ↦ rw (e, t, newest) refl
  | inr t ↦ rw (e, t, newest) refl
]

map-if :
    (b : Bool) (x : Entry) (o : Option Entry)
    → Option.map pair_of (if b then some x else o)
      ≡ (if b then some (pair_of x) else Option.map pair_of o)
map-if true x o = refl
map-if false x o = refl

-- `store` on the messages held: under the key of the message stands the newer of the two, with its
-- class, and every other key holds what it held.
pub store-newest :
    (m : V2XMessage) (c : QueueClass) (now entry_id : ℕ) (s : Manager) (k : ℕ × String)
    → IsForward s
    → Dict.get entry_id s.entries ≡ none
    → held k (store m c now entry_id s).1
      ≡ (if dedup_key m == k then some (newest (held (dedup_key m) s) m c) else held k s)
unfolding held newest
store-newest m c now entry_id s k f fresh = elim (Option-cases (Dict.get (dedup_key m) s.seen)) [
  | inl e ↦
      let x = new_entry m c now entry_id in
      let empty = existing-none (dedup_key m) s e in
      ap (held k) (store-added m c now entry_id s empty) ∙ elim (Bool-cases (dedup_key m == k)) [
        | inl same ↦ rw same (
            ap (Option.map pair_of) (added-same x s k same)
            ∙ sym (ap (λ o. some (newest (Option.map pair_of o) m c)) empty))
        | inr other ↦ rw other (ap (Option.map pair_of) (added-other x s k f fresh other))
      ]
  | inr (i, e) ↦
      let (x, there, key) = f.entry_of (dedup_key m) i e in
      let own = get-Tidy (λ (y : Entry). y.entry_id) i x s.entries f.tidy there in
      let found = existing-seen (dedup_key m) s i e ∙ there in
      let newer : Bool = ltb x.message.timestamp m.timestamp in
      ap (held k) (
        store-renewed m c now entry_id s x found
        ∙ ap (λ n. if newer then renewed n (renew m c x) s else s) own)
      ∙ ap (Option.map pair_of) (renewed-existing newer m i x (renew m c x) s k f e there key)
      ∙ map-if (dedup_key m == k) (if newer then renew m c x else x) (existing_entry k s)
      ∙ ap (λ y. if dedup_key m == k then some y else held k s)
          (newest-some x m c (ap (Option.map pair_of) found))
]
