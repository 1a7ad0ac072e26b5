-- ===== src/Messaging/PriorityQueue/Admit.antt =====
-- `enqueue` under a free place (services/messaging/marga_messaging/priority.py) keeps the invariant.
use mathlib.Core.Path.{subst}
use text.Mathlib.TextEquality.{eq_iff}
use marga.Prelude.{
  ℕ, ◌+◌, ◌≤◌, ◌≡◌, ◌≢◌, refl, sym, ap, ◌∙◌, inl, inr, String, true, false, some, List, [], ◌∷◌,
  ◌++◌, arith, if◌then◌else◌, All, All-append, All-map, All-zip, Bool-cases, string_eq, ◌==◌, ◌&&◌,
  eqb_refl, Option-cases,
}
use marga.Prelude.Dict
use marga.Messaging.Message.{
  MessagePriority, priority_order, same_priority, same_priority_iff, V2XMessage,
}
use marga.Messaging.PriorityQueue.{Entry, Queue, has, heappush, set_at, compacts, admit}
use marga.Messaging.PriorityQueue.Sets.{Avoids, Distinct, has-add}
use marga.Messaging.PriorityQueue.Lane.{Disjoint}
use marga.Messaging.PriorityQueue.Invariant.{Ranked, Newest, Owned, IsQueue}

Avoids-next : (p : MessagePriority) (n : ℕ) (h : List Entry) → All (Ranked p n) h → Avoids (n + 1) h
Avoids-next p n [] a = tt
Avoids-next p n (x ∷ h) a = (omega arith, Avoids-next p n h a.1)

Disjoint-next :
    (p : MessagePriority) (n : ℕ) (x : Entry) (h : List Entry)
    → x.seq ≡ n + 1
    → All (Ranked p n) h
    → All (λ (y : Entry). Avoids y.seq (x ∷ [])) h
Disjoint-next p n x [] e a = tt
Disjoint-next p n x (y ∷ h) e a = ((omega arith, tt), Disjoint-next p n x h e a.1)

Distinct-append :
    (h : List Entry) (x : Entry)
    → Distinct h
    → All (λ (y : Entry). Avoids y.seq (x ∷ [])) h
    → Distinct (h ++ x ∷ [])
Distinct-append [] x d a = (tt, tt)
Distinct-append (y ∷ h) x d a = (All-append _ h (x ∷ []) d.0 a.0, Distinct-append h x d.1 a.1)

-- A new entry goes to the end of its lane.
pub heappush-append :
    (n : ℕ) (x : Entry) (h : List Entry)
    → x.seq ≡ n + 1
    → All (λ (y : Entry). (y.order ≡ x.order) × (y.seq ≤ n)) h
    → heappush x h ≡ h ++ x ∷ []
unfolding heappush
heappush-append n x [] e a = refl
heappush-append n x (y ∷ h) e a = ground (arith, heappush-append n x h e a.1)

abbrev pub entry_of : V2XMessage → Queue → Entry
entry_of m q = record { order = priority_order m.priority; seq = q.seq + 1; message = m }

pub lanes-admit :
    (m : V2XMessage) {q : Queue}
    → IsQueue q
    → (admit m q).lanes ≡ set_at m.priority (q.lanes m.priority ++ entry_of m q ∷ []) q.lanes
unfolding admit
lanes-admit m {q} v = rw (
    heappush-append q.seq (entry_of m q) (q.lanes m.priority) refl
      (All-map _ (λ y r. ground arith) (v.ranked m.priority)))

module _ (m : V2XMessage) {q : Queue} (v : IsQueue q) where
  added : MessagePriority → List Entry
  added = set_at m.priority (q.lanes m.priority ++ entry_of m q ∷ []) q.lanes

  -- What holds of the entries of a lane, and of the new entry if it goes there, holds after.
  All-added {ℓ} :
      (P : Entry → Type ℓ) (p : MessagePriority)
      → All P (q.lanes p)
      → (m.priority ≡ p → P (entry_of m q))
      → All P (added p)
  unfolding added
  All-added P p a f = elim (Bool-cases (same_priority m.priority p)) [
    | inl e ↦
        let same : m.priority ≡ p = (same_priority_iff m.priority p).0 e in
        rw e (
          All-append P (q.lanes m.priority) (entry_of m q ∷ [])
            (subst (λ r. All P (q.lanes r)) (sym same) a) (f same, tt))
    | inr n ↦ rw n a
  ]

  added-Ranked : (p : MessagePriority) → All (Ranked p (q.seq + 1)) (added p)
  added-Ranked p =
      All-added (Ranked p (q.seq + 1)) p (All-map _ (λ y r. (r.0, omega arith, r.2)) (v.ranked p))
        (λ e. (ap priority_order e, omega arith, e))

  added-Distinct : (p : MessagePriority) → Distinct (added p)
  unfolding added
  added-Distinct p = elim (Bool-cases (same_priority m.priority p)) [
    | inl e ↦ rw e (
        Distinct-append (q.lanes m.priority) (entry_of m q) (v.distinct m.priority)
          (Disjoint-next m.priority q.seq (entry_of m q) _ refl (v.ranked m.priority)))
    | inr n ↦ rw n (v.distinct p)
  ]

  -- No entry of another lane has the number of one of this lane.
  added-Disjoint :
      (p p' : MessagePriority) → same_priority p p' ≡ false → Disjoint (added p) (added p')
  added-Disjoint p p' n =
      All-added (λ x. Avoids x.seq (added p')) p
        (All-zip (q.lanes p) (λ x a r. All-added (λ y. y.seq ≢ x.seq) p' a (λ e. omega arith))
          (v.disjoint p p' n) (v.ranked p))
        (λ e.
          All-added (λ y. y.seq ≢ q.seq + 1) p' (Avoids-next p' q.seq _ (v.ranked p'))
            (λ e'. absurd (ground (arith, (same_priority_iff p p').1 (sym e ∙ e')))))

  has-admit : (k : ℕ) → has k q.tombstones ≡ true → has k (admit m q).tombstones ≡ true
  unfolding admit
  has-admit k h = elim (Option-cases (Dict.get m.sender_id (q.latest_by_sender m.priority))) [
    | inl e ↦ ground arith
    | inr (prev, e) ↦ ground (arith, has-add prev k q.tombstones)
  ]

  -- The sender's former entry is compacted out.
  has-prev :
      (prev : ℕ)
      → compacts q.compaction_enabled m.priority ≡ true
      → Dict.get m.sender_id (q.latest_by_sender m.priority) ≡ some prev
      → has prev (admit m q).tombstones ≡ true
  unfolding admit
  has-prev prev on e = ground (arith, has-add prev prev q.tombstones)

  get-admit :
      (p : MessagePriority) (s : String)
      → Dict.get s ((admit m q).latest_by_sender p) ≡ (
          if compacts q.compaction_enabled p && same_priority m.priority p && m.sender_id == s
          then some (q.seq + 1)
          else Dict.get s (q.latest_by_sender p))
  unfolding admit
  get-admit p s = elim (Bool-cases (same_priority m.priority p)) [
    | inl e ↦
        let same : m.priority ≡ p = (same_priority_iff m.priority p).0 e in
        rw (← same) (
          ground (
            arith,
            same_priority_iff m.priority m.priority,
            Dict.get-put m.sender_id s (q.seq + 1) (q.latest_by_sender m.priority),
          ))
    | inr n ↦ ground arith
  ]

  Newest-old :
      (p : MessagePriority) (y : Entry)
      → compacts q.compaction_enabled p ≡ true
      → Newest q p y
      → Newest (admit m q) p y
  Newest-old p y on (inl dead) = inl (has-admit y.seq dead)
  Newest-old p y on (inr e) =
      elim (Bool-cases (same_priority m.priority p && m.sender_id == y.message.sender_id)) [
        | inl same ↦ inl (
            has-prev y.seq (ground (arith, same_priority_iff m.priority p)) (
              ground
                (arith, same_priority_iff m.priority p, eq_iff m.sender_id y.message.sender_id)))
        | inr n ↦ inr (ground (arith, get-admit p y.message.sender_id))
      ]

  Newest-new :
      (p : MessagePriority)
      → compacts q.compaction_enabled p ≡ true
      → m.priority ≡ p
      → Newest (admit m q) p (entry_of m q)
  Newest-new p on e = inr (
      ground (arith, get-admit p m.sender_id, same_priority_iff m.priority p, eqb_refl m.sender_id))

  Owned-old :
      (p : MessagePriority) (s : String) (j : ℕ)
      → Dict.get s (q.latest_by_sender p) ≡ some j
      → (j ≤ q.seq + 1) × ((p' : MessagePriority) → All (Owned p s j p') (added p'))
  Owned-old p s j e =
      let (le, all) = v.owned p s j e in
      (omega arith, λ p'. All-added (Owned p s j p') p' (all p') (λ _. inl (omega arith)))

  Owned-new :
      (p : MessagePriority) (s : String)
      → m.priority ≡ p
      → m.sender_id ≡ s
      → (q.seq + 1 ≤ q.seq + 1)
        × ((p' : MessagePriority) → All (Owned p s (q.seq + 1) p') (added p'))
  Owned-new p s e f = (
    omega arith,
    λ p'.
        All-added (Owned p s (q.seq + 1) p') p' (All-map _ (λ y r. inl (omega arith)) (v.ranked p'))
          (λ e'. inr (sym e' ∙ e, f)),
  )

  Owned-admit :
      (p : MessagePriority) (s : String) (j : ℕ)
      → Dict.get s ((admit m q).latest_by_sender p) ≡ some j
      → (j ≤ q.seq + 1) × ((p' : MessagePriority) → All (Owned p s j p') (added p'))
  Owned-admit p s j e =
      elim (Bool-cases
        (compacts q.compaction_enabled p && same_priority m.priority p && m.sender_id == s)) [
          | inl new ↦
              subst
                (λ k. (k ≤ q.seq + 1) × ((p' : MessagePriority) → All (Owned p s k p') (added p')))
                (ground (arith, get-admit p s))
                (Owned-new p s (ground (arith, same_priority_iff m.priority p))
                  (ground (arith, eq_iff m.sender_id s)))
          | inr n ↦ Owned-old p s j (ground (arith, get-admit p s))
        ]

  buried-admit : (k : ℕ) → has k (admit m q).tombstones ≡ true → k ≤ q.seq + 1
  unfolding admit
  buried-admit k t = elim (Option-cases (Dict.get m.sender_id (q.latest_by_sender m.priority))) [
    | inl e ↦ let below = v.buried k (ground arith) in omega arith
    | inr (prev, e) ↦
        let (le, _) = v.owned m.priority m.sender_id prev e in
        elim (Bool-cases (has k q.tombstones)) [
          | inl old ↦ let below = v.buried k old in omega arith
          | inr new ↦ ground (arith, has-add prev k q.tombstones)
        ]
  ]

pub admit-seq :
    (m : V2XMessage) (q : Queue)
    → ((admit m q).seq ≡ q.seq + 1) × ((admit m q).compaction_enabled ≡ q.compaction_enabled)
unfolding admit
admit-seq m q = (refl, refl)

-- Taking in a message keeps the invariant.
pub admit-IsQueue : (m : V2XMessage) {q : Queue} → IsQueue q → IsQueue (admit m q)
unfolding added
admit-IsQueue m {q} v = record {
  ranked = λ p. rw (lanes-admit m v, (admit-seq m q).0) (added-Ranked m v p);
  distinct = λ p. rw (lanes-admit m v) (added-Distinct m v p);
  disjoint = λ p p' n. rw (lanes-admit m v) (added-Disjoint m v p p' n);
  newest = λ p on. rw (lanes-admit m v) (
      All-added m v (Newest (admit m q) p) p
        (All-map _ (λ y. Newest-old m v p y (rw (admit-seq m q).1 at on))
          (v.newest p (rw (admit-seq m q).1 at on)))
        (Newest-new m v p (rw (admit-seq m q).1 at on)));
  owned = λ p s j e. rw (lanes-admit m v, (admit-seq m q).0) (Owned-admit m v p s j e);
  buried = λ k t. rw (admit-seq m q).0 (buried-admit m v k t);
}
