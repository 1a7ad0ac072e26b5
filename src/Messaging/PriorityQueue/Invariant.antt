-- ===== src/Messaging/PriorityQueue/Invariant.antt =====
-- The invariant of `MessagePriorityQueue` (services/messaging/marga_messaging/priority.py).
use mathlib.Core.Path.{subst}
use text.Mathlib.TextEquality.{eq_iff}
use marga.Prelude.{
  ℕ, ◌≤◌, ◌≡◌, ◌≢◌, sym, ◌⊎◌, inl, inr, String, Bool, true, false, some, List, arith, All, All-map,
  All-zip, Bool-cases, string_eq,
}
use marga.Prelude.Dict
use marga.Prelude.Dict.{Dict}
use marga.Messaging.Message.{MessagePriority, priority_order, same_priority, same_priority_iff}
use marga.Messaging.PriorityQueue.{Entry, Queue, has, set_at, compacts, clean_latest, clean, init}
use marga.Messaging.PriorityQueue.Sets.{Avoids, Distinct}
use marga.Messaging.PriorityQueue.Lane.{
  Disjoint, Suffix, whole, Suffix-All, Suffix-Distinct, LaneStep,
}

-- Where an entry of lane `p` belongs: its rank, its number and its message's priority.
abbrev pub Ranked : MessagePriority → ℕ → Entry → Type 0
Ranked p n x = (x.order ≡ priority_order p) × (x.seq ≤ n) × (x.message.priority ≡ p)

-- An entry that is not compacted out is the one that its sender's record points to.
abbrev pub Newest : Queue → MessagePriority → Entry → Type 0
Newest q p x =
    (has x.seq q.tombstones ≡ true)
    ⊎ (Dict.get x.message.sender_id (q.latest_by_sender p) ≡ some x.seq)

-- A sender's record points to no entry of another lane or of another sender.
abbrev pub Owned : MessagePriority → String → ℕ → MessagePriority → Entry → Type 0
Owned p s j p' y = (y.seq ≢ j) ⊎ ((p' ≡ p) × (y.message.sender_id ≡ s))

pub record IsQueue (q : Queue) : Type 0 where
  pub ranked : (p : MessagePriority) → All (Ranked p q.seq) (q.lanes p)
  pub distinct : (p : MessagePriority) → Distinct (q.lanes p)
  pub disjoint :
      (p p' : MessagePriority) → same_priority p p' ≡ false → Disjoint (q.lanes p) (q.lanes p')
  pub newest :
      (p : MessagePriority) → compacts q.compaction_enabled p ≡ true → All (Newest q p) (q.lanes p)
  pub owned :
      (p : MessagePriority) (s : String) (j : ℕ)
      → Dict.get s (q.latest_by_sender p) ≡ some j
      → (j ≤ q.seq) × ((p' : MessagePriority) → All (Owned p s j p') (q.lanes p'))
  pub buried : (k : ℕ) → has k q.tombstones ≡ true → k ≤ q.seq

pub init-IsQueue : (capacity : ℕ) (enabled : Bool) → IsQueue (init capacity enabled)
unfolding init has Dict.get
init-IsQueue capacity enabled = record {
  ranked = λ p. tt;
  distinct = λ p. tt;
  disjoint = λ p p' e. tt;
  newest = λ p e. tt;
  owned = λ p s j e. absurd (ground arith);
  buried = λ k e. absurd (ground arith);
}

same_priority_symm : (p q : MessagePriority) → same_priority p q ≡ same_priority q p
same_priority_symm p q = ground (arith, same_priority_iff p q, same_priority_iff q p)

-- The queue after a loop over lane `p`.
abbrev pub with_lane : MessagePriority → List Entry → List ℕ → Queue → Queue
with_lane p h tombs q = record q { lanes = set_at p h q.lanes; tombstones = tombs }

module _ (p : MessagePriority) {h : List Entry} {tombs : List ℕ} {q : Queue} (v : IsQueue q)
    (s : LaneStep q.tombstones (q.lanes p) tombs h) where
  suffix_at : (p' : MessagePriority) → Suffix (set_at p h q.lanes p') (q.lanes p')
  suffix_at p' = elim (Bool-cases (same_priority p p')) [
    | inl e ↦ rw e (subst (λ r. Suffix h (q.lanes r)) ((same_priority_iff p p').0 e) s.suffix)
    | inr n ↦ rw n (whole (q.lanes p'))
  ]

  pub kept_at :
      (p' : MessagePriority)
      → All (λ (y : Entry). has y.seq tombs ≡ has y.seq q.tombstones) (set_at p h q.lanes p')
  kept_at p' = elim (Bool-cases (same_priority p p')) [
    | inl e ↦ rw e s.own
    | inr n ↦ rw n (
        All-map (q.lanes p') (λ y a. s.others y.seq a)
          (v.disjoint p' p (rw (same_priority_symm p' p) n)))
  ]

  pub with_lane-IsQueue : IsQueue (with_lane p h tombs q)
  with_lane-IsQueue = record {
    ranked = λ p'. Suffix-All _ (suffix_at p') (v.ranked p');
    distinct = λ p'. Suffix-Distinct (suffix_at p') (v.distinct p');
    disjoint = λ p₁ p₂ n.
        All-map _ (λ x a. Suffix-All _ (suffix_at p₂) a)
          (Suffix-All _ (suffix_at p₁) (v.disjoint p₁ p₂ n));
    newest = λ p' on.
        All-zip _ (λ y same new. ground arith) (kept_at p')
          (Suffix-All _ (suffix_at p') (v.newest p' on));
    owned = λ p₁ s₁ j e.
        let (le, all) = v.owned p₁ s₁ j e in (le, λ p'. Suffix-All _ (suffix_at p') (all p'));
    buried = λ k t. v.buried k (s.shrinks k t);
  }

get-clean_latest :
    (x : Entry) (s : String) (j : ℕ) (latest : Dict String ℕ)
    → Dict.get s (clean_latest x latest) ≡ some j
    → Dict.get s latest ≡ some j
unfolding clean_latest
get-clean_latest x s j latest e = ground (arith, Dict.get-pop x.message.sender_id s latest)

newest-clean :
    (x y : Entry) (latest : Dict String ℕ)
    → y.seq ≢ x.seq
    → Dict.get y.message.sender_id latest ≡ some y.seq
    → Dict.get y.message.sender_id (clean_latest x latest) ≡ some y.seq
unfolding clean_latest
newest-clean x y latest other e = ground (
  arith,
  Dict.get-pop x.message.sender_id y.message.sender_id latest,
  eq_iff x.message.sender_id y.message.sender_id,
)

module _ (p : MessagePriority) (x : Entry) {q : Queue} (v : IsQueue q)
    (gone : Avoids x.seq (q.lanes p)) where
  cleaned : Queue
  cleaned = record q {
    latest_by_sender = set_at p (clean_latest x (q.latest_by_sender p)) q.latest_by_sender;
  }

  Newest-cleaned :
      (p' : MessagePriority)
      → compacts q.compaction_enabled p' ≡ true
      → All (Newest cleaned p') (q.lanes p')
  unfolding cleaned
  Newest-cleaned p' on = elim (Bool-cases (same_priority p p')) [
    | inr n ↦ All-map (q.lanes p') (λ y new. rw n new) (v.newest p' on)
    | inl e ↦
        let same : p ≡ p' = (same_priority_iff p p').0 e in
        All-zip (q.lanes p') (λ y other new. newest-at y e same other new)
          (subst (λ r. Avoids x.seq (q.lanes r)) same gone) (v.newest p' on)
  ]
    where
      newest-at :
          (y : Entry)
          → same_priority p p' ≡ true
          → p ≡ p'
          → y.seq ≢ x.seq
          → Newest q p' y
          → Newest cleaned p' y
      newest-at y e same other (inl dead) = inl dead
      newest-at y e same other (inr now) = inr (
          rw e (
            newest-clean x y (q.latest_by_sender p) other (
              subst (λ r. Dict.get y.message.sender_id (q.latest_by_sender r) ≡ some y.seq)
                (sym same) now)))

  get-cleaned :
      (p' : MessagePriority) (s : String) (j : ℕ)
      → Dict.get s (cleaned.latest_by_sender p') ≡ some j
      → Dict.get s (q.latest_by_sender p') ≡ some j
  unfolding cleaned
  get-cleaned p' s j e = elim (Bool-cases (same_priority p p')) [
    | inr n ↦ rw n at e
    | inl eq ↦
        subst (λ r. Dict.get s (q.latest_by_sender r) ≡ some j) ((same_priority_iff p p').0 eq)
          (get-clean_latest x s j (q.latest_by_sender p) (rw eq at e))
  ]

  -- Forgetting the sender of an entry that has gone keeps the invariant.
  pub clean-IsQueue : IsQueue (clean p x q)
  unfolding clean cleaned
  clean-IsQueue = elim (Bool-cases (compacts q.compaction_enabled p)) [
    | inr off ↦ rw off v
    | inl on ↦ rw on (record {
      ranked = v.ranked;
      distinct = v.distinct;
      disjoint = v.disjoint;
      newest = Newest-cleaned;
      owned = λ p' s j e. v.owned p' s j (get-cleaned p' s j e);
      buried = v.buried;
    })
  ]
