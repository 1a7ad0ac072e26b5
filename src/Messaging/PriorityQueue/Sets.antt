-- ===== src/Messaging/PriorityQueue/Sets.antt =====
-- Sets of sequence numbers, and the entries that a set of tombstones leaves.
use marga.Prelude.{
  ℕ, ◌≡◌, ◌≢◌, refl, true, false, not, List, [], ◌∷◌, arith, if◌then◌else◌, nat_eqb, nat_eqb_iff,
  keep, All,
}
use marga.Messaging.PriorityQueue.{Entry, has, add, discard}

pub has-discard :
    (k j : ℕ) (s : List ℕ) → has j (discard k s) ≡ (if nat_eqb k j then false else has j s)
unfolding has discard
has-discard k j [] = ground arith
has-discard k j (i ∷ s) = ground (arith, has-discard k j s)

has_of_eq : (k j : ℕ) (s : List ℕ) → has k s ≡ true → nat_eqb k j ≡ true → has j s ≡ true
has_of_eq k j s h e = rw (← (nat_eqb_iff k j).0 e) h

pub has-add : (k j : ℕ) (s : List ℕ) → has j (add k s) ≡ (if nat_eqb k j then true else has j s)
unfolding has add
has-add k j s = ground (arith, has_of_eq k j s)

-- The entries of a heap that are not compacted out.
unfoldable pub alive : List ℕ → List Entry → List Entry
unfolding keep
alive tombs = keep (λ x. not (has x.seq tombs))

-- No entry of the heap has this sequence number.
abbrev pub Avoids : ℕ → List Entry → Type 0
Avoids k = All (λ (x : Entry). x.seq ≢ k)

abbrev pub Distinct : List Entry → Type 0
Distinct [] = Unit
Distinct (x ∷ h) = Avoids x.seq h × Distinct h

pub alive-discard :
    (k : ℕ) (tombs : List ℕ) (h : List Entry)
    → Avoids k h
    → alive (discard k tombs) h ≡ alive tombs h
unfolding alive
alive-discard k tombs [] a = refl
alive-discard k tombs (x ∷ h) a =
    ground (arith, has-discard k x.seq tombs, alive-discard k tombs h a.1)

pub alive-add :
    (k : ℕ) (tombs : List ℕ) (h : List Entry) → Avoids k h → alive (add k tombs) h ≡ alive tombs h
unfolding alive
alive-add k tombs [] a = refl
alive-add k tombs (x ∷ h) a = ground (arith, has-add k x.seq tombs, alive-add k tombs h a.1)

-- Where two sets agree on the entries of a heap, they leave the same ones.
pub alive-same :
    (tombs tombs' : List ℕ) (h : List Entry)
    → All (λ (y : Entry). has y.seq tombs' ≡ has y.seq tombs) h
    → alive tombs' h ≡ alive tombs h
unfolding alive
alive-same tombs tombs' [] a = refl
alive-same tombs tombs' (x ∷ h) a = ground (arith, alive-same tombs tombs' h a.1)
