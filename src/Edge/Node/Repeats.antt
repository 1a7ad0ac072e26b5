-- ===== src/Edge/Node/Repeats.antt =====
-- services/edge_v2x/node.py: when two risks have the same type and the same actors.
use mathlib.Core.Path.{subst}
use mathlib.Core.List.Permᴰ
use mathlib.Core.List.{Permᴰ}
use marga.Prelude.{
  zero, suc, leb→le, ℕ, ◌≡◌, ◌∙◌, refl, sym, ap, true, false, Option, none, some, inl, inr, List,
  [], ◌∷◌, leb, ◌==◌, nat_eq, nat_eqb_iff, Bool-cases, arith, eqb_refl,
}
use marga.Edge.Prioritizer.{RiskType, Floats, RiskEvent}
use marga.Edge.Node.{risk_number, ids_eqb, same_signature, insert, sorted, signature}

pub ids_eqb_refl : (is : List ℕ) → ids_eqb is is ≡ true
ids_eqb_refl [] = refl
ids_eqb_refl (i ∷ is) = rw (eqb_refl i, ids_eqb_refl is) refl

ids_eqb-eq : (is js : List ℕ) → ids_eqb is js ≡ true → is ≡ js
ids_eqb-eq [] [] e = refl
ids_eqb-eq [] (j ∷ js) e = ground (arith, e)
ids_eqb-eq (i ∷ is) [] e = ground (arith, e)
ids_eqb-eq (i ∷ is) (j ∷ js) e =
    let head : i ≡ j = ground (arith, nat_eqb_iff i j) in
    let tail : is ≡ js = ids_eqb-eq is js (ground arith) in
    ap (λ k. k ∷ is) head ∙ ap (λ ks. j ∷ ks) tail

abbrev place : ℕ → List RiskType → RiskType
place n [] = RiskType.road_narrowing
place zero (t ∷ ts) = t
place (suc n) (t ∷ ts) = place n ts

-- The type at a place of the enumeration.
abbrev risk_at : ℕ → RiskType
risk_at n = place n (
    RiskType.collision ∷ RiskType.rear_end ∷ RiskType.head_on ∷ RiskType.intersection_conflict
    ∷ RiskType.blind_curve ∷ RiskType.blind_intersection ∷ RiskType.wrong_way
    ∷ RiskType.emergency_braking ∷ RiskType.stalled_vehicle ∷ RiskType.animal_crossing
    ∷ RiskType.pedestrian_conflict ∷ RiskType.road_hazard ∷ RiskType.emergency_vehicle
    ∷ RiskType.road_narrowing ∷ [])

risk_at-risk_number : (t : RiskType) → risk_at (risk_number t) ≡ t
risk_at-risk_number RiskType.collision = refl
risk_at-risk_number RiskType.rear_end = refl
risk_at-risk_number RiskType.head_on = refl
risk_at-risk_number RiskType.intersection_conflict = refl
risk_at-risk_number RiskType.blind_curve = refl
risk_at-risk_number RiskType.blind_intersection = refl
risk_at-risk_number RiskType.wrong_way = refl
risk_at-risk_number RiskType.emergency_braking = refl
risk_at-risk_number RiskType.stalled_vehicle = refl
risk_at-risk_number RiskType.animal_crossing = refl
risk_at-risk_number RiskType.pedestrian_conflict = refl
risk_at-risk_number RiskType.road_hazard = refl
risk_at-risk_number RiskType.emergency_vehicle = refl
risk_at-risk_number RiskType.road_narrowing = refl

risk_number-eq : (t u : RiskType) → (risk_number t == risk_number u) ≡ true → t ≡ u
risk_number-eq t u e =
    sym (risk_at-risk_number t)
    ∙ ap risk_at ((nat_eqb_iff (risk_number t) (risk_number u)).0 e)
    ∙ risk_at-risk_number u

insert-Perm : (i : ℕ) (js : List ℕ) → Permᴰ (insert i js) (i ∷ js)
insert-Perm i [] = Permᴰ.refl (i ∷ [])
insert-Perm i (j ∷ js) = elim (Bool-cases (leb i j)) [
  | inl low ↦ rw low (Permᴰ.refl (i ∷ j ∷ js))
  | inr high ↦ rw high (Permᴰ.trans (Permᴰ.cons refl (insert-Perm i js)) (Permᴰ.swap refl refl))
]

sorted-Perm : (is : List ℕ) → Permᴰ (sorted is) is
sorted-Perm [] = Permᴰ.nil
sorted-Perm (i ∷ is) = Permᴰ.trans (insert-Perm i (sorted is)) (Permᴰ.cons refl (sorted-Perm is))

above : (i j : ℕ) → leb i j ≡ false → leb j i ≡ true
above i j high = ground (arith, high)

equal :
    (i j : ℕ) (l : List ℕ) → leb i j ≡ true → leb j i ≡ true → Path (List ℕ) (i ∷ j ∷ l) (j ∷ i ∷ l)
equal i j l low up =
    let same : i ≡ j = omega (arith, leb→le i j low, leb→le j i up) in
    ap (λ k. k ∷ j ∷ l) same ∙ ap (λ k. j ∷ k ∷ l) (sym same)

-- Two numbers that come before the rest.
between :
    (i j k : ℕ) (l : List ℕ)
    → leb i k ≡ true
    → leb j k ≡ true
    → insert i (j ∷ k ∷ l) ≡ insert j (i ∷ k ∷ l)
between i j k l ik jk = elim (Bool-cases (leb i j)) [
  | inl low ↦ elim (Bool-cases (leb j i)) [
    | inl up ↦ rw (low, up) (equal i j (k ∷ l) low up)
    | inr less ↦ rw (low, less, jk) refl
  ]
  | inr high ↦ rw (high, above i j high, ik) refl
]

-- One number that comes before the head, and one that comes after it.
apart :
    (i j k : ℕ) (l : List ℕ)
    → leb i k ≡ true
    → leb j k ≡ false
    → i ∷ k ∷ insert j l ≡ insert j (i ∷ k ∷ l)
apart i j k l ik kj = let after : leb j i ≡ false = ground (arith, ik, kj) in rw (after, kj) refl

insert-low : (i k : ℕ) (ks : List ℕ) → leb i k ≡ true → insert i (k ∷ ks) ≡ i ∷ k ∷ ks
insert-low i k ks e = rw e refl

insert-high : (i k : ℕ) (ks : List ℕ) → leb i k ≡ false → insert i (k ∷ ks) ≡ k ∷ insert i ks
insert-high i k ks e = rw e refl

insert-swap : (i j : ℕ) (ks : List ℕ) → insert i (insert j ks) ≡ insert j (insert i ks)
insert-swap i j [] = elim (Bool-cases (leb i j)) [
  | inl low ↦ elim (Bool-cases (leb j i)) [
    | inl up ↦ rw (low, up) (equal i j [] low up)
    | inr less ↦ rw (low, less) refl
  ]
  | inr high ↦ rw (high, above i j high) refl
]
insert-swap i j (k ∷ ks) = elim (Bool-cases (leb i k)) [
  | inl ik ↦ elim (Bool-cases (leb j k)) [
    | inl jk ↦
        ap (insert i) (insert-low j k ks jk)
        ∙ between i j k ks ik jk
        ∙ ap (insert j) (sym (insert-low i k ks ik))
    | inr kj ↦
        ap (insert i) (insert-high j k ks kj)
        ∙ insert-low i k (insert j ks) ik
        ∙ apart i j k ks ik kj
        ∙ ap (insert j) (sym (insert-low i k ks ik))
  ]
  | inr ki ↦ elim (Bool-cases (leb j k)) [
    | inl jk ↦
        ap (insert i) (insert-low j k ks jk)
        ∙ sym (apart j i k ks jk ki)
        ∙ sym (insert-low j k (insert i ks) jk)
        ∙ ap (insert j) (sym (insert-high i k ks ki))
    | inr kj ↦
        ap (insert i) (insert-high j k ks kj)
        ∙ insert-high i k (insert j ks) ki
        ∙ ap (λ l. k ∷ l) (insert-swap i j ks)
        ∙ sym (insert-high j k (insert i ks) kj)
        ∙ ap (insert j) (sym (insert-high i k ks ki))
  ]
]

sorted-eq : {is js : List ℕ} → Permᴰ is js → sorted is ≡ sorted js
sorted-eq Permᴰ.nil = refl
sorted-eq (Permᴰ.cons {a} {b} {l₁} {l₂} e p) =
    ap (λ i. insert i (sorted l₁)) e ∙ ap (insert b) (sorted-eq p)
sorted-eq (Permᴰ.swap {a} {b} {a' = c} {b' = d} {l} ad bc) =
    ap (λ i. insert i (insert b (sorted l))) ad
    ∙ ap (λ i. insert d (insert i (sorted l))) bc
    ∙ insert-swap d c (sorted l)
sorted-eq (Permᴰ.trans p q) = sorted-eq p ∙ sorted-eq q

module _ (fs : Floats) (M : Type 0) where
  open fs use {F}

  -- A risk of the same type and of the same actors, in any order, was there before.
  unfoldable pub Repeats : Option (RiskEvent F) → RiskEvent F → Type 0
  Repeats none r = ⊥
  Repeats (some q) r = (q.risk_type ≡ r.risk_type) × Permᴰ q.affected_actor_ids r.affected_actor_ids

  pub same-Repeats :
      (before : Option (RiskEvent F)) (r : RiskEvent F)
      → same_signature (signature fs M (some r)) (signature fs M before) ≡ true
      → Repeats before r
  unfolding Repeats
  same-Repeats none r e = ground (arith, e)
  same-Repeats (some q) r e = (
    sym (risk_number-eq r.risk_type q.risk_type (ground (arith, e))),
    Permᴰ.trans (Permᴰ.symm (sorted-Perm q.affected_actor_ids)) (
        subst (λ l. Permᴰ l r.affected_actor_ids)
          (ids_eqb-eq (sorted r.affected_actor_ids) (sorted q.affected_actor_ids)
            (ground (arith, e)))
          (sorted-Perm r.affected_actor_ids)),
  )

  pub Repeats-same :
      (before : Option (RiskEvent F)) (r : RiskEvent F)
      → Repeats before r
      → same_signature (signature fs M (some r)) (signature fs M before) ≡ true
  unfolding Repeats
  Repeats-same none r h = absurd h
  Repeats-same (some q) r (t, p) =
      rw
        (
          t,
          sorted-eq p,
          ids_eqb_refl (sorted r.affected_actor_ids),
          eqb_refl (risk_number r.risk_type),
        )
        refl
