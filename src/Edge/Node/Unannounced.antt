-- ===== src/Edge/Node/Unannounced.antt =====
-- services/edge_v2x/node.py and manager.py: the risks that are not announced, because another vehicle left.
use mathlib.Core.Path.{subst}
use mathlib.Core.List.Permᴰ
use marga.Prelude.{
  ap, sym, keep, elem, ℕ, ◌≡◌, ◌∙◌, refl, true, false, Option, none, some, inl, inr, List, [], ◌∷◌,
  All, nat_eq, Bool-cases,
}
use marga.Prelude.Dict
use marga.Prelude.Dict.{Dict}
use marga.Edge.Prioritizer.{Floats, RiskEvent, RiskPrioritizer, prioritize}
use marga.Edge.Node.Announced.{is_told, call-untold, call-news, actives}
use marga.Edge.Node.Current.{IsCurrent, call-IsCurrent}
use marga.Edge.Node.Repeats.{Repeats, same-Repeats, Repeats-same}
use marga.Edge.Node.{
  all_within, within, evaluate_all, VehicleState, Node, Assessment, same_signature, newly, activate,
  signature, remove_peer, evaluate_from, evaluate_risks, refresh_direct_peers, Call, prunes,
  forgets, call, run,
}

module _ (fs : Floats) (M : Type 0) (p : RiskPrioritizer fs) (pair : Assessment fs M) where
  open fs use {F}

  -- The active risk has the type and the actors of `r`.
  abbrev pub Stays : RiskEvent F → Option (RiskEvent F) → Type 0
  Stays r none = ⊥
  Stays r (some q) = Repeats fs M (some r) q

  Stays-same :
      (r : RiskEvent F) (before active : Option (RiskEvent F))
      → Stays r before
      → Stays r active
      → same_signature (signature fs M active) (signature fs M before) ≡ true
  unfolding Repeats
  Stays-same r none active h k = absurd h
  Stays-same r (some a) none h k = absurd k
  Stays-same r (some a) (some b) (t, xs) (u, ys) =
      Repeats-same fs M (some a) b (sym t ∙ u, Permᴰ.trans (Permᴰ.symm xs) ys)

  call-quiet :
      (r : RiskEvent F) (c : Call fs M p pair) (n : Node fs M)
      → IsCurrent fs M p pair n
      → Stays r n.active_risk
      → Stays r (call fs M p pair c n).0.active_risk
      → (call fs M p pair c n).1 ≡ none
  call-quiet r c n v here there = elim (Bool-cases (is_told fs M p pair c)) [
    | inr silent ↦ call-untold fs M p pair c n silent
    | inl told ↦
        call-news fs M p pair c n v told
        ∙ ap (λ b. newly fs M b (call fs M p pair c n).0.active_risk)
            (Stays-same r n.active_risk (call fs M p pair c n).0.active_risk here there)
  ]

  run-quiet :
      (r : RiskEvent F) (cs : List (Call fs M p pair)) (n : Node fs M)
      → IsCurrent fs M p pair n
      → Stays r n.active_risk
      → All (Stays r) (actives fs M p pair cs n)
      → (run fs M p pair cs n).1 ≡ []
  unfolding run
  run-quiet r [] n v here steady = refl
  run-quiet r (c ∷ cs) n v here steady =
      rw
        (
          call-quiet r c n v here steady.0,
          run-quiet r cs (call fs M p pair c n).0 (call-IsCurrent fs M p pair c n v) steady.0
              steady.1,
        )
        refl

  -- The call takes peers from the node, of which these remain.
  pub data Departs (n : Node fs M) : Call fs M p pair → ℕ → Dict ℕ (VehicleState M) → Type 0 where
    removed : (i now : ℕ) → Departs n (forgets i now) now (Dict.pop i n.peers)
    out_of_range :
        (near : List ℕ) (now : ℕ)
        → all_within fs M p pair near n.peers ≡ false
        → Departs n (prunes near now) now (keep (λ q. elem q.0 near) n.peers)

  departed :
      {n : Node fs M} {c : Call fs M p pair} {now : ℕ} {d : Dict ℕ (VehicleState M)}
      → Departs n c now d
      → call fs M p pair c n ≡ ((evaluate_risks fs M p pair now (record n { peers = d })).0, none)
  unfolding call remove_peer refresh_direct_peers within
  departed (removed i now) = refl
  departed (out_of_range near now gone) = rw gone refl

  reevaluated :
      (now : ℕ) (s : VehicleState M) (d : Dict ℕ (VehicleState M)) (n : Node fs M) (r : RiskEvent F)
      → n.state ≡ some s
      → prioritize fs p (evaluate_all fs M pair now s d) ≡ some r
      → evaluate_risks fs M p pair now (record n { peers = d })
        ≡ activate fs M p (some r) (record n { peers = d })
  unfolding evaluate_risks evaluate_from
  reevaluated now s d n r known best = rw (known, evaluate_from, best) refl

  reported :
      (n : Node fs M)
      → IsCurrent fs M p pair n
      → (r : RiskEvent F) → ¬ Repeats fs M n.active_risk r
      → newly fs M (same_signature (signature fs M (some r)) n.active_signature) (some r) ≡ some r
  reported n v r new =
      ap (λ s. newly fs M (same_signature (signature fs M (some r)) s) (some r)) v.signed
      ∙ elim (Bool-cases
          (same_signature (signature fs M (some r)) (signature fs M n.active_risk))) [
            | inl same ↦ absurd (new (same-Repeats fs M n.active_risk r same))
            | inr other ↦ rw other refl
          ]

  -- For a node whose active risk is its current choice, with its signature: another vehicle is removed or
  -- moves out of range, and the best risk of the peers that remain is another one than was active, by its
  -- type or its actors. The evaluation then reports that risk, and it becomes the active one; but the node
  -- announces it neither then nor later, whatever calls it gets, as long as the active risk has that type
  -- and those actors.
  pub prune_unannounced :
      {c : Call fs M p pair} {now : ℕ} {d : Dict ℕ (VehicleState M)} (s : VehicleState M)
      (r : RiskEvent F) (cs : List (Call fs M p pair)) (n : Node fs M)
      → IsCurrent fs M p pair n
      → Departs n c now d
      → n.state ≡ some s
      → prioritize fs p (evaluate_all fs M pair now s d) ≡ some r
      → ¬ Repeats fs M n.active_risk r
      → All (Stays r) (actives fs M p pair cs (call fs M p pair c n).0)
      → ((evaluate_risks fs M p pair now (record n { peers = d })).1 ≡ some r)
        × ((call fs M p pair c n).0.active_risk ≡ some r)
        × ((run fs M p pair (c ∷ cs) n).1 ≡ [])
  unfolding run activate
  prune_unannounced {c} {now} {d} s r cs n v gone known best new steady =
      let n' : Node fs M = (call fs M p pair c n).0 in
      let again = reevaluated now s d n r known best in
      let gone' = departed gone in
      let active : n'.active_risk ≡ some r =
        ap (λ (x : Node fs M × Option (RiskEvent F)). x.0.active_risk) gone'
        ∙ ap (λ (x : Node fs M × Option (RiskEvent F)). x.0.active_risk) again in
      let silent : (call fs M p pair c n).1 ≡ none =
        ap (λ (x : Node fs M × Option (RiskEvent F)). x.1) gone' in
      let here : Stays r n'.active_risk =
        subst (Stays r) (sym active) (unfold Repeats in (refl, Permᴰ.refl r.affected_actor_ids)) in
      (
        ap (λ (x : Node fs M × Option (RiskEvent F)). x.1) again ∙ reported n v r new,
        active,
        rw (silent, run-quiet r cs n' (call-IsCurrent fs M p pair c n v) here steady) refl,
      )
