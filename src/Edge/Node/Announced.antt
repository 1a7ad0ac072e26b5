-- ===== src/Edge/Node/Announced.antt =====
-- services/edge_v2x/node.py and manager.py: the risks that are announced, and those that are not.
use mathlib.Core.Path.{subst}
use marga.Prelude.{
  ap, sym, elem, ℕ, ◌≡◌, ◌∙◌, refl, Bool, true, false, Option, none, some, inl, inr, List, [], ◌∷◌,
  All, nat_eq, eqb_refl, Bool-cases, arith,
}
use marga.Prelude.Dict
use marga.Prelude.Dict.{Dict}
use marga.Edge.Prioritizer.{Floats, RiskEvent, RiskPrioritizer}
use marga.Edge.Node.Current.{IsCurrent, call-IsCurrent}
use marga.Edge.Node.Repeats.{ids_eqb_refl, Repeats, same-Repeats, Repeats-same}
use marga.Edge.Node.{
  Signature, VehicleState, Node, Assessment, same_signature, risk_number, newly, activate,
  signature, evaluate_from, evaluate_risks, refresh_direct_peers, update_state, update_peer_state,
  set_internet, Message, actor_state_updated, other_topic, handle, on_message, Call, moves, hears,
  prunes, forgets, switches, call, announced, run,
}

same_signature_refl : (s : Option Signature) → same_signature s s ≡ true
same_signature_refl none = refl
same_signature_refl (some (t, is)) = rw (eqb_refl (risk_number t), ids_eqb_refl is) refl

module _ (fs : Floats) (M : Type 0) (p : RiskPrioritizer fs) (pair : Assessment fs M) where
  open fs use {F}

  -- The risk that is new in a state, after a signature.
  abbrev pub fresh : Option Signature → Node fs M → Option (RiskEvent F)
  fresh before n = newly fs M (same_signature n.active_signature before) n.active_risk

  unchanged : (n : Node fs M) → none ≡ fresh n.active_signature n
  unchanged n = rw (same_signature_refl n.active_signature) refl

  evaluate_from-told :
      (now : ℕ) (o : Option (VehicleState M)) (n : Node fs M)
      → (evaluate_from fs M p pair now o n).1
        ≡ fresh n.active_signature (evaluate_from fs M p pair now o n).0
  unfolding evaluate_from activate
  evaluate_from-told now none n = unchanged n
  evaluate_from-told now (some s) n = refl

  handle-told :
      (m : Message fs M p pair) (near : List ℕ) (now : ℕ) (n : Node fs M)
      → (handle fs M p pair m near now n).1
        ≡ fresh n.active_signature (handle fs M p pair m near now n).0
  unfolding handle update_peer_state evaluate_risks
  handle-told (actor_state_updated (some s)) near now n = elim (Bool-cases (elem s.actor_id near)) [
    | inl heard ↦
        rw heard
          (evaluate_from-told now n.state (record n { peers = Dict.put s.actor_id s n.peers }))
    | inr far ↦ rw far (unchanged n)
  ]
  handle-told (actor_state_updated none) near now n = unchanged n
  handle-told other_topic near now n = unchanged n

  -- A call after which the risk returned is announced.
  abbrev pub is_told : Call fs M p pair → Bool
  is_told (prunes near now) = false
  is_told (forgets i now) = false
  is_told _ = true

  call-told :
      (c : Call fs M p pair) (n : Node fs M)
      → is_told c ≡ true
      → (call fs M p pair c n).1 ≡ fresh n.active_signature (call fs M p pair c n).0
  unfolding call update_state refresh_direct_peers evaluate_risks on_message set_internet
  call-told (moves s near now) n t = evaluate_from-told now (some s) _
  call-told (hears m near now) n t = handle-told m near now _
  call-told (switches available) n t = unchanged n
  call-told (prunes near now) n t = ground arith
  call-told (forgets i now) n t = ground arith

  pub call-untold :
      (c : Call fs M p pair) (n : Node fs M) → is_told c ≡ false → (call fs M p pair c n).1 ≡ none
  unfolding call
  call-untold (prunes near now) n t = refl
  call-untold (forgets i now) n t = refl
  call-untold (moves s near now) n t = ground arith
  call-untold (hears m near now) n t = ground arith
  call-untold (switches available) n t = ground arith

  -- The active risks after each of the calls.
  abbrev pub actives : List (Call fs M p pair) → Node fs M → List (Option (RiskEvent F))
  actives [] n = []
  actives (c ∷ cs) n = (call fs M p pair c n).0.active_risk ∷ actives cs (call fs M p pair c n).0

  -- From an active risk and the active risks that follow it, those that are news: their type is another one
  -- than that of the active risk before, or their actors are others, or there was none.
  pub data News
      : Option (RiskEvent F) → List (Option (RiskEvent F)) → List (RiskEvent F) → Type 0 where
    done : {before : Option (RiskEvent F)} → News before [] []
    calm :
        {before : Option (RiskEvent F)} {later : List (Option (RiskEvent F))}
        {told : List (RiskEvent F)}
        → News none later told
        → News before (none ∷ later) told
    again :
        {before : Option (RiskEvent F)} {r : RiskEvent F} {later : List (Option (RiskEvent F))}
        {told : List (RiskEvent F)}
        → Repeats fs M before r
        → News (some r) later told
        → News before (some r ∷ later) told
    tells :
        {before : Option (RiskEvent F)} {r : RiskEvent F} {later : List (Option (RiskEvent F))}
        {told : List (RiskEvent F)}
        → ¬ Repeats fs M before r
        → News (some r) later told
        → News before (some r ∷ later) (r ∷ told)

  News-step :
      (before active : Option (RiskEvent F)) {later : List (Option (RiskEvent F))}
      {told : List (RiskEvent F)}
      → News active later told
      → News before (active ∷ later) (
          announced fs M p pair
            (newly fs M (same_signature (signature fs M active) (signature fs M before)) active)
            told)
  News-step before none {later} {told} w =
      elim (Bool-cases (same_signature none (signature fs M before))) [
        | inl same ↦ rw same (calm w)
        | inr new ↦ rw new (calm w)
      ]
  News-step before (some r) w =
      elim (Bool-cases (same_signature (signature fs M (some r)) (signature fs M before))) [
        | inl same ↦ rw same (again (same-Repeats fs M before r same) w)
        | inr new ↦
            rw new (tells (λ h. absurd (ground (arith, new, Repeats-same fs M before r h))) w)
      ]

  -- What a call announces, in terms of the active risks.
  pub call-news :
      (c : Call fs M p pair) (n : Node fs M)
      → IsCurrent fs M p pair n
      → is_told c ≡ true
      → (call fs M p pair c n).1
        ≡ newly fs M
            (same_signature
              (signature fs M (call fs M p pair c n).0.active_risk)
              (signature fs M n.active_risk))
            (call fs M p pair c n).0.active_risk
  call-news c n v told =
      let n' : Node fs M = (call fs M p pair c n).0 in
      call-told c n told
      ∙ ap (λ s. newly fs M (same_signature s n.active_signature) n'.active_risk)
          (call-IsCurrent fs M p pair c n v).signed
      ∙ ap (λ s. newly fs M (same_signature (signature fs M n'.active_risk) s) n'.active_risk)
          v.signed

  -- Over any run of moves, messages and changes of the internet, from a node whose active risk is its current
  -- choice, with its signature: the risks that are announced are exactly the active ones that are news, in
  -- their order. Those have another type or other actors than the active risk before, or come after none.
  pub run-changes :
      (cs : List (Call fs M p pair)) (n : Node fs M)
      → IsCurrent fs M p pair n
      → All (λ c. is_told c ≡ true) cs
      → News n.active_risk (actives cs n) (run fs M p pair cs n).1
  unfolding run
  run-changes [] n v told = done
  run-changes (c ∷ cs) n v told =
      subst
        (λ o.
          News n.active_risk (actives (c ∷ cs) n)
            (announced fs M p pair o (run fs M p pair cs (call fs M p pair c n).0).1))
        (sym (call-news c n v told.0))
        (News-step n.active_risk (call fs M p pair c n).0.active_risk
          (run-changes cs (call fs M p pair c n).0 (call-IsCurrent fs M p pair c n v) told.1))
