-- ===== src/Edge/Node/Current.antt =====
-- services/edge_v2x/node.py: the active risk and what it was chosen from.
use marga.Prelude.{
  elem, ℕ, ◌≡◌, refl, Option, none, some, inl, inr, List, Bool-cases, nat_eq, arith,
}
use marga.Prelude.Dict
use marga.Prelude.Dict.{Dict}
use marga.Edge.Prioritizer.{Floats, RiskEvent, RiskPrioritizer, prioritize}
use marga.Edge.Node.{
  VehicleState, Node, Assessment, evaluate_all, signature, factors_of, activate, evaluate_from,
  evaluate_risks, refresh_direct_peers, within, all_within, update_state, update_peer_state,
  remove_peer, set_internet, Message, actor_state_updated, other_topic, handle, on_message, Call,
  moves, hears, prunes, forgets, switches, call,
}

module _ (fs : Floats) (M : Type 0) (p : RiskPrioritizer fs) (pair : Assessment fs M) where
  open fs use {F}

  -- What may be active, by the state and the peers that are known.
  unfoldable pub Chosen :
      Option (VehicleState M) → Dict ℕ (VehicleState M) → Option (RiskEvent F) → Type 0
  Chosen none peers active = active ≡ none
  Chosen (some s) peers active =
      (now : ℕ) × (active ≡ prioritize fs p (evaluate_all fs M pair now s peers))

  pub record IsCurrent (n : Node fs M) : Type 0 where
    pub chosen : Chosen n.state n.peers n.active_risk
    pub signed : n.active_signature ≡ signature fs M n.active_risk
    pub weighed : n.active_factors ≡ factors_of fs M p n.active_risk

  -- Without a state the peers do not matter.
  Chosen-peers :
      (o : Option (VehicleState M)) (d d' : Dict ℕ (VehicleState M)) (active : Option (RiskEvent F))
      → o ≡ none
      → Chosen o d active
      → Chosen o d' active
  unfolding Chosen
  Chosen-peers none d d' active e h = h
  Chosen-peers (some s) d d' active e h = ground arith

  evaluate_from-IsCurrent :
      (o : Option (VehicleState M)) (d : Dict ℕ (VehicleState M)) (now : ℕ) (n : Node fs M)
      → n.state ≡ o
      → IsCurrent n
      → IsCurrent (evaluate_from fs M p pair now o (record n { peers = d })).0
  unfolding evaluate_from activate Chosen
  evaluate_from-IsCurrent none d now n e h = record {
    chosen = Chosen-peers n.state n.peers d n.active_risk e h.chosen;
    signed = h.signed;
    weighed = h.weighed;
  }
  evaluate_from-IsCurrent (some s) d now n e h = record {
    chosen = rw e (now, refl);
    signed = refl;
    weighed = refl;
  }

  evaluate_risks-IsCurrent :
      (d : Dict ℕ (VehicleState M)) (now : ℕ) (n : Node fs M)
      → IsCurrent n
      → IsCurrent (evaluate_risks fs M p pair now (record n { peers = d })).0
  unfolding evaluate_risks
  evaluate_risks-IsCurrent d now n h = evaluate_from-IsCurrent n.state d now n refl h

  update_peer_state-IsCurrent :
      (s : VehicleState M) (near : List ℕ) (now : ℕ) (n : Node fs M)
      → IsCurrent n
      → IsCurrent (update_peer_state fs M p pair s near now n).0
  unfolding update_peer_state
  update_peer_state-IsCurrent s near now n h = elim (Bool-cases (elem s.actor_id near)) [
    | inl heard ↦ rw heard (evaluate_risks-IsCurrent (Dict.put s.actor_id s n.peers) now n h)
    | inr far ↦ rw far h
  ]

  handle-IsCurrent :
      (m : Message fs M p pair) (near : List ℕ) (now : ℕ) (n : Node fs M)
      → IsCurrent n
      → IsCurrent (handle fs M p pair m near now n).0
  unfolding handle
  handle-IsCurrent (actor_state_updated (some s)) near now n h =
      update_peer_state-IsCurrent s near now n h
  handle-IsCurrent (actor_state_updated none) near now n h = h
  handle-IsCurrent other_topic near now n h = h

  -- Every call of a node keeps this: without a state of its own it has no active risk; with one, its active
  -- risk is the choice of the prioritizer among the risks that the assessment finds, at some time, between
  -- the present state and the present peers; the signature and the factors are those of the active risk.
  pub call-IsCurrent :
      (c : Call fs M p pair) (n : Node fs M) → IsCurrent n → IsCurrent (call fs M p pair c n).0
  unfolding call update_state refresh_direct_peers remove_peer set_internet on_message
      evaluate_risks evaluate_from activate Chosen
  call-IsCurrent (moves s near now) n h = record {
    chosen = (now, refl);
    signed = refl;
    weighed = refl;
  }
  call-IsCurrent (hears m near now) n h =
      handle-IsCurrent m near now _
        (record { chosen = h.chosen; signed = h.signed; weighed = h.weighed })
  call-IsCurrent (prunes near now) n h = elim (Bool-cases (all_within fs M p pair near n.peers)) [
    | inl same ↦ rw same h
    | inr gone ↦ rw gone (evaluate_risks-IsCurrent (within fs M p pair near n.peers) now n h)
  ]
  call-IsCurrent (forgets i now) n h = evaluate_risks-IsCurrent (Dict.pop i n.peers) now n h
  call-IsCurrent (switches available) n h = record {
    chosen = h.chosen;
    signed = h.signed;
    weighed = h.weighed;
  }
