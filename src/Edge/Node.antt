-- ===== src/Edge/Node.antt =====
-- services/edge_v2x/node.py, `EdgeV2XNode`, and how manager.py calls it. The peers that the transport finds
-- in range at a call are an argument of it, and so is the assessment of a pair of vehicles.
pub mod Current
pub mod Repeats
pub mod Announced
pub mod Unannounced
use marga.Prelude.{
  elem, ℕ, suc, ◌≡◌, Bool, true, false, not, ◌&&◌, Option, none, some, List, [], ◌∷◌, ◌++◌, map,
  leb, ◌==◌, nat_eq, if◌then◌else◌, keep,
}
use marga.Prelude.Dict
use marga.Prelude.Dict.{Dict}
use marga.Edge.Prioritizer.{
  RiskType, Floats, RiskEvent, RiskPrioritizer, PrioritizationFactors, prioritize, compute_factors,
}

abbrev pub insert : ℕ → List ℕ → List ℕ
insert i [] = i ∷ []
insert i (j ∷ js) = let rest = insert i js in if leb i j then i ∷ j ∷ js else j ∷ rest

-- Python's `sorted`
abbrev pub sorted : List ℕ → List ℕ
sorted [] = []
sorted (i ∷ is) = insert i (sorted is)

-- `VehicleState`: its actor, and what the assessment reads.
pub record VehicleState (M : Type 0) : Type 0 where
  pub actor_id : ℕ
  pub motion : M

abbrev pub Signature : Type 0
Signature = RiskType × List ℕ

-- The place of a type in the enumeration.
abbrev pub risk_number : RiskType → ℕ
risk_number RiskType.collision = 0
risk_number RiskType.rear_end = 1
risk_number RiskType.head_on = 2
risk_number RiskType.intersection_conflict = 3
risk_number RiskType.blind_curve = 4
risk_number RiskType.blind_intersection = 5
risk_number RiskType.wrong_way = 6
risk_number RiskType.emergency_braking = 7
risk_number RiskType.stalled_vehicle = 8
risk_number RiskType.animal_crossing = 9
risk_number RiskType.pedestrian_conflict = 10
risk_number RiskType.road_hazard = 11
risk_number RiskType.emergency_vehicle = 12
risk_number RiskType.road_narrowing = 13

abbrev pub ids_eqb : List ℕ → List ℕ → Bool
ids_eqb [] [] = true
ids_eqb (i ∷ is) (j ∷ js) = i == j && ids_eqb is js
ids_eqb _ _ = false

-- `==` on the signatures
abbrev pub same_signature : Option Signature → Option Signature → Bool
same_signature none none = true
same_signature (some (t, is)) (some (u, js)) = risk_number t == risk_number u && ids_eqb is js
same_signature _ _ = false

module _ (fs : Floats) (M : Type 0) where
  open fs use {F}

  -- `evaluate_pair`, with the clock and the identifiers that it draws as a number.
  abbrev pub Assessment : Type 0
  Assessment = ℕ → VehicleState M → VehicleState M → Option (RiskEvent F)

  pub record Node : Type 0 where
    pub state : Option (VehicleState M)
    pub peers : Dict ℕ (VehicleState M)
    pub active_risk : Option (RiskEvent F)
    pub active_factors : Option PrioritizationFactors
    pub internet_available : Bool
    pub received_message_count : ℕ
    pub active_signature : Option Signature

  abbrev pub new_node : Node
  new_node = record {
    state = none;
    peers = [];
    active_risk = none;
    active_factors = none;
    internet_available = true;
    received_message_count = 0;
    active_signature = none;
  }

  abbrev with_risk : Option (RiskEvent F) → List (RiskEvent F) → List (RiskEvent F)
  with_risk none rs = rs
  with_risk (some r) rs = r ∷ rs

  -- `evaluate_all` of risk.py, over the peers in the order in which they came.
  unfoldable pub evaluate_all :
      Assessment → ℕ → VehicleState M → Dict ℕ (VehicleState M) → List (RiskEvent F)
  evaluate_all pair now ego [] = []
  evaluate_all pair now ego ((i, peer) ∷ peers) =
      with_risk (pair now ego peer) (evaluate_all pair now ego peers)

  abbrev pub signature : Option (RiskEvent F) → Option Signature
  signature none = none
  signature (some r) = some (r.risk_type, sorted r.affected_actor_ids)

  abbrev pub factors_of : RiskPrioritizer fs → Option (RiskEvent F) → Option PrioritizationFactors
  factors_of p none = none
  factors_of p (some r) = some (compute_factors fs p r)

  abbrev pub newly : Bool → Option (RiskEvent F) → Option (RiskEvent F)
  newly same active = if same then none else active

  -- What follows the choice of the active risk.
  unfoldable pub activate :
      RiskPrioritizer fs → Option (RiskEvent F) → Node → Node × Option (RiskEvent F)
  activate p active n = (
    record n {
      active_risk = active;
      active_factors = factors_of p active;
      active_signature = signature active;
    },
    newly (same_signature (signature active) n.active_signature) active,
  )

  module _ (p : RiskPrioritizer fs) (pair : Assessment) where
    unfoldable pub evaluate_from : ℕ → Option (VehicleState M) → Node → Node × Option (RiskEvent F)
    evaluate_from now none n = (n, none)
    evaluate_from now (some ego) n =
        activate p (prioritize fs p (evaluate_all pair now ego n.peers)) n

    -- `_evaluate_risks`
    unfoldable pub evaluate_risks : ℕ → Node → Node × Option (RiskEvent F)
    unfolding evaluate_from
    evaluate_risks now n = evaluate_from now n.state n

    -- The peers that are in range.
    unfoldable pub within : List ℕ → Dict ℕ (VehicleState M) → Dict ℕ (VehicleState M)
    unfolding keep
    within near peers = keep (λ q. elem q.0 near) peers

    unfoldable pub all_within : List ℕ → Dict ℕ (VehicleState M) → Bool
    all_within near [] = true
    all_within near ((i, peer) ∷ peers) =
        let rest = all_within near peers in if elem i near then rest else false

    unfoldable pub refresh_direct_peers : Bool → List ℕ → ℕ → Node → Node × Option (RiskEvent F)
    unfolding evaluate_risks within all_within
    refresh_direct_peers only_if_changed near now n =
        if only_if_changed && all_within near n.peers
        then (n, none)
        else evaluate_risks now (record n { peers = within near n.peers })

    unfoldable pub update_state : VehicleState M → List ℕ → ℕ → Node → Node × Option (RiskEvent F)
    unfolding refresh_direct_peers
    update_state s near now n = refresh_direct_peers false near now (record n { state = some s })

    unfoldable pub update_peer_state :
        VehicleState M → List ℕ → ℕ → Node → Node × Option (RiskEvent F)
    unfolding evaluate_risks
    update_peer_state s near now n =
        if elem s.actor_id near
        then evaluate_risks now (record n { peers = Dict.put s.actor_id s n.peers })
        else (n, none)

    -- `remove_peer` returns nothing.
    unfoldable pub remove_peer : ℕ → ℕ → Node → Node
    unfolding evaluate_risks
    remove_peer i now n = (evaluate_risks now (record n { peers = Dict.pop i n.peers })).0

    unfoldable pub set_internet : Bool → Node → Node
    set_internet available n = record n { internet_available = available }

    -- A message of the topic "actor.state.updated", with its payload where that can be read, or another one.
    pub data Message : Type 0 where
      actor_state_updated : Option (VehicleState M) → Message
      other_topic : Message

    -- `_on_message`, with the risk that it broadcasts and tells its listeners.
    unfoldable pub handle : Message → List ℕ → ℕ → Node → Node × Option (RiskEvent F)
    unfolding update_peer_state
    handle (actor_state_updated (some s)) near now n = update_peer_state s near now n
    handle _ near now n = (n, none)

    unfoldable pub on_message : Message → List ℕ → ℕ → Node → Node × Option (RiskEvent F)
    unfolding handle
    on_message m near now n =
        handle m near now (record n { received_message_count = suc n.received_message_count })

    -- The calls that a node gets: of its own new state and of a message, after which the risk returned is
    -- announced; of another node that moved or is removed, after which none is; and of the internet.
    pub data Call : Type 0 where
      moves : VehicleState M → List ℕ → ℕ → Call
      hears : Message → List ℕ → ℕ → Call
      prunes : List ℕ → ℕ → Call
      forgets : ℕ → ℕ → Call
      switches : Bool → Call

    -- A call, with the risk that is announced.
    unfoldable pub call : Call → Node → Node × Option (RiskEvent F)
    unfolding update_state on_message refresh_direct_peers remove_peer set_internet
    call (moves s near now) n = update_state s near now n
    call (hears m near now) n = on_message m near now n
    call (prunes near now) n = ((refresh_direct_peers true near now n).0, none)
    call (forgets i now) n = (remove_peer i now n, none)
    call (switches available) n = (set_internet available n, none)

    abbrev pub announced : Option (RiskEvent F) → List (RiskEvent F) → List (RiskEvent F)
    announced none rs = rs
    announced (some r) rs = r ∷ rs

    -- A run of calls, with the risks that are announced.
    unfoldable pub run : List Call → Node → Node × List (RiskEvent F)
    unfolding call
    run [] n = (n, [])
    run (c ∷ cs) n = let rest = run cs (call c n).0 in (rest.0, announced (call c n).1 rest.1)
