-- ===== src/Edge/Tests.antt =====
-- Runs of a node and of the prioritizer, and their theorems at concrete inputs.
use mathlib.Core.List.Permᴰ
use mathlib.Core.List.{Permᴰ}
use mathlib.Core.Bool.{false≢true}
use marga.Prelude.{
  All, List, ℕ, ◌+◌, ◌-◌, ◌*◌, ◌/◌, min, max, ◌≡◌, refl, false, none, some, List, [], ◌∷◌, ltb, leb,
  if◌then◌else◌, nat_eq, keep,
}
use marga.Prelude.Dict
use marga.Edge.Prioritizer.{
  RiskType, Floats, RiskEvent, RiskPrioritizer, Picks, prioritize, best_from, score,
  compute_factors, urgency, extract_vulnerability, most_vulnerable,
}
use marga.Edge.Prioritizer.Choice.{prioritize-Picks}
use marga.Edge.Node.{
  VehicleState, Node, Assessment, new_node, activate, evaluate_all, evaluate_from, evaluate_risks,
  within, all_within, refresh_direct_peers, update_state, update_peer_state, remove_peer, handle,
  on_message, set_internet, actor_state_updated, Call, moves, hears, forgets, switches, call, run,
}
use marga.Edge.Node.Repeats.{Repeats, Repeats-same}
use marga.Edge.Node.Current.{IsCurrent, Chosen, call-IsCurrent}
use marga.Edge.Node.Announced.{run-changes, News, actives}
use marga.Edge.Node.Unannounced.{Stays, removed, prune_unannounced}

abbrev hundredth : Floats
hundredth = record {
  F = ℕ;
  hundredths = λ n. n;
  add = λ a b. a + b;
  sub = λ a b. a - b;
  mul = λ a b. a * b / 100;
  div = λ a b. a * 100 / b;
  max_of = max;
  min_of = min;
  less = ltb;
  at_most = leb;
  round = λ a. a * 100;
}

abbrev default : RiskPrioritizer hundredth
default = record {
  w_probability = 30;
  w_ttc = 25;
  w_uncertainty = 15;
  w_consequence = 20;
  w_vulnerability = 10;
  horizon_s = 800;
}

abbrev risk_of : ℕ → ℕ → ℕ → ℕ → RiskEvent ℕ
risk_of now ego peer ttc = record {
  risk_id = now;
  risk_type = RiskType.rear_end;
  affected_actor_ids = ego ∷ peer ∷ [];
  time_to_conflict_s = some ttc;
  severity = 50;
  confidence = 80;
  risk_score = 60;
  evidence = none ∷ some 70 ∷ [];
}

score_run : score hundredth default (risk_of 0 1 2 400) ≡ 5_900
unfolding compute_factors urgency extract_vulnerability most_vulnerable
score_run = refl

abbrev three : List (RiskEvent ℕ)
three = risk_of 0 1 2 600 ∷ risk_of 0 1 3 200 ∷ risk_of 0 1 4 200 ∷ []

prioritize_run : prioritize hundredth default three ≡ some (risk_of 0 1 3 200)
unfolding prioritize best_from compute_factors urgency extract_vulnerability most_vulnerable
prioritize_run = refl

prioritize-Picks_example : Picks hundredth default three (prioritize hundredth default three)
prioritize-Picks_example = prioritize-Picks hundredth default three

-- Vehicles on a line: a risk where they are less than sixty metres apart.
abbrev gap : ℕ → ℕ → ℕ
gap a b = (a - b) + (b - a)

abbrev on_a_line : Assessment hundredth ℕ
on_a_line now a b =
    if ltb (gap a.motion b.motion) 60
    then some (risk_of now a.actor_id b.actor_id (gap a.motion b.motion * 10))
    else none

abbrev at : ℕ → ℕ → VehicleState ℕ
at i x = record { actor_id = i; motion = x }

abbrev Call' : Type 0
Call' = Call hundredth ℕ default on_a_line

abbrev heard : ℕ → ℕ → ℕ → Call'
heard i x now = hears (actor_state_updated (some (at i x))) (2 ∷ 3 ∷ []) now

abbrev meets : List Call'
meets = moves (at 1 100) [] 1 ∷ heard 2 110 2 ∷ heard 3 130 3 ∷ heard 2 110 4 ∷ []

-- Between the vehicles 2 and 3.
abbrev between : Node hundredth ℕ
between = (run hundredth ℕ default on_a_line meets (new_node hundredth ℕ)).0

abbrev later : List Call'
later = heard 3 131 6 ∷ switches false ∷ heard 3 132 7 ∷ []

tells_once :
    (run hundredth ℕ default on_a_line meets (new_node hundredth ℕ)).1 ≡ risk_of 2 1 2 100 ∷ []
unfolding run call update_state on_message handle update_peer_state refresh_direct_peers within
    all_within evaluate_risks evaluate_from evaluate_all activate prioritize best_from
    compute_factors urgency extract_vulnerability most_vulnerable keep Dict.put
tells_once = refl

-- Vehicle 2 is removed: the risk with vehicle 3 is now active, and no one is told.
silent_run :
    (call hundredth ℕ default on_a_line (forgets 2 5) between).0.active_risk
    ≡ some (risk_of 5 1 3 300)
unfolding run call update_state on_message handle update_peer_state refresh_direct_peers within
    all_within evaluate_risks evaluate_from evaluate_all activate prioritize best_from
    compute_factors urgency extract_vulnerability most_vulnerable keep Dict.put remove_peer Dict.pop
silent_run = refl

call-IsCurrent_example :
    IsCurrent hundredth ℕ default on_a_line
      (call hundredth ℕ default on_a_line (moves (at 1 100) [] 1) (new_node hundredth ℕ)).0
unfolding Chosen
call-IsCurrent_example =
    call-IsCurrent hundredth ℕ default on_a_line (moves (at 1 100) [] 1) (new_node hundredth ℕ)
      (record { chosen = refl; signed = refl; weighed = refl })

new_node-IsCurrent : IsCurrent hundredth ℕ default on_a_line (new_node hundredth ℕ)
unfolding Chosen
new_node-IsCurrent = record { chosen = refl; signed = refl; weighed = refl }

run-changes_example :
    News hundredth ℕ default on_a_line none
      (actives hundredth ℕ default on_a_line meets (new_node hundredth ℕ))
      (run hundredth ℕ default on_a_line meets (new_node hundredth ℕ)).1
run-changes_example =
    run-changes hundredth ℕ default on_a_line meets (new_node hundredth ℕ) new_node-IsCurrent
      (refl, (refl, (refl, (refl, tt))))

between-IsCurrent : IsCurrent hundredth ℕ default on_a_line between
unfolding run call update_state on_message handle update_peer_state refresh_direct_peers within
    all_within evaluate_risks evaluate_from evaluate_all activate prioritize best_from
    compute_factors urgency extract_vulnerability most_vulnerable keep Dict.put remove_peer Dict.pop
    set_internet Chosen
between-IsCurrent = record { chosen = (4, refl); signed = refl; weighed = refl }

-- The risk with vehicle 3, after vehicle 2 is gone.
abbrev next_risk : RiskEvent ℕ
next_risk = risk_of 5 1 3 300

is_new : ¬ Repeats hundredth ℕ between.active_risk next_risk
unfolding run call update_state on_message handle update_peer_state refresh_direct_peers within
    all_within evaluate_risks evaluate_from evaluate_all activate prioritize best_from
    compute_factors urgency extract_vulnerability most_vulnerable keep Dict.put remove_peer Dict.pop
    set_internet
is_new h = false≢true (Repeats-same hundredth ℕ between.active_risk next_risk h)

still : All (Stays hundredth ℕ default on_a_line next_risk) (
    actives hundredth ℕ default on_a_line later
      (call hundredth ℕ default on_a_line (forgets 2 5) between).0)
unfolding run call update_state on_message handle update_peer_state refresh_direct_peers within
    all_within evaluate_risks evaluate_from evaluate_all activate prioritize best_from
    compute_factors urgency extract_vulnerability most_vulnerable keep Dict.put remove_peer Dict.pop
    set_internet Repeats
still = (same, (same, (same, tt)))
  where
    same :
        Path RiskType RiskType.rear_end RiskType.rear_end × Permᴰ {A = ℕ} (1 ∷ 3 ∷ []) (1 ∷ 3 ∷ [])
    same = (refl, Permᴰ.refl (1 ∷ 3 ∷ []))

prune_unannounced_example :
    ((evaluate_risks hundredth ℕ default on_a_line 5
        (record between { peers = Dict.pop 2 between.peers })).1
      ≡ some next_risk)
    × ((call hundredth ℕ default on_a_line (forgets 2 5) between).0.active_risk ≡ some next_risk)
    × ((run hundredth ℕ default on_a_line (forgets 2 5 ∷ later) between).1 ≡ [])
unfolding run call update_state on_message handle update_peer_state refresh_direct_peers within
    all_within evaluate_risks evaluate_from evaluate_all activate prioritize best_from
    compute_factors urgency extract_vulnerability most_vulnerable keep Dict.put remove_peer Dict.pop
    set_internet
prune_unannounced_example =
    prune_unannounced hundredth ℕ default on_a_line {c = forgets 2 5} (at 1 100) next_risk later
      between between-IsCurrent (removed 2 5) refl refl is_new still
