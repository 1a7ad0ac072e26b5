-- ===== src/Lib.antt =====
-- Marga, a road safety platform: services for traffic signals, V2X messages, trust, vehicles, hazards,
-- alerts, routes and scenarios. The program is Python; this library models its deterministic cores and
-- shows what they promise.
--
-- The parts, and how they interact:
--
--   A vehicle or a road unit sends V2X messages. The trust service (validator.py) lets a message through
--   its stages: it must be current, no replay
--   (services/trust/marga_trust/replay.py) and within the rates of its sender and of the system
--   (rate_limiter.py). The messaging service (services/messaging/marga_messaging/priority.py)
--   holds what is to be sent in four lanes, by priority; it watches its links (connectivity.py) and keeps
--   messages that cannot be sent yet (store_forward.py). The signal service
--   (services/signal-rl/marga_signal_rl) lets a learned policy propose an action for a junction, and a
--   safety envelope (safety.py) replaces a proposal that breaks a rule before anything is done. The alert
--   service (services/alerts/marga_alerts) keeps warnings: a manager (lifecycle.py) decides on their
--   states, a store (store.py) answers queries, and the handlers (api.py) write to both. The routing
--   service (services/routing/marga_routing) finds routes over a graph with live metrics. A unit in a vehicle
--   (services/edge_v2x) judges its own risks from the states of the vehicles that it hears. The hazard
--   service (services/hazards/marga_hazards) fuses observations of many sources into hazards. The scenario
--   service (services/scenario-service/app) keeps the time of a simulation and
--   tells which failures act on it, and the gateway
--   (services/gateway) hands the commands of the signal controller to a simulator that polls them.
--
-- The files:
--
--   Prelude, Prelude/*                 shared names, tests on numbers and strings, lists, dictionaries.
--   Signal/State, Signal/Safety        state.py, actions.py and safety.py of the signal service;
--                                      Signal/Envelope has the theorems on `validate`.
--   Signal/Mock                        `MockSumoSignalEnvironment` of environment.py: `Env` is its
--                                      state, `step` its `step`, with the random draws as arguments.
--                                      Signal/Mock/Timing is about the phase clock, Traffic about the
--                                      queues.
--   Signal/Live                        `LiveSignalController` of live_controller.py: `Controller` is its
--                                      state; Decide has the observation and `recommend`, Execute `apply`.
--                                      Record is about the log of decisions, Apply about what is sent,
--                                      Spent and Once about sending once, Roads and Safe about safety.
--   Signal/Gateway                     services/gateway/signal_control.py: `Gateway` is its state; Queue is
--                                      about the queue of commands, Handlers about the answers.
--   Messaging/Message                  the messages of packages/schemas/marga_schemas/messaging.py.
--   Messaging/PriorityQueue            `MessagePriorityQueue`: `Queue` is its state; `enqueue`,
--                                      `dequeue` and `shed_one` its operations. Sets, Lane and
--                                      Invariant below it carry the invariant `IsQueue`; View has the
--                                      specification, four plain queues; Admit, Dequeue, Shed, Enqueue
--                                      the refinement; Ranks and Bounded the bound, Capacity its defect.
--   Messaging/StoreForward             `StoreForwardManager` of store_forward.py: `Manager` is its state;
--                                      `store`, `flush` and `cleanup` its operations. Agreement is about
--                                      its two indices, Contents about `store`, Order and Flush about
--                                      `flush` and `cleanup`.
--   Messaging/Connectivity             `ConnectivityMonitor` of connectivity.py; Inference and Recovery
--                                      below it.
--   Trust/Credential                   credential.py; Privileges below it.
--   Trust/Replay                       `ReplayCache`; `check` is one call. Protection: no replay.
--   Trust/Plausibility                 `PlausibilityChecker` of plausibility.py; Order: no going back.
--   Trust/Validator                    `TrustValidator` of validator.py; Stages has `validate`. Earned and
--                                      Scored are about what trust rests on, Once about replays of the pipeline.
--   Trust/RateLimiter                  `RateLimiter` and its token buckets; Rate and Sender: the rates.
--   Alerts/Alert                       the alerts of packages/schemas/marga_schemas/alert.py.
--   Alerts/Lifecycle                   `AlertLifecycleManager` of services/alerts/marga_alerts/
--                                      lifecycle.py: `Manager` and its operations. Transitions is about
--                                      the state machine, Hysteresis about the cooldown, Expiry about
--                                      `expire_stale`.
--   Alerts/Store                       `AlertStore` of store.py; Contents and Query below it.
--   Alerts/Service                     the handlers of api.py that change state; Agreement is about the
--                                      two copies of an alert, Answers about the status codes.
--   Routing/Graph                      `MobilityGraph` of services/routing/marga_routing/graph.py;
--                                      Ownership below it.
--   Routing/Pathfinder                 `find_path` of pathfinder.py. Heap has what it relies on in
--                                      `heapq`, Step one round of its loop, Walks the routes it returns,
--                                      Fuel the rounds it needs, Reach and Complete those it finds.
--   Routing/Distributor                `CooperativeDistributor` of distributor.py and the reroute rule of
--                                      cost.py; Alternatives, Reasons and Assignment are about the plan for one vehicle.
--   Scenario/TimeControl               `TimeController` of services/scenario-service/app/time_control.py;
--                                      Course is about its time.
--   Edge/Prioritizer                   `RiskPrioritizer` of services/edge_v2x/prioritizer.py; Choice is about
--                                      the risk that it chooses.
--   Edge/Node                          `EdgeV2XNode` of node.py, as manager.py calls it. Current is about its
--                                      active risk, Repeats, Announced and Unannounced about the risks that are
--                                      announced and those that are not.
--   Scenario/Failures                  `FailureInjector` of failure_injector.py; Worst is about positions.
--   Hazards/Hazard                     the hazards of packages/schemas/marga_schemas/hazard.py.
--   Hazards/Observed                   what fusion.py tests of a hazard and an observation.
--   Hazards/Spatial                    `HazardSpatialIndex` of services/hazards/marga_hazards/spatial.py;
--                                      Agreement is about its two maps, Query about its queries.
--   Hazards/Lifecycle, Hazards/Fusion  `HazardLifecycleManager` and `HazardFusionEngine` of lifecycle.py and
--                                      fusion.py, over one state. Agreement is about the store and the index,
--                                      Sources and Evidence about verified hazards, Swept about sweeps.
--
-- Conventions. Times are whole microseconds, the resolution of the source's datetimes. Quantities that
-- the source keeps as floats are whole numbers of a small unit (thousandths of a vehicle, millionths of
-- a token), so that the arithmetic of the source is exact. UUIDs are numbers. A clock that an operation
-- reads, and each random draw, is an argument. Where the source computes with floats that no unit
-- makes exact (scores, confidences, distances), the floats are an argument, with their operations, and
-- the theorems hold for every choice. Locks are left out: each operation runs under one, so
-- that a run is a sequence of operations. Logging is left out.
--
-- Loops are structural recursion over the lane, the lanes or the calls, and need no fuel; the loop of
-- `find_path` runs on fuel, for which Routing/Pathfinder/Fuel gives a bound that suffices. The heap of
-- `find_path` is an argument with the laws of `IsHeap`, since `heapq` leaves the order of equal items
-- open; the cost of an edge and the heuristic are arguments too.
--
-- Not modelled: the web dashboard (TypeScript), databases, brokers and the other HTTP handlers (input
-- and output), the adapters to SUMO, and detectors on float trigonometry.
pub mod Prelude
pub mod Signal
pub mod Messaging
pub mod Trust
pub mod Edge
pub mod Hazards
pub mod Alerts
pub mod Routing
pub mod Scenario
