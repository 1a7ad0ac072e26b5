-- ===== src/Signal/Live/Once.antt =====
-- Runs of services/signal-rl/marga_signal_rl/live_controller.py: a decision is sent at most once.
use marga.Prelude.{
  ◌&&◌, ℕ, suc, ◌≤◌, ◌≡◌, refl, sym, ap, ◌∙◌, inl, inr, String, Bool, true, false, Option, none,
  some, List, [], ◌∷◌, arith, if◌then◌else◌, Bool-cases, nat_eqb, nat_eqb_iff, nat_eq,
}
use mathlib.Core.Path.{subst}
use marga.Prelude.Dict
use marga.Signal.State.{SignalAction}
use marga.Signal.Live.{
  SignalJunctionTopology, TrafficSignalState, Graph, Policy, Executor, Controller, clear,
  register_topology, register_executor, observe_signal,
}
use marga.Signal.Live.Decide.{recommend}
use marga.Signal.Live.Execute.{Outcome, apply, decide_and_apply}
use marga.Signal.Live.Spent.{
  Spent, is_sent, apply-Spent, recommend-Spent, apply-spends, apply-silent, decide-Spent,
  decide-spends,
}

-- The calls of the controller's clients. A call that decides draws the identifier of its decision.
pub data Call : Type 0 where
  registers_topology : SignalJunctionTopology → Call
  registers_executor : Option Executor → Call
  observes : TrafficSignalState → Call
  recommends : Graph → Policy → ℕ → String → Option SignalAction → Call
  applies : Graph → ℕ → Call
  decides_and_applies : Graph → Policy → ℕ → String → Call
  clears : Call

-- The decision for which a command was sent.
abbrev sent_for : ℕ → Outcome → Controller × Option ℕ
sent_for i (c, none, r) = (c, none)
sent_for i (c, some k, r) = (c, some i)

unfoldable pub call : Call → Controller → Controller × Option ℕ
unfolding register_topology observe_signal recommend apply decide_and_apply clear
call (registers_topology t) c = ((register_topology t c).0, none)
call (registers_executor o) c = (register_executor o c, none)
call (observes s) c = (observe_signal s c, none)
call (recommends graph policy i j requested) c = ((recommend graph policy i j requested c).0, none)
call (applies graph i) c = sent_for i (apply graph i c)
call (decides_and_applies graph policy i j) c = sent_for i (decide_and_apply graph policy i j c)
call clears c = (clear c, none)

abbrev is_for : ℕ → Option ℕ → Bool
is_for n none = false
is_for n (some i) = nat_eqb i n

-- How often a run sends the decision `n`.
unfoldable pub sends : ℕ → List Call → Controller → ℕ
unfolding call
sends n [] c = 0
sends n (k ∷ ks) c =
    let rest = sends n ks (call k c).0 in if is_for n (call k c).1 then suc rest else rest

-- The identifier that a call draws.
abbrev draws : Call → Option ℕ
draws (recommends graph policy i j requested) = some i
draws (decides_and_applies graph policy i j) = some i
draws _ = none

-- How often the calls draw an identifier.
unfoldable pub drawn : ℕ → List Call → ℕ
drawn n [] = 0
drawn n (k ∷ ks) = let rest = drawn n ks in if is_for n (draws k) then suc rest else rest

is_for-sent : (n i : ℕ) (o : Outcome) → is_for n (sent_for i o).1 ≡ (nat_eqb i n && is_sent o.1)
is_for-sent n i (c, none, r) = ground arith
is_for-sent n i (c, some k, r) = ground arith

sent_for-state : (i : ℕ) (o : Outcome) → (sent_for i o).0 ≡ o.0
sent_for-state i (c, none, r) = refl
sent_for-state i (c, some k, r) = refl

register_topology-decisions :
    (t : SignalJunctionTopology) (c : Controller)
    → (register_topology t c).0.decisions ≡ c.decisions
unfolding register_topology
register_topology-decisions t c = ground arith

observe_signal-decisions :
    (s : TrafficSignalState) (c : Controller) → (observe_signal s c).decisions ≡ c.decisions
unfolding observe_signal
observe_signal-decisions s c = ground arith

sent_for-Spent :
    (n i : ℕ) (o : Outcome)
    → (is_sent o.1 ≡ true → Spent i o.0)
    → is_for n (sent_for i o).1 ≡ true
    → Spent n (sent_for i o).0
sent_for-Spent n i (c, none, r) spends sent = absurd (ground (arith, sent))
sent_for-Spent n i (c, some k, r) spends sent =
    subst (λ x. Spent x c) ((nat_eqb_iff i n).0 sent) (spends refl)

-- A call that does not draw `n` keeps it spent, and does not send it then.
call-Spent :
    (k : Call) (n : ℕ) (c : Controller)
    → is_for n (draws k) ≡ false
    → Spent n c
    → Spent n (call k c).0
unfolding call clear Dict.get
call-Spent (registers_topology t) n c new s =
    λ d h. s d (ap (Dict.get n) (sym (register_topology-decisions t c)) ∙ h)
call-Spent (registers_executor o) n c new s = s
call-Spent (observes x) n c new s =
    λ d h. s d (ap (Dict.get n) (sym (observe_signal-decisions x c)) ∙ h)
call-Spent (recommends graph policy i j requested) n c new s =
    recommend-Spent graph policy i j requested n c new s
call-Spent (applies graph i) n c new s =
    subst (Spent n) (sym (sent_for-state i (apply graph i c))) (apply-Spent graph i n c s)
call-Spent (decides_and_applies graph policy i j) n c new s =
    subst (Spent n) (sym (sent_for-state i (decide_and_apply graph policy i j c)))
      (decide-Spent graph policy i j n c new s)
call-Spent clears n c new s = λ d h. absurd (ground (arith, h))

call-silent :
    (k : Call) (n : ℕ) (c : Controller)
    → is_for n (draws k) ≡ false
    → Spent n c
    → is_for n (call k c).1 ≡ false
unfolding call
call-silent (applies graph i) n c new s = elim (Bool-cases (nat_eqb i n)) [
  | inr other ↦ rw (is_for-sent n i (apply graph i c), other) refl
  | inl same ↦
      let own : n ≡ i = sym ((nat_eqb_iff i n).0 same) in
      rw (is_for-sent n i (apply graph i c), apply-silent graph i c (subst (λ x. Spent x c) own s))
        (ground arith)
]
call-silent (decides_and_applies graph policy i j) n c new s =
    rw (is_for-sent n i (decide_and_apply graph policy i j c), new) refl
call-silent (recommends graph policy i j requested) n c new s = refl
call-silent (registers_topology t) n c new s = refl
call-silent (registers_executor o) n c new s = refl
call-silent (observes x) n c new s = refl
call-silent clears n c new s = refl

call-spends :
    (k : Call) (n : ℕ) (c : Controller) → is_for n (call k c).1 ≡ true → Spent n (call k c).0
unfolding call
call-spends (applies graph i) n c sent =
    sent_for-Spent n i (apply graph i c) (apply-spends graph i c) sent
call-spends (decides_and_applies graph policy i j) n c sent =
    sent_for-Spent n i (decide_and_apply graph policy i j c) (decide-spends graph policy i j c) sent
call-spends (recommends graph policy i j requested) n c sent = absurd (ground (arith, sent))
call-spends (registers_topology t) n c sent = absurd (ground (arith, sent))
call-spends (registers_executor o) n c sent = absurd (ground (arith, sent))
call-spends (observes x) n c sent = absurd (ground (arith, sent))
call-spends clears n c sent = absurd (ground (arith, sent))

sends-Spent :
    (n : ℕ) (ks : List Call) (c : Controller) → drawn n ks ≡ 0 → Spent n c → sends n ks c ≡ 0
unfolding sends drawn
sends-Spent n [] c new s = refl
sends-Spent n (k ∷ ks) c new s = elim (Bool-cases (is_for n (draws k))) [
  | inl draw ↦ absurd (ground (arith, draw, new))
  | inr no_draw ↦
      rw (call-silent k n c no_draw s)
        (sends-Spent n ks (call k c).0 (ground (arith, no_draw, new)) (call-Spent k n c no_draw s))
]

sends-drawn : (n : ℕ) (ks : List Call) (c : Controller) → drawn n ks ≡ 0 → sends n ks c ≤ 1
unfolding sends drawn
sends-drawn n [] c new = omega arith
sends-drawn n (k ∷ ks) c new = elim (Bool-cases (is_for n (draws k))) [
  | inl draw ↦ absurd (ground (arith, draw, new))
  | inr no_draw ↦
      let rest : drawn n ks ≡ 0 = ground (arith, no_draw, new) in
      elim (Bool-cases (is_for n (call k c).1)) [
        | inl sent ↦
            rw sent (omega (arith, sends-Spent n ks (call k c).0 rest (call-spends k n c sent)))
        | inr quiet ↦ rw quiet (sends-drawn n ks (call k c).0 rest)
      ]
]

-- Over any run of calls of the controller, topologies, telemetry, executors and resets included, at most
-- one command is sent for a decision, as long as its identifier is drawn at most once and is not that of
-- an unsettled decision at the start.
pub sends-le :
    (n : ℕ) (ks : List Call) (c : Controller) → drawn n ks ≤ 1 → Spent n c → sends n ks c ≤ 1
unfolding sends drawn
sends-le n [] c once s = omega arith
sends-le n (k ∷ ks) c once s = elim (Bool-cases (is_for n (draws k))) [
  | inr no_draw ↦
      rw (call-silent k n c no_draw s)
        (sends-le n ks (call k c).0 (ground (arith, no_draw, once)) (call-Spent k n c no_draw s))
  | inl draw ↦
      let rest : drawn n ks ≡ 0 = ground (arith, draw, once) in
      elim (Bool-cases (is_for n (call k c).1)) [
        | inl sent ↦
            rw sent (omega (arith, sends-Spent n ks (call k c).0 rest (call-spends k n c sent)))
        | inr quiet ↦ rw quiet (sends-drawn n ks (call k c).0 rest)
      ]
]
