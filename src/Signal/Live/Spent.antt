-- ===== src/Signal/Live/Spent.antt =====
-- Decisions of services/signal-rl/marga_signal_rl/live_controller.py that are settled or gone, and that
-- the controller therefore does not send any more.
use marga.Prelude.{
  ◌⊎◌, ℕ, ◌≡◌, refl, sym, ap, ◌∙◌, inl, inr, String, Bool, true, false, Option, none, some, arith,
  Bool-cases, Option-cases, nat_eqb, nat_eqb_iff, nat_eq, length,
}
use mathlib.Core.Path.{subst}
use marga.Prelude.Dict
use marga.Signal.State.{SignalAction}
use marga.Signal.Live.{ok, Graph, Policy, Command, SignalControlDecision, Controller}
use marga.Signal.Live.Decide.{
  is_known, make_room, record_decision, recommendation, recommend, recorded, decide,
  require_topology, state,
}
use marga.Signal.Live.Execute.{apply, decide_and_apply, is_settled}
use marga.Signal.Live.Record.{order-cases}
use marga.Signal.Live.Apply.{Result-cases, apply-Sends, apply-Settles, apply_refused, apply-other}

-- No decision `n` is open: it is not recorded, or it is settled.
abbrev pub Spent : ℕ → Controller → Type 0
Spent n c = (d : SignalControlDecision) → Dict.get n c.decisions ≡ some d → is_settled d ≡ true

make_room-Spent : (n : ℕ) (c : Controller) → Spent n c → Spent n (make_room c)
unfolding make_room
make_room-Spent n c s d h = elim (order-cases c.decision_order) [
  | inl empty ↦ s d (ground (arith, empty, h))
  | inr (o, rest, e) ↦ elim (Bool-cases (nat_eqb (length c.decision_order) c.decision_limit)) [
    | inr room ↦ s d (ground (arith, room, h))
    | inl full ↦ s d (ground (arith, full, e, h, Dict.get-pop o n c.decisions))
  ]
]

record_decision-Spent :
    (d : SignalControlDecision) (n : ℕ) (c : Controller)
    → nat_eqb d.decision_id n ≡ false
    → Spent n c
    → Spent n (record_decision d c)
unfolding record_decision
record_decision-Spent d n c other s e h = elim (Bool-cases (is_known d.decision_id c)) [
  | inl known ↦ s e (ground (arith, known, h, other, Dict.get-put d.decision_id n d c.decisions))
  | inr new ↦
      make_room-Spent n c s e
        (ground (arith, new, h, other, Dict.get-put d.decision_id n d (make_room c).decisions))
]

recommendation_id :
    (graph : Graph) (policy : Policy) (i : ℕ) (j : String) (requested : Option SignalAction)
    (c : Controller) {d : SignalControlDecision}
    → recommendation graph policy i j requested c ≡ ok d
    → d.decision_id ≡ i
unfolding recommendation decide
recommendation_id graph policy i j requested c h = elim (Result-cases (require_topology j c)) [
  | inl (e, lost) ↦ absurd (ground (arith, lost, h))
  | inr (t, there) ↦ elim (Result-cases (state graph j c)) [
    | inl (e, lost) ↦ absurd (ground (arith, there, lost, h))
    | inr (obs, seen) ↦ ground (arith, there, seen, h)
  ]
]

pub recommend-Spent :
    (graph : Graph) (policy : Policy) (i : ℕ) (j : String) (requested : Option SignalAction) (n : ℕ)
    (c : Controller)
    → nat_eqb i n ≡ false
    → Spent n c
    → Spent n (recommend graph policy i j requested c).0
unfolding recommend
recommend-Spent graph policy i j requested n c other s =
    elim (Result-cases (recommendation graph policy i j requested c)) [
      | inl (e, lost) ↦ rw (lost, recorded) s
      | inr (d, made) ↦
          let own = recommendation_id graph policy i j requested c made in
          rw (made, recorded) (record_decision-Spent d n c (rw own other) s)
    ]

pub apply-Spent :
    (graph : Graph) (i n : ℕ) (c : Controller) → Spent n c → Spent n (apply graph i c).0
apply-Spent graph i n c s d h = elim (Bool-cases (nat_eqb i n)) [
  | inr other ↦ s d (sym (apply-other graph i n c other) ∙ h)
  | inl same ↦ elim (Result-cases (apply graph i c).2) [
    | inl (e, refused) ↦
        s d (ap (λ o. Dict.get n o.0.decisions) (sym (apply_refused graph i c refused)) ∙ h)
    | inr (e, done) ↦
        let (there, settled) = apply-Settles graph i c e done in
        let own : i ≡ n = (nat_eqb_iff i n).0 same in
        let it : e ≡ d =
          Dict.some_injective
            (sym there ∙ ap (λ x. Dict.get x (apply graph i c).0.decisions) own ∙ h) in
        ap is_settled (sym it) ∙ settled
  ]
]

-- Whether a call sent a command.
abbrev pub is_sent : Option Command → Bool
is_sent none = false
is_sent (some k) = true

-- A decision that was sent is spent.
pub apply-spends :
    (graph : Graph) (i : ℕ) (c : Controller)
    → is_sent (apply graph i c).1 ≡ true
    → Spent i (apply graph i c).0
apply-spends graph i c sent d h = elim (Result-cases (apply graph i c).2) [
  | inl (e, refused) ↦
      let quiet = ap (λ o. is_sent o.1) (apply_refused graph i c refused) in
      absurd (ground (arith, quiet, sent))
  | inr (e, done) ↦
      let (there, settled) = apply-Settles graph i c e done in
      ap is_settled (sym (Dict.some_injective (sym there ∙ h))) ∙ settled
]

-- A spent decision is not sent.
pub apply-silent :
    (graph : Graph) (i : ℕ) (c : Controller) → Spent i c → is_sent (apply graph i c).1 ≡ false
apply-silent graph i c s = elim (Option-cases (apply graph i c).1) [
  | inl quiet ↦ rw quiet refl
  | inr (k, sent) ↦
      let w = (apply-Sends graph i c k).0 sent in
      absurd (ground (arith, s w.decision w.recorded, w.unsettled))
]

-- `decide_and_apply` is `recommend`, and `apply` on the decision that it drew.
decide_and_apply-parts :
    (graph : Graph) (policy : Policy) (i : ℕ) (j : String) (c : Controller)
    → ((decide_and_apply graph policy i j c).0 ≡ c)
        × ((decide_and_apply graph policy i j c).1 ≡ none)
      ⊎ ((decide_and_apply graph policy i j c)
          ≡ apply graph i (recommend graph policy i j none c).0)
unfolding decide_and_apply recommend
decide_and_apply-parts graph policy i j c =
    elim (Result-cases (recommendation graph policy i j none c)) [
      | inl (e, lost) ↦ inl (ground (arith, lost), ground (arith, lost))
      | inr (d, made) ↦ inr (
          let own : d.decision_id ≡ i = recommendation_id graph policy i j none c made in
          let step : decide_and_apply graph policy i j c
              ≡ apply graph d.decision_id (record_decision d c) =
            ground (arith, made) in
          let after : record_decision d c ≡ (recommend graph policy i j none c).0 =
            ground (arith, made) in
          step ∙ (λ t. apply graph (own t) (after t)))
    ]

pub decide-Spent :
    (graph : Graph) (policy : Policy) (i : ℕ) (j : String) (n : ℕ) (c : Controller)
    → nat_eqb i n ≡ false
    → Spent n c
    → Spent n (decide_and_apply graph policy i j c).0
decide-Spent graph policy i j n c other s = elim (decide_and_apply-parts graph policy i j c) [
  | inl (same, quiet) ↦ subst (Spent n) (sym same) s
  | inr e ↦
      subst (λ o. Spent n o.0) (sym e)
        (apply-Spent graph i n (recommend graph policy i j none c).0
          (recommend-Spent graph policy i j none n c other s))
]

pub decide-spends :
    (graph : Graph) (policy : Policy) (i : ℕ) (j : String) (c : Controller)
    → is_sent (decide_and_apply graph policy i j c).1 ≡ true
    → Spent i (decide_and_apply graph policy i j c).0
decide-spends graph policy i j c sent = elim (decide_and_apply-parts graph policy i j c) [
  | inl (same, quiet) ↦ absurd (ground (arith, quiet, sent))
  | inr e ↦
      subst (λ o. Spent i o.0) (sym e)
        (apply-spends graph i (recommend graph policy i j none c).0
          (ap (λ o. is_sent o.1) (sym e) ∙ sent))
]
