-- ===== src/Signal/Live/Record.antt =====
-- The log of decisions of services/signal-rl/marga_signal_rl/live_controller.py: `_record`, and what
-- `latest_decision` reads.
use marga.Prelude.{
  ℕ, ◌≤◌, ◌<◌, ◌≡◌, refl, sym, ap, ◌∙◌, ◌⊎◌, inl, inr, String, true, false, Option, none, some,
  List, [], ◌∷◌, ◌++◌, arith, if◌then◌else◌, Bool-cases, Option-cases, nat_eqb, nat_eqb_iff, length,
  length-append, ◌==◌, string_eq, nat_eq, All, All-map,
}
use mathlib.Core.Path.{subst}
use mathlib.Core.List.{reverse, reverse-cons}
use marga.Prelude.Dict
use marga.Prelude.Dict.{Dict}
use marga.Prelude.Tidy
use marga.Signal.Live.{Result, ok, raises, SignalControlDecision, Controller}
use marga.Signal.Live.Decide.{is_known, make_room, record_decision}
use marga.Signal.Live.Execute.{last_of, latest_decision}

abbrev pub IsTidy : Dict ℕ SignalControlDecision → Type 0
IsTidy d = Tidy.Tidy (λ (e : SignalControlDecision). e.decision_id) d

-- The log names the decisions held, in their order, within its limit.
pub record IsLogged (c : Controller) : Type 0 where
  pub aligned : Dict.keys c.decisions ≡ c.decision_order
  pub tidy : IsTidy c.decisions
  pub within : length c.decision_order ≤ c.decision_limit

pop_oldest :
    (i : ℕ) (rest : List ℕ) (d : Dict ℕ SignalControlDecision)
    → IsTidy d
    → Dict.keys d ≡ i ∷ rest
    → Dict.keys (Dict.pop i d) ≡ rest
unfolding Tidy.Tidy Dict.pop
pop_oldest i rest [] t e = absurd (ground (arith, e))
pop_oldest i rest ((k, a) ∷ d) (own, new, t) e =
    let first : k ≡ i = ground (arith, e) in
    let others : Dict.keys d ≡ rest = ground (arith, e) in
    rw ((nat_eqb_iff k i).1 first)
      (rw (Dict.pop_absent i d (subst (λ j. Dict.get j d ≡ none) first new)) others)

pub order-cases : (l : List ℕ) → (l ≡ []) ⊎ ((i : ℕ) × (rest : List ℕ) × (l ≡ i ∷ rest))
order-cases [] = inl refl
order-cases (i ∷ rest) = inr (i, rest, refl)

-- After `make_room` the log has room for one more decision.
record HasRoom (c : Controller) : Type 0 where
  aligned : Dict.keys c.decisions ≡ c.decision_order
  tidy : IsTidy c.decisions
  room : length c.decision_order < c.decision_limit

make_room-HasRoom : {c : Controller} → IsLogged c → 0 < c.decision_limit → HasRoom (make_room c)
unfolding make_room
make_room-HasRoom {c} v pos =
    elim (Bool-cases (nat_eqb (length c.decision_order) c.decision_limit)) [
      | inr below ↦ rw below (record {
        aligned = v.aligned;
        tidy = v.tidy;
        room = ground (arith, nat_eqb_iff (length c.decision_order) c.decision_limit, v.within);
      })
      | inl full ↦ elim (order-cases c.decision_order) [
        | inl empty ↦
            absurd (ground (arith, empty, nat_eqb_iff (length c.decision_order) c.decision_limit))
        | inr (i, rest, e) ↦
            let shape : make_room c
                ≡ record c { decision_order = rest; decisions = Dict.pop i c.decisions } =
              ground (arith, full, e) in
            subst HasRoom (sym shape) (record {
              aligned = pop_oldest i rest c.decisions v.tidy (v.aligned ∙ e);
              tidy = Tidy.pop-Tidy _ i c.decisions v.tidy;
              room =
                  let n : length c.decision_order ≡ length (i ∷ rest) = ap length e in
                  omega (arith, v.within, n);
            })
      ]
    ]

is_known-some :
    (i : ℕ) (c : Controller)
    → is_known i c ≡ true
    → (d : SignalControlDecision) × (Dict.get i c.decisions ≡ some d)
unfolding is_known
is_known-some i c h = elim (Option-cases (Dict.get i c.decisions)) [
  | inl gone ↦ absurd (ground (arith, gone, h))
  | inr there ↦ there
]

make_room-absent :
    (i : ℕ) (c : Controller) → is_known i c ≡ false → Dict.get i (make_room c).decisions ≡ none
unfolding is_known make_room
make_room-absent i c h = elim (order-cases c.decision_order) [
  | inl empty ↦ ground (arith, empty, h)
  | inr (o, rest, e) ↦ ground (arith, e, h, Dict.get-pop o i c.decisions)
]

-- Recording keeps the log: it names the decisions held, in their order, each under its own
-- identifier, and at most `decision_limit` of them, where that is positive.
pub record_decision-IsLogged :
    (d : SignalControlDecision) {c : Controller}
    → IsLogged c
    → 0 < c.decision_limit
    → IsLogged (record_decision d c)
unfolding record_decision
record_decision-IsLogged d {c} v pos = elim (Bool-cases (is_known d.decision_id c)) [
  | inl known ↦
      let (old, there) = is_known-some d.decision_id c known in
      rw known (record {
        aligned = Dict.keys-put_present d.decision_id d old c.decisions there ∙ v.aligned;
        tidy = Tidy.put-Tidy _ d c.decisions v.tidy;
        within = v.within;
      })
  | inr new ↦
      let gone = make_room-absent d.decision_id c new in
      let r = make_room-HasRoom v pos in
      rw new (record {
        aligned =
            Dict.keys-put_absent d.decision_id d (make_room c).decisions gone
            ∙ ap (λ l. l ++ d.decision_id ∷ []) r.aligned;
        tidy = Tidy.put-Tidy _ d (make_room c).decisions r.tidy;
        within =
            omega (arith, r.room, length-append (make_room c).decision_order (d.decision_id ∷ []));
      })
]

-- The specification of `latest_decision`: the last decision of a junction among those held.
unfoldable pub newest : String → Dict ℕ SignalControlDecision → Option SignalControlDecision
newest j [] = none
newest j ((i, d) ∷ rest) =
    let later = newest j rest in
    elim later [ none ↦ if d.junction_id == j then some d else none | some e ↦ some e ]

Held : Dict ℕ SignalControlDecision → Dict ℕ SignalControlDecision → Type 0
Held all d = All (λ (e : ℕ × SignalControlDecision). Dict.get e.0 all ≡ some e.1) d

abbrev or_older :
    Result (Option SignalControlDecision)
    → Result (Option SignalControlDecision)
    → Result (Option SignalControlDecision)
or_older (raises e) r = raises e
or_older (ok none) r = r
or_older (ok (some d)) r = ok (some d)

last_of-append :
    (j : String) (xs ys : List ℕ) (all : Dict ℕ SignalControlDecision)
    → last_of j (xs ++ ys) all ≡ or_older (last_of j xs all) (last_of j ys all)
unfolding last_of
last_of-append j [] ys all = refl
last_of-append j (i ∷ xs) ys all = elim (Option-cases (Dict.get i all)) [
  | inl gone ↦ rw (gone, last_of) refl
  | inr (d, there) ↦ ground (arith, there, last_of-append j xs ys all)
]

last_of-newest :
    (j : String) (d all : Dict ℕ SignalControlDecision)
    → Held all d
    → last_of j (reverse (Dict.keys d)) all ≡ ok (newest j d)
unfolding Held last_of newest
last_of-newest j [] all h = refl
last_of-newest j ((i, e) ∷ d) all (here, h) =
    let last = last_of j (i ∷ []) all in
    let own : or_older (ok (newest j d)) last ≡ ok (newest j ((i, e) ∷ d)) = ground (arith, here) in
    ap (λ l. last_of j l all) (reverse-cons i (Dict.keys d))
    ∙ last_of-append j (reverse (Dict.keys d)) (i ∷ []) all
    ∙ ap (λ r. or_older r last) (last_of-newest j d all h)
    ∙ own

Tidy-Held : (d : Dict ℕ SignalControlDecision) → IsTidy d → Held d d
unfolding Held Tidy.Tidy Dict.get
Tidy-Held [] t = tt
Tidy-Held ((i, e) ∷ d) (own, new, t) = (
  ground (arith, Dict.eqb_refl i),
  All-map d (λ x there. rw (Dict.absent_differs i x.0 d {v = x.1} new there) there) (Tidy-Held d t),
)

-- On a log in order `latest_decision` never misses an entry, and returns the last decision of the
-- junction among those held, if there is one.
pub latest_decision-newest :
    (j : String) (c : Controller) → IsLogged c → latest_decision j c ≡ ok (newest j c.decisions)
unfolding latest_decision
latest_decision-newest j c v =
    ap (λ l. last_of j (reverse l) c.decisions) (sym v.aligned)
    ∙ last_of-newest j c.decisions c.decisions (Tidy-Held c.decisions v.tidy)
