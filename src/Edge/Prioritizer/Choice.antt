-- ===== src/Edge/Prioritizer/Choice.antt =====
-- services/edge_v2x/prioritizer.py: which risk is chosen.
use mathlib.Core.Path.{subst}
use mathlib.Core.List.{append_assoc, append-nil}
use marga.Prelude.{
  ℕ, ◌<◌, ◌≤◌, ◌≡◌, ◌∙◌, refl, sym, ap, false, Option, none, some, inl, inr, List, [], ◌∷◌, ◌++◌,
  All, All-append, All-map, ltb, ltb→lt, lt→ltb, if◌then◌else◌, Bool-cases, arith,
}
use marga.Edge.Prioritizer.{
  Floats, RiskEvent, RiskPrioritizer, IsFirstBest, Picks, prioritize, best_from, beats, score,
}

not_less : (a b : ℕ) → ltb a b ≡ false → b ≤ a
not_less a b h = ground (arith, lt→ltb a b)

less_trans : (a b c : ℕ) → a < b → b < c → a < c
less_trans a b c h k = omega arith

up_to : (a b c : ℕ) → a ≤ b → b < c → a < c
up_to a b c h k = omega arith

module _ (fs : Floats) where
  open fs use {F}

  -- A risk that beats the best one is above all that came.
  all_below :
      (p : RiskPrioritizer fs) (seen : List (RiskEvent F)) (b r : RiskEvent F)
      → score fs p b < score fs p r
      → IsFirstBest fs p seen b
      → All (λ x. score fs p x < score fs p r) seen
  all_below p seen b r more k = subst (All (λ x. score fs p x < score fs p r)) (sym k.split) (
      All-append _ k.before (b ∷ k.after)
        (All-map k.before (λ x h. less_trans _ _ _ h more) k.above)
        (more, All-map k.after (λ x h. up_to _ _ _ h more) k.no_less))

  -- The choice after one more risk.
  Picks-snoc :
      (p : RiskPrioritizer fs) (seen : List (RiskEvent F)) (r : RiskEvent F)
      (best : Option (RiskEvent F))
      → Picks fs p seen best
      → Picks fs p (seen ++ r ∷ []) (if beats fs p r best then some r else best)
  Picks-snoc p seen r none empty = record {
    before = [];
    after = [];
    split = ap (λ xs. xs ++ r ∷ []) empty;
    above = tt;
    no_less = tt;
  }
  Picks-snoc p seen r (some b) k = elim (Bool-cases (ltb (score fs p b) (score fs p r))) [
    | inl more ↦ rw more (record {
      before = seen;
      after = [];
      split = refl;
      above = all_below p seen b r (ltb→lt _ _ more) k;
      no_less = tt;
    })
    | inr less ↦ rw less (record {
      before = k.before;
      after = k.after ++ r ∷ [];
      split = ap (λ xs. xs ++ r ∷ []) k.split ∙ append_assoc k.before (b ∷ k.after) (r ∷ []);
      above = k.above;
      no_less = All-append _ k.after (r ∷ []) k.no_less (not_less _ _ less, tt);
    })
  ]

  best_from-Picks :
      (p : RiskPrioritizer fs) (rs seen : List (RiskEvent F)) (best : Option (RiskEvent F))
      → Picks fs p seen best
      → Picks fs p (seen ++ rs) (best_from fs p best rs)
  unfolding best_from
  best_from-Picks p [] seen best h = subst (λ xs. Picks fs p xs best) (sym (append-nil seen)) h
  best_from-Picks p (r ∷ rs) seen best h =
      subst (λ xs. Picks fs p xs (best_from fs p best (r ∷ rs))) (append_assoc seen (r ∷ []) rs)
        (best_from-Picks p rs (seen ++ r ∷ []) _ (Picks-snoc p seen r best h))

  -- Where there are risks, `prioritize` returns one whose score is above that of each risk before it and not
  -- below that of any after it; it returns none only where there are none.
  pub prioritize-Picks :
      (p : RiskPrioritizer fs) (rs : List (RiskEvent F)) → Picks fs p rs (prioritize fs p rs)
  unfolding prioritize
  prioritize-Picks p rs = best_from-Picks p rs [] none refl
