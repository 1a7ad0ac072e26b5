-- ===== src/Messaging/Connectivity/Inference.antt =====
-- The states that services/messaging/marga_messaging/connectivity.py infers.
use marga.Prelude.{
  ℕ, ◌+◌, ◌-◌, ◌≤◌, ◌≡◌, refl, ◌↔◌, String, Bool, true, false, not, ◌&&◌, ◌||◌, List, [], ◌∷◌, ◌++◌,
  arith, length, length-append, length-drop, if◌then◌else◌, ◌==◌, string_eq,
}
use marga.Prelude.Dict
use marga.Messaging.StoreForward.{full, direct_only, isolated}
use marga.Messaging.Connectivity.{
  window_size, threshold_full, threshold_intermittent, Monitor, init, append, window, is_empty,
  rate_at_least, infer_state, contact, report_delivery,
}

-- The state is the one inferred from the windows, and no window is over its size.
pub record IsMonitor (m : Monitor) : Type 0 where
  pub inferred : m.state ≡ infer_state (window "cloud" m) (window "direct" m)
  pub bounded : (route : String) → length (window route m) ≤ window_size

pub length-append_le : (ok : Bool) (w : List Bool) → length (append ok w) ≤ window_size
unfolding append
length-append_le ok w =
    ground
      (arith, length-drop (length w + 1 - window_size) (w ++ ok ∷ []), length-append w (ok ∷ []))

pub window-report :
    (ok : Bool) (route : String) (now : ℕ) (m : Monitor) (r : String)
    → window r (report_delivery ok route now m)
      ≡ (if route == r then append ok (window route m) else window r m)
unfolding window report_delivery contact
window-report ok route now m r =
    ground (arith, Dict.get-put route r (append ok (window route m)) m.route_windows)

pub init-IsMonitor : IsMonitor init
unfolding window infer_state Dict.get
init-IsMonitor = record { inferred = refl; bounded = λ route. ground arith }

report-inferred :
    (ok : Bool) (route : String) (now : ℕ) (m : Monitor)
    → (report_delivery ok route now m).state
      ≡ infer_state
          (window "cloud" (report_delivery ok route now m))
          (window "direct" (report_delivery ok route now m))
unfolding report_delivery window
report-inferred ok route now m = refl

-- A report keeps the state equal to the one that the windows give, and the windows within twenty
-- results.
pub report_delivery-IsMonitor :
    (ok : Bool) (route : String) (now : ℕ) {m : Monitor}
    → IsMonitor m
    → IsMonitor (report_delivery ok route now m)
report_delivery-IsMonitor ok route now {m} i = record {
  inferred = report-inferred ok route now m;
  bounded = λ r.
      ground
        (arith, window-report ok route now m r, i.bounded r, length-append_le ok (window route m));
}

rate_mono :
    (w : List Bool)
    → rate_at_least threshold_full w ≡ true
    → rate_at_least threshold_intermittent w ≡ true
unfolding rate_at_least
rate_mono [] e = absurd (ground arith)
rate_mono (ok ∷ w) e = ground arith

rate-empty :
    (w : List Bool)
    → is_empty w ≡ true
    → (rate_at_least threshold_full w ≡ false) × (rate_at_least threshold_intermittent w ≡ false)
unfolding rate_at_least
rate-empty w e = ground arith

-- The inference by its results. FULL: no results at all, or at least nine tenths of the cloud's
-- succeed. DIRECT_ONLY: else, under three tenths of the cloud's and at least nine tenths of the
-- direct ones. ISOLATED: some results, and under three tenths on both routes.
pub infer_state_iff :
    (cloud direct : List Bool)
    → ((infer_state cloud direct ≡ full)
        ↔ ((is_empty cloud && is_empty direct || rate_at_least threshold_full cloud) ≡ true))
      × ((infer_state cloud direct ≡ direct_only) ↔ (
          (not (rate_at_least threshold_intermittent cloud) && rate_at_least threshold_full direct)
          ≡ true))
      × ((infer_state cloud direct ≡ isolated) ↔ (
          (not (is_empty cloud && is_empty direct)
            && not (rate_at_least threshold_intermittent cloud)
            && not (rate_at_least threshold_intermittent direct))
          ≡ true))
unfolding infer_state
infer_state_iff cloud direct =
    ground (arith, rate_mono cloud, rate_mono direct, rate-empty cloud, rate-empty direct)
