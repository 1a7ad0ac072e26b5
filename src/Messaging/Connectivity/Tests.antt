-- ===== src/Messaging/Connectivity/Tests.antt =====
-- Runs of the connectivity monitor, and its theorems at concrete inputs.
use marga.Prelude.{ℕ, zero, suc, ◌≡◌, refl, true, false, List, [], ◌∷◌, arith, string_eq}
use marga.Prelude.Dict
use marga.Messaging.StoreForward.{full, direct_only, isolated}
use marga.Messaging.Connectivity.{
  Monitor, init, append, window, successes, rate_at_least, infer_state, contact, report_delivery,
}
use marga.Messaging.Connectivity.Inference.{IsMonitor, init-IsMonitor, report_delivery-IsMonitor}
use marga.Messaging.Connectivity.Recovery.{cloud_successes, recovers}

program : Unit {0}
unfolding append window successes rate_at_least infer_state contact report_delivery cloud_successes
    Dict.get Dict.put
program = tt

abbrev failures : ℕ → Monitor → Monitor
failures zero m = m
failures (suc n) m = failures n (report_delivery false "cloud" 0 m)

failures-IsMonitor : (n : ℕ) (m : Monitor) → IsMonitor m → IsMonitor (failures n m)
failures-IsMonitor zero m i = i
failures-IsMonitor (suc n) m i =
    failures-IsMonitor n (report_delivery false "cloud" 0 m)
      (report_delivery-IsMonitor false "cloud" 0 i)

abbrev down : Monitor
down = failures 3 init

is_down : down.state ≡ isolated
unfolding program
is_down = refl

takes_over : (report_delivery true "direct" 5 down).state ≡ direct_only
unfolding program
takes_over = refl

abbrev times : List ℕ
times = 1 ∷ 2 ∷ 3 ∷ 4 ∷ 5 ∷ 6 ∷ 7 ∷ 8 ∷ 9 ∷ 10 ∷ 11 ∷ 12 ∷ 13 ∷ 14 ∷ 15 ∷ 16 ∷ 17 ∷ 18 ∷ []

recovers_example : (cloud_successes times (failures 20 init)).state ≡ full
recovers_example =
    recovers times (failures 20 init) (failures-IsMonitor 20 init init-IsMonitor) (omega arith)
