-- ===== src/Messaging/Connectivity/Recovery.antt =====
-- How services/messaging/marga_messaging/connectivity.py recovers when the cloud does.
use mathlib.Core.Path.{subst}
use marga.Prelude.{
  ℕ, zero, suc, ◌+◌, ◌-◌, ◌≤◌, ◌≡◌, refl, ◌∙◌, sym, ap, inl, inr, Bool, true, List, [], ◌∷◌, ◌++◌,
  arith, All, All-append, All-drop, length, length-append, length-drop, drop-drop, drop-append,
  drop, leb, string_eq, Bool-cases,
}
use marga.Messaging.StoreForward.{full}
use marga.Messaging.Connectivity.{
  window_size, Monitor, append, window, successes, rate_at_least, infer_state, report_delivery,
}
use marga.Messaging.Connectivity.Inference.{IsMonitor, report_delivery-IsMonitor, window-report}

-- Reports of a success on the cloud route, at these times.
unfoldable pub cloud_successes : List ℕ → Monitor → Monitor
cloud_successes [] m = m
cloud_successes (t ∷ ts) m = cloud_successes ts (report_delivery true "cloud" t m)

abbrev IsTrue : Bool → Type 0
IsTrue b = b ≡ true

-- The last `n` results of the window succeeded.
abbrev Lately : ℕ → List Bool → Type 0
Lately n w = (n ≤ length w) × All IsTrue (drop (length w - n) w)

-- One more success.
append-Lately :
    (n : ℕ) (w : List Bool)
    → suc n ≤ window_size
    → length w ≤ window_size
    → Lately n w
    → Lately (suc n) (append true w)
unfolding append
append-Lately n w small bounded (le, h) =
    let d : ℕ = length w + 1 - window_size in
    let size : length (drop d (w ++ true ∷ [])) ≡ length w + 1 - d =
      length-drop d (w ++ true ∷ []) ∙ ap (λ k. k - d) (length-append w (true ∷ [])) in
    let kept : drop (length (drop d (w ++ true ∷ [])) - suc n) (drop d (w ++ true ∷ []))
        ≡ drop (length w - n) w ++ true ∷ [] =
      drop-drop _ d (w ++ true ∷ [])
      ∙ ap (λ i. drop i (w ++ true ∷ [])) (omega (arith, size))
      ∙ drop-append (length w - n) w (true ∷ []) (omega arith) in
    (
      omega (arith, size),
      subst (All IsTrue) (sym kept)
          (All-append IsTrue (drop (length w - n) w) (true ∷ []) h (refl, tt)),
    )

drop-all : (w : List Bool) → drop (length w - 0) w ≡ []
drop-all w = ap (λ i. drop i w) (omega arith) ∙ all w
  where
    all : (w : List Bool) → drop (length w) w ≡ []
    all [] = refl
    all (x ∷ w) = all w

-- A longer run of successes is a run.
fewer-Lately : (n : ℕ) (w : List Bool) → Lately (suc n) w → Lately n w
fewer-Lately n w (le, h) =
    let more : (length w - suc n) + 1 ≡ length w - n = omega arith in
    (
      omega arith,
      subst (All IsTrue) (drop-drop 1 (length w - suc n) w ∙ ap (λ i. drop i w) more)
          (All-drop IsTrue 1 (drop (length w - suc n) w) h),
    )

successes-drop : (n : ℕ) (w : List Bool) → successes (drop n w) ≤ successes w
unfolding successes
successes-drop zero w = omega arith
successes-drop (suc n) [] = omega arith
successes-drop (suc n) (ok ∷ w) = ground (arith, successes-drop n w)

successes-All : (w : List Bool) → All IsTrue w → successes w ≡ length w
unfolding successes
successes-All [] h = refl
successes-All (ok ∷ w) h = ground (arith, h.0, successes-All w h.1)

Lately-full :
    (w direct : List Bool) → length w ≤ window_size → Lately 18 w → infer_state w direct ≡ full
unfolding infer_state rate_at_least
Lately-full w direct bounded (le, h) = ground (
  arith,
  successes-drop (length w - 18) w,
  successes-All (drop (length w - 18) w) h,
  length-drop (length w - 18) w,
)

run-Lately :
    (ts : List ℕ) (n : ℕ) (m : Monitor)
    → IsMonitor m
    → n ≤ 18
    → 18 ≤ n + length ts
    → Lately n (window "cloud" m)
    → IsMonitor (cloud_successes ts m) × Lately 18 (window "cloud" (cloud_successes ts m))
unfolding cloud_successes
run-Lately [] n m i le enough h =
    let all : n ≡ 18 = omega arith in (i, subst (λ k. Lately k (window "cloud" m)) all h)
run-Lately (t ∷ ts) n m i le enough h =
    let m' = report_delivery true "cloud" t m in
    let i' = report_delivery-IsMonitor true "cloud" t i in
    let more : Lately (suc n) (window "cloud" m') =
      subst (Lately (suc n)) (sym (window-report true "cloud" t m "cloud"))
        (append-Lately n (window "cloud" m) (omega arith) (i.bounded "cloud") h) in
    elim (Bool-cases (leb 18 n)) [
      | inr few ↦ run-Lately ts (suc n) m' i' (ground arith) (omega arith) more
      | inl many ↦ run-Lately ts n m' i' le (ground arith) (fewer-Lately n (window "cloud" m') more)
    ]

-- From any state of the monitor, eighteen successes in a row on the cloud route bring it to FULL,
-- whatever the windows held before.
pub recovers :
    (ts : List ℕ) (m : Monitor) → IsMonitor m → 18 ≤ length ts → (cloud_successes ts m).state ≡ full
recovers ts m i enough =
    let w = window "cloud" m in
    let none_yet : Lately 0 w = (omega arith, subst (All IsTrue) (sym (drop-all w)) tt) in
    let (i', h) = run-Lately ts 0 m i (omega arith) (omega arith) none_yet in
    i'.inferred ∙ Lately-full (window "cloud" (cloud_successes ts m)) _ (i'.bounded "cloud") h
