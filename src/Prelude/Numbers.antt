-- ===== src/Prelude/Numbers.antt =====
-- Arithmetic that the components share.
use Prim.Native.Nat.{ℕ, ◌+◌, ◌-◌, ◌*◌, ◌≤◌}
use mathlib.Core.Path.{◌≡◌, ap}
use native.Mathlib.Omega.{arith}

-- A product over a span is the sum of those over its parts.
pub split_time : (a b c rate : ℕ) → a ≤ b → b ≤ c → (c - a) * rate ≡ (b - a) * rate + (c - b) * rate
split_time a b c rate h k =
    let e : c - a ≡ (b - a) + (c - b) = omega arith in omega (arith, ap (λ (t : ℕ). t * rate) e)
