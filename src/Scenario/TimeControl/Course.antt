-- ===== src/Scenario/TimeControl/Course.antt =====
-- The course of simulation time in services/scenario-service/app/time_control.py.
use marga.Prelude.{
  ℕ, ◌+◌, ◌-◌, ◌*◌, ◌≤◌, ◌<◌, ◌≡◌, true, false, some, arith, if◌then◌else◌, leb, ◌&&◌, ◌⊎◌, inl,
  inr, Bool-cases, split_time,
}
use marga.Scenario.TimeControl.{
  TimeController, Readings, running, sim_time, flush, start, pause, set_speed, seek, advance,
  Operation, starts, pauses, sets_speed, seeks, advances, operate, min_multiplier, max_multiplier,
}

-- A running clock was resumed, at a time before `now`.
abbrev pub Resumed : ℕ → TimeController → Type 0
Resumed now c =
    (c.paused ≡ true) ⊎ ((c.paused ≡ false) × (s : ℕ) × (c.wall_resume_s ≡ some s) × (s ≤ now))

pub record IsClock (now : ℕ) (c : TimeController) : Type 0 where
  pub resumed : Resumed now c
  pub slow : min_multiplier ≤ c.speed_multiplier
  pub fast : c.speed_multiplier ≤ max_multiplier

operate-Resumed :
    (o : Operation) (r : Readings) (c : TimeController)
    → r.first ≤ r.second
    → Resumed r.first c
    → Resumed r.second (operate o r c)
unfolding operate start pause set_speed seek advance flush
operate-Resumed starts r c le (inl p) = inr (ground (arith, p), r.first, ground (arith, p), le)
operate-Resumed starts r c le (inr (p, s, e, h)) =
    inr (ground (arith, p), s, ground (arith, p), omega arith)
operate-Resumed pauses r c le (inl p) = inl (ground (arith, p))
operate-Resumed pauses r c le (inr (p, s, e, h)) = inl (ground (arith, p))
operate-Resumed (sets_speed m) r c le (inl p) = inl (ground (arith, p))
operate-Resumed (sets_speed m) r c le (inr (p, s, e, h)) =
    elim (Bool-cases (leb min_multiplier m && leb m max_multiplier)) [
      | inl good ↦ inr (ground (arith, p, good), r.second, ground (arith, p, good, e), omega arith)
      | inr bad ↦ inr (ground (arith, p, bad), s, ground (arith, p, bad, e), omega arith)
    ]
operate-Resumed (seeks x) r c le (inl p) = inl (ground (arith, p))
operate-Resumed (seeks x) r c le (inr (p, s, e, h)) =
    inr (ground (arith, p), r.first, ground (arith, p), le)
operate-Resumed (advances x) r c le (inl p) = inl (ground (arith, p))
operate-Resumed (advances x) r c le (inr (p, s, e, h)) =
    inr (ground (arith, p), r.first, ground (arith, p), le)

operate-speed :
    (o : Operation) (r : Readings) (c : TimeController) {now : ℕ}
    → IsClock now c
    → (min_multiplier ≤ (operate o r c).speed_multiplier)
      × ((operate o r c).speed_multiplier ≤ max_multiplier)
unfolding operate start pause set_speed seek advance flush
operate-speed starts r c v = ground arith
operate-speed o r c v = ground arith

-- Every operation, one that raises included, keeps the clock in order, whatever it reads: a running clock
-- knows when it was resumed, which is not in the future, and the speed is between a tenth and ten.
pub operate-IsClock :
    (o : Operation) (r : Readings) (c : TimeController)
    → r.first ≤ r.second
    → IsClock r.first c
    → IsClock r.second (operate o r c)
operate-IsClock o r c le v =
    let (slow, fast) = operate-speed o r c v in
    record { resumed = operate-Resumed o r c le v.resumed; slow = slow; fast = fast }

-- Where an operation sets the clock: `seek` to its target, `advance` on a running clock to its step after
-- the last time that was flushed, and the others to the time that it shows.
unfoldable pub set_to : Operation → ℕ → TimeController → ℕ
unfolding sim_time
set_to (seeks x) now c = x
set_to (advances dt) now c =
    if c.paused then sim_time now c else c.sim_time_s + dt * c.speed_multiplier
set_to o now c = sim_time now c

abbrev at_once : ℕ → Readings
at_once now = record { first = now; second = now }

-- Where an operation reads the same time twice, the clock goes on from where the operation sets it, at the
-- speed that it then has, unless it is paused.
pub sim_time-operate :
    (o : Operation) (now t : ℕ) (c : TimeController)
    → IsClock now c
    → now ≤ t
    → let c' = operate o (at_once now) c in
      sim_time t c' ≡ set_to o now c + (if c'.paused then 0 else (t - now) * c'.speed_multiplier)
unfolding operate start pause set_speed seek advance flush sim_time running set_to
sim_time-operate o now t c v le = go o v.resumed
  where
    go :
        (o : Operation)
        → Resumed now c
        → let c' = operate o (at_once now) c in
          sim_time t c'
          ≡ set_to o now c + (if c'.paused then 0 else (t - now) * c'.speed_multiplier)
    go starts (inl p) = ground (arith, p)
    go starts (inr (p, s, e, h)) = ground (arith, p, e, split_time s now t c.speed_multiplier h le)
    go pauses (inl p) = ground (arith, p)
    go pauses (inr (p, s, e, h)) = ground (arith, p, e)
    go (sets_speed m) (inl p) = ground (arith, p)
    go (sets_speed m) (inr (p, s, e, h)) =
        ground (arith, p, e, split_time s now t c.speed_multiplier h le)
    go (seeks x) (inl p) = ground (arith, p)
    go (seeks x) (inr (p, s, e, h)) = ground (arith, p, e)
    go (advances x) (inl p) = ground (arith, p)
    go (advances x) (inr (p, s, e, h)) = ground (arith, p, e)

shorter : (a b m : ℕ) → a < b → 0 < m → a * m < b * m
shorter a b m h pos = grind arith

-- `advance` may take the clock back: on a running clock, by a step shorter than the time since it was
-- resumed or last flushed.
pub advance_runs_back :
    (now dt s : ℕ) (c : TimeController)
    → IsClock now c
    → c.paused ≡ false
    → c.wall_resume_s ≡ some s
    → dt < now - s
    → sim_time now (advance now dt c).0 < sim_time now c
unfolding advance sim_time running
advance_runs_back now dt s c v p e short =
    ground (arith, p, e, v.slow, shorter dt (now - s) c.speed_multiplier)
