-- ===== src/Scenario/TimeControl.antt =====
-- services/scenario-service/app/time_control.py, `TimeController`. Wall times are microseconds, speeds are
-- thousandths, and simulation times are their products, so that the source's products are exact. An
-- operation that reads the monotonic clock twice, in `_flush`, is given both readings.
pub mod Course
use marga.Prelude.{
  ℕ, ◌+◌, ◌-◌, ◌*◌, Bool, true, false, Option, none, some, if◌then◌else◌, ltb, leb, ◌&&◌,
}

abbrev pub min_multiplier : ℕ
min_multiplier = 100

abbrev pub max_multiplier : ℕ
max_multiplier = 10_000

pub record TimeController : Type 0 where
  pub speed_multiplier : ℕ
  pub paused : Bool
  pub sim_time_s : ℕ
  pub wall_resume_s : Option ℕ

unfoldable pub new_controller : TimeController
new_controller = record {
  speed_multiplier = 1_000;
  paused = true;
  sim_time_s = 0;
  wall_resume_s = none;
}

-- The readings of an operation: its only one, or the first of two; and the second.
pub record Readings : Type 0 where
  pub first : ℕ
  pub second : ℕ

-- What has run since the last resume.
unfoldable pub running : Option ℕ → ℕ → ℕ → ℕ
running none speed now = 0
running (some resumed) speed now = (now - resumed) * speed

-- The property `sim_time_s`
unfoldable pub sim_time : ℕ → TimeController → ℕ
unfolding running
sim_time now c =
    if c.paused then c.sim_time_s else c.sim_time_s + running c.wall_resume_s c.speed_multiplier now

abbrev restarted : Option ℕ → ℕ → Option ℕ
restarted none now = none
restarted (some resumed) now = some now

-- `_flush`
unfoldable pub flush : Readings → TimeController → TimeController
unfolding running
flush r c = record c {
  sim_time_s = c.sim_time_s + running c.wall_resume_s c.speed_multiplier r.first;
  wall_resume_s = restarted c.wall_resume_s r.second;
}

-- `start`, and `resume` in the same words.
unfoldable pub start : ℕ → TimeController → TimeController
start now c = if c.paused then record c { wall_resume_s = some now; paused = false } else c

unfoldable pub pause : Readings → TimeController → TimeController
unfolding flush
pause r c = if c.paused then c else record (flush r c) { wall_resume_s = none; paused = true }

-- `none` is a `TimeControlError`.
unfoldable pub set_speed : Readings → ℕ → TimeController → Option TimeController
unfolding flush
set_speed r multiplier c =
    if leb min_multiplier multiplier && leb multiplier max_multiplier
    then some (record (if c.paused then c else flush r c) { speed_multiplier = multiplier })
    else none

-- Negative times, which are refused, are left out.
unfoldable pub seek : ℕ → ℕ → TimeController → TimeController
seek now target c =
    if c.paused
    then record c { sim_time_s = target }
    else record c { sim_time_s = target; wall_resume_s = some now }

-- `advance` returns the delta.
unfoldable pub advance : ℕ → ℕ → TimeController → TimeController × ℕ
advance now dt c = if c.paused then (c, 0) else (
  record c { sim_time_s = c.sim_time_s + dt * c.speed_multiplier; wall_resume_s = some now },
  dt * c.speed_multiplier,
)

-- The operations, as a client calls them.
pub data Operation : Type 0 where
  starts pauses : Operation
  sets_speed : ℕ → Operation
  seeks : ℕ → Operation
  advances : ℕ → Operation

abbrev kept : TimeController → Option TimeController → TimeController
kept c none = c
kept c (some c') = c'

-- The state after an operation; an operation that raises changes nothing.
unfoldable pub operate : Operation → Readings → TimeController → TimeController
unfolding start pause set_speed seek advance
operate starts r c = start r.first c
operate pauses r c = pause r c
operate (sets_speed multiplier) r c = kept c (set_speed r multiplier c)
operate (seeks target) r c = seek r.first target c
operate (advances dt) r c = (advance r.first dt c).0
