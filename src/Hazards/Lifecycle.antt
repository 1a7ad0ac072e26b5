-- ===== src/Hazards/Lifecycle.antt =====
-- services/hazards/marga_hazards/lifecycle.py, `HazardLifecycleManager`, and the state that it shares with
-- the fusion engine. Floats and positions are the argument `Measures`, with the operations that the
-- source applies to them. A hazard object is shared by the store and the grid: the grid holds its
-- identifier, and the object is the one in the store.
use marga.Prelude.{
  ℕ, ◌+◌, ◌-◌, ◌*◌, Bool, true, false, not, ◌&&◌, ◌||◌, Option, none, some, List, [], ◌∷◌,
  if◌then◌else◌, ltb, nat_eq,
}
use marga.Prelude.Dict
use marga.Prelude.Dict.{Dict}
use marga.Hazards.Hazard.{
  HazardType, pothole, bump, debris, flood, landslide, animal, stalled_vehicle, construction,
  lane_closure, accident, low_visibility, other, HazardState, candidate, verified, stale, expired,
  Hazard,
}
use marga.Hazards.Spatial.{SpatialIndex, Cell, remove_hazard}

abbrev pub second : ℕ
second = 1_000_000

-- The floats and the positions of the language, with the float functions of the source. `hundredths` are
-- the literals, `half_power t h` is 0.5 to the power t / h, and `differs` is a difference above 1e-6.
pub record Measures : Type 1 where
  pub F : Type 0
  pub Point : Type 0
  pub hundredths : ℕ → F
  pub add : F → F → F
  pub sub : F → F → F
  pub mul : F → F → F
  pub div : F → F → F
  pub max_of : F → F → F
  pub min_of : F → F → F
  pub less : F → F → Bool
  pub at_most : F → F → Bool
  pub equal : F → F → Bool
  pub differs : F → F → Bool
  pub of_seconds : ℕ → F
  pub of_count : ℕ → F
  pub half_power : ℕ → ℕ → F
  pub haversine_m : Point → Point → F
  pub blend : F → Point → Point → Point
  pub cell_of : Point → Cell
  pub cell_span : F → ℕ

-- `DEFAULT_TTL`, in seconds.
unfoldable pub default_ttl : HazardType → ℕ
default_ttl pothole = 86_400
default_ttl bump = 604_800
default_ttl debris = 3_600
default_ttl flood = 7_200
default_ttl landslide = 86_400
default_ttl animal = 1_800
default_ttl stalled_vehicle = 3_600
default_ttl construction = 604_800
default_ttl lane_closure = 86_400
default_ttl accident = 7_200
default_ttl low_visibility = 3_600
default_ttl other = 3_600

abbrev pub is_expired : HazardState → Bool
is_expired expired = true
is_expired _ = false

abbrev pub state_eqb : HazardState → HazardState → Bool
state_eqb candidate candidate = true
state_eqb verified verified = true
state_eqb stale stale = true
state_eqb expired expired = true
state_eqb _ _ = false

module _ (ms : Measures) where
  open ms use {F, Point, hundredths, mul, max_of, less, differs, half_power}

  -- The store, the index and the archive, which the engine and its lifecycle manager share.
  pub record Hazards : Type 0 where
    pub active : Dict ℕ (Hazard F Point)
    pub spatial_index : SpatialIndex
    pub expired_archive : Dict ℕ (Hazard F Point)

  pub record Lifecycle : Type 0 where
    pub ttl_overrides : HazardType → Option ℕ
    pub decay_half_life : ℕ
    pub stale_threshold : F
    pub expire_threshold : F

  -- `get_ttl`
  unfoldable pub get_ttl : HazardType → Lifecycle → ℕ
  unfolding default_ttl
  get_ttl t l = elim (l.ttl_overrides t) [ none ↦ default_ttl t | some s ↦ s ]

  -- The confidence after the time since the hazard was last seen.
  unfoldable pub decayed : ℕ → Lifecycle → Hazard F Point → F
  decayed now l h =
      if ltb h.last_seen now && ltb 0 l.decay_half_life
      then mul h.confidence (half_power (now - h.last_seen) l.decay_half_life)
      else h.confidence

  unfoldable pub new_state : ℕ → Lifecycle → Hazard F Point → HazardState
  new_state now l h =
      if ltb (h.first_seen + get_ttl h.hazard_type l * second) now
        || less (decayed now l h) l.expire_threshold
      then expired
      else if less (decayed now l h) l.stale_threshold
      then stale
      else h.state

  -- Whether the sweep writes to the hazard.
  unfoldable pub is_changed : ℕ → Lifecycle → Hazard F Point → Bool
  is_changed now l h =
      not (state_eqb (new_state now l h) h.state) || differs (decayed now l h) h.confidence

  -- A hazard after the sweep has looked at it.
  unfoldable pub swept : ℕ → Lifecycle → Hazard F Point → Hazard F Point
  swept now l h =
      if is_expired h.state
      then h
      else if is_changed now l h
      then record h {
        confidence = max_of (hundredths 0) (decayed now l h);
        state = new_state now l h;
      }
      else h

  -- Whether the sweep takes a hazard out of the store.
  unfoldable pub is_gone : ℕ → Lifecycle → Hazard F Point → Bool
  is_gone now l h = not (is_expired h.state) && is_expired (new_state now l h)

  -- The loop over the store: the hazards after it, and those to remove.
  unfoldable pub sweep_all :
      ℕ → Lifecycle → Dict ℕ (Hazard F Point) → Dict ℕ (Hazard F Point) × List ℕ
  sweep_all now l [] = ([], [])
  sweep_all now l ((i, h) ∷ rest) =
      let (after, gone) = sweep_all now l rest in
      ((i, swept now l h) ∷ after, if is_gone now l h then i ∷ gone else gone)

  abbrev pub archived :
      ℕ → Option (Hazard F Point) → Dict ℕ (Hazard F Point) → Dict ℕ (Hazard F Point)
  archived i none archive = archive
  archived i (some h) archive = Dict.put i h archive

  -- A hazard leaves the store and the index for the archive.
  unfoldable pub retire : ℕ → Hazards → Hazards
  retire i s = record {
    active = Dict.pop i s.active;
    spatial_index = remove_hazard i s.spatial_index;
    expired_archive = archived i (Dict.get i s.active) s.expired_archive;
  }

  unfoldable pub retire_all : List ℕ → Hazards → Hazards
  retire_all [] s = s
  retire_all (i ∷ is) s = retire_all is (retire i s)

  -- `sweep`
  unfoldable pub sweep : ℕ → Lifecycle → Hazards → Hazards
  sweep now l s =
      let (after, gone) = sweep_all now l s.active in retire_all gone (record s { active = after })
