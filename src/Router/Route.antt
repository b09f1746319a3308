-- ===== src/Router/Route.antt =====
-- rdk_agent/command_router.py, CommandRouter, RuntimeCommandAPI.submit_mission, and
-- rdk_agent/network_mode.py. The executors of the vehicles are parameters, each over its own state.
use low_altitude_io_t_system.Common.{
  Bool, Option, Result, String, [], err, false, if◌then◌else◌, list_eq, ltb, nat_eq, none, not, ok,
  pair_eq, rejected, some, string_eq, suc, true, ℕ, ◌+◌, ◌==◌, ◌||◌, ◌∷◌,
}
use low_altitude_io_t_system.Common.Value.{
  Fields, Float, Value, field, finite, inf, is_in, nan, neg_inf,
}
use low_altitude_io_t_system.Common.Int.{negsuc, pos}
use low_altitude_io_t_system.Link.{CloudCommand}

-- `age > max_age_seconds` and `age < -max_age_seconds` for `age = now - t`
abbrev pub stale : ℕ → ℕ → Float → Bool
stale max_age now (finite (pos t)) = ltb (t + max_age) now
stale max_age now (finite (negsuc t)) = ltb max_age (now + suc t)
stale max_age now nan = false
stale max_age now inf = false
stale max_age now neg_inf = true

abbrev pub too_far : ℕ → ℕ → Float → Bool
too_far max_age now (finite (pos t)) = ltb (now + max_age) t
too_far max_age now (finite (negsuc t)) = false
too_far max_age now nan = false
too_far max_age now inf = true
too_far max_age now neg_inf = false

-- The states of the executors.
pub record Fleet (R L M Y : Type 0) : Type 0 where
  pub rover : R
  pub aircraft : L
  pub aircraft_2 : M
  pub system : Y

-- `CloudCommand(..., "aircraft", ...)`
abbrev pub retargeted : CloudCommand → CloudCommand
retargeted c = if c.target == "aircraft" then c else record c { target = "aircraft" }

module _ {R L M Y A : Type 0} (run_rover : CloudCommand → R → Result A × R)
    (run_aircraft : CloudCommand → L → Result A × L)
    (run_aircraft_2 : Option (CloudCommand → M → Result A × M))
    (run_system : Option (CloudCommand → Y → Result A × Y)) where
  -- The end of `route`, behind the checks of the age; `optical` is
  -- `str(self.optical_state()).strip().lower()`.
  unfoldable pub dispatch : String → CloudCommand → Fleet R L M Y → Result A × Fleet R L M Y
  dispatch optical c f =
      let (ra, a) = run_aircraft (retargeted c) f.aircraft in
      let (rr, r) = run_rover c f.rover in
      let second : Result A × Fleet R L M Y = elim run_aircraft_2 [
        | none ↦ (err (rejected "aircraft_2 commands are disabled"), f)
        | some run ↦ ((run c f.aircraft_2).0, record f { aircraft_2 = (run c f.aircraft_2).1 })
      ] in
      let own : Result A × Fleet R L M Y = elim run_system [
        | none ↦ (err (rejected "system commands are disabled"), f)
        | some run ↦ ((run c f.system).0, record f { system = (run c f.system).1 })
      ] in
      if c.target == "aircraft" || c.target == "aircraft_1"
      then (if optical == "locked"
          then (ra, record f { aircraft = a })
          else (err (rejected "aircraft command rejected: optical link blocked"), f))
      else if c.target == "aircraft_2"
      then second
      else if c.target == "system"
      then own
      else (rr, record f { rover = r })

  -- `route`
  unfoldable pub route : ℕ → ℕ → String → CloudCommand → Fleet R L M Y → Result A × Fleet R L M Y
  unfolding dispatch
  route max_age now optical c f =
      if stale max_age now c.source_timestamp
      then (err (rejected "stale command"), f)
      else if too_far max_age now c.source_timestamp
      then (err (rejected "command timestamp is too far in the future"), f)
      else dispatch optical c f

  -- `submit_mission`, which has read the clock at `clock`.
  unfoldable pub submit_mission :
      ℕ → ℕ → ℕ → String → String → Fields → Fleet R L M Y → Result A × Fleet R L M Y
  unfolding route
  submit_mission max_age clock now optical id mission f =
      route max_age now optical
        (record {
          command_id = id;
          source_timestamp = finite (pos clock);
          target = "aircraft";
          action = "mission";
          payload = mission;
        })
        f

-- `NetworkModeExecutor.execute`; the state is the line of the request file, where it exists, and
-- `to_text` is `str(...).strip().lower()`.
unfoldable pub execute_mode :
    (Value → String) → CloudCommand → Option String → Result String × Option String
unfolding field
execute_mode to_text c request =
    let mode : String = elim (field "mode" c.payload) [ none ↦ "" | some v ↦ to_text v ] in
    if not (c.target == "system") || not (c.action == "network_mode")
    then (err (rejected "unsupported system action"), request)
    else if not (is_in mode ("phone" ∷ "aircraft" ∷ []))
    then (err (rejected "unsupported network mode"), request)
    else (ok "scheduled", some mode)
