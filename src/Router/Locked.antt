-- ===== src/Router/Locked.antt =====
-- The router over the aircraft link: what a command may do to the link's active transaction.
use low_altitude_io_t_system.Common.{
  List, Option, Result, String, inl, inr, list_eq, nat_eq, pair_eq, refl, string_eq, ℕ, ◌≡◌, ◌⊎◌,
}
use low_altitude_io_t_system.Common.Value.{Fields, Value}
use low_altitude_io_t_system.Common.Int.{ℤ}
use low_altitude_io_t_system.Auth.{Bytes}
use low_altitude_io_t_system.Link.{CloudCommand, Link}
use low_altitude_io_t_system.Link.Calls.{executes, run_execute}
use low_altitude_io_t_system.Link.Lock.{LockStep, execute-LockStep}
use low_altitude_io_t_system.Router.{meant}
use low_altitude_io_t_system.Router.Route.{Fleet, route}
use low_altitude_io_t_system.Router.Isolated.{
  Isolated, refused, to_aircraft, to_aircraft_2, to_rover, to_system, NotRefused, route-Isolated,
}

module _ (dumps : Value → Result Bytes) (loads : Bytes → Option Value) (crc32 : Bytes → ℕ)
    (uuid_bytes : String → Bytes) (uuid_text : Bytes → String) (to_str : Value → String)
    (strip : String → String) (int_text float_text : String → Option ℤ)
    (sha256_json : List Fields → Result String) (decimal : ℕ → String) where
  -- The aircraft link, called at a time.
  abbrev pub run_link : ℕ → CloudCommand → Link → Result (String × ℕ) × Link
  run_link at c l =
      run_execute dumps loads crc32 uuid_bytes uuid_text to_str strip int_text float_text
        sha256_json decimal c at l

  -- The link is as it was, or the command's age was not refused, the optical link is locked, and the
  -- link has made a step of its lock for this command.
  abbrev pub Locked : ℕ → ℕ → ℕ → String → CloudCommand → Link → Link → Type 0
  Locked at max_age now optical c l l' =
      (l' ≡ l)
      ⊎ (NotRefused max_age now c.source_timestamp
          × (optical ≡ "locked")
          × LockStep (executes (record c { target = "aircraft" }) at) l.active_command_id
              l'.active_command_id)

  module _ {R M Y : Type 0} (run_rover : CloudCommand → R → Result (String × ℕ) × R)
      (run_aircraft_2 : Option (CloudCommand → M → Result (String × ℕ) × M))
      (run_system : Option (CloudCommand → Y → Result (String × ℕ) × Y)) where
    Isolated-Locked :
        (at max_age now : ℕ) (optical : String) (c : CloudCommand) (f : Fleet R Link M Y)
        (r : Result (String × ℕ) × Fleet R Link M Y)
        → Isolated run_rover (run_link at) run_aircraft_2 run_system max_age now optical c f r
        → Locked at max_age now optical c f.aircraft r.1.aircraft
    Isolated-Locked at max_age now optical c f r (refused reason) = inl refl
    Isolated-Locked at max_age now optical c f r (to_rover timely n n1 n2 n3) = inl refl
    Isolated-Locked at max_age now optical c f r (to_aircraft_2 run timely given meant) = inl refl
    Isolated-Locked at max_age now optical c f r (to_system run timely given meant) = inl refl
    Isolated-Locked at max_age now optical c f r (to_aircraft timely locked meant) = inr (
      timely,
      locked,
      execute-LockStep dumps loads crc32 uuid_bytes uuid_text to_str strip int_text float_text
          sha256_json decimal (record c { target = "aircraft" }) at f.aircraft,
    )

    -- Whatever command the router gets, the aircraft's link stays as it is, or the command's
    -- timestamp is within the allowed age or is NaN, whose age is not checked, the optical link is
    -- locked, and the link makes one step of its lock: the active transaction stays, is freed, or is
    -- the command's own where none was active.
    pub route-Locked :
        (at max_age now : ℕ) (optical : String) (c : CloudCommand) (f : Fleet R Link M Y)
        → Locked at max_age now optical c f.aircraft
            (route run_rover
              (run_link at)
              run_aircraft_2
              run_system
              max_age
              now
              optical
              c
              f).1.aircraft
    route-Locked at max_age now optical c f =
        Isolated-Locked at max_age now optical c f
          (route run_rover (run_link at) run_aircraft_2 run_system max_age now optical c f)
          (route-Isolated run_rover (run_link at) run_aircraft_2 run_system max_age now optical c f)
