-- ===== src/Telemetry/Examples.antt =====
-- An aircraft that may fly a mission.
use low_altitude_io_t_system.Common.{list_eq, nat_eq, pair_eq, refl, string_eq, true, ◌↔◌, ◌≡◌}
use low_altitude_io_t_system.Common.Int.{pos}
use low_altitude_io_t_system.Telemetry.{
  Telemetry, ekf_status_report, execution_gate, global_position_int, gps_raw_int, home_position,
  new_telemetry, update,
}
use low_altitude_io_t_system.Telemetry.Gate.{MayFly, execution_gate-MayFly}

-- What the aircraft reports within half a second.
abbrev ready : Telemetry
ready = record new_telemetry {
  gps_fix = 3;
  satellites = 9;
  lat = pos 310_000_000;
  lon = pos 1_210_000_000;
  home_valid = true;
  ekf_flags = 0x33;
  gps_at = 40;
  position_at = 41;
  home_at = 42;
  ekf_at = 43;
}

updated :
    update 43 (ekf_status_report 0x33) (
      update 42 (home_position (pos 310_000_000) (pos 1_210_000_000) (pos 5)) (
        update 41
          (global_position_int (pos 310_000_000) (pos 1_210_000_000))
          (update 40 (gps_raw_int 3 9) new_telemetry)))
    ≡ record ready { home_lat = pos 310_000_000; home_lon = pos 1_210_000_000; home_alt = pos 5 }
unfolding update
updated = refl

execution_gate-MayFly_example : ((execution_gate 30 50 ready).0 ≡ true) ↔ MayFly 30 50 ready
execution_gate-MayFly_example = execution_gate-MayFly 30 50 ready
