-- ===== src/Telemetry.antt =====
-- aircraft_agent/telemetry.py: the telemetry of the aircraft, and whether it may fly a mission.
-- Times are ticks of the clock, coordinates the integers of MAVLink.
pub mod Gate
mod Examples
use Prim.Native.String.{◌++◌ as join_text}
use low_altitude_io_t_system.Common.{
  Bool, Bool-cases, Eq, List, String, [], false, if◌then◌else◌, leb, list_eq, nat_eq, pair_eq,
  string_eq, true, ℕ, ◌&&◌, ◌-◌, ◌==◌, ◌∷◌, ◌≢◌,
}
use low_altitude_io_t_system.Common.Int.{is_nonzero, pos, ℤ}
use low_altitude_io_t_system.Common.Bits.{bit}

-- What `update` reads of a MAVLink message; a field that is missing or null has its default.
pub data Reading : Type 0 where
  heartbeat : (base_mode : ℕ) → (mode : String) → Reading
  gps_raw_int : (fix_type satellites_visible : ℕ) → Reading
  global_position_int : (lat lon : ℤ) → Reading
  home_position : (latitude longitude altitude : ℤ) → Reading
  ekf_status_report : (flags : ℕ) → Reading
  other_message : Reading

-- `home_alt` is in millimetres.
pub record Telemetry : Type 0 where
  pub mode : String
  pub armed : Bool
  pub gps_fix : ℕ
  pub satellites : ℕ
  pub lat : ℤ
  pub lon : ℤ
  pub home_valid : Bool
  pub home_lat : ℤ
  pub home_lon : ℤ
  pub home_alt : ℤ
  pub ekf_flags : ℕ
  pub gps_at : ℕ
  pub position_at : ℕ
  pub home_at : ℕ
  pub ekf_at : ℕ

-- `AircraftTelemetry()`
abbrev pub new_telemetry : Telemetry
new_telemetry = record {
  mode = "UNKNOWN";
  armed = false;
  gps_fix = 0;
  satellites = 0;
  lat = pos 0;
  lon = pos 0;
  home_valid = false;
  home_lat = pos 0;
  home_lon = pos 0;
  home_alt = pos 0;
  ekf_flags = 0;
  gps_at = 0;
  position_at = 0;
  home_at = 0;
  ekf_at = 0;
}

unfoldable pub update : ℕ → Reading → Telemetry → Telemetry
unfolding bit
update now (heartbeat base_mode mode) t = record t { armed = bit 7 base_mode == 1; mode = mode }
update now (gps_raw_int fix satellites) t = record t {
  gps_fix = fix;
  satellites = satellites;
  gps_at = now;
}
update now (global_position_int lat lon) t = record t { lat = lat; lon = lon; position_at = now }
update now (home_position lat lon alt) t = record t {
  home_valid = is_nonzero lat && is_nonzero lon;
  home_lat = lat;
  home_lon = lon;
  home_alt = alt;
  home_at = now;
}
update now (ekf_status_report flags) t = record t { ekf_flags = flags; ekf_at = now }
update now other_message t = t

-- `[label for valid, label in checks if not valid]`
abbrev pub failed : List (Bool × String) → List String
failed [] = []
failed ((valid, label) ∷ checks) = if valid then failed checks else label ∷ failed checks

-- `", ".join(labels)`
abbrev pub join_labels : List String → String
join_labels [] = ""
join_labels (x ∷ []) = x
join_labels (x ∷ y ∷ ys) = join_text x (join_text ", " (join_labels (y ∷ ys)))

abbrev pub is_fresh : ℕ → ℕ → ℕ → Bool
is_fresh freshness now seen = leb 1 seen && leb (now - seen) freshness

abbrev pub gate_checks : ℕ → ℕ → Telemetry → List (Bool × String)
gate_checks freshness now t =
    (leb 3 t.gps_fix, "GPS fix")
    ∷ (leb 6 t.satellites, "satellites")
    ∷ (is_nonzero t.lat && is_nonzero t.lon, "position")
    ∷ (t.home_valid, "Home")
    ∷ (bit 0 t.ekf_flags == 1 && bit 4 t.ekf_flags == 1, "EKF")
    ∷ (is_fresh freshness now t.gps_at, "GPS stale")
    ∷ (is_fresh freshness now t.position_at, "position stale")
    ∷ (is_fresh freshness now t.home_at, "Home stale")
    ∷ (is_fresh freshness now t.ekf_at, "EKF stale")
    ∷ []

abbrev pub gate_answer : List String → Bool × String
gate_answer [] = (true, "")
gate_answer (label ∷ labels) = (false, join_text "missing " (join_labels (label ∷ labels)))

-- `execution_gate`
unfoldable pub execution_gate : ℕ → ℕ → Telemetry → Bool × String
execution_gate freshness now t = gate_answer (failed (gate_checks freshness now t))
