-- ===== src/Telemetry/Gate.antt =====
-- When the telemetry lets a mission be flown.
use low_altitude_io_t_system.Common.{
  Bool, List, String, [], arith, false, list_eq, nat_eq, pair_eq, refl, string_eq, true, ℕ, ◌&&◌,
  ◌+◌, ◌↔◌, ◌∷◌, ◌≡◌, ◌≤◌,
}
use low_altitude_io_t_system.Common.Int.{is_nonzero}
use low_altitude_io_t_system.Common.Bits.{bit}
use low_altitude_io_t_system.Telemetry.{
  Telemetry, execution_gate, failed, gate_answer, gate_checks, is_fresh,
}

-- Every check of the gate.
pub record MayFly (freshness now : ℕ) (t : Telemetry) : Type 0 where
  pub fix : 3 ≤ t.gps_fix
  pub enough : 6 ≤ t.satellites
  pub located : (is_nonzero t.lat && is_nonzero t.lon) ≡ true
  pub home : t.home_valid ≡ true
  pub ekf : (bit 0 t.ekf_flags ≡ 1) × (bit 4 t.ekf_flags ≡ 1)
  pub gps_fresh : (1 ≤ t.gps_at) × (now ≤ t.gps_at + freshness)
  pub position_fresh : (1 ≤ t.position_at) × (now ≤ t.position_at + freshness)
  pub home_fresh : (1 ≤ t.home_at) × (now ≤ t.home_at + freshness)
  pub ekf_fresh : (1 ≤ t.ekf_at) × (now ≤ t.ekf_at + freshness)

abbrev AllHold : List (Bool × String) → Type 0
AllHold [] = Unit {0}
AllHold ((b, label) ∷ checks) = (b ≡ true) × AllHold checks

failed_sound : (checks : List (Bool × String)) → failed checks ≡ [] → AllHold checks
failed_sound [] h = tt
failed_sound ((true, label) ∷ checks) h = (refl, failed_sound checks h)
failed_sound ((false, label) ∷ checks) h = cc

failed_complete : (checks : List (Bool × String)) → AllHold checks → failed checks ≡ []
failed_complete [] h = refl
failed_complete ((b, label) ∷ checks) h = rw h.0 (failed_complete checks h.1)

answer-true : (l : List String) → (gate_answer l).0 ≡ true → l ≡ []
answer-true [] h = refl
answer-true (x ∷ l) h = cc

is_fresh_sound :
    (freshness now seen : ℕ)
    → is_fresh freshness now seen ≡ true
    → (1 ≤ seen) × (now ≤ seen + freshness)
is_fresh_sound freshness now seen h = ground arith

is_fresh_complete :
    (freshness now seen : ℕ)
    → (1 ≤ seen) × (now ≤ seen + freshness)
    → is_fresh freshness now seen ≡ true
is_fresh_complete freshness now seen h = ground arith

-- The gate lets a mission start exactly if there is a three-dimensional fix of six satellites or
-- more, a position and a home that are not zero, an EKF that reports an attitude and a position,
-- and each of these was observed and is no older than the freshness.
pub execution_gate-MayFly :
    (freshness now : ℕ) (t : Telemetry)
    → ((execution_gate freshness now t).0 ≡ true) ↔ MayFly freshness now t
unfolding execution_gate
execution_gate-MayFly freshness now t = (sound, complete)
  where
    sound : (execution_gate freshness now t).0 ≡ true → MayFly freshness now t
    sound h =
        let (fix, (enough, (located, (home, (ekf, (gps, (position, (homed, (filtered, end))))))))) =
          failed_sound (gate_checks freshness now t)
            (answer-true (failed (gate_checks freshness now t)) h) in
        record {
          fix = ground arith;
          enough = ground arith;
          located = located;
          home = home;
          ekf = ground arith;
          gps_fresh = is_fresh_sound freshness now t.gps_at gps;
          position_fresh = is_fresh_sound freshness now t.position_at position;
          home_fresh = is_fresh_sound freshness now t.home_at homed;
          ekf_fresh = is_fresh_sound freshness now t.ekf_at filtered;
        }

    complete : MayFly freshness now t → (execution_gate freshness now t).0 ≡ true
    complete v =
        rw
          (failed_complete (gate_checks freshness now t) (
            ground arith,
            (
              ground arith,
              (
                v.located,
                (
                  v.home,
                  (
                    ground arith,
                    (
                      is_fresh_complete freshness now t.gps_at v.gps_fresh,
                      (
                        is_fresh_complete freshness now t.position_at v.position_fresh,
                        (
                          is_fresh_complete freshness now t.home_at v.home_fresh,
                          (is_fresh_complete freshness now t.ekf_at v.ekf_fresh, tt),
                        ),
                      ),
                    ),
                  ),
                ),
              ),
            ),
          ))
          refl
