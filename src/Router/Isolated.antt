-- ===== src/Router/Isolated.antt =====
-- The router hands a command to the vehicle that it is meant for and to no other.
use low_altitude_io_t_system.Common.{
  Bool-cases, Option, Option-cases, Result, String, arith, err, false, inl, inr, list_eq, nat_eq,
  pair_eq, refl, rejected, some, string_eq, suc, true, ℕ, ◌+◌, ◌==◌, ◌||◌, ◌≡◌, ◌≢◌, ◌≤◌, ◌⊎◌,
}
use low_altitude_io_t_system.Common.Value.{Float, finite, inf, nan, neg_inf}
use low_altitude_io_t_system.Common.Int.{negsuc, pos}
use low_altitude_io_t_system.Link.{CloudCommand}
use low_altitude_io_t_system.Router.{meant}
use low_altitude_io_t_system.Router.Route.{Fleet, dispatch, retargeted, route, stale, too_far}

-- A timestamp within the allowed age of the clock, on either side. One that is no number is not.
abbrev pub Timely : ℕ → ℕ → Float → Type 0
Timely max_age now (finite (pos t)) = (now ≤ t + max_age) × (t ≤ now + max_age)
Timely max_age now (finite (negsuc t)) = now + suc t ≤ max_age
Timely max_age now nan = ⊥
Timely max_age now inf = ⊥
Timely max_age now neg_inf = ⊥

-- What passes both comparisons of the age: a timestamp in time, and NaN, however old the command.
abbrev pub NotRefused : ℕ → ℕ → Float → Type 0
NotRefused max_age now t = Timely max_age now t ⊎ (t ≡ nan)

checked-NotRefused :
    (max_age now : ℕ) (t : Float)
    → stale max_age now t ≡ false
    → too_far max_age now t ≡ false
    → NotRefused max_age now t
checked-NotRefused max_age now (finite (pos t)) young near = inl (ground arith, ground arith)
checked-NotRefused max_age now (finite (negsuc t)) young near = inl (ground arith)
checked-NotRefused max_age now nan young near = inr refl
checked-NotRefused max_age now inf young near = cc
checked-NotRefused max_age now neg_inf young near = cc

differs : (a b : String) → (a == b) ≡ false → a ≢ b
differs a b other e = let same = (string_eq.beq_iff a b).1 e in cc

module _ {R L M Y A : Type 0} (run_rover : CloudCommand → R → Result A × R)
    (run_aircraft : CloudCommand → L → Result A × L)
    (run_aircraft_2 : Option (CloudCommand → M → Result A × M))
    (run_system : Option (CloudCommand → Y → Result A × Y)) where
  -- What may come of a command: one executor at most has run, and only its state may differ.
  pub data Isolated (max_age now : ℕ) (optical : String) (c : CloudCommand) (f : Fleet R L M Y)
      : Result A × Fleet R L M Y → Type 0 where
    refused : (reason : String) → Isolated max_age now optical c f (err (rejected reason), f)
    to_rover :
        NotRefused max_age now c.source_timestamp
        → c.target ≢ "aircraft"
        → c.target ≢ "aircraft_1"
        → c.target ≢ "aircraft_2"
        → c.target ≢ "system"
        → Isolated max_age now optical c f
            ((run_rover c f.rover).0, record f { rover = (run_rover c f.rover).1 })
    to_aircraft :
        NotRefused max_age now c.source_timestamp
        → optical ≡ "locked"
        → (c.target ≡ "aircraft") ⊎ (c.target ≡ "aircraft_1")
        → Isolated max_age now optical c f (
          (run_aircraft (record c { target = "aircraft" }) f.aircraft).0,
          record f { aircraft = (run_aircraft (record c { target = "aircraft" }) f.aircraft).1 },
        )
    to_aircraft_2 :
        (run : CloudCommand → M → Result A × M)
        → NotRefused max_age now c.source_timestamp
        → run_aircraft_2 ≡ some run
        → c.target ≡ "aircraft_2"
        → Isolated max_age now optical c f
            ((run c f.aircraft_2).0, record f { aircraft_2 = (run c f.aircraft_2).1 })
    to_system :
        (run : CloudCommand → Y → Result A × Y)
        → NotRefused max_age now c.source_timestamp
        → run_system ≡ some run
        → c.target ≡ "system"
        → Isolated max_age now optical c f
            ((run c f.system).0, record f { system = (run c f.system).1 })

  abbrev HandedOn :
      (max_age now : ℕ) (optical : String) (c : CloudCommand) (f : Fleet R L M Y) → Type 0
  HandedOn max_age now optical c f =
      Isolated max_age now optical c f
        (dispatch run_rover run_aircraft run_aircraft_2 run_system optical c f)

  retargeted_lem : (c : CloudCommand) → retargeted c ≡ record c { target = "aircraft" }
  retargeted_lem c = elim (Bool-cases (c.target == "aircraft")) [
    | inr other ↦ rw other refl
    | inl own ↦
        let e : c.target ≡ "aircraft" = (string_eq.beq_iff c.target "aircraft").0 own in
        rw own (λ i. record c { target = e i })
  ]

  dispatch_aircraft :
      (max_age now : ℕ) (optical : String) (c : CloudCommand) (f : Fleet R L M Y)
      → NotRefused max_age now c.source_timestamp
      → (c.target == "aircraft" || c.target == "aircraft_1") ≡ true
      → (c.target ≡ "aircraft") ⊎ (c.target ≡ "aircraft_1")
      → HandedOn max_age now optical c f
  unfolding dispatch
  dispatch_aircraft max_age now optical c f timely test meant =
      elim (Bool-cases (optical == "locked")) [
        | inr blocked ↦
            rw (test, blocked) (refused "aircraft command rejected: optical link blocked")
        | inl locked ↦
            rw (test, locked, retargeted_lem c)
              (to_aircraft timely ((string_eq.beq_iff optical "locked").0 locked) meant)
      ]

  dispatch-Isolated :
      (max_age now : ℕ) (optical : String) (c : CloudCommand) (f : Fleet R L M Y)
      → NotRefused max_age now c.source_timestamp
      → HandedOn max_age now optical c f
  unfolding dispatch
  dispatch-Isolated max_age now optical c f timely = elim (Bool-cases (c.target == "aircraft")) [
    | inl t ↦
        dispatch_aircraft max_age now optical c f timely (rw t refl)
          (inl ((string_eq.beq_iff c.target "aircraft").0 t))
    | inr n ↦ elim (Bool-cases (c.target == "aircraft_1")) [
      | inl t ↦
          dispatch_aircraft max_age now optical c f timely (rw (n, t) refl)
            (inr ((string_eq.beq_iff c.target "aircraft_1").0 t))
      | inr n1 ↦ elim (Bool-cases (c.target == "aircraft_2")) [
        | inl t ↦ elim (Option-cases run_aircraft_2) [
          | inl none2 ↦ rw (n, n1, t, none2) (refused "aircraft_2 commands are disabled")
          | inr (run, some2) ↦
              rw (n, n1, t, some2)
                (to_aircraft_2 run timely refl ((string_eq.beq_iff c.target "aircraft_2").0 t))
        ]
        | inr n2 ↦ elim (Bool-cases (c.target == "system")) [
          | inl t ↦ elim (Option-cases run_system) [
            | inl none3 ↦ rw (n, n1, n2, t, none3) (refused "system commands are disabled")
            | inr (run, some3) ↦
                rw (n, n1, n2, t, some3)
                  (to_system run timely refl ((string_eq.beq_iff c.target "system").0 t))
          ]
          | inr n3 ↦
              rw (n, n1, n2, n3)
                (to_rover timely (differs c.target "aircraft" n) (differs c.target "aircraft_1" n1)
                  (differs c.target "aircraft_2" n2) (differs c.target "system" n3))
        ]
      ]
    ]
  ]

  -- A command is refused and changes no vehicle, or its timestamp is within the allowed age or is
  -- NaN, whose age is not checked, and only the executor of its target has run: an aircraft's only
  -- while the optical link is locked and under the target "aircraft", and the optional ones only
  -- where there is one.
  pub route-Isolated :
      (max_age now : ℕ) (optical : String) (c : CloudCommand) (f : Fleet R L M Y)
      → Isolated max_age now optical c f
          (route run_rover run_aircraft run_aircraft_2 run_system max_age now optical c f)
  unfolding route
  route-Isolated max_age now optical c f =
      elim (Bool-cases (stale max_age now c.source_timestamp)) [
        | inl old ↦ rw old (refused "stale command")
        | inr young ↦ elim (Bool-cases (too_far max_age now c.source_timestamp)) [
          | inl far ↦ rw (young, far) (refused "command timestamp is too far in the future")
          | inr near ↦
              rw (young, near)
                (dispatch-Isolated max_age now optical c f
                  (checked-NotRefused max_age now c.source_timestamp young near))
        ]
      ]
