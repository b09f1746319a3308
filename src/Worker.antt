-- ===== src/Worker.antt =====
-- aircraft_agent/command_worker.py: the one worker that executes the jobs of the inbox. The vehicle
-- operations are a parameter, a function that answers or raises and leaves the vehicle in a state.
pub mod Queued
mod Examples
use low_altitude_io_t_system.Common.{
  Bool, Bool-cases, Eq, List, Option, Result, String, [], bind, err, false, if◌then◌else◌, leb,
  length, list_eq, ltb, nat_eq, none, not, ok, pair_eq, require, runtime_error, some, string_eq,
  suc, true, value_error, zero, ℕ, ◌++◌, ◌==◌, ◌∷◌, ◌≢◌,
}
use low_altitude_io_t_system.Common.Value.{Fields, Value, bool, end, entry, str}
use low_altitude_io_t_system.Inbox.{
  Inbox, Job, Outcome, Saving, command_job, finish_active, job_id, mission_job, pop_first,
}

-- What the worker reads of an operation's result; an attribute that is missing has its default.
pub record Report : Type 0 where
  pub reason : String
  pub verified : Bool
  pub execution_ready : Bool

abbrev pub no_result : Report
no_result = record { reason = ""; verified = true; execution_ready = true }

-- What an operation may raise: `MissionUnsafeResidual`, or any other exception.
pub data Failure : Type 0 where
  unsafe_residual other : String → Failure

pub data Answer : Type 0 where
  returned : Report → Answer
  raised : Failure → Answer

-- `operations`, over the states of the vehicle
pub record Operations (V : Type 0) : Type 0 where
  pub execute : Job → Bool → V → Answer × V
  pub arm : Bool → V → Answer × V
  pub set_mode : String → V → Answer × V

pub record Worker : Type 0 where
  pub max_pending : ℕ
  pub queue : List Job
  pub closed : Bool

unfoldable pub make_worker : ℕ → Result Worker
make_worker max_pending =
    bind (require (leb 1 max_pending) (value_error "max_pending must be positive"))
      λ _. ok (record { max_pending = max_pending; queue = []; closed = false })

unfoldable pub submit : Job → Worker → Result Worker
submit job w = bind (require (not w.closed) (runtime_error "command worker is closed")) λ _.
    bind
      (require (ltb (length w.queue) w.max_pending) (runtime_error "command worker queue is full"))
      λ _. ok (record w { queue = w.queue ++ (job ∷ []) })

unfoldable pub close : Worker → Worker
close w = record w { closed = true }

abbrev pub pop_job : Worker → Option Job × Worker
pop_job w = ((pop_first w.queue).0, record w { queue = (pop_first w.queue).1 })

-- `str(record["action"])`, which the checks on a command left a text.
abbrev action_text : Value → String
action_text (str s) = s
action_text v = ""

abbrev is_mission : Job → Bool
is_mission (mission_job id mission items checksum stage) = true
is_mission (command_job id action parameters) = false

-- The stage, the detail and the flags of an outcome.
pub record Ending : Type 0 where
  pub stage : String
  pub detail : String
  pub verified : Bool
  pub execution_ready : Bool

unfoldable pub ending_of : Job → Answer → Ending
ending_of job (returned r) = record {
  stage = if is_mission job then "VERIFIED" else "COMPLETED";
  detail = r.reason;
  verified = r.verified;
  execution_ready = r.execution_ready;
}
ending_of job (raised (unsafe_residual text)) = record {
  stage = "UNSAFE_RESIDUAL";
  detail = text;
  verified = false;
  execution_ready = false;
}
ending_of job (raised (other text)) = record {
  stage = "FAILED";
  detail = text;
  verified = false;
  execution_ready = false;
}

abbrev pub extra_of : Ending → Fields
extra_of e =
    entry "verified" (bool e.verified) (entry "execution_ready" (bool e.execution_ready) end)

-- `str.lower` and `str.upper` are parameters.
module _ {V : Type 0} (lower upper : String → String) (operations : Operations V) where
  -- A mode change gives no result.
  abbrev mode_result : Answer × V → Answer × V
  mode_result (returned r, v) = (returned no_result, v)
  mode_result (raised x, v) = (raised x, v)

  -- `_execute`
  unfoldable pub execute : Job → V → Answer × V
  execute (mission_job id mission items checksum stage) v =
      operations.execute (mission_job id mission items checksum stage) false v
  execute (command_job id action parameters) v =
      let name = lower (action_text action) in
      if name == "arm"
      then operations.arm true v
      else if name == "disarm"
      then operations.arm false v
      else mode_result (operations.set_mode (upper name) v)

  -- `run_once` on the active job of an inbox: no exception of an operation gets out.
  unfoldable pub run_once : Saving → Inbox → V → Result (Option Outcome) × Inbox × V
  unfolding execute ending_of
  run_once saving b v = elim b.state.active [
    | none ↦ (ok none, b, v)
    | some job ↦
        let (answer, v') = execute job v in
        let e = ending_of job answer in
        let (result, b') = finish_active saving e.stage e.detail (extra_of e) b in
        (bind result (λ outcome. ok (some outcome)), b', v')
  ]

  -- `run_once` on the worker's own queue, where there is no inbox.
  unfoldable pub run_own : Worker → V → Option Outcome × Worker × V
  unfolding execute ending_of
  run_own w v = elim (pop_job w).0 [
    | none ↦ (none, w, v)
    | some job ↦
        let (answer, v') = execute job v in
        let e = ending_of job answer in
        let outcome : Outcome = record {
          command_id = job_id job;
          stage = e.stage;
          detail = e.detail;
          extra = extra_of e;
        } in
        (some outcome, (pop_job w).1, v')
  ]

  -- `run_queued` with at most so many rounds; each save ends as it is told. The list is what the
  -- loop has collected, and an exception of a save ends it.
  unfoldable pub run_queued : ℕ → Saving → Inbox → V → Option (Result (List Outcome)) × Inbox × V
  run_queued zero saving b v = (none, b, v)
  run_queued (suc fuel) saving b v =
      let (result, b', v') = run_once saving b v in
      elim result [
        | err x ↦ (some (err x), b', v')
        | ok none ↦ (some (ok []), b', v')
        | ok (some outcome) ↦
            let (more, b'', v'') = run_queued fuel saving b' v' in
            (
              elim more [
                | none ↦ none
                | some (err x) ↦ some (err x)
                | some (ok outcomes) ↦ some (ok (outcome ∷ outcomes))
              ],
              b'',
              v'',
            )
      ]
