-- ===== src/Worker/Examples.antt =====
-- A concrete run of the worker (aircraft_agent/command_worker.py).
use low_altitude_io_t_system.Common.{
  Bool, String, [], if◌then◌else◌, list_eq, nat_eq, pair_eq, some, string_eq, ◌&&◌, ◌∷◌,
}
use low_altitude_io_t_system.Common.Value.{end, obj, str}
use low_altitude_io_t_system.Inbox.{Inbox, Job, State, command_job, empty_state}
use low_altitude_io_t_system.Worker.{Operations, no_result, other, raised, returned}

-- A vehicle that is armed or not, and that refuses to be armed twice.
abbrev toy_operations : Operations Bool
toy_operations = record {
  execute = λ job start armed. (returned no_result, armed);
  arm = λ value armed.
      (if value && armed then raised (other "already armed") else returned no_result, value);
  set_mode = λ mode armed. (returned no_result, armed);
}

abbrev same : String → String
same s = s

abbrev arm_job : Job
arm_job = command_job "c1" (str "arm") (obj end)

abbrev busy_state : State
busy_state = record empty_state {
  active = some arm_job;
  queue = command_job "c2" (str "arm") (obj end) ∷ command_job "c3" (str "loiter") (obj end) ∷ [];
}

abbrev busy_inbox : Inbox
busy_inbox = record {
  limits = record {
    max_queue = 2;
    max_history = 4;
    max_staged = 2;
    max_resume_items = 4;
    max_results = 2;
  };
  state = busy_state;
  disk = busy_state;
}
