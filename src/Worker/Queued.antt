-- ===== src/Worker/Queued.antt =====
-- The worker (aircraft_agent/command_worker.py) on an inbox whose saves succeed.
use low_altitude_io_t_system.Common.{String, list_eq, nat_eq, pair_eq, string_eq}
use low_altitude_io_t_system.Inbox.{Inbox, Job, Outcome}
use low_altitude_io_t_system.Inbox.Ends.{finished, outcome_of}
use low_altitude_io_t_system.Worker.{Ending, Operations, ending_of, execute, extra_of}

module _ {V : Type 0} (lower upper : String → String) (operations : Operations V) where
  -- How the worker ends an active job.
  abbrev pub ending : Job → V → Ending
  ending j v = ending_of j (execute lower upper operations j v).0

  abbrev pub outcome : Job → V → Outcome
  outcome j v = outcome_of j (ending j v).stage (ending j v).detail (extra_of (ending j v))

  abbrev after_job : Inbox → Job → V → Inbox
  after_job b j v = record b {
    state = finished b.limits (outcome j v) b.state;
    disk = finished b.limits (outcome j v) b.state;
  }
