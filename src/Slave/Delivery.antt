-- ===== src/Slave/Delivery.antt =====
-- slave_agent/command_queue.py: the delivery records, and `accept` as a whole.
use low_altitude_io_t_system.Common.{
  Bool, List, Option, Result, String, [], bind, err, false, if◌then◌else◌, list_eq, nat_eq, none,
  not, ok, pair_eq, rejected, some, string_eq, true, ℕ, ◌&&◌, ◌++◌, ◌==◌, ◌||◌, ◌∷◌,
}
use low_altitude_io_t_system.Common.Value.{Value, end, entry, obj, str}
use low_altitude_io_t_system.Common.Dict.{Dict, get, put}
use low_altitude_io_t_system.Inbox.{Job, Outcome, Saving, State, first_text, job_id}
use low_altitude_io_t_system.Slave.{
  Delivered, NodeMessage, NodeQueue, QueueAcceptance, Stage, is_set, mission_of, save_delivery,
  trim_delivery,
}
use low_altitude_io_t_system.Slave.Mission.{active_first}

-- `inbox.contains_command`
unfoldable pub has_outcome : String → List Outcome → Bool
has_outcome id [] = false
has_outcome id (o ∷ os) = o.command_id == id || has_outcome id os

unfoldable pub has_job : String → List Job → Bool
has_job id [] = false
has_job id (j ∷ js) = job_id j == id || has_job id js

unfoldable pub contains_command : String → State → Bool
unfolding has_job has_outcome
contains_command id s = has_job id (active_first s) || has_outcome id s.results

-- The loop of `_reconcile_delivery`: an open record without a job or a result goes.
unfoldable pub reconcile : State → Dict String Delivered → Dict String Delivered
reconcile s [] = []
reconcile s ((k, d) ∷ rest) =
    let kept = reconcile s rest in
    if not (is_set d.terminal_stage) && not (contains_command k s) then kept else (k, d) ∷ kept

abbrev pub set_terminal : String → Outcome → Delivered → Delivered
set_terminal terminal o d = record d {
  terminal_stage = terminal;
  worker_stage = o.stage;
  detail = o.detail;
  delivered = if d.terminal_stage == terminal then d.delivered else false;
}

abbrev pub terminal_of : Outcome → String
terminal_of o = if o.stage == "COMPLETED" || o.stage == "VERIFIED" then "VERIFIED" else "FAILED"

abbrev same_delivered : Delivered → Delivered → Bool
same_delivered a b =
    a.terminal_stage == b.terminal_stage
    && a.worker_stage == b.worker_stage
    && a.detail == b.detail
    && (if a.delivered then b.delivered else not b.delivered)

-- One round of the first loop of `completed`, with `dirty`.
unfoldable pub note_result : Outcome → Bool → NodeQueue → Bool × NodeQueue
note_result o dirty q = elim (get o.command_id q.commands) [
  | none ↦ (dirty, q)
  | some d ↦
      let terminal = terminal_of o in
      let d' = set_terminal terminal o d in
      let q' : NodeQueue = record q { commands = put o.command_id d' q.commands } in
      let s : Stage = record {
        stage = terminal;
        command_id = o.command_id;
        sequence = d.sequence;
        mission_id = d.mission_id;
      } in
      (
        dirty || not (same_delivered d d'),
        (if d.terminal_stage == terminal then q' else record q' { stages = q'.stages ++ (s ∷ []) }),
      )
]

unfoldable pub note_results : List Outcome → Bool → NodeQueue → Bool × NodeQueue
unfolding note_result
note_results [] dirty q = (dirty, q)
note_results (o ∷ os) dirty q =
    let (dirty', q') = note_result o dirty q in note_results os dirty' q'

-- What `completed` reports of a record.
pub record Completed : Type 0 where
  pub command_id : String
  pub sequence : ℕ
  pub stage : String
  pub detail : String
  pub mission_id : String

unfoldable pub undelivered : Dict String Delivered → List Completed
undelivered [] = []
undelivered ((k, d) ∷ rest) =
    let more = undelivered rest in
    let c : Completed = record {
      command_id = k;
      sequence = d.sequence;
      stage = first_text d.worker_stage d.terminal_stage;
      detail = d.detail;
      mission_id = d.mission_id;
    } in
    if is_set d.terminal_stage && not d.delivered then c ∷ more else more

-- `completed`; the records are changed even where the save raises.
unfoldable pub completed : Saving → NodeQueue → Result (List Completed) × NodeQueue
unfolding note_results undelivered save_delivery
completed saving q =
    let (dirty, q') = note_results q.inbox.state.results false q in
    if dirty
    then (let (saved, q'') = save_delivery saving q' in
        (bind saved (λ _. ok (undelivered q''.commands)), q''))
    else (ok (undelivered q'.commands), q')

-- `mark_delivered`
unfoldable pub mark_delivered : Saving → String → NodeQueue → Result Bool × NodeQueue
unfolding save_delivery
mark_delivered saving id q = elim (get id q.commands) [
  | none ↦ (ok false, q)
  | some d ↦
      let (saved, q') =
        save_delivery saving
          (record q { commands = put id (record d { delivered = true }) q.commands }) in
      (bind saved (λ _. ok true), q')
]

module _ (sha256_json : Value → String) where
  -- `_delivery_fingerprint`
  unfoldable pub delivery_fingerprint : NodeMessage → String
  delivery_fingerprint m =
      if m.kind == "command"
      then sha256_json (obj m.payload)
      else sha256_json (obj (entry "type" (str m.kind) (entry "payload" (obj m.payload) end)))

  abbrev pub answer_again : NodeMessage → Delivered → QueueAcceptance
  answer_again m d = record {
    stage = first_text d.terminal_stage d.stage;
    duplicate = true;
    sequence = m.sequence;
  }

  -- The record of a repeated message: the answer goes to the sequence it came with now.
  abbrev pub repeated : NodeMessage → ℕ → Delivered → Delivered
  repeated m now d =
      let d' : Delivered = record d {
        sequence = m.sequence;
        delivered = if is_set d.terminal_stage then false else d.delivered;
      } in
      if not (d.sequence == m.sequence) || is_set d.terminal_stage && d.delivered
      then record d' { updated_at = now }
      else d'

  abbrev pub changed : NodeMessage → Delivered → Bool
  changed m d = not (d.sequence == m.sequence) || is_set d.terminal_stage && d.delivered

  -- `_deduplicate_delivery`
  unfoldable pub deduplicate :
      Saving → ℕ → NodeMessage → NodeQueue → Result (Option QueueAcceptance) × NodeQueue
  unfolding delivery_fingerprint save_delivery
  deduplicate saving now m q = elim (get m.command_id q.commands) [
    | none ↦ (ok none, q)
    | some d ↦
        let q' : NodeQueue = record q {
          commands = put m.command_id (repeated m now d) q.commands;
        } in
        if d.fingerprint == delivery_fingerprint m
        then (if changed m d
            then (let (saved, q'') = save_delivery saving q' in
                (bind saved (λ _. ok (some (answer_again m d))), q''))
            else (ok (some (answer_again m d)), q'))
        else (err (rejected "duplicate_conflict"), q)
  ]

  abbrev pub new_record : NodeMessage → String → ℕ → Delivered
  new_record m stage now = record {
    sequence = m.sequence;
    stage = stage;
    mission_id = mission_of m.payload;
    message_type = m.kind;
    fingerprint = delivery_fingerprint m;
    terminal_stage = "";
    worker_stage = "";
    detail = "";
    delivered = false;
    updated_at = now;
  }

  -- `_record_delivery`: an exception puts the records back.
  unfoldable pub record_delivery :
      Saving → ℕ → NodeMessage → NodeQueue → Result (Unit {0}) × NodeQueue
  unfolding trim_delivery save_delivery delivery_fingerprint
  record_delivery saving now m q =
      let commands =
        trim_delivery q.max_records (put m.command_id (new_record m "QUEUED" now) q.commands) in
      let (saved, q') = save_delivery saving (record q { commands = commands }) in
      elim saved [ ok _ ↦ (ok tt, q') | err x ↦ (err x, record q { stored = q'.stored }) ]
