-- ===== src/Inbox/Ends.antt =====
-- How `commit` and `accept` of aircraft_agent/inbox.py end, case by case.
use low_altitude_io_t_system.Common.{
  ℕ, ◌≡◌, ◌⊎◌, inl, inr, true, false, none, some, Option-cases, Bool-cases, List, [], ◌∷◌, ◌++◌,
  String, take_last, arith, Result, Error, ok, err, bind, Result-cases, rejected, string_eq,
  pair_eq, ◌==◌, nat_eq,
}
use text.Mathlib.TextEquality.{eq_iff}
use low_altitude_io_t_system.Common.Dict.{get, delete}
use low_altitude_io_t_system.Common.Value.{Value, arr, Fields}
use low_altitude_io_t_system.Frame.{Frame}
use low_altitude_io_t_system.Inbox.{
  clip, job_id, MissionKey, Job, Staged, Accepted, Outcome, State, Limits, Inbox, Saving, written,
  lost, replaced, save, enqueue, items_from, commit, apply_on, remember, accept_new, accept,
  next_active, complete_active, finish_active, mission_job, first_text, as_items, find_accepted,
  fingerprint, InboxResult,
}
use low_altitude_io_t_system.Messages.{validate_payload}
use low_altitude_io_t_system.Transport.Sender.{identity}

module _ (sha256_json : Value → String) where
  -- What a commit that is accepted has checked, and what it does.
  pub commit_cases :
      (l : Limits) (k : MissionKey) (count : ℕ) (checksum : String) (s t : State)
      → commit sha256_json l k count checksum s ≡ ok t
      → (m : Staged) × (items : List Fields) × (s' : State) × (get k s.staged ≡ some m)
        × (count ≡ m.item_count)
        × (items_from 0 m.item_count m.items ≡ ok items)
        × (sha256_json (arr (as_items items)) ≡ first_text checksum m.checksum)
        × (enqueue l
              (mission_job k.0 k.1 items (sha256_json (arr (as_items items))) "MISSION_STAGED")
              s
            ≡ ok s')
        × (t ≡ record s' { staged = delete k s'.staged })
  unfolding commit
  commit_cases l k count checksum s t e = elim (Option-cases (get k s.staged)) [
    | inl gone ↦ absurd (ground arith)
    | inr (m, found) ↦ elim (Result-cases (items_from 0 m.item_count m.items)) [
      | inr (x, lacks) ↦ absurd (ground arith)
      | inl (items, all) ↦
          let job =
            mission_job k.0 k.1 items (sha256_json (arr (as_items items))) "MISSION_STAGED" in
          elim (Result-cases (enqueue l job s)) [
            | inr (x, full) ↦ absurd (ground arith)
            | inl (s', queued) ↦ (
              m,
              items,
              s',
              found,
              ground arith,
              all,
              ground (
                arith,
                eq_iff (sha256_json (arr (as_items items))) (first_text checksum m.checksum),
              ),
              queued,
              ground arith,
            )
          ]
    ]
  ]

  -- How a new frame ends: refused, not saved, or accepted and saved.
  abbrev pub NewEnds : Inbox → Frame → Result InboxResult × Inbox → Type 0
  NewEnds b f r =
      ((x : Error) × (r ≡ (err x, b)))
      ⊎ ((s : State) × (stage : String) × (apply_on sha256_json f.message_type b.limits f b.state
            ≡ ok (s, stage))
          × (((x : Error) × (r
                  ≡ (err x, record b { disk = remember sha256_json b.limits f stage s })))
              ⊎ (r ≡ (
                ok (record { acked_sequence = f.sequence; stage = stage; duplicate = false }),
                record b {
                  state = remember sha256_json b.limits f stage s;
                  disk = remember sha256_json b.limits f stage s;
                },
              ))))

  pub accept_new_cases :
      (saving : Saving) (b : Inbox) (f : Frame) → NewEnds b f (accept_new sha256_json saving b f)
  unfolding accept_new save
  accept_new_cases saving b f =
      elim (Result-cases (apply_on sha256_json f.message_type b.limits f b.state)) [
        | inr (x, refused) ↦ inl (x, ground arith)
        | inl ((s, stage), applied) ↦ saved saving s stage applied
      ]
    where
      saved :
          (saving : Saving) (s : State) (stage : String)
          → apply_on sha256_json f.message_type b.limits f b.state ≡ ok (s, stage)
          → NewEnds b f (accept_new sha256_json saving b f)
      saved written s stage e = inr (s, stage, e, inr (ground arith))
      saved (lost x) s stage e = inl (x, ground arith)
      saved (replaced x) s stage e = inr (s, stage, e, inl (x, ground arith))

  -- Where the frame was seen before, the answer that was stored.
  abbrev pub AcceptEnds : Saving → Inbox → Frame → Result InboxResult × Inbox → Type 0
  AcceptEnds saving b f r =
      ((x : Error) × (r ≡ (err x, b)))
      ⊎ (((a : Accepted) × (find_accepted (identity f) b.state.seen ≡ some a)
            × (a.fingerprint ≡ fingerprint sha256_json f)
            × (r ≡ (
              ok (record { acked_sequence = f.sequence; stage = a.stage; duplicate = true }),
              b,
            )))
          ⊎ ((find_accepted (identity f) b.state.seen ≡ none)
              × (r ≡ accept_new sha256_json saving b f)))

  pub accept_cases :
      (saving : Saving) (b : Inbox) (f : Frame)
      → AcceptEnds saving b f (accept sha256_json saving b f)
  unfolding accept
  accept_cases saving b f = elim (Result-cases (validate_payload f.message_type f.payload)) [
    | inr (x, refused) ↦ inl (x, ground arith)
    | inl (_, valid) ↦ elim (Option-cases (find_accepted (identity f) b.state.seen)) [
      | inl new ↦ inr (inr (new, ground arith))
      | inr (a, found) ↦ elim (Bool-cases (a.fingerprint == fingerprint sha256_json f)) [
        | inl same ↦ inr (
            inl (
              a,
              found,
              ground (arith, eq_iff a.fingerprint (fingerprint sha256_json f)),
              ground arith,
            ))
        | inr other ↦ inl (rejected "duplicate_conflict", ground arith)
      ]
    ]
  ]

pub complete_cases :
    (saving : Saving) (b : Inbox)
    → ((b.state.active ≡ none) × (complete_active saving b ≡ (ok none, b)))
      ⊎ ((j : Job) × (b.state.active ≡ some j)
          × (complete_active saving b ≡ (
            bind (save saving b.disk (next_active b.state)).0 (λ _. ok (some j)),
            record b {
              state = next_active b.state;
              disk = (save saving b.disk (next_active b.state)).1;
            },
          )))
unfolding complete_active
complete_cases saving b = elim (Option-cases b.state.active) [
  | inl idle ↦ inl (idle, ground arith)
  | inr (j, busy) ↦ inr (j, busy, ground arith)
]

-- The result that `finish_active` appends.
abbrev pub outcome_of : Job → String → String → Fields → Outcome
outcome_of j stage detail extra = record {
  command_id = job_id j;
  stage = stage;
  detail = clip 256 detail;
  extra = extra;
}

abbrev pub finished : Limits → Outcome → State → State
finished l result s = record (next_active s) {
  results = take_last l.max_results ((next_active s).results ++ (result ∷ []));
}

abbrev pub FinishEnds : Job → String → String → Fields → Inbox → Result Outcome × Inbox → Type 0
FinishEnds j stage detail extra b r =
    let result = outcome_of j stage detail extra in
    ((x : Error) × (r ≡ (err x, b)))
    ⊎ (((x : Error) × (r ≡ (err x, record b { disk = finished b.limits result b.state })))
        ⊎ (r ≡ (
          ok result,
          record b {
            state = finished b.limits result b.state;
            disk = finished b.limits result b.state;
          },
        )))

pub finish_cases :
    (saving : Saving) (stage detail : String) (extra : Fields) (b : Inbox)
    → ((b.state.active ≡ none)
        × (finish_active saving stage detail extra b ≡ (err (rejected "no_active_command"), b)))
      ⊎ ((j : Job) × (b.state.active ≡ some j)
          × FinishEnds j stage detail extra b (finish_active saving stage detail extra b))
unfolding finish_active save
finish_cases saving stage detail extra b = elim (Option-cases b.state.active) [
  | inl idle ↦ inl (idle, ground arith)
  | inr (j, busy) ↦ inr (j, busy, saved saving j busy)
]
  where
    saved :
        (saving : Saving) (j : Job)
        → b.state.active ≡ some j
        → FinishEnds j stage detail extra b (finish_active saving stage detail extra b)
    saved written j busy = inr (inr (ground arith))
    saved (lost x) j busy = inl (x, ground arith)
    saved (replaced x) j busy = inr (inl (x, ground arith))
