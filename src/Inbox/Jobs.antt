-- ===== src/Inbox/Jobs.antt =====
-- The order of the jobs of the inbox (aircraft_agent/inbox.py): they are executed in the order in
-- which their frames were accepted.
use low_altitude_io_t_system.Common.{
  List, Option, Option-cases, String, [], ap, append-nil, append_assoc, arith, bind_ok, err,
  if◌then◌else◌, inl, inr, list_eq, nat_eq, none, ok, pair_eq, refl, some, string_eq, sym, ℕ, ◌++◌,
  ◌∙◌, ◌∷◌, ◌≡◌,
}
use low_altitude_io_t_system.Common.Dict.{get}
use low_altitude_io_t_system.Common.Value.{Fields, Value, arr, field, nat_field, str_field}
use low_altitude_io_t_system.Frame.{
  Frame, MessageType, command, mission_begin, mission_commit, mission_item,
}
use low_altitude_io_t_system.Messages.{checksum}
use low_altitude_io_t_system.Inbox.{
  Inbox, Job, Limits, MissionKey, Outcome, Saving, Staged, State, accept, add_item, apply_on,
  as_items, begin, command_record, commit, complete_active, enqueue, finish_active, items_from,
  mission_job, next_active, remember, text_of,
}
use low_altitude_io_t_system.Inbox.Ends.{
  accept_cases, accept_new_cases, commit_cases, complete_cases, finish_cases, finished,
}
use low_altitude_io_t_system.Inbox.Bounds.{
  Call, IsInbox, IsState, accepts, after, after-IsInbox, after_all, completes, finishes,
}

-- The active job and those behind it.
unfoldable pub jobs : State → List Job
jobs s = elim s.active [ none ↦ s.queue | some j ↦ j ∷ s.queue ]

-- The mission job of a commit whose mission is complete.
abbrev mission_jobs : (Value → String) → MissionKey → Option Staged → List Job
mission_jobs h k none = []
mission_jobs h k (some m) = elim (items_from 0 m.item_count m.items) [
  | err x ↦ []
  | ok items ↦ mission_job k.0 k.1 items (h (arr (as_items items))) "MISSION_STAGED" ∷ []
]

-- The job that an accepted new frame asks for.
unfoldable pub job_of_frame : (Value → String) → MessageType → State → Frame → List Job
job_of_frame h command s f = command_record f ∷ []
job_of_frame h mission_commit s f = elim (str_field "mission_id" f.payload) [
  | err x ↦ []
  | ok id ↦ mission_jobs h (f.command_id, id) (get (f.command_id, id) s.staged)
]
job_of_frame h kind s f = []

pub enqueue-jobs :
    (l : Limits) (j : Job) (s t : State)
    → IsState l s
    → enqueue l j s ≡ ok t
    → jobs t ≡ jobs s ++ (j ∷ [])
unfolding enqueue jobs
enqueue-jobs l j s t v e = ground (arith, v.busy)

begin-jobs : (l : Limits) (m : Staged) (s t : State) → begin l m s ≡ ok t → jobs t ≡ jobs s
unfolding begin jobs
begin-jobs l m s t e = ground arith

add_item-jobs :
    (k : MissionKey) (i : ℕ) (p : Fields) (s t : State) → add_item k i p s ≡ ok t → jobs t ≡ jobs s
unfolding add_item jobs
add_item-jobs k i p s t e = elim (Option-cases (get k s.staged)) [
  | inl missing ↦ absurd (ground arith)
  | inr (m, found) ↦ ground arith
]

remember-jobs :
    (h : Value → String) (l : Limits) (f : Frame) (stage : String) (s : State)
    → jobs (remember h l f stage s) ≡ jobs s
unfolding remember jobs
remember-jobs h l f stage s = refl

commit-jobs :
    (h : Value → String) (l : Limits) (k : MissionKey) (count : ℕ) (checksum : String) (s t : State)
    → IsState l s
    → commit h l k count checksum s ≡ ok t
    → jobs t ≡ jobs s ++ mission_jobs h k (get k s.staged)
unfolding jobs
commit-jobs h l k count checksum s t v e =
    let (m, items, s', found, counted, all, sum, queued, q) =
      commit_cases h l k count checksum s t e in
    let w = enqueue-jobs l _ s s' v queued in ground (arith, found, all, q, w)

apply_on-jobs :
    (h : Value → String) (kind : MessageType) (l : Limits) (f : Frame) (s t : State)
    (stage : String)
    → IsState l s
    → apply_on h kind l f s ≡ ok (t, stage)
    → jobs t ≡ jobs s ++ job_of_frame h kind s f
unfolding apply_on job_of_frame
apply_on-jobs h command l f s t stage v e =
    let (t', a, q) = bind_ok (enqueue l (command_record f) s) _ e in
    let w = enqueue-jobs l _ s t' v a in cc
apply_on-jobs h mission_begin l f s t stage v e =
    let (id, a, e₁) = bind_ok (str_field "mission_id" f.payload) _ e in
    let (count, b, e₂) = bind_ok (nat_field "item_count" f.payload) _ e₁ in
    let (t', c, q) = bind_ok (begin l _ s) _ e₂ in
    let w = begin-jobs l _ s t' c in let n = append-nil (jobs s) in cc
apply_on-jobs h mission_item l f s t stage v e =
    let (id, a, e₁) = bind_ok (str_field "mission_id" f.payload) _ e in
    let (index, b, e₂) = bind_ok (nat_field "index" f.payload) _ e₁ in
    let (t', c, q) = bind_ok (add_item (f.command_id, id) index f.payload s) _ e₂ in
    let w = add_item-jobs _ index f.payload s t' c in let n = append-nil (jobs s) in cc
apply_on-jobs h mission_commit l f s t stage v e =
    let (id, a, e₁) = bind_ok (str_field "mission_id" f.payload) _ e in
    let (count, b, e₂) = bind_ok (nat_field "item_count" f.payload) _ e₁ in
    let sum = text_of (field "checksum" f.payload) in
    let (t', c, q) = bind_ok (commit h l (f.command_id, id) count sum s) _ e₂ in
    let w = commit-jobs h l _ count sum s t' v c in rw (job_of_frame, a) (cc)
apply_on-jobs h _ l f s t stage v e = absurd (cc)

-- What a call adds to the jobs, by its answer.
unfoldable pub added : (Value → String) → Call → Inbox → List Job
added h (accepts saving f) b = elim (accept h saving b f).0 [
  | err x ↦ []
  | ok r ↦ if r.duplicate then [] else job_of_frame h f.message_type b.state f
]
added h (completes saving) b = []
added h (finishes saving stage detail extra) b = []

abbrev pub active_job : State → List Job
active_job s = elim s.active [ none ↦ [] | some j ↦ j ∷ [] ]

-- The job that a call ends: `complete_active` moves on even where its save raises.
unfoldable pub ended : Call → Inbox → List Job
ended (accepts saving f) b = []
ended (completes saving) b = active_job b.state
ended (finishes saving stage detail extra) b = elim (finish_active saving stage detail extra b).0 [
  | err x ↦ []
  | ok result ↦ active_job b.state
]

accept-jobs :
    (h : Value → String) (saving : Saving) (f : Frame) (b : Inbox)
    → IsInbox b
    → jobs (accept h saving b f).1.state ≡ jobs b.state ++ added h (accepts saving f) b
unfolding added
accept-jobs h saving f b v =
    let n = append-nil (jobs b.state) in
    elim (accept_cases h saving b f) [
      | inl (x, r) ↦ rw (added, r) (sym n)
      | inr (inl (a, found, same, r)) ↦ rw (added, r) (sym n)
      | inr (inr (new, q)) ↦ elim (accept_new_cases h saving b f) [
        | inl (x, r) ↦ rw (added, q, r) (sym n)
        | inr (s, stage, applied, inl (x, r)) ↦ rw (added, q, r) (sym n)
        | inr (s, stage, applied, inr r) ↦
            rw (added, q, r)
              (remember-jobs h b.limits f stage s
                ∙ apply_on-jobs h f.message_type b.limits f b.state s stage v.state_ok applied)
      ]
    ]

pub next_active-jobs :
    (l : Limits) (s : State) → IsState l s → jobs s ≡ active_job s ++ jobs (next_active s)
unfolding jobs next_active
next_active-jobs l s v = go s.queue refl
  where
    go : (q : List Job) → s.queue ≡ q → jobs s ≡ active_job s ++ jobs (next_active s)
    go [] e = elim (Option-cases s.active) [
      | inl idle ↦ ground arith
      | inr (j, busy) ↦ ground arith
    ]
    go (w ∷ ws) e = elim (Option-cases s.active) [
      | inl idle ↦ let n = v.busy idle in absurd (cc)
      | inr (j, busy) ↦ ground arith
    ]

pub finished-jobs :
    (l : Limits) (result : Outcome) (s : State) → jobs (finished l result s) ≡ jobs (next_active s)
unfolding jobs
finished-jobs l result s = refl

complete-jobs :
    (saving : Saving) (b : Inbox)
    → IsInbox b
    → jobs b.state ≡ active_job b.state ++ jobs (complete_active saving b).1.state
complete-jobs saving b v = elim (complete_cases saving b) [
  | inl (idle, r) ↦ rw (r, idle) refl
  | inr (j, busy, r) ↦ rw r (next_active-jobs b.limits b.state v.state_ok)
]

finish-jobs :
    (saving : Saving) (stage detail : String) (extra : Fields) (b : Inbox)
    → IsInbox b
    → jobs b.state
      ≡ ended (finishes saving stage detail extra) b
        ++ jobs (finish_active saving stage detail extra b).1.state
unfolding ended
finish-jobs saving stage detail extra b v = elim (finish_cases saving stage detail extra b) [
  | inl (idle, r) ↦ rw (ended, r) refl
  | inr (j, busy, inl (x, r)) ↦ rw (ended, r) refl
  | inr (j, busy, inr (inl (x, r))) ↦ rw (ended, r) refl
  | inr (j, busy, inr (inr r)) ↦
      rw (ended, r)
        (next_active-jobs b.limits b.state v.state_ok
          ∙ ap (λ js. active_job b.state ++ js) (sym (finished-jobs b.limits _ b.state)))
]

-- One call: what waits before it and what it adds is what it ends and what waits after it.
after-jobs :
    (h : Value → String) (c : Call) (b : Inbox)
    → IsInbox b
    → jobs b.state ++ added h c b ≡ ended c b ++ jobs (after h c b).state
unfolding added ended after
after-jobs h (accepts saving f) b v = sym (accept-jobs h saving f b v)
after-jobs h (completes saving) b v = append-nil (jobs b.state) ∙ complete-jobs saving b v
after-jobs h (finishes saving stage detail extra) b v =
    append-nil (jobs b.state) ∙ finish-jobs saving stage detail extra b v

unfoldable pub added_all : (Value → String) → List Call → Inbox → List Job
unfolding added after
added_all h [] b = []
added_all h (c ∷ cs) b = added h c b ++ added_all h cs (after h c b)

unfoldable pub ended_all : (Value → String) → List Call → Inbox → List Job
unfolding ended after
ended_all h [] b = []
ended_all h (c ∷ cs) b = ended c b ++ ended_all h cs (after h c b)

-- Over any calls on an inbox that keeps its limits, with saves that end in any way: the jobs that
-- were there, followed by those of the frames that were accepted, in order, are the jobs that
-- ended, in order, followed by those that are left. So the jobs are executed first in, first out,
-- none is lost and none is made twice.
pub fifo :
    (h : Value → String) (cs : List Call) (b : Inbox)
    → IsInbox b
    → jobs b.state ++ added_all h cs b ≡ ended_all h cs b ++ jobs (after_all h cs b).state
unfolding added_all ended_all after_all
fifo h [] b v = append-nil (jobs b.state)
fifo h (c ∷ cs) b v =
    let js = jobs b.state in
    let more = added_all h cs (after h c b) in
    let gone = ended_all h cs (after h c b) in
    let ih = fifo h cs (after h c b) (after-IsInbox h c b v) in
    sym (append_assoc js (added h c b) more)
    ∙ ap (λ z. z ++ more) (after-jobs h c b v)
    ∙ append_assoc (ended c b) (jobs (after h c b).state) more
    ∙ ap (λ z. ended c b ++ z) ih
    ∙ sym (append_assoc (ended c b) gone (jobs (after_all h cs (after h c b)).state))
