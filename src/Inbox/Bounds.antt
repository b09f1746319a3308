-- ===== src/Inbox/Bounds.antt =====
-- The limits of the inbox (aircraft_agent/inbox.py), and that no job waits while none is active.
use low_altitude_io_t_system.Common.{
  Bool-cases, Eq, List, String, [], ap, arith, inl, inr, length, length-take_last-le, list_eq,
  nat_eq, none, ok, pair_eq, refl, string_eq, subst, sym, ◌∙◌, ◌∷◌, ◌≡◌, ◌≢◌, ◌≤◌,
}
use low_altitude_io_t_system.Common.Value.{Fields, Value}
use low_altitude_io_t_system.Frame.{Frame}
use low_altitude_io_t_system.Inbox.{
  Inbox, Job, Limits, Outcome, Saving, State, accept, complete_active, finish_active, lost,
  next_active, open_inbox, pop_first, replaced, save, written,
}
use low_altitude_io_t_system.Inbox.Ends.{
  accept_cases, accept_new_cases, complete_cases, finish_cases, finished, outcome_of,
}
mod Accepts
pub use Accepts.*

next_active-IsState : (l : Limits) (s : State) → IsState l s → IsState l (next_active s)
unfolding next_active
next_active-IsState l s v = record {
  queue_le = pop_le s.queue v.queue_le;
  staged_le = v.staged_le;
  seen_le = v.seen_le;
  results_le = v.results_le;
  busy = pop_busy s.queue;
}
  where
    pop_le : (js : List Job) → length js ≤ l.max_queue → length (pop_first js).1 ≤ l.max_queue
    pop_le [] h = h
    pop_le (j ∷ js) h = omega (arith, h)

    pop_busy : (js : List Job) → (pop_first js).0 ≡ none → (pop_first js).1 ≡ []
    pop_busy [] h = refl
    pop_busy (j ∷ js) h = absurd (ground arith)

pub finished-IsState :
    (l : Limits) (result : Outcome) (s : State) → IsState l s → IsState l (finished l result s)
finished-IsState l result s v =
    let v' = next_active-IsState l s v in
    record {
      queue_le = v'.queue_le;
      staged_le = v'.staged_le;
      seen_le = v'.seen_le;
      results_le = length-take_last-le l.max_results _;
      busy = v'.busy;
    }

save-IsInbox :
    (saving : Saving) (b : Inbox) (s t : State)
    → IsInbox b
    → IsState b.limits s
    → IsState b.limits t
    → IsInbox (record b { state = t; disk = (save saving b.disk s).1 })
unfolding save
save-IsInbox written b s t v vs vt = record { state_ok = vt; disk_ok = vs }
save-IsInbox (lost x) b s t v vs vt = record { state_ok = vt; disk_ok = v.disk_ok }
save-IsInbox (replaced x) b s t v vs vt = record { state_ok = vt; disk_ok = vs }

complete_active-IsInbox :
    (saving : Saving) (b : Inbox) → IsInbox b → IsInbox (complete_active saving b).1
unfolding complete_active
complete_active-IsInbox saving b v = elim (complete_cases saving b) [
  | inl (idle, r) ↦ subst (λ z. IsInbox z.1) (sym r) v
  | inr (j, busy, r) ↦
      let v' = next_active-IsState b.limits b.state v.state_ok in
      subst (λ z. IsInbox z.1) (sym r)
        (save-IsInbox saving b (next_active b.state) (next_active b.state) v v' v')
]

pub finish_active-IsInbox :
    (saving : Saving) (stage detail : String) (extra : Fields) (b : Inbox)
    → IsInbox b
    → IsInbox (finish_active saving stage detail extra b).1
finish_active-IsInbox saving stage detail extra b v =
    elim (finish_cases saving stage detail extra b) [
      | inl (idle, r) ↦ subst (λ z. IsInbox z.1) (sym r) v
      | inr (j, busy, ends) ↦
          let v' = finished-IsState b.limits (outcome_of j stage detail extra) b.state v.state_ok in
          elim ends [
            | inl (x, r) ↦ subst (λ z. IsInbox z.1) (sym r) v
            | inr (inl (x, r)) ↦
                subst (λ z. IsInbox z.1) (sym r) (record { state_ok = v.state_ok; disk_ok = v' })
            | inr (inr r) ↦
                subst (λ z. IsInbox z.1) (sym r) (record { state_ok = v'; disk_ok = v' })
          ]
    ]

-- A call of the inbox, each with the way in which its save ends.
pub data Call : Type 0 where
  accepts : Saving → Frame → Call
  completes : Saving → Call
  finishes : Saving → (stage detail : String) → Fields → Call

unfoldable pub after : (Value → String) → Call → Inbox → Inbox
after h (accepts saving f) b = (accept h saving b f).1
after h (completes saving) b = (complete_active saving b).1
after h (finishes saving stage detail extra) b = (finish_active saving stage detail extra b).1

unfoldable pub after_all : (Value → String) → List Call → Inbox → Inbox
after_all h [] b = b
after_all h (c ∷ cs) b = after_all h cs (after h c b)

pub after-IsInbox : (h : Value → String) (c : Call) (b : Inbox) → IsInbox b → IsInbox (after h c b)
unfolding after
after-IsInbox h (accepts saving f) b v = accept-IsInbox h saving b f v
after-IsInbox h (completes saving) b v = complete_active-IsInbox saving b v
after-IsInbox h (finishes saving stage detail extra) b v =
    finish_active-IsInbox saving stage detail extra b v

-- Whatever calls are made on an inbox that keeps its limits, and however each save ends, the
-- state in memory and the state that the store would load keep the limits on the queue, the
-- staged missions, the history and the results, and no job waits while none is active.
pub after_all-IsInbox :
    (h : Value → String) (cs : List Call) (b : Inbox) → IsInbox b → IsInbox (after_all h cs b)
unfolding after_all
after_all-IsInbox h [] b v = v
after_all-IsInbox h (c ∷ cs) b v = after_all-IsInbox h cs (after h c b) (after-IsInbox h c b v)

opened-IsState :
    (l : Limits) (loaded : State) (b : Inbox)
    → open_inbox l loaded ≡ ok b
    → (loaded.active ≡ none → loaded.queue ≡ [])
    → IsState l loaded
unfolding open_inbox
opened-IsState l loaded b e busy = record {
  queue_le = ground arith;
  staged_le = ground arith;
  seen_le = ground arith;
  results_le = ground arith;
  busy = busy;
}

after-limits : (h : Value → String) (c : Call) (b : Inbox) → (after h c b).limits ≡ b.limits
unfolding after
after-limits h (accepts saving f) b = elim (accept_cases h saving b f) [
  | inl (x, r) ↦ ap (λ z. z.1.limits) r
  | inr (inl (a, found, same, r)) ↦ ap (λ z. z.1.limits) r
  | inr (inr (new, r)) ↦ elim (accept_new_cases h saving b f) [
    | inl (x, q) ↦ ap (λ z. z.1.limits) (r ∙ q)
    | inr (s, stage, applied, inl (x, q)) ↦ ap (λ z. z.1.limits) (r ∙ q)
    | inr (s, stage, applied, inr q) ↦ ap (λ z. z.1.limits) (r ∙ q)
  ]
]
after-limits h (completes saving) b = elim (complete_cases saving b) [
  | inl (idle, r) ↦ ap (λ z. z.1.limits) r
  | inr (j, busy, r) ↦ ap (λ z. z.1.limits) r
]
after-limits h (finishes saving stage detail extra) b =
    elim (finish_cases saving stage detail extra b) [
      | inl (idle, r) ↦ ap (λ z. z.1.limits) r
      | inr (j, busy, inl (x, r)) ↦ ap (λ z. z.1.limits) r
      | inr (j, busy, inr (inl (x, r))) ↦ ap (λ z. z.1.limits) r
      | inr (j, busy, inr (inr r)) ↦ ap (λ z. z.1.limits) r
    ]

after_all-limits :
    (h : Value → String) (cs : List Call) (b : Inbox) → (after_all h cs b).limits ≡ b.limits
unfolding after_all
after_all-limits h [] b = refl
after_all-limits h (c ∷ cs) b = after_all-limits h cs (after h c b) ∙ after-limits h c b

-- An inbox that was opened from what a store loaded, after any calls and saves that end in any
-- way, can be opened again from what the store would load then: no check of a persisted size
-- refuses it. It is assumed that no job waited while none was active.
pub reopens :
    (h : Value → String) (l : Limits) (loaded : State) (b : Inbox) (cs : List Call)
    → open_inbox l loaded ≡ ok b
    → (loaded.active ≡ none → loaded.queue ≡ [])
    → open_inbox l (after_all h cs b).disk
      ≡ ok (record { limits = l; state = (after_all h cs b).disk; disk = (after_all h cs b).disk })
unfolding open_inbox
reopens h l loaded b cs e busy =
    let v : IsState l loaded = opened-IsState l loaded b e busy in
    let q : b ≡ record { limits = l; state = loaded; disk = loaded } = ground arith in
    let w =
      after_all-IsInbox h cs b (subst IsInbox (sym q) (record { state_ok = v; disk_ok = v })) in
    let k : (after_all h cs b).limits ≡ l = after_all-limits h cs b ∙ ap (λ z. z.limits) q in
    let d = subst (λ z. IsState z (after_all h cs b).disk) k w.disk_ok in
    ground (arith, d.queue_le, d.staged_le, d.seen_le, d.results_le)
