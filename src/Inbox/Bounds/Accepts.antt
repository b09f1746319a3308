-- ===== src/Inbox/Bounds/Accepts.antt =====
-- The limits of the inbox (aircraft_agent/inbox.py), kept by `accept` and its parts.
use low_altitude_io_t_system.Common.{
  Option-cases, String, [], arith, bind_ok, inl, inr, length, length-append, length-take_last-le,
  list_eq, nat_eq, none, ok, pair_eq, string_eq, subst, sym, ℕ, ◌∷◌, ◌≡◌, ◌≤◌,
}
use low_altitude_io_t_system.Common.Dict.{get, length-delete, length-put, length-put_old, put}
use low_altitude_io_t_system.Common.Value.{Fields, Value, field, nat_field, str_field}
use low_altitude_io_t_system.Frame.{
  Frame, MessageType, command, mission_begin, mission_commit, mission_item,
}
use low_altitude_io_t_system.Messages.{checksum}
use low_altitude_io_t_system.Inbox.{
  Inbox, Job, Limits, MissionKey, Saving, Staged, State, accept, accept_new, add_item, apply_on,
  begin, command_record, commit, enqueue, remember, text_of,
}
use low_altitude_io_t_system.Inbox.Ends.{accept_cases, accept_new_cases, commit_cases}

pub record IsState (l : Limits) (s : State) : Type 0 where
  pub queue_le : length s.queue ≤ l.max_queue
  pub staged_le : length s.staged ≤ l.max_staged
  pub seen_le : length s.seen ≤ l.max_history
  pub results_le : length s.results ≤ l.max_results
  pub busy : s.active ≡ none → s.queue ≡ []

-- Both the state in memory and what the store would load keep the limits.
pub record IsInbox (b : Inbox) : Type 0 where
  pub state_ok : IsState b.limits b.state
  pub disk_ok : IsState b.limits b.disk

enqueue-IsState :
    (l : Limits) (j : Job) (s t : State) → IsState l s → enqueue l j s ≡ ok t → IsState l t
unfolding enqueue
enqueue-IsState l j s t v e = ground (
  arith,
  v.queue_le,
  v.staged_le,
  v.seen_le,
  v.results_le,
  v.busy,
  length-append s.queue (j ∷ []),
)

begin-IsState :
    (l : Limits) (m : Staged) (s t : State) → IsState l s → begin l m s ≡ ok t → IsState l t
unfolding begin
begin-IsState l m s t v e = ground (
  arith,
  v.queue_le,
  v.staged_le,
  v.seen_le,
  v.results_le,
  v.busy,
  length-put (m.command_id, m.mission_id) m s.staged,
)

add_item-IsState :
    (l : Limits) (k : MissionKey) (i : ℕ) (p : Fields) (s t : State)
    → IsState l s
    → add_item k i p s ≡ ok t
    → IsState l t
unfolding add_item
add_item-IsState l k i p s t v e = elim (Option-cases (get k s.staged)) [
  | inl missing ↦ absurd (ground arith)
  | inr (m, found) ↦ ground (
    arith,
    v.queue_le,
    v.staged_le,
    v.seen_le,
    v.results_le,
    v.busy,
    length-put_old k (record m { items = put i p m.items }) s.staged (λ n. cc (n, found)),
  )
]

module _ (sha256_json : Value → String) where
  commit-IsState :
      (l : Limits) (k : MissionKey) (count : ℕ) (checksum : String) (s t : State)
      → IsState l s
      → commit sha256_json l k count checksum s ≡ ok t
      → IsState l t
  commit-IsState l k count checksum s t v e =
      let (m, items, s', found, counted, all, sum, queued, q) =
        commit_cases sha256_json l k count checksum s t e in
      let v' = enqueue-IsState l _ s s' v queued in
      rw q (record {
        queue_le = v'.queue_le;
        staged_le = omega (arith, length-delete k s'.staged, v'.staged_le);
        seen_le = v'.seen_le;
        results_le = v'.results_le;
        busy = v'.busy;
      })

  apply_on-IsState :
      (kind : MessageType) (l : Limits) (f : Frame) (s t : State) (stage : String)
      → IsState l s
      → apply_on sha256_json kind l f s ≡ ok (t, stage)
      → IsState l t
  unfolding apply_on
  apply_on-IsState command l f s t stage v e =
      let (t', a, q) = bind_ok (enqueue l (command_record f) s) _ e in
      subst (IsState l) (cc q) (enqueue-IsState l _ s t' v a)
  apply_on-IsState mission_begin l f s t stage v e =
      let (id, a, e₁) = bind_ok (str_field "mission_id" f.payload) _ e in
      let (count, b, e₂) = bind_ok (nat_field "item_count" f.payload) _ e₁ in
      let (t', c, q) = bind_ok (begin l _ s) _ e₂ in
      subst (IsState l) (cc q) (begin-IsState l _ s t' v c)
  apply_on-IsState mission_item l f s t stage v e =
      let (id, a, e₁) = bind_ok (str_field "mission_id" f.payload) _ e in
      let (index, b, e₂) = bind_ok (nat_field "index" f.payload) _ e₁ in
      let (t', c, q) = bind_ok (add_item (f.command_id, id) index f.payload s) _ e₂ in
      subst (IsState l) (cc q) (add_item-IsState l _ index f.payload s t' v c)
  apply_on-IsState mission_commit l f s t stage v e =
      let (id, a, e₁) = bind_ok (str_field "mission_id" f.payload) _ e in
      let (count, b, e₂) = bind_ok (nat_field "item_count" f.payload) _ e₁ in
      let (t', c, q) =
        bind_ok
          (commit sha256_json l (f.command_id, id) count (text_of (field "checksum" f.payload)) s) _
          e₂ in
      subst (IsState l) (cc q)
        (commit-IsState l _ count (text_of (field "checksum" f.payload)) s t' v c)
  apply_on-IsState _ l f s t stage v e = absurd (cc)

  remember-IsState :
      (l : Limits) (f : Frame) (stage : String) (s : State)
      → IsState l s
      → IsState l (remember sha256_json l f stage s)
  unfolding remember
  remember-IsState l f stage s v = record {
    queue_le = v.queue_le;
    staged_le = v.staged_le;
    seen_le = length-take_last-le l.max_history _;
    results_le = v.results_le;
    busy = v.busy;
  }

  accept_new-IsInbox :
      (saving : Saving) (b : Inbox) (f : Frame)
      → IsInbox b
      → IsInbox (accept_new sha256_json saving b f).1
  accept_new-IsInbox saving b f v = elim (accept_new_cases sha256_json saving b f) [
    | inl (x, r) ↦ subst (λ z. IsInbox z.1) (sym r) v
    | inr (s, stage, applied, ends) ↦
        let v' =
          remember-IsState b.limits f stage s
            (apply_on-IsState f.message_type b.limits f b.state s stage v.state_ok applied) in
        elim ends [
          | inl (x, r) ↦
              subst (λ z. IsInbox z.1) (sym r) (record { state_ok = v.state_ok; disk_ok = v' })
          | inr r ↦ subst (λ z. IsInbox z.1) (sym r) (record { state_ok = v'; disk_ok = v' })
        ]
  ]

  pub accept-IsInbox :
      (saving : Saving) (b : Inbox) (f : Frame)
      → IsInbox b
      → IsInbox (accept sha256_json saving b f).1
  accept-IsInbox saving b f v = elim (accept_cases sha256_json saving b f) [
    | inl (x, r) ↦ subst (λ z. IsInbox z.1) (sym r) v
    | inr (inl (a, found, same, r)) ↦ subst (λ z. IsInbox z.1) (sym r) v
    | inr (inr (new, r)) ↦ subst (λ z. IsInbox z.1) (sym r) (accept_new-IsInbox saving b f v)
  ]
