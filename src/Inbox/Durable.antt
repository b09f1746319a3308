-- ===== src/Inbox/Durable.antt =====
-- What an answer of `accept` (aircraft_agent/inbox.py) promises: the state that it speaks of is on
-- disk, and the same frame gets the same answer again.
use low_altitude_io_t_system.Common.{
  Bool-cases, Error, List, Option-cases, String, [], ap, arith, beq_refl, bind_ok, drop, err, false,
  if◌then◌else◌, inl, inr, length, length-append, list_eq, nat_eq, none, ok, pair_eq, refl,
  rejected, some, string_eq, suc, sym, take_last, true, zero, ℕ, ◌++◌, ◌-◌, ◌==◌, ◌∙◌, ◌∷◌, ◌≡◌,
  ◌≤◌, ◌⊎◌,
}
use low_altitude_io_t_system.Common.Dict.{get}
use low_altitude_io_t_system.Frame.{
  Frame, MessageType, command, mission_begin, mission_commit, mission_item,
}
use low_altitude_io_t_system.Messages.{validate_payload}
use low_altitude_io_t_system.Transport.Sender.{Identity, identity}
use low_altitude_io_t_system.Inbox.{
  Accepted, Inbox, InboxResult, Job, Limits, MissionKey, Saving, Staged, State, accept, add_item,
  apply_on, begin, command_record, commit, enqueue, find_accepted, fingerprint, remember, text_of,
}
use low_altitude_io_t_system.Inbox.Ends.{accept_cases, accept_new_cases, commit_cases}
use low_altitude_io_t_system.Common.Value.{Fields, Value, field, nat_field, str_field}

find-drop-none :
    (id : Identity) (k : ℕ) (xs : List Accepted)
    → find_accepted id xs ≡ none
    → find_accepted id (drop k xs) ≡ none
unfolding find_accepted
find-drop-none id zero xs h = h
find-drop-none id (suc k) [] h = refl
find-drop-none id (suc k) (x ∷ xs) h = find-drop-none id k xs (ground arith)

-- An entry that was just appended is found, where at least one entry stays.
find-drop_appended :
    (id : Identity) (a : Accepted) (k : ℕ) (xs : List Accepted)
    → k ≤ length xs
    → (a.id == id) ≡ true
    → find_accepted id xs ≡ none
    → find_accepted id (drop k (xs ++ (a ∷ []))) ≡ some a
unfolding find_accepted
find-drop_appended id a zero [] le same h = ground arith
find-drop_appended id a zero (x ∷ xs) le same h =
    let ih = find-drop_appended id a zero xs (omega arith) same (ground arith) in ground (arith, ih)
find-drop_appended id a (suc k) [] le same h = absurd (omega arith)
find-drop_appended id a (suc k) (x ∷ xs) le same h =
    find-drop_appended id a k xs (omega arith) same (ground arith)

find-take_appended :
    (id : Identity) (a : Accepted) (n : ℕ) (xs : List Accepted)
    → 1 ≤ n
    → (a.id == id) ≡ true
    → find_accepted id xs ≡ none
    → find_accepted id (take_last n (xs ++ (a ∷ []))) ≡ some a
find-take_appended id a n xs pos same h =
    find-drop_appended id a (length (xs ++ (a ∷ [])) - n) xs
      (omega (arith, length-append xs (a ∷ []))) same h

module _ (h : Value → String) where
  -- Where `accept` raises, the inbox answers as before the call: the state is the old one.
  pub accept_refused :
      (saving : Saving) (b b' : Inbox) (f : Frame) (x : Error)
      → accept h saving b f ≡ (err x, b')
      → b'.state ≡ b.state
  accept_refused saving b b' f x e = elim (accept_cases h saving b f) [
    | inl (y, r) ↦ cc
    | inr (inl (a, found, same, r)) ↦ absurd (cc)
    | inr (inr (new, r)) ↦ elim (accept_new_cases h saving b f) [
      | inl (y, q) ↦ cc
      | inr (s, stage, applied, inl (y, q)) ↦ cc
      | inr (s, stage, applied, inr q) ↦ absurd (cc)
    ]
  ]

  -- A frame is acknowledged with its own sequence number, either as a duplicate, which changes
  -- nothing, or once the new state is what the store would load.
  pub acknowledged_durable :
      (saving : Saving) (b b' : Inbox) (f : Frame) (r : InboxResult)
      → accept h saving b f ≡ (ok r, b')
      → (r.acked_sequence ≡ f.sequence)
        × (((r.duplicate ≡ true) × (b' ≡ b)) ⊎ ((r.duplicate ≡ false) × (b'.disk ≡ b'.state)))
  acknowledged_durable saving b b' f r e = elim (accept_cases h saving b f) [
    | inl (y, q) ↦ absurd (cc)
    | inr (inl (a, found, same, q)) ↦ (cc, inl (cc, cc))
    | inr (inr (new, q₀)) ↦ elim (accept_new_cases h saving b f) [
      | inl (y, q) ↦ absurd (cc)
      | inr (s, stage, applied, inl (y, q)) ↦ absurd (cc)
      | inr (s, stage, applied, inr q) ↦ (cc, inr (cc, cc))
    ]
  ]

  enqueue-seen : (l : Limits) (j : Job) (s t : State) → enqueue l j s ≡ ok t → t.seen ≡ s.seen
  unfolding enqueue
  enqueue-seen l j s t e = ground arith

  begin-seen : (l : Limits) (m : Staged) (s t : State) → begin l m s ≡ ok t → t.seen ≡ s.seen
  unfolding begin
  begin-seen l m s t e = ground arith

  add_item-seen :
      (k : MissionKey) (i : ℕ) (p : Fields) (s t : State)
      → add_item k i p s ≡ ok t
      → t.seen ≡ s.seen
  unfolding add_item
  add_item-seen k i p s t e = elim (Option-cases (get k s.staged)) [
    | inl missing ↦ absurd (ground arith)
    | inr (m, found) ↦ ground arith
  ]

  apply_on-seen :
      (kind : MessageType) (l : Limits) (f : Frame) (s t : State) (stage : String)
      → apply_on h kind l f s ≡ ok (t, stage)
      → t.seen ≡ s.seen
  unfolding apply_on
  apply_on-seen command l f s t stage e =
      let (t', a, q) = bind_ok (enqueue l (command_record f) s) _ e in
      let w = enqueue-seen l _ s t' a in cc
  apply_on-seen mission_begin l f s t stage e =
      let (id, a, e₁) = bind_ok (str_field "mission_id" f.payload) _ e in
      let (count, b, e₂) = bind_ok (nat_field "item_count" f.payload) _ e₁ in
      let (t', c, q) = bind_ok (begin l _ s) _ e₂ in let w = begin-seen l _ s t' c in cc
  apply_on-seen mission_item l f s t stage e =
      let (id, a, e₁) = bind_ok (str_field "mission_id" f.payload) _ e in
      let (index, b, e₂) = bind_ok (nat_field "index" f.payload) _ e₁ in
      let (t', c, q) = bind_ok (add_item (f.command_id, id) index f.payload s) _ e₂ in
      let w = add_item-seen _ index f.payload s t' c in cc
  apply_on-seen mission_commit l f s t stage e =
      let (id, a, e₁) = bind_ok (str_field "mission_id" f.payload) _ e in
      let (count, b, e₂) = bind_ok (nat_field "item_count" f.payload) _ e₁ in
      let sum = text_of (field "checksum" f.payload) in
      let (t', c, q) = bind_ok (commit h l (f.command_id, id) count sum s) _ e₂ in
      let (m, items, s', found, counted, all, same, queued, p) =
        commit_cases h l _ count sum s t' c in
      let w = enqueue-seen l _ s s' queued in cc
  apply_on-seen _ l f s t stage e = absurd (cc)

  -- What was just accepted stands in the history, with the answer that was given.
  accept_stored :
      (saving : Saving) (b b' : Inbox) (f : Frame) (r : InboxResult)
      → 1 ≤ b.limits.max_history
      → accept h saving b f ≡ (ok r, b')
      → (a : Accepted) × (find_accepted (identity f) b'.state.seen ≡ some a)
        × (a.fingerprint ≡ fingerprint h f)
        × (a.stage ≡ r.stage)
  unfolding remember
  accept_stored saving b b' f r pos e = elim (accept_cases h saving b f) [
    | inl (y, q) ↦ absurd (cc)
    | inr (inl (a, found, same, q)) ↦ (a, cc, same, cc)
    | inr (inr (new, q₀)) ↦ elim (accept_new_cases h saving b f) [
      | inl (y, q) ↦ absurd (cc)
      | inr (s, stage, applied, inl (y, q)) ↦ absurd (cc)
      | inr (s, stage, applied, inr q) ↦
          let a : Accepted = record {
            id = identity f;
            fingerprint = fingerprint h f;
            stage = stage;
          } in
          let kept : s.seen ≡ b.state.seen =
            apply_on-seen f.message_type b.limits f b.state s stage applied in
          let found =
            find-take_appended (identity f) a b.limits.max_history s.seen pos
              (beq_refl (identity f)) (cc (kept, new)) in
          let q' : (ok r, b') ≡ _ = sym e ∙ q₀ ∙ q in
          (a, ap (λ z. find_accepted (identity f) z.1.state.seen) q' ∙ found, refl, cc)
    ]
  ]

  -- After `accept` has acknowledged a frame, a frame with a valid payload and the same command id
  -- and sequence changes nothing: with the same fingerprint it is acknowledged again with the
  -- stage of the first, as a duplicate, and with another it is refused as a conflict. At least
  -- one entry of history is kept.
  pub accept_again :
      (saving saving' : Saving) (b b' : Inbox) (f g : Frame) (r : InboxResult)
      → 1 ≤ b.limits.max_history
      → accept h saving b f ≡ (ok r, b')
      → identity g ≡ identity f
      → validate_payload g.message_type g.payload ≡ ok tt
      → accept h saving' b' g ≡ (
        (if fingerprint h f == fingerprint h g
            then ok (record { acked_sequence = g.sequence; stage = r.stage; duplicate = true })
            else err (rejected "duplicate_conflict")),
        b',
      )
  unfolding accept
  accept_again saving saving' b b' f g r pos e same valid =
      let (a, found, print, stage) = accept_stored saving b b' f r pos e in
      let found' : find_accepted (identity g) b'.state.seen ≡ some a = cc in
      elim (Bool-cases (fingerprint h f == fingerprint h g)) [
        | inl agree ↦ ground (arith, valid, found', print, stage)
        | inr differ ↦ ground (arith, valid, found', print, stage)
      ]
