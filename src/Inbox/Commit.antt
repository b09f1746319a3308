-- ===== src/Inbox/Commit.antt =====
-- The commit of a staged mission (`_commit`, aircraft_agent/inbox.py): which items become the job.
use low_altitude_io_t_system.Common.{
  List, Option-cases, Result-cases, String, [], ap, arith, beq_refl, if◌then◌else◌, inl, inr,
  length, list_eq, nat_eq, none, not, ok, pair_eq, refl, some, string_eq, subst, suc, sym, take,
  true, zero, ℕ, ◌&&◌, ◌++◌, ◌+◌, ◌<◌, ◌==◌, ◌∙◌, ◌∷◌, ◌≡◌, ◌≢◌, ◌⊎◌,
}
use low_altitude_io_t_system.Common.Dict.{Dict, delete, get, get-delete, has_key}
use low_altitude_io_t_system.Common.Value.{Fields, Value, arr}
use low_altitude_io_t_system.Transport.Receiver.{MissionKey, missing_from, resume}
use low_altitude_io_t_system.Inbox.{
  Job, Limits, Staged, State, as_items, commit, enqueue, first_text, items_from, mission_job,
}
use low_altitude_io_t_system.Inbox.Ends.{commit_cases}
use low_altitude_io_t_system.Inbox.Bounds.{IsState}
use low_altitude_io_t_system.Inbox.Jobs.{enqueue-jobs, jobs}
use text.Mathlib.TextEquality.{eq_iff}

-- The items stand in the dict at `i`, `i + 1`, … in this order.
abbrev pub StoredFrom : ℕ → List Fields → Dict ℕ Fields → Type 0
StoredFrom i [] d = Unit {0}
StoredFrom i (x ∷ xs) d = (get i d ≡ some x) × StoredFrom (i + 1) xs d

items_from-StoredFrom :
    (i n : ℕ) (d : Dict ℕ Fields) (items : List Fields)
    → items_from i n d ≡ ok items
    → (length items ≡ n) × StoredFrom i items d
unfolding items_from
items_from-StoredFrom i zero d items e =
    let q : items ≡ [] = ground arith in
    subst (λ z. (length z ≡ 0) × StoredFrom i z d) (sym q) (refl, tt)
items_from-StoredFrom i (suc n) d items e = elim (Option-cases (get i d)) [
  | inl gone ↦ absurd (ground arith)
  | inr (v, here) ↦ elim (Result-cases (items_from (i + 1) n d)) [
    | inr (x, stuck) ↦ absurd (ground arith)
    | inl (rest, more) ↦
        let ih = items_from-StoredFrom (i + 1) n d rest more in
        let q : items ≡ v ∷ rest = ground arith in
        subst (λ z. (length z ≡ suc n) × StoredFrom i z d) (sym q)
          (omega (arith, ih.0), (here, ih.1))
  ]
]

items_from-missing_from :
    (i n : ℕ) (d : Dict ℕ Fields) (items : List Fields)
    → items_from i n d ≡ ok items
    → missing_from i n d ≡ []
unfolding items_from missing_from has_key
items_from-missing_from i zero d items e = refl
items_from-missing_from i (suc n) d items e = elim (Option-cases (get i d)) [
  | inl gone ↦ absurd (ground arith)
  | inr (v, here) ↦ elim (Result-cases (items_from (i + 1) n d)) [
    | inr (x, stuck) ↦ absurd (ground arith)
    | inl (rest, more) ↦ let ih = items_from-missing_from (i + 1) n d rest more in ground arith
  ]
]

jobs-staged : (s : State) (d : Dict MissionKey Staged) → jobs (record s { staged = d }) ≡ jobs s
unfolding jobs
jobs-staged s d = refl

-- A commit that is accepted: the mission was staged with the count that the commit names, and
-- behind the jobs that wait stands one more, whose items are the staged items at 0, 1, … in this
-- order, one for each index below the count. Their hash is the checksum that the commit names,
-- or the one that the mission began with if it names none. The mission is staged no longer.
pub commit_complete :
    (h : Value → String) (l : Limits) (k : MissionKey) (count : ℕ) (checksum : String) (s t : State)
    → IsState l s
    → commit h l k count checksum s ≡ ok t
    → (m : Staged) × (items : List Fields) × (get k s.staged ≡ some m)
      × (m.item_count ≡ count)
      × (length items ≡ count)
      × StoredFrom 0 items m.items
      × (h (arr (as_items items)) ≡ first_text checksum m.checksum)
      × (jobs t
          ≡ jobs s ++ (mission_job k.0 k.1 items (h (arr (as_items items))) "MISSION_STAGED" ∷ []))
      × (get k t.staged ≡ none)
commit_complete h l k count checksum s t v e =
    let (m, items, s', found, counted, all, sum, queued, q) =
      commit_cases h l k count checksum s t e in
    let (long, each) = items_from-StoredFrom 0 m.item_count m.items items all in
    (
      m,
      items,
      found,
      sym counted,
      long ∙ sym counted,
      each,
      sum,
      ap jobs q ∙ jobs-staged s' (delete k s'.staged) ∙ enqueue-jobs l _ s s' v queued,
      ap (λ z. get k z.staged) q
          ∙ get-delete k k s'.staged
          ∙ ap (λ z. if z then none else get k s'.staged) (beq_refl k),
    )

enqueue-room :
    (l : Limits) (j : Job) (s : State)
    → (s.active ≡ none) ⊎ (length s.queue < l.max_queue)
    → (t : State) × (enqueue l j s ≡ ok t)
unfolding enqueue
enqueue-room l j s room = elim (Option-cases s.active) [
  | inl idle ↦ (record s { active = some j }, ground arith)
  | inr (running, busy) ↦ (record s { queue = s.queue ++ (j ∷ []) }, ground arith)
]

take-empty : (n : ℕ) → take {A = ℕ} n [] ≡ []
take-empty zero = refl
take-empty (suc n) = refl

sum_test :
    (sum expected : String)
    → sum ≡ expected
    → expected ≢ ""
    → (not (expected == "") && sum == expected) ≡ true
sum_test sum expected e n = ground (arith, eq_iff sum expected, eq_iff expected "")

-- A commit succeeds where the mission is staged with the count that it names, an item is stored
-- for each index below the count, their hash is the checksum that is expected, which is not
-- empty, and the new job finds room: no job is active, or the queue is not full.
pub commit_accepts :
    (h : Value → String) (l : Limits) (k : MissionKey) (checksum : String) (s : State) (m : Staged)
    (items : List Fields)
    → get k s.staged ≡ some m
    → items_from 0 m.item_count m.items ≡ ok items
    → h (arr (as_items items)) ≡ first_text checksum m.checksum
    → first_text checksum m.checksum ≢ ""
    → (s.active ≡ none) ⊎ (length s.queue < l.max_queue)
    → (t : State) × (commit h l k m.item_count checksum s ≡ ok t)
unfolding commit resume
commit_accepts h l k checksum s m items found all sum given room =
    let job = mission_job k.0 k.1 items (h (arr (as_items items))) "MISSION_STAGED" in
    let (s', queued) = enqueue-room l job s room in
    let none_missing = items_from-missing_from 0 m.item_count m.items items all in
    let few = take-empty l.max_resume_items in
    let counts = beq_refl m.item_count in
    let sums = sum_test (h (arr (as_items items))) (first_text checksum m.checksum) sum given in
    (
      record s' { staged = delete k s'.staged },
      rw (commit, found, counts, none_missing, few, all, sums, queued) refl,
    )
