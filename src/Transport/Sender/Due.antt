-- ===== src/Transport/Sender/Due.antt =====
-- What one call of `due` does to each pending frame.
use low_altitude_io_t_system.Common.{
  ℕ, ◌+◌, ◌≡◌, refl, ap, ◌∙◌, inl, inr, true, false, Option, none, some, Option-cases, Bool-cases,
  List, [], ◌∷◌, ◌++◌, leb, ltb, length, ◌==◌, string_eq, nat_eq, pair_eq, beq_refl, if◌then◌else◌,
  arith,
}
use low_altitude_io_t_system.Common.Dict.{
  Dict, get, get-put, get-delete, Unique, Unique-put, Unique-delete, get-cons_same, get-cons_other,
  get-cons_new,
}
use low_altitude_io_t_system.Frame.{Frame}
use low_altitude_io_t_system.Transport.Sender.{
  Identity, identity, Pending, Sender, due_step, due_loop,
}

pub same→eq : (i j : Identity) → (i == j) ≡ true → i ≡ j
same→eq i j h = (pair_eq.beq_iff i j).0 h

-- What becomes of one pending frame at the time `now`.
unfoldable pub advance : Sender → ℕ → Pending → Option Pending
advance s now p =
    if ltb now p.next_due
    then some p
    else if leb s.max_attempts p.attempts
    then none
    else some (record p { attempts = p.attempts + 1; next_due = now + s.retry_interval })

-- The frames that it puts on the wire.
unfoldable pub transmits : Sender → ℕ → Pending → List Frame
transmits s now p =
    if ltb now p.next_due then [] else if leb s.max_attempts p.attempts then [] else p.frame ∷ []

abbrev pub SameLimits : Sender → Sender → Type 0
SameLimits s t =
    (s.max_attempts ≡ t.max_attempts)
    × (s.retry_interval ≡ t.retry_interval)
    × (s.max_pending ≡ t.max_pending)

pub due_step-SameLimits :
    (now : ℕ) (i : Identity) (p : Pending) (s : Sender) → SameLimits (due_step now i p s).0 s
unfolding due_step
due_step-SameLimits now i p s = ground arith

due_step-get :
    (now : ℕ) (i j : Identity) (p : Pending) (s : Sender)
    → get i s.pending ≡ some p
    → get j (due_step now i p s).0.pending ≡ (if i == j then advance s now p else get j s.pending)
unfolding due_step advance
due_step-get now i j p s h =
    let again : Pending = record p {
      attempts = p.attempts + 1;
      next_due = now + s.retry_interval;
    } in
    let same : (i == j) ≡ true → get j s.pending ≡ some p =
      λ q. let ij : i ≡ j = same→eq i j q in rw (← ij) h in
    ground (arith, get-put i j again s.pending, get-delete i j s.pending, same)

due_step-sent :
    (now : ℕ) (i : Identity) (p : Pending) (s : Sender) → (due_step now i p s).1 ≡ transmits s now p
unfolding due_step transmits
due_step-sent now i p s = ground arith

pub due_step-Unique :
    (now : ℕ) (i : Identity) (p : Pending) (s : Sender)
    → Unique s.pending
    → Unique (due_step now i p s).0.pending
unfolding due_step
due_step-Unique now i p s u = ground (
  arith,
  Unique-put i (record p { attempts = p.attempts + 1; next_due = now + s.retry_interval }) s.pending
      u,
  Unique-delete i s.pending u,
)

-- `advance` and `transmits` read the limits only.
pub advance-SameLimits :
    (s t : Sender) (now : ℕ) (p : Pending) → SameLimits t s → advance t now p ≡ advance s now p
unfolding advance
advance-SameLimits s t now p h = ground arith

transmits-SameLimits :
    (s t : Sender) (now : ℕ) (p : Pending) → SameLimits t s → transmits t now p ≡ transmits s now p
unfolding transmits
transmits-SameLimits s t now p h = ground arith

-- The items of the copy that the loop has still to visit are as they were in the dict.
abbrev pub Agrees : Dict Identity Pending → Dict Identity Pending → Type 0
Agrees l d = (i : Identity) (p : Pending) → get i l ≡ some p → get i d ≡ some p

module _ (now : ℕ) (i : Identity) (p : Pending) (rest : Dict Identity Pending) (s : Sender)
    (u : Unique ((i, p) ∷ rest)) (a : Agrees ((i, p) ∷ rest) s.pending) where
  pub head_agrees : get i s.pending ≡ some p
  head_agrees = a i p (unfold get in rw (beq_refl i))

  rest_ne : (j : Identity) (q : Pending) → get j rest ≡ some q → (i == j) ≡ false
  rest_ne j q h = elim (Bool-cases (i == j)) [
    | inr other ↦ other
    | inl same ↦ let ij : i ≡ j = same→eq i j same in absurd (none_ne_some q (rw ij at u.0) h)
  ]
    where
      none_ne_some : (q : Pending) → get j rest ≡ none → get j rest ≡ some q → ⊥
      none_ne_some q m n = cc

  pub rest-Agrees : Agrees rest (due_step now i p s).0.pending
  rest-Agrees j q h =
      let other = rest_ne j q h in
      due_step-get now i j p s head_agrees ∙ rw other (a j q (unfold get in rw other h))

abbrev pub or_else : Option Pending → Option Pending → (Pending → Option Pending) → Option Pending
or_else none d f = d
or_else (some p) d f = f p

-- After the loop over `l`, a frame of `l` has been advanced and any other is as before.
pub due_loop-get :
    (now : ℕ) (l : Dict Identity Pending) (s : Sender) (j : Identity)
    → Unique l
    → Agrees l s.pending
    → get j (due_loop now l s).0.pending ≡ or_else (get j l) (get j s.pending) (advance s now)
unfolding due_loop
due_loop-get now [] s j u a = unfold get in refl
due_loop-get now ((i, p) ∷ rest) s j u a =
    let s' = (due_step now i p s).0 in
    let later = due_loop-get now rest s' j u.1 (rest-Agrees now i p rest s u a) in
    let here = due_step-get now i j p s (head_agrees now i p rest s u a) in
    later ∙ elim (Bool-cases (i == j)) [
      | inl same ↦
          let ij : i ≡ j = same→eq i j same in
          let gone : get j rest ≡ none = rw ij at u.0 in
          rw gone (here ∙ rw same (unfold get in rw same))
      | inr other ↦ elim (Option-cases (get j rest)) [
        | inl gone ↦ rw gone (here ∙ rw other (unfold get in rw (other, gone)))
        | inr (q, found) ↦ rw found (
            advance-SameLimits s s' now q (due_step-SameLimits now i p s)
            ∙ unfold get in rw (other, found))
      ]
    ]

-- How often a frame with this identity is put on the wire.
unfoldable pub sends : Identity → List Frame → ℕ
sends j [] = 0
sends j (f ∷ fs) = if identity f == j then 1 + sends j fs else sends j fs

pub sends-append :
    (j : Identity) (fs gs : List Frame) → sends j (fs ++ gs) ≡ sends j fs + sends j gs
unfolding sends
sends-append j [] gs = omega arith
sends-append j (f ∷ fs) gs = ground (arith, sends-append j fs gs)

-- Every frame is filed under its own identity.
abbrev pub Filed : Dict Identity Pending → Type 0
Filed l = (i : Identity) (p : Pending) → get i l ≡ some p → identity p.frame ≡ i

sends-transmits :
    (s : Sender) (now : ℕ) (i j : Identity) (p : Pending)
    → identity p.frame ≡ i
    → sends j (transmits s now p) ≡ (if i == j then length (transmits s now p) else 0)
unfolding sends transmits
sends-transmits s now i j p e =
    let named : (identity p.frame == j) ≡ (i == j) = ap (λ (k : Identity). k == j) e in
    ground (arith, named)

abbrev pub sent_of : Sender → ℕ → Option Pending → ℕ
sent_of s now none = 0
sent_of s now (some p) = length (transmits s now p)

pub sent_of-SameLimits :
    (s t : Sender) (now : ℕ) (o : Option Pending)
    → SameLimits t s
    → sent_of t now o ≡ sent_of s now o
sent_of-SameLimits s t now none h = refl
sent_of-SameLimits s t now (some p) h = ap length (transmits-SameLimits s t now p h)

Filed-tail :
    (i : Identity) (p : Pending) (rest : Dict Identity Pending)
    → Unique ((i, p) ∷ rest)
    → Filed ((i, p) ∷ rest)
    → Filed rest
Filed-tail i p rest u f j q h = elim (Bool-cases (i == j)) [
  | inr other ↦ f j q (get-cons_other i j p rest other ∙ h)
  | inl same ↦ absurd (cc (get-cons_new i j p rest u same, h))
]

pub due_loop-sends :
    (now : ℕ) (l : Dict Identity Pending) (s : Sender) (j : Identity)
    → Unique l
    → Filed l
    → sends j (due_loop now l s).1 ≡ sent_of s now (get j l)
unfolding due_loop
due_loop-sends now [] s j u f = unfold get sends in refl
due_loop-sends now ((i, p) ∷ rest) s j u f =
    let s' = (due_step now i p s).0 in
    let later = due_loop-sends now rest s' j u.1 (Filed-tail i p rest u f) in
    let own = f i p (get-cons_same i i p rest (beq_refl i)) in
    let here : sends j (due_step now i p s).1 ≡ (if i == j then length (transmits s now p) else 0) =
      ap (sends j) (due_step-sent now i p s) ∙ sends-transmits s now i j p own in
    sends-append j (due_step now i p s).1 (due_loop now rest s').1 ∙ elim (Bool-cases (i == j)) [
      | inl same ↦
          rw (get-cons_same i j p rest same)
            (omega (arith, rw same at here, rw (get-cons_new i j p rest u same) at later))
      | inr other ↦ rw (get-cons_other i j p rest other) (
          omega (
            arith,
            rw other at here,
            later,
            sent_of-SameLimits s s' now (get j rest) (due_step-SameLimits now i p s),
          ))
    ]

pub due_loop-SameLimits :
    (now : ℕ) (l : Dict Identity Pending) (s : Sender) → SameLimits (due_loop now l s).0 s
unfolding due_loop
due_loop-SameLimits now [] s = (refl, refl, refl)
due_loop-SameLimits now ((i, p) ∷ rest) s =
    let s' = (due_step now i p s).0 in
    let (a, b, c) = due_loop-SameLimits now rest s' in
    let (d, e, f) = due_step-SameLimits now i p s in (a ∙ d, b ∙ e, c ∙ f)
