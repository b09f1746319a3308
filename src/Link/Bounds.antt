-- ===== src/Link/Bounds.antt =====
-- The invariant of an aircraft link, kept by every call on it.
use low_altitude_io_t_system.Common.{
  Bool-cases, String, [], arith, inl, inr, length, list_eq, ltb, nat_eq, none, pair_eq, refl,
  string_eq, ℕ, ◌++◌, ◌+◌, ◌<◌, ◌==◌, ◌∷◌, ◌≡◌, ◌≤◌,
}
use low_altitude_io_t_system.Common.Dict.{
  Dict, Unique, Unique-evict, Unique-put_last, delete, evict, length-evict, put_last,
}
use low_altitude_io_t_system.Transport.Sender.Bounds.{IsSender, cancel-IsSender}
use low_altitude_io_t_system.Link.{Link, Terminal, set_stage, set_terminal}
use low_altitude_io_t_system.Link.Closed.{IsClosed}

-- The revisions of the ended transactions rise in the order of the history, from above one
-- revision up to another.
abbrev pub Rising : ℕ → ℕ → Dict String Terminal → Type 0
Rising low high [] = low ≤ high
Rising low high ((id, t) ∷ rest) = (low < t.revision) × Rising t.revision high rest

Rising-high :
    (low high high' : ℕ) (d : Dict String Terminal)
    → high ≤ high'
    → Rising low high d
    → Rising low high' d
Rising-high low high high' [] le r = omega arith
Rising-high low high high' ((id, t) ∷ rest) le r =
    (r.0, Rising-high t.revision high high' rest le r.1)

Rising-low :
    (low low' high : ℕ) (d : Dict String Terminal)
    → low' ≤ low
    → Rising low high d
    → Rising low' high d
Rising-low low low' high [] le r = omega arith
Rising-low low low' high ((id, t) ∷ rest) le r = (omega (arith, r.0), r.1)

Rising-delete :
    (key : String) (low high : ℕ) (d : Dict String Terminal)
    → Rising low high d
    → Rising low high (delete key d)
unfolding delete
Rising-delete key low high [] r = r
Rising-delete key low high ((id, t) ∷ rest) r = elim (Bool-cases (id == key)) [
  | inl same ↦ rw same (
      Rising-low t.revision low high (delete key rest) (omega (arith, r.0))
        (Rising-delete key t.revision high rest r.1))
  | inr other ↦ rw other (r.0, Rising-delete key t.revision high rest r.1)
]

Rising-append :
    (id : String) (t : Terminal) (low high : ℕ) (d : Dict String Terminal)
    → t.revision ≡ high + 1
    → Rising low high d
    → Rising low (high + 1) (d ++ ((id, t) ∷ []))
Rising-append id t low high [] e r = (omega arith, omega arith)
Rising-append id t low high ((j, u) ∷ rest) e r =
    (r.0, Rising-append id t u.revision high rest e r.1)

Rising-evict :
    (limit low high : ℕ) (d : Dict String Terminal)
    → Rising low high d
    → Rising low high (evict limit d)
unfolding evict
Rising-evict limit low high [] r = r
Rising-evict limit low high ((id, t) ∷ rest) r =
    elim (Bool-cases (ltb limit (length ((id, t) ∷ rest)))) [
      | inl over ↦ rw over (
          Rising-low t.revision low high (evict limit rest) (omega (arith, r.0))
            (Rising-evict limit t.revision high rest r.1))
      | inr few ↦ rw few r
    ]

pub record IsLink (l : Link) : Type 0 where
  pub sender : IsSender l.sender
  pub unique : Unique l.terminal
  pub terminal_le : length l.terminal ≤ l.terminal_limit
  pub rising : Rising 0 l.revision l.terminal

-- A change that leaves the history alone.
pub IsLink-kept :
    (l l' : Link)
    → IsSender l'.sender
    → l'.terminal ≡ l.terminal
    → l'.terminal_limit ≡ l.terminal_limit
    → l.revision ≤ l'.revision
    → IsLink l
    → IsLink l'
IsLink-kept l l' sender same limit later v = record {
  sender = sender;
  unique = rw same v.unique;
  terminal_le = rw (same, limit) v.terminal_le;
  rising = rw same (Rising-high 0 l.revision l'.revision l.terminal later v.rising);
}

pub set_stage-IsLink : (stage : String) (l : Link) → IsLink l → IsLink (set_stage stage l)
unfolding set_stage
set_stage-IsLink stage l v = elim (Bool-cases (stage == l.stage)) [
  | inl same ↦ rw same v
  | inr other ↦ rw other (
      IsLink-kept l (record l { stage = stage; revision = l.revision + 1 }) v.sender refl refl
        (omega arith) v)
]

set_terminal-IsLink :
    (id stage error : String) (l : Link) → IsLink l → IsLink (set_terminal id stage error l)
unfolding set_terminal
set_terminal-IsLink id stage error l v =
    let ended : Terminal = record { stage = stage; error = error; revision = l.revision + 1 } in
    record {
      sender = cancel-IsSender l.sender id v.sender;
      unique =
          Unique-evict l.terminal_limit (put_last id ended l.terminal)
            (Unique-put_last id ended l.terminal v.unique);
      terminal_le = length-evict l.terminal_limit (put_last id ended l.terminal);
      rising = Rising-evict l.terminal_limit 0 (l.revision + 1) (put_last id ended l.terminal) (
          unfold put_last in
          Rising-append id ended 0 l.revision (delete id l.terminal) refl
            (Rising-delete id 0 l.revision l.terminal v.rising));
    }

pub IsLink-IsClosed : IsClosed IsLink
IsLink-IsClosed = record {
  ends = set_terminal-IsLink;
  stages = set_stage-IsLink;
  frees = λ l v.
      IsLink-kept l (record l { active_command_id = none }) v.sender refl refl (omega arith) v;
  sends = λ s l good v.
      IsLink-kept l (record l { sender = s }) (good v.sender) refl refl (omega arith) v;
  notes = λ transactions commit l v.
      IsLink-kept l (record l { fragment_transactions = transactions; fragment_commit = commit })
        v.sender refl refl (omega arith) v;
}
