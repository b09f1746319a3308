-- ===== src/Link/Calls.antt =====
-- The calls on an aircraft link, each with the link that it leaves.
use low_altitude_io_t_system.Common.{
  List, Option, Result, String, [], list_eq, nat_eq, pair_eq, string_eq, ℕ, ◌∷◌,
}
use low_altitude_io_t_system.Common.Value.{Fields, Value}
use low_altitude_io_t_system.Common.Int.{ℤ}
use low_altitude_io_t_system.Frame.{Frame}
use low_altitude_io_t_system.Link.{
  CloudCommand, Link, accept_response, due_frames, fail_transaction,
}
use low_altitude_io_t_system.Link.Send.{execute}
use low_altitude_io_t_system.Auth.{Bytes}

pub data Call : Type 0 where
  executes : CloudCommand → ℕ → Call
  dues : ℕ → Call
  responds : Frame → Call
  fails : (stage error : String) → Option String → Call

module _ (dumps : Value → Result Bytes) (loads : Bytes → Option Value) (crc32 : Bytes → ℕ)
    (uuid_bytes : String → Bytes) (uuid_text : Bytes → String) (to_str : Value → String)
    (strip : String → String) (int_text float_text : String → Option ℤ)
    (sha256_json : List Fields → Result String) (decimal : ℕ → String) where
  abbrev pub run_execute : CloudCommand → ℕ → Link → Result (String × ℕ) × Link
  run_execute =
      execute dumps loads crc32 uuid_bytes uuid_text to_str strip int_text float_text sha256_json

  unfoldable pub after : Call → Link → Link
  after (executes c now) l = (run_execute c now l).1
  after (dues now) l = (due_frames decimal now l).1
  after (responds f) l = (accept_response f l).1
  after (fails stage error given) l = (fail_transaction stage error given l).1

  unfoldable pub after_all : List Call → Link → Link
  after_all [] l = l
  after_all (c ∷ cs) l = after_all cs (after c l)
