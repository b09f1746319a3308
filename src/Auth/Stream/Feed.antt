-- ===== src/Auth/Stream/Feed.antt =====
-- Feeding a stream in chunks: the loop of `feed`, and what it gives on whole envelopes.
use low_altitude_io_t_system.Common.{
  [], ap, append_assoc, arith, inl, inr, length, list_eq, nat_eq, pair_eq, refl, string_eq, suc,
  sym, zero, ℕ, ◌++◌, ◌+◌, ◌<◌, ◌∙◌, ◌≡◌,
}
use low_altitude_io_t_system.Auth.{Bytes}
use low_altitude_io_t_system.Auth.Stream.{
  Cut, Cuts, StreamDecoder, after_cut, cut, cut_all, drain, feed, gives, rejects, waits, with_frame,
  with_reject,
}
use low_altitude_io_t_system.Auth.Stream.Chunks.{Goes, Shortens, cut-Shortens, cut-append, more}

after_cut_ext :
    (f g : Bytes → Cuts) (n : ℕ) (c : Cut)
    → Shortens n c
    → ((l : Bytes) → length l < n → f l ≡ g l)
    → after_cut f c ≡ after_cut g c
after_cut_ext f g n (waits kept) s same = refl
after_cut_ext f g n (rejects left) s same = ap with_reject (same left s)
after_cut_ext f g n (gives p left) s same = ap (λ c. with_frame p c) (same left s)

-- Rounds beyond the length of the buffer change nothing.
cut_all_fuel : (n k m : ℕ) (b : Bytes) → length b < n → length b < k → cut_all n m b ≡ cut_all k m b
unfolding cut_all
cut_all_fuel zero k m b h h' = absurd (omega arith)
cut_all_fuel (suc n) zero m b h h' = absurd (omega arith)
cut_all_fuel (suc n) (suc k) m b h h' =
    after_cut_ext (cut_all n m) (cut_all k m) (length b) (cut m b) (cut-Shortens m b)
      (λ l s. cut_all_fuel n k m l (omega arith) (omega arith))

-- The loop of `feed` makes a round and goes on until a round waits.
pub drain_step : (m : ℕ) (b : Bytes) → drain m b ≡ after_cut (drain m) (cut m b)
unfolding drain cut_all
drain_step m b =
    let e : length b + 1 ≡ suc (length b) = omega arith in
    rw e (
      after_cut_ext (cut_all (length b) m) (λ l. cut_all (length l + 1) m l) (length b) (cut m b)
        (cut-Shortens m b) (λ l s. cut_all_fuel (length b) (length l + 1) m l s (omega arith)))

-- One part of a stream, then another.
abbrev joined : Cuts → Cuts → Cuts
joined c d = record {
  frames = c.frames ++ d.frames;
  rejected = c.rejected + d.rejected;
  rest = d.rest;
}

abbrev Splits : ℕ → Bytes → Bytes → Cuts → Type 0
Splits m b x c = drain m (b ++ x) ≡ joined c (drain m (c.rest ++ x))

-- A round that goes on.
drain-append_round :
    (m : ℕ) (b x : Bytes) (c : Cut)
    → cut m b ≡ c
    → cut m (b ++ x) ≡ more x c
    → Goes c
    → Shortens (length b) c
    → ((l : Bytes) → length l < length b → Splits m l x (drain m l))
    → Splits m b x (drain m b)
drain-append_round m b x (waits kept) e same g s ih = absurd g
drain-append_round m b x (rejects left) e same g s ih =
    let first = drain_step m b ∙ ap (λ c. after_cut (drain m) c) e in
    let whole = drain_step m (b ++ x) ∙ ap (λ c. after_cut (drain m) c) same in
    rw (first, whole, ih left s) (ground arith)
drain-append_round m b x (gives f left) e same g s ih =
    let first = drain_step m b ∙ ap (λ c. after_cut (drain m) c) e in
    let whole = drain_step m (b ++ x) ∙ ap (λ c. after_cut (drain m) c) same in
    rw (first, whole, ih left s) (ground arith)

drain-append_in : (n m : ℕ) (b x : Bytes) → length b < n → Splits m b x (drain m b)
drain-append_in zero m b x h = absurd (omega arith)
drain-append_in (suc n) m b x h = elim (cut-append m b x) [
  | inl (k, waiting, same) ↦
      let first : drain m b ≡ record { frames = []; rejected = 0; rest = k } =
        drain_step m b ∙ ap (λ c. after_cut (drain m) c) waiting in
      let rest : drain m (b ++ x) ≡ drain m (k ++ x) =
        drain_step m (b ++ x)
        ∙ ap (λ c. after_cut (drain m) c) same
        ∙ sym (drain_step m (k ++ x)) in
      rw first (rest ∙ (ground arith))
  | inr (same, goes) ↦
      drain-append_round m b x (cut m b) refl same goes (cut-Shortens m b)
        (λ l s. drain-append_in n m l x (omega arith))
]

-- However a stream is cut into two parts, the decoder takes the same envelopes out of it, in the
-- same order, counts the same rejections and is left in the same state as by both parts at once.
pub feed-append :
    (d : StreamDecoder) (a b : Bytes)
    → feed d (a ++ b) ≡ ((feed d a).0 ++ (feed (feed d a).1 b).0, (feed (feed d a).1 b).1)
unfolding feed
feed-append d a b =
    let m = d.max_wire_bytes in
    let whole = drain-append_in (length (d.buffer ++ a) + 1) m (d.buffer ++ a) b (omega arith) in
    rw (sym (append_assoc d.buffer a b), whole) (ground arith)
