-- ===== src/Input/Chunk.antt =====
-- One chunk of input, as the callback treats it.
use squid_helper.Buffer.Append.{len_near, buffer_append_string_len_lem, len_bound}
use squid_helper.Buffer.Copy.{buffer_reset_lem}
use squid_helper.Input.Lines.{length-split_chunk, split_chunk, HoldLines, enqueue_all}
use squid_helper.Memory.Laws.{load-drop, IsNulFree}
use squid_helper.Buffer.Holds.{Pending, stored, text}
use squid_helper.Input.Scan.{scan_lem}
use squid_helper.Input.TakeLine.{half_size}
use squid_helper.Input.{keep_remainder, stdin_buf_chunksize, on_bytes, Input}
use squid_helper.Base.{
  length-append, ap, ==_of_ne, ◌∷◌, ◌++◌, ◌∙◌, drop, append-nil, le→leb, arith, ◌-◌, ◌≡◌, ◌+◌, Bool,
  ◌<◌, length, Option, List, ◌≢◌, ℕ, true, false, none, some, [], refl,
}
use squid_helper.Memory.{malloc, Result, Bytes, Mem, ok}
use squid_helper.Buffer.{Buffer}

-- What one `read` may return: some bytes, fewer than the array has, no NUL.
pub record IsChunk (chunk : Bytes) : Type 0 where
  pub some_bytes : chunk ≢ []
  pub fits : length chunk < stdin_buf_chunksize
  pub free : IsNulFree chunk

-- The lines that the chunk completes are enqueued, and the line buffer holds what follows them.
pub record Consumed {Q : Type 0} (enqueue : Q → Buffer → Q) (w : Input Q)
    (spec : List Bytes × Bytes) (r : Result (Input Q × Bool)) : Type 0 where
  pub out : Buffer
  pub more : Bool
  pub sent : List Buffer
  pub held : Option Bytes
  pub result :
      r ≡ ok (record w { tmp_line_buf = out; jobs = enqueue_all enqueue w.jobs sent }, more)
  pub lines : HoldLines sent spec.0
  pub pending : Pending out held
  pub last : text held ≡ spec.1

module _ {Q : Type 0} (enqueue : Q → Buffer → Q) where
  -- keep_remainder: the line buffer takes the rest of the array.
  record Kept (w : Input Q) (p : Bytes) (r : Result (Input Q × Bool)) : Type 0 where
    out : Buffer
    more : Bool
    held : Option Bytes
    result : r ≡ ok (record w { tmp_line_buf = out }, more)
    pending : Pending out held
    last : text held ≡ p

  keep_remainder_lem :
      (tail : Bytes) (w : Input Q) (o : Option Bytes) (readbuf junk : Mem) (start num : ℕ)
      → Pending w.tmp_line_buf o
      → drop start readbuf ≡ stored tail junk
      → start + length tail ≡ num
      → (tail ≡ [] → text o ≡ [])
      → IsNulFree tail
      → length (text o) + length tail < half_size
      → Kept w (text o ++ tail) (keep_remainder enqueue w readbuf start num)
  unfolding keep_remainder
  keep_remainder_lem [] w o readbuf junk start num p e n k z f =
      let c = buffer_reset_lem w.tmp_line_buf p.holds.valid in
      record {
        out = c.buf;
        more = false;
        held = none;
        result = rw (load-drop readbuf start 0 junk e, c.result);
        pending = record { holds = c.holds; tight = omega (arith, c.small) };
        last = rw (k refl);
      }
  keep_remainder_lem (d ∷ tail) w o readbuf junk start num p e n k z f =
      let l = len_bound w.tmp_line_buf o p.holds in
      let a =
        buffer_append_string_len_lem w.tmp_line_buf o (d ∷ tail) p.holds p.tight
          (omega (arith, p.tight, len_near w.tmp_line_buf o p.holds)) (some 0 ∷ junk) (λ q. cc) in
      let m : num - start ≡ length (d ∷ tail) = omega arith in
      record {
        out = a.buf;
        more = true;
        held = some (text o ++ d ∷ tail);
        result = rw (load-drop readbuf start d _ e, ==_of_ne d 0 z.0, m, e, a.result);
        pending = record { holds = a.holds; tight = a.tight };
        last = refl;
      }

  -- A chunk that is not empty, shorter than the array and free of NUL bytes, with a pending line
  -- of which the sum is below 2^62 bytes, is handled with no fault: the lines that the loop finds
  -- are enqueued in order and the line buffer holds the rest. The loop finds the lines at the
  -- newlines, but never looks at the byte behind a newline, which becomes part of the next line
  -- whatever it is.
  pub on_bytes_lem :
      (w : Input Q) (chunk : Bytes) (o : Option Bytes)
      → IsChunk chunk
      → Pending w.tmp_line_buf o
      → length (text o) + length chunk < half_size
      → Consumed enqueue w (split_chunk (text o) chunk) (on_bytes enqueue w chunk)
  unfolding on_bytes
  on_bytes_lem w chunk o k p f =
      let junk = malloc (stdin_buf_chunksize - length chunk - 1) in
      let s =
        scan_lem enqueue (length chunk) chunk (length chunk) w o [] [] junk 0 0 (omega arith) refl
          refl (omega arith) p tt k.free (λ e. absurd (k.some_bytes (ground arith)))
          (omega arith) in
      let r =
        keep_remainder_lem s.tail
          (record w { tmp_line_buf = s.out; jobs = enqueue_all enqueue w.jobs s.sent }) s.held
          s.readbuf s.junk s.start (length chunk) s.pending s.left s.ends s.kept s.free
          (omega (
            arith,
            ap length s.whole,
            length-append (text s.held) s.tail,
            length-split_chunk (text o ++ []) chunk,
            length-append (text o) [],
          )) in
      record {
        out = r.out;
        more = r.more;
        sent = s.sent;
        held = r.held;
        result =
            rw (le→leb (length chunk) (stdin_buf_chunksize - 1) (omega arith), s.result, r.result);
        lines = rw (append-nil (text o)) at s.lines;
        pending = r.pending;
        last = r.last ∙ (rw (append-nil (text o)) at s.whole);
      }
