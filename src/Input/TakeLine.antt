-- ===== src/Input/TakeLine.antt =====
-- The buffer for one line, and the line buffer afterwards.
use squid_helper.Buffer.Append.{buffer_append_string_lem}
use squid_helper.Buffer.Copy.{buffer_reset_lem, buffer_init_buffer_lem, buffer_init_string_lem}
use squid_helper.Memory.Laws.{IsNulFree}
use squid_helper.Buffer.Holds.{Pending, text, stored, Holds}
use squid_helper.Input.{take_line}
use squid_helper.Base.{
  ltb, arith, ◌++◌, ◌<◌, ◌+◌, length, ◌≡◌, drop, ◌^◌, Option, ℕ, true, none, some,
}
use squid_helper.Memory.{Result, Bytes, Mem, ok}
use squid_helper.Buffer.{Buffer}

-- The call returns a line that holds `t`, and the line buffer holds nothing afterwards.
pub record Taken (r : Result (Buffer × Buffer)) (t : Bytes) : Type 0 where
  pub line : Buffer
  pub tmp : Buffer
  pub result : r ≡ ok (line, tmp)
  pub holds : Holds line (some t)
  pub pending : Pending tmp none

-- A bound on texts, far from the end of `size_t`.
abbrev pub half_size : ℕ
half_size = 2 ^ 62

pub take_line_lem :
    (tmp : Buffer) (o : Option Bytes) (readbuf : Mem) (start : ℕ) (cur : Bytes) (junk : Mem)
    → Pending tmp o
    → drop start readbuf ≡ stored cur junk
    → IsNulFree cur
    → length (text o) + length cur < half_size
    → Taken (take_line tmp readbuf start) (text o ++ cur)
unfolding take_line
take_line_lem tmp none readbuf start cur junk p e z f =
    let m = buffer_init_string_lem cur junk z (omega arith) in
    record {
      line = m.buf;
      tmp = tmp;
      result = ground (arith, p.holds.content, e, m.result);
      holds = m.holds;
      pending = p;
    }
take_line_lem tmp (some t) readbuf start cur junk p e z f =
    let m = buffer_init_buffer_lem tmp (some t) p.holds (omega arith) in
    let a =
      buffer_append_string_lem m.buf (some t) cur m.holds (omega (arith, m.near, m.holds.content.2))
        (omega (arith, m.near), omega arith) junk z in
    let c = buffer_reset_lem tmp p.holds.valid in
    let y : ltb 0 tmp.len ≡ true = ground (arith, p.holds.content.2) in
    record {
      line = a.buf;
      tmp = c.buf;
      result = rw (y, m.result, e, a.result, c.result);
      holds = a.holds;
      pending = record { holds = c.holds; tight = omega (arith, c.small) };
    }
