-- ===== src/Plugins/Text.antt =====
-- The paths and symbols that the loader builds in buffers.
use squid_helper.Buffer.Copy.{buffer_init_string_lem}
use squid_helper.Buffer.Append.{buffer_append_string_lem}
use squid_helper.Scanf.RoundTrip.{c_string_lem}
use squid_helper.Memory.Laws.{IsNulFree}
use squid_helper.Buffer.Holds.{Pending}
use squid_helper.Base.{◌^◌, ◌+◌, ◌<◌, some, [], ◌++◌, length, ◌≡◌, arith}
use squid_helper.Memory.{cells, Bytes, ok, Result}
use squid_helper.Buffer.{buffer_init_string, Buffer}
use squid_helper.Plugins.{append_text, string_of}

-- A text is built: the calls succeed and leave a buffer that holds it.
pub record Built (r : Result Buffer) (t : Bytes) : Type 0 where
  pub buf : Buffer
  pub result : r ≡ ok buf
  pub pending : Pending buf (some t)

pub append_text_lem :
    (b : Buffer) (p t : Bytes)
    → Pending b (some p)
    → IsNulFree t
    → length p + length t < 2 ^ 61
    → Built (append_text b t) (p ++ t)
unfolding append_text
append_text_lem b p t h z f =
    let (rest, e, l) = h.holds.content in
    let a =
      buffer_append_string_lem b (some p) t h.holds h.tight (omega (arith, h.tight, l), omega arith)
        [] z in
    record {
      buf = a.buf;
      result = rw a.result;
      pending = record { holds = a.holds; tight = a.tight };
    }

pub init_text_lem :
    (t : Bytes) → IsNulFree t → length t < 2 ^ 61 → Built (buffer_init_string (some (cells t))) t
init_text_lem t z f =
    let m = buffer_init_string_lem t [] z (omega arith) in
    let (rest, e, l) = m.holds.content in
    record {
      buf = m.buf;
      result = m.result;
      pending = record { holds = m.holds; tight = omega (arith, m.near, l) };
    }

pub string_of_lem : (b : Buffer) (t : Bytes) → Pending b (some t) → IsNulFree t → string_of b ≡ ok t
unfolding string_of
string_of_lem b t h z = let (rest, e, l) = h.holds.content in rw (e, c_string_lem t rest z)
