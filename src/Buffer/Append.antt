-- ===== src/Buffer/Append.antt =====
-- The appending functions of src/core/webcontrol_buffer.c.
use squid_helper.Memory.Laws.{strlen_lem, IsNulFree, memcpy_text, memcpy_string, length-text}
use squid_helper.Buffer.Grow.{buffer_prepare_append_lem}
use squid_helper.Buffer.Holds.{store_at_lem, stored, length-stored, block, IsTight, text, Holds}
use squid_helper.Base.{
  ◌≢◌, length-drop, map-append, refl, length-append, drop, ◌-◌, false, none, some, [], append_assoc,
  ◌∙◌, ◌∷◌, ◌*◌, ◌%◌, ap, add_size, ◌==◌, arith, if◌then◌else◌, ◌≤◌, ◌++◌, length, size_mod, map,
  ◌<◌, some, ◌≡◌, ◌+◌, Option, ℕ,
}
use squid_helper.Memory.{Bytes, Mem}
use squid_helper.Buffer.{
  buffer_append_string_len, buffer_append_string, extend_string_len, extend_string,
  buffer_prepare_append, success, ok, buffer_piece_size, Update, Result, Buffer,
}

-- The prepared buffer: its block is the old string and then `n + 1` or more bytes.
record Room (u : Update) (p : Bytes) (n : ℕ) : Type 0 where
  mem : Mem
  old : Mem
  len : ℕ
  cap : ℕ
  result : u ≡ (success, some (record { ptr = some mem; len = len; capacity = cap }))
  split : mem ≡ map some p ++ old
  room : n + 1 ≤ length old
  bumped : (if len == 0 then add_size len 1 else len) ≡ length p + 1
  sized : length mem ≡ cap
  rounded : cap % buffer_piece_size ≡ 0
  tight : cap ≤ 2 * (length p + 1 + n) + 320

-- The call succeeds, and the buffer then holds the contents and has not grown beyond need.
pub record Appended (r : Result Update) (o : Option Bytes) : Type 0 where
  pub buf : Buffer
  pub result : r ≡ ok (success, some buf)
  pub holds : Holds buf o
  pub tight : IsTight buf

-- No size that the call computes wraps.
abbrev pub Fits : Buffer → Option Bytes → ℕ → Type 0
Fits b o n =
    (b.capacity + n + 1 + buffer_piece_size < size_mod) × (length (text o) + n + 2 < size_mod)

pub len_bound : (b : Buffer) (o : Option Bytes) → Holds b o → b.len ≤ b.capacity
len_bound b none h = omega (arith, h.content)
len_bound b (some t) h = omega (
  arith,
  ap (λ q. length (block q)) h.content.1,
  h.content.2,
  h.valid.sized,
  length-stored t h.content.0,
)

prepare-Room :
    (b : Buffer) (o : Option Bytes) (n : ℕ)
    → Holds b o
    → IsTight b
    → b.capacity + n + 1 + buffer_piece_size < size_mod
    → Room (buffer_prepare_append (some b) (n + 1)) (text o) n
prepare-Room b none n h k f =
    let e = buffer_prepare_append_lem b (n + 1) h.valid (len_bound b none h) (omega arith) in
    record {
      mem = e.mem;
      old = e.mem;
      len = b.len;
      cap = e.cap;
      result = e.result;
      split = refl;
      room = omega (arith, e.sized, e.room);
      bumped = ground (arith, h.content);
      sized = e.sized;
      rounded = e.rounded;
      tight = omega (arith, e.grown, h.content);
    }
prepare-Room b (some t) n h k f =
    let e = buffer_prepare_append_lem b (n + 1) h.valid (len_bound b (some t) h) (omega arith) in
    let (rest, p, l) = h.content in
    let s : e.mem ≡ map some t ++ (some 0 ∷ (rest ++ e.more)) =
      e.same ∙ ap (λ q. block q ++ e.more) p ∙ append_assoc (map some t) (some 0 ∷ rest) e.more in
    record {
      mem = e.mem;
      old = some 0 ∷ (rest ++ e.more);
      len = b.len;
      cap = e.cap;
      result = e.result;
      split = s;
      room = omega (
        arith,
        ap length s,
        length-append (map some t) (some 0 ∷ (rest ++ e.more)),
        length-text t,
        e.sized,
        e.room,
        l,
      );
      bumped = ground (arith, l);
      sized = e.sized;
      rounded = e.rounded;
      tight = omega (arith, e.grown, l);
    }

-- The old text, the new text and the terminator are the joined string.
stored-append :
    (p t : Bytes) (rest : Mem) → (map some p ++ map some t) ++ some 0 ∷ rest ≡ stored (p ++ t) rest
stored-append p t rest = rw (map-append some p t)

module _ (u : Update) (p t : Bytes) (n : ℕ) (rm : Room u p n) (s : n ≡ length t) where
  extended :
      (len : ℕ) (rest : Mem)
      → len ≡ length p + 1 + n
      → length rest ≡ length rm.old - (n + 1)
      → Holds
          (record { ptr = some (stored (p ++ t) rest); len = len; capacity = rm.cap })
          (some (p ++ t))
  extended len rest e l = record {
    valid = record {
      sized = omega (
        arith,
        length-stored (p ++ t) rest,
        length-append p t,
        ap length rm.split,
        length-append (map some p) rm.old,
        length-text p,
        rm.sized,
        rm.room,
      );
      rounded = rm.rounded;
    };
    content = (rest, refl, omega (arith, length-append p t));
  }

  extend_string_lem :
      (rest : Mem)
      → length p + n + 2 < size_mod
      → Appended (extend_string u.1 (stored t rest) n) (some (p ++ t))
  unfolding extend_string
  extend_string_lem rest f =
      let tail = drop (n + 1) rm.old in
      let e : add_size n 1 ≡ n + 1 = omega arith in
      let c =
        memcpy_string (map some p) rm.old t rest (length p + 1 - 1) (n + 1)
          (omega (arith, length-text p)) (omega arith) rm.room in
      record {
        buf = record {
          ptr = some (stored (p ++ t) tail);
          len = add_size (length p + 1) n;
          capacity = rm.cap;
        };
        result = rw (
          rm.result,
          rm.bumped,
          rm.split,
          e,
          c,
          ← append_assoc (map some p) (map some t) (some 0 ∷ tail),
          stored-append p t tail,
        );
        holds = extended _ tail (omega arith) (length-drop (n + 1) rm.old);
        tight = omega (arith, rm.tight);
      }

  extend_string_len_lem :
      (more : Mem)
      → length p + n + 2 < size_mod
      → Appended (extend_string_len u.1 (map some t ++ more) n) (some (p ++ t))
  unfolding extend_string_len
  extend_string_len_lem more f =
      let tail = drop 1 (drop n rm.old) in
      let c =
        memcpy_text (map some p) rm.old t more (length p + 1 - 1) n (omega (arith, length-text p)) s
          (omega (arith, rm.room)) in
      let ended =
        store_at_lem (map some p ++ map some t) (drop n rm.old) 0 (add_size (length p + 1) n - 1)
          (omega (arith, length-append (map some p) (map some t), length-text p, length-text t))
          (omega (arith, length-drop n rm.old, rm.room)) in
      record {
        buf = record {
          ptr = some (stored (p ++ t) tail);
          len = add_size (length p + 1) n;
          capacity = rm.cap;
        };
        result = rw (
          rm.result,
          rm.bumped,
          rm.split,
          c,
          ← append_assoc (map some p) (map some t) (drop n rm.old),
          ended,
          stored-append p t tail,
        );
        holds =
            extended _ tail (omega arith)
              (omega (arith, length-drop 1 (drop n rm.old), length-drop n rm.old));
        tight = omega (arith, rm.tight);
      }

module _ (b : Buffer) (o : Option Bytes) (t : Bytes) (h : Holds b o) (k : IsTight b)
    (f : Fits b o (length t)) where
  -- buffer_append_string of a string without NUL bytes, on a buffer that holds nothing or a string
  -- and is not larger than need, where no sum wraps: it succeeds with no access outside a block,
  -- and the buffer then holds the old string followed by the new one and is still valid and not
  -- larger than need.
  pub buffer_append_string_lem :
      (rest : Mem)
      → IsNulFree t
      → Appended (buffer_append_string (some b) (some (stored t rest))) (some (text o ++ t))
  unfolding buffer_append_string
  buffer_append_string_lem rest z =
      let e : add_size (length t) 1 ≡ length t + 1 = omega arith in
      rw (strlen_lem t rest z, e)
        (extend_string_lem _ (text o) t (length t) (prepare-Room b o (length t) h k f.0) refl rest
          (omega arith))

  -- buffer_append_string_len of some bytes, on a buffer that holds nothing or a string and is not
  -- larger than need, where no sum wraps: it succeeds with no access outside a block, the buffer
  -- then holds the old string followed by the bytes, its block is as long as `capacity`, a
  -- multiple of 64, and it is still not larger than need.
  pub buffer_append_string_len_lem :
      (more : Mem)
      → t ≢ []
      → Appended
          (buffer_append_string_len (some b) (some (map some t ++ more)) (length t))
          (some (text o ++ t))
  unfolding buffer_append_string_len
  buffer_append_string_len_lem more z =
      let e : add_size (length t) 1 ≡ length t + 1 = omega arith in
      let y : (length t == 0) ≡ false = ground arith in
      rw (y, e)
        (extend_string_len_lem _ (text o) t (length t) (prepare-Room b o (length t) h k f.0) refl
          more (omega arith))

-- The length of a buffer is at most that of its string with the terminator.
pub len_near : (b : Buffer) (o : Option Bytes) → Holds b o → b.len ≤ length (text o) + 1
len_near b none h = omega (arith, h.content)
len_near b (some t) h = omega (arith, h.content.2)
