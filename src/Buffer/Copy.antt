-- ===== src/Buffer/Copy.antt =====
-- The copying functions of src/core/webcontrol_buffer.c.
use squid_helper.Base.{
  ℕ, ◌+◌, ◌-◌, ◌≤◌, ◌<◌, Option, none, some, [], ◌∷◌, ◌++◌, map, drop, length, ◌≡◌, refl, ◌∙◌,
  arith, size_mod, add_size, length-drop,
}
use native.Mathlib.Decide.{dec_le}
use squid_helper.Memory.{Bytes, Result, ok, Mem}
use squid_helper.Memory.Laws.{IsNulFree, strlen_lem, memcpy_text, memcpy_string, length-text}
use squid_helper.Buffer.{
  buffer_max_reuse_size, Buffer, success, Update, buffer_init, buffer_piece_size, store_at,
  fill_string, fill_string_len, buffer_copy_string, buffer_copy_string_len,
  buffer_copy_string_buffer, buffer_init_string, buffer_init_buffer, buffer_reset,
}
use squid_helper.Buffer.Holds.{
  block, IsValid, Holds, stored, length-stored, store_at_lem, text, buffer_init-Holds,
}
use squid_helper.Buffer.Grow.{Emptied, buffer_prepare_copy_lem}

-- The call succeeds, the buffer then holds the contents, and its capacity is within the limit.
pub record Updated (r : Result Update) (o : Option Bytes) (limit : ℕ) : Type 0 where
  pub buf : Buffer
  pub result : r ≡ ok (success, some buf)
  pub holds : Holds buf o
  pub near : buf.capacity ≤ limit

-- A whole string with its terminator, copied into a block with room.
fill_string_lem :
    (b : Buffer) (size : ℕ) (t : Bytes) (rest : Mem) (u : Update)
    → Emptied b size u
    → size ≡ length t + 1
    → Updated
        (fill_string u.1 (stored t rest) size)
        (some t)
        (b.capacity + size + buffer_piece_size)
unfolding fill_string
fill_string_lem b size t rest u e s = record {
  buf = record { ptr = some (stored t (drop size e.mem)); len = size; capacity = e.cap };
  result =
      rw (e.result, memcpy_string [] e.mem t rest 0 size refl s (omega (arith, e.room, e.sized)));
  holds = record {
    valid = record {
      sized =
          omega (arith, length-stored t (drop size e.mem), length-drop size e.mem, e.room, e.sized);
      rounded = e.rounded;
    };
    content = (drop size e.mem, refl, s);
  };
  near = e.near;
}

-- The first bytes of some memory, copied into a block with room and ended by a terminator.
fill_string_len_lem :
    (b : Buffer) (n : ℕ) (t : Bytes) (more : Mem) (u : Update)
    → Emptied b (n + 1) u
    → n ≡ length t
    → n + 1 < size_mod
    → Updated
        (fill_string_len u.1 (map some t ++ more) n)
        (some t)
        (b.capacity + (n + 1) + buffer_piece_size)
unfolding fill_string_len
fill_string_len_lem b n t more u e s h = record {
  buf = record {
    ptr = some (stored t (drop 1 (drop n e.mem)));
    len = add_size n 1;
    capacity = e.cap;
  };
  result = rw (
    e.result,
    memcpy_text [] e.mem t more 0 n refl s (omega (arith, e.room, e.sized)),
    store_at_lem (map some t) (drop n e.mem) 0 n (omega (arith, length-text t))
        (omega (arith, length-drop n e.mem, e.room, e.sized)),
  );
  holds = record {
    valid = record {
      sized = omega (
        arith,
        length-stored t (drop 1 (drop n e.mem)),
        length-drop 1 (drop n e.mem),
        length-drop n e.mem,
        e.room,
        e.sized,
      );
      rounded = e.rounded;
    };
    content = (drop 1 (drop n e.mem), refl, omega arith);
  };
  near = e.near;
}

module _ (b : Buffer) (v : IsValid b) (t : Bytes) where
  -- buffer_copy_string of a string without NUL bytes into a valid buffer, whatever it holds and
  -- where no sum wraps: it succeeds with no access outside a block, and the buffer then holds the
  -- string, is valid and near in size.
  pub buffer_copy_string_lem :
      (rest : Mem)
      → IsNulFree t
      → length t + 1 + buffer_piece_size < size_mod
      → Updated
          (buffer_copy_string (some b) (some (stored t rest)))
          (some t)
          (b.capacity + (length t + 1) + buffer_piece_size)
  unfolding buffer_copy_string
  buffer_copy_string_lem rest z h =
      let e : add_size (length t) 1 ≡ length t + 1 = omega arith in
      rw (strlen_lem t rest z, e)
        (fill_string_lem b (length t + 1) t rest _ (buffer_prepare_copy_lem b _ v h) refl)

  -- buffer_copy_string_len: after copying the first bytes of some memory the buffer holds them.
  pub buffer_copy_string_len_lem :
      (more : Mem) (n : ℕ)
      → n ≡ length t
      → n + 1 + buffer_piece_size < size_mod
      → Updated
          (buffer_copy_string_len (some b) (some (map some t ++ more)) n)
          (some t)
          (b.capacity + (n + 1) + buffer_piece_size)
  unfolding buffer_copy_string_len
  buffer_copy_string_len_lem more n s h =
      let e : add_size n 1 ≡ n + 1 = omega arith in
      rw e (fill_string_len_lem b n t more _ (buffer_prepare_copy_lem b _ v h) s (omega arith))

-- buffer_reset: the buffer holds nothing, and keeps a block only up to the size for reuse.
pub record Cleared (r : Result (Option Buffer)) (limit : ℕ) : Type 0 where
  pub buf : Buffer
  pub result : r ≡ ok (some buf)
  pub holds : Holds buf none
  pub small : buf.capacity ≤ buffer_max_reuse_size
  pub shrunk : buf.capacity ≤ limit

store_first :
    (p : Option Mem)
    → 0 < length (block p)
    → (m : Mem) × (store_at p 0 0 ≡ ok (some m)) × (length m ≡ length (block p))
store_first none h = absurd (omega arith)
store_first (some []) h = absurd (omega arith)
store_first (some (x ∷ m)) h = (some 0 ∷ m, store_at_lem [] (x ∷ m) 0 0 refl h, refl)

-- buffer_reset of a valid buffer succeeds with no access outside a block; the buffer then holds
-- nothing, is valid, never grows, and keeps no more than 256 bytes for reuse.
pub buffer_reset_lem : (b : Buffer) → IsValid b → Cleared (buffer_reset (some b)) b.capacity
unfolding buffer_reset
buffer_reset_lem b v = elim (dec_le b.capacity buffer_max_reuse_size) [
  | no big ↦ record {
    buf = record { ptr = none; len = 0; capacity = 0 };
    result = ground arith;
    holds = record { valid = omega arith; content = refl };
    small = omega arith;
    shrunk = omega arith;
  }
  | yes small ↦ elim (dec_le b.capacity 0) [
    | yes z ↦ record {
      buf = record b { len = 0 };
      result = ground arith;
      holds = record { valid = record { sized = v.sized; rounded = v.rounded }; content = refl };
      small = small;
      shrunk = omega arith;
    }
    | no z ↦
        let (m, s, l) = store_first b.ptr (omega (arith, v.sized)) in
        record {
          buf = record b { ptr = some m; len = 0 };
          result = ground (arith, s);
          holds = record {
            valid = record { sized = l ∙ v.sized; rounded = v.rounded };
            content = refl;
          };
          small = small;
          shrunk = omega arith;
        }
  ]
]

-- buffer_copy_string_buffer on a source that holds something else or nothing.
pub buffer_copy_string_buffer_lem :
    (b src : Buffer) (o : Option Bytes)
    → IsValid b
    → Holds src o
    → length (text o) + 1 + buffer_piece_size < size_mod
    → Updated
        (buffer_copy_string_buffer (some b) (some src))
        o
        (b.capacity + (length (text o) + 1) + buffer_piece_size)
unfolding buffer_copy_string_buffer
buffer_copy_string_buffer_lem b src none v s h =
    let c = buffer_reset_lem b v in
    record {
      buf = c.buf;
      result = ground (arith, c.result, s.content);
      holds = c.holds;
      near = omega (arith, c.shrunk);
    }
buffer_copy_string_buffer_lem b src (some t) v s h =
    let (rest, p, l) = s.content in
    let u =
      buffer_copy_string_len_lem b v t (some 0 ∷ rest) (src.len - 1) (omega arith) (omega arith) in
    record {
      buf = u.buf;
      result = ground (arith, u.result);
      holds = u.holds;
      near = omega (arith, u.near);
    }

-- A constructor succeeds, and the new buffer holds the contents.
pub record Made (r : Result Buffer) (o : Option Bytes) : Type 0 where
  pub buf : Buffer
  pub result : r ≡ ok buf
  pub holds : Holds buf o
  pub near : buf.capacity ≤ length (text o) + 1 + buffer_piece_size

pub buffer_init_string_lem :
    (t : Bytes) (rest : Mem)
    → IsNulFree t
    → length t + 1 + buffer_piece_size < size_mod
    → Made (buffer_init_string (some (stored t rest))) (some t)
unfolding buffer_init_string
buffer_init_string_lem t rest z h =
    let u = buffer_copy_string_lem buffer_init buffer_init-Holds.valid t rest z h in
    record { buf = u.buf; result = rw u.result; holds = u.holds; near = omega (arith, u.near) }

-- buffer_init_buffer of a buffer that holds nothing or a string, where no sum wraps: the new
-- buffer is valid, holds the same, and is not larger than the string needs by more than one piece.
pub buffer_init_buffer_lem :
    (src : Buffer) (o : Option Bytes)
    → Holds src o
    → length (text o) + 1 + buffer_piece_size < size_mod
    → Made (buffer_init_buffer (some src)) o
unfolding buffer_init_buffer
buffer_init_buffer_lem src o s h =
    let u = buffer_copy_string_buffer_lem buffer_init src o buffer_init-Holds.valid s h in
    record { buf = u.buf; result = rw u.result; holds = u.holds; near = omega (arith, u.near) }
