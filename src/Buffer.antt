-- ===== src/Buffer.antt =====
-- src/core/webcontrol_buffer.c and webcontrol_buffer.h: the growing string buffer, one function for
-- each of the source's. A `buffer*` is an `Option Buffer` where the source tests it for NULL; a
-- function that updates `*b` returns the new buffer beside its status.
pub mod Holds
pub mod Grow
pub mod Copy
pub mod Append
use squid_helper.Base.{
  ◌∷◌, [], List, size_mod, ℕ, ◌-◌, ◌%◌, ◌||◌, Option, none, some, ◌==◌, ltb, if◌then◌else◌,
  add_size,
}
use squid_helper.Memory.{Result, ok, fault, ◌>>=◌, Mem, malloc, realloc, store, strlen, memcpy}

-- BUFFER_PIECE_SIZE
abbrev pub buffer_piece_size : ℕ
buffer_piece_size = 64

-- BUFFER_MAX_REUSE_SIZE
abbrev pub buffer_max_reuse_size : ℕ
buffer_max_reuse_size = 256

-- `buffer`; `len` counts the terminator, and is 0 where nothing was stored yet.
pub record Buffer : Type 0 where
  pub ptr : Option Mem
  pub len : ℕ
  pub capacity : ℕ

-- What the `int` functions return: 0 or -1.
pub data Status : Type 0 where
  success failure : Status

abbrev pub Update : Type 0
Update = Status × Option Buffer

-- `buffer_init`
abbrev pub buffer_init : Buffer
buffer_init = record { ptr = none; len = 0; capacity = 0 }

-- `b->capacity += BUFFER_PIECE_SIZE - (b->capacity % BUFFER_PIECE_SIZE)`
unfoldable pub round_capacity : ℕ → ℕ
round_capacity c = add_size c (buffer_piece_size - c % buffer_piece_size)

unfoldable pub buffer_prepare_copy : Option Buffer → ℕ → Update
buffer_prepare_copy none size = (failure, none)
buffer_prepare_copy (some b) size =
    let fresh = round_capacity size in
    if 0 == b.capacity || ltb b.capacity size
    then (success, some (record { ptr = some (malloc fresh); len = 0; capacity = fresh }))
    else (success, some (record b { len = 0 }))

unfoldable pub buffer_prepare_append : Option Buffer → ℕ → Update
buffer_prepare_append none size = (failure, none)
buffer_prepare_append (some b) size =
    let fresh = round_capacity size in
    let more = round_capacity (add_size b.capacity size) in
    if 0 == b.capacity
    then (success, some (record { ptr = some (malloc fresh); len = 0; capacity = fresh }))
    else if ltb b.capacity (add_size b.len size)
    then (success, some (record b { ptr = some (realloc b.ptr more); capacity = more }))
    else (success, some b)

-- `b->ptr[i] = c`
unfoldable pub store_at : Option Mem → ℕ → ℕ → Result (Option Mem)
store_at none i c = fault
store_at (some m) i c = do m' ← store m i c; ok (some m')

-- What the copying functions do with the prepared buffer.
unfoldable pub fill_string : Option Buffer → Mem → ℕ → Result Update
fill_string none s s_len = fault
fill_string (some b) s s_len = do
  p ← memcpy b.ptr 0 s s_len
  ok (success, some (record b { ptr = p; len = s_len }))

unfoldable pub buffer_copy_string : Option Buffer → Option Mem → Result Update
buffer_copy_string b none = ok (failure, b)
buffer_copy_string none (some s) = ok (failure, none)
buffer_copy_string (some b) (some s) = do
  n ← strlen s
  let s_len = add_size n 1
  fill_string (buffer_prepare_copy (some b) s_len).1 s s_len

unfoldable pub fill_string_len : Option Buffer → Mem → ℕ → Result Update
fill_string_len none s s_len = fault
fill_string_len (some b) s s_len = do
  p ← memcpy b.ptr 0 s s_len
  q ← store_at p s_len 0
  ok (success, some (record b { ptr = q; len = add_size s_len 1 }))

unfoldable pub buffer_copy_string_len : Option Buffer → Option Mem → ℕ → Result Update
buffer_copy_string_len b none s_len = ok (failure, b)
buffer_copy_string_len none (some s) s_len = ok (failure, none)
buffer_copy_string_len (some b) (some s) s_len =
    fill_string_len (buffer_prepare_copy (some b) (add_size s_len 1)).1 s s_len

-- The block after `b->ptr[0] = '\0'`.
unfoldable pub buffer_reset : Option Buffer → Result (Option Buffer)
buffer_reset none = ok none
buffer_reset (some b) =
    if ltb buffer_max_reuse_size b.capacity
    then ok (some (record { ptr = none; len = 0; capacity = 0 }))
    else if 0 == b.capacity
    then ok (some (record b { len = 0 }))
    else do p ← store_at b.ptr 0 0; ok (some (record b { ptr = p; len = 0 }))

unfoldable pub buffer_copy_string_buffer : Option Buffer → Option Buffer → Result Update
buffer_copy_string_buffer b none = ok (failure, b)
buffer_copy_string_buffer b (some src) =
    if src.len == 0
    then (do b' ← buffer_reset b; ok (success, b'))
    else buffer_copy_string_len b src.ptr (src.len - 1)

-- `if (b->len == 0) b->len++`, then the copy over the old terminator.
unfoldable pub extend_string : Option Buffer → Mem → ℕ → Result Update
extend_string none s s_len = fault
extend_string (some b) s s_len = do
  let len = if b.len == 0 then add_size b.len 1 else b.len
  p ← memcpy b.ptr (len - 1) s (add_size s_len 1)
  ok (success, some (record b { ptr = p; len = add_size len s_len }))

unfoldable pub buffer_append_string : Option Buffer → Option Mem → Result Update
buffer_append_string b none = ok (failure, b)
buffer_append_string none (some s) = ok (failure, none)
buffer_append_string (some b) (some s) = do
  s_len ← strlen s
  extend_string (buffer_prepare_append (some b) (add_size s_len 1)).1 s s_len

unfoldable pub extend_string_len : Option Buffer → Mem → ℕ → Result Update
extend_string_len none s s_len = fault
extend_string_len (some b) s s_len = do
  let old = if b.len == 0 then add_size b.len 1 else b.len
  p ← memcpy b.ptr (old - 1) s s_len
  let len = add_size old s_len
  q ← store_at p (len - 1) 0
  ok (success, some (record b { ptr = q; len = len }))

unfoldable pub buffer_append_string_len : Option Buffer → Option Mem → ℕ → Result Update
buffer_append_string_len b none s_len = ok (failure, b)
buffer_append_string_len none (some s) s_len = ok (failure, none)
buffer_append_string_len (some b) (some s) s_len =
    if s_len == 0
    then ok (success, some b)
    else extend_string_len (buffer_prepare_append (some b) (add_size s_len 1)).1 s s_len

-- A constructor's `buffer*` after the copy, whose status it ignores.
abbrev pub made : Update → Result Buffer
made (s, none) = fault
made (s, some b) = ok b

unfoldable pub buffer_init_string : Option Mem → Result Buffer
buffer_init_string str = do u ← buffer_copy_string (some buffer_init) str; made u

unfoldable pub buffer_init_string_len : Option Mem → ℕ → Result Buffer
buffer_init_string_len str len = do u ← buffer_copy_string_len (some buffer_init) str len; made u

unfoldable pub buffer_init_buffer : Option Buffer → Result Buffer
buffer_init_buffer src = do u ← buffer_copy_string_buffer (some buffer_init) src; made u

-- `buffer_getline`; `getline` gives the block, its capacity and the number of bytes, none for -1, which
-- becomes the largest `size_t`.
unfoldable pub buffer_getline :
    {File : Type 0}
    → (Option Mem → ℕ → File → Option Mem × ℕ × Option ℕ × File)
    → Option Buffer
    → File
    → Result (ℕ × Buffer × File)
buffer_getline getline none f = fault
buffer_getline getline (some b) f =
    let (p, capacity, nbytes, f') = getline b.ptr b.capacity f in
    let n : ℕ = elim nbytes [ none ↦ size_mod - 1 | some n ↦ n ] in
    ok (n, record b { ptr = p; capacity = capacity; len = n }, f')

-- What `free` is called with: the characters of a buffer, which may be NULL, or the buffer itself.
pub data Freed : Type 0 where
  characters : Option Mem → Freed
  itself : Buffer → Freed

-- The calls of `free` by `buffer_free`.
unfoldable pub buffer_free : Option Buffer → List Freed
buffer_free none = []
buffer_free (some b) = characters b.ptr ∷ itself b ∷ []
