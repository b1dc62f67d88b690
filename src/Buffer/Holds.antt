-- ===== src/Buffer/Holds.antt =====
-- What a buffer stands for: nothing yet, or a string.
use squid_helper.Base.{
  ◌+◌, ◌*◌, ◌%◌, ◌≤◌, Option, none, some, [], ◌∷◌, ◌++◌, map, length, length-append, drop, ℕ, ◌<◌,
  ◌≡◌, refl, arith,
}
use squid_helper.Memory.{Bytes, Mem, ok}
use squid_helper.Memory.Laws.{length-text, store_lem}
use squid_helper.Buffer.{Buffer, buffer_init, buffer_piece_size, store_at}

-- The block behind a pointer.
abbrev pub block : Option Mem → Mem
block none = []
block (some m) = m

-- The block is as long as `capacity` says, and that is a multiple of the piece size.
pub record IsValid (b : Buffer) : Type 0 where
  pub sized : length (block b.ptr) ≡ b.capacity
  pub rounded : b.capacity % buffer_piece_size ≡ 0

-- A block that begins with a string and its terminator.
abbrev pub stored : Bytes → Mem → Mem
stored t rest = map some t ++ some 0 ∷ rest

pub length-stored : (t : Bytes) (rest : Mem) → length (stored t rest) ≡ length t + 1 + length rest
length-stored t rest = omega (arith, length-append (map some t) (some 0 ∷ rest), length-text t)

-- The contents of the buffer: `none` where `len` is 0.
abbrev pub Content : Buffer → Option Bytes → Type 0
Content b none = b.len ≡ 0
Content b (some t) = (rest : Mem) × (b.ptr ≡ some (stored t rest)) × (b.len ≡ length t + 1)

pub record Holds (b : Buffer) (o : Option Bytes) : Type 0 where
  pub valid : IsValid b
  pub content : Content b o

-- The string, if there is none the empty one.
abbrev pub text : Option Bytes → Bytes
text none = []
text (some t) = t

-- The capacity stays near what the appended strings need.
abbrev pub IsTight : Buffer → Type 0
IsTight b = b.capacity ≤ 2 * b.len + 320

-- The line buffer holds `o`, in no more memory than that needs.
pub record Pending (b : Buffer) (o : Option Bytes) : Type 0 where
  pub holds : Holds b o
  pub tight : IsTight b

pub buffer_init-Holds : Holds buffer_init none
buffer_init-Holds = record { valid = omega arith; content = refl }

pub store_at_lem :
    (pre old : Mem) (c i : ℕ)
    → i ≡ length pre
    → 0 < length old
    → store_at (some (pre ++ old)) i c ≡ ok (some (pre ++ some c ∷ drop 1 old))
unfolding store_at
store_at_lem pre old c i e h = rw (store_lem pre old c i e h)
