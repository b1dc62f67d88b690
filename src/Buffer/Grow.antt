-- ===== src/Buffer/Grow.antt =====
-- The two functions that make room: buffer_prepare_copy and buffer_prepare_append.
use squid_helper.Base.{
  ℕ, ◌+◌, ◌-◌, ◌*◌, ◌%◌, ◌≤◌, ◌<◌, Option, none, some, Bool-cases, ◌⊎◌, inl, inr, ◌||◌, ◌==◌, ltb,
  ◌++◌, [], ◌∷◌, zero, suc, append-nil, sym, ◌∙◌, take, length, length-append, length-replicate,
  length-take, ◌≡◌, refl, ap, arith, size_mod, add_size,
}
use native.Mathlib.Decide.{dec_le}
use squid_helper.Memory.{Mem, malloc, realloc}
use squid_helper.Buffer.{
  Buffer, Status, success, buffer_piece_size, round_capacity, buffer_prepare_copy,
  buffer_prepare_append,
}
use squid_helper.Buffer.Holds.{block, IsValid}

-- A size that is far from the end of `size_t` is rounded up, past itself, to a multiple.
pub round_capacity_bounds :
    (n : ℕ)
    → n + buffer_piece_size < size_mod
    → (n < round_capacity n)
      × (round_capacity n ≤ n + buffer_piece_size)
      × (round_capacity n % buffer_piece_size ≡ 0)
unfolding round_capacity
round_capacity_bounds n h = omega arith

-- An empty buffer with room for `size` bytes.
pub record Emptied (b : Buffer) (size : ℕ) (u : Status × Option Buffer) : Type 0 where
  pub mem : Mem
  pub cap : ℕ
  pub result : u ≡ (success, some (record { ptr = some mem; len = 0; capacity = cap }))
  pub sized : length mem ≡ cap
  pub rounded : cap % buffer_piece_size ≡ 0
  pub room : size ≤ cap
  pub near : cap ≤ b.capacity + size + buffer_piece_size

-- A valid buffer with some capacity has a block.
pub ptr-eq-block : (p : Option Mem) → 0 < length (block p) → p ≡ some (block p)
ptr-eq-block none h = absurd (omega arith)
ptr-eq-block (some m) h = refl

pub buffer_prepare_copy_lem :
    (b : Buffer) (size : ℕ)
    → IsValid b
    → size + buffer_piece_size < size_mod
    → Emptied b size (buffer_prepare_copy (some b) size)
unfolding buffer_prepare_copy
buffer_prepare_copy_lem b size v h = elim (Bool-cases (0 == b.capacity || ltb b.capacity size)) [
  | inl e ↦ record {
    mem = malloc (round_capacity size);
    cap = round_capacity size;
    result = rw e;
    sized = length-replicate (round_capacity size) none;
    rounded = (round_capacity_bounds size h).2;
    room = omega (arith, round_capacity_bounds size h);
    near = omega (arith, round_capacity_bounds size h);
  }
  | inr e ↦ record {
    mem = block b.ptr;
    cap = b.capacity;
    result = rw e (λ i. (
      success,
      some (record { ptr = ptr-eq-block b.ptr (ground arith) i; len = 0; capacity = b.capacity }),
    ));
    sized = v.sized;
    rounded = v.rounded;
    room = ground arith;
    near = omega arith;
  }
]

-- A buffer with room for `size` more bytes, whose block begins as the old one did.
pub record Extended (b : Buffer) (size : ℕ) (u : Status × Option Buffer) : Type 0 where
  pub mem : Mem
  pub more : Mem
  pub cap : ℕ
  pub result : u ≡ (success, some (record { ptr = some mem; len = b.len; capacity = cap }))
  pub same : mem ≡ block b.ptr ++ more
  pub sized : length mem ≡ cap
  pub rounded : cap % buffer_piece_size ≡ 0
  pub room : b.len + size ≤ cap
  pub grown : (cap ≡ b.capacity) ⊎ (cap ≤ b.len + 2 * size + buffer_piece_size)

block_empty : (p : Option Mem) → length (block p) ≡ 0 → block p ≡ []
block_empty none h = refl
block_empty (some []) h = refl
block_empty (some (x ∷ m)) h = absurd (omega arith)

length-realloc : (p : Option Mem) (n : ℕ) → length (block p) ≤ n → length (realloc p n) ≡ n
length-realloc none n h = length-replicate n none
length-realloc (some m) n h = omega (
  arith,
  length-append (take n m) (malloc (n - length m)),
  length-take n m,
  length-replicate {0} {A = Option ℕ} (n - length m) none,
)

take_all : (m : Mem) (n : ℕ) → length m ≤ n → take n m ≡ m
take_all [] zero h = refl
take_all [] (suc n) h = refl
take_all (x ∷ m) zero h = absurd (omega arith)
take_all (x ∷ m) (suc n) h = ap (◌∷◌ x) (take_all m n (omega arith))

realloc_lem :
    (p : Option Mem) (n : ℕ)
    → length (block p) ≤ n
    → realloc p n ≡ block p ++ malloc (n - length (block p))
realloc_lem none n h = ap malloc (omega arith)
realloc_lem (some m) n h = rw (take_all m n h)

module _ (b : Buffer) (size : ℕ) (v : IsValid b) (fits : b.len ≤ b.capacity)
    (h : b.capacity + size + buffer_piece_size < size_mod) where
  append_first : b.capacity ≡ 0 → Extended b size (buffer_prepare_append (some b) size)
  unfolding buffer_prepare_append
  append_first z = record {
    mem = malloc (round_capacity size);
    more = malloc (round_capacity size);
    cap = round_capacity size;
    result = ground arith;
    same = rw (block_empty b.ptr (omega (arith, v.sized)));
    sized = length-replicate (round_capacity size) none;
    rounded = (round_capacity_bounds size (omega arith)).2;
    room = omega (arith, round_capacity_bounds size);
    grown = inr (omega (arith, round_capacity_bounds size));
  }

  append_grows :
      0 < b.capacity
      → b.capacity < b.len + size
      → Extended b size (buffer_prepare_append (some b) size)
  unfolding buffer_prepare_append
  append_grows z g =
      let c = round_capacity (b.capacity + size) in
      let (lo, hi, r) = round_capacity_bounds (b.capacity + size) h in
      let s : add_size b.capacity size ≡ b.capacity + size = omega arith in
      record {
        mem = realloc b.ptr c;
        more = malloc (c - length (block b.ptr));
        cap = c;
        result = rw s (ground arith);
        same = realloc_lem b.ptr c (omega (arith, v.sized));
        sized = length-realloc b.ptr c (omega (arith, v.sized));
        rounded = r;
        room = omega arith;
        grown = inr (omega arith);
      }

  append_fits :
      0 < b.capacity
      → b.len + size ≤ b.capacity
      → Extended b size (buffer_prepare_append (some b) size)
  unfolding buffer_prepare_append
  append_fits z g = record {
    mem = block b.ptr;
    more = [];
    cap = b.capacity;
    result =
        let same : buffer_prepare_append (some b) size ≡ (success, some b) = ground arith in
        let p : b.ptr ≡ some (block b.ptr) = ptr-eq-block b.ptr (omega (arith, v.sized)) in
        same ∙ (λ i. (success, some (record { ptr = p i; len = b.len; capacity = b.capacity })));
    same = sym (append-nil (block b.ptr));
    sized = v.sized;
    rounded = v.rounded;
    room = g;
    grown = inl refl;
  }

  -- buffer_prepare_append on a valid buffer whose length is at most its capacity, where no sum
  -- wraps: it succeeds, there is then room for `size` bytes behind the old length, the old bytes
  -- are still in front, and the new capacity is a multiple of 64 in proportion to need.
  pub buffer_prepare_append_lem : Extended b size (buffer_prepare_append (some b) size)
  buffer_prepare_append_lem = elim (dec_le b.capacity 0) [
    | yes z ↦ append_first (omega arith)
    | no z ↦ elim (dec_le (b.len + size) b.capacity) [
      | yes g ↦ append_fits (omega arith) g
      | no g ↦ append_grows (omega arith) (omega arith)
    ]
  ]
