-- ===== src/Text/Case.antt =====
-- strtoupper and strtolower of src/core/webcontrol_buffer.c.
use squid_helper.Buffer.Holds.{stored}
use squid_helper.Memory.Laws.{IsNulFree}
use squid_helper.Base.{
  ==_of_ne, ◌∷◌, ◌==◌, ◌-◌, ◌+◌, leb, ◌||◌, ◌<◌, ◌&&◌, map, if◌then◌else◌, bit_or, bit_and, arith,
  ◌≤◌, ◌≢◌, ◌≡◌, ltb, Bool, ℕ, zero, suc, true, [], refl,
}
use squid_helper.Memory.{◌>>=◌, Bytes, Mem, ok}
use squid_helper.Text.{upper, lower, strtoupper, strtolower}

all_below : ℕ → (ℕ → Bool) → Bool
all_below zero p = true
all_below (suc n) p = p n && all_below n p

all_below_sound : (n : ℕ) (p : ℕ → Bool) (c : ℕ) → all_below n p ≡ true → c < n → p c ≡ true
unfolding all_below
all_below_sound zero p c h l = absurd (omega arith)
all_below_sound (suc n) p c h l = ground (arith, all_below_sound n p c)

-- Clearing bit 5 of a small letter, and setting it in a capital.
upper_table : all_below 123 (λ c. ltb c 97 || (bit_and c 223 == c - 32)) ≡ true
unfolding all_below
upper_table = refl

lower_table : all_below 91 (λ c. ltb c 65 || (bit_or c 32 == c + 32)) ≡ true
unfolding all_below
lower_table = refl

pub bit_and_letter : (c : ℕ) → 97 ≤ c → c ≤ 122 → bit_and c 223 ≡ c - 32
bit_and_letter c lo hi = ground (arith, all_below_sound 123 _ c upper_table (omega arith))

pub bit_or_letter : (c : ℕ) → 65 ≤ c → c ≤ 90 → bit_or c 32 ≡ c + 32
bit_or_letter c lo hi = ground (arith, all_below_sound 91 _ c lower_table (omega arith))

-- `upper` subtracts 32 from a small letter and keeps any other byte.
pub upper_lem : (c : ℕ) → upper c ≡ (if leb b'a' c && leb c b'z' then c - 32 else c)
unfolding upper
upper_lem c = ground (arith, bit_and_letter c)

pub lower_lem : (c : ℕ) → lower c ≡ (if leb b'A' c && leb c b'Z' then c + 32 else c)
unfolding lower
lower_lem c = ground (arith, bit_or_letter c)

pub upper_nonzero : (c : ℕ) → c ≢ 0 → upper c ≢ 0
upper_nonzero c h = ground (arith, upper_lem c)

pub lower_nonzero : (c : ℕ) → c ≢ 0 → lower c ≢ 0
lower_nonzero c h = ground (arith, lower_lem c)

pub strtoupper_lem :
    (t : Bytes) (rest : Mem)
    → IsNulFree t
    → strtoupper (stored t rest) ≡ ok (stored (map upper t) rest)
unfolding strtoupper
strtoupper_lem [] rest z = refl
strtoupper_lem (c ∷ t) rest z = rw (==_of_ne c 0 z.0, strtoupper_lem t rest z.1)

pub strtolower_lem :
    (t : Bytes) (rest : Mem)
    → IsNulFree t
    → strtolower (stored t rest) ≡ ok (stored (map lower t) rest)
unfolding strtolower
strtolower_lem [] rest z = refl
strtolower_lem (c ∷ t) rest z = rw (==_of_ne c 0 z.0, strtolower_lem t rest z.1)

pub IsNulFree-upper : (t : Bytes) → IsNulFree t → IsNulFree (map upper t)
IsNulFree-upper [] z = tt
IsNulFree-upper (c ∷ t) z = (upper_nonzero c z.0, IsNulFree-upper t z.1)

upper-upper : (c : ℕ) → upper (upper c) ≡ upper c
upper-upper c = ground (arith, upper_lem c, upper_lem (upper c))

upper-lower : (c : ℕ) → upper (lower c) ≡ upper c
upper-lower c = ground (arith, upper_lem c, lower_lem c, upper_lem (lower c))

map_twice : (f g h : ℕ → ℕ) → ((c : ℕ) → f (g c) ≡ h c) → (t : Bytes) → map f (map g t) ≡ map h t
map_twice f g h e [] = refl
map_twice f g h e (c ∷ t) = rw (e c, map_twice f g h e t)

-- The capital of a small ASCII letter; any other byte is its own.
abbrev pub ascii_upper : ℕ → ℕ
ascii_upper c = if leb b'a' c && leb c b'z' then c - 32 else c

pub map_pointwise : (f g : ℕ → ℕ) → ((c : ℕ) → f c ≡ g c) → (t : Bytes) → map f t ≡ map g t
map_pointwise f g e [] = refl
map_pointwise f g e (c ∷ t) = rw (e c, map_pointwise f g e t)

IsNulFree-lower : (t : Bytes) → IsNulFree t → IsNulFree (map lower t)
IsNulFree-lower [] z = tt
IsNulFree-lower (c ∷ t) z = (lower_nonzero c z.0, IsNulFree-lower t z.1)

-- On a string with no NUL, `strtoupper` writes the ASCII capitals over the small letters and keeps
-- every other byte, the terminator and what follows it; after `strtolower` or after itself it gives
-- the same string.
pub strtoupper_ascii :
    (t : Bytes) (rest : Mem)
    → IsNulFree t
    → (strtoupper (stored t rest) ≡ ok (stored (map ascii_upper t) rest))
      × ((strtolower (stored t rest) >>= strtoupper) ≡ strtoupper (stored t rest))
      × ((strtoupper (stored t rest) >>= strtoupper) ≡ strtoupper (stored t rest))
strtoupper_ascii t rest z = (
  rw (strtoupper_lem t rest z, map_pointwise upper ascii_upper upper_lem t),
  rw (
    strtolower_lem t rest z,
    strtoupper_lem (map lower t) rest (IsNulFree-lower t z),
    strtoupper_lem t rest z,
    map_twice upper lower upper upper-lower t,
  ),
  rw (
    strtoupper_lem t rest z,
    strtoupper_lem (map upper t) rest (IsNulFree-upper t z),
    map_twice upper upper upper upper-upper t,
  ),
)
