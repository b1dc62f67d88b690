-- ===== src/Scanf.antt =====
-- The conversions of <stdio.h> that src/core/main.c uses: `sscanf` with "%zu %45s" (or "%15s") and
-- `fprintf` with "%zu".
pub mod RoundTrip
use squid_helper.Base.{
  ◌||◌, ◌-◌, ◌&&◌, ◌%◌, ◌==◌, ◌+◌, size_mod, ltb, leb, ◌/◌, ◌*◌, if◌then◌else◌, Option, Bool, ℕ,
  zero, suc, true, false, none, some, [], ◌∷◌, ◌++◌, refl,
}
use squid_helper.Memory.{◌>>=◌, Bytes, Mem, Result, ok, fault, abort}

-- The text of a C string.
unfoldable pub c_string : Mem → Result Bytes
c_string [] = fault
c_string (none ∷ m) = fault
c_string (some c ∷ m) = let rest = (do t ← c_string m; ok (c ∷ t)) in if c == 0 then ok [] else rest

-- `isspace` and `isdigit`
abbrev pub is_space : ℕ → Bool
is_space c = c == 32 || (leb 9 c && leb c 13)

abbrev pub is_digit : ℕ → Bool
is_digit c = leb b'0' c && leb c b'9'

unfoldable pub skip_space : Bytes → Bytes
skip_space [] = []
skip_space (c ∷ t) = let rest = skip_space t in if is_space c then rest else c ∷ t

-- The digits at the front, as a number on top of `acc`, and what follows them.
unfoldable pub read_digits : ℕ → Bytes → ℕ × Bytes
read_digits acc [] = (acc, [])
read_digits acc (c ∷ t) =
    let rest = read_digits (acc * 10 + (c - b'0')) t in if is_digit c then rest else (acc, c ∷ t)

-- What glibc's `strtoul` makes of a number behind no sign or a plus, and of one behind a minus: a
-- number that does not fit is the largest one, whatever its sign is.
abbrev pub saturate : ℕ → ℕ
saturate n = if ltb n size_mod then n else size_mod - 1

abbrev pub negate : ℕ → ℕ
negate n = if ltb n size_mod then (size_mod - n) % size_mod else size_mod - 1

unfoldable pub starts_digit : Bytes → Bool
starts_digit [] = false
starts_digit (c ∷ t) = is_digit c

-- A number behind its sign, `none` where no digit stands.
unfoldable pub scan_digits : (ℕ → ℕ) → Bytes → Option (ℕ × Bytes)
scan_digits convert t =
    let (n, rest) = read_digits 0 t in if starts_digit t then some (convert n, rest) else none

-- "%zu": blanks, a sign, digits. A minus sign negates in the type.
unfoldable pub scan_sign : Bytes → Option (ℕ × Bytes)
scan_sign [] = none
scan_sign (c ∷ t) =
    if c == b'-'
    then scan_digits negate t
    else if c == b'+'
    then scan_digits saturate t
    else scan_digits saturate (c ∷ t)

unfoldable pub scan_size : Bytes → Option (ℕ × Bytes)
scan_size t = scan_sign (skip_space t)

-- "%45s" after its blanks: at most `width` bytes that are no blanks.
unfoldable pub take_word : ℕ → Bytes → Bytes
take_word zero t = []
take_word (suc width) [] = []
take_word (suc width) (c ∷ t) = let rest = take_word width t in if is_space c then [] else c ∷ rest

-- `sscanf(line, "%zu %45s", &channel, str)` on a zeroed channel and string: a conversion that fails
-- ends the call and leaves the rest as it was.
unfoldable pub scan_request : ℕ → Bytes → ℕ × Bytes
scan_request width t = elim (scan_size t) [
  | none ↦ (0, [])
  | some (n, rest) ↦ (n, take_word width (skip_space rest))
]

-- "%zu" of `fprintf`. The fuel is more than the digits of any number up to it.
unfoldable pub print_digits : ℕ → ℕ → Bytes → Bytes
print_digits zero n acc = acc
print_digits (suc fuel) n acc =
    let rest = print_digits fuel (n / 10) ((b'0' + n % 10) ∷ acc) in
    if ltb n 10 then (b'0' + n) ∷ acc else rest

unfoldable pub print_size : ℕ → Bytes
print_size n = print_digits (suc n) n []
