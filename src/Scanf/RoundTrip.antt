-- ===== src/Scanf/RoundTrip.antt =====
-- The numbers that src/core/main.c prints and reads.
use native.Mathlib.Decide.{dec_lt}
use squid_helper.Buffer.Holds.{stored}
use squid_helper.Memory.Laws.{IsNulFree}
use squid_helper.Scanf.{
  is_space, take_word, scan_request, saturate, print_size, starts_digit, skip_space, scan_digits,
  scan_sign, scan_size, print_digits, read_digits, is_digit, c_string,
}
use squid_helper.Base.{
  inr, inl, Option-cases, length, All, size_mod, ap, ◌∙◌, ◌-◌, ◌*◌, ◌%◌, le→ltb, ◌≤◌, ◌/◌, ◌+◌,
  lt→ltb, arith, ==_of_ne, ◌<◌, ◌≡◌, ℕ, zero, suc, true, false, some, [], ◌∷◌, ◌++◌, refl,
}
use squid_helper.Memory.{Bytes, Mem, ok}

pub c_string_lem : (t : Bytes) (rest : Mem) → IsNulFree t → c_string (stored t rest) ≡ ok t
unfolding c_string
c_string_lem [] rest z = refl
c_string_lem (c ∷ t) rest z = rw (==_of_ne c 0 z.0, c_string_lem t rest z.1)

-- A text that does not go on with a digit.
abbrev pub IsStopped : Bytes → Type 0
IsStopped [] = Unit
IsStopped (c ∷ t) = is_digit c ≡ false

read_digits-stopped : (acc : ℕ) (t : Bytes) → IsStopped t → read_digits acc t ≡ (acc, t)
unfolding read_digits
read_digits-stopped acc [] h = refl
read_digits-stopped acc (c ∷ t) h = rw h

is_digit_lem : (d : ℕ) → d < 10 → is_digit (b'0' + d) ≡ true
is_digit_lem d h = ground arith

read_digit :
    (acc d : ℕ) (t : Bytes)
    → d < 10
    → read_digits acc ((b'0' + d) ∷ t) ≡ read_digits (acc * 10 + d) t
unfolding read_digits
read_digit acc d t h = let e : b'0' + d - b'0' ≡ d = omega arith in rw (is_digit_lem d h, e)

-- Reading printed digits: their number is then in front of `acc`.
read_digits-print :
    (fuel n : ℕ) (acc : Bytes)
    → n < fuel
    → read_digits 0 (print_digits fuel n acc) ≡ read_digits n acc
unfolding print_digits
read_digits-print zero n acc h = absurd (omega arith)
read_digits-print (suc fuel) n acc h = elim (dec_lt n 10) [
  | yes p ↦ rw (lt→ltb n 10 p) (read_digit 0 n acc p ∙ ap (λ k. read_digits k acc) (omega arith))
  | no p ↦
      let e : n / 10 * 10 + n % 10 ≡ n = omega arith in
      rw (le→ltb n 10 (omega arith)) (
        read_digits-print fuel (n / 10) _ (omega arith)
        ∙ read_digit (n / 10) (n % 10) acc (omega arith)
        ∙ ap (λ k. read_digits k acc) e)
]

print_digits-append :
    (fuel n : ℕ) (acc rest : Bytes)
    → print_digits fuel n acc ++ rest ≡ print_digits fuel n (acc ++ rest)
unfolding print_digits
print_digits-append zero n acc rest = refl
print_digits-append (suc fuel) n acc rest =
    ground (arith, print_digits-append fuel (n / 10) ((b'0' + n % 10) ∷ acc) rest)

-- A printed number begins with a digit.
record StartsDigit (t : Bytes) : Type 0 where
  digit : ℕ
  others : Bytes
  starts : t ≡ digit ∷ others
  low : b'0' ≤ digit
  high : digit ≤ b'9'

print_digits-StartsDigit :
    (fuel n : ℕ) (acc : Bytes) → n < fuel → StartsDigit (print_digits fuel n acc)
unfolding print_digits
print_digits-StartsDigit zero n acc h = absurd (omega arith)
print_digits-StartsDigit (suc fuel) n acc h = elim (dec_lt n 10) [
  | yes p ↦ rw (lt→ltb n 10 p) (record {
    digit = b'0' + n;
    others = acc;
    starts = refl;
    low = omega arith;
    high = omega arith;
  })
  | no p ↦ rw (le→ltb n 10 (omega arith)) (print_digits-StartsDigit fuel (n / 10) _ (omega arith))
]

pub scan_size-digit :
    (d : ℕ) (t : Bytes)
    → b'0' ≤ d
    → d ≤ b'9'
    → scan_size (d ∷ t) ≡ (let (n, rest) = read_digits 0 (d ∷ t) in some (saturate n, rest))
unfolding scan_size scan_sign scan_digits skip_space starts_digit
scan_size-digit d t lo hi = ground arith

-- "%zu" reads back what "%zu" prints, up to the byte that stops it.
pub scan_size-print_size :
    (n : ℕ) (rest : Bytes)
    → n < size_mod
    → IsStopped rest
    → scan_size (print_size n ++ rest) ≡ some (n, rest)
unfolding print_size
scan_size-print_size n rest h k =
    let e = print_digits-append (suc n) n [] rest in
    let f = print_digits-StartsDigit (suc n) n rest (omega arith) in
    let v = read_digits-print (suc n) n rest (omega arith) ∙ read_digits-stopped n rest k in
    let w = scan_size-digit f.digit f.others f.low f.high in
    rw (← f.starts, v, lt→ltb n size_mod h) at (ap scan_size (e ∙ f.starts) ∙ w)

-- A word: bytes that are no blanks.
abbrev pub IsWord : Bytes → Type 0
IsWord t = All (λ c. is_space c ≡ false) t

pub take_word_lem : (width : ℕ) (t : Bytes) → IsWord t → length t ≤ width → take_word width t ≡ t
unfolding take_word
take_word_lem zero [] h l = refl
take_word_lem zero (c ∷ t) h l = absurd (omega arith)
take_word_lem (suc width) [] h l = refl
take_word_lem (suc width) (c ∷ t) h l = rw (h.0, take_word_lem width t h.1 (omega arith))

pub skip_space-word : (t : Bytes) → IsWord t → skip_space (b' ' ∷ t) ≡ t
unfolding skip_space
skip_space-word [] h = refl
skip_space-word (c ∷ t) h = rw h.0

-- A request line, a channel number that fits in `size_t`, a blank and a word without blanks that
-- is no longer than the width of the conversion, is read back as that number and that word.
pub scan_request_lem :
    (width n : ℕ) (t : Bytes)
    → n < size_mod
    → IsWord t
    → length t ≤ width
    → scan_request width (print_size n ++ b' ' ∷ t) ≡ (n, t)
unfolding scan_request
scan_request_lem width n t h w l = rw (
  scan_request,
  scan_size-print_size n (b' ' ∷ t) h refl,
  skip_space-word t w,
  take_word_lem width t w l,
)

print_digits-IsNulFree :
    (fuel n : ℕ) (acc : Bytes) → IsNulFree acc → IsNulFree (print_digits fuel n acc)
unfolding print_digits
print_digits-IsNulFree zero n acc z = z
print_digits-IsNulFree (suc fuel) n acc z = elim (dec_lt n 10) [
  | yes p ↦ rw (lt→ltb n 10 p) (λ e. omega arith, z)
  | no p ↦
      rw (le→ltb n 10 (omega arith)) (print_digits-IsNulFree fuel (n / 10) _ (λ e. omega arith, z))
]

pub print_size-IsNulFree : (n : ℕ) → IsNulFree (print_size n)
unfolding print_size
print_size-IsNulFree n = print_digits-IsNulFree (suc n) n [] tt

-- What the conversion takes is never longer than its width.
length-take_word : (width : ℕ) (t : Bytes) → length (take_word width t) ≤ width
unfolding take_word
length-take_word zero t = omega arith
length-take_word (suc width) [] = omega arith
length-take_word (suc width) (c ∷ t) = ground (arith, length-take_word width t)

pub scan_request-short : (width : ℕ) (t : Bytes) → length (scan_request width t).1 ≤ width
unfolding scan_request
scan_request-short width t = elim (Option-cases (scan_size t)) [
  | inl e ↦ rw (scan_request, e) (omega arith)
  | inr ((n, rest), e) ↦ rw (scan_request, e) (length-take_word width (skip_space rest))
]
