-- ===== src/Worker/Heed.antt =====
-- Which channel and which word a line of Squid asks about, for the `sscanf` in worker of
-- src/core/main.c.
use squid_helper.Worker.Reply.{IsDecimal, IsDigit, value}
use squid_helper.Scanf.RoundTrip.{take_word_lem, skip_space-word, scan_size-digit, IsWord}
use squid_helper.Scanf.{scan_request, scan_size, read_digits, is_digit, saturate}
use squid_helper.Memory.{Bytes}
use squid_helper.Base.{
  lt→ltb, arith, ℕ, ◌+◌, ◌-◌, ◌*◌, ◌≡◌, ◌≤◌, ◌<◌, refl, ap, ◌∙◌, All, length, size_mod, [], ◌∷◌,
  ◌++◌, some, true,
}

-- Of a line that is a decimal number within `size_t`, a blank and a word that the conversion holds, the
-- number and the word are read.
abbrev pub Heeds : ℕ → Bytes → ℕ × Bytes → Type 0
Heeds width t r =
    (n : ℕ) (digits word : Bytes)
    → IsDecimal n digits
    → n < size_mod
    → IsWord word
    → length word ≤ width
    → t ≡ digits ++ b' ' ∷ word
    → r ≡ (n, word)

digit_lem : (c : ℕ) → IsDigit c → is_digit c ≡ true
digit_lem c h = ground arith

read_digits-value :
    (n : ℕ) (digits rest : Bytes)
    → All IsDigit digits
    → read_digits n (digits ++ b' ' ∷ rest) ≡ (value n digits, b' ' ∷ rest)
unfolding read_digits
read_digits-value n [] rest h = refl
read_digits-value n (c ∷ digits) rest h =
    rw (digit_lem c h.0) (read_digits-value (n * 10 + (c - b'0')) digits rest h.1)

scan_size-decimal :
    (n : ℕ) (digits rest : Bytes)
    → IsDecimal n digits
    → n < size_mod
    → scan_size (digits ++ b' ' ∷ rest) ≡ some (n, b' ' ∷ rest)
scan_size-decimal n [] rest d h = absurd (d.nonempty refl)
scan_size-decimal n (c ∷ digits) rest d h =
    let (lo, hi) = d.digits.0 in
    scan_size-digit c (digits ++ b' ' ∷ rest) lo hi
    ∙ ap (λ q. some (saturate q.0, q.1)) (read_digits-value 0 (c ∷ digits) rest d.digits)
    ∙ ap (λ q. some (saturate q, b' ' ∷ rest)) d.spells
    ∙ rw (lt→ltb n size_mod h)

pub scan_request-Heeds : (width : ℕ) (t : Bytes) → Heeds width t (scan_request width t)
unfolding scan_request
scan_request-Heeds width t n digits word d h w l e = rw (
  e,
  scan_request,
  scan_size-decimal n digits word d h,
  skip_space-word word w,
  take_word_lem width word w l,
)
