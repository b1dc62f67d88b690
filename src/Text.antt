-- ===== src/Text.antt =====
-- The string functions at the end of src/core/webcontrol_buffer.c, which change a string in place.
pub mod Case
pub mod Truncate
use squid_helper.Base.{
  ◌∷◌, ltb, ◌+◌, ◌%◌, bit_or, bit_and, ◌/◌, ◌&&◌, ◌==◌, ◌-◌, leb, if◌then◌else◌, ℕ, zero, suc, true,
  false, none, some, [], refl,
}
use squid_helper.Memory.{store, assert, strlen, load, Mem, Result, ok, fault, abort, ◌>>=◌, ◌>>◌}

-- `~32` as far as a byte goes.
abbrev pub not_32 : ℕ
not_32 = 223

-- The body of the loop of `strtoupper`.
unfoldable pub upper : ℕ → ℕ
upper c = if leb b'a' c && leb c b'z' then bit_and c not_32 else c

-- The body of the loop of `strtolower`.
unfoldable pub lower : ℕ → ℕ
lower c = if leb b'A' c && leb c b'Z' then bit_or c 32 else c

unfoldable pub strtoupper : Mem → Result Mem
strtoupper [] = fault
strtoupper (none ∷ m) = fault
strtoupper (some c ∷ m) =
    let rest = (do m' ← strtoupper m; ok (some (upper c) ∷ m')) in
    if c == 0 then ok (some c ∷ m) else rest

unfoldable pub strtolower : Mem → Result Mem
strtolower [] = fault
strtolower (none ∷ m) = fault
strtolower (some c ∷ m) =
    let rest = (do m' ← strtolower m; ok (some (lower c) ∷ m')) in
    if c == 0 then ok (some c ∷ m) else rest

module _ (start : ℕ) (sep : Mem) (sep_len : ℕ) where
  -- The `for` loop of `truncate_string` with the rounds that are left, `i` and `x`.
  unfoldable pub fill : ℕ → Mem → ℕ → ℕ → Result Mem
  fill zero str i x = ok str
  fill (suc rounds) str i x =
      let from_sep = (do
        c ← load sep (i - start)
        str' ← store str i c
        fill rounds str' (i + 1) x) in
      let from_str = (do c ← load str x; str' ← store str i c; fill rounds str' (i + 1) (x + 1)) in
      if ltb (i - start) sep_len then from_sep else from_str

unfoldable pub truncate_string : Mem → ℕ → Mem → Result Mem
truncate_string str max_len sep = do
  len ← strlen str
  let truncated = (do
    sep_len ← strlen sep
    assert (leb sep_len max_len)
    let start = (max_len - sep_len) / 2
    let x = if max_len % 2 == 0 then len - start else len - start - 1
    str' ← fill start sep sep_len (max_len - start) str start x
    store str' max_len 0)
  if leb len max_len then ok str else truncated
