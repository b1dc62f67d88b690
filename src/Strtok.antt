-- ===== src/Strtok.antt =====
-- `strtok` and `strcmp` of <string.h>, which the plugins and their loader call.
pub mod Laws
use squid_helper.Base.{
  ◌&&◌, ◌==◌, if◌then◌else◌, Option, Bool, ℕ, zero, suc, true, false, none, some, [], ◌∷◌, ◌++◌,
  refl,
}
use squid_helper.Memory.{Bytes}

-- `strtok_r`: the token behind the delimiters at the front, and what follows the delimiter that ends
-- it; `none` is NULL.
unfoldable pub skip_delimiters : (ℕ → Bool) → Bytes → Bytes
skip_delimiters delim [] = []
skip_delimiters delim (c ∷ t) =
    let rest = skip_delimiters delim t in if delim c then rest else c ∷ t

unfoldable pub take_token : (ℕ → Bool) → Bytes → Bytes × Bytes
take_token delim [] = ([], [])
take_token delim (c ∷ t) =
    let (token, rest) = take_token delim t in if delim c then ([], t) else (c ∷ token, rest)

unfoldable pub nonempty_token : Bytes × Bytes → Option (Bytes × Bytes)
nonempty_token ([], rest) = none
nonempty_token (c ∷ token, rest) = some (c ∷ token, rest)

unfoldable pub strtok : (ℕ → Bool) → Bytes → Option (Bytes × Bytes)
unfolding nonempty_token
strtok delim t = nonempty_token (take_token delim (skip_delimiters delim t))

-- `strcmp(a, b) == 0`
unfoldable pub str_equal : Bytes → Bytes → Bool
str_equal [] [] = true
str_equal [] (d ∷ b) = false
str_equal (c ∷ a) [] = false
str_equal (c ∷ a) (d ∷ b) = c == d && str_equal a b
