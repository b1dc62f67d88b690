-- ===== src/Strtok/Laws.antt =====
-- What `strtok` gives for a token that is known.
use squid_helper.Strtok.{str_equal, skip_delimiters, take_token, strtok}
use squid_helper.Base.{
  ◌↔◌, arith, ==_self, ◌≢◌, ◌≡◌, All, Bool, ℕ, true, false, some, [], ◌∷◌, ◌++◌, refl,
}
use squid_helper.Memory.{Bytes}

-- Bytes with no delimiter among them.
abbrev pub IsToken : (ℕ → Bool) → Bytes → Type 0
IsToken delim t = All (λ c. delim c ≡ false) t

take_token_end : (delim : ℕ → Bool) (t : Bytes) → IsToken delim t → take_token delim t ≡ (t, [])
unfolding take_token
take_token_end delim [] h = refl
take_token_end delim (c ∷ t) h = rw (h.0, take_token_end delim t h.1)

take_token_delimiter :
    (delim : ℕ → Bool) (t : Bytes) (c : ℕ) (rest : Bytes)
    → IsToken delim t
    → delim c ≡ true
    → take_token delim (t ++ c ∷ rest) ≡ (t, rest)
unfolding take_token
take_token_delimiter delim [] c rest h d = rw d
take_token_delimiter delim (b ∷ t) c rest h d = rw (h.0, take_token_delimiter delim t c rest h.1 d)

-- A token and the delimiter behind it.
pub strtok_delimiter :
    (delim : ℕ → Bool) (t : Bytes) (c : ℕ) (rest : Bytes)
    → t ≢ []
    → IsToken delim t
    → delim c ≡ true
    → strtok delim (t ++ c ∷ rest) ≡ some (t, rest)
unfolding strtok skip_delimiters
strtok_delimiter delim [] c rest n h d = absurd (n refl)
strtok_delimiter delim (b ∷ t) c rest n h d =
    rw (h.0, take_token_delimiter delim (b ∷ t) c rest h d)

-- A token at the end of the string.
pub strtok_end :
    (delim : ℕ → Bool) (t : Bytes) → t ≢ [] → IsToken delim t → strtok delim t ≡ some (t, [])
unfolding strtok skip_delimiters
strtok_end delim [] n h = absurd (n refl)
strtok_end delim (b ∷ t) n h = rw (h.0, take_token_end delim (b ∷ t) h)

-- `strcmp` gives 0 for equal texts only.
pub str_equal_self : (a : Bytes) → str_equal a a ≡ true
unfolding str_equal
str_equal_self [] = refl
str_equal_self (c ∷ a) = rw (==_self c, str_equal_self a)

pub str_equal_to_eq : (a b : Bytes) → str_equal a b ≡ true → a ≡ b
unfolding str_equal
str_equal_to_eq [] [] e = refl
str_equal_to_eq [] (d ∷ b) e = cc
str_equal_to_eq (c ∷ a) [] e = cc
str_equal_to_eq (c ∷ a) (d ∷ b) e =
    let tails = str_equal_to_eq a b (ground arith) in let heads : c ≡ d = ground arith in cc

pub str_equal_iff : (a b : Bytes) → (str_equal a b ≡ true) ↔ (a ≡ b)
str_equal_iff a b = (str_equal_to_eq a b, λ e. rw (← e) (str_equal_self a))
