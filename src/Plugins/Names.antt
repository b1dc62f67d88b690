-- ===== src/Plugins/Names.antt =====
-- The list of names on the command line.
use squid_helper.Strtok.{strtok}
use squid_helper.Strtok.Laws.{strtok_delimiter, strtok_end, IsToken}
use squid_helper.Memory.Laws.{IsNulFree}
use squid_helper.Base.{
  All-append, length-append, ◌^◌, ◌≤◌, ◌<◌, some, List, [], ◌∷◌, ◌++◌, length, ◌≡◌, refl, arith,
  ◌≢◌, All,
}
use squid_helper.Memory.{Bytes}
use squid_helper.Plugins.{is_comma}

-- A name that a comma may end.
abbrev pub IsName : Bytes → Type 0
IsName name = (name ≢ []) × IsNulFree name × IsToken is_comma name × (length name < 2 ^ 59)

abbrev pub comma_joined : List Bytes → Bytes
comma_joined [] = []
comma_joined (a ∷ []) = a
comma_joined (a ∷ b ∷ names) = a ++ b',' ∷ comma_joined (b ∷ names)

-- One round on the first name, and what is left to read.
pub strtok_names :
    (name : Bytes) (names : List Bytes)
    → IsName name
    → (rest : Bytes) × (strtok is_comma (comma_joined (name ∷ names)) ≡ some (name, rest))
      × (rest ≡ comma_joined names)
strtok_names name [] k = ([], strtok_end is_comma name k.0 k.2, refl)
strtok_names name (b ∷ names) k = (
  comma_joined (b ∷ names),
  strtok_delimiter is_comma name b',' (comma_joined (b ∷ names)) k.0 k.2 refl,
  refl,
)

pub names_short :
    (names : List Bytes) → All IsName names → length names ≤ length (comma_joined names)
names_short [] k = omega arith
names_short ([] ∷ []) k = absurd (k.0.0 refl)
names_short ((c ∷ a) ∷ []) k = omega arith
names_short (a ∷ b ∷ names) k =
    omega (arith, names_short (b ∷ names) k.1, length-append a (b',' ∷ comma_joined (b ∷ names)))

pub names-IsNulFree : (names : List Bytes) → All IsName names → IsNulFree (comma_joined names)
names-IsNulFree [] k = tt
names-IsNulFree (a ∷ []) k = k.0.1
names-IsNulFree (a ∷ b ∷ names) k =
    All-append _ a (b',' ∷ comma_joined (b ∷ names)) k.0.1
      (λ e. omega arith, names-IsNulFree (b ∷ names) k.1)
