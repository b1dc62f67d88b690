-- ===== src/Memory.antt =====
-- The C memory that the sources rely on: blocks of bytes, the string functions of <string.h>, and
-- what an access outside a block or a failed `assert` does.
pub mod Laws
use Prim.Native.Char.{code}
use Prim.Native.String.{String}
use squid_helper.Base.{
  refl, ◌≡◌, ℕ, ◌+◌, ◌-◌, Bool, true, false, ◌&&◌, Option, none, some, List, [], ◌∷◌, ◌++◌, map,
  ◌==◌, leb, if◌then◌else◌, length, get_elem?, set, take, drop, replicate, ltb,
}

abbrev pub Bytes : Type 0
Bytes = List ℕ

-- The bytes of a text literal.
abbrev pub codes : String → Bytes
codes String.[] = []
codes (String.◌∷◌ c s) = code c ∷ codes s

-- `fault` is undefined behaviour: an access through a null pointer or outside a block, or a use of
-- a byte that was never written. `abort` is an `assert` that fails.
pub data Result {ℓ} (A : Type ℓ) : Type ℓ where
  ok : A → Result A
  fault : Result A
  abort : Result A

infixl 5 ◌>>=◌ ◌>>◌
abbrev pub ◌>>=◌ {ℓ κ} : {A : Type ℓ} {B : Type κ} → Result A → (A → Result B) → Result B
ok a >>= f = f a
fault >>= f = fault
abort >>= f = abort

abbrev pub ◌>>◌ {ℓ} : {B : Type ℓ} → Result (Unit {0}) → Result B → Result B
m >> k = m >>= λ _. k

-- Both parts of a sequence that succeeds do.
pub first_step {ℓ κ} :
    {B : Type ℓ} {C : Type κ} (step : Result B) (next : B → Result C) {last : C}
    → ◌≡◌ (do x ← step; next x) (ok last)
    → (x : B) × (step ≡ ok x) × (next x ≡ ok last)
first_step fault next e = cc
first_step abort next e = cc
first_step (ok x) next e = (x, refl, e)

-- `assert`
abbrev pub assert : Bool → Result (Unit {0})
assert true = ok tt
assert false = abort

-- A block from some address on; `none` is a byte that was not written yet. A pointer is the rest of
-- its block, and an `Option` of it where the code allows a null pointer.
abbrev pub Mem : Type 0
Mem = List (Option ℕ)

-- The bytes of a string with its terminator.
abbrev pub cells : Bytes → Mem
cells t = map some t ++ some 0 ∷ []

abbrev pub malloc : ℕ → Mem
malloc n = replicate n none

-- `realloc` to a size that is not smaller; `realloc` of a null pointer is `malloc`.
abbrev pub realloc : Option Mem → ℕ → Mem
realloc none n = malloc n
realloc (some m) n = take n m ++ malloc (n - length m)

-- The read of one byte.
unfoldable pub load : Mem → ℕ → Result ℕ
load m i = elim (get_elem? m i) [ some (some c) ↦ ok c | _ ↦ fault ]

-- The write of one byte.
unfoldable pub store : Mem → ℕ → ℕ → Result Mem
store m i c = if ltb i (length m) then ok (set m i (some c)) else fault

-- `strlen`
unfoldable pub strlen : Mem → Result ℕ
strlen [] = fault
strlen (none ∷ m) = fault
strlen (some c ∷ m) = let rest = (do n ← strlen m; ok (n + 1)) in if c == 0 then ok 0 else rest

-- `memcpy(dst + off, src, n)`, between different blocks
unfoldable pub memcpy : Option Mem → ℕ → Mem → ℕ → Result (Option Mem)
memcpy none off src n = fault
memcpy (some m) off src n =
    if leb n (length src) && leb (off + n) (length m)
    then ok (some (take off m ++ (take n src ++ drop (off + n) m)))
    else fault
