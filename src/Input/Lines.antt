-- ===== src/Input/Lines.antt =====
-- Lines, as stdin_read_cb is meant to see them.
use native.Mathlib.Decide.{ℕ_discrete}
use squid_helper.Buffer.Holds.{Holds}
use squid_helper.Base.{
  ==_of_ne, length-append, ◌+◌, ◌≤◌, length, ◌≢◌, ◌==◌, arith, ◌≡◌, if◌then◌else◌, ◌∷◌, ◌++◌, List,
  ℕ, some, [], refl,
}
use squid_helper.Memory.{Bytes}
use squid_helper.Buffer.{Buffer}

-- The lines that some input completes, and what follows the last newline; `cur` came before it.
abbrev pub split_lines : Bytes → Bytes → List Bytes × Bytes
split_lines cur [] = ([], cur)
split_lines cur (c ∷ rest) =
    let (lines, last) = split_lines [] rest in
    let longer = split_lines (cur ++ c ∷ []) rest in
    if c == b'\n' then (cur ∷ lines, last) else longer

-- The lines that one chunk completes by the source's loop, which never looks at the byte behind a
-- newline: it belongs to the next line, whatever it is.
abbrev pub split_chunk : Bytes → Bytes → List Bytes × Bytes
split_chunk cur [] = ([], cur)
split_chunk cur (c ∷ []) = if c == b'\n' then (cur ∷ [], []) else ([], cur ++ c ∷ [])
split_chunk cur (c ∷ d ∷ rest) =
    let (lines, last) = split_chunk (d ∷ []) rest in
    let longer = split_chunk (cur ++ c ∷ []) (d ∷ rest) in
    if c == b'\n' then (cur ∷ lines, last) else longer

-- No two newlines stand side by side.
abbrev pub IsSpaced : Bytes → Type 0
IsSpaced [] = Unit
IsSpaced (c ∷ []) = Unit
IsSpaced (c ∷ d ∷ rest) = (c ≡ b'\n' → d ≢ b'\n') × IsSpaced (d ∷ rest)

pub IsSpaced-tail : (c : ℕ) (rest : Bytes) → IsSpaced (c ∷ rest) → IsSpaced rest
IsSpaced-tail c [] h = tt
IsSpaced-tail c (d ∷ rest) h = h.1

-- With no empty line inside a chunk, the loop finds the lines.
pub split_chunk-eq-split_lines :
    (cur rest : Bytes) → IsSpaced rest → split_chunk cur rest ≡ split_lines cur rest
split_chunk-eq-split_lines cur [] h = refl
split_chunk-eq-split_lines cur (c ∷ []) h = ground arith
split_chunk-eq-split_lines cur (c ∷ d ∷ rest) h = elim (ℕ_discrete c b'\n') [
  | yes n ↦ rw (
    n,
    ==_of_ne d b'\n' (h.0 n),
    split_chunk-eq-split_lines (d ∷ []) rest (IsSpaced-tail d rest h.1),
  )
  | no n ↦ rw (==_of_ne c b'\n' n) (split_chunk-eq-split_lines (cur ++ c ∷ []) (d ∷ rest) h.1)
]

-- The jobs hold these lines, in order.
abbrev pub HoldLines : List Buffer → List Bytes → Type 0
HoldLines [] [] = Unit
HoldLines [] (t ∷ ts) = ⊥
HoldLines (b ∷ bs) [] = ⊥
HoldLines (b ∷ bs) (t ∷ ts) = Holds b (some t) × HoldLines bs ts

abbrev pub enqueue_all : {Q : Type 0} → (Q → Buffer → Q) → Q → List Buffer → Q
enqueue_all enqueue q [] = q
enqueue_all enqueue q (b ∷ bs) = enqueue_all enqueue (enqueue q b) bs

pub split_lines-append :
    (cur a b : Bytes)
    → split_lines cur (a ++ b)
      ≡ (let (ls, r) = split_lines cur a in let (ls', r') = split_lines r b in (ls ++ ls', r'))
split_lines-append cur [] b = refl
split_lines-append cur (c ∷ a) b =
    ground (arith, split_lines-append [] a b, split_lines-append (cur ++ c ∷ []) a b)

pub HoldLines-append :
    (bs bs' : List Buffer) (ts ts' : List Bytes)
    → HoldLines bs ts
    → HoldLines bs' ts'
    → HoldLines (bs ++ bs') (ts ++ ts')
HoldLines-append [] bs' [] ts' h h' = h'
HoldLines-append [] bs' (t ∷ ts) ts' h h' = absurd h
HoldLines-append (b ∷ bs) bs' [] ts' h h' = absurd h
HoldLines-append (b ∷ bs) bs' (t ∷ ts) ts' h h' = (h.0, HoldLines-append bs bs' ts ts' h.1 h')

pub enqueue_all-append :
    {Q : Type 0} (enqueue : Q → Buffer → Q) (q : Q) (bs bs' : List Buffer)
    → enqueue_all enqueue q (bs ++ bs') ≡ enqueue_all enqueue (enqueue_all enqueue q bs) bs'
enqueue_all-append enqueue q [] bs' = refl
enqueue_all-append enqueue q (b ∷ bs) bs' = enqueue_all-append enqueue (enqueue q b) bs bs'

pub length-split_lines :
    (cur rest : Bytes) → length (split_lines cur rest).1 ≤ length cur + length rest
length-split_lines cur [] = omega arith
length-split_lines cur (c ∷ rest) = ground (
  arith,
  length-split_lines [] rest,
  length-split_lines (cur ++ c ∷ []) rest,
  length-append cur (c ∷ []),
)

pub length-split_chunk :
    (cur rest : Bytes) → length (split_chunk cur rest).1 ≤ length cur + length rest
length-split_chunk cur [] = omega arith
length-split_chunk cur (c ∷ []) = ground (arith, length-append cur (c ∷ []))
length-split_chunk cur (c ∷ d ∷ rest) = ground (
  arith,
  length-split_chunk (d ∷ []) rest,
  length-split_chunk (cur ++ c ∷ []) (d ∷ rest),
  length-append cur (c ∷ []),
)
