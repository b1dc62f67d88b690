-- ===== src/System/Phases.antt =====
-- Counts over the workers of src/core/main.c.
use squid_helper.Base.{
  sum_of, sum_of-append, ℕ, zero, suc, ◌+◌, ◌*◌, ◌≡◌, refl, List, [], ◌∷◌, ◌++◌, true, false,
  replicate, arith, All,
}
use squid_helper.Memory.{Bytes}
use squid_helper.System.{
  Phase, starting, idle, busy, ending, notifying, ended, IsEnded, IsSignalled,
}

-- One worker among the others.
pub sum_of-pick :
    (f : Phase → ℕ) (ws before after : List Phase) (p : Phase)
    → ws ≡ before ++ p ∷ after
    → sum_of f ws ≡ sum_of f before + f p + sum_of f after
sum_of-pick f ws before after p e = rw e (omega (arith, sum_of-append f before (p ∷ after)))

pub sum_of-put :
    (f : Phase → ℕ) (before after : List Phase) (p : Phase)
    → sum_of f (before ++ p ∷ after) ≡ sum_of f before + f p + sum_of f after
sum_of-put f before after p = omega (arith, sum_of-append f before (p ∷ after))

pub sum_of-replicate : (f : Phase → ℕ) (n : ℕ) (p : Phase) → sum_of f (replicate n p) ≡ n * f p
sum_of-replicate f zero p = omega arith
sum_of-replicate f (suc n) p = grind (arith, sum_of-replicate f n p)

-- A worker whose end is not signalled yet.
abbrev pub live : Phase → ℕ
live (notifying null) = 0
live (ended null) = 0
live _ = 1

-- A worker that took a NULL.
abbrev pub stopped : Phase → ℕ
stopped (ending true) = 1
stopped (notifying true) = 1
stopped (ended true) = 1
stopped _ = 0

-- A worker whose init hooks failed.
abbrev pub failed : Phase → ℕ
failed (ending false) = 1
failed (notifying false) = 1
failed (ended false) = 1
failed _ = 0

-- The weight of the line that a worker is at.
abbrev pub line_of : (Bytes → ℕ) → Phase → ℕ
line_of f (busy line) = f line
line_of f _ = 0

pub All-IsSignalled : (ws : List Phase) → sum_of live ws ≡ 0 → All IsSignalled ws
All-IsSignalled [] e = tt
All-IsSignalled (starting ∷ ws) e = absurd (omega arith)
All-IsSignalled (idle ∷ ws) e = absurd (omega arith)
All-IsSignalled (busy line ∷ ws) e = absurd (omega arith)
All-IsSignalled (ending null ∷ ws) e = absurd (omega arith)
All-IsSignalled (notifying null ∷ ws) e = (tt, All-IsSignalled ws (omega arith))
All-IsSignalled (ended null ∷ ws) e = (tt, All-IsSignalled ws (omega arith))

pub none_live : (ws : List Phase) → All IsEnded ws → sum_of live ws ≡ 0
none_live [] e = refl
none_live (starting ∷ ws) e = absurd e.0
none_live (idle ∷ ws) e = absurd e.0
none_live (busy line ∷ ws) e = absurd e.0
none_live (ending null ∷ ws) e = absurd e.0
none_live (notifying null ∷ ws) e = absurd e.0
none_live (ended null ∷ ws) e = omega (arith, none_live ws e.1)
