-- ===== src/System/Seen.antt =====
-- Which worker of src/core/main.c can move next.
use native.Mathlib.Decide.{ℕ_discrete}
use squid_helper.System.Order.{is_line, is_null}
use squid_helper.System.Phases.{failed, stopped}
use squid_helper.Base.{
  sum_of, ◌+◌, ◌≡◌, ◌≤◌, refl, List, [], ◌∷◌, ◌++◌, Bool, true, false, none, some, arith, All,
  length, ap,
}
use squid_helper.Memory.{Bytes}
use squid_helper.System.{notifying, IsEnded, Phase, starting, idle, busy, ending, ended, Main, Job}

pub failed_notifying : (null : Bool) → failed (notifying null) ≡ failed (ending null)
failed_notifying true = refl
failed_notifying false = refl

pub failed_ended : (null : Bool) → failed (ended null) ≡ failed (notifying null)
failed_ended true = refl
failed_ended false = refl

pub Main-discrete : Discrete Main
Main-discrete = hlevel ℕ_discrete

-- The first worker that is not at its end, if there is one.
pub data Seen (ws : List Phase) : Type 0 where
  starts : (before after : List Phase) → ws ≡ before ++ starting ∷ after → Seen ws
  waits : (before after : List Phase) → ws ≡ before ++ idle ∷ after → Seen ws
  works : (before after : List Phase) (line : Bytes) → ws ≡ before ++ busy line ∷ after → Seen ws
  signals : (before after : List Phase) (null : Bool) → ws ≡ before ++ ending null ∷ after → Seen ws
  notifies :
      (before after : List Phase) (null : Bool) → ws ≡ before ++ notifying null ∷ after → Seen ws
  over : All IsEnded ws → Seen ws

pub seen_behind : (null : Bool) (ws : List Phase) → Seen ws → Seen (ended null ∷ ws)
seen_behind null ws (starts before after e) =
    starts (ended null ∷ before) after (ap (λ q. ended null ∷ q) e)
seen_behind null ws (waits before after e) =
    waits (ended null ∷ before) after (ap (λ q. ended null ∷ q) e)
seen_behind null ws (works before after line e) =
    works (ended null ∷ before) after line (ap (λ q. ended null ∷ q) e)
seen_behind null ws (signals before after b e) =
    signals (ended null ∷ before) after b (ap (λ q. ended null ∷ q) e)
seen_behind null ws (notifies before after b e) =
    notifies (ended null ∷ before) after b (ap (λ q. ended null ∷ q) e)
seen_behind null ws (over e) = over (tt, e)

pub seen : (ws : List Phase) → Seen ws
seen [] = over tt
seen (starting ∷ ws) = starts [] ws refl
seen (idle ∷ ws) = waits [] ws refl
seen (busy line ∷ ws) = works [] ws line refl
seen (ending null ∷ ws) = signals [] ws null refl
seen (notifying null ∷ ws) = notifies [] ws null refl
seen (ended null ∷ ws) = seen_behind null ws (seen ws)

pub stopped-le-length : (ws : List Phase) → sum_of stopped ws ≤ length ws
stopped-le-length [] = omega arith
stopped-le-length (starting ∷ ws) = omega (arith, stopped-le-length ws)
stopped-le-length (idle ∷ ws) = omega (arith, stopped-le-length ws)
stopped-le-length (busy line ∷ ws) = omega (arith, stopped-le-length ws)
stopped-le-length (ending true ∷ ws) = omega (arith, stopped-le-length ws)
stopped-le-length (ending false ∷ ws) = omega (arith, stopped-le-length ws)
stopped-le-length (notifying true ∷ ws) = omega (arith, stopped-le-length ws)
stopped-le-length (notifying false ∷ ws) = omega (arith, stopped-le-length ws)
stopped-le-length (ended true ∷ ws) = omega (arith, stopped-le-length ws)
stopped-le-length (ended false ∷ ws) = omega (arith, stopped-le-length ws)

-- Each worker at its end took a NULL or had failed.
pub ended_split :
    (ws : List Phase) → All IsEnded ws → sum_of stopped ws + sum_of failed ws ≡ length ws
ended_split [] e = refl
ended_split (starting ∷ ws) e = absurd e.0
ended_split (idle ∷ ws) e = absurd e.0
ended_split (busy line ∷ ws) e = absurd e.0
ended_split (ending null ∷ ws) e = absurd e.0
ended_split (notifying null ∷ ws) e = absurd e.0
ended_split (ended true ∷ ws) e = omega (arith, ended_split ws e.1)
ended_split (ended false ∷ ws) e = omega (arith, ended_split ws e.1)

pub length-jobs : (jobs : List Job) → sum_of is_null jobs + sum_of is_line jobs ≡ length jobs
length-jobs [] = refl
length-jobs (none ∷ jobs) = omega (arith, length-jobs jobs)
length-jobs (some line ∷ jobs) = omega (arith, length-jobs jobs)
