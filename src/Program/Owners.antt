-- ===== src/Program/Owners.antt =====
-- What each worker of src/core/main.c has of its own, by where it is, and what the plugins owe to
-- threads that share their state.
use squid_helper.Base.{
  ℕ, zero, suc, ◌+◌, ◌≡◌, ◌<◌, ◌==◌, refl, List, [], ◌∷◌, ◌++◌, true, false, length, arith,
  ==_of_ne, sym, replicate,
}
use squid_helper.Memory.{Result, ok}
use squid_helper.Worker.{Core, init_thread, call_hooks}
use squid_helper.Worker.Contract.{Contract}
use squid_helper.System.{Phase, starting, idle, busy}
use squid_helper.Program.{Parts, set_own}

-- The contract of the worker, with an invariant that splits into one of the shared part and one of
-- each thread's own, and hooks that keep both: `thread_init` from keys that are not set, `thread_free`,
-- and the callback.
pub record Sharing {W : Type 0} (core : Core W) (parts : Parts W)
    (change_cb : parts.Event → parts.Shared → Result parts.Shared) : Type 1 where
  pub contract : Contract core
  pub IsShared : parts.Shared → Type 0
  pub IsOwn : parts.Own → Type 0
  pub joins :
      (s : parts.Shared) (l : parts.Own) → IsShared s → IsOwn l → contract.Inv (parts.whole s l)
  pub shares : (w : W) → contract.Inv w → IsShared (parts.shared_of w)
  pub owns : (w : W) → contract.Inv w → IsOwn (parts.own_of w)
  pub inits :
      (s : parts.Shared) (w : W)
      → IsShared s
      → init_thread core.plugins (parts.whole s parts.unset) ≡ ok (true, w)
      → contract.Inv w
  pub fails :
      (s : parts.Shared) (w : W)
      → IsShared s
      → init_thread core.plugins (parts.whole s parts.unset) ≡ ok (false, w)
      → IsShared (parts.shared_of w)
  pub frees :
      (s : parts.Shared) (l : parts.Own) (w : W)
      → IsShared s
      → call_hooks (λ h. h.thread_free) core.plugins (parts.whole s l) ≡ ok w
      → IsShared (parts.shared_of (parts.exit w))
  pub changes :
      (event : parts.Event) (s t : parts.Shared)
      → IsShared s
      → change_cb event s ≡ ok t
      → IsShared t

module _ {A : Type 0} (IsOwn : A → Type 0) (unset : A) where
  -- A worker that has not started has set no key yet, and one that serves has what its hooks need.
  abbrev pub Owned : Phase → A → Type 0
  Owned starting a = a ≡ unset
  Owned idle a = IsOwn a
  Owned (busy line) a = IsOwn a
  Owned _ a = Unit

  abbrev pub Owners : (ℕ → A) → ℕ → List Phase → Type 0
  Owners own i [] = Unit
  Owners own i (p ∷ ws) = Owned p (own i) × Owners own (i + 1) ws

  pub Owners-launch : (i n : ℕ) → Owners (λ k. unset) i (replicate n starting)
  Owners-launch i zero = tt
  Owners-launch i (suc n) = (refl, Owners-launch (i + 1) n)

  pub Owners-pick :
      (own : ℕ → A) (i k : ℕ) (before after : List Phase) (p : Phase)
      → k ≡ i + length before
      → Owners own i (before ++ p ∷ after)
      → Owned p (own k)
  Owners-pick own i k [] after p e h = let f : k ≡ i = omega arith in rw f h.0
  Owners-pick own i k (q ∷ before) after p e h =
      Owners-pick own (i + 1) k before after p (omega arith) h.1

  -- A worker moves on with what it has.
  pub Owners-keep :
      (own : ℕ → A) (i k : ℕ) (before after : List Phase) (p p' : Phase)
      → k ≡ i + length before
      → (Owned p (own k) → Owned p' (own k))
      → Owners own i (before ++ p ∷ after)
      → Owners own i (before ++ p' ∷ after)
  Owners-keep own i k [] after p p' e f h =
      let g : i ≡ k = omega arith in ((rw g (f (rw (sym g) h.0))), h.1)
  Owners-keep own i k (q ∷ before) after p p' e f h =
      (h.0, Owners-keep own (i + 1) k before after p p' (omega arith) f h.1)

  Owners-behind :
      (own : ℕ → A) (i k : ℕ) (a : A) (ws : List Phase)
      → k < i
      → Owners own i ws
      → Owners (set_own k a own) i ws
  Owners-behind own i k a [] l h = tt
  Owners-behind own i k a (p ∷ ws) l h =
      (rw (==_of_ne i k (λ e. omega arith)) h.0, Owners-behind own (i + 1) k a ws (omega arith) h.1)

  -- A worker moves on with something else.
  pub Owners-put :
      (own : ℕ → A) (i k : ℕ) (a : A) (before after : List Phase) (p p' : Phase)
      → k ≡ i + length before
      → Owned p' a
      → Owners own i (before ++ p ∷ after)
      → Owners (set_own k a own) i (before ++ p' ∷ after)
  Owners-put own i k a [] after p p' e o h =
      let f : (i == k) ≡ true = ground arith in
      (rw f o, Owners-behind own (i + 1) k a after (omega arith) h.1)
  Owners-put own i k a (q ∷ before) after p p' e o h = (
    rw (==_of_ne i k (λ f. omega arith)) h.0,
    Owners-put own (i + 1) k a before after p p' (omega arith) o h.1,
  )
