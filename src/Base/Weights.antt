-- ===== src/Base/Weights.antt =====
-- Lists that weigh the same under every weight are permutations of each other.
use squid_helper.Base.Tests.{Bool-cases}
use squid_helper.Base.Lists.{sum_of, sum_of-append}
use Prim.Native.Nat.{ℕ, ◌<◌}
use mathlib.Core.Path.{◌≡◌, sym, ap}
use mathlib.Core.Logic.{inl, inr}
use mathlib.Core.Bool.{Bool, true, false}
use mathlib.Core.List.{List, [], ◌∷◌, ◌++◌, Perm, perm_middle}
use mathlib.Core.List.Perm
use native.Mathlib.Omega.{arith}

abbrev weight : Bool → ℕ
weight false = 0
weight true = 1

module _ {ℓ} {A : Type ℓ} (same : A → A → Bool) (same_self : (a : A) → same a a ≡ true)
    (same_to_eq : (a b : A) → same a b ≡ true → a ≡ b) where
  abbrev one : A → A → ℕ
  one a b = weight (same a b)

  -- What weighs something stands somewhere.
  pick :
      (a : A) (ys : List A)
      → 0 < sum_of (one a) ys
      → (before : List A) × (after : List A) × (ys ≡ before ++ a ∷ after)
  pick a [] h = absurd (omega arith)
  pick a (y ∷ ys) h = elim (Bool-cases (same a y)) [
    | inl e ↦ ([], ys, ap (λ q. q ∷ ys) (sym (same_to_eq a y e)))
    | inr e ↦
        let (before, after, f) = pick a ys (omega (arith, h, ap weight e)) in
        (y ∷ before, after, ap (λ q. y ∷ q) f)
  ]

  pub weights-Perm : (xs ys : List A) → ((f : A → ℕ) → sum_of f xs ≡ sum_of f ys) → Perm xs ys
  weights-Perm [] [] h = Perm.refl []
  weights-Perm [] (y ∷ ys) h = absurd (omega (arith, h (λ a. 1)))
  weights-Perm (x ∷ xs) ys h =
      let (before, after, e) = pick x ys (omega (arith, h (one x), ap weight (same_self x))) in
      let rest = weights-Perm xs (before ++ after) (λ f. omega (
        arith,
        h f,
        ap (sum_of f) e,
        sum_of-append f before (x ∷ after),
        sum_of-append f before after,
      )) in
      rw e (Perm.trans (Perm.cons x rest) (Perm.symm (perm_middle before after)))
