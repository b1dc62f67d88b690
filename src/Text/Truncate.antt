-- ===== src/Text/Truncate.antt =====
-- truncate_string: the head and the tail of a long text, with a separator between them.
use squid_helper.Buffer.Holds.{stored}
use squid_helper.Memory.Laws.{strlen_lem, IsNulFree, store_lem, length-text, load_lem}
use squid_helper.Base.{
  leb, le→leb, ◌==◌, if◌then◌else◌, ◌/◌, lt→ltb, le→ltb, length-drop, length-append, append_assoc,
  map-append, append-nil, ℕ, zero, suc, ◌+◌, ◌-◌, ◌%◌, ◌≤◌, ◌<◌, Option, some, [], ◌∷◌, ◌++◌, map,
  length, drop, ◌≡◌, refl, arith, false, ◌∙◌, ap, ◌⊎◌, inl, inr,
}
use squid_helper.Memory.{Bytes, Mem, ok, load}
use squid_helper.Text.{fill, truncate_string}

-- The text so far with one byte more.
snoc : (p : Bytes) (c : ℕ) (m : Mem) → map some p ++ some c ∷ m ≡ map some (p ++ c ∷ []) ++ m
snoc p c m = rw (map-append some p (c ∷ []), append_assoc (map some p) (some c ∷ []) m)

module _ (start : ℕ) (sep : Mem) (sep_len : ℕ) where
  -- The rounds that copy the rest `s₂` of the separator.
  fill_sep :
      (r k : ℕ) (p s₁ s₂ : Bytes) (more old : Mem) (i j x : ℕ)
      → r ≡ length s₂ + k
      → j ≡ i + length s₂
      → sep ≡ map some s₁ ++ (map some s₂ ++ more)
      → i ≡ length p
      → i ≡ start + length s₁
      → sep_len ≡ length s₁ + length s₂
      → length s₂ ≤ length old
      → fill start sep sep_len r (map some p ++ old) i x
        ≡ fill start sep sep_len k (map some (p ++ s₂) ++ drop (length s₂) old) j x
  unfolding fill
  fill_sep r k p s₁ [] more old i j x n o e d q l h =
      let n' : r ≡ k = omega arith in let o' : j ≡ i = omega arith in rw (append-nil p, n', o')
  fill_sep zero k p s₁ (c ∷ s₂) more old i j x n o e d q l h = absurd (omega arith)
  fill_sep (suc r) k p s₁ (c ∷ s₂) more [] i j x n o e d q l h = absurd (omega arith)
  fill_sep (suc r) k p s₁ (c ∷ s₂) more (b ∷ old) i j x n o e d q l h =
      let got : load sep (i - start) ≡ ok c = rw e (
        load_lem (map some s₁) c (map some s₂ ++ more) (i - start)
          (omega (arith, length-text s₁))) in
      let put = store_lem (map some p) (b ∷ old) c i (omega (arith, length-text p)) (omega arith) in
      let next =
        fill_sep r k (p ++ c ∷ []) (s₁ ++ c ∷ []) s₂ more old (i + 1) j x (omega arith)
          (omega arith) (e ∙ snoc s₁ c (map some s₂ ++ more))
          (omega (arith, length-append p (c ∷ []))) (omega (arith, length-append s₁ (c ∷ [])))
          (omega (arith, length-append s₁ (c ∷ []))) (omega arith) in
      rw (
        lt→ltb (i - start) sep_len (omega arith),
        got,
        put,
        snoc p c old,
        next,
        append_assoc p (c ∷ []) s₂,
      )

  -- The rounds that move the tail `z` down over the gap before it.
  fill_tail :
      (p z : Bytes) (gap more : Mem) (i x : ℕ)
      → i ≡ length p
      → x ≡ length p + length gap
      → 0 < length gap
      → start + sep_len ≤ i
      → (m : Mem) × (fill start sep sep_len
            (length z)
            (map some p ++ (gap ++ (map some z ++ more)))
            i
            x
          ≡ ok (map some (p ++ z) ++ m))
        × (length m ≡ length gap + length more)
  unfolding fill
  fill_tail p [] gap more i x j q h l = (gap ++ more, rw (append-nil p), length-append gap more)
  fill_tail p (c ∷ z) [] more i x j q h l = absurd (omega arith)
  fill_tail p (c ∷ z) (g ∷ gap) more i x j q h l =
      let rest = map some z ++ more in
      let got : load (map some p ++ (g ∷ gap ++ some c ∷ rest)) x ≡ ok c =
        rw (← append_assoc (map some p) (g ∷ gap) (some c ∷ rest)) (
          load_lem (map some p ++ g ∷ gap) c rest x
            (omega (arith, length-append (map some p) (g ∷ gap), length-text p))) in
      let put =
        store_lem (map some p) (g ∷ gap ++ some c ∷ rest) c i (omega (arith, length-text p))
          (omega arith) in
      let (m, e, s) =
        fill_tail (p ++ c ∷ []) z (gap ++ some c ∷ []) more (i + 1) (x + 1)
          (omega (arith, length-append p (c ∷ [])))
          (omega (arith, length-append p (c ∷ []), length-append gap (some c ∷ [])))
          (omega (arith, length-append gap (some c ∷ []))) (omega arith) in
      let e' = (rw (append_assoc gap (some c ∷ []) rest, append_assoc p (c ∷ []) z) at e) in
      (
        m,
        rw (le→ltb (i - start) sep_len (omega arith), got, put, snoc p c (gap ++ some c ∷ rest)) e',
        omega (arith, s, length-append gap (some c ∷ [])),
      )

drop-append : (n : ℕ) (xs ys : Mem) → n ≤ length xs → drop n (xs ++ ys) ≡ drop n xs ++ ys
drop-append zero xs ys h = refl
drop-append (suc n) [] ys h = absurd (omega arith)
drop-append (suc n) (x ∷ xs) ys h = drop-append n xs ys (omega arith)

stored-parts :
    (head mid tail : Bytes) (rest : Mem)
    → stored (head ++ (mid ++ tail)) rest
      ≡ map some head ++ (map some mid ++ (map some tail ++ some 0 ∷ rest))
stored-parts head mid tail rest = rw (
  map-append some head (mid ++ tail),
  map-append some mid tail,
  append_assoc (map some head) (map some mid ++ map some tail) (some 0 ∷ rest),
  append_assoc (map some mid) (map some tail) (some 0 ∷ rest),
)

-- The whole loop.
fill_lem :
    (head mid tail sep : Bytes) (rest rest_sep : Mem)
    → length sep < length mid
    → (m : Mem) × (fill
          (length head)
          (stored sep rest_sep)
          (length sep)
          (length sep + length tail)
          (stored (head ++ (mid ++ tail)) rest)
          (length head)
          (length head + length mid)
        ≡ ok (map some ((head ++ sep) ++ tail) ++ m))
      × (0 < length m)
fill_lem head mid tail sep rest rest_sep long =
    let n = length head in
    let old = map some mid ++ (map some tail ++ some 0 ∷ rest) in
    let gap : Mem = drop (length sep) (map some mid) in
    let size = length-drop (length sep) (map {B = Option ℕ} some mid) in
    let first =
      fill_sep n (stored sep rest_sep) (length sep) (length sep + length tail) (length tail) head []
        sep (some 0 ∷ rest_sep) old n (n + length sep) (n + length mid) refl refl refl refl
        (omega arith) (omega arith)
        (omega (
          arith,
          length-append (map some mid) (map some tail ++ some 0 ∷ rest),
          length-text mid,
        )) in
    let (m, e, s) =
      fill_tail n (stored sep rest_sep) (length sep) (head ++ sep) tail gap (some 0 ∷ rest)
        (n + length sep) (n + length mid) (omega (arith, length-append head sep))
        (omega (arith, length-append head sep, size, length-text mid))
        (omega (arith, size, length-text mid)) (omega arith) in
    (
      m,
      ap
            (λ q.
              fill n (stored sep rest_sep) (length sep) (length sep + length tail) q n
                (n + length mid))
            (stored-parts head mid tail rest)
          ∙ first
          ∙ rw
              (drop-append (length sep) (map some mid) (map some tail ++ some 0 ∷ rest)
                (omega (arith, length-text mid)))
              e,
      omega (arith, s),
    )

-- A text without NUL bytes made of a head, a middle longer than the separator and a tail, where
-- the separator has an even length and the tail the length of the head or one more: truncated to
-- the length of head, separator and tail it becomes the head, the separator and the tail, with no
-- access outside a block.
pub keeps_head_and_tail :
    (head mid tail sep : Bytes) (rest rest_sep : Mem)
    → IsNulFree (head ++ (mid ++ tail))
    → IsNulFree sep
    → length sep % 2 ≡ 0
    → (length tail ≡ length head) ⊎ (length tail ≡ length head + 1)
    → length sep < length mid
    → (m : Mem) × (truncate_string
          (stored (head ++ (mid ++ tail)) rest)
          (length head + length sep + length tail)
          (stored sep rest_sep)
        ≡ ok (stored ((head ++ sep) ++ tail) m))
unfolding truncate_string
keeps_head_and_tail head mid tail sep rest rest_sep z y even near long =
    let len = length-append head (mid ++ tail) in
    let len' = length-append mid tail in
    let n = length head in
    let max = length head + length sep + length tail in
    let total = length (head ++ (mid ++ tail)) in
    let start : (max - length sep) / 2 ≡ n = elim near [
      | inl e ↦ omega arith
      | inr e ↦ omega arith
    ] in
    let rounds : max - n ≡ length sep + length tail = omega arith in
    let x : (if max % 2 == 0 then total - n else total - n - 1) ≡ n + length mid = elim near [
      | inl e ↦ ground arith
      | inr e ↦ ground arith
    ] in
    let long_text : leb total max ≡ false = ground arith in
    let (m, e, s) = fill_lem head mid tail sep rest rest_sep long in
    let ended =
      store_lem (map some ((head ++ sep) ++ tail)) m 0 max
        (omega (
          arith,
          length-text ((head ++ sep) ++ tail),
          length-append (head ++ sep) tail,
          length-append head sep,
        ))
        s in
    (
      drop 1 m,
      rw (
        strlen_lem (head ++ (mid ++ tail)) rest z,
        strlen_lem sep rest_sep y,
        le→leb (length sep) max (omega arith),
        start,
        rounds,
        x,
        long_text,
        e,
        ended,
      ),
    )
