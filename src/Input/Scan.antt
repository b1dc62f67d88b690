-- ===== src/Input/Scan.antt =====
-- The loop over one chunk.
use squid_helper.Input.Step.{shifted, step_same, step_found, scan_end, Scanned}
use squid_helper.Input.TakeLine.{take_line_lem, half_size}
use native.Mathlib.Decide.{ℕ_discrete}
use squid_helper.Input.Lines.{split_chunk}
use squid_helper.Memory.Laws.{IsNulFree}
use squid_helper.Buffer.Holds.{Pending, length-stored, text, stored}
use squid_helper.Input.{scan, Input}
use squid_helper.Base.{
  All-append, sym, length-append, append-nil, ap, drop-append, ◌∷◌, ◌≤◌, List, arith, ◌++◌, ◌<◌,
  ◌+◌, length, ◌≡◌, Option, ℕ, zero, suc, none, [], refl,
}
use squid_helper.Memory.{Bytes, Mem}
use squid_helper.Buffer.{Buffer}

module _ {Q : Type 0} (enqueue : Q → Buffer → Q) (num : ℕ) where
  length-shifted :
      (pre : Mem) (cur : Bytes) → length (pre ++ stored cur []) ≡ length pre + length cur + 1
  length-shifted pre cur = omega (arith, length-append pre (stored cur []), length-stored cur [])

  -- A newline at `i`, and the line that it ends.
  found_line :
      (rest : Bytes) (spec : List Bytes × Bytes) (rounds : ℕ) (w : Input Q) (o : Option Bytes)
      (pre : Mem) (cur : Bytes) (c : ℕ) (junk : Mem) (start i : ℕ)
      → i < num
      → start ≡ length pre
      → i ≡ start + length cur
      → c ≡ b'\n'
      → Pending w.tmp_line_buf o
      → IsNulFree cur
      → length (text o) + length cur < half_size
      → ((w' : Input Q) (pre' : Mem)
          → length pre' ≡ i + 1
          → Pending w'.tmp_line_buf none
          → Scanned enqueue w' num spec
              (scan enqueue rounds w' (pre' ++ stored rest junk) num (i + 1) (i + 2)))
      → Scanned enqueue w num
          ((text o ++ cur) ∷ spec.0, spec.1)
          (scan enqueue (suc rounds) w (pre ++ stored (cur ++ c ∷ rest) junk) num start i)
  found_line rest spec rounds w o pre cur c junk start i h hs hi n p z f next =
      let k =
        take_line_lem w.tmp_line_buf o _ start cur (stored rest junk) p (drop-append pre _ start hs)
          z f in
      let w' : Input Q = record w { tmp_line_buf = k.tmp; jobs = enqueue w.jobs k.line } in
      let later =
        next w' (pre ++ stored cur []) (omega (arith, length-shifted pre cur)) k.pending in
      rw n (
        step_found enqueue num rest spec rounds w _ pre cur junk start i h (omega arith) k
          (rw (← shifted enqueue num pre cur (stored rest junk)) at later))

  -- The loop from the byte `i` on: `cur` is the part of the line that it has passed.
  pub scan_lem :
      (rest : Bytes) (rounds : ℕ) (w : Input Q) (o : Option Bytes) (pre : Mem) (cur : Bytes)
      (junk : Mem) (start i : ℕ)
      → length rest ≤ rounds
      → start ≡ length pre
      → i ≡ start + length cur
      → num ≡ i + length rest
      → Pending w.tmp_line_buf o
      → IsNulFree cur
      → IsNulFree rest
      → (length cur + length rest ≡ 0 → text o ≡ [])
      → length (text o) + length cur + length rest < half_size
      → Scanned enqueue w num
          (split_chunk (text o ++ cur) rest)
          (scan enqueue rounds w (pre ++ stored (cur ++ rest) junk) num start i)
  scan_lem [] rounds w o pre cur junk start i hr hs hi hn p zc z em f = rw (append-nil cur) (
      scan_end enqueue num rounds w o pre cur junk start i hs (omega arith) (omega arith) p zc
        (λ e. em (omega (arith, ap length e))))
  scan_lem (c ∷ rest) zero w o pre cur junk start i hr hs hi hn p zc z em f = absurd (omega arith)
  scan_lem (c ∷ []) (suc rounds) w o pre cur junk start i hr hs hi hn p zc z em f =
      elim (ℕ_discrete c b'\n') [
        | no n ↦
            let l = length-append cur (c ∷ []) in
            step_same enqueue num [] rounds w (text o) pre cur c junk start i (omega arith)
              (omega arith) n
              (scan_lem [] rounds w o pre (cur ++ c ∷ []) junk start (i + 1) (omega arith) hs
                (omega arith) (omega arith) p (All-append _ cur (c ∷ []) zc z) tt
                (λ e. absurd (omega arith)) (omega arith))
        | yes n ↦ rw n (
            found_line [] ([], []) rounds w o pre cur b'\n' junk start i (omega arith) hs hi refl p
              zc (omega arith)
              (λ w' pre' l q.
                scan_end enqueue num rounds w' none pre' [] junk (i + 1) (i + 2) (sym l)
                  (omega arith) (omega arith) q tt (λ _. refl)))
      ]
  scan_lem (c ∷ d ∷ rest) (suc rounds) w o pre cur junk start i hr hs hi hn p zc z em f =
      elim (ℕ_discrete c b'\n') [
        | no n ↦
            let l = length-append cur (c ∷ []) in
            step_same enqueue num (d ∷ rest) rounds w (text o) pre cur c junk start i (omega arith)
              (omega arith) n
              (scan_lem (d ∷ rest) rounds w o pre (cur ++ c ∷ []) junk start (i + 1) (omega arith)
                hs (omega arith) (omega arith) p (All-append _ cur (c ∷ []) zc (z.0, tt)) z.1
                (λ e. absurd (omega arith)) (omega arith))
        | yes n ↦ rw n (
            found_line (d ∷ rest) (split_chunk (d ∷ []) rest) rounds w o pre cur b'\n' junk start i
              (omega arith) hs hi refl p zc (omega arith)
              (λ w' pre' l q.
                (scan_lem rest rounds w' none pre' (d ∷ []) junk (i + 1) (i + 2) (omega arith)
                  (sym l) (omega arith) (omega arith) q (z.1.0, tt) z.1.1
                  (λ e. absurd (omega arith)) (omega arith))))
      ]
