-- ===== src/Program/Entered.antt =====
-- Which lines of what is read the program of src/core/main.c has entered into the job queue.
use squid_helper.Program.Standing.{Stands-entered}
use squid_helper.Program.Intake.{string_of_line, keep-Intake, reads-Intake, ok-injective, Intake}
use squid_helper.Program.Reading.{split_lines-IsNulFree}
use squid_helper.Program.{
  Parts, Program, Move, reads, enters, changes, starts, fails, answers, ends, stands,
}
use squid_helper.System.{Queue, Job, Signal}
use squid_helper.Input.Stream.{IsClean, joined}
use squid_helper.Input.Lines.{HoldLines, split_lines}
use squid_helper.Input.TakeLine.{half_size}
use squid_helper.Buffer.Holds.{text}
use squid_helper.Buffer.{Buffer}
use squid_helper.Memory.Laws.{IsNulFree}
use squid_helper.Memory.{Bytes, Result, ok}
use squid_helper.Plugins.{string_of}
use squid_helper.Worker.{Core}
use squid_helper.Base.{
  ◌≢◌, ℕ, ◌+◌, ◌≡◌, ◌<◌, refl, sym, ◌∙◌, List, [], ◌∷◌, ◌++◌, Option, All, All-append,
  All-append_left, All-append_right, length, append_assoc,
}

module _ {W : Type 0} (core : Core W) (parts : Parts W)
    (change_cb : parts.Event → parts.Shared → Result parts.Shared) (job_queue : Queue Job)
    (signal_queue : Queue Signal) (n : ℕ) where
  module _ (o : Option Bytes) (chunks : List Bytes) where
    module _ (clean : All IsClean chunks) (free : IsNulFree (text o))
        (fits : length (text o) + length (joined chunks) < half_size) where
      joined-IsNulFree : (cs : List Bytes) → All IsClean cs → IsNulFree (joined cs)
      joined-IsNulFree [] h = tt
      joined-IsNulFree (c ∷ cs) h =
          All-append (λ q. q ≢ 0) c (joined cs) h.0.chunked.free (joined-IsNulFree cs h.1)

      -- No line has a NUL.
      pub lines-IsNulFree :
          (used left : List Bytes)
          → chunks ≡ used ++ left
          → All IsNulFree (split_lines (text o) (joined used)).0
      lines-IsNulFree used left e =
          (split_lines-IsNulFree (text o) (joined used) free
            (joined-IsNulFree used (All-append_left IsClean used left (rw e at clean)))).0

      -- The first buffer that waits is read as a line.
      pub next_line :
          (p : Program core parts change_cb job_queue signal_queue) (b : Buffer) (bs : List Buffer)
          → p.input.jobs ≡ b ∷ bs
          → (k : Intake core parts change_cb job_queue signal_queue n o chunks p)
          → (ts : List Bytes) → k.lines ≡ ts
          → (line : Bytes) × (string_of b ≡ ok line)
      next_line p b bs j k [] g = absurd (rw (j, g) at k.waiting)
      next_line p b bs j k (t ∷ ts) g =
          let (holds, rest) : HoldLines (b ∷ bs) (t ∷ ts) = (rw (j, g) at k.waiting) in
          let free_lines : All IsNulFree (p.threads.entered ++ t ∷ ts) =
            rw (rw g at k.entered) (lines-IsNulFree k.used k.left k.whole) in
          (t, string_of_line b t (All-append_right _ p.threads.entered (t ∷ ts) free_lines).0 holds)

      enters_line :
          (p : Program core parts change_cb job_queue signal_queue) (b : Buffer) (bs : List Buffer)
          (line : Bytes) (q : job_queue.Q)
          → p.input.jobs ≡ b ∷ bs
          → string_of b ≡ ok line
          → (k : Intake core parts change_cb job_queue signal_queue n o chunks p)
          → (ts : List Bytes) → k.lines ≡ ts
          → Intake core parts change_cb job_queue signal_queue n o chunks (record p {
            threads = record p.threads { jobs = q; entered = p.threads.entered ++ line ∷ [] };
            input = record p.input { jobs = bs };
          })
      enters_line p b bs line q j e k [] g = absurd (rw (j, g) at k.waiting)
      enters_line p b bs line q j e k (t ∷ ts) g =
          let (holds, rest) : HoldLines (b ∷ bs) (t ∷ ts) = (rw (j, g) at k.waiting) in
          let entered = (rw g at k.entered) in
          let free_lines : All IsNulFree (p.threads.entered ++ t ∷ ts) =
            rw entered (lines-IsNulFree k.used k.left k.whole) in
          let free_t = (All-append_right _ p.threads.entered (t ∷ ts) free_lines).0 in
          let same = ok-injective (sym e ∙ string_of_line b t free_t holds) in
          record {
            used = k.used;
            left = k.left;
            whole = k.whole;
            unread = k.unread;
            held = k.held;
            pending = k.pending;
            lines = ts;
            waiting = rest;
            entered = rw same (append_assoc p.threads.entered (t ∷ []) ts ∙ entered);
            last = k.last;
          }

      enters-Intake :
          (p : Program core parts change_cb job_queue signal_queue) (b : Buffer) (bs : List Buffer)
          (line : Bytes) (q : job_queue.Q)
          → p.input.jobs ≡ b ∷ bs
          → string_of b ≡ ok line
          → Intake core parts change_cb job_queue signal_queue n o chunks p
          → Intake core parts change_cb job_queue signal_queue n o chunks (record p {
            threads = record p.threads { jobs = q; entered = p.threads.entered ++ line ∷ [] };
            input = record p.input { jobs = bs };
          })
      enters-Intake p b bs line q j e k = enters_line p b bs line q j e k k.lines refl

      pub Move-Intake :
          {p q : Program core parts change_cb job_queue signal_queue}
          → Move core parts change_cb job_queue signal_queue n p q
          → Intake core parts change_cb job_queue signal_queue n o chunks p
          → Intake core parts change_cb job_queue signal_queue n o chunks q
      Move-Intake (reads now rest later i m l w j u e) k =
          reads-Intake core parts change_cb job_queue signal_queue n o chunks clean free fits _ now
            rest later i j u e k
      Move-Intake (enters b lines line q m l h s e) k = enters-Intake _ b lines line q h s k
      Move-Intake (changes event shared m l j e) k =
          keep-Intake core parts change_cb job_queue signal_queue n o chunks _ _ refl refl refl refl
            k
      Move-Intake (starts before after w e i) k =
          keep-Intake core parts change_cb job_queue signal_queue n o chunks _ _ refl refl refl refl
            k
      Move-Intake (fails before after w e i) k =
          keep-Intake core parts change_cb job_queue signal_queue n o chunks _ _ refl refl refl refl
            k
      Move-Intake (answers before after line more s e h) k =
          keep-Intake core parts change_cb job_queue signal_queue n o chunks _ _ refl refl refl refl
            k
      Move-Intake (ends before after null w e h) k =
          keep-Intake core parts change_cb job_queue signal_queue n o chunks _ _ refl refl refl refl
            k
      Move-Intake (stands {p = p} {t = t} step h) k =
          keep-Intake core parts change_cb job_queue signal_queue n o chunks _ _ refl refl refl
            (Stands-entered job_queue signal_queue n step p.input.jobs h) k
