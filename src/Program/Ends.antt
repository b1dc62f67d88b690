-- ===== src/Program/Ends.antt =====
-- The end of the whole program of src/core/main.c, with the hooks that each thread still calls.
use squid_helper.Program.Follow.{follow, Willing}
use squid_helper.Program.Replied.{busy-IsNulFree}
use squid_helper.System.Progress.{never_stuck}
use squid_helper.System.Seen.{Main-discrete}
use squid_helper.Program.Refines.{Run-Reach}
use squid_helper.System.Shutdown.{shutdown_step_less, left}
use squid_helper.Input.{bytes, Input}
use squid_helper.Input.TakeLine.{half_size}
use squid_helper.Buffer.Holds.{text}
use squid_helper.Input.Stream.{IsClean}
use squid_helper.Input.Stream as Stream
use squid_helper.Program.Replies.{entered-IsNulFree, run_lem, IsStart}
use squid_helper.Memory.Laws.{IsNulFree}
use squid_helper.System.Phases.{failed}
use squid_helper.Buffer.{Buffer}
use squid_helper.Program.Owners.{Sharing}
use squid_helper.Memory.{Bytes, Result}
use squid_helper.Worker.{Core}
use squid_helper.Base.{
  ◌≢◌, map, ◌≤◌, size_mod, ◌<◌, ◌+◌, All, Option, arith, length, sum_of, false, List, ℕ, zero, suc,
  ◌≡◌,
}
use squid_helper.System.{joined, IsQueue, Signal, Job, Queue}
use squid_helper.Program.{at_start, onward, boot, Run, Program, Parts, Move}

module _ {W : Type 0} (core : Core W) (parts : Parts W)
    (change_cb : parts.Event → parts.Shared → Result parts.Shared) (job_queue : Queue Job)
    (signal_queue : Queue Signal) (n : ℕ) (sharing : Sharing core parts change_cb)
    (willing : Willing sharing) where
  module _ (o : Option Bytes) (chunks : List Bytes) (clean : All IsClean chunks)
      (free : IsNulFree (text o))
      (fits : length (text o) + length (Stream.joined chunks) < half_size)
      (job_fifo : IsQueue job_queue) (signal_fifo : IsQueue signal_queue)
      (input : Input (List Buffer)) (shared : parts.Shared)
      (start : IsStart core parts change_cb job_queue signal_queue n sharing o chunks clean free
        fits job_fifo input shared) where
    abbrev From : Program core parts change_cb job_queue signal_queue → Type 0
    From p =
        Run core parts change_cb job_queue signal_queue n
          (boot core parts change_cb job_queue signal_queue n input (map bytes chunks) shared) p

    -- Some step of the program follows, and the shutdown has less left with it.
    goes_on :
        (p : Program core parts change_cb job_queue signal_queue)
        → From p
        → n < size_mod
        → n ≤ signal_queue.capacity
        → n ≤ job_queue.capacity
        → p.threads.looping ≡ false
        → sum_of failed p.threads.workers < n
        → p.threads.main ≢ joined
        → (q : Program core parts change_cb job_queue signal_queue) × Move core parts change_cb
            job_queue signal_queue n p q
          × (q.threads.looping ≡ false)
          × (sum_of failed q.threads.workers < n)
          × (left job_queue signal_queue job_fifo signal_fifo n q.threads
              < left job_queue signal_queue job_fifo signal_fifo n p.threads)
    goes_on p r b c d l f m =
        let reach =
          Run-Reach core parts change_cb job_queue signal_queue n input (map bytes chunks) shared
            r in
        let k = never_stuck job_queue signal_queue job_fifo signal_fifo n b c d reach l f m in
        let less = shutdown_step_less job_queue signal_queue job_fifo signal_fifo n l k.step in
        let (a, replied) =
          run_lem core parts change_cb job_queue signal_queue n sharing o chunks clean free fits
            job_fifo input shared start r in
        let (q, move, e, j) =
          follow core parts change_cb job_queue signal_queue n sharing willing job_fifo signal_fifo
            input.stdout p k.step l k.failures
            (busy-IsNulFree core parts change_cb job_queue signal_queue n sharing job_fifo p.threads
              reach
              (entered-IsNulFree core parts change_cb job_queue signal_queue n sharing o chunks
                clean free fits job_fifo p a))
            replied in
        (q, move, rw e less.1, rw e (omega (arith, k.failures)), rw e less.0)

    ends_within :
        (fuel : ℕ) (s p : Program core parts change_cb job_queue signal_queue)
        → Run core parts change_cb job_queue signal_queue n s p
        → From p
        → n < size_mod
        → n ≤ signal_queue.capacity
        → n ≤ job_queue.capacity
        → p.threads.looping ≡ false
        → sum_of failed p.threads.workers < n
        → left job_queue signal_queue job_fifo signal_fifo n p.threads < fuel
        → (q : Program core parts change_cb job_queue signal_queue) × Run core parts change_cb
            job_queue signal_queue n s q
          × (q.threads.main ≡ joined)
    ends_within zero s p a r b c d l f g = absurd (omega arith)
    ends_within (suc fuel) s p a r b c d l f g = elim (Main-discrete p.threads.main joined) [
      | yes e ↦ (p, a, e)
      | no m ↦
          let (q, move, l', f', less) = goes_on p r b c d l f m in
          ends_within fuel s q (onward a move) (onward r move) b c d l' f' (omega arith)
    ]

    -- Let the plugins keep what `Sharing` asks, the program start with an empty queue, plugins in
    -- order, the text `o` without NUL bytes in the line buffer, and reads that give `chunks`: none
    -- is empty, fills the array, holds a NUL byte or has two newlines next to each other, and
    -- together with `o` they are below 2^62 bytes. Let the hooks return, `thread_init` with 0, let
    -- there be `n` workers, `n` within `size_t`, and let both queues be first in, first out, with
    -- a slot for each worker. From each state that a run reaches, in which the event loop was told
    -- to end and fewer than `n` init hooks have failed, the run goes on to a state in which `main`
    -- is through.
    pub program_ends :
        {p : Program core parts change_cb job_queue signal_queue}
        → Run core parts change_cb job_queue signal_queue n
            (boot core parts change_cb job_queue signal_queue n input (map bytes chunks) shared)
            p
        → n < size_mod
        → n ≤ signal_queue.capacity
        → n ≤ job_queue.capacity
        → p.threads.looping ≡ false
        → sum_of failed p.threads.workers < n
        → (q : Program core parts change_cb job_queue signal_queue) × Run core parts change_cb
            job_queue signal_queue n p q
          × (q.threads.main ≡ joined)
    program_ends {p} r b c d l f =
        ends_within (suc (left job_queue signal_queue job_fifo signal_fifo n p.threads)) p p
          at_start r b c d l f (omega arith)
