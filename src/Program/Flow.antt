-- ===== src/Program/Flow.antt =====
-- The lines that `stdin_read_cb` of src/core/main.c has found, on their way into the job queue.
use squid_helper.Program.Replied.{busy-IsNulFree}
use squid_helper.System.Flow.{line_flows}
use squid_helper.Program.Entered.{next_line}
use squid_helper.Program.Refines.{Run-Reach}
use squid_helper.System.Shutdown.{worker_step_less, left}
use squid_helper.Program.Standing.{Settled}
use squid_helper.System.Phases.{failed}
use squid_helper.Program.Replies.{entered-IsNulFree, run_lem, IsStart}
use squid_helper.Buffer.{Buffer}
use squid_helper.Input.{bytes, Input}
use squid_helper.Input.TakeLine.{half_size}
use squid_helper.Buffer.Holds.{text}
use squid_helper.Memory.Laws.{IsNulFree}
use squid_helper.Input.Stream.{IsClean}
use squid_helper.Program.Follow.{follow_worker, Willing}
use squid_helper.Program.Owners.{Sharing}
use squid_helper.System.{serving, Main, IsQueue, Signal, Job, Queue}
use squid_helper.Memory.{Bytes, Result}
use squid_helper.Worker.{Core}
use squid_helper.Input.Stream as Stream
use squid_helper.Program.{Run, Program, Parts, enters, boot, Move, onward, at_start}
use squid_helper.Base.{
  ◌∙◌, inr, inl, arith, map, sum_of, size_mod, Bool, ◌<◌, ◌+◌, length, All, List, Option, refl,
  zero, suc, ℕ, ◌≡◌, ◌∷◌, ◌≤◌, ◌⊎◌, [], true,
}

module _ {W : Type 0} (core : Core W) (parts : Parts W)
    (change_cb : parts.Event → parts.Shared → Result parts.Shared) (job_queue : Queue Job)
    (signal_queue : Queue Signal) (n : ℕ) (sharing : Sharing core parts change_cb)
    (willing : Willing sharing) where
  module _ (o : Option Bytes) (chunks : List Bytes) (clean : All IsClean chunks)
      (free : IsNulFree (text o))
      (fits : length (text o) + length (Stream.joined chunks) < half_size)
      (job_fifo : IsQueue job_queue) (signal_fifo : IsQueue signal_queue)
      (input : Input (List Buffer)) (shared : parts.Shared)
      (start : IsStart core parts change_cb job_queue signal_queue n sharing o chunks clean free
        fits job_fifo input shared) where
    -- While lines wait for the queue, the event loop serves.
    Settled-serving :
        (main : Main) (looping : Bool) (b : Buffer) (bs lines : List Buffer)
        → lines ≡ b ∷ bs
        → Settled core parts change_cb job_queue signal_queue n sharing main looping lines
        → (main ≡ serving) × (looping ≡ true)
    Settled-serving main looping b bs lines e (inl h) = h
    Settled-serving main looping b bs lines e (inr h) = cc

    abbrev From : Program core parts change_cb job_queue signal_queue → Type 0
    From p =
        Run core parts change_cb job_queue signal_queue n
          (boot core parts change_cb job_queue signal_queue n input (map bytes chunks) shared) p

    -- What is asked of the threads all along.
    record Open (p : Program core parts change_cb job_queue signal_queue) : Type 0 where
      run : From p
      some_serve : sum_of failed p.threads.workers < n

    -- The next line gets into the queue, or a worker makes progress.
    flow_step :
        (p : Program core parts change_cb job_queue signal_queue) (b : Buffer) (bs : List Buffer)
        → Open p
        → n < size_mod
        → n ≤ signal_queue.capacity
        → 0 < job_queue.capacity
        → p.input.jobs ≡ b ∷ bs
        → (q : Program core parts change_cb job_queue signal_queue) × Move core parts change_cb
            job_queue signal_queue n p q
          × (sum_of failed q.threads.workers < n)
          × ((q.input.jobs ≡ bs)
              ⊎ ((q.input.jobs ≡ b ∷ bs)
                  × (left job_queue signal_queue job_fifo signal_fifo n q.threads
                      < left job_queue signal_queue job_fifo signal_fifo n p.threads)))
    flow_step p b bs g c d e j =
        let reach =
          Run-Reach core parts change_cb job_queue signal_queue n input (map bytes chunks) shared
            g.run in
        let (a, k) =
          run_lem core parts change_cb job_queue signal_queue n sharing o chunks clean free fits
            job_fifo input shared start g.run in
        let (m, l) =
          Settled-serving p.threads.main p.threads.looping b bs p.input.jobs j k.settled in
        let (line, h) =
          next_line core parts change_cb job_queue signal_queue n o chunks clean free fits p b bs j
            a a.lines refl in
        elim (line_flows job_queue signal_queue job_fifo signal_fifo n reach c d e m g.some_serve
          line) [
            | inl (q, r) ↦ (_, enters b bs line q m l j h r, g.some_serve, inl refl)
            | inr v ↦
                let (q, move, t, i) =
                  follow_worker core parts change_cb job_queue signal_queue n sharing willing
                    job_fifo signal_fifo input.stdout p v.step v.worker v.failures
                    (busy-IsNulFree core parts change_cb job_queue signal_queue n sharing job_fifo
                      p.threads reach
                      (entered-IsNulFree core parts change_cb job_queue signal_queue n sharing o
                        chunks clean free fits job_fifo p a))
                    k in
                let less =
                  worker_step_less job_queue signal_queue job_fifo signal_fifo n v.step v.worker in
                (q, move, rw t (omega (arith, v.failures, g.some_serve)), inr (i ∙ j, rw t less.0))
          ]

    -- With so much left to do at most, the next line gets in.
    gets_in :
        (fuel : ℕ) (s p : Program core parts change_cb job_queue signal_queue) (b : Buffer)
        (bs : List Buffer)
        → Run core parts change_cb job_queue signal_queue n s p
        → Open p
        → n < size_mod
        → n ≤ signal_queue.capacity
        → 0 < job_queue.capacity
        → p.input.jobs ≡ b ∷ bs
        → left job_queue signal_queue job_fifo signal_fifo n p.threads < fuel
        → (q : Program core parts change_cb job_queue signal_queue) × Run core parts change_cb
            job_queue signal_queue n s q
          × Open q
          × (q.input.jobs ≡ bs)
    gets_in zero s p b bs r g c d e j f = absurd (omega arith)
    gets_in (suc fuel) s p b bs r g c d e j f =
        let (q, move, h, v) = flow_step p b bs g c d e j in
        let g' : Open q = record { run = onward g.run move; some_serve = h } in
        elim v [
          | inl i ↦ (q, onward r move, g', i)
          | inr (i, less) ↦ gets_in fuel s q b bs (onward r move) g' c d e i (omega (arith, less))
        ]

    all_in :
        (lines : List Buffer) (s p : Program core parts change_cb job_queue signal_queue)
        → Run core parts change_cb job_queue signal_queue n s p
        → Open p
        → n < size_mod
        → n ≤ signal_queue.capacity
        → 0 < job_queue.capacity
        → p.input.jobs ≡ lines
        → (q : Program core parts change_cb job_queue signal_queue) × Run core parts change_cb
            job_queue signal_queue n s q
          × (q.input.jobs ≡ [])
    all_in [] s p r g c d e j = (p, r, j)
    all_in (b ∷ bs) s p r g c d e j =
        let (q, r', g', i) =
          gets_in (suc (left job_queue signal_queue job_fifo signal_fifo n p.threads)) s p b bs r g
            c d e j (omega arith) in
        all_in bs s q r' g' c d e i

    -- Let the plugins keep what `Sharing` asks, the program start with an empty queue, plugins in
    -- order, the text `o` without NUL bytes in the line buffer, and reads that give `chunks`: none
    -- is empty, fills the array, holds a NUL byte or has two newlines next to each other, and
    -- together with `o` they are below 2^62 bytes. Let the hooks return, `thread_init` with 0, let
    -- there be `n` workers, `n` within `size_t`, let both queues be first in, first out, the one
    -- for signals with a slot for each worker and the one for jobs with one slot at least. From
    -- each state that a run reaches, and in which fewer than `n` init hooks have failed, the run
    -- goes on to a state in which each line that the callback found is in the queue, however full
    -- that was.
    pub callback_returns :
        {p : Program core parts change_cb job_queue signal_queue}
        → Run core parts change_cb job_queue signal_queue n
            (boot core parts change_cb job_queue signal_queue n input (map bytes chunks) shared)
            p
        → n < size_mod
        → n ≤ signal_queue.capacity
        → 0 < job_queue.capacity
        → sum_of failed p.threads.workers < n
        → (q : Program core parts change_cb job_queue signal_queue) × Run core parts change_cb
            job_queue signal_queue n p q
          × (q.input.jobs ≡ [])
    callback_returns {p} r c d e f =
        all_in p.input.jobs p p at_start (record { run = r; some_serve = f }) c d e refl
