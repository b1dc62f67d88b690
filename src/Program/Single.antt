-- ===== src/Program/Single.antt =====
-- The whole program of src/core/main.c with one worker.
use mathlib.Core.Path.{subst}
use squid_helper.Program.Refines.{Run-Reach}
use squid_helper.Input.Lines.{split_lines}
use squid_helper.Worker.Jobs.{Answers}
use squid_helper.System.Phases.{stopped}
use squid_helper.Program.Replies.{nothing_waits, all_entered, run_lem, IsStart}
use squid_helper.Buffer.{Buffer}
use squid_helper.Input.{bytes, Input}
use squid_helper.Input.TakeLine.{half_size}
use squid_helper.Buffer.Holds.{text}
use squid_helper.Memory.Laws.{IsNulFree}
use squid_helper.Input.Stream.{IsClean}
use squid_helper.Program.Owners.{Sharing}
use squid_helper.System.{joined, IsQueue, Signal, Job, Queue}
use squid_helper.Memory.{Bytes, Result}
use squid_helper.Program.{boot, Run, Program, Parts}
use squid_helper.Worker.{word_width, Core}
use squid_helper.Input.Stream as Stream
use squid_helper.System.Single.{one_worker_in_order}
use squid_helper.Base.{◌∙◌, ◌++◌, sum_of, map, ◌<◌, ◌+◌, length, All, List, Option, ◌≡◌}

module _ {W : Type 0} (core : Core W) (parts : Parts W)
    (change_cb : parts.Event → parts.Shared → Result parts.Shared) (job_queue : Queue Job)
    (signal_queue : Queue Signal) (sharing : Sharing core parts change_cb) where
  module _ (o : Option Bytes) (chunks : List Bytes) (clean : All IsClean chunks)
      (free : IsNulFree (text o))
      (fits : length (text o) + length (Stream.joined chunks) < half_size)
      (job_fifo : IsQueue job_queue) where
    -- Let the plugins keep what `Sharing` asks, the program start with an empty queue, plugins in
    -- order, the text `o` without NUL bytes in the line buffer, and reads that give `chunks`: none
    -- is empty, fills the array, holds a NUL byte or has two newlines next to each other, and
    -- together with `o` they are below 2^62 bytes. Let the job queue be first in, first out, and
    -- let there be one worker. In every run up to a `main` that is through, with a worker that
    -- took a NULL: the chunks are those that were read, `used`, and those that were not, and what
    -- main.c printed is one reply for each line of `o` and the whole read input, in the order of
    -- the lines, with the number that `sscanf` reads from it or 0 in decimal, the number of the
    -- line itself if Squid sends it in the form number, blank, word within the limits of the
    -- conversion.
    pub one_worker_replies :
        (input : Input (List Buffer)) (shared : parts.Shared)
        {p : Program core parts change_cb job_queue signal_queue}
        → IsStart core parts change_cb job_queue signal_queue 1 sharing o chunks clean free fits
            job_fifo input shared
        → Run core parts change_cb job_queue signal_queue 1
            (boot core parts change_cb job_queue signal_queue 1 input (map bytes chunks) shared)
            p
        → p.threads.main ≡ joined
        → 0 < sum_of stopped p.threads.workers
        → (used : List Bytes) × (left : List Bytes) × (replies : List Bytes) × (chunks
            ≡ used ++ left)
          × (p.unread ≡ map bytes left)
          × (p.input.stdout ≡ input.stdout ++ Stream.joined replies)
          × Answers
              (word_width core.have_ipv6)
              (split_lines (text o) (Stream.joined used)).0
              replies
    one_worker_replies input shared {p} h r m g =
        let (a, k) =
          run_lem core parts change_cb job_queue signal_queue 1 sharing o chunks clean free fits
            job_fifo input shared h r in
        let reach =
          Run-Reach core parts change_cb job_queue signal_queue 1 input (map bytes chunks) shared
            r in
        let lines =
          one_worker_in_order job_queue signal_queue job_fifo reach m g
          ∙ all_entered core parts change_cb job_queue signal_queue 1 sharing o chunks clean free
              fits job_fifo p a
              (nothing_waits core parts change_cb job_queue signal_queue 1 sharing o chunks clean
                free fits job_fifo p.threads.main p.threads.looping p.input.jobs m k.settled) in
        (
          a.used,
          a.left,
          k.replies,
          a.whole,
          a.unread,
          k.printed,
          subst (λ q. Answers (word_width core.have_ipv6) q k.replies) lines k.each,
        )
