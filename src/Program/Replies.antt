-- ===== src/Program/Replies.antt =====
-- The replies of the whole program of src/core/main.c to the lines that it has read.
use squid_helper.Program.Entered.{lines-IsNulFree, Move-Intake}
use squid_helper.Strtok.Laws.{str_equal_to_eq, str_equal_self}
use squid_helper.Strtok.{str_equal}
use squid_helper.Program.Replied.{busy-IsNulFree, answers-Replied, keep-Replied, Replied}
use squid_helper.Program.Intake.{HoldLines-nil, Intake, boot-Intake, reads_stdout}
use squid_helper.Program.Owners.{Sharing, Owners-launch}
use squid_helper.Program.Refines.{Run-Reach}
use squid_helper.Program.{
  Parts, Program, boot, Move, Run, at_start, onward, reads, enters, changes, starts, fails, answers,
  ends, stands,
}
use squid_helper.System.Conserve.{all_answered_at_end}
use squid_helper.System.Phases.{stopped}
use squid_helper.System.{
  Queue, IsQueue, Job, Signal, Reach, launch, starting, idle, ending, notifying, ended, Main,
  joined,
}
use squid_helper.Worker.Jobs.{Answers}
use squid_helper.Worker.{init_thread, Core, word_width}
use squid_helper.Program.Standing.{
  Stands-answered, Settled, Stands-Settled, Stands-Owners, put-Owners, pick_owner,
}
use squid_helper.Input.Stream.{IsClean}
use squid_helper.Input.Stream as Stream
use squid_helper.Input.Lines.{split_lines}
use squid_helper.Input.TakeLine.{half_size}
use squid_helper.Input.{Input, bytes}
use squid_helper.Buffer.Holds.{Pending, text}
use squid_helper.Buffer.{Buffer}
use squid_helper.Memory.Laws.{IsNulFree}
use squid_helper.Memory.{Bytes, Result}
use squid_helper.Base.{
  weights-Perm, Perm, ℕ, ◌+◌, ◌≡◌, ◌<◌, inl, inr, refl, sym, ap, ◌∙◌, List, [], ◌++◌, Option, Bool,
  false, All, All-append_left, map, length, append-nil, sum_of,
}

module _ {W : Type 0} (core : Core W) (parts : Parts W)
    (change_cb : parts.Event → parts.Shared → Result parts.Shared) (job_queue : Queue Job)
    (signal_queue : Queue Signal) (n : ℕ) (sharing : Sharing core parts change_cb) where
  module _ (o : Option Bytes) (chunks : List Bytes) (clean : All IsClean chunks)
      (free : IsNulFree (text o))
      (fits : length (text o) + length (Stream.joined chunks) < half_size)
      (job_fifo : IsQueue job_queue) where
    pub entered-IsNulFree :
        (p : Program core parts change_cb job_queue signal_queue)
        → Intake core parts change_cb job_queue signal_queue n o chunks p
        → All IsNulFree p.threads.entered
    entered-IsNulFree p k = All-append_left IsNulFree p.threads.entered k.lines (
        rw k.entered (
          lines-IsNulFree core parts change_cb job_queue signal_queue n o chunks clean free fits
            k.used k.left k.whole))

    Move-Replied :
        (out : Bytes) {p q : Program core parts change_cb job_queue signal_queue}
        → Move core parts change_cb job_queue signal_queue n p q
        → Intake core parts change_cb job_queue signal_queue n o chunks p
        → Reach job_queue signal_queue n (launch job_queue signal_queue n) p.threads
        → Replied core parts change_cb job_queue signal_queue n sharing out p
        → Replied core parts change_cb job_queue signal_queue n sharing out q
    Move-Replied out (reads {p = p} now rest later i m l w j u e) a r k =
        keep-Replied core parts change_cb job_queue signal_queue n sharing out p _ k.shared k.owners
          (inl (m, l))
          (reads_stdout core parts change_cb job_queue signal_queue n o chunks clean free fits p now
            rest later i u e a)
          refl k
    Move-Replied out (enters {p = p} b lines line q m l j s e) a r k =
        keep-Replied core parts change_cb job_queue signal_queue n sharing out p _ k.shared k.owners
          (inl (m, l)) refl refl k
    Move-Replied out (changes {p = p} event shared m l j e) a r k =
        keep-Replied core parts change_cb job_queue signal_queue n sharing out p _
          (sharing.changes event p.shared shared k.shared e) k.owners (inl (m, l)) refl refl k
    Move-Replied out (starts {p = p} before after w e h) a r k =
        let unset =
          pick_owner core parts change_cb job_queue signal_queue n sharing p.own p.threads.workers
            before after starting e k.owners in
        let inv =
          sharing.inits p.shared w k.shared
            (ap (λ a. init_thread core.plugins (parts.whole p.shared a)) (sym unset) ∙ h) in
        keep-Replied core parts change_cb job_queue signal_queue n sharing out p _
          (sharing.shares w inv)
          (put-Owners core parts change_cb job_queue signal_queue n sharing p.own (parts.own_of w)
            p.threads.workers before after starting idle e (sharing.owns w inv) k.owners)
          k.settled refl refl k
    Move-Replied out (fails {p = p} before after w e h) a r k =
        let unset =
          pick_owner core parts change_cb job_queue signal_queue n sharing p.own p.threads.workers
            before after starting e k.owners in
        keep-Replied core parts change_cb job_queue signal_queue n sharing out p _
          (sharing.fails p.shared w k.shared
            (ap (λ a. init_thread core.plugins (parts.whole p.shared a)) (sym unset) ∙ h))
          (put-Owners core parts change_cb job_queue signal_queue n sharing p.own (parts.own_of w)
            p.threads.workers before after starting (ending false) e tt k.owners)
          k.settled refl refl k
    Move-Replied out (answers {p = p} before after line more s e h) a r k =
        answers-Replied core parts change_cb job_queue signal_queue n sharing out p before after
          line more s e h
          (busy-IsNulFree core parts change_cb job_queue signal_queue n sharing job_fifo p.threads r
            (entered-IsNulFree p a) before after line e)
          k
    Move-Replied out (ends {p = p} before after null w e h) a r k =
        keep-Replied core parts change_cb job_queue signal_queue n sharing out p _
          (sharing.frees p.shared (p.own (length before)) w k.shared h)
          (put-Owners core parts change_cb job_queue signal_queue n sharing p.own
            (parts.own_of (parts.exit w)) p.threads.workers before after (notifying null)
            (ended null) e tt k.owners)
          k.settled refl refl k
    Move-Replied out (stands {p = p} {t = t} step h) a r k =
        keep-Replied core parts change_cb job_queue signal_queue n sharing out p _ k.shared
          (Stands-Owners core parts change_cb job_queue signal_queue n sharing step p.input.jobs
            p.own h k.owners)
          (Stands-Settled core parts change_cb job_queue signal_queue n sharing step p.input.jobs h
            k.settled)
          refl
          (Stands-answered core parts change_cb job_queue signal_queue n sharing step p.input.jobs
            h)
          k

    -- Where the program starts: nothing is enqueued, and the line buffer holds `o`.
    pub record IsStart (input : Input (List Buffer)) (start : parts.Shared) : Type 0 where
      pub pending : Pending input.tmp_line_buf o
      pub empty : input.jobs ≡ []
      pub sound : sharing.IsShared start

    pub run_lem :
        (input : Input (List Buffer)) (shared : parts.Shared)
        {p : Program core parts change_cb job_queue signal_queue}
        → IsStart input shared
        → Run core parts change_cb job_queue signal_queue n
            (boot core parts change_cb job_queue signal_queue n input (map bytes chunks) shared)
            p
        → Intake core parts change_cb job_queue signal_queue n o chunks p
          × Replied core parts change_cb job_queue signal_queue n sharing input.stdout p
    unfolding boot launch
    run_lem input shared h at_start = (
      boot-Intake core parts change_cb job_queue signal_queue n o chunks input shared h.pending
          h.empty,
      record {
        shared = h.sound;
        owners = Owners-launch sharing.IsOwn parts.unset 0 n;
        settled = inl (refl, refl);
        replies = [];
        printed = sym (append-nil input.stdout);
        each = tt;
      },
    )
    run_lem input shared h (onward r m) =
        let (a, k) = run_lem input shared h r in
        (
          Move-Intake core parts change_cb job_queue signal_queue n o chunks clean free fits m a,
          Move-Replied input.stdout m a
              (Run-Reach core parts change_cb job_queue signal_queue n input (map bytes chunks)
                shared r)
              k,
        )

    pub nothing_waits :
        (main : Main) (looping : Bool) (lines : List Buffer)
        → main ≡ joined
        → Settled core parts change_cb job_queue signal_queue n sharing main looping lines
        → lines ≡ []
    nothing_waits main looping lines e (inl (f, g)) = cc
    nothing_waits main looping lines e (inr f) = f

    pub all_entered :
        (p : Program core parts change_cb job_queue signal_queue)
        → (a : Intake core parts change_cb job_queue signal_queue n o chunks p) → p.input.jobs ≡ []
        → p.threads.entered ≡ (split_lines (text o) (Stream.joined a.used)).0
    all_entered p a e =
        sym (append-nil p.threads.entered)
        ∙ ap (λ q. p.threads.entered ++ q)
            (sym (
              HoldLines-nil core parts change_cb job_queue signal_queue n o chunks a.lines
                (rw e at a.waiting)))
        ∙ a.entered

    -- Let the plugins keep what `Sharing` asks, the job queue be first in, first out, and the
    -- program start with an empty queue, plugins in order, the text `o` without NUL bytes in the
    -- line buffer, and reads that give `chunks`: none is empty, fills the array, holds a NUL byte
    -- or has two newlines next to each other, and together with `o` they are below 2^62 bytes. In
    -- every run up to a `main` that is through, with a worker that took a NULL, whatever the order
    -- of the steps of the threads: the chunks are those that were read, `used`, and those that
    -- were not; what main.c printed are replies, one for each line that was answered, in that
    -- order and with the number that `sscanf` reads from it or 0 in decimal, the number of the
    -- line itself if Squid sends it in the form number, blank, word within the limits of the
    -- conversion; and the answered lines are those of `o` and the whole read input, in some order.
    pub whole_input_answered :
        (input : Input (List Buffer)) (shared : parts.Shared)
        {p : Program core parts change_cb job_queue signal_queue}
        → IsStart input shared
        → Run core parts change_cb job_queue signal_queue n
            (boot core parts change_cb job_queue signal_queue n input (map bytes chunks) shared)
            p
        → p.threads.main ≡ joined
        → 0 < sum_of stopped p.threads.workers
        → (used : List Bytes) × (left : List Bytes) × (replies : List Bytes) × (chunks
            ≡ used ++ left)
          × (p.unread ≡ map bytes left)
          × (p.input.stdout ≡ input.stdout ++ Stream.joined replies)
          × Answers (word_width core.have_ipv6) p.threads.answered replies
          × Perm p.threads.answered (split_lines (text o) (Stream.joined used)).0
    whole_input_answered input shared {p} h r m g =
        let (a, k) = run_lem input shared h r in
        let reach =
          Run-Reach core parts change_cb job_queue signal_queue n input (map bytes chunks) shared
            r in
        (
          a.used,
          a.left,
          k.replies,
          a.whole,
          a.unread,
          k.printed,
          k.each,
          weights-Perm str_equal str_equal_self str_equal_to_eq p.threads.answered _ (λ f.
              all_answered_at_end job_queue signal_queue job_fifo n f reach m g
              ∙ ap (sum_of f) (
                  all_entered p a
                    (nothing_waits p.threads.main p.threads.looping p.input.jobs m k.settled))),
        )
