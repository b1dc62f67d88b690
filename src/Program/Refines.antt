-- ===== src/Program/Refines.antt =====
-- The threads of the whole program of src/core/main.c against those of System.
use squid_helper.Base.{ℕ, List}
use squid_helper.Memory.{Result}
use squid_helper.Worker.{Core}
use squid_helper.Input.{Input, ReadResult}
use squid_helper.Buffer.{Buffer}
use squid_helper.System.{
  Queue, Job, Signal, System, launch, Reach, here, next, enter, init_done, init_failed, answer,
  notify,
}
use squid_helper.Program.{
  Parts, Program, boot, Move, Run, at_start, onward, reads, enters, changes, starts, fails, answers,
  ends, stands,
}

module _ {W : Type 0} (core : Core W) (parts : Parts W)
    (change_cb : parts.Event → parts.Shared → Result parts.Shared) (job_queue : Queue Job)
    (signal_queue : Queue Signal) (n : ℕ) where
  Move-Reach :
      {p q : Program core parts change_cb job_queue signal_queue}
      {s : System job_queue signal_queue}
      → Move core parts change_cb job_queue signal_queue n p q
      → Reach job_queue signal_queue n s p.threads
      → Reach job_queue signal_queue n s q.threads
  Move-Reach (reads now rest later i m l w j u e) r = r
  Move-Reach (enters b lines line q m l j h e) r = next r (enter line q m l e)
  Move-Reach (changes event shared m l j e) r = r
  Move-Reach (starts before after w e i) r = next r (init_done before after e)
  Move-Reach (fails before after w e i) r = next r (init_failed before after e)
  Move-Reach (answers before after line more s e h) r = next r (answer before after line e)
  Move-Reach (ends before after null w e h) r = next r (notify before after null e)
  Move-Reach (stands step h) r = next r step

  -- From `boot`, whatever the plugins, the input and their state: each state of the threads that a
  -- run of the program reaches is one that System reaches from `launch`.
  pub Run-Reach :
      (input : Input (List Buffer)) (unread : List ReadResult) (shared : parts.Shared)
      {p : Program core parts change_cb job_queue signal_queue}
      → Run core parts change_cb job_queue signal_queue n
          (boot core parts change_cb job_queue signal_queue n input unread shared)
          p
      → Reach job_queue signal_queue n (launch job_queue signal_queue n) p.threads
  unfolding boot
  Run-Reach input unread shared at_start = here
  Run-Reach input unread shared (onward r m) = Move-Reach m (Run-Reach input unread shared r)
