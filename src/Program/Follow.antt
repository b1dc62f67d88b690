-- ===== src/Program/Follow.antt =====
-- The steps of the whole program of src/core/main.c that the steps of its threads stand for.
use squid_helper.System.Shutdown.{IsWorkerStep}
use squid_helper.Program.Replied.{Replied}
use squid_helper.Worker.Respond.{line-Responded}
use squid_helper.Memory.Laws.{IsNulFree}
use squid_helper.System.Phases.{sum_of-pick, failed}
use squid_helper.Program.Standing.{pick_owner, Settled}
use squid_helper.Buffer.{Buffer}
use squid_helper.Program.Owners.{Sharing}
use squid_helper.Memory.{Bytes, ok, Result}
use squid_helper.Worker.{call_hooks, init_thread, Core}
use squid_helper.Base.{
  arith, length, ◌∙◌, ap, inr, inl, ◌∷◌, [], sum_of, ◌++◌, false, List, Bool, true, refl, ℕ, ◌≡◌,
}
use squid_helper.System.{
  IsQueue, ending, idle, starting, busy, Step, Phase, System, Main, Signal, Job, Queue, finish,
  take_line,
}
use squid_helper.Program.{
  ends, notify, answer, take_null, init_failed, init_done, all_joined, all_put, put_null, answers,
  stands, seen_by, leave, wake, interrupt, enter, Program, Parts, starts, Move,
}

-- What the hooks of a thread owe to its shutdown: they return, and `thread_init` with 0.
pub record Willing {W : Type 0} {core : Core W} {parts : Parts W}
    {change_cb : parts.Event → parts.Shared → Result parts.Shared}
    (sharing : Sharing core parts change_cb) : Type 0 where
  pub inits :
      (s : parts.Shared)
      → sharing.IsShared s
      → (w : W) × (init_thread core.plugins (parts.whole s parts.unset) ≡ ok (true, w))
  pub frees :
      (s : parts.Shared) (a : parts.Own)
      → sharing.IsShared s
      → (w : W) × (call_hooks (λ h. h.thread_free) core.plugins (parts.whole s a) ≡ ok w)

module _ {W : Type 0} (core : Core W) (parts : Parts W)
    (change_cb : parts.Event → parts.Shared → Result parts.Shared) (job_queue : Queue Job)
    (signal_queue : Queue Signal) (n : ℕ) (sharing : Sharing core parts change_cb)
    (willing : Willing sharing) (job_fifo : IsQueue job_queue)
    (signal_fifo : IsQueue signal_queue) where
  -- The program takes the step that its threads can take.
  abbrev pub Follows :
      Program core parts change_cb job_queue signal_queue → System job_queue signal_queue → Type 0
  Follows p t =
      (q : Program core parts change_cb job_queue signal_queue) × Move core parts change_cb
        job_queue signal_queue n p q
      × (q.threads ≡ t)
      × (q.input.jobs ≡ p.input.jobs)

  Settled-nil :
      (main : Main) (looping : Bool) (lines : List Buffer)
      → looping ≡ false
      → Settled core parts change_cb job_queue signal_queue n sharing main looping lines
      → lines ≡ []
  Settled-nil main looping lines e (inl (f, g)) = cc
  Settled-nil main looping lines e (inr f) = f

  follow_init :
      (out : Bytes) (p : Program core parts change_cb job_queue signal_queue)
      (before after : List Phase)
      → p.threads.workers ≡ before ++ starting ∷ after
      → Replied core parts change_cb job_queue signal_queue n sharing out p
      → Follows p (record p.threads { workers = before ++ idle ∷ after })
  follow_init out p before after e k =
      let unset =
        pick_owner core parts change_cb job_queue signal_queue n sharing p.own p.threads.workers
          before after starting e k.owners in
      let (w, h) = willing.inits p.shared k.shared in
      (
        _,
        starts before after w e
            (ap (λ a. init_thread core.plugins (parts.whole p.shared a)) unset ∙ h),
        refl,
        refl,
      )

  follow_answer :
      (out : Bytes) (p : Program core parts change_cb job_queue signal_queue)
      (before after : List Phase) (line : Bytes)
      → p.threads.workers ≡ before ++ busy line ∷ after
      → IsNulFree line
      → Replied core parts change_cb job_queue signal_queue n sharing out p
      → Follows p (record p.threads {
        workers = before ++ idle ∷ after;
        answered = p.threads.answered ++ line ∷ [];
      })
  follow_answer out p before after line e z k =
      let owned =
        pick_owner core parts change_cb job_queue signal_queue n sharing p.own p.threads.workers
          before after (busy line) e k.owners in
      let (r, inv) =
        line-Responded core sharing.contract line []
          (record {
            stdout = p.input.stdout;
            state = seen_by core parts change_cb job_queue signal_queue p (length before);
          })
          z (sharing.joins p.shared (p.own (length before)) k.shared owned) in
      (_, answers before after line [] r.out e r.result, refl, refl)

  -- A step of a worker.
  pub follow_worker :
      (out : Bytes) (p : Program core parts change_cb job_queue signal_queue)
      {t : System job_queue signal_queue} (step : Step job_queue signal_queue n p.threads t)
      → IsWorkerStep job_queue signal_queue job_fifo signal_fifo n step
      → sum_of failed t.workers ≡ sum_of failed p.threads.workers
      → ((before after : List Phase) (line : Bytes)
          → p.threads.workers ≡ before ++ busy line ∷ after
          → IsNulFree line)
      → Replied core parts change_cb job_queue signal_queue n sharing out p
      → Follows p t
  follow_worker out p (enter line q m l e) w g z k = absurd w
  follow_worker out p (interrupt m l) w g z k = absurd w
  follow_worker out p (wake m l a e) w g z k = absurd w
  follow_worker out p (leave m l) w g z k = absurd w
  follow_worker out p (put_null i q m e) w g z k = absurd w
  follow_worker out p (all_put m) w g z k = absurd w
  follow_worker out p (all_joined m e) w g z k = absurd w
  follow_worker out p (init_done before after e) w g z k = follow_init out p before after e k
  follow_worker out p (init_failed before after e) w g z k = absurd (
      omega (
        arith,
        g,
        sum_of-pick failed p.threads.workers before after starting e,
        sum_of-pick failed (before ++ ending false ∷ after) before after (ending false) refl,
      ))
  follow_worker out p (take_line before after line q e d) w g z k =
      (_, stands (take_line before after line q e d) tt, refl, refl)
  follow_worker out p (take_null before after q e d) w g z k =
      (_, stands (take_null before after q e d) tt, refl, refl)
  follow_worker out p (answer before after line e) w g z k =
      follow_answer out p before after line e (z before after line e) k
  follow_worker out p (finish before after null q e d) w g z k =
      (_, stands (finish before after null q e d) tt, refl, refl)
  follow_worker out p (notify before after null e) w g z k =
      let (w, h) = willing.frees p.shared (p.own (length before)) k.shared in
      (_, ends before after null w e h, refl, refl)

  -- A step once the event loop is told to end.
  pub follow :
      (out : Bytes) (p : Program core parts change_cb job_queue signal_queue)
      {t : System job_queue signal_queue}
      → Step job_queue signal_queue n p.threads t
      → p.threads.looping ≡ false
      → sum_of failed t.workers ≡ sum_of failed p.threads.workers
      → ((before after : List Phase) (line : Bytes)
          → p.threads.workers ≡ before ++ busy line ∷ after
          → IsNulFree line)
      → Replied core parts change_cb job_queue signal_queue n sharing out p
      → Follows p t
  follow out p (enter line q m l e) f g z k = cc
  follow out p (interrupt m l) f g z k = cc
  follow out p (wake m l a e) f g z k = cc
  follow out p (leave m l) f g z k = (
    _,
    stands (leave m l) (Settled-nil p.threads.main p.threads.looping p.input.jobs f k.settled),
    refl,
    refl,
  )
  follow out p (put_null i q m e) f g z k = (_, stands (put_null i q m e) tt, refl, refl)
  follow out p (all_put m) f g z k = (_, stands (all_put m) tt, refl, refl)
  follow out p (all_joined m e) f g z k = (_, stands (all_joined m e) tt, refl, refl)
  follow out p (init_done before after e) f g z k =
      follow_worker out p (init_done before after e) tt g z k
  follow out p (init_failed before after e) f g z k =
      follow_worker out p (init_failed before after e) tt g z k
  follow out p (take_line before after line q e d) f g z k =
      follow_worker out p (take_line before after line q e d) tt g z k
  follow out p (take_null before after q e d) f g z k =
      follow_worker out p (take_null before after q e d) tt g z k
  follow out p (answer before after line e) f g z k =
      follow_worker out p (answer before after line e) tt g z k
  follow out p (finish before after null q e d) f g z k =
      follow_worker out p (finish before after null q e d) tt g z k
  follow out p (notify before after null e) f g z k =
      follow_worker out p (notify before after null e) tt g z k
