-- ===== src/System/Conserve.antt =====
-- What becomes of each line between stdin_read_cb and worker of src/core/main.c, by the weight of
-- the lines that are answered, at a worker, queued and entered.
use squid_helper.System.Wake.{woken}
use squid_helper.System.Order.{Reach-Order, is_line}
use squid_helper.System.Phases.{sum_of-put, sum_of-pick, stopped, live, line_of, sum_of-replicate}
use squid_helper.Base.{
  sum_of-append, sum_of, ℕ, ◌+◌, ◌≡◌, ◌<◌, refl, List, [], ◌∷◌, true, false, none, some, arith, ap,
}
use squid_helper.Memory.{Bytes}
use squid_helper.System.{
  notify, notifying, finish, answer, take_null, take_line, init_failed, init_done, all_joined,
  all_put, put_null, leave, wake, interrupt, enter, on_signal, sigint_cb, Queue, IsQueue, Phase,
  starting, idle, busy, ending, ended, joined, Signal, Job, System, Step, Reach, launch, here, next,
}

abbrev pub job_weight : (Bytes → ℕ) → Job → ℕ
job_weight f none = 0
job_weight f (some line) = f line

no_line_weight :
    (f : Bytes → ℕ) (jobs : List Job) → sum_of is_line jobs ≡ 0 → sum_of (job_weight f) jobs ≡ 0
no_line_weight f [] e = refl
no_line_weight f (none ∷ jobs) e = omega (arith, no_line_weight f jobs (omega arith))
no_line_weight f (some line ∷ jobs) e = absurd (omega arith)

no_busy_weight : (f : Bytes → ℕ) (ws : List Phase) → sum_of live ws ≡ 0 → sum_of (line_of f) ws ≡ 0
no_busy_weight f [] e = refl
no_busy_weight f (starting ∷ ws) e = absurd (omega arith)
no_busy_weight f (idle ∷ ws) e = absurd (omega arith)
no_busy_weight f (busy line ∷ ws) e = absurd (omega arith)
no_busy_weight f (ending null ∷ ws) e = absurd (omega arith)
no_busy_weight f (notifying null ∷ ws) e = omega (arith, no_busy_weight f ws (omega arith))
no_busy_weight f (ended null ∷ ws) e = omega (arith, no_busy_weight f ws (omega arith))

module _ (job_queue : Queue Job) (signal_queue : Queue Signal) (fifo : IsQueue job_queue) (n : ℕ)
    (f : Bytes → ℕ) where
  abbrev pub Conserved : System job_queue signal_queue → Type 0
  Conserved s =
      sum_of f s.answered
        + sum_of (line_of f) s.workers
        + sum_of (job_weight f) (job_queue.items s.jobs)
      ≡ sum_of f s.entered

  launch-Conserved : Conserved (launch job_queue signal_queue n)
  unfolding launch
  launch-Conserved = rw fifo.items-empty (omega (arith, sum_of-replicate (line_of f) n starting))

  Step-Conserved :
      {s t : System job_queue signal_queue}
      → Step job_queue signal_queue n s t
      → Conserved s
      → Conserved t
  unfolding sigint_cb on_signal
  Step-Conserved (enter {s = s} line q m l e) o =
      let (i, r) = fifo.enqueue_some s.jobs q (some line) e in
      rw i (
        omega (
          arith,
          o,
          sum_of-append (job_weight f) (job_queue.items s.jobs) (some line ∷ []),
          sum_of-append f s.entered (line ∷ []),
        ))
  Step-Conserved (interrupt m l) o = o
  Step-Conserved (wake {s = s} {t = t} m l w e) o =
      rw (woken job_queue signal_queue (record s { async = false }) t e).result o
  Step-Conserved (leave m l) o = o
  Step-Conserved (put_null {s = s} k q m e) o =
      let (i, r) = fifo.enqueue_some s.jobs q none e in
      rw i (omega (arith, o, sum_of-append (job_weight f) (job_queue.items s.jobs) (none ∷ [])))
  Step-Conserved (all_put m) o = o
  Step-Conserved (all_joined m e) o = o
  Step-Conserved (init_done {s = s} before after e) o = omega (
    arith,
    o,
    sum_of-pick (line_of f) s.workers before after starting e,
    sum_of-put (line_of f) before after idle,
  )
  Step-Conserved (init_failed {s = s} before after e) o = omega (
    arith,
    o,
    sum_of-pick (line_of f) s.workers before after starting e,
    sum_of-put (line_of f) before after (ending false),
  )
  Step-Conserved (take_line {s = s} before after line q e d) o = omega (
    arith,
    o,
    ap (sum_of (job_weight f)) (fifo.dequeue_some s.jobs q (some line) d),
    sum_of-pick (line_of f) s.workers before after idle e,
    sum_of-put (line_of f) before after (busy line),
  )
  Step-Conserved (take_null {s = s} before after q e d) o = omega (
    arith,
    o,
    ap (sum_of (job_weight f)) (fifo.dequeue_some s.jobs q none d),
    sum_of-pick (line_of f) s.workers before after idle e,
    sum_of-put (line_of f) before after (ending true),
  )
  Step-Conserved (answer {s = s} before after line e) o = omega (
    arith,
    o,
    sum_of-pick (line_of f) s.workers before after (busy line) e,
    sum_of-put (line_of f) before after idle,
    sum_of-append f s.answered (line ∷ []),
  )
  Step-Conserved (finish {s = s} before after null q e d) o = omega (
    arith,
    o,
    sum_of-pick (line_of f) s.workers before after (ending null) e,
    sum_of-put (line_of f) before after (notifying null),
  )
  Step-Conserved (notify {s = s} before after null e) o = omega (
    arith,
    o,
    sum_of-pick (line_of f) s.workers before after (notifying null) e,
    sum_of-put (line_of f) before after (ended null),
  )

  -- In every state that is reached, under every weight of lines: what is answered, what a worker
  -- is at and what is queued weigh together what was enqueued. The job queue is first in, first
  -- out.
  pub no_line_lost :
      {s : System job_queue signal_queue}
      → Reach job_queue signal_queue n (launch job_queue signal_queue n) s
      → Conserved s
  no_line_lost here = launch-Conserved
  no_line_lost (next r st) = Step-Conserved st (no_line_lost r)

  -- In every state that is reached in which `main` has joined its workers, of which one at least
  -- took a NULL, and for every weight of lines: the lines that were answered weigh what the lines
  -- weigh that were enqueued. So each line was answered as often as it was enqueued. The job queue
  -- is first in, first out; the two queues have any size.
  pub all_answered_at_end :
      {s : System job_queue signal_queue}
      → Reach job_queue signal_queue n (launch job_queue signal_queue n) s
      → s.main ≡ joined
      → 0 < sum_of stopped s.workers
      → sum_of f s.answered ≡ sum_of f s.entered
  all_answered_at_end {s} r m h =
      let o = Reach-Order job_queue signal_queue fifo n r in
      omega (
        arith,
        no_line_lost r,
        no_line_weight f (job_queue.items s.jobs) (o.closed h),
        no_busy_weight f s.workers (o.over m),
      )
