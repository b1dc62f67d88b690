-- ===== src/System/Flow.antt =====
-- The event loop of src/core/main.c at a full job queue: which worker makes room.
use squid_helper.System.Phases.{live, sum_of-pick, failed}
use squid_helper.System.Shutdown.{IsWorkerStep}
use squid_helper.System.Account.{active_workers_count, Account}
use squid_helper.Memory.{Bytes}
use squid_helper.System.{
  answer, ended, notifying, worker_terminate, busy, take_null, starting, ending, init_done, serving,
  idle, launch, Step, Reach, Phase, System, IsQueue, Signal, Job, Queue, finish, take_line, notify,
}
use squid_helper.System.Seen.{
  ended_split, failed_ended, failed_notifying, seen, Seen, starts, waits, works, signals, notifies,
  over,
}
use squid_helper.System.Order.{remaining, Reach-Order, Order}
use squid_helper.Base.{
  none, true, [], length, inr, ap, arith, inl, ◌⊎◌, ◌∷◌, sum_of, size_mod, ◌≤◌, ◌<◌, ◌++◌, some,
  List, refl, ℕ, ◌≡◌,
}

module _ (job_queue : Queue Job) (signal_queue : Queue Signal) (job_fifo : IsQueue job_queue)
    (signal_fifo : IsQueue signal_queue) (n : ℕ) where
  -- A step of a worker that lets no further init hook fail.
  pub record Advances (s : System job_queue signal_queue) : Type 0 where
    pub after : System job_queue signal_queue
    pub step : Step job_queue signal_queue n s after
    pub worker : IsWorkerStep job_queue signal_queue job_fifo signal_fifo n step
    pub failures : sum_of failed after.workers ≡ sum_of failed s.workers

  -- Then the number of workers whose init hooks failed stays as it is.
  same_failed :
      (ws ws' before after : List Phase) (p p' : Phase)
      → ws ≡ before ++ p ∷ after
      → ws' ≡ before ++ p' ∷ after
      → failed p' ≡ failed p
      → sum_of failed ws' ≡ sum_of failed ws
  same_failed ws ws' before after p p' e e' f =
      omega (
        arith,
        f,
        sum_of-pick failed ws before after p e,
        sum_of-pick failed ws' before after p' e',
      )

  -- The queue has room for a line, or a worker can move.
  Flows : System job_queue signal_queue → Bytes → Type 0
  Flows s line = ((q : job_queue.Q) × (job_queue.enqueue s.jobs (some line) ≡ some q)) ⊎ Advances s

  waiting_room :
      (s : System job_queue signal_queue) (line : Bytes) (before after : List Phase)
      (jobs : List Job)
      → 0 < job_queue.capacity
      → s.workers ≡ before ++ idle ∷ after
      → job_queue.items s.jobs ≡ jobs
      → Flows s line
  unfolding Flows
  waiting_room s line before after [] c e i =
      inl (job_fifo.enqueue_room s.jobs (some line) (omega (arith, ap length i)))
  waiting_room s line before after (none ∷ jobs) c e i =
      let (q, d) = job_fifo.dequeue_items s.jobs none jobs i in
      inr (record {
        after = record s { jobs = q; workers = before ++ ending true ∷ after };
        step = take_null before after q e d;
        worker = tt;
        failures = same_failed s.workers _ before after idle (ending true) e refl refl;
      })
  waiting_room s line before after (some l ∷ jobs) c e i =
      let (q, d) = job_fifo.dequeue_items s.jobs (some l) jobs i in
      inr (record {
        after = record s { jobs = q; workers = before ++ busy l ∷ after };
        step = take_line before after l q e d;
        worker = tt;
        failures = same_failed s.workers _ before after idle (busy l) e refl refl;
      })

  module _ (s : System job_queue signal_queue) (a : Account job_queue signal_queue signal_fifo n s)
      (o : Order job_queue signal_queue job_fifo n s) (signal_room : n ≤ signal_queue.capacity)
      (job_room : 0 < job_queue.capacity) (line : Bytes) where
    seen_room : s.main ≡ serving → sum_of failed s.workers < n → Seen s.workers → Flows s line
    unfolding Flows
    seen_room m f (starts before after e) = inr (record {
      after = record s { workers = before ++ idle ∷ after };
      step = init_done before after e;
      worker = tt;
      failures = same_failed s.workers _ before after starting idle e refl refl;
    })
    seen_room m f (waits before after e) =
        waiting_room s line before after (job_queue.items s.jobs) job_room e refl
    seen_room m f (works before after l e) = inr (record {
      after = record s { workers = before ++ idle ∷ after; answered = s.answered ++ l ∷ [] };
      step = answer before after l e;
      worker = tt;
      failures = same_failed s.workers _ before after (busy l) idle e refl refl;
    })
    seen_room m f (signals before after null e) =
        let one = sum_of-pick live s.workers before after (ending null) e in
        let (q, r) =
          signal_fifo.enqueue_room s.signals worker_terminate (omega (arith, a.counted, a.few)) in
        inr (record {
          after = record s { signals = q; workers = before ++ notifying null ∷ after };
          step = finish before after null q e r;
          worker = tt;
          failures =
              same_failed s.workers _ before after (ending null) (notifying null) e refl
                (failed_notifying null);
        })
    seen_room m f (notifies before after null e) = inr (record {
      after = record s { workers = before ++ ended null ∷ after; async = true };
      step = notify before after null e;
      worker = tt;
      failures =
          same_failed s.workers _ before after (notifying null) (ended null) e refl
            (failed_ended null);
    })
    seen_room m f (over e) =
        absurd (omega (arith, o.nulls, ap (remaining n) m, o.kept, ended_split s.workers e))

  -- While the event loop serves, and fewer than all init hooks have failed: a line can be put into
  -- the job queue, or a worker can take a step.
  pub line_flows :
      {s : System job_queue signal_queue}
      → Reach job_queue signal_queue n (launch job_queue signal_queue n) s
      → n < size_mod
      → n ≤ signal_queue.capacity
      → 0 < job_queue.capacity
      → s.main ≡ serving
      → sum_of failed s.workers < n
      → (line : Bytes)
      → ((q : job_queue.Q) × (job_queue.enqueue s.jobs (some line) ≡ some q)) ⊎ Advances s
  unfolding Flows
  line_flows {s} r h c d m f line =
      seen_room s (active_workers_count job_queue signal_queue signal_fifo n h r)
        (Reach-Order job_queue signal_queue job_fifo n r) c d line m f (seen s.workers)
