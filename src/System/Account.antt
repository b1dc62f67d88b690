-- ===== src/System/Account.antt =====
-- `active_workers` and `thread_sig_cb` of src/core/main.c: what the counter counts.
use squid_helper.System.Wake.{woken}
use squid_helper.System.Phases.{
  All-IsSignalled, sum_of-pick, All-IsSignalled, live, sum_of-replicate,
}
use native.Mathlib.Decide.{ℕ_discrete}
use squid_helper.Base.{
  sum_of, ◌⊎◌, length-append, inr, inl, ℕ, ◌+◌, ◌≡◌, ◌≢◌, ◌≤◌, ◌<◌, refl, List, [], ◌∷◌, ◌++◌, true,
  false, some, arith, All, length, ap, size_mod,
}
use squid_helper.System.{
  notify, notifying, IsSignalled, decrement, here, next, finish, answer, take_null, take_line,
  init_failed, init_done, all_joined, all_put, put_null, leave, wake, interrupt, enter, sigint_cb,
  next, thread_sig_cb, on_signal, Queue, IsQueue, Phase, starting, idle, busy, ending, ended,
  Signal, worker_terminate, Job, System, Step, Reach, launch,
}

module _ (job_queue : Queue Job) (signal_queue : Queue Signal) (fifo : IsQueue signal_queue)
    (n : ℕ) where
  -- Each worker whose end is not handled yet is counted: it is live, or its signal is queued.
  pub record Account (s : System job_queue signal_queue) : Type 0 where
    pub counted : sum_of live s.workers + length (signal_queue.items s.signals) ≡ s.active_workers
    pub few : s.active_workers ≤ n
    pub bounded : length (signal_queue.items s.signals) ≤ signal_queue.capacity

  pub launch-Account : Account (launch job_queue signal_queue n)
  unfolding launch
  launch-Account = record {
    counted = omega (arith, sum_of-replicate live n starting, ap length fifo.items-empty);
    few = omega arith;
    bounded = omega (arith, ap length fifo.items-empty);
  }

  on_signal-Account :
      (s : System job_queue signal_queue) (q : signal_queue.Q)
      → n < size_mod
      → signal_queue.items s.signals ≡ worker_terminate ∷ signal_queue.items q
      → Account s
      → Account (on_signal job_queue signal_queue worker_terminate q s)
  unfolding on_signal
  on_signal-Account s q h e a = record {
    counted = omega (arith, a.counted, a.few, ap length e);
    few = omega (arith, a.counted, a.few, ap length e);
    bounded = omega (arith, a.bounded, ap length e);
  }

  -- The workers change by one, from `p` to `p'`, and the signals by what `p'` sends.
  pick-Account :
      (s t : System job_queue signal_queue) (before after : List Phase) (p p' : Phase)
      → s.workers ≡ before ++ p ∷ after
      → t.workers ≡ before ++ p' ∷ after
      → live p' + length (signal_queue.items t.signals)
        ≡ live p + length (signal_queue.items s.signals)
      → t.active_workers ≡ s.active_workers
      → length (signal_queue.items t.signals) ≤ signal_queue.capacity
      → Account s
      → Account t
  pick-Account s t before after p p' e e' m k b a = record {
    counted = omega (
      arith,
      a.counted,
      sum_of-pick live s.workers before after p e,
      sum_of-pick live t.workers before after p' e',
    );
    few = omega (arith, a.few);
    bounded = b;
  }

  pub Step-Account :
      {s t : System job_queue signal_queue}
      → n < size_mod
      → Step job_queue signal_queue n s t
      → Account s
      → Account t
  unfolding sigint_cb
  Step-Account h (enter line q m l e) a = record {
    counted = a.counted;
    few = a.few;
    bounded = a.bounded;
  }
  Step-Account h (interrupt m l) a = record {
    counted = a.counted;
    few = a.few;
    bounded = a.bounded;
  }
  Step-Account h (wake {s = s} {t = t} m l w e) a =
      let k = woken job_queue signal_queue (record s { async = false }) t e in
      rw k.result (
        on_signal-Account (record s { async = false }) k.q h
          (fifo.dequeue_some s.signals k.q worker_terminate k.taken)
          (record { counted = a.counted; few = a.few; bounded = a.bounded }))
  Step-Account h (leave m l) a = record { counted = a.counted; few = a.few; bounded = a.bounded }
  Step-Account h (put_null k q m e) a = record {
    counted = a.counted;
    few = a.few;
    bounded = a.bounded;
  }
  Step-Account h (all_put m) a = record { counted = a.counted; few = a.few; bounded = a.bounded }
  Step-Account h (all_joined m e) a = record {
    counted = a.counted;
    few = a.few;
    bounded = a.bounded;
  }
  Step-Account h (init_done before after e) a =
      pick-Account _ _ before after starting idle e refl refl refl a.bounded a
  Step-Account h (init_failed before after e) a =
      pick-Account _ _ before after starting (ending false) e refl refl refl a.bounded a
  Step-Account h (take_line before after line q e d) a =
      pick-Account _ _ before after idle (busy line) e refl refl refl a.bounded a
  Step-Account h (take_null before after q e d) a =
      pick-Account _ _ before after idle (ending true) e refl refl refl a.bounded a
  Step-Account h (answer before after line e) a =
      pick-Account _ _ before after (busy line) idle e refl refl refl a.bounded a
  Step-Account h (finish {s = s} before after null q e d) a =
      let (i, r) = fifo.enqueue_some s.signals q worker_terminate d in
      let more = length-append (signal_queue.items s.signals) (worker_terminate ∷ []) in
      pick-Account s _ before after (ending null) (notifying null) e refl
        (omega (arith, ap length i)) refl (omega (arith, ap length i)) a
  Step-Account h (notify before after null e) a =
      pick-Account _ _ before after (notifying null) (ended null) e refl refl refl a.bounded a

  -- In every state that is reached with `n` workers, `n` within `size_t`, and a signal queue that
  -- is first in, first out: `active_workers` is the number of the workers that have not put their
  -- signal into the queue yet and of the signals in the queue, it is at most `n`, and the signals
  -- are within the capacity of their queue.
  pub active_workers_count :
      {s : System job_queue signal_queue}
      → n < size_mod
      → Reach job_queue signal_queue n (launch job_queue signal_queue n) s
      → Account s
  active_workers_count h here = launch-Account
  active_workers_count h (next r st) = Step-Account h st (active_workers_count h r)

  -- In every state that is reached with `n` workers, `n` within `size_t`, and a signal queue that
  -- is first in, first out: if `thread_sig_cb` returns, then either the counter is 0, all workers
  -- have put their signal into the queue and the loop is told to end, or the counter is not 0 and
  -- the loop goes on as before.
  pub last_signal_ends_loop :
      {s t : System job_queue signal_queue}
      → n < size_mod
      → Reach job_queue signal_queue n (launch job_queue signal_queue n) s
      → thread_sig_cb job_queue signal_queue s ≡ some t
      → ((t.active_workers ≡ 0) × All IsSignalled t.workers × (t.looping ≡ false))
        ⊎ ((t.active_workers ≢ 0) × (t.looping ≡ s.looping))
  unfolding on_signal
  last_signal_ends_loop {s} {t} h r e =
      let a = active_workers_count h r in
      let k = woken job_queue signal_queue s t e in
      let b =
        on_signal-Account s k.q h (fifo.dequeue_some s.signals k.q worker_terminate k.taken) a in
      rw k.result (elim (ℕ_discrete (decrement s.active_workers) 0) [
        | yes z ↦ inl (z, All-IsSignalled s.workers (omega (arith, b.counted)), ground arith)
        | no z ↦ inr (z, ground arith)
      ])
