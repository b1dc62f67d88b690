-- ===== src/System/Event.antt =====
-- `ev_async_send` and `thread_sig_cb` of src/core/main.c: the event that wakes the main thread, and
-- the messages behind it.
use squid_helper.System.Wake.{woken}
use squid_helper.System.Phases.{sum_of-pick, sum_of-replicate}
use squid_helper.System.{
  Queue, IsQueue, Phase, starting, idle, busy, ending, notifying, ended, Signal, worker_terminate,
  Job, System, Step, Reach, launch, here, next, enter, interrupt, wake, leave, put_null, all_put,
  all_joined, init_done, init_failed, take_line, take_null, answer, finish, notify, thread_sig_cb,
  on_signal, sigint_cb,
}
use squid_helper.Base.{
  ℕ, ◌+◌, ◌≡◌, ◌≤◌, refl, List, [], ◌∷◌, ◌++◌, Bool, true, false, some, arith, length, ap, sum_of,
  length-append,
}

-- A worker whose signal is queued and whose `ev_async_send` is still to come.
abbrev pub unnotified : Phase → ℕ
unnotified (notifying null) = 1
unnotified _ = 0

abbrev pub pending : Bool → ℕ
pending true = 1
pending false = 0

module _ (job_queue : Queue Job) (signal_queue : Queue Signal) (fifo : IsQueue signal_queue)
    (n : ℕ) where
  abbrev queued_signals : System job_queue signal_queue → ℕ
  queued_signals s = length (signal_queue.items s.signals)

  -- There is a message for the pending event, and one for each that is still to come.
  record Enough (s : System job_queue signal_queue) : Type 0 where
    enough : pending s.async + sum_of unnotified s.workers ≤ queued_signals s

  launch-Enough : Enough (launch job_queue signal_queue n)
  unfolding launch
  launch-Enough = record { enough = omega (arith, sum_of-replicate unnotified n starting) }

  pick-Enough :
      (s t : System job_queue signal_queue) (before after : List Phase) (p p' : Phase)
      → s.workers ≡ before ++ p ∷ after
      → t.workers ≡ before ++ p' ∷ after
      → pending t.async + unnotified p' + queued_signals s
        ≤ pending s.async + unnotified p + queued_signals t
      → Enough s
      → Enough t
  pick-Enough s t before after p p' e e' m k = record {
    enough = omega (
      arith,
      k.enough,
      sum_of-pick unnotified s.workers before after p e,
      sum_of-pick unnotified t.workers before after p' e',
    );
  }

  pending_bound : (b : Bool) → pending b ≤ 1
  pending_bound true = omega arith
  pending_bound false = omega arith

  on_signal-Enough :
      (s : System job_queue signal_queue) (q : signal_queue.Q)
      → s.async ≡ true
      → signal_queue.items s.signals ≡ worker_terminate ∷ signal_queue.items q
      → Enough s
      → Enough (on_signal job_queue signal_queue worker_terminate q (record s { async = false }))
  unfolding on_signal
  on_signal-Enough s q a i k = record {
    enough = omega (arith, k.enough, ap pending a, ap length i);
  }

  Step-Enough :
      {s t : System job_queue signal_queue}
      → Step job_queue signal_queue n s t
      → Enough s
      → Enough t
  unfolding sigint_cb
  Step-Enough (enter line q m l e) k = record { enough = k.enough }
  Step-Enough (interrupt m l) k = record { enough = k.enough }
  Step-Enough (wake {s = s} {t = t} m l w e) k =
      let c = woken job_queue signal_queue (record s { async = false }) t e in
      rw c.result
        (on_signal-Enough s c.q w (fifo.dequeue_some s.signals c.q worker_terminate c.taken) k)
  Step-Enough (leave m l) k = record { enough = k.enough }
  Step-Enough (put_null i q m e) k = record { enough = k.enough }
  Step-Enough (all_put m) k = record { enough = k.enough }
  Step-Enough (all_joined m e) k = record { enough = k.enough }
  Step-Enough (init_done before after e) k =
      pick-Enough _ _ before after starting idle e refl (omega arith) k
  Step-Enough (init_failed before after e) k =
      pick-Enough _ _ before after starting (ending false) e refl (omega arith) k
  Step-Enough (take_line before after line q e d) k =
      pick-Enough _ _ before after idle (busy line) e refl (omega arith) k
  Step-Enough (take_null before after q e d) k =
      pick-Enough _ _ before after idle (ending true) e refl (omega arith) k
  Step-Enough (answer before after line e) k =
      pick-Enough _ _ before after (busy line) idle e refl (omega arith) k
  Step-Enough (finish {s = s} before after null q e d) k =
      let (i, r) = fifo.enqueue_some s.signals q worker_terminate d in
      let more = length-append (signal_queue.items s.signals) (worker_terminate ∷ []) in
      pick-Enough s _ before after (ending null) (notifying null) e refl
        (omega (arith, ap length i)) k
  Step-Enough (notify {s = s} before after null e) k =
      pick-Enough s _ before after (notifying null) (ended null) e refl (omega arith) k

  Reach-Enough :
      {s : System job_queue signal_queue}
      → Reach job_queue signal_queue n (launch job_queue signal_queue n) s
      → Enough s
  Reach-Enough here = launch-Enough
  Reach-Enough (next r st) = Step-Enough st (Reach-Enough r)

  front :
      (items : List Signal)
      → 1 ≤ length items
      → (rest : List Signal) × (items ≡ worker_terminate ∷ rest)
  front [] h = absurd (omega arith)
  front (worker_terminate ∷ items) h = (items, refl)

  -- In every state that is reached in which the event of the main thread is pending, and with a
  -- signal queue that is first in, first out: `thread_sig_cb` returns, it never holds up the event
  -- loop in `queue_dequeue`.
  pub callback_never_waits :
      {s : System job_queue signal_queue}
      → Reach job_queue signal_queue n (launch job_queue signal_queue n) s
      → s.async ≡ true
      → (t : System job_queue signal_queue) × (thread_sig_cb job_queue signal_queue
            (record s { async = false })
          ≡ some t)
  unfolding thread_sig_cb
  callback_never_waits {s} r a =
      let k = Reach-Enough r in
      let (rest, e) =
        front (signal_queue.items s.signals) (omega (arith, k.enough, ap pending a)) in
      let (q, d) = fifo.dequeue_items s.signals worker_terminate rest e in
      (
        on_signal job_queue signal_queue worker_terminate q (record s { async = false }),
        rw (thread_sig_cb, d),
      )
