-- ===== src/System/Progress.antt =====
-- The end of main in src/core/main.c, which step can come next, up to the last `pthread_join`.
use squid_helper.System.Shutdown.{shutdown_step_less, left}
use squid_helper.System.Account.{active_workers_count, Account}
use squid_helper.System.Order.{Reach-Order, remaining, Order, is_null}
use squid_helper.System.Phases.{live, failed, sum_of-pick, stopped}
use squid_helper.Base.{
  sum_of, length-append, ℕ, zero, suc, ◌≡◌, ◌≢◌, ◌≤◌, ◌<◌, refl, List, [], ◌∷◌, ◌++◌, Bool, true,
  false, none, some, arith, All, length, ap, size_mod,
}
use squid_helper.System.{
  here, notify, notifying, finish, answer, take_null, take_line, init_done, all_joined, all_put,
  put_null, leave, IsEnded, Queue, IsQueue, Phase, starting, idle, busy, ending, ended, Main,
  serving, stopping, joining, joined, Signal, worker_terminate, Job, System, Step, Reach, launch,
  next,
}
use squid_helper.System.Seen.{
  failed_notifying, notifies, failed_ended, Main-discrete, Seen, starts, waits, works, signals,
  over, seen, stopped-le-length, ended_split, length-jobs,
}

module _ (job_queue : Queue Job) (signal_queue : Queue Signal) (job_fifo : IsQueue job_queue)
    (signal_fifo : IsQueue signal_queue) (n : ℕ) where
  -- A step that lets no further init hook fail.
  pub record Moves (s : System job_queue signal_queue) : Type 0 where
    pub after : System job_queue signal_queue
    pub step : Step job_queue signal_queue n s after
    pub failures : sum_of failed after.workers ≡ sum_of failed s.workers

  picked :
      (s : System job_queue signal_queue) (t : System job_queue signal_queue)
      (before after : List Phase) (p p' : Phase)
      → s.workers ≡ before ++ p ∷ after
      → t.workers ≡ before ++ p' ∷ after
      → failed p' ≡ failed p
      → Step job_queue signal_queue n s t
      → Moves s
  picked s t before after p p' e e' m st = record {
    after = t;
    step = st;
    failures = omega (
      arith,
      sum_of-pick failed s.workers before after p e,
      sum_of-pick failed t.workers before after p' e',
    );
  }

  module _ (s : System job_queue signal_queue) (a : Account job_queue signal_queue signal_fifo n s)
      (o : Order job_queue signal_queue job_fifo n s) (signal_room : n ≤ signal_queue.capacity)
      (job_room : n ≤ job_queue.capacity) where
    move_signal :
        (before after : List Phase) (null : Bool)
        → s.workers ≡ before ++ ending null ∷ after
        → Moves s
    move_signal before after null e =
        let one = sum_of-pick live s.workers before after (ending null) e in
        let (q, r) =
          signal_fifo.enqueue_room s.signals worker_terminate (omega (arith, a.counted, a.few)) in
        picked s _ before after (ending null) (notifying null) e refl (failed_notifying null)
          (finish before after null q e r)

    -- A worker that waits takes the first job.
    move_job :
        (before after : List Phase) (job : Job) (jobs : List Job)
        → s.workers ≡ before ++ idle ∷ after
        → job_queue.items s.jobs ≡ job ∷ jobs
        → Moves s
    move_job before after none jobs e i =
        let (q, r) = job_fifo.dequeue_items s.jobs none jobs i in
        picked s _ before after idle (ending true) e refl refl (take_null before after q e r)
    move_job before after (some line) jobs e i =
        let (q, r) = job_fifo.dequeue_items s.jobs (some line) jobs i in
        picked s _ before after idle (busy line) e refl refl (take_line before after line q e r)

    put_room :
        (k : ℕ)
        → s.main ≡ stopping (suc k)
        → length (job_queue.items s.jobs) < job_queue.capacity
        → Moves s
    put_room k m h =
        let (q, r) = job_fifo.enqueue_room s.jobs none h in
        record {
          after = record s { jobs = q; main = stopping k };
          step = put_null k q m r;
          failures = refl;
        }

    -- With a worker that waits on an empty queue, `main` has still NULLs to put.
    move_waiting :
        (before after : List Phase) (jobs : List Job)
        → s.workers ≡ before ++ idle ∷ after
        → job_queue.items s.jobs ≡ jobs
        → s.looping ≡ false
        → (m : Main) → s.main ≡ m
        → m ≢ joined
        → Moves s
    move_waiting before after (job ∷ jobs) e i l m g h = move_job before after job jobs e i
    move_waiting before after [] e i l serving g h = record {
      after = record s { main = stopping n };
      step = leave g l;
      failures = refl;
    }
    move_waiting before after [] e i l (stopping zero) g h = record {
      after = record s { main = joining };
      step = all_put g;
      failures = refl;
    }
    move_waiting before after [] e i l (stopping (suc k)) g h =
        put_room k g
          (omega (arith, ap length i, o.kept, ap length e, length-append before (idle ∷ after)))
    move_waiting before after [] e i l joining g h = absurd (
        omega (
          arith,
          o.nulls,
          ap (remaining n) g,
          ap (sum_of is_null) i,
          o.kept,
          ap length e,
          length-append before (idle ∷ after),
          sum_of-pick stopped s.workers before after idle e,
          stopped-le-length before,
          stopped-le-length after,
        ))
    move_waiting before after [] e i l joined g h = absurd (h refl)

    move_over :
        All IsEnded s.workers
        → sum_of failed s.workers < n
        → s.looping ≡ false
        → (m : Main) → s.main ≡ m
        → m ≢ joined
        → Moves s
    move_over e f l serving g h = record {
      after = record s { main = stopping n };
      step = leave g l;
      failures = refl;
    }
    move_over e f l (stopping zero) g h = record {
      after = record s { main = joining };
      step = all_put g;
      failures = refl;
    }
    move_over e f l (stopping (suc k)) g h =
        let split = ended_split s.workers e in
        put_room k g (
          omega (
            arith,
            o.nulls,
            ap (remaining n) g,
            o.closed (omega (arith, o.kept)),
            o.kept,
            length-jobs (job_queue.items s.jobs),
          ))
    move_over e f l joining g h = record {
      after = record s { main = joined };
      step = all_joined g e;
      failures = refl;
    }
    move_over e f l joined g h = absurd (h refl)

    move :
        s.looping ≡ false → sum_of failed s.workers < n → s.main ≢ joined → Seen s.workers → Moves s
    move l f h (starts before after e) =
        picked s _ before after starting idle e refl refl (init_done before after e)
    move l f h (waits before after e) =
        move_waiting before after (job_queue.items s.jobs) e refl l s.main refl h
    move l f h (works before after line e) =
        picked s _ before after (busy line) idle e refl refl (answer before after line e)
    move l f h (notifies before after null e) =
        picked s _ before after (notifying null) (ended null) e refl (failed_ended null)
          (notify before after null e)
    move l f h (signals before after null e) = move_signal before after null e
    move l f h (over e) = move_over e f l s.main refl h

  -- Let the signal queue have a slot for each worker and the job queue too, let both be first in,
  -- first out, and let fewer than `n` init hooks have failed. In every state that is reached,
  -- after the event loop was told to end and before `main` is through, some thread can take a
  -- step, and one with which no further hook fails.
  pub never_stuck :
      {s : System job_queue signal_queue}
      → n < size_mod
      → n ≤ signal_queue.capacity
      → n ≤ job_queue.capacity
      → Reach job_queue signal_queue n (launch job_queue signal_queue n) s
      → s.looping ≡ false
      → sum_of failed s.workers < n
      → s.main ≢ joined
      → Moves s
  never_stuck {s} h c d r l f m =
      move s (active_workers_count job_queue signal_queue signal_fifo n h r)
        (Reach-Order job_queue signal_queue job_fifo n r) c d l f m (seen s.workers)

  -- With so many steps left at most, the end is reached.
  ends_within :
      (fuel : ℕ) (from s : System job_queue signal_queue)
      → Reach job_queue signal_queue n from s
      → n < size_mod
      → n ≤ signal_queue.capacity
      → n ≤ job_queue.capacity
      → Reach job_queue signal_queue n (launch job_queue signal_queue n) s
      → s.looping ≡ false
      → sum_of failed s.workers < n
      → left job_queue signal_queue job_fifo signal_fifo n s < fuel
      → (t : System job_queue signal_queue) × Reach job_queue signal_queue n from t
        × (t.main ≡ joined)
  ends_within zero from s q h c d r l f b = absurd (omega arith)
  ends_within (suc fuel) from s q h c d r l f b = elim (Main-discrete s.main joined) [
    | yes e ↦ (s, q, e)
    | no m ↦
        let k = never_stuck h c d r l f m in
        let less = shutdown_step_less job_queue signal_queue job_fifo signal_fifo n l k.step in
        ends_within fuel from k.after (next q k.step) h c d (next r k.step) less.1
          (omega (arith, k.failures)) (omega (arith, less.0))
  ]

  -- Let the signal queue have a slot for each worker and the job queue too, let both be first in,
  -- first out, and let fewer than `n` init hooks have failed, with `n` within `size_t`. From every
  -- state that is reached and in which the event loop was told to end, steps of the threads lead
  -- on to the last `pthread_join`.
  pub shutdown_ends :
      {s : System job_queue signal_queue}
      → n < size_mod
      → n ≤ signal_queue.capacity
      → n ≤ job_queue.capacity
      → Reach job_queue signal_queue n (launch job_queue signal_queue n) s
      → s.looping ≡ false
      → sum_of failed s.workers < n
      → (t : System job_queue signal_queue) × Reach job_queue signal_queue n s t × (t.main ≡ joined)
  shutdown_ends {s} h c d r l f =
      ends_within (suc (left job_queue signal_queue job_fifo signal_fifo n s)) s s here h c d r l f
        (omega arith)
