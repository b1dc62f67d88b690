-- ===== src/System/Order.antt =====
-- The job queue of src/core/main.c: how the NULLs of main stand behind the lines.
use squid_helper.System.Wake.{woken}
use squid_helper.System.Phases.{none_live, sum_of-put, live, sum_of-pick, sum_of-replicate, stopped}
use squid_helper.Base.{
  ◌≤◌, sum_of-append, sum_of, ◌∙◌, sym, length-append, length-replicate, ℕ, ◌+◌, ◌≡◌, ◌<◌, refl,
  List, [], ◌∷◌, ◌++◌, Bool, true, false, none, some, arith, length, ap,
}
use squid_helper.Memory.{Bytes}
use squid_helper.System.{
  notify, notifying, on_signal, finish, answer, take_null, take_line, init_failed, init_done,
  all_joined, all_put, put_null, leave, wake, interrupt, enter, sigint_cb, Queue, IsQueue, Phase,
  starting, idle, busy, ending, ended, Main, serving, stopping, joining, joined, Signal, Job,
  System, Step, Reach, launch, here, next,
}

-- The NULLs that `main` has still to enqueue.
abbrev pub remaining : ℕ → Main → ℕ
remaining n serving = n
remaining n (stopping k) = k
remaining n joining = 0
remaining n joined = 0

abbrev pub is_null : Job → ℕ
is_null none = 1
is_null (some line) = 0

abbrev pub is_line : Job → ℕ
is_line none = 0
is_line (some line) = 1

-- No line behind a NULL.
abbrev pub IsOrdered : List Job → Type 0
IsOrdered [] = Unit
IsOrdered (some line ∷ jobs) = IsOrdered jobs
IsOrdered (none ∷ jobs) = sum_of is_line jobs ≡ 0

lines-IsOrdered : (jobs : List Job) → sum_of is_line jobs ≡ 0 → IsOrdered jobs
lines-IsOrdered [] e = tt
lines-IsOrdered (none ∷ jobs) e = omega arith
lines-IsOrdered (some line ∷ jobs) e = absurd (omega arith)

enter-IsOrdered :
    (jobs : List Job) (line : Bytes) → sum_of is_null jobs ≡ 0 → IsOrdered (jobs ++ some line ∷ [])
enter-IsOrdered [] line e = tt
enter-IsOrdered (none ∷ jobs) line e = absurd (omega arith)
enter-IsOrdered (some l ∷ jobs) line e = enter-IsOrdered jobs line (omega arith)

null-IsOrdered : (jobs : List Job) → IsOrdered jobs → IsOrdered (jobs ++ none ∷ [])
null-IsOrdered [] h = refl
null-IsOrdered (none ∷ jobs) h = omega (arith, sum_of-append is_line jobs (none ∷ []))
null-IsOrdered (some l ∷ jobs) h = null-IsOrdered jobs h

tail_IsOrdered : (job : Job) (jobs : List Job) → IsOrdered (job ∷ jobs) → IsOrdered jobs
tail_IsOrdered none jobs h = lines-IsOrdered jobs h
tail_IsOrdered (some line) jobs h = h

stopped_notifying : (null : Bool) → stopped (notifying null) ≡ stopped (ending null)
stopped_notifying true = refl
stopped_notifying false = refl

stopped_ended : (null : Bool) → stopped (ended null) ≡ stopped (notifying null)
stopped_ended true = refl
stopped_ended false = refl

-- Behind a NULL that is taken no line is queued, as behind one that was taken before.
taken_closed :
    (job : Job) (jobs : List Job) (p : Phase)
    → is_null job ≡ stopped p
    → IsOrdered (job ∷ jobs)
    → (stopped p ≡ 0 → sum_of is_line jobs ≡ 0)
    → sum_of is_line jobs ≡ 0
taken_closed none jobs p m h k = h
taken_closed (some line) jobs p m h k = k (omega arith)

module _ (job_queue : Queue Job) (signal_queue : Queue Signal) (fifo : IsQueue job_queue)
    (n : ℕ) where
  abbrev pub queued : System job_queue signal_queue → List Job
  queued s = job_queue.items s.jobs

  -- One NULL for each worker: taken, queued or still to come. Once one is taken, no line is queued.
  pub record Order (s : System job_queue signal_queue) : Type 0 where
    pub nulls : sum_of is_null (queued s) + sum_of stopped s.workers + remaining n s.main ≡ n
    pub ordered : IsOrdered (queued s)
    pub closed : 0 < sum_of stopped s.workers → sum_of is_line (queued s) ≡ 0
    pub kept : length s.workers ≡ n
    pub over : s.main ≡ joined → sum_of live s.workers ≡ 0

  serving-ne-joined : ¬ (◌≡◌ {A = Main} serving joined)
  serving-ne-joined e = cc

  pub launch-Order : Order (launch job_queue signal_queue n)
  unfolding launch
  launch-Order = record {
    nulls = rw fifo.items-empty (omega (arith, sum_of-replicate stopped n starting));
    ordered = rw fifo.items-empty tt;
    closed = λ h. rw fifo.items-empty refl;
    kept = length-replicate n starting;
    over = λ e. absurd (serving-ne-joined e);
  }

  -- The workers change by one that takes no NULL.
  pick-Order :
      (s t : System job_queue signal_queue) (before after : List Phase) (p p' : Phase)
      → s.workers ≡ before ++ p ∷ after
      → t.workers ≡ before ++ p' ∷ after
      → live p' ≤ live p
      → stopped p' ≡ stopped p
      → t.main ≡ s.main
      → queued t ≡ queued s
      → Order s
      → Order t
  pick-Order s t before after p p' e e' v m g q o =
      let a = sum_of-pick stopped s.workers before after p e in
      let b = sum_of-pick stopped t.workers before after p' e' in
      record {
        nulls = rw (q, g) (omega (arith, o.nulls));
        ordered = rw q o.ordered;
        closed = λ h. rw q (o.closed (omega arith));
        kept = omega (
          arith,
          o.kept,
          ap length e,
          ap length e',
          length-append before (p ∷ after),
          length-append before (p' ∷ after),
        );
        over = λ j. omega (
          arith,
          v,
          o.over (sym g ∙ j),
          sum_of-pick live s.workers before after p e,
          sum_of-pick live t.workers before after p' e',
        );
      }

  -- A worker takes a job.
  take-Order :
      (s : System job_queue signal_queue) (before after : List Phase) (job : Job) (p : Phase)
      (q : job_queue.Q)
      → s.workers ≡ before ++ idle ∷ after
      → queued s ≡ job ∷ job_queue.items q
      → is_null job ≡ stopped p
      → Order s
      → Order (record s { jobs = q; workers = before ++ p ∷ after })
  take-Order s before after job p q e i m o =
      let a = sum_of-pick stopped s.workers before after idle e in
      let b = sum_of-put stopped before after p in
      let x : sum_of is_null (queued s) ≡ is_null job + sum_of is_null (job_queue.items q) =
        rw i refl in
      let y : sum_of is_line (queued s) ≡ is_line job + sum_of is_line (job_queue.items q) =
        rw i refl in
      let ordered = (rw i at o.ordered) in
      record {
        nulls = omega (arith, o.nulls);
        ordered = tail_IsOrdered job (job_queue.items q) ordered;
        closed = λ h.
            taken_closed job (job_queue.items q) p m ordered
              (λ k. omega (arith, o.closed (omega arith)));
        kept = omega (
          arith,
          o.kept,
          ap length e,
          length-append before (idle ∷ after),
          length-append before (p ∷ after),
        );
        over =
            λ j. absurd (omega (arith, o.over j, sum_of-pick live s.workers before after idle e));
      }

  pub Step-Order :
      {s t : System job_queue signal_queue} → Step job_queue signal_queue n s t → Order s → Order t
  unfolding sigint_cb on_signal
  Step-Order (enter {s = s} line q m l e) o =
      let (i, r) = fifo.enqueue_some s.jobs q (some line) e in
      let none_yet : sum_of is_null (queued s) + sum_of stopped s.workers ≡ 0 =
        omega (arith, o.nulls, ap (remaining n) m) in
      record {
        nulls = rw i (omega (arith, o.nulls, sum_of-append is_null (queued s) (some line ∷ [])));
        ordered = rw i (enter-IsOrdered (queued s) line (omega arith));
        closed = λ h. absurd (omega arith);
        kept = o.kept;
        over = o.over;
      }
  Step-Order (interrupt m l) o = record {
    nulls = o.nulls;
    ordered = o.ordered;
    closed = o.closed;
    kept = o.kept;
    over = o.over;
  }
  Step-Order (wake {s = s} {t = t} m l w e) o =
      rw (woken job_queue signal_queue (record s { async = false }) t e).result (record {
        nulls = o.nulls;
        ordered = o.ordered;
        closed = o.closed;
        kept = o.kept;
        over = o.over;
      })
  Step-Order (leave {s = s} m l) o = record {
    nulls = omega (arith, o.nulls, ap (remaining n) m);
    ordered = o.ordered;
    closed = o.closed;
    kept = o.kept;
    over = λ j. cc;
  }
  Step-Order (put_null {s = s} k q m e) o =
      let (i, r) = fifo.enqueue_some s.jobs q none e in
      record {
        nulls = rw i (
            omega
              (arith, o.nulls, ap (remaining n) m, sum_of-append is_null (queued s) (none ∷ [])));
        ordered = rw i (null-IsOrdered (queued s) o.ordered);
        closed =
            λ h. rw i (omega (arith, o.closed h, sum_of-append is_line (queued s) (none ∷ [])));
        kept = o.kept;
        over = λ j. cc;
      }
  Step-Order (all_put {s = s} m) o = record {
    nulls = omega (arith, o.nulls, ap (remaining n) m);
    ordered = o.ordered;
    closed = o.closed;
    kept = o.kept;
    over = λ j. cc;
  }
  Step-Order (all_joined {s = s} m e) o = record {
    nulls = omega (arith, o.nulls, ap (remaining n) m);
    ordered = o.ordered;
    closed = o.closed;
    kept = o.kept;
    over = λ j. none_live s.workers e;
  }
  Step-Order (init_done before after e) o =
      pick-Order _ _ before after starting idle e refl (omega arith) refl refl refl o
  Step-Order (init_failed before after e) o =
      pick-Order _ _ before after starting (ending false) e refl (omega arith) refl refl refl o
  Step-Order (take_line {s = s} before after line q e d) o =
      take-Order s before after (some line) (busy line) q e
        (fifo.dequeue_some s.jobs q (some line) d) refl o
  Step-Order (take_null {s = s} before after q e d) o =
      take-Order s before after none (ending true) q e (fifo.dequeue_some s.jobs q none d) refl o
  Step-Order (answer before after line e) o =
      pick-Order _ _ before after (busy line) idle e refl (omega arith) refl refl refl o
  Step-Order (finish before after null q e d) o =
      pick-Order _ _ before after (ending null) (notifying null) e refl (omega arith)
        (stopped_notifying null) refl refl o
  Step-Order (notify before after null e) o =
      pick-Order _ _ before after (notifying null) (ended null) e refl (omega arith)
        (stopped_ended null) refl refl o

  pub Reach-Order :
      {s : System job_queue signal_queue}
      → Reach job_queue signal_queue n (launch job_queue signal_queue n) s
      → Order s
  Reach-Order here = launch-Order
  Reach-Order (next r st) = Step-Order st (Reach-Order r)
