-- ===== src/System/Single.antt =====
-- src/core/main.c with one worker: the order of its lines.
use squid_helper.System.Wake.{woken}
use squid_helper.System.Phases.{stopped, live}
use squid_helper.Memory.{Bytes}
use squid_helper.System.Order.{is_line, Reach-Order}
use squid_helper.System.{
  here, notify, answer, take_null, init_failed, idle, init_done, all_joined, all_put, put_null,
  leave, wake, interrupt, next, enter, ended, starting, notifying, joined, Step, on_signal, ending,
  Reach, sigint_cb, launch, System, IsQueue, busy, Signal, Job, Queue, Phase, finish, take_line,
}
use squid_helper.Base.{
  true, none, false, append-nil, ◌<◌, length-append, ◌∙◌, length, arith, append_assoc, sym, some,
  [], ◌∷◌, ap, ◌++◌, sum_of, List, refl, ◌≡◌,
}

abbrev lines_at : Phase → List Bytes
lines_at (busy line) = line ∷ []
lines_at _ = []

abbrev lines_in : List Job → List Bytes
lines_in [] = []
lines_in (none ∷ jobs) = lines_in jobs
lines_in (some line ∷ jobs) = line ∷ lines_in jobs

lines_in-append : (a b : List Job) → lines_in (a ++ b) ≡ lines_in a ++ lines_in b
lines_in-append [] b = refl
lines_in-append (none ∷ a) b = lines_in-append a b
lines_in-append (some line ∷ a) b = ap (λ q. line ∷ q) (lines_in-append a b)

lines_in-none : (jobs : List Job) → sum_of is_line jobs ≡ 0 → lines_in jobs ≡ []
lines_in-none [] e = refl
lines_in-none (none ∷ jobs) e = lines_in-none jobs (omega (arith, e))
lines_in-none (some line ∷ jobs) e = absurd (omega (arith, e))

lines_at-none : (p : Phase) → sum_of live (p ∷ []) ≡ 0 → lines_at p ≡ []
lines_at-none starting e = refl
lines_at-none idle e = refl
lines_at-none (busy line) e = absurd (omega (arith, e))
lines_at-none (ending null) e = refl
lines_at-none (notifying null) e = refl
lines_at-none (ended null) e = refl

-- The one worker is the one that moves.
only :
    (w : Phase) (before after : List Phase) (p p' : Phase)
    → before ++ p ∷ after ≡ w ∷ []
    → (w ≡ p) × (before ++ p' ∷ after ≡ p' ∷ [])
only w [] after p p' e = (cc, let f : after ≡ [] = cc in rw f)
only w (b ∷ before) after p p' e =
    absurd (omega (arith, ap length e, length-append before (p ∷ after)))

behind : (a b c d e : List Bytes) → a ++ (b ++ c) ≡ e → a ++ (b ++ (c ++ d)) ≡ e ++ d
behind a b c d e h =
    ap (λ q. a ++ q) (sym (append_assoc b c d))
    ∙ sym (append_assoc a (b ++ c) d)
    ∙ ap (λ q. q ++ d) h

module _ (job_queue : Queue Job) (signal_queue : Queue Signal) (fifo : IsQueue job_queue) where
  -- What is answered, what the worker is at and what is queued are what was entered, in its order.
  pub record InOrder (s : System job_queue signal_queue) : Type 0 where
    pub worker : Phase
    pub alone : s.workers ≡ worker ∷ []
    pub order : s.answered ++ (lines_at worker ++ lines_in (job_queue.items s.jobs)) ≡ s.entered

  -- The worker moves on, with the same lines in the same places.
  moves :
      (s t : System job_queue signal_queue) (before after : List Phase) (p p' : Phase)
      → s.workers ≡ before ++ p ∷ after
      → t.workers ≡ before ++ p' ∷ after
      → t.answered ++ (lines_at p' ++ lines_in (job_queue.items t.jobs))
        ≡ s.answered ++ (lines_at p ++ lines_in (job_queue.items s.jobs))
      → t.entered ≡ s.entered
      → InOrder s
      → InOrder t
  moves s t before after p p' e f g h k =
      let (w, one) = only k.worker before after p p' (sym e ∙ k.alone) in
      record {
        worker = p';
        alone = f ∙ one;
        order =
            g
            ∙ ap (λ q. s.answered ++ (lines_at q ++ lines_in (job_queue.items s.jobs))) (sym w)
            ∙ k.order
            ∙ sym h;
      }

  -- A job is put behind the others.
  puts :
      (s t : System job_queue signal_queue) (job : Job)
      → t.workers ≡ s.workers
      → t.answered ≡ s.answered
      → job_queue.items t.jobs ≡ job_queue.items s.jobs ++ job ∷ []
      → t.entered ≡ s.entered ++ lines_in (job ∷ [])
      → InOrder s
      → InOrder t
  puts s t job e f g h k = record {
    worker = k.worker;
    alone = e ∙ k.alone;
    order =
        ap (λ q. q ++ (lines_at k.worker ++ lines_in (job_queue.items t.jobs))) f
        ∙ ap (λ q. s.answered ++ (lines_at k.worker ++ q))
            (ap lines_in g ∙ lines_in-append (job_queue.items s.jobs) (job ∷ []))
        ∙ behind s.answered (lines_at k.worker) (lines_in (job_queue.items s.jobs))
            (lines_in (job ∷ [])) s.entered k.order
        ∙ sym h;
  }

  Step-InOrder :
      {s t : System job_queue signal_queue}
      → Step job_queue signal_queue 1 s t
      → InOrder s
      → InOrder t
  unfolding sigint_cb on_signal
  Step-InOrder (enter {s = s} line q m l e) k =
      puts s _ (some line) refl refl (fifo.enqueue_some s.jobs q (some line) e).0 refl k
  Step-InOrder (interrupt m l) k = record { worker = k.worker; alone = k.alone; order = k.order }
  Step-InOrder (wake {s = s} {t = t} m l a e) k =
      let r = (woken job_queue signal_queue (record s { async = false }) t e).result in
      record { worker = k.worker; alone = rw r k.alone; order = rw r k.order }
  Step-InOrder (leave m l) k = record { worker = k.worker; alone = k.alone; order = k.order }
  Step-InOrder (put_null {s = s} i q m e) k =
      puts s _ none refl refl (fifo.enqueue_some s.jobs q none e).0 (sym (append-nil s.entered)) k
  Step-InOrder (all_put m) k = record { worker = k.worker; alone = k.alone; order = k.order }
  Step-InOrder (all_joined m e) k = record { worker = k.worker; alone = k.alone; order = k.order }
  Step-InOrder (init_done before after e) k =
      moves _ _ before after starting idle e refl refl refl k
  Step-InOrder (init_failed before after e) k =
      moves _ _ before after starting (ending false) e refl refl refl k
  Step-InOrder (take_line {s = s} before after line q e d) k =
      moves s _ before after idle (busy line) e refl
        (ap (λ j. s.answered ++ lines_in j) (sym (fifo.dequeue_some s.jobs q (some line) d))) refl k
  Step-InOrder (take_null {s = s} before after q e d) k =
      moves s _ before after idle (ending true) e refl
        (ap (λ j. s.answered ++ lines_in j) (sym (fifo.dequeue_some s.jobs q none d))) refl k
  Step-InOrder (answer {s = s} before after line e) k =
      moves s _ before after (busy line) idle e refl
        (append_assoc s.answered (line ∷ []) (lines_in (job_queue.items s.jobs))) refl k
  Step-InOrder (finish before after null q e d) k =
      moves _ _ before after (ending null) (notifying null) e refl refl refl k
  Step-InOrder (notify before after null e) k =
      moves _ _ before after (notifying null) (ended null) e refl refl refl k

  Reach-InOrder :
      {s : System job_queue signal_queue}
      → Reach job_queue signal_queue 1 (launch job_queue signal_queue 1) s
      → InOrder s
  unfolding launch
  Reach-InOrder here = record {
    worker = starting;
    alone = refl;
    order = ap lines_in fifo.items-empty;
  }
  Reach-InOrder (next r st) = Step-InOrder st (Reach-InOrder r)

  -- In every state in which `main` has joined its one worker, which took a NULL: the lines were
  -- answered in the order in which they were enqueued.
  pub one_worker_in_order :
      {s : System job_queue signal_queue}
      → Reach job_queue signal_queue 1 (launch job_queue signal_queue 1) s
      → s.main ≡ joined
      → 0 < sum_of stopped s.workers
      → s.answered ≡ s.entered
  one_worker_in_order {s} r m h =
      let o = Reach-Order job_queue signal_queue fifo 1 r in
      let k = Reach-InOrder r in
      let at_none = lines_at-none k.worker (ap (sum_of live) (sym k.alone) ∙ o.over m) in
      let in_none = lines_in-none (job_queue.items s.jobs) (o.closed h) in
      sym (append-nil s.answered)
      ∙ ap (λ q. s.answered ++ q)
          (sym (ap (λ q. q ++ lines_in (job_queue.items s.jobs)) at_none ∙ in_none))
      ∙ k.order
