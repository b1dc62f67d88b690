-- ===== src/System.antt =====
-- src/core/main.c from `pthread_create` on: the event loop, the worker threads, the two queues
-- between them and the shutdown, as the steps that they take in any order.
pub mod Phases
pub mod Wake
pub mod Event
pub mod Account
pub mod Order
pub mod Conserve
pub mod Single
pub mod Shutdown
pub mod Seen
pub mod Progress
pub mod Flow
pub mod Hang
use squid_helper.Base.{
  All, ℕ, zero, suc, ◌+◌, ◌-◌, ◌%◌, ◌==◌, ◌<◌, ◌≤◌, ◌≡◌, Bool, true, false, Option, none, some,
  List, [], ◌∷◌, ◌++◌, length, replicate, size_mod, if◌then◌else◌,
}
use squid_helper.Memory.{Bytes}

-- A queue of c-pthread-queue: `queue_enqueue` and `queue_dequeue`, none where they wait.
pub record Queue (A : Type 0) : Type 1 where
  pub Q : Type 0
  pub capacity : ℕ
  pub items : Q → List A
  pub empty : Q
  pub enqueue : Q → A → Option Q
  pub dequeue : Q → Option (A × Q)

-- It is first in, first out; `enqueue` waits where it is full, `dequeue` where it is empty.
pub record IsQueue {A : Type 0} (q : Queue A) : Type 0 where
  pub items-empty : q.items q.empty ≡ []
  pub enqueue_some :
      (s s' : q.Q) (a : A)
      → q.enqueue s a ≡ some s'
      → (q.items s' ≡ q.items s ++ a ∷ []) × (length (q.items s) < q.capacity)
  pub enqueue_room :
      (s : q.Q) (a : A) → length (q.items s) < q.capacity → (s' : q.Q) × (q.enqueue s a ≡ some s')
  pub dequeue_some : (s s' : q.Q) (a : A) → q.dequeue s ≡ some (a, s') → q.items s ≡ a ∷ q.items s'
  pub dequeue_items :
      (s : q.Q) (a : A) (t : List A) → q.items s ≡ a ∷ t → (s' : q.Q) × (q.dequeue s ≡ some (a, s'))

-- Where a worker is: before its init hooks are through, in `queue_dequeue`, at a line, behind its
-- loop, behind `queue_enqueue` of its signal, or behind `ev_async_send`. The flag says that it took a
-- NULL, and not that a hook failed.
pub data Phase : Type 0 where
  starting idle : Phase
  busy : Bytes → Phase
  ending notifying ended : Bool → Phase

-- Its signal is in the queue, or was taken out.
abbrev pub IsSignalled : Phase → Type 0
IsSignalled (notifying null) = Unit
IsSignalled (ended null) = Unit
IsSignalled _ = ⊥

abbrev pub IsEnded : Phase → Type 0
IsEnded (ended null) = Unit
IsEnded _ = ⊥

-- Where `main` is: in `ev_loop`, with so many NULLs still to enqueue, in `pthread_join`, or through.
pub data Main : Type 0 where
  serving : Main
  stopping : ℕ → Main
  joining joined : Main

-- `thread_signal`
pub data Signal : Type 0 where
  worker_terminate : Signal

-- `--n` on `size_t`
abbrev pub decrement : ℕ → ℕ
decrement n = (n + size_mod - 1) % size_mod

-- A job is a line, or NULL.
abbrev pub Job : Type 0
Job = Option Bytes

module _ (job_queue : Queue Job) (signal_queue : Queue Signal) where
  -- The shared state. `looping` says that `ev_loop` was not told to end, `async` that the event of
  -- `ev_thread_signal_watcher` is pending, which several `ev_async_send` make once. `entered` and
  -- `answered` are the lines that were enqueued and those that are through, in their order.
  pub record System : Type 0 where
    pub jobs : job_queue.Q
    pub signals : signal_queue.Q
    pub workers : List Phase
    pub main : Main
    pub looping : Bool
    pub async : Bool
    pub active_workers : ℕ
    pub entered : List Bytes
    pub answered : List Bytes

  -- The state as `ev_loop` is called with so many threads created.
  unfoldable pub launch : ℕ → System
  launch num_threads = record {
    jobs = job_queue.empty;
    signals = signal_queue.empty;
    workers = replicate num_threads starting;
    main = serving;
    looping = true;
    async = false;
    active_workers = num_threads;
    entered = [];
    answered = [];
  }

  -- `sigint_cb`
  unfoldable pub sigint_cb : System → System
  sigint_cb s = record s { looping = false }

  -- The `switch` of `thread_sig_cb` on the message that it dequeued.
  unfoldable pub on_signal : Signal → signal_queue.Q → System → System
  on_signal worker_terminate q s =
      let active = decrement s.active_workers in
      record s {
        signals = q;
        active_workers = active;
        looping = if active == 0 then false else s.looping;
      }

  -- `thread_sig_cb`, none where it waits for a message
  unfoldable pub thread_sig_cb : System → Option System
  thread_sig_cb s = elim (signal_queue.dequeue s.signals) [
    | none ↦ none
    | some (msg, q) ↦ some (on_signal msg q s)
  ]

  -- One step of one thread, between two waits. A worker is picked by what stands before and behind
  -- it in `workers`.
  pub data Step (num_threads : ℕ) : System → System → Type 0 where
    enter :
        {s : System} (line : Bytes) (q : job_queue.Q)
        → s.main ≡ serving
        → s.looping ≡ true
        → job_queue.enqueue s.jobs (some line) ≡ some q
        → Step num_threads s (record s { jobs = q; entered = s.entered ++ line ∷ [] })
    interrupt :
        {s : System} → s.main ≡ serving → s.looping ≡ true → Step num_threads s (sigint_cb s)
    wake :
        {s t : System}
        → s.main ≡ serving
        → s.looping ≡ true
        → s.async ≡ true
        → thread_sig_cb (record s { async = false }) ≡ some t
        → Step num_threads s t
    leave :
        {s : System}
        → s.main ≡ serving
        → s.looping ≡ false
        → Step num_threads s (record s { main = stopping num_threads })
    put_null :
        {s : System} (k : ℕ) (q : job_queue.Q)
        → s.main ≡ stopping (suc k)
        → job_queue.enqueue s.jobs none ≡ some q
        → Step num_threads s (record s { jobs = q; main = stopping k })
    all_put : {s : System} → s.main ≡ stopping 0 → Step num_threads s (record s { main = joining })
    all_joined :
        {s : System}
        → s.main ≡ joining
        → All IsEnded s.workers
        → Step num_threads s (record s { main = joined })
    init_done :
        {s : System} (before after : List Phase)
        → s.workers ≡ before ++ starting ∷ after
        → Step num_threads s (record s { workers = before ++ idle ∷ after })
    init_failed :
        {s : System} (before after : List Phase)
        → s.workers ≡ before ++ starting ∷ after
        → Step num_threads s (record s { workers = before ++ ending false ∷ after })
    take_line :
        {s : System} (before after : List Phase) (line : Bytes) (q : job_queue.Q)
        → s.workers ≡ before ++ idle ∷ after
        → job_queue.dequeue s.jobs ≡ some (some line, q)
        → Step num_threads s (record s { jobs = q; workers = before ++ busy line ∷ after })
    take_null :
        {s : System} (before after : List Phase) (q : job_queue.Q)
        → s.workers ≡ before ++ idle ∷ after
        → job_queue.dequeue s.jobs ≡ some (none, q)
        → Step num_threads s (record s { jobs = q; workers = before ++ ending true ∷ after })
    answer :
        {s : System} (before after : List Phase) (line : Bytes)
        → s.workers ≡ before ++ busy line ∷ after
        → Step num_threads s
            (record s { workers = before ++ idle ∷ after; answered = s.answered ++ line ∷ [] })
    finish :
        {s : System} (before after : List Phase) (null : Bool) (q : signal_queue.Q)
        → s.workers ≡ before ++ ending null ∷ after
        → signal_queue.enqueue s.signals worker_terminate ≡ some q
        → Step num_threads s (record s { signals = q; workers = before ++ notifying null ∷ after })
    notify :
        {s : System} (before after : List Phase) (null : Bool)
        → s.workers ≡ before ++ notifying null ∷ after
        → Step num_threads s (record s { workers = before ++ ended null ∷ after; async = true })

  -- The states that steps lead to.
  pub data Reach (num_threads : ℕ) (s : System) : System → Type 0 where
    here : Reach num_threads s s
    next : {t u : System} → Reach num_threads s t → Step num_threads t u → Reach num_threads s u
