-- ===== src/Program.antt =====
-- The whole program of src/core/main.c as it runs: stdin_read_cb on what is read, the workers with
-- their plugins on what it enqueues, and the threads of System beneath them.
pub mod Refines
pub mod Reading
pub mod Intake
pub mod Entered
pub mod Owners
pub mod Standing
pub mod Replied
pub mod Replies
pub mod Single
pub mod Follow
pub mod Ends
pub mod Flow
pub mod Cached
use squid_helper.Base.{
  ℕ, ◌≡◌, ◌==◌, Bool, true, false, Option, none, some, List, [], ◌∷◌, ◌++◌, length, if◌then◌else◌,
}
use squid_helper.Memory.{Bytes, Mem, Result, ok}
use squid_helper.Buffer.{Buffer}
use squid_helper.Plugins.{string_of}
use squid_helper.Buffer.Holds.{stored}
use squid_helper.Input.{Input, ReadResult, stdin_read_cb}
use squid_helper.Worker.{Core, Work, handle_line, init_thread, call_hooks}
use squid_helper.System.{
  Queue, Phase, starting, idle, busy, ending, notifying, ended, serving, Job, Signal, System,
  launch, Step, enter, interrupt, wake, leave, put_null, all_put, all_joined, init_done,
  init_failed, take_line, take_null, answer, finish, notify,
}

-- How threads share the state of the plugins: a hook sees what all threads share together with what
-- the thread has of its own, the values of its `pthread_key_t`, which are `unset` at first. `exit`
-- is what the destructors of these keys do as a thread exits, and an event what a watcher of a plugin
-- is called for.
pub record Parts (W : Type 0) : Type 1 where
  pub Shared : Type 0
  pub Own : Type 0
  pub Event : Type 0
  pub whole : Shared → Own → W
  pub shared_of : W → Shared
  pub own_of : W → Own
  pub unset : Own
  pub exit : W → W

abbrev pub push : List Buffer → Buffer → List Buffer
push jobs line = jobs ++ line ∷ []

abbrev pub set_own : {A : Type 0} → ℕ → A → (ℕ → A) → ℕ → A
set_own k a own i = if i == k then a else own i

-- The steps of System that stand as they are, and what the callback has not enqueued yet while they
-- are taken: the other callbacks and the rest of `main` come when it is through.
abbrev pub Stands :
    {job_queue : Queue Job} {signal_queue : Queue Signal} {n : ℕ}
    {s t : System job_queue signal_queue}
    → Step job_queue signal_queue n s t
    → List Buffer
    → Type 0
Stands (enter line q m l e) lines = ⊥
Stands (interrupt m l) lines = lines ≡ []
Stands (wake m l a e) lines = lines ≡ []
Stands (leave m l) lines = lines ≡ []
Stands (put_null k q m e) lines = Unit
Stands (all_put m) lines = Unit
Stands (all_joined m e) lines = Unit
Stands (init_done before after e) lines = ⊥
Stands (init_failed before after e) lines = ⊥
Stands (take_line before after line q e d) lines = Unit
Stands (take_null before after q e d) lines = Unit
Stands (answer before after line e) lines = ⊥
Stands (finish before after null q e d) lines = Unit
Stands (notify before after null e) lines = ⊥

module _ {W : Type 0} (core : Core W) (parts : Parts W)
    (change_cb : parts.Event → parts.Shared → Result parts.Shared) (job_queue : Queue Job)
    (signal_queue : Queue Signal) where
  -- The threads, the state of `stdin_read_cb` with the lines that it found and has still to enqueue
  -- as its jobs, what can still be read, and the state of the plugins, with the part that the worker
  -- at each place has of its own. `input.stdout` is what main.c printed; a plugin keeps what it prints.
  pub record Program : Type 0 where
    pub threads : System job_queue signal_queue
    pub input : Input (List Buffer)
    pub unread : List ReadResult
    pub shared : parts.Shared
    pub own : ℕ → parts.Own

  -- As `ev_loop` is called.
  unfoldable pub boot : ℕ → Input (List Buffer) → List ReadResult → parts.Shared → Program
  boot num_threads input reads shared = record {
    threads = launch job_queue signal_queue num_threads;
    input = input;
    unread = reads;
    shared = shared;
    own = λ i. parts.unset;
  }

  -- The state that the hooks of one worker see.
  abbrev pub seen_by : Program → ℕ → W
  seen_by p i = parts.whole p.shared (p.own i)

  -- The state after a worker has moved and its hooks have left `w`.
  abbrev pub left_by : Program → ℕ → W → System job_queue signal_queue → Program
  left_by p i w t = record p {
    threads = t;
    shared = parts.shared_of w;
    own = set_own i (parts.own_of w) p.own;
  }

  -- One step of one thread. `change_cb` is the callback of a plugin, such as `file_change_cb`.
  pub data Move (num_threads : ℕ) : Program → Program → Type 0 where
    reads :
        {p : Program} (now rest later : List ReadResult) (i : Input (List Buffer))
        → p.threads.main ≡ serving
        → p.threads.looping ≡ true
        → p.input.watching ≡ true
        → p.input.jobs ≡ []
        → p.unread ≡ now ++ later
        → stdin_read_cb push p.input now ≡ ok (i, rest)
        → Move num_threads p (record p { input = i; unread = rest ++ later })
    enters :
        {p : Program} (b : Buffer) (lines : List Buffer) (line : Bytes) (q : job_queue.Q)
        → p.threads.main ≡ serving
        → p.threads.looping ≡ true
        → p.input.jobs ≡ b ∷ lines
        → string_of b ≡ ok line
        → job_queue.enqueue p.threads.jobs (some line) ≡ some q
        → Move num_threads p (record p {
          threads = record p.threads { jobs = q; entered = p.threads.entered ++ line ∷ [] };
          input = record p.input { jobs = lines };
        })
    changes :
        {p : Program} (event : parts.Event) (shared : parts.Shared)
        → p.threads.main ≡ serving
        → p.threads.looping ≡ true
        → p.input.jobs ≡ []
        → change_cb event p.shared ≡ ok shared
        → Move num_threads p (record p { shared = shared })
    starts :
        {p : Program} (before after : List Phase) (w : W)
        → p.threads.workers ≡ before ++ starting ∷ after
        → init_thread core.plugins (seen_by p (length before)) ≡ ok (true, w)
        → Move num_threads p
            (left_by p (length before) w (record p.threads { workers = before ++ idle ∷ after }))
    fails :
        {p : Program} (before after : List Phase) (w : W)
        → p.threads.workers ≡ before ++ starting ∷ after
        → init_thread core.plugins (seen_by p (length before)) ≡ ok (false, w)
        → Move num_threads p (
            left_by p
              (length before)
              w
              (record p.threads { workers = before ++ ending false ∷ after }))
    answers :
        {p : Program} (before after : List Phase) (line : Bytes) (more : Mem) (s : Work W)
        → p.threads.workers ≡ before ++ busy line ∷ after
        → handle_line core
            (stored line more)
            (record { stdout = p.input.stdout; state = seen_by p (length before) })
          ≡ ok s
        → Move num_threads p
            (record (left_by p (length before) s.state (record p.threads {
              workers = before ++ idle ∷ after;
              answered = p.threads.answered ++ line ∷ [];
            })) { input = record p.input { stdout = s.stdout } })
    ends :
        {p : Program} (before after : List Phase) (null : Bool) (w : W)
        → p.threads.workers ≡ before ++ notifying null ∷ after
        → call_hooks (λ h. h.thread_free) core.plugins (seen_by p (length before)) ≡ ok w
        → Move num_threads p (
            left_by p
              (length before)
              (parts.exit w)
              (record p.threads { workers = before ++ ended null ∷ after; async = true }))
    stands :
        {p : Program} {t : System job_queue signal_queue}
        (step : Step job_queue signal_queue num_threads p.threads t)
        → Stands step p.input.jobs
        → Move num_threads p (record p { threads = t })

  -- The states that the program gets to.
  pub data Run (num_threads : ℕ) (p : Program) : Program → Type 0 where
    at_start : Run num_threads p p
    onward : {q r : Program} → Run num_threads p q → Move num_threads q r → Run num_threads p r
