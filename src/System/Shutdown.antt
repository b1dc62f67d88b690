-- ===== src/System/Shutdown.antt =====
-- main in src/core/main.c once its event loop is told to end: how much is left to do.
use squid_helper.System.Phases.{sum_of-put, sum_of-pick}
use squid_helper.Base.{
  refl, ◌∙◌, sum_of, length-append, ℕ, ◌+◌, ◌*◌, ◌≡◌, ◌<◌, List, [], ◌∷◌, ◌++◌, Bool, true, false,
  none, some, arith, length, ap,
}
use squid_helper.System.{
  notify, notifying, finish, answer, take_null, take_line, init_failed, init_done, all_joined,
  all_put, put_null, leave, wake, interrupt, enter, Queue, IsQueue, Phase, starting, idle, busy,
  ending, ended, Main, serving, stopping, joining, joined, Signal, Job, System, Step,
}

pub looping_twice : {b : Bool} → b ≡ false → b ≡ true → ⊥
looping_twice e f = cc

-- What is left to do, by worker and by `main`.
abbrev pub work_left : Phase → ℕ
work_left starting = 4
work_left idle = 3
work_left (busy line) = 4
work_left (ending null) = 2
work_left (notifying null) = 1
work_left (ended null) = 0

abbrev pub main_left : ℕ → Main → ℕ
main_left n serving = 3 * n + 3
main_left n (stopping k) = 3 * k + 2
main_left n joining = 1
main_left n joined = 0

module _ (job_queue : Queue Job) (signal_queue : Queue Signal) (job_fifo : IsQueue job_queue)
    (signal_fifo : IsQueue signal_queue) (n : ℕ) where
  abbrev pub left : System job_queue signal_queue → ℕ
  left s = sum_of work_left s.workers + 2 * length (job_queue.items s.jobs) + main_left n s.main

  pick_left :
      (ws before after : List Phase) (p p' : Phase)
      → ws ≡ before ++ p ∷ after
      → sum_of work_left (before ++ p' ∷ after) + work_left p ≡ sum_of work_left ws + work_left p'
  pick_left ws before after p p' e =
      omega (arith, sum_of-pick work_left ws before after p e, sum_of-put work_left before after p')

  -- A step of a worker, and not of `main`.
  abbrev pub IsWorkerStep :
      {s t : System job_queue signal_queue} → Step job_queue signal_queue n s t → Type 0
  IsWorkerStep (enter line q m l e) = ⊥
  IsWorkerStep (interrupt m l) = ⊥
  IsWorkerStep (wake m l a e) = ⊥
  IsWorkerStep (leave m l) = ⊥
  IsWorkerStep (put_null k q m e) = ⊥
  IsWorkerStep (all_put m) = ⊥
  IsWorkerStep (all_joined m e) = ⊥
  IsWorkerStep (init_done before after e) = Unit
  IsWorkerStep (init_failed before after e) = Unit
  IsWorkerStep (take_line before after line q e d) = Unit
  IsWorkerStep (take_null before after q e d) = Unit
  IsWorkerStep (answer before after line e) = Unit
  IsWorkerStep (finish before after null q e d) = Unit
  IsWorkerStep (notify before after null e) = Unit

  -- Every step of a worker makes `left` less, and `main` does not notice it but by the queues and the
  -- event.
  pub worker_step_less :
      {s t : System job_queue signal_queue} (step : Step job_queue signal_queue n s t)
      → IsWorkerStep step
      → (left t < left s) × (t.looping ≡ s.looping) × (t.main ≡ s.main)
  worker_step_less (enter line q m l e) w = absurd w
  worker_step_less (interrupt m l) w = absurd w
  worker_step_less (wake m l a e) w = absurd w
  worker_step_less (leave m l) w = absurd w
  worker_step_less (put_null k q m e) w = absurd w
  worker_step_less (all_put m) w = absurd w
  worker_step_less (all_joined m e) w = absurd w
  worker_step_less (init_done {s = s} before after e) w =
      (omega (arith, pick_left s.workers before after starting idle e), refl, refl)
  worker_step_less (init_failed {s = s} before after e) w =
      (omega (arith, pick_left s.workers before after starting (ending false) e), refl, refl)
  worker_step_less (take_line {s = s} before after line q e d) w = (
    omega (
      arith,
      pick_left s.workers before after idle (busy line) e,
      ap length (job_fifo.dequeue_some s.jobs q (some line) d),
    ),
    refl,
    refl,
  )
  worker_step_less (take_null {s = s} before after q e d) w = (
    omega (
      arith,
      pick_left s.workers before after idle (ending true) e,
      ap length (job_fifo.dequeue_some s.jobs q none d),
    ),
    refl,
    refl,
  )
  worker_step_less (answer {s = s} before after line e) w =
      (omega (arith, pick_left s.workers before after (busy line) idle e), refl, refl)
  worker_step_less (finish {s = s} before after null q e d) w =
      (omega (arith, pick_left s.workers before after (ending null) (notifying null) e), refl, refl)
  worker_step_less (notify {s = s} before after null e) w =
      (omega (arith, pick_left s.workers before after (notifying null) (ended null) e), refl, refl)

  -- Once the event loop is told to end, every step of any thread makes `left` less, and the loop
  -- stays told so: the shutdown has no endless run, in whatever order the threads go. The two
  -- queues are first in, first out.
  pub shutdown_step_less :
      {s t : System job_queue signal_queue}
      → s.looping ≡ false
      → Step job_queue signal_queue n s t
      → (left t < left s) × (t.looping ≡ false)
  shutdown_step_less h (enter line q m l e) = absurd (looping_twice h l)
  shutdown_step_less h (interrupt m l) = absurd (looping_twice h l)
  shutdown_step_less h (wake m l w e) = absurd (looping_twice h l)
  shutdown_step_less h (leave {s = s} m l) = (omega (arith, ap (main_left n) m), h)
  shutdown_step_less h (put_null {s = s} k q m e) = (
    omega (
      arith,
      ap (main_left n) m,
      ap length (job_fifo.enqueue_some s.jobs q none e).0,
      length-append (job_queue.items s.jobs) (none ∷ []),
    ),
    h,
  )
  shutdown_step_less h (all_put {s = s} m) = (omega (arith, ap (main_left n) m), h)
  shutdown_step_less h (all_joined {s = s} m e) = (omega (arith, ap (main_left n) m), h)
  shutdown_step_less h (init_done {s = s} before after e) =
      let (less, same, at) = worker_step_less (init_done {s = s} before after e) tt in
      (less, same ∙ h)
  shutdown_step_less h (init_failed {s = s} before after e) =
      let (less, same, at) = worker_step_less (init_failed {s = s} before after e) tt in
      (less, same ∙ h)
  shutdown_step_less h (take_line {s = s} before after line q e d) =
      let (less, same, at) = worker_step_less (take_line {s = s} before after line q e d) tt in
      (less, same ∙ h)
  shutdown_step_less h (take_null {s = s} before after q e d) =
      let (less, same, at) = worker_step_less (take_null {s = s} before after q e d) tt in
      (less, same ∙ h)
  shutdown_step_less h (answer {s = s} before after line e) =
      let (less, same, at) = worker_step_less (answer {s = s} before after line e) tt in
      (less, same ∙ h)
  shutdown_step_less h (finish {s = s} before after null q e d) =
      let (less, same, at) = worker_step_less (finish {s = s} before after null q e d) tt in
      (less, same ∙ h)
  shutdown_step_less h (notify {s = s} before after null e) =
      let (less, same, at) = worker_step_less (notify {s = s} before after null e) tt in
      (less, same ∙ h)
