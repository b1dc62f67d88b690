-- ===== src/Tests/Threads.antt =====
-- Runs of the threads: one worker that answers a line, one whose init hooks fail, and nine at the end.
use squid_helper.System.Event.{callback_never_waits}
use mathlib.Core.Option.{some-injective, none-ne-some}
use squid_helper.System.Account.{Account, active_workers_count, last_signal_ends_loop}
use squid_helper.System.Conserve.{Conserved, no_line_lost, all_answered_at_end}
use squid_helper.System.Hang.{too_many_workers_hang}
use squid_helper.System.Progress.{shutdown_ends}
use squid_helper.System.Shutdown.{left, shutdown_step_less}
use squid_helper.Base.{
  sum_of, ℕ, ◌≡◌, ◌≢◌, ◌<◌, ◌⊎◌, refl, sym, ap, arith, true, false, Option, none, some, List, [],
  ◌∷◌, ◌++◌, length, replicate, ltb, if◌then◌else◌, Bool-cases, ltb→lt, lt→ltb, inl, inr, All,
}
use squid_helper.Memory.{Bytes, codes}
use squid_helper.System.{
  notify, IsSignalled, Queue, IsQueue, starting, idle, ended, serving, stopping, joined, Signal,
  worker_terminate, Job, System, launch, sigint_cb, thread_sig_cb, on_signal, enter, interrupt,
  leave, put_null, all_put, all_joined, init_done, init_failed, take_line, take_null, answer,
  finish, Reach, here, next,
}

abbrev put : {A : Type 0} → ℕ → List A → A → Option (List A)
put capacity q a = if ltb (length q) capacity then some (q ++ a ∷ []) else none

abbrev take_first : {A : Type 0} → List A → Option (A × List A)
take_first [] = none
take_first (a ∷ q) = some (a, q)

-- A queue that keeps its items in a list.
abbrev pub list_queue : (A : Type 0) → ℕ → Queue A
list_queue A capacity = record {
  Q = List A;
  capacity = capacity;
  items = λ q. q;
  empty = [];
  enqueue = put capacity;
  dequeue = take_first;
}

put-some :
    {A : Type 0} (n : ℕ) (q q' : List A) (a : A)
    → put n q a ≡ some q'
    → (q' ≡ q ++ a ∷ []) × (length q < n)
put-some n q q' a e = elim (Bool-cases (ltb (length q) n)) [
  | inl g ↦ (sym (some-injective _ _ (rw g at e)), ltb→lt (length q) n g)
  | inr g ↦ absurd (none-ne-some _ (rw g at e))
]

put_room :
    {A : Type 0} (n : ℕ) (q : List A) (a : A) → length q < n → (q' : List A) × (put n q a ≡ some q')
put_room n q a h = (q ++ a ∷ [], rw (lt→ltb (length q) n h))

first_some : {A : Type 0} (q q' : List A) (a : A) → take_first q ≡ some (a, q') → q ≡ a ∷ q'
first_some [] q' a e = absurd (none-ne-some _ e)
first_some (b ∷ q) q' a e = ap (λ r. r.0 ∷ r.1) (some-injective (b, q) (a, q') e)

pub list_queue-IsQueue : (A : Type 0) (n : ℕ) → IsQueue (list_queue A n)
list_queue-IsQueue A n = record {
  items-empty = refl;
  enqueue_some = put-some n;
  enqueue_room = put_room n;
  dequeue_some = first_some;
  dequeue_items = λ q a t e. (t, rw e);
}

abbrev pub jobs : Queue Job
jobs = list_queue Job 256

abbrev pub signals : Queue Signal
signals = list_queue Signal 8

abbrev request_line : Bytes
request_line = codes "1 ::1"

abbrev State : Type 0
State = System jobs signals

-- One worker answers a line.
abbrev answered_state : State
answered_state = record {
  jobs = [];
  signals = [];
  workers = idle ∷ [];
  main = serving;
  looping = true;
  async = false;
  active_workers = 1;
  entered = request_line ∷ [];
  answered = request_line ∷ [];
}

to_answered : Reach jobs signals 1 (launch jobs signals 1) answered_state
unfolding launch
to_answered =
    next
      (next
        (next (next here (init_done [] [] refl))
          (enter request_line (some request_line ∷ []) refl refl refl))
        (take_line [] [] request_line [] refl refl))
      (answer [] [] request_line refl)

active_while_answering : Account jobs signals (list_queue-IsQueue Signal 8) 1 answered_state
active_while_answering =
    active_workers_count jobs signals (list_queue-IsQueue Signal 8) 1 (omega arith) to_answered

answered_weight : Conserved jobs signals (list_queue-IsQueue Job 256) 1 length answered_state
answered_weight = no_line_lost jobs signals (list_queue-IsQueue Job 256) 1 length to_answered

-- It is interrupted.
abbrev interrupted_state : State
interrupted_state = record answered_state { looping = false }

to_interrupted : Reach jobs signals 1 (launch jobs signals 1) interrupted_state
unfolding sigint_cb
to_interrupted = next to_answered (interrupt refl refl)

leaves_loop :
    (left jobs signals
        (list_queue-IsQueue Job 256)
        (list_queue-IsQueue Signal 8)
        1
        (record interrupted_state { main = stopping 1 })
      < left jobs signals
          (list_queue-IsQueue Job 256)
          (list_queue-IsQueue Signal 8)
          1
          interrupted_state)
    × (false ≡ false)
leaves_loop =
    shutdown_step_less jobs signals (list_queue-IsQueue Job 256) (list_queue-IsQueue Signal 8) 1
      {s = interrupted_state} refl (leave refl refl)

ends_interrupted : (t : State) × Reach jobs signals 1 interrupted_state t × (t.main ≡ joined)
ends_interrupted =
    shutdown_ends jobs signals (list_queue-IsQueue Job 256) (list_queue-IsQueue Signal 8) 1
      (omega arith) (omega arith) (omega arith) to_interrupted refl (omega arith)

-- The end of that run.
abbrev joined_state : State
joined_state = record interrupted_state {
  workers = ended true ∷ [];
  signals = worker_terminate ∷ [];
  main = joined;
  async = true;
}

to_joined : Reach jobs signals 1 (launch jobs signals 1) joined_state
to_joined =
    next
      (next
        (next
          (next
            (next (next (next to_interrupted (leave refl refl)) (put_null 0 (none ∷ []) refl refl))
              (all_put refl))
            (take_null [] [] [] refl refl))
          (finish [] [] true (worker_terminate ∷ []) refl refl))
        (notify [] [] true refl))
      (all_joined refl (tt, tt))

answered_at_end : sum_of length joined_state.answered ≡ sum_of length joined_state.entered
answered_at_end =
    all_answered_at_end jobs signals (list_queue-IsQueue Job 256) 1 length {s = joined_state}
      to_joined refl (omega arith)

-- The init hooks of the only worker fail.
abbrev failed_state : State
failed_state = record {
  jobs = [];
  signals = worker_terminate ∷ [];
  workers = ended false ∷ [];
  main = serving;
  looping = true;
  async = true;
  active_workers = 1;
  entered = [];
  answered = [];
}

to_failed : Reach jobs signals 1 (launch jobs signals 1) failed_state
unfolding launch
to_failed =
    next
      (next (next here (init_failed [] [] refl))
        (finish [] [] false (worker_terminate ∷ []) refl refl))
      (notify [] [] false refl)

abbrev woken_state : State
woken_state = record failed_state { signals = []; active_workers = 0; looping = false }

ends_loop :
    ((woken_state.active_workers ≡ 0)
      × All IsSignalled woken_state.workers
      × (woken_state.looping ≡ false))
    ⊎ ((woken_state.active_workers ≢ 0) × (woken_state.looping ≡ failed_state.looping))
unfolding thread_sig_cb on_signal
ends_loop =
    last_signal_ends_loop jobs signals (list_queue-IsQueue Signal 8) 1 {s = failed_state}
      {t = woken_state} (omega arith) to_failed refl

wakes_main :
    (t : State) × (thread_sig_cb jobs signals (record failed_state { async = false }) ≡ some t)
wakes_main = callback_never_waits jobs signals (list_queue-IsQueue Signal 8) 1 to_failed refl

-- Nine workers, and a signal queue of eight slots.
abbrev nine_interrupted : State
nine_interrupted = record {
  jobs = [];
  signals = [];
  workers = replicate 9 starting;
  main = serving;
  looping = false;
  async = false;
  active_workers = 9;
  entered = [];
  answered = [];
}

to_nine : Reach jobs signals 9 (launch jobs signals 9) nine_interrupted
unfolding launch sigint_cb
to_nine = next here (interrupt refl refl)

nine_workers_hang : stopping 9 ≢ joined
nine_workers_hang =
    too_many_workers_hang jobs signals (list_queue-IsQueue Signal 8) 9
      {t = record nine_interrupted { main = stopping 9 }} (omega arith) to_nine refl (λ e. cc)
      (omega arith) (next here (leave refl refl))
