-- ===== src/System/Hang.antt =====
-- The end of main in src/core/main.c with more workers than the signal queue has room for.
use squid_helper.System.Phases.{none_live}
use squid_helper.System.Shutdown.{looping_twice}
use squid_helper.System.Account.{Step-Account, active_workers_count, Account}
use squid_helper.Base.{ℕ, ◌≡◌, ◌≢◌, ◌<◌, false, arith, size_mod}
use squid_helper.System.{
  notify, finish, answer, take_null, take_line, init_failed, init_done, all_joined, all_put,
  put_null, leave, wake, interrupt, enter, Queue, IsQueue, joined, Signal, Job, System, Step, Reach,
  launch, here, next,
}

module _ (job_queue : Queue Job) (signal_queue : Queue Signal) (fifo : IsQueue signal_queue)
    (n : ℕ) where
  record Stuck (s : System job_queue signal_queue) : Type 0 where
    account : Account job_queue signal_queue fifo n s
    over : s.looping ≡ false
    many : signal_queue.capacity < s.active_workers
    waits : s.main ≢ joined

  Step-Stuck :
      {s t : System job_queue signal_queue}
      → n < size_mod
      → Step job_queue signal_queue n s t
      → Stuck s
      → Stuck t
  Step-Stuck h (enter line q m l e) k = absurd (looping_twice k.over l)
  Step-Stuck h (interrupt m l) k = absurd (looping_twice k.over l)
  Step-Stuck h (wake m l w e) k = absurd (looping_twice k.over l)
  Step-Stuck h (leave m l) k = record {
    account = Step-Account job_queue signal_queue fifo n h (leave m l) k.account;
    over = k.over;
    many = k.many;
    waits = λ e. cc;
  }
  Step-Stuck h (put_null i q m e) k = record {
    account = Step-Account job_queue signal_queue fifo n h (put_null i q m e) k.account;
    over = k.over;
    many = k.many;
    waits = λ e. cc;
  }
  Step-Stuck h (all_put m) k = record {
    account = Step-Account job_queue signal_queue fifo n h (all_put m) k.account;
    over = k.over;
    many = k.many;
    waits = λ e. cc;
  }
  Step-Stuck h (all_joined {s = s} m e) k =
      absurd (omega (arith, k.account.counted, k.account.bounded, k.many, none_live s.workers e))
  Step-Stuck h (init_done b a e) k = record {
    account = Step-Account job_queue signal_queue fifo n h (init_done b a e) k.account;
    over = k.over;
    many = k.many;
    waits = k.waits;
  }
  Step-Stuck h (init_failed b a e) k = record {
    account = Step-Account job_queue signal_queue fifo n h (init_failed b a e) k.account;
    over = k.over;
    many = k.many;
    waits = k.waits;
  }
  Step-Stuck h (take_line b a line q e d) k = record {
    account = Step-Account job_queue signal_queue fifo n h (take_line b a line q e d) k.account;
    over = k.over;
    many = k.many;
    waits = k.waits;
  }
  Step-Stuck h (take_null b a q e d) k = record {
    account = Step-Account job_queue signal_queue fifo n h (take_null b a q e d) k.account;
    over = k.over;
    many = k.many;
    waits = k.waits;
  }
  Step-Stuck h (answer b a line e) k = record {
    account = Step-Account job_queue signal_queue fifo n h (answer b a line e) k.account;
    over = k.over;
    many = k.many;
    waits = k.waits;
  }
  Step-Stuck h (finish b a null q e d) k = record {
    account = Step-Account job_queue signal_queue fifo n h (finish b a null q e d) k.account;
    over = k.over;
    many = k.many;
    waits = k.waits;
  }
  Step-Stuck h (notify b a null e) k = record {
    account = Step-Account job_queue signal_queue fifo n h (notify b a null e) k.account;
    over = k.over;
    many = k.many;
    waits = k.waits;
  }

  Reach-Stuck :
      {s t : System job_queue signal_queue}
      → n < size_mod
      → Stuck s
      → Reach job_queue signal_queue n s t
      → Stuck t
  Reach-Stuck h k here = k
  Reach-Stuck h k (next r st) = Step-Stuck h st (Reach-Stuck h k r)

  -- If the loop is told to end while `active_workers` is above the capacity of the signal queue,
  -- before `main` is through, then no run from there gets `main` past `pthread_join`: the signals
  -- that do not fit are waited for, and nobody takes any out. `n` is within `size_t`, and the
  -- signal queue is first in, first out.
  pub too_many_workers_hang :
      {s t : System job_queue signal_queue}
      → n < size_mod
      → Reach job_queue signal_queue n (launch job_queue signal_queue n) s
      → s.looping ≡ false
      → s.main ≢ joined
      → signal_queue.capacity < s.active_workers
      → Reach job_queue signal_queue n s t
      → t.main ≢ joined
  too_many_workers_hang h r l m c q =
      (Reach-Stuck h
        (record {
          account = active_workers_count job_queue signal_queue fifo n h r;
          over = l;
          many = c;
          waits = m;
        })
        q).waits
