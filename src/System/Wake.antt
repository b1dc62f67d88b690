-- ===== src/System/Wake.antt =====
-- What a call of `thread_sig_cb` in src/core/main.c that does not wait has done.
use mathlib.Core.Option.{some-injective, none-ne-some}
use squid_helper.Base.{◌≡◌, sym, inl, inr, some, Option-cases}
use squid_helper.System.{Queue, Job, Signal, worker_terminate, System, thread_sig_cb, on_signal}

pub record Woken (job_queue : Queue Job) (signal_queue : Queue Signal)
    (s t : System job_queue signal_queue) : Type 0 where
  pub q : signal_queue.Q
  pub taken : signal_queue.dequeue s.signals ≡ some (worker_terminate, q)
  pub result : t ≡ on_signal job_queue signal_queue worker_terminate q s

pub woken :
    (job_queue : Queue Job) (signal_queue : Queue Signal) (s t : System job_queue signal_queue)
    → thread_sig_cb job_queue signal_queue s ≡ some t
    → Woken job_queue signal_queue s t
unfolding thread_sig_cb
woken job_queue signal_queue s t e = elim (Option-cases (signal_queue.dequeue s.signals)) [
  | inl g ↦ absurd (none-ne-some _ (rw (thread_sig_cb, g) at e))
  | inr ((worker_terminate, q), g) ↦ record {
    q = q;
    taken = g;
    result = sym (some-injective _ _ (rw (thread_sig_cb, g) at e));
  }
]
