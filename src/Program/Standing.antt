-- ===== src/Program/Standing.antt =====
-- What the steps of src/core/main.c between lines leave alone: what each worker has of its own, and
-- whether lines are left to enqueue.
use squid_helper.Program.Owners.{Sharing, Owned, Owners, Owners-pick, Owners-keep, Owners-put}
use squid_helper.Program.{Parts, Program, Stands}
use squid_helper.System.Wake.{woken}
use squid_helper.System.{
  Queue, Job, Signal, System, Step, on_signal, sigint_cb, Phase, idle, busy, ending, notifying,
  Main, serving, enter, interrupt, wake, leave, put_null, all_put, all_joined, init_done,
  init_failed, take_line, take_null, answer, finish, notify,
}
use squid_helper.Worker.{Core}
use squid_helper.Buffer.{Buffer}
use squid_helper.Memory.{Result}
use squid_helper.Base.{
  ℕ, ◌==◌, ◌≡◌, ◌⊎◌, inl, inr, refl, ap, List, [], ◌∷◌, ◌++◌, Bool, true, false, length, arith,
  if◌then◌else◌,
}

module _ {W : Type 0} (core : Core W) (parts : Parts W)
    (change_cb : parts.Event → parts.Shared → Result parts.Shared) (job_queue : Queue Job)
    (signal_queue : Queue Signal) (n : ℕ) (sharing : Sharing core parts change_cb) where
  abbrev pub Owning : Program core parts change_cb job_queue signal_queue → Type 0
  Owning p = Owners sharing.IsOwn parts.unset p.own 0 p.threads.workers

  -- Once the event loop is told to end nothing is left to enqueue.
  abbrev pub Settled : Main → Bool → List Buffer → Type 0
  Settled m looping lines = ((m ≡ serving) × (looping ≡ true)) ⊎ (lines ≡ [])

  pub Stands-Settled :
      {s t : System job_queue signal_queue} (st : Step job_queue signal_queue n s t)
      (lines : List Buffer)
      → Stands st lines
      → Settled s.main s.looping lines
      → Settled t.main t.looping lines
  unfolding sigint_cb on_signal
  Stands-Settled (enter line q m l e) lines h k = absurd h
  Stands-Settled (interrupt m l) lines h k = inr h
  Stands-Settled (wake m l a e) lines h k = inr h
  Stands-Settled (leave m l) lines h k = inr h
  Stands-Settled (put_null i q m e) lines h (inl (f, g)) = cc
  Stands-Settled (put_null i q m e) lines h (inr f) = inr f
  Stands-Settled (all_put m) lines h (inl (f, g)) = cc
  Stands-Settled (all_put m) lines h (inr f) = inr f
  Stands-Settled (all_joined m e) lines h (inl (f, g)) = cc
  Stands-Settled (all_joined m e) lines h (inr f) = inr f
  Stands-Settled (init_done before after e) lines h k = absurd h
  Stands-Settled (init_failed before after e) lines h k = absurd h
  Stands-Settled (take_line before after line q e d) lines h k = k
  Stands-Settled (take_null before after q e d) lines h k = k
  Stands-Settled (answer before after line e) lines h k = absurd h
  Stands-Settled (finish before after null q e d) lines h k = k
  Stands-Settled (notify before after null e) lines h k = absurd h

  keep-Owners :
      (own : ℕ → parts.Own) (ws ws' before after : List Phase) (p p' : Phase)
      → ws ≡ before ++ p ∷ after
      → ws' ≡ before ++ p' ∷ after
      → ((a : parts.Own)
          → Owned sharing.IsOwn parts.unset p a
          → Owned sharing.IsOwn parts.unset p' a)
      → Owners sharing.IsOwn parts.unset own 0 ws
      → Owners sharing.IsOwn parts.unset own 0 ws'
  keep-Owners own ws ws' before after p p' e e' f h = rw e' (
      Owners-keep sharing.IsOwn parts.unset own 0 (length before) before after p p' (omega arith)
        (f (own (length before))) (rw e at h))

  pub put-Owners :
      (own : ℕ → parts.Own) (a : parts.Own) (ws before after : List Phase) (p p' : Phase)
      → ws ≡ before ++ p ∷ after
      → Owned sharing.IsOwn parts.unset p' a
      → Owners sharing.IsOwn parts.unset own 0 ws
      → Owners sharing.IsOwn parts.unset
          (λ i. if i == length before then a else own i)
          0
          (before ++ p' ∷ after)
  put-Owners own a ws before after p p' e o h =
      Owners-put sharing.IsOwn parts.unset own 0 (length before) a before after p p' (omega arith) o
        (rw e at h)

  pub pick_owner :
      (own : ℕ → parts.Own) (ws before after : List Phase) (p : Phase)
      → ws ≡ before ++ p ∷ after
      → Owners sharing.IsOwn parts.unset own 0 ws
      → Owned sharing.IsOwn parts.unset p (own (length before))
  pick_owner own ws before after p e h =
      Owners-pick sharing.IsOwn parts.unset own 0 (length before) before after p (omega arith)
        (rw e at h)

  pub Stands-Owners :
      {s t : System job_queue signal_queue} (st : Step job_queue signal_queue n s t)
      (lines : List Buffer) (own : ℕ → parts.Own)
      → Stands st lines
      → Owners sharing.IsOwn parts.unset own 0 s.workers
      → Owners sharing.IsOwn parts.unset own 0 t.workers
  unfolding sigint_cb on_signal
  Stands-Owners (enter line q m l e) lines own h k = absurd h
  Stands-Owners (interrupt m l) lines own h k = k
  Stands-Owners (wake {s = s} {t = t} m l a e) lines own h k =
      rw
        (ap (λ q. q.workers) (woken job_queue signal_queue (record s { async = false }) t e).result)
        k
  Stands-Owners (leave m l) lines own h k = k
  Stands-Owners (put_null i q m e) lines own h k = k
  Stands-Owners (all_put m) lines own h k = k
  Stands-Owners (all_joined m e) lines own h k = k
  Stands-Owners (init_done before after e) lines own h k = absurd h
  Stands-Owners (init_failed before after e) lines own h k = absurd h
  Stands-Owners (take_line before after line q e d) lines own h k =
      keep-Owners own _ _ before after idle (busy line) e refl (λ a o. o) k
  Stands-Owners (take_null before after q e d) lines own h k =
      keep-Owners own _ _ before after idle (ending true) e refl (λ a o. tt) k
  Stands-Owners (answer before after line e) lines own h k = absurd h
  Stands-Owners (finish before after null q e d) lines own h k =
      keep-Owners own _ _ before after (ending null) (notifying null) e refl (λ a o. tt) k
  Stands-Owners (notify before after null e) lines own h k = absurd h

  pub Stands-answered :
      {s t : System job_queue signal_queue} (st : Step job_queue signal_queue n s t)
      (lines : List Buffer)
      → Stands st lines
      → t.answered ≡ s.answered
  unfolding sigint_cb on_signal
  Stands-answered (enter line q m l e) lines h = absurd h
  Stands-answered (interrupt m l) lines h = refl
  Stands-answered (leave m l) lines h = refl
  Stands-answered (put_null i q m e) lines h = refl
  Stands-answered (all_put m) lines h = refl
  Stands-answered (all_joined m e) lines h = refl
  Stands-answered (init_done before after e) lines h = absurd h
  Stands-answered (init_failed before after e) lines h = absurd h
  Stands-answered (take_line before after line q e d) lines h = refl
  Stands-answered (take_null before after q e d) lines h = refl
  Stands-answered (answer before after line e) lines h = absurd h
  Stands-answered (finish before after null q e d) lines h = refl
  Stands-answered (notify before after null e) lines h = absurd h
  Stands-answered (wake {s = s} {t = t} m l a e) lines h =
      ap (λ q. q.answered) (woken job_queue signal_queue (record s { async = false }) t e).result

module _ (job_queue : Queue Job) (signal_queue : Queue Signal) (n : ℕ) where
  pub Stands-entered :
      {s t : System job_queue signal_queue} (st : Step job_queue signal_queue n s t)
      (lines : List Buffer)
      → Stands st lines
      → t.entered ≡ s.entered
  unfolding sigint_cb on_signal
  Stands-entered (enter line q m l e) lines h = absurd h
  Stands-entered (interrupt m l) lines h = refl
  Stands-entered (wake {s = s} {t = t} m l a e) lines h =
      ap (λ q. q.entered) (woken job_queue signal_queue (record s { async = false }) t e).result
  Stands-entered (leave m l) lines h = refl
  Stands-entered (put_null k q m e) lines h = refl
  Stands-entered (all_put m) lines h = refl
  Stands-entered (all_joined m e) lines h = refl
  Stands-entered (init_done before after e) lines h = absurd h
  Stands-entered (init_failed before after e) lines h = absurd h
  Stands-entered (take_line before after line q e d) lines h = refl
  Stands-entered (take_null before after q e d) lines h = refl
  Stands-entered (answer before after line e) lines h = absurd h
  Stands-entered (finish before after null q e d) lines h = refl
  Stands-entered (notify before after null e) lines h = absurd h
