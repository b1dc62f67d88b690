-- ===== src/Program/Replied.antt =====
-- What the workers of the whole program of src/core/main.c have printed, and one more line of one.
use squid_helper.Worker.Heed.{scan_request-Heeds}
use squid_helper.Program.Intake.{ok-injective}
use squid_helper.Program.Owners.{Sharing}
use squid_helper.Program.{Parts, Program}
use squid_helper.System.Conserve.{no_line_lost}
use squid_helper.System.Phases.{line_of, sum_of-pick}
use squid_helper.System.{Queue, IsQueue, Job, Signal, System, Reach, launch, Phase, idle, busy}
use squid_helper.Worker.Jobs.{Answers}
use squid_helper.Worker.Reply.{IsReply}
use squid_helper.Worker.Respond.{line-Responded}
use squid_helper.Worker.{Core, Work, word_width, handle_line}
use squid_helper.Program.Standing.{Owning, Settled, put-Owners, pick_owner}
use squid_helper.Program.{seen_by, left_by}
use squid_helper.Buffer.Holds.{stored}
use squid_helper.Scanf.{scan_request}
use squid_helper.Input.Stream.{IsClean}
use squid_helper.Input.Stream as Stream
use squid_helper.Memory.Laws.{IsNulFree}
use squid_helper.Memory.{Bytes, Mem, Result, ok}
use mathlib.Core.Path.{subst}
use squid_helper.Base.{
  ℕ, ◌+◌, ◌==◌, ◌≡◌, refl, sym, ap, ◌∙◌, List, [], ◌∷◌, ◌++◌, Option, Bool, All, length,
  append_assoc, append-nil, arith, sum_of, if◌then◌else◌,
}

-- The NUL bytes of a line.
abbrev zeros : Bytes → ℕ
zeros [] = 0
zeros (c ∷ t) = (if c == 0 then 1 else 0) + zeros t

zeros-none : (t : Bytes) → IsNulFree t → zeros t ≡ 0
zeros-none [] h = refl
zeros-none (c ∷ t) h = ground (arith, zeros-none t h.1)

zeros-IsNulFree : (t : Bytes) → zeros t ≡ 0 → IsNulFree t
zeros-IsNulFree [] h = tt
zeros-IsNulFree (c ∷ t) h = (λ e. absurd (ground arith), zeros-IsNulFree t (omega arith))

zeros_sum : (ts : List Bytes) → All IsNulFree ts → sum_of zeros ts ≡ 0
zeros_sum [] h = refl
zeros_sum (t ∷ ts) h = omega (arith, zeros-none t h.0, zeros_sum ts h.1)

pub Answers-append :
    (width : ℕ) (ts rs : List Bytes) (t r : Bytes) (success : Bool) (msg : Option Bytes)
    → IsReply (scan_request width t).0 success msg r
    → Answers width ts rs
    → Answers width (ts ++ t ∷ []) (rs ++ r ∷ [])
Answers-append width [] [] t r success msg k h = ((success, msg, k, scan_request-Heeds width t), tt)
Answers-append width [] (q ∷ rs) t r success msg k h = absurd h
Answers-append width (u ∷ ts) [] t r success msg k h = absurd h
Answers-append width (u ∷ ts) (q ∷ rs) t r success msg k h =
    (h.0, Answers-append width ts rs t r success msg k h.1)

joined-snoc : (rs : List Bytes) (r : Bytes) → Stream.joined (rs ++ r ∷ []) ≡ Stream.joined rs ++ r
joined-snoc [] r = append-nil r
joined-snoc (q ∷ rs) r =
    ap (λ t. q ++ t) (joined-snoc rs r) ∙ sym (append_assoc q (Stream.joined rs) r)

module _ {W : Type 0} (core : Core W) (parts : Parts W)
    (change_cb : parts.Event → parts.Shared → Result parts.Shared) (job_queue : Queue Job)
    (signal_queue : Queue Signal) (n : ℕ) (sharing : Sharing core parts change_cb) where
  -- The plugins' state is in order, and one reply was printed for each line that is answered.
  pub record Replied (out : Bytes) (p : Program core parts change_cb job_queue signal_queue)
      : Type 0 where
    pub shared : sharing.IsShared p.shared
    pub owners : Owning core parts change_cb job_queue signal_queue n sharing p
    pub settled :
        Settled core parts change_cb job_queue signal_queue n sharing p.threads.main
          p.threads.looping p.input.jobs
    pub replies : List Bytes
    pub printed : p.input.stdout ≡ out ++ Stream.joined replies
    pub each : Answers (word_width core.have_ipv6) p.threads.answered replies

  pub keep-Replied :
      (out : Bytes) (p q : Program core parts change_cb job_queue signal_queue)
      → sharing.IsShared q.shared
      → Owning core parts change_cb job_queue signal_queue n sharing q
      → Settled core parts change_cb job_queue signal_queue n sharing q.threads.main
          q.threads.looping q.input.jobs
      → q.input.stdout ≡ p.input.stdout
      → q.threads.answered ≡ p.threads.answered
      → Replied out p
      → Replied out q
  keep-Replied out p q s o t e f k = record {
    shared = s;
    owners = o;
    settled = t;
    replies = k.replies;
    printed = e ∙ k.printed;
    each = rw f k.each;
  }

  -- A worker answers the line that it has.
  pub answers-Replied :
      (out : Bytes) (p : Program core parts change_cb job_queue signal_queue)
      (before after : List Phase) (line : Bytes) (more : Mem) (s : Work W)
      → p.threads.workers ≡ before ++ busy line ∷ after
      → handle_line core (stored line more) (record {
        stdout = p.input.stdout;
        state = seen_by core parts change_cb job_queue signal_queue p (length before);
      })
        ≡ ok s
      → IsNulFree line
      → Replied out p
      → Replied out
          (record (left_by core parts change_cb job_queue signal_queue p
            (length before)
            s.state
            (record p.threads {
              workers = before ++ idle ∷ after;
              answered = p.threads.answered ++ line ∷ [];
            })) { input = record p.input { stdout = s.stdout } })
  answers-Replied out p before after line more s e h z k =
      let owned =
        pick_owner core parts change_cb job_queue signal_queue n sharing p.own p.threads.workers
          before after (busy line) e k.owners in
      let (r, inv) =
        line-Responded core sharing.contract line more
          (record {
            stdout = p.input.stdout;
            state = seen_by core parts change_cb job_queue signal_queue p (length before);
          })
          z (sharing.joins p.shared (p.own (length before)) k.shared owned) in
      let same : r.out ≡ s = ok-injective (sym r.result ∙ h) in
      let inv_s = subst (λ q. sharing.contract.Inv q.state) same inv in
      record {
        shared = sharing.shares s.state inv_s;
        owners =
            put-Owners core parts change_cb job_queue signal_queue n sharing p.own
              (parts.own_of s.state) p.threads.workers before after (busy line) idle e
              (sharing.owns s.state inv_s) k.owners;
        settled = k.settled;
        replies = k.replies ++ r.reply ∷ [];
        printed =
            ap (λ q. q.stdout) (sym same)
            ∙ r.printed
            ∙ ap (λ q. q ++ r.reply) k.printed
            ∙ append_assoc out (Stream.joined k.replies) _
            ∙ ap (λ q. out ++ q) (sym (joined-snoc k.replies _));
        each =
            Answers-append (word_width core.have_ipv6) p.threads.answered k.replies line r.reply
              r.success r.msg r.said k.each;
      }

  -- A line that a worker has holds no NUL, as none that was entered does.
  pub busy-IsNulFree :
      (job_fifo : IsQueue job_queue) (s : System job_queue signal_queue)
      → Reach job_queue signal_queue n (launch job_queue signal_queue n) s
      → All IsNulFree s.entered
      → (before after : List Phase) (line : Bytes) → s.workers ≡ before ++ busy line ∷ after
      → IsNulFree line
  busy-IsNulFree job_fifo s r h before after line e = zeros-IsNulFree line (
      omega (
        arith,
        no_line_lost job_queue signal_queue job_fifo n zeros r,
        zeros_sum s.entered h,
        sum_of-pick (line_of zeros) s.workers before after (busy line) e,
      ))
