-- ===== src/Program/Intake.antt =====
-- What the program of src/core/main.c has read, and which lines of it are entered into the job queue.
use squid_helper.Program.Reading.{Called, callback_lem, joined-append}
use squid_helper.Program.{Parts, Program, boot, push}
use squid_helper.System.{Queue, Job, Signal, launch}
use squid_helper.Input.Stream.{IsClean, joined}
use squid_helper.Input.Lines.{HoldLines, length-split_lines, split_lines, split_lines-append}
use squid_helper.Input.TakeLine.{half_size}
use squid_helper.Input.{Input, ReadResult, bytes, stdin_read_cb}
use squid_helper.Buffer.Holds.{Pending, Holds, text}
use squid_helper.Buffer.{Buffer}
use squid_helper.Memory.Laws.{IsNulFree}
use squid_helper.Memory.{Bytes, Result, ok}
use squid_helper.Scanf.RoundTrip.{c_string_lem}
use squid_helper.Plugins.{string_of}
use squid_helper.Worker.{Core}
use squid_helper.Base.{
  map-append, ℕ, ◌+◌, ◌≡◌, ◌<◌, refl, sym, ap, ◌∙◌, List, [], ◌∷◌, ◌++◌, Option, some, All,
  All-append_left, All-append_right, map, length, length-append, append_assoc, append-nil, arith,
}

split_map :
    (left : List Bytes) (now later : List ReadResult)
    → map bytes left ≡ now ++ later
    → (a : List Bytes) × (b : List Bytes) × (left ≡ a ++ b)
      × (now ≡ map bytes a)
      × (later ≡ map bytes b)
split_map left [] later e = ([], left, refl, refl, sym e)
split_map [] (r ∷ now) later e = absurd (cc)
split_map (c ∷ left) (r ∷ now) later e =
    let (a, b, f, g, h) = split_map left now later cc in (c ∷ a, b, ap (λ q. c ∷ q) f, cc, h)

pub ok-injective {ℓ} : {A : Type ℓ} {a b : A} → ◌≡◌ {A = Result A} (ok a) (ok b) → a ≡ b
ok-injective e = cc

-- A buffer that holds a line is read as that line.
pub string_of_line : (b : Buffer) (t : Bytes) → IsNulFree t → Holds b (some t) → string_of b ≡ ok t
unfolding string_of
string_of_line b t z h = let (rest, e, l) = h.content in rw e (c_string_lem t rest z)

module _ {W : Type 0} (core : Core W) (parts : Parts W)
    (change_cb : parts.Event → parts.Shared → Result parts.Shared) (job_queue : Queue Job)
    (signal_queue : Queue Signal) (n : ℕ) where
  module _ (o : Option Bytes) (chunks : List Bytes) where
    -- The chunks up to some place are read, and their lines are entered or wait for it, in order.
    pub record Intake (p : Program core parts change_cb job_queue signal_queue) : Type 0 where
      pub used : List Bytes
      pub left : List Bytes
      pub whole : chunks ≡ used ++ left
      pub unread : p.unread ≡ map bytes left
      pub held : Option Bytes
      pub pending : Pending p.input.tmp_line_buf held
      pub lines : List Bytes
      pub waiting : HoldLines p.input.jobs lines
      pub entered : p.threads.entered ++ lines ≡ (split_lines (text o) (joined used)).0
      pub last : text held ≡ (split_lines (text o) (joined used)).1

    pub boot-Intake :
        (input : Input (List Buffer)) (shared : parts.Shared)
        → Pending input.tmp_line_buf o
        → input.jobs ≡ []
        → Intake
            (boot core parts change_cb job_queue signal_queue n input (map bytes chunks) shared)
    unfolding boot launch
    boot-Intake input shared p e = record {
      used = [];
      left = chunks;
      whole = refl;
      unread = refl;
      held = o;
      pending = p;
      lines = [];
      waiting = rw e tt;
      entered = refl;
      last = refl;
    }

    pub keep-Intake :
        (p q : Program core parts change_cb job_queue signal_queue)
        → q.unread ≡ p.unread
        → q.input.tmp_line_buf ≡ p.input.tmp_line_buf
        → q.input.jobs ≡ p.input.jobs
        → q.threads.entered ≡ p.threads.entered
        → Intake p
        → Intake q
    keep-Intake p q u t j e k = record {
      used = k.used;
      left = k.left;
      whole = k.whole;
      unread = u ∙ k.unread;
      held = k.held;
      pending = rw t k.pending;
      lines = k.lines;
      waiting = rw j k.waiting;
      entered = rw e k.entered;
      last = k.last;
    }

    pub HoldLines-nil : (lines : List Bytes) → HoldLines [] lines → lines ≡ []
    HoldLines-nil [] h = refl
    HoldLines-nil (t ∷ ts) h = absurd h

    module _ (clean : All IsClean chunks) (free : IsNulFree (text o))
        (fits : length (text o) + length (joined chunks) < half_size) where
      -- The state behind a call of the callback, by what that has used.
      Called-Intake :
          (p q : Program core parts change_cb job_queue signal_queue) (k : Intake p)
          (a b : List Bytes) {r : Result (Input (List Buffer) × List ReadResult)}
          (c : Called p.input (text k.held) a r)
          → k.left ≡ a ++ b
          → k.lines ≡ []
          → q.input.tmp_line_buf ≡ c.out
          → q.input.jobs ≡ c.sent
          → q.unread ≡ map bytes (c.rest ++ b)
          → q.threads.entered ≡ p.threads.entered
          → Intake q
      Called-Intake p q k a b c f g t s u e =
          let cur = text o in
          let spec =
            ap (split_lines cur) (joined-append k.used c.used)
            ∙ split_lines-append cur (joined k.used) (joined c.used) in
          let before =
            sym (append-nil p.threads.entered)
            ∙ ap (λ q. p.threads.entered ++ q) (sym g)
            ∙ k.entered in
          record {
            used = k.used ++ c.used;
            left = c.rest ++ b;
            whole =
                k.whole
                ∙ ap (λ q. k.used ++ q)
                    (f ∙ ap (λ q. q ++ b) c.whole ∙ append_assoc c.used c.rest b)
                ∙ sym (append_assoc k.used c.used (c.rest ++ b));
            unread = u;
            held = c.held;
            pending = rw t c.pending;
            lines = (split_lines (text k.held) (joined c.used)).0;
            waiting = rw s c.lines;
            entered =
                ap (λ q. q ++ (split_lines (text k.held) (joined c.used)).0) (e ∙ before)
                ∙ ap (λ q. (split_lines cur (joined k.used)).0 ++ (split_lines q (joined c.used)).0)
                    k.last
                ∙ sym (ap (λ q. q.0) spec);
            last =
                c.last
                ∙ ap (λ q. (split_lines q (joined c.used)).1) k.last
                ∙ sym (ap (λ q. q.1) spec);
          }

      -- What one call reads is within the bounds.
      bounded :
          (used a b : List Bytes) (held : Option Bytes)
          → chunks ≡ used ++ (a ++ b)
          → text held ≡ (split_lines (text o) (joined used)).1
          → length (text held) + length (joined a) < half_size
      bounded used a b held e l = omega (
        arith,
        fits,
        ap (λ (q : List Bytes). length (joined q)) e,
        ap length (joined-append used (a ++ b)),
        ap length (joined-append a b),
        length-append (joined used) (joined (a ++ b)),
        length-append (joined a) (joined b),
        length-split_lines (text o) (joined used),
        ap length l,
      )

      -- What a call of the callback that returns has used.
      record Returned (p : Program core parts change_cb job_queue signal_queue) (k : Intake p)
          (i : Input (List Buffer)) (rest later : List ReadResult) : Type 0 where
        now_used : List Bytes
        behind : List Bytes
        r : Result (Input (List Buffer) × List ReadResult)
        called : Called p.input (text k.held) now_used r
        split : k.left ≡ now_used ++ behind
        input : i ≡ record p.input { tmp_line_buf = called.out; jobs = p.input.jobs ++ called.sent }
        unread : rest ++ later ≡ map bytes (called.rest ++ behind)

      returned :
          (p : Program core parts change_cb job_queue signal_queue)
          (now rest later : List ReadResult) (i : Input (List Buffer))
          → p.unread ≡ now ++ later
          → stdin_read_cb push p.input now ≡ ok (i, rest)
          → (k : Intake p) → Returned p k i rest later
      returned p now rest later i u e k =
          let (a, b, f, g, h) = split_map k.left now later (sym k.unread ∙ u) in
          let whole = k.whole ∙ ap (λ q. k.used ++ q) f in
          let clean_a =
            All-append_left IsClean a b
              (All-append_right IsClean k.used (a ++ b) (rw whole at clean)) in
          let c =
            callback_lem a p.input k.held clean_a k.pending
              (bounded k.used a b k.held whole k.last) in
          let m = ok-injective (sym e ∙ ap (stdin_read_cb push p.input) g ∙ c.result) in
          record {
            now_used = a;
            behind = b;
            r = stdin_read_cb push p.input (map bytes a);
            called = c;
            split = f;
            input = ap (λ q. q.0) m;
            unread =
                ap (λ q. q.1 ++ later) m
                ∙ ap (λ q. map bytes c.rest ++ q) h
                ∙ sym (map-append bytes c.rest b);
          }

      pub reads-Intake :
          (p : Program core parts change_cb job_queue signal_queue)
          (now rest later : List ReadResult) (i : Input (List Buffer))
          → p.input.jobs ≡ []
          → p.unread ≡ now ++ later
          → stdin_read_cb push p.input now ≡ ok (i, rest)
          → Intake p
          → Intake (record p { input = i; unread = rest ++ later })
      reads-Intake p now rest later i j u e k =
          let c = returned p now rest later i u e k in
          Called-Intake p (record p { input = i; unread = rest ++ later }) k c.now_used c.behind
            c.called c.split (HoldLines-nil k.lines (rw j at k.waiting))
            (ap (λ q. q.tmp_line_buf) c.input)
            (ap (λ q. q.jobs) c.input ∙ ap (λ q. q ++ c.called.sent) j) c.unread refl

      -- The callback prints nothing.
      pub reads_stdout :
          (p : Program core parts change_cb job_queue signal_queue)
          (now rest later : List ReadResult) (i : Input (List Buffer))
          → p.unread ≡ now ++ later
          → stdin_read_cb push p.input now ≡ ok (i, rest)
          → Intake p
          → i.stdout ≡ p.input.stdout
      reads_stdout p now rest later i u e k =
          ap (λ q. q.stdout) (returned p now rest later i u e k).input
