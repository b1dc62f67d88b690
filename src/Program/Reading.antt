-- ===== src/Program/Reading.antt =====
-- stdin_read_cb of src/core/main.c among the other threads: what was read, and what is enqueued of it.
use squid_helper.Input.Stream.{on_bytes_split, IsClean, joined}
use squid_helper.Input.Lines.{
  HoldLines, HoldLines-append, enqueue_all, length-split_lines, split_lines, split_lines-append,
}
use squid_helper.Input.TakeLine.{half_size}
use squid_helper.Input.{Input, ReadResult, bytes, stdin_read_cb}
use squid_helper.Buffer.Holds.{Pending, text}
use squid_helper.Buffer.{Buffer}
use squid_helper.Memory.Laws.{IsNulFree}
use squid_helper.Memory.{Bytes, Result, ok}
use squid_helper.Program.{push}
use squid_helper.Base.{
  ◌+◌, ◌≡◌, ◌<◌, refl, sym, ap, ◌∙◌, List, [], ◌∷◌, ◌++◌, Option, Bool, true, false, All,
  All-append, map, length, length-append, append_assoc, append-nil, arith, Bool-cases, inl, inr,
  ◌==◌,
}

enqueue_all-push : (jobs sent : List Buffer) → enqueue_all push jobs sent ≡ jobs ++ sent
enqueue_all-push jobs [] = sym (append-nil jobs)
enqueue_all-push jobs (b ∷ sent) =
    enqueue_all-push (jobs ++ b ∷ []) sent ∙ append_assoc jobs (b ∷ []) sent

pub joined-append : (a b : List Bytes) → joined (a ++ b) ≡ joined a ++ joined b
joined-append [] b = refl
joined-append (c ∷ a) b =
    ap (λ q. c ++ q) (joined-append a b) ∙ sym (append_assoc c (joined a) (joined b))

-- One call of the callback: it has used the reads up to some chunk, and found their lines.
pub record Called (w : Input (List Buffer)) (cur : Bytes) (chunks : List Bytes)
    (r : Result (Input (List Buffer) × List ReadResult)) : Type 0 where
  pub used : List Bytes
  pub rest : List Bytes
  pub whole : chunks ≡ used ++ rest
  pub out : Buffer
  pub sent : List Buffer
  pub held : Option Bytes
  pub result : r ≡ ok (record w { tmp_line_buf = out; jobs = w.jobs ++ sent }, map bytes rest)
  pub lines : HoldLines sent (split_lines cur (joined used)).0
  pub pending : Pending out held
  pub last : text held ≡ (split_lines cur (joined used)).1

-- The callback returns behind what it has used.
Called-stop :
    (w : Input (List Buffer)) (o : Option Bytes) (chunks : List Bytes)
    → Pending w.tmp_line_buf o
    → Called w (text o) chunks (ok (w, map bytes chunks))
Called-stop w o chunks p = record {
  used = [];
  rest = chunks;
  whole = refl;
  out = w.tmp_line_buf;
  sent = [];
  held = o;
  result = ap (λ q. ok (record w { jobs = q }, map bytes chunks)) (sym (append-nil w.jobs));
  lines = tt;
  pending = p;
  last = refl;
}

Called-cons :
    (w : Input (List Buffer)) (out : Buffer) (sent : List Buffer) (cur cur' c : Bytes)
    (cs : List Bytes) (r : Result (Input (List Buffer) × List ReadResult))
    → cur' ≡ (split_lines cur c).1
    → HoldLines sent (split_lines cur c).0
    → Called (record w { tmp_line_buf = out; jobs = w.jobs ++ sent }) cur' cs r
    → Called w cur (c ∷ cs) r
Called-cons w out sent cur cur' c cs r e h k = record {
  used = c ∷ k.used;
  rest = k.rest;
  whole = ap (λ q. c ∷ q) k.whole;
  out = k.out;
  sent = sent ++ k.sent;
  held = k.held;
  result =
      k.result
      ∙ ap (λ q. ok (record w { tmp_line_buf = k.out; jobs = q }, map bytes k.rest))
          (append_assoc w.jobs sent k.sent);
  lines =
      rw (split_lines-append cur c (joined k.used), sym e)
        (HoldLines-append sent k.sent _ _ h k.lines);
  pending = k.pending;
  last = rw (split_lines-append cur c (joined k.used), sym e) k.last;
}

pub callback_lem :
    (chunks : List Bytes) (w : Input (List Buffer)) (o : Option Bytes)
    → All IsClean chunks
    → Pending w.tmp_line_buf o
    → length (text o) + length (joined chunks) < half_size
    → Called w (text o) chunks (stdin_read_cb push w (map bytes chunks))
unfolding stdin_read_cb
callback_lem [] w o h p f = Called-stop w o [] p
callback_lem (c ∷ cs) w o h p f =
    let l = length-append c (joined cs) in
    let e = on_bytes_split push w c o h.0 p (omega arith) in
    let jobs = enqueue_all-push w.jobs e.sent in
    let w' : Input (List Buffer) = record w { tmp_line_buf = e.out; jobs = w.jobs ++ e.sent } in
    let read = λ (more : Bool) (m : e.more ≡ more).
      e.result
      ∙ ap (λ (q : List Buffer × Bool). ok (record w { tmp_line_buf = e.out; jobs = q.0 }, q.1))
          (λ i. (jobs i, m i)) in
    elim (Bool-cases e.more) [
      | inl m ↦ rw (read true m) (
          Called-cons w e.out e.sent (text o) (text e.held) c cs _ e.last e.lines (
            callback_lem cs w' e.held h.1 e.pending
              (omega (arith, ap length e.last, length-split_lines (text o) c))))
      | inr m ↦ rw (read false m) (
          Called-cons w e.out e.sent (text o) (text e.held) c cs _ e.last e.lines
            (Called-stop w' e.held cs e.pending))
    ]

-- No line has a NUL if what was read has none.
pub split_lines-IsNulFree :
    (cur rest : Bytes)
    → IsNulFree cur
    → IsNulFree rest
    → All IsNulFree (split_lines cur rest).0 × IsNulFree (split_lines cur rest).1
split_lines-IsNulFree cur [] h k = (tt, h)
split_lines-IsNulFree cur (c ∷ rest) h k = elim (Bool-cases (c == b'\n')) [
  | inl e ↦ let (a, b) = split_lines-IsNulFree [] rest tt k.1 in rw e ((h, a), b)
  | inr e ↦
      rw e (split_lines-IsNulFree (cur ++ c ∷ []) rest (All-append _ cur (c ∷ []) h (k.0, tt)) k.1)
]
