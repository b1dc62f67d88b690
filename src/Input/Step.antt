-- ===== src/Input/Step.antt =====
-- One round of the loop over a chunk, and its end.
use squid_helper.Input.TakeLine.{Taken}
use squid_helper.Input.Lines.{split_chunk, HoldLines, enqueue_all}
use squid_helper.Memory.Laws.{store_text, load_text, IsNulFree}
use squid_helper.Buffer.Holds.{Pending, text, stored}
use squid_helper.Input.{scan, Input, take_line}
use squid_helper.Base.{
  ◌∙◌, sym, map-append, ap, drop-append, ==_of_ne, lt→ltb, append_assoc, ◌∷◌, le→ltb, ◌≤◌, ◌≢◌, map,
  List, arith, ◌++◌, ◌<◌, ◌+◌, length, ◌≡◌, drop, Option, ℕ, zero, suc, some, [], refl,
}
use squid_helper.Memory.{Result, Bytes, Mem, ok}
use squid_helper.Buffer.{Buffer}

-- What the loop has done when it ends: the lines `spec.0` are enqueued, and `spec.1` is what the
-- line buffer and the rest of the array hold together.
pub record Scanned {Q : Type 0} (enqueue : Q → Buffer → Q) (w : Input Q) (num : ℕ)
    (spec : List Bytes × Bytes) (r : Result (Input Q × Mem × ℕ)) : Type 0 where
  pub out : Buffer
  pub readbuf : Mem
  pub start : ℕ
  pub sent : List Buffer
  pub held : Option Bytes
  pub tail : Bytes
  pub junk : Mem
  pub result :
      r
      ≡ ok (record w { tmp_line_buf = out; jobs = enqueue_all enqueue w.jobs sent }, readbuf, start)
  pub left : drop start readbuf ≡ stored tail junk
  pub ends : start + length tail ≡ num
  pub lines : HoldLines sent spec.0
  pub pending : Pending out held
  pub whole : text held ++ tail ≡ spec.1
  pub kept : tail ≡ [] → text held ≡ []
  pub free : IsNulFree tail

module _ {Q : Type 0} (enqueue : Q → Buffer → Q) (num : ℕ) where
  scan_done :
      (rounds : ℕ) (w : Input Q) (readbuf : Mem) (start i : ℕ)
      → num ≤ i
      → scan enqueue rounds w readbuf num start i ≡ ok (w, readbuf, start)
  unfolding scan
  scan_done zero w readbuf start i h = rw (le→ltb i num h)
  scan_done (suc rounds) w readbuf start i h = rw (le→ltb i num h)

  -- One round at a byte that ends no line.
  scan_same :
      (rounds : ℕ) (w : Input Q) (pre : Mem) (cur : Bytes) (c : ℕ) (rest : Mem) (start i : ℕ)
      → i < num
      → i ≡ length pre + length cur
      → c ≢ b'\n'
      → let readbuf = pre ++ (map some cur ++ some c ∷ rest) in
        scan enqueue (suc rounds) w readbuf num start i
        ≡ scan enqueue rounds w readbuf num start (i + 1)
  unfolding scan
  scan_same rounds w pre cur c rest start i h e n =
      rw (lt→ltb i num h, load_text pre cur c rest i e, ==_of_ne c b'\n' n)

  -- One round at a newline.
  scan_found :
      (rounds : ℕ) (w : Input Q) (pre : Mem) (cur : Bytes) (rest : Mem) (start i : ℕ)
      (line tmp : Buffer)
      → i < num
      → i ≡ length pre + length cur
      → take_line w.tmp_line_buf (pre ++ stored cur rest) start ≡ ok (line, tmp)
      → scan enqueue (suc rounds) w (pre ++ (map some cur ++ some b'\n' ∷ rest)) num start i
        ≡ scan enqueue rounds
            (record w { tmp_line_buf = tmp; jobs = enqueue w.jobs line })
            (pre ++ stored cur rest)
            num
            (i + 1)
            (i + 2)
  unfolding scan
  scan_found rounds w pre cur rest start i line tmp h e t = rw (
    lt→ltb i num h,
    load_text pre cur b'\n' rest i e,
    store_text pre cur (some b'\n') 0 rest i e,
    t,
  )

  -- The loop past the last byte: `cur` is left.
  pub scan_end :
      (rounds : ℕ) (w : Input Q) (o : Option Bytes) (pre : Mem) (cur : Bytes) (junk : Mem)
      (start i : ℕ)
      → start ≡ length pre
      → num ≤ i
      → num ≡ start + length cur
      → Pending w.tmp_line_buf o
      → IsNulFree cur
      → (cur ≡ [] → text o ≡ [])
      → Scanned enqueue w num
          (split_chunk (text o ++ cur) [])
          (scan enqueue rounds w (pre ++ stored cur junk) num start i)
  scan_end rounds w o pre cur junk start i hs hi hn p z em = record {
    out = w.tmp_line_buf;
    readbuf = pre ++ stored cur junk;
    start = start;
    sent = [];
    held = o;
    tail = cur;
    junk = junk;
    result = scan_done rounds w _ start i hi;
    left = drop-append pre _ start hs;
    ends = omega arith;
    lines = tt;
    pending = p;
    whole = refl;
    kept = em;
    free = z;
  }

  stored_cons :
      (cur : Bytes) (c : ℕ) (rest : Bytes) (junk : Mem)
      → stored (cur ++ c ∷ rest) junk ≡ map some cur ++ some c ∷ stored rest junk
  stored_cons cur c rest junk =
      rw (map-append some cur (c ∷ rest))
        (append_assoc (map some cur) (some c ∷ map some rest) (some 0 ∷ junk))

  split_same :
      (cur : Bytes) (c : ℕ) (rest : Bytes)
      → c ≢ b'\n'
      → split_chunk cur (c ∷ rest) ≡ split_chunk (cur ++ c ∷ []) rest
  split_same cur c [] n = rw (==_of_ne c b'\n' n)
  split_same cur c (d ∷ rest) n = rw (==_of_ne c b'\n' n)

  pub step_same :
      (rest : Bytes) (rounds : ℕ) (w : Input Q) (p : Bytes) (pre : Mem) (cur : Bytes) (c : ℕ)
      (junk : Mem) (start i : ℕ)
      → i < num
      → i ≡ length pre + length cur
      → c ≢ b'\n'
      → Scanned enqueue w num
          (split_chunk (p ++ (cur ++ c ∷ [])) rest)
          (scan enqueue rounds w (pre ++ stored ((cur ++ c ∷ []) ++ rest) junk) num start (i + 1))
      → Scanned enqueue w num
          (split_chunk (p ++ cur) (c ∷ rest))
          (scan enqueue (suc rounds) w (pre ++ stored (cur ++ c ∷ rest) junk) num start i)
  step_same rest rounds w p pre cur c junk start i h e n ih =
      rw
        (
          split_same (p ++ cur) c rest n,
          stored_cons cur c rest junk,
          scan_same rounds w pre cur c (stored rest junk) start i h e n,
          append_assoc p cur (c ∷ []),
        )
        (rw (append_assoc cur (c ∷ []) rest, stored_cons cur c rest junk) at ih)

  pub step_found :
      (rest : Bytes) (spec : List Bytes × Bytes) (rounds : ℕ) (w : Input Q) (t : Bytes) (pre : Mem)
      (cur : Bytes) (junk : Mem) (start i : ℕ)
      → i < num
      → i ≡ length pre + length cur
      → (k : Taken (take_line w.tmp_line_buf (pre ++ stored cur (stored rest junk)) start) t)
      → Scanned enqueue
          (record w { tmp_line_buf = k.tmp; jobs = enqueue w.jobs k.line })
          num
          spec
          (scan enqueue rounds
            (record w { tmp_line_buf = k.tmp; jobs = enqueue w.jobs k.line })
            (pre ++ stored cur (stored rest junk))
            num
            (i + 1)
            (i + 2))
      → Scanned enqueue w num
          (t ∷ spec.0, spec.1)
          (scan enqueue (suc rounds) w (pre ++ stored (cur ++ b'\n' ∷ rest) junk) num start i)
  step_found rest spec rounds w t pre cur junk start i h e k ih = record {
    out = ih.out;
    readbuf = ih.readbuf;
    start = ih.start;
    sent = k.line ∷ ih.sent;
    held = ih.held;
    tail = ih.tail;
    junk = ih.junk;
    result =
        rw
          (
            stored_cons cur b'\n' rest junk,
            scan_found rounds w pre cur (stored rest junk) start i k.line k.tmp h e k.result,
          )
          ih.result;
    left = ih.left;
    ends = ih.ends;
    lines = (k.holds, ih.lines);
    pending = ih.pending;
    whole = ih.whole;
    kept = ih.kept;
    free = ih.free;
  }

  -- What stands before the next line.
  pub shifted :
      (pre : Mem) (cur : Bytes) (x : Mem) → pre ++ stored cur x ≡ (pre ++ stored cur []) ++ x
  shifted pre cur x = sym (
      append_assoc pre (stored cur []) x
      ∙ ap (λ q. pre ++ q) (append_assoc (map some cur) (some 0 ∷ []) x))
