-- ===== src/Input/Stream.antt =====
-- The whole input, read in chunks of any sizes and by any number of calls of the callback.
use squid_helper.Input.TakeLine.{half_size}
use squid_helper.Buffer.Holds.{Pending, text}
use squid_helper.Input.Lines.{
  split_chunk-eq-split_lines, IsSpaced, length-split_lines, HoldLines-append, split_lines-append,
  enqueue_all-append, split_lines, HoldLines, enqueue_all,
}
use squid_helper.Input.Chunk.{on_bytes_lem, IsChunk, Consumed}
use squid_helper.Input.{bytes, on_bytes, ReadResult, stdin_read_cb, serve, Input}
use squid_helper.Base.{
  length-map, Bool-cases, sym, ap, ◌∙◌, length-append, arith, map, ◌<◌, ◌+◌, if◌then◌else◌, All,
  ◌≤◌, ◌++◌, length, ◌≡◌, ◌∷◌, Option, Bool, List, ℕ, zero, suc, true, false, [], inl, inr, refl,
}
use squid_helper.Memory.{◌>>=◌, Result, Bytes, ok}
use squid_helper.Buffer.{Buffer}

abbrev pub joined : List Bytes → Bytes
joined [] = []
joined (c ∷ cs) = c ++ joined cs

-- The lines of all the input are enqueued in order, and the line buffer holds what follows them.
pub record Served {Q : Type 0} (enqueue : Q → Buffer → Q) (w : Input Q) (spec : List Bytes × Bytes)
    (r : Result (Input Q)) : Type 0 where
  pub out : Buffer
  pub sent : List Buffer
  pub held : Option Bytes
  pub result : r ≡ ok (record w { tmp_line_buf = out; jobs = enqueue_all enqueue w.jobs sent })
  pub lines : HoldLines sent spec.0
  pub pending : Pending out held
  pub last : text held ≡ spec.1

-- A chunk with no empty line inside it.
pub record IsClean (chunk : Bytes) : Type 0 where
  pub chunked : IsChunk chunk
  pub spaced : IsSpaced chunk

module _ {Q : Type 0} (enqueue : Q → Buffer → Q) where
  pub on_bytes_split :
      (w : Input Q) (chunk : Bytes) (o : Option Bytes)
      → IsClean chunk
      → Pending w.tmp_line_buf o
      → length (text o) + length chunk < half_size
      → Consumed enqueue w (split_lines (text o) chunk) (on_bytes enqueue w chunk)
  on_bytes_split w chunk o k p f =
      rw (← split_chunk-eq-split_lines (text o) chunk k.spaced)
        (on_bytes_lem enqueue w chunk o k.chunked p f)

  -- One call of the callback, and the event loop after it.
  round : ℕ → Input Q → List ReadResult → Result (Input Q)
  round calls w reads = do (w', rest) ← stdin_read_cb enqueue w reads; serve enqueue calls w' rest

  serve_none : (calls : ℕ) (w : Input Q) → serve enqueue calls w [] ≡ ok w
  unfolding serve
  serve_none zero w = refl
  serve_none (suc calls) w = refl

  serve_some :
      (calls : ℕ) (w : Input Q) (r : ReadResult) (reads : List ReadResult)
      → w.watching ≡ true
      → serve enqueue (suc calls) w (r ∷ reads) ≡ round calls w (r ∷ reads)
  unfolding serve round
  serve_some calls w r reads h = rw h

  -- After a chunk the same call reads on, or the loop calls again.
  round_bytes :
      (calls : ℕ) (w w' : Input Q) (more : Bool) (c : Bytes) (reads : List ReadResult)
      → on_bytes enqueue w c ≡ ok (w', more)
      → round calls w (bytes c ∷ reads)
        ≡ (if more then round calls w' reads else serve enqueue calls w' reads)
  unfolding round stdin_read_cb
  round_bytes calls w w' true c reads e = rw e
  round_bytes calls w w' false c reads e = rw e

  Served-cons :
      (w : Input Q) (p c rest : Bytes) (r : Result (Input Q)) (r' : Result (Input Q × Bool))
      → (k : Consumed enqueue w (split_lines p c) r')
      → Served enqueue
          (record w { tmp_line_buf = k.out; jobs = enqueue_all enqueue w.jobs k.sent })
          (split_lines (text k.held) rest)
          r
      → Served enqueue w (split_lines p (c ++ rest)) r
  Served-cons w p c rest r r' k s = record {
    out = s.out;
    sent = k.sent ++ s.sent;
    held = s.held;
    result = rw (enqueue_all-append enqueue w.jobs k.sent s.sent) s.result;
    lines =
        rw (split_lines-append p c rest, ← k.last)
          (HoldLines-append k.sent s.sent _ _ k.lines s.lines);
    pending = s.pending;
    last = rw (split_lines-append p c rest, ← k.last) s.last;
  }

  -- The loop after a chunk is the loop from a later round, if one more call is left.
  serve-round :
      (calls : ℕ) (w : Input Q) (reads : List ReadResult)
      → w.watching ≡ true
      → length reads < calls
      → (c : ℕ) × (calls ≡ suc c) × (serve enqueue calls w reads ≡ round c w reads)
  unfolding round stdin_read_cb
  serve-round zero w reads h l = absurd (omega arith)
  serve-round (suc calls) w [] h l =
      (calls, refl, serve_none (suc calls) w ∙ sym (serve_none calls w))
  serve-round (suc calls) w (r ∷ reads) h l = (calls, refl, serve_some calls w r reads h)

  round_lem :
      (chunks : List Bytes) (calls : ℕ) (w : Input Q) (o : Option Bytes)
      → length chunks ≤ calls
      → w.watching ≡ true
      → All IsClean chunks
      → Pending w.tmp_line_buf o
      → length (text o) + length (joined chunks) < half_size
      → Served enqueue w (split_lines (text o) (joined chunks)) (round calls w (map bytes chunks))
  unfolding round stdin_read_cb
  round_lem [] calls w o n h k p f = record {
    out = w.tmp_line_buf;
    sent = [];
    held = o;
    result = serve_none calls w;
    lines = tt;
    pending = p;
    last = refl;
  }
  round_lem (c ∷ cs) calls w o n h k p f =
      let l = length-append c (joined cs) in
      let e = on_bytes_split w c o k.0 p (omega arith) in
      let w' : Input Q = record w {
        tmp_line_buf = e.out;
        jobs = enqueue_all enqueue w.jobs e.sent;
      } in
      let g : length (text e.held) + length (joined cs) < half_size =
        omega (arith, ap length e.last, length-split_lines (text o) c) in
      Served-cons w (text o) c (joined cs) _ _ e (elim (Bool-cases e.more) [
        | inl m ↦
            rw (round_bytes calls w w' true c (map bytes cs) (rw m at e.result))
              (round_lem cs calls w' e.held (omega arith) h k.1 e.pending g)
        | inr m ↦
            let (j, q, r) =
              serve-round calls w' (map bytes cs) h (omega (arith, length-map bytes cs)) in
            rw (round_bytes calls w w' false c (map bytes cs) (rw m at e.result), r)
              (round_lem cs j w' e.held (omega arith) h k.1 e.pending g)
      ])

  -- Let every chunk be non-empty, shorter than the array, free of NUL bytes and without two
  -- newlines side by side, let the line buffer hold what is pending, and let that and the chunks
  -- be below 2^62 bytes together. Then the event loop, with more calls left than there are chunks
  -- and stdin watched, handles them all with no fault: it enqueues the lines of the whole input in
  -- order, each in a buffer of its own, wherever the chunks begin and end, and leaves what follows
  -- the last newline in the line buffer, pending as before.
  pub serve_lem :
      (chunks : List Bytes) (calls : ℕ) (w : Input Q) (o : Option Bytes)
      → length chunks < calls
      → w.watching ≡ true
      → All IsClean chunks
      → Pending w.tmp_line_buf o
      → length (text o) + length (joined chunks) < half_size
      → Served enqueue w
          (split_lines (text o) (joined chunks))
          (serve enqueue calls w (map bytes chunks))
  serve_lem chunks calls w o n h k p f =
      let (j, q, r) =
        serve-round calls w (map bytes chunks) h (omega (arith, length-map bytes chunks)) in
      rw r (round_lem chunks j w o (omega arith) h k p f)
