-- ===== src/Input.antt =====
-- stdin_read_cb of src/core/main.c: what is read from stdin is cut into lines, one job for each.
pub mod Lines
pub mod TakeLine
pub mod Step
pub mod Scan
pub mod Chunk
pub mod Stream
use squid_helper.Base.{
  ◌==◌, leb, length, ◌-◌, ◌∷◌, ◌++◌, ltb, drop, ◌+◌, map, if◌then◌else◌, Option, List, Bool, ℕ,
  zero, suc, true, false, none, some, [], inl, inr, refl,
}
use squid_helper.Memory.{
  codes, load, store, assert, ◌>>=◌, ◌>>◌, malloc, Bytes, Mem, Result, ok, fault, abort,
}
use squid_helper.Buffer.{
  buffer_append_string_len, buffer_init_string, success, buffer_reset, buffer_append_string,
  buffer_init_buffer, made, Update, Buffer,
}

-- STDIN_BUF_CHUNKSIZE
abbrev pub stdin_buf_chunksize : ℕ
stdin_buf_chunksize = 4096

-- What `read(STDIN_FILENO, …)` returns: bytes, 0, or -1 with this `errno`.
pub data ReadResult : Type 0 where
  bytes : Bytes → ReadResult
  eof : ReadResult
  error : (errno : ℕ) → ReadResult

-- The part of `webcontrol_core_ctx` that the callback uses; `jobs` is `job_queue`, whose library the
-- sources only call, and `watching` says that `ev_stdin_watcher` is started, and
-- `stdout` is what the callback printed there.
pub record Input (Q : Type 0) : Type 0 where
  pub tmp_line_buf : Buffer
  pub jobs : Q
  pub watching : Bool
  pub stdout : Bytes

-- The array `readbuf` after the read and `readbuf[bytes] = '\0'`.
abbrev pub filled : Bytes → Mem
filled chunk = map some chunk ++ some 0 ∷ malloc (stdin_buf_chunksize - length chunk - 1)

-- A `char*` into an array.
abbrev pub at : Mem → ℕ → Option Mem
at m i = some (drop i m)

-- The buffer for one line, and the line buffer afterwards.
unfoldable pub take_line : Buffer → Mem → ℕ → Result (Buffer × Buffer)
take_line tmp readbuf line_start =
    if ltb 0 tmp.len
    then (do
      line ← buffer_init_buffer (some tmp)
      u ← buffer_append_string (some line) (at readbuf line_start)
      line' ← made u
      b ← buffer_reset (some tmp)
      tmp' ← made (success, b)
      ok (line', tmp'))
    else (do line ← buffer_init_string (at readbuf line_start); ok (line, tmp))

module _ {Q : Type 0} (queue_enqueue : Q → Buffer → Q) where
  -- The `for` loop and its variables, with the number of rounds that are left. No run uses them up.
  unfoldable pub scan : ℕ → Input Q → Mem → ℕ → ℕ → ℕ → Result (Input Q × Mem × ℕ)
  scan zero w readbuf num line_start i = if ltb i num then fault else ok (w, readbuf, line_start)
  scan (suc rounds) w readbuf num line_start i =
      let same = scan rounds w readbuf num line_start (i + 1) in
      let found = (do
        readbuf' ← store readbuf i 0
        (line, tmp) ← take_line w.tmp_line_buf readbuf' line_start
        scan rounds (record w { tmp_line_buf = tmp; jobs = queue_enqueue w.jobs line }) readbuf' num
            (i + 1) (i + 2)) in
      if ltb i num
      then (do c ← load readbuf i; if c == b'\n' then found else same)
      else ok (w, readbuf, line_start)

  -- What follows the last newline goes to the line buffer; the flag says that the callback reads on.
  unfoldable pub keep_remainder : Input Q → Mem → ℕ → ℕ → Result (Input Q × Bool)
  keep_remainder w readbuf line_start num = do
    c ← load readbuf line_start
    if c == 0
        then (do
          b ← buffer_reset (some w.tmp_line_buf)
          tmp ← made (success, b)
          ok (record w { tmp_line_buf = tmp }, false))
        else (do
          u ←
              buffer_append_string_len (some w.tmp_line_buf) (at readbuf line_start)
                (num - line_start)
          tmp ← made u
          ok (record w { tmp_line_buf = tmp }, true))

  -- The branch `bytes > 0`.
  unfoldable pub on_bytes : Input Q → Bytes → Result (Input Q × Bool)
  on_bytes w chunk = do
    assert (leb (length chunk) (stdin_buf_chunksize - 1))
    (w', readbuf, line_start) ← scan (length chunk) w (filled chunk) (length chunk) 0 0
    keep_remainder w' readbuf line_start (length chunk)

  -- The callback on the reads that are pending; what it leaves is pending at its next call. With no
  -- read pending the descriptor, which does not block, answers EAGAIN.
  unfoldable pub stdin_read_cb : Input Q → List ReadResult → Result (Input Q × List ReadResult)
  stdin_read_cb w [] = ok (w, [])
  stdin_read_cb w (bytes chunk ∷ reads) = do
    (w', more) ← on_bytes w chunk
    elim more [ true ↦ stdin_read_cb w' reads | false ↦ ok (w', reads) ]
  stdin_read_cb w (eof ∷ reads) =
      ok (
        record w { watching = false; stdout = w.stdout ++ codes "GOT 0 BYTES. TERMINATE?\n" },
        reads,
      )
  stdin_read_cb w (error errno ∷ reads) = ok (w, reads)

  -- The event loop: the callback is called again while stdin is watched and a read is pending,
  -- at most `calls` times.
  unfoldable pub serve : ℕ → Input Q → List ReadResult → Result (Input Q)
  serve zero w (r ∷ reads) = fault
  serve calls w [] = ok w
  serve (suc calls) w (r ∷ reads) =
      let next = (do (w', rest) ← stdin_read_cb w (r ∷ reads); serve calls w' rest) in
      if w.watching then next else ok w
