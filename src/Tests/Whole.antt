-- ===== src/Tests/Whole.antt =====
-- The results on the whole program, at the run of one worker and one line.
use squid_helper.Tests.Running.{
  Prog, has_read, was_interrupted, is_joined, gets_read, gets_interrupted, gets_through,
}
use squid_helper.Program.Flow.{callback_returns}
use squid_helper.Program.Single.{one_worker_replies}
use squid_helper.Program.Ends.{program_ends}
use squid_helper.Buffer.Holds.{buffer_init-Holds}
use squid_helper.Program.Replies.{IsStart, whole_input_answered}
use squid_helper.Input.Lines.{split_lines}
use squid_helper.Worker.Jobs.{Answers}
use squid_helper.Tests.Cached.{no_files, one_rule}
use squid_helper.Tests.Store.{one_entry-IsCache, one_entry}
use squid_helper.Tests.{two_addresses}
use squid_helper.Memory.{Bytes}
use squid_helper.Program.Cached.{cached-Willing, cached_sharing, file_change_cb, cached_parts}
use squid_helper.Input.Stream.{IsClean}
use squid_helper.Base.{Perm, refl, inl, map, ◌++◌, ◌≡◌, true, none, ◌∷◌, arith, [], List}
use squid_helper.Tests.OneLine.{request_chunk, no_input, cache_core}
use squid_helper.Tests.Threads.{jobs, signals, list_queue-IsQueue}
use squid_helper.Program.{Run}
use squid_helper.System.{Signal, Job, joined}
use squid_helper.Input.Stream as Stream
use squid_helper.Input.{bytes}

one_chunk-IsClean : IsClean request_chunk
one_chunk-IsClean = record {
  chunked = record { some_bytes = λ e. cc; fits = omega arith; free = ground arith };
  spaced = ground arith;
}

no_input-IsStart :
    IsStart cache_core
      (cached_parts one_entry)
      (file_change_cb one_entry true two_addresses)
      jobs
      signals
      1
      (cached_sharing one_entry one_entry-IsCache none true true two_addresses no_files)
      none
      (request_chunk ∷ [])
      (one_chunk-IsClean, tt)
      tt
      (omega arith)
      (list_queue-IsQueue Job 256)
      no_input
      (none, none, one_rule)
no_input-IsStart = record {
  pending = record { holds = buffer_init-Holds; tight = omega arith };
  empty = refl;
  sound = λ ip. inl refl;
}

ends_after_seven :
    (q : Prog) × Run cache_core
      (cached_parts one_entry)
      (file_change_cb one_entry true two_addresses)
      jobs
      signals
      1
      was_interrupted
      q
    × (q.threads.main ≡ joined)
ends_after_seven =
    program_ends cache_core (cached_parts one_entry) (file_change_cb one_entry true two_addresses)
      jobs signals 1
      (cached_sharing one_entry one_entry-IsCache none true true two_addresses no_files)
      (cached-Willing one_entry one_entry-IsCache none true true two_addresses no_files (λ s. refl))
      none (request_chunk ∷ []) (one_chunk-IsClean, tt) tt (omega arith)
      (list_queue-IsQueue Job 256) (list_queue-IsQueue Signal 8) no_input (none, none, one_rule)
      no_input-IsStart gets_interrupted (omega arith) (omega arith) (omega arith) refl (omega arith)

answered_seven :
    (used : List Bytes) × (left : List Bytes) × (replies : List Bytes) × (request_chunk ∷ []
      ≡ used ++ left)
    × (is_joined.unread ≡ map bytes left)
    × (is_joined.input.stdout ≡ no_input.stdout ++ Stream.joined replies)
    × Answers 45 is_joined.threads.answered replies
    × Perm is_joined.threads.answered (split_lines [] (Stream.joined used)).0
answered_seven =
    whole_input_answered cache_core (cached_parts one_entry)
      (file_change_cb one_entry true two_addresses) jobs signals 1
      (cached_sharing one_entry one_entry-IsCache none true true two_addresses no_files) none
      (request_chunk ∷ []) (one_chunk-IsClean, tt) tt (omega arith) (list_queue-IsQueue Job 256)
      no_input (none, none, one_rule) no_input-IsStart gets_through refl (omega arith)

replies_seven :
    (used : List Bytes) × (left : List Bytes) × (replies : List Bytes) × (request_chunk ∷ []
      ≡ used ++ left)
    × (is_joined.unread ≡ map bytes left)
    × (is_joined.input.stdout ≡ no_input.stdout ++ Stream.joined replies)
    × Answers 45 (split_lines [] (Stream.joined used)).0 replies
replies_seven =
    one_worker_replies cache_core (cached_parts one_entry)
      (file_change_cb one_entry true two_addresses) jobs signals
      (cached_sharing one_entry one_entry-IsCache none true true two_addresses no_files) none
      (request_chunk ∷ []) (one_chunk-IsClean, tt) tt (omega arith) (list_queue-IsQueue Job 256)
      no_input (none, none, one_rule) no_input-IsStart gets_through refl (omega arith)

enters_seven :
    (q : Prog) × Run cache_core
      (cached_parts one_entry)
      (file_change_cb one_entry true two_addresses)
      jobs
      signals
      1
      has_read
      q
    × (q.input.jobs ≡ [])
enters_seven =
    callback_returns cache_core (cached_parts one_entry)
      (file_change_cb one_entry true two_addresses) jobs signals 1
      (cached_sharing one_entry one_entry-IsCache none true true two_addresses no_files)
      (cached-Willing one_entry one_entry-IsCache none true true two_addresses no_files (λ s. refl))
      none (request_chunk ∷ []) (one_chunk-IsClean, tt) tt (omega arith)
      (list_queue-IsQueue Job 256) (list_queue-IsQueue Signal 8) no_input (none, none, one_rule)
      no_input-IsStart gets_read (omega arith) (omega arith) (omega arith) (omega arith)
