-- ===== src/Tests/Running.antt =====
-- A run of the whole program: one worker with the cache and the hosts file, and one line.
use squid_helper.Tests.Cached.{one_rule}
use squid_helper.Txtfile.{txtfile_plugin_init}
use squid_helper.Tests.Store.{ready, one_entry}
use squid_helper.Tests.{two_addresses, piece}
use squid_helper.Scanf.{c_string}
use squid_helper.Memory.{ok}
use squid_helper.Memcached.{memcached_tls_key_free, thread_init, memcached_plugin_init}
use squid_helper.Worker.{init_thread, call_hooks}
use squid_helper.Program.Cached.{file_change_cb, cached_parts}
use squid_helper.Plugins.{string_of}
use squid_helper.Base.{refl, map, ◌≡◌, true, none, ◌∷◌, some, false, []}
use squid_helper.Tests.OneLine.{
  request_chunk, no_input, one_line, read_one_line, cache_core, line_seven, served, serve_seven,
}
use squid_helper.Tests.Threads.{jobs, signals}
use squid_helper.Program.{
  at_start, onward, ends, set_own, stands, reads, enters, boot, answers, Run, Move, Program, starts,
}
use squid_helper.System.{
  take_null, all_put, put_null, all_joined, worker_terminate, serving, leave, stopping, starting,
  notifying, launch, interrupt, ended, busy, sigint_cb, joining, joined, idle, take_line, finish,
}
use squid_helper.Input.{bytes}

-- The steps of the run, from `boot` to the end of `main`.
abbrev pub Prog : Type 0
Prog =
    Program cache_core (cached_parts one_entry) (file_change_cb one_entry true two_addresses) jobs
      signals

abbrev GoesTo : Prog → Prog → Type 0
GoesTo p q =
    Move cache_core (cached_parts one_entry) (file_change_cb one_entry true two_addresses) jobs
      signals 1 p q

abbrev unstarted : Prog
unstarted = record {
  threads = record {
    jobs = [];
    signals = [];
    workers = starting ∷ [];
    main = serving;
    looping = true;
    async = false;
    active_workers = 1;
    entered = [];
    answered = [];
  };
  input = no_input;
  unread = bytes request_chunk ∷ [];
  shared = (none, none, one_rule);
  own = λ i. false;
}

abbrev started : Prog
started = record unstarted {
  threads = record unstarted.threads { workers = idle ∷ [] };
  own = set_own 0 true unstarted.own;
}

to_started : GoesTo unstarted started
unfolding init_thread memcached_plugin_init txtfile_plugin_init thread_init
to_started = starts [] [] (ready, one_rule) refl refl

abbrev pub has_read : Prog
has_read = record started { input = one_line; unread = [] }

to_read : GoesTo started has_read
to_read = reads (bytes request_chunk ∷ []) [] [] one_line refl refl refl refl refl read_one_line

abbrev has_entered : Prog
has_entered = record has_read {
  threads = record has_read.threads { jobs = some line_seven ∷ []; entered = line_seven ∷ [] };
  input = no_input;
}

piece_of-line_seven : string_of (piece line_seven) ≡ ok line_seven
unfolding string_of c_string
piece_of-line_seven = refl

to_entered : GoesTo has_read has_entered
to_entered =
    enters (piece line_seven) [] line_seven (some line_seven ∷ []) refl refl refl
      piece_of-line_seven refl

abbrev has_taken : Prog
has_taken = record has_entered {
  threads = record has_entered.threads { jobs = []; workers = busy line_seven ∷ [] };
}

to_taken : GoesTo has_entered has_taken
to_taken = stands (take_line [] [] line_seven [] refl refl) tt

abbrev has_answered : Prog
has_answered = record has_taken {
  threads = record has_taken.threads { workers = idle ∷ []; answered = line_seven ∷ [] };
  input = record no_input { stdout = served.stdout };
  shared = (none, served.state.0.store, one_rule);
  own = set_own 0 true has_taken.own;
}

to_answer : GoesTo has_taken has_answered
to_answer = answers [] [] line_seven [] served refl serve_seven

abbrev has_left : Prog
has_left = record has_answered {
  threads = record has_answered.threads { looping = false; main = stopping 1 };
}

abbrev pub was_interrupted : Prog
was_interrupted = record has_answered { threads = record has_answered.threads { looping = false } }

to_left : GoesTo has_answered was_interrupted × GoesTo was_interrupted has_left
unfolding sigint_cb
to_left = (stands (interrupt refl refl) refl, stands (leave refl refl) refl)

pub gets_read :
    Run cache_core
      (cached_parts one_entry)
      (file_change_cb one_entry true two_addresses)
      jobs
      signals
      1
      (boot cache_core
        (cached_parts one_entry)
        (file_change_cb one_entry true two_addresses)
        jobs
        signals
        1
        no_input
        (map bytes (request_chunk ∷ []))
        (none, none, one_rule))
      has_read
unfolding boot launch
gets_read = onward (onward at_start to_started) to_read

pub gets_interrupted :
    Run cache_core
      (cached_parts one_entry)
      (file_change_cb one_entry true two_addresses)
      jobs
      signals
      1
      (boot cache_core
        (cached_parts one_entry)
        (file_change_cb one_entry true two_addresses)
        jobs
        signals
        1
        no_input
        (map bytes (request_chunk ∷ []))
        (none, none, one_rule))
      was_interrupted
unfolding boot launch
gets_interrupted =
    onward
      (onward (onward (onward (onward (onward at_start to_started) to_read) to_entered) to_taken)
        to_answer)
      to_left.0

abbrev is_ending : Prog
is_ending = record has_left {
  threads = record has_left.threads {
    main = joining;
    workers = notifying true ∷ [];
    signals = worker_terminate ∷ [];
  };
}

runs_on :
    Run cache_core
      (cached_parts one_entry)
      (file_change_cb one_entry true two_addresses)
      jobs
      signals
      1
      unstarted
      has_left
    → Run cache_core
        (cached_parts one_entry)
        (file_change_cb one_entry true two_addresses)
        jobs
        signals
        1
        unstarted
        is_ending
runs_on r =
    onward
      (onward
        (onward (onward r (stands (put_null 0 (none ∷ []) refl refl) tt))
          (stands (all_put refl) tt))
        (stands (take_null [] [] [] refl refl) tt))
      (stands (finish [] [] true (worker_terminate ∷ []) refl refl) tt)

abbrev pub is_joined : Prog
is_joined = record is_ending {
  threads = record is_ending.threads { main = joined; workers = ended true ∷ []; async = true };
  own = set_own 0 false is_ending.own;
}

to_joined :
    GoesTo is_ending (record is_joined { threads = record is_joined.threads { main = joining } })
    × GoesTo (record is_joined { threads = record is_joined.threads { main = joining } }) is_joined
unfolding memcached_tls_key_free call_hooks memcached_plugin_init txtfile_plugin_init
to_joined = (ends [] [] true served.state refl refl, stands (all_joined refl (tt, tt)) tt)

pub gets_through :
    Run cache_core
      (cached_parts one_entry)
      (file_change_cb one_entry true two_addresses)
      jobs
      signals
      1
      (boot cache_core
        (cached_parts one_entry)
        (file_change_cb one_entry true two_addresses)
        jobs
        signals
        1
        no_input
        (map bytes (request_chunk ∷ []))
        (none, none, one_rule))
      is_joined
unfolding boot launch
gets_through = onward (onward (runs_on (onward gets_interrupted to_left.1)) to_joined.0) to_joined.1
