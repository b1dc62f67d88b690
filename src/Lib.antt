-- ===== src/Lib.antt =====
-- squidHelper: an external ACL helper for the Squid proxy, written in C. Squid writes request lines
-- "channel address" to its stdin and reads replies "channel OK" or "channel ERR log=..." from its
-- stdout.
--
-- The parts of the program, and the files here that model them:
-- - src/core/webcontrol_buffer.c, the string buffer that everything else is built on: Buffer, with
--   Buffer/Holds (what a buffer stands for), Buffer/Grow, Buffer/Copy and Buffer/Append. One
--   function for each of the source's, by the same name. Memory models the blocks of bytes beneath
--   it: a pointer is the rest of its block, and a read of a byte that was never written, an access
--   outside a block or through NULL is the result `fault`, a failed `assert` the result `abort`.
-- - src/core/main.c, `stdin_read_cb`: Input, with Input/Lines (what lines are), Input/TakeLine,
--   Input/Step and Input/Scan (one line, one round and the whole loop over one chunk), Input/Chunk
--   (one read) and Input/Stream (the whole input). It cuts what stdin gives into lines and enqueues
--   a buffer for each.
-- - src/core/main.c, `worker` and `send_response`: Worker, with Worker/Consult (which plugin
--   decides), Worker/Respond (one line and its reply) and Worker/Jobs (the loop over the queue).
--   Worker/Reply says what a reply is for its reader, a number in decimal, a status and a message,
--   Worker/Heed what is read from a line that Squid sends, and Worker/Address which text is an
--   address. Worker/Contract says what the plugins owe to the worker and what it gives to them;
--   the worker's results take it, and a plugin's theorems fill it. Scanf has the conversions of `sscanf` and `fprintf` that it uses, as glibc does them where
--   a number does not fit. A plugin is a record of hooks on a state that the plugins share (Types).
-- - src/plugins/mod_txtfile/webcontrol_txtfile.c: Txtfile, with Txtfile/Line, Txtfile/File,
--   Txtfile/Verdict (what the lines of a file say of an address) and, for the worker with this
--   plugin, Txtfile/Answer. Strtok has `strtok_r` and `strcmp`. The configuration hook reads the
--   hosts file into a chain, and the request hook looks an address up in it.
-- - src/plugins/mod_memcached/webcontrol_memcached.c: Memcached, with Memcached/Key and
--   Memcached/Coherence. The post hook stores a decision, the request hook recalls it.
-- - The worker with both of these plugins: Combined, whose state is the pair of theirs, with
--   Combined/Agree (what the cache may hold), Combined/Lookup (one request), Combined/Transparent
--   and Combined/Contract (the contract of the worker, kept).
-- - src/core/webcontrol_plugin.c: Plugins, with Plugins/Text, Plugins/Names and Plugins/Load. It
--   opens the plugins that a list of names gives, before the worker and the configuration use them.
-- - src/core/main.c, `main` from `pthread_create` on, `sigint_cb`, `thread_sig_cb` and where
--   `worker` waits: System, the state that the threads share, with one constructor of `Step` for
--   each thing that one thread does at a time, and `Reach` for every order of them. System/Phases
--   counts the workers, System/Wake has `thread_sig_cb`, System/Event its event, System/Account
--   what `active_workers` counts, System/Order how the NULLs stand behind the lines,
--   System/Conserve what becomes of the lines, System/Single their order with one worker,
--   System/Shutdown, System/Seen and System/Progress the end, System/Flow how a full job queue gets
--   room, and System/Hang the case where the end does not come.
-- - src/core/main.c, `init_config`: Config, with Config/Collect (the array of options) and
--   Config/Outcome (what is made of the file). It runs once the plugins are loaded.
-- - src/core/main.c, `main` up to there and behind `pthread_join`: Startup, with Startup/Launch
--   and, for the cleanup of the plugins, Startup/Unload.
-- - src/plugins/mod_activedirectory/webcontrol_activedirectory.c: ActiveDirectory, with
--   ActiveDirectory/Filter, ActiveDirectory/Lookup and ActiveDirectory/Open. It asks a directory
--   about the name of the host, which Netutil, for src/core/webcontrol_netutil.c, gets from the
--   address.
-- - src/core/main.c as a whole: Program, whose `Move` joins a step of `stdin_read_cb`, of a worker
--   with its plugins, of the callback of a plugin, or of System's. Program/Reading, Program/Intake
--   and Program/Entered follow what is read and enqueued, Program/Owners and Program/Standing the
--   plugins' state, which threads share but for the values of their keys, Program/Replied and
--   Program/Replies have what is printed, Program/Refines the threads, Program/Single the case of
--   one worker, Program/Follow a step of System as one of Program, Program/Flow the lines that wait
--   for the queue, and Program/Ends the end. `Sharing` says what the plugins owe to threads that
--   share them; Program/Cached fills it for the two plugins of Combined, with `file_change_cb`.
-- - src/core/webcontrol_buffer.c, `strtoupper`, `strtolower`, `truncate_string`: Text, with
--   Text/Case and Text/Truncate.
-- - Base has the names and lemmas that all modules share, and Tests a run of each result.
--
-- The queues of c-pthread-queue are parameters: the input side gets `queue_enqueue`, one worker the
-- list of jobs that the queue gives to its thread, and the threads together a `Queue` with the laws
-- `IsQueue`. So are `inet_pton` (Types, `InetPton`), `getnameinfo` (Netutil, `NameInfo` with
-- `IsNameInfo`), `fopen` (the contents of a file or none), `dlopen` and `dlsym` (Plugins,
-- `Linker`), libconfuse (Config, `cfg_parse`), `getopt` (Startup, the list of `Arg`), libldap
-- (ActiveDirectory, `Ldap`; `IsSchema` is about the directory's content), and libmemcached
-- (Memcached, `Library`, with what it promises in `IsCache`).
--
-- In System a step is what one thread does between two waits. In Program a worker handles a line in
-- one step, so the hooks of two workers and the callback of a plugin do not overlap; a worker's
-- event, its `thread_free` hooks and the destructors of its keys are one step too; and `main` takes
-- a read that gives bytes once the lines of the one before are in the queue. A callback that libev
-- still calls in the pass in which the loop was told to end is taken to run before: it reads
-- nothing that the call wrote.
--
-- Bounds and fuel: sizes are 64 bits wide and the sums of the buffer functions wrap; the results
-- ask for texts below 2^62 bytes, or for the exact sum that must not wrap. The loop of
-- `stdin_read_cb` has as many rounds as the chunk has bytes, each of which it passes; the event
-- loop has one more call than there are reads; the loop over the hosts file has as many rounds as
-- the file has bytes, and a line has at least one; the loop over the plugin names has one more
-- round than the list has bytes; the shutdown is counted by `left`, not by fuel; `print_size n` has
-- n + 1 rounds, and a number has no more digits. A run that used the fuel up would be a `fault`,
-- which the results exclude.
--
-- Not modelled: allocation that fails, and `free`, whose effect no caller sees; messages to stderr
-- and the log file, which nothing is written to; the calls that register watchers with libev; the
-- mutexes, which the model's atomic steps stand for; what libldap does as a connection is closed;
-- the debug macros.
pub mod Base
pub mod Memory
pub mod Buffer
pub mod Input
pub mod Text
pub mod Types
pub mod Scanf
pub mod Worker
pub mod Strtok
pub mod Txtfile
pub mod Memcached
pub mod Plugins
pub mod Netutil
pub mod ActiveDirectory
pub mod System
pub mod Config
pub mod Startup
pub mod Combined
pub mod Program
mod Tests
