-- ===== src/Startup/Launch.antt =====
-- What the options of the command line lead to in main of src/core/main.c.
use squid_helper.Plugins.Load.{loads_found_plugins, calls_of, find_plugins}
use squid_helper.Plugins.Text.{init_text_lem}
use squid_helper.Plugins.Names.{names-IsNulFree, comma_joined, IsName}
use squid_helper.Buffer.{buffer_init_string, Buffer}
use squid_helper.Buffer.Holds.{Pending, stored}
use squid_helper.Scanf.RoundTrip.{c_string_lem, scan_size-print_size}
use squid_helper.Scanf.{c_string, scan_size, print_size}
use squid_helper.Memory.Laws.{memcpy_string, IsNulFree}
use squid_helper.Base.{
  sym, ap, ◌≢◌, length-replicate, drop, append-nil, ℕ, ◌+◌, ◌≡◌, ◌≤◌, ◌<◌, ◌^◌, refl, Option, none,
  some, List, [], ◌∷◌, length, arith, All, size_mod, ◌∙◌,
}
use squid_helper.Memory.{◌>>=◌, first_step, memcpy, Bytes, Mem, Result, ok, cells, malloc}
use squid_helper.Plugins.{plugin_slots, plugins_load_string, Linker}
use squid_helper.Config.{init_config, Opt, Parsed}
use squid_helper.Startup.{
  on_config, plugins_of, scan_threads, Arg, config, threads, plugins, help, Args, default_args,
  path_max, Ready, parse_args, startup, set_up, config_name,
}

-- The options -c, -p and -t.
abbrev pub command_line : Bytes → Bytes → ℕ → List Arg
command_line file list n = config file ∷ plugins list ∷ threads (print_size n) ∷ []

config_name_lem :
    (file : Bytes)
    → IsNulFree file
    → length file < path_max
    → (m : Mem) × (memcpy (some (malloc path_max)) 0 (cells file) (length file + 1) ≡ ok (some m))
      × (config_name (some m) ≡ ok file)
unfolding config_name
config_name_lem file z h =
    let rest = drop (length file + 1) (malloc path_max) in
    (
      stored file rest,
      memcpy_string [] (malloc path_max) file [] 0 (length file + 1) refl refl
          (omega (arith, length-replicate {A = Option ℕ} path_max none)),
      c_string_lem file rest z,
    )

scan_threads_lem : (n m : ℕ) → n < size_mod → scan_threads (print_size n) m ≡ n
unfolding scan_threads
scan_threads_lem n m h =
    let e = scan_size-print_size n [] h tt in
    let e' : scan_size (print_size n) ≡ some (n, []) = (rw (append-nil (print_size n)) at e) in
    rw (scan_threads, e')

-- A list of names in a new buffer.
record Listed (list : Bytes) (r : Result Buffer) : Type 0 where
  buf : Buffer
  result : r ≡ ok buf
  pending : Pending buf (some list)

list_lem :
    (list : Bytes)
    → IsNulFree list
    → length list < 2 ^ 61
    → Listed list (buffer_init_string (some (cells list)))
list_lem list z h =
    let b = init_text_lem list z h in record { buf = b.buf; result = b.result; pending = b.pending }

abbrev pub NoConfig : Arg → Type 0
NoConfig (config text) = ⊥
NoConfig _ = Unit

none_ready {ℓ} : {A : Type ℓ} (a : A) → ◌≡◌ {A = Result (Option A)} (ok none) (ok (some a)) → ⊥
none_ready a e = cc

same_file :
    (a b : Args) {x : Option Mem}
    → ◌≡◌ {A = Result (Option Args)} (ok (some a)) (ok (some b))
    → a.config_file ≡ x
    → b.config_file ≡ x
same_file a b e f = cc

unwritten : (file : Bytes) → config_name (some (malloc path_max)) ≡ ok file → ⊥
unfolding config_name c_string
unwritten file e = cc

-- Without -c the array stays as it was.
NoFile : Result (Option Args) → Type 0
NoFile r = (a : Args) → r ≡ ok (some a) → a.config_file ≡ some (malloc path_max)

parse_args-NoFile :
    (args : List Arg) (a : Args)
    → All NoConfig args
    → a.config_file ≡ some (malloc path_max)
    → NoFile (parse_args args a)
unfolding NoFile parse_args
parse_args-NoFile [] a h e b f = same_file a b f e
parse_args-NoFile (config text ∷ args) a h e b f = absurd h.0
parse_args-NoFile (threads text ∷ args) a h e b f =
    parse_args-NoFile args (record a { num_threads = scan_threads text a.num_threads }) h.1 e b f
parse_args-NoFile (plugins text ∷ args) a h e b f =
    let (list, g, k) =
      first_step (buffer_init_string (some (cells text)))
        (λ q. parse_args args (record a { plugin_list = some q })) f in
    parse_args-NoFile args (record a { plugin_list = some list }) h.1 e b k
parse_args-NoFile (help ∷ args) a h e b f = absurd (none_ready b f)

module _ {W : Type 0} (linker : Linker W) (cfg_parse : List Opt → Bytes → W → Parsed W) where
  -- For options that name a file, plugins joined by commas and a number of threads: a file name
  -- without NUL bytes that fits in the array, a module directory without them below 2^59 bytes,
  -- names that are not empty, without comma and NUL and not too long, a number within `size_t`,
  -- and no more plugins found than there are slots. The start then reads the file of that name
  -- with the options of just the plugins that are found, in the order of their names, and is ready
  -- with these plugins and that number of threads, as far as the configuration is accepted.
  pub starts_up :
      (file : Bytes) (names : List Bytes) (n : ℕ) (w : W)
      → IsNulFree file
      → length file < path_max
      → n < size_mod
      → IsNulFree linker.module_dir
      → length linker.module_dir < 2 ^ 59
      → All IsName names
      → length (comma_joined names) < 2 ^ 61
      → length (find_plugins linker names) ≤ plugin_slots
      → startup linker cfg_parse (command_line file (comma_joined names) n) w ≡ (do
        c ← init_config cfg_parse (plugins_of linker cfg_parse (find_plugins linker names)) file w
        ok (
            on_config linker cfg_parse
              (record { plugins = find_plugins linker names; calls = calls_of linker names })
              n
              c))
  unfolding startup parse_args set_up
  starts_up file names n w z h t zd d k l f =
      let (m, copied, name) = config_name_lem file z h in
      let list = list_lem (comma_joined names) (names-IsNulFree names k) l in
      let loaded =
        (loads_found_plugins linker list.buf names (record { plugins = []; calls = [] }) zd d k
          list.pending (omega arith)).0 in
      rw (copied, list.result, scan_threads_lem n 2 t, loaded, name)

  -- Nothing is ready from an array that was not written.
  not_ready :
      (o : Option Args) (w : W) (r : Ready linker cfg_parse)
      → ((a : Args) → o ≡ some a → a.config_file ≡ some (malloc path_max))
      → set_up linker cfg_parse o w ≢ ok (some r)
  unfolding set_up
  not_ready none w r h e = none_ready r e
  not_ready (some a) w r h e =
      let (loader, p, q) =
        first_step (plugins_load_string linker a.plugin_list (record { plugins = []; calls = [] }))
          _ e in
      let (file, g, k) = first_step (config_name a.config_file) _ q in
      unwritten file (sym (ap config_name (h a refl)) ∙ g)

  -- Without an option -c, whatever the other options are, the start never gets ready: nothing was
  -- written into the array that the name is read from.
  pub needs_config :
      (args : List Arg) (w : W) (r : Ready linker cfg_parse)
      → All NoConfig args
      → startup linker cfg_parse args w ≢ ok (some r)
  unfolding startup NoFile
  needs_config args w r h e =
      let (o, p, q) =
        first_step (parse_args args default_args) (λ a. set_up linker cfg_parse a w) e in
      not_ready o w r (λ a f. parse_args-NoFile args default_args h refl a (p ∙ ap ok f)) q
