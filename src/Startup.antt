-- ===== src/Startup.antt =====
-- main of src/core/main.c up to the event loop, and behind the joined workers.
pub mod Launch
pub mod Unload
use squid_helper.Scanf.{scan_size, c_string}
use squid_helper.Base.{ℕ, Option, none, some, List, [], ◌∷◌, ◌++◌, length, ◌+◌, Bool, true, false}
use squid_helper.Memory.{Bytes, Mem, Result, ok, fault, ◌>>=◌, cells, malloc, memcpy}
use squid_helper.Types.{Plugin}
use squid_helper.Buffer.{Buffer, buffer_init_string}
use squid_helper.Plugins.{plugins_load_string, plugin_unload, Linker, Loader, Loaded}
use squid_helper.Config.{init_config, Opt, Parsed}

-- What `getopt` gives: -c, -t or -p with its argument, and -h or another option.
pub data Arg : Type 0 where
  config threads plugins : Bytes → Arg
  help : Arg

-- PATH_MAX of <limits.h>
abbrev pub path_max : ℕ
path_max = 4096

-- The variables of `main` that the options set; `config_file` is an array.
pub record Args : Type 0 where
  pub num_threads : ℕ
  pub plugin_list : Option Buffer
  pub config_file : Option Mem

abbrev pub default_args : Args
default_args = record { num_threads = 2; plugin_list = none; config_file = some (malloc path_max) }

-- `sscanf(text, "%zu", &n)`
unfoldable pub scan_threads : Bytes → ℕ → ℕ
scan_threads text n = elim (scan_size text) [ none ↦ n | some (m, rest) ↦ m ]

-- The loop over the options; none is `exit(-1)`.
unfoldable pub parse_args : List Arg → Args → Result (Option Args)
parse_args [] a = ok (some a)
parse_args (config text ∷ args) a = do
  file ← memcpy a.config_file 0 (cells text) (length text + 1)
  parse_args args (record a { config_file = file })
parse_args (threads text ∷ args) a =
    parse_args args (record a { num_threads = scan_threads text a.num_threads })
parse_args (plugins text ∷ args) a = do
  b ← buffer_init_string (some (cells text))
  parse_args args (record a { plugin_list = some b })
parse_args (help ∷ args) a = ok none

-- The name of the configuration file; `config_file == NULL` does not hold of an array.
unfoldable pub config_name : Option Mem → Result Bytes
config_name none = fault
config_name (some m) = c_string m

module _ {W : Type 0} (linker : Linker W) (cfg_parse : List Opt → Bytes → W → Parsed W) where
  -- What the event loop starts from: the plugins, the default, the state of the plugins, and the
  -- number of threads.
  pub record Ready : Type 0 where
    pub loader : Loader linker
    pub deny_by_default : Bool
    pub state : W
    pub num_threads : ℕ

  abbrev pub plugins_of : List (Loaded linker) → List (Plugin W)
  plugins_of [] = []
  plugins_of ((p, handle) ∷ ps) = p ∷ plugins_of ps

  unfoldable pub on_config : Loader linker → ℕ → Option Bool × W → Option Ready
  on_config loader num_threads (none, w) = none
  on_config loader num_threads (some deny, w) =
      some
        (record { loader = loader; deny_by_default = deny; state = w; num_threads = num_threads })

  -- From the options on: the plugins are loaded, and the configuration is read.
  unfoldable pub set_up : Option Args → W → Result (Option Ready)
  set_up none w = ok none
  set_up (some a) w = do
    loader ← plugins_load_string linker a.plugin_list (record { plugins = []; calls = [] })
    config_file ← config_name a.config_file
    c ← init_config cfg_parse (plugins_of loader.plugins) config_file w
    ok (on_config loader a.num_threads c)

  unfoldable pub startup : List Arg → W → Result (Option Ready)
  startup args w = do a ← parse_args args default_args; set_up a w

  -- Behind `pthread_join`: a plugin with a cleanup hook is cleaned up and unloaded.
  unfoldable pub free_plugin : Loaded linker → Loader linker × W → Result (Loader linker × W)
  free_plugin (p, handle) (l, w) = elim p.plugin_free [
    | none ↦ ok (l, w)
    | some hook ↦ do w' ← hook w; l' ← plugin_unload linker (some (p, handle)) l; ok (l', w')
  ]

  unfoldable pub free_plugins :
      List (Loaded linker) → Loader linker × W → Result (Loader linker × W)
  free_plugins [] s = ok s
  free_plugins (p ∷ ps) s = do s' ← free_plugin p s; free_plugins ps s'
