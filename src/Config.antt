-- ===== src/Config.antt =====
-- init_config of src/core/main.c: the options that the configuration file may hold, and what is made
-- of it. libconfuse is the parameter `cfg_parse`.
pub mod Collect
pub mod Outcome
use squid_helper.Strtok.{str_equal}
use squid_helper.Worker.{call_hooks}
use squid_helper.Base.{
  ℕ, ◌+◌, ◌==◌, Bool, Option, none, some, List, [], ◌∷◌, ◌++◌, length, ltb, if◌then◌else◌,
}
use squid_helper.Memory.{Bytes, Result, ok, fault, ◌>>=◌, codes}
use squid_helper.Types.{Plugin}

-- CONFIG_SLOTS_BLOCKSIZE
abbrev pub config_slots_blocksize : ℕ
config_slots_blocksize = 32

-- A `cfg_opt_t`: CFG_SIMPLE_STR, CFG_SIMPLE_INT, CFG_SEC with the options of a plugin, CFG_END.
pub data Opt : Type 0 where
  simple_str simple_int : Bytes → Opt
  sec : Bytes → List Bytes → Opt
  cfg_end : Opt

-- `opts` up to `num_opts`, and `num_slots`
pub record Slots : Type 0 where
  pub num_slots : ℕ
  pub opts : List Opt

-- `opts[num_opts++] = opt`
unfoldable pub push_opt : Opt → Slots → Result Slots
push_opt opt s =
    if ltb (length s.opts) s.num_slots then ok (record s { opts = s.opts ++ opt ∷ [] }) else fault

-- The `realloc` where only the slot for CFG_END is left.
unfoldable pub grow : Slots → Slots
grow s =
    if s.num_slots == length s.opts + 1
    then record s { num_slots = s.num_slots + config_slots_blocksize }
    else s

-- The section of a plugin that has options and a name.
unfoldable pub add_section : Option (List Bytes) → Option Bytes → Slots → Result Slots
add_section none name s = ok s
add_section (some options) none s = ok s
add_section (some options) (some name) s = push_opt (sec name options) (grow s)

abbrev pub core_opts : List Opt
core_opts =
    simple_str (codes "logfile")
    ∷ simple_int (codes "loglevel")
    ∷ simple_str (codes "default_behavior")
    ∷ []

unfoldable pub push_opts : List Opt → Slots → Result Slots
push_opts [] s = ok s
push_opts (opt ∷ opts) s = do s' ← push_opt opt s; push_opts opts s'

-- What `cfg_parse` returns.
pub data ParseResult : Type 0 where
  cfg_success cfg_file_error cfg_parse_error : ParseResult

-- What it leaves: the two texts of the core, NULL where the file does not set them, the log level, and
-- the state of the plugins, which their options are stored in.
pub record Parsed (W : Type 0) : Type 0 where
  pub result : ParseResult
  pub logfile : Option Bytes
  pub loglevel : ℕ
  pub default_behavior : Option Bytes
  pub state : W

module _ {W : Type 0} where
  unfoldable pub add_sections : List (Plugin W) → Slots → Result Slots
  add_sections [] s = ok s
  add_sections (p ∷ ps) s = do s' ← add_section p.options p.name s; add_sections ps s'

  -- All options, up to CFG_END.
  unfoldable pub collect_opts : List (Plugin W) → Result Slots
  collect_opts plugins = do
    s ← push_opts core_opts (record { num_slots = config_slots_blocksize; opts = [] })
    s' ← add_sections plugins s
    push_opt cfg_end s'

  -- Behind `cfg_parse`: `strcmp` and `fopen` of NULL are undefined. The log file that is opened is not
  -- written to.
  unfoldable pub apply_config :
      List (Plugin W) → Option Bytes → Option Bytes → W → Result (Option Bool × W)
  apply_config plugins none logfile w = fault
  apply_config plugins (some default_behavior) none w = fault
  apply_config plugins (some default_behavior) (some logfile) w = do
    w' ← call_hooks (λ p. p.config_file_parsed) plugins w
    ok (some (str_equal default_behavior (codes "deny")), w')

  -- The `switch` on the result: `deny_by_default`, none for -1, and the state of the plugins.
  unfoldable pub on_parsed : List (Plugin W) → ParseResult → Parsed W → Result (Option Bool × W)
  on_parsed plugins cfg_parse_error p = ok (none, p.state)
  on_parsed plugins cfg_file_error p = apply_config plugins p.default_behavior p.logfile p.state
  on_parsed plugins cfg_success p = apply_config plugins p.default_behavior p.logfile p.state

  -- `init_config`
  unfoldable pub init_config :
      (List Opt → Bytes → W → Parsed W) → List (Plugin W) → Bytes → W → Result (Option Bool × W)
  init_config cfg_parse plugins config_file w = do
    s ← collect_opts plugins
    let p = cfg_parse s.opts config_file w
    on_parsed plugins p.result p
