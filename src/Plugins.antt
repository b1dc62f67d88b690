-- ===== src/Plugins.antt =====
-- src/core/webcontrol_plugin.c: the plugins that the command line names are opened and initialised.
pub mod Text
pub mod Names
pub mod Load
use squid_helper.Strtok.{strtok}
use squid_helper.Scanf.{c_string}
use squid_helper.Base.{
  ℕ, zero, suc, ◌+◌, ◌*◌, ◌/◌, Bool, true, false, Option, none, some, List, [], ◌∷◌, ◌++◌, length,
  ltb, ◌==◌, if◌then◌else◌,
}
use squid_helper.Memory.{Bytes, Result, ok, fault, abort, ◌>>=◌, cells, codes}
use squid_helper.Types.{Plugin}
use squid_helper.Buffer.{Buffer, made, buffer_init_string, buffer_append_string}

-- What the loader is built and linked with: MODULE_DIR, `dlopen`, and `dlsym` for an init function,
-- each none for NULL.
pub record Linker (W : Type 0) : Type 1 where
  pub module_dir : Bytes
  pub Handle : Type 0
  pub dlopen : Bytes → Option Handle
  pub dlsym : Handle → Bytes → Option (Plugin W → Plugin W)

-- A call of `dlopen` that gave a handle, and a call of `dlclose`.
pub data Call (Handle : Type 0) : Type 0 where
  opened closed : Handle → Call Handle

-- The array `plugins` has ten times the size of a plugin, 96 bytes, for pointers of 8 bytes.
abbrev pub plugin_slots : ℕ
plugin_slots = 10 * 96 / 8

abbrev pub is_comma : ℕ → Bool
is_comma c = c == b','

-- A buffer's `ptr` as a C string.
unfoldable pub string_of : Buffer → Result Bytes
string_of b = elim b.ptr [ none ↦ fault | some m ↦ c_string m ]

-- `buffer_append_string(b, t)`, whose status is ignored.
unfoldable pub append_text : Buffer → Bytes → Result Buffer
append_text b t = do u ← buffer_append_string (some b) (some (cells t)); made u

module _ {W : Type 0} (linker : Linker W) where
  -- A plugin with its `lib`.
  abbrev pub Loaded : Type 0
  Loaded = Plugin W × linker.Handle

  -- `plugins` up to `num_plugins`, and the calls of the linker so far.
  pub record Loader : Type 0 where
    pub plugins : List Loaded
    pub calls : List (Call linker.Handle)

  -- A plugin before its init function.
  abbrev pub blank_plugin : Plugin W
  blank_plugin = record {
    name = none;
    plugin_free = none;
    thread_init = none;
    thread_free = none;
    config_file_parsed = none;
    handle_request = none;
    options = none;
    post_handle_request = none;
  }

  -- The plugin of an open library, or the library closed again.
  unfoldable pub init_plugin :
      linker.Handle → Bytes → List (Call linker.Handle) → Option Loaded × List (Call linker.Handle)
  init_plugin handle symbol calls = elim (linker.dlsym handle symbol) [
    | none ↦ (none, calls ++ opened handle ∷ closed handle ∷ [])
    | some init_func ↦ (some (init_func blank_plugin, handle), calls ++ opened handle ∷ [])
  ]

  unfoldable pub open_plugin :
      Bytes
      → Option linker.Handle
      → List (Call linker.Handle)
      → Result (Option Loaded × List (Call linker.Handle))
  open_plugin name none calls = ok (none, calls)
  open_plugin name (some handle) calls = do
    b ← buffer_init_string (some (cells (codes "webcontrol_mod_")))
    b' ← append_text b name
    symbolname ← append_text b' (codes "_plugin_init")
    symbol ← string_of symbolname
    ok (init_plugin handle symbol calls)

  unfoldable pub plugin_load :
      Bytes → List (Call linker.Handle) → Result (Option Loaded × List (Call linker.Handle))
  plugin_load name calls = do
    b ← buffer_init_string (some (cells linker.module_dir))
    b₁ ← append_text b (codes "/mod_")
    b₂ ← append_text b₁ name
    filename ← append_text b₂ (codes ".so")
    path ← string_of filename
    open_plugin name (linker.dlopen path) calls

  -- `plugins[num_plugins++] = plugin`
  unfoldable pub add_plugin : Option Loaded → Loader → Result Loader
  add_plugin none l = ok l
  add_plugin (some p) l =
      if ltb (length l.plugins) plugin_slots
      then ok (record l { plugins = l.plugins ++ p ∷ [] })
      else fault

  -- The loop over the names, with a bound on its rounds that no list uses up.
  unfoldable pub load_names : ℕ → Bytes → Loader → Result Loader
  load_names zero names l = fault
  load_names (suc rounds) names l = elim (strtok is_comma names) [
    | none ↦ ok l
    | some (name, rest) ↦ do
      (p, calls) ← plugin_load name l.calls
      l' ← add_plugin p (record l { calls = calls })
      load_names rounds rest l'
  ]

  unfoldable pub plugins_load_string : Option Buffer → Loader → Result Loader
  plugins_load_string none l = ok l
  plugins_load_string (some b) l = do names ← string_of b; load_names (length names + 1) names l

  -- `plugin_unload`
  unfoldable pub plugin_unload : Option Loaded → Loader → Result Loader
  plugin_unload none l = abort
  plugin_unload (some (p, handle)) l = ok (record l { calls = l.calls ++ closed handle ∷ [] })
