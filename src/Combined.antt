-- ===== src/Combined.antt =====
-- The plugins of src/plugins/mod_memcached and src/plugins/mod_txtfile in one worker of
-- src/core/main.c, the cache in front of the hosts file.
pub mod Agree
pub mod Lookup
pub mod Transparent
pub mod Contract
use squid_helper.Base.{Option, Bool, none, some, [], ◌∷◌, List}
use squid_helper.Memory.{Bytes, Result, ok, ◌>>=◌}
use squid_helper.Types.{Plugin, Request, HandlerStatus, InetPton}
use squid_helper.Worker.{Core}
use squid_helper.Memcached.{Library, State, memcached_plugin_init}
use squid_helper.Txtfile.{PluginData, txtfile_plugin_init}

module _ {A B : Type 0} where
  -- A plugin among two, each with data of its own: the first one, and the second.
  abbrev pub first_hook : Option (A → Result A) → Option (A × B → Result (A × B))
  first_hook none = none
  first_hook (some f) = some (λ w. do a ← f w.0; ok (a, w.1))

  abbrev pub first_init : Option (A → Result (Bool × A)) → Option (A × B → Result (Bool × (A × B)))
  first_init none = none
  first_init (some f) = some (λ w. do (done, a) ← f w.0; ok (done, (a, w.1)))

  abbrev pub first_handler :
      Option (Request → A → Result (HandlerStatus × Request × A))
      → Option (Request → A × B → Result (HandlerStatus × Request × (A × B)))
  first_handler none = none
  first_handler (some f) =
      some (λ req w. do (status, req', a) ← f req w.0; ok (status, req', (a, w.1)))

  abbrev pub first_plugin : Plugin A → Plugin (A × B)
  first_plugin p = record {
    name = p.name;
    plugin_free = first_hook p.plugin_free;
    thread_init = first_init p.thread_init;
    thread_free = first_hook p.thread_free;
    config_file_parsed = first_hook p.config_file_parsed;
    handle_request = first_handler p.handle_request;
    options = p.options;
    post_handle_request = first_handler p.post_handle_request;
  }

  abbrev pub second_hook : Option (B → Result B) → Option (A × B → Result (A × B))
  second_hook none = none
  second_hook (some f) = some (λ w. do b ← f w.1; ok (w.0, b))

  abbrev pub second_init : Option (B → Result (Bool × B)) → Option (A × B → Result (Bool × (A × B)))
  second_init none = none
  second_init (some f) = some (λ w. do (done, b) ← f w.1; ok (done, (w.0, b)))

  abbrev pub second_handler :
      Option (Request → B → Result (HandlerStatus × Request × B))
      → Option (Request → A × B → Result (HandlerStatus × Request × (A × B)))
  second_handler none = none
  second_handler (some f) =
      some (λ req w. do (status, req', b) ← f req w.1; ok (status, req', (w.0, b)))

  abbrev pub second_plugin : Plugin B → Plugin (A × B)
  second_plugin p = record {
    name = p.name;
    plugin_free = second_hook p.plugin_free;
    thread_init = second_init p.thread_init;
    thread_free = second_hook p.thread_free;
    config_file_parsed = second_hook p.config_file_parsed;
    handle_request = second_handler p.handle_request;
    options = p.options;
    post_handle_request = second_handler p.post_handle_request;
  }

-- "-p memcached,txtfile"
abbrev pub cached_core :
    (lib : Library)
    → Option (List Bytes)
    → Bool
    → Bool
    → InetPton
    → (Bytes → Option Bytes)
    → Core (State lib × PluginData)
cached_core lib section have_ipv6 deny pton fopen = record {
  have_ipv6 = have_ipv6;
  deny_by_default = deny;
  pton = pton;
  plugins =
      first_plugin (memcached_plugin_init lib section)
      ∷ second_plugin (txtfile_plugin_init have_ipv6 pton fopen).0
      ∷ [];
}
