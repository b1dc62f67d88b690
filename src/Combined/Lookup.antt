-- ===== src/Combined/Lookup.antt =====
-- One request of worker in src/core/main.c with the cache in front of the hosts file: a hit, and a
-- miss that the file is asked for.
use squid_helper.Combined.{cached_core}
use squid_helper.Memcached.Coherence.{IsKeyed, handle_lem, post_lem, read_status_cached}
use squid_helper.Memcached.Key.{key_of}
use squid_helper.Memcached.{
  Library, IsCache, State, cached_value, memcached_plugin_init, read_status,
}
use squid_helper.Txtfile.Answer.{reply}
use squid_helper.Txtfile.{PluginData, find_flag, txtfile_handle_request, txtfile_plugin_init}
use squid_helper.Worker.{
  answer, dispatch, finish, new_request, resolve, response, run_handlers, run_post_handlers,
}
use squid_helper.Types.{
  HandlerStatus, handler_go_on, handler_allow, handler_deny, handler_ok, handler_error, InetPton,
  Request,
}
use squid_helper.Memory.{codes, Bytes, ok}
use squid_helper.Base.{List, ℕ, ◌≡◌, ◌≤◌, ◌++◌, refl, true, false, none, some, Option, Bool, length}

module _ (lib : Library) (cache : IsCache lib) (section : Option (List Bytes))
    (have_ipv6 deny : Bool) (pton : InetPton) (fopen : Bytes → Option Bytes) where
  abbrev pub Both : Type 0
  Both = State lib × PluginData

  -- What the post hook stores for a status: only a verdict of the file gets there.
  abbrev pub stored_for : HandlerStatus → Bytes → State lib → State lib
  stored_for handler_allow ip m = record m {
    store = (lib.set m.store (key_of ip) (cached_value (some handler_allow))).1;
  }
  stored_for handler_deny ip m = record m {
    store = (lib.set m.store (key_of ip) (cached_value (some handler_deny))).1;
  }
  stored_for _ ip m = m

  module _ (channel : ℕ) (ip : Bytes) (m : State lib) (pd : PluginData) (out : Bytes)
      (handle : m.handle ≡ true) (short : length ip ≤ 45) where
    abbrev pub asked : Request
    asked = new_request channel ip (resolve have_ipv6 pton ip)

    asked-IsKeyed : (r : Option HandlerStatus) → IsKeyed (record asked { result = r })
    unfolding new_request
    asked-IsKeyed r = record { counted = refl; short = short }

    pub hit_allow :
        lib.get m.store (key_of ip) ≡ some (cached_value (some handler_allow))
        → dispatch
            (cached_core lib section have_ipv6 deny pton fopen)
            asked
            (record { stdout = out; state = (m, pd) })
          ≡ ok (record { stdout = out ++ response channel true none; state = (m, pd) })
    unfolding dispatch run_handlers finish answer memcached_plugin_init new_request
    hit_allow e = rw (
      handle_lem lib cache asked m (asked-IsKeyed none) handle,
      e,
      read_status_cached lib (some handler_allow) asked m,
    )

    pub hit_deny :
        lib.get m.store (key_of ip) ≡ some (cached_value (some handler_deny))
        → dispatch
            (cached_core lib section have_ipv6 deny pton fopen)
            asked
            (record { stdout = out; state = (m, pd) })
          ≡ ok (record {
            stdout = out ++ response channel false (some (codes "DENIED"));
            state = (m, pd);
          })
    unfolding dispatch run_handlers finish answer memcached_plugin_init new_request
    hit_deny e = rw (
      handle_lem lib cache asked m (asked-IsKeyed none) handle,
      e,
      read_status_cached lib (some handler_deny) asked m,
    )

    -- The file is asked where the cache has nothing.
    pub miss :
        (v : HandlerStatus)
        → lib.get m.store (key_of ip) ≡ none
        → find_flag (resolve have_ipv6 pton ip) pd.entry_chain ≡ v
        → dispatch
            (cached_core lib section have_ipv6 deny pton fopen)
            asked
            (record { stdout = out; state = (m, pd) })
          ≡ ok (record {
            stdout = out ++ response channel (reply deny v).0 (reply deny v).1;
            state = (stored_for v ip m, pd);
          })
    unfolding dispatch run_handlers run_post_handlers finish answer memcached_plugin_init
        new_request read_status txtfile_plugin_init txtfile_handle_request
    miss handler_go_on e f = rw (handle_lem lib cache asked m (asked-IsKeyed none) handle, e, f)
    miss handler_ok e f = rw (handle_lem lib cache asked m (asked-IsKeyed none) handle, e, f)
    miss handler_error e f = rw (handle_lem lib cache asked m (asked-IsKeyed none) handle, e, f)
    miss handler_allow e f = rw (
      handle_lem lib cache asked m (asked-IsKeyed none) handle,
      e,
      f,
      post_lem lib cache (record asked { result = some handler_allow }) m
          (asked-IsKeyed (some handler_allow)) handle,
    )
    miss handler_deny e f = rw (
      handle_lem lib cache asked m (asked-IsKeyed none) handle,
      e,
      f,
      post_lem lib cache (record asked { result = some handler_deny }) m
          (asked-IsKeyed (some handler_deny)) handle,
    )
