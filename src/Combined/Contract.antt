-- ===== src/Combined/Contract.antt =====
-- The contract that worker of src/core/main.c asks for, for the memcached plugin and the hosts file
-- together.
use squid_helper.Combined.Agree.{Bytes-discrete}
use squid_helper.Combined.Transparent.{width_short}
use squid_helper.Combined.{cached_core, first_plugin, second_plugin}
use squid_helper.Memcached.Coherence.{
  set_cases, IsKeyed, handle_lem, post_lem, read_status_cached, recalled, cached,
}
use squid_helper.Memcached.Key.{key_of, key_of-injective}
use squid_helper.Memcached.{
  Library, IsCache, State, cached_value, memcached_plugin_init, memcached_handle_request,
  memcached_post_handle_request, read_status,
}
use squid_helper.Txtfile.{PluginData, find_flag, txtfile_handle_request, txtfile_plugin_init}
use squid_helper.Worker.{resolve, new_request}
use squid_helper.Worker.Consult.{Keeps}
use squid_helper.Worker.Contract.{Contract}
use squid_helper.Types.{Sockaddr, HandlerStatus, handler_go_on, handler_ok, InetPton, Request}
use squid_helper.Memory.{◌>>=◌, Bytes, Result, ok}
use squid_helper.Base.{
  ◌≤◌, ℕ, ◌≡◌, ◌⊎◌, inl, inr, refl, sym, true, none, some, Option, Bool, List, length,
}
use mathlib.Core.Option.{some-injective, none-ne-some}

-- What the cache holds for an address, if it holds anything, is a decision.
abbrev pub IsDecision : Option Bytes → Type 0
IsDecision value =
    (value ≡ none) ⊎ ((result : Option HandlerStatus) × (value ≡ some (cached_value result)))

module _ (lib : Library) where
  pub record Decisions (m : State lib) : Type 0 where
    pub handle : m.handle ≡ true
    pub entry : (ip : Bytes) → IsDecision (lib.get m.store (key_of ip))

  -- A request whose address fits a key, with such a cache.
  pub record Asking (req : Request) (w : State lib × PluginData) : Type 0 where
    pub keyed : IsKeyed req
    pub cache : Decisions w.0

  module _ (cache : IsCache lib) (section : Option (List Bytes)) where
    store-Decisions :
        (m : State lib) (ip : Bytes) (r : Option HandlerStatus)
        → Decisions m
        → Decisions (record m { store = (lib.set m.store (key_of ip) (cached_value r)).1 })
    store-Decisions m ip r d = record {
      handle = d.handle;
      entry = λ other. elim (Bytes-discrete ip other) [
        | yes e ↦ rw (sym e) (elim (set_cases lib cache m.store (key_of ip) (cached_value r)) [
          | inl g ↦ inr (r, g)
          | inr g ↦ elim g [ inl i ↦ inl i | inr i ↦ rw i (d.entry ip) ]
        ])
        | no n ↦
            elim (cache.get-set_ne m.store (key_of ip) (key_of other) (cached_value r)
              (λ q. n (key_of-injective ip other q))) [
                | inl g ↦ rw g (d.entry other)
                | inr g ↦ inl g
              ]
      ];
    }

    -- What a handler of the plugin returns with.
    abbrev Returns : Result (HandlerStatus × Request × (State lib × PluginData)) → Request → Type 0
    Returns r req =
        (status : HandlerStatus) × (req' : Request) × (w' : State lib × PluginData) × (r
          ≡ ok (status, req', w'))
        × (req'.channel ≡ req.channel)
        × Asking req' w'

    asks_cache :
        (req : Request) (w : State lib × PluginData)
        → Asking req w
        → Returns
            (do
              (status, req', m) ← memcached_handle_request lib req w.0
              ok (status, req', (m, w.1)))
            req
    unfolding read_status
    asks_cache req w a = elim (a.cache.entry req.ip_addr.str) [
      | inl e ↦ (
        handler_go_on,
        req,
        w,
        rw (handle_lem lib cache req w.0 a.keyed a.cache.handle, e),
        refl,
        a,
      )
      | inr (r, e) ↦ (
        recalled r,
        record req { skip_post_handle_request = true },
        w,
        rw (
          handle_lem lib cache req w.0 a.keyed a.cache.handle,
          e,
          read_status_cached lib r req w.0,
        ),
        refl,
        record {
          keyed = record { counted = a.keyed.counted; short = a.keyed.short };
          cache = a.cache;
        },
      )
    ]

    fills_cache :
        (req : Request) (w : State lib × PluginData)
        → Asking req w
        → Returns
            (do
              (status, req', m) ← memcached_post_handle_request lib req w.0
              ok (status, req', (m, w.1)))
            req
    fills_cache req w a = (
      handler_ok,
      req,
      (cached lib req w.0, w.1),
      rw (post_lem lib cache req w.0 a.keyed a.cache.handle),
      refl,
      record { keyed = a.keyed; cache = store-Decisions w.0 req.ip_addr.str req.result a.cache },
    )

    pub memcached-Keeps : Keeps Asking (first_plugin (memcached_plugin_init lib section))
    unfolding memcached_plugin_init
    memcached-Keeps = record {
      handles = λ handler req w e a. elim e [
        | inl q ↦ rw (sym (some-injective _ handler q)) (asks_cache req w a)
        | inr q ↦ rw (sym (some-injective _ handler q)) (fills_cache req w a)
      ];
    }

  pub txtfile-Keeps :
      (have_ipv6 : Bool) (pton : InetPton) (fopen : Bytes → Option Bytes)
      → Keeps Asking (second_plugin (txtfile_plugin_init have_ipv6 pton fopen).0)
  unfolding txtfile_plugin_init txtfile_handle_request
  txtfile-Keeps have_ipv6 pton fopen = record {
    handles = λ handler req w e a. elim e [
      | inl q ↦
          rw (sym (some-injective _ handler q))
            (find_flag req.ip_addr.sockaddr w.1.entry_chain, req, w, refl, refl, a)
      | inr q ↦ absurd (none-ne-some _ q)
    ];
  }

  pub new_request-Asking :
      (channel : ℕ) (str : Bytes) (a : Sockaddr) (w : State lib × PluginData)
      → length str ≤ 45
      → Decisions w.0
      → Asking (new_request channel str a) w
  unfolding new_request
  new_request-Asking channel str a w l d = record {
    keyed = record { counted = refl; short = l };
    cache = d;
  }

  -- The worker's contract for the two plugins.
  abbrev pub cached_contract :
      IsCache lib
      → (section : Option (List Bytes)) (have_ipv6 deny : Bool) (pton : InetPton)
        (fopen : Bytes → Option Bytes)
      → Contract (cached_core lib section have_ipv6 deny pton fopen)
  cached_contract cache section have_ipv6 deny pton fopen = record {
    Inv = λ w. Decisions w.0;
    During = Asking;
    enters = λ channel str w i l n.
        new_request-Asking channel str (resolve have_ipv6 pton str) w
          (width_short have_ipv6 (length str) l) i;
    leaves = λ req w a. a.cache;
    set_result = λ req w r a. record {
      keyed = record { counted = a.keyed.counted; short = a.keyed.short };
      cache = a.cache;
    };
    hooks = (memcached-Keeps cache section, (txtfile-Keeps have_ipv6 pton fopen, tt));
  }
