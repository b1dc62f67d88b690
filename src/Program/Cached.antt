-- ===== src/Program/Cached.antt =====
-- The program of src/core/main.c with the plugins of src/plugins/mod_memcached and
-- src/plugins/mod_txtfile: what its threads share, and what each has of its own.
use squid_helper.Program.Follow.{Willing}
use squid_helper.Program.Intake.{ok-injective}
use squid_helper.Program.{Parts}
use squid_helper.Program.Owners.{Sharing}
use squid_helper.Combined.{cached_core}
use squid_helper.Combined.Contract.{cached_contract, IsDecision, Decisions}
use squid_helper.Memcached.{
  memcached_tls_key_free, Library, IsCache, State, Server, memcached_plugin_init, thread_init,
}
use squid_helper.Memcached.Key.{key_of}
use squid_helper.Txtfile.{PluginData, parse_file, txtfile_plugin_init}
use squid_helper.Worker.{Core, init_thread, call_hooks}
use squid_helper.Types.{InetPton}
use squid_helper.Memory.{Bytes, Result, ok, ◌>>=◌, first_step}
use squid_helper.Base.{
  ◌≡◌, refl, sym, ap, ◌∙◌, Option, Bool, true, false, List, ◌&&◌, Bool-cases, inl, inr,
}

module _ (lib : Library) where
  -- The servers, what is stored there, and the data of the hosts file are shared; `memcached_tls_key`
  -- is not. `file_change_cb` is called for a file system.
  abbrev pub cached_parts : Parts (State lib × PluginData)
  cached_parts = record {
    Shared = Option (List Server) × lib.Store × PluginData;
    Own = Bool;
    Event = Bytes → Option Bytes;
    whole = λ s handle. (record { servers = s.0; handle = handle; store = s.1 }, s.2);
    shared_of = λ w. (w.0.servers, w.0.store, w.1);
    own_of = λ w. w.0.handle;
    unset = false;
    exit = λ w. (memcached_tls_key_free lib w.0, w.1);
  }

  -- `file_change_cb`
  abbrev pub file_change_cb :
      Bool → InetPton → (Bytes → Option Bytes) → cached_parts.Shared → Result cached_parts.Shared
  file_change_cb have_ipv6 pton fopen s = do
    pd ← parse_file have_ipv6 pton fopen s.2
    ok (s.0, s.1, pd)

  module _ (cache : IsCache lib) (section : Option (List Bytes)) (have_ipv6 deny : Bool)
      (pton : InetPton) (fopen : Bytes → Option Bytes) where
    abbrev pub cached : Core (State lib × PluginData)
    cached = cached_core lib section have_ipv6 deny pton fopen

    abbrev pub Stored : cached_parts.Shared → Type 0
    Stored s = (ip : Bytes) → IsDecision (lib.get s.1 (key_of ip))

    -- The thread is ready with its handle, or it is as it was.
    init_lem :
        (s : cached_parts.Shared) (done : Bool) (w : State lib × PluginData)
        → init_thread cached.plugins (cached_parts.whole s false) ≡ ok (done, w)
        → (w.0.store ≡ s.1) × (w.0.handle ≡ done)
    unfolding init_thread memcached_plugin_init txtfile_plugin_init thread_init
    init_lem s done w e = elim (Bool-cases (lib.create && lib.push s.0)) [
      | inl g ↦
          let m = ok-injective (rw (thread_init, g) at e) in
          (ap (λ q. q.1.0.store) (sym m), ap (λ q. q.1.0.handle) (sym m) ∙ ap (λ q. q.0) m)
      | inr g ↦
          let m = ok-injective (rw (thread_init, g) at e) in
          (ap (λ q. q.1.0.store) (sym m), ap (λ q. q.1.0.handle) (sym m) ∙ ap (λ q. q.0) m)
    ]

    free_lem :
        (s : cached_parts.Shared) (handle : Bool) (w : State lib × PluginData)
        → call_hooks (λ h. h.thread_free) cached.plugins (cached_parts.whole s handle) ≡ ok w
        → w.0.store ≡ s.1
    unfolding call_hooks memcached_plugin_init txtfile_plugin_init
    free_lem s handle w e = ap (λ q. q.0.store) (sym (ok-injective e))

    change_lem :
        (files : Bytes → Option Bytes) (s t : cached_parts.Shared)
        → file_change_cb have_ipv6 pton files s ≡ ok t
        → t.1 ≡ s.1
    change_lem files s t e =
        let (pd, a, b) =
          first_step (parse_file have_ipv6 pton files s.2) (λ pd. ok (s.0, s.1, pd)) e in
        ap (λ q. q.1) (sym (ok-injective b))

    pub inits_lem :
        (s : cached_parts.Shared) (w : State lib × PluginData)
        → Stored s
        → init_thread cached.plugins (cached_parts.whole s false) ≡ ok (true, w)
        → Decisions lib w.0
    inits_lem s w d e =
        let (a, b) = init_lem s true w e in record { handle = b; entry = λ ip. rw a (d ip) }

    pub fails_lem :
        (s : cached_parts.Shared) (w : State lib × PluginData)
        → Stored s
        → init_thread cached.plugins (cached_parts.whole s false) ≡ ok (false, w)
        → Stored (cached_parts.shared_of w)
    fails_lem s w d e ip = rw (init_lem s false w e).0 (d ip)

    pub frees_lem :
        (s : cached_parts.Shared) (handle : Bool) (w : State lib × PluginData)
        → Stored s
        → call_hooks (λ h. h.thread_free) cached.plugins (cached_parts.whole s handle) ≡ ok w
        → Stored (cached_parts.shared_of (cached_parts.exit w))
    unfolding memcached_tls_key_free
    frees_lem s handle w d e ip = rw (free_lem s handle w e) (d ip)

    pub changes_lem :
        (files : Bytes → Option Bytes) (s t : cached_parts.Shared)
        → Stored s
        → file_change_cb have_ipv6 pton files s ≡ ok t
        → Stored t
    changes_lem files s t d e ip = rw (change_lem files s t e) (d ip)

    -- Threads may share these two plugins.
    abbrev pub cached_sharing : Sharing cached cached_parts (file_change_cb have_ipv6 pton)
    cached_sharing = record {
      contract = cached_contract lib cache section have_ipv6 deny pton fopen;
      IsShared = Stored;
      IsOwn = λ handle. handle ≡ true;
      joins = λ s handle d h. record { handle = h; entry = d };
      shares = λ w d. d.entry;
      owns = λ w d. d.handle;
      inits = inits_lem;
      fails = fails_lem;
      frees = frees_lem;
      changes = changes_lem;
    }

    -- Their hooks let a thread end, where libmemcached gives each thread its handle.
    pub cached-Willing :
        ((s : cached_parts.Shared) → (lib.create && lib.push s.0) ≡ true) → Willing cached_sharing
    unfolding init_thread call_hooks memcached_plugin_init txtfile_plugin_init thread_init
    cached-Willing handles = record {
      inits = λ s d. ((record { servers = s.0; handle = true; store = s.1 }, s.2), rw (handles s));
      frees = λ s a d. (_, refl);
    }
