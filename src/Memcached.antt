-- ===== src/Memcached.antt =====
-- src/plugins/mod_memcached/webcontrol_memcached.c: the plugin that keeps earlier answers in
-- memcached. The library libmemcached and its server are the parameter `Library`.
pub mod Key
pub mod Coherence
use squid_helper.Scanf.{scan_size}
use squid_helper.Strtok.{strtok}
use squid_helper.Base.{
  ◌≢◌, take, ◌⊎◌, ◌+◌, ◌%◌, replicate, map, ◌≡◌, ◌^◌, ◌==◌, ◌&&◌, List, ◌≤◌, ◌*◌, length,
  if◌then◌else◌, Option, Bool, ℕ, zero, suc, true, false, none, some, [], ◌∷◌, ◌++◌, refl,
}
use squid_helper.Memory.{memcpy, load, cells, Bytes, Mem, Result, ok, fault, abort, ◌>>=◌, codes}
use squid_helper.Types.{
  HandlerStatus, handler_go_on, handler_allow, handler_deny, handler_ok, Request, Plugin,
}

-- A server of the list: `host` may be NULL.
abbrev pub Server : Type 0
Server = Option Bytes × ℕ

-- What the plugin calls: MEMCACHED_MAX_KEY, `memcached_create`, `memcached_server_push` with the
-- configured list or the default one, `memcached_get` (none for NULL) and `memcached_set`, which says if it is
-- MEMCACHED_SUCCESS.
pub record Library : Type 1 where
  pub max_key : ℕ
  pub Store : Type 0
  pub create : Bool
  pub push : Option (List Server) → Bool
  pub get : Store → Bytes → Option Bytes
  pub set : Store → Bytes → Bytes → Bool × Store

-- What a cache promises: its keys may have 60 bytes, a `get` returns what a `set` that succeeded has
-- put there or nothing, one that failed may also leave what was there, and a `set` of one key leaves
-- another one as it was or drops it.
pub record IsCache (lib : Library) : Type 0 where
  pub key_room : 61 ≤ lib.max_key
  pub get-set :
      (s : lib.Store) (k v : Bytes)
      → (lib.set s k v).0 ≡ true
      → (lib.get (lib.set s k v).1 k ≡ some v) ⊎ (lib.get (lib.set s k v).1 k ≡ none)
  pub get-set_failed :
      (s : lib.Store) (k v : Bytes)
      → (lib.set s k v).0 ≡ false
      → (lib.get (lib.set s k v).1 k ≡ some v)
        ⊎ ((lib.get (lib.set s k v).1 k ≡ none) ⊎ (lib.get (lib.set s k v).1 k ≡ lib.get s k))
  pub get-set_ne :
      (s : lib.Store) (k j v : Bytes)
      → k ≢ j
      → (lib.get (lib.set s k v).1 j ≡ lib.get s j) ⊎ (lib.get (lib.set s k v).1 j ≡ none)

-- WEBCONTROL_MEMCACHED_DEFAULT_KEY_PREFIX
abbrev pub key_prefix : Bytes
key_prefix = codes "webcontrol_host_"

-- `str4_cmp(str, c0, c1, c2, c3)`: four bytes as a little-endian number against the characters.
abbrev pub pack4 : ℕ → ℕ → ℕ → ℕ → ℕ
pack4 c0 c1 c2 c3 = c3 * 2 ^ 24 + c2 * 2 ^ 16 + c1 * 2 ^ 8 + c0

unfoldable pub str4_cmp : Mem → ℕ → ℕ → ℕ → ℕ → Result Bool
str4_cmp str c0 c1 c2 c3 = do
  b0 ← load str 0
  b1 ← load str 1
  b2 ← load str 2
  b3 ← load str 3
  ok (pack4 b0 b1 b2 b3 == pack4 c0 c1 c2 c3)

-- The port behind a host: "%hu" of what follows the colon, or 0.
unfoldable pub parse_port : Option (Bytes × Bytes) → ℕ
parse_port none = 0
parse_port (some (port, _)) = elim (scan_size port) [ none ↦ 0 | some (n, _) ↦ n % 2 ^ 16 ]

abbrev pub is_colon : ℕ → Bool
is_colon c = c == b':'

-- A server string, as `webcontrol_memcached_processconfig` takes it apart.
unfoldable pub parse_server : Bytes → Server
parse_server server = elim (strtok is_colon server) [
  | none ↦ (none, 0)
  | some (host, rest) ↦ (some host, parse_port (strtok is_colon rest))
]

-- The bytes of a key that is wholly written.
unfoldable pub key_bytes : Mem → Result Bytes
key_bytes [] = ok []
key_bytes (none ∷ m) = fault
key_bytes (some c ∷ m) = do t ← key_bytes m; ok (c ∷ t)

-- What a decision is cached as.
abbrev pub cached_value : Option HandlerStatus → Bytes
cached_value (some handler_allow) = codes "TRUE"
cached_value _ = codes "FALSE"

module _ (lib : Library) where
  -- `plugin_config`, the thread's handle in `memcached_tls_key`, and the state of the servers.
  pub record State : Type 0 where
    pub servers : Option (List Server)
    pub handle : Bool
    pub store : lib.Store

  -- `webcontrol_memcached_processconfig`; the section is none where the file has none. An empty list
  -- of servers is NULL.
  unfoldable pub process_config : Option (List Bytes) → State → Result State
  process_config none s = ok (record s { servers = none })
  process_config (some []) s = ok (record s { servers = none })
  process_config (some (c ∷ cs)) s = ok (record s { servers = some (map parse_server (c ∷ cs)) })

  -- `webcontrol_memcached_thread_init`; the flag says that it returns 0.
  unfoldable pub thread_init : State → Result (Bool × State)
  thread_init s =
      if lib.create && lib.push s.servers
      then ok (true, record s { handle = true })
      else ok (false, s)

  -- `webcontrol_memcached_generate_key` into a zeroed array of MEMCACHED_MAX_KEY bytes: the key that
  -- the first `key_len` bytes are.
  unfoldable pub generate_key : Request → Result Mem
  generate_key req = do
    let len = length key_prefix
    p ← memcpy (some (replicate lib.max_key (some 0))) 0 (cells key_prefix) len
    q ← memcpy p len (cells req.ip_addr.str) req.ip_addr.str_len
    elim q [ none ↦ fault | some key ↦ ok (take (len + req.ip_addr.str_len) key) ]

  -- What a value that was got means; libmemcached puts a NUL behind it.
  unfoldable pub read_status :
      Request → State → Option Bytes → Result (HandlerStatus × Request × State)
  read_status req s none = ok (handler_go_on, req, s)
  read_status req s (some value) = do
    same ← str4_cmp (cells value) b'T' b'R' b'U' b'E'
    ok (
      if same then handler_allow else handler_deny,
      record req { skip_post_handle_request = true },
      s,
    )

  unfoldable pub memcached_handle_request :
      Request → State → Result (HandlerStatus × Request × State)
  memcached_handle_request req s = do
    m ← generate_key req
    key ← key_bytes m
    if s.handle then read_status req s (lib.get s.store key) else fault

  unfoldable pub memcached_post_handle_request :
      Request → State → Result (HandlerStatus × Request × State)
  memcached_post_handle_request req s = do
    m ← generate_key req
    key ← key_bytes m
    if s.handle
        then ok (
          handler_ok,
          req,
          record s { store = (lib.set s.store key (cached_value req.result)).1 },
        )
        else fault

  -- `memcached_tls_key_free`, which libpthread calls for the handle of a thread that exits; it clears
  -- the value of the key.
  unfoldable pub memcached_tls_key_free : State → State
  memcached_tls_key_free s = record s { handle = false }

  -- `webcontrol_memcached_free`
  unfoldable pub memcached_free : State → Result State
  memcached_free s = ok (record s { servers = none })

  -- `webcontrol_mod_memcached_plugin_init`, with the configured section for its config hook.
  unfoldable pub memcached_plugin_init : Option (List Bytes) → Plugin State
  memcached_plugin_init section = record {
    name = some (codes "memcached");
    plugin_free = some memcached_free;
    thread_init = some thread_init;
    thread_free = none;
    config_file_parsed = some (process_config section);
    handle_request = some memcached_handle_request;
    options = some (codes "servers" ∷ []);
    post_handle_request = some memcached_post_handle_request;
  }
