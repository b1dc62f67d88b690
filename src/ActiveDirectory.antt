-- ===== src/ActiveDirectory.antt =====
-- src/plugins/mod_activedirectory/webcontrol_activedirectory.c: the plugin that asks a directory
-- about the name of a host. libldap and the servers behind it are the parameter `Ldap`.
pub mod Filter
pub mod Lookup
pub mod Open
use squid_helper.Plugins.{string_of}
use squid_helper.Netutil.{host_name_max, rdns_lookup, NameInfo}
use squid_helper.Memcached.{str4_cmp}
use squid_helper.Base.{
  ℕ, ◌+◌, ◌-◌, ◌%◌, ◌==◌, Bool, true, false, Option, none, some, List, [], ◌∷◌, ◌++◌, length,
  size_mod, if◌then◌else◌,
}
use squid_helper.Memory.{Bytes, Result, ok, fault, ◌>>=◌, cells, codes, memcpy}
use squid_helper.Types.{HandlerStatus, handler_go_on, handler_allow, handler_deny, Request, Plugin}
use squid_helper.Buffer.{Buffer, made, buffer_init, buffer_prepare_copy}

-- What the plugin calls: `ldap_initialize`, `ldap_sasl_bind`, `ldap_result` for the bind, with
-- LDAP_RES_BIND or not, `ldap_search_ext` and `ldap_result` for one entry, each none where it fails,
-- on the state of the servers; and the functions that read a message.
pub record Ldap : Type 1 where
  pub Con : Type 0
  pub Net : Type 0
  pub Message : Type 0
  pub Entry : Type 0
  pub initialize : Bytes → Net → Option Con × Net
  pub sasl_bind : Con → Option Bytes → Option Bytes → Net → Option ℕ × Net
  pub bind_result : Con → ℕ → Net → Bool × Net
  pub search : Con → Option Bytes → Bytes → Bytes → Net → Option ℕ × Net
  pub search_result : Con → ℕ → Net → Option Message × Net
  pub first_entry : Con → Message → Option Entry
  pub first_attribute : Con → Entry → Option Bytes
  pub get_values : Con → Entry → Bytes → Option (List Bytes)

-- `plugin_config`
pub record Config : Type 0 where
  pub uri : Option Bytes
  pub bind_dn : Option Bytes
  pub bind_password : Option Bytes
  pub basedn : Option Bytes
  pub filter : Option Bytes
  pub filter_len : ℕ
  pub attribute_name : Option Bytes

-- `config_values_init`
abbrev pub config_values_init : Config
config_values_init = record {
  uri = none;
  bind_dn = none;
  bind_password = none;
  basedn = none;
  filter = none;
  filter_len = 0;
  attribute_name = none;
}

-- What `sprintf` makes of a format and one string: "%s" once and "%%"; a second "%s" has no argument,
-- and another conversion has none of its type.
unfoldable pub format_string : Bytes → Option Bytes → Result Bytes
format_string [] arg = ok []
format_string (c ∷ []) arg = if c == b'%' then fault else ok (c ∷ [])
format_string (c ∷ d ∷ t) arg =
    let plain = (do rest ← format_string (d ∷ t) arg; ok (c ∷ rest)) in
    let percent = (do rest ← format_string t arg; ok (b'%' ∷ rest)) in
    let filled : Result Bytes = (do
      rest ← format_string t none
      elim arg [ none ↦ fault | some s ↦ ok (s ++ rest) ]) in
    if c == b'%'
    then (if d == b'%' then percent else if d == b's' then filled else fault)
    else plain

-- The filter for a host: the text is written over the block of a new buffer. A NULL template is
-- undefined.
unfoldable pub assemble_filter : Config → Bytes → Result Buffer
assemble_filter config hostname = do
  let filter_len = (length hostname + config.filter_len + size_mod - 2) % size_mod
  b ← made (buffer_prepare_copy (some buffer_init) filter_len)
  elim config.filter [
    | none ↦ fault
    | some template ↦ do
      text ← format_string template (some hostname)
      p ← memcpy b.ptr 0 (cells text) (length text + 1)
      ok (record b { ptr = p; len = filter_len })
  ]

-- The status for the values of the attribute: `values[0]` is NULL where there is none.
unfoldable pub first_value : List Bytes → Result HandlerStatus
first_value [] = fault
first_value (v ∷ values) = do
  same ← str4_cmp (cells v) b'T' b'R' b'U' b'E'
  ok (if same then handler_allow else handler_deny)

-- The attribute's name; the default is a macro.
abbrev pub attribute_of : Bytes → Option Bytes → Bytes
attribute_of default_attribute none = default_attribute
attribute_of default_attribute (some name) = name

module _ (ldap : Ldap) where
  -- The plugin's configuration, the thread's connection under `ldap_key`, and the servers.
  pub record Directory : Type 0 where
    pub config : Config
    pub handle : Option ldap.Con
    pub net : ldap.Net

  -- `webcontrol_activedirectory_ldap_open` by its calls, each with what it gave; the flag says that
  -- it returns 0. Of the answer to the bind only the
  -- kind is looked at, not its result code.
  unfoldable pub on_bind_result : ldap.Con → Bool × ldap.Net → Directory → Bool × Directory
  on_bind_result con (true, net) s = (true, record s { handle = some con; net = net })
  on_bind_result con (false, net) s = (false, record s { net = net })

  unfoldable pub on_bind : ldap.Con → Option ℕ × ldap.Net → Directory → Bool × Directory
  on_bind con (none, net) s = (false, record s { net = net })
  on_bind con (some msgid, net) s = on_bind_result con (ldap.bind_result con msgid net) s

  unfoldable pub on_initialize : Option ldap.Con × ldap.Net → Directory → Bool × Directory
  on_initialize (none, net) s = (false, record s { net = net })
  on_initialize (some con, net) s =
      on_bind con (ldap.sasl_bind con s.config.bind_dn s.config.bind_password net) s

  unfoldable pub on_uri : Option Bytes → Directory → Bool × Directory
  on_uri none s = (false, s)
  on_uri (some uri) s = on_initialize (ldap.initialize uri s.net) s

  unfoldable pub ldap_open : Directory → Bool × Directory
  ldap_open s = on_uri s.config.uri s

  -- `webcontrol_activedirectory_thread_init`, and `webcontrol_activedirectory_thread_free`, which does
  -- nothing.
  unfoldable pub activedirectory_thread_init : Directory → Result (Bool × Directory)
  activedirectory_thread_init s = ok (ldap_open s)

  unfoldable pub activedirectory_thread_free : Directory → Result Directory
  activedirectory_thread_free s = ok s

  -- `ldap_key_destruct`, which libpthread calls for the connection of a thread that exits: it unbinds,
  -- of which the model has no effect, and clears the value of the key.
  unfoldable pub ldap_key_destruct : Directory → Directory
  ldap_key_destruct s = record s { handle = none }

  -- The status that a message with an entry gives.
  unfoldable pub read_attribute : ldap.Con → ldap.Entry → Result HandlerStatus
  read_attribute con entry = elim (ldap.first_attribute con entry) [
    | none ↦ ok handler_go_on
    | some attr ↦ elim (ldap.get_values con entry attr) [
      | none ↦ ok handler_go_on
      | some values ↦ first_value values
    ]
  ]

  unfoldable pub read_message : ldap.Con → ldap.Message → Result HandlerStatus
  read_message con message = elim (ldap.first_entry con message) [
    | none ↦ ok handler_go_on
    | some entry ↦ read_attribute con entry
  ]

  -- The search with an assembled filter, for one attribute.
  unfoldable pub search_status :
      ldap.Con → Bytes → Bytes → Directory → Result (HandlerStatus × Directory)
  search_status con filter attr s =
      let (msgid, net) = ldap.search con s.config.basedn filter attr s.net in
      elim msgid [
        | none ↦ ok (handler_go_on, record s { net = net })
        | some id ↦
            let (message, net') = ldap.search_result con id net in
            elim message [
              | none ↦ ok (handler_go_on, record s { net = net' })
              | some m ↦ do status ← read_message con m; ok (status, record s { net = net' })
            ]
      ]

  module _ (getnameinfo : NameInfo) (default_attribute : Bytes) where
    -- The search over the thread's connection; the calls with a NULL connection are undefined.
    unfoldable pub ask_over :
        Option ldap.Con → Bytes → Request → Directory → Result (HandlerStatus × Request × Directory)
    ask_over none filter req s = fault
    ask_over (some con) filter req s = do
      (status, s') ←
          search_status con filter (attribute_of default_attribute s.config.attribute_name) s
      ok (status, req, s')

    -- A request whose host has a name.
    unfoldable pub ask_directory :
        Bytes → Request → Directory → Result (HandlerStatus × Request × Directory)
    ask_directory hostname req s = do
      b ← assemble_filter s.config hostname
      filter ← string_of b
      ask_over s.handle filter req s

    -- `webcontrol_activedirectory_handle_request`
    unfoldable pub activedirectory_handle_request :
        Request → Directory → Result (HandlerStatus × Request × Directory)
    activedirectory_handle_request req s =
        elim (rdns_lookup getnameinfo req.ip_addr host_name_max) [
          | none ↦ ok (handler_go_on, req, s)
          | some hostname ↦ ask_directory hostname req s
        ]

    -- `webcontrol_activedirectory_processconfig`
    unfoldable pub activedirectory_processconfig : Directory → Result Directory
    activedirectory_processconfig s = elim s.config.filter [
      | none ↦ ok s
      | some template ↦ ok (record s { config = record s.config { filter_len = length template } })
    ]

    -- `webcontrol_activedirectory_plugin_free`
    unfoldable pub activedirectory_plugin_free : Directory → Result Directory
    activedirectory_plugin_free s = ok s

    -- `webcontrol_mod_activedirectory_plugin_init`
    unfoldable pub activedirectory_plugin_init : Plugin Directory
    activedirectory_plugin_init = record {
      name = some (codes "ActiveDirectory");
      plugin_free = some activedirectory_plugin_free;
      thread_init = some activedirectory_thread_init;
      thread_free = some activedirectory_thread_free;
      config_file_parsed = some activedirectory_processconfig;
      handle_request = some activedirectory_handle_request;
      options = some (
          codes "uri"
          ∷ codes "bind_dn"
          ∷ codes "bind_password"
          ∷ codes "basedn"
          ∷ codes "filter"
          ∷ codes "attribute_name"
          ∷ []);
      post_handle_request = none;
    }
