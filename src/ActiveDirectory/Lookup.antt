-- ===== src/ActiveDirectory/Lookup.antt =====
-- What webcontrol_activedirectory_handle_request answers.
use squid_helper.Scanf.RoundTrip.{c_string_lem}
use squid_helper.Memory.Laws.{IsNulFree}
use squid_helper.Strtok.Laws.{IsToken}
use squid_helper.Plugins.{string_of}
use squid_helper.Netutil.{host_name_max, rdns_lookup, IsNameInfo, NameInfo}
use squid_helper.Memcached.Key.{str4_cmp_lem}
use squid_helper.Base.{
  All-append, length-append, map, ◌&&◌, ℕ, ◌+◌, ◌<◌, ◌^◌, ◌≡◌, inl, inr, ◌==◌, Option, none, some,
  List, [], ◌∷◌, ◌++◌, length, arith, ap, Option-cases, if◌then◌else◌,
}
use squid_helper.Memory.{Bytes, ok}
use squid_helper.Types.{HandlerStatus, handler_go_on, handler_allow, handler_deny, Request}
use squid_helper.ActiveDirectory.{
  ask_over, attribute_of, ask_directory, activedirectory_handle_request, search_status,
  read_attribute, Ldap, Directory, read_message, first_value,
}
use squid_helper.ActiveDirectory.Filter.{assemble_filter_lem, is_percent, template_of}

-- The verdict on the first value of the attribute, if the directory gives one.
abbrev pub verdict : Option Bytes → HandlerStatus
verdict none = handler_go_on
verdict (some (a ∷ b ∷ c ∷ d ∷ v)) =
    if a == b'T' && (b == b'R' && (c == b'U' && d == b'E')) then handler_allow else handler_deny
verdict (some _) = handler_go_on

-- At least four bytes, as the comparison reads.
abbrev pub IsComparable : Bytes → Type 0
IsComparable (a ∷ b ∷ c ∷ d ∷ v) = (a < 256) × (b < 256) × (c < 256) × (d < 256)
IsComparable _ = ⊥

module _ (ldap : Ldap) where
  abbrev pub values_of : ldap.Con → ldap.Entry → Option Bytes → Option (List Bytes)
  values_of con entry none = none
  values_of con entry (some attr) = ldap.get_values con entry attr

  abbrev pub entry_values : ldap.Con → Option ldap.Entry → Option (List Bytes)
  entry_values con none = none
  entry_values con (some entry) = values_of con entry (ldap.first_attribute con entry)

  abbrev pub head_of : Option (List Bytes) → Option Bytes
  head_of none = none
  head_of (some []) = none
  head_of (some (v ∷ values)) = some v

  -- What the directory says in a message: the first value of the first attribute of its first entry.
  abbrev pub value_of : ldap.Con → Option ldap.Message → Option Bytes
  value_of con none = none
  value_of con (some message) = head_of (entry_values con (ldap.first_entry con message))

  -- The values that the directory gives are not empty, and the first is long enough.
  pub record IsSchema : Type 0 where
    pub comparable :
        (con : ldap.Con) (entry : ldap.Entry) (attr : Bytes) (values : List Bytes)
        → ldap.get_values con entry attr ≡ some values
        → (v : Bytes) × (rest : List Bytes) × (values ≡ v ∷ rest) × IsComparable v

  first_value_lem :
      (v : Bytes) (rest : List Bytes)
      → IsComparable v
      → first_value (v ∷ rest) ≡ ok (verdict (some v))
  unfolding first_value
  first_value_lem [] rest h = absurd h
  first_value_lem (a ∷ []) rest h = absurd h
  first_value_lem (a ∷ b ∷ []) rest h = absurd h
  first_value_lem (a ∷ b ∷ c ∷ []) rest h = absurd h
  first_value_lem (a ∷ b ∷ c ∷ d ∷ v) rest h =
      rw (str4_cmp_lem a b c d (map some v ++ some 0 ∷ []) h.0 h.1 h.2 h.3)

  module _ (schema : IsSchema) where
    read_attribute_lem :
        (con : ldap.Con) (entry : ldap.Entry)
        → read_attribute ldap con entry
          ≡ ok (verdict (head_of (values_of con entry (ldap.first_attribute con entry))))
    unfolding read_attribute
    read_attribute_lem con entry = elim (Option-cases (ldap.first_attribute con entry)) [
      | inl e ↦ rw (read_attribute, e)
      | inr (attr, e) ↦ elim (Option-cases (ldap.get_values con entry attr)) [
        | inl g ↦ rw (read_attribute, e, g)
        | inr (values, g) ↦
            let (v, rest, q, h) = schema.comparable con entry attr values g in
            rw (read_attribute, e, g, q, first_value_lem v rest h)
      ]
    ]

    read_message_lem :
        (con : ldap.Con) (message : ldap.Message)
        → read_message ldap con message ≡ ok (verdict (value_of con (some message)))
    unfolding read_message
    read_message_lem con message = elim (Option-cases (ldap.first_entry con message)) [
      | inl e ↦ rw (read_message, e)
      | inr (entry, e) ↦ rw (read_message, e) (read_attribute_lem con entry)
    ]

    -- The message that a search gets, and the state of the servers after it.
    abbrev pub received : ldap.Con → Option ℕ × ldap.Net → Option ldap.Message × ldap.Net
    received con (none, net) = (none, net)
    received con (some id, net) = ldap.search_result con id net

    abbrev pub asked : ldap.Con → Bytes → Bytes → Directory ldap → Option ldap.Message × ldap.Net
    asked con filter attr s = received con (ldap.search con s.config.basedn filter attr s.net)

    search_status_lem :
        (con : ldap.Con) (filter attr : Bytes) (s : Directory ldap)
        → search_status ldap con filter attr s
          ≡ ok (
            verdict (value_of con (asked con filter attr s).0),
            record s { net = (asked con filter attr s).1 },
          )
    unfolding search_status
    search_status_lem con filter attr s =
        let (msgid, net) = ldap.search con s.config.basedn filter attr s.net in
        elim (Option-cases msgid) [
          | inl e ↦ rw (search_status, e)
          | inr (id, e) ↦ elim (Option-cases (ldap.search_result con id net).0) [
            | inl g ↦ rw (search_status, e, g)
            | inr (message, g) ↦ rw (search_status, e, g, read_message_lem con message)
          ]
        ]

    -- The answer for a host name, if the address has one.
    abbrev pub looked_up :
        ldap.Con
        → Bytes
        → Bytes
        → Bytes
        → Option Bytes
        → Request
        → Directory ldap
        → HandlerStatus × Request × Directory ldap
    looked_up con before after attr none req s = (handler_go_on, req, s)
    looked_up con before after attr (some host) req s =
        let (message, net) = asked con (before ++ (host ++ after)) attr s in
        (verdict (value_of con message), req, record s { net = net })

    module _ (getnameinfo : NameInfo) (names : IsNameInfo getnameinfo)
        (default_attribute : Bytes) where
      ask_directory_lem :
          (host : Bytes) (req : Request) (s : Directory ldap) (con : ldap.Con)
          (before after : Bytes)
          → s.handle ≡ some con
          → s.config.filter ≡ some (template_of before after)
          → s.config.filter_len ≡ length (template_of before after)
          → IsToken is_percent before
          → IsToken is_percent after
          → IsNulFree (before ++ (host ++ after))
          → length (before ++ (host ++ after)) < 2 ^ 62
          → ask_directory ldap getnameinfo default_attribute host req s
            ≡ ok (
                looked_up con before after
                  (attribute_of default_attribute s.config.attribute_name)
                  (some host)
                  req
                  s)
      unfolding ask_directory string_of ask_over
      ask_directory_lem host req s con before after c e l h k z f =
          let a = assemble_filter_lem s.config before after host e l h k f in
          let filter : string_of a.buf ≡ ok (before ++ (host ++ after)) =
            rw (string_of, a.ptr) (c_string_lem (before ++ (host ++ after)) a.more z) in
          let attr = attribute_of default_attribute s.config.attribute_name in
          let over : ask_over ldap getnameinfo default_attribute s.handle
                (before ++ (host ++ after)) req s
              ≡ ask_over ldap getnameinfo default_attribute (some con) (before ++ (host ++ after))
                  req s =
            ap
              (λ q. ask_over ldap getnameinfo default_attribute q (before ++ (host ++ after)) req s)
              c in
          rw (
            ask_directory,
            a.result,
            filter,
            over,
            ask_over,
            search_status_lem con (before ++ (host ++ after)) attr s,
          )

      -- On a thread with a connection, with a template of one "%s" and no other conversion,
      -- shorter than 2^61 bytes, whose length is stored, and a directory whose values are never
      -- empty and at least four bytes long: a request is handled with no fault. Without a host
      -- name it goes on; with one, the directory is asked once, for the template with the name
      -- filled in, and the first value it gives decides: allow if it starts with TRUE, deny if
      -- not, go on if there is none.
      pub looks_up_host :
          (req : Request) (s : Directory ldap) (con : ldap.Con) (before after : Bytes)
          → s.handle ≡ some con
          → s.config.filter ≡ some (template_of before after)
          → s.config.filter_len ≡ length (template_of before after)
          → IsToken is_percent before
          → IsToken is_percent after
          → IsNulFree before
          → IsNulFree after
          → length before + length after < 2 ^ 61
          → activedirectory_handle_request ldap getnameinfo default_attribute req s
            ≡ ok (
                looked_up con before after
                  (attribute_of default_attribute s.config.attribute_name)
                  (getnameinfo req.ip_addr.sockaddr host_name_max)
                  req
                  s)
      unfolding activedirectory_handle_request rdns_lookup
      looks_up_host req s con before after c e l h k zb za f =
          elim (Option-cases (getnameinfo req.ip_addr.sockaddr host_name_max)) [
            | inl g ↦ rw (activedirectory_handle_request, g)
            | inr (host, g) ↦
                let short = names.short req.ip_addr.sockaddr host_name_max host g in
                let free = names.free req.ip_addr.sockaddr host_name_max host g in
                let size = length-append before (host ++ after) in
                let size' = length-append host after in
                rw (activedirectory_handle_request, g)
                  (ask_directory_lem host req s con before after c e l h k
                    (All-append _ before (host ++ after) zb (All-append _ host after free za))
                    (omega arith))
          ]
