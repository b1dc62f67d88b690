-- ===== src/Tests/Directory.antt =====
-- Runs of the Active Directory plugin: a host name, and a directory that gives one value for it.
use squid_helper.ActiveDirectory.Open.{thread_init-Opened, Opened}
use squid_helper.ActiveDirectory.Filter.{template_of}
use squid_helper.ActiveDirectory.Lookup.{IsSchema, looks_up_host}
use squid_helper.ActiveDirectory.{
  Ldap, Config, config_values_init, Directory, activedirectory_handle_request,
  activedirectory_thread_init,
}
use squid_helper.Netutil.{NameInfo, IsNameInfo}
use squid_helper.Memory.Laws.{IsNulFree}
use mathlib.Core.Option.{some-injective, none-ne-some}
use squid_helper.Types.{inet, unspec, handler_allow, Request}
use squid_helper.Memory.{Bytes, codes, ok}
use squid_helper.Base.{
  ℕ, ◌+◌, ◌≡◌, ◌<◌, refl, none, some, true, false, [], ◌∷◌, arith, length, ltb, ltb→lt, sym,
  Bool-cases, inl, inr, if◌then◌else◌,
}

abbrev host_name : Bytes
host_name = codes "pc7"

abbrev one_host : NameInfo
one_host a len = if ltb 3 len then some host_name else none

named_short : (len : ℕ) (host : Bytes) → one_host unspec len ≡ some host → length host < len
named_short len host e = elim (Bool-cases (ltb 3 len)) [
  | inl g ↦ rw (sym (some-injective host_name host (rw g at e))) (ltb→lt 3 len g)
  | inr g ↦ absurd (none-ne-some _ (rw g at e))
]

named_free : (len : ℕ) (host : Bytes) → one_host unspec len ≡ some host → IsNulFree host
named_free len host e = elim (Bool-cases (ltb 3 len)) [
  | inl g ↦ rw (sym (some-injective host_name host (rw g at e))) (ground arith)
  | inr g ↦ absurd (none-ne-some _ (rw g at e))
]

one_host-IsNameInfo : IsNameInfo one_host
one_host-IsNameInfo = record {
  short = λ a len host e. named_short len host e;
  free = λ a len host e. named_free len host e;
}

-- It counts the calls, and has the value "TRUE" for every entry.
abbrev one_directory : Ldap
one_directory = record {
  Con = ℕ;
  Net = ℕ;
  Message = ℕ;
  Entry = ℕ;
  initialize = λ uri n. (some 1, n + 1);
  sasl_bind = λ con dn password n. (some 2, n + 1);
  bind_result = λ con id n. (true, n + 1);
  search = λ con base filter attr n. (some 3, n + 1);
  search_result = λ con id n. (some 4, n + 1);
  first_entry = λ con message. some 5;
  first_attribute = λ con entry. some (codes "mayBrowse");
  get_values = λ con entry attr. some (codes "TRUE" ∷ []);
}

one_directory-IsSchema : IsSchema one_directory
one_directory-IsSchema = record {
  comparable = λ con entry attr values e. (
    codes "TRUE",
    [],
    sym (some-injective _ _ e),
    (omega arith, omega arith, omega arith, omega arith),
  );
}

abbrev before : Bytes
before = codes "(cn="

abbrev after : Bytes
after = codes ")"

abbrev one_config : Config
one_config = record config_values_init {
  uri = some (codes "ldap://dc");
  filter = some (template_of before after);
  filter_len = 7;
}

abbrev one_state : Directory one_directory
one_state = record { config = one_config; handle = some 1; net = 3 }

opens_connection :
    Opened one_directory
      (record one_state { handle = none })
      (activedirectory_thread_init one_directory (record one_state { handle = none }))
opens_connection = thread_init-Opened one_directory (record one_state { handle = none })

abbrev request : Request
request = record {
  result = none;
  skip_post_handle_request = false;
  channel = 9;
  ip_addr = record { sockaddr = inet 167772161; str = codes "10.0.0.1"; str_len = 8 };
}

allows_host :
    activedirectory_handle_request one_directory one_host (codes "isMemberOf") request one_state
    ≡ ok (handler_allow, request, record one_state { net = 5 })
allows_host =
    looks_up_host one_directory one_directory-IsSchema one_host one_host-IsNameInfo
      (codes "isMemberOf") request one_state 1 before after refl refl refl (ground arith)
      (ground arith) (ground arith) (ground arith) (omega arith)
