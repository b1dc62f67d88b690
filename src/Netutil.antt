-- ===== src/Netutil.antt =====
-- src/core/webcontrol_netutil.c: the name of an address. The parameter is `getnameinfo` with
-- NI_NAMEREQD, on the address and the length of the array: the name, or none where it fails.
use squid_helper.Base.{ℕ, Option, none, some, length, ◌<◌, ◌≡◌}
use squid_helper.Memory.{Bytes, Result, ok, cells, ◌>>=◌}
use squid_helper.Memory.Laws.{IsNulFree}
use squid_helper.Types.{Sockaddr, Ipaddr}
use squid_helper.Buffer.{Buffer, buffer_init_string}

abbrev pub NameInfo : Type 0
NameInfo = Sockaddr → ℕ → Option Bytes

-- A name and its terminator are within the array.
pub record IsNameInfo (getnameinfo : NameInfo) : Type 0 where
  pub short :
      (a : Sockaddr) (len : ℕ) (host : Bytes) → getnameinfo a len ≡ some host → length host < len
  pub free :
      (a : Sockaddr) (len : ℕ) (host : Bytes) → getnameinfo a len ≡ some host → IsNulFree host

-- HOST_NAME_MAX of <limits.h>
abbrev pub host_name_max : ℕ
host_name_max = 64

module _ (getnameinfo : NameInfo) where
  -- `webcontrol_rdns_lookup` into an array of `len` bytes
  unfoldable pub rdns_lookup : Ipaddr → ℕ → Option Bytes
  rdns_lookup addr len = getnameinfo addr.sockaddr len

  -- `webcontrol_rdns_lookup_buf`
  unfoldable pub rdns_lookup_buf : Ipaddr → Result (Option Buffer)
  rdns_lookup_buf addr = elim (rdns_lookup addr host_name_max) [
    | none ↦ ok none
    | some host ↦ do b ← buffer_init_string (some (cells host)); ok (some b)
  ]
