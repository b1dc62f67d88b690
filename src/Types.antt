-- ===== src/Types.antt =====
-- The types of src/core/webcontrol_base.h, webcontrol_request.h and webcontrol_plugin.h, and the
-- calls of <arpa/inet.h> that the sources make.
use native.Mathlib.Decide.{ℕ_discrete}
use squid_helper.Base.{List, refl, ◌≡◌, false, ◌≢◌, true, ℕ, Bool, Option}
use squid_helper.Memory.{Bytes, Result}

-- `handler_status`
pub data HandlerStatus : Type 0 where
  handler_go_on handler_allow handler_deny handler_ok handler_error : HandlerStatus

-- A `struct sockaddr_storage` by its `ss_family`: zeroed, AF_INET with its address, or AF_INET6 with
-- the bytes of its address.
pub data Sockaddr : Type 0 where
  unspec : Sockaddr
  inet : ℕ → Sockaddr
  inet6 : Bytes → Sockaddr

-- `ss_family` is still AF_UNSPEC.
abbrev pub is_unspec : Sockaddr → Bool
is_unspec unspec = true
is_unspec _ = false

pub is_unspec_of_ne : (a : Sockaddr) → a ≢ unspec → is_unspec a ≡ false
is_unspec_of_ne unspec h = absurd (h refl)
is_unspec_of_ne (inet a) h = refl
is_unspec_of_ne (inet6 a) h = refl

pub Sockaddr-discrete : Discrete Sockaddr
Sockaddr-discrete = hlevel ℕ_discrete

-- `ipaddr`
pub record Ipaddr : Type 0 where
  pub sockaddr : Sockaddr
  pub str : Bytes
  pub str_len : ℕ

-- `request`; the result is the `int` of `response`, with `none` for -1.
pub record Request : Type 0 where
  pub result : Option HandlerStatus
  pub skip_post_handle_request : Bool
  pub channel : ℕ
  pub ip_addr : Ipaddr

-- `inet_pton` for the two families: the address, or none where it returns 0.
pub record InetPton : Type 0 where
  pub inet_pton4 : Bytes → Option ℕ
  pub inet_pton6 : Bytes → Option Bytes

-- `plugin`, its hooks as functions on the state `W` that the plugins keep; a NULL hook is `none`.
-- A hook that takes the request returns it with its changes. `options` names the options of the
-- plugin's section of the configuration file.
pub record Plugin (W : Type 0) : Type 0 where
  pub name : Option Bytes
  pub plugin_free : Option (W → Result W)
  pub thread_init : Option (W → Result (Bool × W))
  pub thread_free : Option (W → Result W)
  pub config_file_parsed : Option (W → Result W)
  pub handle_request : Option (Request → W → Result (HandlerStatus × Request × W))
  pub options : Option (List Bytes)
  pub post_handle_request : Option (Request → W → Result (HandlerStatus × Request × W))
