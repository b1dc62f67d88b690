-- ===== src/Tests.antt =====
-- Concrete runs of the properties: the addresses, plugins, buffers and inputs that they share.
mod Lines
mod Answers
mod Store
mod Loading
mod Threads
mod Launching
mod Directory
mod Cached
mod OneLine
mod Running
mod Whole
use squid_helper.Worker.Contract.{Contract}
use squid_helper.Worker.{Core}
use squid_helper.Strtok.{str_equal}
use squid_helper.Buffer.Holds.{stored, Holds}
use squid_helper.Buffer.{Buffer}
use mathlib.Core.Option.{some-injective}
use squid_helper.Base.{
  All, ℕ, zero, suc, true, false, none, some, [], ◌∷◌, ◌++◌, refl, ◌≡◌, ◌+◌, ◌⊎◌, inl, inr, sym, ap,
  if◌then◌else◌, length, Option, arith, replicate, ◌-◌,
}
use squid_helper.Memory.{Bytes, Result, ok, codes, malloc}
use squid_helper.Types.{
  Plugin, Request, HandlerStatus, handler_allow, handler_deny, handler_go_on, InetPton,
}
use squid_helper.Worker.Consult.{Keeps}

-- An `inet_pton` that knows one address of each family.
abbrev pub two_addresses : InetPton
two_addresses = record {
  inet_pton4 = λ t. if str_equal t (codes "10.0.0.1") then some 167772161 else none;
  inet_pton6 = λ t. if str_equal t (codes "::1") then some (replicate 15 0 ++ 1 ∷ []) else none;
}

-- A request handler that counts its calls and always gives one status.
abbrev pub counting : HandlerStatus → Request → ℕ → Result (HandlerStatus × Request × ℕ)
counting status req w = ok (status, req, w + 1)

abbrev pub plugin_of : HandlerStatus → Plugin ℕ
plugin_of status = record {
  name = none;
  plugin_free = none;
  thread_init = none;
  thread_free = none;
  config_file_parsed = none;
  handle_request = some (counting status);
  options = none;
  post_handle_request = some (counting handler_go_on);
}

abbrev pub Always : {A B : Type 0} → A → B → Type 0
Always a b = Unit

pub plugin_of-Keeps : (status : HandlerStatus) → Keeps Always (plugin_of status)
plugin_of-Keeps status = record {
  handles = λ handler req w e d. elim e [
    | inl q ↦ (
      status,
      req,
      w + 1,
      ap (λ f. f req w) (sym (some-injective (counting status) handler q)),
      refl,
      tt,
    )
    | inr q ↦ (
      handler_go_on,
      req,
      w + 1,
      ap (λ f. f req w) (sym (some-injective (counting handler_go_on) handler q)),
      refl,
      tt,
    )
  ];
}

-- A core whose hooks always return owes nothing more.
abbrev pub free_contract : (core : Core ℕ) → All (Keeps Always) core.plugins → Contract core
free_contract core hooks = record {
  Inv = λ w. Unit;
  During = Always;
  enters = λ channel str w i l n. tt;
  leaves = λ req w d. tt;
  set_result = λ req w r d. tt;
  hooks = hooks;
}

-- A buffer of one piece that holds a string.
abbrev pub piece : Bytes → Buffer
piece t = record {
  ptr = some (stored t (malloc (63 - length t)));
  len = length t + 1;
  capacity = 64;
}

abbrev pub partial_line : Bytes
partial_line = codes "7 10.0"

pub piece-Holds : Holds (piece partial_line) (some partial_line)
piece-Holds = record {
  valid = record { sized = refl; rounded = refl };
  content = (malloc (63 - length partial_line), refl, refl);
}
