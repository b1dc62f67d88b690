-- ===== src/Tests/Store.antt =====
-- Runs of the memcached plugin, with a cache that keeps one entry.
use squid_helper.Memcached.Key.{key_of}
use squid_helper.Strtok.Laws.{str_equal_to_eq, str_equal_self}
use squid_helper.Memcached.Coherence.{AsBefore, Forgotten, Recalled, recalls, keeps_others, cached}
use squid_helper.Strtok.{str_equal}
use squid_helper.Memcached.{
  read_status, memcached_post_handle_request, memcached_handle_request, State, Library, IsCache,
}
use squid_helper.Base.{
  length, ap, true, false, none, some, refl, ◌≡◌, ◌⊎◌, inl, inr, Option, Bool-cases, if◌then◌else◌,
  arith,
}
use squid_helper.Memory.{ok, Bytes, codes}
use squid_helper.Types.{inet, Request, handler_go_on, handler_deny, handler_ok}

abbrev get_entry : Option (Bytes × Bytes) → Bytes → Option Bytes
get_entry none k = none
get_entry (some (j, v)) k = if str_equal j k then some v else none

abbrev pub one_entry : Library
one_entry = record {
  max_key = 251;
  Store = Option (Bytes × Bytes);
  create = true;
  push = λ servers. true;
  get = get_entry;
  set = λ s k v. (true, some (k, v));
}

pub one_entry-IsCache : IsCache one_entry
one_entry-IsCache = record {
  key_room = omega arith;
  get-set = λ s k v e. inl (rw (str_equal_self k));
  get-set_failed = λ s k v e. inl (rw (str_equal_self k));
  get-set_ne = λ s k j v ne. elim (Bool-cases (str_equal k j)) [
    | inl e ↦ absurd (ne (str_equal_to_eq k j e))
    | inr e ↦ inr (rw e)
  ];
}

abbrev pub ready : State one_entry
ready = record { servers = none; handle = true; store = none }

abbrev again : Request
again = record {
  result = none;
  skip_post_handle_request = false;
  channel = 9;
  ip_addr = record { sockaddr = inet 167772161; str = codes "10.0.0.1"; str_len = 8 };
}

abbrev denied : Request
denied = record again { result = some handler_deny }

abbrev other : Request
other = record again {
  ip_addr = record { sockaddr = inet 167772170; str = codes "10.0.0.10"; str_len = 9 };
}

repeated_lookup :
    (memcached_post_handle_request one_entry denied ready
      ≡ ok (handler_ok, denied, cached one_entry denied ready))
    × (((one_entry.set none (key_of (codes "10.0.0.1")) (codes "FALSE")).0 ≡ true
          × (Recalled one_entry denied again ready ⊎ Forgotten one_entry denied again ready))
        ⊎ ((one_entry.set none (key_of (codes "10.0.0.1")) (codes "FALSE")).0 ≡ false
            × (Recalled one_entry denied again ready
                ⊎ (Forgotten one_entry denied again ready
                    ⊎ AsBefore one_entry denied again ready))))
repeated_lookup =
    recalls one_entry one_entry-IsCache denied again ready
      (record { counted = refl; short = omega arith })
      (record { counted = refl; short = omega arith }) refl refl

other_address :
    (value : Option Bytes) × (memcached_handle_request one_entry other ready
      ≡ read_status one_entry other ready value)
    × ((memcached_handle_request one_entry other (cached one_entry denied ready)
          ≡ read_status one_entry other (cached one_entry denied ready) value)
        ⊎ (memcached_handle_request one_entry other (cached one_entry denied ready)
            ≡ ok (handler_go_on, other, cached one_entry denied ready)))
other_address =
    keeps_others one_entry one_entry-IsCache denied other ready
      (record { counted = refl; short = omega arith })
      (record { counted = refl; short = omega arith }) (λ e. omega (arith, ap length e)) refl
