-- ===== src/Tests/Cached.antt =====
-- Runs of the worker with the cache and the hosts file: the same address twice, and a text that is none.
use squid_helper.Worker.Heed.{Heeds}
use squid_helper.Worker.Respond.{fails_closed, Guarded}
use squid_helper.Buffer.Holds.{stored}
use squid_helper.Scanf.{
  take_word, read_digits, starts_digit, scan_digits, skip_space, scan_sign, scan_size, scan_request,
}
use squid_helper.Input.Stream.{joined}
use squid_helper.Combined.Contract.{cached_contract, Decisions}
use squid_helper.Combined.{cached_core}
use squid_helper.Combined.Agree.{absent}
use squid_helper.Combined.Transparent.{cache_transparent, uncached, InAgreement}
use squid_helper.Memcached.{State}
use squid_helper.Tests.{two_addresses}
use squid_helper.Tests.Store.{one_entry, one_entry-IsCache, ready}
use squid_helper.Txtfile.Answer.{file_core}
use squid_helper.Txtfile.{PluginData}
use squid_helper.Types.{inet, handler_allow}
use squid_helper.Worker.{handle_line, Work, work}
use squid_helper.Worker.Jobs.{work_lem, Answers, job}
use squid_helper.Memory.{Bytes, codes, ok}
use squid_helper.Base.{inl, ◌≡◌, ◌++◌, ◌∷◌, [], List, Option, none, true, map, refl, arith}

abbrev pub no_files : Bytes → Option Bytes
no_files name = none

abbrev pub one_rule : PluginData
one_rule = record {
  filename = codes "hosts";
  entry_chain = record { address = inet 167772161; flag = handler_allow } ∷ [];
  watching = true;
  stdout = [];
}

abbrev fresh : Work (State one_entry × PluginData)
fresh = record { stdout = []; state = (ready, one_rule) }

abbrev three_lines : List Bytes
three_lines = codes "7 10.0.0.1" ∷ codes "8 10.0.0.1" ∷ codes "9 nobody" ∷ []

fresh-InAgreement :
    InAgreement one_entry one_entry-IsCache none true true two_addresses no_files fresh
fresh-InAgreement = record { handle = refl; entry = λ ip. absent refl }

serve_cached :
    (s : Work (State one_entry × PluginData)) × (work
        (cached_core one_entry none true true two_addresses no_files)
        (map job three_lines ++ none ∷ [])
        fresh
      ≡ ok (s, [], true))
    × (work
          (file_core true true two_addresses no_files)
          (map job three_lines ++ none ∷ [])
          (uncached one_entry one_entry-IsCache none true true two_addresses no_files fresh)
        ≡ ok (
          uncached one_entry one_entry-IsCache none true true two_addresses no_files s,
          [],
          true,
        ))
    × InAgreement one_entry one_entry-IsCache none true true two_addresses no_files s
serve_cached =
    cache_transparent one_entry one_entry-IsCache none true true two_addresses no_files three_lines
      [] fresh fresh-InAgreement (ground arith, (ground arith, (ground arith, tt)))

ready-Decisions : Decisions one_entry ready
ready-Decisions = record { handle = refl; entry = λ ip. inl refl }

serve_three :
    (s' : Work (State one_entry × PluginData)) × (replies : List Bytes) × (work
        (cached_core one_entry none true true two_addresses no_files)
        (map job three_lines ++ none ∷ none ∷ [])
        fresh
      ≡ ok (s', none ∷ [], true))
    × (s'.stdout ≡ fresh.stdout ++ joined replies)
    × Answers 45 three_lines replies
serve_three =
    work_lem (cached_core one_entry none true true two_addresses no_files)
      (cached_contract one_entry one_entry-IsCache none true true two_addresses no_files)
      three_lines (none ∷ []) fresh ready-Decisions
      (ground arith, (ground arith, (ground arith, tt)))

stays_closed :
    (s' : Work (State one_entry × PluginData)) × (reply : Bytes) × (handle_line
        (cached_core one_entry none true true two_addresses no_files)
        (stored (codes "8 10.0.0.1") [])
        fresh
      ≡ ok s')
    × (s'.stdout ≡ fresh.stdout ++ reply)
    × Guarded
        (cached_core one_entry none true true two_addresses no_files)
        8
        (codes "10.0.0.1")
        (ready, one_rule)
        reply
    × Heeds 45 (codes "8 10.0.0.1") (8, codes "10.0.0.1")
unfolding scan_request scan_size scan_sign skip_space scan_digits starts_digit read_digits take_word
stays_closed =
    fails_closed (cached_core one_entry none true true two_addresses no_files)
      (cached_contract one_entry one_entry-IsCache none true true two_addresses no_files)
      (codes "8 10.0.0.1") [] fresh ready-Decisions refl (ground arith)
