-- ===== src/Combined/Transparent.antt =====
-- The loop of worker in src/core/main.c, with the cache in front of the hosts file and without it.
use squid_helper.Scanf.RoundTrip.{scan_request-short, c_string_lem}
use squid_helper.Worker.Jobs.{job}
use squid_helper.Scanf.{scan_request}
use squid_helper.Buffer.Holds.{stored}
use squid_helper.Memory.Laws.{IsNulFree}
use squid_helper.Memcached.Key.{key_of}
use squid_helper.Combined.{cached_core}
use squid_helper.Combined.Agree.{Agree, Entry, absent, allowed, denied, store-Agree}
use squid_helper.Combined.Lookup.{stored_for, hit_allow, hit_deny, miss}
use squid_helper.Memcached.{Library, IsCache, State}
use squid_helper.Txtfile.Answer.{file_core, reply, dispatch_status}
use squid_helper.Txtfile.{PluginData, find_flag, txtfile_handle_request}
use squid_helper.Worker.{
  Core, Work, dispatch, handle_address, handle_line, new_request, resolve, response, word_width,
  work,
}
use squid_helper.Types.{
  is_unspec_of_ne, Sockaddr-discrete, HandlerStatus, handler_go_on, handler_allow, handler_deny,
  handler_ok, handler_error, InetPton, unspec,
}
use squid_helper.Memory.{codes, Bytes, Mem, Result, ok}
use squid_helper.Base.{
  [], ◌∷◌, map, arith, All, List, ℕ, ◌≡◌, ◌≤◌, ◌++◌, refl, true, false, none, some, Option, Bool,
  length, inl, inr,
}

pub width_short : (b : Bool) (n : ℕ) → n ≤ word_width b → n ≤ 45
width_short true n h = h
width_short false n h = omega (arith, h)

module _ (lib : Library) (cache : IsCache lib) (section : Option (List Bytes))
    (have_ipv6 deny : Bool) (pton : InetPton) (fopen : Bytes → Option Bytes) where
  abbrev with_cache : Core (State lib × PluginData)
  with_cache = cached_core lib section have_ipv6 deny pton fopen

  abbrev without : Core PluginData
  without = file_core have_ipv6 deny pton fopen

  -- What is left without the cache.
  abbrev pub uncached : Work (State lib × PluginData) → Work PluginData
  uncached s = record { stdout = s.stdout; state = s.state.1 }

  abbrev pub InAgreement : Work (State lib × PluginData) → Type 0
  InAgreement s = Agree lib (resolve have_ipv6 pton) s.state.0 s.state.1

  -- The two results are the same but for the cache, which agrees with the file again.
  record Alike (r : Result (Work (State lib × PluginData))) (f : Result (Work PluginData))
      : Type 0 where
    out : Work (State lib × PluginData)
    result : r ≡ ok out
    file : f ≡ ok (uncached out)
    agree : InAgreement out

  stored_for-Agree :
      (v : HandlerStatus) (ip : Bytes) (m : State lib) (pd : PluginData)
      → find_flag (resolve have_ipv6 pton ip) pd.entry_chain ≡ v
      → Agree lib (resolve have_ipv6 pton) m pd
      → Agree lib
          (resolve have_ipv6 pton)
          (stored_for lib cache section have_ipv6 deny pton fopen v ip m)
          pd
  stored_for-Agree handler_go_on ip m pd f a = a
  stored_for-Agree handler_ok ip m pd f a = a
  stored_for-Agree handler_error ip m pd f a = a
  stored_for-Agree handler_allow ip m pd f a =
      store-Agree lib (resolve have_ipv6 pton) cache m pd ip handler_allow f (inl refl) a
  stored_for-Agree handler_deny ip m pd f a =
      store-Agree lib (resolve have_ipv6 pton) cache m pd ip handler_deny f (inr refl) a

  alone :
      (channel : ℕ) (ip : Bytes) (s : Work (State lib × PluginData)) (v : HandlerStatus)
      → find_flag (resolve have_ipv6 pton ip) s.state.1.entry_chain ≡ v
      → dispatch without (new_request channel ip (resolve have_ipv6 pton ip)) (uncached s)
        ≡ ok (record {
          stdout = s.stdout ++ response channel (reply deny v).0 (reply deny v).1;
          state = s.state.1;
        })
  unfolding new_request txtfile_handle_request
  alone channel ip s v f =
      dispatch_status have_ipv6 deny pton fopen v
        (new_request channel ip (resolve have_ipv6 pton ip)) (uncached s) (rw f) refl

  dispatch-Alike :
      (channel : ℕ) (ip : Bytes) (s : Work (State lib × PluginData))
      → length ip ≤ 45
      → InAgreement s
      → Entry
          (find_flag (resolve have_ipv6 pton ip) s.state.1.entry_chain)
          (lib.get s.state.0.store (key_of ip))
      → Alike
          (dispatch with_cache (new_request channel ip (resolve have_ipv6 pton ip)) s)
          (dispatch without (new_request channel ip (resolve have_ipv6 pton ip)) (uncached s))
  dispatch-Alike channel ip s l a (absent e) =
      let v = find_flag (resolve have_ipv6 pton ip) s.state.1.entry_chain in
      record {
        out = record {
          stdout = s.stdout ++ response channel (reply deny v).0 (reply deny v).1;
          state =
              (stored_for lib cache section have_ipv6 deny pton fopen v ip s.state.0, s.state.1);
        };
        result =
            miss lib cache section have_ipv6 deny pton fopen channel ip s.state.0 s.state.1 s.stdout
              a.handle l v e refl;
        file = alone channel ip s v refl;
        agree = stored_for-Agree v ip s.state.0 s.state.1 refl a;
      }
  dispatch-Alike channel ip s l a (allowed v e) = record {
    out = record { stdout = s.stdout ++ response channel true none; state = s.state };
    result =
        hit_allow lib cache section have_ipv6 deny pton fopen channel ip s.state.0 s.state.1
          s.stdout a.handle l e;
    file = alone channel ip s handler_allow v;
    agree = a;
  }
  dispatch-Alike channel ip s l a (denied v e) = record {
    out = record {
      stdout = s.stdout ++ response channel false (some (codes "DENIED"));
      state = s.state;
    };
    result =
        hit_deny lib cache section have_ipv6 deny pton fopen channel ip s.state.0 s.state.1 s.stdout
          a.handle l e;
    file = alone channel ip s handler_deny v;
    agree = a;
  }

  address-Alike :
      (channel : ℕ) (ip : Bytes) (s : Work (State lib × PluginData))
      → length ip ≤ word_width have_ipv6
      → InAgreement s
      → Alike
          (handle_address with_cache channel ip s)
          (handle_address without channel ip (uncached s))
  unfolding handle_address
  address-Alike channel ip s l a = elim (Sockaddr-discrete (resolve have_ipv6 pton ip) unspec) [
    | yes u ↦ record {
      out = record s {
        stdout = s.stdout ++ response channel false (some (codes "Valid IP address expected"));
      };
      result = rw u;
      file = rw u;
      agree = a;
    }
    | no n ↦
        rw (is_unspec_of_ne (resolve have_ipv6 pton ip) n)
          (dispatch-Alike channel ip s (width_short have_ipv6 (length ip) l) a (a.entry ip))
  ]

  line-Alike :
      (t : Bytes) (rest : Mem) (s : Work (State lib × PluginData))
      → IsNulFree t
      → InAgreement s
      → Alike
          (handle_line with_cache (stored t rest) s)
          (handle_line without (stored t rest) (uncached s))
  unfolding handle_line
  line-Alike t rest s z a =
      let (channel, ip) = scan_request (word_width have_ipv6) t in
      rw (c_string_lem t rest z)
        (address-Alike channel ip s (scan_request-short (word_width have_ipv6) t) a)

  -- With the memcached plugin in front of the hosts file, and a cache in which each address has
  -- the verdict of the file or no entry: a worker that takes lines without NUL bytes and then a
  -- NULL handles them with no fault and prints just what a worker with the hosts file alone
  -- prints, whatever the cache drops meanwhile, the plugin for the file is left as there, and the
  -- cache agrees with the file again. The data of the file does not change during the run.
  pub cache_transparent :
      (ts : List Bytes) (jobs : List (Option Mem)) (s : Work (State lib × PluginData))
      → InAgreement s
      → All IsNulFree ts
      → (s' : Work (State lib × PluginData)) × (work with_cache (map job ts ++ none ∷ jobs) s
          ≡ ok (s', jobs, true))
        × (work without (map job ts ++ none ∷ jobs) (uncached s) ≡ ok (uncached s', jobs, true))
        × InAgreement s'
  unfolding work
  cache_transparent [] jobs s a z = (s, refl, refl, a)
  cache_transparent (t ∷ ts) jobs s a z =
      let r = line-Alike t [] s z.0 a in
      let (s', e, f, b) = cache_transparent ts jobs r.out r.agree z.1 in
      (s', rw r.result e, rw r.file f, b)
