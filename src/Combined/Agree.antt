-- ===== src/Combined/Agree.antt =====
-- What the memcached plugin holds against what the hosts file says.
use squid_helper.Memcached.Coherence.{set_cases}
use native.Mathlib.Decide.{ℕ_discrete}
use squid_helper.Base.{◌≡◌, ◌⊎◌, inl, inr, sym, ap, true, none, some, Option, ◌∙◌}
use squid_helper.Memory.{Bytes}
use squid_helper.Types.{HandlerStatus, handler_allow, handler_deny, Sockaddr}
use squid_helper.Memcached.{Library, IsCache, State, cached_value}
use squid_helper.Memcached.Key.{key_of, key_of-injective}
use squid_helper.Txtfile.{PluginData, find_flag}

pub Bytes-discrete : Discrete Bytes
Bytes-discrete = hlevel ℕ_discrete

-- What the cache may hold for an address on which the file has this status.
pub data Entry (status : HandlerStatus) (value : Option Bytes) : Type 0 where
  absent : value ≡ none → Entry status value
  allowed :
      status ≡ handler_allow → value ≡ some (cached_value (some handler_allow)) → Entry status value
  denied :
      status ≡ handler_deny → value ≡ some (cached_value (some handler_deny)) → Entry status value

abbrev pub IsVerdict : HandlerStatus → Type 0
IsVerdict v = (v ≡ handler_allow) ⊎ (v ≡ handler_deny)

verdict-Entry :
    (v : HandlerStatus) (value : Option Bytes)
    → IsVerdict v
    → (value ≡ some (cached_value (some v))) ⊎ (value ≡ none)
    → Entry v value
verdict-Entry v value h (inr e) = absent e
verdict-Entry v value (inl a) (inl e) = allowed a (e ∙ ap (λ q. some (cached_value (some q))) a)
verdict-Entry v value (inr d) (inl e) = denied d (e ∙ ap (λ q. some (cached_value (some q))) d)

kept-Entry :
    (v : HandlerStatus) (old new : Option Bytes)
    → Entry v old
    → (new ≡ old) ⊎ (new ≡ none)
    → Entry v new
kept-Entry v old new h (inr e) = absent e
kept-Entry v old new (absent g) (inl e) = absent (e ∙ g)
kept-Entry v old new (allowed a g) (inl e) = allowed a (e ∙ g)
kept-Entry v old new (denied a g) (inl e) = denied a (e ∙ g)

module _ (lib : Library) (resolve_text : Bytes → Sockaddr) where
  -- The thread has its handle, and each address is cached as the file has it, or is not.
  pub record Agree (s : State lib) (pd : PluginData) : Type 0 where
    pub handle : s.handle ≡ true
    pub entry :
        (ip : Bytes)
        → Entry (find_flag (resolve_text ip) pd.entry_chain) (lib.get s.store (key_of ip))

  -- To store the verdict of the file keeps this.
  pub store-Agree :
      IsCache lib
      → (s : State lib) (pd : PluginData) (ip : Bytes) (v : HandlerStatus)
      → find_flag (resolve_text ip) pd.entry_chain ≡ v
      → IsVerdict v
      → Agree s pd
      → Agree (record s { store = (lib.set s.store (key_of ip) (cached_value (some v))).1 }) pd
  store-Agree cache s pd ip v f h a = record {
    handle = a.handle;
    entry = λ other. elim (Bytes-discrete ip other) [
      | yes e ↦
          rw (sym e, f)
            (elim (set_cases lib cache s.store (key_of ip) (cached_value (some v))) [
              | inl g ↦ verdict-Entry v _ h (inl g)
              | inr g ↦ elim g [
                | inl i ↦ verdict-Entry v _ h (inr i)
                | inr i ↦ kept-Entry v _ _ (rw f at (a.entry ip)) (inl i)
              ]
            ])
      | no n ↦ kept-Entry _ _ _ (a.entry other) (
          cache.get-set_ne s.store (key_of ip) (key_of other) (cached_value (some v))
            (λ q. n (key_of-injective ip other q)))
    ];
  }
