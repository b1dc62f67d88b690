-- ===== src/Memcached/Coherence.antt =====
-- What the two hooks of the memcached plugin do to each other.
use squid_helper.Memcached.Key.{key_of-injective, key_bytes_lem, generate_key_lem, key_of}
use squid_helper.Base.{
  ap, ◌∙◌, false, Bool-cases, sym, true, none, some, refl, ◌≡◌, ◌≤◌, ◌≢◌, length, ◌⊎◌, inl, inr,
  Option,
}
use squid_helper.Types.{
  HandlerStatus, Request, handler_go_on, handler_allow, handler_deny, handler_ok, handler_error,
}
use squid_helper.Memcached.{
  str4_cmp, cached_value, read_status, memcached_post_handle_request, Library, IsCache, State,
  memcached_handle_request,
}
use squid_helper.Memory.{Bytes, load, ok}

-- What a decision is recalled as.
abbrev pub recalled : Option HandlerStatus → HandlerStatus
recalled (some handler_allow) = handler_allow
recalled _ = handler_deny

-- The address of a request fits a key.
pub record IsKeyed (req : Request) : Type 0 where
  pub counted : req.ip_addr.str_len ≡ length req.ip_addr.str
  pub short : req.ip_addr.str_len ≤ 45

module _ (lib : Library) where
  -- The state after the post hook.
  abbrev pub cached : Request → State lib → State lib
  cached req s = record s {
    store = (lib.set s.store (key_of req.ip_addr.str) (cached_value req.result)).1;
  }

  pub read_status_cached :
      (result : Option HandlerStatus) (req : Request) (s : State lib)
      → read_status lib req s (some (cached_value result))
        ≡ ok (recalled result, record req { skip_post_handle_request = true }, s)
  unfolding read_status str4_cmp load
  read_status_cached none req s = refl
  read_status_cached (some handler_go_on) req s = refl
  read_status_cached (some handler_allow) req s = refl
  read_status_cached (some handler_deny) req s = refl
  read_status_cached (some handler_ok) req s = refl
  read_status_cached (some handler_error) req s = refl

  -- What a later request of the address is answered: the decision, nothing, or what stood there.
  abbrev pub Recalled : Request → Request → State lib → Type 0
  Recalled req later s =
      memcached_handle_request lib later (cached req s)
      ≡ ok (recalled req.result, record later { skip_post_handle_request = true }, cached req s)

  abbrev pub Forgotten : Request → Request → State lib → Type 0
  Forgotten req later s =
      memcached_handle_request lib later (cached req s) ≡ ok (handler_go_on, later, cached req s)

  abbrev pub AsBefore : Request → Request → State lib → Type 0
  AsBefore req later s =
      memcached_handle_request lib later (cached req s)
      ≡ read_status lib later (cached req s) (lib.get s.store (key_of later.ip_addr.str))

  module _ (cache : IsCache lib) where
    pub handle_lem :
        (req : Request) (s : State lib)
        → IsKeyed req
        → s.handle ≡ true
        → memcached_handle_request lib req s
          ≡ read_status lib req s (lib.get s.store (key_of req.ip_addr.str))
    unfolding memcached_handle_request
    handle_lem req s k e = rw (
      generate_key_lem lib cache req k.counted k.short,
      key_bytes_lem (key_of req.ip_addr.str),
      e,
    )

    pub post_lem :
        (req : Request) (s : State lib)
        → IsKeyed req
        → s.handle ≡ true
        → memcached_post_handle_request lib req s ≡ ok (handler_ok, req, cached req s)
    unfolding memcached_post_handle_request
    post_lem req s k e = rw (
      generate_key_lem lib cache req k.counted k.short,
      key_bytes_lem (key_of req.ip_addr.str),
      e,
    )

    -- What stands there behind a `set`, whether it succeeded or not.
    pub set_cases :
        (store : lib.Store) (k v : Bytes)
        → (lib.get (lib.set store k v).1 k ≡ some v)
          ⊎ ((lib.get (lib.set store k v).1 k ≡ none)
              ⊎ (lib.get (lib.set store k v).1 k ≡ lib.get store k))
    set_cases store k v = elim (Bool-cases (lib.set store k v).0) [
      | inl e ↦ elim (cache.get-set store k v e) [ inl h ↦ inl h | inr h ↦ inr (inl h) ]
      | inr e ↦ cache.get-set_failed store k v e
    ]

    -- On a thread whose handle is set, and with addresses of at most 45 bytes whose length is
    -- right, the post hook succeeds. If `memcached_set` succeeded, a later request of the same
    -- address is answered with the decision that the first one was given, allow for allow and deny
    -- for all else, with the post hooks marked as skipped, or it goes on to the next plugin if the
    -- server dropped the entry. If it failed, which the hook does not report, the later request
    -- may also be answered by what the server had before.
    pub recalls :
        (req later : Request) (s : State lib)
        → IsKeyed req
        → IsKeyed later
        → later.ip_addr.str ≡ req.ip_addr.str
        → s.handle ≡ true
        → (memcached_post_handle_request lib req s ≡ ok (handler_ok, req, cached req s))
          × (((lib.set s.store (key_of req.ip_addr.str) (cached_value req.result)).0 ≡ true
                × (Recalled req later s ⊎ Forgotten req later s))
              ⊎ ((lib.set s.store (key_of req.ip_addr.str) (cached_value req.result)).0 ≡ false
                  × (Recalled req later s ⊎ (Forgotten req later s ⊎ AsBefore req later s))))
    unfolding read_status
    recalls req later s k l same e =
        let value = cached_value req.result in
        let hit : lib.get (cached req s).store (key_of later.ip_addr.str) ≡ some value
            → Recalled req later s =
          λ h.
            rw (handle_lem later (cached req s) l e, h)
              (read_status_cached req.result later (cached req s)) in
        let miss : lib.get (cached req s).store (key_of later.ip_addr.str) ≡ none
            → Forgotten req later s =
          λ h. rw (handle_lem later (cached req s) l e, h) in
        let old : lib.get (cached req s).store (key_of later.ip_addr.str)
              ≡ lib.get s.store (key_of later.ip_addr.str)
            → AsBefore req later s =
          λ h. handle_lem later (cached req s) l e ∙ ap (read_status lib later (cached req s)) h in
        (
          post_lem req s k e,
          elim (Bool-cases (lib.set s.store (key_of req.ip_addr.str) value).0) [
            | inl g ↦ inl (
              g,
              elim (cache.get-set s.store (key_of req.ip_addr.str) value g) [
                | inl h ↦ inl (hit (rw same h))
                | inr h ↦ inr (miss (rw same h))
              ],
            )
            | inr g ↦ inr (
              g,
              elim (cache.get-set_failed s.store (key_of req.ip_addr.str) value g) [
                | inl h ↦ inl (hit (rw same h))
                | inr q ↦
                    inr (elim q [ inl h ↦ inl (miss (rw same h)) | inr h ↦ inr (old (rw same h)) ])
              ],
            )
          ],
        )

    -- Under the same conditions the post hook for one address leaves what another address is
    -- answered: the value that the request hook reads is the one it would have read before, or the
    -- server dropped the other entry and the request goes on to the next plugin.
    pub keeps_others :
        (req other : Request) (s : State lib)
        → IsKeyed req
        → IsKeyed other
        → other.ip_addr.str ≢ req.ip_addr.str
        → s.handle ≡ true
        → (value : Option Bytes) × (memcached_handle_request lib other s
            ≡ read_status lib other s value)
          × ((memcached_handle_request lib other (cached req s)
                ≡ read_status lib other (cached req s) value)
              ⊎ (memcached_handle_request lib other (cached req s)
                  ≡ ok (handler_go_on, other, cached req s)))
    unfolding read_status
    keeps_others req other s k l ne e = (
      lib.get s.store (key_of other.ip_addr.str),
      handle_lem other s l e,
      rw (handle_lem other (cached req s) l e)
          (elim (cache.get-set_ne s.store (key_of req.ip_addr.str) (key_of other.ip_addr.str)
            (cached_value req.result)
            (λ q. ne (sym (key_of-injective req.ip_addr.str other.ip_addr.str q)))) [
              | inl kept ↦ inl (rw kept)
              | inr miss ↦ inr (rw miss)
            ]),
    )
