-- ===== src/Worker/Address.antt =====
-- Which address a text is, by `inet_pton`, for worker of src/core/main.c.
use squid_helper.Worker.{resolve}
use squid_helper.Types.{InetPton, Sockaddr, unspec, inet, inet6}
use squid_helper.Memory.{Bytes}
use squid_helper.Base.{
  inl, inr, Option-cases, ℕ, Bool, true, false, none, some, ◌≡◌, ◌≢◌, refl, sym, ◌∙◌,
}

-- An IPv6 address where that is compiled in, and else an IPv4 address.
pub data IsAddress (have_ipv6 : Bool) (pton : InetPton) (t : Bytes) : Sockaddr → Type 0 where
  v6 :
      (a : Bytes)
      → have_ipv6 ≡ true
      → pton.inet_pton6 t ≡ some a
      → IsAddress have_ipv6 pton t (inet6 a)
  v4 :
      (a : ℕ)
      → (have_ipv6 ≡ true → pton.inet_pton6 t ≡ none)
      → pton.inet_pton4 t ≡ some a
      → IsAddress have_ipv6 pton t (inet a)

IsAddress-unspec :
    {have_ipv6 : Bool} {pton : InetPton} {t : Bytes} {a : Sockaddr}
    → IsAddress have_ipv6 pton t a
    → a ≢ unspec
IsAddress-unspec (v6 a h e) f = cc
IsAddress-unspec (v4 a h e) f = cc

module _ (pton : InetPton) (t : Bytes) where
  pub resolve_lem :
      (have_ipv6 : Bool) {a : Sockaddr}
      → IsAddress have_ipv6 pton t a
      → resolve have_ipv6 pton t ≡ a
  unfolding resolve
  resolve_lem true (v6 a h e) = rw e
  resolve_lem false (v6 a h e) = cc
  resolve_lem true (v4 a h e) = rw (h refl, e)
  resolve_lem false (v4 a h e) = rw e

  pub resolve-IsAddress :
      (have_ipv6 : Bool)
      → resolve have_ipv6 pton t ≢ unspec
      → IsAddress have_ipv6 pton t (resolve have_ipv6 pton t)
  unfolding resolve
  resolve-IsAddress true n = elim (Option-cases (pton.inet_pton6 t)) [
    | inr (a, e) ↦ rw e (v6 a refl e)
    | inl e ↦ elim (Option-cases (pton.inet_pton4 t)) [
      | inr (b, f) ↦ rw (e, f) (v4 b (λ q. e) f)
      | inl f ↦ absurd (n (rw (e, f)))
    ]
  ]
  resolve-IsAddress false n = elim (Option-cases (pton.inet_pton4 t)) [
    | inr (b, f) ↦ rw f (v4 b (λ q. absurd (cc)) f)
    | inl f ↦ absurd (n (rw f))
  ]

  -- Where `resolve` gives none, the text is no address.
  pub resolve_none :
      (have_ipv6 : Bool)
      → resolve have_ipv6 pton t ≡ unspec
      → (a : Sockaddr) → ¬ IsAddress have_ipv6 pton t a
  resolve_none have_ipv6 e a h = IsAddress-unspec h (sym (resolve_lem have_ipv6 h) ∙ e)

  pub resolve_some :
      (have_ipv6 : Bool) {a : Sockaddr}
      → IsAddress have_ipv6 pton t a
      → resolve have_ipv6 pton t ≢ unspec
  resolve_some have_ipv6 h e = resolve_none have_ipv6 e _ h
