-- ===== src/Txtfile/Verdict.antt =====
-- What a hosts file says of an address.
use mathlib.Core.Path.{subst}
use squid_helper.Worker.{resolve}
use squid_helper.Memory.{codes}
use squid_helper.Strtok.{str_equal}
use squid_helper.Types.{
  handler_go_on, handler_deny, handler_allow, unspec, InetPton, Sockaddr, HandlerStatus,
}
use squid_helper.Worker.Address.{resolve-IsAddress, resolve_some, resolve_lem, IsAddress}
use squid_helper.Txtfile.Line.{Rule, rule_flag}
use squid_helper.Txtfile.{inet6, inet, compare_addresses, is_match}
use squid_helper.Text.Case.{ascii_upper}
use squid_helper.Strtok.Laws.{str_equal_self, str_equal_to_eq, str_equal_iff}
use squid_helper.Base.{
  sym, ◌∙◌, some, if◌then◌else◌, false, [], ◌∷◌, ◌==◌, ◌++◌, inr, ==→eq, inl, ap, All, ==_self,
  List, ◌≢◌, true, map, Bool-cases, Bool, refl, ◌≡◌,
}

-- The status that the word of a line gives: ALLOW in any case, or another word.
pub data Flag (r : Rule) : HandlerStatus → Type 0 where
  allows : map ascii_upper r.word ≡ codes "ALLOW" → Flag r handler_allow
  denies : map ascii_upper r.word ≢ codes "ALLOW" → Flag r handler_deny

both_ways : {b : Bool} → b ≡ false → b ≡ true → ⊥
both_ways e f = cc

is_match-some : (b : Bool) → is_match (some b) ≡ true → b ≡ true
is_match-some true e = refl
is_match-some false e = cc

rule_flag-Flag : (r : Rule) → Flag r (rule_flag r)
rule_flag-Flag r = elim (Bool-cases (str_equal (map ascii_upper r.word) (codes "ALLOW"))) [
  | inl e ↦ rw e (allows (str_equal_to_eq (map ascii_upper r.word) (codes "ALLOW") e))
  | inr e ↦
      rw e
        (denies (λ q. both_ways e ((str_equal_iff (map ascii_upper r.word) (codes "ALLOW")).1 q)))
]

-- The last line that names the address decides, and no line where none names it.
pub data Verdict (have_ipv6 : Bool) (pton : InetPton) (a : Sockaddr) (rules : List Rule)
    : HandlerStatus → Type 0 where
  silent :
      All (λ r. ¬ IsAddress have_ipv6 pton r.ip a) rules
      → Verdict have_ipv6 pton a rules handler_go_on
  last :
      (before after : List Rule) (r : Rule) {status : HandlerStatus}
      → rules ≡ before ++ r ∷ after
      → IsAddress have_ipv6 pton r.ip a
      → All (λ q. ¬ IsAddress have_ipv6 pton q.ip a) after
      → Flag r status
      → Verdict have_ipv6 pton a rules status

match_to_eq : (a b : Sockaddr) → is_match (compare_addresses a b) ≡ true → a ≡ b
unfolding compare_addresses
match_to_eq unspec b e = cc
match_to_eq (inet x) unspec e = cc
match_to_eq (inet x) (inet y) e = ap inet (==→eq x y (is_match-some (x == y) e))
match_to_eq (inet x) (inet6 y) e = cc
match_to_eq (inet6 x) unspec e = cc
match_to_eq (inet6 x) (inet y) e = cc
match_to_eq (inet6 x) (inet6 y) e = ap inet6 (str_equal_to_eq x y (is_match-some (str_equal x y) e))

match_self : (a : Sockaddr) → a ≢ unspec → is_match (compare_addresses a a) ≡ true
unfolding compare_addresses
match_self unspec h = absurd (h refl)
match_self (inet x) h = rw (==_self x)
match_self (inet6 x) h = rw (str_equal_self x)

module _ (have_ipv6 : Bool) (pton : InetPton) (a : Sockaddr) where
  -- Where a rule matches, it names the address, and where not, it does not.
  match-IsAddress :
      (r : Rule)
      → resolve have_ipv6 pton r.ip ≢ unspec
      → is_match (compare_addresses a (resolve have_ipv6 pton r.ip)) ≡ true
      → IsAddress have_ipv6 pton r.ip a
  match-IsAddress r n e =
      subst (IsAddress have_ipv6 pton r.ip) (sym (match_to_eq a _ e))
        (resolve-IsAddress pton r.ip have_ipv6 n)

  no_match :
      (r : Rule)
      → is_match (compare_addresses a (resolve have_ipv6 pton r.ip)) ≡ false
      → ¬ IsAddress have_ipv6 pton r.ip a
  no_match r e h =
      let same = resolve_lem pton r.ip have_ipv6 h in
      both_ways e (
        ap (λ q. is_match (compare_addresses a q)) same
        ∙ match_self a (λ u. resolve_some pton r.ip have_ipv6 h (same ∙ u)))

  -- What the file says of an address, read line by line: each line that matches overrides what stood
  -- before.
  abbrev pub override : HandlerStatus → List Rule → HandlerStatus
  override status [] = status
  override status (r ∷ rules) =
      override
        (if is_match (compare_addresses a (resolve have_ipv6 pton r.ip))
          then rule_flag r
          else status)
        rules

  -- The last line that names the address, if there is one.
  data Decider (status : HandlerStatus) (rules : List Rule) : HandlerStatus → Type 0 where
    none_names : All (λ r. ¬ IsAddress have_ipv6 pton r.ip a) rules → Decider status rules status
    names :
        (before after : List Rule) (r : Rule)
        → rules ≡ before ++ r ∷ after
        → IsAddress have_ipv6 pton r.ip a
        → All (λ q. ¬ IsAddress have_ipv6 pton q.ip a) after
        → Decider status rules (rule_flag r)

  later_last :
      (status flag : HandlerStatus) (r : Rule) (rules : List Rule)
      → ¬ IsAddress have_ipv6 pton r.ip a
      → Decider status rules flag
      → Decider status (r ∷ rules) flag
  later_last status flag r rules n (none_names h) = none_names (n, h)
  later_last status flag r rules n (names before after q e i h) =
      names (r ∷ before) after q (ap (λ t. r ∷ t) e) i h

  named_last :
      (status : HandlerStatus) (r : Rule) (rules : List Rule) (flag : HandlerStatus)
      → IsAddress have_ipv6 pton r.ip a
      → Decider (rule_flag r) rules flag
      → Decider status (r ∷ rules) flag
  named_last status r rules flag n (none_names h) = names [] rules r refl n h
  named_last status r rules flag n (names before after q e i h) =
      names (r ∷ before) after q (ap (λ t. r ∷ t) e) i h

  override-Decider :
      (rules : List Rule) (status : HandlerStatus)
      → All (λ r. resolve have_ipv6 pton r.ip ≢ unspec) rules
      → Decider status rules (override status rules)
  override-Decider [] status h = none_names tt
  override-Decider (r ∷ rules) status h =
      elim (Bool-cases (is_match (compare_addresses a (resolve have_ipv6 pton r.ip)))) [
        | inl e ↦ rw e (
            named_last status r rules _ (match-IsAddress r h.0 e)
              (override-Decider rules (rule_flag r) h.1))
        | inr e ↦
            rw e (later_last status _ r rules (no_match r e) (override-Decider rules status h.1))
      ]

  Decider-Verdict :
      (rules : List Rule) (flag : HandlerStatus)
      → Decider handler_go_on rules flag
      → Verdict have_ipv6 pton a rules flag
  Decider-Verdict rules flag (none_names h) = silent h
  Decider-Verdict rules flag (names before after r e i h) =
      last before after r e i h (rule_flag-Flag r)

  pub override-Verdict :
      (rules : List Rule)
      → All (λ r. resolve have_ipv6 pton r.ip ≢ unspec) rules
      → Verdict have_ipv6 pton a rules (override handler_go_on rules)
  override-Verdict rules h = Decider-Verdict rules _ (override-Decider rules handler_go_on h)
