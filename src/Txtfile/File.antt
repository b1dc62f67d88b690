-- ===== src/Txtfile/File.antt =====
-- The whole hosts file, and the lookups in what it gave.
use squid_helper.Txtfile.Verdict.{override-Verdict, override, Verdict}
use squid_helper.Strtok.Laws.{IsToken}
use squid_helper.Worker.{resolve}
use squid_helper.Txtfile.Line.{
  parse_line_lem, weaken-IsToken, token-IsNulFree, rule_flag, line_of, IsRule, Rule,
}
use squid_helper.Memory.Laws.{IsNulFree}
use squid_helper.Txtfile.{
  PluginData, txtfile_handle_request, parse_file, parse_line, line_max, HostEntry, find_flag,
  parse_lines, up_to_nul, read_line,
}
use squid_helper.Base.{
  Option, length-append, ◌-◌, ◌≢◌, ◌∙◌, ap, ◌≤◌, arith, All, ◌<◌, append_assoc, sym, length,
  All-append, ==_of_ne, ◌≡◌, ◌==◌, List, Bool, ℕ, zero, suc, some, [], ◌∷◌, ◌++◌, refl,
}
use squid_helper.Memory.{Bytes, ok}
use squid_helper.Types.{unspec, Request, InetPton, HandlerStatus, Sockaddr, handler_go_on}

-- `fgets` takes one line.
read_line_lem :
    (room : ℕ) (t rest : Bytes)
    → IsToken (λ c. c == b'\n') t
    → length t < room
    → read_line room (t ++ b'\n' ∷ rest) ≡ (t ++ b'\n' ∷ [], rest)
unfolding read_line
read_line_lem zero t rest h l = absurd (omega arith)
read_line_lem (suc room) [] rest h l = refl
read_line_lem (suc room) (c ∷ t) rest h l = rw (h.0, read_line_lem room t rest h.1 (omega arith))

up_to_nul_lem : (t : Bytes) → IsNulFree t → up_to_nul t ≡ t
unfolding up_to_nul
up_to_nul_lem [] z = refl
up_to_nul_lem (c ∷ t) z = rw (==_of_ne c 0 z.0, up_to_nul_lem t z.1)

abbrev pub file_of : List Rule → Bytes
file_of [] = []
file_of (r ∷ rules) = line_of r ++ file_of rules

module _ (have_ipv6 : Bool) (pton : InetPton) where
  rule_shape : (r : Rule) → line_of r ≡ (r.ip ++ b' ' ∷ r.word) ++ b'\n' ∷ []
  rule_shape r = sym (append_assoc r.ip (b' ' ∷ r.word) (b'\n' ∷ []))

  rule-IsToken :
      (r : Rule) → IsRule have_ipv6 pton r → IsToken (λ c. c == b'\n') (r.ip ++ b' ' ∷ r.word)
  rule-IsToken r v =
      All-append _ r.ip (b' ' ∷ r.word) (weaken-IsToken _ _ (λ c q. ground arith) r.ip v.ip_token)
        (refl, weaken-IsToken _ _ (λ c q. ground arith) r.word v.word_token)

  rule_NulFree : (r : Rule) → IsRule have_ipv6 pton r → IsNulFree (line_of r)
  rule_NulFree r v =
      All-append _ r.ip (b' ' ∷ (r.word ++ b'\n' ∷ []))
        (token-IsNulFree _ (λ c q e. ground arith) r.ip v.ip_token)
        (
          λ e. omega arith,
          All-append _ r.word (b'\n' ∷ [])
              (token-IsNulFree _ (λ c q e. ground arith) r.word v.word_token)
              (λ e. omega arith, tt),
        )

  -- One round, on a file that has bytes left.
  parse_lines_step :
      (rounds : ℕ) (file line rest : Bytes) (chain : List HostEntry) (entry : HostEntry)
      → file ≢ []
      → read_line (line_max - 1) file ≡ (line, rest)
      → parse_line have_ipv6 pton (up_to_nul line) ≡ ok (some entry)
      → parse_lines have_ipv6 pton (suc rounds) file chain
        ≡ parse_lines have_ipv6 pton rounds rest (entry ∷ chain)
  unfolding parse_lines
  parse_lines_step rounds [] line rest chain entry n e h = absurd (n refl)
  parse_lines_step rounds (c ∷ file) line rest chain entry n e h = rw (e, h)

  parse_rule :
      (rounds : ℕ) (r : Rule) (rest : Bytes) (chain : List HostEntry)
      → IsRule have_ipv6 pton r
      → parse_lines have_ipv6 pton (suc rounds) (line_of r ++ rest) chain
        ≡ parse_lines have_ipv6 pton rounds rest
            (record { address = resolve have_ipv6 pton r.ip; flag = rule_flag r } ∷ chain)
  parse_rule rounds r rest chain v =
      let body = r.ip ++ b' ' ∷ r.word in
      let shape = rule_shape r in
      let whole : line_of r ++ rest ≡ body ++ b'\n' ∷ rest =
        ap (λ q. q ++ rest) shape ∙ append_assoc body (b'\n' ∷ []) rest in
      let read =
        read_line_lem (line_max - 1) body rest (rule-IsToken r v)
          (omega (arith, v.short, ap length shape, length-append body (b'\n' ∷ []))) in
      parse_lines_step rounds (line_of r ++ rest) (line_of r) rest chain _
        (λ e. omega (
          arith,
          ap length e,
          length-append (line_of r) rest,
          ap length shape,
          length-append body (b'\n' ∷ []),
        ))
        (ap (read_line (line_max - 1)) whole ∙ read ∙ ap (λ q. (q, rest)) (sym shape))
        (rw (up_to_nul_lem (line_of r) (rule_NulFree r v)) (parse_line_lem have_ipv6 pton r v))

  -- The loop over the file of these rules ends with a chain whose lookups are as the lines say.
  parse_lines_lem :
      (rules : List Rule) (rounds : ℕ) (chain : List HostEntry)
      → All (IsRule have_ipv6 pton) rules
      → length rules ≤ rounds
      → (chain' : List HostEntry) × (parse_lines have_ipv6 pton rounds (file_of rules) chain
          ≡ ok chain')
        × ((a : Sockaddr)
            → find_flag a chain' ≡ override have_ipv6 pton a (find_flag a chain) rules)
  unfolding parse_lines find_flag
  parse_lines_lem [] zero chain v l = (chain, refl, λ a. refl)
  parse_lines_lem [] (suc rounds) chain v l = (chain, refl, λ a. refl)
  parse_lines_lem (r ∷ rules) zero chain v l = absurd (omega arith)
  parse_lines_lem (r ∷ rules) (suc rounds) chain v l =
      let (chain', e, f) =
        parse_lines_lem rules rounds
          (record { address = resolve have_ipv6 pton r.ip; flag = rule_flag r } ∷ chain) v.1
          (omega arith) in
      (chain', parse_rule rounds r (file_of rules) chain v.0 ∙ e, f)

  length-file_of : (rules : List Rule) → length rules ≤ length (file_of rules)
  length-file_of [] = omega arith
  length-file_of (r ∷ rules) = omega (
    arith,
    length-file_of rules,
    length-append (line_of r) (file_of rules),
    ap length (rule_shape r),
    length-append (r.ip ++ b' ' ∷ r.word) (b'\n' ∷ []),
  )

  rules_known :
      (rules : List Rule)
      → All (IsRule have_ipv6 pton) rules
      → All (λ r. resolve have_ipv6 pton r.ip ≢ unspec) rules
  rules_known [] v = tt
  rules_known (r ∷ rules) v = (v.0.known, rules_known rules v.1)

  -- A hosts file that consists of lines "address word", with addresses that `inet_pton` reads and
  -- lines that fit, is read with no fault, whatever was known before. A request is then answered
  -- by the last line whose text `inet_pton` reads as its address, as IPv6 where that is compiled
  -- in and else as IPv4: with HANDLER_ALLOW for the word ALLOW in any case and with HANDLER_DENY
  -- for any other; and with HANDLER_GO_ON if no line names it.
  pub last_line_wins :
      (fopen : Bytes → Option Bytes) (pd : PluginData) (rules : List Rule)
      → fopen pd.filename ≡ some (file_of rules)
      → All (IsRule have_ipv6 pton) rules
      → (pd' : PluginData) × (parse_file have_ipv6 pton fopen pd ≡ ok pd')
        × ((req : Request)
            → (status : HandlerStatus) × (txtfile_handle_request req pd' ≡ ok (status, req, pd'))
              × Verdict have_ipv6 pton req.ip_addr.sockaddr rules status)
  unfolding parse_file txtfile_handle_request find_flag
  last_line_wins fopen pd rules e v =
      let (chain, r, f) =
        parse_lines_lem rules (length (file_of rules)) [] v (length-file_of rules) in
      (
        record pd { entry_chain = chain },
        rw (parse_file, e, r),
        λ req. (
          override have_ipv6 pton req.ip_addr.sockaddr handler_go_on rules,
          ap (λ q. ok (q, req, record pd { entry_chain = chain })) (f req.ip_addr.sockaddr),
          override-Verdict have_ipv6 pton req.ip_addr.sockaddr rules (rules_known rules v),
        ),
      )
