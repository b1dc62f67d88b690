-- ===== src/Txtfile/Line.antt =====
-- One line of the hosts file.
use squid_helper.Strtok.Laws.{strtok_end, strtok_delimiter, IsToken}
use squid_helper.Strtok.{take_token, strtok, str_equal, skip_delimiters}
use squid_helper.Text.{upper}
use squid_helper.Scanf.RoundTrip.{c_string_lem}
use squid_helper.Text.Case.{upper_lem, map_pointwise, IsNulFree-upper, strtoupper_lem, ascii_upper}
use squid_helper.Worker.{resolve}
use squid_helper.Memory.Laws.{IsNulFree}
use squid_helper.Txtfile.{line_max, is_blank, parse_entry, parse_line, is_newline, parse_flag}
use squid_helper.Base.{
  ◌<◌, map, length, arith, ◌≢◌, ◌≡◌, ◌||◌, if◌then◌else◌, All, ◌==◌, Bool, ℕ, true, false, some, [],
  ◌∷◌, ◌++◌, refl,
}
use squid_helper.Memory.{codes, Bytes, ok, fault}
use squid_helper.Types.{
  is_unspec_of_ne, InetPton, HandlerStatus, handler_allow, handler_deny, unspec,
}

-- The line of a host: an address, a blank, the word for its flag.
pub record Rule : Type 0 where
  pub ip : Bytes
  pub word : Bytes

abbrev pub line_of : Rule → Bytes
line_of r = r.ip ++ b' ' ∷ (r.word ++ b'\n' ∷ [])

-- ALLOW in any case allows; any other word denies.
abbrev pub rule_flag : Rule → HandlerStatus
rule_flag r =
    if str_equal (map ascii_upper r.word) (codes "ALLOW") then handler_allow else handler_deny

-- The address is one, and the word is no more than one line of the file holds.
pub record IsRule (have_ipv6 : Bool) (pton : InetPton) (r : Rule) : Type 0 where
  pub known : resolve have_ipv6 pton r.ip ≢ unspec
  pub ip_nonempty : r.ip ≢ []
  pub ip_token : IsToken (λ c. c == b' ' || (c == b'\n' || c == 0)) r.ip
  pub word_nonempty : r.word ≢ []
  pub word_token : IsToken (λ c. c == b'\r' || (c == b'\n' || c == 0)) r.word
  pub short : length (line_of r) < line_max

pub weaken-IsToken :
    (d e : ℕ → Bool)
    → ((c : ℕ) → d c ≡ false → e c ≡ false)
    → (t : Bytes) → IsToken d t
    → IsToken e t
weaken-IsToken d e f [] h = tt
weaken-IsToken d e f (c ∷ t) h = (f c h.0, weaken-IsToken d e f t h.1)

pub token-IsNulFree :
    (d : ℕ → Bool) → ((c : ℕ) → d c ≡ false → c ≢ 0) → (t : Bytes) → IsToken d t → IsNulFree t
token-IsNulFree d f [] h = tt
token-IsNulFree d f (c ∷ t) h = (f c h.0, token-IsNulFree d f t h.1)

parse_flag_lem :
    (r : Rule)
    → r.word ≢ []
    → IsToken (λ c. c == b'\r' || (c == b'\n' || c == 0)) r.word
    → parse_flag (r.word ++ b'\n' ∷ []) ≡ ok (rule_flag r)
unfolding parse_flag
parse_flag_lem r n h =
    let z = token-IsNulFree _ (λ c q e. ground arith) r.word h in
    let k = weaken-IsToken _ is_newline (λ c q. ground arith) r.word h in
    rw (
      parse_flag,
      strtok_delimiter is_newline r.word b'\n' [] n k refl,
      strtoupper_lem r.word [] z,
      c_string_lem (map upper r.word) [] (IsNulFree-upper r.word z),
      map_pointwise upper ascii_upper upper_lem r.word,
    )

skip_delimiters_only :
    (delim : ℕ → Bool) (t : Bytes) → All (λ c. delim c ≡ true) t → skip_delimiters delim t ≡ []
unfolding skip_delimiters
skip_delimiters_only delim [] h = refl
skip_delimiters_only delim (c ∷ t) h = rw (h.0, skip_delimiters_only delim t h.1)

parse_flag_nothing : (ends : Bytes) → All (λ c. is_newline c ≡ true) ends → parse_flag ends ≡ fault
unfolding parse_flag strtok take_token
parse_flag_nothing ends h = rw (parse_flag, strtok, skip_delimiters_only is_newline ends h)

module _ (have_ipv6 : Bool) (pton : InetPton) where
  -- The line of a rule gives its entry.
  pub parse_line_lem :
      (r : Rule)
      → IsRule have_ipv6 pton r
      → parse_line have_ipv6 pton (line_of r)
        ≡ ok (some (record { address = resolve have_ipv6 pton r.ip; flag = rule_flag r }))
  unfolding parse_line parse_entry
  parse_line_lem r v =
      let k = weaken-IsToken _ is_blank (λ c q. ground arith) r.ip v.ip_token in
      rw (
        parse_line,
        strtok_delimiter is_blank r.ip b' ' (r.word ++ b'\n' ∷ []) v.ip_nonempty k refl,
        is_unspec_of_ne (resolve have_ipv6 pton r.ip) v.known,
        parse_flag_lem r v.word_nonempty v.word_token,
      )

  -- A line that holds an address and then nothing, or one blank and line ends only, makes the
  -- plugin use a null pointer: behind the address `strtok_r` gives NULL, and `strtoupper` reads
  -- it.
  pub parse_line_crash :
      (ip ends : Bytes)
      → resolve have_ipv6 pton ip ≢ unspec
      → ip ≢ []
      → IsToken is_blank ip
      → All (λ c. is_newline c ≡ true) ends
      → (parse_line have_ipv6 pton ip ≡ fault)
        × (parse_line have_ipv6 pton (ip ++ b' ' ∷ ends) ≡ fault)
  unfolding parse_line parse_entry
  parse_line_crash ip ends a n h e = (
    rw (
      parse_line,
      strtok_end is_blank ip n h,
      is_unspec_of_ne (resolve have_ipv6 pton ip) a,
      parse_flag_nothing [] tt,
    ),
    rw (
      parse_line,
      strtok_delimiter is_blank ip b' ' ends n h refl,
      is_unspec_of_ne (resolve have_ipv6 pton ip) a,
      parse_flag_nothing ends e,
    ),
  )
