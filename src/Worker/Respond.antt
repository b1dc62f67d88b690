-- ===== src/Worker/Respond.antt =====
-- What one request line is answered with.
use squid_helper.Worker.Heed.{Heeds, scan_request-Heeds}
use squid_helper.Worker.Address.{IsAddress, resolve_none, resolve-IsAddress}
use mathlib.Core.Path.{subst}
use squid_helper.Worker.Reply.{IsReply, response-IsReply}
use squid_helper.Worker.Contract.{Contract}
use squid_helper.Scanf.RoundTrip.{
  scan_request-short, scan_request_lem, print_size-IsNulFree, IsWord, c_string_lem,
}
use squid_helper.Buffer.Holds.{stored}
use squid_helper.Scanf.{print_size, scan_request}
use squid_helper.Memory.Laws.{IsNulFree}
use squid_helper.Worker.Consult.{
  Consult-Allows, Allows, post_total, run_handlers_of_Consult, Consult, Consult-total,
}
use squid_helper.Worker.{
  handle_address, word_width, handle_line, finish, answer, new_request, response, resolve, dispatch,
  Work, Core,
}
use squid_helper.Base.{
  All-append, ◌≤◌, length, size_mod, ◌<◌, arith, ap, ◌∙◌, inr, inl, not, ◌&&◌, Bool-cases, ◌≢◌, ◌≡◌,
  Option, Bool, ℕ, true, false, none, some, ◌∷◌, ◌++◌, refl,
}
use squid_helper.Types.{
  Sockaddr, HandlerStatus, Sockaddr-discrete, Request, unspec, handler_go_on, handler_allow,
  handler_deny, handler_ok, handler_error,
}
use squid_helper.Memory.{codes, Bytes, Mem, Result, ok}

-- The status and the message for a result of the handlers.
pub data Decision (deny : Bool) (r : Option HandlerStatus) : Bool → Option Bytes → Type 0 where
  allowed : r ≡ some handler_allow → Decision deny r true none
  denied : r ≡ some handler_deny → Decision deny r false (some (codes "DENIED"))
  undecided :
      r ≢ some handler_allow
      → r ≢ some handler_deny
      → Decision deny r (not deny) (some (codes "UNKNOWN ERR"))

answer-Decision :
    (deny : Bool) (r : Option HandlerStatus) → Decision deny r (answer deny r).0 (answer deny r).1
unfolding answer
answer-Decision deny none = undecided (λ e. cc) (λ e. cc)
answer-Decision deny (some handler_go_on) = undecided (λ e. cc) (λ e. cc)
answer-Decision deny (some handler_allow) = allowed refl
answer-Decision deny (some handler_deny) = denied refl
answer-Decision deny (some handler_ok) = undecided (λ e. cc) (λ e. cc)
answer-Decision deny (some handler_error) = undecided (λ e. cc) (λ e. cc)

-- What the plugins are asked first: a channel and an address, with no result yet.
abbrev pub request_of : ℕ → Bytes → Sockaddr → Request
request_of channel str a = record {
  result = none;
  skip_post_handle_request = false;
  channel = channel;
  ip_addr = record { sockaddr = a; str = str; str_len = length str };
}

-- Why a line gets its status and message.
pub data Reason {W : Type 0} (core : Core W) (channel : ℕ) (str : Bytes) (w : W)
    : Bool → Option Bytes → Type 0 where
  bad_address :
      ((a : Sockaddr) → ¬ IsAddress core.have_ipv6 core.pton str a)
      → Reason core channel str w false (some (codes "Valid IP address expected"))
  consulted :
      {a : Sockaddr} {req : Request} {w' : W}
      → IsAddress core.have_ipv6 core.pton str a
      → Consult core.plugins (request_of channel str a) w req w'
      → {success : Bool} {msg : Option Bytes} → Decision core.deny_by_default req.result success msg
      → Reason core channel str w success msg

-- The line is handled, one reply is printed behind what was there, and it has its reason.
pub record Responded {W : Type 0} (core : Core W) (channel : ℕ) (str : Bytes) (s : Work W)
    (r : Result (Work W)) : Type 0 where
  pub out : Work W
  pub success : Bool
  pub msg : Option Bytes
  pub result : r ≡ ok out
  pub reply : Bytes
  pub printed : out.stdout ≡ s.stdout ++ reply
  pub said : IsReply channel success msg reply
  pub reason : Reason core channel str s.state success msg

module _ {W : Type 0} (core : Core W) (contract : Contract core) where
  finish_lem :
      (req : Request) (s : Work W)
      → contract.During req s.state
      → (out : Work W) × (finish core req s ≡ ok out)
        × (out.stdout
            ≡ s.stdout
              ++ response req.channel
                  (answer core.deny_by_default req.result).0
                  (answer core.deny_by_default req.result).1)
        × contract.Inv out.state
  unfolding finish
  finish_lem req s d =
      let (success, msg, handled) = answer core.deny_by_default req.result in
      let stdout = s.stdout ++ response req.channel success msg in
      let (req', w', p, d') =
        post_total contract.During contract.set_result core.plugins req s.state contract.hooks d in
      elim (Bool-cases (handled && not req.skip_post_handle_request)) [
        | inl e ↦
            (record { stdout = stdout; state = w' }, rw (e, p), refl, contract.leaves req' w' d')
        | inr e ↦
            (record { stdout = stdout; state = s.state }, rw e, refl, contract.leaves req s.state d)
      ]

  dispatch_lem :
      (channel : ℕ) (str : Bytes) (s : Work W)
      → contract.Inv s.state
      → length str ≤ word_width core.have_ipv6
      → resolve core.have_ipv6 core.pton str ≢ unspec
      → (r : Responded core channel str s
          (dispatch core (new_request channel str (resolve core.have_ipv6 core.pton str)) s))
        × contract.Inv r.out.state
  unfolding dispatch new_request
  dispatch_lem channel str s i l n =
      let a = resolve core.have_ipv6 core.pton str in
      let (req, w, c, k, d) =
        Consult-total contract.During contract.set_result core.plugins (new_request channel str a)
          s.state contract.hooks (contract.enters channel str s.state i l n) in
      let (out, r, p, j) = finish_lem req (record s { state = w }) d in
      (
        record {
          out = out;
          success = (answer core.deny_by_default req.result).0;
          msg = (answer core.deny_by_default req.result).1;
          result = rw (run_handlers_of_Consult c) r;
          reply =
              response channel (answer core.deny_by_default req.result).0
                (answer core.deny_by_default req.result).1;
          said = response-IsReply channel _ _;
          printed =
              p
              ∙ ap
                  (λ n.
                    s.stdout
                    ++ response n (answer core.deny_by_default req.result).0
                        (answer core.deny_by_default req.result).1)
                  k;
          reason =
              consulted (resolve-IsAddress core.pton str core.have_ipv6 n) c
                (answer-Decision core.deny_by_default req.result);
        },
        j,
      )

  address_unspec :
      (channel : ℕ) (str : Bytes) (s : Work W)
      → resolve core.have_ipv6 core.pton str ≡ unspec
      → handle_address core channel str s
        ≡ ok (record s {
          stdout = s.stdout ++ response channel false (some (codes "Valid IP address expected"));
        })
  unfolding handle_address
  address_unspec channel str s e = rw e

  address_known :
      (channel : ℕ) (str : Bytes) (s : Work W)
      → resolve core.have_ipv6 core.pton str ≢ unspec
      → handle_address core channel str s
        ≡ dispatch core (new_request channel str (resolve core.have_ipv6 core.pton str)) s
  unfolding handle_address
  address_known channel str s n = ground arith

  handle_address_lem :
      (channel : ℕ) (str : Bytes) (s : Work W)
      → contract.Inv s.state
      → length str ≤ word_width core.have_ipv6
      → (r : Responded core channel str s (handle_address core channel str s)) × contract.Inv
          r.out.state
  handle_address_lem channel str s i l =
      elim (Sockaddr-discrete (resolve core.have_ipv6 core.pton str) unspec) [
        | yes e ↦ (
          record {
            out = record s {
              stdout =
                  s.stdout ++ response channel false (some (codes "Valid IP address expected"));
            };
            success = false;
            msg = some (codes "Valid IP address expected");
            result = address_unspec channel str s e;
            reply = response channel false (some (codes "Valid IP address expected"));
            said = response-IsReply channel false (some (codes "Valid IP address expected"));
            printed = refl;
            reason = bad_address (resolve_none core.pton str core.have_ipv6 e);
          },
          i,
        )
        | no n ↦ rw (address_known channel str s n) (dispatch_lem channel str s i l n)
      ]

  -- What a line is answered with, on the channel and for the word that are read from it.
  pub line-Responded :
      (t : Bytes) (rest : Mem) (s : Work W)
      → IsNulFree t
      → contract.Inv s.state
      → let (channel, str) = scan_request (word_width core.have_ipv6) t in
        (r : Responded core channel str s (handle_line core (stored t rest) s)) × contract.Inv
          r.out.state
  unfolding handle_line
  line-Responded t rest s z i =
      let (channel, str) = scan_request (word_width core.have_ipv6) t in
      rw (c_string_lem t rest z)
        (handle_address_lem channel str s i (scan_request-short (word_width core.have_ipv6) t))

  -- With plugins that keep a contract, whose invariant holds, every line without NUL bytes, well
  -- formed or not, is handled with no fault and answered with one reply, whose number spells the
  -- channel that `sscanf` reads from it or 0: ERR for a text that is no address, and else, by what
  -- the consulted plugins decide, OK for allow, ERR with DENIED for deny, and the default with
  -- UNKNOWN ERR for any other result. The invariant holds again behind it. From a line of a
  -- decimal number within `size_t`, a blank and a word that the conversion holds, the number and
  -- the word are read.
  pub handle_line_lem :
      (t : Bytes) (rest : Mem) (s : Work W)
      → IsNulFree t
      → contract.Inv s.state
      → let (channel, str) = scan_request (word_width core.have_ipv6) t in
        (r : Responded core channel str s (handle_line core (stored t rest) s)) × contract.Inv
          r.out.state
        × Heeds (word_width core.have_ipv6) t (channel, str)
  handle_line_lem t rest s z i =
      let (r, k) = line-Responded t rest s z i in
      (r, k, scan_request-Heeds (word_width core.have_ipv6) t)

-- The reply says ERR and why, or it says OK and a plugin that was asked allowed it.
pub data Guarded {W : Type 0} (core : Core W) (channel : ℕ) (str : Bytes) (w : W) (reply : Bytes)
    : Type 0 where
  refused :
      (msg : Bytes) → IsReply channel false (some msg) reply → Guarded core channel str w reply
  granted :
      {a : Sockaddr}
      → IsReply channel true none reply
      → IsAddress core.have_ipv6 core.pton str a
      → Allows core.plugins (request_of channel str a) w
      → Guarded core channel str w reply

kept_shut :
    {W : Type 0} {core : Core W} {channel : ℕ} {str : Bytes} {w : W} {success : Bool}
    {msg : Option Bytes} (reply : Bytes)
    → core.deny_by_default ≡ true
    → IsReply channel success msg reply
    → Reason core channel str w success msg
    → Guarded core channel str w reply
unfolding new_request
kept_shut reply d r (bad_address e) = refused (codes "Valid IP address expected") r
kept_shut reply d r (consulted u c (allowed e)) = granted r u (Consult-Allows c (λ q. cc) e)
kept_shut reply d r (consulted u c (denied e)) = refused (codes "DENIED") r
kept_shut {channel = n} reply d r (consulted u c (undecided e f)) =
    refused (codes "UNKNOWN ERR")
      (subst (λ q. IsReply n (not q) (some (codes "UNKNOWN ERR")) reply) d r)

-- With `deny_by_default` and plugins that keep a contract, whose invariant holds, every line
-- without NUL bytes is handled with no fault and answered with one reply, on the channel that
-- `sscanf` reads from it or 0: ERR with a message, or OK with none. If it is OK, the text is an
-- address, and a plugin answered HANDLER_ALLOW as it was asked for it, behind plugins that had no
-- handler or went on. So the helper fails closed. From a line of a decimal number within `size_t`,
-- a blank and a word that the conversion holds, the number and the word are read.
pub fails_closed :
    {W : Type 0} (core : Core W) (contract : Contract core) (t : Bytes) (rest : Mem) (s : Work W)
    → contract.Inv s.state
    → core.deny_by_default ≡ true
    → IsNulFree t
    → let (channel, str) = scan_request (word_width core.have_ipv6) t in
      (s' : Work W) × (reply : Bytes) × (handle_line core (stored t rest) s ≡ ok s')
      × (s'.stdout ≡ s.stdout ++ reply)
      × Guarded core channel str s.state reply
      × Heeds (word_width core.have_ipv6) t (channel, str)
fails_closed core contract t rest s i d z =
    let (r, k) = line-Responded core contract t rest s z i in
    (
      r.out,
      r.reply,
      r.result,
      r.printed,
      kept_shut r.reply d r.said r.reason,
      scan_request-Heeds (word_width core.have_ipv6) t,
    )

-- With plugins that keep a contract, whose invariant holds, a line that Squid sends, a channel
-- number that fits in `size_t`, a blank, and a word without blanks and NUL bytes that is no longer
-- than the conversion takes, is answered with one reply: the same number in decimal, then OK or
-- ERR, and the message if there is one. Its reason concerns that word: it is no address, or the
-- plugins in order decide on it, with OK for allow, ERR for deny and the default for all else. The
-- invariant holds again behind it.
pub echoes_channel :
    {W : Type 0} (core : Core W) (contract : Contract core) (n : ℕ) (ip : Bytes) (rest : Mem)
    (s : Work W)
    → contract.Inv s.state
    → n < size_mod
    → IsWord ip
    → IsNulFree ip
    → length ip ≤ word_width core.have_ipv6
    → (r : Responded core n ip s (handle_line core (stored (print_size n ++ b' ' ∷ ip) rest) s))
      × contract.Inv r.out.state
echoes_channel core contract n ip rest s i h w z l =
    let r =
      line-Responded core contract (print_size n ++ b' ' ∷ ip) rest s
        (All-append _ (print_size n) (b' ' ∷ ip) (print_size-IsNulFree n) (λ e. omega arith, z))
        i in
    rw (scan_request_lem (word_width core.have_ipv6) n ip h w l) at r
