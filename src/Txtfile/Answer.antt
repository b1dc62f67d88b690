-- ===== src/Txtfile/Answer.antt =====
-- The hosts file and the worker together: what Squid is answered when this plugin decides.
use squid_helper.Worker.Address.{IsAddress}
use squid_helper.Worker.Reply.{response-IsReply}
use squid_helper.Worker.Address.{resolve_some, resolve_lem}
use squid_helper.Worker.Reply.{IsReply}
use squid_helper.Txtfile.Verdict.{Verdict}
use squid_helper.Scanf.{print_size}
use squid_helper.Buffer.Holds.{stored}
use mathlib.Core.Path.{subst}
use squid_helper.Txtfile.File.{last_line_wins, file_of}
use squid_helper.Memory.Laws.{IsNulFree}
use squid_helper.Txtfile.Line.{IsRule, Rule}
use squid_helper.Scanf.RoundTrip.{scan_request_lem, print_size-IsNulFree, c_string_lem, IsWord}
use squid_helper.Base.{
  All-append, size_mod, ℕ, true, false, none, some, [], ◌∷◌, ◌++◌, refl, ◌≡◌, ◌≢◌, ◌≤◌, ◌<◌, Option,
  Bool, List, All, length, not, arith, ◌∙◌,
}
use squid_helper.Types.{
  Sockaddr, is_unspec_of_ne, InetPton, HandlerStatus, handler_go_on, handler_allow, handler_deny,
  handler_ok, handler_error, unspec, Request,
}
use squid_helper.Memory.{Bytes, Mem, ok, codes}
use squid_helper.Worker.{
  response, resolve, word_width, answer, run_post_handlers, run_handlers, new_request,
  handle_address, finish, call_hooks, Core, Work, dispatch, handle_line,
}
use squid_helper.Txtfile.{txtfile_handle_request, PluginData, txtfile_plugin_init}

-- The reply for a status: allow and deny speak for themselves, and all else is the default.
abbrev pub reply : Bool → HandlerStatus → Bool × Option Bytes
reply deny handler_allow = (true, none)
reply deny handler_deny = (false, some (codes "DENIED"))
reply deny _ = (not deny, some (codes "UNKNOWN ERR"))

module _ (have_ipv6 deny : Bool) (pton : InetPton) (fopen : Bytes → Option Bytes) where
  -- A core whose one plugin is the hosts file.
  abbrev pub file_core : Core PluginData
  file_core = record {
    have_ipv6 = have_ipv6;
    deny_by_default = deny;
    pton = pton;
    plugins = (txtfile_plugin_init have_ipv6 pton fopen).0 ∷ [];
  }

  pub dispatch_status :
      (status : HandlerStatus) (req : Request) (s : Work PluginData)
      → txtfile_handle_request req s.state ≡ ok (status, req, s.state)
      → req.skip_post_handle_request ≡ false
      → dispatch file_core req s
        ≡ ok (record s {
          stdout = s.stdout ++ response req.channel (reply deny status).0 (reply deny status).1;
        })
  unfolding dispatch finish run_handlers run_post_handlers txtfile_plugin_init answer
  dispatch_status handler_go_on req s e h = rw e
  dispatch_status handler_allow req s e h = rw (e, h)
  dispatch_status handler_deny req s e h = rw (e, h)
  dispatch_status handler_ok req s e h = rw e
  dispatch_status handler_error req s e h = rw e

  line_dispatch :
      (n : ℕ) (ip : Bytes) (rest : Mem) (s : Work PluginData)
      → n < size_mod
      → IsWord ip
      → IsNulFree ip
      → length ip ≤ word_width have_ipv6
      → resolve have_ipv6 pton ip ≢ unspec
      → handle_line file_core (stored (print_size n ++ b' ' ∷ ip) rest) s
        ≡ dispatch file_core (new_request n ip (resolve have_ipv6 pton ip)) s
  unfolding handle_line handle_address
  line_dispatch n ip rest s h w z l a = rw (
    c_string_lem (print_size n ++ b' ' ∷ ip) rest
        (All-append _ (print_size n) (b' ' ∷ ip) (print_size-IsNulFree n) (λ e. omega arith, z)),
    scan_request_lem (word_width have_ipv6) n ip h w l,
    is_unspec_of_ne (resolve have_ipv6 pton ip) a,
  )

  -- With the hosts file as the one plugin, a file of lines "address word" that fit, and a line of
  -- a channel number that fits in `size_t`, a blank and a word that `inet_pton` reads as an
  -- address: after the configuration hook the line gets one reply with that number in decimal, OK
  -- if the last line of the file that names the address says ALLOW, ERR with DENIED if that says
  -- another word, and the default with UNKNOWN ERR if no line names it; nothing else is printed or
  -- changed.
  pub answers_by_file :
      (pd : PluginData) (rules : List Rule) (n : ℕ) (ip : Bytes) (rest : Mem) (out : Bytes)
      {a : Sockaddr}
      → fopen pd.filename ≡ some (file_of rules)
      → All (IsRule have_ipv6 pton) rules
      → n < size_mod
      → IsWord ip
      → IsNulFree ip
      → length ip ≤ word_width have_ipv6
      → IsAddress have_ipv6 pton ip a
      → (pd' : PluginData) × (call_hooks (λ p. p.config_file_parsed) file_core.plugins pd ≡ ok pd')
        × (status : HandlerStatus) × Verdict have_ipv6 pton a rules status
        × (text : Bytes) × IsReply n (reply deny status).0 (reply deny status).1 text
        × (handle_line file_core
              (stored (print_size n ++ b' ' ∷ ip) rest)
              (record { stdout = out; state = pd' })
            ≡ ok (record { stdout = out ++ text; state = pd' }))
  unfolding call_hooks txtfile_plugin_init new_request
  answers_by_file pd rules n ip rest out e v h w z l a =
      let (pd', r, f) = last_line_wins have_ipv6 pton fopen pd rules e v in
      let req = new_request n ip (resolve have_ipv6 pton ip) in
      let (status, g, says) = f req in
      (
        pd',
        rw r,
        status,
        subst (λ q. Verdict have_ipv6 pton q rules status) (resolve_lem pton ip have_ipv6 a) says,
        response n (reply deny status).0 (reply deny status).1,
        response-IsReply n _ _,
        line_dispatch n ip rest (record { stdout = out; state = pd' }) h w z l
              (resolve_some pton ip have_ipv6 a)
            ∙ dispatch_status status req (record { stdout = out; state = pd' }) g refl,
      )
