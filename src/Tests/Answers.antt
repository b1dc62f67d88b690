-- ===== src/Tests/Answers.antt =====
-- Runs of the answering side: the worker, its plugins and the hosts file.
use squid_helper.Worker.Heed.{Heeds}
use squid_helper.Worker.Reply.{IsReply}
use squid_helper.Worker.Address.{IsAddress, v4}
use squid_helper.Txtfile.Verdict.{Verdict}
use squid_helper.Worker.Contract.{Contract}
use squid_helper.Txtfile.Answer.{reply, answers_by_file, file_core}
use squid_helper.Txtfile.File.{last_line_wins, file_of}
use squid_helper.Scanf.RoundTrip.{scan_request_lem}
use squid_helper.Buffer.Holds.{stored}
use squid_helper.Strtok.{str_equal}
use squid_helper.Memory.{fault, ok, codes, Bytes}
use squid_helper.Worker.Respond.{handle_line_lem, echoes_channel, Responded}
use squid_helper.Worker.{call_hooks, new_request, handle_line, Core, run_handlers, resolve, Work}
use squid_helper.Txtfile.Line.{parse_line_crash, IsRule, Rule}
use squid_helper.Txtfile.{
  txtfile_handle_request, parse_file, default_filename, parse_line, PluginData,
}
use squid_helper.Scanf.{
  take_word, read_digits, starts_digit, scan_digits, skip_space, scan_sign, scan_size, print_digits,
  print_size, scan_request,
}
use squid_helper.Base.{◌≢◌, All, ℕ, true, some, [], ◌∷◌, ◌++◌, refl, ◌≡◌, arith, List}
use squid_helper.Types.{HandlerStatus, unspec, inet, Request, Plugin, handler_go_on, handler_allow}
use squid_helper.Worker.Consult.{Keeps, run_handlers_of_Consult, unable, decided}
use squid_helper.Tests.{two_addresses, counting, plugin_of, plugin_of-Keeps, Always, free_contract}

abbrev core_of : List (Plugin ℕ) → Core ℕ
core_of plugins = record {
  have_ipv6 = true;
  deny_by_default = true;
  pton = two_addresses;
  plugins = plugins;
}

abbrev idle : Work ℕ
idle = record { stdout = codes "0 OK\n"; state = 0 }

abbrev two_plugins : List (Plugin ℕ)
two_plugins = plugin_of handler_go_on ∷ plugin_of handler_allow ∷ []

two_plugins-Keeps : All (Keeps Always) two_plugins
two_plugins-Keeps = (plugin_of-Keeps handler_go_on, (plugin_of-Keeps handler_allow, tt))

abbrev two_contract : Contract (core_of two_plugins)
two_contract = free_contract (core_of two_plugins) two_plugins-Keeps

echo_three :
    (r : Responded
      (core_of two_plugins)
      3
      (codes "10.0.0.1")
      idle
      (handle_line (core_of two_plugins) (stored (codes "3 10.0.0.1") []) idle))
    × two_contract.Inv r.out.state
unfolding print_size print_digits
echo_three =
    echoes_channel (core_of two_plugins) two_contract 3 (codes "10.0.0.1") [] idle tt (omega arith)
      (ground arith) (ground arith) (omega arith)

answer_garbage :
    (r : Responded
      (core_of two_plugins)
      0
      []
      idle
      (handle_line (core_of two_plugins) (stored (codes "hello") []) idle))
    × two_contract.Inv r.out.state
    × Heeds 45 (codes "hello") (0, [])
unfolding scan_request scan_size scan_sign skip_space scan_digits starts_digit
answer_garbage =
    handle_line_lem (core_of two_plugins) two_contract (codes "hello") [] idle (ground arith) tt

abbrev request : Request
request = new_request 3 (codes "10.0.0.1") (inet 167772161)

consult_two :
    run_handlers two_plugins request 0 ≡ ok (record request { result = some handler_allow }, 2)
consult_two = run_handlers_of_Consult (
    unable (counting handler_go_on) refl refl
      (decided (counting handler_allow) refl refl (λ e. cc)))

scan_three : scan_request 45 (print_size 3 ++ b' ' ∷ codes "::1") ≡ (3, codes "::1")
scan_three = scan_request_lem 45 3 (codes "::1") (omega arith) (ground arith) (omega arith)

abbrev two_rules : List Rule
two_rules =
    record { ip = codes "10.0.0.1"; word = codes "DENY" }
    ∷ record { ip = codes "10.0.0.1"; word = codes "Allow" }
    ∷ []

known_address : resolve true two_addresses (codes "10.0.0.1") ≢ unspec
unfolding resolve str_equal
known_address e = cc

two_rules-IsRule : All (IsRule true two_addresses) two_rules
two_rules-IsRule = (
  record {
    known = known_address;
    ip_nonempty = λ e. cc;
    ip_token = ground arith;
    word_nonempty = λ e. cc;
    word_token = ground arith;
    short = omega arith;
  },
  (
    record {
      known = known_address;
      ip_nonempty = λ e. cc;
      ip_token = ground arith;
      word_nonempty = λ e. cc;
      word_token = ground arith;
      short = omega arith;
    },
    tt,
  ),
)

abbrev no_entries : PluginData
no_entries = record { filename = default_filename; entry_chain = []; watching = true; stdout = [] }

read_two_rules :
    (pd' : PluginData) × (parse_file true two_addresses
        (λ path. some (file_of two_rules))
        no_entries
      ≡ ok pd')
    × ((req : Request)
        → (status : HandlerStatus) × (txtfile_handle_request req pd' ≡ ok (status, req, pd'))
          × Verdict true two_addresses req.ip_addr.sockaddr two_rules status)
read_two_rules =
    last_line_wins true two_addresses (λ path. some (file_of two_rules)) no_entries two_rules refl
      two_rules-IsRule

crash_line :
    (parse_line true two_addresses (codes "10.0.0.1") ≡ fault)
    × (parse_line true two_addresses (codes "10.0.0.1 \r\n") ≡ fault)
crash_line =
    parse_line_crash true two_addresses (codes "10.0.0.1") (codes "\r\n") known_address (λ e. cc)
      (ground arith) (ground arith)

one_host-IsAddress : IsAddress true two_addresses (codes "10.0.0.1") (inet 167772161)
unfolding str_equal
one_host-IsAddress = v4 167772161 (λ e. refl) refl

answer_from_file :
    (pd' : PluginData) × (call_hooks
        (λ p. p.config_file_parsed)
        (file_core true true two_addresses (λ path. some (file_of two_rules))).plugins
        no_entries
      ≡ ok pd')
    × (status : HandlerStatus) × Verdict true two_addresses (inet 167772161) two_rules status
    × (text : Bytes) × IsReply 3 (reply true status).0 (reply true status).1 text
    × (handle_line
          (file_core true true two_addresses (λ path. some (file_of two_rules)))
          (stored (codes "3 10.0.0.1") [])
          (record { stdout = []; state = pd' })
        ≡ ok (record { stdout = text; state = pd' }))
unfolding print_size print_digits
answer_from_file =
    answers_by_file true true two_addresses (λ path. some (file_of two_rules)) no_entries two_rules
      3 (codes "10.0.0.1") [] [] refl two_rules-IsRule (omega arith) (ground arith) (ground arith)
      (omega arith) one_host-IsAddress

-- A number that does not fit is the largest one, behind a minus too.
minus_overflow :
    scan_request 45 (codes "-99999999999999999999999 ::1") ≡ (18446744073709551615, codes "::1")
unfolding scan_request scan_size scan_sign scan_digits skip_space starts_digit read_digits take_word
minus_overflow = refl
