-- ===== src/Txtfile.antt =====
-- src/plugins/mod_txtfile/webcontrol_txtfile.c: the plugin that looks addresses up in a text file.
pub mod Line
pub mod Verdict
pub mod File
pub mod Answer
use squid_helper.Strtok.{strtok, str_equal}
use squid_helper.Worker.{resolve}
use squid_helper.Scanf.{c_string}
use squid_helper.Buffer.Holds.{stored}
use squid_helper.Text.{strtoupper}
use squid_helper.Base.{
  ◌||◌, ◌-◌, ◌&&◌, length, ◌==◌, if◌then◌else◌, Option, List, Bool, ℕ, zero, suc, true, false, none,
  some, [], ◌∷◌, ◌++◌, refl,
}
use squid_helper.Memory.{codes, Bytes, Mem, Result, ok, fault, abort, ◌>>=◌}
use squid_helper.Types.{
  is_unspec, Plugin, InetPton, HandlerStatus, handler_go_on, handler_allow, handler_deny, Sockaddr,
  unspec, inet, inet6, Request,
}

-- `host_entry` without its link; the chain is a list. Of the address only the socket address is set.
pub record HostEntry : Type 0 where
  pub address : Sockaddr
  pub flag : HandlerStatus

-- `plugin_data`; `watching` says that `file_stat` is started, and `stdout` is what the plugin printed
-- there. The mutex stands for the absence of other steps between its lock and its unlock.
pub record PluginData : Type 0 where
  pub filename : Bytes
  pub entry_chain : List HostEntry
  pub watching : Bool
  pub stdout : Bytes

-- WEBCONTROL_TXTFILE_DEFAULT_FILENAME
abbrev pub default_filename : Bytes
default_filename = codes "webcontrol_hosts.txt"

-- LINE_MAX of <limits.h>
abbrev pub line_max : ℕ
line_max = 2048

abbrev pub is_blank : ℕ → Bool
is_blank c = c == b' '

abbrev pub is_newline : ℕ → Bool
is_newline c = c == b'\r' || c == b'\n'

-- `fgets(line, size, handle)`: up to `size - 1` bytes, through a newline.
unfoldable pub read_line : ℕ → Bytes → Bytes × Bytes
read_line zero file = ([], file)
read_line (suc room) [] = ([], [])
read_line (suc room) (c ∷ file) =
    let (line, rest) = read_line room file in
    if c == b'\n' then (c ∷ [], file) else (c ∷ line, rest)

-- The string in an array that may hold a NUL before its end.
unfoldable pub up_to_nul : Bytes → Bytes
up_to_nul [] = []
up_to_nul (c ∷ t) = let rest = up_to_nul t in if c == 0 then [] else c ∷ rest

abbrev pub clear_entries : PluginData → PluginData
clear_entries pd = record pd { entry_chain = [] }

-- The flag of a line behind its address: `strtok_r(NULL, "\r\n", &tmp)`, `strtoupper` and `strcmp`.
unfoldable pub parse_flag : Bytes → Result HandlerStatus
parse_flag rest = elim (strtok is_newline rest) [
  | none ↦ fault
  | some (pch, _) ↦ do
    m ← strtoupper (stored pch [])
    word ← c_string m
    ok (if str_equal word (codes "ALLOW") then handler_allow else handler_deny)
]

module _ (have_ipv6 : Bool) (pton : InetPton) where
  -- The entry of a line whose first token is read.
  unfoldable pub parse_entry : Bytes → Bytes → Result (Option HostEntry)
  parse_entry pch rest =
      let address = resolve have_ipv6 pton pch in
      let entry = (do
        flag ← parse_flag rest
        ok (some (record { address = address; flag = flag }))) in
      if is_unspec address then ok none else entry

  -- `inet_pton` of a NULL token is undefined.
  unfoldable pub parse_line : Bytes → Result (Option HostEntry)
  parse_line line = elim (strtok is_blank line) [
    | none ↦ fault
    | some (pch, rest) ↦ parse_entry pch rest
  ]

  abbrev pub push_entry : Option HostEntry → List HostEntry → List HostEntry
  push_entry none chain = chain
  push_entry (some entry) chain = entry ∷ chain

  -- The loop of `parse_file`, with a bound on its rounds that no file uses up.
  unfoldable pub parse_lines : ℕ → Bytes → List HostEntry → Result (List HostEntry)
  parse_lines rounds [] chain = ok chain
  parse_lines zero (c ∷ file) chain = fault
  parse_lines (suc rounds) (c ∷ file) chain =
      let (line, rest) = read_line (line_max - 1) (c ∷ file) in
      do entry ← parse_line (up_to_nul line); parse_lines rounds rest (push_entry entry chain)

  -- `parse_file`; `fopen` gives the contents of the file, or none.
  unfoldable pub parse_file : (Bytes → Option Bytes) → PluginData → Result PluginData
  parse_file fopen pd = elim (fopen pd.filename) [
    | none ↦ ok (record pd { stdout = pd.stdout ++ codes "ERROR\n" })
    | some file ↦ do
      let cleared = clear_entries pd
      chain ← parse_lines (length file) file cleared.entry_chain
      ok (record cleared { entry_chain = chain })
  ]

  abbrev pub webcontrol_txtfile_process_config :
      (Bytes → Option Bytes) → PluginData → Result PluginData
  webcontrol_txtfile_process_config fopen pd = parse_file fopen pd

-- `compare_addresses`: 1 or 0 for two addresses of one family, and none for -1.
unfoldable pub compare_addresses : Sockaddr → Sockaddr → Option Bool
compare_addresses (inet a) (inet b) = some (a == b)
compare_addresses (inet6 a) (inet6 b) = some (str_equal a b)
compare_addresses _ _ = none

abbrev pub is_match : Option Bool → Bool
is_match (some true) = true
is_match _ = false

-- The loop of `webcontrol_txtfile_handle_request`.
unfoldable pub find_flag : Sockaddr → List HostEntry → HandlerStatus
find_flag a [] = handler_go_on
find_flag a (entry ∷ chain) =
    let rest = find_flag a chain in
    if is_match (compare_addresses a entry.address) then entry.flag else rest

unfoldable pub txtfile_handle_request :
    Request → PluginData → Result (HandlerStatus × Request × PluginData)
txtfile_handle_request req pd = ok (find_flag req.ip_addr.sockaddr pd.entry_chain, req, pd)

unfoldable pub txtfile_free : PluginData → Result PluginData
txtfile_free pd = ok (clear_entries (record pd { watching = false }))

-- `webcontrol_mod_txtfile_plugin_init`: the plugin and its data.
unfoldable pub txtfile_plugin_init :
    Bool → InetPton → (Bytes → Option Bytes) → Plugin PluginData × PluginData
txtfile_plugin_init have_ipv6 pton fopen = (
  record {
    name = some (codes "txtfile");
    plugin_free = some txtfile_free;
    thread_init = none;
    thread_free = none;
    config_file_parsed = some (webcontrol_txtfile_process_config have_ipv6 pton fopen);
    handle_request = some txtfile_handle_request;
    options = some (codes "file" ∷ []);
    post_handle_request = none;
  },
  record { filename = default_filename; entry_chain = []; watching = true; stdout = [] },
)
