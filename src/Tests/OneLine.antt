-- ===== src/Tests/OneLine.antt =====
-- One request line, as it is read and as a worker with the cache and the hosts file answers it.
use squid_helper.Buffer.Holds.{stored}
use squid_helper.Strtok.{str_equal}
use squid_helper.Memory.{load, store, strlen, memcpy}
use squid_helper.Buffer.{
  buffer_init_string, buffer_copy_string, fill_string, buffer_prepare_copy, round_capacity,
  buffer_reset,
}
use squid_helper.Memcached.{read_status, key_bytes}
use squid_helper.Memcached.Key.{key_of}
use squid_helper.Txtfile.{
  compare_addresses, find_flag, txtfile_handle_request, txtfile_plugin_init, PluginData,
}
use squid_helper.Scanf.{
  print_digits, print_size, take_word, read_digits, starts_digit, scan_digits, skip_space,
  scan_sign, scan_size, scan_request, c_string,
}
use squid_helper.Memcached.{
  generate_key, memcached_post_handle_request, memcached_handle_request, memcached_plugin_init,
  State,
}
use squid_helper.Worker.{
  new_request, response, answer, run_post_handlers, finish, run_handlers, dispatch, resolve,
  handle_address, handle_line, Work, Core,
}
use squid_helper.Tests.Store.{ready, one_entry, one_entry-IsCache}
use squid_helper.Tests.Cached.{no_files, one_rule}
use squid_helper.Tests.{piece, two_addresses}
use squid_helper.Program.{push}
use squid_helper.Program.Cached.{cached}
use squid_helper.Input.{Input, bytes, stdin_read_cb, on_bytes, scan, take_line, keep_remainder}
use squid_helper.Buffer.{Buffer, buffer_init}
use squid_helper.Memory.{Bytes, codes, ok}
use squid_helper.Base.{some, none, ◌≡◌, refl, [], ◌∷◌, List, true}

abbrev pub request_chunk : Bytes
request_chunk = codes "7 10.0.0.1\n"

abbrev pub no_input : Input (List Buffer)
no_input = record { tmp_line_buf = buffer_init; jobs = []; watching = true; stdout = [] }

abbrev pub one_line : Input (List Buffer)
one_line = record no_input { jobs = piece (codes "7 10.0.0.1") ∷ [] }

pub read_one_line : stdin_read_cb push no_input (bytes request_chunk ∷ []) ≡ ok (one_line, [])
unfolding stdin_read_cb on_bytes scan take_line keep_remainder load store buffer_init_string
    buffer_copy_string strlen fill_string buffer_prepare_copy memcpy round_capacity buffer_reset
read_one_line = refl

abbrev pub cache_core : Core (State one_entry × PluginData)
cache_core = cached one_entry one_entry-IsCache none true true two_addresses no_files

abbrev pub line_seven : Bytes
line_seven = codes "7 10.0.0.1"

abbrev pub served : Work (State one_entry × PluginData)
served = record {
  stdout = codes "7 OK\n";
  state = (record ready { store = some (key_of (codes "10.0.0.1"), codes "TRUE") }, one_rule);
}

pub serve_seven :
    handle_line cache_core
      (stored line_seven [])
      (record { stdout = []; state = (ready, one_rule) })
    ≡ ok served
unfolding handle_line c_string scan_request scan_size scan_sign skip_space scan_digits starts_digit
    read_digits take_word handle_address resolve dispatch run_handlers finish run_post_handlers
    answer response print_size print_digits memcached_plugin_init txtfile_plugin_init
    memcached_handle_request memcached_post_handle_request generate_key key_bytes read_status
    txtfile_handle_request find_flag compare_addresses new_request str_equal memcpy
serve_seven = refl
