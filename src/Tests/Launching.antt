-- ===== src/Tests/Launching.antt =====
-- Runs of the start: a command line, and a configuration file that sets the texts of the core.
use squid_helper.Startup.Unload.{unloads_plugins, kept_weight, closed_weight, opened_weight}
use squid_helper.Plugins.{Loader, Linker}
use squid_helper.Startup.Launch.{starts_up, needs_config, command_line}
use squid_helper.Startup.{free_plugins, threads, Ready, on_config, startup}
use squid_helper.Config.Outcome.{Outcome, init_config-Outcome}
use squid_helper.Config.Collect.{Collected, collect_opts_lem}
use squid_helper.Config.{Opt, Parsed, cfg_success, collect_opts, init_config}
use squid_helper.Plugins.Load.{find_plugins, calls_of}
use squid_helper.Strtok.{str_equal}
use squid_helper.Worker.{call_hooks}
use squid_helper.Tests.{plugin_of}
use squid_helper.Tests.Loading.{one_library, name_list, loaded_plugin}
use squid_helper.Types.{Plugin, handler_allow}
use squid_helper.Memory.{Bytes, codes, ok, ◌>>=◌}
use squid_helper.Base.{sum_of, ℕ, ◌+◌, ◌≡◌, ◌≢◌, refl, some, true, List, [], ◌∷◌, arith}

-- A file that says "deny", whatever the options are.
abbrev deny_file : List Opt → Bytes → ℕ → Parsed ℕ
deny_file opts file w = record {
  result = cfg_success;
  logfile = some (codes "log");
  loglevel = 0;
  default_behavior = some (codes "deny");
  state = w + 1;
}

abbrev two_plugins : List (Plugin ℕ)
two_plugins = plugin_of handler_allow ∷ loaded_plugin.0 ∷ []

collect_two : Collected two_plugins (collect_opts two_plugins)
collect_two = collect_opts_lem two_plugins

configure_two :
    Outcome two_plugins (deny_file [] [] 4) (init_config deny_file two_plugins (codes "web.conf") 4)
unfolding call_hooks
configure_two = init_config-Outcome deny_file two_plugins (codes "web.conf") 4 5 (λ n. refl)

start_two :
    startup one_library deny_file (command_line (codes "web.conf") (codes "txtfile,ldap") 3) 7 ≡ (do
      c ← init_config deny_file (loaded_plugin.0 ∷ []) (codes "web.conf") 7
      ok (
          on_config one_library deny_file
            (record { plugins = loaded_plugin ∷ []; calls = calls_of one_library name_list })
            3
            c))
unfolding str_equal
start_two =
    starts_up one_library deny_file (codes "web.conf") name_list 3 7 (ground arith) (omega arith)
      (omega arith) (ground arith) (omega arith)
      (
        (λ e. cc, ground arith, ground arith, omega arith),
        ((λ e. cc, ground arith, ground arith, omega arith), tt),
      )
      (omega arith) (omega arith)

abbrev ready_seven : Ready one_library deny_file
ready_seven = record {
  loader = record { plugins = []; calls = [] };
  deny_by_default = true;
  state = 7;
  num_threads = 3;
}

no_config_file : startup one_library deny_file (threads (codes "3") ∷ []) 6 ≢ ok (some ready_seven)
no_config_file =
    needs_config one_library deny_file (threads (codes "3") ∷ []) 6 ready_seven (tt, tt)

-- The same library, with a cleanup hook.
abbrev cleaned_library : Linker ℕ
cleaned_library = record one_library {
  dlsym = λ handle symbol. some (λ p. record p { plugin_free = some (λ w. ok (w + 1)) });
}

unload_one :
    (l : Loader cleaned_library) × (free_plugins cleaned_library deny_file
        (find_plugins cleaned_library name_list)
        (
          record {
            plugins = find_plugins cleaned_library name_list;
            calls = calls_of cleaned_library name_list;
          },
          5,
        )
      ≡ ok (l, 6))
    × (sum_of (opened_weight (λ h. h)) l.calls
        ≡ sum_of (closed_weight (λ h. h)) l.calls
          + sum_of
              (kept_weight cleaned_library deny_file (λ h. h))
              (find_plugins cleaned_library name_list))
unfolding str_equal call_hooks
unload_one = unloads_plugins cleaned_library deny_file (λ h. h) name_list 5 6 refl
