-- ===== src/Tests/Loading.antt =====
-- A run of the plugin loader: one library that is there, one that is not.
use squid_helper.Plugins.Load.{loads_found_plugins, still_open}
use squid_helper.Plugins.Names.{comma_joined}
use squid_helper.Strtok.{str_equal}
use squid_helper.Plugins.{opened, plugins_load_string, blank_plugin, Loader, Loaded, Linker}
use squid_helper.Buffer.Holds.{Pending}
use squid_helper.Base.{◌-◌, ℕ, none, some, [], ◌∷◌, refl, ◌≡◌, if◌then◌else◌, arith, List, length}
use squid_helper.Memory.{codes, Bytes, ok, malloc}
use squid_helper.Tests.{piece}

abbrev pub one_library : Linker ℕ
one_library = record {
  module_dir = codes "/lib";
  Handle = ℕ;
  dlopen = λ path. if str_equal path (codes "/lib/mod_txtfile.so") then some 1 else none;
  dlsym = λ handle symbol. some (λ p. record p { name = some (codes "txtfile") });
}

abbrev pub name_list : List Bytes
name_list = codes "txtfile" ∷ codes "ldap" ∷ []

abbrev empty_loader : Loader one_library
empty_loader = record { plugins = []; calls = [] }

abbrev pub loaded_plugin : Loaded one_library
loaded_plugin = (record (blank_plugin one_library) { name = some (codes "txtfile") }, 1)

name_list-Pending : Pending (piece (comma_joined name_list)) (some (comma_joined name_list))
name_list-Pending = record {
  holds = record {
    valid = record { sized = refl; rounded = refl };
    content = (malloc (63 - length (comma_joined name_list)), refl, refl);
  };
  tight = omega arith;
}

load_two_names :
    (plugins_load_string one_library (some (piece (codes "txtfile,ldap"))) empty_loader
      ≡ ok (record { plugins = loaded_plugin ∷ []; calls = opened 1 ∷ [] }))
    × ((hs : List ℕ) → still_open one_library hs (opened 1 ∷ []) ≡ 1 ∷ hs)
unfolding str_equal
load_two_names =
    loads_found_plugins one_library (piece (comma_joined name_list)) name_list empty_loader
      (ground arith) (omega arith)
      (
        (λ e. cc, ground arith, ground arith, omega arith),
        ((λ e. cc, ground arith, ground arith, omega arith), tt),
      )
      name_list-Pending (ground arith)
