-- ===== src/Plugins/Load.antt =====
-- What the loader makes of a list of names.
use squid_helper.Plugins.Text.{string_of_lem, append_text_lem, init_text_lem}
use squid_helper.Plugins.Names.{names_short, names-IsNulFree, strtok_names, comma_joined, IsName}
use squid_helper.Strtok.{nonempty_token, take_token, skip_delimiters, strtok}
use squid_helper.Types.{Plugin}
use squid_helper.Memory.Laws.{IsNulFree}
use squid_helper.Buffer.Holds.{Pending}
use squid_helper.Base.{
  append_assoc, lt→ltb, inr, inl, ap, ◌∙◌, append-nil, Option-cases, All-append, length-append, ◌^◌,
  ℕ, zero, suc, ◌+◌, ◌≤◌, ◌<◌, Option, none, some, List, [], ◌∷◌, ◌++◌, length, ◌≡◌, refl, arith,
  All,
}
use squid_helper.Memory.{Bytes, ok, codes}
use squid_helper.Buffer.{Buffer}
use squid_helper.Plugins.{
  plugins_load_string, plugin_slots, Loader, load_names, add_plugin, closed, opened, init_plugin,
  blank_plugin, plugin_load, open_plugin, Loaded, Call, Linker,
}

abbrev pub path_of : Bytes → Bytes → Bytes
path_of dir name = ((dir ++ codes "/mod_") ++ name) ++ codes ".so"

abbrev pub symbol_of : Bytes → Bytes
symbol_of name = (codes "webcontrol_mod_" ++ name) ++ codes "_plugin_init"

module _ {W : Type 0} (linker : Linker W) where
  -- What a name stands for: the plugin whose library is found in the module directory and has the
  -- init function for the name.
  abbrev pub find_symbol : linker.Handle → Option (Plugin W → Plugin W) → Option (Loaded linker)
  find_symbol handle none = none
  find_symbol handle (some init) = some (init (blank_plugin linker), handle)

  abbrev pub find_handle : Bytes → Option linker.Handle → Option (Loaded linker)
  find_handle name none = none
  find_handle name (some handle) = find_symbol handle (linker.dlsym handle (symbol_of name))

  abbrev pub find_plugin : Bytes → Option (Loaded linker)
  find_plugin name = find_handle name (linker.dlopen (path_of linker.module_dir name))

  -- The plugins that are found for a list of names, in order.
  abbrev pub found : Option (Loaded linker) → List (Loaded linker) → List (Loaded linker)
  found none ps = ps
  found (some p) ps = p ∷ ps

  abbrev pub find_plugins : List Bytes → List (Loaded linker)
  find_plugins [] = []
  find_plugins (name ∷ names) = found (find_plugin name) (find_plugins names)

  -- The handles that stay open after some calls, the last opened first. Only the handle that was
  -- opened last is closed here.
  abbrev pub still_open : List linker.Handle → List (Call linker.Handle) → List linker.Handle
  still_open hs [] = hs
  still_open hs (opened h ∷ calls) = still_open (h ∷ hs) calls
  still_open [] (closed h ∷ calls) = still_open [] calls
  still_open (_ ∷ hs) (closed h ∷ calls) = still_open hs calls

  path_lem :
      (name : Bytes) (calls : List (Call linker.Handle))
      → IsNulFree linker.module_dir
      → length linker.module_dir < 2 ^ 59
      → IsName name
      → plugin_load linker name calls
        ≡ open_plugin linker name (linker.dlopen (path_of linker.module_dir name)) calls
  unfolding plugin_load
  path_lem name calls z f k =
      let dir = linker.module_dir in
      let a = init_text_lem dir z (omega arith) in
      let m : IsNulFree (codes "/mod_") = ground arith in
      let so : IsNulFree (codes ".so") = ground arith in
      let b = append_text_lem a.buf dir (codes "/mod_") a.pending m (omega arith) in
      let c =
        append_text_lem b.buf (dir ++ codes "/mod_") name b.pending k.1
          (omega (arith, length-append dir (codes "/mod_"))) in
      let d = append_text_lem c.buf ((dir ++ codes "/mod_") ++ name) (codes ".so") c.pending so (
        omega
          (arith, length-append dir (codes "/mod_"), length-append (dir ++ codes "/mod_") name)) in
      let free =
        All-append _ ((dir ++ codes "/mod_") ++ name) (codes ".so")
          (All-append _ (dir ++ codes "/mod_") name (All-append _ dir (codes "/mod_") z m) k.1)
          so in
      rw (a.result, b.result, c.result, d.result, string_of_lem d.buf _ d.pending free)

  symbol_lem :
      (name : Bytes) (handle : linker.Handle) (calls : List (Call linker.Handle))
      → IsName name
      → open_plugin linker name (some handle) calls
        ≡ ok (init_plugin linker handle (symbol_of name) calls)
  unfolding open_plugin
  symbol_lem name handle calls k =
      let pre = codes "webcontrol_mod_" in
      let zp : IsNulFree pre = ground arith in
      let zq : IsNulFree (codes "_plugin_init") = ground arith in
      let a = init_text_lem pre zp (omega arith) in
      let b = append_text_lem a.buf pre name a.pending k.1 (omega arith) in
      let c =
        append_text_lem b.buf (pre ++ name) (codes "_plugin_init") b.pending zq
          (omega (arith, length-append pre name)) in
      let free =
        All-append _ (pre ++ name) (codes "_plugin_init") (All-append _ pre name zp k.1) zq in
      rw (a.result, b.result, c.result, string_of_lem c.buf _ c.pending free)

  -- The calls that a name adds, by what is found for it.
  abbrev pub calls_symbol : linker.Handle → Option (Plugin W → Plugin W) → List (Call linker.Handle)
  calls_symbol handle none = opened handle ∷ closed handle ∷ []
  calls_symbol handle (some init) = opened handle ∷ []

  abbrev pub calls_handle : Bytes → Option linker.Handle → List (Call linker.Handle)
  calls_handle name none = []
  calls_handle name (some handle) = calls_symbol handle (linker.dlsym handle (symbol_of name))

  abbrev pub calls_of : List Bytes → List (Call linker.Handle)
  calls_of [] = []
  calls_of (name ∷ names) =
      calls_handle name (linker.dlopen (path_of linker.module_dir name)) ++ calls_of names

  init_plugin_lem :
      (handle : linker.Handle) (name : Bytes) (calls : List (Call linker.Handle))
      → init_plugin linker handle (symbol_of name) calls ≡ (
        find_symbol handle (linker.dlsym handle (symbol_of name)),
        calls ++ calls_symbol handle (linker.dlsym handle (symbol_of name)),
      )
  unfolding init_plugin
  init_plugin_lem handle name calls = elim (Option-cases (linker.dlsym handle (symbol_of name))) [
    | inl e ↦ rw (init_plugin, e)
    | inr (init, e) ↦ rw (init_plugin, e)
  ]

  open_plugin_lem :
      (name : Bytes) (o : Option linker.Handle) (calls : List (Call linker.Handle))
      → IsName name
      → open_plugin linker name o calls ≡ ok (find_handle name o, calls ++ calls_handle name o)
  unfolding open_plugin
  open_plugin_lem name none calls k = rw (append-nil calls)
  open_plugin_lem name (some handle) calls k =
      symbol_lem name handle calls k ∙ ap ok (init_plugin_lem handle name calls)

  -- plugin_load gives the plugin that the name stands for, and keeps a library open only for it.
  plugin_load_lem :
      (name : Bytes) (calls : List (Call linker.Handle))
      → IsNulFree linker.module_dir
      → length linker.module_dir < 2 ^ 59
      → IsName name
      → plugin_load linker name calls
        ≡ ok (
          find_plugin name,
          calls ++ calls_handle name (linker.dlopen (path_of linker.module_dir name)),
        )
  plugin_load_lem name calls z f k = path_lem name calls z f k ∙ open_plugin_lem name _ calls k

  add_plugin_lem :
      (o : Option (Loaded linker)) (l : Loader linker)
      → length l.plugins + length (found o []) ≤ plugin_slots
      → add_plugin linker o l ≡ ok (record l { plugins = l.plugins ++ found o [] })
  unfolding add_plugin
  add_plugin_lem none l h = rw (append-nil l.plugins)
  add_plugin_lem (some p) l h = rw (lt→ltb (length l.plugins) plugin_slots (omega arith))

  found-append :
      (o : Option (Loaded linker)) (ps : List (Loaded linker)) → found o ps ≡ found o [] ++ ps
  found-append none ps = refl
  found-append (some p) ps = refl

  load_no_names : (rounds : ℕ) (l : Loader linker) → load_names linker (suc rounds) [] l ≡ ok l
  unfolding load_names strtok skip_delimiters take_token nonempty_token
  load_no_names rounds l = refl

  load_names_lem :
      (names : List Bytes) (rounds : ℕ) (l : Loader linker)
      → IsNulFree linker.module_dir
      → length linker.module_dir < 2 ^ 59
      → All IsName names
      → length names < rounds
      → length l.plugins + length (find_plugins names) ≤ plugin_slots
      → load_names linker rounds (comma_joined names) l
        ≡ ok (record {
          plugins = l.plugins ++ find_plugins names;
          calls = l.calls ++ calls_of names;
        })
  unfolding load_names
  load_names_lem names zero l z f k r h = absurd (omega arith)
  load_names_lem [] (suc rounds) l z f k r h =
      rw (append-nil l.plugins, append-nil l.calls) (load_no_names rounds l)
  load_names_lem (name ∷ names) (suc rounds) l z f k r h =
      let (rest, e, q) = strtok_names name names k.0 in
      let fresh = calls_handle name (linker.dlopen (path_of linker.module_dir name)) in
      let split = found-append (find_plugin name) (find_plugins names) in
      let size = ap length split in
      let more = length-append (found (find_plugin name) []) (find_plugins names) in
      let l' : Loader linker = record {
        plugins = l.plugins ++ found (find_plugin name) [];
        calls = l.calls ++ fresh;
      } in
      let added =
        add_plugin_lem (find_plugin name) (record l { calls = l.calls ++ fresh }) (omega arith) in
      let tail =
        load_names_lem names rounds l' z f k.1 (omega arith)
          (omega (arith, length-append l.plugins (found (find_plugin name) []))) in
      rw (load_names, e, plugin_load_lem name l.calls z f k.0, added, q, tail, split)
        (rw (
          append_assoc l.plugins (found (find_plugin name) []) (find_plugins names),
          append_assoc l.calls fresh (calls_of names),
        ))

  -- The handles of some plugins, the last one first, on top of others.
  abbrev pub handles_on : List linker.Handle → List (Loaded linker) → List linker.Handle
  handles_on hs [] = hs
  handles_on hs ((p, h) ∷ ps) = handles_on (h ∷ hs) ps

  still_open-symbol :
      (handle : linker.Handle) (o : Option (Plugin W → Plugin W)) (hs : List linker.Handle)
      (calls : List (Call linker.Handle)) (ps : List (Loaded linker))
      → ((hs : List linker.Handle) → still_open hs calls ≡ handles_on hs ps)
      → still_open hs (calls_symbol handle o ++ calls)
        ≡ handles_on hs (found (find_symbol handle o) ps)
  still_open-symbol handle none hs calls ps e = e hs
  still_open-symbol handle (some init) hs calls ps e = e (handle ∷ hs)

  still_open-handle :
      (name : Bytes) (o : Option linker.Handle) (hs : List linker.Handle)
      (calls : List (Call linker.Handle)) (ps : List (Loaded linker))
      → ((hs : List linker.Handle) → still_open hs calls ≡ handles_on hs ps)
      → still_open hs (calls_handle name o ++ calls) ≡ handles_on hs (found (find_handle name o) ps)
  still_open-handle name none hs calls ps e = e hs
  still_open-handle name (some handle) hs calls ps e =
      still_open-symbol handle (linker.dlsym handle (symbol_of name)) hs calls ps e

  still_open-calls_of :
      (names : List Bytes) (hs : List linker.Handle)
      → still_open hs (calls_of names) ≡ handles_on hs (find_plugins names)
  still_open-calls_of [] hs = refl
  still_open-calls_of (name ∷ names) hs =
      still_open-handle name (linker.dlopen (path_of linker.module_dir name)) hs (calls_of names)
        (find_plugins names) (still_open-calls_of names)

  -- For a buffer that holds names joined by commas, each non-empty, without comma and NUL and
  -- shorter than 2^59 bytes, as the module directory is, and no more plugins found than there are
  -- slots left: plugins_load_string reads no byte outside a block and adds, in the order of the
  -- names, the plugins whose library is found by its path and has the init function for the name;
  -- of the libraries that were opened just those of these plugins stay open.
  pub loads_found_plugins :
      (b : Buffer) (names : List Bytes) (l : Loader linker)
      → IsNulFree linker.module_dir
      → length linker.module_dir < 2 ^ 59
      → All IsName names
      → Pending b (some (comma_joined names))
      → length l.plugins + length (find_plugins names) ≤ plugin_slots
      → (plugins_load_string linker (some b) l
          ≡ ok (record {
            plugins = l.plugins ++ find_plugins names;
            calls = l.calls ++ calls_of names;
          }))
        × ((hs : List linker.Handle)
            → still_open hs (calls_of names) ≡ handles_on hs (find_plugins names))
  unfolding plugins_load_string
  loads_found_plugins b names l z f k p h = (
    rw (string_of_lem b (comma_joined names) p (names-IsNulFree names k)) (
        load_names_lem names (length (comma_joined names) + 1) l z f k
          (omega (arith, names_short names k)) h),
    still_open-calls_of names,
  )
