-- ===== src/Startup/Unload.antt =====
-- What the end of main in src/core/main.c makes of the libraries that the loader opened.
use squid_helper.Plugins.Load.{
  calls_of, calls_handle, calls_symbol, find_plugins, found, find_handle, find_symbol, symbol_of,
  path_of,
}
use squid_helper.Plugins.{Call, opened, closed, Linker, Loaded, Loader, plugin_unload}
use squid_helper.Startup.{free_plugin, free_plugins, plugins_of}
use squid_helper.Config.{Opt, Parsed}
use squid_helper.Worker.{call_hooks}
use squid_helper.Types.{Plugin}
use squid_helper.Memory.{first_step, Bytes, Result, ok}
use squid_helper.Base.{
  sum_of, sum_of-append, ℕ, ◌+◌, ◌≡◌, ◌++◌, [], ◌∷◌, List, Option, none, some, refl, arith,
  append_assoc, append-nil, ap, ◌∙◌, Option-cases, inl, inr,
}

-- The weight of the handles that were opened, and of those that were closed.
abbrev pub opened_weight : {A : Type 0} → (A → ℕ) → Call A → ℕ
opened_weight f (opened h) = f h
opened_weight f (closed h) = 0

abbrev pub closed_weight : {A : Type 0} → (A → ℕ) → Call A → ℕ
closed_weight f (opened h) = 0
closed_weight f (closed h) = f h

module _ {W : Type 0} (linker : Linker W) (cfg_parse : List Opt → Bytes → W → Parsed W) where
  -- The plugins that stay loaded: those with no cleanup hook.
  abbrev pub kept_if : Option (W → Result W) → ℕ → ℕ
  kept_if none n = n
  kept_if (some hook) n = 0

  abbrev pub kept_weight : (linker.Handle → ℕ) → Loaded linker → ℕ
  kept_weight f (p, h) = kept_if p.plugin_free (f h)

  abbrev closing : Option (W → Result W) → linker.Handle → List (Call linker.Handle)
  closing none h = []
  closing (some hook) h = closed h ∷ []

  abbrev closings : List (Loaded linker) → List (Call linker.Handle)
  closings [] = []
  closings ((p, h) ∷ ps) = closing p.plugin_free h ++ closings ps

  free_plugins_lem :
      (ps : List (Loaded linker)) (l : Loader linker) (w w' : W)
      → call_hooks (λ p. p.plugin_free) (plugins_of linker cfg_parse ps) w ≡ ok w'
      → free_plugins linker cfg_parse ps (l, w)
        ≡ ok (record l { calls = l.calls ++ closings ps }, w')
  unfolding free_plugins free_plugin plugin_unload call_hooks
  free_plugins_lem [] l w w' e = rw (append-nil l.calls) cc
  free_plugins_lem ((p, h) ∷ ps) l w w' e = elim (Option-cases p.plugin_free) [
    | inl g ↦ rw (free_plugin, g) (free_plugins_lem ps l w w' (rw (call_hooks, g) at e))
    | inr (hook, g) ↦
        let (v, a, b) =
          first_step (hook w)
            (λ v. call_hooks (λ p. p.plugin_free) (plugins_of linker cfg_parse ps) v)
            (rw (call_hooks, g) at e) in
        rw (free_plugin, g, a)
          (free_plugins_lem ps (record l { calls = l.calls ++ closed h ∷ [] }) v w' b
            ∙ ap (λ q. ok (record l { calls = q }, w'))
                (append_assoc l.calls (closed h ∷ []) (closings ps)))
  ]

  module _ (f : linker.Handle → ℕ) where
    abbrev opens : List (Call linker.Handle) → ℕ
    opens calls = sum_of (opened_weight f) calls

    abbrev closes : List (Call linker.Handle) → ℕ
    closes calls = sum_of (closed_weight f) calls

    abbrev held : Loaded linker → ℕ
    held (p, h) = f h

    -- A library is closed again or its plugin is found.
    symbol_balance :
        (h : linker.Handle) (o : Option (Plugin W → Plugin W)) (calls : List (Call linker.Handle))
        (ps : List (Loaded linker))
        → opens calls ≡ closes calls + sum_of held ps
        → opens (calls_symbol linker h o ++ calls)
          ≡ closes (calls_symbol linker h o ++ calls)
            + sum_of held (found linker (find_symbol linker h o) ps)
    symbol_balance h none calls ps e = omega (arith, e)
    symbol_balance h (some init) calls ps e = omega (arith, e)

    handle_balance :
        (name : Bytes) (o : Option linker.Handle) (calls : List (Call linker.Handle))
        (ps : List (Loaded linker))
        → opens calls ≡ closes calls + sum_of held ps
        → opens (calls_handle linker name o ++ calls)
          ≡ closes (calls_handle linker name o ++ calls)
            + sum_of held (found linker (find_handle linker name o) ps)
    handle_balance name none calls ps e = e
    handle_balance name (some h) calls ps e =
        symbol_balance h (linker.dlsym h (symbol_of name)) calls ps e

    load_balance :
        (names : List Bytes)
        → opens (calls_of linker names)
          ≡ closes (calls_of linker names) + sum_of held (find_plugins linker names)
    load_balance [] = refl
    load_balance (name ∷ names) =
        handle_balance name (linker.dlopen (path_of linker.module_dir name)) (calls_of linker names)
          (find_plugins linker names) (load_balance names)

    hook_balance :
        (o : Option (W → Result W)) (h : linker.Handle) (calls : List (Call linker.Handle))
        → (opens (closing o h ++ calls) ≡ opens calls)
          × (closes (closing o h ++ calls) + kept_if o (f h) ≡ closes calls + f h)
    hook_balance none h calls = (refl, refl)
    hook_balance (some hook) h calls = (omega arith, omega arith)

    closings_balance :
        (ps : List (Loaded linker))
        → (opens (closings ps) ≡ 0)
          × (closes (closings ps) + sum_of (kept_weight f) ps ≡ sum_of held ps)
    closings_balance [] = (refl, refl)
    closings_balance ((p, h) ∷ ps) =
        let (a, b) = closings_balance ps in
        let (c, d) = hook_balance p.plugin_free h (closings ps) in
        (omega (arith, a, c), omega (arith, b, d))

    -- With cleanup hooks that return, the loop at the end of `main` over the plugins that a list
    -- of names found returns, and behind the calls of loading and of this loop, under every weight
    -- of handles: the libraries that were opened weigh what those weigh that were closed again and
    -- those of the plugins with no cleanup hook, which stay open.
    pub unloads_plugins :
        (names : List Bytes) (w w' : W)
        → call_hooks
            (λ p. p.plugin_free)
            (plugins_of linker cfg_parse (find_plugins linker names))
            w
          ≡ ok w'
        → (l : Loader linker) × (free_plugins linker cfg_parse
              (find_plugins linker names)
              (record { plugins = find_plugins linker names; calls = calls_of linker names }, w)
            ≡ ok (l, w'))
          × (sum_of (opened_weight f) l.calls
              ≡ sum_of (closed_weight f) l.calls
                + sum_of (kept_weight f) (find_plugins linker names))
    unloads_plugins names w w' e =
        let ps = find_plugins linker names in
        let calls = calls_of linker names in
        let (a, b) = closings_balance ps in
        (
          record { plugins = ps; calls = calls ++ closings ps },
          free_plugins_lem ps (record { plugins = ps; calls = calls }) w w' e,
          omega (
            arith,
            load_balance names,
            a,
            b,
            sum_of-append (opened_weight f) calls (closings ps),
            sum_of-append (closed_weight f) calls (closings ps),
          ),
        )
