-- ===== src/Config/Collect.antt =====
-- The array of options that init_config of src/core/main.c fills.
use squid_helper.Base.{
  append_assoc, ◌∙◌, length-append, ◌==◌, append-nil, ap, sym, lt→ltb, Bool-cases, ◌+◌, ◌%◌, ◌≡◌,
  ◌≤◌, ◌<◌, refl, Option, none, some, List, [], ◌∷◌, ◌++◌, length, arith, inl, inr,
}
use squid_helper.Memory.{Bytes, Result, ok}
use squid_helper.Types.{Plugin}
use squid_helper.Config.{
  on_parsed, Parsed, push_opts, init_config, add_sections, Opt, sec, cfg_end, Slots, push_opt, grow,
  add_section, core_opts, collect_opts,
}

-- The sections of the plugins that have options and a name, in order.
abbrev pub section : Option (List Bytes) → Option Bytes → List Opt
section none name = []
section (some options) none = []
section (some options) (some name) = sec name options ∷ []

abbrev pub sections : {W : Type 0} → List (Plugin W) → List Opt
sections [] = []
sections (p ∷ ps) = section p.options p.name ++ sections ps

-- The options are added, and a slot is left for CFG_END.
record Added (r : Result Slots) (opts : List Opt) : Type 0 where
  slots : Slots
  result : r ≡ ok slots
  whole : slots.opts ≡ opts
  room : length slots.opts < slots.num_slots
  blocks : slots.num_slots % 32 ≡ 0

push_opt_lem :
    (opt : Opt) (s : Slots)
    → length s.opts < s.num_slots
    → push_opt opt s ≡ ok (record s { opts = s.opts ++ opt ∷ [] })
unfolding push_opt
push_opt_lem opt s h = rw (lt→ltb (length s.opts) s.num_slots h)

grow_lem :
    (s : Slots)
    → length s.opts < s.num_slots
    → s.num_slots % 32 ≡ 0
    → ((grow s).opts ≡ s.opts)
      × (length s.opts + 1 < (grow s).num_slots)
      × ((grow s).num_slots % 32 ≡ 0)
unfolding grow
grow_lem s h b = elim (Bool-cases (s.num_slots == length s.opts + 1)) [
  | inl e ↦ rw e (refl, omega arith, omega arith)
  | inr e ↦ rw e (refl, ground (arith, e), b)
]

add_section_lem :
    (options : Option (List Bytes)) (name : Option Bytes) (s : Slots)
    → length s.opts < s.num_slots
    → s.num_slots % 32 ≡ 0
    → Added (add_section options name s) (s.opts ++ section options name)
unfolding add_section
add_section_lem none name s h b = record {
  slots = s;
  result = refl;
  whole = sym (append-nil s.opts);
  room = h;
  blocks = b;
}
add_section_lem (some options) none s h b = record {
  slots = s;
  result = refl;
  whole = sym (append-nil s.opts);
  room = h;
  blocks = b;
}
add_section_lem (some options) (some name) s h b =
    let (e, f, g) = grow_lem s h b in
    record {
      slots = record (grow s) { opts = (grow s).opts ++ sec name options ∷ [] };
      result = push_opt_lem (sec name options) (grow s) (omega (arith, ap length e));
      whole = ap (λ q. q ++ sec name options ∷ []) e;
      room = omega (arith, ap length e, length-append (grow s).opts (sec name options ∷ []));
      blocks = g;
    }

add_sections_lem :
    {W : Type 0} (ps : List (Plugin W)) (s : Slots)
    → length s.opts < s.num_slots
    → s.num_slots % 32 ≡ 0
    → Added (add_sections ps s) (s.opts ++ sections ps)
unfolding add_sections
add_sections_lem [] s h b = record {
  slots = s;
  result = refl;
  whole = sym (append-nil s.opts);
  room = h;
  blocks = b;
}
add_sections_lem (p ∷ ps) s h b =
    let a = add_section_lem p.options p.name s h b in
    let c = add_sections_lem ps a.slots a.room a.blocks in
    record {
      slots = c.slots;
      result = rw a.result c.result;
      whole =
          c.whole
          ∙ ap (λ q. q ++ sections ps) a.whole
          ∙ append_assoc s.opts (section p.options p.name) (sections ps);
      room = c.room;
      blocks = c.blocks;
    }

-- The whole array, CFG_END included, is within its slots.
pub record Collected {W : Type 0} (ps : List (Plugin W)) (r : Result Slots) : Type 0 where
  pub slots : Slots
  pub result : r ≡ ok slots
  pub whole : slots.opts ≡ core_opts ++ (sections ps ++ cfg_end ∷ [])
  pub within : length slots.opts ≤ slots.num_slots

-- For any number of plugins every option is written within the slots that the array has at that
-- time; the options are those of the core, then a section for each plugin that has options and a
-- name, in their order, then CFG_END.
pub collect_opts_lem : {W : Type 0} (ps : List (Plugin W)) → Collected ps (collect_opts ps)
unfolding collect_opts push_opts push_opt
collect_opts_lem ps =
    let a = add_sections_lem ps (record { num_slots = 32; opts = core_opts }) (omega arith) refl in
    record {
      slots = record a.slots { opts = a.slots.opts ++ cfg_end ∷ [] };
      result = rw (a.result, lt→ltb (length a.slots.opts) a.slots.num_slots a.room);
      whole =
          ap (λ q. q ++ cfg_end ∷ []) a.whole ∙ append_assoc core_opts (sections ps) (cfg_end ∷ []);
      within = omega (arith, a.room, length-append a.slots.opts (cfg_end ∷ []));
    }

-- `init_config` parses the file for just these options.
pub init_config_lem :
    {W : Type 0} (cfg_parse : List Opt → Bytes → W → Parsed W) (ps : List (Plugin W))
    (config_file : Bytes) (w : W)
    → init_config cfg_parse ps config_file w ≡ (
        let p = cfg_parse (core_opts ++ (sections ps ++ cfg_end ∷ [])) config_file w in
        on_parsed ps p.result p)
unfolding init_config
init_config_lem cfg_parse ps config_file w = let c = collect_opts_lem ps in rw (c.result, c.whole)
