-- ===== src/Config/Outcome.antt =====
-- What init_config of src/core/main.c makes of each result of the parser.
use squid_helper.Strtok.Laws.{str_equal_iff}
use squid_helper.Strtok.{str_equal}
use squid_helper.Worker.{call_hooks}
use squid_helper.Config.Collect.{init_config_lem, sections}
use squid_helper.Base.{
  ◌≡◌, ◌≢◌, ◌⊎◌, inl, inr, ◌↔◌, refl, Bool, true, Option, none, some, List, [], ◌∷◌, ◌++◌,
}
use squid_helper.Memory.{Bytes, Result, ok, fault, codes}
use squid_helper.Types.{Plugin}
use squid_helper.Config.{
  apply_config, Opt, cfg_end, Parsed, ParseResult, cfg_success, cfg_file_error, cfg_parse_error,
  core_opts, init_config, on_parsed,
}

-- The cases: a file that cannot be parsed, a text of the core that is not set, or both texts set, with
-- the hooks called in order.
pub data Outcome {W : Type 0} (ps : List (Plugin W)) (p : Parsed W) (r : Result (Option Bool × W))
    : Type 0 where
  refused : p.result ≡ cfg_parse_error → r ≡ ok (none, p.state) → Outcome ps p r
  undefined :
      p.result ≢ cfg_parse_error
      → (p.default_behavior ≡ none) ⊎ (p.logfile ≡ none)
      → r ≡ fault
      → Outcome ps p r
  configured :
      (default_behavior logfile : Bytes) (deny : Bool) (w : W)
      → p.result ≢ cfg_parse_error
      → p.default_behavior ≡ some default_behavior
      → p.logfile ≡ some logfile
      → call_hooks (λ q. q.config_file_parsed) ps p.state ≡ ok w
      → (deny ≡ true) ↔ (default_behavior ≡ codes "deny")
      → r ≡ ok (some deny, w)
      → Outcome ps p r

module _ {W : Type 0} (ps : List (Plugin W)) (p : Parsed W) (w : W)
    (hooks : p.result ≢ cfg_parse_error
      → call_hooks (λ q. q.config_file_parsed) ps p.state ≡ ok w) where
  apply_config-Outcome :
      (d l : Option Bytes)
      → p.result ≢ cfg_parse_error
      → p.default_behavior ≡ d
      → p.logfile ≡ l
      → Outcome ps p (apply_config ps d l p.state)
  unfolding apply_config
  apply_config-Outcome none l n d g = undefined n (inl d) refl
  apply_config-Outcome (some b) none n d g = undefined n (inr g) refl
  apply_config-Outcome (some b) (some f) n d g =
      configured b f (str_equal b (codes "deny")) w n d g (hooks n) (str_equal_iff b (codes "deny"))
        (rw (hooks n))

  on_parsed-Outcome : (q : ParseResult) → p.result ≡ q → Outcome ps p (on_parsed ps q p)
  unfolding on_parsed
  on_parsed-Outcome cfg_parse_error e = refused e refl
  on_parsed-Outcome cfg_success e =
      apply_config-Outcome p.default_behavior p.logfile (λ f. cc) refl refl
  on_parsed-Outcome cfg_file_error e =
      apply_config-Outcome p.default_behavior p.logfile (λ f. cc) refl refl

-- With configuration hooks that return if the file is not refused: a file that cannot be parsed is
-- refused, and the plugins are left as the parser left them, whatever their hooks would do. Else,
-- if the default behaviour or the log file is not set, a null pointer is used. Else the hooks are
-- called in order, and deny is the default just where the text is "deny".
pub init_config-Outcome :
    {W : Type 0} (cfg_parse : List Opt → Bytes → W → Parsed W) (ps : List (Plugin W))
    (config_file : Bytes) (w : W)
    → let p = cfg_parse (core_opts ++ (sections ps ++ cfg_end ∷ [])) config_file w in
      (w' : W)
      → (p.result ≢ cfg_parse_error → call_hooks (λ q. q.config_file_parsed) ps p.state ≡ ok w')
      → Outcome ps p (init_config cfg_parse ps config_file w)
init_config-Outcome cfg_parse ps config_file w w' hooks =
    let p = cfg_parse (core_opts ++ (sections ps ++ cfg_end ∷ [])) config_file w in
    rw (init_config_lem cfg_parse ps config_file w) (on_parsed-Outcome ps p w' hooks p.result refl)
