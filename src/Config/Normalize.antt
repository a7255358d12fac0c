-- ===== src/Config/Normalize.antt =====
-- `normalize` and `parse_and_normalize` of crates/hookbox-server/src/config.rs.
use hookbox.Prelude.{String, Option, none, some, List, [], ◌∷◌, Result, ok, err, ◌>>◌, ◌>>=◌}
use hookbox.Config.Emitters.{EmitterConfig, EmitterEntry, HookboxConfig, from_legacy}
use hookbox.Config.Validate.{ConfigError, Violation, validate_emitter_entries}

abbrev pub deprecation : String
deprecation = "`[emitter]` is deprecated; migrate to `[[emitters]]`"

-- `config.emitters = ...; config.emitter = None;`
unfoldable pub with_emitters : HookboxConfig → List EmitterEntry → HookboxConfig
with_emitters c entries = record {
  server = c.server;
  database = c.database;
  providers = c.providers;
  dedupe = c.dedupe;
  admin = c.admin;
  retry = c.retry;
  emitter = none;
  emitters = entries;
}

-- The `match` on the two sections.
unfoldable pub choose_section :
    HookboxConfig
    → Option EmitterConfig
    → List EmitterEntry
    → Result (HookboxConfig × List String) ConfigError
unfolding with_emitters from_legacy
choose_section c (some legacy) (e ∷ entries) = err (ConfigError.validation Violation.both_sections)
choose_section c none [] = err (ConfigError.validation Violation.no_emitters)
choose_section c (some legacy) [] =
    ok (with_emitters c (from_legacy legacy c.retry ∷ []), deprecation ∷ [])
choose_section c none (e ∷ entries) = ok (c, [])

unfoldable pub normalize : HookboxConfig → Result (HookboxConfig × List String) ConfigError
unfolding choose_section validate_emitter_entries
normalize c = do
  chosen ← choose_section c c.emitter c.emitters
  validate_emitter_entries chosen.0.emitters
  ok chosen

-- `from_str` is `toml::from_str`.
unfoldable pub parse_and_normalize :
    (String → Result HookboxConfig String)
    → String
    → Result (HookboxConfig × List String) ConfigError
unfolding normalize
parse_and_normalize from_str toml_str = elim (from_str toml_str) [
  | err e ↦ err (ConfigError.parse e)
  | ok c ↦ normalize c
]
