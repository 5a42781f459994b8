-- ===== src/Plugin.antt =====
-- go/plugin.go, `Configure` and `snapshot`: the configuration and the model registry of one plugin, which
-- a lock of the plugin keeps in step. Refreshes of the registry come in between.
pub mod Composed
mod Tests
use cmdcode_go.Base.{ℕ, String, Bool, Option, none, some, List, [], ◌∷◌}
use cmdcode_go.Models.{ModelDef}
use cmdcode_go.Config.{PluginConfig, Formats, ConfigError, no_config, update}
use cmdcode_go.Registry.{SourceConfig, Fetched}
use cmdcode_go.Registry.Flight.{World, configures, begins, completes, step}
use cmdcode_go.Registry.Publish.{start}
use cmdcode_go.Executor.{TurnSnapshot}

pub record Plugin : Type 0 where
  pub config : PluginConfig
  pub world : World

-- The part of a configuration that the registry reads.
abbrev pub source_of : PluginConfig → SourceConfig
source_of cfg = record {
  models_url = cfg.models_url;
  models_file = cfg.models_file;
  models_refresh_interval = cfg.models_refresh_interval;
}

abbrev pub new_plugin : List ModelDef → Plugin
new_plugin compiled = record { config = no_config; world = start compiled }

abbrev pub configured :
    Formats → Plugin → PluginConfig × Option ConfigError → Plugin × Option ConfigError
configured f p (held, some e) = (record p { config = held }, some e)
configured f p (held, none) = (
  record { config = held; world = step f.parse_duration p.world (configures (source_of held)) },
  none,
)

unfoldable pub configure_plugin : Formats → String → Plugin → Plugin × Option ConfigError
configure_plugin f request p = configured f p (update f request p.config)

unfoldable pub snapshot : Plugin → TurnSnapshot
snapshot p = record { config = p.config; models = p.world.registry.current }

-- What happens to a plugin: a configuration request, and the two locked parts of a refresh.
pub data Happening : Type 0 where
  configure_with : String → Happening
  refresh_begins : ℕ → Option ℕ → Happening
  refresh_completes : ℕ → ℕ → Bool → Fetched → Happening

unfoldable pub happen : Formats → Plugin → Happening → Plugin
unfolding configure_plugin
happen f p (configure_with request) = (configure_plugin f request p).0
happen f p (refresh_begins now stat) = record p {
  world = step f.parse_duration p.world (begins now stat);
}
happen f p (refresh_completes i now ended got) = record p {
  world = step f.parse_duration p.world (completes i now ended got);
}

unfoldable pub live : Formats → Plugin → List Happening → Plugin
live f p [] = p
live f p (e ∷ es) = live f (happen f p e) es
