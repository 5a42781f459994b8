-- ===== src/Plugin/Composed.antt =====
-- The configuration and the registry of a plugin after any history.
use cmdcode_go.Base.{
  ℕ, String, ◌≡◌, refl, sym, ap, subst, ◌∙◌, Bool, true, false, ◌&&◌, Option, none, some, List, [],
  ◌∷◌, arith, eq_iff, eqb, get_elem?, is_some, is_empty, Bool-cases, inl, inr, Result, ok, err,
}
use cmdcode_go.Models.{ModelDef}
use cmdcode_go.Config.{PluginConfig, Formats, ConfigError, update}
use cmdcode_go.Config.Valid.{IsValid, no_config-IsValid}
use cmdcode_go.Config.Updated.{update_iff}
use cmdcode_go.Registry.{
  Registry, new_registry, SourceConfig, Durations, Download, Fetched, RefreshError, configure,
  begin_refresh, begin_file, complete_refresh, publish, outcome, refresh_interval, rests,
  same_source, same_time, within,
}
use cmdcode_go.Registry.Flight.{World, configures, begins, completes, step, completed}
use cmdcode_go.Registry.Publish.{Reached, step-Reached, start-Reached, begun-registry}
use cmdcode_go.Plugin.{
  Plugin, source_of, new_plugin, configured, configure_plugin, Happening, configure_with,
  refresh_begins, refresh_completes, happen, live,
}

-- A checked configuration, of which the registry has its part; one download of it at a time, and a
-- catalog that was vetted.
pub record IsComposed (f : Formats) (compiled : List ModelDef) (p : Plugin) : Type 0 where
  pub valid : IsValid f p.config
  pub in_step : p.world.registry.cfg ≡ source_of p.config
  pub reached : Reached compiled p.world

update-IsValid :
    (f : Formats) (request : String) (old new : PluginConfig) (o : Option ConfigError)
    → update f request old ≡ (new, o)
    → IsValid f old
    → IsValid f new
update-IsValid f request old new none h v = elim ((update_iff f request old new none).0 h) [
  | inl (empty, same) ↦ subst (IsValid f) (sym same) v
  | inr (text, asked, there, inl (nothing, same)) ↦ subst (IsValid f) (sym same) v
  | inr (text, asked, there, inr (something, asks)) ↦ asks.valid
]
update-IsValid f request old new (some e) h v =
    subst (IsValid f) (sym ((update_iff f request old new (some e)).0 h).0) v

update-kept :
    (f : Formats) (request : String) (old new : PluginConfig) (e : ConfigError)
    → update f request old ≡ (new, some e)
    → new ≡ old
update-kept f request old new e h = ((update_iff f request old new (some e)).0 h).0

same_source_lem : (a b : SourceConfig) → same_source a b ≡ true → a ≡ b
same_source_lem a b h =
    let url : a.models_url ≡ b.models_url = (eq_iff a.models_url b.models_url).0 (ground arith) in
    let file : a.models_file ≡ b.models_file =
      (eq_iff a.models_file b.models_file).0 (ground arith) in
    let interval : a.models_refresh_interval ≡ b.models_refresh_interval =
      (eq_iff a.models_refresh_interval b.models_refresh_interval).0 (ground arith) in
    cc

configure-cfg :
    (parse : Durations) (cfg : SourceConfig) (r : Registry) → (configure parse cfg r).cfg ≡ cfg
unfolding configure
configure-cfg parse cfg r = elim (Bool-cases (same_source r.cfg cfg)) [
  | inl y ↦ simp y (same_source_lem r.cfg cfg y)
  | inr n ↦ simp n refl
]

file-cfg : (now : ℕ) (stat : Option ℕ) (r : Registry) → (begin_file now stat r).0.cfg ≡ r.cfg
file-cfg now none r = refl
file-cfg now (some mt) r = elim (Bool-cases (is_some r.fetched && same_time (some mt) r.file_mt)) [
  | inl y ↦ simp y refl
  | inr m ↦ simp m refl
]

begin-cfg :
    (parse : Durations) (now : ℕ) (stat : Option ℕ) (r : Registry)
    → (begin_refresh parse now stat r).0.cfg ≡ r.cfg
unfolding begin_refresh
begin-cfg parse now stat r =
    let i = refresh_interval parse r.cfg in
    elim (Bool-cases (rests now i.1 r)) [
      | inl y ↦ simp y refl
      | inr n ↦ elim (Bool-cases (is_empty r.cfg.models_file)) [
        | inr file ↦ simp (n, file) (file-cfg now stat r)
        | inl url ↦ elim (Bool-cases (within now r.fetched i.0)) [
          | inl y ↦ simp (n, url, y) refl
          | inr m ↦ simp (n, url, m) refl
        ]
      ]
    ]

publish-cfg :
    (now : ℕ) (mt : Option ℕ) (r : Registry) (x : Result RefreshError (List ModelDef))
    → (publish now mt r x).0.cfg ≡ r.cfg
publish-cfg now mt r (err e) = refl
publish-cfg now mt r (ok defs) = refl

completed-cfg :
    (i now : ℕ) (ended : Bool) (got : Fetched) (w : World) (o : Option Download)
    → (completed i now ended got w o).registry.cfg ≡ w.registry.cfg
unfolding complete_refresh
completed-cfg i now ended got w none = refl
completed-cfg i now ended got w (some d) =
    elim (Bool-cases (eqb d.generation w.registry.generation)) [
      | inl y ↦ simp y (
          publish-cfg now d.mt (record (w.registry) { loading = false; cancel = none })
            (outcome ended got))
      | inr n ↦ simp n refl
    ]

configured-IsComposed :
    (f : Formats) (compiled : List ModelDef) (request : String) (p : Plugin)
    (r : PluginConfig × Option ConfigError)
    → update f request p.config ≡ r
    → IsComposed f compiled p
    → IsComposed f compiled ((configured f p r).0)
unfolding step
configured-IsComposed f compiled request p (held, none) h c = record {
  valid = update-IsValid f request p.config held none h c.valid;
  in_step = configure-cfg f.parse_duration (source_of held) p.world.registry;
  reached = step-Reached compiled f.parse_duration p.world (configures (source_of held)) c.reached;
}
configured-IsComposed f compiled request p (held, some e) h c = record {
  valid = update-IsValid f request p.config held (some e) h c.valid;
  in_step = c.in_step ∙ ap source_of (sym (update-kept f request p.config held e h));
  reached = c.reached;
}

happen-IsComposed :
    (f : Formats) (compiled : List ModelDef) (p : Plugin) (e : Happening)
    → IsComposed f compiled p
    → IsComposed f compiled (happen f p e)
unfolding happen configure_plugin step
happen-IsComposed f compiled p (configure_with request) c =
    configured-IsComposed f compiled request p (update f request p.config) refl c
happen-IsComposed f compiled p (refresh_begins now stat) c = record {
  valid = c.valid;
  in_step =
      ap (λ r. r.cfg)
        (begun-registry p.world.flights (begin_refresh f.parse_duration now stat p.world.registry))
      ∙ begin-cfg f.parse_duration now stat p.world.registry
      ∙ c.in_step;
  reached = step-Reached compiled f.parse_duration p.world (begins now stat) c.reached;
}
happen-IsComposed f compiled p (refresh_completes i now ended got) c = record {
  valid = c.valid;
  in_step = completed-cfg i now ended got p.world (get_elem? p.world.flights i) ∙ c.in_step;
  reached = step-Reached compiled f.parse_duration p.world (completes i now ended got) c.reached;
}

live-IsComposed_from :
    (f : Formats) (compiled : List ModelDef) (p : Plugin) (es : List Happening)
    → IsComposed f compiled p
    → IsComposed f compiled (live f p es)
unfolding live
live-IsComposed_from f compiled p [] c = c
live-IsComposed_from f compiled p (e ∷ es) c =
    live-IsComposed_from f compiled (happen f p e) es (happen-IsComposed f compiled p e c)

-- However configuration requests, accepted or refused, and the two parts of refreshes interleave, the
-- configuration passes its checks, the registry works from exactly its part of it, at most one download
-- of it is under way, and the catalog is the compiled one or that of an accepted roster.
pub live-IsComposed :
    (f : Formats) (compiled : List ModelDef) (es : List Happening)
    → IsComposed f compiled (live f (new_plugin compiled) es)
unfolding new_registry
live-IsComposed f compiled es =
    live-IsComposed_from f compiled (new_plugin compiled) es
      (record { valid = no_config-IsValid f; in_step = refl; reached = start-Reached compiled })
