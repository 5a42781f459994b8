-- ===== src/Registry.antt =====
-- go/models_remote.go, `ModelRegistry`: refresh state and snapshots. `Refresh` holds the lock twice,
-- around a download that it makes without it: `begin_refresh` is the first part, `complete_refresh`
-- the second. A time is in nanoseconds; the zero `time.Time` is `none`.
pub mod Flight
pub mod Publish
pub mod Stale
pub mod Fetch
mod Tests
use cmdcode_go.Base.{
  ℕ, suc, ◌+◌, ◌-◌, String, ◌==◌, Bool, true, false, not, ◌&&◌, ◌||◌, Option, none, some, List, [],
  ◌∷◌, ltb, eqb, if◌then◌else◌, ℤ, pos, negsuc, is_positive, to_ℕ, is_some, is_empty, Result, ok,
  err, get_elem?, remove_at,
}
use cmdcode_go.Models.{ModelDef, ModelSnapshot, new_snapshot}
use cmdcode_go.Models.Roster.{RemoteModelFile, RosterError, parse_models_file}

pub record SourceConfig : Type 0 where
  pub models_url : String
  pub models_file : String
  pub models_refresh_interval : String

abbrev pub default_refresh_interval : ℕ
default_refresh_interval = 21_600_000_000_000

abbrev pub min_retry_interval : ℕ
min_retry_interval = 300_000_000_000

pub record Registry : Type 0 where
  pub fallback : ModelSnapshot
  pub current : ModelSnapshot
  pub cfg : SourceConfig
  pub generation : ℕ
  pub loading : Bool
  -- the generation of the download that the held cancel function ends
  pub cancel : Option ℕ
  pub attempted : Option ℕ
  pub fetched : Option ℕ
  pub file_mt : Option ℕ
  pub failed : Bool

abbrev no_config : SourceConfig
no_config = record { models_url = ""; models_file = ""; models_refresh_interval = "" }

unfoldable pub new_registry : List ModelDef → Registry
new_registry defs = record {
  fallback = new_snapshot defs;
  current = new_snapshot defs;
  cfg = no_config;
  generation = 0;
  loading = false;
  cancel = none;
  attempted = none;
  fetched = none;
  file_mt = none;
  failed = false;
}

abbrev pub Durations : Type 0
Durations = String → Option ℤ

abbrev interval_for : Option ℤ → ℕ × Bool
interval_for none = (default_refresh_interval, true)
interval_for (some d) = (to_ℕ d, is_positive d)

-- modelsRefreshInterval, by what `time.ParseDuration` makes of a text
unfoldable pub refresh_interval : Durations → SourceConfig → ℕ × Bool
refresh_interval parse cfg =
    if is_empty cfg.models_refresh_interval
    then (default_refresh_interval, true)
    else interval_for (parse cfg.models_refresh_interval)

abbrev pub same_source : SourceConfig → SourceConfig → Bool
same_source a b =
    (a.models_url == b.models_url)
    && (a.models_file == b.models_file)
    && (a.models_refresh_interval == b.models_refresh_interval)

unfoldable pub configure : Durations → SourceConfig → Registry → Registry
unfolding refresh_interval
configure parse cfg r = if same_source r.cfg cfg then r else record r {
  generation = suc r.generation;
  cancel = none;
  loading = false;
  cfg = cfg;
  attempted = none;
  fetched = none;
  file_mt = none;
  failed = false;
  current = if (refresh_interval parse cfg).1 then r.current else r.fallback;
}

-- What the second part of `Refresh` knows of the first.
pub record Download : Type 0 where
  pub generation : ℕ
  pub mt : Option ℕ

pub data Begun : Type 0 where
  idle stat_failed : Begun
  started : Download → Begun

-- now.Sub(t) < d; the zero time is long ago
abbrev pub within : ℕ → Option ℕ → ℕ → Bool
within now none d = false
within now (some t) d = ltb (now - t) d

abbrev pub same_time : Option ℕ → Option ℕ → Bool
same_time none none = true
same_time (some a) (some b) = eqb a b
same_time _ _ = false

abbrev pub start_download : ℕ → Option ℕ → Registry → Registry × Begun
start_download now mt r = (
  record r { loading = true; cancel = some r.generation; attempted = some now },
  started (record { generation = r.generation; mt = mt }),
)

-- The modification time of the file, `none` if it cannot be read.
abbrev pub begin_file : ℕ → Option ℕ → Registry → Registry × Begun
begin_file now none r = (record r { attempted = some now; failed = true }, stat_failed)
begin_file now (some mt) r =
    if is_some r.fetched && same_time (some mt) r.file_mt
    then (r, idle)
    else start_download now (some mt) r

abbrev pub rests : ℕ → Bool → Registry → Bool
rests now enabled r =
    not enabled || r.loading || r.failed && within now r.attempted min_retry_interval

unfoldable pub begin_refresh : Durations → ℕ → Option ℕ → Registry → Registry × Begun
unfolding refresh_interval
begin_refresh parse now stat r =
    let (interval, enabled) = refresh_interval parse r.cfg in
    if rests now enabled r
    then (r, idle)
    else if not (is_empty r.cfg.models_file)
    then begin_file now stat r
    else if within now r.fetched interval
    then (r, idle)
    else start_download now none r

pub data RefreshError : Type 0 where
  interrupted fetch_failed : RefreshError
  refused : RosterError → RefreshError

-- What the download gave: nothing, or a body that is JSON of a roster or not.
abbrev pub Fetched : Type 0
Fetched = Option (Option RemoteModelFile)

abbrev defs_of : Result RosterError (List ModelDef × String) → Result RefreshError (List ModelDef)
defs_of (ok (defs, version)) = ok defs
defs_of (err e) = err (refused e)

unfoldable pub parsed : Fetched → Result RefreshError (List ModelDef)
parsed none = err fetch_failed
parsed (some doc) = defs_of (parse_models_file doc)

abbrev pub publish :
    ℕ → Option ℕ → Registry → Result RefreshError (List ModelDef) → Registry × Option RefreshError
publish now mt r (err e) = (record r { failed = true }, some e)
publish now mt r (ok defs) = (
  record r { failed = false; current = new_snapshot defs; fetched = some now; file_mt = mt },
  none,
)

-- The context's error takes the place of the download's result.
abbrev pub outcome : Bool → Fetched → Result RefreshError (List ModelDef)
outcome true f = err interrupted
outcome false f = parsed f

unfoldable pub complete_refresh :
    ℕ → Download → Bool → Fetched → Registry → Registry × Option RefreshError
unfolding parsed
complete_refresh now d ctx_ended f r =
    if eqb d.generation r.generation
    then publish now d.mt (record r { loading = false; cancel = none }) (outcome ctx_ended f)
    else (r, none)
