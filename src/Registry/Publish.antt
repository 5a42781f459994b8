-- ===== src/Registry/Publish.antt =====
-- What a catalog can come to hold, and what keeps it.
use cmdcode_go.Base.{
  ℕ, ◌≡◌, refl, sym, subst, ◌∙◌, String, Bool, true, false, ◌&&◌, Option, none, some, List, [], ◌∷◌,
  get_elem?, eqb, if◌then◌else◌, is_some, is_empty, Bool-cases, inl, inr, ◌⊎◌, Result, ok, err,
}
use cmdcode_go.Models.{ModelDef, ModelSnapshot, new_snapshot}
use cmdcode_go.Models.Roster.{RosterError, parse_models_file}
use cmdcode_go.Models.Catalog.{IsRoster, parse_models_file-IsRoster}
use cmdcode_go.Registry.{
  Registry, SourceConfig, Durations, Download, Begun, idle, stat_failed, started, Fetched,
  RefreshError, configure, new_registry, begin_refresh, begin_file, complete_refresh, parsed,
  defs_of, publish, outcome, refresh_interval, rests, same_source, same_time, within,
}
use cmdcode_go.Registry.Flight.{
  World, Event, configures, begins, completes, step, run, begun, completed, IsSingle,
  configure-IsSingle, begin-IsSingle, completed-IsSingle,
}

-- A snapshot is the compiled one or made of a roster that was accepted.
abbrev pub IsVetted : List ModelDef → ModelSnapshot → Type 0
IsVetted compiled s =
    (s ≡ new_snapshot compiled) ⊎ ((defs : List ModelDef) × IsRoster defs × (s ≡ new_snapshot defs))

pub record IsSound (compiled : List ModelDef) (r : Registry) : Type 0 where
  pub fallback : r.fallback ≡ new_snapshot compiled
  pub current : IsVetted compiled r.current

defs_of-ok :
    (x : Result RosterError (List ModelDef × String)) (defs : List ModelDef)
    → defs_of x ≡ ok defs
    → (version : String) × (x ≡ ok (defs, version))
defs_of-ok (ok (ds, version)) defs h = (version, cc)
defs_of-ok (err e) defs h = cc

outcome-IsRoster :
    (ended : Bool) (f : Fetched) (defs : List ModelDef) → outcome ended f ≡ ok defs → IsRoster defs
unfolding parsed
outcome-IsRoster true f defs h = cc
outcome-IsRoster false none defs h = cc
outcome-IsRoster false (some doc) defs h =
    let (version, e) = defs_of-ok (parse_models_file doc) defs h in
    (parse_models_file-IsRoster doc defs version e).0

module _ (compiled : List ModelDef) where
  publish-IsSound :
      (now : ℕ) (mt : Option ℕ) (r : Registry) (x : Result RefreshError (List ModelDef))
      → ((defs : List ModelDef) → x ≡ ok defs → IsRoster defs)
      → IsSound compiled r
      → IsSound compiled (publish now mt r x).0
  publish-IsSound now mt r (err e) f h = record { fallback = h.fallback; current = h.current }
  publish-IsSound now mt r (ok defs) f h = record {
    fallback = h.fallback;
    current = inr (defs, f defs refl, refl);
  }

  complete-IsSound :
      (now : ℕ) (d : Download) (ended : Bool) (f : Fetched) (r : Registry)
      → IsSound compiled r
      → IsSound compiled (complete_refresh now d ended f r).0
  unfolding complete_refresh
  complete-IsSound now d ended f r h = elim (Bool-cases (eqb d.generation r.generation)) [
    | inl y ↦ simp y (
        publish-IsSound now d.mt (record r { loading = false; cancel = none }) (outcome ended f)
          (outcome-IsRoster ended f) (record { fallback = h.fallback; current = h.current }))
    | inr n ↦ simp n h
  ]

  back_or_same :
      (enabled : Bool) (r : Registry)
      → IsSound compiled r
      → IsVetted compiled (if enabled then r.current else r.fallback)
  back_or_same true r h = h.current
  back_or_same false r h = inl h.fallback

  configure-IsSound :
      (parse : Durations) (cfg : SourceConfig) (r : Registry)
      → IsSound compiled r
      → IsSound compiled (configure parse cfg r)
  unfolding configure
  configure-IsSound parse cfg r h = elim (Bool-cases (same_source r.cfg cfg)) [
    | inl y ↦ simp y h
    | inr n ↦ simp n (record {
      fallback = h.fallback;
      current = back_or_same (refresh_interval parse cfg).1 r h;
    })
  ]

-- The first part of a refresh leaves the catalog, the configuration and the generation alone.
abbrev Keeps : Registry → Registry × Begun → Type 0
Keeps r (r', b) =
    (r'.current ≡ r.current) × (r'.fallback ≡ r.fallback) × (r'.generation ≡ r.generation)

file-Keeps : (now : ℕ) (stat : Option ℕ) (r : Registry) → Keeps r (begin_file now stat r)
file-Keeps now none r = (refl, refl, refl)
file-Keeps now (some mt) r =
    elim (Bool-cases (is_some r.fetched && same_time (some mt) r.file_mt)) [
      | inl y ↦ simp y (refl, refl, refl)
      | inr n ↦ simp n (refl, refl, refl)
    ]

begin-Keeps :
    (parse : Durations) (now : ℕ) (stat : Option ℕ) (r : Registry)
    → Keeps r (begin_refresh parse now stat r)
unfolding begin_refresh
begin-Keeps parse now stat r =
    let i = refresh_interval parse r.cfg in
    elim (Bool-cases (rests now i.1 r)) [
      | inl y ↦ simp y (refl, refl, refl)
      | inr n ↦ elim (Bool-cases (is_empty r.cfg.models_file)) [
        | inr file ↦ simp (n, file) (file-Keeps now stat r)
        | inl url ↦ elim (Bool-cases (within now r.fetched i.0)) [
          | inl y ↦ simp (n, url, y) (refl, refl, refl)
          | inr m ↦ simp (n, url, m) (refl, refl, refl)
        ]
      ]
    ]

-- The world after any history: one download at a time, and a vetted catalog.
abbrev pub Reached : List ModelDef → World → Type 0
Reached compiled w = IsSingle w × IsSound compiled w.registry

pub begun-registry : (ds : List Download) (p : Registry × Begun) → (begun ds p).registry ≡ p.0
begun-registry ds (r, idle) = refl
begun-registry ds (r, stat_failed) = refl
begun-registry ds (r, started d) = refl

completed-IsSound :
    (compiled : List ModelDef) (i now : ℕ) (ended : Bool) (f : Fetched) (w : World)
    → (o : Option Download) → IsSound compiled w.registry
    → IsSound compiled (completed i now ended f w o).registry
completed-IsSound compiled i now ended f w none h = h
completed-IsSound compiled i now ended f w (some d) h =
    complete-IsSound compiled now d ended f w.registry h

pub step-Reached :
    (compiled : List ModelDef) (parse : Durations) (w : World) (e : Event)
    → Reached compiled w
    → Reached compiled (step parse w e)
unfolding step
step-Reached compiled parse w (configures cfg) h =
    (configure-IsSingle parse cfg w h.0, configure-IsSound compiled parse cfg w.registry h.1)
step-Reached compiled parse w (begins now stat) h =
    let (same, back, g) = begin-Keeps parse now stat w.registry in
    (
      begin-IsSingle parse now stat w h.0,
      subst (IsSound compiled)
          (sym (begun-registry w.flights (begin_refresh parse now stat w.registry)))
          (record {
            fallback = back ∙ h.1.fallback;
            current = subst (IsVetted compiled) (sym same) h.1.current;
          }),
    )
step-Reached compiled parse w (completes i now ended f) h = (
  completed-IsSingle i now ended f w (get_elem? w.flights i) refl h.0,
  completed-IsSound compiled i now ended f w (get_elem? w.flights i) h.1,
)

run-Reached_from :
    (compiled : List ModelDef) (parse : Durations) (w : World) (es : List Event)
    → Reached compiled w
    → Reached compiled (run parse w es)
unfolding run
run-Reached_from compiled parse w [] h = h
run-Reached_from compiled parse w (e ∷ es) h =
    run-Reached_from compiled parse (step parse w e) es (step-Reached compiled parse w e h)

abbrev pub start : List ModelDef → World
start compiled = record { registry = new_registry compiled; flights = [] }

pub start-Reached : (compiled : List ModelDef) → Reached compiled (start compiled)
unfolding new_registry
start-Reached compiled =
    (record { past = tt; single = refl }, record { fallback = refl; current = inl refl })

-- However configuration, refreshes and the ends of downloads interleave, at most one download of the
-- present configuration is under way, `loading` tells whether one is, and the catalog is the compiled
-- one or that of a roster that passed every check.
pub run-Reached :
    (compiled : List ModelDef) (parse : Durations) (es : List Event)
    → Reached compiled (run parse (start compiled) es)
run-Reached compiled parse es =
    run-Reached_from compiled parse (start compiled) es (start-Reached compiled)
