-- ===== src/Registry/Flight.antt =====
-- Interleavings of configuration and refreshes: the downloads under way, in the order in which they
-- began.
use cmdcode_go.Base.{
  ℕ, zero, suc, ◌+◌, ◌≤◌, ◌≡◌, refl, Bool, true, false, ◌&&◌, Option, none, some, List, [], ◌∷◌,
  All, All-imp, All-remove_at, get_elem?, remove_at, arith, eqb, if◌then◌else◌, is_some, is_empty,
  Bool-cases, inl, inr, Result, ok, err,
}
use cmdcode_go.Models.{ModelDef}
use cmdcode_go.Registry.{
  Registry, SourceConfig, Durations, Download, Begun, idle, stat_failed, started, Fetched,
  RefreshError, configure, begin_refresh, begin_file, complete_refresh, publish, outcome,
  refresh_interval, rests, same_source, same_time, within, start_download,
}

pub record World : Type 0 where
  pub registry : Registry
  pub flights : List Download

pub data Event : Type 0 where
  configures : SourceConfig → Event
  -- the time and the file's modification time
  begins : ℕ → Option ℕ → Event
  -- which download, the time, whether its context ended, and what it got
  completes : ℕ → ℕ → Bool → Fetched → Event

abbrev pub begun : List Download → Registry × Begun → World
begun ds (r, idle) = record { registry = r; flights = ds }
begun ds (r, stat_failed) = record { registry = r; flights = ds }
begun ds (r, started d) = record { registry = r; flights = d ∷ ds }

abbrev pub completed : ℕ → ℕ → Bool → Fetched → World → Option Download → World
completed i now ended f w none = w
completed i now ended f w (some d) = record {
  registry = (complete_refresh now d ended f w.registry).0;
  flights = remove_at i w.flights;
}

unfoldable pub step : Durations → World → Event → World
step parse w (configures cfg) = record w { registry = configure parse cfg w.registry }
step parse w (begins now stat) = begun w.flights (begin_refresh parse now stat w.registry)
step parse w (completes i now ended f) = completed i now ended f w (get_elem? w.flights i)

unfoldable pub run : Durations → World → List Event → World
run parse w [] = w
run parse w (e ∷ es) = run parse (step parse w e) es

-- The downloads of a generation.
abbrev pub count_of : ℕ → List Download → ℕ
count_of g [] = 0
count_of g (d ∷ ds) = let rest = count_of g ds in if eqb d.generation g then suc rest else rest

-- At most one download of the present generation is under way, and `loading` tells whether one is.
pub record IsSingle (w : World) : Type 0 where
  pub past : All (λ d. d.generation ≤ w.registry.generation) w.flights
  pub single : count_of w.registry.generation w.flights ≡ (if w.registry.loading then 1 else 0)

pub count_none :
    (g : ℕ) (ds : List Download) → All (λ d. d.generation ≤ g) ds → count_of (suc g) ds ≡ 0
count_none g [] h = refl
count_none g (d ∷ ds) h = let rest = count_none g ds h.1 in let below = h.0 in ground arith

count_remove :
    (g i : ℕ) (ds : List Download) (d : Download)
    → get_elem? ds i ≡ some d
    → count_of g ds ≡ count_of g (remove_at i ds) + (if eqb d.generation g then 1 else 0)
count_remove g i [] d h = cc
count_remove g zero (x ∷ ds) d h = let same : x ≡ d = cc in ground arith
count_remove g (suc i) (x ∷ ds) d h = let rest = count_remove g i ds d h in ground arith

pub configure-IsSingle :
    (parse : Durations) (cfg : SourceConfig) (w : World)
    → IsSingle w
    → IsSingle (step parse w (configures cfg))
unfolding step configure
configure-IsSingle parse cfg w h = elim (Bool-cases (same_source w.registry.cfg cfg)) [
  | inl y ↦ simp y h
  | inr n ↦ simp n (record {
    past =
        All-imp _ (λ d. d.generation ≤ suc w.registry.generation) (λ d k. omega (arith, k))
          w.flights h.past;
    single = count_none w.registry.generation w.flights h.past;
  })
]

idle-IsSingle :
    (r : Registry) (a : Option ℕ) (b : Bool) (ds : List Download)
    → IsSingle (record { registry = r; flights = ds })
    → IsSingle (record { registry = record r { attempted = a; failed = b }; flights = ds })
idle-IsSingle r a b ds h = record { past = h.past; single = h.single }

start-IsSingle :
    (now : ℕ) (mt : Option ℕ) (r : Registry) (ds : List Download)
    → r.loading ≡ false
    → IsSingle (record { registry = r; flights = ds })
    → IsSingle (begun ds (start_download now mt r))
start-IsSingle now mt r ds n h = record {
  past = (omega arith, h.past);
  single = let before = h.single in ground arith;
}

file-IsSingle :
    (now : ℕ) (stat : Option ℕ) (r : Registry) (ds : List Download)
    → r.loading ≡ false
    → IsSingle (record { registry = r; flights = ds })
    → IsSingle (begun ds (begin_file now stat r))
file-IsSingle now none r ds n h = idle-IsSingle r (some now) true ds h
file-IsSingle now (some mt) r ds n h =
    elim (Bool-cases (is_some r.fetched && same_time (some mt) r.file_mt)) [
      | inl y ↦ simp y h
      | inr m ↦ simp m (start-IsSingle now (some mt) r ds n h)
    ]

pub begin-IsSingle :
    (parse : Durations) (now : ℕ) (stat : Option ℕ) (w : World)
    → IsSingle w
    → IsSingle (step parse w (begins now stat))
unfolding step begin_refresh
begin-IsSingle parse now stat w h =
    let r = w.registry in
    let i = refresh_interval parse r.cfg in
    elim (Bool-cases (rests now i.1 r)) [
      | inl y ↦ simp y h
      | inr n ↦ elim (Bool-cases (is_empty r.cfg.models_file)) [
        | inr file ↦ simp (n, file) (file-IsSingle now stat r w.flights (ground arith) h)
        | inl url ↦ elim (Bool-cases (within now r.fetched i.0)) [
          | inl y ↦ simp (n, url, y) h
          | inr m ↦ simp (n, url, m) (start-IsSingle now none r w.flights (ground arith) h)
        ]
      ]
    ]

publish-same :
    (now : ℕ) (mt : Option ℕ) (r : Registry) (x : Result RefreshError (List ModelDef))
    → ((publish now mt r x).0.generation ≡ r.generation)
      × ((publish now mt r x).0.loading ≡ r.loading)
publish-same now mt r (err e) = (refl, refl)
publish-same now mt r (ok defs) = (refl, refl)

pub completed-IsSingle :
    (i now : ℕ) (ended : Bool) (f : Fetched) (w : World) (o : Option Download)
    → get_elem? w.flights i ≡ o
    → IsSingle w
    → IsSingle (completed i now ended f w o)
unfolding complete_refresh
completed-IsSingle i now ended f w none q h = h
completed-IsSingle i now ended f w (some d) q h =
    let r = w.registry in
    let fewer = count_remove r.generation i w.flights d q in
    let left = All-remove_at _ i w.flights h.past in
    let before = h.single in
    elim (Bool-cases (eqb d.generation r.generation)) [
      | inl y ↦
          let (g, l) =
            publish-same now d.mt (record r { loading = false; cancel = none }) (outcome ended f) in
          simp y (record { past = rw g left; single = rw (g, l) (ground arith) })
      | inr n ↦ simp n (record { past = left; single = ground arith })
    ]
