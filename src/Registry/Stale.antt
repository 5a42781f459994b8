-- ===== src/Registry/Stale.antt =====
-- Downloads that a new configuration leaves behind, and refreshes that fail.
use cmdcode_go.Base.{
  ℕ, suc, ◌-◌, ◌<◌, ◌≡◌, refl, sym, ap, subst, ◌∙◌, Bool, true, false, Option, none, some, List, [],
  ◌∷◌, All, All-imp, All-remove_at, All-get_elem?, get_elem?, arith, eqb, Bool-cases, inl, inr,
  Result, ok, err, is_some, is_empty, ◌&&◌,
}
use cmdcode_go.Models.{ModelDef}
use cmdcode_go.Registry.{
  Registry, SourceConfig, Durations, Download, idle, Fetched, RefreshError, configure,
  begin_refresh, complete_refresh, publish, outcome, refresh_interval, rests, same_source,
  min_retry_interval, Begun, stat_failed, started, begin_file, same_time, within,
}
use cmdcode_go.Registry.Flight.{World, Event, configures, completes, step, run, completed, IsSingle}

-- The end of a download: which, when, whether its context ended, and what it got.
pub record Arrival : Type 0 where
  pub place : ℕ
  pub time : ℕ
  pub ended : Bool
  pub body : Fetched

abbrev pub arrivals : List Arrival → List Event
arrivals [] = []
arrivals (a ∷ xs) = completes a.place a.time a.ended a.body ∷ arrivals xs

-- Every download under way began before the generation `g`.
abbrev Before : ℕ → World → Type 0
Before g w = All (λ d. d.generation < g) w.flights

stale :
    (g now : ℕ) (d : Download) (ended : Bool) (f : Fetched) (r : Registry)
    → d.generation < r.generation
    → complete_refresh now d ended f r ≡ (r, none)
unfolding complete_refresh
stale g now d ended f r h =
    let other : eqb d.generation r.generation ≡ false = ground arith in simp other

completed-stale :
    (i now : ℕ) (ended : Bool) (f : Fetched) (w : World) (o : Option Download)
    → get_elem? w.flights i ≡ o
    → Before w.registry.generation w
    → ((completed i now ended f w o).registry ≡ w.registry)
      × Before w.registry.generation (completed i now ended f w o)
completed-stale i now ended f w none q h = (refl, h)
completed-stale i now ended f w (some d) q h =
    let old = All-get_elem? (λ x. x.generation < w.registry.generation) i w.flights d h q in
    (
      ap (λ p. p.0) (stale 0 now d ended f w.registry old),
      All-remove_at (λ x. x.generation < w.registry.generation) i w.flights h,
    )

arrivals-stale :
    (parse : Durations) (w : World) (xs : List Arrival)
    → Before w.registry.generation w
    → (run parse w (arrivals xs)).registry ≡ w.registry
unfolding run step
arrivals-stale parse w [] h = refl
arrivals-stale parse w (a ∷ xs) h =
    let next = completed a.place a.time a.ended a.body w (get_elem? w.flights a.place) in
    let (same, old) =
      completed-stale a.place a.time a.ended a.body w (get_elem? w.flights a.place) refl h in
    arrivals-stale parse next xs (subst (λ r. Before r.generation next) (sym same) old) ∙ same

-- After a change of the source, nothing that the downloads begun before it bring reaches the
-- registry: not the catalog, not the refresh state, not an error.
pub configure_retires :
    (parse : Durations) (cfg : SourceConfig) (w : World) (xs : List Arrival)
    → IsSingle w
    → same_source w.registry.cfg cfg ≡ false
    → (run parse w (configures cfg ∷ arrivals xs)).registry ≡ configure parse cfg w.registry
unfolding run step configure
configure_retires parse cfg w xs h other =
    arrivals-stale parse (record w { registry = configure parse cfg w.registry }) xs
      (simp other (
        All-imp _ (λ d. d.generation < suc w.registry.generation) (λ d k. omega (arith, k))
          w.flights h.past))

publish-keeps :
    (now : ℕ) (mt : Option ℕ) (r : Registry) (x : Result RefreshError (List ModelDef))
    → (e : RefreshError) → (publish now mt r x).1 ≡ some e
    → ((publish now mt r x).0.current ≡ r.current)
      × ((publish now mt r x).0.attempted ≡ r.attempted)
      × ((publish now mt r x).0.cfg ≡ r.cfg)
      × ((publish now mt r x).0.failed ≡ true)
publish-keeps now mt r (err x) e h = (refl, refl, refl, refl)
publish-keeps now mt r (ok defs) e h = cc

rests_after_failure :
    (parse : Durations) (later t : ℕ) (stat : Option ℕ) (r : Registry)
    → r.failed ≡ true
    → r.attempted ≡ some t
    → later - t < min_retry_interval
    → begin_refresh parse later stat r ≡ (r, idle)
unfolding begin_refresh
rests_after_failure parse later t stat r f a soon =
    let i = refresh_interval parse r.cfg in
    let rest : rests later i.1 r ≡ true = ground arith in simp rest

-- A refresh that begins at `start` with the registry `r`, and fails with the registry `r'`: at the
-- reading of the file, or at the end of the download.
pub data Fails (parse : Durations) (start : ℕ) (stat : Option ℕ) (r : Registry)
    : Registry → Type 0 where
  at_file :
      {r' : Registry}
      → begin_refresh parse start stat r ≡ (r', stat_failed)
      → Fails parse start stat r r'
  at_download :
      {r₁ r' : Registry} {d : Download} (now : ℕ) (ended : Bool) (f : Fetched) (e : RefreshError)
      → begin_refresh parse start stat r ≡ (r₁, started d)
      → complete_refresh now d ended f r₁ ≡ (r', some e)
      → Fails parse start stat r r'

-- What the first part of a refresh leaves: the catalog, and the start of what it began or failed at.
abbrev Recorded : ℕ → Registry → Registry × Begun → Type 0
Recorded start r (r', b) =
    (r'.current ≡ r.current)
    × ((d : Download) → b ≡ started d → r'.attempted ≡ some start)
    × (b ≡ stat_failed → (r'.attempted ≡ some start) × (r'.failed ≡ true))

file-Recorded :
    (start : ℕ) (stat : Option ℕ) (r : Registry) → Recorded start r (begin_file start stat r)
file-Recorded start none r = (refl, (λ d h. cc), λ h. (refl, refl))
file-Recorded start (some mt) r =
    elim (Bool-cases (is_some r.fetched && same_time (some mt) r.file_mt)) [
      | inl y ↦ simp y (refl, (λ d h. cc), λ h. cc)
      | inr n ↦ simp n (refl, (λ d h. refl), λ h. cc)
    ]

begin-Recorded :
    (parse : Durations) (start : ℕ) (stat : Option ℕ) (r : Registry)
    → Recorded start r (begin_refresh parse start stat r)
unfolding begin_refresh
begin-Recorded parse start stat r =
    let i = refresh_interval parse r.cfg in
    elim (Bool-cases (rests start i.1 r)) [
      | inl y ↦ simp y (refl, (λ d h. cc), λ h. cc)
      | inr n ↦ elim (Bool-cases (is_empty r.cfg.models_file)) [
        | inr file ↦ simp (n, file) (file-Recorded start stat r)
        | inl url ↦ elim (Bool-cases (within start r.fetched i.0)) [
          | inl y ↦ simp (n, url, y) (refl, (λ d h. cc), λ h. cc)
          | inr m ↦ simp (n, url, m) (refl, (λ d h. refl), λ h. cc)
        ]
      ]
    ]

complete-keeps :
    (now : ℕ) (d : Download) (ended : Bool) (f : Fetched) (r r' : Registry) (e : RefreshError)
    → complete_refresh now d ended f r ≡ (r', some e)
    → (r'.current ≡ r.current) × (r'.attempted ≡ r.attempted) × (r'.failed ≡ true)
unfolding complete_refresh
complete-keeps now d ended f r r' e h = elim (Bool-cases (eqb d.generation r.generation)) [
  | inl y ↦
      let p = publish now d.mt (record r { loading = false; cancel = none }) (outcome ended f) in
      let got : p ≡ (r', some e) = ground arith in
      let (catalog, tried, same, bad) =
        publish-keeps now d.mt (record r { loading = false; cancel = none }) (outcome ended f) e
          (ap (λ x. x.1) got) in
      subst (λ x. (x.current ≡ r.current) × (x.attempted ≡ r.attempted) × (x.failed ≡ true))
        (ap (λ x. x.0) got) (catalog, tried, bad)
  | inr n ↦ ground arith
]

-- The catalog stays, and the failure and its start are recorded.
Fails-kept :
    (parse : Durations) (start : ℕ) (stat : Option ℕ) (r r' : Registry)
    → Fails parse start stat r r'
    → (r'.current ≡ r.current) × (r'.attempted ≡ some start) × (r'.failed ≡ true)
Fails-kept parse start stat r r' (at_file h) =
    let (kept, began, missing) = subst (Recorded start r) h (begin-Recorded parse start stat r) in
    let (tried, bad) = missing refl in (kept, tried, bad)
Fails-kept parse start stat r r' (at_download {r₁} {d = d} now ended f e h k) =
    let (kept, began, missing) = subst (Recorded start r) h (begin-Recorded parse start stat r) in
    let (same, tried, bad) = complete-keeps now d ended f r₁ r' e k in
    (same ∙ kept, tried ∙ began d refl, bad)

-- A refresh that fails, whether the file cannot be read or the download ends in an error, keeps the
-- catalog that was there before it, and for five minutes from its start no other begins.
pub failed_refresh_rests :
    (parse : Durations) (start later : ℕ) (stat again : Option ℕ) (r r' : Registry)
    → Fails parse start stat r r'
    → later - start < min_retry_interval
    → (r'.current ≡ r.current) × (begin_refresh parse later again r' ≡ (r', idle))
failed_refresh_rests parse start later stat again r r' h soon =
    let (kept, tried, bad) = Fails-kept parse start stat r r' h in
    (kept, rests_after_failure parse later start again r' bad tried soon)
