-- ===== src/Registry/Tests.antt =====
-- go/models_remote.go on short histories.
use cmdcode_go.Base.{◌≡◌, refl, true, false, none, some, List, [], ◌∷◌, arith}
use cmdcode_go.Registry.{
  Registry, SourceConfig, Durations, Download, idle, fetch_failed, new_registry, configure,
  complete_refresh, begin_refresh, parsed, refresh_interval, stat_failed,
}
use cmdcode_go.Registry.Flight.{World, Event, configures, begins, completes, IsSingle, run}
use cmdcode_go.Registry.Publish.{start, Reached, run-Reached}
use cmdcode_go.Registry.Stale.{
  Arrival, arrivals, configure_retires, Fails, at_file, at_download, failed_refresh_rests,
}

abbrev durations : Durations
durations text = none

abbrev from_file : SourceConfig
from_file = record { models_url = ""; models_file = "models.json"; models_refresh_interval = "" }

-- Two refreshes begin, with a change of the source between them, and end in the other order.
abbrev history : List Event
history =
    begins 1 none
    ∷ configures from_file
    ∷ begins 2 (some 7)
    ∷ begins 3 (some 7)
    ∷ completes 1 4 false none
    ∷ completes 0 5 false (some none)
    ∷ []

run-Reached_example : Reached [] (run durations (start []) history)
run-Reached_example = run-Reached [] durations history

abbrev loading_registry : Registry
loading_registry = record (new_registry []) { loading = true; cancel = some 0; attempted = some 1 }

abbrev first_download : Download
first_download = record { generation = 0; mt = none }

abbrev under_way : World
under_way = record { registry = loading_registry; flights = first_download ∷ [] }

under_way-IsSingle : IsSingle under_way
unfolding new_registry
under_way-IsSingle = record { past = (omega arith, tt); single = refl }

abbrev late : List Arrival
late = record { place = 0; time = 9; ended = false; body = none } ∷ []

configure_retires_example :
    (run durations under_way (configures from_file ∷ arrivals late)).registry
    ≡ configure durations from_file loading_registry
unfolding new_registry
configure_retires_example =
    configure_retires durations from_file under_way late under_way-IsSingle refl

abbrev after_failure : Registry
after_failure = (complete_refresh 2 first_download false none loading_registry).0

failed_download : Fails durations 1 none (new_registry []) after_failure
unfolding new_registry begin_refresh complete_refresh parsed refresh_interval
failed_download = at_download 2 false none fetch_failed refl refl

failed_refresh_rests_example :
    (after_failure.current ≡ (new_registry []).current)
    × (begin_refresh durations 3 none after_failure ≡ (after_failure, idle))
failed_refresh_rests_example =
    failed_refresh_rests durations 1 3 none none (new_registry []) after_failure failed_download
      (omega arith)

abbrev with_file : Registry
with_file = record (new_registry []) { cfg = from_file }

missing_file :
    begin_refresh durations 1 none with_file
    ≡ (record with_file { attempted = some 1; failed = true }, stat_failed)
unfolding new_registry begin_refresh refresh_interval
missing_file = refl

missing_file_rests :
    begin_refresh durations 3 (some 7) (record with_file { attempted = some 1; failed = true })
    ≡ (record with_file { attempted = some 1; failed = true }, idle)
missing_file_rests =
    (failed_refresh_rests durations 1 3 none (some 7) with_file
      (record with_file { attempted = some 1; failed = true }) (at_file missing_file)
      (omega arith)).1
