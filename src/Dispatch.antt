-- ===== src/Dispatch.antt =====
-- go/dispatch.go, `routeModel`: whether the plugin takes a model. The request is what the JSON decoder
-- makes of it.
pub mod Routed
pub mod Served
mod Tests
use cmdcode_go.Base.{String, Bool, true, false, Option, none, some, if◌then◌else◌, Result, ok, err}
use cmdcode_go.Models.{ModelSnapshot, Selection, match, allowed, parse_model_name}
use cmdcode_go.Models.Effort.{EffortError, reasoning_effort}
use cmdcode_go.Executor.{TurnSnapshot, filters_of}

abbrev pub succeeds : Result EffortError (Option String) → Bool
succeeds (err e) = false
succeeds (ok level) = true

-- The level that the suffix of the name asks for must be one that can be sent.
abbrev pub takes_suffix : ModelSnapshot → String → String → Bool
takes_suffix s name canonical =
    succeeds (reasoning_effort s (record (parse_model_name name) { base = canonical }) none)

abbrev pub routes : TurnSnapshot → String → Option String → Bool
routes snap name none = false
routes snap name (some canonical) =
    if allowed snap.models canonical (filters_of snap.config)
    then takes_suffix snap.models name canonical
    else false

-- `Handled` of the response, by the requested model
unfoldable pub route_model : TurnSnapshot → Option String → Bool
route_model snap none = false
route_model snap (some name) = routes snap name (match snap.models name)
