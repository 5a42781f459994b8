-- ===== src/Dispatch/Tests.antt =====
-- A name of the catalog, and one that it does not have.
use cmdcode_go.Base.{
  ◌≡◌, refl, false, none, some, [], str_dec, trim_space, to_lower, has_prefix, split_last,
  ends_with, drop_chars, any_char,
}
use cmdcode_go.Config.Sources.{resolve_api_key}
use cmdcode_go.Models.{parse_model_name, strip_provider, match, allowed, names_model, definition}
use cmdcode_go.Models.Effort.{reasoning_effort, gateway_effort, gateway_chooses, disables}
use cmdcode_go.Executor.{Calls, ErrorReply, cause, request_error_envelope, check_turn, prepare_turn}
use cmdcode_go.Executor.Tests.{calls, snapshot, unnamed}
use cmdcode_go.Dispatch.{route_model}
use cmdcode_go.Wire.{null, get_field}
use cmdcode_go.Identity.{
  explicit_session_key, valid_session_value, object_fields, add, read, read_headers, read_body,
}
use cmdcode_go.Session.{new_store, acquire, swept, sweep, create, reserve, remove}
use cmdcode_go.Request.Envelope.{bad_effort, selection_of, envelope_of, build_envelope}
use cmdcode_go.Dispatch.Routed.{IsRefusal}
use cmdcode_go.Dispatch.Served.{route_model-served}

routing : Unit {0}
unfolding route_model check_turn resolve_api_key parse_model_name strip_provider match allowed
    names_model reasoning_effort definition str_dec trim_space to_lower has_prefix split_last
    ends_with drop_chars any_char prepare_turn build_envelope envelope_of selection_of
    gateway_effort gateway_chooses disables explicit_session_key new_store acquire swept sweep
    create reserve remove valid_session_value object_fields add read read_headers read_body
    get_field
routing = tt

unknown : route_model snapshot (some "gpt") ≡ false
unfolding routing
unknown = refl

-- A payload that asks for a level that no gateway takes.
abbrev eager : Calls
eager = record calls {
  payload = λ text. some (
    record {
      messages = [];
      tools = [];
      tool_choice = null;
      temperature = none;
      max_tokens = none;
      max_completion_tokens = none;
      reasoning_effort = some "turbo";
    },
    false,
  );
}

abbrev of_level : ErrorReply
of_level =
    request_error_envelope "invalid_request"
      (cause (bad_effort (record { level = "turbo"; model = "Kimi" })))

route_model-served_example : IsRefusal eager unnamed of_level
unfolding routing
route_model-served_example =
    route_model-served eager snapshot (λ n. "") 0 unnamed (new_store 1000 4) of_level refl refl refl
