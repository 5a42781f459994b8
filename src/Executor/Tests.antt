-- ===== src/Executor/Tests.antt =====
-- A turn that names its conversation, against a gateway that answers with an error.
use cmdcode_go.Base.{
  ◌≡◌, refl, true, false, none, some, [], ◌∷◌, pos, ok, empty_map, put, str_dec, trim_space,
  to_lower, has_prefix, split_last, ends_with, drop_chars, any_char, Bool-cases, err, is_control,
}
use cmdcode_go.Wire.{null, str, field, end, get_field}
use cmdcode_go.Config.{no_config}
use cmdcode_go.Config.Sources.{resolve_api_key, permission_mode}
use cmdcode_go.Models.{parse_model_name, strip_provider, match, definition, allowed, names_model}
use cmdcode_go.Models.Budget.{max_tokens, explicit_budget}
use cmdcode_go.Models.Effort.{reasoning_effort}
use cmdcode_go.Request.Convert.{convert_messages, to_wire_messages}
use cmdcode_go.Request.Tools.{to_wire_tools, tool_choice_none}
use cmdcode_go.Request.Envelope.{selection_of, envelope_of, build_envelope}
use cmdcode_go.Identity.{
  ExecutorRequest, explicit_session_key, valid_session_value, object_fields, add, read,
  read_headers, read_body,
}
use cmdcode_go.Session.{Store, new_store, acquire, swept, sweep, create, reserve, remove}
use cmdcode_go.Session.Invariant.{new_store-Inv}
use cmdcode_go.Session.Busy.{in_use}
use cmdcode_go.Decoder.Consume.{eof}
use cmdcode_go.Executor.{Calls, TurnSnapshot, TurnPrep, session_busy, check_turn, prepare_turn}
use cmdcode_go.Executor.Run.{execute_non_stream, execute_stream}
use cmdcode_go.Executor.Balanced.{Holding, settled, turn-Holding}
use cmdcode_go.Executor.Busy.{prepare_turn-busy}
use cmdcode_go.Executor.Admitted.{IsAdmitted, prepare_turn-IsAdmitted}

abbrev pub calls : Calls
calls = record {
  machine = record {
    env = λ name. "";
    home = none;
    join_path = λ ps. "";
    read_file = λ path. none;
    parse_auth = λ raw. none;
  };
  json = record {
    members = λ raw. some (("session_id", raw) ∷ []);
    decode = λ raw. some (str raw);
  };
  codec = record { unmarshal_event = λ line. none; compact = λ text. some text; marshal = λ v. "" };
  schemas = record {
    decode_string = λ text. none;
    decode_object = λ text. none;
    compact = λ text. some text;
    encode_object = λ fields. "{}";
  };
  transport = record {
    accepts = λ url. true;
    send = λ r. some (record { status = 429; lines = []; ending = eof; sample = " slow down " });
  };
  payload = λ text. some (
    record {
      messages = [];
      tools = [];
      tool_choice = null;
      temperature = none;
      max_tokens = some (pos 100);
      max_completion_tokens = none;
      reasoning_effort = none;
    },
    false,
  );
  ids = λ n. "call";
  chunk_id = "chunk";
  call_ids = λ i. "id";
  framer = record { model = "kimi"; id = "chat"; created = 0; sent_role = false };
  uuid = "fresh";
  entry_uuid = "thread";
  date = "2026-01-01";
  environment = "linux";
  max_event_bytes = 100;
  max_response_bytes = 1000;
  turns = record { with_usage = 0; without_usage = 0; truncated = 0 };
}

abbrev pub snapshot : TurnSnapshot
snapshot = record {
  config = record no_config { api_key = "key" };
  models = record {
    defs =
        record {
          id = "Kimi";
          display = "Kimi";
          description = "";
          context = 1000;
          output = 500;
          output_source = "";
          context_source = "";
          gateway_output = 400;
          vision = none;
          efforts = [];
        }
        ∷ [];
    by_id = put str_dec "kimi" 0 empty_map;
    by_short = empty_map;
  };
}

abbrev named : ExecutorRequest
named = record {
  model = "kimi";
  payload = "c1";
  original_request = "";
  headers = [];
  metadata = field "caller_scope" (str "me") end;
  auth_id = "auth";
}

abbrev pub unnamed : ExecutorRequest
unnamed = record named { metadata = end }

abbrev store : Store
store = new_store 1000 4

abbrev prepared : TurnPrep
prepared = record {
  key = "key";
  envelope = record {
    date = "2026-01-01";
    environment = "linux";
    permission_mode = "standard";
    thread_id = "fresh";
    params = record {
      model = "Kimi";
      system = "";
      messages = [];
      tools = [];
      max_tokens = 100;
      stream = true;
      temperature = none;
      reasoning_effort = none;
    };
  };
  config = snapshot.config;
  release = none;
}

turn-Holding_example :
    Holding
      (in_use store.lru)
      ((execute_non_stream calls snapshot (λ n. "") 5 6 (some named) store).0)
    × Holding (in_use store.lru) (
        settled calls
          (λ sent f. true)
          6
          (execute_stream calls snapshot (λ n. "") 5 6 (some (named, "stream")) true store))
turn-Holding_example =
    turn-Holding calls snapshot (λ n. "") 5 6 (some named) (some (named, "stream")) true
      (λ sent f. true) store (new_store-Inv 1000 4)

turn_program : Unit {0}
unfolding prepare_turn check_turn resolve_api_key permission_mode parse_model_name strip_provider
    match allowed names_model explicit_session_key build_envelope envelope_of selection_of
    reasoning_effort to_wire_messages convert_messages to_wire_tools tool_choice_none max_tokens
    explicit_budget definition get_field str_dec trim_space to_lower has_prefix split_last ends_with
    drop_chars any_char Bool-cases
turn_program = tt

prepared_lem : (prepare_turn calls snapshot (λ n. "") 5 unnamed store).1 ≡ ok prepared
unfolding turn_program
prepared_lem = refl

prepare_turn-IsAdmitted_example : IsAdmitted calls snapshot (λ n. "") 5 unnamed store prepared
unfolding turn_program
prepare_turn-IsAdmitted_example =
    prepare_turn-IsAdmitted calls snapshot (λ n. "") 5 unnamed store prepared refl

abbrev first_prepared : TurnPrep
first_prepared = record {
  key = "key";
  envelope = record (prepared.envelope) { thread_id = "thread" };
  config = snapshot.config;
  release = some (record { handle = 0; fired = false });
}

naming : Unit {0}
unfolding turn_program valid_session_value object_fields add read read_headers read_body is_control
    acquire swept sweep create reserve remove new_store
naming = tt

abbrev after_first : Store
after_first = (prepare_turn calls snapshot (λ n. "") 5 named store).0

prepare_turn-busy_example :
    (prepare_turn calls snapshot (λ n. "") 7 named after_first).1 ≡ err session_busy
unfolding naming
prepare_turn-busy_example =
    prepare_turn-busy calls calls snapshot snapshot (λ n. "") (λ n. "") 5 7 named named store
      (record { caller = "me"; auth = "auth"; id = "c1" }) first_prepared "key"
      (new_store-Inv 1000 4) refl refl refl refl
