-- ===== src/Request/Envelope.antt =====
-- go/request.go, `buildEnvelopeForSession`: the whole request of a turn. The payload is what the JSON
-- decoder makes of it: nothing, or a request and whether anything follows it.
use cmdcode_go.Base.{
  ℕ, ◌<◌, String, ◌≡◌, refl, ap, subst, Bool, true, false, Option, none, some, List, [],
  if◌then◌else◌, ℤ, ◌⊎◌, inl, inr, Result, ok, err, ◌>>=◌, >>=-eq-ok, ok_inj,
}
use cmdcode_go.Wire.{Codec, Value}
use cmdcode_go.Models.{ModelSnapshot, Selection, parse_model_name, match}
use cmdcode_go.Models.Effort.{EffortError, reasoning_effort}
use cmdcode_go.Models.Budget.{max_tokens, max_tokens-pos}
use cmdcode_go.Request.{ChatMessage, Message}
use cmdcode_go.Request.Convert.{ConvertError, to_wire_messages}
use cmdcode_go.Request.Tools.{
  SchemaCodec, ChatTool, WireTool, ToolError, to_wire_tools, tool_choice_none,
}

pub record ChatRequest : Type 0 where
  pub messages : List ChatMessage
  pub tools : List ChatTool
  pub tool_choice : Value
  pub temperature : Option String
  pub max_tokens : Option ℤ
  pub max_completion_tokens : Option ℤ
  pub reasoning_effort : Option String

pub record WireParams : Type 0 where
  pub model : String
  pub system : String
  pub messages : List Message
  pub tools : List WireTool
  pub max_tokens : ℕ
  pub stream : Bool
  pub temperature : Option String
  pub reasoning_effort : Option String

-- The working directory, the empty structure and the other constant fields are left out.
pub record GenerateRequest : Type 0 where
  pub date : String
  pub environment : String
  pub permission_mode : String
  pub thread_id : String
  pub params : WireParams

pub data EnvelopeError : Type 0 where
  invalid_payload trailing_value : EnvelopeError
  bad_effort : EffortError → EnvelopeError
  bad_messages : ConvertError → EnvelopeError
  bad_tools : ToolError → EnvelopeError

abbrev pub as_error : {E A : Type 0} → (E → EnvelopeError) → Result E A → Result EnvelopeError A
as_error f (ok a) = ok a
as_error f (err e) = err (f e)

-- What a turn has beside its payload: the model that was asked for, the catalog, the session, the
-- permission mode, the date and the system.
pub record Turn : Type 0 where
  pub model : String
  pub models : ModelSnapshot
  pub session : String
  pub permission_mode : String
  pub date : String
  pub environment : String

abbrev pub selected : ModelSnapshot → Selection → Option String → Selection
selected s selection none = selection
selected s selection (some canonical) = record selection { base = canonical }

-- The model in the catalog's spelling, with the suffix of the request.
unfoldable pub selection_of : Turn → Selection
selection_of t =
    let selection = parse_model_name t.model in
    selected t.models selection (match t.models selection.base)

abbrev pub tools_sent : Value → List WireTool → List WireTool
tools_sent choice tools = if tool_choice_none choice then [] else tools

abbrev envelope :
    Turn → ChatRequest → Option String → String × List Message → List WireTool → GenerateRequest
envelope t chat effort (system, messages) tools = record {
  date = t.date;
  environment = t.environment;
  permission_mode = t.permission_mode;
  thread_id = t.session;
  params = record {
    model = (selection_of t).base;
    system = system;
    messages = messages;
    tools = tools_sent chat.tool_choice tools;
    max_tokens =
        max_tokens t.models chat.max_tokens chat.max_completion_tokens (selection_of t).base;
    stream = true;
    temperature = chat.temperature;
    reasoning_effort = effort;
  };
}

unfoldable pub envelope_of :
    Codec → SchemaCodec → (ℕ → String) → Turn → ChatRequest → Result EnvelopeError GenerateRequest
envelope_of c sc ids t chat = do
  effort ← as_error bad_effort (reasoning_effort t.models (selection_of t) chat.reasoning_effort)
  converted ← as_error bad_messages (to_wire_messages c ids chat.messages)
  tools ← as_error bad_tools (to_wire_tools sc chat.tools)
  ok (envelope t chat effort converted tools)

unfoldable pub build_envelope :
    Codec
    → SchemaCodec
    → (ℕ → String)
    → Turn
    → Option (ChatRequest × Bool)
    → Result EnvelopeError GenerateRequest
unfolding envelope_of
build_envelope c sc ids t none = err invalid_payload
build_envelope c sc ids t (some (chat, true)) = err trailing_value
build_envelope c sc ids t (some (chat, false)) = envelope_of c sc ids t chat

as_error-ok :
    {E A : Type 0} (f : E → EnvelopeError) (r : Result E A) (a : A) → as_error f r ≡ ok a → r ≡ ok a
as_error-ok f (ok b) a h = ap ok (ok_inj h)
as_error-ok f (err e) a h = cc

-- The model that the catalog has under a name, in the catalog's spelling, or else the name itself.
abbrev pub IsSpelled : ModelSnapshot → String → String → Type 0
IsSpelled s name model = (match s name ≡ some model) ⊎ ((match s name ≡ none) × (model ≡ name))

selected-IsSpelled :
    (s : ModelSnapshot) (selection : Selection) (o : Option String)
    → match s selection.base ≡ o
    → IsSpelled s selection.base (selected s selection o).base
selected-IsSpelled s selection none q = inr (q, refl)
selected-IsSpelled s selection (some canonical) q = inl q

selected-suffix :
    (s : ModelSnapshot) (selection : Selection) (o : Option String)
    → (selected s selection o).suffix ≡ selection.suffix
selected-suffix s selection none = refl
selected-suffix s selection (some canonical) = refl

selection_of-IsSpelled :
    (t : Turn) → IsSpelled t.models (parse_model_name t.model).base (selection_of t).base
unfolding selection_of
selection_of-IsSpelled t =
    let selection = parse_model_name t.model in
    selected-IsSpelled t.models selection (match t.models selection.base) refl

-- The model that is sent and the suffix of the request are what the effort is decided for.
selection_of-suffix :
    (t : Turn)
    → selection_of t
      ≡ record { base = (selection_of t).base; suffix = (parse_model_name t.model).suffix }
unfolding selection_of
selection_of-suffix t =
    let selection = parse_model_name t.model in
    let x = selected t.models selection (match t.models selection.base) in
    ap (λ o. record { base = x.base; suffix = o })
      (selected-suffix t.models selection (match t.models selection.base))

-- What a request that is sent satisfies.
pub record IsFaithful (c : Codec) (sc : SchemaCodec) (ids : ℕ → String) (t : Turn)
    (chat : ChatRequest) (r : GenerateRequest) : Type 0 where
  pub session : r.thread_id ≡ t.session
  pub date : r.date ≡ t.date
  pub environment : r.environment ≡ t.environment
  pub permission_mode : r.permission_mode ≡ t.permission_mode
  pub model : IsSpelled t.models (parse_model_name t.model).base r.params.model
  pub streamed : r.params.stream ≡ true
  pub budget :
      (0 < r.params.max_tokens)
      × (r.params.max_tokens
          ≡ max_tokens t.models chat.max_tokens chat.max_completion_tokens r.params.model)
  pub temperature : r.params.temperature ≡ chat.temperature
  pub conversation : to_wire_messages c ids chat.messages ≡ ok (r.params.system, r.params.messages)
  pub effort :
      reasoning_effort t.models
        (record { base = r.params.model; suffix = (parse_model_name t.model).suffix })
        chat.reasoning_effort
      ≡ ok r.params.reasoning_effort
  pub tool_list :
      (tools : List WireTool) × (to_wire_tools sc chat.tools ≡ ok tools)
      × (r.params.tools ≡ tools_sent chat.tool_choice tools)

-- Every request that is built streams, has the turn's session, date, environment and permission mode,
-- names the model that the catalog has under the requested name as the catalog spells it (or the name
-- itself if the catalog has none), asks for that model's budget, which is at least one token, carries
-- the client's temperature, the whole converted conversation, the converted tools, or none at all if
-- the client chose none, and the effort level that is decided for that model and the name's suffix.
pub build_envelope-IsFaithful :
    (c : Codec) (sc : SchemaCodec) (ids : ℕ → String) (t : Turn) (chat : ChatRequest)
    → (r : GenerateRequest) → build_envelope c sc ids t (some (chat, false)) ≡ ok r
    → IsFaithful c sc ids t chat r
unfolding build_envelope
build_envelope-IsFaithful c sc ids t chat r h =
    let (effort, e, h₁) =
      >>=-eq-ok
        (as_error bad_effort (reasoning_effort t.models (selection_of t) chat.reasoning_effort)) _
        h in
    let ((system, messages), m, h₂) =
      >>=-eq-ok (as_error bad_messages (to_wire_messages c ids chat.messages)) _ h₁ in
    let (tools, w, h₃) = >>=-eq-ok (as_error bad_tools (to_wire_tools sc chat.tools)) _ h₂ in
    subst (IsFaithful c sc ids t chat) (ok_inj h₃) (record {
      session = refl;
      date = refl;
      environment = refl;
      permission_mode = refl;
      model = selection_of-IsSpelled t;
      streamed = refl;
      budget = (
        max_tokens-pos t.models chat.max_tokens chat.max_completion_tokens (selection_of t).base,
        refl,
      );
      temperature = refl;
      conversation = as_error-ok bad_messages _ _ m;
      effort =
          subst (λ x. reasoning_effort t.models x chat.reasoning_effort ≡ ok effort)
            (selection_of-suffix t) (as_error-ok bad_effort _ _ e);
      tool_list = (tools, as_error-ok bad_tools _ _ w, refl);
    })
