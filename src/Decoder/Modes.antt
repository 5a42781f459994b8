-- ===== src/Decoder/Modes.antt =====
-- A buffered answer as one completion and as chunks.
use cmdcode_go.Base.{
  ℕ, suc, String, ◌==◌, ◌≡◌, ◌≢◌, refl, sym, ap, ◌∙◌, Bool, true, false, Option, none, some, List,
  [], ◌∷◌, ◌++◌, map, All, arith, eq_iff, Bool-cases, inl, inr, if◌then◌else◌,
}
use cmdcode_go.Response.{
  Accumulated, Tool, Body, Frame, Framer, content, reasoning_content, nothing, frame, final_frame,
  openai_usage,
}
use cmdcode_go.Response.Chunks.{to_openai_chunks, add_tools, add_unless, texts_of}
use cmdcode_go.Response.Whole.{WholeCall, Completion, openai_tool_calls, if_any, to_openai_response}
use cmdcode_go.Decoder.Frames.{Call, text_of, reasoning_of, calls_of, numbered}
use cmdcode_go.Decoder.Lockstep.{append_assoc_list}
use cmdcode_go.Decoder.Rendered.{to_openai_chunks-Carries}

-- A call of a chunk without its number.
abbrev unnumbered : Call → WholeCall
unnumbered c = record { id = c.id; name = c.name; arguments = c.args }

abbrev given_text : Option String → String
given_text none = ""
given_text (some s) = s

abbrev given_calls : Option (List WholeCall) → List WholeCall
given_calls none = []
given_calls (some cs) = cs

-- The frames say what the completion says: the text, the reasoning, the calls in their order, and in
-- the last frame the finish reason and the usage, under the model's name.
pub record SaysSame (fs : List Frame) (w : Completion) : Type 0 where
  pub text : text_of fs ≡ w.content
  pub reasoning : reasoning_of fs ≡ given_text w.reasoning_content
  pub calls : map unnumbered (calls_of fs) ≡ given_calls w.tool_calls
  pub before : List Frame
  pub last : Frame
  pub split : fs ≡ before ++ last ∷ []
  pub finish : last.finish ≡ some w.finish
  pub usage : last.usage ≡ some w.usage
  pub model : last.model ≡ w.model

calls_same :
    (ids : ℕ → String) (i : ℕ) (ts : List Tool)
    → All (λ t. t.id ≢ "") ts
    → map unnumbered (numbered i ts) ≡ openai_tool_calls ids i ts
unfolding openai_tool_calls
calls_same ids i [] n = refl
calls_same ids i (t ∷ ts) n =
    let named : (t.id == "") ≡ false = let x = n.0 in ground (arith, eq_iff t.id "") in
    simp (named, calls_same ids (suc i) ts n.1) refl

given_if_any : (cs : List WholeCall) → given_calls (if_any cs) ≡ cs
given_if_any [] = refl
given_if_any (c ∷ cs) = refl

reasoning_same : (r : String) → given_text (if r == "" then none else some r) ≡ r
reasoning_same r = elim (Bool-cases (r == "")) [
  | inl y ↦ simp y (sym ((eq_iff r "").0 y))
  | inr n ↦ simp n refl
]

add_tools-model :
    (fresh : String) (i : ℕ) (ts : List Tool) (p : Framer × List Frame)
    → (add_tools fresh i ts p).0.model ≡ p.0.model
add_tools-model fresh i [] p = refl
add_tools-model fresh i (t ∷ ts) p = add_tools-model fresh (suc i) ts _

add_unless-model :
    (b : Bool) (body : Body) (p : Framer × List Frame) → (add_unless b body p).0.model ≡ p.0.model
add_unless-model true body p = refl
add_unless-model false body p = refl

texts-model : (a : Accumulated) (f : Framer) → (texts_of a f).0.model ≡ f.model
texts-model a f =
    add_unless-model (a.text == "") (content a.text)
      (add_unless (a.reasoning == "") (reasoning_content a.reasoning) (f, []))
    ∙ add_unless-model (a.reasoning == "") (reasoning_content a.reasoning) (f, [])

-- The last chunk is the final frame of the framer's model.
ends_final :
    (a : Accumulated) (f g : Framer) (fs : List Frame) (b : Bool)
    → g.model ≡ f.model
    → (before : List Frame) × (last : Frame) × (fs
          ++ ((if b then [] else frame g nothing none none ∷ [])
              ++ final_frame g a.finish (openai_usage a) ∷ [])
        ≡ before ++ last ∷ [])
      × (last.finish ≡ some a.finish)
      × (last.usage ≡ some (openai_usage a))
      × (last.model ≡ f.model)
ends_final a f g fs true m = (fs, final_frame g a.finish (openai_usage a), refl, refl, refl, m)
ends_final a f g fs false m = (
  fs ++ frame g nothing none none ∷ [],
  final_frame g a.finish (openai_usage a),
  append_assoc_list fs (frame g nothing none none ∷ [])
      (final_frame g a.finish (openai_usage a) ∷ []),
  refl,
  refl,
  m,
)

-- A buffered answer whose calls have identifiers says the same as a completion and as chunks: the
-- chunks joined have the content, the reasoning and the calls of the completion, and the last chunk
-- its finish reason and its usage, under the same model.
pub to_openai_response-chunks :
    (id fresh : String) (created : ℕ) (ids : ℕ → String) (f : Framer) (a : Accumulated)
    → All (λ t. t.id ≢ "") a.tool_calls
    → SaysSame (to_openai_chunks fresh f a) (to_openai_response id created ids f.model a)
unfolding to_openai_chunks to_openai_response
to_openai_response-chunks id fresh created ids f a n =
    let c = to_openai_chunks-Carries fresh f a n in
    let tools = add_tools fresh 0 a.tool_calls (texts_of a f) in
    let (before, last, split, finish, usage, model) =
      ends_final a f tools.0 tools.1 tools.0.sent_role
        (add_tools-model fresh 0 a.tool_calls (texts_of a f) ∙ texts-model a f) in
    record {
      text = c.same_text;
      reasoning = c.same_reasoning ∙ sym (reasoning_same a.reasoning);
      calls =
          ap (map unnumbered) c.same_calls
          ∙ calls_same ids 0 a.tool_calls n
          ∙ sym (given_if_any (openai_tool_calls ids 0 a.tool_calls));
      before = before;
      last = last;
      split = split;
      finish = finish;
      usage = usage;
      model = model;
    }
