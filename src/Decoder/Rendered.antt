-- ===== src/Decoder/Rendered.antt =====
-- The chunks of a buffered answer carry it in full.
use text.Mathlib.TextLemmas.{append-nil, nil-append}
use cmdcode_go.Base.{
  ℕ, suc, String, ◌==◌, ◌^^◌, ◌≡◌, ◌≢◌, refl, sym, ap, ◌∙◌, subst, Bool, true, false, none, List,
  [], ◌∷◌, ◌++◌, All, if◌then◌else◌, Bool-cases, inl, inr, eq_iff, arith,
}
use cmdcode_go.Response.{
  Accumulated, Tool, Frame, Framer, nothing, frame, with_role, final_frame, tool_body, openai_usage,
}
use cmdcode_go.Response.Chunks.{add_chunk, add_tools, texts_of, to_openai_chunks}
use cmdcode_go.Decoder.Frames.{
  Call, text_of, reasoning_of, calls_of, body_text, body_reasoning, body_calls, numbered,
  numbered_call, text_of-snoc, reasoning_of-snoc, calls_of-append,
}
use cmdcode_go.Decoder.Parity.{append_nil}
use cmdcode_go.Decoder.Lockstep.{append_assoc_list}

-- What a client reads out of frames.
pub record Carries (text reasoning : String) (calls : List Call) (fs : List Frame) : Type 0 where
  pub same_text : text_of fs ≡ text
  pub same_reasoning : reasoning_of fs ≡ reasoning
  pub same_calls : calls_of fs ≡ calls

module _ (t r : String) (cs : List Call) (fs : List Frame) (h : Carries t r cs fs) where
  snoc-Carries :
      (g : Frame)
      → Carries
          (t ^^ body_text g.body)
          (r ^^ body_reasoning g.body)
          (cs ++ body_calls g.body)
          (fs ++ g ∷ [])
  snoc-Carries g = record {
    same_text = text_of-snoc fs g ∙ ap (λ s. s ^^ body_text g.body) h.same_text;
    same_reasoning = reasoning_of-snoc fs g ∙ ap (λ s. s ^^ body_reasoning g.body) h.same_reasoning;
    same_calls =
        calls_of-append fs (g ∷ [])
        ∙ ap (λ l. l ++ (body_calls g.body ++ [])) h.same_calls
        ∙ ap (λ l. cs ++ l) (append_nil (body_calls g.body));
  }

  silent-Carries : (g : Frame) → g.body ≡ nothing → Carries t r cs (fs ++ g ∷ [])
  silent-Carries g e = record {
    same_text = text_of-snoc fs g ∙ simp e (append-nil (text_of fs)) ∙ h.same_text;
    same_reasoning =
        reasoning_of-snoc fs g ∙ simp e (append-nil (reasoning_of fs)) ∙ h.same_reasoning;
    same_calls = calls_of-append fs (g ∷ []) ∙ simp e (append_nil (calls_of fs)) ∙ h.same_calls;
  }

empty : (s : String) → (s == "") ≡ true → "" ≡ s
empty s y = sym ((eq_iff s "").0 y)

texts-Carries : (a : Accumulated) (f : Framer) → Carries a.text a.reasoning [] (texts_of a f).1
texts-Carries a f = elim (Bool-cases (a.reasoning == "")) [
  | inl y ↦ elim (Bool-cases (a.text == "")) [
    | inl z ↦
        simp (y, z)
          (record {
            same_text = empty a.text z;
            same_reasoning = empty a.reasoning y;
            same_calls = refl;
          })
    | inr z ↦
        simp (y, z)
          (record {
            same_text = append-nil a.text;
            same_reasoning = empty a.reasoning y;
            same_calls = refl;
          })
  ]
  | inr y ↦ elim (Bool-cases (a.text == "")) [
    | inl z ↦
        simp (y, z)
          (record {
            same_text = empty a.text z;
            same_reasoning = append-nil a.reasoning;
            same_calls = refl;
          })
    | inr z ↦
        simp (y, z)
          (record {
            same_text = nil-append (a.text ^^ "") ∙ append-nil a.text;
            same_reasoning = append-nil a.reasoning;
            same_calls = refl;
          })
  ]
]

tool_chunk :
    (fresh : String) (i : ℕ) (t : Tool)
    → t.id ≢ ""
    → body_calls (tool_body i t.id t.name t.input fresh) ≡ numbered_call i t ∷ []
unfolding tool_body
tool_chunk fresh i t n =
    let named : (t.id == "") ≡ false = ground (arith, eq_iff t.id "") in simp named

one_tool-Carries :
    (fresh : String) (i : ℕ) (tool : Tool) (t r : String) (cs : List Call) (fs : List Frame)
    → (f : Framer) → tool.id ≢ ""
    → Carries t r cs fs
    → Carries t r
        (cs ++ numbered_call i tool ∷ [])
        (fs ++ frame f (tool_body i tool.id tool.name tool.input fresh) none none ∷ [])
unfolding tool_body
one_tool-Carries fresh i tool t r cs fs f n h =
    let g = frame f (tool_body i tool.id tool.name tool.input fresh) none none in
    let k = snoc-Carries t r cs fs h g in
    record {
      same_text = k.same_text ∙ append-nil t;
      same_reasoning = k.same_reasoning ∙ append-nil r;
      same_calls = k.same_calls ∙ ap (λ l. cs ++ l) (tool_chunk fresh i tool n);
    }

tools-Carries :
    (fresh : String) (i : ℕ) (ts : List Tool) (t r : String) (cs : List Call) (f : Framer)
    → (fs : List Frame) → All (λ x. x.id ≢ "") ts
    → Carries t r cs fs
    → Carries t r (cs ++ numbered i ts) (add_tools fresh i ts (f, fs)).1
tools-Carries fresh i [] t r cs f fs n h = rw append_nil h
tools-Carries fresh i (x ∷ ts) t r cs f fs n h =
    subst
      (λ l.
        Carries t r l
          (add_tools fresh (suc i) ts
            (add_chunk (tool_body i x.id x.name x.input fresh) (f, fs))).1)
      (sym (append_assoc_list cs (numbered_call i x ∷ []) (numbered (suc i) ts)))
      (tools-Carries fresh (suc i) ts t r (cs ++ numbered_call i x ∷ []) (with_role f) _ n.1
        (one_tool-Carries fresh i x t r cs fs f n.0 h))

close-Carries :
    (a : Accumulated) (f : Framer) (t r : String) (cs : List Call) (fs : List Frame) (b : Bool)
    → Carries t r cs fs
    → Carries t r cs (
        fs
        ++ ((if b then [] else frame f nothing none none ∷ [])
            ++ final_frame f a.finish (openai_usage a) ∷ []))
close-Carries a f t r cs fs true h = silent-Carries t r cs fs h _ refl
close-Carries a f t r cs fs false h =
    subst (Carries t r cs)
      (sym (append_assoc_list fs (_ ∷ []) (final_frame f a.finish (openai_usage a) ∷ [])))
      (silent-Carries t r cs _ (silent-Carries t r cs fs h (frame f nothing none none) refl)
        (final_frame f a.finish (openai_usage a)) refl)

-- The chunks of a buffered answer whose tool calls have identifiers carry its text, its reasoning and
-- its tool calls, numbered in their order.
pub to_openai_chunks-Carries :
    (fresh : String) (f : Framer) (a : Accumulated)
    → All (λ x. x.id ≢ "") a.tool_calls
    → Carries a.text a.reasoning (numbered 0 a.tool_calls) (to_openai_chunks fresh f a)
unfolding to_openai_chunks
to_openai_chunks-Carries fresh f a n =
    let (g, fs) = add_tools fresh 0 a.tool_calls (texts_of a f) in
    close-Carries a g a.text a.reasoning (numbered 0 a.tool_calls) fs g.sent_role (
      tools-Carries fresh 0 a.tool_calls a.text a.reasoning [] (texts_of a f).0 (texts_of a f).1 n
        (texts-Carries a f))
