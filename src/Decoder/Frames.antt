-- ===== src/Decoder/Frames.antt =====
-- What a client reads out of a sequence of frames: texts joined in order, and the tool calls.
use cmdcode_go.Base.{
  ℕ, suc, ◌+◌, String, ◌==◌, ◌^^◌, ◌≡◌, refl, sym, ap, ◌∙◌, List, [], ◌∷◌, ◌++◌, length, arith,
  if◌then◌else◌,
}
use text.Mathlib.TextLemmas.{append_assoc, nil-append, append-nil}
use cmdcode_go.Response.{Frame, Body, Tool, content, reasoning_content, tool_call, nothing}

abbrev pub body_text : Body → String
body_text (content s) = s
body_text (reasoning_content s) = ""
body_text (tool_call i id name args) = ""
body_text nothing = ""

abbrev pub body_reasoning : Body → String
body_reasoning (content s) = ""
body_reasoning (reasoning_content s) = s
body_reasoning (tool_call i id name args) = ""
body_reasoning nothing = ""

pub record Call : Type 0 where
  pub index : ℕ
  pub id : String
  pub name : String
  pub args : String

abbrev pub body_calls : Body → List Call
body_calls (content s) = []
body_calls (reasoning_content s) = []
body_calls (tool_call i id name args) = record { index = i; id = id; name = name; args = args } ∷ []
body_calls nothing = []

abbrev pub text_of : List Frame → String
text_of [] = ""
text_of (f ∷ fs) = body_text f.body ^^ text_of fs

abbrev pub reasoning_of : List Frame → String
reasoning_of [] = ""
reasoning_of (f ∷ fs) = body_reasoning f.body ^^ reasoning_of fs

abbrev pub calls_of : List Frame → List Call
calls_of [] = []
calls_of (f ∷ fs) = body_calls f.body ++ calls_of fs

-- Tool calls numbered from `i`, empty arguments as an empty object.
abbrev pub numbered_call : ℕ → Tool → Call
numbered_call i t = record {
  index = i;
  id = t.id;
  name = t.name;
  args = if t.input == "" then "{}" else t.input;
}

abbrev pub numbered : ℕ → List Tool → List Call
numbered i [] = []
numbered i (t ∷ ts) = numbered_call i t ∷ numbered (suc i) ts

pub text_of-append : (fs gs : List Frame) → text_of (fs ++ gs) ≡ text_of fs ^^ text_of gs
text_of-append [] gs = sym (nil-append (text_of gs))
text_of-append (f ∷ fs) gs =
    ap (λ s. body_text f.body ^^ s) (text_of-append fs gs)
    ∙ sym (append_assoc (body_text f.body) (text_of fs) (text_of gs))

pub reasoning_of-append :
    (fs gs : List Frame) → reasoning_of (fs ++ gs) ≡ reasoning_of fs ^^ reasoning_of gs
reasoning_of-append [] gs = sym (nil-append (reasoning_of gs))
reasoning_of-append (f ∷ fs) gs =
    ap (λ s. body_reasoning f.body ^^ s) (reasoning_of-append fs gs)
    ∙ sym (append_assoc (body_reasoning f.body) (reasoning_of fs) (reasoning_of gs))

append_calls :
    (b : Body) (xs ys : List Call) → body_calls b ++ (xs ++ ys) ≡ (body_calls b ++ xs) ++ ys
append_calls (content s) xs ys = refl
append_calls (reasoning_content s) xs ys = refl
append_calls (tool_call i id name args) xs ys = refl
append_calls nothing xs ys = refl

pub calls_of-append : (fs gs : List Frame) → calls_of (fs ++ gs) ≡ calls_of fs ++ calls_of gs
calls_of-append [] gs = refl
calls_of-append (f ∷ fs) gs =
    ap (λ s. body_calls f.body ++ s) (calls_of-append fs gs)
    ∙ append_calls f.body (calls_of fs) (calls_of gs)

pub numbered-append :
    (i : ℕ) (xs ys : List Tool)
    → numbered i (xs ++ ys) ≡ numbered i xs ++ numbered (i + length xs) ys
numbered-append i [] ys = ap (λ n. numbered n ys) (omega arith)
numbered-append i (x ∷ xs) ys =
    let shift : suc i + length xs ≡ i + suc (length xs) = omega arith in
    ap (λ l. numbered_call i x ∷ l)
      (numbered-append (suc i) xs ys ∙ ap (λ n. numbered (suc i) xs ++ numbered n ys) shift)

pub text_of-snoc :
    (fs : List Frame) (f : Frame) → text_of (fs ++ f ∷ []) ≡ text_of fs ^^ body_text f.body
text_of-snoc fs f =
    text_of-append fs (f ∷ []) ∙ ap (λ s. text_of fs ^^ s) (append-nil (body_text f.body))

pub reasoning_of-snoc :
    (fs : List Frame) (f : Frame)
    → reasoning_of (fs ++ f ∷ []) ≡ reasoning_of fs ^^ body_reasoning f.body
reasoning_of-snoc fs f =
    reasoning_of-append fs (f ∷ [])
    ∙ ap (λ s. reasoning_of fs ^^ s) (append-nil (body_reasoning f.body))
