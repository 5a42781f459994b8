-- ===== src/Request/Names.antt =====
-- The names that tool results carry.
use cmdcode_go.Base.{
  ℕ, String, ◌==◌, ◌≡◌, refl, sym, ap, ◌∙◌, subst, ite, Option, none, some, List, [], ◌∷◌, ◌++◌,
  str_dec, Bool-cases, inl, inr, ok, >>=-eq-ok, ok_inj, is_empty,
}
use cmdcode_go.Wire.{
  Codec, Value, Values, null, bool, int, frac, str, arr, obj, nil, cons, get_field,
}
use cmdcode_go.Request.{
  ChatMessage, ToolCall, Part, Message, Role, reasoning_part, text_part, image_part, call_part,
  result_part, text_value,
}
use cmdcode_go.Request.Content.{
  item_parts, items_parts, ordered_user_parts, image_or_nothing, to_wire_image, url_of, is_text,
  message_text, message_reasoning,
}
use cmdcode_go.Request.Convert.{
  Conversion, Calls, add_call, add_calls, call_id, opening, add_message, parse_tool_input,
}

-- The name of the last call with an identifier, `before` if there is none.
abbrev pub last_in : String → List Part → Option String → Option String
last_in id [] before = before
last_in id (reasoning_part s ∷ ps) before = last_in id ps before
last_in id (text_part s ∷ ps) before = last_in id ps before
last_in id (image_part url mime ∷ ps) before = last_in id ps before
last_in id (result_part call name text ∷ ps) before = last_in id ps before
last_in id (call_part call name input ∷ ps) before =
    last_in id ps (ite (str_dec id call) (some name) before)

abbrev pub last_call : String → List Message → Option String → Option String
last_call id [] before = before
last_call id (m ∷ ms) before = last_call id ms (last_in id m.parts before)

last_in-append :
    (id : String) (ps qs : List Part) (o : Option String)
    → last_in id (ps ++ qs) o ≡ last_in id qs (last_in id ps o)
last_in-append id [] qs o = refl
last_in-append id (reasoning_part s ∷ ps) qs o = last_in-append id ps qs o
last_in-append id (text_part s ∷ ps) qs o = last_in-append id ps qs o
last_in-append id (image_part url mime ∷ ps) qs o = last_in-append id ps qs o
last_in-append id (result_part call name text ∷ ps) qs o = last_in-append id ps qs o
last_in-append id (call_part call name input ∷ ps) qs o = last_in-append id ps qs _

pub last_call-append :
    (id : String) (ms ns : List Message) (o : Option String)
    → last_call id (ms ++ ns) o ≡ last_call id ns (last_call id ms o)
last_call-append id [] ns o = refl
last_call-append id (m ∷ ms) ns o = last_call-append id ms ns (last_in id m.parts o)

-- Parts without a call.
abbrev pub Callless : List Part → Type 0
Callless ps = (id : String) (o : Option String) → last_in id ps o ≡ o

pub opening-Callless : (m : ChatMessage) → Callless (opening m)
opening-Callless m id o = elim (Bool-cases (message_reasoning m == "")) [
  | inl y ↦ elim (Bool-cases (message_text m.content == "")) [
    | inl z ↦ simp (y, z)
    | inr z ↦ simp (y, z)
  ]
  | inr n ↦ elim (Bool-cases (message_text m.content == "")) [
    | inl z ↦ simp (n, z)
    | inr z ↦ simp (n, z)
  ]
]

image-Callless : (v : Option Value) → Callless (image_or_nothing (to_wire_image v))
unfolding to_wire_image
image-Callless v id o = elim (Bool-cases (is_empty (url_of v))) [ inl y ↦ simp y | inr n ↦ simp n ]

item-Callless : (v : Value) → Callless (item_parts v)
unfolding item_parts
item-Callless null id o = refl
item-Callless (bool b) id o = refl
item-Callless (int n) id o = refl
item-Callless (frac n s) id o = refl
item-Callless (str s) id o = refl
item-Callless (arr vs) id o = refl
item-Callless (obj fs) id o =
    let type = text_value (get_field "type" fs) in
    elim (Bool-cases (is_text type)) [
      | inl t ↦ elim (Bool-cases (text_value (get_field "text" fs) == "")) [
        | inl y ↦ simp (t, y)
        | inr n ↦ simp (t, n)
      ]
      | inr n ↦ elim (Bool-cases (type == "image_url")) [
        | inl y ↦ simp (n, y) (image-Callless (get_field "image_url" fs) id o)
        | inr m ↦ simp (n, m)
      ]
    ]

items-Callless : (vs : Values) → Callless (items_parts vs)
unfolding items_parts
items-Callless nil id o = refl
items-Callless (cons v vs) id o =
    last_in-append id (item_parts v) (items_parts vs) o
    ∙ items-Callless vs id (last_in id (item_parts v) o)
    ∙ item-Callless v id o

pub user-Callless : (v : Value) → Callless (ordered_user_parts v)
unfolding ordered_user_parts
user-Callless null id o = refl
user-Callless (bool b) id o = refl
user-Callless (int n) id o = refl
user-Callless (frac n s) id o = refl
user-Callless (obj fs) id o = refl
user-Callless (arr vs) id o = items-Callless vs id o
user-Callless (str s) id o = elim (Bool-cases (s == "")) [ inl y ↦ simp y | inr n ↦ simp n ]

-- The table of names holds, for each identifier, the name of the last call with it in the output.
abbrev pub IsNamed : Conversion → Type 0
IsNamed s = (id : String) → s.tool_names.get id ≡ last_call id s.out none

abbrev pub AreNamed : Conversion → Calls → Type 0
AreNamed s k = (id : String) → k.tool_names.get id ≡ last_in id k.parts (last_call id s.out none)

add_call-AreNamed :
    (ids : ℕ → String) (call : ToolCall) (s : Conversion) (k k' : Calls) (o : Option String)
    → add_call ids call k o ≡ ok k'
    → AreNamed s k
    → AreNamed s k'
add_call-AreNamed ids call s k k' none h a = cc
add_call-AreNamed ids call s k k' (some input) h a = subst (AreNamed s) (ok_inj h) (λ id.
    ap (λ o. ite (str_dec id (call_id ids call k.next_id)) (some call.name) o) (a id)
    ∙ sym (last_in-append id k.parts _ (last_call id s.out none)))

pub add_calls-AreNamed :
    (c : Codec) (ids : ℕ → String) (calls : List ToolCall) (s : Conversion) (k k' : Calls)
    → add_calls c ids calls k ≡ ok k'
    → AreNamed s k
    → AreNamed s k'
unfolding add_calls
add_calls-AreNamed c ids [] s k k' h a = subst (AreNamed s) (ok_inj h) a
add_calls-AreNamed c ids (call ∷ calls) s k k' h a =
    let (k₁, first, rest) =
      >>=-eq-ok (add_call ids call k (parse_tool_input c call.arguments)) _ h in
    add_calls-AreNamed c ids calls s k₁ k' rest
      (add_call-AreNamed ids call s k k₁ (parse_tool_input c call.arguments) first a)

pub add_message-IsNamed :
    (role : Role) (ps : List Part) (s : Conversion)
    → Callless ps
    → IsNamed s
    → IsNamed (add_message role ps s)
add_message-IsNamed role ps s n h id =
    h id ∙ sym (last_call-append id s.out _ none ∙ n id (last_call id s.out none))
