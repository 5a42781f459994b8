-- ===== src/Request/Answers.antt =====
-- Conversations keep the table of names, so that tool results are named after their calls.
use cmdcode_go.Base.{
  ℕ, String, ◌==◌, ◌≡◌, ◌≢◌, refl, sym, ◌∙◌, subst, Bool, true, false, none, some, List, [], ◌∷◌,
  ◌++◌, if◌then◌else◌, Bool-cases, inl, inr, Result, ok, >>=-eq-ok, ok_inj, ◌||◌, arith, eq_iff,
}
use cmdcode_go.Wire.{Codec}
use cmdcode_go.Request.{ChatMessage, Part, tool, user, result_part}
use cmdcode_go.Request.Content.{ordered_user_parts, message_text, tool_result_text}
use cmdcode_go.Request.Convert.{
  Conversion, ConvertError, Calls, add_calls, convert_message, convert_messages, no_messages,
  add_system, add_user, add_assistant, calls_before,
}
use cmdcode_go.Request.Names.{
  last_call, last_call-append, IsNamed, AreNamed, Callless, user-Callless, opening-Callless,
  add_calls-AreNamed, add_message-IsNamed,
}

add_system-IsNamed : (text : String) (s : Conversion) → IsNamed s → IsNamed (add_system text s)
add_system-IsNamed text s h id = elim (Bool-cases (text == "")) [
  | inl y ↦ simp y (h id)
  | inr n ↦ simp n (h id)
]

add_user-IsNamed :
    (ps : List Part) (s : Conversion) → Callless ps → IsNamed s → IsNamed (add_user ps s)
add_user-IsNamed [] s n h = h
add_user-IsNamed (p ∷ ps) s n h = add_message-IsNamed user (p ∷ ps) s n h

add_assistant-IsNamed : (s : Conversion) (k : Calls) → AreNamed s k → IsNamed (add_assistant s k)
add_assistant-IsNamed s k a id = a id ∙ sym (last_call-append id s.out _ none)

-- A step that keeps the table if it succeeds.
abbrev Keeps : Result ConvertError Conversion → Type 0
Keeps r = (s : Conversion) → r ≡ ok s → IsNamed s

ok-Keeps : (s : Conversion) → IsNamed s → Keeps (ok s)
ok-Keeps s n s' h = subst IsNamed (ok_inj h) n

either :
    (b : Bool) (x y : Result ConvertError Conversion)
    → Keeps x
    → Keeps y
    → Keeps (if b then x else y)
either true x y h k = h
either false x y h k = k

convert_message-Keeps :
    (c : Codec) (ids : ℕ → String) (m : ChatMessage) (s : Conversion)
    → IsNamed s
    → Keeps (convert_message c ids m s)
unfolding convert_message
convert_message-Keeps c ids m s n =
    either (m.role == "system" || m.role == "developer") _ _
      (ok-Keeps _ (add_system-IsNamed (message_text m.content) s n))
      (either (m.role == "assistant") _ _
        (λ s' h.
          let (k, converted, e) = >>=-eq-ok (add_calls c ids m.tool_calls (calls_before m s)) _ h in
          ok-Keeps (add_assistant s k)
            (add_assistant-IsNamed s k (
              add_calls-AreNamed c ids m.tool_calls s (calls_before m s) k converted
                (λ id. n id ∙ sym (opening-Callless m id (last_call id s.out none)))))
            s' e)
        (either (m.role == "tool") _ _ (ok-Keeps _ (add_message-IsNamed tool _ s (λ id o. refl) n))
          (ok-Keeps _
            (add_user-IsNamed (ordered_user_parts m.content) s (user-Callless m.content) n))))

convert_messages-IsNamed :
    (c : Codec) (ids : ℕ → String) (ms : List ChatMessage) (s s' : Conversion)
    → convert_messages c ids ms s ≡ ok s'
    → IsNamed s
    → IsNamed s'
unfolding convert_messages
convert_messages-IsNamed c ids [] s s' h n = ok-Keeps s n s' h
convert_messages-IsNamed c ids (m ∷ ms) s s' h n =
    let (s₁, first, rest) = >>=-eq-ok (convert_message c ids m s) _ h in
    convert_messages-IsNamed c ids ms s₁ s' rest (convert_message-Keeps c ids m s n s₁ first)

-- After a conversation that was converted, a tool message without a name of its own becomes a result
-- under the name of the last call with its identifier in the converted messages.
pub tool_result_named :
    (c : Codec) (ids : ℕ → String) (ms : List ChatMessage) (m : ChatMessage) (s : Conversion)
    → (name : String) → convert_messages c ids ms no_messages ≡ ok s
    → m.role ≡ "tool"
    → m.name ≡ ""
    → last_call m.tool_call_id s.out none ≡ some name
    → name ≢ ""
    → convert_message c ids m s
      ≡ ok (record s {
        out =
            s.out
            ++ record {
              role = tool;
              parts = result_part m.tool_call_id name (tool_result_text c m.content) ∷ [];
            }
              ∷ [];
      })
unfolding convert_message
tool_result_named c ids ms m s name h r e called real =
    let n : IsNamed s = convert_messages-IsNamed c ids ms no_messages s h (λ id. refl) in
    let found : s.tool_names.get m.tool_call_id ≡ some name = n m.tool_call_id ∙ called in
    let unempty : (name == "") ≡ false = ground (arith, eq_iff name "") in
    simp (r, e, found, unempty)
