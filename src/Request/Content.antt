-- ===== src/Request/Content.antt =====
-- go/request.go: texts, images and reasoning out of the content of a message.
use cmdcode_go.Base.{
  String, ◌==◌, ◌^^◌, Bool, ◌||◌, Option, none, some, List, [], ◌∷◌, ◌++◌, if◌then◌else◌, is_empty,
  has_prefix, drop_chars, split_first,
}
use cmdcode_go.Wire.{
  Codec, Value, Values, Fields, null, bool, int, frac, str, arr, obj, nil, cons, end, field,
  get_field,
}
use cmdcode_go.Request.{ChatMessage, Part, text_part, image_part, text_value}

-- Writes a text after what a builder holds, on a line of its own; an empty one is passed over.
abbrev pub add_line : String → String → String
add_line acc s = if s == "" then acc else if acc == "" then s else acc ^^ "\n" ^^ s

-- The first text among those of the keys that is not empty.
abbrev text_under : String → List (String × String) → String
text_under key [] = ""
text_under key ((k, s) ∷ rest) = let other = text_under key rest in if k == key then s else other

abbrev first_text : List String → List (String × String) → String
first_text [] texts = ""
first_text (key ∷ keys) texts =
    let s = text_under key texts in if s == "" then first_text keys texts else s

abbrev pub reasoning_keys : List String
reasoning_keys = "text" ∷ "content" ∷ "reasoning_content" ∷ "reasoning" ∷ "thinking" ∷ []

unfoldable mutual
  pub reasoning_field_text : Value → String
  reasoning_field_text null = ""
  reasoning_field_text (bool b) = ""
  reasoning_field_text (int n) = ""
  reasoning_field_text (frac n s) = ""
  reasoning_field_text (str s) = s
  reasoning_field_text (arr vs) = reasoning_lines "" vs
  reasoning_field_text (obj fs) = first_text (reasoning_keys ++ "value" ∷ []) (reasoning_fields fs)

  reasoning_lines : String → Values → String
  reasoning_lines acc nil = acc
  reasoning_lines acc (cons v vs) = reasoning_lines (add_line acc (reasoning_field_text v)) vs

  -- The text of each field.
  reasoning_fields : Fields → List (String × String)
  reasoning_fields end = []
  reasoning_fields (field k v fs) = (k, reasoning_field_text v) ∷ reasoning_fields fs

unfoldable pub reasoning_part_text : Fields → String
unfolding reasoning_field_text
reasoning_part_text fs = first_text reasoning_keys (reasoning_fields fs)

abbrev is_reasoning : String → Bool
is_reasoning t =
    t == "reasoning" || t == "reasoning_content" || t == "reasoning_text" || t == "thinking"

abbrev reasoning_of_item : String → Value → String
reasoning_of_item acc (obj fs) =
    if is_reasoning (text_value (get_field "type" fs))
    then add_line acc (reasoning_part_text fs)
    else acc
reasoning_of_item acc _ = acc

abbrev reasoning_items : String → Values → String
reasoning_items acc nil = acc
reasoning_items acc (cons v vs) = reasoning_items (reasoning_of_item acc v) vs

unfoldable pub content_reasoning_text : Value → String
content_reasoning_text (arr vs) = reasoning_items "" vs
content_reasoning_text _ = ""

unfoldable pub message_reasoning : ChatMessage → String
unfolding reasoning_field_text content_reasoning_text
message_reasoning m =
    add_line
      (add_line (reasoning_field_text m.reasoning_content) (reasoning_field_text m.reasoning))
      (content_reasoning_text m.content)

abbrev pub url_of : Option Value → String
url_of (some (str s)) = s
url_of (some (obj fs)) = text_value (get_field "url" fs)
url_of _ = ""

abbrev mime_before : Option (String × String) → String
mime_before none = "image/png"
mime_before (some (before, after)) = if is_empty before then "image/png" else before

-- Between `data:` and the first `;`.
abbrev pub mime_of : String → String
mime_of url =
    if has_prefix url "data:"
    then mime_before (split_first b';' (drop_chars 5 url))
    else "image/png"

unfoldable pub to_wire_image : Option Value → Option Part
to_wire_image v =
    let url = url_of v in if is_empty url then none else some (image_part url (mime_of url))

abbrev pub is_text : String → Bool
is_text t = t == "text" || t == "input_text"

abbrev pub image_or_nothing : Option Part → List Part
image_or_nothing none = []
image_or_nothing (some p) = p ∷ []

-- The parts of one element of an array of parts.
unfoldable pub item_parts : Value → List Part
unfolding to_wire_image
item_parts (obj fs) =
    let type = text_value (get_field "type" fs) in
    let text = text_value (get_field "text" fs) in
    if is_text type
    then (if text == "" then [] else text_part text ∷ [])
    else if type == "image_url"
    then image_or_nothing (to_wire_image (get_field "image_url" fs))
    else []
item_parts _ = []

unfoldable pub items_parts : Values → List Part
unfolding item_parts
items_parts nil = []
items_parts (cons v vs) = item_parts v ++ items_parts vs

unfoldable pub ordered_user_parts : Value → List Part
unfolding items_parts
ordered_user_parts (str s) = if s == "" then [] else text_part s ∷ []
ordered_user_parts (arr vs) = items_parts vs
ordered_user_parts _ = []

-- What one element adds to the texts and the images of `messageRichText`.
abbrev pub rich_text_of : Value → List String
rich_text_of (obj fs) =
    let text = text_value (get_field "text" fs) in
    if is_text (text_value (get_field "type" fs))
    then (if text == "" then [] else text ∷ [])
    else []
rich_text_of _ = []

abbrev pub rich_texts : Values → List String
rich_texts nil = []
rich_texts (cons v vs) = rich_text_of v ++ rich_texts vs

unfoldable pub message_rich_text : Value → List String
message_rich_text (str s) = if s == "" then [] else s ∷ []
message_rich_text (arr vs) = rich_texts vs
message_rich_text _ = []

abbrev pub concat_texts : List String → String
concat_texts [] = ""
concat_texts (s ∷ ss) = s ^^ concat_texts ss

-- The images that `messageRichText` also collects are not used here.
unfoldable pub message_text : Value → String
unfolding message_rich_text
message_text v = concat_texts (message_rich_text v)

abbrev result_line : String → Value → String
result_line acc (obj fs) = add_line acc (text_value (get_field "text" fs))
result_line acc _ = acc

abbrev result_lines : String → Values → String
result_lines acc nil = acc
result_lines acc (cons v vs) = result_lines (result_line acc v) vs

unfoldable pub tool_result_text : Codec → Value → String
tool_result_text c null = ""
tool_result_text c (str s) = s
tool_result_text c (arr vs) = result_lines "" vs
tool_result_text c (bool b) = c.marshal (bool b)
tool_result_text c (int n) = c.marshal (int n)
tool_result_text c (frac n s) = c.marshal (frac n s)
tool_result_text c (obj fs) = c.marshal (obj fs)
