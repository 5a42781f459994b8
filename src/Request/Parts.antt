-- ===== src/Request/Parts.antt =====
-- The two readers of user content agree on its text.
use text.Mathlib.TextLemmas.{append_assoc, nil-append}
use cmdcode_go.Base.{
  String, ◌==◌, ◌^^◌, ◌≡◌, refl, sym, ap, ◌∙◌, Option, List, [], ◌∷◌, ◌++◌, is_empty, Bool-cases,
  inl, inr,
}
use cmdcode_go.Wire.{Value, Values, null, bool, int, frac, str, arr, obj, nil, cons, get_field}
use cmdcode_go.Request.{
  Part, reasoning_part, text_part, image_part, call_part, result_part, text_value,
}
use cmdcode_go.Request.Content.{
  item_parts, items_parts, ordered_user_parts, rich_texts, rich_text_of, concat_texts, message_text,
  is_text, image_or_nothing, to_wire_image, url_of,
}

abbrev pub part_text : Part → String
part_text (text_part s) = s
part_text (reasoning_part s) = ""
part_text (image_part url mime) = ""
part_text (call_part id name input) = ""
part_text (result_part id name text) = ""

abbrev pub parts_text : List Part → String
parts_text [] = ""
parts_text (p ∷ ps) = part_text p ^^ parts_text ps

parts_text-append : (ps qs : List Part) → parts_text (ps ++ qs) ≡ parts_text ps ^^ parts_text qs
parts_text-append [] qs = sym (nil-append (parts_text qs))
parts_text-append (p ∷ ps) qs =
    ap (λ s. part_text p ^^ s) (parts_text-append ps qs)
    ∙ sym (append_assoc (part_text p) (parts_text ps) (parts_text qs))

concat_texts-append :
    (ss ts : List String) → concat_texts (ss ++ ts) ≡ concat_texts ss ^^ concat_texts ts
concat_texts-append [] ts = sym (nil-append (concat_texts ts))
concat_texts-append (s ∷ ss) ts =
    ap (λ x. s ^^ x) (concat_texts-append ss ts)
    ∙ sym (append_assoc s (concat_texts ss) (concat_texts ts))

image_text : (v : Option Value) → parts_text (image_or_nothing (to_wire_image v)) ≡ ""
unfolding to_wire_image
image_text v = elim (Bool-cases (is_empty (url_of v))) [ inl y ↦ simp y | inr n ↦ simp n ]

item-text : (v : Value) → parts_text (item_parts v) ≡ concat_texts (rich_text_of v)
unfolding item_parts
item-text null = refl
item-text (bool b) = refl
item-text (int n) = refl
item-text (frac n s) = refl
item-text (str s) = refl
item-text (arr vs) = refl
item-text (obj fs) =
    let type = text_value (get_field "type" fs) in
    let text = text_value (get_field "text" fs) in
    elim (Bool-cases (is_text type)) [
      | inl t ↦ elim (Bool-cases (text == "")) [ inl y ↦ simp (t, y) | inr n ↦ simp (t, n) ]
      | inr n ↦ elim (Bool-cases (type == "image_url")) [
        | inl y ↦ simp (n, y) (image_text (get_field "image_url" fs))
        | inr m ↦ simp (n, m)
      ]
    ]

items-text : (vs : Values) → parts_text (items_parts vs) ≡ concat_texts (rich_texts vs)
unfolding items_parts
items-text nil = refl
items-text (cons v vs) =
    parts_text-append (item_parts v) (items_parts vs)
    ∙ ap (λ s. s ^^ parts_text (items_parts vs)) (item-text v)
    ∙ ap (λ s. concat_texts (rich_text_of v) ^^ s) (items-text vs)
    ∙ sym (concat_texts-append (rich_text_of v) (rich_texts vs))

-- The ordered parts of any content carry, among the images, exactly its text.
pub ordered_user_parts-text : (v : Value) → parts_text (ordered_user_parts v) ≡ message_text v
unfolding ordered_user_parts message_text
ordered_user_parts-text null = refl
ordered_user_parts-text (bool b) = refl
ordered_user_parts-text (int n) = refl
ordered_user_parts-text (frac n s) = refl
ordered_user_parts-text (obj fs) = refl
ordered_user_parts-text (arr vs) = items-text vs
ordered_user_parts-text (str s) = elim (Bool-cases (s == "")) [ inl y ↦ simp y | inr n ↦ simp n ]
