-- ===== src/Normalize/Framed.antt =====
-- The prefix that a streamed chunk gets.
use text.Mathlib.TextLemmas.{append_assoc}
use cmdcode_go.Base.{
  String, ◌==◌, ◌^^◌, ◌≡◌, ◌≢◌, refl, sym, ap, subst, ◌∙◌, inl, inr, true, false, some, arith,
  eq_iff, Bool-cases, has_prefix, trim_space, trim_space-prefix, is_space, any_char, ◌⊎◌,
}
use cmdcode_go.Normalize.{
  TransformRequest, Bodies, framed, before, before_body, to_claude, normalize_before,
}

data_prefix : (t : String) → has_prefix (trim_space ("data: " ^^ t)) "data:" ≡ true
unfolding any_char is_space
data_prefix t =
    subst (λ s. has_prefix (trim_space s) "data:" ≡ true) (sym (append_assoc "data:" " " t))
      (trim_space-prefix "d" "ata:" (" " ^^ t) refl)

framed-prefix :
    (body : String) → trim_space body ≢ "" → has_prefix (trim_space (framed body)) "data:" ≡ true
unfolding framed
framed-prefix body blank =
    let n : (trim_space body == "") ≡ false = ground (arith, eq_iff (trim_space body) "") in
    elim (Bool-cases (has_prefix (trim_space body) "data:")) [
      | inl y ↦ simp (n, y) refl
      | inr z ↦ simp (n, z) (data_prefix (trim_space body))
    ]

framed-kept : (body : String) → has_prefix (trim_space body) "data:" ≡ true → framed body ≡ body
unfolding framed
framed-kept body y = elim (Bool-cases (trim_space body == "")) [
  | inl b ↦ simp b refl
  | inr n ↦ simp (n, y) refl
]

-- What the hook makes of a chunk that is not blank.
abbrev pub IsFraming : String → String → Type 0
IsFraming chunk body =
    ((has_prefix (trim_space chunk) "data:" ≡ true) × (body ≡ chunk))
    ⊎ ((has_prefix (trim_space chunk) "data:" ≡ false) × (body ≡ "data: " ^^ trim_space chunk))

framed-IsFraming : (chunk : String) → trim_space chunk ≢ "" → IsFraming chunk (framed chunk)
unfolding framed
framed-IsFraming chunk blank =
    let n : (trim_space chunk == "") ≡ false = ground (arith, eq_iff (trim_space chunk) "") in
    elim (Bool-cases (has_prefix (trim_space chunk) "data:")) [
      | inl y ↦ inl (y, simp (n, y) refl)
      | inr z ↦ inr (z, simp (n, z) refl)
    ]

-- On a streamed chunk on its way from an OpenAI to a Claude format that is not blank, the hook gives
-- the chunk as it is if it has the prefix `data:` behind leading white space, and else `data: ` and
-- the trimmed chunk; the body has the prefix, and the hook leaves that body as it is.
pub normalize_before-framed :
    (j : Bodies) (request again : String) (r : TransformRequest)
    → j.transform_request request ≡ some r
    → j.transform_request again ≡ some (record r { body = before_body r })
    → r.stream ≡ true
    → to_claude r ≡ true
    → trim_space r.body ≢ ""
    → (body : String) × (normalize_before j request ≡ some body)
      × IsFraming r.body body
      × (has_prefix (trim_space body) "data:" ≡ true)
      × (normalize_before j again ≡ some body)
unfolding normalize_before
normalize_before-framed j request again r first second streams claude blank =
    let here : before_body r ≡ framed r.body = simp (streams, claude) refl in
    let prefix = framed-prefix r.body blank in
    let again_same : before_body (record r { body = framed r.body }) ≡ framed r.body =
      simp (streams, claude) (framed-kept (framed r.body) prefix) in
    (
      framed r.body,
      ap before first ∙ ap some here,
      framed-IsFraming r.body blank,
      prefix,
      ap before second
          ∙ (ap (λ b. some (before_body (record r { body = b }))) here ∙ ap some again_same),
    )
