-- ===== src/Identity/Claims.antt =====
-- All that a request says of its conversation, gathered first and compared afterwards.
use cmdcode_go.Base.{
  String, ◌==◌, ◌≡◌, refl, sym, ap, ◌∙◌, Bool, true, false, Option, none, some, Option-cases, inl,
  inr, Bool-cases, List, [], ◌∷◌, ◌++◌, if◌then◌else◌, is_empty, to_lower,
}
use cmdcode_go.Base.Options.{◌>>=◌}
use cmdcode_go.Wire.{Value, str, get_field}
use cmdcode_go.Identity.{
  ExecutorRequest, Json, add, has, session_headers, single_value, claim_header, read_headers,
  add_present, add_raw, read, find_raw, body_names, nested_names, object_fields, read_container,
  read_object, read_body, body_of, identity_of,
}

abbrev pub Gathered : Type 0
Gathered = Option (List Value)

abbrev pub both : Gathered → Gathered → Gathered
both g h = g >>= λ vs. h >>= λ ws. some (vs ++ ws)

-- The values of the session headers: a header that stands twice in different cases, has no value,
-- several or a list is malformed.
abbrev pub header_claims : List (String × List String) → List String → Gathered
header_claims [] seen = some []
header_claims ((name, values) ∷ hs) seen =
    let rest = header_claims hs (to_lower name ∷ seen) in
    let unclaimed = header_claims hs seen in
    if has (to_lower name) session_headers
    then (if has (to_lower name) seen
        then none
        else (single_value values >>= λ v. both (some (str v ∷ [])) rest))
    else unclaimed

abbrev pub claim : Option Value → Gathered
claim none = some []
claim (some v) = some (v ∷ [])

abbrev pub raw_claim : Json → Option String → Gathered
raw_claim j none = some []
raw_claim j (some raw) = j.decode raw >>= λ v. some (v ∷ [])

abbrev pub field_claims : Json → List (String × String) → List String → Gathered
field_claims j m [] = some []
field_claims j m (name ∷ names) = both (raw_claim j (find_raw name m)) (field_claims j m names)

abbrev pub container_claims : Json → Option String → Gathered
container_claims j none = some []
container_claims j (some raw) =
    if raw == "null"
    then some []
    else (object_fields j raw >>= λ nested. field_claims j nested nested_names)

abbrev pub object_claims : Json → List (String × String) → Gathered
object_claims j m = both (field_claims j m body_names) (
    both (container_claims j (find_raw "metadata" m))
      (container_claims j (find_raw "extra_body" m)))

abbrev pub body_claims : Json → String → Gathered
body_claims j raw = if is_empty raw then some [] else (object_fields j raw >>= object_claims j)

unfoldable pub claims : Json → ExecutorRequest → Gathered
claims j r =
    both (header_claims r.headers [])
      (both (claim (get_field "execution_session_id" r.metadata)) (body_claims j (body_of r)))

-- The comparison of claims, one after the other.
unfoldable pub agree : List Value → String → Option String
agree [] identity = some identity
agree (v ∷ vs) identity = add v identity >>= agree vs

-- A reader that compares while it gathers.
abbrev Reads : (String → Option String) → Gathered → Type 0
Reads f g = (identity : String) → f identity ≡ (g >>= λ vs. agree vs identity)

agree-append : (vs ws : List Value) (i : String) → agree (vs ++ ws) i ≡ (agree vs i >>= agree ws)
unfolding agree
agree-append [] ws i = refl
agree-append (v ∷ vs) ws i = elim (Option-cases (add v i)) [
  | inl e ↦ simp e
  | inr (x, e) ↦ simp e (agree-append vs ws x)
]

-- A failure of the first reader is one of both.
agree-both :
    (vs : List Value) (h : Gathered) (i : String) (g : String → Option String)
    → Reads g h
    → (agree vs i >>= g) ≡ (both (some vs) h >>= λ us. agree us i)
agree-both vs none i g r = elim (Option-cases (agree vs i)) [
  | inl e ↦ simp e
  | inr (x, e) ↦ simp e (r x)
]
agree-both vs (some ws) i g r = elim (Option-cases (agree vs i)) [
  | inl e ↦ ap (λ o. o >>= g) e ∙ sym (agree-append vs ws i ∙ ap (λ o. o >>= agree ws) e)
  | inr (x, e) ↦ ap (λ o. o >>= g) e ∙ r x ∙ sym (agree-append vs ws i ∙ ap (λ o. o >>= agree ws) e)
]

Reads-both :
    (f g : String → Option String) (h k : Gathered)
    → Reads f h
    → Reads g k
    → Reads (λ i. f i >>= g) (both h k)
Reads-both f g none k p q i = ap (λ o. o >>= g) (p i)
Reads-both f g (some vs) k p q i = ap (λ o. o >>= g) (p i) ∙ agree-both vs k i g q

Reads-one : (v : Value) → Reads (add v) (some (v ∷ []))
unfolding agree
Reads-one v i = elim (Option-cases (add v i)) [ inl e ↦ simp e | inr (x, e) ↦ simp e ]

Reads-empty : Reads (λ i. some i) (some [])
unfolding agree
Reads-empty i = refl

Reads-bind :
    {X : Type 0} (o : Option X) (f : X → String → Option String) (g : X → Gathered)
    → ((x : X) → Reads (f x) (g x))
    → Reads (λ i. o >>= λ x. f x i) (o >>= g)
Reads-bind none f g p i = refl
Reads-bind (some x) f g p i = p x i

Reads-if :
    (b : Bool) (f g : String → Option String) (h k : Gathered)
    → Reads f h
    → Reads g k
    → Reads (λ i. if b then f i else g i) (if b then h else k)
Reads-if true f g h k p q = p
Reads-if false f g h k p q = q

Reads-none : Reads (λ i. none) none
Reads-none i = refl

abbrev identity_part : Option (String × List String) → Option String
identity_part o = o >>= λ h. some h.0

header-Reads :
    (name : String) (hs : List (String × List String)) (seen : List String) (o : Option String)
    → Reads (λ i. identity_part (read_headers hs (i, name ∷ seen))) (header_claims hs (name ∷ seen))
    → Reads
        (λ i. identity_part (claim_header name o seen i >>= read_headers hs))
        (o >>= λ v. both (some (str v ∷ [])) (header_claims hs (name ∷ seen)))
header-Reads name hs seen none p i = refl
header-Reads name hs seen (some v) p i =
    through (add (str v) i)
    ∙ Reads-both (add (str v)) (λ i. identity_part (read_headers hs (i, name ∷ seen)))
        (some (str v ∷ [])) (header_claims hs (name ∷ seen)) (Reads-one (str v)) p i
  where
    through :
        (o : Option String)
        → identity_part ((o >>= λ i'. some (i', name ∷ seen)) >>= read_headers hs)
          ≡ (o >>= λ i'. identity_part (read_headers hs (i', name ∷ seen)))
    through none = refl
    through (some i') = refl

headers-Reads :
    (hs : List (String × List String)) (seen : List String)
    → Reads (λ i. identity_part (read_headers hs (i, seen))) (header_claims hs seen)
unfolding read_headers
headers-Reads [] seen i = Reads-empty i
headers-Reads ((name, values) ∷ hs) seen i =
    elim (Bool-cases (has (to_lower name) session_headers)) [
      | inr other ↦ simp other (headers-Reads hs seen i)
      | inl session ↦ elim (Bool-cases (has (to_lower name) seen)) [
        | inl again ↦ simp (session, again)
        | inr new ↦
            simp (session, new)
              (header-Reads (to_lower name) hs seen (single_value values)
                (headers-Reads hs (to_lower name ∷ seen)) i)
      ]
    ]

present-Reads : (v : Option Value) → Reads (add_present v) (claim v)
present-Reads none i = Reads-empty i
present-Reads (some v) i = Reads-one v i

raw-Reads : (j : Json) (o : Option String) → Reads (add_raw j o) (raw_claim j o)
raw-Reads j none i = Reads-empty i
raw-Reads j (some raw) i = Reads-bind (j.decode raw) (λ v. add v) (λ v. some (v ∷ [])) Reads-one i

fields-Reads :
    (j : Json) (m : List (String × String)) (names : List String)
    → Reads (read j m names) (field_claims j m names)
unfolding read
fields-Reads j m [] i = Reads-empty i
fields-Reads j m (name ∷ names) i =
    Reads-both (add_raw j (find_raw name m)) (read j m names) (raw_claim j (find_raw name m))
      (field_claims j m names) (raw-Reads j (find_raw name m)) (fields-Reads j m names) i

container-Reads : (j : Json) (o : Option String) → Reads (read_container j o) (container_claims j o)
container-Reads j none i = Reads-empty i
container-Reads j (some raw) i =
    Reads-if (raw == "null") some _ (some []) _ Reads-empty
      (Reads-bind (object_fields j raw) (λ m. read j m nested_names)
        (λ m. field_claims j m nested_names) (λ m. fields-Reads j m nested_names))
      i

object-Reads : (j : Json) (m : List (String × String)) → Reads (read_object j m) (object_claims j m)
object-Reads j m i =
    Reads-both (read j m body_names) _ (field_claims j m body_names) _ (fields-Reads j m body_names)
      (Reads-both (read_container j (find_raw "metadata" m))
        (read_container j (find_raw "extra_body" m)) _ _ (container-Reads j (find_raw "metadata" m))
        (container-Reads j (find_raw "extra_body" m)))
      i

body-Reads : (j : Json) (raw : String) → Reads (read_body j raw) (body_claims j raw)
unfolding read_body
body-Reads j raw i =
    Reads-if (is_empty raw) some _ (some []) _ Reads-empty
      (Reads-bind (object_fields j raw) (read_object j) (object_claims j) (object-Reads j)) i

-- The readers compare exactly the claims.
pub identity_of-claims :
    (j : Json) (r : ExecutorRequest) → identity_of j r ≡ (claims j r >>= λ vs. agree vs "")
unfolding claims
identity_of-claims j r =
    through (read_headers r.headers ("", []))
    ∙ Reads-both (λ i. identity_part (read_headers r.headers (i, []))) _
        (header_claims r.headers []) _ (headers-Reads r.headers [])
        (Reads-both (add_present (get_field "execution_session_id" r.metadata))
          (read_body j (body_of r)) _ _
          (present-Reads (get_field "execution_session_id" r.metadata)) (body-Reads j (body_of r)))
        ""
  where
    through :
        (o : Option (String × List String))
        → (o >>= λ h.
            add_present (get_field "execution_session_id" r.metadata) h.0
            >>= read_body j (body_of r))
          ≡ (identity_part o >>= λ i.
              add_present (get_field "execution_session_id" r.metadata) i
              >>= read_body j (body_of r))
    through none = refl
    through (some h) = refl
