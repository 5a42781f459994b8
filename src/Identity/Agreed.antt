-- ===== src/Identity/Agreed.antt =====
-- `explicitSessionKey` against what it promises.
use cmdcode_go.Base.{
  String, ◌==◌, ◌≡◌, ◌≢◌, ◌↔◌, ◌⊎◌, inl, inr, refl, sym, ap, ◌∙◌, Bool, true, false, not, Option,
  none, some, Bool-cases, List, [], ◌∷◌, All, arith, eq_iff,
}
use cmdcode_go.Base.Options.{◌>>=◌, >>=-eq-some, stops_if, ◌>>◌}
use cmdcode_go.Wire.{Value, null, bool, int, frac, str, arr, obj, get_field}
use cmdcode_go.Session.{Key}
use cmdcode_go.Identity.{
  ExecutorRequest, Json, valid_session_value, add, caller_of, key_of, identity_of,
  explicit_session_key,
}
use cmdcode_go.Identity.Claims.{claims, agree, identity_of-claims}

-- There is a claim, and all are this valid identity.
pub record AreAgreed (id : String) (vs : List Value) : Type 0 where
  pub valid : valid_session_value id ≡ true
  pub some_claim : vs ≢ []
  pub same : All (λ v. v ≡ str id) vs

-- A request that names a conversation: a caller and a credential that are valid, and well-formed
-- claims that agree.
pub record Names (j : Json) (r : ExecutorRequest) (key : Key) : Type 0 where
  pub caller : get_field "caller_scope" r.metadata ≡ some (str key.caller)
  pub caller_valid : valid_session_value key.caller ≡ true
  pub auth : key.auth ≡ r.auth_id
  pub auth_valid : valid_session_value r.auth_id ≡ true
  pub evidence : (vs : List Value) × (claims j r ≡ some vs) × AreAgreed key.id vs

valid-ne-empty : (s : String) → valid_session_value s ≡ true → s ≢ ""
unfolding valid_session_value
valid-ne-empty s h e = ground (arith, eq_iff s "")

add-eq-some :
    (v : Value) (i s : String)
    → add v i ≡ some s
    → (v ≡ str s) × (valid_session_value s ≡ true) × ((i ≡ "") ⊎ (i ≡ s))
unfolding add
add-eq-some null i s h = cc
add-eq-some (bool b) i s h = cc
add-eq-some (int n) i s h = cc
add-eq-some (frac n t) i s h = cc
add-eq-some (arr vs) i s h = cc
add-eq-some (obj fs) i s h = cc
add-eq-some (str t) i s h = (
  ground (arith, eq_iff i "", eq_iff i t),
  ground (arith, eq_iff i "", eq_iff i t),
  ground (arith, eq_iff i "", eq_iff i t),
)

add_same :
    (i s : String) → valid_session_value s ≡ true → (i ≡ "") ⊎ (i ≡ s) → add (str s) i ≡ some s
unfolding add
add_same i s v h = ground (arith, eq_iff i "", eq_iff i s)

agree_sound :
    (v : Value) (vs : List Value) (i id : String)
    → agree (v ∷ vs) i ≡ some id
    → AreAgreed id (v ∷ vs) × ((i ≡ "") ⊎ (i ≡ id))
unfolding agree
agree_sound v [] i id h =
    let (x, first, last) = >>=-eq-some (add v i) _ h in
    let (e, valid, from) = add-eq-some v i id (first ∙ last) in
    (record { valid = valid; some_claim = λ q. cc; same = (e, tt) }, from)
agree_sound v (w ∷ ws) i id h =
    let (x, first, rest) = >>=-eq-some (add v i) _ h in
    let (e, valid, from) = add-eq-some v i x first in
    let (agreed, next) = agree_sound w ws x id rest in
    let same : x ≡ id = elim next [ inl q ↦ absurd (valid-ne-empty x valid q) | inr q ↦ q ] in
    (
      record { valid = agreed.valid; some_claim = λ q. cc; same = (e ∙ ap str same, agreed.same) },
      rw (← same) from,
    )

agree_again :
    (vs : List Value) (id : String)
    → valid_session_value id ≡ true
    → All (λ v. v ≡ str id) vs
    → agree vs id ≡ some id
unfolding agree
agree_again [] id h a = refl
agree_again (v ∷ vs) id h a =
    ap (λ x. add x id >>= agree vs) a.0
    ∙ ap (λ o. o >>= agree vs) (add_same id id h (inr refl))
    ∙ agree_again vs id h a.1

agree_complete : (vs : List Value) (id : String) → AreAgreed id vs → agree vs "" ≡ some id
unfolding agree
agree_complete [] id a = absurd (a.some_claim refl)
agree_complete (v ∷ vs) id a =
    ap (λ x. add x "" >>= agree vs) a.same.0
    ∙ ap (λ o. o >>= agree vs) (add_same "" id a.valid (inl refl))
    ∙ agree_again vs id a.valid a.same.1

agree_named : (vs : List Value) (id : String) → agree vs "" ≡ some id → id ≢ "" → AreAgreed id vs
unfolding agree
agree_named [] id h n = absurd (n (let e : "" ≡ id = cc in sym e))
agree_named (v ∷ vs) id h n = (agree_sound v vs "" id h).0

caller_of-eq-some :
    (o : Option Value) (s : String)
    → caller_of o ≡ some s
    → (o ≡ some (str s)) × (valid_session_value s ≡ true)
caller_of-eq-some none s h = cc
caller_of-eq-some (some null) s h = cc
caller_of-eq-some (some (bool b)) s h = cc
caller_of-eq-some (some (int n)) s h = cc
caller_of-eq-some (some (frac n t)) s h = cc
caller_of-eq-some (some (arr vs)) s h = cc
caller_of-eq-some (some (obj fs)) s h = cc
caller_of-eq-some (some (str t)) s h = (ground arith, ground arith)

key_of-eq-some :
    (caller auth id : String) (key : Key)
    → key_of caller auth id ≡ some key
    → (id ≢ "") × (key ≡ record { caller = caller; auth = auth; id = id })
key_of-eq-some caller auth id key h = elim (Bool-cases (id == "")) [
  | inl y ↦ absurd (ground arith)
  | inr n ↦ ((λ e. ground (arith, eq_iff id "")), ground arith)
]

stops_if-eq-some :
    {Y : Type 0} (b : Bool) (o : Option Y) (y : Y)
    → (stops_if (not b) >> o) ≡ some y
    → (b ≡ true) × (o ≡ some y)
stops_if-eq-some true o y h = (refl, h)
stops_if-eq-some false o y h = cc

-- A request is given a conversation exactly when it names one: the caller and the credential are
-- valid, and every header, field of the metadata and field of the body that can name a conversation
-- is well formed and names this one, and at least one does.
pub explicit_session_key_iff :
    (j : Json) (r : ExecutorRequest) (key : Key)
    → (explicit_session_key j r ≡ some key) ↔ Names j r key
unfolding explicit_session_key
explicit_session_key_iff j r key = (
  λ h.
      let (caller, c, h₁) = >>=-eq-some (caller_of (get_field "caller_scope" r.metadata)) _ h in
      let (auth, h₂) = stops_if-eq-some (valid_session_value r.auth_id) _ key h₁ in
      let (id, i, h₃) = >>=-eq-some (identity_of j r) _ h₂ in
      let (there, caller_valid) =
        caller_of-eq-some (get_field "caller_scope" r.metadata) caller c in
      let (named, k) = key_of-eq-some caller r.auth_id id key h₃ in
      let (vs, gathered, agreed) =
        >>=-eq-some (claims j r) (λ vs. agree vs "") (sym (identity_of-claims j r) ∙ i) in
      rw k (record {
        caller = there;
        caller_valid = caller_valid;
        auth = refl;
        auth_valid = auth;
        evidence = (vs, gathered, agree_named vs id agreed named);
      }),
  λ n.
      let (vs, gathered, agreed) = n.evidence in
      let found : identity_of j r ≡ some key.id =
        identity_of-claims j r
        ∙ ap (λ o. o >>= λ us. agree us "") gathered
        ∙ agree_complete vs key.id agreed in
      let unempty : (key.id == "") ≡ false =
        let x = valid-ne-empty key.id agreed.valid in ground (arith, eq_iff key.id "") in
      simp (n.caller, n.caller_valid, n.auth_valid, found, unempty)
        (ap (λ a. some (record key { auth = a })) (sym n.auth)),
)
