-- ===== src/Registry/Fetch.antt =====
-- go/models_remote.go, `fetch`, and `readBounded` of go/gateway_client.go. Files and HTTP are
-- parameters; a reader is what it delivers, and whether it then fails.
use cmdcode_go.Base.{
  ℕ, ◌≤◌, ◌≡◌, refl, sym, subst, String, ◌==◌, Bool, true, false, not, Option, none, some, len, ltb,
  eqb, is_empty, if◌then◌else◌, Result, ok, err, ◌>>=◌, ok_inj, arith,
}
use cmdcode_go.Models.Roster.{RemoteModelFile}
use cmdcode_go.Registry.{SourceConfig, Fetched}

pub record Reader : Type 0 where
  pub content : String
  pub broken : Bool

pub data FetchError : Type 0 where
  no_file bad_address no_response too_long read_failed : FetchError
  bad_status : ℕ → FetchError

-- What is called of `os` and `net/http`: a file, and the status and the body at an address, none if it
-- is no address or if there is no answer.
pub record Outside : Type 0 where
  pub open_file : String → Option Reader
  pub accepts : String → Bool
  pub get : String → Option (ℕ × Reader)

-- One byte more than the limit is read at most, so a failure after it is not seen.
unfoldable pub read_bounded : ℕ → Reader → Result FetchError String
read_bounded limit r =
    if ltb limit (len r.content)
    then err too_long
    else if r.broken
    then err read_failed
    else ok r.content

abbrev pub max_roster_bytes : ℕ
max_roster_bytes = 4_194_304

abbrev pub default_models_url : String
default_models_url = "https://raw.githubusercontent.com/megumin31/cpa-cmdcode-go/main/models.json"

abbrev opened : Option Reader → Result FetchError Reader
opened none = err no_file
opened (some r) = ok r

abbrev responded : Option (ℕ × Reader) → Result FetchError Reader
responded none = err no_response
responded (some (status, body)) = if eqb status 200 then ok body else err (bad_status status)

abbrev url_of : SourceConfig → String
url_of cfg = if cfg.models_url == "" then default_models_url else cfg.models_url

abbrev source_reader : Outside → SourceConfig → Result FetchError Reader
source_reader o cfg =
    if not (is_empty cfg.models_file)
    then opened (o.open_file cfg.models_file)
    else if o.accepts (url_of cfg)
    then responded (o.get (url_of cfg))
    else err bad_address

unfoldable pub fetch : Outside → SourceConfig → Result FetchError String
unfolding read_bounded
fetch o cfg = source_reader o cfg >>= read_bounded max_roster_bytes

-- What a refresh goes on with: nothing, or what the JSON decoder makes of the bytes.
abbrev pub fetched : (String → Option RemoteModelFile) → Result FetchError String → Fetched
fetched decode (err e) = none
fetched decode (ok raw) = some (decode raw)

passes :
    (long broken : Bool) (content raw : String)
    → (if long then err too_long else if broken then err read_failed else ok content) ≡ ok raw
    → (long ≡ false) × (broken ≡ false) × (raw ≡ content)
passes true broken content raw h = cc
passes false true content raw h = cc
passes false false content raw h = (refl, refl, sym (ok_inj h))

-- What is read is all that the reader has, and never longer than the limit.
pub read_bounded-le :
    (limit : ℕ) (r : Reader) (raw : String)
    → read_bounded limit r ≡ ok raw
    → (raw ≡ r.content) × (len raw ≤ limit) × (r.broken ≡ false)
unfolding read_bounded
read_bounded-le limit r raw h =
    let (short, whole, same) = passes (ltb limit (len r.content)) r.broken r.content raw h in
    let fits : len r.content ≤ limit = ground arith in
    (same, subst (λ x. len x ≤ limit) (sym same) fits, whole)
