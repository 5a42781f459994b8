-- ===== src/Gateway.antt =====
-- go/gateway_client.go, `Open`: the request to the gateway and its headers. The transport is a
-- parameter. The envelope is the request that its bytes encode.
use cmdcode_go.Base.{
  ℕ, String, ◌==◌, ◌^^◌, Bool, not, Option, none, some, List, [], ◌∷◌, Result, ok, err, ◌>>◌,
  fails_if,
}
use cmdcode_go.Config.{PluginConfig}
use cmdcode_go.Config.Sources.{Machine, resolve_base_url, cli_version, project_slug}
use cmdcode_go.Request.Envelope.{GenerateRequest}
use cmdcode_go.Decoder.Consume.{Ending}

pub record HttpRequest : Type 0 where
  pub url : String
  pub headers : List (String × String)
  pub body : GenerateRequest

-- A response: its status, the lines of its body and how the body ends, and the first bytes of it.
pub record HttpResponse : Type 0 where
  pub status : ℕ
  pub lines : List String
  pub ending : Ending
  pub sample : String

-- `http.NewRequestWithContext` accepts an address or not; `Do` brings a response or fails.
pub record Transport : Type 0 where
  pub accepts : String → Bool
  pub send : HttpRequest → Option HttpResponse

pub data GatewayError : Type 0 where
  bad_address missing_identity request_failed : GatewayError

abbrev pub generate_route : String
generate_route = "/alpha/generate"

abbrev pub gateway_request : Machine → PluginConfig → GenerateRequest → String → HttpRequest
gateway_request w cfg envelope key = record {
  url = resolve_base_url w cfg ^^ generate_route;
  headers =
      ("Content-Type", "application/json")
      ∷ ("User-Agent", "cli")
      ∷ ("x-cli-environment", "production")
      ∷ ("x-command-code-version", cli_version w cfg)
      ∷ ("x-project-slug", project_slug cfg)
      ∷ ("x-taste-learning", "false")
      ∷ ("x-session-id", envelope.thread_id)
      ∷ ("Authorization", "Bearer " ^^ key)
      ∷ [];
  body = envelope;
}

abbrev pub answered : Option HttpResponse → Result GatewayError HttpResponse
answered none = err request_failed
answered (some response) = ok response

unfoldable pub open_response :
    Machine → Transport → PluginConfig → GenerateRequest → String → Result GatewayError HttpResponse
open_response w t cfg envelope key = do
  fails_if (not (t.accepts (resolve_base_url w cfg ^^ generate_route))) bad_address
  fails_if (envelope.thread_id == "") missing_identity
  answered (t.send (gateway_request w cfg envelope key))
