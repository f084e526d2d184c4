-- ===== src/Keyclient/Target.antt =====
-- The requests of a client: platform/keysystem/api/endpoint, api/server and api/reqtarget.
use Prim.Native.String.{◌++◌ as str_append}
use homeworld.Common.{
  String, not, List, [], ◌∷◌, map, ◌==◌, eqb, if◌then◌else◌, Error, message, forbidden_by_server,
  Result, ok, err, guard, length,
}
use homeworld.Common.Dict.{Dict}
use homeworld.Operation.{Json}
use homeworld.Keyclient.Effects.{
  Errors, Credential, nobody, token, keygrant_cert, HttpResponse, Os, Act, ◌>>=◌, ◌>>◌, give, tell,
  wrapped, wrapping,
}

-- `reqtarget.Request`
pub record Request : Type 0 where
  pub api : String
  pub body : String

-- `RequestTarget`, by its method `SendRequests`.
abbrev pub RequestTarget : Type 0 → Type 0
RequestTarget W = List Request → Act W (List String)

-- One element of the JSON that is sent.
abbrev pub entries : Request → Dict String
entries r = ("api", r.api) ∷ ("body", r.body) ∷ []

abbrev pub only : List String → Result String
only (str ∷ []) = ok str
only _ = err (message "wrong number of results: %d != 1")

-- `reqtarget.SendRequest`
unfoldable pub send_request : {W : Type 0} → RequestTarget W → String → String → Act W String
send_request a api body = do strs ← a (record { api = api; body = body } ∷ []); give (only strs)

-- The responses must be as many as the requests, of which there is one at least.
abbrev pub checked_rest : List Request → List String → Result (List String)
checked_rest sent [] = err (message "count mismatch during impersonation response verification")
checked_rest sent (first ∷ rest) =
    if eqb (length (first ∷ rest)) (length sent)
    then ok rest
    else err (message "count mismatch during impersonation response verification")

-- `impersonatedTarget.SendRequests`
unfoldable pub impersonated : {W : Type 0} → RequestTarget W → String → String → RequestTarget W
impersonated base api user reqs = do
  responses ← base (record { api = api; body = user } ∷ reqs)
  give (checked_rest (record { api = api; body = user } ∷ reqs) responses)

-- `reqtarget.Impersonate`: the target is tried before it is returned.
unfoldable pub impersonate_target :
    {W : Type 0} → (Error → Error) → RequestTarget W → String → String → Act W (RequestTarget W)
unfolding impersonated
impersonate_target wrap rt api user = do
  give (guard (not (api == "")) (message "invalid API call"))
  give (guard (not (user == "")) (message "invalid user"))
  _ ← wrapping wrap (impersonated rt api user [])
  give (ok (impersonated rt api user))

module _ {W : Type 0} (os : Os W) (errors : Errors) (json : Json) (base_url : String) where
  abbrev response_body : HttpResponse → Result String
  response_body response =
      if eqb response.status 200
      then wrapped (errors.wrap "while receiving response") response.body
      else (if eqb response.status 403
          then err forbidden_by_server
          else err (message "unexpected status code: %d"))

  -- `ServerEndpoint.Request`; the path is without its leading slash, and the error of
  -- `http.NewRequest`, of a URL that does not parse, is left out.
  unfoldable pub endpoint_request : Credential → String → String → String → Act W String
  endpoint_request credential path verb reqbody = do
    response ← wrapping (errors.wrap "while processing request") (
        tell (
          os.send (record {
            verb = verb;
            url = str_append base_url path;
            credential = credential;
            body = reqbody;
          })))
    give (response_body response)

  -- `ServerEndpoint.PostJSON` of the requests, into a list of strings.
  unfoldable pub post_json : Credential → String → List Request → Act W (List String)
  unfolding endpoint_request
  post_json credential path reqs = do
    reqbody ← give (
        wrapped (errors.wrap "while marshalling json for request")
          (json.encode_operations (map entries reqs)))
    body ←
        wrapping (errors.wrap "while posting request")
          (endpoint_request credential path "POST" reqbody)
    give (wrapped (errors.wrap "while unmarshalling json from response") (json.decode_texts body))

  -- `authenticated.SendRequests`
  unfoldable pub authenticated : Credential → RequestTarget W
  unfolding post_json
  authenticated credential reqs = do
    outputs ← post_json credential "apirequest" reqs
    give (
        guard (eqb (length outputs) (length reqs))
          (message "while finalizing response: wrong number of responses"))
    give (ok outputs)

  -- `Keyserver.AuthenticateWithToken` and `Keyserver.AuthenticateWithCert`
  unfoldable pub authenticate_with_token : String → Result (RequestTarget W)
  unfolding authenticated
  authenticate_with_token given =
      if given == "" then err (message "invalid token") else ok (authenticated (token given))

  unfoldable pub authenticate_with_cert : String → Result (RequestTarget W)
  unfolding authenticated
  authenticate_with_cert cert = ok (authenticated (keygrant_cert cert))

  -- `Keyserver.GetStatic` and `Keyserver.GetPubkey`
  unfoldable pub get_static : String → Act W String
  unfolding endpoint_request
  get_static staticname = do
    give (guard (not (staticname == "")) (message "static filename is empty"))
    endpoint_request nobody (str_append "static/" staticname) "GET" ""

  unfoldable pub get_pubkey : String → Act W String
  unfolding endpoint_request
  get_pubkey authorityname = do
    give (guard (not (authorityname == "")) (message "authority name is empty"))
    endpoint_request nobody (str_append "pub/" authorityname) "GET" ""
