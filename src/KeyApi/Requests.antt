-- ===== src/KeyApi/Requests.antt =====
-- The whole of an HTTP request to the keyserver: keyapi/api.go over operation/operation.go.
use homeworld.Common.{
  ℕ, String, ◌≡◌, refl, ◌∙◌, inl, inr, some, List, arith, ◌==◌, Bool-cases, Error, message,
  operation_forbidden, forbidden_by_server, not_exist, foreign, Result, ok, err, panic, length,
}
use homeworld.Common.Dict.{Dict}
use homeworld.Token
use homeworld.Token.{Tokens}
use homeworld.Token.Registry.{verify_keeps}
use homeworld.Account.{Account, Context, Packages, Reading}
use homeworld.Operation.{Json, invoke_api_operation_set}
use homeworld.Operation.Authorization.{Permitted, invoke_api_operation_set_sound}
use homeworld.Operation.Registry.{IsSound, invoke_api_operation_set-IsSound}
use homeworld.KeyApi.{
  Request, Readings, attempt_authentication, handle_api_request, serve, respond_api, perform_as,
  starts_with, has_cert_attempt,
}

module _ (p : Packages) (wrap : String → Error → Error) (ctx : Context) (json : Json) where
  perform_as_sound :
      (readings : ℕ → Reading) (body : String) (found : Result Account) (s : Tokens)
      {response : String}
      → (perform_as p wrap ctx json readings body (found, s)).0 ≡ ok response
      → (a : Account) × (found ≡ ok a)
        × ((invoke_api_operation_set p ctx json readings a body s).0 ≡ ok response)
  perform_as_sound readings body (ok a) s h = (a, refl, h)
  perform_as_sound readings body (err e) s h = cc
  perform_as_sound readings body (panic t) s h = cc

  handle_sound :
      (t : Readings) (request : Request) (s : Tokens) {response : String} (read : Result String)
      → request.body ≡ read
      → (handle_api_request p wrap ctx json t request s).0 ≡ ok response
      → (body : String) × (read ≡ ok body)
        × ((perform_as p wrap ctx json t.operation body
              (attempt_authentication p wrap ctx t.claim request s)).0
            ≡ ok response)
  unfolding handle_api_request
  handle_sound t request s (ok body) e h = (body, refl, rw (e, handle_api_request) at h)
  handle_sound t request s (err x) e h = let k = rw (e, handle_api_request) at h in cc
  handle_sound t request s (panic x) e h = let k = rw (e, handle_api_request) at h in cc

  respond_api-ok :
      (r : Result String) {response : String}
      → respond_api p wrap ctx r ≡ some (200, response)
      → r ≡ ok response
  respond_api-ok (ok body) h = ground arith
  respond_api-ok (err (operation_forbidden principal api)) h = ground arith
  respond_api-ok (err (message text)) h = ground arith
  respond_api-ok (err forbidden_by_server) h = ground arith
  respond_api-ok (err (not_exist text)) h = ground arith
  respond_api-ok (err (foreign text e)) h = ground arith
  respond_api-ok (panic t) h = ground arith

  api_response :
      (read : String → Result String) (t : Readings) (request : Request) (s : Tokens)
      → request.path ≡ "/apirequest"
      → respond_api p wrap ctx (handle_api_request p wrap ctx json t request s).0
        ≡ (serve p wrap ctx json read t request s).0
  unfolding serve
  api_response read t request s path = rw path

  -- An API request is answered with 200 only if it comes from an account, and its body is a list of
  -- operations that is permitted to that account; the answer has one result for each operation.
  pub serve_sound :
      (read : String → Result String) (t : Readings) (request : Request) (s : Tokens)
      {response : String}
      → request.path ≡ "/apirequest"
      → (serve p wrap ctx json read t request s).0 ≡ some (200, response)
      → (a : Account) × ((attempt_authentication p wrap ctx t.claim request s).0 ≡ ok a)
        × ((body : String) × (ops : List (Dict String)) × (results : List String) × (request.body
              ≡ ok body)
            × (json.decode_operations body ≡ ok ops)
            × ((b : Account) × Permitted ctx a ops b)
            × (json.encode_texts results ≡ ok response)
            × (length results ≡ length ops))
  serve_sound read t request s path h =
      let handled = respond_api-ok _ (api_response read t request s path ∙ h) in
      let (body, has_body, performed) = handle_sound t request s request.body refl handled in
      let (a, authentic, answered) = perform_as_sound t.operation body _ _ performed in
      let (ops, decoded, permitted, (results, encoded, count)) =
        invoke_api_operation_set_sound p ctx json t.operation a body _ answered in
      (a, authentic, (body, ops, results, has_body, decoded, permitted, encoded, count))

  verify-IsSound :
      (now : ℕ) (header : String) (s : Tokens)
      → IsSound ctx s
      → IsSound ctx (Token.verify now header s).1
  verify-IsSound now header s v =
      let (registry, next) = verify_keeps now header s in
      record {
        valid = record {
          map = rw registry v.valid.map;
          keyed = rw registry v.valid.keyed;
          unshared = rw (registry, next) v.valid.unshared;
        };
        members = rw registry v.members;
      }

  attempt-IsSound :
      (now : ℕ) (request : Request) (s : Tokens)
      → IsSound ctx s
      → IsSound ctx (attempt_authentication p wrap ctx now request s).1
  unfolding attempt_authentication
  attempt-IsSound now request s v = elim (Bool-cases (Token.has_attempt request.bootstrap_token)) [
    | inl tok ↦ rw tok (verify-IsSound now request.bootstrap_token s v)
    | inr no_token ↦ elim (Bool-cases (has_cert_attempt request.tls)) [
      | inl cert ↦ rw (no_token, cert) v
      | inr no_cert ↦ rw (no_token, no_cert) v
    ]
  ]

  perform_as-IsSound :
      (readings : ℕ → Reading) (body : String) (found : Result Account) (s : Tokens)
      → IsSound ctx s
      → IsSound ctx (perform_as p wrap ctx json readings body (found, s)).1
  perform_as-IsSound readings body (ok a) s v =
      invoke_api_operation_set-IsSound p ctx json readings a body s v
  perform_as-IsSound readings body (err e) s v = v
  perform_as-IsSound readings body (panic t) s v = v

  handle-IsSound :
      (t : Readings) (request : Request) (s : Tokens) (read : Result String)
      → request.body ≡ read
      → IsSound ctx s
      → IsSound ctx (handle_api_request p wrap ctx json t request s).1
  unfolding handle_api_request
  handle-IsSound t request s (ok body) e v =
      rw (e, handle_api_request)
        (perform_as-IsSound t.operation body _ _ (attempt-IsSound t.claim request s v))
  handle-IsSound t request s (err x) e v = rw (e, handle_api_request) v
  handle-IsSound t request s (panic x) e v = rw (e, handle_api_request) v

  -- If the registry is well formed and its tokens are for members of the groups, this stays so,
  -- whatever the request, and whether it succeeds, fails or panics.
  pub serve-IsSound :
      (read : String → Result String) (t : Readings) (request : Request) (s : Tokens)
      → IsSound ctx s
      → IsSound ctx (serve p wrap ctx json read t request s).1
  unfolding serve
  serve-IsSound read t request s v = elim (Bool-cases (request.path == "/apirequest")) [
    | inl api ↦ rw api (handle-IsSound t request s request.body refl v)
    | inr other ↦ elim (Bool-cases (starts_with request.path "/pub/")) [
      | inl public ↦ rw (other, public) v
      | inr not_public ↦ elim (Bool-cases (starts_with request.path "/static/")) [
        | inl static ↦ rw (other, not_public, static) v
        | inr nothing ↦ rw (other, not_public, nothing) v
      ]
    ]
  ]
