-- ===== src/KeyApi.antt =====
-- The keyserver's requests: platform/keysystem/keyserver/keyapi/api.go, with the verifiers of
-- platform/keysystem/keyserver/verifier and the handlers of keyapi/keyserver.go.
pub mod Authentication
pub mod Requests
pub mod ServerCert
pub mod Serving
use text.Mathlib.Text.{starts_with}
use Prim.Native.String.{slice, len}
use homeworld.Common.{
  ℕ, suc, ◌-◌, ◌/◌, ◌%◌, String, ap, Bool, not, ◌&&◌, Option, none, some, List, [], ◌∷◌, ◌==◌,
  if◌then◌else◌, Error, message, operation_forbidden, Result, ok, err, panic, ◌>>=◌, ◌>>◌, guard,
}
use homeworld.Common.Dict.{lookup}
use homeworld.Token
use homeworld.Token.{Tokens}
use homeworld.Authority.{public_key}
use homeworld.Authority.Crypto.{Ip}
use homeworld.Authority.Tls.{VerifiedChains, has_cert_attempt, verify_cert}
use homeworld.Util.RemoteAddress.{parse_remote_address}
use homeworld.Account.{Account, Context, Packages, Reading, get_account}
use homeworld.Operation.{Json, invoke_api_operation_set}

-- What the source reads of an `http.Request`. `bootstrap_token` is the header `X-Bootstrap-Token`,
-- "" where it is missing, and `body` is what reading the body gives.
pub record Request : Type 0 where
  pub path : String
  pub bootstrap_token : String
  pub tls : VerifiedChains
  pub remote_addr : String
  pub body : Result String

-- verifier/verifier.go: the interface, over the readings of the clock and the tokens.
pub record Verifier : Type 0 where
  pub has_attempt : Request → Bool
  pub verify : Request → Tokens → Result String × Tokens

-- What an API request reads: the clock when a token is claimed, and what each operation reads.
pub record Readings : Type 0 where
  pub claim : ℕ
  pub operation : ℕ → Reading

module _ (p : Packages) (wrap : String → Error → Error) (ctx : Context) where
  abbrev pub token_verifier : ℕ → Verifier
  token_verifier now = record {
    has_attempt = λ r. Token.has_attempt r.bootstrap_token;
    verify = λ r s. Token.verify now r.bootstrap_token s;
  }

  abbrev pub authority_verifier : Verifier
  authority_verifier = record {
    has_attempt = λ r. has_cert_attempt r.tls;
    verify = λ r s. (
      verify_cert p.x509 (wrap "certificate not valid under this authority")
          ctx.authentication_authority r.tls,
      s,
    );
  }

  -- `allowedIp != nil && !allowedIp.Equal(ip)`
  abbrev pub check_ip : Option Ip → Ip → Result (Unit {0})
  check_ip none ip = ok tt
  check_ip (some allowed) ip =
      guard (p.net.ip_equal allowed ip)
        (message "attempt to interact with API from wrong IP address: %v instead of %v")

  unfoldable pub verify_account_ip : Account → Request → Result (Unit {0})
  verify_account_ip account request = do
    ip ← parse_remote_address p.net request.remote_addr
    check_ip account.limit_ip ip

  -- What follows the verification of a principal.
  unfoldable pub admit : Request → String → Result Account
  unfolding verify_account_ip
  admit request principal = do
    ac ← get_account ctx principal
    guard (not ac.disable_direct_auth) (message "account has disabled direct authentication: %s")
    verify_account_ip ac request
    ok ac

  abbrev admit_verified : Request → Result String × Tokens → Result Account × Tokens
  admit_verified request (principal, s) = (do name ← principal; admit request name, s)

  -- The loop over the verifiers: the first that has an attempt decides.
  unfoldable pub authenticate_by : List Verifier → Request → Tokens → Result Account × Tokens
  authenticate_by [] request s = (err (message "no authentication method found in request"), s)
  authenticate_by (v ∷ verifiers) request s =
      if v.has_attempt request
      then admit_verified request (v.verify request s)
      else authenticate_by verifiers request s

  unfoldable pub attempt_authentication : ℕ → Request → Tokens → Result Account × Tokens
  unfolding authenticate_by
  attempt_authentication now request s =
      authenticate_by (token_verifier now ∷ authority_verifier ∷ []) request s

  abbrev perform_as :
      Json → (ℕ → Reading) → String → Result Account × Tokens → Result String × Tokens
  perform_as json readings body (ok ac, s) = invoke_api_operation_set p ctx json readings ac body s
  perform_as json readings body (err e, s) = (err e, s)
  perform_as json readings body (panic t, s) = (panic t, s)

  -- `HandleAPIRequest`, up to the response that is written.
  unfoldable pub handle_api_request : Json → Readings → Request → Tokens → Result String × Tokens
  unfolding attempt_authentication
  handle_api_request json t request s = elim request.body [
    | ok body ↦ perform_as json t.operation body (attempt_authentication t.claim request s)
    | err e ↦ (err e, s)
    | panic m ↦ (panic m, s)
  ]

  unfoldable pub handle_pub_request : String → Result String
  handle_pub_request authority_name = elim (lookup authority_name ctx.authorities) [
    | none ↦ err (message "no such authority %s")
    | some authority ↦ ok (public_key authority)
  ]

  abbrev static_file : (String → Result String) → String → Option String → Result String
  static_file read name none = err (message "no such static file %s")
  static_file read name (some filepath) =
      if filepath == "" then err (message "no such static file %s") else read filepath

  -- `read` is `ioutil.ReadFile`.
  unfoldable pub handle_static_request : (String → Result String) → String → Result String
  handle_static_request read static_name =
      static_file read static_name (lookup static_name ctx.static_files)

  -- keyapi/keyserver.go: the status and the body of the response. A panic of a handler closes the
  -- connection: `none`. The text of the error, which the body of a 404 repeats, is left out, and the
  -- response is taken to reach the client.
  abbrev pub respond_api : Result String → Option (ℕ × String)
  respond_api (ok body) = some (200, body)
  respond_api (err (operation_forbidden principal api)) =
      some (403, "Particular operation forbidden.")
  respond_api (err e) = some (400, "Request processing failed. See server logs for details.")
  respond_api (panic t) = none

  abbrev pub respond_public : Result String → Option (ℕ × String)
  respond_public (ok body) = some (200, body)
  respond_public (err e) = some (404, "Request processing failed: ")
  respond_public (panic t) = none

  unfoldable pub serve :
      Json → (String → Result String) → Readings → Request → Tokens → Option (ℕ × String) × Tokens
  unfolding handle_api_request handle_pub_request handle_static_request
  serve json read t request s =
      if request.path == "/apirequest"
      then (let (r, s') = handle_api_request json t request s in (respond_api r, s'))
      else (if starts_with request.path "/pub/"
          then (respond_public (handle_pub_request (slice request.path 5 (len request.path))), s)
          else (if starts_with request.path "/static/"
              then (
                respond_public
                    (handle_static_request read (slice request.path 8 (len request.path))),
                s,
              )
              else (some (404, "404 page not found\n"), s)))
