-- ===== src/Keygateway.antt =====
-- platform/keysystem/keygateway/keygateway.go, with platform/keysystem/api/config.go: the gateway that
-- knc runs for a user, whose requests it sends on with the certificate of its machine. Of `Client`,
-- only the world is used.
use Prim.Native.String.{◌++◌ as str_append}
use homeworld.Common.{
  ◌+◌, ◌-◌, ◌/◌, String, ap, not, List, ◌++◌, ◌==◌, eqb, Error, message, Result, ok, err, panic,
  guard, length,
}
use homeworld.Authority.Crypto.{X509, Certificate}
use homeworld.Authority.Pem.{load_x509_cert_from_pem}
use homeworld.Operation.{Json}
use homeworld.Keyclient.Effects.{Errors, Os, Act, ◌>>=◌, ◌>>◌, give, ask, tell, wrapped, wrapping}
use homeworld.Keyclient.Target.{Request, RequestTarget, impersonate_target, authenticate_with_cert}
pub mod Knc
pub mod Roundtrip
pub mod Exchange

-- `server.Keyserver`: the authority that its certificate is checked against, and the base URL.
pub record Keyserver : Type 0 where
  pub authority : Certificate
  pub base_url : String

-- What the gateway has besides: the environment, the streams, and the JSON of requests.
pub record Gateway (W : Type 0) : Type 0 where
  pub getenv : String → W → String
  pub read_stdin : W → Result String × W
  pub write_stdout : String → W → Result (Unit {0}) × W
  pub decode_requests : String → Result (List Request)

abbrev pub impersonate_kerberos_api : String
impersonate_kerberos_api = "auth-to-kerberos"

module _ {W : Type 0} (os : Os W) (errors : Errors) (x : X509) (json : Json) where
  -- The base URL ends in a slash, as `NewServerEndpoint` demands.
  unfoldable pub new_keyserver : String → String → Result Keyserver
  new_keyserver authority hostname = elim (load_x509_cert_from_pem x authority) [
    | ok cert ↦
        ok (record { authority = cert; base_url = str_append "https://" (str_append hostname "/") })
    | err e ↦ err (errors.wrap "while parsing authority certificate" e)
    | panic t ↦ panic t
  ]

  -- paths.go: `GetKeyserver`
  unfoldable pub get_keyserver : Act W String
  get_keyserver = do
    keyserver ← ask (os.read_file "/etc/homeworld/config/keyserver.domain")
    give (ok (str_append (os.trim_space keyserver) ":20557"))

  unfoldable pub load_default_keyserver : Act W Keyserver
  unfolding new_keyserver get_keyserver
  load_default_keyserver = do
    authoritydata ←
        wrapping (errors.wrap "while loading authority")
          (ask (os.read_file "/etc/homeworld/keyclient/keyservertls.pem"))
    keyserver ← wrapping (errors.wrap "while determining keyserver") get_keyserver
    give (new_keyserver authoritydata keyserver)

  unfoldable pub load_default_keyserver_with_cert : Act W (RequestTarget W)
  unfolding load_default_keyserver authenticate_with_cert
  load_default_keyserver_with_cert = do
    k ← load_default_keyserver
    keypair ← wrapping (errors.wrap "while loading keypair") (
        ask (
          os.load_x509_key_pair "/etc/homeworld/keyclient/granting.pem"
            "/etc/homeworld/keyclient/granting.key"))
    give (
        wrapped (errors.wrap "while preparing authentication")
          (authenticate_with_cert os errors json k.base_url keypair))

  module _ (gateway : Gateway W) where
    unfoldable pub handle_request : String → String → Act W String
    unfolding load_default_keyserver_with_cert impersonate_target
    handle_request principal request_data = do
      requests ← give (gateway.decode_requests request_data)
      rt ← load_default_keyserver_with_cert
      reqt ←
          impersonate_target (errors.wrap "while verifying impersonation functionality") rt
            impersonate_kerberos_api principal
      result ← reqt requests
      give (guard (eqb (length result) (length requests)) (message "wrong number of results"))
      give (json.encode_texts result)

    -- `Process`, whose error ends the program.
    unfoldable pub process : Act W (Unit {0})
    unfolding handle_request
    process = do
      knc_creds ← ask (λ w. ok (gateway.getenv "KNC_CREDS" w))
      give (guard (not (knc_creds == "")) (message "no credentials supplied"))
      request_data ← tell gateway.read_stdin
      give (guard (not (request_data == "")) (message "empty request"))
      result ← handle_request knc_creds request_data
      tell (gateway.write_stdout result)
