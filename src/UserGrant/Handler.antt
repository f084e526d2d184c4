-- ===== src/UserGrant/Handler.antt =====
-- platform/user-grant/grant.go: authentication, the calls of the Kubernetes API, and the handler of the
-- page. `W` is the state of the cluster and of the operating system.
use Prim.Native.String.{◌++◌ as str_append}
use text.Mathlib.Text.{starts_with}
use homeworld.Common.{
  ℕ, ◌+◌, String, Bool, true, false, not, Option, none, some, List, [], ◌∷◌, ◌==◌, eqb,
  if◌then◌else◌, Error, message, Result, ok, err, panic,
}
use homeworld.Common.Effects.{Effect, ◌>>=◌, ◌>>◌, give, ask}
use homeworld.Authority.Crypto.{PublicKey, Certificate, client_auth, Template, X509, Instant}
use homeworld.Authority.Tls.{VerifiedChains, finish_certificate}
use homeworld.UserGrant.{Config, Response, certificate_lifespan, validate}
use homeworld.UserGrant.Email.{Attribute, extract_email}

-- What the API server answers to a creation: an error is a `*StatusError` with a reason, or another,
-- at which the type assertion of the source panics.
pub data Creation : Type 0 where
  created : Creation
  refused : String → Error → Creation
  failed : Error → Creation

-- The fields of `rbacv1.RoleBinding` that the source sets, with its one subject.
pub record RoleBinding : Type 0 where
  pub name : String
  pub namespace : String
  pub role_kind : String
  pub role_name : String
  pub subject_kind : String
  pub subject_name : String

-- The packages that a request goes through: client-go, `html/template`, `encoding/base64`, and the
-- names of a parsed certificate. A template that is executed writes texts, and may fail behind some.
pub record Services (W : Type 0) : Type 0 where
  pub subject_names : Certificate → List Attribute
  pub create_namespace : String → W → Creation × W
  pub create_role_binding : RoleBinding → W → Creation × W
  pub parse_template : Option Error
  pub execute : Response → List String × Option Error
  pub generate_rsa : ℕ → Effect W (PublicKey × String)
  pub instant : W → Instant
  pub encode : String → String
  pub wrap : String → Error → Error

-- An `http.ResponseWriter`: the status that was sent, if one was, and the body.
pub record Reply : Type 0 where
  pub status : Option ℕ
  pub body : String

abbrev pub or_status : Option ℕ → ℕ → Option ℕ
or_status none status = some status
or_status (some sent) status = some sent

-- A first write sends 200.
abbrev pub write : String → Reply → Reply
write text reply = record { status = or_status reply.status 200; body = str_append reply.body text }

abbrev pub write_all : List String → Reply → Reply
write_all [] reply = reply
write_all (text ∷ texts) reply = write_all texts (write text reply)

-- `http.Error` with `StatusBadRequest`
abbrev pub http_error : String → Reply → Reply
http_error text reply = record {
  status = or_status reply.status 400;
  body = str_append reply.body (str_append text "\n");
}

abbrev pub role_binding : String → String → RoleBinding
role_binding namespace user = record {
  name = str_append "auto-grant-" user;
  namespace = namespace;
  role_kind = "ClusterRole";
  role_name = "admin";
  subject_kind = "User";
  subject_name = str_append "user:" user;
}

abbrev pub user_template : ℕ → String → Template
user_template issue_at user = record {
  digital_signature = true;
  ext_key_usage = client_auth ∷ [];
  basic_constraints_valid = true;
  is_ca = false;
  max_path_len = 0;
  max_path_len_zero = true;
  not_before = issue_at;
  not_after = issue_at + certificate_lifespan;
  common_name = str_append "user:" user;
  organization = [];
  dns_names = [];
  ip_addresses = [];
  serial_number = 0;
}

-- `cert, err := ...` of which the error is not looked at: the bytes are nil then.
abbrev pub bytes_or_nil : Result String → Result String
bytes_or_nil (ok bytes) = ok bytes
bytes_or_nil (err e) = ok ""
bytes_or_nil (panic t) = panic t

-- How a request ends: with a reply, or with a panic, at which net/http ends the connection.
pub data Outcome : Type 0 where
  replied : Reply → Outcome
  aborted : Outcome

-- `len(chains) == 0 || err != nil`
abbrev pub is_verified : ℕ × Option Error → Bool
is_verified (chains, none) = not (eqb chains 0)
is_verified (chains, some e) = false

-- An object that exists already is left as it is.
abbrev pub creation_result : (Error → Error) → Creation → Result (Unit {0})
creation_result wrap created = ok tt
creation_result wrap (refused reason e) = if reason == "AlreadyExists" then ok tt else err (wrap e)
creation_result wrap (failed e) = panic "interface conversion: error is not *errors.StatusError"

abbrev pub namespace_of : String → String
namespace_of user = str_append "user-" user

abbrev pub parsed : Option Error → Result (Unit {0})
parsed none = ok tt
parsed (some e) = err e

abbrev pub answered : Result (Unit {0}) × Reply → Outcome
answered (ok u, reply) = replied reply
answered (err e, reply) =
    replied (http_error "Grant processing failed. See server logs for details." reply)
answered (panic t, reply) = aborted

abbrev pub ended : {W : Type 0} → (Result (Unit {0}) × Reply) × W → Outcome × W
ended (result, w) = (answered result, w)

module _ {W : Type 0} (x : X509) (s : Services W) (c : Config) where
  abbrev pub authenticate_cert : Certificate → Result String
  authenticate_cert first_cert =
      if is_verified (x.verify c.upstream_ca first_cert)
      then extract_email c.email_auth_domain (s.subject_names first_cert)
      else err (message "certificate not valid under this authority: %v")

  unfoldable pub authenticate : VerifiedChains → Result String
  unfolding extract_email
  authenticate none = err (message "no TLS")
  authenticate (some []) = err (message "no verified client chains")
  authenticate (some ([] ∷ chains)) = err (message "no certificates in verified chain")
  authenticate (some ((first_cert ∷ certs) ∷ chains)) = authenticate_cert first_cert

  unfoldable pub cert_gen : Instant → PublicKey → String → Result String
  cert_gen i key user =
      finish_certificate x i (user_template i.now user) c.issuer_cert key c.issuer_key

  unfoldable pub create_namespace : String → Effect W (Unit {0})
  create_namespace namespace w =
      if not (starts_with namespace "user-")
      then (err (message "namespace '%s' did not start with 'user-'"), w)
      else let (creation, w') = s.create_namespace namespace w in
        (creation_result (s.wrap (str_append "while creating namespace " namespace)) creation, w')

  unfoldable pub grant_access : String → String → Effect W (Unit {0})
  grant_access namespace user w =
      let (creation, w') = s.create_role_binding (role_binding namespace user) w in
      (
        creation_result
            (s.wrap (str_append "while checking whether rolebinding existed for user " user))
            creation,
        w',
      )

  abbrev pub response_for : String → String → String → Response
  response_for user keyx cert = record {
    namespace = namespace_of user;
    key_base64 = s.encode keyx;
    cert_base64 = s.encode cert;
    authority_base64 = s.encode c.kube_ca;
    server = c.apiserver_address;
  }

  abbrev pub cert_bytes : PublicKey → String → W → Result String
  cert_bytes key user w = bytes_or_nil (cert_gen (s.instant w) key user)

  -- What follows the creation of the key.
  abbrev pub fill_page : String → PublicKey × String → Effect W Response
  fill_page user (key, keyx) = do
    cert ← ask (cert_bytes key user)
    give (validate (response_for user keyx cert))
    give (ok (response_for user keyx cert))

  -- What follows the authentication, up to the execution of the template.
  unfoldable pub grant : String → Effect W Response
  unfolding create_namespace grant_access cert_gen validate
  grant user = do
    create_namespace (namespace_of user)
    grant_access (namespace_of user) user
    give (parsed s.parse_template)
    keys ← s.generate_rsa 2048
    fill_page user keys

  unfoldable pub prepare : VerifiedChains → Effect W Response
  unfolding authenticate grant
  prepare chains = do user ← give (authenticate chains); grant user

  abbrev pub executed : Reply → Result Response × W → (Result (Unit {0}) × Reply) × W
  executed reply (ok resp, w) =
      let (texts, failure) = s.execute resp in ((parsed failure, write_all texts reply), w)
  executed reply (err e, w) = ((err e, reply), w)
  executed reply (panic t, w) = ((panic t, reply), w)

  unfoldable pub handle_request : VerifiedChains → Reply → W → (Result (Unit {0}) × Reply) × W
  unfolding prepare
  handle_request chains reply w = executed reply (prepare chains w)

  -- The function that `Launch` registers for every path.
  unfoldable pub serve_page : VerifiedChains → W → Outcome × W
  unfolding handle_request
  serve_page chains w = ended (handle_request chains (record { status = none; body = "" }) w)
