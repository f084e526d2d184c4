-- ===== src/UserGrant/Loading.antt =====
-- platform/user-grant/grant.go: LoadConfig, which reads the command line. `log.Fatal` ends the program
-- there; it is an error here, at which `main` ends the program too.
use homeworld.Common.{
  String, ◌≡◌, subst, false, not, Option, none, some, List, [], ◌∷◌, arith, ◌==◌, message, Result,
  ok, err, ◌>>=◌, ◌>>◌, guard, >>=-eq-ok, guard-eq-ok,
}
use homeworld.Common.Dict.{Dict, insert, lookup}
use homeworld.Authority.Crypto.{X509, RsaKey, Certificate}
use homeworld.Authority.Pem.{load_x509_cert_from_pem, load_rsa_key_from_pem}
use homeworld.Kubernetes.{setting}
use homeworld.UserGrant.{Config}

-- `strings.SplitN` at "=" into two parts, if there are two; files; `tls.LoadX509KeyPair` of a
-- certificate and a key, and client-go, which have no part in what a request reads.
pub record Start : Type 0 where
  pub split_pair : String → Option (String × String)
  pub read_file : String → Result String
  pub load_key_pair : String → String → Result (Unit {0})
  pub in_cluster_config : Result (Unit {0})
  pub new_for_config : Result (Unit {0})

abbrev pub defaults : Dict String
defaults =
    ("upstream-ca", "")
    ∷ ("kube-ca", "")
    ∷ ("server-key", "")
    ∷ ("server-cert", "")
    ∷ ("issuer-key", "")
    ∷ ("issuer-cert", "")
    ∷ ("apiserver", "")
    ∷ ("address", ":443")
    ∷ ("email-domain", "")
    ∷ []

-- An argument for a key that has a default.
abbrev assign : String → String → Dict String → Option String → Result (Dict String)
assign key held args none = err (message "unexpected argument: %s")
assign key held args (some old) = ok (insert key held args)

abbrev pub set_arg : Option (String × String) → Dict String → Result (Dict String)
set_arg none args = err (message "expected argument to be key/value format")
set_arg (some (key, held)) args = assign key held args (lookup key args)

abbrev pub required : String → String → Result (Unit {0})
required text held = guard (not (held == "")) (message text)

required-eq-ok :
    (text held : String) {u : Unit {0}} → required text held ≡ ok u → (held == "") ≡ false
required-eq-ok text held h = ground (arith, guard-eq-ok (not (held == "")) (message text) h)

module _ (x : X509) (start : Start) where
  open start use {split_pair, read_file}

  unfoldable pub set_args : List String → Dict String → Result (Dict String)
  set_args [] args = ok args
  set_args (arg ∷ raw_args) args = do args' ← set_arg (split_pair arg) args; set_args raw_args args'

  unfoldable pub load_rsa_key_from_path : String → Result RsaKey
  unfolding load_rsa_key_from_pem
  load_rsa_key_from_path path = do cert ← read_file path; load_rsa_key_from_pem x cert

  unfoldable pub load_x509_from_path : String → Result Certificate
  unfolding load_x509_cert_from_pem
  load_x509_from_path path = do cert ← read_file path; load_x509_cert_from_pem x cert

  -- What is behind the loop over the arguments; the address is that of the listener.
  unfoldable pub load_from : Dict String → Result (String × Config)
  unfolding load_rsa_key_from_path load_x509_from_path
  load_from args = do
    required "no bind address specified" (setting "address" args)
    required "no apiserver address specified" (setting "apiserver" args)
    required "no email authentication domain specified" (setting "email-domain" args)
    upstream_ca ← load_x509_from_path (setting "upstream-ca" args)
    kube_ca ← read_file (setting "kube-ca" args)
    issuer_cert ← load_x509_from_path (setting "issuer-cert" args)
    issuer_key ← load_rsa_key_from_path (setting "issuer-key" args)
    start.load_key_pair (setting "server-cert" args) (setting "server-key" args)
    start.in_cluster_config
    start.new_for_config
    ok (
      setting "address" args,
      record {
        apiserver_address = setting "apiserver" args;
        email_auth_domain = setting "email-domain" args;
        upstream_ca = upstream_ca;
        kube_ca = kube_ca;
        issuer_cert = issuer_cert;
        issuer_key = issuer_key;
      },
    )

  unfoldable pub load_config : List String → Result (String × Config)
  unfolding set_args load_from
  load_config raw_args = do args ← set_args raw_args defaults; load_from args

  -- A configuration that is loaded names the API server and the domain of the users, and its authority is
  -- read from the file that was named.
  load_from-names :
      (args : Dict String) (address : String) (c : Config)
      → load_from args ≡ ok (address, c)
      → ((c.apiserver_address == "") ≡ false)
        × ((c.email_auth_domain == "") ≡ false)
        × (load_x509_from_path (setting "upstream-ca" args) ≡ ok c.upstream_ca)
  unfolding load_from
  load_from-names args address c e =
      let (u1, h1, e1) =
        >>=-eq-ok (required "no bind address specified" (setting "address" args)) _ e in
      let (u2, h2, e2) =
        >>=-eq-ok (required "no apiserver address specified" (setting "apiserver" args)) _ h1 in
      let (u3, h3, e3) =
        >>=-eq-ok
          (required "no email authentication domain specified" (setting "email-domain" args)) _
          h2 in
      let (ca, h4, e4) = >>=-eq-ok (load_x509_from_path (setting "upstream-ca" args)) _ h3 in
      let (kube_ca, h5, e5) = >>=-eq-ok (read_file (setting "kube-ca" args)) _ h4 in
      let (issuer, h6, e6) = >>=-eq-ok (load_x509_from_path (setting "issuer-cert" args)) _ h5 in
      let (key, h7, e7) = >>=-eq-ok (load_rsa_key_from_path (setting "issuer-key" args)) _ h6 in
      let (u8, h8, e8) =
        >>=-eq-ok (start.load_key_pair (setting "server-cert" args) (setting "server-key" args)) _
          h7 in
      let (u9, h9, e9) = >>=-eq-ok start.in_cluster_config _ h8 in
      let (u10, h10, e10) = >>=-eq-ok start.new_for_config _ h9 in
      let same : _ ≡ c = ok_of h10 in
      subst
        (λ d.
          ((d.apiserver_address == "") ≡ false)
          × ((d.email_auth_domain == "") ≡ false)
          × (load_x509_from_path (setting "upstream-ca" args) ≡ ok d.upstream_ca))
        same (required-eq-ok _ _ e2, required-eq-ok _ _ e3, e4)
    where
      ok_of :
          {b : Config} {a : String}
          → ◌≡◌ {A = Result (String × Config)} (ok (a, b)) (ok (address, c))
          → b ≡ c
      ok_of h = cc
