-- ===== src/Keyreq.antt =====
-- platform/keysystem/keyreq/keyreq.go: the command of an administrator, which requests short-lived
-- certificates with Kerberos tickets. Of `Client`, only the world is used, and what is logged is left out.
use Prim.Native.String.{◌++◌ as str_append}
use homeworld.Common.{
  ℕ, ◌+◌, ◌-◌, ◌/◌, String, ap, not, List, [], ◌∷◌, ◌++◌, ◌==◌, if◌then◌else◌, Error, Result, ok,
  err, panic,
}
use homeworld.Authority.Crypto.{X509}
use homeworld.Operation.{Json}
use homeworld.Util.Csr.{CsrLib, build_tls_csr}
use homeworld.Keyclient.Effects.{Client, Errors, Os, Act, ask, tell, give}
use homeworld.Keyclient.Target.{RequestTarget, send_request, get_pubkey}
use homeworld.Keygateway.{Keyserver, new_keyserver}
use homeworld.Keygateway.Knc.{Processes, authenticate_with_kerberos_tickets}
pub mod Kerberos
pub mod Obtained

-- `os.Exit` ends the program where it stands.
pub data Exit (A : Type 0) : Type 0 where
  goes : A → Exit A
  exits : ℕ → Exit A

abbrev pub Program : Type 0 → Type 0 → Type 0
Program W A = Client W → Exit A × Client W

infixl 5 ◌>>=◌ ◌>>◌
abbrev pub go_on : {W A B : Type 0} → (A → Program W B) → Exit A × Client W → Exit B × Client W
go_on rest (goes x, c) = rest x c
go_on rest (exits code, c) = (exits code, c)

abbrev pub ◌>>=◌ : {W A B : Type 0} → Program W A → (A → Program W B) → Program W B
(first >>= rest) c = go_on rest (first c)

abbrev pub ◌>>◌ : {W B : Type 0} → Program W (Unit {0}) → Program W B → Program W B
first >> second = first >>= λ _. second

abbrev pub err_unknown_failure : ℕ
err_unknown_failure = 1

abbrev pub err_cannot_establish_connection : ℕ
err_cannot_establish_connection = 2

abbrev pub err_no_access : ℕ
err_no_access = 3

abbrev pub err_invalid_config : ℕ
err_invalid_config = 254

abbrev pub err_invalid_invocation : ℕ
err_invalid_invocation = 255

-- `if err != nil { os.Exit(code) }`; a panic ends a Go program with 2.
abbrev pub exited : {W A : Type 0} → ℕ → Result A × Client W → Exit A × Client W
exited code (ok x, c) = (goes x, c)
exited code (err e, c) = (exits code, c)
exited code (panic t, c) = (exits 2, c)

abbrev pub or_exit : {W A : Type 0} → ℕ → Act W A → Program W A
or_exit code f c = exited code (f c)

abbrev pub exit : {W A : Type 0} → ℕ → Program W A
exit code c = (exits code, c)

abbrev pub done : {W A : Type 0} → A → Program W A
done x c = (goes x, c)

-- `if req == "" { os.Exit(ERR_UNKNOWN_FAILURE) }`
abbrev pub not_empty : {W : Type 0} → String → Program W (Unit {0})
not_empty req = if req == "" then exit err_unknown_failure else done tt

module _ {W : Type 0} (os : Os W) (errors : Errors) (x : X509) (json : Json)
    (processes : Processes W) (lib : CsrLib) where
  abbrev pub write_or : ℕ → String → String → ℕ → Program W (Unit {0})
  write_or code path contents mode = or_exit code (tell (os.write_file path contents mode))

  unfoldable pub get_keyserver : String → String → Program W Keyserver
  unfolding new_keyserver
  get_keyserver authority_path keyserver_domain = do
    authoritydata ← or_exit err_invalid_invocation (ask (os.read_file authority_path))
    or_exit err_invalid_config
        (give (new_keyserver os errors x json authoritydata keyserver_domain))

  -- The connection is tried with an empty batch.
  unfoldable pub auth_kerberos : String → String → Program W (Keyserver × RequestTarget W)
  unfolding get_keyserver authenticate_with_kerberos_tickets
  auth_kerberos authority_path keyserver_domain = do
    ks ← get_keyserver authority_path keyserver_domain
    rt ←
        or_exit err_invalid_invocation
          (give (authenticate_with_kerberos_tickets processes errors json ks.base_url))
    _ ← or_exit err_cannot_establish_connection (rt [])
    done (ks, rt)

  -- "kube-cert" and "etcd-cert", which differ in the API and in the authority.
  unfoldable pub request_tls_cert :
      String
      → String
      → Keyserver × RequestTarget W
      → String
      → String
      → String
      → Program W (Unit {0})
  unfolding build_tls_csr send_request get_pubkey
  request_tls_cert api authority (ks, rt) privkey_out cert_out ca_out = do
    privkey ← or_exit err_unknown_failure (tell (os.generate_rsa 2048))
    csr ← or_exit err_unknown_failure (give (build_tls_csr lib x privkey))
    req ← or_exit err_no_access (send_request rt api csr)
    not_empty req
    write_or err_invalid_invocation privkey_out privkey 0o600
    write_or err_invalid_invocation cert_out req 0o644
    ca ← or_exit err_cannot_establish_connection (get_pubkey os errors json ks.base_url authority)
    write_or err_invalid_invocation ca_out ca 0o644

  -- "ssh-cert"; `ssh_pubkey` makes the public key of the private one, and `logger.Fatal` exits with 1.
  unfoldable pub request_ssh_cert :
      (String → Result String) → RequestTarget W → String → String → Program W (Unit {0})
  unfolding send_request
  request_ssh_cert ssh_pubkey rt key_out cert_out = do
    privkey ← or_exit err_unknown_failure (tell (os.generate_rsa 2048))
    pubkey ← or_exit err_unknown_failure (give (ssh_pubkey privkey))
    req ← or_exit err_no_access (send_request rt "access-ssh" pubkey)
    not_empty req
    write_or 1 key_out privkey 0o600
    write_or 1 (str_append key_out ".pub") pubkey 0o644
    write_or err_unknown_failure cert_out req 0o644

  module _ (ssh_pubkey : String → Result String)
      (write_stdout : String → W → Result (Unit {0}) × W) where
    unfoldable pub check : List String → Program W (Unit {0})
    unfolding auth_kerberos
    check (authority_path ∷ domain ∷ rest) = do _ ← auth_kerberos authority_path domain; done tt
    check _ = exit err_invalid_invocation

    unfoldable pub ssh_cert : List String → Program W (Unit {0})
    unfolding auth_kerberos request_ssh_cert
    ssh_cert (authority_path ∷ domain ∷ key_out ∷ cert_out ∷ rest) = do
      (_, rt) ← auth_kerberos authority_path domain
      request_ssh_cert ssh_pubkey rt key_out cert_out
    ssh_cert _ = exit err_invalid_invocation

    unfoldable pub tls_cert : String → String → List String → Program W (Unit {0})
    unfolding auth_kerberos request_tls_cert
    tls_cert api authority (authority_path ∷ domain ∷ key_out ∷ cert_out ∷ ca_out ∷ rest) = do
      target ← auth_kerberos authority_path domain
      request_tls_cert api authority target key_out cert_out ca_out
    tls_cert api authority _ = exit err_invalid_invocation

    -- Whether the token could be written out is not looked at.
    abbrev print : String → Program W (Unit {0})
    print text c = let (_, w) = write_stdout text c.world in (goes tt, record c { world = w })

    unfoldable pub bootstrap_token : List String → Program W (Unit {0})
    unfolding auth_kerberos send_request
    bootstrap_token (authority_path ∷ domain ∷ principal ∷ rest) = do
      (_, rt) ← auth_kerberos authority_path domain
      token ← or_exit err_no_access (send_request rt "bootstrap" principal)
      print (str_append token "\n")
    bootstrap_token _ = exit err_invalid_invocation

    -- The arguments, without the name of the program.
    unfoldable pub main : List String → Program W (Unit {0})
    unfolding check ssh_cert tls_cert bootstrap_token
    main [] = exit err_invalid_invocation
    main (command ∷ args) =
        if command == "check"
        then check args
        else if command == "ssh-cert"
        then ssh_cert args
        else if command == "kube-cert"
        then tls_cert "access-kubernetes" "kubernetes" args
        else if command == "etcd-cert"
        then tls_cert "access-etcd" "etcd-server" args
        else if command == "bootstrap-token"
        then bootstrap_token args
        else exit err_invalid_invocation
