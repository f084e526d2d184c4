-- ===== src/Keyclient/State.antt =====
-- platform/keysystem/keyclient/state/state.go, with keyclient/actions/keygen and
-- keyclient/actions/bootstrap. Times are in nanoseconds.
use homeworld.Common.{
  ℕ, ◌+◌, ◌*◌, String, Bool, true, false, not, ◌&&◌, Option, none, some, [], ◌==◌, ltb,
  if◌then◌else◌, Error, message, forbidden_by_server, Result, ok, err, panic, guard,
}
use homeworld.Common.Dict.{lookup, insert}
use homeworld.Operation.{Json}
use homeworld.Keyclient.Effects.{
  Client, Errors, Os, Act, ◌>>=◌, ◌>>◌, give, ask, tell, wrapped, wrapping, exists,
  ensure_is_folder, create_file, blocked, notify_performed, report,
}
use homeworld.Keyclient.Target.{send_request, authenticate_with_token}

-- `RetryAfter`
abbrev pub retry_after : ℕ
retry_after = 12 * 3600000000000

abbrev pub granting_key_path : String
granting_key_path = "/etc/homeworld/keyclient/granting.key"

abbrev pub granting_cert_path : String
granting_cert_path = "/etc/homeworld/keyclient/granting.pem"

abbrev pub bootstrap_token_path : String
bootstrap_token_path = "/etc/homeworld/keyclient/bootstrap.token"

module _ {W : Type 0} (os : Os W) where
  unfoldable pub retry_failed : String → Act W (Unit {0})
  retry_failed api c =
      (ok tt, record c { retry_at = insert api (os.now c.world + retry_after) c.retry_at })

  -- `!found || time.Now().After(retryAt)`
  abbrev retry_due : ℕ → Option ℕ → Bool
  retry_due now none = true
  retry_due now (some retry_at) = ltb retry_at now

  unfoldable pub can_retry : String → Client W → Bool
  can_retry api c = retry_due (os.now c.world) (lookup api c.retry_at)

  module _ (errors : Errors) where
    abbrev pub set_keygrant : Result String → Act W (Unit {0})
    set_keygrant (ok cert) c = (ok tt, record c { keygrant = some cert })
    set_keygrant (err e) c = (err e, c)
    set_keygrant (panic t) c = (panic t, c)

    unfoldable pub reload_keygranting_cert : Act W (Unit {0})
    reload_keygranting_cert c =
        if exists os granting_key_path c && exists os granting_cert_path c
        then set_keygrant
            (wrapped (errors.wrap "failed to reload keygranting certificate")
              (os.load_x509_key_pair granting_cert_path granting_key_path c.world))
            c
        else (err (message "no keygranting certificate found"), c)

    -- The new state beside the warning, which is no reason to stop.
    unfoldable pub new_client_state : W → Result (Unit {0}) × Client W
    unfolding reload_keygranting_cert
    new_client_state w =
        wrapping (errors.wrap "keygranting cert not yet available") reload_keygranting_cert
          (record {
            keygrant = none;
            retry_at = [];
            blocked_by = [];
            errored = [];
            performed = false;
            world = w;
          })

    unfoldable pub replace_keygranting_cert : String → Act W (Unit {0})
    unfolding reload_keygranting_cert
    replace_keygranting_cert contents = do
      ensure_is_folder os (os.dir granting_cert_path)
      tell (os.write_file granting_cert_path contents 0o644)
      wrapping (errors.wrap "expected properly loaded keygrant certificate") reload_keygranting_cert

    -- keyclient/actions/keygen/keygen.go: `keygen` and `GenerateKey`
    unfoldable pub keygen : String → Act W (Unit {0})
    unfolding create_file
    keygen keypath = do
      wrapping (errors.wrap "failed to prepare directory %s for generated key")
          (ensure_is_folder os (os.dir keypath))
      private_key ←
          wrapping (errors.wrap "failed to generate %d-bit RSA key for %s")
            (tell (os.generate_rsa 4096))
      wrapping (errors.wrap "failed to create file for generated key")
          (create_file os keypath private_key 0o600)

    unfoldable pub generate_key : String → Act W (Unit {0})
    unfolding keygen
    generate_key keypath c =
        if exists os keypath c then (ok tt, c) else report (keygen keypath) notify_performed c

    -- keyclient/actions/bootstrap/bootstrap.go: `is_token` is the loop over the characters.
    unfoldable pub get_token : (String → Bool) → Act W String
    get_token is_token = do
      contents ← ask (os.read_file bootstrap_token_path)
      give (guard (not (os.trim_space contents == "")) (message "blank token found"))
      give (
          guard (is_token (os.trim_space contents))
            (message "invalid token found: bad character '%c'"))
      give (ok (os.trim_space contents))

    -- `csr` is `csrutil.BuildTLSCSR`.
    unfoldable pub build_csr : (String → Result String) → Act W String
    build_csr csr = do privkey ← ask (os.read_file granting_key_path); give (csr privkey)

    -- Whether the error's cause is `endpoint.OperationForbidden`.
    abbrev pub is_forbidden : Error → Bool
    is_forbidden forbidden_by_server = true
    is_forbidden _ = false

    -- What follows a request whose error may say that the API is not for this client.
    abbrev pub retry_if_forbidden :
        (Error → Error) → String → Result String × Client W → Result String × Client W
    retry_if_forbidden cause api (ok result, c) = (ok result, c)
    retry_if_forbidden cause api (err e, c) =
        (err e, if is_forbidden (cause e) then (retry_failed api c).1 else c)
    retry_if_forbidden cause api (panic t, c) = (panic t, c)

    module _ (json : Json) (base_url : String) where
      -- `sendRequest`: the token file is removed after the request.
      unfoldable pub send_with_token : (String → Bool) → String → String → Act W String
      unfolding get_token authenticate_with_token send_request retry_failed
      send_with_token is_token api param = do
        token ← get_token is_token
        rt ← give (authenticate_with_token os errors json base_url token)
        result ← λ c. retry_if_forbidden errors.cause api (send_request rt api param c)
        tell (os.remove bootstrap_token_path)
        give (ok result)

      unfoldable pub bootstrap_request :
          (String → Bool) → (String → Result String) → String → Act W (Unit {0})
      unfolding build_csr send_with_token replace_keygranting_cert
      bootstrap_request is_token csr api = do
        param ← build_csr csr
        certbytes ← send_with_token is_token api param
        give (guard (not (certbytes == "")) (message "received empty response"))
        replace_keygranting_cert certbytes

      abbrev pub has_keygrant : Option String → Bool
      has_keygrant none = false
      has_keygrant (some cert) = true

      -- `Bootstrap`
      unfoldable pub bootstrap :
          (String → Bool) → (String → Result String) → String → Act W (Unit {0})
      unfolding can_retry bootstrap_request
      bootstrap is_token csr api c =
          if not (can_retry api c)
          then (ok tt, c)
          else (if has_keygrant c.keygrant
              then (ok tt, c)
              else (if not (exists os bootstrap_token_path c)
                  then (ok tt, c)
                  else (if not (exists os granting_key_path c)
                      then blocked (message "key does not yet exist: %s") c
                      else report (bootstrap_request is_token csr api) notify_performed c)))
