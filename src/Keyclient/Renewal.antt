-- ===== src/Keyclient/Renewal.antt =====
-- platform/keysystem/keyclient/actions/keyreq/keyreq.go. `check_expiration` and `gen_csr` are the
-- functions that an action holds; times are in nanoseconds.
use homeworld.Common.{
  ℕ, ◌+◌, String, Bool, true, false, not, Option, none, some, ◌==◌, ltb, if◌then◌else◌, message,
  not_exist, Result, ok, err, panic, guard,
}
use homeworld.Operation.{Json}
use homeworld.Keyclient.Effects.{
  Errors, Os, Act, ◌>>=◌, ◌>>◌, give, nothing, ask, tell, wrapping, exists, blocked, errored,
  notify_performed, report,
}
use homeworld.Keyclient.Target.{RequestTarget, send_request, authenticate_with_cert}
use homeworld.Keyclient.State.{
  can_retry, retry_if_forbidden, reload_keygranting_cert, granting_cert_path,
}

pub record RequestOrRenewAction : Type 0 where
  pub in_advance : ℕ
  pub api : String
  pub check_expiration : String → Result ℕ
  pub gen_csr : String → Result String
  pub key_file : String
  pub cert_file : String

module _ {W : Type 0} (os : Os W) (errors : Errors) (json : Json) (base_url : String)
    (ra : RequestOrRenewAction) where
  -- `renewAt.After(time.Now())`, without subtraction
  abbrev is_early : ℕ → ℕ → Bool
  is_early now expiration = ltb (now + ra.in_advance) expiration

  abbrev pub expiration_due : Result ℕ → Act W Bool
  expiration_due (ok expiration) c = (ok (not (is_early (os.now c.world) expiration)), c)
  expiration_due (err e) c =
      (do
        errored (errors.wrap "while trying to check expiration status of certificate" e)
        give (ok true))
        c
  expiration_due (panic t) c = (panic t, c)

  abbrev pub existing_due : Result String → Act W Bool
  existing_due (ok existing) = expiration_due (ra.check_expiration existing)
  existing_due (err (not_exist text)) = give (ok true)
  existing_due (err e) = do errored e; give (ok true)
  existing_due (panic t) = give (panic t)

  unfoldable pub should_regenerate : Act W Bool
  should_regenerate c = existing_due (os.read_file ra.cert_file c.world) c

  abbrev reload_if_granting : String → String → Act W (Unit {0})
  reload_if_granting certabs grantabs =
      if certabs == grantabs then reload_keygranting_cert os errors else nothing

  unfoldable pub check_reload : Act W (Unit {0})
  unfolding reload_keygranting_cert
  check_reload = do
    certabs ← ask (os.abs ra.cert_file)
    grantabs ← ask (os.abs granting_cert_path)
    reload_if_granting certabs grantabs

  unfoldable pub generate_csr : Act W String
  generate_csr = do
    keydata ← wrapping (errors.wrap "while reading keyfile") (ask (os.read_file ra.key_file))
    wrapping (errors.wrap "while generating CSR") (give (ra.gen_csr keydata))

  -- The error itself is tested here, and not its cause.
  unfoldable pub sign_request : RequestTarget W → String → Act W String
  unfolding send_request
  sign_request rt csr = do
    cert ←
        wrapping (errors.wrap "while sending request")
          (λ c. retry_if_forbidden os errors (λ e. e) ra.api (send_request rt ra.api csr c))
    give (guard (not (cert == "")) (message "while sending request: received empty response"))
    give (ok cert)

  -- A nil pointer is dereferenced without a certificate, which `Act` rules out.
  unfoldable pub request_signature : Option String → String → Act W String
  unfolding authenticate_with_cert sign_request
  request_signature none csr = give (panic "invalid memory address or nil pointer dereference")
  request_signature (some keygrant) csr = do
    rt ←
        wrapping (errors.wrap "while authenticating with cert")
          (give (authenticate_with_cert os errors json base_url keygrant))
    sign_request rt csr

  unfoldable pub regenerate : Act W (Unit {0})
  unfolding generate_csr request_signature check_reload
  regenerate = do
    csr ← generate_csr
    cert ← λ c. request_signature c.keygrant csr c
    wrapping (errors.wrap "while writing result") (tell (os.write_file ra.cert_file cert 0o644))
    wrapping (errors.wrap "while reloading granting cert") check_reload

  abbrev pub act_if : Bool → Option String → Act W (Unit {0})
  act_if false keygrant c = (ok tt, c)
  act_if true none c = blocked (message "no keygranting certificate ready") c
  act_if true (some keygrant) c =
      if not (exists os ra.key_file c)
      then blocked (message "key does not yet exist: %s") c
      else report regenerate notify_performed c

  unfoldable pub act : Act W (Unit {0})
  unfolding can_retry should_regenerate regenerate
  act c =
      if not (can_retry os ra.api c)
      then (ok tt, c)
      else (do due ← should_regenerate; λ c'. act_if due c'.keygrant c') c
