-- ===== src/Keyclient/Completion.antt =====
-- The actions of worldconfig/keyclient.go report their errors and go on.
use homeworld.Common.{
  ℕ, String, Bool, true, false, not, Option, none, some, if◌then◌else◌, message,
  operation_forbidden, forbidden_by_server, not_exist, foreign, Result, ok, err, panic,
}
use homeworld.Operation.{Json}
use homeworld.Keyclient.Effects.{
  Client, Errors, FileInfo, Os, Act, and_then, report_then, nothing, notify_performed, blocked,
  exists,
}
use homeworld.Keyclient.State.{
  generate_key, bootstrap, keygen, bootstrap_request, can_retry, has_keygrant, bootstrap_token_path,
  granting_key_path,
}
use homeworld.Keyclient.Download.{
  Config, download, download_authority, download_static, download_from_api, needs_refresh,
  stat_needs_refresh, refresh, refresh_if, fetch_authority, fetch_static, fetch_api,
}
use homeworld.Keyclient.Hostname.{reload_hostname_from, perform_reload}
use homeworld.Keyclient.Renewal.{
  RequestOrRenewAction, act, act_if, should_regenerate, existing_due, expiration_due, regenerate,
}
use homeworld.Keyclient.Converge.{Formats, request_or_renew_tls_key, request_or_renew_ssh_key}

-- No error comes out: a value, or a panic.
pub data IsFine {W A : Type 0} : Result A × Client W → Type 0 where
  value : {x : A} {c : Client W} → IsFine (ok x, c)
  crash : {t : String} {c : Client W} → IsFine (panic t, c)

abbrev pub Completes : {W A : Type 0} → Act W A → Type 0
Completes {W} f = (c : Client W) → IsFine (f c)

module _ {W : Type 0} where
  pub and_then-IsFine :
      {A B : Type 0} (rest : A → Act W B) {first : Result A × Client W}
      → IsFine first
      → ((x : A) → Completes (rest x))
      → IsFine (and_then rest first)
  and_then-IsFine rest (value {x} {c}) k = k x c
  and_then-IsFine rest crash k = crash

  report_then-IsFine :
      (done : Act W (Unit {0})) (r : Result (Unit {0}) × Client W)
      → Completes done
      → IsFine (report_then done r)
  report_then-IsFine done (ok u, c) h = h c
  report_then-IsFine done (err e, c) h = value
  report_then-IsFine done (panic t, c) h = crash

  if-IsFine :
      {A : Type 0} (b : Bool) (x y : Result A × Client W)
      → IsFine x
      → IsFine y
      → IsFine (if b then x else y)
  if-IsFine true x y h k = h
  if-IsFine false x y h k = k

module _ {W : Type 0} (os : Os W) (errors : Errors) (json : Json) (base_url : String) where
  pub generate_key-Completes : (path : String) → Completes (generate_key os errors path)
  unfolding generate_key
  generate_key-Completes path c =
      if-IsFine (exists os path c) _ _ value
        (report_then-IsFine notify_performed (keygen os errors path c) (λ _. value))

  pub bootstrap-Completes :
      (is_token : String → Bool) (csr : String → Result String) (api : String)
      → Completes (bootstrap os errors json base_url is_token csr api)
  unfolding bootstrap
  bootstrap-Completes is_token csr api c =
      let ended = bootstrap_request os errors json base_url is_token csr api c in
      if-IsFine (not (can_retry os api c)) (ok tt, c) _ value
        (if-IsFine (has_keygrant os errors json base_url c.keygrant) (ok tt, c) _ value
          (if-IsFine (not (exists os bootstrap_token_path c)) (ok tt, c) _ value
            (if-IsFine (not (exists os granting_key_path c))
              (blocked (message "key does not yet exist: %s") c) _ value
              (report_then-IsFine notify_performed ended (λ _. value)))))

  refresh_if-Completes :
      (da : Config) (fetcher : Act W String) (needed : Bool)
      → Completes (refresh_if os errors json base_url da fetcher needed)
  refresh_if-Completes da fetcher true c =
      report_then-IsFine nothing (refresh os errors json base_url da fetcher c) (λ _. value)
  refresh_if-Completes da fetcher false c = value

  stat_needs_refresh-Completes :
      (da : Config) (found : Result FileInfo)
      → Completes (stat_needs_refresh os errors json base_url da found)
  stat_needs_refresh-Completes da (ok info) c = value
  stat_needs_refresh-Completes da (err (not_exist text)) c = value
  stat_needs_refresh-Completes da (err (message text)) c = value
  stat_needs_refresh-Completes da (err (operation_forbidden principal api)) c = value
  stat_needs_refresh-Completes da (err forbidden_by_server) c = value
  stat_needs_refresh-Completes da (err (foreign text e)) c = value
  stat_needs_refresh-Completes da (panic t) c = crash

  download-Completes :
      (da : Config) (fetcher : Act W String)
      → Completes (download os errors json base_url da fetcher)
  unfolding download needs_refresh
  download-Completes da fetcher c =
      and_then-IsFine (refresh_if os errors json base_url da fetcher)
        (stat_needs_refresh-Completes da (os.stat da.path c.world) c)
        (refresh_if-Completes da fetcher)

  pub reload_hostname_from-Completes : (path : String) → Completes (reload_hostname_from os path)
  unfolding reload_hostname_from
  reload_hostname_from-Completes path c =
      report_then-IsFine nothing (perform_reload os path c) (λ _. value)

  module _ (ra : RequestOrRenewAction) where
    expiration_due-Completes :
        (found : Result ℕ) → Completes (expiration_due os errors json base_url ra found)
    expiration_due-Completes (ok n) c = value
    expiration_due-Completes (err e) c = value
    expiration_due-Completes (panic t) c = crash

    existing_due-Completes :
        (found : Result String) → Completes (existing_due os errors json base_url ra found)
    existing_due-Completes (ok existing) c =
        expiration_due-Completes (ra.check_expiration existing) c
    existing_due-Completes (err (not_exist text)) c = value
    existing_due-Completes (err (message text)) c = value
    existing_due-Completes (err (operation_forbidden principal api)) c = value
    existing_due-Completes (err forbidden_by_server) c = value
    existing_due-Completes (err (foreign text e)) c = value
    existing_due-Completes (panic t) c = crash

    act_if-IsFine :
        (due : Bool) (keygrant : Option String)
        → Completes (act_if os errors json base_url ra due keygrant)
    act_if-IsFine false keygrant c = value
    act_if-IsFine true none c = value
    act_if-IsFine true (some keygrant) c =
        if-IsFine _ _ _ value (
          report_then-IsFine notify_performed (regenerate os errors json base_url ra c)
            (λ _. value))

    act-Completes : Completes (act os errors json base_url ra)
    unfolding act should_regenerate
    act-Completes c = if-IsFine _ _ _ value (
        and_then-IsFine (λ due c'. act_if os errors json base_url ra due c'.keygrant c')
          (existing_due-Completes (os.read_file ra.cert_file c.world) c)
          (λ due c'. act_if-IsFine due c'.keygrant c'))

  module _ (f : Formats) where
    pub tls_request-Completes :
        (key cert api : String) (in_advance : ℕ)
        → Completes (request_or_renew_tls_key os errors json base_url f key cert api in_advance)
    unfolding request_or_renew_tls_key
    tls_request-Completes key cert api in_advance = act-Completes (record {
      in_advance = in_advance;
      api = api;
      check_expiration = f.check_tls_cert_expiration;
      gen_csr = f.build_tls_csr;
      key_file = key;
      cert_file = cert;
    })

    pub from_authority :
        (name path : String) (period : ℕ)
        → Completes (download_authority os errors json base_url name path period)
    unfolding download_authority
    from_authority name path period =
        download-Completes (record { path = path; refresh = period; mode = 0o644 })
          (fetch_authority os errors json base_url name)

    pub from_static :
        (name path : String) (period : ℕ)
        → Completes (download_static os errors json base_url name path period)
    unfolding download_static
    from_static name path period =
        download-Completes (record { path = path; refresh = period; mode = 0o644 })
          (fetch_static os errors json base_url name)

    pub from_api :
        (api path : String) (period mode : ℕ)
        → Completes (download_from_api os errors json base_url api path period mode)
    unfolding download_from_api
    from_api api path period mode =
        download-Completes (record { path = path; refresh = period; mode = mode })
          (fetch_api os errors json base_url api)

    pub ssh_request-Completes :
        (key cert api : String) (in_advance : ℕ)
        → Completes (request_or_renew_ssh_key os errors json base_url f key cert api in_advance)
    unfolding request_or_renew_ssh_key
    ssh_request-Completes key cert api in_advance = act-Completes (record {
      in_advance = in_advance;
      api = api;
      check_expiration = f.check_ssh_cert_expiration;
      gen_csr = f.build_ssh_csr;
      key_file = key;
      cert_file = cert;
    })
