-- ===== src/Keyclient/Download.antt =====
-- platform/keysystem/keyclient/actions/download: download.go and fetchers.go.
use text.Mathlib.Text.{starts_with}
use homeworld.Common.{
  ℕ, ◌+◌, String, Bool, true, false, not, Option, none, some, ◌==◌, ltb, if◌then◌else◌, message,
  not_exist, Result, ok, err, panic,
}
use homeworld.Operation.{Json}
use homeworld.Keyclient.Effects.{
  Errors, FileInfo, Os, Act, ◌>>=◌, ◌>>◌, give, nothing, tell, ensure_is_folder, blocked, errored,
  notify_performed, report,
}
use homeworld.Keyclient.Target.{send_request, authenticate_with_cert, get_static, get_pubkey}
use homeworld.Keyclient.State.{can_retry, retry_if_forbidden}

-- `config`
pub record Config : Type 0 where
  pub path : String
  pub refresh : ℕ
  pub mode : ℕ

abbrev non_empty : String → Result String
non_empty result = if result == "" then err (message "empty response") else ok result

module _ {W : Type 0} (os : Os W) (errors : Errors) (json : Json) (base_url : String) where
  unfoldable pub fetch_authority : String → Act W String
  unfolding get_pubkey
  fetch_authority authority = do
    result ← get_pubkey os errors json base_url authority
    give (non_empty result)

  unfoldable pub fetch_static : String → Act W String
  unfolding get_static
  fetch_static static = do
    result ← get_static os errors json base_url static
    give (non_empty result)

  abbrev pub fetch_as : String → Option String → Act W String
  fetch_as api none = do blocked (message "no keygranting certificate ready"); give (ok "")
  fetch_as api (some keygrant) = do
    rt ← give (authenticate_with_cert os errors json base_url keygrant)
    resp ← λ c. retry_if_forbidden os errors errors.cause api (send_request rt api "" c)
    give (non_empty resp)

  -- Nothing, without an error, while the API may not be retried or there is no certificate.
  unfoldable pub fetch_api : String → Act W String
  unfolding can_retry
  fetch_api api c = if not (can_retry os api c) then (ok "", c) else fetch_as api c.keygrant c

  -- The staleness is negative for a file from the future, which is never stale.
  abbrev is_stale : ℕ → ℕ → ℕ → Bool
  is_stale now mod_time period = ltb (mod_time + period) now

  abbrev pub stat_needs_refresh : Config → Result FileInfo → Act W Bool
  stat_needs_refresh da (ok info) c = (ok (is_stale (os.now c.world) info.mod_time da.refresh), c)
  stat_needs_refresh da (err (not_exist text)) c = (ok true, c)
  stat_needs_refresh da (err e) c = (do errored e; give (ok false)) c
  stat_needs_refresh da (panic t) c = (panic t, c)

  unfoldable pub needs_refresh : Config → Act W Bool
  needs_refresh da c = stat_needs_refresh da (os.stat da.path c.world) c

  abbrev update_certificates : String → Act W (Unit {0})
  update_certificates path =
      if starts_with path "/usr/local/share/ca-certificates/extra/"
      then tell (os.run_command "update-ca-certificates")
      else nothing

  abbrev store : Config → String → Act W (Unit {0})
  store da contents = if contents == "" then nothing else (do
    ensure_is_folder os (os.dir da.path)
    tell (os.write_file da.path contents da.mode)
    update_certificates da.path
    notify_performed)

  unfoldable pub refresh : Config → Act W String → Act W (Unit {0})
  refresh da fetcher = do contents ← fetcher; store da contents

  abbrev pub refresh_if : Config → Act W String → Bool → Act W (Unit {0})
  refresh_if da fetcher needed = if needed then report (refresh da fetcher) nothing else nothing

  -- `config.Download`
  unfoldable pub download : Config → Act W String → Act W (Unit {0})
  unfolding needs_refresh refresh
  download da fetcher = do needed ← needs_refresh da; refresh_if da fetcher needed

  unfoldable pub download_authority : String → String → ℕ → Act W (Unit {0})
  unfolding download fetch_authority
  download_authority name path period =
      download (record { path = path; refresh = period; mode = 0o644 }) (fetch_authority name)

  unfoldable pub download_static : String → String → ℕ → Act W (Unit {0})
  unfolding download fetch_static
  download_static name path period =
      download (record { path = path; refresh = period; mode = 0o644 }) (fetch_static name)

  unfoldable pub download_from_api : String → String → ℕ → ℕ → Act W (Unit {0})
  unfolding download fetch_api
  download_from_api api path period mode =
      download (record { path = path; refresh = period; mode = mode }) (fetch_api api)
