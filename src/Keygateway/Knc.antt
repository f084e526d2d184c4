-- ===== src/Keygateway/Knc.antt =====
-- Requests of Kerberos users: platform/keysystem/api/knc/knc.go, with `AuthenticateWithKerberosTickets`
-- of api/server/apiauth.go. Of `Client`, only the world is used.
use Prim.Native.String.{◌++◌ as str_append}
use homeworld.Common.{
  String, not, Option, none, some, List, [], ◌∷◌, map, ◌==◌, eqb, if◌then◌else◌, Error, message,
  Result, ok, err, panic, guard, length,
}
use homeworld.Operation.{Json}
use homeworld.Util.Environment.{modified_environ}
use homeworld.Keyclient.Effects.{Errors, Act, ◌>>=◌, ◌>>◌, give, ask, tell, wrapped, wrapping}
use homeworld.Keyclient.Target.{RequestTarget, entries}

pub record KncServer : Type 0 where
  pub hostname : String
  pub kerberos_ticket_cache : String

-- `os.Environ`, `net/url`, and `os/exec`: a process has arguments, an environment unless it is
-- inherited, and an input; `describe` adds what an `*exec.ExitError` wrote to its standard error.
pub record Processes (W : Type 0) : Type 0 where
  pub environ : W → List String
  pub stdin_pipe : W → Result (Unit {0})
  pub output : List String → Option (List String) → String → W → Result String × W
  pub describe : Error → Error
  pub url_hostname : String → Result String

module _ {W : Type 0} (processes : Processes W) (errors : Errors) (json : Json) where
  abbrev environment_for : String → List String → Option (List String)
  environment_for ticket_cache env =
      if not (ticket_cache == "")
      then some (modified_environ "KRB5CCNAME" ticket_cache env)
      else none

  unfoldable pub knc_request : KncServer → String → Act W String
  unfolding modified_environ
  knc_request k data' = do
    env ← ask (λ w. ok (environment_for k.kerberos_ticket_cache (processes.environ w)))
    ask processes.stdin_pipe
    wrapping processes.describe (
        tell (
          processes.output ("/usr/bin/knc" ∷ str_append "host@" k.hostname ∷ "20575" ∷ []) env
            data'))

  -- `KncServer.SendRequests`
  unfoldable pub knc_send_requests : KncServer → RequestTarget W
  unfolding knc_request
  knc_send_requests k reqs = do
    raw_reqs ←
        give
          (wrapped (errors.wrap "while packing json") (json.encode_operations (map entries reqs)))
    raw_resps ← wrapping (errors.wrap "while performing request") (knc_request k raw_reqs)
    give (
        guard (not (raw_resps == "")) (
          message
            "empty response, likely because the server does not recognize your Kerberos identity"))
    resps ←
        give (
          wrapped (errors.wrap "while unpacking json ('%s' -> '%s')") (json.decode_texts raw_resps))
    give (guard (eqb (length resps) (length reqs)) (message "wrong number of results"))
    give (ok resps)

  -- `AuthenticateWithKerberosTicketsInCache`, for the endpoint's base URL
  unfoldable pub authenticate_with_kerberos_tickets_in_cache :
      String → String → Result (RequestTarget W)
  unfolding knc_send_requests
  authenticate_with_kerberos_tickets_in_cache base_url ticket_cache =
      elim (processes.url_hostname base_url) [
        | ok hostname ↦ ok (
            knc_send_requests
              (record { hostname = hostname; kerberos_ticket_cache = ticket_cache }))
        | err e ↦ err e
        | panic t ↦ panic t
      ]

  unfoldable pub authenticate_with_kerberos_tickets : String → Result (RequestTarget W)
  unfolding authenticate_with_kerberos_tickets_in_cache
  authenticate_with_kerberos_tickets base_url =
      authenticate_with_kerberos_tickets_in_cache base_url ""
