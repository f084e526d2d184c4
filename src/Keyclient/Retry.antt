-- ===== src/Keyclient/Retry.antt =====
-- What the key client does when the keyserver forbids an operation, and what impersonation sends.
use Prim.Native.String.{◌++◌ as str_append}
use homeworld.Common.{
  ◌+◌, String, ◌≡◌, refl, ◌≢◌, ◌↔◌, true, false, List, [], ◌∷◌, arith, Error, forbidden_by_server,
  Result, ok, err, panic, length,
}
use homeworld.Common.Dict.{insert}
use homeworld.Operation.{Json}
use homeworld.Keyclient.Effects.{
  Client, Errors, Credential, HttpRequest, HttpResponse, Os, Act, give, and_then,
}
use homeworld.Keyclient.Target.{Request, RequestTarget, impersonated, checked_rest}
use homeworld.Keyclient.State.{retry_after}
use homeworld.Keyclient.Loop.{Round, Pause, run_round, after_round, new_action_context}

-- What `pkg/errors` documents of `Wrap` and `Cause`: wrapping keeps the cause, an error that wraps
-- nothing is its own cause, and a wrapper is an error of a type of its own.
pub record IsWrapping (errors : Errors) : Type 0 where
  pub cause_wrap : (text : String) (e : Error) → errors.cause (errors.wrap text e) ≡ errors.cause e
  pub cause_forbidden : errors.cause forbidden_by_server ≡ forbidden_by_server
  pub wrap_type : (text : String) (e : Error) → errors.wrap text e ≢ forbidden_by_server

module _ {W : Type 0} (os : Os W) (errors : Errors) (json : Json) (base_url : String) where
  -- The request for one operation, as it is sent.
  abbrev pub the_request : Credential → String → HttpRequest
  the_request credential reqbody = record {
    verb = "POST";
    url = str_append base_url "apirequest";
    credential = credential;
    body = reqbody;
  }

  -- The server forbids the operation, in the state that the client has.
  pub record IsForbidden (credential : Credential) (api body : String) (c : Client W) (w : W)
      : Type 0 where
    pub reqbody : String
    pub response : HttpResponse
    pub encoded : json.encode_operations ((("api", api) ∷ ("body", body) ∷ []) ∷ []) ≡ ok reqbody
    pub sent : os.send (the_request credential reqbody) c.world ≡ (ok response, w)
    pub status : response.status ≡ 403

  -- The client once it has recorded the API.
  abbrev recorded : String → Client W → W → Client W
  recorded api c w = record c {
    world = w;
    retry_at = insert api (os.now w + retry_after) c.retry_at;
  }

module _ {W : Type 0} where
  -- An impersonated batch is the batch behind the operation that impersonates, and its results are
  -- the results behind the first, if they are as many.
  impersonated_iff :
      (base : RequestTarget W) (api user : String) (reqs : List Request) (c c' : Client W)
      (results : List String)
      → (impersonated base api user reqs c ≡ (ok results, c')) ↔ (
          (first : String) × (base (record { api = api; body = user } ∷ reqs) c
            ≡ (ok (first ∷ results), c'))
          × (length results ≡ length reqs))
  unfolding impersonated
  impersonated_iff base api user reqs c c' results =
      from_base (base (record { api = api; body = user } ∷ reqs) c)
    where
      from_base :
          (answer : Result (List String) × Client W)
          → (and_then
                (λ responses.
                  give (checked_rest (record { api = api; body = user } ∷ reqs) responses))
                answer
              ≡ (ok results, c'))
            ↔ ((first : String) × (answer ≡ (ok (first ∷ results), c'))
                × (length results ≡ length reqs))
      from_base (ok [], s) = (λ h. ground arith, λ (first, e, count). ground arith)
      from_base (ok (first ∷ rest), s) =
          (λ h. (first, ground arith, ground arith), λ (x, e, count). ground arith)
      from_base (err e, s) = (λ h. ground arith, λ (first, h, count). ground arith)
      from_base (panic t, s) = (λ h. ground arith, λ (first, h, count). ground arith)

  -- `onReady` is called in a round only if its actions performed nothing and were not blocked, and the
  -- round before was not stable; the state of the loop is then stable.
  run_round-ready :
      (actions : Act W (Unit {0})) (r r' : Round W) (pause : Pause)
      → run_round actions r ≡ ok (r', (true, pause))
      → (r.was_stabilized ≡ false)
        × (r'.was_stabilized ≡ true)
        × (r'.client.performed ≡ false)
        × (r'.client.blocked_by ≡ [])
        × (r'.client ≡ (actions (new_action_context r.client)).1)
  unfolding run_round
  run_round-ready actions r r' pause h = from_actions (actions (new_action_context r.client)) h
    where
      from_actions :
          (ran : Result (Unit {0}) × Client W)
          → after_round r ran ≡ ok (r', (true, pause))
          → (r.was_stabilized ≡ false)
            × (r'.was_stabilized ≡ true)
            × (r'.client.performed ≡ false)
            × (r'.client.blocked_by ≡ [])
            × (r'.client ≡ ran.1)
      from_actions (ok u, x) e =
          (ground arith, ground arith, ground arith, not_blocked x.blocked_by refl e, ground arith)
        where
          not_blocked :
              (es : List Error)
              → x.blocked_by ≡ es
              → after_round r (ok u, x) ≡ ok (r', (true, pause))
              → r'.client.blocked_by ≡ []
          not_blocked [] q k = ground arith
          not_blocked (e1 ∷ es) q k = ground arith
      from_actions (err e', x) e = cc
      from_actions (panic t, x) e = cc
