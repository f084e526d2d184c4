-- ===== src/Operation.antt =====
-- platform/keysystem/keyserver/operation/operation.go
use homeworld.Common.{
  ℕ, suc, ◌-◌, ◌/◌, String, ap, Option, none, some, List, [], ◌∷◌, message, operation_forbidden,
  Result, ok, err, panic, ◌>>=◌, ◌>>◌,
}
use homeworld.Common.Dict.{Dict, lookup}
pub mod Authorization
pub mod Registry
pub mod Sequence
use homeworld.Token.{Tokens}
use homeworld.Account.{Privilege, Account, Context, Packages, Reading, Session, invoke}

-- `encoding/json`, for the requests and the results.
pub record Json : Type 0 where
  pub decode_operations : String → Result (List (Dict String))
  pub encode_texts : List String → Result String
  pub encode_operations : List (Dict String) → Result String
  pub decode_texts : String → Result (List String)

abbrev pub prepend : String → Result (List String) × Session → Result (List String) × Session
prepend result (ok results, s) = (ok (result ∷ results), s)
prepend result (err e, s) = (err e, s)
prepend result (panic t, s) = (panic t, s)

-- An error of one operation ends the loop, and what was done before stays done.
abbrev pub proceed :
    (Session → Result (List String) × Session)
    → Result String × Session
    → Result (List String) × Session
proceed rest (ok result, s) = prepend result (rest s)
proceed rest (err e, s) = (err e, s)
proceed rest (panic t, s) = (panic t, s)

module _ (p : Packages) (ctx : Context) where
  perform :
      Reading → Account → String → String → Option Privilege → Session → Result String × Session
  perform r account api request_body none s = (err (operation_forbidden account.principal api), s)
  perform r account api request_body (some priv) s = invoke p ctx r priv request_body s

  invoke_as : Reading → Option Account → String → String → Session → Result String × Session
  unfolding perform
  invoke_as r none api request_body s = (err (message "missing account during request"), s)
  invoke_as r (some account) api request_body s =
      perform r account api request_body (lookup api account.privileges) s

  unfoldable pub invoke_api_operation :
      Reading → String → String → Session → Result String × Session
  unfolding invoke_as
  invoke_api_operation r api request_body s = invoke_as r s.account api request_body s

  -- One element of the decoded request, by its entries "api" and "body".
  run_entries : Reading → Option String → Option String → Session → Result String × Session
  unfolding invoke_api_operation
  run_entries r none body s = (err (message "missing API request in JSON"), s)
  run_entries r (some api) none s = (err (message "missing body request in JSON"), s)
  run_entries r (some api) (some body) s = invoke_api_operation r api body s

  unfoldable pub run_operation : Reading → Dict String → Session → Result String × Session
  unfolding run_entries
  run_operation r operation s = run_entries r (lookup "api" operation) (lookup "body" operation) s

  -- The loop; `readings i` is what the operation with number `i` reads.
  unfoldable pub run_operations :
      (ℕ → Reading) → ℕ → List (Dict String) → Session → Result (List String) × Session
  run_operations readings i [] s = (ok [], s)
  run_operations readings i (operation ∷ ops) s =
      proceed (run_operations readings (suc i) ops) (run_operation (readings i) operation s)

  run_decoded :
      Json → (ℕ → Reading) → Account → Result (List (Dict String)) → Tokens → Result String × Tokens
  run_decoded json readings a (ok ops) tokens =
      let start : Session = record { account = some a; tokens = tokens } in
      let (r, s) = run_operations readings 0 ops start in
      (do results ← r; json.encode_texts results, s.tokens)
  run_decoded json readings a (err e) tokens = (err e, tokens)
  run_decoded json readings a (panic t) tokens = (panic t, tokens)

  unfoldable pub invoke_api_operation_set :
      Json → (ℕ → Reading) → Account → String → Tokens → Result String × Tokens
  unfolding run_decoded
  invoke_api_operation_set json readings a request_body tokens =
      run_decoded json readings a (json.decode_operations request_body) tokens
