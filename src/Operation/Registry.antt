-- ===== src/Operation/Registry.antt =====
-- What the batches of operation/operation.go do to the registry of bootstrap tokens, whether they
-- succeed or not.
use homeworld.Common.{
  ℕ, suc, String, ◌≡◌, sym, ap, ◌∙◌, subst, inl, inr, true, Option, none, some, List, [], ◌∷◌,
  arith, Bool-cases, Result, ok, err, panic,
}
use homeworld.Common.Dict.{Dict, lookup, AllValues}
use homeworld.Token.{ScopedToken, Tokens}
use homeworld.Token.Registry.{IsValid, grant_token-IsValid, grant_token-AllValues}
use homeworld.Account.{
  Privilege, tls_grant, ssh_grant, bootstrap, impersonate, configuration, fetch_key, GroupId,
  Account, Context, Packages, Reading, Session, invoke, has_member,
}
use homeworld.Operation.{
  perform, invoke_as, run_entries, run_decoded, Json, invoke_api_operation, run_operation,
  run_operations, invoke_api_operation_set, prepend, proceed,
}

-- The subject of a token is a member of some group.
abbrev pub IsMember : Context → ScopedToken → Type 0
IsMember ctx t = (group : GroupId) × (has_member (ctx.members group) t.subject ≡ true)

-- The registry is well formed, and every token in it is for a member of a group.
pub record IsSound (ctx : Context) (s : Tokens) : Type 0 where
  pub valid : IsValid s
  pub members : AllValues (IsMember ctx) s.registry.by_token

module _ (p : Packages) (ctx : Context) where
  bootstrap-IsSound :
      (r : Reading) (group : GroupId) (lifespan : ℕ) (principal : String) (s : Session)
      → IsSound ctx s.tokens
      → IsSound ctx (invoke p ctx r (bootstrap group lifespan) principal s).1.tokens
  unfolding invoke
  bootstrap-IsSound r group lifespan principal s v =
      elim (Bool-cases (has_member (ctx.members group) principal)) [
        | inl member ↦ rw member (record {
          valid = grant_token-IsValid p.encoding principal lifespan r.moment s.tokens v.valid;
          members =
              grant_token-AllValues p.encoding (IsMember ctx) principal lifespan r.moment s.tokens
                (λ t e. (group, ap (has_member (ctx.members group)) e ∙ member)) v.members;
        })
        | inr other ↦ rw other v
      ]

  tokens-impersonate :
      (r : Reading) (group : GroupId) (body : String) (s : Session)
      → (invoke p ctx r (impersonate group) body s).1.tokens ≡ s.tokens
  unfolding invoke
  tokens-impersonate r group body s = ground arith

  invoke-IsSound :
      (r : Reading) (priv : Privilege) (body : String) (s : Session)
      → IsSound ctx s.tokens
      → IsSound ctx (invoke p ctx r priv body s).1.tokens
  unfolding invoke
  invoke-IsSound r (bootstrap group lifespan) body s v = bootstrap-IsSound r group lifespan body s v
  invoke-IsSound r (impersonate group) body s v =
      subst (IsSound ctx) (sym (tokens-impersonate r group body s)) v
  invoke-IsSound r (tls_grant _ _ _ _ _ _) body s v = v
  invoke-IsSound r (ssh_grant _ _ _ _ _) body s v = v
  invoke-IsSound r (configuration _) body s v = v
  invoke-IsSound r (fetch_key _) body s v = v

  perform-IsSound :
      (r : Reading) (a : Account) (api body : String) (found : Option Privilege) (s : Session)
      → IsSound ctx s.tokens
      → IsSound ctx (perform p ctx r a api body found s).1.tokens
  unfolding perform
  perform-IsSound r a api body none s v = v
  perform-IsSound r a api body (some priv) s v = invoke-IsSound r priv body s v

  invoke_as-IsSound :
      (r : Reading) (acting : Option Account) (api body : String) (s : Session)
      → IsSound ctx s.tokens
      → IsSound ctx (invoke_as p ctx r acting api body s).1.tokens
  unfolding invoke_as
  invoke_as-IsSound r none api body s v = v
  invoke_as-IsSound r (some a) api body s v =
      perform-IsSound r a api body (lookup api a.privileges) s v

  invoke_api_operation-IsSound :
      (r : Reading) (api body : String) (s : Session)
      → IsSound ctx s.tokens
      → IsSound ctx (invoke_api_operation p ctx r api body s).1.tokens
  unfolding invoke_api_operation
  invoke_api_operation-IsSound r api body s v = invoke_as-IsSound r s.account api body s v

  run_entries-IsSound :
      (r : Reading) (api body : Option String) (s : Session)
      → IsSound ctx s.tokens
      → IsSound ctx (run_entries p ctx r api body s).1.tokens
  unfolding run_entries
  run_entries-IsSound r none body s v = v
  run_entries-IsSound r (some api) none s v = v
  run_entries-IsSound r (some api) (some body) s v = invoke_api_operation-IsSound r api body s v

  run_operation-IsSound :
      (r : Reading) (operation : Dict String) (s : Session)
      → IsSound ctx s.tokens
      → IsSound ctx (run_operation p ctx r operation s).1.tokens
  unfolding run_operation
  run_operation-IsSound r operation s v =
      run_entries-IsSound r (lookup "api" operation) (lookup "body" operation) s v

  -- `proceed` keeps what the operation and the rest of the loop keep.
  proceed-IsSound :
      (rest : Session → Result (List String) × Session) (first : Result String × Session)
      → ((x : Session) → IsSound ctx x.tokens → IsSound ctx (rest x).1.tokens)
      → IsSound ctx first.1.tokens
      → IsSound ctx (proceed rest first).1.tokens
  proceed-IsSound rest (ok result, s) keep v = prepend-IsSound (rest s) (keep s v)
    where
      prepend-IsSound :
          (later : Result (List String) × Session)
          → IsSound ctx later.1.tokens
          → IsSound ctx (prepend result later).1.tokens
      prepend-IsSound (ok xs, s') k = k
      prepend-IsSound (err e, s') k = k
      prepend-IsSound (panic t, s') k = k
  proceed-IsSound rest (err e, s) keep v = v
  proceed-IsSound rest (panic t, s) keep v = v

  run_operations-IsSound :
      (readings : ℕ → Reading) (i : ℕ) (ops : List (Dict String)) (s : Session)
      → IsSound ctx s.tokens
      → IsSound ctx (run_operations p ctx readings i ops s).1.tokens
  unfolding run_operations
  run_operations-IsSound readings i [] s v = v
  run_operations-IsSound readings i (operation ∷ ops) s v =
      proceed-IsSound (run_operations p ctx readings (suc i) ops)
        (run_operation p ctx (readings i) operation s)
        (λ x. run_operations-IsSound readings (suc i) ops x)
        (run_operation-IsSound (readings i) operation s v)

  run_decoded-IsSound :
      (json : Json) (readings : ℕ → Reading) (a : Account) (decoded : Result (List (Dict String)))
      (s : Tokens)
      → IsSound ctx s
      → IsSound ctx (run_decoded p ctx json readings a decoded s).1
  unfolding run_decoded
  run_decoded-IsSound json readings a (ok ops) s v =
      run_operations-IsSound readings 0 ops (record { account = some a; tokens = s }) v
  run_decoded-IsSound json readings a (err e) s v = v
  run_decoded-IsSound json readings a (panic t) s v = v

  -- Every batch, also one that fails or panics half way, keeps the registry well formed and its
  -- tokens for members of the groups that may be bootstrapped.
  pub invoke_api_operation_set-IsSound :
      (json : Json) (readings : ℕ → Reading) (a : Account) (body : String) (s : Tokens)
      → IsSound ctx s
      → IsSound ctx (invoke_api_operation_set p ctx json readings a body s).1
  unfolding invoke_api_operation_set
  invoke_api_operation_set-IsSound json readings a body s v =
      run_decoded-IsSound json readings a (json.decode_operations body) s v
