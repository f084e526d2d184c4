-- ===== src/Operation/Authorization.antt =====
-- Who is authorized to what, in the batches of operation/operation.go.
use homeworld.Common.{
  ℕ, suc, String, ◌≡◌, refl, sym, ap, ◌∙◌, inl, inr, true, none, some, List, [], ◌∷◌, arith, eq_iff,
  Option-cases, Result, ok, err, panic, >>=-eq-ok, length,
}
use homeworld.Common.Dict.{Dict, lookup}
use homeworld.Account.{
  Privilege, tls_grant, ssh_grant, bootstrap, impersonate, configuration, fetch_key, Account,
  Context, Packages, Reading, Session, invoke, has_member, get_account, GroupId,
}
use homeworld.Token.{Tokens}
use homeworld.Operation.{
  Json, run_decoded, invoke_api_operation_set, run_operation, run_operations, prepend, proceed,
}

-- Which account acts after the privilege is used: for an impersonation, the account that the
-- context has for the principal, if it is in the scope; else the same.
abbrev pub Becomes : Context → Privilege → String → Account → Account → Type 0
Becomes ctx (impersonate group) body a b =
    (has_member (ctx.members group) body ≡ true)
    × (get_account ctx body ≡ ok b)
    × (b.principal ≡ body)
Becomes ctx _ body a b = b ≡ a

-- The batch `ops` is permitted to the account `a`, and ends as `b`: each operation names an API that
-- is a privilege of the account which acts then.
pub data Permitted (ctx : Context) : Account → List (Dict String) → Account → Type 0 where
  done : {a : Account} → Permitted ctx a [] a
  act :
      {a b c : Account} {operation : Dict String} {ops : List (Dict String)} {api body : String}
      {priv : Privilege}
      → lookup "api" operation ≡ some api
      → lookup "body" operation ≡ some body
      → lookup api a.privileges ≡ some priv
      → Becomes ctx priv body a b
      → Permitted ctx b ops c
      → Permitted ctx a (operation ∷ ops) c

prepend-eq-ok :
    (result : String) (later : Result (List String) × Session) {results : List String}
    → (prepend result later).0 ≡ ok results
    → (rest : List String) × (later.0 ≡ ok rest)
      × (results ≡ result ∷ rest)
      × ((prepend result later).1 ≡ later.1)
prepend-eq-ok result (ok rest, s) h = (rest, refl, ground arith, refl)
prepend-eq-ok result (err e, s) h = cc
prepend-eq-ok result (panic t, s) h = cc

proceed-eq-ok :
    (then_do : Session → Result (List String) × Session) (first : Result String × Session)
    {results : List String}
    → (proceed then_do first).0 ≡ ok results
    → (result : String) × (rest : List String) × (first.0 ≡ ok result)
      × ((then_do first.1).0 ≡ ok rest)
      × (results ≡ result ∷ rest)
      × ((proceed then_do first).1 ≡ (then_do first.1).1)
proceed-eq-ok then_do (ok result, s) h =
    let (rest, later, same, after) = prepend-eq-ok result (then_do s) h in
    (result, rest, refl, later, same, after)
proceed-eq-ok then_do (err e, s) h = cc
proceed-eq-ok then_do (panic t, s) h = cc

module _ (p : Packages) (ctx : Context) where
  -- The three outcomes of the lookup of the account to act as.
  impersonate-Becomes :
      (r : Reading) (group : GroupId) (body : String) (s : Session) {result : String}
      (found : Result Account)
      → get_account ctx body ≡ found
      → (invoke p ctx r (impersonate group) body s).0 ≡ ok result
      → (b : Account) × ((has_member (ctx.members group) body ≡ true)
          × (get_account ctx body ≡ ok b)
          × (b.principal ≡ body))
        × ((invoke p ctx r (impersonate group) body s).1.account ≡ some b)
  unfolding invoke
  impersonate-Becomes r group body s (ok b) g h = (
    b,
    (ground arith, g, ground (arith, eq_iff b.principal body)),
    ground (arith, eq_iff b.principal body),
  )
  impersonate-Becomes r group body s (err e) g h = ground arith
  impersonate-Becomes r group body s (panic t) g h = ground arith

  invoke-Becomes :
      (r : Reading) (priv : Privilege) (body : String) (s : Session) (a : Account) {result : String}
      → (invoke p ctx r priv body s).0 ≡ ok result
      → s.account ≡ some a
      → (b : Account) × Becomes ctx priv body a b
        × ((invoke p ctx r priv body s).1.account ≡ some b)
  unfolding invoke
  invoke-Becomes r (impersonate group) body s a h e =
      impersonate-Becomes r group body s (get_account ctx body) refl h
  invoke-Becomes r (tls_grant _ _ _ _ _ _) body s a h e = (a, refl, e)
  invoke-Becomes r (ssh_grant _ _ _ _ _) body s a h e = (a, refl, e)
  invoke-Becomes r (bootstrap group lifespan) body s a h e = (a, refl, ground arith)
  invoke-Becomes r (configuration _) body s a h e = (a, refl, e)
  invoke-Becomes r (fetch_key _) body s a h e = (a, refl, e)

  run_operation_sound :
      (r : Reading) (operation : Dict String) (s : Session) (a : Account) {result : String}
      → (run_operation p ctx r operation s).0 ≡ ok result
      → s.account ≡ some a
      → (api : String) × (body : String) × (priv : Privilege) × (lookup "api" operation ≡ some api)
        × (lookup "body" operation ≡ some body)
        × (lookup api a.privileges ≡ some priv)
        × (run_operation p ctx r operation s ≡ invoke p ctx r priv body s)
  unfolding run_operation
  run_operation_sound r operation s a {result} h e = elim (Option-cases (lookup "api" operation)) [
    | inl none_api ↦ absurd (missing_api none_api)
    | inr (api, has_api) ↦ elim (Option-cases (lookup "body" operation)) [
      | inl none_body ↦ absurd (missing_body api has_api none_body)
      | inr (body, has_body) ↦ elim (Option-cases (lookup api a.privileges)) [
        | inl denied ↦ absurd (forbidden api body has_api has_body denied)
        | inr (priv, granted) ↦ (api, body, priv, has_api, has_body, granted, ground arith)
      ]
    ]
  ]
    where
      missing_api : lookup "api" operation ≡ none → ⊥
      missing_api k = ground arith

      missing_body :
          (api : String) → lookup "api" operation ≡ some api → lookup "body" operation ≡ none → ⊥
      missing_body api j k = ground arith

      forbidden :
          (api body : String)
          → lookup "api" operation ≡ some api
          → lookup "body" operation ≡ some body
          → lookup api a.privileges ≡ none
          → ⊥
      forbidden api body i j k = ground arith

  run_operations_cons :
      (readings : ℕ → Reading) (i : ℕ) (operation : Dict String) (ops : List (Dict String))
      (s : Session) {results : List String}
      → (run_operations p ctx readings i (operation ∷ ops) s).0 ≡ ok results
      → (result : String) × (rest : List String) × ((run_operation p ctx (readings i) operation s).0
          ≡ ok result)
        × ((run_operations p ctx readings
              (suc i)
              ops
              (run_operation p ctx (readings i) operation s).1).0
            ≡ ok rest)
        × (results ≡ result ∷ rest)
        × ((run_operations p ctx readings i (operation ∷ ops) s).1
            ≡ (run_operations p ctx readings
                (suc i)
                ops
                (run_operation p ctx (readings i) operation s).1).1)
  unfolding run_operations
  run_operations_cons readings i operation ops s h =
      proceed-eq-ok (run_operations p ctx readings (suc i) ops)
        (run_operation p ctx (readings i) operation s) h

  -- A batch that succeeds was permitted, operation by operation, to the account that it began as,
  -- has one result for each operation, and leaves the account that it became.
  pub run_operations-Permitted :
      (readings : ℕ → Reading) (i : ℕ) (ops : List (Dict String)) (s : Session) (a : Account)
      {results : List String}
      → (run_operations p ctx readings i ops s).0 ≡ ok results
      → s.account ≡ some a
      → (b : Account) × Permitted ctx a ops b
        × ((run_operations p ctx readings i ops s).1.account ≡ some b)
        × (length results ≡ length ops)
  run_operations-Permitted readings i [] s a h e =
      (a, done, unfold run_operations in e, unfold run_operations in ground arith)
  run_operations-Permitted readings i (operation ∷ ops) s a h e =
      let (result, rest, now, later, same, after) =
        run_operations_cons readings i operation ops s h in
      let (api, body, priv, has_api, has_body, granted, step) =
        run_operation_sound (readings i) operation s a now e in
      let (b, becomes, as_b) =
        invoke-Becomes (readings i) priv body s a
          ((sym (ap (λ (x : Result String × Session). x.0) step)) ∙ now) e in
      let (c, permitted, as_c, count) =
        run_operations-Permitted readings (suc i) ops
          (run_operation p ctx (readings i) operation s).1 b later
          (ap (λ (x : Result String × Session). x.1.account) step ∙ as_b) in
      (
        c,
        act has_api has_body granted becomes permitted,
        ap (λ (x : Session). x.account) after ∙ as_c,
        ap length same ∙ ap suc count,
      )

  decoded_sound :
      (json : Json) (readings : ℕ → Reading) (a : Account) (decoded : Result (List (Dict String)))
      (tokens : Tokens) {response : String}
      → (run_decoded p ctx json readings a decoded tokens).0 ≡ ok response
      → (ops : List (Dict String)) × (decoded ≡ ok ops)
        × ((b : Account) × Permitted ctx a ops b)
        × ((results : List String) × (json.encode_texts results ≡ ok response)
            × (length results ≡ length ops))
  unfolding run_decoded
  decoded_sound json readings a (ok ops) tokens h =
      let start : Session = record { account = some a; tokens = tokens } in
      let (results, encoded, ran) = >>=-eq-ok (run_operations p ctx readings 0 ops start).0 _ h in
      let (b, permitted, as_b, count) = run_operations-Permitted readings 0 ops start a ran refl in
      (ops, refl, (b, permitted), (results, encoded, count))
  decoded_sound json readings a (err e) tokens h = cc
  decoded_sound json readings a (panic t) tokens h = cc

  -- The same for the request as the keyserver reads it and answers it: the body is a list of
  -- operations that is permitted to the account, and the answer has a result for each.
  pub invoke_api_operation_set_sound :
      (json : Json) (readings : ℕ → Reading) (a : Account) (body : String) (tokens : Tokens)
      {response : String}
      → (invoke_api_operation_set p ctx json readings a body tokens).0 ≡ ok response
      → (ops : List (Dict String)) × (json.decode_operations body ≡ ok ops)
        × ((b : Account) × Permitted ctx a ops b)
        × ((results : List String) × (json.encode_texts results ≡ ok response)
            × (length results ≡ length ops))
  unfolding invoke_api_operation_set
  invoke_api_operation_set_sound json readings a body tokens h =
      decoded_sound json readings a (json.decode_operations body) tokens h
