-- ===== src/Operation/Sequence.antt =====
-- The order of the operations of a batch, and what stops it.
use homeworld.Common.{
  ℕ, String, ◌≡◌, refl, sym, ap, ◌∙◌, subst, some, List, [], ◌∷◌, Result, ok, All,
}
use homeworld.Common.Dict.{Dict, lookup, AllValues, AllValues-lookup}
use homeworld.Account.{
  Privilege, tls_grant, ssh_grant, bootstrap, impersonate, configuration, fetch_key, Account,
  Context, Packages, Reading, Session,
}
use homeworld.Operation.{run_operations, prepend}
use homeworld.Operation.Authorization.{Becomes, Permitted, done, act, run_operations-Permitted}

abbrev pub prepend_all :
    List String → Result (List String) × Session → Result (List String) × Session
prepend_all [] later = later
prepend_all (x ∷ xs) later = prepend x (prepend_all xs later)

-- A privilege that lets nobody act as another account.
abbrev pub KeepsAccount : Privilege → Type 0
KeepsAccount (impersonate group) = ⊥
KeepsAccount _ = Unit

-- Every operation names an API that the account has.
abbrev pub AllGranted : Account → List (Dict String) → Type 0
AllGranted a ops =
    All
      (λ operation.
        (api : String) × (priv : Privilege) × (lookup "api" operation ≡ some api)
        × (lookup api a.privileges ≡ some priv))
      ops

KeepsAccount-Becomes :
    (ctx : Context) (priv : Privilege) (body : String) {a b : Account}
    → KeepsAccount priv
    → Becomes ctx priv body a b
    → b ≡ a
KeepsAccount-Becomes ctx (impersonate group) body k h = absurd k
KeepsAccount-Becomes ctx (tls_grant _ _ _ _ _ _) body k h = h
KeepsAccount-Becomes ctx (ssh_grant _ _ _ _ _) body k h = h
KeepsAccount-Becomes ctx (bootstrap group lifespan) body k h = h
KeepsAccount-Becomes ctx (configuration _) body k h = h
KeepsAccount-Becomes ctx (fetch_key _) body k h = h

pub Permitted-AllGranted :
    {ctx : Context} {a b : Account} {ops : List (Dict String)}
    → AllValues KeepsAccount a.privileges
    → Permitted ctx a ops b
    → (b ≡ a) × AllGranted a ops
Permitted-AllGranted v done = (refl, tt)
Permitted-AllGranted {ctx} {a} v
      (act {ops = later} {api = api} {body = body} {priv = priv} has_api has_body granted becomes
        rest) =
    let same =
      KeepsAccount-Becomes ctx priv body
        (AllValues-lookup KeepsAccount api priv a.privileges v granted) becomes in
    let (e, others) =
      Permitted-AllGranted
        (subst (λ (x : Account). AllValues KeepsAccount x.privileges) (sym same) v) rest in
    (e ∙ same, ((api, priv, has_api, granted), subst (λ x. AllGranted x later) same others))

module _ (p : Packages) (ctx : Context) where
  -- An account with no privilege to impersonate is confined: a batch that succeeds used its own
  -- privileges alone, and it still acts at the end.
  pub run_operations-confined :
      (readings : ℕ → Reading) (i : ℕ) (ops : List (Dict String)) (s : Session) (a : Account)
      {results : List String}
      → AllValues KeepsAccount a.privileges
      → (run_operations p ctx readings i ops s).0 ≡ ok results
      → s.account ≡ some a
      → AllGranted a ops × ((run_operations p ctx readings i ops s).1.account ≡ some a)
  run_operations-confined readings i ops s a v h e =
      let (b, permitted, as_b, count) = run_operations-Permitted p ctx readings i ops s a h e in
      let (same, granted) = Permitted-AllGranted v permitted in (granted, as_b ∙ ap some same)
