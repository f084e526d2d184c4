-- ===== src/Impersonation.antt =====
-- Impersonation from the client to the keyserver: api/reqtarget/impersonate.go of platform/keysystem
-- over keyserver/operation/operation.go.
use homeworld.Common.{ℕ, suc, String, ◌≡◌, refl, ap, true, some, List, ◌∷◌, map, eq_iff, ok}
use homeworld.Common.Dict.{lookup}
use homeworld.Token.{Tokens}
use homeworld.Account.{
  Account, Context, Packages, Reading, Session, GroupId, impersonate, has_member, get_account,
  principal-get_account, invoke,
}
use homeworld.Operation.{run_operation, run_operations, prepend, proceed}
use homeworld.Keyclient.Target.{Request, entries}

-- The session of a batch that an account sends.
abbrev pub session_as : Account → Tokens → Session
session_as a tokens = record { account = some a; tokens = tokens }

module _ (p : Packages) (ctx : Context) where
  -- The request that a client puts before a batch to impersonate a user is run in one step: it gives
  -- the empty result, and from then on the account of the user acts.
  run_impersonation :
      (r : Reading) (api user : String) (group : GroupId) (a b : Account) (tokens : Tokens)
      → lookup api a.privileges ≡ some (impersonate group)
      → has_member (ctx.members group) user ≡ true
      → get_account ctx user ≡ ok b
      → run_operation p ctx r (entries (record { api = api; body = user })) (session_as a tokens)
        ≡ (ok "", session_as b tokens)
  unfolding run_operation invoke lookup
  run_impersonation r api user group a b tokens granted member found =
      let same = (eq_iff b.principal user).1 (principal-get_account ctx user found) in
      rw (granted, invoke, member, found, same) refl

  -- If an account may impersonate a user of a group, the batch that a client sends to impersonate this
  -- user does what the batch itself does for the account of the user, with the same tokens; its
  -- results stand behind one empty result.
  pub impersonated_run :
      (readings : ℕ → Reading) (i : ℕ) (api user : String) (group : GroupId) (a b : Account)
      (reqs : List Request) (tokens : Tokens)
      → lookup api a.privileges ≡ some (impersonate group)
      → has_member (ctx.members group) user ≡ true
      → get_account ctx user ≡ ok b
      → run_operations p ctx readings i
          (map entries (record { api = api; body = user } ∷ reqs))
          (session_as a tokens)
        ≡ prepend ""
            (run_operations p ctx readings (suc i) (map entries reqs) (session_as b tokens))
  unfolding run_operations
  impersonated_run readings i api user group a b reqs tokens granted member found =
      ap (proceed (run_operations p ctx readings (suc i) (map entries reqs)))
        (run_impersonation (readings i) api user group a b tokens granted member found)
