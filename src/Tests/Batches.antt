-- ===== src/Tests/Batches.antt =====
-- Batches of operations for two accounts, of which alice may act as bob.
use homeworld.Common.{
  ℕ, String, ◌≡◌, refl, ap, true, false, none, some, List, [], ◌∷◌, map, Result, ok, length,
}
use homeworld.Common.Dict.{Dict, lookup}
use homeworld.Token.{new_tokens}
use homeworld.Account.{
  Account, Context, Session, Reading, impersonate, configuration, kerberos_accounts, get_account,
  has_member, invoke,
}
use homeworld.Operation.{run_operations, run_operation, invoke_api_operation}
use homeworld.Operation.Authorization.{Permitted, run_operations-Permitted}
use homeworld.Operation.Sequence.{run_operations-confined, AllGranted}
use homeworld.Operation.{prepend}
use homeworld.Keyclient.Target.{Request, entries}
use homeworld.Impersonation.{impersonated_run}
use homeworld.Tests.Sample.{packages, no_context, reading}

abbrev bob : Account
bob = record {
  principal = "bob";
  disable_direct_auth = true;
  limit_ip = none;
  privileges = ("get", configuration "hello") ∷ [];
}

abbrev alice : Account
alice = record {
  principal = "alice";
  disable_direct_auth = false;
  limit_ip = none;
  privileges = ("as", impersonate kerberos_accounts) ∷ [];
}

abbrev ctx : Context
ctx = record no_context {
  accounts = ("alice", alice) ∷ ("bob", bob) ∷ [];
  members = λ group. bob ∷ [];
}

abbrev as_bob : Dict String
as_bob = ("api", "as") ∷ ("body", "bob") ∷ []

abbrev get : Dict String
get = ("api", "get") ∷ ("body", "") ∷ []

abbrev session_of : Account → Session
session_of a = record { account = some a; tokens = new_tokens }

abbrev always : ℕ → Reading
always i = reading

abbrev run : List (Dict String) → Account → Result (List String) × Session
run ops a = run_operations packages ctx always 0 ops (session_of a)

ran : run (as_bob ∷ get ∷ []) alice ≡ (ok ("" ∷ "hello" ∷ []), session_of bob)
unfolding run_operations run_operation invoke_api_operation invoke lookup has_member get_account
ran = refl

got : run (get ∷ []) bob ≡ (ok ("hello" ∷ []), session_of bob)
unfolding run_operations run_operation invoke_api_operation invoke lookup
got = refl

abbrev answers : List String
answers = "" ∷ "hello" ∷ []

run_operations-Permitted_example :
    (b : Account) × Permitted ctx alice (as_bob ∷ get ∷ []) b
    × ((run (as_bob ∷ get ∷ []) alice).1.account ≡ some b)
    × (length answers ≡ 2)
run_operations-Permitted_example =
    run_operations-Permitted packages ctx always 0 (as_bob ∷ get ∷ []) (session_of alice) alice
      (ap (λ (x : Result (List String) × Session). x.0) ran) refl

run_operations-confined_example :
    AllGranted bob (get ∷ []) × ((run (get ∷ []) bob).1.account ≡ some bob)
run_operations-confined_example =
    run_operations-confined packages ctx always 0 (get ∷ []) (session_of bob) bob (tt, tt)
      (ap (λ (x : Result (List String) × Session). x.0) got) refl

may_become : lookup "as" alice.privileges ≡ some (impersonate kerberos_accounts)
unfolding lookup
may_become = refl

is_bob : has_member (ctx.members kerberos_accounts) "bob" ≡ true
unfolding has_member
is_bob = refl

bob_found : get_account ctx "bob" ≡ ok bob
unfolding get_account lookup
bob_found = refl

abbrev get_request : Request
get_request = record { api = "get"; body = "" }

impersonated_run_example :
    run (map entries (record { api = "as"; body = "bob" } ∷ get_request ∷ [])) alice
    ≡ prepend ""
        (run_operations packages ctx always 1 (map entries (get_request ∷ [])) (session_of bob))
impersonated_run_example =
    impersonated_run packages ctx always 0 "as" "bob" kerberos_accounts alice bob (get_request ∷ [])
      new_tokens may_become is_bob bob_found
