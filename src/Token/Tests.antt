-- ===== src/Token/Tests.antt =====
-- Bootstrap tokens at concrete inputs.
use homeworld.Common.{
  ℕ, ◌+◌, String, ◌≡◌, refl, subst, ◌≢◌, inl, false, none, [], ◌∷◌, arith, eq_iff, message, Result,
  ok, err, panic, IsErr, All,
}
use homeworld.Token.{
  Encoding, Moment, Tokens, new_tokens, ScopedToken, has_attempt, grant_token, generate_token,
  verify, lookup_token, add_token, claim, lookup, expire_old_entries,
}
use homeworld.Common.Dict.{lookup, delete_if, insert}
use homeworld.Token.Registry.{IsValid, after_grant, grant_token-IsValid}
use homeworld.Token.Ledger.{
  ledger_of, redeem, issue, unexpired, accepted, verify-refines, grant_token-refines,
}
use homeworld.Token.Redeem.{grant-verify}
use homeworld.Token.Interleaving.{
  In, IsDistinct, System, Reach, start, next, generate, add, look, win, single_use,
}

abbrev enc : Encoding
enc = record { base64 = λ s. s; sha256 = λ s. "xyz" }

abbrev noon : Moment
noon = record { sweep = λ k. 100; now = 100; random = ok "token" }

abbrev state : Tokens
state = after_grant "tokenxy" "node" 60 noon new_tokens

IsValid-new : IsValid new_tokens
IsValid-new = record {
  map = tt;
  keyed = λ k t h. unfold lookup in cc;
  unshared = λ k j t u h. unfold lookup in cc;
}

granted_once : grant_token enc "node" 60 noon new_tokens ≡ (ok "tokenxy", state)
unfolding grant_token lookup delete_if
granted_once = refl

named : ◌≢◌ {A = String} "tokenxy" ""
named = ground (arith, eq_iff "tokenxy" "")

grant-verify_example :
    ((verify 160 "tokenxy" state).0 ≡ ok "node")
    × ((later : ℕ) → IsErr (verify later "tokenxy" (verify 160 "tokenxy" state).1).0)
grant-verify_example =
    grant-verify enc "node" 60 160 noon new_tokens granted_once named (omega arith)

-- A second grant with the same random bytes crashes, as the source prefers.
collision :
    (grant_token enc "node" 60 noon state).0 ≡ panic "Token collision (is that even possible?)"
unfolding grant_token lookup delete_if insert
collision = refl

no_header :
    (has_attempt "" ≡ false)
    × ((verify 160 "" state).0 ≡ err (message "no token authentication header provided"))
unfolding has_attempt verify
no_header = (refl, refl)

abbrev made : ScopedToken
made = record { token = "tokenxy"; subject = "node"; expires = 160; claimed = 0 }

-- One token is generated, added, looked up and claimed.
abbrev claimed_once : System
claimed_once = record {
  registry = state.registry;
  onces = (claim 120 made state.onces).1;
  pending = [];
  held = made ∷ [];
  issued = made ∷ [];
  wins = made ∷ [];
}

claimed_once-Reach : Reach enc claimed_once
unfolding generate_token add_token lookup_token claim lookup insert expire_old_entries delete_if
claimed_once-Reach =
    next
      (next (next (next start (generate "node" 60 noon refl)) (add [] made [] refl refl))
        (look "tokenxy" refl))
      (win made 120 (inl refl) refl)

single_use_example :
    All (λ t. In t claimed_once.issued) claimed_once.wins
    × IsDistinct claimed_once.issued
    × IsDistinct claimed_once.wins
single_use_example = single_use enc claimed_once-Reach

state-IsValid : IsValid state
state-IsValid =
    subst (λ (p : Result String × Tokens). IsValid p.1) granted_once
      (grant_token-IsValid enc "node" 60 noon new_tokens IsValid-new)

verify-refines_example :
    (accepted (verify 160 "tokenxy" state).0 ≡ (redeem 160 "tokenxy" (ledger_of state)).0)
    × ((k : String)
        → ledger_of (verify 160 "tokenxy" state).1 k ≡ (redeem 160 "tokenxy" (ledger_of state)).1 k)
verify-refines_example = verify-refines 160 "tokenxy" state state-IsValid

grant_token-refines_example :
    (unexpired (noon.sweep "tokenxy") (ledger_of new_tokens "tokenxy") ≡ none)
    × ((k : String)
        → ledger_of state k
          ≡ issue "tokenxy" "node" (noon.now + 60) noon.sweep (ledger_of new_tokens) k)
grant_token-refines_example =
    grant_token-refines enc "node" 60 noon new_tokens IsValid-new granted_once
