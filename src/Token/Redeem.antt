-- ===== src/Token/Redeem.antt =====
-- What becomes of a token between `GrantToken` and `TokenVerifier.Verify`.
use homeworld.Common.{
  ℕ, ◌+◌, ◌≤◌, ◌<◌, String, ◌≡◌, refl, ◌≢◌, true, some, arith, eq_iff, eq_refl, message, ok, err,
  IsErr,
}
use homeworld.Common.Dict.{lookup, lookup-insert}
use homeworld.Token.{
  Encoding, Moment, Tokens, do_once, grant_token, verify, expire_old_entries, ScopedToken,
}
use homeworld.Token.Registry.{granted, after_grant, grant_token_inv}

-- The states before and after the first use.
abbrev used : Tokens → ℕ → Tokens
used s a = record s { onces = (do_once a s.onces).1 }

verify-after_grant :
    (id subject : String) (lifespan now : ℕ) (m : Moment) (s : Tokens)
    → id ≢ ""
    → now ≤ m.now + lifespan
    → verify now id (after_grant id subject lifespan m s)
      ≡ (ok subject, used (after_grant id subject lifespan m s) s.onces.next)
unfolding verify
verify-after_grant id subject lifespan now m s h k = ground (
  arith,
  eq_iff id "",
  eq_refl id,
  lookup-insert id id (granted id subject lifespan m s)
      (expire_old_entries m.sweep s.registry).by_token,
)

-- Once the `sync.Once` of the token that the registry holds has run, no `Verify` succeeds.
verify_spent :
    (id : String) (now : ℕ) (t : ScopedToken) (s : Tokens)
    → lookup id s.registry.by_token ≡ some t
    → s.onces.spent t.claimed ≡ true
    → IsErr (verify now id s).0
unfolding verify
verify_spent id now t s h k = ground (arith, eq_iff id "")

module _ (enc : Encoding) where
  -- A token that is not empty and was just granted authenticates its subject at any time up to its
  -- expiry, and no later `Verify` of it succeeds in the state that this leaves.
  pub grant-verify :
      (subject : String) (lifespan now : ℕ) (m : Moment) (s : Tokens) {token : String} {s' : Tokens}
      → grant_token enc subject lifespan m s ≡ (ok token, s')
      → token ≢ ""
      → now ≤ m.now + lifespan
      → ((verify now token s').0 ≡ ok subject)
        × ((later : ℕ) → IsErr (verify later token (verify now token s').1).0)
  grant-verify subject lifespan now m s {token} {s'} h ne k =
      let (fresh, after) = grant_token_inv enc subject lifespan m s h in
      let first = verify-after_grant token subject lifespan now m s ne k in
      rw after (
        rw first (
          refl,
          λ later.
              verify_spent token later (granted token subject lifespan m s) _
                (simp (lookup-insert, eq_refl)) (unfold do_once in ground arith),
        ))

  -- A token that is not empty and was just granted is refused after its expiry, and the refusal
  -- changes nothing.
  grant-verify_expired :
      (subject : String) (lifespan now : ℕ) (m : Moment) (s : Tokens) {token : String} {s' : Tokens}
      → grant_token enc subject lifespan m s ≡ (ok token, s')
      → token ≢ ""
      → m.now + lifespan < now
      → verify now token s' ≡ (err (message "cannot claim expired token"), s')
  grant-verify_expired subject lifespan now m s {token} {s'} h ne k =
      let (fresh, after) = grant_token_inv enc subject lifespan m s h in
      rw after (
        unfold verify in
        ground (
          arith,
          eq_iff token "",
          eq_refl token,
          lookup-insert token token (granted token subject lifespan m s)
              (expire_old_entries m.sweep s.registry).by_token,
        ))
