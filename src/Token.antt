-- ===== src/Token.antt =====
-- Bootstrap tokens: platform/keysystem/keyserver/token/scoped/token.go, token/registry.go and
-- verifier/token.go. A time is a number of nanoseconds, and a duration is never negative. A token
-- holds its `*sync.Once` by an address into a store, since every copy of the token shares it. The
-- readings of the clock and of the random source are arguments.
pub mod Registry
pub mod Redeem
pub mod Interleaving
pub mod Ledger
mod Tests
use Prim.Native.String.{slice, ◌++◌ as str_append}
use homeworld.Common.{
  ℕ, suc, ◌+◌, ◌-◌, ◌*◌, ◌/◌, String, ap, Bool, true, false, not, none, some, [], ◌++◌, ◌==◌, ltb,
  eqb, if◌then◌else◌, message, Result, ok, err, panic, ◌>>=◌, ◌>>◌,
}
use homeworld.Common.Dict.{Dict, lookup, insert, delete_if}

-- The `sync.Once` values: those below `next` exist, and `spent` says which have run.
pub record Onces : Type 0 where
  pub next : ℕ
  pub spent : ℕ → Bool

abbrev pub mark : (ℕ → Bool) → ℕ → ℕ → Bool
mark f a b = if eqb a b then true else f b

-- `once.Do(f)`: whether `f` is run, which the first call alone does.
unfoldable pub do_once : ℕ → Onces → Bool × Onces
do_once a o = (not (o.spent a), record o { spent = mark o.spent a })

pub record ScopedToken : Type 0 where
  pub token : String
  pub subject : String
  pub expires : ℕ
  pub claimed : ℕ

unfoldable pub has_expired : ℕ → ScopedToken → Bool
has_expired now t = ltb t.expires now

unfoldable pub claim : ℕ → ScopedToken → Onces → Result (Unit {0}) × Onces
unfolding has_expired do_once
claim now t o =
    if has_expired now t
    then (err (message "cannot claim expired token"), o)
    else (let (has_claimed, o') = do_once t.claimed o in
        (if has_claimed then ok tt else err (message "token already claimed"), o'))

-- `encoding/base64` and `crypto/sha256`, which the token's identifier is made with.
pub record Encoding : Type 0 where
  pub base64 : String → String
  pub sha256 : String → String

-- What one call of `GrantToken` reads: the clock at each entry that the sweep visits, the clock
-- when the token is made, and the result of `rand.Read`.
pub record Moment : Type 0 where
  pub sweep : String → ℕ
  pub now : ℕ
  pub random : Result String

pub record TokenRegistry : Type 0 where
  pub by_token : Dict ScopedToken

abbrev pub new_token_registry : TokenRegistry
new_token_registry = record { by_token = [] }

unfoldable pub lookup_token : String → TokenRegistry → Result ScopedToken
lookup_token token r = elim (lookup token r.by_token) [
  | none ↦ err (message "unrecognized token")
  | some tokdata ↦ ok tokdata
]

unfoldable pub add_token : ScopedToken → TokenRegistry → Result TokenRegistry
add_token t r = elim (lookup t.token r.by_token) [
  | some _ ↦ panic "Token collision (is that even possible?)"
  | none ↦ ok (record { by_token = insert t.token t r.by_token })
]

unfoldable pub expire_old_entries : (String → ℕ) → TokenRegistry → TokenRegistry
unfolding has_expired
expire_old_entries clock r = record {
  by_token = delete_if (λ k v. has_expired (clock k) v) r.by_token;
}

-- The registry and the store of `sync.Once` values.
pub record Tokens : Type 0 where
  pub registry : TokenRegistry
  pub onces : Onces

abbrev pub new_tokens : Tokens
new_tokens = record {
  registry = new_token_registry;
  onces = record { next = 0; spent = λ _. false };
}

module _ (enc : Encoding) where
  unfoldable pub generate_token_id : Result String → Result String
  generate_token_id (ok out) =
      let hash = enc.base64 out in ok (str_append hash (slice (enc.base64 (enc.sha256 hash)) 0 2))
  generate_token_id (err e) = panic "rand.Read"
  generate_token_id (panic s) = panic s

  unfoldable pub generate_token : String → ℕ → Moment → Onces → Result (ScopedToken × Onces)
  unfolding generate_token_id
  generate_token subject duration m o = do
    id ← generate_token_id m.random
    ok (
      record { token = id; subject = subject; expires = m.now + duration; claimed = o.next },
      record { next = suc o.next; spent = λ a. if eqb a o.next then false else o.spent a },
    )

  -- The token is added to the swept registry. A collision panics after the sweep.
  abbrev pub add_granted :
      TokenRegistry → Onces → Result (ScopedToken × Onces) → Result String × Tokens
  add_granted swept old (ok (t, o)) = elim (add_token t swept) [
    | ok r ↦ (ok t.token, record { registry = r; onces = o })
    | err e ↦ (err e, record { registry = swept; onces = o })
    | panic s ↦ (panic s, record { registry = swept; onces = o })
  ]
  add_granted swept old (err e) = (err e, record { registry = swept; onces = old })
  add_granted swept old (panic s) = (panic s, record { registry = swept; onces = old })

  unfoldable pub grant_token : String → ℕ → Moment → Tokens → Result String × Tokens
  unfolding expire_old_entries generate_token add_token
  grant_token subject lifespan m s =
      add_granted (expire_old_entries m.sweep s.registry) s.onces
        (generate_token subject lifespan m s.onces)

-- `TokenVerifier`: the argument is the value of the header `X-Bootstrap-Token`, "" if there is none.
unfoldable pub has_attempt : String → Bool
has_attempt header = not (header == "")

abbrev verify_found : ℕ → Tokens → Result ScopedToken → Result String × Tokens
verify_found now s (ok tok) =
    let (claimed, o) = claim now tok s.onces in (do claimed; ok tok.subject, record s { onces = o })
verify_found now s (err e) = (err e, s)
verify_found now s (panic p) = (panic p, s)

unfoldable pub verify : ℕ → String → Tokens → Result String × Tokens
unfolding claim lookup_token
verify now header s =
    if header == ""
    then (err (message "no token authentication header provided"), s)
    else verify_found now s (lookup_token header s.registry)
