-- ===== src/UserGrant.antt =====
-- platform/user-grant/grant.go: what the page and its certificate are made of.
use Prim.Native.Char.{code}
use Prim.Native.String.{[] as nil, ◌∷◌ as cons}
use homeworld.Common.{
  ℕ, ◌+◌, ◌-◌, ◌*◌, ◌/◌, ◌%◌, String, ap, Bool, true, not, ◌&&◌, ◌||◌, List, [], ◌∷◌, ◌==◌, leb,
  eqb, message, Result, ok, ◌>>=◌, ◌>>◌, guard,
}
use homeworld.Authority.Crypto.{RsaKey, Certificate}
pub mod Email
pub mod Handler
pub mod Validation
pub mod Steps
pub mod Soundness
pub mod Loading

-- The fields of `Config` that a request reads; the listener and the Kubernetes client are left out.
pub record Config : Type 0 where
  pub apiserver_address : String
  pub email_auth_domain : String
  pub upstream_ca : Certificate
  pub kube_ca : String
  pub issuer_cert : Certificate
  pub issuer_key : RsaKey

-- Ninety days, in nanoseconds.
abbrev pub certificate_lifespan : ℕ
certificate_lifespan = 90 * 24 * 3600000000000

-- One character of `characterWhitelist`, by its code.
unfoldable pub is_allowed : ℕ → Bool
is_allowed n =
    (leb b'a' n && leb n b'z')
    || (leb b'A' n && leb n b'Z')
    || (leb b'0' n && leb n b'9')
    || eqb n b'-'
    || eqb n b'_'
    || eqb n b'/'
    || eqb n b'~'
    || eqb n b'+'
    || eqb n b'='
    || eqb n b'.'

-- The expression's class, any number of times; it is matched once at least.
unfoldable pub matches_all : String → Bool
unfolding is_allowed
matches_all nil = true
matches_all (cons c s) = is_allowed (code c) && matches_all s

unfoldable pub matches_whitelist : String → Bool
unfolding matches_all
matches_whitelist s = not (s == "") && matches_all s

unfoldable pub validate_charset : String → Result (Unit {0})
unfolding matches_whitelist
validate_charset s = guard (matches_whitelist s) (message "not a valid string: %v")

pub record Response : Type 0 where
  pub namespace : String
  pub key_base64 : String
  pub cert_base64 : String
  pub authority_base64 : String
  pub server : String

-- The loop of `Validate`.
unfoldable pub validate_all : List String → Result (Unit {0})
unfolding validate_charset
validate_all [] = ok tt
validate_all (s ∷ rest) = do validate_charset s; validate_all rest

abbrev pub fields : Response → List String
fields r = r.namespace ∷ r.key_base64 ∷ r.cert_base64 ∷ r.authority_base64 ∷ r.server ∷ []

unfoldable pub validate : Response → Result (Unit {0})
unfolding validate_all
validate r = validate_all (fields r)
