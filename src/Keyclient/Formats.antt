-- ===== src/Keyclient/Formats.antt =====
-- What the actions of the key client call of platform/util, and the characters of a token in
-- platform/keysystem/keyclient/actions/bootstrap/bootstrap.go: `getToken`.
use Prim.Native.Char.{code}
use Prim.Native.String.{[] as nil, ◌∷◌ as cons}
use homeworld.Common.{ℕ, String, Bool, true, not, ◌&&◌, Option, leb, eqb}
use homeworld.Authority.Crypto.{X509, SshKey, SshLib}
use homeworld.Util.Csr.{CsrLib, build_tls_csr, build_ssh_csr}
use homeworld.Util.Expiration.{check_tls_cert_expiration, check_ssh_cert_expiration}
use homeworld.Keyclient.Converge.{Formats}

-- `unicode.IsPrint`, by the code of a character, is a parameter.
unfoldable pub is_token_character : (ℕ → Bool) → ℕ → Bool
is_token_character is_print c = is_print c && not (eqb c b' ') && leb c 127

-- The loop over the characters.
unfoldable pub is_token : (ℕ → Bool) → String → Bool
unfolding is_token_character
is_token is_print nil = true
is_token is_print (cons c token) = is_token_character is_print (code c) && is_token is_print token

unfoldable pub formats : X509 → CsrLib → SshLib → (SshKey → Option ℕ) → (ℕ → Bool) → Formats
unfolding check_tls_cert_expiration check_ssh_cert_expiration build_tls_csr build_ssh_csr is_token
formats x lib ssh valid_before is_print = record {
  check_tls_cert_expiration = check_tls_cert_expiration x;
  build_tls_csr = build_tls_csr lib x;
  check_ssh_cert_expiration = check_ssh_cert_expiration lib ssh valid_before;
  build_ssh_csr = build_ssh_csr lib ssh;
  is_token = is_token is_print;
}
