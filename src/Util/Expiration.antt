-- ===== src/Util/Expiration.antt =====
-- platform/util/certutil/expiration.go. A time is in nanoseconds since 1970.
use homeworld.Common.{
  ℕ, ◌*◌, ◌^◌, String, Option, none, some, ltb, if◌then◌else◌, message, Result, ok, err, ◌>>=◌,
}
use homeworld.Authority.Crypto.{X509, SshKey, SshLib}
use homeworld.Authority.Pem.{load_x509_cert_from_pem}
use homeworld.Authority.Ssh.{second}
use homeworld.Util.Csr.{CsrLib, parse_ssh_text_pubkey}

-- `time.Unix(int64(t), 0)`: from 2 ^ 63 on the time is before 1970, the least of times here.
unfoldable pub unix_time : ℕ → ℕ
unix_time t = if ltb t (2 ^ 63) then t * second else 0

abbrev expiration_of : Option ℕ → Result ℕ
expiration_of none =
    err (message "found public key instead of certificate when checking expiration")
expiration_of (some valid_before) = ok (unix_time valid_before)

unfoldable pub check_tls_cert_expiration : X509 → String → Result ℕ
check_tls_cert_expiration x certdata = do
  cert ← load_x509_cert_from_pem x certdata
  ok cert.not_after

-- `valid_before` is the field of a key that is a `*ssh.Certificate`.
unfoldable pub check_ssh_cert_expiration : CsrLib → SshLib → (SshKey → Option ℕ) → String → Result ℕ
unfolding parse_ssh_text_pubkey unix_time
check_ssh_cert_expiration lib ssh valid_before key = do
  pubkey ← parse_ssh_text_pubkey lib ssh key
  expiration_of (valid_before pubkey)
