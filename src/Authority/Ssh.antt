-- ===== src/Authority/Ssh.antt =====
-- platform/keysystem/keyserver/authorities/ssh.go
use Prim.Native.String.{◌++◌ as str_append}
use homeworld.Common.{
  ℕ, ◌+◌, ◌/◌, ◌%◌, ◌^◌, String, Bool, false, not, List, [], ◌∷◌, ◌==◌, leb, eqb, if◌then◌else◌,
  message, Result, ok, ◌>>=◌, ◌>>◌, guard, length,
}
use homeworld.Token.{Encoding}
use homeworld.Authority.Crypto.{
  SshKey, SshSigner, SshCertType, user_cert, host_cert, SshCertificate, SshLib, Instant,
}

pub record SshAuthority : Type 0 where
  pub key : SshSigner
  pub pubkey : String

abbrev pub second : ℕ
second = 1_000_000_000

-- `uint64(t.Unix())` of a time in nanoseconds
abbrev pub unix : ℕ → ℕ
unix t = t / second % 2 ^ 64

unfoldable pub are_public_keys_equal : SshKey → SshKey → Bool
are_public_keys_equal pk1 pk2 = if pk1.kind == pk2.kind then pk1.blob == pk2.blob else false

unfoldable pub get_public_ssh_key : SshAuthority → String
get_public_ssh_key d = d.pubkey

unfoldable pub cert_type : Bool → SshCertType
cert_type ishost = if ishost then host_cert else user_cert

unfoldable pub marshal_ssh_cert : Encoding → SshKey → String
marshal_ssh_cert enc cert =
    str_append cert.kind (str_append " " (str_append (enc.base64 cert.blob) "\n"))

unfoldable pub ssh_certificate :
    Instant → SshKey → ℕ → Bool → ℕ → String → List String → SshCertificate
unfolding cert_type
ssh_certificate i pubkey serial ishost lifespan keyid principals = record {
  key = pubkey;
  key_id = keyid;
  serial = serial % 2 ^ 64;
  cert_type = cert_type ishost;
  valid_after = unix i.now;
  valid_before = unix (i.later + lifespan);
  valid_principals = principals;
  extensions = ("permit-pty", "") ∷ [];
}

module _ (ssh : SshLib) where
  unfoldable pub parse_single_ssh_key : String → Result SshKey
  parse_single_ssh_key data' = do
    (pubkey, rest) ← ssh.parse_authorized_key data'
    guard (rest == "") (message "trailing data after end of public key file")
    ok pubkey

  unfoldable pub load_ssh_authority : String → String → Result SshAuthority
  unfolding parse_single_ssh_key are_public_keys_equal
  load_ssh_authority keydata pubkeydata = do
    pubkey ← parse_single_ssh_key pubkeydata
    key ← ssh.parse_private_key keydata
    guard (are_public_keys_equal pubkey key.public)
        (message "public SSH key does not match private SSH key: %s versus %s")
    ok (record { key = key; pubkey = pubkeydata })

  unfoldable pub sign_ssh :
      Encoding → Instant → SshAuthority → String → Bool → ℕ → String → List String → Result String
  unfolding parse_single_ssh_key ssh_certificate marshal_ssh_cert
  sign_ssh enc i d request ishost lifespan keyid principals = do
    pubkey ← parse_single_ssh_key request
    guard (leb second lifespan)
        (message "lifespan is too short (or nonpositive) for certificate signature")
    guard (not (eqb (length principals) 0)) (message "refusing to sign wildcard certificate")
    serial ← i.random_int (2 ^ 64)
    cert ← ssh.sign_cert (ssh_certificate i pubkey serial ishost lifespan keyid principals) d.key
    ok (marshal_ssh_cert enc cert)
