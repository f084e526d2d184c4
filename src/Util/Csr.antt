-- ===== src/Util/Csr.antt =====
-- platform/util/csrutil/csr.go, with platform/util/wraputil/ssh.go.
use homeworld.Common.{
  ℕ, String, Bool, not, ◌==◌, ltb, if◌then◌else◌, message, Result, ok, err, panic, ◌>>=◌, ◌>>◌,
  guard,
}
use homeworld.Authority.Crypto.{RsaKey, X509, SshKey, SshLib}
use homeworld.Authority.Pem.{load_rsa_key_from_pem}

-- The calls that make requests. `inner_newlines` counts the line ends of a text without those at its
-- ends, and `is_cert_type` is `strings.Contains` of "cert".
pub record CsrLib : Type 0 where
  -- `x509.CreateCertificateRequest`, for the common name of the template
  pub create_certificate_request : String → RsaKey → Result String
  pub marshal_authorized_key : SshKey → String
  pub inner_newlines : String → ℕ
  pub is_cert_type : String → Bool

module _ (lib : CsrLib) where
  -- It accepts private keys alone.
  unfoldable pub build_tls_csr : X509 → String → Result String
  build_tls_csr x privkey = do
    key ← load_rsa_key_from_pem x privkey
    der ← lib.create_certificate_request "invalid-cn-temporary-request" key
    ok (x.pem_encode (record { kind = "CERTIFICATE REQUEST"; bytes = der }))

  module _ (ssh : SshLib) where
    unfoldable pub parse_ssh_text_pubkey : String → Result SshKey
    parse_ssh_text_pubkey content = do
      (pubkey, rest) ← ssh.parse_authorized_key content
      guard (rest == "") (message "extraneous trailing data after end of pubkey")
      guard (not (ltb 0 (lib.inner_newlines content)))
          (message "extraneous leading data before pubkey")
      ok pubkey

    abbrev from_pubkey : Result SshKey → Result String
    from_pubkey (ok pubkey) =
        if lib.is_cert_type pubkey.kind
        then err (message "Expected SSH pubkey file to not have certificate type %s")
        else ok (lib.marshal_authorized_key pubkey)
    from_pubkey (err e) =
        err (message "could not parse key as pubkey or privkey: %s (as privkey) / %s (as pubkey)")
    from_pubkey (panic t) = panic t

    -- A private key is tried first.
    unfoldable pub build_ssh_csr : String → Result String
    unfolding parse_ssh_text_pubkey
    build_ssh_csr key = elim (ssh.parse_private_key key) [
      | ok privkey ↦ ok (lib.marshal_authorized_key privkey.public)
      | err e ↦ from_pubkey (parse_ssh_text_pubkey key)
      | panic t ↦ panic t
    ]
