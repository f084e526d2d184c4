-- ===== src/Authority/Tls.antt =====
-- platform/keysystem/keyserver/authorities/tls.go, with platform/util/certutil/sign.go
use homeworld.Common.{
  ℕ, zero, suc, ◌+◌, ◌^◌, String, Bool, true, false, Option, none, some, List, [], ◌∷◌, ◌++◌, ◌==◌,
  eqb, if◌then◌else◌, Error, message, Result, ok, err, ◌>>=◌, ◌>>◌, guard,
}
use homeworld.Authority.Crypto.{
  PublicKey, rsa, KeyAlgorithm, rsa_algorithm, RsaKey, Certificate, client_auth, server_auth, Ip,
  Template, X509, Net, Instant,
}
use homeworld.Authority.Pem.{load_x509_csr_from_pem, load_x509_cert_from_pem, load_rsa_key_from_pem}

pub record TlsAuthority : Type 0 where
  pub key : RsaKey
  pub key_encoded : String
  pub cert : Certificate
  pub cert_encoded : String

unfoldable pub is_equal : TlsAuthority → TlsAuthority → Bool
is_equal t authority = t.cert.raw == authority.cert.raw

unfoldable pub get_public_key : TlsAuthority → String
get_public_key t = t.cert_encoded

unfoldable pub get_private_key : TlsAuthority → String
get_private_key t = t.key_encoded

-- What the server's TLS layer has verified: `request.TLS` may be nil.
abbrev pub VerifiedChains : Type 0
VerifiedChains = Option (List (List Certificate))

-- `HasAttempt`: a first chain with a first certificate.
abbrev pub first_cert : VerifiedChains → Option Certificate
first_cert none = none
first_cert (some []) = none
first_cert (some ([] ∷ chains)) = none
first_cert (some ((cert ∷ certs) ∷ chains)) = some cert

unfoldable pub has_cert_attempt : VerifiedChains → Bool
has_cert_attempt chains = elim (first_cert chains) [ none ↦ false | some _ ↦ true ]

-- The key of the certificate must be RSA, and have the modulus of the private key.
unfoldable pub check_keys : KeyAlgorithm → PublicKey → ℕ → Result (Unit {0})
check_keys rsa_algorithm (rsa n) m =
    guard (eqb n m) (message "mismatched RSA public and private keys")
check_keys _ _ _ = err (message "expected RSA public key in certificate")

module _ (x : X509) where
  unfoldable pub load_tls_authority : String → String → Result TlsAuthority
  unfolding check_keys
  load_tls_authority keydata certdata = do
    privkey ← load_rsa_key_from_pem x keydata
    cert ← load_x509_cert_from_pem x certdata
    check_keys cert.public_key_algorithm cert.public_key privkey.modulus
    ok (record { key = privkey; key_encoded = keydata; cert = cert; cert_encoded = certdata })

  -- `errors.Wrap` of a nil error is nil, so that no chain and no error would give the principal "".
  abbrev pub verified : String → ℕ × Option Error → (Error → Error) → Result String
  verified principal (chains, some e) wrap = err (wrap e)
  verified principal (zero, none) wrap = ok ""
  verified principal (suc _, none) wrap = ok principal

  -- `wrap` is `errors.Wrap` with its message.
  unfoldable pub verify_cert : (Error → Error) → TlsAuthority → VerifiedChains → Result String
  verify_cert wrap t chains = elim (first_cert chains) [
    | none ↦ err (message "client certificate must be present")
    | some cert ↦ verified cert.common_name (x.verify t.cert cert) wrap
  ]

  -- `certutil.FinishCertificate`
  unfoldable pub finish_certificate :
      Instant → Template → Certificate → PublicKey → RsaKey → Result String
  finish_certificate i template parent pubkey signer = do
    serial ← i.random_int (2 ^ 159)
    signed_cert ←
        x.create_certificate (record template { serial_number = serial }) parent pubkey signer
    ok (x.pem_encode (record { kind = "CERTIFICATE"; bytes = signed_cert }))

abbrev pub deal : String → Option Ip → List String × List Ip → List String × List Ip
deal name none (dnses, ips) = (name ∷ dnses, ips)
deal name (some ip) (dnses, ips) = (dnses, ip ∷ ips)

module _ (net : Net) where
  -- The loop of `partitionDNSNamesAndIPs`.
  unfoldable pub partition_dns_names_and_ips : List String → List String × List Ip
  partition_dns_names_and_ips [] = ([], [])
  partition_dns_names_and_ips (name ∷ names) =
      deal name (net.parse_ip name) (partition_dns_names_and_ips names)

  unfoldable pub cert_template : ℕ → Bool → ℕ → String → List String → List String → Template
  unfolding partition_dns_names_and_ips
  cert_template issue_at ishost lifespan commonname names organizations =
      let (dns_names, ips) = partition_dns_names_and_ips names in
      record {
        digital_signature = true;
        ext_key_usage = (client_auth ∷ []) ++ (if ishost then server_auth ∷ [] else []);
        basic_constraints_valid = true;
        is_ca = false;
        max_path_len = 0;
        max_path_len_zero = true;
        not_before = issue_at;
        not_after = issue_at + lifespan;
        common_name = commonname;
        organization = organizations;
        dns_names = dns_names;
        ip_addresses = ips;
        serial_number = 0;
      }

  module _ (x : X509) where
    unfoldable pub sign :
        Instant
        → TlsAuthority
        → String
        → Bool
        → ℕ
        → String
        → List String
        → List String
        → Result String
    unfolding cert_template
    sign i t request ishost lifespan commonname names organizations = do
      csr ← load_x509_csr_from_pem x request
      x.check_signature csr
      finish_certificate x i (cert_template i.now ishost lifespan commonname names organizations)
          t.cert csr.public_key t.key
