-- ===== src/Authority/Certificates.antt =====
-- What the authorities of authorities/tls.go and authorities/ssh.go sign, and whom they accept.
use text.Mathlib.Text.{starts_with}
use homeworld.Common.{
  ℕ, ◌+◌, ◌*◌, ◌/◌, ◌^◌, ◌≤◌, ◌<◌, String, ◌≡◌, refl, ap, ◌∙◌, ◌≢◌, ◌↔◌, inl, inr, Bool, true,
  false, not, Option, none, some, List, [], ◌∷◌, arith, leb, eqb, if◌then◌else◌, Option-cases,
  Error, Result, ok, ◌>>◌, guard, >>=-eq-ok, length,
}
use homeworld.Token.{Encoding}
use homeworld.Authority.Crypto.{
  rsa, Certificate, Csr, client_auth, server_auth, Ip, Template, PemBlock, X509, Net, SshKey,
  SshCertificate, SshLib, Instant, user_cert, host_cert, rsa_algorithm,
}
use homeworld.Authority.Pem.{
  load_single_pem_block-pem_encode, is_expected, load_single_pem_block, load_x509_csr_from_pem,
  load_x509_cert_from_pem, load_rsa_key_from_pem,
}
use homeworld.Authority.Tls.{
  TlsAuthority, VerifiedChains, first_cert, load_tls_authority, check_keys, verify_cert,
  finish_certificate, partition_dns_names_and_ips, deal, cert_template, sign,
}
use homeworld.Authority.Ssh.{
  SshAuthority, second, unix, parse_single_ssh_key, ssh_certificate, sign_ssh, marshal_ssh_cert,
  cert_type,
}

-- A list of names dealt out, in order, to host names and to the addresses that they parse to.
pub data IsSplit (net : Net) : List String → List String → List Ip → Type 0 where
  done : IsSplit net [] [] []
  host :
      {name : String} {names dnses : List String} {ips : List Ip}
      → net.parse_ip name ≡ none
      → IsSplit net names dnses ips
      → IsSplit net (name ∷ names) (name ∷ dnses) ips
  address :
      {name : String} {ip : Ip} {names dnses : List String} {ips : List Ip}
      → net.parse_ip name ≡ some ip
      → IsSplit net names dnses ips
      → IsSplit net (name ∷ names) dnses (ip ∷ ips)

module _ (net : Net) where
  -- Every name is dealt out once, in order: to the addresses if it parses as one, else to the host
  -- names.
  partition-IsSplit :
      (names : List String)
      → IsSplit net names
          (partition_dns_names_and_ips net names).0
          (partition_dns_names_and_ips net names).1
  unfolding partition_dns_names_and_ips
  partition-IsSplit [] = done
  partition-IsSplit (name ∷ names) = elim (Option-cases (net.parse_ip name)) [
    | inl e ↦ rw (e, deal) (host e (partition-IsSplit names))
    | inr (ip, e) ↦ rw (e, deal) (address e (partition-IsSplit names))
  ]

-- The certificates of this authority are leaves, for client authentication and, for hosts alone,
-- server authentication, with the names and the lifetime that the privilege fixes.
pub record IsIssued (net : Net) (now : ℕ) (ishost : Bool) (lifespan : ℕ) (commonname : String)
    (names organizations : List String) (c : Template) : Type 0 where
  pub leaf :
      (c.is_ca ≡ false)
      × (c.basic_constraints_valid ≡ true)
      × (c.max_path_len ≡ 0)
      × (c.max_path_len_zero ≡ true)
  pub usage :
      c.ext_key_usage ≡ (if ishost then client_auth ∷ server_auth ∷ [] else client_auth ∷ [])
  pub lifetime : (c.not_before ≡ now) × (c.not_after ≡ now + lifespan)
  pub subject : (c.common_name ≡ commonname) × (c.organization ≡ organizations)
  pub split : IsSplit net names c.dns_names c.ip_addresses

module _ (net : Net) (x : X509) where
  cert_template-IsIssued :
      (now serial : ℕ) (ishost : Bool) (lifespan : ℕ) (commonname : String)
      (names organizations : List String)
      → IsIssued net now ishost lifespan commonname names organizations
          (record (cert_template net now ishost lifespan commonname names organizations) {
            serial_number = serial;
          })
  unfolding cert_template
  cert_template-IsIssued now serial ishost lifespan commonname names organizations = record {
    leaf = (refl, refl, refl, refl);
    usage = ground arith;
    lifetime = (refl, refl);
    subject = (refl, refl);
    split = partition-IsSplit net names;
  }

  -- A TLS authority signs a request only if it is a certificate request whose signature holds. The
  -- certificate is over the key of the request and otherwise takes nothing from it: it is a leaf for
  -- client authentication and, for hosts alone, server authentication, with the names and the
  -- lifetime that the privilege fixes, and it comes back as a PEM block.
  pub sign_sound :
      (i : Instant) (t : TlsAuthority) (request : String) (ishost : Bool) (lifespan : ℕ)
      (commonname : String) (names organizations : List String) {result : String}
      → sign net x i t request ishost lifespan commonname names organizations ≡ ok result
      → (csr : Csr) × (load_x509_csr_from_pem x request ≡ ok csr)
        × (x.check_signature csr ≡ ok tt)
        × ((c : Template) × IsIssued net i.now ishost lifespan commonname names organizations c
            × ((der : String) × (x.create_certificate c t.cert csr.public_key t.key ≡ ok der)
                × (result ≡ x.pem_encode (record { kind = "CERTIFICATE"; bytes = der }))))
  unfolding sign finish_certificate
  sign_sound i t request ishost lifespan commonname names organizations h =
      let (csr, h1, loaded) = >>=-eq-ok (load_x509_csr_from_pem x request) _ h in
      let (_, h2, checked) = >>=-eq-ok (x.check_signature csr) _ h1 in
      let (serial, h3, drawn) = >>=-eq-ok (i.random_int (2 ^ 159)) _ h2 in
      let (der, h4, created) =
        >>=-eq-ok (x.create_certificate _ t.cert csr.public_key t.key) _ h3 in
      (
        csr,
        loaded,
        checked,
        (
          _,
          cert_template-IsIssued i.now serial ishost lifespan commonname names organizations,
          (der, created, cc),
        ),
      )

  load_back :
      (b : PemBlock)
      → load_single_pem_block x (x.pem_encode b) ("CERTIFICATE" ∷ []) ≡ ok b.bytes
      → load_x509_cert_from_pem x (x.pem_encode b) ≡ x.parse_certificate b.bytes
  unfolding load_x509_cert_from_pem
  load_back b h = rw h

  -- What a TLS authority signs can be loaded again, if PEM blocks can be decoded: it is the
  -- certificate that was made.
  pub sign-load :
      (i : Instant) (t : TlsAuthority) (request : String) (ishost : Bool) (lifespan : ℕ)
      (commonname : String) (names organizations : List String) {result : String}
      → ((b : PemBlock)
          → (starts_with (x.pem_encode b) "-----BEGIN " ≡ true)
            × (x.pem_decode (x.pem_encode b) ≡ (some b, "")))
      → sign net x i t request ishost lifespan commonname names organizations ≡ ok result
      → (c : Template) × (der : String) × (csr : Csr) × (x.create_certificate c t.cert
            csr.public_key t.key
          ≡ ok der)
        × (load_x509_cert_from_pem x result ≡ x.parse_certificate der)
  unfolding is_expected
  sign-load i t request ishost lifespan commonname names organizations pem h =
      let (csr, loaded, checked, (c, issued, (der, created, same))) =
        sign_sound i t request ishost lifespan commonname names organizations h in
      let block : PemBlock = record { kind = "CERTIFICATE"; bytes = der } in
      let back =
        load_single_pem_block-pem_encode x block ("CERTIFICATE" ∷ []) (pem block).0 (pem block).1
          refl in
      (c, der, csr, created, ap (load_x509_cert_from_pem x) same ∙ load_back block back)

check_keys_sound :
    {A : Type 0} (cert : Certificate) (m : ℕ) (rest : Result A) {a : A}
    → (check_keys cert.public_key_algorithm cert.public_key m >> rest) ≡ ok a
    → (cert.public_key_algorithm ≡ rsa_algorithm) × (cert.public_key ≡ rsa m) × (rest ≡ ok a)
unfolding check_keys
check_keys_sound cert m rest h = (ground arith, ground arith, ground arith)

module _ (x : X509) where
  -- An authority is loaded only if its certificate holds the RSA key whose private part is given.
  pub load_tls_authority_sound :
      (keydata certdata : String) {t : TlsAuthority}
      → load_tls_authority x keydata certdata ≡ ok t
      → (t.cert.public_key_algorithm ≡ rsa_algorithm)
        × (t.cert.public_key ≡ rsa t.key.modulus)
        × (load_rsa_key_from_pem x keydata ≡ ok t.key)
        × (load_x509_cert_from_pem x certdata ≡ ok t.cert)
        × (t.key_encoded ≡ keydata)
        × (t.cert_encoded ≡ certdata)
  unfolding load_tls_authority
  load_tls_authority_sound keydata certdata h =
      let (privkey, h1, loaded) = >>=-eq-ok (load_rsa_key_from_pem x keydata) _ h in
      let (cert, h2, parsed) = >>=-eq-ok (load_x509_cert_from_pem x certdata) _ h1 in
      let (agree, same, e) = check_keys_sound cert privkey.modulus _ h2 in
      (ground arith, ground arith, ground arith, ground arith, ground arith, ground arith)

  -- A client certificate authenticates its common name, and only if Go's `x509` verifies it under
  -- the authority; this uses the documented fact that a verification with no error has a chain.
  pub verify_cert_iff :
      (wrap : Error → Error) (t : TlsAuthority) (chains : VerifiedChains) (principal : String)
      → ((cert : Certificate) → (x.verify t.cert cert).1 ≡ none → (x.verify t.cert cert).0 ≢ 0)
      → (verify_cert x wrap t chains ≡ ok principal) ↔ (
          (cert : Certificate) × (first_cert chains ≡ some cert)
          × ((x.verify t.cert cert).1 ≡ none)
          × (cert.common_name ≡ principal))
  unfolding verify_cert
  verify_cert_iff wrap t chains principal documented = (
    λ h. verify_sound (first_cert chains) refl h,
    λ (cert, first, fine, named). verify_complete cert first fine named,
  )
    where
      verify_sound :
          (o : Option Certificate)
          → first_cert chains ≡ o
          → verify_cert x wrap t chains ≡ ok principal
          → (cert : Certificate) × (first_cert chains ≡ some cert)
            × ((x.verify t.cert cert).1 ≡ none)
            × (cert.common_name ≡ principal)
      verify_sound none e h = ground arith
      verify_sound (some cert) e h = (cert, e, ground arith, ground (arith, documented cert))

      verify_complete :
          (cert : Certificate)
          → first_cert chains ≡ some cert
          → (x.verify t.cert cert).1 ≡ none
          → cert.common_name ≡ principal
          → verify_cert x wrap t chains ≡ ok principal
      verify_complete cert first fine named = ground (arith, documented cert)

-- A second at least, counted in whole seconds, is later.
unix_mono :
    (now later lifespan : ℕ)
    → now ≤ later
    → later + lifespan < second * 2 ^ 64
    → second ≤ lifespan
    → (unix now < unix (later + lifespan))
      × (unix (later + lifespan) ≤ later / second + lifespan / second + 1)
unix_mono now later lifespan h k l = (omega arith, omega arith)

guard-leb : (a b : ℕ) (e : Error) {u : Unit {0}} → guard (leb a b) e ≡ ok u → a ≤ b
guard-leb a b e h = ground arith

module _ (ssh : SshLib) (enc : Encoding) where
  -- A SSH authority signs a request only if it is one public key, for named principals, and for a
  -- second at least. The certificate is over that key, of the kind asked for, and expires after
  -- it begins, while the clock does not go back and stays in 64 bits.
  pub sign_ssh_sound :
      (i : Instant) (d : SshAuthority) (request : String) (ishost : Bool) (lifespan : ℕ)
      (keyid : String) (principals : List String) {result : String}
      → i.now ≤ i.later
      → i.later + lifespan < second * 2 ^ 64
      → sign_ssh ssh enc i d request ishost lifespan keyid principals ≡ ok result
      → (c : SshCertificate) × (signed : SshKey) × (parse_single_ssh_key ssh request ≡ ok c.key)
        × (ssh.sign_cert c d.key ≡ ok signed)
        × (result ≡ marshal_ssh_cert enc signed)
        × (c.cert_type ≡ (if ishost then host_cert else user_cert))
        × (c.valid_principals ≡ principals)
        × (principals ≢ [])
        × (second ≤ lifespan)
        × (c.valid_after < c.valid_before)
        × (c.valid_before ≤ i.later / second + lifespan / second + 1)
  unfolding sign_ssh
  sign_ssh_sound i d request ishost lifespan keyid principals clock small h =
      let (pubkey, h1, parsed) = >>=-eq-ok (parse_single_ssh_key ssh request) _ h in
      let (_, h2, long) = >>=-eq-ok (guard (leb second lifespan) _) _ h1 in
      let (_, h3, some_principal) = >>=-eq-ok (guard (not (eqb (length principals) 0)) _) _ h2 in
      let (serial, h4, drawn) = >>=-eq-ok (i.random_int (2 ^ 64)) _ h3 in
      let c = ssh_certificate i pubkey serial ishost lifespan keyid principals in
      let within =
        unix_mono i.now i.later lifespan clock small (guard-leb second lifespan _ long) in
      let (signed, h5, done') = >>=-eq-ok (ssh.sign_cert c d.key) _ h4 in
      (
        c,
        signed,
        unfold ssh_certificate in parsed,
        done',
        cc,
        unfold ssh_certificate cert_type in refl,
        unfold ssh_certificate in refl,
        ground arith,
        guard-leb second lifespan _ long,
        unfold ssh_certificate in within.0,
        unfold ssh_certificate in within.1,
      )
