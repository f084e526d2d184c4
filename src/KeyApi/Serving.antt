-- ===== src/KeyApi/Serving.antt =====
-- How long the certificate is good that the keyserver serves with.
use homeworld.Common.{
  ℕ, ◌+◌, ◌≤◌, ◌<◌, String, ◌≡◌, refl, sym, ap, ◌∙◌, subst, ◌⊎◌, inl, inr, true, Option, none, some,
  List, [], ◌∷◌, arith, ltb, ltb→lt, Bool-cases, Error, Result, ok, err, panic, >>=-eq-ok, wrapped,
  wrapped-eq-ok,
}
use homeworld.Authority.Crypto.{Certificate, X509, Net, Instant, Template, PublicKey, RsaKey}
use homeworld.Authority.Tls.{sign}
use homeworld.Authority.Certificates.{IsIssued, sign_sound}
use homeworld.Util.Csr.{CsrLib, build_tls_csr}
use homeworld.Account.{Context}
use homeworld.KeyApi.ServerCert.{
  KeyPair, renewal_margin, validity_interval, parse_leaf, new_server_cert, keep,
  get_valid_server_cert,
}

module _ (net : Net) (x : X509) (lib : CsrLib)
    (x509_key_pair : String → String → Result (List String)) (wrap : String → Error → Error)
    (ctx : Context) (server_key : String) where
  -- What `crypto/x509` and `crypto/tls` document: a certificate that was created says when it ends, to
  -- the second, and a PEM block of it is read back as the certificate.
  pub record IsDocumented : Type 0 where
    pub ends :
        (t : Template) (parent : Certificate) (key : PublicKey) (signer : RsaKey) (der : String)
        (c : Certificate)
        → x.create_certificate t parent key signer ≡ ok der
        → x.parse_certificate der ≡ ok c
        → (t.not_after < c.not_after + 1000000000) × (c.not_after ≤ t.not_after)
    pub reads :
        (der : String) (certificate : List String)
        → x509_key_pair (x.pem_encode (record { kind = "CERTIFICATE"; bytes = der })) server_key
          ≡ ok certificate
        → certificate ≡ der ∷ []

  -- The pair of a certificate that the cluster's authority issued to the keyserver at `i`.
  pub record IsServing (i : Instant) (pair : KeyPair) : Type 0 where
    pub template : Template
    pub der : String
    pub key : PublicKey
    pub issued :
        IsIssued net i.now true validity_interval "keyserver-autogen-tls"
          (ctx.keyserver_dns ∷ [])
          []
          template
    pub signed : x.create_certificate template ctx.cluster_ca.cert key ctx.cluster_ca.key ≡ ok der
    pub chain : pair.certificate ≡ der ∷ []
    pub leaf : x.parse_certificate der ≡ ok pair.leaf
    pub private_key : pair.private_key ≡ server_key

  new_server_cert-IsServing :
      (i : Instant) (pair : KeyPair)
      → IsDocumented
      → new_server_cert net x lib x509_key_pair wrap ctx server_key i ≡ ok pair
      → IsServing i pair
  unfolding new_server_cert
  new_server_cert-IsServing i pair documented h =
      let (csr, h1, built) =
        >>=-eq-ok (wrapped (wrap "while generating CSR") (build_tls_csr lib x server_key)) _ h in
      let (cert, h2, made) =
        >>=-eq-ok
          (wrapped (wrap "while signing CSR") (
            sign net x i ctx.cluster_ca csr true validity_interval "keyserver-autogen-tls"
              (ctx.keyserver_dns ∷ []) []))
          _ h1 in
      let (certificate, h3, paired) =
        >>=-eq-ok (wrapped (wrap "while reloading certificate") (x509_key_pair cert server_key)) _
          h2 in
      let (leaf, h4, parsed) =
        >>=-eq-ok (parse_leaf net x lib x509_key_pair wrap ctx server_key certificate) _ h3 in
      let (req, loaded, checked, (c, issued, (der, created, same))) =
        sign_sound net x i ctx.cluster_ca csr true validity_interval "keyserver-autogen-tls"
          (ctx.keyserver_dns ∷ []) [] (wrapped-eq-ok _ _ made) in
      let chain =
        documented.reads der certificate
          (ap (λ v. x509_key_pair v server_key) (sym same) ∙ wrapped-eq-ok _ _ paired) in
      let parsed' =
        wrapped-eq-ok (wrap "while pre-parsing certificate") (x.parse_certificate der)
          (ap (parse_leaf net x lib x509_key_pair wrap ctx server_key) (sym chain) ∙ parsed) in
      let made_pair : KeyPair = record {
        certificate = certificate;
        private_key = server_key;
        leaf = leaf;
      } in
      let same_pair : made_pair ≡ pair = cc in
      subst (IsServing i) same_pair (record {
        template = c;
        der = der;
        key = req.public_key;
        issued = issued;
        signed = created;
        chain = chain;
        leaf = parsed';
        private_key = refl;
      })

  IsServing-ends :
      (i : Instant) (pair : KeyPair)
      → IsDocumented
      → IsServing i pair
      → i.now + renewal_margin < pair.leaf.not_after
  IsServing-ends i pair documented s =
      let ends =
        documented.ends s.template ctx.cluster_ca.cert s.key ctx.cluster_ca.key s.der pair.leaf
          s.signed s.leaf in
      let lifetime = s.issued.lifetime.1 in omega (arith, ends.0, lifetime)

  abbrev pub serve_cert : ℕ → Instant → Option KeyPair → Result KeyPair × Option KeyPair
  serve_cert = get_valid_server_cert net x lib x509_key_pair wrap ctx server_key

  -- What a handshake gets, of a certificate that was held before.
  abbrev pub IsHandshake : ℕ → Instant → Option KeyPair → Result KeyPair × Option KeyPair → Type 0
  IsHandshake now i held (ok pair, after) =
      (after ≡ some pair)
      × (now + renewal_margin < pair.leaf.not_after)
      × ((held ≡ some pair) ⊎ IsServing i pair)
  IsHandshake now i held (err e, after) = after ≡ held
  IsHandshake now i held (panic t, after) = after ≡ held

  -- A handshake is served with a certificate that is good for five minutes more at least, and that is
  -- kept: the one that was held before, or a new one that the cluster's authority issued to the
  -- keyserver for a day. If none can be made, the one held before is kept. This uses that a certificate
  -- ends when its template says, to the second, and that its PEM block is read back.
  pub get_valid_server_cert_sound :
      (now : ℕ) (i : Instant) (held : Option KeyPair)
      → IsDocumented
      → now ≤ i.now
      → IsHandshake now i held (serve_cert now i held)
  unfolding get_valid_server_cert
  get_valid_server_cert_sound now i held documented clock = go held
    where
      renewed :
          (before : Option KeyPair) (r : Result KeyPair)
          → new_server_cert net x lib x509_key_pair wrap ctx server_key i ≡ r
          → IsHandshake now i before (keep net x lib x509_key_pair wrap ctx server_key before r)
      renewed before (ok pair) e =
          let serving = new_server_cert-IsServing i pair documented e in
          let later = IsServing-ends i pair documented serving in
          (refl, omega (arith, later, clock), inr serving)
      renewed before (err why) e = refl
      renewed before (panic t) e = refl

      go : (before : Option KeyPair) → IsHandshake now i before (serve_cert now i before)
      go none = renewed none (new_server_cert net x lib x509_key_pair wrap ctx server_key i) refl
      go (some pair) = elim (Bool-cases (ltb (now + renewal_margin) pair.leaf.not_after)) [
        | inl good ↦
            rw good (refl, ltb→lt (now + renewal_margin) pair.leaf.not_after good, inl refl)
        | inr old ↦ rw old (
            renewed (some pair) (new_server_cert net x lib x509_key_pair wrap ctx server_key i)
              refl)
      ]
