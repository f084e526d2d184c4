-- ===== src/UserGrant/Steps.antt =====
-- The steps of a request in platform/user-grant/grant.go: who is authenticated, what is created in the
-- cluster, and what the certificate of the page is.
use Prim.Native.String.{◌++◌ as str_append}
use text.Mathlib.Text.{starts_with}
use homeworld.Common.{
  ℕ, ◌^◌, String, ◌≡◌, refl, sym, ap, ◌∙◌, subst, ◌≢◌, inl, inr, true, Option, none, some, [], ◌∷◌,
  arith, ◌==◌, eq_iff, Bool-cases, Error, Result, ok, err, panic, >>=-eq-ok, All,
}
use homeworld.Common.Effects.{give, ask, >>=-returns}
use homeworld.Authority.Crypto.{PublicKey, Certificate, X509, Instant}
use homeworld.Authority.Tls.{VerifiedChains, first_cert, finish_certificate}
use homeworld.UserGrant.{Config, Response, validate, fields}
use homeworld.UserGrant.Email.{FirstEmail, at_domain, extract_email_iff}
use homeworld.UserGrant.Validation.{IsPlain, validate-IsPlain}
use homeworld.UserGrant.Handler.{
  Creation, created, refused, failed, Services, role_binding, user_template, bytes_or_nil,
  authenticate, is_verified, cert_gen, creation_result, create_namespace, grant_access,
  response_for, cert_bytes, fill_page,
}

-- The object was created, or was there before.
abbrev pub IsThere : Creation → Type 0
IsThere created = Unit
IsThere (refused reason e) = reason ≡ "AlreadyExists"
IsThere (failed e) = ⊥

module _ {W : Type 0} (x : X509) (s : Services W) (c : Config) where
  -- The certificate of the page: signed by the issuer for the user, over the key.
  pub record IsIssued (i : Instant) (key : PublicKey) (user cert : String) : Type 0 where
    pub serial : ℕ
    pub der : String
    pub signed :
        x.create_certificate
          (record (user_template i.now user) { serial_number = serial })
          c.issuer_cert
          key
          c.issuer_key
        ≡ ok der
    pub encoded : cert ≡ x.pem_encode (record { kind = "CERTIFICATE"; bytes = der })

  pub authenticate_sound :
      (chains : VerifiedChains) (user : String)
      → authenticate x s c chains ≡ ok user
      → (cert : Certificate) × (first_cert chains ≡ some cert)
        × ((x.verify c.upstream_ca cert).0 ≢ 0)
        × ((x.verify c.upstream_ca cert).1 ≡ none)
        × FirstEmail (s.subject_names cert) (some (str_append user (at_domain c.email_auth_domain)))
  unfolding authenticate
  authenticate_sound none user h = cc
  authenticate_sound (some []) user h = cc
  authenticate_sound (some ([] ∷ chains)) user h = cc
  authenticate_sound (some ((cert ∷ certs) ∷ chains)) user h =
      elim (Bool-cases (is_verified (x.verify c.upstream_ca cert))) [
        | inr bad ↦ let k = rw bad at h in cc
        | inl fine ↦
            let k = rw fine at h in
            (
              cert,
              refl,
              (verified_parts (x.verify c.upstream_ca cert) fine).0,
              (verified_parts (x.verify c.upstream_ca cert) fine).1,
              (extract_email_iff c.email_auth_domain (s.subject_names cert) user).0 k,
            )
      ]
    where
      verified_parts : (p : ℕ × Option Error) → is_verified p ≡ true → (p.0 ≢ 0) × (p.1 ≡ none)
      verified_parts (n, none) h = ((λ e. ground arith), refl)
      verified_parts (n, some e) h = cc

  creation_result-IsThere :
      (wrap : Error → Error) (creation : Creation) {u : Unit {0}}
      → creation_result wrap creation ≡ ok u
      → IsThere creation
  creation_result-IsThere wrap created h = tt
  creation_result-IsThere wrap (refused reason e) h =
      elim (Bool-cases (reason == "AlreadyExists")) [
        | inl same ↦ (eq_iff reason "AlreadyExists").0 same
        | inr other ↦ let k = rw other at h in cc
      ]
  creation_result-IsThere wrap (failed e) h = cc

  cert_gen-IsIssued :
      (i : Instant) (key : PublicKey) (user cert : String)
      → cert_gen x s c i key user ≡ ok cert
      → IsIssued i key user cert
  unfolding cert_gen finish_certificate
  cert_gen-IsIssued i key user cert h =
      let (serial, h1, drawn) = >>=-eq-ok (i.random_int (2 ^ 159)) _ h in
      let template = record (user_template i.now user) { serial_number = serial } in
      let (der, h2, made) =
        >>=-eq-ok (x.create_certificate template c.issuer_cert key c.issuer_key) _ h1 in
      record { serial = serial; der = der; signed = made; encoded = cc }

  -- The certificate's error is not looked at, but then the bytes are nil.
  cert_bytes-signed :
      (i : Instant) (key : PublicKey) (user cert : String)
      → bytes_or_nil (cert_gen x s c i key user) ≡ ok cert
      → cert ≢ ""
      → cert_gen x s c i key user ≡ ok cert
  cert_bytes-signed i key user cert h ne = split (cert_gen x s c i key user) refl h
    where
      split :
          (r : Result String)
          → cert_gen x s c i key user ≡ r
          → bytes_or_nil r ≡ ok cert
          → cert_gen x s c i key user ≡ ok cert
      split (ok t) e k = e ∙ k
      split (err t) e k = absurd (ne (let q : "" ≡ cert = cc in sym q))
      split (panic t) e k = cc

  encode_nil : (cert : String) → s.encode "" ≡ "" → IsPlain (s.encode cert) → cert ≢ ""
  encode_nil cert documented plain e = plain.0 (ap s.encode e ∙ documented)

  -- The last steps, with the key at hand.
  pub record IsFilled (user : String) (keys : PublicKey × String) (resp : Response) (w u : W)
      : Type 0 where
    pub issued : String
    pub is_issued : IsIssued (s.instant u) keys.0 user issued
    pub page : resp ≡ response_for x s c user keys.1 issued
    pub plain : All IsPlain (fields resp)
    pub unmoved : w ≡ u

  pub fill_page-IsFilled :
      (user : String) (keys : PublicKey × String) (resp : Response) (w u : W)
      → s.encode "" ≡ ""
      → fill_page x s c user keys w ≡ (ok resp, u)
      → IsFilled user keys resp w u
  fill_page-IsFilled user (key, keyx) resp w u documented h =
      let (cert, w1, h1, made) = >>=-returns (ask (cert_bytes x s c key user)) _ w h in
      let (_, w2, h2, valid) =
        >>=-returns (give (validate (response_for x s c user keyx cert))) _ w1 h1 in
      let still : w ≡ w1 = ap (λ p. p.1) made in
      let still' : w1 ≡ w2 = ap (λ p. p.1) valid in
      let last : w2 ≡ u = ap (λ p. p.1) h2 in
      let page : ◌≡◌ {A = Result Response} (ok (response_for x s c user keyx cert)) (ok resp) =
        ap (λ p. p.0) h2 in
      let plain = validate-IsPlain (response_for x s c user keyx cert) (ap (λ p. p.0) valid) in
      let same : response_for x s c user keyx cert ≡ resp = cc in
      let unmoved = still ∙ still' ∙ last in
      let bytes =
        subst (λ v. bytes_or_nil (cert_gen x s c (s.instant v) key user) ≡ ok cert) unmoved
          (ap (λ p. p.0) made) in
      record {
        issued = cert;
        is_issued = cert_gen-IsIssued (s.instant u) key user cert (
            cert_bytes-signed (s.instant u) key user cert bytes
              (encode_nil cert documented plain.1.1.0));
        page = sym same;
        plain = subst (λ r. All IsPlain (fields r)) same plain;
        unmoved = unmoved;
      }

  pub create_namespace-IsThere :
      (namespace : String) (w v : W) {t : Unit {0}}
      → create_namespace x s c namespace w ≡ (ok t, v)
      → IsThere (s.create_namespace namespace w).0 × ((s.create_namespace namespace w).1 ≡ v)
  unfolding create_namespace
  create_namespace-IsThere namespace w v h = elim (Bool-cases (starts_with namespace "user-")) [
    | inr other ↦ let k = rw other at h in let e = ap (λ p. p.0) k in cc
    | inl fine ↦
        let k = rw fine at h in
        (
          creation_result-IsThere (s.wrap (str_append "while creating namespace " namespace))
              (s.create_namespace namespace w).0 (ap (λ p. p.0) k),
          ap (λ p. p.1) k,
        )
  ]

  pub grant_access-IsThere :
      (namespace user : String) (w v : W) {t : Unit {0}}
      → grant_access x s c namespace user w ≡ (ok t, v)
      → IsThere (s.create_role_binding (role_binding namespace user) w).0
        × ((s.create_role_binding (role_binding namespace user) w).1 ≡ v)
  unfolding grant_access
  grant_access-IsThere namespace user w v h = (
    creation_result-IsThere
        (s.wrap (str_append "while checking whether rolebinding existed for user " user))
        (s.create_role_binding (role_binding namespace user) w).0 (ap (λ p. p.0) h),
    ap (λ p. p.1) h,
  )
