-- ===== src/Keyreq/Obtained.antt =====
-- What the command of platform/keysystem/keyreq has done when it ends well.
use homeworld.Common.{
  String, ◌≡◌, refl, sym, ap, ◌∙◌, subst, ◌≢◌, ◌⊎◌, inl, inr, List, [], ◌∷◌, ◌==◌, eq_iff,
  Bool-cases, Result, ok, >>=-eq-ok,
}
use homeworld.Authority.Crypto.{X509, RsaKey}
use homeworld.Authority.Pem.{load_rsa_key_from_pem}
use homeworld.Operation.{Json}
use homeworld.Util.Csr.{CsrLib, build_tls_csr}
use homeworld.Keyclient.Effects.{Client, Errors, Os, tell, give}
use homeworld.Keyclient.Target.{RequestTarget, send_request, get_pubkey}
use homeworld.Keygateway.{Keyserver}
use homeworld.Keygateway.Knc.{Processes}
use homeworld.Keyreq.Kerberos.{
  go_on-goes, or_exit-goes, IsGreeted, over_knc, send_request-IsExchange, auth_kerberos-IsGreeted,
}
use homeworld.Keygateway.Exchange.{IsExchange}
use homeworld.Keyreq.{
  goes, or_exit, not_empty, auth_kerberos, request_tls_cert, tls_cert, main, err_unknown_failure,
  err_no_access, err_invalid_invocation, err_cannot_establish_connection,
}

not_empty-goes :
    {W : Type 0} {a : Unit {0}} (req : String) (c v : Client W)
    → not_empty req c ≡ (goes a, v)
    → (req ≢ "") × (c ≡ v)
not_empty-goes req c v h = elim (Bool-cases (req == "")) [
  | inl empty ↦ let k = rw empty at h in cc
  | inr fine ↦ let k = rw fine at h in (λ e. let q = (eq_iff req "").1 e in cc, ap (λ p. p.1) k)
]

module _ {W : Type 0} (os : Os W) (errors : Errors) (x : X509) (json : Json)
    (processes : Processes W) (lib : CsrLib) where
  -- The request is made for the key: it is signed with it, under the name that the source writes.
  pub record IsRequestFor (privkey csr : String) : Type 0 where
    pub key : RsaKey
    pub der : String
    pub loaded : load_rsa_key_from_pem x privkey ≡ ok key
    pub created : lib.create_certificate_request "invalid-cn-temporary-request" key ≡ ok der
    pub encoded : csr ≡ x.pem_encode (record { kind = "CERTIFICATE REQUEST"; bytes = der })

  build_tls_csr-IsRequestFor :
      (privkey csr : String) → build_tls_csr lib x privkey ≡ ok csr → IsRequestFor privkey csr
  unfolding build_tls_csr
  build_tls_csr-IsRequestFor privkey csr h =
      let (key, h1, loaded) = >>=-eq-ok (load_rsa_key_from_pem x privkey) _ h in
      let (der, h2, created) =
        >>=-eq-ok (lib.create_certificate_request "invalid-cn-temporary-request" key) _ h1 in
      record { key = key; der = der; loaded = loaded; created = created; encoded = cc }

  -- A new key, the certificate that the keyserver gave for it over knc, and the authority's, each in
  -- its file.
  pub record IsObtained (api authority base_url hostname key_out cert_out ca_out : String)
      (c u : Client W) : Type 0 where
    pub privkey : String
    pub csr : String
    pub req : String
    pub ca : String
    pub with_key : Client W
    pub asked : Client W
    pub with_key_out : Client W
    pub with_cert_out : Client W
    pub with_ca : Client W
    pub generated : tell (os.generate_rsa 2048) c ≡ (ok privkey, with_key)
    pub built : IsRequestFor privkey csr
    pub answered :
        IsExchange processes errors json hostname
          ((("api", api) ∷ ("body", csr) ∷ []) ∷ [])
          (req ∷ [])
          with_key
          asked
    pub some_answer : req ≢ ""
    pub key_written : tell (os.write_file key_out privkey 0o600) asked ≡ (ok tt, with_key_out)
    pub cert_written : tell (os.write_file cert_out req 0o644) with_key_out ≡ (ok tt, with_cert_out)
    pub ca_got : get_pubkey os errors json base_url authority with_cert_out ≡ (ok ca, with_ca)
    pub ca_written : tell (os.write_file ca_out ca 0o644) with_ca ≡ (ok tt, u)

  request_tls_cert-IsObtained :
      (api authority : String) (ks : Keyserver) (hostname key_out cert_out ca_out : String)
      (c u : Client W)
      → request_tls_cert os errors x json processes lib api authority
          (ks, over_knc os errors x json processes lib hostname)
          key_out
          cert_out
          ca_out
          c
        ≡ (goes tt, u)
      → IsObtained api authority ks.base_url hostname key_out cert_out ca_out c u
  unfolding request_tls_cert
  request_tls_cert-IsObtained api authority ks hostname key_out cert_out ca_out c u h =
      let (privkey, c1, h1, g1) =
        go_on-goes (or_exit err_unknown_failure (tell (os.generate_rsa 2048))) _ c h in
      let (csr, c2, h2, g2) =
        go_on-goes (or_exit err_unknown_failure (give (build_tls_csr lib x privkey))) _ c1 h1 in
      let (req, c3, h3, g3) =
        go_on-goes
          (or_exit err_no_access
            (send_request (over_knc os errors x json processes lib hostname) api csr))
          _ c2 h2 in
      let (_, c4, h4, g4) = go_on-goes (not_empty req) _ c3 h3 in
      let (_, c5, h5, g5) =
        go_on-goes (or_exit err_invalid_invocation (tell (os.write_file key_out privkey 0o600))) _
          c4 h4 in
      let (_, c6, h6, g6) =
        go_on-goes (or_exit err_invalid_invocation (tell (os.write_file cert_out req 0o644))) _ c5
          h5 in
      let (ca, c7, h7, g7) =
        go_on-goes
          (or_exit err_cannot_establish_connection
            (get_pubkey os errors json ks.base_url authority))
          _ c6 h6 in
      let made = or_exit-goes err_unknown_failure (give (build_tls_csr lib x privkey)) c1 g2 in
      let still : c1 ≡ c2 = ap (λ p. p.1) made in
      let (some_text, still') = not_empty-goes req c3 c4 g4 in
      record {
        privkey = privkey;
        csr = csr;
        req = req;
        ca = ca;
        with_key = c1;
        asked = c3;
        with_key_out = c5;
        with_cert_out = c6;
        with_ca = c7;
        generated = or_exit-goes err_unknown_failure (tell (os.generate_rsa 2048)) c g1;
        built = build_tls_csr-IsRequestFor privkey csr (ap (λ p. p.0) made);
        answered = send_request-IsExchange os errors x json processes lib hostname api csr c1 c3 (
            ap (send_request (over_knc os errors x json processes lib hostname) api csr) still
            ∙ or_exit-goes err_no_access
                (send_request (over_knc os errors x json processes lib hostname) api csr) c2 g3);
        some_answer = some_text;
        key_written =
            ap (tell (os.write_file key_out privkey 0o600)) still'
            ∙ or_exit-goes err_invalid_invocation (tell (os.write_file key_out privkey 0o600)) c4
                g5;
        cert_written =
            or_exit-goes err_invalid_invocation (tell (os.write_file cert_out req 0o644)) c5 g6;
        ca_got =
            or_exit-goes err_cannot_establish_connection
              (get_pubkey os errors json ks.base_url authority) c6 g7;
        ca_written =
            or_exit-goes err_invalid_invocation (tell (os.write_file ca_out ca 0o644)) c7 h7;
      }

  -- The API and the authority of a command.
  abbrev pub IsTlsCommand : String → String → String → Type 0
  IsTlsCommand command api authority =
      ((command ≡ "kube-cert") × (api ≡ "access-kubernetes") × (authority ≡ "kubernetes"))
      ⊎ ((command ≡ "etcd-cert") × (api ≡ "access-etcd") × (authority ≡ "etcd-server"))

  module _ (ssh_pubkey : String → Result String)
      (write_stdout : String → W → Result (Unit {0}) × W) where
    main-tls_cert :
        (command api authority : String) (args : List String) (c : Client W)
        → IsTlsCommand command api authority
        → main os errors x json processes lib ssh_pubkey write_stdout (command ∷ args) c
          ≡ tls_cert os errors x json processes lib ssh_pubkey write_stdout api authority args c
    unfolding main
    main-tls_cert command api authority args c (inl (e, f, g)) = rw (e, f, g) refl
    main-tls_cert command api authority args c (inr (e, f, g)) = rw (e, f, g) refl

    -- If `keyreq kube-cert` or `keyreq etcd-cert` ends without an error code, then the authority's
    -- certificate was read and parsed, the host in the URL of the domain answered an empty batch that
    -- `knc` took to it with the Kerberos ticket of the caller, a new key was made, the same host
    -- answered, again over `knc`, the one request to the command's API with a certificate that is not
    -- empty, where the request was created with this key, and the key, for its owner alone to read,
    -- this certificate and that of the command's authority were written to the files that were named.
    pub main-obtains :
        (command api authority authority_path domain key_out cert_out ca_out : String)
        (rest : List String) (c u : Client W)
        → IsTlsCommand command api authority
        → main os errors x json processes lib ssh_pubkey write_stdout
            (command ∷ authority_path ∷ domain ∷ key_out ∷ cert_out ∷ ca_out ∷ rest)
            c
          ≡ (goes tt, u)
        → (base_url : String) × (hostname : String) × (v : Client W) × IsGreeted os errors x json
            processes lib authority_path domain base_url hostname c v
          × IsObtained api authority base_url hostname key_out cert_out ca_out v u
    unfolding tls_cert
    main-obtains command api authority authority_path domain key_out cert_out ca_out rest c u tls
          h =
        let args = authority_path ∷ domain ∷ key_out ∷ cert_out ∷ ca_out ∷ rest in
        let k = sym (main-tls_cert command api authority args c tls) ∙ h in
        let asks = λ (target : Keyserver × RequestTarget W).
          request_tls_cert os errors x json processes lib api authority target key_out cert_out
            ca_out in
        let ((ks, rt), v, h1, g1) =
          go_on-goes (auth_kerberos os errors x json processes lib authority_path domain) asks c
            k in
        let (hostname, over, greeted) =
          auth_kerberos-IsGreeted os errors x json processes lib authority_path domain ks rt c v
            g1 in
        (
          ks.base_url,
          hostname,
          v,
          greeted,
          request_tls_cert-IsObtained api authority ks hostname key_out cert_out ca_out v u
              (subst (λ target. asks (ks, target) v ≡ (goes tt, u)) over h1),
        )
