-- ===== src/Keyreq/Kerberos.antt =====
-- How platform/keysystem/keyreq reaches the keyserver with a Kerberos ticket.
use Prim.Native.String.{◌++◌ as str_append}
use homeworld.Common.{
  ℕ, String, ◌≡◌, refl, sym, ap, ◌∙◌, subst, List, [], ◌∷◌, arith, Result, ok, err, panic, length,
}
use homeworld.Authority.Crypto.{X509, Certificate}
use homeworld.Authority.Pem.{load_x509_cert_from_pem}
use homeworld.Operation.{Json}
use homeworld.Util.Csr.{CsrLib}
use homeworld.Keyclient.Effects.{Client, Errors, Os, Act, ask, give}
use homeworld.Keyclient.Target.{only, RequestTarget, send_request}
use homeworld.Keygateway.{Keyserver, new_keyserver}
use homeworld.Keygateway.Knc.{
  Processes, knc_send_requests, authenticate_with_kerberos_tickets,
  authenticate_with_kerberos_tickets_in_cache,
}
use homeworld.Keygateway.Roundtrip.{>>=-gives}
use homeworld.Keygateway.Exchange.{IsExchange, with_own_ticket, knc_send_requests-IsExchange}
use homeworld.Keyreq.{
  Exit, goes, exits, Program, go_on, ◌>>=◌, exited, or_exit, auth_kerberos, get_keyserver,
  err_invalid_config, err_invalid_invocation, err_cannot_establish_connection,
}

pub go_on-goes :
    {W A B : Type 0} {b : B} {u : Client W} (first : Program W A) (rest : A → Program W B)
    (c : Client W)
    → (first >>= rest) c ≡ (goes b, u)
    → (a : A) × (v : Client W) × (rest a v ≡ (goes b, u)) × (first c ≡ (goes a, v))
go_on-goes {W} {A} {B} {b} {u} first rest c h = split (first c) refl h
  where
    split :
        (r : Exit A × Client W)
        → first c ≡ r
        → go_on rest r ≡ (goes b, u)
        → (a : A) × (v : Client W) × (rest a v ≡ (goes b, u)) × (first c ≡ (goes a, v))
    split (goes a, v) e k = (a, v, k, e)
    split (exits code, v) e k = cc

pub or_exit-goes :
    {W A : Type 0} {a : A} {v : Client W} (code : ℕ) (f : Act W A) (c : Client W)
    → or_exit code f c ≡ (goes a, v)
    → f c ≡ (ok a, v)
or_exit-goes {W} {A} {a} {v} code f c h = split (f c) h
  where
    split : (r : Result A × Client W) → exited code r ≡ (goes a, v) → r ≡ (ok a, v)
    split (ok b, w) e = cc
    split (err why, w) e = cc
    split (panic t, w) e = cc

done-goes :
    {W A : Type 0} {a b : A} {c v : Client W}
    → ◌≡◌ {A = Exit A × Client W} (goes a, c) (goes b, v)
    → (a ≡ b) × (c ≡ v)
done-goes h = (let e = ap (λ p. p.0) h in cc, ap (λ p. p.1) h)

no_results : (results : List String) → length results ≡ 0 → results ≡ []
no_results [] h = refl
no_results (result ∷ results) h = ground arith

only-gives :
    {W : Type 0} {result : String} {u : Client W} (strs : List String) (c : Client W)
    → give (only strs) c ≡ (ok result, u)
    → (strs ≡ result ∷ []) × (c ≡ u)
only-gives [] c h = cc
only-gives (str ∷ []) c h = (let e = ap (λ p. p.0) h in cc, ap (λ p. p.1) h)
only-gives (str ∷ next ∷ strs) c h = cc

module _ {W : Type 0} (os : Os W) (errors : Errors) (x : X509) (json : Json)
    (processes : Processes W) (lib : CsrLib) where
  -- The keyserver of the domain, with the authority's certificate from the file, has answered the
  -- empty batch over knc, and so has accepted the ticket of the caller.
  pub record IsGreeted (authority_path domain base_url hostname : String) (c v : Client W)
      : Type 0 where
    pub authority : String
    pub certificate : Certificate
    pub read : os.read_file authority_path c.world ≡ ok authority
    pub parsed : load_x509_cert_from_pem x authority ≡ ok certificate
    pub named : base_url ≡ str_append "https://" (str_append domain "/")
    pub host : processes.url_hostname base_url ≡ ok hostname
    pub greeting : IsExchange processes errors json hostname [] [] c v

  -- The caller's requests, over knc with its own ticket.
  abbrev pub over_knc : String → RequestTarget W
  over_knc hostname =
      knc_send_requests processes errors json (with_own_ticket processes errors json hostname)

  pub send_request-IsExchange :
      (hostname api body : String) (c u : Client W) {result : String}
      → send_request (over_knc hostname) api body c ≡ (ok result, u)
      → IsExchange processes errors json hostname
          ((("api", api) ∷ ("body", body) ∷ []) ∷ [])
          (result ∷ [])
          c
          u
  unfolding send_request
  send_request-IsExchange hostname api body c u {result} h =
      let (strs, v, h1, got) =
        >>=-gives (over_knc hostname (record { api = api; body = body } ∷ [])) _ c h in
      let (exchange, _) =
        knc_send_requests-IsExchange processes errors json hostname
          (record { api = api; body = body } ∷ []) c v got in
      let (one, still) = only-gives strs v h1 in
      subst
        (λ (p : List String × Client W).
          IsExchange processes errors json hostname ((("api", api) ∷ ("body", body) ∷ []) ∷ []) p.0
            c p.1)
        (λ i. (one i, still i)) exchange

  new_keyserver-named :
      (authority domain : String) {ks : Keyserver}
      → new_keyserver os errors x json authority domain ≡ ok ks
      → (certificate : Certificate) × (load_x509_cert_from_pem x authority ≡ ok certificate)
        × (ks.base_url ≡ str_append "https://" (str_append domain "/"))
  unfolding new_keyserver
  new_keyserver-named authority domain {ks} h = split (load_x509_cert_from_pem x authority) refl h
    where
      split :
          (r : Result Certificate)
          → load_x509_cert_from_pem x authority ≡ r
          → elim r [
            | ok cert ↦ ok (record {
              authority = cert;
              base_url = str_append "https://" (str_append domain "/");
            })
            | err e ↦ err (errors.wrap "while parsing authority certificate" e)
            | panic t ↦ panic t
          ]
            ≡ ok ks
          → (certificate : Certificate) × (load_x509_cert_from_pem x authority ≡ ok certificate)
            × (ks.base_url ≡ str_append "https://" (str_append domain "/"))
      split (ok certificate) e k = (certificate, e, cc)
      split (err why) e k = cc
      split (panic t) e k = cc

  authenticate-over_knc :
      (base_url : String) {rt : RequestTarget W}
      → authenticate_with_kerberos_tickets processes errors json base_url ≡ ok rt
      → (hostname : String) × (processes.url_hostname base_url ≡ ok hostname)
        × (rt ≡ over_knc hostname)
  unfolding authenticate_with_kerberos_tickets authenticate_with_kerberos_tickets_in_cache
  authenticate-over_knc base_url {rt} h = split (processes.url_hostname base_url) refl h
    where
      same_target :
          {s : RequestTarget W} → ◌≡◌ {A = Result (RequestTarget W)} (ok s) (ok rt) → rt ≡ s
      same_target e = sym (cc)

      split :
          (r : Result String)
          → processes.url_hostname base_url ≡ r
          → elim r [ ok hostname ↦ ok (over_knc hostname) | err e ↦ err e | panic t ↦ panic t ]
            ≡ ok rt
          → (hostname : String) × (processes.url_hostname base_url ≡ ok hostname)
            × (rt ≡ over_knc hostname)
      split (ok hostname) e k = (hostname, e, same_target k)
      split (err why) e k = cc
      split (panic t) e k = cc

  get_keyserver-named :
      (path domain : String) (ks : Keyserver) (c v : Client W)
      → get_keyserver os errors x json processes lib path domain c ≡ (goes ks, v)
      → (authority : String) × (certificate : Certificate) × (os.read_file path c.world
          ≡ ok authority)
        × (load_x509_cert_from_pem x authority ≡ ok certificate)
        × (ks.base_url ≡ str_append "https://" (str_append domain "/"))
        × (c ≡ v)
  unfolding get_keyserver
  get_keyserver-named path domain ks c v h =
      let (authority, c1, h1, g1) =
        go_on-goes (or_exit err_invalid_invocation (ask (os.read_file path))) _ c h in
      let read = or_exit-goes err_invalid_invocation (ask (os.read_file path)) c g1 in
      let made =
        or_exit-goes err_invalid_config (give (new_keyserver os errors x json authority domain)) c1
          h1 in
      let (certificate, parsed, named) =
        new_keyserver-named authority domain (ap (λ p. p.0) made) in
      (
        authority,
        certificate,
        ap (λ p. p.0) read,
        parsed,
        named,
        ap (λ p. p.1) read ∙ ap (λ p. p.1) made,
      )

  pub auth_kerberos-IsGreeted :
      (authority_path domain : String) (ks : Keyserver) (rt : RequestTarget W) (c v : Client W)
      → auth_kerberos os errors x json processes lib authority_path domain c ≡ (goes (ks, rt), v)
      → (hostname : String) × (rt ≡ over_knc hostname)
        × IsGreeted authority_path domain ks.base_url hostname c v
  unfolding auth_kerberos
  auth_kerberos-IsGreeted authority_path domain ks rt c v h =
      let (ks', c1, h1, g1) =
        go_on-goes (get_keyserver os errors x json processes lib authority_path domain) _ c h in
      let (rt', c2, h2, g2) =
        go_on-goes
          (or_exit err_invalid_invocation
            (give (authenticate_with_kerberos_tickets processes errors json ks'.base_url)))
          _ c1 h1 in
      let (results, c3, h3, g3) =
        go_on-goes (or_exit err_cannot_establish_connection (rt' [])) _ c2 h2 in
      let (same, moved) = done-goes h3 in
      let (authority, certificate, read, parsed, named, still) =
        get_keyserver-named authority_path domain ks' c c1 g1 in
      let auth =
        or_exit-goes err_invalid_invocation
          (give (authenticate_with_kerberos_tickets processes errors json ks'.base_url)) c1 g2 in
      let (hostname, host, over) = authenticate-over_knc ks'.base_url (ap (λ p. p.0) auth) in
      let (exchange, none_given) =
        knc_send_requests-IsExchange processes errors json hostname [] c2 c3 (
          subst (λ t. t [] c2 ≡ (ok results, c3)) over
            (or_exit-goes err_cannot_establish_connection (rt' []) c2 g3)) in
      let began = still ∙ ap (λ p. p.1) auth in
      (
        hostname,
        ap (λ p. p.1) (sym same) ∙ over,
        record {
          authority = authority;
          certificate = certificate;
          read = read;
          parsed = parsed;
          named = ap (λ p. p.0.base_url) (sym same) ∙ named;
          host = ap (λ p. processes.url_hostname p.0.base_url) (sym same) ∙ host;
          greeting = exchanged hostname (no_results results none_given) (sym began) moved exchange;
        },
      )
    where
      exchanged :
          (hostname : String) {results : List String} {c2 c3 d e : Client W}
          → results ≡ []
          → c2 ≡ d
          → c3 ≡ e
          → IsExchange processes errors json hostname [] results c2 c3
          → IsExchange processes errors json hostname [] [] d e
      exchanged hostname {results} {c2} {c3} none_given began moved exchange =
          subst
            (λ (v : Client W × Client W). IsExchange processes errors json hostname [] [] v.0 v.1)
            (λ i. (began i, moved i))
            (subst (λ r. IsExchange processes errors json hostname [] r c2 c3) none_given exchange)
