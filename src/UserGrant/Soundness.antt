-- ===== src/UserGrant/Soundness.antt =====
-- Whom the page of platform/user-grant/grant.go is given to, and what is on it.
use Prim.Native.String.{◌++◌ as str_append}
use homeworld.Common.{
  ℕ, String, ◌≡◌, refl, sym, ap, ◌∙◌, subst, ◌≢◌, Option, none, some, arith, Result, ok, err, panic,
  All,
}
use homeworld.Common.Effects.{give, >>=-returns}
use homeworld.Authority.Crypto.{PublicKey, Certificate, X509}
use homeworld.Authority.Tls.{VerifiedChains, first_cert}
use homeworld.UserGrant.{Config, Response, fields}
use homeworld.UserGrant.Email.{FirstEmail, at_domain}
use homeworld.UserGrant.Validation.{IsPlain}
use homeworld.UserGrant.Handler.{
  Services, Reply, Outcome, replied, role_binding, authenticate, create_namespace, grant_access,
  namespace_of, parsed, response_for, grant, prepare, handle_request, executed, answered, ended,
  aborted, serve_page, write_all,
}
use homeworld.UserGrant.Steps.{
  IsThere, IsIssued, authenticate_sound, fill_page-IsFilled, create_namespace-IsThere,
  grant_access-IsThere,
}

abbrev pub status_of : Outcome → Option ℕ
status_of (replied reply) = reply.status
status_of aborted = none

abbrev pub empty_reply : Reply
empty_reply = record { status = none; body = "" }

module _ {W : Type 0} (x : X509) (s : Services W) (c : Config) where
  -- What was done in the cluster and what is on the page, for the user that the request proves to be.
  pub record IsGranted (chains : VerifiedChains) (w : W) (resp : Response) (u : W) : Type 0 where
    pub cert : Certificate
    pub user : String
    pub presented : first_cert chains ≡ some cert
    pub chain : (x.verify c.upstream_ca cert).0 ≢ 0
    pub no_error : (x.verify c.upstream_ca cert).1 ≡ none
    pub email :
        FirstEmail (s.subject_names cert) (some (str_append user (at_domain c.email_auth_domain)))
    pub namespace : IsThere (s.create_namespace (namespace_of user) w).0
    pub after_namespace : W
    pub namespace_moves : (s.create_namespace (namespace_of user) w).1 ≡ after_namespace
    pub binding :
        IsThere (s.create_role_binding (role_binding (namespace_of user) user) after_namespace).0
    pub after_binding : W
    pub binding_moves :
        (s.create_role_binding (role_binding (namespace_of user) user) after_namespace).1
        ≡ after_binding
    pub keys : PublicKey × String
    pub generated : s.generate_rsa 2048 after_binding ≡ (ok keys, u)
    pub issued : String
    pub is_issued : IsIssued x s c (s.instant u) keys.0 user issued
    pub page : resp ≡ response_for x s c user keys.1 issued
    pub plain : All IsPlain (fields resp)

  prepare_sound :
      (chains : VerifiedChains) (resp : Response) (w u : W)
      → s.encode "" ≡ ""
      → prepare x s c chains w ≡ (ok resp, u)
      → IsGranted chains w resp u
  unfolding prepare grant
  prepare_sound chains resp w u documented h =
      let (user, w0, h0, proved) = >>=-returns (give (authenticate x s c chains)) _ w h in
      let still : w ≡ w0 = ap (λ p. p.1) proved in
      let (cert, presented, chain, no_error, email) =
        authenticate_sound x s c chains user (ap (λ p. p.0) proved) in
      let (_, w1, h1, made) = >>=-returns (create_namespace x s c (namespace_of user)) _ w0 h0 in
      let (_, w2, h2, bound) = >>=-returns (grant_access x s c (namespace_of user) user) _ w1 h1 in
      let (_, w3, h3, templ) = >>=-returns (give (parsed s.parse_template)) _ w2 h2 in
      let (keys, w4, h4, drawn) = >>=-returns (s.generate_rsa 2048) _ w3 h3 in
      let filled = fill_page-IsFilled x s c user keys resp w4 u documented h4 in
      let there = create_namespace-IsThere x s c (namespace_of user) w0 w1 made in
      let granted = grant_access-IsThere x s c (namespace_of user) user w1 w2 bound in
      record {
        cert = cert;
        user = user;
        presented = presented;
        chain = chain;
        no_error = no_error;
        email = email;
        namespace =
            subst (λ v. IsThere (s.create_namespace (namespace_of user) v).0) (sym still) there.0;
        after_namespace = w1;
        namespace_moves = ap (λ v. (s.create_namespace (namespace_of user) v).1) still ∙ there.1;
        binding = granted.0;
        after_binding = w2;
        binding_moves = granted.1;
        keys = keys;
        generated =
            ap (s.generate_rsa 2048) (ap (λ p. p.1) templ)
            ∙ drawn
            ∙ ap (λ v. (ok keys, v)) filled.unmoved;
        issued = filled.issued;
        is_issued = filled.is_issued;
        page = filled.page;
        plain = filled.plain;
      }

  -- Only a page that was granted is answered with 200. The request then proves by a certificate,
  -- verified under the upstream authority, to be a user, whose address in the domain is the first e-mail
  -- attribute of the certificate. The namespace `user-` of this user and the binding of its admin role
  -- to this user were created or were there before. The page has a new key and a certificate that the
  -- issuer signed for this user and this key, although the error of signing is not looked at, and each
  -- of its fields is plain. This uses that `encoding/base64` gives an empty text for no bytes.
  pub serve_page_sound :
      (chains : VerifiedChains) (reply : Reply) (w u : W)
      → s.encode "" ≡ ""
      → serve_page x s c chains w ≡ (replied reply, u)
      → reply.status ≡ some 200
      → (resp : Response) × IsGranted chains w resp u
        × (answered (parsed (s.execute resp).1, write_all (s.execute resp).0 empty_reply)
            ≡ replied reply)
  unfolding serve_page handle_request
  serve_page_sound chains reply w u documented h sent = split (prepare x s c chains w) refl h
    where
      split :
          (r : Result Response × W)
          → prepare x s c chains w ≡ r
          → ended (executed x s c empty_reply r) ≡ (replied reply, u)
          → (resp : Response) × IsGranted chains w resp u
            × (answered (parsed (s.execute resp).1, write_all (s.execute resp).0 empty_reply)
                ≡ replied reply)
      split (ok resp, v) e k =
          let moved : v ≡ u = ap (λ p. p.1) k in
          (
            resp,
            prepare_sound chains resp w u documented (e ∙ ap (λ t. (ok resp, t)) moved),
            ap (λ p. p.0) k,
          )
      split (err why, v) e k =
          let q = ap (λ p. status_of p.0) k in
          let clash : ◌≡◌ {A = Option ℕ} (some 400) (some 200) = q ∙ sent in ground arith
      split (panic t, v) e k = let q = ap (λ p. p.0) k in cc
