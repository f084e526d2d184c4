-- ===== src/Keygateway/Roundtrip.antt =====
-- A batch of a Kerberos user, from knc on the user's side to the gateway and back.
use homeworld.Common.{
  String, ◌≡◌, refl, sym, ap, ◌∙◌, ◌≢◌, true, not, List, [], map, arith, ◌==◌, eq_iff, eqb,
  eq_false, Error, message, Result, ok, err, panic, guard, guard-eq-ok, length,
}
use homeworld.Operation.{Json}
use homeworld.Authority.Crypto.{X509}
use homeworld.Keyclient.Effects.{Client, Errors, Os, Act, ◌>>=◌, and_then, give, wrapped, wrapping}
use homeworld.Keyclient.Target.{Request, RequestTarget, entries, impersonate_target, impersonated}
use homeworld.Keygateway.{
  Gateway, load_default_keyserver_with_cert, handle_request, impersonate_kerberos_api,
}
use homeworld.Keygateway.Knc.{Processes, KncServer, knc_request, knc_send_requests}

pub >>=-gives :
    {W A B : Type 0} {b : B} {u : Client W} (first : Act W A) (rest : A → Act W B) (c : Client W)
    → (first >>= rest) c ≡ (ok b, u)
    → (a : A) × (v : Client W) × (rest a v ≡ (ok b, u)) × (first c ≡ (ok a, v))
>>=-gives {W} {A} {B} {b} {u} first rest c h = split (first c) refl h
  where
    split :
        (r : Result A × Client W)
        → first c ≡ r
        → and_then rest r ≡ (ok b, u)
        → (a : A) × (v : Client W) × (rest a v ≡ (ok b, u)) × (first c ≡ (ok a, v))
    split (ok a, v) e k = (a, v, k, e)
    split (err why, v) e k = cc
    split (panic text, v) e k = cc

pub wrapping-gives :
    {W A : Type 0} {a : A} {v : Client W} (wrap : Error → Error) (f : Act W A) (c : Client W)
    → wrapping wrap f c ≡ (ok a, v)
    → f c ≡ (ok a, v)
wrapping-gives {W} {A} {a} {v} wrap f c h = split (f c) h
  where
    split :
        (r : Result A × Client W)
        → ◌≡◌ {A = Result A × Client W} (wrapped wrap r.0, r.1) (ok a, v)
        → r ≡ (ok a, v)
    split (ok b, w) e = e
    split (err why, w) e = cc
    split (panic t, w) e = cc

-- What `encoding/json` documents: what is encoded is decoded again, and no encoding is empty.
pub record IsJson {W : Type 0} (json : Json) (gateway : Gateway W) : Type 0 where
  pub requests :
      (reqs : List Request) (raw : String)
      → json.encode_operations (map entries reqs) ≡ ok raw
      → gateway.decode_requests raw ≡ ok reqs
  pub texts :
      (results : List String) (raw : String)
      → json.encode_texts results ≡ ok raw
      → (json.decode_texts raw ≡ ok results) × (raw ≢ "")

module _ {W : Type 0} (os : Os W) (errors : Errors) (x : X509) (json : Json) (gateway : Gateway W)
    (processes : Processes W) where
  -- The gateway sent the batch on, as the user, and had an answer for each request.
  pub record IsServed (principal : String) (reqs : List Request) (results : List String)
      (c u : Client W) : Type 0 where
    pub target : RequestTarget W
    pub loaded : Client W
    pub loads : load_default_keyserver_with_cert os errors x json c ≡ (ok target, loaded)
    pub named : principal ≢ ""
    pub tried : Client W
    pub trial : List String
    pub tries : impersonated target impersonate_kerberos_api principal [] loaded ≡ (ok trial, tried)
    pub answers :
        impersonated target impersonate_kerberos_api principal reqs tried ≡ (ok results, u)
    pub one_each : length results ≡ length reqs

  impersonate_target_sound :
      (rt reqt : RequestTarget W) (principal : String) (c u : Client W)
      → impersonate_target
          (errors.wrap "while verifying impersonation functionality")
          rt
          impersonate_kerberos_api
          principal
          c
        ≡ (ok reqt, u)
      → (principal ≢ "")
        × (reqt ≡ impersonated rt impersonate_kerberos_api principal)
        × ((trial : List String) × (impersonated rt impersonate_kerberos_api principal [] c
              ≡ (ok trial, u)))
  unfolding impersonate_target
  impersonate_target_sound rt reqt principal c u h =
      let (_, c2, h2, g2) =
        >>=-gives (give (guard (not (principal == "")) (message "invalid user"))) _ c h in
      let (trial, c3, h3, g3) =
        >>=-gives
          (wrapping (errors.wrap "while verifying impersonation functionality")
            (impersonated rt impersonate_kerberos_api principal []))
          _ c2 h2 in
      let same : ◌≡◌ {A = Result (RequestTarget W)}
          (ok (impersonated rt impersonate_kerberos_api principal)) (ok reqt) =
        ap (λ p. p.0) h3 in
      let still : c ≡ c2 = ap (λ p. p.1) g2 in
      let moved : c3 ≡ u = ap (λ p. p.1) h3 in
      (
        nonempty (ap (λ p. p.0) g2),
        target_of same,
        (
          trial,
          ap (impersonated rt impersonate_kerberos_api principal []) still
              ∙ wrapping-gives (errors.wrap "while verifying impersonation functionality")
                  (impersonated rt impersonate_kerberos_api principal []) c2 g3
              ∙ ap (λ v. (ok trial, v)) moved,
        ),
      )
    where
      nonempty :
          {v : Unit {0}}
          → guard (not (principal == "")) (message "invalid user") ≡ ok v
          → principal ≢ ""
      nonempty g e = let k = (eq_iff principal "").1 e in ground arith

      target_of :
          {rt2 : RequestTarget W}
          → ◌≡◌ {A = Result (RequestTarget W)} (ok rt2) (ok reqt)
          → reqt ≡ rt2
      target_of g = sym (cc)

  handle_request-IsServed :
      (principal raw out : String) (reqs : List Request) (c u : Client W)
      → gateway.decode_requests raw ≡ ok reqs
      → handle_request os errors x json gateway principal raw c ≡ (ok out, u)
      → (results : List String) × IsServed principal reqs results c u
        × (json.encode_texts results ≡ ok out)
  unfolding handle_request
  handle_request-IsServed principal raw out reqs c u decoded h =
      let h0 = rw decoded at h in
      let (rt, c1, h1, g1) = >>=-gives (load_default_keyserver_with_cert os errors x json) _ c h0 in
      let (reqt, c2, h2, g2) =
        >>=-gives
          (impersonate_target (errors.wrap "while verifying impersonation functionality") rt
            impersonate_kerberos_api principal)
          _ c1 h1 in
      let (results, c3, h3, g3) = >>=-gives (reqt reqs) _ c2 h2 in
      let (_, c4, h4, g4) =
        >>=-gives
          (give (guard (eqb (length results) (length reqs)) (message "wrong number of results"))) _
          c3 h3 in
      let (named, same, (trial, tries)) = impersonate_target_sound rt reqt principal c1 c2 g2 in
      let still : c3 ≡ c4 = ap (λ p. p.1) g4 in
      let last : c4 ≡ u = ap (λ p. p.1) h4 in
      (
        results,
        record {
          target = rt;
          loaded = c1;
          loads = g1;
          named = named;
          tried = c2;
          trial = trial;
          tries = tries;
          answers = ap (λ f. f reqs c2) (sym same) ∙ g3 ∙ ap (λ v. (ok results, v)) (still ∙ last);
          one_each =
              ground (arith, guard-eq-ok (eqb (length results) (length reqs)) _ (ap (λ p. p.0) g4));
        },
        ap (λ p. p.0) h4,
      )

  -- What the gateway answers to a batch of a user, knc hands the user as it is: if the gateway answers
  -- the encoded batch, and knc gets this answer, then the user's `SendRequests` returns the results of
  -- the batch, one for each request, that the gateway's target gave when it impersonated the user,
  -- after a trial. This uses what `encoding/json` documents.
  pub knc-gateway :
      (server : KncServer) (principal raw out : String) (reqs : List Request) (c u k v : Client W)
      → IsJson json gateway
      → json.encode_operations (map entries reqs) ≡ ok raw
      → handle_request os errors x json gateway principal raw c ≡ (ok out, u)
      → knc_request processes errors json server raw k ≡ (ok out, v)
      → (results : List String) × IsServed principal reqs results c u
        × (knc_send_requests processes errors json server reqs k ≡ (ok results, v))
  unfolding knc_send_requests
  knc-gateway server principal raw out reqs c u k v documented encoded handled got =
      let (results, served, answer) =
        handle_request-IsServed principal raw out reqs c u (documented.requests reqs raw encoded)
          handled in
      let (back, some_text) = documented.texts results out answer in
      let given = eq_false out "" some_text in
      let many : eqb (length results) (length reqs) ≡ true = ground (arith, served.one_each) in
      (results, served, rw (encoded, got, given, back, many) refl)
