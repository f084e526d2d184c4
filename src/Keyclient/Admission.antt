-- ===== src/Keyclient/Admission.antt =====
-- What a bootstrap of keyclient/actions/bootstrap/bootstrap.go that is reported as performed has done.
use homeworld.Common.{
  String, ◌≡◌, refl, ◌∙◌, inl, inr, Bool, true, false, not, some, List, [], ◌∷◌, ◌==◌,
  if◌then◌else◌, Bool-cases, message, Result, ok, err, panic, guard,
}
use homeworld.Operation.{Json}
use homeworld.Keyclient.Effects.{
  Client, Errors, Os, Act, ◌>>=◌, give, ask, tell, wrapping, report_then, notify_performed, blocked,
  exists,
}
use homeworld.Keyclient.Effects.{Credential, token}
use homeworld.Keyclient.Target.{
  Request, send_request, authenticated, authenticate_with_token, post_json, endpoint_request,
}
use homeworld.Keyclient.State.{
  bootstrap, bootstrap_request, build_csr, send_with_token, get_token, retry_if_forbidden,
  can_retry, has_keygrant, bootstrap_token_path, granting_key_path,
}
use homeworld.Keyclient.Keeping.{
  Keeps, >>=-Keeps, Grants, and_then-Grants, replace-Keeps, replace-Grants, retry-Keeps,
}

module _ {W : Type 0} (os : Os W) (errors : Errors) (json : Json) (base_url : String)
    (is_token : String → Bool) where
  endpoint-Keeps :
      (credential : Credential) (path verb body : String)
      → Keeps (endpoint_request os errors json base_url credential path verb body)
  unfolding endpoint_request
  endpoint-Keeps credential path verb body c =
      >>=-Keeps (wrapping (errors.wrap "while processing request") (tell (os.send _))) _ (λ c. refl)
        (λ r c. refl) c

  post-Keeps :
      (credential : Credential) (path : String) (reqs : List Request)
      → Keeps (post_json os errors json base_url credential path reqs)
  unfolding post_json
  post-Keeps credential path reqs =
      >>=-Keeps (give _) _ (λ c. refl)
        (λ reqbody.
          >>=-Keeps
            (wrapping (errors.wrap "while posting request")
              (endpoint_request os errors json base_url credential path "POST" reqbody))
            _ (λ c. endpoint-Keeps credential path "POST" reqbody c) (λ r c. refl))

  send-Keeps :
      (credential : Credential) (api param : String)
      → Keeps (send_request (authenticated os errors json base_url credential) api param)
  unfolding send_request authenticated
  send-Keeps credential api param =
      >>=-Keeps
        (authenticated os errors json base_url credential (record { api = api; body = param } ∷ []))
        _
        (>>=-Keeps
          (post_json os errors json base_url credential "apirequest"
            (record { api = api; body = param } ∷ []))
          _ (post-Keeps credential "apirequest" (record { api = api; body = param } ∷ []))
          (λ outputs. >>=-Keeps (give _) _ (λ c. refl) (λ _ c. refl)))
        (λ r c. refl)

  token_request-Keeps :
      (given api param : String) (rest : String → Act W String)
      → ((x : String) → Keeps (rest x))
      → Keeps (
          give (authenticate_with_token os errors json base_url given) >>= λ rt.
          (λ c. retry_if_forbidden os errors errors.cause api (send_request rt api param c))
          >>= rest)
  unfolding authenticate_with_token
  token_request-Keeps given api param rest k c = elim (Bool-cases (given == "")) [
    | inl blank ↦ rw blank refl
    | inr other ↦ rw other (
        >>=-Keeps
          (λ c'.
            retry_if_forbidden os errors errors.cause api
              (send_request (authenticated os errors json base_url (token given)) api param c'))
          rest
          (retry-Keeps os errors errors.cause api
            (send_request (authenticated os errors json base_url (token given)) api param)
            (send-Keeps (token given) api param))
          k c)
  ]

  bootstrap_request-Grants :
      (csr : String → Result String) (api : String)
      → Grants (bootstrap_request os errors json base_url is_token csr api)
  unfolding bootstrap_request
  bootstrap_request-Grants csr api c h =
      and_then-Grants _ (build_csr os errors csr c)
        (λ param c1 h1.
          and_then-Grants _ (send_with_token os errors json base_url is_token api param c1)
            (λ certbytes c2 h2.
              and_then-Grants _
                (give (guard (not (certbytes == "")) (message "received empty response")) c2)
                (λ _. replace-Grants os errors certbytes) h2)
            h1)
        h

  get_token-Keeps : Keeps (get_token os errors is_token)
  unfolding get_token
  get_token-Keeps =
      >>=-Keeps (ask (os.read_file bootstrap_token_path)) _ (λ c. refl)
        (λ contents c. elim (Bool-cases (os.trim_space contents == "")) [
          | inl blank ↦ rw blank refl
          | inr other ↦ elim (Bool-cases (is_token (os.trim_space contents))) [
            | inl good ↦ rw (other, good) refl
            | inr bad ↦ rw (other, bad) refl
          ]
        ])

  send_with_token-Keeps :
      (api param : String) → Keeps (send_with_token os errors json base_url is_token api param)
  unfolding send_with_token
  send_with_token-Keeps api param =
      >>=-Keeps (get_token os errors is_token) _ get_token-Keeps (λ given.
        token_request-Keeps given api param _
          (λ result. >>=-Keeps (tell (os.remove bootstrap_token_path)) _ (λ c. refl) (λ _ c. refl)))

  bootstrap_request-Keeps :
      (csr : String → Result String) (api : String)
      → Keeps (bootstrap_request os errors json base_url is_token csr api)
  unfolding bootstrap_request build_csr
  bootstrap_request-Keeps csr api =
      >>=-Keeps (build_csr os errors csr) _
        (>>=-Keeps (ask (os.read_file granting_key_path)) _ (λ c. refl) (λ key c. refl))
        (λ param.
          >>=-Keeps (send_with_token os errors json base_url is_token api param) _
            (send_with_token-Keeps api param)
            (λ certbytes.
              >>=-Keeps (give _) _ (λ c. refl) (λ _. replace-Keeps os errors certbytes)))

  report-performed :
      (r : Result (Unit {0}) × Client W)
      → r.1.performed ≡ false
      → (r.0 ≡ ok tt → (cert : String) × (r.1.keygrant ≡ some cert))
      → (report_then notify_performed r).1.performed ≡ true
      → (cert : String) × ((report_then notify_performed r).1.keygrant ≡ some cert)
  report-performed (ok u, c) before k h = k refl
  report-performed (err e, c) before k h = cc
  report-performed (panic t, c) before k h = cc

  abbrev IsAdmitted : Result (Unit {0}) × Client W → Type 0
  IsAdmitted r = r.1.performed ≡ true → (cert : String) × (r.1.keygrant ≡ some cert)

  if-IsAdmitted :
      (b : Bool) (x y : Result (Unit {0}) × Client W)
      → IsAdmitted x
      → IsAdmitted y
      → IsAdmitted (if b then x else y)
  if-IsAdmitted true x y h k = h
  if-IsAdmitted false x y h k = k

  -- In a round that has performed nothing yet, a bootstrap that counts as performed has left the client
  -- with a keygranting certificate.
  pub bootstrap-performed :
      (csr : String → Result String) (api : String) (c : Client W)
      → c.performed ≡ false
      → (bootstrap os errors json base_url is_token csr api c).1.performed ≡ true
      → (cert : String) × ((bootstrap os errors json base_url is_token csr api c).1.keygrant
          ≡ some cert)
  unfolding bootstrap
  bootstrap-performed csr api c before =
      let ended = bootstrap_request os errors json base_url is_token csr api c in
      let idle : IsAdmitted (ok tt, c) = λ h. cc in
      if-IsAdmitted (not (can_retry os api c)) (ok tt, c) _ idle
        (if-IsAdmitted (has_keygrant os errors json base_url c.keygrant) (ok tt, c) _ idle
          (if-IsAdmitted (not (exists os bootstrap_token_path c)) (ok tt, c) _ idle
            (if-IsAdmitted (not (exists os granting_key_path c))
              (blocked (message "key does not yet exist: %s") c) _ (λ h. cc)
              (report-performed ended (bootstrap_request-Keeps csr api c ∙ before)
                (bootstrap_request-Grants csr api c)))))
