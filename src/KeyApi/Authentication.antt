-- ===== src/KeyApi/Authentication.antt =====
-- Whom keyapi/api.go takes a request to come from.
use homeworld.Common.{
  ℕ, String, ◌≡◌, refl, subst, ◌≢◌, ◌⊎◌, inl, inr, true, false, not, Option, none, some, arith,
  eq_iff, Bool-cases, Error, message, Result, ok, err, panic, guard, >>=-eq-ok, guard-eq-ok,
}
use homeworld.Token
use homeworld.Token.{Tokens}
use homeworld.Authority.Tls.{has_cert_attempt, verify_cert}
use homeworld.Account.{Account, Context, Packages, get_account, principal-get_account}
use homeworld.Authority.Crypto.{Ip}
use homeworld.Util.RemoteAddress.{parse_remote_address}
use homeworld.KeyApi.{
  Request, check_ip, verify_account_ip, admit, attempt_authentication, admit_verified,
}

module _ (p : Packages) (wrap : String → Error → Error) (ctx : Context) where
  -- The peer of the request has an address, which is the one that the account is limited to, if any.
  abbrev pub ComesFrom : Account → Request → Type 0
  ComesFrom ac request =
      (ip : Ip) × (parse_remote_address p.net request.remote_addr ≡ ok ip)
      × ((ac.limit_ip ≡ none)
          ⊎ ((allowed : Ip) × (ac.limit_ip ≡ some allowed) × (p.net.ip_equal allowed ip ≡ true)))

  verify_account_ip-ComesFrom :
      (ac : Account) (request : Request)
      → verify_account_ip p wrap ctx ac request ≡ ok tt
      → ComesFrom ac request
  unfolding verify_account_ip
  verify_account_ip-ComesFrom ac request h =
      let (ip, checked, address) = >>=-eq-ok (parse_remote_address p.net request.remote_addr) _ h in
      (ip, address, limited ip ac.limit_ip refl checked)
    where
      limited :
          (ip : Ip) (limit : Option Ip)
          → ac.limit_ip ≡ limit
          → check_ip p wrap ctx limit ip ≡ ok tt
          → (ac.limit_ip ≡ none)
            ⊎ ((allowed : Ip) × (ac.limit_ip ≡ some allowed) × (p.net.ip_equal allowed ip ≡ true))
      limited ip none e k = inl e
      limited ip (some allowed) e k = inr (allowed, e, guard-eq-ok (p.net.ip_equal allowed ip) _ k)

  -- The principal that the request proves to be: by its token if it has one, whatever certificate it
  -- has beside, and else by its client certificate.
  pub data Proves (now : ℕ) (request : Request) (s : Tokens) (principal : String) : Type 0 where
    by_token :
        request.bootstrap_token ≢ ""
        → (Token.verify now request.bootstrap_token s).0 ≡ ok principal
        → Proves now request s principal
    by_certificate :
        request.bootstrap_token ≡ ""
        → verify_cert p.x509
            (wrap "certificate not valid under this authority")
            ctx.authentication_authority
            request.tls
          ≡ ok principal
        → Proves now request s principal

  admit_sound :
      (request : Request) (principal : String) {ac : Account}
      → admit p wrap ctx request principal ≡ ok ac
      → (get_account ctx principal ≡ ok ac)
        × (ac.disable_direct_auth ≡ false)
        × ComesFrom ac request
  unfolding admit
  admit_sound request principal {ac = ac'} h =
      let (ac, h1, found) = >>=-eq-ok (get_account ctx principal) _ h in
      let (_, h2, direct) = >>=-eq-ok (guard (not ac.disable_direct_auth) _) _ h1 in
      let (_, h3, from) = >>=-eq-ok (verify_account_ip p wrap ctx ac request) _ h2 in
      let allowed : ac.disable_direct_auth ≡ false =
        ground (arith, guard-eq-ok (not ac.disable_direct_auth) _ direct) in
      let same : ac ≡ ac' = cc in
      subst
        (λ (x : Account).
          (get_account ctx principal ≡ ok x)
          × (x.disable_direct_auth ≡ false)
          × ComesFrom x request)
        same (found, allowed, verify_account_ip-ComesFrom ac request from)

  admit_verified_sound :
      (request : Request) (result : Result String) (s : Tokens) {ac : Account}
      → (admit_verified p wrap ctx request (result, s)).0 ≡ ok ac
      → (principal : String) × (result ≡ ok principal)
        × (admit p wrap ctx request principal ≡ ok ac)
  admit_verified_sound request (ok principal) s h = (principal, refl, h)
  admit_verified_sound request (err e) s h = cc
  admit_verified_sound request (panic t) s h = cc

  -- A request is taken to come from an account only if it proves to be the principal of the account,
  -- the account is registered under that name and may authenticate directly, and the request comes
  -- from an address that parses and that is the one that the account is limited to, if it is limited.
  pub attempt_authentication_sound :
      (now : ℕ) (request : Request) (s : Tokens) {ac : Account}
      → (attempt_authentication p wrap ctx now request s).0 ≡ ok ac
      → (principal : String) × Proves now request s principal
        × (get_account ctx principal ≡ ok ac)
        × (ac.principal ≡ principal)
        × (ac.disable_direct_auth ≡ false)
        × ComesFrom ac request
  unfolding attempt_authentication Token.has_attempt
  attempt_authentication_sound now request s {ac} h =
      elim (Bool-cases (Token.has_attempt request.bootstrap_token)) [
        | inl tok ↦
            (let (principal, proved, admitted) = admit_verified_sound request _ s (rw tok at h) in
              finish principal (by_token (header_given tok) proved) admitted)
        | inr no_token ↦ elim (Bool-cases (has_cert_attempt request.tls)) [
          | inl cert ↦
              (let (principal, proved, admitted) =
                  admit_verified_sound request _ s (rw (no_token, cert) at h) in
                finish principal (by_certificate (header_missing no_token) proved) admitted)
          | inr no_cert ↦ absurd (nothing (rw (no_token, no_cert) at h))
        ]
      ]
    where
      header_given : Token.has_attempt request.bootstrap_token ≡ true → request.bootstrap_token ≢ ""
      header_given e = ground (arith, eq_iff request.bootstrap_token "")

      header_missing :
          Token.has_attempt request.bootstrap_token ≡ false → request.bootstrap_token ≡ ""
      header_missing e = ground (arith, eq_iff request.bootstrap_token "")

      nothing : err (message "no authentication method found in request") ≡ ok ac → ⊥
      nothing e = cc

      finish :
          (principal : String)
          → Proves now request s principal
          → admit p wrap ctx request principal ≡ ok ac
          → (x : String) × Proves now request s x
            × (get_account ctx x ≡ ok ac)
            × (ac.principal ≡ x)
            × (ac.disable_direct_auth ≡ false)
            × ComesFrom ac request
      finish principal proof admitted =
          let (found, direct, from) = admit_sound request principal admitted in
          (principal, proof, found, principal-get_account ctx principal found, direct, from)
