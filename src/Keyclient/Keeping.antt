-- ===== src/Keyclient/Keeping.antt =====
-- What the calls of keyclient/state/state.go keep of the client, and when they leave a certificate.
use homeworld.Common.{
  String, ◌≡◌, refl, ◌∙◌, inl, inr, ◌&&◌, some, Bool-cases, Error, message, operation_forbidden,
  forbidden_by_server, not_exist, foreign, Result, ok, err, panic, wrapped-eq-ok,
}
use homeworld.Keyclient.Effects.{
  Client, Errors, FileInfo, Os, Act, ◌>>=◌, and_then, ask, tell, wrapping, exists, ensure_is_folder,
  ensure_stat,
}
use homeworld.Keyclient.State.{
  replace_keygranting_cert, reload_keygranting_cert, set_keygrant, retry_if_forbidden,
  granting_key_path, granting_cert_path, retry_failed, is_forbidden,
}

-- The flag of the round is left as it is.
abbrev pub Keeps : {W A : Type 0} → Act W A → Type 0
Keeps {W} f = (c : Client W) → (f c).1.performed ≡ c.performed

module _ {W : Type 0} where
  pub >>=-Keeps :
      {A B : Type 0} (f : Act W A) (g : A → Act W B)
      → Keeps f
      → ((x : A) → Keeps (g x))
      → Keeps (f >>= g)
  >>=-Keeps f g h k c = from_first (f c) (h c)
    where
      from_first :
          (r : Result _ × Client W)
          → r.1.performed ≡ c.performed
          → (and_then g r).1.performed ≡ c.performed
      from_first (ok x, s) e = k x s ∙ e
      from_first (err e', s) e = e
      from_first (panic t, s) e = e

-- If the action returns no error, there is a keygranting certificate.
abbrev pub Grants : {W : Type 0} → Act W (Unit {0}) → Type 0
Grants {W} f = (c : Client W) → (f c).0 ≡ ok tt → (cert : String) × ((f c).1.keygrant ≡ some cert)

pub and_then-Grants :
    {W A : Type 0} (rest : A → Act W (Unit {0})) (first : Result A × Client W)
    → ((x : A) → Grants (rest x))
    → (and_then rest first).0 ≡ ok tt
    → (cert : String) × ((and_then rest first).1.keygrant ≡ some cert)
and_then-Grants rest (ok x, c) k h = k x c h
and_then-Grants rest (err e, c) k h = cc
and_then-Grants rest (panic t, c) k h = cc

module _ {W : Type 0} (os : Os W) (errors : Errors) where
  pub ensure-Keeps : (path : String) → Keeps (ensure_is_folder os path)
  ensure-Keeps path c = from_stat (os.stat path c.world)
    where
      from_stat :
          (found : Result FileInfo) → (ensure_stat os path found c).1.performed ≡ c.performed
      from_stat (ok info) = refl
      from_stat (err (not_exist text)) =
          >>=-Keeps (tell (os.mkdir_all path)) _ (λ c. refl)
            (λ _. >>=-Keeps (ask (os.stat path)) _ (λ c. refl) (λ info c. refl)) c
      from_stat (err (message text)) = refl
      from_stat (err (operation_forbidden principal api)) = refl
      from_stat (err forbidden_by_server) = refl
      from_stat (err (foreign text e)) = refl
      from_stat (panic t) = refl

  pub set-Keeps : (found : Result String) → Keeps (set_keygrant os errors found)
  set-Keeps (ok cert) c = refl
  set-Keeps (err e) c = refl
  set-Keeps (panic t) c = refl

  pub reload-Keeps : Keeps (reload_keygranting_cert os errors)
  unfolding reload_keygranting_cert
  reload-Keeps c =
      elim (Bool-cases (exists os granting_key_path c && exists os granting_cert_path c)) [
        | inl there ↦ rw there (set-Keeps _ c)
        | inr missing ↦ rw missing refl
      ]

  pub set-keygrant :
      (found : Result String) (c : Client W)
      → (set_keygrant os errors found c).0 ≡ ok tt
      → (cert : String) × ((set_keygrant os errors found c).1.keygrant ≡ some cert)
  set-keygrant (ok cert) c h = (cert, refl)
  set-keygrant (err e) c h = cc
  set-keygrant (panic t) c h = cc

  pub reload-keygrant :
      (c : Client W)
      → (reload_keygranting_cert os errors c).0 ≡ ok tt
      → (cert : String) × ((reload_keygranting_cert os errors c).1.keygrant ≡ some cert)
  unfolding reload_keygranting_cert
  reload-keygrant c h =
      elim (Bool-cases (exists os granting_key_path c && exists os granting_cert_path c)) [
        | inl there ↦ let k = rw there at h in rw there (set-keygrant _ c k)
        | inr missing ↦ absurd (let k = rw missing at h in cc)
      ]

  pub wrapping-Keeps :
      {A : Type 0} (wrap : Error → Error) (f : Act W A) → Keeps f → Keeps (wrapping wrap f)
  wrapping-Keeps wrap f h c = h c

  pub replace-Keeps : (contents : String) → Keeps (replace_keygranting_cert os errors contents)
  unfolding replace_keygranting_cert
  replace-Keeps contents =
      >>=-Keeps (ensure_is_folder os (os.dir granting_cert_path)) _ (ensure-Keeps _) (λ _.
        >>=-Keeps (tell (os.write_file granting_cert_path contents 0o644)) _ (λ c. refl)
          (λ _ c. reload-Keeps c))

  pub reload-Grants :
      (wrap : Error → Error) → Grants (wrapping wrap (reload_keygranting_cert os errors))
  reload-Grants wrap c h =
      reload-keygrant c (wrapped-eq-ok wrap (reload_keygranting_cert os errors c).0 h)

  pub replace-Grants : (contents : String) → Grants (replace_keygranting_cert os errors contents)
  unfolding replace_keygranting_cert
  replace-Grants contents c h =
      and_then-Grants _ (ensure_is_folder os (os.dir granting_cert_path) c)
        (λ _ c1 h1.
          and_then-Grants _ (tell (os.write_file granting_cert_path contents 0o644) c1)
            (λ _. reload-Grants (errors.wrap "expected properly loaded keygrant certificate")) h1)
        h

  pub retry-Keeps :
      (cause : Error → Error) (api : String) (f : Act W String)
      → Keeps f
      → Keeps (λ c. retry_if_forbidden os errors cause api (f c))
  unfolding retry_failed
  retry-Keeps cause api f h c = from_answer (f c) (h c)
    where
      from_answer :
          (r : Result String × Client W)
          → r.1.performed ≡ c.performed
          → (retry_if_forbidden os errors cause api r).1.performed ≡ c.performed
      from_answer (ok x, s) e = e
      from_answer (err x, s) e = elim (Bool-cases (is_forbidden os errors (cause x))) [
        | inl y ↦ rw y e
        | inr n ↦ rw n e
      ]
      from_answer (panic t, s) e = e
