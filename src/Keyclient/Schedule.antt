-- ===== src/Keyclient/Schedule.antt =====
-- The order in which `ConvergeState` of platform/keysystem/worldconfig/keyclient.go runs the actions.
use homeworld.Common.{
  ℕ, String, ◌≡◌, refl, sym, ap, subst, ◌⊎◌, inl, inr, List, [], ◌∷◌, ◌++◌, Result, ok, err, panic,
  All,
}
use homeworld.Operation.{Json}
use homeworld.Keyclient.Effects.{Client, Errors, Os, Act, ◌>>◌, and_then, nothing}
use homeworld.Keyclient.State.{generate_key, bootstrap, granting_key_path}
use homeworld.Keyclient.Download.{download_authority, download_static, download_from_api}
use homeworld.Keyclient.Hostname.{reload_hostname_from}
use homeworld.Keyclient.Converge.{
  Formats, request_or_renew_tls_key, request_or_renew_ssh_key, tls_key, converge_state,
}
use homeworld.Keyclient.Completion.{
  Completes, IsFine, and_then-IsFine, generate_key-Completes, bootstrap-Completes,
  reload_hostname_from-Completes, tls_request-Completes, ssh_request-Completes, from_authority,
  from_static, from_api,
}

-- `Runs actions c r`: the actions run one after another, each from where the one before it stopped, and
-- the last leaves `r`; only a panic ends them before.
abbrev pub Runs :
    {W : Type 0} → List (Act W (Unit {0})) → Client W → Result (Unit {0}) × Client W → Type 0
Runs [] c r = r ≡ (ok tt, c)
Runs {W} (first ∷ rest) c r =
    ((v : Client W) × (first c ≡ (ok tt, v)) × Runs rest v r)
    ⊎ ((t : String) × (v : Client W) × (first c ≡ (panic t, v)) × (r ≡ (panic t, v)))

module _ {W : Type 0} where
  Runs-append :
      (xs ys : List (Act W (Unit {0}))) (g : Act W (Unit {0})) (c : Client W)
      (r : Result (Unit {0}) × Client W)
      → ((v : Client W) → Runs ys v (g v))
      → Runs xs c r
      → Runs (xs ++ ys) c (and_then (λ _. g) r)
  Runs-append [] ys g c r k e = subst (λ r'. Runs ys c (and_then (λ _. g) r')) (sym e) (k c)
  Runs-append (x ∷ xs) ys g c r k (inl (v, e, h)) = inl (v, e, Runs-append xs ys g v r k h)
  Runs-append (x ∷ xs) ys g c r k (inr (t, v, e, q)) = inr (t, v, e, ap (and_then (λ _. g)) q)

  one : (f : Act W (Unit {0})) → Completes f → (c : Client W) → Runs (f ∷ []) c (f c)
  one f h c = split (f c) refl (h c)
    where
      split : (r : Result (Unit {0}) × Client W) → f c ≡ r → IsFine r → Runs (f ∷ []) c r
      split (ok tt, v) e k = inl (v, e, refl)
      split (panic t, v) e k = inr (t, v, e, refl)
      split (err why, v) e k = elim k [ ]

  first_then :
      (f : Act W (Unit {0})) (xs : List (Act W (Unit {0}))) (g : Act W (Unit {0}))
      → Completes f
      → ((v : Client W) → Runs xs v (g v))
      → (c : Client W) → Runs (f ∷ xs) c ((f >> g) c)
  first_then f xs g h k c = Runs-append (f ∷ []) xs g c (f c) k (one f h c)

  then-Completes : (f g : Act W (Unit {0})) → Completes f → Completes g → Completes (f >> g)
  then-Completes f g h k c = and_then-IsFine (λ _. g) (h c) (λ _. k)

  -- The statements of a Go function, one after another.
  abbrev in_order : List (Act W (Unit {0})) → Act W (Unit {0})
  in_order [] = nothing
  in_order (f ∷ []) = f
  in_order (f ∷ g ∷ rest) = f >> in_order (g ∷ rest)

  in_order-Runs :
      (xs : List (Act W (Unit {0}))) → All Completes xs → (c : Client W) → Runs xs c (in_order xs c)
  in_order-Runs [] h c = refl
  in_order-Runs (f ∷ []) h c = one f h.0 c
  in_order-Runs (f ∷ g ∷ rest) h c =
      first_then f (g ∷ rest) (in_order (g ∷ rest)) h.0 (in_order-Runs (g ∷ rest) h.1) c

-- In nanoseconds.
abbrev day : ℕ
day = 86400000000000

abbrev week : ℕ
week = 604800000000000

module _ {W : Type 0} (os : Os W) (errors : Errors) (json : Json) (base_url : String)
    (f : Formats) where
  abbrev authority : String → String → ℕ → Act W (Unit {0})
  authority = download_authority os errors json base_url

  abbrev static : String → String → ℕ → Act W (Unit {0})
  static = download_static os errors json base_url

  abbrev api : String → String → ℕ → ℕ → Act W (Unit {0})
  api = download_from_api os errors json base_url

  -- What a node fetches: the authority, the file or the API, where it is kept, and how old it may be.
  abbrev downloads : List (Act W (Unit {0}))
  downloads =
      authority "kubernetes" "/etc/homeworld/authorities/kubernetes.pem" day
      ∷ authority "clusterca" "/usr/local/share/ca-certificates/extra/cluster.tls.crt" day
      ∷ authority "ssh-user" "/etc/ssh/ssh_user_ca.pub" week
      ∷ static "cluster.conf" "/etc/homeworld/config/cluster.conf" day
      ∷ api "get-local-config" "/etc/homeworld/config/local.conf" day 0o644
      ∷ reload_hostname_from os "/etc/homeworld/config/local.conf"
      ∷ authority "serviceaccount" "/etc/homeworld/keys/serviceaccount.pem" day
      ∷ authority "etcd-client" "/etc/homeworld/authorities/etcd-client.pem" day
      ∷ authority "etcd-server" "/etc/homeworld/authorities/etcd-server.pem" day
      ∷ api "fetch-serviceaccount-key" "/etc/homeworld/keys/serviceaccount.key" day 0o600
      ∷ []

  -- A key is made before its certificate is asked for.
  abbrev key : String → String → String → ℕ → Act W (Unit {0})
  key key_file cert_file name in_advance =
      generate_key os errors key_file
      >> request_or_renew_tls_key os errors json base_url f key_file cert_file name in_advance

  -- The keys of a node: the file of the key, that of its certificate, the API that grants it, and how
  -- long before it expires it is renewed.
  abbrev keys : List (Act W (Unit {0}))
  keys =
      key "/etc/homeworld/keyclient/granting.key" "/etc/homeworld/keyclient/granting.pem"
        "renew-keygrant" 1209600000000000
      ∷ request_or_renew_ssh_key os errors json base_url f "/etc/ssh/ssh_host_rsa_key.pub"
          "/etc/ssh/ssh_host_rsa_cert" "grant-ssh-host" week
      ∷ key "/etc/homeworld/keys/kubernetes-worker.key" "/etc/homeworld/keys/kubernetes-worker.pem"
          "grant-kubernetes-worker" week
      ∷ key "/etc/homeworld/keys/kubernetes-supervisor.key"
          "/etc/homeworld/keys/kubernetes-supervisor.pem" "grant-kubernetes-supervisor" week
      ∷ key "/etc/homeworld/ssl/homeworld.private.key" "/etc/homeworld/ssl/homeworld.private.pem"
          "grant-registry-host" week
      ∷ key "/etc/homeworld/keys/kubernetes-master.key" "/etc/homeworld/keys/kubernetes-master.pem"
          "grant-kubernetes-master" week
      ∷ key "/etc/homeworld/keys/kubernetes-ctrl-mgr.key"
          "/etc/homeworld/keys/kubernetes-ctrl-mgr.pem" "grant-kubernetes-ctrl-mgr" week
      ∷ key "/etc/homeworld/keys/kubernetes-proxy.key" "/etc/homeworld/keys/kubernetes-proxy.pem"
          "grant-kubernetes-proxy" week
      ∷ key "/etc/homeworld/keys/kubernetes-scheduler.key"
          "/etc/homeworld/keys/kubernetes-scheduler.pem" "grant-kubernetes-scheduler" week
      ∷ key "/etc/homeworld/keys/etcd-server.key" "/etc/homeworld/keys/etcd-server.pem"
          "grant-etcd-server" week
      ∷ key "/etc/homeworld/keys/etcd-client.key" "/etc/homeworld/keys/etcd-client.pem"
          "grant-etcd-client" week
      ∷ []

  -- The actions of a round, in their order.
  abbrev pub schedule : List (Act W (Unit {0}))
  schedule =
      generate_key os errors "/etc/homeworld/keyclient/granting.key"
      ∷ bootstrap os errors json base_url f.is_token f.build_tls_csr "renew-keygrant"
      ∷ (downloads ++ keys)

  downloads-Completes : All Completes downloads
  downloads-Completes =
      let a = λ (n p : String) (t : ℕ). from_authority os errors json base_url f n p t in
      (
        a _ _ _,
        (
          a _ _ _,
          (
            a _ _ _,
            (
              from_static os errors json base_url f _ _ _,
              (
                from_api os errors json base_url f _ _ _ _,
                (
                  reload_hostname_from-Completes os errors json base_url _,
                  (a _ _ _, (a _ _ _, (a _ _ _, (from_api os errors json base_url f _ _ _ _, tt)))),
                ),
              ),
            ),
          ),
        ),
      )

  key-Completes :
      (key_file cert_file name : String) (in_advance : ℕ)
      → Completes (key key_file cert_file name in_advance)
  key-Completes key_file cert_file name in_advance =
      then-Completes _ _ (generate_key-Completes os errors json base_url key_file)
        (tls_request-Completes os errors json base_url f key_file cert_file name in_advance)

  keys-Completes : All Completes keys
  keys-Completes =
      let k = λ (a b c : String) (n : ℕ). key-Completes a b c n in
      (
        k _ _ _ _,
        (
          ssh_request-Completes os errors json base_url f _ _ _ _,
          (
            k _ _ _ _,
            (
              k _ _ _ _,
              (
                k _ _ _ _,
                (k _ _ _ _, (k _ _ _ _, (k _ _ _ _, (k _ _ _ _, (k _ _ _ _, (k _ _ _ _, tt)))))),
              ),
            ),
          ),
        ),
      )

  -- A round is the whole schedule, whatever the world answers: each of its 23 actions runs, in this order
  -- and from the state that the one before it has left. No action stops those after it, except that a
  -- panic ends the round where it happens.
  pub converge_state-Runs :
      (c : Client W) → Runs schedule c (converge_state os errors json base_url f c)
  unfolding converge_state tls_key
  converge_state-Runs =
      first_then (generate_key os errors granting_key_path) (boot ∷ (downloads ++ keys))
        (boot >> rest) (generate_key-Completes os errors json base_url granting_key_path)
        (first_then boot (downloads ++ keys) rest
          (bootstrap-Completes os errors json base_url f.is_token f.build_tls_csr "renew-keygrant")
          (λ c.
            Runs-append downloads keys (in_order keys) c (in_order downloads c)
              (in_order-Runs keys keys-Completes) (in_order-Runs downloads downloads-Completes c)))
    where
      boot : Act W (Unit {0})
      boot = bootstrap os errors json base_url f.is_token f.build_tls_csr "renew-keygrant"

      rest : Act W (Unit {0})
      rest = in_order downloads >> in_order keys
