-- ===== src/WorldConfig/Success.antt =====
-- When worldconfig/keyserver.go generates a configuration.
use Prim.Native.String.{◌++◌ as str_append}
use homeworld.Common.{
  String, ◌≡◌, refl, sym, subst, inl, inr, true, false, not, none, some, List, [], ◌∷◌, map, arith,
  ◌==◌, ltb, Bool-cases, Result, ok, ◌>>=◌, guard, >>=-eq-ok, length, All,
}
use homeworld.Common.Dict.{Dict, lookup, insert}
use homeworld.Authority.{Authority, ConfigAuthority, tls, ssh, tls_authority, ssh_authority, load}
use homeworld.Authority.Crypto.{X509, Net, Ip, SshLib}
use homeworld.Authority.Tls.{TlsAuthority, load_tls_authority}
use homeworld.Authority.Ssh.{SshAuthority, load_ssh_authority}
use homeworld.Account.{Account, Context}
use homeworld.WorldConfig.Spire.{
  SpireNode, SpireSetup, is_supervisor, dns, net_ip, supervisor, load_spire_setup,
}
use homeworld.WorldConfig.Validation.{
  IsUsable, ready, found, last_supervisor, last_supervisor_exists, validate_iff,
}
use homeworld.WorldConfig.Grants.{Authorities, list_authorities, grants_for_node_account}
use homeworld.WorldConfig.Generate.{
  Built, node_account, add_nodes, add_hosts, add_kerberos, build_accounts, System, load_authorities,
  select_authorities, configure, generate_config, validate_static_files, static_files,
  add_node_member, add_kerberos_member, nothing_built, add_admins, all_admins, host_account,
}

>>=-total :
    {A B : Type 0} (r : Result A) (f : A → Result B)
    → ((x : A) × (r ≡ ok x))
    → ((x : A) → (y : B) × (f x ≡ ok y))
    → (y : B) × ((r >>= f) ≡ ok y)
>>=-total r f (x, e) k = let (y, later) = k x in (y, rw e later)

>>=-step :
    {A B : Type 0} (r : Result A) (f : A → Result B) {x : A}
    → r ≡ ok x
    → ((y : B) × (f x ≡ ok y))
    → (y : B) × ((r >>= f) ≡ ok y)
>>=-step r f e (y, later) = (y, rw e later)

module _ (x : X509) (lib : SshLib) (read : String → String → Result String)
    (dir name : String) where
  load-tls :
      {a : Authority}
      → load x lib read (tls_authority name) dir ≡ ok a
      → (t : TlsAuthority) × (a ≡ tls t)
  unfolding load
  load-tls {a} h =
      let (_, h1, e1) = >>=-eq-ok (guard (not (dir == "")) _) _ h in
      let (keydata, h3, e3) = >>=-eq-ok (read dir _) _ h1 in
      let (certdata, h4, e4) = >>=-eq-ok (read dir _) _ h3 in
      let (t, h5, e5) = >>=-eq-ok (load_tls_authority x keydata certdata) _ h4 in (t, ground arith)

  load-ssh :
      {a : Authority}
      → load x lib read (ssh_authority name) dir ≡ ok a
      → (d : SshAuthority) × (a ≡ ssh d)
  unfolding load
  load-ssh {a} h =
      let (_, h1, e1) = >>=-eq-ok (guard (not (dir == "")) _) _ h in
      let (keydata, h3, e3) = >>=-eq-ok (read dir _) _ h1 in
      let (certdata, h4, e4) = >>=-eq-ok (read dir _) _ h3 in
      let (d, h5, e5) = >>=-eq-ok (load_ssh_authority lib keydata certdata) _ h4 in
      (d, ground arith)

-- A node whose pointer to the setup and whose address are set.
abbrev pub IsAttached : SpireNode → Type 0
IsAttached node = (node.setup ≡ true) × ((ip : Ip) × (node.net_ip ≡ some ip))

ready-IsAttached :
    (net : Net) (nodes : List SpireNode)
    → All (IsUsable net) nodes
    → All IsAttached (map (ready net) nodes)
ready-IsAttached net [] v = tt
ready-IsAttached net (node ∷ nodes) (u, v) = ((refl, u.address), ready-IsAttached net nodes v)

module _ (conf : SpireSetup) (auth : Authorities) where
  dns_total :
      (node : SpireNode)
      → node.setup ≡ true
      → (dns_name : String) × (dns conf.cluster node ≡ ok dns_name)
  unfolding dns
  dns_total node attached =
      (str_append node.hostname (str_append "." conf.cluster.external_domain), rw attached refl)

  net_ip_total : (node : SpireNode) → IsAttached node → (ip : Ip) × (net_ip node ≡ ok ip)
  unfolding net_ip
  net_ip_total node (attached, (ip, address)) = (ip, rw address refl)

  node_account_total :
      (node : SpireNode) → IsAttached node → (a : Account) × (node_account conf auth node ≡ ok a)
  unfolding node_account grants_for_node_account
  node_account_total node v = >>=-total (dns conf.cluster node) _ (dns_total node v.0) (λ principal.
      >>=-total (net_ip node) _ (net_ip_total node v) (λ ip.
        >>=-total (grants_for_node_account conf auth principal node) _
          (>>=-total (dns conf.cluster node) _ (dns_total node v.0) (λ dns_name. (_, refl)))
          (λ privileges. (_, refl))))

  add_nodes_total :
      (rest : List SpireNode) (b : Built)
      → All IsAttached rest
      → (result : Built) × (add_nodes conf auth rest b ≡ ok result)
  unfolding add_nodes
  add_nodes_total [] b v = (b, refl)
  add_nodes_total (node ∷ rest) b (attached, v) =
      let (a, made) = node_account_total node attached in
      let (result, e) = add_nodes_total rest (add_node_member a b) v in (result, rw made e)

  add_hosts_total :
      (rest : List SpireNode) (b : Built)
      → All IsAttached rest
      → (result : Built) × (add_hosts conf auth rest b ≡ ok result)
  unfolding add_hosts
  add_hosts_total [] b v = (b, refl)
  add_hosts_total (node ∷ rest) b (attached, v) = elim (Bool-cases (is_supervisor node)) [
    | inl yes_sup ↦
        let (dns_name, named) = dns_total node attached.0 in
        let (result, e) =
          add_hosts_total rest (add_kerberos_member (host_account conf auth dns_name) b) v in
        (result, rw (yes_sup, named) e)
    | inr no_sup ↦ let (result, e) = add_hosts_total rest b v in (result, rw no_sup e)
  ]

  build_accounts_total : All IsAttached conf.nodes → (b : Built) × (build_accounts conf auth ≡ ok b)
  unfolding build_accounts add_kerberos
  build_accounts_total v =
      let (first, made) = add_nodes_total conf.nodes nothing_built v in
      let (second, hosted) =
        add_hosts_total conf.nodes (add_admins conf auth (all_admins conf auth) first) v in
      elim (Bool-cases (ltb 0 (length conf.root_admins))) [
        | inl some_admin ↦ (second, rw (made, some_admin) hosted)
        | inr no_admin ↦
            (add_admins conf auth (all_admins conf auth) first, rw (made, no_admin) refl)
      ]

module _ (sys : System) where
  load_tls_step :
      (name : String) (rest : List ConfigAuthority) (m : Dict Authority) {loaded : Dict Authority}
      → load_authorities sys (tls_authority name ∷ rest) m ≡ ok loaded
      → (t : TlsAuthority) × (load_authorities sys rest (insert name (tls t) m) ≡ ok loaded)
  unfolding load_authorities
  load_tls_step name rest m h =
      let (a, later, e) =
        >>=-eq-ok (load sys.x509 sys.ssh_lib sys.read_under (tls_authority name) _) _ h in
      let (t, k) = load-tls sys.x509 sys.ssh_lib sys.read_under _ name e in (t, rw k at later)

  load_ssh_step :
      (name : String) (rest : List ConfigAuthority) (m : Dict Authority) {loaded : Dict Authority}
      → load_authorities sys (ssh_authority name ∷ rest) m ≡ ok loaded
      → (d : SshAuthority) × (load_authorities sys rest (insert name (ssh d) m) ≡ ok loaded)
  unfolding load_authorities
  load_ssh_step name rest m h =
      let (a, later, e) =
        >>=-eq-ok (load sys.x509 sys.ssh_lib sys.read_under (ssh_authority name) _) _ h in
      let (d, k) = load-ssh sys.x509 sys.ssh_lib sys.read_under _ name e in (d, rw k at later)

  selected :
      (a1 a2 : TlsAuthority) (a3 a4 : SshAuthority) (a5 a6 a7 a8 : TlsAuthority)
      → (auth : Authorities) × (select_authorities (
            insert "serviceaccount" (tls a8) (
              insert "etcd-client" (tls a7) (
                insert "etcd-server" (tls a6) (
                  insert "kubernetes" (tls a5) (
                    insert "ssh-host" (ssh a4) (
                      insert "ssh-user"
                        (ssh a3)
                        (insert "clusterca" (tls a2) (insert "keygranting" (tls a1) []))))))))
          ≡ ok auth)
  unfolding select_authorities lookup insert
  selected a1 a2 a3 a4 a5 a6 a7 a8 = (_, refl)

  -- The authorities that were loaded are of the kinds that the assertions want.
  select_authorities_total :
      {loaded : Dict Authority}
      → load_authorities sys list_authorities [] ≡ ok loaded
      → (auth : Authorities) × (select_authorities loaded ≡ ok auth)
  select_authorities_total {loaded} h =
      let (a1, h1) = load_tls_step "keygranting" _ _ h in
      let (a2, h2) = load_tls_step "clusterca" _ _ h1 in
      let (a3, h3) = load_ssh_step "ssh-user" _ _ h2 in
      let (a4, h4) = load_ssh_step "ssh-host" _ _ h3 in
      let (a5, h5) = load_tls_step "kubernetes" _ _ h4 in
      let (a6, h6) = load_tls_step "etcd-server" _ _ h5 in
      let (a7, h7) = load_tls_step "etcd-client" _ _ h6 in
      let (a8, h8) = load_tls_step "serviceaccount" _ _ h7 in
      let is_loaded : insert "serviceaccount" (tls a8) (
            insert "etcd-client" (tls a7) (
              insert "etcd-server" (tls a6) (
                insert "kubernetes" (tls a5) (
                  insert "ssh-host" (ssh a4) (
                    insert "ssh-user" (ssh a3)
                      (insert "clusterca" (tls a2) (insert "keygranting" (tls a1) [])))))))
          ≡ loaded =
        all_loaded h8 in
      subst (λ (x : Dict Authority). (auth : Authorities) × (select_authorities x ≡ ok auth))
        is_loaded (selected a1 a2 a3 a4 a5 a6 a7 a8)
    where
      all_loaded : {m : Dict Authority} → load_authorities sys [] m ≡ ok loaded → m ≡ loaded
      all_loaded {m} e = unfold load_authorities in ground arith

  -- The setup that is loaded has a supervisor that is attached to it, as are all its nodes.
  load_spire_setup-IsAttached :
      (read : Result String) {conf : SpireSetup}
      → load_spire_setup sys.net sys.parse_yaml read ≡ ok conf
      → All IsAttached conf.nodes
        × ((node : SpireNode) × (supervisor conf ≡ ok node) × (node.setup ≡ true))
  unfolding load_spire_setup supervisor is_supervisor
  load_spire_setup-IsAttached read {conf} h =
      let (content, h1, e1) = >>=-eq-ok read _ h in
      let (setup, h2, e2) = >>=-eq-ok (sys.parse_yaml content) _ h1 in
      let (usable, one, admins, same) = (validate_iff sys.net setup conf).0 h2 in
      let (node, last, kind) = last_supervisor_exists setup.nodes (rw one (omega arith)) in
      let recorded : found sys.net (last_supervisor setup.nodes) none ≡ some (ready sys.net node) =
        rw last refl in
      subst
        (λ (x : SpireSetup).
          All IsAttached x.nodes × ((n : SpireNode) × (supervisor x ≡ ok n) × (n.setup ≡ true)))
        (sym same)
        (ready-IsAttached sys.net setup.nodes usable, (ready sys.net node, rw recorded refl, refl))

  configure_total :
      (conf : SpireSetup) {node : SpireNode} {loaded : Dict Authority}
      → All IsAttached conf.nodes
      → supervisor conf ≡ ok node
      → node.setup ≡ true
      → sys.stat "/etc/homeworld/keyserver/static/cluster.conf" ≡ ok false
      → load_authorities sys list_authorities [] ≡ ok loaded
      → (ctx : Context) × (configure sys conf ≡ ok ctx)
  unfolding configure validate_static_files
  configure_total conf {node} {loaded} attached is_sup in_setup static authorities =
      let (auth, chosen) = select_authorities_total authorities in
      let (b, built) = build_accounts_total conf auth attached in
      let valid : validate_static_files sys.stat static_files ≡ ok tt = rw static refl in
      >>=-step (supervisor conf) _ is_sup (
        >>=-total (dns conf.cluster node) _ (dns_total conf auth node in_setup) (λ keyserver_dns.
          >>=-step (validate_static_files sys.stat static_files) _ valid (
            >>=-step (load_authorities sys list_authorities []) _ authorities (
              >>=-step (select_authorities loaded) _ chosen
                (>>=-step (build_accounts conf auth) _ built (_, refl))))))

  -- The configuration is generated, and so none of the assertions and checks of the source panics, if
  -- the setup is valid, the static file is there and no directory, and the authorities load.
  pub generate_config_total :
      (conf : SpireSetup) {loaded : Dict Authority}
      → load_spire_setup sys.net sys.parse_yaml (sys.read_file "/etc/homeworld/config/setup.yaml")
        ≡ ok conf
      → sys.stat "/etc/homeworld/keyserver/static/cluster.conf" ≡ ok false
      → load_authorities sys list_authorities [] ≡ ok loaded
      → (ctx : Context) × (generate_config sys ≡ ok ctx) × (configure sys conf ≡ ok ctx)
  unfolding generate_config configure validate_static_files
  generate_config_total conf {loaded} setup static authorities =
      let (attached, (node, is_sup, node_attached)) = load_spire_setup-IsAttached _ setup in
      let (ctx, e) = configure_total conf attached is_sup node_attached static authorities in
      (ctx, rw setup e, e)
