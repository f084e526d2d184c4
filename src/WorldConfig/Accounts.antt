-- ===== src/WorldConfig/Accounts.antt =====
-- The accounts of a context that worldconfig/keyserver.go generates, and what their requests reach.
use mathlib.Core.List.{Memᴰ}
use mathlib.Core.List.{append-nil, append_assoc}
use homeworld.Common.{
  String, ◌≡◌, refl, sym, ◌∙◌, subst, ◌⊎◌, inl, inr, true, false, some, List, [], ◌∷◌, ◌++◌, arith,
  ◌==◌, ltb, Bool-cases, ok, >>=-eq-ok, length, All, All-append, All-mono,
}
use homeworld.Common.Dict.{Dict, lookup, insert, AllValues, AllValues-lookup, lookup-insert}
use homeworld.Account.{
  Privilege, tls_grant, ssh_grant, bootstrap, impersonate, configuration, fetch_key, Account,
  Context, kerberos_accounts, has_member, get_account,
}
use homeworld.Operation.Authorization.{Becomes, Permitted, done, act}
use homeworld.Operation.Sequence.{Permitted-AllGranted}
use homeworld.WorldConfig.Spire.{SpireNode, SpireSetup, is_supervisor, dns, supervisor}
use homeworld.WorldConfig.Grants.{Authorities, list_authorities}
use homeworld.WorldConfig.Generate.{
  Built, node_account, add_nodes, add_admins, add_hosts, add_kerberos, admin_account, host_account,
  all_admins, nothing_built, add_node_member, add_kerberos_member, build_accounts, register, System,
  configure, context_of, validate_static_files, static_files, load_authorities, select_authorities,
}
use homeworld.WorldConfig.Confinement.{
  IsKerberos, IsNode, IsScoped, node_account-IsNode, admin-IsKerberos,
}

-- The accounts so far: those of nodes first, and then those of Kerberos principals.
pub record IsBuilt (conf : SpireSetup) (b : Built) : Type 0 where
  pub of_nodes : All (IsNode conf) b.groups.nodes
  pub of_kerberos : All IsKerberos b.groups.kerberos_accounts
  pub split : b.accounts ≡ b.groups.nodes ++ b.groups.kerberos_accounts

module _ (conf : SpireSetup) (auth : Authorities) where
  add_nodes-IsBuilt :
      (rest : List SpireNode) (b : Built) {result : Built}
      → ((node : SpireNode) → Memᴰ node rest → Memᴰ node conf.nodes)
      → IsBuilt conf b
      → b.groups.kerberos_accounts ≡ []
      → add_nodes conf auth rest b ≡ ok result
      → IsBuilt conf result
  unfolding add_nodes
  add_nodes-IsBuilt [] b listed v none_yet h =
      let same : b ≡ _ = ground arith in subst (IsBuilt conf) same v
  add_nodes-IsBuilt (node ∷ rest) b listed v none_yet h =
      let (a, later, made) = >>=-eq-ok (node_account conf auth node) _ h in
      let is_node = node_account-IsNode conf auth node (listed node (Memᴰ.head refl)) made in
      add_nodes-IsBuilt rest (add_node_member a b) (λ n m. listed n (Memᴰ.tail m))
        (record {
          of_nodes = All-append (IsNode conf) b.groups.nodes (a ∷ []) v.of_nodes (is_node, tt);
          of_kerberos = v.of_kerberos;
          split =
              rw (v.split, none_yet, append-nil b.groups.nodes)
                (sym (append-nil (b.groups.nodes ++ a ∷ [])));
        })
        none_yet later

  add_kerberos_member-IsBuilt :
      (a : Account) (b : Built)
      → IsKerberos a
      → IsBuilt conf b
      → IsBuilt conf (add_kerberos_member a b)
  add_kerberos_member-IsBuilt a b k v = record {
    of_nodes = v.of_nodes;
    of_kerberos = All-append IsKerberos b.groups.kerberos_accounts (a ∷ []) v.of_kerberos (k, tt);
    split = rw v.split (append_assoc b.groups.nodes b.groups.kerberos_accounts (a ∷ []));
  }

  add_admins-IsBuilt :
      (names : List String) (b : Built)
      → IsBuilt conf b
      → IsBuilt conf (add_admins conf auth names b)
  unfolding add_admins
  add_admins-IsBuilt [] b v = v
  add_admins-IsBuilt (name ∷ rest) b v =
      add_admins-IsBuilt rest (add_kerberos_member (admin_account conf auth name) b) (
        add_kerberos_member-IsBuilt (admin_account conf auth name) b
          (admin-IsKerberos conf auth name) v)

  add_hosts-IsBuilt :
      (rest : List SpireNode) (b : Built) {result : Built}
      → IsBuilt conf b
      → add_hosts conf auth rest b ≡ ok result
      → IsBuilt conf result
  unfolding add_hosts
  add_hosts-IsBuilt [] b v h = let same : b ≡ _ = ground arith in subst (IsBuilt conf) same v
  add_hosts-IsBuilt (node ∷ rest) b v h = elim (Bool-cases (is_supervisor node)) [
    | inl yes_sup ↦
        let found = rw yes_sup at h in
        let (dns_name, later, named) = >>=-eq-ok (dns conf.cluster node) _ found in
        add_hosts-IsBuilt rest (add_kerberos_member (host_account conf auth dns_name) b)
          (add_kerberos_member-IsBuilt (host_account conf auth dns_name) b
            (record { indirect = refl; keeps = tt }) v)
          later
    | inr no_sup ↦ let skipped = rw no_sup at h in add_hosts-IsBuilt rest b v skipped
  ]

  build_accounts-IsBuilt : {b : Built} → build_accounts conf auth ≡ ok b → IsBuilt conf b
  unfolding build_accounts add_kerberos
  build_accounts-IsBuilt {b} h =
      let (first, later, made) = >>=-eq-ok (add_nodes conf auth conf.nodes nothing_built) _ h in
      let begin : IsBuilt conf nothing_built = record {
        of_nodes = tt;
        of_kerberos = tt;
        split = refl;
      } in
      let v =
        add_admins-IsBuilt (all_admins conf auth) first
          (add_nodes-IsBuilt conf.nodes nothing_built (λ n m. m) begin refl made) in
      elim (Bool-cases (ltb 0 (length conf.root_admins))) [
        | inl some_admin ↦
            let with_hosts = rw some_admin at later in add_hosts-IsBuilt conf.nodes _ v with_hosts
        | inr no_admin ↦
            let without = rw no_admin at later in
            let same : add_admins conf auth (all_admins conf auth) first ≡ b = ground arith in
            subst (IsBuilt conf) same v
      ]

module _ (P : Account → Type 0) (name : String) {a : Account} where
  -- What is read was there before, or is one of the accounts.
  register-lookup :
      (accounts : List Account) (m : Dict Account)
      → All P accounts
      → (has_member accounts name ≡ true) ⊎ (lookup name m ≡ some a → P a)
      → lookup name (register accounts m) ≡ some a
      → P a
  unfolding register has_member
  register-lookup [] m v (inl member) h = cc
  register-lookup [] m v (inr before) h = before h
  register-lookup (b ∷ rest) m (p, v) source h = elim (Bool-cases (b.principal == name)) [
    | inl here ↦
        register-lookup rest (insert b.principal b m) v
          (inr (λ e.
            let read = rw (lookup-insert b.principal name b m, here) at e in
            let same : b ≡ a = ground arith in subst P same p))
          h
    | inr other ↦ register-lookup rest (insert b.principal b m) v (passed other source) h
  ]
    where
      passed :
          (b.principal == name) ≡ false
          → (has_member (b ∷ rest) name ≡ true) ⊎ (lookup name m ≡ some a → P a)
          → (has_member rest name ≡ true) ⊎ (lookup name (insert b.principal b m) ≡ some a → P a)
      passed other (inl member) = let in_rest = rw other at member in inl in_rest
      passed other (inr before) =
          inr (λ e. let read = rw (lookup-insert b.principal name b m, other) at e in before read)

  register-lookup-append :
      (first later : List Account) (m : Dict Account)
      → All P later
      → has_member later name ≡ true
      → lookup name (register (first ++ later) m) ≡ some a
      → P a
  unfolding register
  register-lookup-append [] later m v member h = register-lookup later m v (inl member) h
  register-lookup-append (b ∷ first) later m v member h =
      register-lookup-append first later (insert b.principal b m) v member h

-- The accounts of a context come from a setup.
pub record IsGenerated (conf : SpireSetup) (ctx : Context) : Type 0 where
  pub built : Built
  pub is_built : IsBuilt conf built
  pub accounts : ctx.accounts ≡ register built.accounts []
  pub kerberos : ctx.members kerberos_accounts ≡ built.groups.kerberos_accounts

module _ (sys : System) where
  pub configure-IsGenerated :
      (conf : SpireSetup) {ctx : Context} → configure sys conf ≡ ok ctx → IsGenerated conf ctx
  unfolding configure
  configure-IsGenerated conf {ctx} h =
      let (node, h1, e1) = >>=-eq-ok (supervisor conf) _ h in
      let (keyserver_dns, h2, e2) = >>=-eq-ok (dns conf.cluster node) _ h1 in
      let (_, h3, e3) = >>=-eq-ok (validate_static_files sys.stat static_files) _ h2 in
      let (loaded, h4, e4) = >>=-eq-ok (load_authorities sys list_authorities []) _ h3 in
      let (auth, h5, e5) = >>=-eq-ok (select_authorities loaded) _ h4 in
      let (b, h6, made) = >>=-eq-ok (build_accounts conf auth) _ h5 in
      let same : context_of sys conf keyserver_dns loaded auth b ≡ ctx = ground arith in
      subst (IsGenerated conf) same (record {
        built = b;
        is_built = build_accounts-IsBuilt conf auth made;
        accounts = refl;
        kerberos = refl;
      })

not-in_empty : (name : String) {a : Account} → lookup name [] ≡ some a → ⊥
unfolding lookup
not-in_empty name {a} h = cc

get_account-lookup :
    (ctx : Context) (name : String) {a : Account}
    → get_account ctx name ≡ ok a
    → lookup name ctx.accounts ≡ some a
unfolding get_account
get_account-lookup ctx name {a} h = ground arith

module _ (conf : SpireSetup) (ctx : Context) (g : IsGenerated conf ctx) where
  -- Every account of the context is of a node or of a Kerberos principal.
  pub account-cases :
      (name : String) {a : Account} → get_account ctx name ≡ ok a → IsNode conf a ⊎ IsKerberos a
  account-cases name {a} h =
      let v = g.is_built in
      let stored = get_account-lookup ctx name h in
      let read = rw g.accounts at stored in
      register-lookup (λ x. IsNode conf x ⊎ IsKerberos x) name g.built.accounts []
        (rw v.split (
          All-append (λ x. IsNode conf x ⊎ IsKerberos x) g.built.groups.nodes
            g.built.groups.kerberos_accounts
            (All-mono g.built.groups.nodes (λ x p. inl p) v.of_nodes)
            (All-mono g.built.groups.kerberos_accounts (λ x p. inr p) v.of_kerberos)))
        (inr (λ e. absurd (not-in_empty name e))) read

  member-IsKerberos :
      (name : String) {a : Account}
      → has_member (ctx.members kerberos_accounts) name ≡ true
      → get_account ctx name ≡ ok a
      → IsKerberos a
  member-IsKerberos name {a} member h =
      let in_group = rw g.kerberos at member in
      let stored = get_account-lookup ctx name h in
      let read = rw (g.accounts, g.is_built.split) at stored in
      register-lookup-append IsKerberos name g.built.groups.nodes g.built.groups.kerberos_accounts
        [] g.is_built.of_kerberos in_group read

  -- One privilege of a node leads to the node itself or to a Kerberos account.
  Becomes-cases :
      (priv : Privilege) (body : String) {a b : Account}
      → IsScoped priv
      → Becomes ctx priv body a b
      → (b ≡ a) ⊎ IsKerberos b
  Becomes-cases (impersonate group) body scoped (member, found, named) =
      let in_group = rw scoped at member in inr (member-IsKerberos body in_group found)
  Becomes-cases (tls_grant _ _ _ _ _ _) body scoped h = inl h
  Becomes-cases (ssh_grant _ _ _ _ _) body scoped h = inl h
  Becomes-cases (bootstrap group lifespan) body scoped h = inl h
  Becomes-cases (configuration _) body scoped h = inl h
  Becomes-cases (fetch_key _) body scoped h = inl h

  -- The batches that a node is permitted end as the node itself or as a Kerberos account.
  pub Permitted-cases :
      {a b : Account} {ops : List (Dict String)}
      → AllValues IsScoped a.privileges
      → Permitted ctx a ops b
      → (b ≡ a) ⊎ IsKerberos b
  Permitted-cases v done = inl refl
  Permitted-cases {a} {b} v
        (act {ops = later} {api = api} {body = body} {priv = priv} has_api has_body granted becomes
          rest) =
      elim (Becomes-cases priv body (AllValues-lookup IsScoped api priv a.privileges v granted)
        becomes) [
          | inl same ↦
              elim (Permitted-cases
                (subst (λ (x : Account). AllValues IsScoped x.privileges) (sym same) v) rest) [
                  | inl stays ↦ inl (stays ∙ same)
                  | inr kerberos ↦ inr kerberos
                ]
          | inr kerberos ↦
              let (stays, _) = Permitted-AllGranted kerberos.keeps rest in
              inr (subst IsKerberos (sym stays) kerberos)
        ]
