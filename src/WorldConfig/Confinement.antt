-- ===== src/WorldConfig/Confinement.antt =====
-- What the accounts that worldconfig/keyserver.go generates can do.
use Prim.Native.String.{◌++◌ as str_append}
use homeworld.Common.{
  String, ◌≡◌, refl, subst, ◌≢◌, ◌⊎◌, inl, inr, Bool, true, false, some, List, [], ◌∷◌, arith,
  eq_iff, if◌then◌else◌, ok, >>=-eq-ok, All,
}
use mathlib.Core.List.{Memᴰ}
use homeworld.Common.Dict.{Dict, insert, AllValues, AllValues-insert}
use homeworld.Authority.Crypto.{Ip}
use homeworld.Authority.Tls.{TlsAuthority}
use homeworld.Account.{
  Privilege, tls_grant, ssh_grant, bootstrap, impersonate, configuration, fetch_key, Account,
  kerberos_accounts,
}
use homeworld.Operation.Sequence.{KeepsAccount}
use homeworld.WorldConfig.Spire.{SpireNode, SpireSetup, is_supervisor, dns, is_master, net_ip}
use homeworld.WorldConfig.Grants.{
  Authorities, node_grants, common_grants, master_server_grants, registry_grants, client_grants,
  grants_for_root_admin_account, common_grants, master_server_grants, grants_for_node_account,
}
use homeworld.WorldConfig.Generate.{admin_account, node_account}

-- The Kubernetes users of a node that is no supervisor.
abbrev kubernetes_users : SpireNode → List String
kubernetes_users node =
    str_append "apiserver:" node.hostname
    ∷ str_append "system:node:" node.hostname
    ∷ "system:kube-proxy"
    ∷ "system:kube-controller-manager"
    ∷ "system:kube-scheduler"
    ∷ []

-- Whom a certificate of such a node can name, by its authority. The keygranting authority, with which
-- one authenticates at the keyserver, names the node's own account alone.
abbrev IsOwnName : Authorities → SpireNode → String → TlsAuthority → String → List String → Type 0
IsOwnName auth node principal authority commonname organizations =
    ((authority ≡ auth.keygranting) × (commonname ≡ principal) × (organizations ≡ []))
    ⊎ (((authority ≡ auth.kubernetes)
          × Memᴰ commonname (kubernetes_users node)
          × All (λ organization. organization ≢ "system:masters") organizations)
        ⊎ (((authority ≡ auth.etcd_server)
              × (commonname ≡ str_append "etcd-server-" node.hostname)
              × (organizations ≡ []))
            ⊎ ((authority ≡ auth.etcd_client)
                × (commonname ≡ str_append "etcd-client-" node.hostname)
                × (organizations ≡ []))))

-- A privilege of a node that is no supervisor: it lets nobody impersonate an account or hand out
-- bootstrap tokens; its TLS certificates have the names above; its SSH certificates are for hosts, under
-- the node's own names; and the only key that it fetches is that of the service accounts.
abbrev pub IsOrdinary : Authorities → SpireNode → String → String → Privilege → Type 0
IsOrdinary auth node dns_name principal (tls_grant tauth _ _ commonname _ organizations) =
    IsOwnName auth node principal tauth commonname organizations
IsOrdinary auth node dns_name principal (ssh_grant authority ishost _ _ principals) =
    (authority ≡ auth.ssh_host)
    × (ishost ≡ true)
    × (principals ≡ dns_name ∷ node.hostname ∷ node.ip ∷ [])
IsOrdinary _ _ _ _ (bootstrap group lifespan) = ⊥
IsOrdinary _ _ _ _ (impersonate group) = ⊥
IsOrdinary _ _ _ _ (configuration _) = Unit
IsOrdinary auth _ _ _ (fetch_key authority) = authority ≡ auth.service_account

-- Only Kerberos accounts are impersonated.
abbrev pub IsScoped : Privilege → Type 0
IsScoped (impersonate group) = group ≡ kerberos_accounts
IsScoped _ = Unit

-- A Kerberos account cannot be used directly, and leads to no other account.
pub record IsKerberos (a : Account) : Type 0 where
  pub indirect : a.disable_direct_auth ≡ true
  pub keeps : AllValues KeepsAccount a.privileges

-- The account of a node of the setup, bound to the node's address. Its privileges are of the
-- authorities of the keyserver.
pub record IsNode (conf : SpireSetup) (a : Account) : Type 0 where
  pub node : SpireNode
  pub listed : Memᴰ node conf.nodes
  pub principal : dns conf.cluster node ≡ ok a.principal
  pub address : (ip : Ip) × (node.net_ip ≡ some ip) × (a.limit_ip ≡ some ip)
  pub scoped : AllValues IsScoped a.privileges
  pub authorities : Authorities
  pub ordinary :
      is_supervisor node ≡ false
      → AllValues (IsOrdinary authorities node a.principal a.principal) a.privileges

AllValues-if :
    {V : Type 0} (P : V → Type 0) (b : Bool) (m n : Dict V)
    → (b ≡ true → AllValues P m)
    → (b ≡ false → AllValues P n)
    → AllValues P (if b then m else n)
AllValues-if P true m n f g = f refl
AllValues-if P false m n f g = g refl

net_ip-eq-ok : (node : SpireNode) {ip : Ip} → net_ip node ≡ ok ip → node.net_ip ≡ some ip
unfolding net_ip
net_ip-eq-ok node {ip} h = ground arith

module _ (conf : SpireSetup) (auth : Authorities) where
  insert-IsScoped :
      (grants : Dict Privilege) (name : String) (priv : Privilege)
      → IsScoped priv
      → AllValues IsScoped grants
      → AllValues IsScoped (insert name priv grants)
  insert-IsScoped grants name priv scoped rest =
      AllValues-insert IsScoped name priv grants scoped rest

  no_admins : All (λ (organization : String). organization ≢ "system:masters") ("system:nodes" ∷ [])
  no_admins = (ground (arith, eq_iff "system:nodes" "system:masters"), tt)

  module _ (node : SpireNode) (dns_name principal : String) (h : is_supervisor node ≡ false) where
    abbrev Ordinary : Privilege → Type 0
    Ordinary = IsOrdinary auth node dns_name principal

    impossible : {P : Type 0} → is_supervisor node ≡ true → P
    impossible yes_sup = cc

    add :
        (grants : Dict Privilege) (name : String) (priv : Privilege)
        → Ordinary priv
        → AllValues Ordinary grants
        → AllValues Ordinary (insert name priv grants)
    add grants name priv ordinary rest = AllValues-insert Ordinary name priv grants ordinary rest

    -- A certificate of the Kubernetes authority for one of the users, in no group.
    user :
        {commonname : String}
        → Memᴰ commonname (kubernetes_users node)
        → IsOwnName auth node principal auth.kubernetes commonname []
    user listed = inr (inl (refl, listed, tt))

    server_grants-IsOrdinary :
        (grants : Dict Privilege)
        → AllValues Ordinary grants
        → AllValues Ordinary (
            master_server_grants conf auth node dns_name principal
              (common_grants conf auth node dns_name principal grants))
    server_grants-IsOrdinary grants v =
        let own = inl (refl, refl, refl) in
        let common = add _ _ _ (refl, refl, refl) (add _ _ _ tt (add _ _ _ own v)) in
        AllValues-if Ordinary (is_master node) _ _
          (λ master.
            add _ _ _ (inr (inr (inl (refl, refl, refl))))
              (add _ _ _ (user (Memᴰ.head refl)) common))
          (λ other. common)

    client_grants-IsOrdinary :
        (grants : Dict Privilege)
        → AllValues Ordinary grants
        → AllValues Ordinary (
            client_grants conf auth node dns_name principal
              (registry_grants conf auth node dns_name principal grants))
    client_grants-IsOrdinary grants v =
        AllValues-if Ordinary (is_supervisor node) _ _ impossible (λ other.
          add _ _ _ (user (Memᴰ.tail (Memᴰ.tail (Memᴰ.head refl)))) (
            add _ _ _ (inr (inl (refl, Memᴰ.tail (Memᴰ.head refl), no_admins)))
              (AllValues-if Ordinary (is_supervisor node) _ _ impossible (λ no_registry. v))))

    -- A node that is no supervisor has ordinary privileges alone: none impersonates an account or hands
    -- out bootstrap tokens; a certificate of the keygranting authority names the node's own account;
    -- one of the Kubernetes authority names one of five users, which are the node itself, its API
    -- server, and the proxy, the controller manager and the scheduler, and none is in the group
    -- `system:masters`; those of the etcd authorities name the node's own server and client; an SSH
    -- certificate is for the host, under the node's own names; and a key that can be fetched is that
    -- of the service accounts.
    pub node_grants-IsOrdinary :
        AllValues
          (IsOrdinary auth node dns_name principal)
          (node_grants conf auth node dns_name principal)
    unfolding node_grants
    node_grants-IsOrdinary =
        let begin = AllValues-if Ordinary (is_supervisor node) _ _ impossible (λ other. tt) in
        let clients = client_grants-IsOrdinary _ (server_grants-IsOrdinary _ begin) in
        AllValues-if Ordinary (is_master node) _ _
          (λ master. add _ _ _ refl (
            add _ _ _ (inr (inr (inr (refl, refl, refl)))) (
              add _ _ _ (user (Memᴰ.tail (Memᴰ.tail (Memᴰ.tail (Memᴰ.tail (Memᴰ.head refl))))))
                (add _ _ _ (user (Memᴰ.tail (Memᴰ.tail (Memᴰ.tail (Memᴰ.head refl))))) clients))))
          (λ other. clients)

  node_grants-IsScoped :
      (node : SpireNode) (dns_name principal : String)
      → AllValues IsScoped (node_grants conf auth node dns_name principal)
  unfolding node_grants
  node_grants-IsScoped node dns_name principal =
      let when = λ (b : Bool) (m n : Dict Privilege). AllValues-if IsScoped b m n in
      let begin =
        when (is_supervisor node) _ _
          (λ s. insert-IsScoped _ _ _ refl (insert-IsScoped _ _ _ tt tt)) (λ o. tt) in
      let common =
        insert-IsScoped _ _ _ tt (insert-IsScoped _ _ _ tt (insert-IsScoped _ _ _ tt begin)) in
      let servers =
        when (is_master node) _ _ (λ m. insert-IsScoped _ _ _ tt (insert-IsScoped _ _ _ tt common))
          (λ o. common) in
      let registry =
        when (is_supervisor node) _ _ (λ s. insert-IsScoped _ _ _ tt servers) (λ o. servers) in
      let clients =
        when (is_supervisor node) _ _ (λ s. insert-IsScoped _ _ _ tt registry)
          (λ o. insert-IsScoped _ _ _ tt (insert-IsScoped _ _ _ tt registry)) in
      when (is_master node) _ _
        (λ m.
          insert-IsScoped _ _ _ tt (
            insert-IsScoped _ _ _ tt (insert-IsScoped _ _ _ tt (insert-IsScoped _ _ _ tt clients))))
        (λ o. clients)

  -- The account of a node of the list, as it is made.
  pub node_account-IsNode :
      (node : SpireNode) {a : Account}
      → Memᴰ node conf.nodes
      → node_account conf auth node ≡ ok a
      → IsNode conf a
  unfolding node_account grants_for_node_account
  node_account-IsNode node {a} listed h =
      let (principal, h1, named) = >>=-eq-ok (dns conf.cluster node) _ h in
      let (ip, h2, address) = >>=-eq-ok (net_ip node) _ h1 in
      let (privileges, h3, granted) =
        >>=-eq-ok (grants_for_node_account conf auth principal node) _ h2 in
      let (dns_name, h4, again) = >>=-eq-ok (dns conf.cluster node) _ granted in
      let built : Account = record {
        principal = principal;
        disable_direct_auth = false;
        limit_ip = some ip;
        privileges = privileges;
      } in
      let is_account : built ≡ a = ground arith in
      let same_name : dns_name ≡ principal = cc in
      let is_grants : node_grants conf auth node dns_name principal ≡ privileges = ground arith in
      subst (IsNode conf) is_account (record {
        node = node;
        listed = listed;
        principal = named;
        address = (ip, net_ip-eq-ok node address, refl);
        scoped =
            subst (AllValues IsScoped) is_grants (node_grants-IsScoped node dns_name principal);
        authorities = auth;
        ordinary = λ other.
            subst (λ name. AllValues (IsOrdinary auth node name principal) privileges) same_name
              (subst (AllValues (IsOrdinary auth node dns_name principal)) is_grants
                (node_grants-IsOrdinary node dns_name principal other));
      })

  pub admin-IsKerberos : (name : String) → IsKerberos (admin_account conf auth name)
  unfolding grants_for_root_admin_account insert
  admin-IsKerberos name = record { indirect = refl; keeps = (tt, (tt, (tt, (tt, tt)))) }
