-- ===== src/WorldConfig/Grants.antt =====
-- The privileges that accounts are given: platform/keysystem/worldconfig/keyserver.go, with the
-- names of worldconfig/apis.go. `context` gives the source the token registry and `GetAccount`,
-- which a privilege finds when it is used. Times are in nanoseconds.
use Prim.Native.String.{◌++◌ as str_append}
use homeworld.Common.{
  ℕ, ◌*◌, String, Bool, true, false, List, [], ◌∷◌, if◌then◌else◌, Result, ok, ◌>>=◌,
}
use homeworld.Common.Dict.{Dict, insert}
use homeworld.Authority.{ConfigAuthority, tls_authority, ssh_authority}
use homeworld.Authority.Tls.{TlsAuthority}
use homeworld.Authority.Ssh.{SshAuthority}
use homeworld.Account.{
  Privilege, tls_grant, ssh_grant, bootstrap, impersonate, configuration, fetch_key, nodes,
  kerberos_accounts,
}
use homeworld.WorldConfig.Spire.{SpireNode, SpireSetup, is_supervisor, is_master, is_worker, dns}

-- `time.Hour`
abbrev pub hour : ℕ
hour = 3600000000000

abbrev pub one_day : ℕ
one_day = 24 * hour

pub record Authorities : Type 0 where
  pub keygranting : TlsAuthority
  pub cluster_ca : TlsAuthority
  pub ssh_user : SshAuthority
  pub ssh_host : SshAuthority
  pub etcd_server : TlsAuthority
  pub etcd_client : TlsAuthority
  pub kubernetes : TlsAuthority
  pub service_account : TlsAuthority

abbrev pub list_authorities : List ConfigAuthority
list_authorities =
    tls_authority "keygranting"
    ∷ tls_authority "clusterca"
    ∷ ssh_authority "ssh-user"
    ∷ ssh_authority "ssh-host"
    ∷ tls_authority "kubernetes"
    ∷ tls_authority "etcd-server"
    ∷ tls_authority "etcd-client"
    ∷ tls_authority "serviceaccount"
    ∷ []

unfoldable pub grants_for_root_admin_account : Authorities → String → Dict Privilege
grants_for_root_admin_account auth principal =
    let access_ssh =
      ssh_grant auth.ssh_user false (4 * hour) (str_append "temporary-ssh-grant-" principal)
        ("root" ∷ []) in
    let access_etcd =
      tls_grant auth.etcd_client false (4 * hour) (str_append "temporary-etcd-grant-" principal) []
        [] in
    let access_kubernetes =
      tls_grant auth.kubernetes false (4 * hour) (str_append "root:" principal) []
        ("system:masters" ∷ []) in
    insert "bootstrap" (bootstrap nodes hour) (
      insert "access-kubernetes" access_kubernetes
        (insert "access-etcd" access_etcd (insert "access-ssh" access_ssh [])))

format_bool : Bool → String
format_bool true = "true"
format_bool false = "false"

-- The third argument is the node's DNS name, as in what follows.
unfoldable pub generate_local_conf : SpireNode → String → String
unfolding is_worker format_bool
generate_local_conf node dns_name =
    str_append "# generated automatically by keyserver\nHOST_NODE=" (
      str_append node.hostname (
        str_append "\nHOST_DNS=" (
          str_append dns_name (
            str_append "\nHOST_IP=" (
              str_append node.ip (
                str_append "\nSCHEDULE_WORK="
                  (str_append (format_bool (is_worker node)) (str_append "\nKIND=" node.kind))))))))

module _ (conf : SpireSetup) (auth : Authorities) (node : SpireNode)
    (dns_name principal : String) where
  abbrev pub names : List String
  names = dns_name ∷ node.hostname ∷ node.ip ∷ []

  -- What only a supervisor has, before the other grants.
  abbrev pub membership : Dict Privilege → Dict Privilege
  membership grants =
      if is_supervisor node
      then insert "auth-to-kerberos" (impersonate kerberos_accounts)
          (insert "bootstrap-keyinit" (bootstrap nodes hour) grants)
      else grants

  -- The endpoints that every node has.
  abbrev pub common_grants : Dict Privilege → Dict Privilege
  common_grants grants =
      let renew = tls_grant auth.keygranting false (one_day * 40) principal [] [] in
      let ssh_host =
        ssh_grant auth.ssh_host true (one_day * 60) (str_append "admitted-" principal) names in
      insert "grant-ssh-host" ssh_host (
        insert "get-local-config" (configuration (generate_local_conf node dns_name))
          (insert "renew-keygrant" renew grants))

  abbrev pub master_server_grants : Dict Privilege → Dict Privilege
  master_server_grants grants =
      let apiserver =
        tls_grant auth.kubernetes true (30 * one_day) (str_append "apiserver:" node.hostname)
          (dns_name
            ∷ node.hostname
            ∷ "kubernetes"
            ∷ "kubernetes.default"
            ∷ "kubernetes.default.svc"
            ∷ str_append "kubernetes.default.svc." conf.cluster.internal_domain
            ∷ node.ip
            ∷ conf.service_api
            ∷ [])
          [] in
      let etcd_server =
        tls_grant auth.etcd_server true (30 * one_day) (str_append "etcd-server-" node.hostname)
          names [] in
      if is_master node
      then insert "grant-etcd-server" etcd_server
          (insert "grant-kubernetes-master" apiserver grants)
      else grants

  abbrev pub registry_grants : Dict Privilege → Dict Privilege
  registry_grants grants =
      if is_supervisor node
      then insert "grant-registry-host"
          (tls_grant auth.cluster_ca true (30 * one_day)
            (str_append "homeworld-supervisor-" node.hostname) ("homeworld.private" ∷ []) [])
          grants
      else grants

  abbrev pub client_grants : Dict Privilege → Dict Privilege
  client_grants grants =
      let supervisor_grant =
        tls_grant auth.kubernetes false (30 * one_day) (str_append "supervisor:" node.hostname) []
          ("system:masters" ∷ []) in
      let worker_grant =
        tls_grant auth.kubernetes true (30 * one_day) (str_append "system:node:" node.hostname)
          names ("system:nodes" ∷ []) in
      let proxy_grant = tls_grant auth.kubernetes false (30 * one_day) "system:kube-proxy" [] [] in
      if is_supervisor node
      then insert "grant-kubernetes-supervisor" supervisor_grant grants
      else insert "grant-kubernetes-proxy" proxy_grant
          (insert "grant-kubernetes-worker" worker_grant grants)

  abbrev pub master_client_grants : Dict Privilege → Dict Privilege
  master_client_grants grants =
      let ctrl_mgr =
        tls_grant auth.kubernetes false (30 * one_day) "system:kube-controller-manager" [] [] in
      let scheduler =
        tls_grant auth.kubernetes false (30 * one_day) "system:kube-scheduler" [] [] in
      let etcd_client =
        tls_grant auth.etcd_client false (30 * one_day) (str_append "etcd-client-" node.hostname)
          names [] in
      if is_master node
      then insert "fetch-serviceaccount-key" (fetch_key auth.service_account) (
          insert "grant-etcd-client" etcd_client (
            insert "grant-kubernetes-scheduler" scheduler
              (insert "grant-kubernetes-ctrl-mgr" ctrl_mgr grants)))
      else grants

  -- The steps of the source, in their order.
  unfoldable pub node_grants : Dict Privilege
  unfolding is_supervisor is_master
  node_grants =
      master_client_grants
        (client_grants (registry_grants (master_server_grants (common_grants (membership [])))))

-- `node.DNS()` panics alike at each of its uses, so that it is bound once.
unfoldable pub grants_for_node_account :
    SpireSetup → Authorities → String → SpireNode → Result (Dict Privilege)
unfolding node_grants
grants_for_node_account conf auth principal node = do
  dns_name ← dns conf.cluster node
  ok (node_grants conf auth node dns_name principal)
