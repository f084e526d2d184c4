-- ===== src/WorldConfig/Generate.antt =====
-- The accounts and the context that platform/keysystem/worldconfig/keyserver.go builds.
use Prim.Native.String.{◌++◌ as str_append}
use homeworld.Common.{
  String, Bool, true, false, not, Option, none, some, List, [], ◌∷◌, ◌++◌, ltb, if◌then◌else◌,
  message, Result, ok, panic, ◌>>=◌, ◌>>◌, guard, length,
}
use homeworld.Common.Dict.{Dict, lookup, insert}
use homeworld.Authority.{Authority, ConfigAuthority, tls, ssh, load}
use homeworld.Authority.Crypto.{X509, Net, SshLib}
use homeworld.Authority.Tls.{TlsAuthority}
use homeworld.Authority.Ssh.{SshAuthority}
use homeworld.Account.{Account, GroupId, nodes, kerberos_accounts, Context}
use homeworld.WorldConfig.Spire.{
  SpireNode, SpireSetup, is_supervisor, supervisor, dns, net_ip, load_spire_setup,
}
use homeworld.WorldConfig.Grants.{
  Authorities, list_authorities, grants_for_root_admin_account, grants_for_node_account,
}

-- `Groups`: the members so far.
pub record Groups : Type 0 where
  pub kerberos_accounts : List Account
  pub nodes : List Account

abbrev pub members_of : Groups → GroupId → List Account
members_of groups kerberos_accounts = groups.kerberos_accounts
members_of groups nodes = groups.nodes

-- The local variables of `GenerateAccounts`.
pub record Built : Type 0 where
  pub accounts : List Account
  pub groups : Groups

abbrev pub add_node_member : Account → Built → Built
add_node_member acc b = record {
  accounts = b.accounts ++ acc ∷ [];
  groups = record b.groups { nodes = b.groups.nodes ++ acc ∷ [] };
}

abbrev pub add_kerberos_member : Account → Built → Built
add_kerberos_member acc b = record {
  accounts = b.accounts ++ acc ∷ [];
  groups = record b.groups { kerberos_accounts = b.groups.kerberos_accounts ++ acc ∷ [] };
}

abbrev pub nothing_built : Built
nothing_built = record { accounts = []; groups = record { kerberos_accounts = []; nodes = [] } }

module _ (conf : SpireSetup) (auth : Authorities) where
  unfoldable pub node_account : SpireNode → Result Account
  node_account node = do
    principal ← dns conf.cluster node
    limit_ip ← net_ip node
    privileges ← grants_for_node_account conf auth principal node
    ok (record {
      principal = principal;
      disable_direct_auth = false;
      limit_ip = some limit_ip;
      privileges = privileges;
    })

  unfoldable pub add_nodes : List SpireNode → Built → Result Built
  unfolding node_account
  add_nodes [] b = ok b
  add_nodes (node ∷ rest) b = do acc ← node_account node; add_nodes rest (add_node_member acc b)

  abbrev pub admin_account : String → Account
  admin_account root_admin = record {
    principal = root_admin;
    disable_direct_auth = true;
    limit_ip = none;
    privileges = grants_for_root_admin_account auth root_admin;
  }

  unfoldable pub add_admins : List String → Built → Built
  add_admins [] b = b
  add_admins (root_admin ∷ rest) b =
      add_admins rest (add_kerberos_member (admin_account root_admin) b)

  abbrev pub host_account : String → Account
  host_account dns_name = record {
    principal =
        str_append "host/" (str_append dns_name (str_append "@" conf.cluster.kerberos_realm));
    disable_direct_auth = true;
    limit_ip = none;
    privileges = [];
  }

  unfoldable pub add_hosts : List SpireNode → Built → Result Built
  add_hosts [] b = ok b
  add_hosts (node ∷ rest) b =
      if is_supervisor node
      then (do
        dns_name ← dns conf.cluster node
        add_hosts rest (add_kerberos_member (host_account dns_name) b))
      else add_hosts rest b

  abbrev pub all_admins : List String
  all_admins = "metrics@NONEXISTENT.REALM.INVALID" ∷ conf.root_admins

  -- The administrators; without any, the service account of the supervisor is not added.
  unfoldable pub add_kerberos : Built → Result Built
  unfolding add_admins add_hosts
  add_kerberos b =
      if ltb 0 (length conf.root_admins)
      then add_hosts conf.nodes (add_admins all_admins b)
      else ok (add_admins all_admins b)

  unfoldable pub build_accounts : Result Built
  unfolding add_nodes add_kerberos
  build_accounts = do b ← add_nodes conf.nodes nothing_built; add_kerberos b

-- `context.Accounts[ac.Principal] = ac`, for each
unfoldable pub register : List Account → Dict Account → Dict Account
register [] accounts = accounts
register (ac ∷ rest) accounts = register rest (insert ac.principal ac accounts)

-- `stat` is `os.Stat`, with what `IsDir` answers.
unfoldable pub validate_static_files : (String → Result Bool) → Dict String → Result (Unit {0})
validate_static_files stat [] = ok tt
validate_static_files stat ((name, filepath) ∷ rest) = do
  is_dir ← stat filepath
  guard (not is_dir) (message "static file at %s is directory")
  validate_static_files stat rest

-- The type assertions, which panic on a missing authority and on one of the other kind.
unfoldable pub as_tls : Option Authority → Result TlsAuthority
as_tls (some (tls t)) = ok t
as_tls (some (ssh d)) = panic "interface conversion: not *authorities.TLSAuthority"
as_tls none = panic "interface conversion: interface is nil"

unfoldable pub as_ssh : Option Authority → Result SshAuthority
as_ssh (some (ssh d)) = ok d
as_ssh (some (tls t)) = panic "interface conversion: not *authorities.SSHAuthority"
as_ssh none = panic "interface conversion: interface is nil"

unfoldable pub select_authorities : Dict Authority → Result Authorities
unfolding as_tls as_ssh
select_authorities loaded = do
  keygranting ← as_tls (lookup "keygranting" loaded)
  cluster_ca ← as_tls (lookup "clusterca" loaded)
  etcd_client ← as_tls (lookup "etcd-client" loaded)
  etcd_server ← as_tls (lookup "etcd-server" loaded)
  kubernetes ← as_tls (lookup "kubernetes" loaded)
  service_account ← as_tls (lookup "serviceaccount" loaded)
  ssh_host ← as_ssh (lookup "ssh-host" loaded)
  ssh_user ← as_ssh (lookup "ssh-user" loaded)
  ok (record {
    keygranting = keygranting;
    cluster_ca = cluster_ca;
    ssh_user = ssh_user;
    ssh_host = ssh_host;
    etcd_server = etcd_server;
    etcd_client = etcd_client;
    kubernetes = kubernetes;
    service_account = service_account;
  })

abbrev pub static_files : Dict String
static_files = ("cluster.conf", "/etc/homeworld/keyserver/static/cluster.conf") ∷ []

-- What the source reads of the system: `ioutil.ReadFile` of a path and under a directory, `os.Stat`
-- and `yaml.Unmarshal`, with the packages of the authorities.
pub record System : Type 0 where
  pub net : Net
  pub x509 : X509
  pub ssh_lib : SshLib
  pub read_file : String → Result String
  pub read_under : String → String → Result String
  pub stat : String → Result Bool
  pub parse_yaml : String → Result SpireSetup

module _ (sys : System) where
  unfoldable pub load_authorities : List ConfigAuthority → Dict Authority → Result (Dict Authority)
  load_authorities [] loaded = ok loaded
  load_authorities (authority ∷ rest) loaded = do
    a ← load sys.x509 sys.ssh_lib sys.read_under authority "/etc/homeworld/keyserver/authorities/"
    load_authorities rest (insert authority.name a loaded)

  abbrev pub context_of : SpireSetup → String → Dict Authority → Authorities → Built → Context
  context_of conf keyserver_dns loaded auth b = record {
    authorities = loaded;
    accounts = register b.accounts [];
    authentication_authority = auth.keygranting;
    cluster_ca = auth.cluster_ca;
    static_files = static_files;
    keyserver_dns = keyserver_dns;
    members = members_of b.groups;
  }

  -- What follows the loading of the setup.
  unfoldable pub configure : SpireSetup → Result Context
  unfolding validate_static_files load_authorities select_authorities build_accounts register
  configure conf = do
    node ← supervisor conf
    keyserver_dns ← dns conf.cluster node
    validate_static_files sys.stat static_files
    loaded ← load_authorities list_authorities []
    auth ← select_authorities loaded
    b ← build_accounts conf auth
    ok (context_of conf keyserver_dns loaded auth b)

  -- The path is `paths.SpireSetupPath`.
  unfoldable pub generate_config : Result Context
  unfolding configure
  generate_config = do
    conf ←
        load_spire_setup sys.net sys.parse_yaml (sys.read_file "/etc/homeworld/config/setup.yaml")
    configure conf
