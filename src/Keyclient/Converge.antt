-- ===== src/Keyclient/Converge.antt =====
-- The actions of every node: `ConvergeState` of platform/keysystem/worldconfig/keyclient.go, with the
-- paths of worldconfig/paths. Times are in nanoseconds.
use homeworld.Common.{ℕ, ◌*◌, String, Bool, Result}
use homeworld.Operation.{Json}
use homeworld.Keyclient.Effects.{Errors, Os, Act, ◌>>◌}
use homeworld.Keyclient.State.{generate_key, bootstrap, granting_key_path}
use homeworld.Keyclient.Download.{download_authority, download_static, download_from_api}
use homeworld.Keyclient.Hostname.{reload_hostname_from}
use homeworld.Keyclient.Renewal.{act}
use homeworld.WorldConfig.Grants.{one_day}

abbrev pub one_week : ℕ
one_week = 7 * one_day

-- `certutil` and `csrutil`: expiration and request, for TLS and for SSH, and the characters of a token.
pub record Formats : Type 0 where
  pub check_tls_cert_expiration : String → Result ℕ
  pub build_tls_csr : String → Result String
  pub check_ssh_cert_expiration : String → Result ℕ
  pub build_ssh_csr : String → Result String
  pub is_token : String → Bool

module _ {W : Type 0} (os : Os W) (errors : Errors) (json : Json) (base_url : String)
    (f : Formats) where
  unfoldable pub request_or_renew_tls_key : String → String → String → ℕ → Act W (Unit {0})
  unfolding act
  request_or_renew_tls_key key cert api in_advance = act os errors json base_url (record {
    in_advance = in_advance;
    api = api;
    check_expiration = f.check_tls_cert_expiration;
    gen_csr = f.build_tls_csr;
    key_file = key;
    cert_file = cert;
  })

  unfoldable pub request_or_renew_ssh_key : String → String → String → ℕ → Act W (Unit {0})
  unfolding act
  request_or_renew_ssh_key key cert api in_advance = act os errors json base_url (record {
    in_advance = in_advance;
    api = api;
    check_expiration = f.check_ssh_cert_expiration;
    gen_csr = f.build_ssh_csr;
    key_file = key;
    cert_file = cert;
  })

  unfoldable pub tls_key : String → String → String → ℕ → Act W (Unit {0})
  unfolding generate_key request_or_renew_tls_key
  tls_key key cert api in_advance = do
    generate_key os errors key
    request_or_renew_tls_key key cert api in_advance

  abbrev authority : String → String → ℕ → Act W (Unit {0})
  authority = download_authority os errors json base_url

  abbrev pub converge_downloads : Act W (Unit {0})
  converge_downloads = do
    authority "kubernetes" "/etc/homeworld/authorities/kubernetes.pem" one_day
    authority "clusterca" "/usr/local/share/ca-certificates/extra/cluster.tls.crt" one_day
    authority "ssh-user" "/etc/ssh/ssh_user_ca.pub" one_week
    download_static os errors json base_url "cluster.conf" "/etc/homeworld/config/cluster.conf"
        one_day
    download_from_api os errors json base_url "get-local-config" "/etc/homeworld/config/local.conf"
        one_day 0o644
    reload_hostname_from os "/etc/homeworld/config/local.conf"
    authority "serviceaccount" "/etc/homeworld/keys/serviceaccount.pem" one_day
    authority "etcd-client" "/etc/homeworld/authorities/etcd-client.pem" one_day
    authority "etcd-server" "/etc/homeworld/authorities/etcd-server.pem" one_day
    download_from_api os errors json base_url "fetch-serviceaccount-key"
        "/etc/homeworld/keys/serviceaccount.key" one_day 0o600

  abbrev pub converge_keys : Act W (Unit {0})
  converge_keys = do
    tls_key "/etc/homeworld/keyclient/granting.key" "/etc/homeworld/keyclient/granting.pem"
        "renew-keygrant" (2 * one_week)
    request_or_renew_ssh_key "/etc/ssh/ssh_host_rsa_key.pub" "/etc/ssh/ssh_host_rsa_cert"
        "grant-ssh-host" one_week
    tls_key "/etc/homeworld/keys/kubernetes-worker.key" "/etc/homeworld/keys/kubernetes-worker.pem"
        "grant-kubernetes-worker" one_week
    tls_key "/etc/homeworld/keys/kubernetes-supervisor.key"
        "/etc/homeworld/keys/kubernetes-supervisor.pem" "grant-kubernetes-supervisor" one_week
    tls_key "/etc/homeworld/ssl/homeworld.private.key" "/etc/homeworld/ssl/homeworld.private.pem"
        "grant-registry-host" one_week
    tls_key "/etc/homeworld/keys/kubernetes-master.key" "/etc/homeworld/keys/kubernetes-master.pem"
        "grant-kubernetes-master" one_week
    tls_key "/etc/homeworld/keys/kubernetes-ctrl-mgr.key"
        "/etc/homeworld/keys/kubernetes-ctrl-mgr.pem" "grant-kubernetes-ctrl-mgr" one_week
    tls_key "/etc/homeworld/keys/kubernetes-proxy.key" "/etc/homeworld/keys/kubernetes-proxy.pem"
        "grant-kubernetes-proxy" one_week
    tls_key "/etc/homeworld/keys/kubernetes-scheduler.key"
        "/etc/homeworld/keys/kubernetes-scheduler.pem" "grant-kubernetes-scheduler" one_week
    tls_key "/etc/homeworld/keys/etcd-server.key" "/etc/homeworld/keys/etcd-server.pem"
        "grant-etcd-server" one_week
    tls_key "/etc/homeworld/keys/etcd-client.key" "/etc/homeworld/keys/etcd-client.pem"
        "grant-etcd-client" one_week

  unfoldable pub converge_state : Act W (Unit {0})
  unfolding bootstrap download_authority download_static download_from_api reload_hostname_from
      request_or_renew_ssh_key tls_key
  converge_state = do
    generate_key os errors granting_key_path
    bootstrap os errors json base_url f.is_token f.build_tls_csr "renew-keygrant"
    converge_downloads
    converge_keys
