-- ===== src/Kubernetes/Launch.antt =====
-- platform/kubernetes/launch.go: the commands of the API server, the controller manager, the proxy
-- and the scheduler. What is logged is left out.
use Prim.Native.String.{◌++◌ as str_append}
use homeworld.Common.{
  String, not, Option, none, some, List, [], ◌∷◌, ltb, Error, message, Result, ok, err, panic,
  guard,
}
use homeworld.Common.Effects.{Effect, ◌>>=◌, ◌>>◌, give, ask, wrapping}
use homeworld.Kubernetes.{
  Machine, setting, kubernetes_ca_path, get_cluster_conf, get_local_conf,
  generate_kube_config_to_file,
}

abbrev pub kube_config_path : String → String
kube_config_path suffix = str_append "/etc/homeworld/config/kubeconfig-" suffix

abbrev pub admission_control : String
admission_control =
    "NamespaceLifecycle,LimitRanger,ServiceAccount,TaintNodesByCondition,Priority,DefaultTolerationSeconds,DefaultStorageClass,StorageObjectInUseProtection,PersistentVolumeClaimResize,MutatingAdmissionWebhook,ValidatingAdmissionWebhook,RuntimeClass,ResourceQuota,DenyEscalatingExec,SecurityContextDeny,NodeRestriction"

abbrev pub master_cert : String
master_cert = "/etc/homeworld/keys/kubernetes-master.pem"

abbrev pub master_key : String
master_key = "/etc/homeworld/keys/kubernetes-master.key"

-- The arguments of `exec.Command`, the program first.
abbrev pub api_server_command : String → String → String → String → String → List String
api_server_command apiserver_count host_ip service_cidr etcd_endpoints verbosity =
    "/usr/bin/hyperkube" ∷ "kube-apiserver" ∷ "--authorization-mode" ∷ "Node,RBAC"
    ∷ "--apiserver-count" ∷ apiserver_count ∷ "--bind-address" ∷ "0.0.0.0" ∷ "--advertise-address"
    ∷ host_ip ∷ "--service-cluster-ip-range" ∷ service_cidr ∷ "--secure-port" ∷ "443"
    ∷ "--etcd-servers" ∷ etcd_endpoints ∷ "--allow-privileged" ∷ "true" ∷ "--anonymous-auth"
    ∷ "false" ∷ "--admission-control" ∷ admission_control ∷ "--client-ca-file" ∷ kubernetes_ca_path
    ∷ "--tls-cert-file" ∷ master_cert ∷ "--tls-private-key-file" ∷ master_key
    ∷ "--service-account-lookup" ∷ "--cloud-provider=" ∷ "--etcd-cafile"
    ∷ "/etc/homeworld/authorities/etcd-server.pem" ∷ "--etcd-certfile"
    ∷ "/etc/homeworld/keys/etcd-client.pem" ∷ "--etcd-keyfile"
    ∷ "/etc/homeworld/keys/etcd-client.key" ∷ "--insecure-port" ∷ "0"
    ∷ "--kubelet-certificate-authority" ∷ kubernetes_ca_path ∷ "--kubelet-client-certificate"
    ∷ master_cert ∷ "--kubelet-client-key" ∷ master_key ∷ "--service-account-key-file"
    ∷ "/etc/homeworld/keys/serviceaccount.key" ∷ verbosity ∷ []

abbrev pub controller_manager_command : String → String → String → List String
controller_manager_command cluster_cidr service_cidr verbosity =
    "/usr/bin/hyperkube"
    ∷ "kube-controller-manager"
    ∷ "--kubeconfig"
    ∷ kube_config_path "controller-manager"
    ∷ "--cluster-cidr"
    ∷ cluster_cidr
    ∷ "--node-cidr-mask-size"
    ∷ "24"
    ∷ "--service-cluster-ip-range"
    ∷ service_cidr
    ∷ "--cluster-name"
    ∷ "hyades"
    ∷ "--leader-elect"
    ∷ "--allocate-node-cidrs"
    ∷ "--use-service-account-credentials"
    ∷ "--service-account-private-key-file"
    ∷ "/etc/homeworld/keys/serviceaccount.key"
    ∷ "--root-ca-file"
    ∷ "/etc/homeworld/authorities/kubernetes.pem"
    ∷ verbosity
    ∷ []

abbrev pub proxy_command : String → List String
proxy_command verbosity =
    "/usr/bin/hyperkube"
    ∷ "kube-proxy"
    ∷ "--kubeconfig"
    ∷ kube_config_path "proxy"
    ∷ "--config-sync-period"
    ∷ "1m"
    ∷ verbosity
    ∷ []

abbrev pub scheduler_command : String → List String
scheduler_command verbosity =
    "/usr/bin/hyperkube"
    ∷ "kube-scheduler"
    ∷ "--kubeconfig"
    ∷ kube_config_path "scheduler"
    ∷ "--leader-elect"
    ∷ verbosity
    ∷ []

-- `errors.Wrap`, which gives nil for a nil error, as the result of a function.
abbrev pub wrap_error : (String → Error → Error) → String → Option Error → Result (Unit {0})
wrap_error wrap text none = ok tt
wrap_error wrap text (some e) = err (wrap text e)

module _ {W : Type 0} (machine : Machine W) where
  open machine use {wrap, run}

  abbrev parsed_verbosity : String → Option Error → String
  parsed_verbosity verbosity none = str_append "--v=" verbosity
  parsed_verbosity verbosity (some e) = "--v=0"

  abbrev verbosity_of : Result String → String
  verbosity_of (ok contents) =
      parsed_verbosity (machine.trim_space contents)
        (machine.parse_uint32 (machine.trim_space contents))
  verbosity_of (err e) = "--v=0"
  verbosity_of (panic t) = "--v=0"

  unfoldable pub get_verbosity_argument : W → String
  get_verbosity_argument w = verbosity_of (machine.read_file "/etc/homeworld/config/verbosity" w)

  -- The command is started with the verbosity that is set then, and waited for.
  abbrev pub run_with_verbosity : String → (String → List String) → Effect W (Unit {0})
  run_with_verbosity failure command w =
      wrapping (wrap failure) (run (command (get_verbosity_argument w))) w

  -- `if err != nil { return errors.Wrap(err, text) }`
  abbrev pub checked : String → Option Error → Effect W (Unit {0})
  checked text e = give (wrap_error wrap text e)

  unfoldable pub launch_api_server : Effect W (Unit {0})
  unfolding get_cluster_conf get_local_conf get_verbosity_argument
  launch_api_server = do
    cluster_conf ← wrapping (wrap "while loading cluster.conf") (ask (get_cluster_conf machine))
    local_conf ← wrapping (wrap "while loading local.conf") (ask (get_local_conf machine))
    let apiserver_count = setting "APISERVER_COUNT" cluster_conf
    checked "while validating APISERVER_COUNT" (machine.parse_uint32 apiserver_count)
    let service_cidr = setting "SERVICE_CIDR" cluster_conf
    checked "while parsing SERVICE_CIDR" (machine.parse_cidr service_cidr)
    let host_ip = setting "HOST_IP" local_conf
    give (guard (machine.parses_as_ip host_ip) (message "invalid IP '%s'"))
    let etcd_endpoints = setting "ETCD_ENDPOINTS" cluster_conf
    give (
        guard (not (ltb (machine.count etcd_endpoints "://") 1))
          (message "missing or invalid ETCD_ENDPOINTS: '%s'"))
    run_with_verbosity "while running apiserver"
        (api_server_command apiserver_count host_ip service_cidr etcd_endpoints)

  unfoldable pub launch_controller_manager : Effect W (Unit {0})
  unfolding get_cluster_conf generate_kube_config_to_file get_verbosity_argument
  launch_controller_manager = do
    cluster_conf ← wrapping (wrap "while loading cluster.conf") (ask (get_cluster_conf machine))
    let service_cidr = setting "SERVICE_CIDR" cluster_conf
    checked "while parsing SERVICE_CIDR" (machine.parse_cidr service_cidr)
    let cluster_cidr = setting "CLUSTER_CIDR" cluster_conf
    checked "while parsing CLUSTER_CIDR" (machine.parse_cidr cluster_cidr)
    generate_kube_config_to_file machine "/etc/homeworld/keys/kubernetes-ctrl-mgr.key"
        "/etc/homeworld/keys/kubernetes-ctrl-mgr.pem" (kube_config_path "controller-manager")
    run_with_verbosity "while running controller-manager"
        (controller_manager_command cluster_cidr service_cidr)

  unfoldable pub launch_proxy : Effect W (Unit {0})
  unfolding generate_kube_config_to_file get_verbosity_argument
  launch_proxy = do
    generate_kube_config_to_file machine "/etc/homeworld/keys/kubernetes-proxy.key"
        "/etc/homeworld/keys/kubernetes-proxy.pem" (kube_config_path "proxy")
    run_with_verbosity "while running proxy" proxy_command

  unfoldable pub launch_scheduler : Effect W (Unit {0})
  unfolding generate_kube_config_to_file get_verbosity_argument
  launch_scheduler = do
    generate_kube_config_to_file machine "/etc/homeworld/keys/kubernetes-scheduler.key"
        "/etc/homeworld/keys/kubernetes-scheduler.pem" (kube_config_path "scheduler")
    run_with_verbosity "while running scheduler" scheduler_command
