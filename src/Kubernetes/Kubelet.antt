-- ===== src/Kubernetes/Kubelet.antt =====
-- platform/kubernetes/launch.go: `LaunchKubelet`, and the choice of a service.
use Prim.Native.String.{◌++◌ as str_append}
use homeworld.Common.{
  String, Bool, true, false, not, none, List, [], ◌∷◌, ◌==◌, ltb, if◌then◌else◌, message, err,
}
use homeworld.Common.Effects.{Effect, ◌>>=◌, ◌>>◌, give, ask, wrapping}
use homeworld.Kubernetes.{
  Machine, setting, kubernetes_ca_path, get_cluster_conf, get_local_conf,
  generate_kube_config_to_file,
}
use homeworld.Kubernetes.Launch.{
  kube_config_path, wrap_error, get_verbosity_argument, run_with_verbosity, launch_api_server,
  launch_controller_manager, launch_proxy, launch_scheduler,
}

-- `strconv.FormatBool`
abbrev pub format_bool : Bool → String
format_bool true = "true"
format_bool false = "false"

abbrev pub worker_key : String
worker_key = "/etc/homeworld/keys/kubernetes-worker.key"

abbrev pub worker_cert : String
worker_cert = "/etc/homeworld/keys/kubernetes-worker.pem"

abbrev pub kubelet_command : Bool → String → String → String → List String
kubelet_command schedule_work service_dns cluster_domain verbosity =
    "/usr/bin/hyperkube"
    ∷ "kubelet"
    ∷ "--kubeconfig"
    ∷ kube_config_path "kubelet"
    ∷ str_append "--register-schedulable=" (format_bool schedule_work)
    ∷ "--anonymous-auth=false"
    ∷ "--tls-cert-file"
    ∷ worker_cert
    ∷ "--tls-private-key-file"
    ∷ worker_key
    ∷ "--client-ca-file"
    ∷ kubernetes_ca_path
    ∷ "--cloud-provider="
    ∷ "--container-runtime"
    ∷ "remote"
    ∷ "--container-runtime-endpoint"
    ∷ "unix:///var/run/crio/crio.sock"
    ∷ "--cluster-dns"
    ∷ service_dns
    ∷ "--cluster-domain"
    ∷ cluster_domain
    ∷ verbosity
    ∷ []

module _ {W : Type 0} (machine : Machine W) where
  open machine use {wrap}

  -- What follows the tests that end the function early.
  abbrev pub start_kubelet : String → String → String → Effect W (Unit {0})
  start_kubelet service_dns cluster_domain schedule_work = do
    schedulable ←
        wrapping (wrap "while parsing SCHEDULE_WORK") (give (machine.parse_bool schedule_work))
    generate_kube_config_to_file machine worker_key worker_cert (kube_config_path "kubelet")
    run_with_verbosity machine "while running kubelet"
        (kubelet_command schedulable service_dns cluster_domain)

  -- Where a test fails, the source wraps the error of the call before, which is nil there.
  abbrev pub check_domain : String → String → String → Effect W (Unit {0})
  check_domain service_dns cluster_domain schedule_work =
      if ltb (machine.count cluster_domain ".") 1
      then give (wrap_error wrap "while validating CLUSTER_DOMAIN" none)
      else start_kubelet service_dns cluster_domain schedule_work

  abbrev pub check_dns : String → String → String → Effect W (Unit {0})
  check_dns service_dns cluster_domain schedule_work =
      if not (machine.parses_as_ip service_dns)
      then give (wrap_error wrap "while parsing SERVICE_DNS" none)
      else check_domain service_dns cluster_domain schedule_work

  unfoldable pub launch_kubelet : Effect W (Unit {0})
  unfolding get_cluster_conf get_local_conf generate_kube_config_to_file get_verbosity_argument
  launch_kubelet = do
    cluster_conf ← wrapping (wrap "while loading cluster.conf") (ask (get_cluster_conf machine))
    local_conf ← wrapping (wrap "while loading cluster.conf") (ask (get_local_conf machine))
    check_dns (setting "SERVICE_DNS" cluster_conf) (setting "CLUSTER_DOMAIN" cluster_conf)
        (setting "SCHEDULE_WORK" local_conf)

  unfoldable pub launch_service : String → Effect W (Unit {0})
  unfolding launch_api_server launch_controller_manager launch_proxy launch_scheduler launch_kubelet
  launch_service name =
      if name == "apiserver"
      then launch_api_server machine
      else if name == "controller-manager"
      then launch_controller_manager machine
      else if name == "kubelet"
      then launch_kubelet
      else if name == "proxy"
      then launch_proxy machine
      else if name == "scheduler"
      then launch_scheduler machine
      else give (err (message "no such service %s"))
