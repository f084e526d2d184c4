-- ===== src/Kubernetes/Deploy.antt =====
-- platform/setup-queue/deploy.go, which applies the manifests of a directory one after another, and
-- platform/kube-state-metrics/launch.go. What is logged is left out.
use homeworld.Common.{String, List, [], ◌∷◌, Result, ok}
use homeworld.Common.Effects.{Effect, ◌>>=◌, ◌>>◌, give, ask}
use homeworld.Kubernetes.{Machine, generate_kube_config_to_file}

-- `ioutil.ReadDir` by the names that it lists, `path.Join` and `os.Remove`.
pub record Directory (W : Type 0) : Type 0 where
  pub read_dir : String → W → Result (List String)
  pub join : String → String → String
  pub remove : String → Effect W (Unit {0})

abbrev pub supervisor_key : String
supervisor_key = "/etc/homeworld/keys/kubernetes-supervisor.key"

abbrev pub supervisor_cert : String
supervisor_cert = "/etc/homeworld/keys/kubernetes-supervisor.pem"

abbrev pub setup_queue_config : String
setup_queue_config = "/etc/homeworld/config/kubeconfig-setup-queue"

abbrev pub state_metrics_config : String
state_metrics_config = "/etc/homeworld/config/kubeconfig-kube-state-metrics"

abbrev pub apply_command : String → String → List String
apply_command kubeconfig file =
    "hyperkube" ∷ "kubectl" ∷ "apply" ∷ "--kubeconfig" ∷ kubeconfig ∷ "-f" ∷ file ∷ []

abbrev pub state_metrics_command : String → String → String → List String
state_metrics_command kubeconfig port metaport =
    "/usr/bin/kube-state-metrics" ∷ "--kubeconfig" ∷ kubeconfig ∷ "--port" ∷ port
    ∷ "--telemetry-port" ∷ metaport ∷ []

module _ {W : Type 0} (machine : Machine W) where
  unfoldable pub deploy_single : String → String → Effect W (Unit {0})
  deploy_single kubeconfig file = machine.run (apply_command kubeconfig file)

  -- The ports are 9104 and 9105, which `strconv` writes in decimal.
  unfoldable pub launch_ksm : String → Effect W (Unit {0})
  launch_ksm kubeconfig = machine.run (state_metrics_command kubeconfig "9104" "9105")

  unfoldable pub configure_and_launch : Effect W (Unit {0})
  unfolding launch_ksm generate_kube_config_to_file
  configure_and_launch = do
    generate_kube_config_to_file machine supervisor_key supervisor_cert state_metrics_config
    launch_ksm state_metrics_config

  module _ (directory : Directory W) where
    open directory use {join, remove}

    -- The body of the loop.
    unfoldable pub deploy_file : String → String → Effect W (Unit {0})
    unfolding deploy_single
    deploy_file dir file = do
      let name = join dir file
      deploy_single setup_queue_config name
      remove name

    unfoldable pub deploy_files : String → List String → Effect W (Unit {0})
    unfolding deploy_file
    deploy_files dir [] = give (ok tt)
    deploy_files dir (file ∷ files) = do deploy_file dir file; deploy_files dir files

    abbrev pub deploy_listed : String → List String → Effect W (Unit {0})
    deploy_listed dir [] = give (ok tt)
    deploy_listed dir (file ∷ files) = do
      generate_kube_config_to_file machine supervisor_key supervisor_cert setup_queue_config
      deploy_files dir (file ∷ files)

    unfoldable pub deploy_all : String → Effect W (Unit {0})
    unfolding deploy_files generate_kube_config_to_file
    deploy_all dir = do files ← ask (directory.read_dir dir); deploy_listed dir files
