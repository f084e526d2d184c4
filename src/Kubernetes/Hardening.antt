-- ===== src/Kubernetes/Hardening.antt =====
-- What the launchers of platform/kubernetes run, and when they do not.
use homeworld.Common.{
  String, ◌≡◌, refl, inl, inr, Bool, true, false, not, ◌&&◌, ◌||◌, Option, none, some, List, [],
  ◌∷◌, arith, ◌==◌, eq_refl, ltb, if◌then◌else◌, Bool-cases, Error, Result, guard,
}
use homeworld.Common.Dict.{AllValues}
use homeworld.Common.Effects.{Effect, ◌>>=◌, ◌>>◌, give, ask, wrapping, Keeps, >>=-Keeps}
use homeworld.Kubernetes.{
  Machine, Cluster, KubeConfig, kube_config, setting, kubernetes_ca_path, get_cluster_conf,
  get_local_conf, get_api_server, generate_kube_config_to_file,
}
use homeworld.Kubernetes.Launch.{
  kube_config_path, get_verbosity_argument, run_with_verbosity, launch_api_server,
  launch_controller_manager, launch_proxy, launch_scheduler, api_server_command, proxy_command,
  scheduler_command, controller_manager_command, checked,
}
use homeworld.Kubernetes.Kubelet.{
  kubelet_command, start_kubelet, check_dns, launch_kubelet, launch_service,
}

-- One of the arguments is the name, and the value comes next.
abbrev pub follows : String → String → List String → Bool
follows name text [] = false
follows name text (a ∷ []) = false
follows name text (a ∷ b ∷ args) = follows name text (b ∷ args) || (a == name && b == text)

abbrev pub has_argument : String → List String → Bool
has_argument name [] = false
has_argument name (a ∷ args) = has_argument name args || (a == name)

module _ {W : Type 0} (machine : Machine W) where
  -- What is demanded of a command: the API server has no anonymous and no insecure access, checks
  -- client certificates and roles, and advertises an address; the kubelet has no anonymous access and
  -- checks client certificates; the others use a kubeconfig of their own.
  pub data IsHardened : List String → Type 0 where
    api_server :
        (args : List String) (host_ip : String)
        → follows "/usr/bin/hyperkube" "kube-apiserver" args ≡ true
        → follows "--authorization-mode" "Node,RBAC" args ≡ true
        → follows "--anonymous-auth" "false" args ≡ true
        → follows "--insecure-port" "0" args ≡ true
        → follows "--client-ca-file" kubernetes_ca_path args ≡ true
        → machine.parses_as_ip host_ip ≡ true
        → follows "--advertise-address" host_ip args ≡ true
        → IsHardened args
    kubelet :
        (args : List String) (service_dns : String)
        → follows "/usr/bin/hyperkube" "kubelet" args ≡ true
        → has_argument "--anonymous-auth=false" args ≡ true
        → follows "--client-ca-file" kubernetes_ca_path args ≡ true
        → machine.parses_as_ip service_dns ≡ true
        → follows "--cluster-dns" service_dns args ≡ true
        → IsHardened args
    with_kube_config :
        (args : List String) (program suffix : String)
        → follows "/usr/bin/hyperkube" program args ≡ true
        → follows "--kubeconfig" (kube_config_path suffix) args ≡ true
        → has_argument program ("kube-controller-manager" ∷ "kube-proxy" ∷ "kube-scheduler" ∷ [])
          ≡ true
        → IsHardened args

  api_server_command-IsHardened :
      (apiserver_count host_ip service_cidr etcd_endpoints verbosity : String)
      → machine.parses_as_ip host_ip ≡ true
      → IsHardened
          (api_server_command apiserver_count host_ip service_cidr etcd_endpoints verbosity)
  api_server_command-IsHardened n host_ip cidr etcd v h =
      api_server _ host_ip (ground arith) (ground arith) refl refl refl h
        (ground (arith, eq_refl host_ip))

  kubelet_command-IsHardened :
      (schedule_work : Bool) (service_dns cluster_domain verbosity : String)
      → machine.parses_as_ip service_dns ≡ true
      → IsHardened (kubelet_command schedule_work service_dns cluster_domain verbosity)
  kubelet_command-IsHardened b dns domain v h =
      kubelet _ dns (ground arith) (ground arith) (ground arith) h (ground (arith, eq_refl dns))

  controller_manager_command-IsHardened :
      (cluster_cidr service_cidr verbosity : String)
      → IsHardened (controller_manager_command cluster_cidr service_cidr verbosity)
  controller_manager_command-IsHardened cluster service v =
      with_kube_config _ "kube-controller-manager" "controller-manager" (ground arith)
        (ground arith) refl

  proxy_command-IsHardened : (verbosity : String) → IsHardened (proxy_command verbosity)
  proxy_command-IsHardened v =
      with_kube_config _ "kube-proxy" "proxy" (ground arith) (ground arith) refl

  scheduler_command-IsHardened : (verbosity : String) → IsHardened (scheduler_command verbosity)
  scheduler_command-IsHardened v =
      with_kube_config _ "kube-scheduler" "scheduler" (ground arith) (ground arith) refl

  module _ (P : W → Type 0)
      (writes : (config : KubeConfig) (path : String)
        → AllValues (λ (c : Cluster). c.certificate_authority ≡ kubernetes_ca_path) config.clusters
        → Keeps P (machine.write_kube_config config path))
      (runs : (args : List String) → IsHardened args → Keeps P (machine.run args)) where
    run_with_verbosity-Keeps :
        (failure : String) (command : String → List String)
        → ((verbosity : String) → IsHardened (command verbosity))
        → Keeps P (run_with_verbosity machine failure command)
    run_with_verbosity-Keeps failure command h w p =
        runs _ (h (get_verbosity_argument machine w)) w p

    -- A step that only reads, and one that only tests.
    reading-Keeps :
        {A B : Type 0} (text : String) (reads : W → Result A) (rest : A → Effect W B)
        → ((a : A) → Keeps P (rest a))
        → Keeps P (wrapping (machine.wrap text) (ask reads) >>= rest)
    reading-Keeps text reads rest h =
        >>=-Keeps P (wrapping (machine.wrap text) (ask reads)) rest (λ w p. p) h

    checked-Keeps :
        (text : String) (e : Option Error) (rest : Effect W (Unit {0}))
        → Keeps P rest
        → Keeps P (checked machine text e >> rest)
    checked-Keeps text none rest h = h
    checked-Keeps text (some e) rest h = λ w p. p

    guarded-Keeps :
        (test : Bool) (why : Error) (rest : Effect W (Unit {0}))
        → (test ≡ true → Keeps P rest)
        → Keeps P (give (guard test why) >> rest)
    guarded-Keeps true why rest h = h refl
    guarded-Keeps false why rest h = λ w p. p

    branch-Keeps :
        (test : Bool) (first second : Effect W (Unit {0}))
        → Keeps P first
        → Keeps P second
        → Keeps P (if test then first else second)
    branch-Keeps true first second h k = h
    branch-Keeps false first second h k = k

    get_api_server-Keeps : Keeps P (get_api_server machine)
    unfolding get_api_server
    get_api_server-Keeps = >>=-Keeps P (ask (get_cluster_conf machine)) _ (λ w p. p) (λ kvs w p. p)

    generate-Keeps :
        (keypath certpath filename : String)
        → Keeps P (generate_kube_config_to_file machine keypath certpath filename)
    unfolding generate_kube_config_to_file
    generate-Keeps keypath certpath filename =
        >>=-Keeps P (get_api_server machine) _ get_api_server-Keeps
          λ apiserver. writes (kube_config apiserver keypath certpath) filename (refl, tt)

    with_kube_config-Keeps :
        (keypath certpath filename failure : String) (command : String → List String)
        → ((verbosity : String) → IsHardened (command verbosity))
        → Keeps P (
            generate_kube_config_to_file machine keypath certpath filename
            >> run_with_verbosity machine failure command)
    with_kube_config-Keeps keypath certpath filename failure command h =
        >>=-Keeps P (generate_kube_config_to_file machine keypath certpath filename)
          (λ _. run_with_verbosity machine failure command)
          (generate-Keeps keypath certpath filename)
          (λ _. run_with_verbosity-Keeps failure command h)

    launch_api_server-Keeps : Keeps P (launch_api_server machine)
    unfolding launch_api_server
    launch_api_server-Keeps =
        reading-Keeps "while loading cluster.conf" (get_cluster_conf machine) _ λ cluster_conf.
          reading-Keeps "while loading local.conf" (get_local_conf machine) _ λ local_conf.
            checked-Keeps "while validating APISERVER_COUNT"
              (machine.parse_uint32 (setting "APISERVER_COUNT" cluster_conf)) _
              (checked-Keeps "while parsing SERVICE_CIDR"
                (machine.parse_cidr (setting "SERVICE_CIDR" cluster_conf)) _
                (guarded-Keeps (machine.parses_as_ip (setting "HOST_IP" local_conf)) _ _ λ ip.
                  guarded-Keeps
                    (not (ltb (machine.count (setting "ETCD_ENDPOINTS" cluster_conf) "://") 1)) _ _
                    λ _.
                      let command =
                        api_server_command (setting "APISERVER_COUNT" cluster_conf)
                          (setting "HOST_IP" local_conf) (setting "SERVICE_CIDR" cluster_conf)
                          (setting "ETCD_ENDPOINTS" cluster_conf) in
                      run_with_verbosity-Keeps "while running apiserver" command λ v.
                        api_server_command-IsHardened (setting "APISERVER_COUNT" cluster_conf)
                          (setting "HOST_IP" local_conf) (setting "SERVICE_CIDR" cluster_conf)
                          (setting "ETCD_ENDPOINTS" cluster_conf) v ip))

    launch_controller_manager-Keeps : Keeps P (launch_controller_manager machine)
    unfolding launch_controller_manager
    launch_controller_manager-Keeps =
        reading-Keeps "while loading cluster.conf" (get_cluster_conf machine) _ λ cluster_conf.
          checked-Keeps "while parsing SERVICE_CIDR"
            (machine.parse_cidr (setting "SERVICE_CIDR" cluster_conf)) _
            (checked-Keeps "while parsing CLUSTER_CIDR"
              (machine.parse_cidr (setting "CLUSTER_CIDR" cluster_conf)) _
              (with_kube_config-Keeps _ _ _ "while running controller-manager"
                (controller_manager_command (setting "CLUSTER_CIDR" cluster_conf)
                  (setting "SERVICE_CIDR" cluster_conf))
                (controller_manager_command-IsHardened (setting "CLUSTER_CIDR" cluster_conf)
                  (setting "SERVICE_CIDR" cluster_conf))))

    launch_proxy-Keeps : Keeps P (launch_proxy machine)
    unfolding launch_proxy
    launch_proxy-Keeps =
        with_kube_config-Keeps _ _ _ "while running proxy" proxy_command proxy_command-IsHardened

    launch_scheduler-Keeps : Keeps P (launch_scheduler machine)
    unfolding launch_scheduler
    launch_scheduler-Keeps =
        with_kube_config-Keeps _ _ _ "while running scheduler" scheduler_command
          scheduler_command-IsHardened

    start_kubelet-Keeps :
        (service_dns cluster_domain schedule_work : String)
        → machine.parses_as_ip service_dns ≡ true
        → Keeps P (start_kubelet machine service_dns cluster_domain schedule_work)
    start_kubelet-Keeps dns domain work ip =
        reading-Keeps "while parsing SCHEDULE_WORK" (λ w. machine.parse_bool work) _
          λ schedulable.
            with_kube_config-Keeps _ _ _ "while running kubelet"
              (kubelet_command schedulable dns domain)
              λ v. kubelet_command-IsHardened schedulable dns domain v ip

    check_dns-Keeps :
        (service_dns cluster_domain schedule_work : String)
        → Keeps P (check_dns machine service_dns cluster_domain schedule_work)
    check_dns-Keeps dns domain work = elim (Bool-cases (machine.parses_as_ip dns)) [
      | inr bad ↦ rw bad (λ w p. p)
      | inl ip ↦ rw ip (elim (Bool-cases (ltb (machine.count domain ".") 1)) [
        | inl bad ↦ rw bad (λ w p. p)
        | inr fine ↦ rw fine (start_kubelet-Keeps dns domain work ip)
      ])
    ]

    launch_kubelet-Keeps : Keeps P (launch_kubelet machine)
    unfolding launch_kubelet
    launch_kubelet-Keeps =
        reading-Keeps "while loading cluster.conf" (get_cluster_conf machine) _ λ cluster_conf.
          reading-Keeps "while loading cluster.conf" (get_local_conf machine) _
            λ local_conf. check_dns-Keeps _ _ _

    -- Whatever service is asked for and however it ends, the launcher runs hardened commands alone, and
    -- writes kubeconfigs alone in which every cluster is checked against the authority of the
    -- deployment: what these keep, it keeps.
    pub launch_service-Keeps : (name : String) → Keeps P (launch_service machine name)
    unfolding launch_service
    launch_service-Keeps name = branch-Keeps (name == "apiserver") _ _ launch_api_server-Keeps (
        branch-Keeps (name == "controller-manager") _ _ launch_controller_manager-Keeps (
          branch-Keeps (name == "kubelet") _ _ launch_kubelet-Keeps (
            branch-Keeps (name == "proxy") _ _ launch_proxy-Keeps
              (branch-Keeps (name == "scheduler") _ _ launch_scheduler-Keeps (λ w p. p)))))
