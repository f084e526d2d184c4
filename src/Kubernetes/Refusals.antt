-- ===== src/Kubernetes/Refusals.antt =====
-- When the API server and the kubelet of platform/kubernetes/launch.go are not started.
use homeworld.Common.{
  ◌≤◌, String, ◌≡◌, refl, ◌⊎◌, inl, inr, true, none, arith, Bool-cases, Option-cases, ok, IsErr,
}
use homeworld.Common.Dict.{Dict}
use homeworld.Kubernetes.{Machine, setting, get_cluster_conf, get_local_conf}
use homeworld.Kubernetes.Launch.{run_with_verbosity, launch_api_server, api_server_command}

module _ {W : Type 0} (machine : Machine W) where
  -- The settings of the API server are usable.
  abbrev pub IsUsable : Dict String → Dict String → Type 0
  IsUsable cluster_conf local_conf =
      (machine.parse_uint32 (setting "APISERVER_COUNT" cluster_conf) ≡ none)
      × (machine.parse_cidr (setting "SERVICE_CIDR" cluster_conf) ≡ none)
      × (machine.parses_as_ip (setting "HOST_IP" local_conf) ≡ true)
      × (1 ≤ machine.count (setting "ETCD_ENDPOINTS" cluster_conf) "://")

  -- Where the two configuration files are read, the API server is started with their settings if
  -- these are usable, and its error is that of the process. If they are not, an error is returned and
  -- nothing was done.
  pub launch_api_server_cases :
      (cluster_conf local_conf : Dict String) (w : W)
      → get_cluster_conf machine w ≡ ok cluster_conf
      → get_local_conf machine w ≡ ok local_conf
      → (IsUsable cluster_conf local_conf
          × (launch_api_server machine w
              ≡ run_with_verbosity machine "while running apiserver"
                  (api_server_command
                    (setting "APISERVER_COUNT" cluster_conf)
                    (setting "HOST_IP" local_conf)
                    (setting "SERVICE_CIDR" cluster_conf)
                    (setting "ETCD_ENDPOINTS" cluster_conf))
                  w))
        ⊎ (¬ IsUsable cluster_conf local_conf
            × IsErr (launch_api_server machine w).0
            × ((launch_api_server machine w).1 ≡ w))
  unfolding launch_api_server
  launch_api_server_cases cluster_conf local_conf w c l =
      rw (c, l)
        (elim (Option-cases (machine.parse_uint32 (setting "APISERVER_COUNT" cluster_conf))) [
          | inr (e, bad) ↦ rw bad (inr (λ u. let k = u.0 in cc, tt, refl))
          | inl count ↦
              rw count
                (elim (Option-cases (machine.parse_cidr (setting "SERVICE_CIDR" cluster_conf))) [
                  | inr (e, bad) ↦ rw bad (inr (λ u. let k = u.1 in cc, tt, refl))
                  | inl cidr ↦
                      rw cidr
                        (elim (Bool-cases (machine.parses_as_ip (setting "HOST_IP" local_conf))) [
                          | inr bad ↦ rw bad (inr (λ u. let k = u.2 in cc, tt, refl))
                          | inl ip ↦ rw ip (ground arith)
                        ])
                ])
        ])
