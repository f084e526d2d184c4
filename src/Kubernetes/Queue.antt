-- ===== src/Kubernetes/Queue.antt =====
-- That the setup queue, platform/setup-queue/deploy.go, forgets no manifest that it has not applied.
use homeworld.Common.{
  String, ◌≡◌, refl, subst, ◌⊎◌, inl, inr, List, [], ◌∷◌, Result, ok, err, panic,
}
use homeworld.Common.Effects.{ask, Keeps, >>=-Keeps, and_then}
use homeworld.Kubernetes.{
  Machine, generate_kube_config_to_file, KubeConfig, get_api_server, get_cluster_conf,
  generate_kube_config_for_api_server_to_file,
}
use homeworld.Kubernetes.Deploy.{
  Directory, apply_command, setup_queue_config, supervisor_key, supervisor_cert, deploy_single,
  deploy_file, deploy_files, deploy_listed, deploy_all,
}

-- The command that applies the manifest at a path.
abbrev pub kubectl_apply : String → List String
kubectl_apply path =
    "hyperkube" ∷ "kubectl" ∷ "apply" ∷ "--kubeconfig"
    ∷ "/etc/homeworld/config/kubeconfig-setup-queue" ∷ "-f" ∷ path ∷ []

-- `Applied path w`: the manifest at this path was applied. `Queued file w`: it stands in the directory.
-- What `kubectl apply` does: if it succeeds it has applied its manifest, it takes back no other, and it
-- leaves the directory as it is, which the writing of the kubeconfig also does. A removal in the
-- directory takes away no other file and nothing that was applied. Nothing is said of other commands.
pub record IsQueue {W : Type 0} (machine : Machine W) (directory : Directory W) (dir : String)
    (Applied Queued : String → W → Type 0) : Type 1 where
  pub applies :
      (path : String) (w : W)
      → (machine.run (kubectl_apply path) w).0 ≡ ok tt
      → Applied path (machine.run (kubectl_apply path) w).1
  pub apply_applied :
      (other path : String) → Keeps (Applied path) (machine.run (kubectl_apply other))
  pub apply_queued : (other file : String) → Keeps (Queued file) (machine.run (kubectl_apply other))
  pub write_applied :
      (config : KubeConfig) (path : String)
      → Keeps
          (Applied path)
          (machine.write_kube_config config "/etc/homeworld/config/kubeconfig-setup-queue")
  pub write_queued :
      (config : KubeConfig) (file : String)
      → Keeps
          (Queued file)
          (machine.write_kube_config config "/etc/homeworld/config/kubeconfig-setup-queue")
  pub remove_applied :
      (removed path : String) → Keeps (Applied path) (directory.remove (directory.join dir removed))
  pub remove_queued :
      (removed file : String) (w : W)
      → Queued file w
      → (removed ≡ file) ⊎ Queued file (directory.remove (directory.join dir removed) w).1

module _ {W : Type 0} (machine : Machine W) (directory : Directory W) (dir : String)
    (Applied Queued : String → W → Type 0) where
  abbrev path_of : String → String
  path_of file = directory.join dir file

  -- A manifest that is not lost: it was applied, or it still stands in the directory.
  abbrev pub IsSafe : String → W → Type 0
  IsSafe file w = Applied (path_of file) w ⊎ Queued file w

  module _ (os : IsQueue machine directory dir Applied Queued) where
    apply-IsSafe : (other file : String) → Keeps (IsSafe file) (machine.run (kubectl_apply other))
    apply-IsSafe other file w (inl a) = inl (os.apply_applied other (path_of file) w a)
    apply-IsSafe other file w (inr q) = inr (os.apply_queued other file w q)

    write-IsSafe :
        (config : KubeConfig) (file : String)
        → Keeps (IsSafe file) (machine.write_kube_config config setup_queue_config)
    write-IsSafe config file w (inl a) = inl (os.write_applied config (path_of file) w a)
    write-IsSafe config file w (inr q) = inr (os.write_queued config file w q)

    -- Behind its own application, a removal is harmless.
    remove-IsSafe :
        (removed file : String) (w : W)
        → Applied (path_of removed) w
        → IsSafe file w
        → IsSafe file (directory.remove (path_of removed) w).1
    remove-IsSafe removed file w done (inl a) = inl (os.remove_applied removed (path_of file) w a)
    remove-IsSafe removed file w done (inr q) = elim (os.remove_queued removed file w q) [
      | inl same ↦ inl (
          os.remove_applied removed (path_of file) w (subst (λ f. Applied (path_of f) w) same done))
      | inr still ↦ inr still
    ]

    deploy_file-Keeps :
        (removed file : String) → Keeps (IsSafe file) (deploy_file machine directory dir removed)
    unfolding deploy_file deploy_single
    deploy_file-Keeps removed file w safe =
        applied (machine.run command w) (os.applies (path_of removed) w)
          (apply-IsSafe (path_of removed) file w safe)
      where
        command : List String
        command = apply_command setup_queue_config (path_of removed)

        applied :
            (r : Result (Unit {0}) × W)
            → (r.0 ≡ ok tt → Applied (path_of removed) r.1)
            → IsSafe file r.1
            → IsSafe file (and_then (λ _. directory.remove (path_of removed)) r).1
        applied (ok tt, v) done h = remove-IsSafe removed file v (done refl) h
        applied (err e, v) done h = h
        applied (panic t, v) done h = h

    deploy_files-Keeps :
        (files : List String) (file : String)
        → Keeps (IsSafe file) (deploy_files machine directory dir files)
    unfolding deploy_files
    deploy_files-Keeps [] file = λ w safe. safe
    deploy_files-Keeps (f ∷ files) file =
        >>=-Keeps (IsSafe file) (deploy_file machine directory dir f)
          (λ _. deploy_files machine directory dir files) (deploy_file-Keeps f file)
          (λ _. deploy_files-Keeps files file)

    generate-Keeps :
        (key cert file : String)
        → Keeps (IsSafe file) (generate_kube_config_to_file machine key cert setup_queue_config)
    unfolding generate_kube_config_to_file get_api_server
        generate_kube_config_for_api_server_to_file
    generate-Keeps key cert file =
        >>=-Keeps (IsSafe file) (get_api_server machine)
          (λ apiserver.
            generate_kube_config_for_api_server_to_file machine apiserver key cert
              setup_queue_config)
          (>>=-Keeps (IsSafe file) (ask (get_cluster_conf machine)) _ (λ w h. h) (λ a w h. h))
          (λ apiserver. write-IsSafe _ file)

    deploy_listed-Keeps :
        (files : List String) (file : String)
        → Keeps (IsSafe file) (deploy_listed machine directory dir files)
    deploy_listed-Keeps [] file = λ w safe. safe
    deploy_listed-Keeps (f ∷ files) file =
        >>=-Keeps (IsSafe file)
          (generate_kube_config_to_file machine supervisor_key supervisor_cert setup_queue_config)
          (λ _. deploy_files machine directory dir (f ∷ files))
          (generate-Keeps supervisor_key supervisor_cert file)
          (λ _. deploy_files-Keeps (f ∷ files) file)

    -- However a run of the queue ends, each manifest that stood in the directory was applied by then or
    -- stands there still. This is so if a `kubectl apply` that succeeds applies its manifest, applying
    -- one takes back no other and leaves the directory as it is, as the writing of the kubeconfig does,
    -- and a removal in the directory takes back nothing and takes away its own file alone.
    pub deploy_all-Keeps :
        (file : String) (w : W)
        → Queued file w
        → Applied (directory.join dir file) (deploy_all machine directory dir w).1
          ⊎ Queued file (deploy_all machine directory dir w).1
    unfolding deploy_all
    deploy_all-Keeps file w queued =
        >>=-Keeps (IsSafe file) (ask (directory.read_dir dir)) (deploy_listed machine directory dir)
          (λ v h. h) (λ files. deploy_listed-Keeps files file) w (inr queued)
