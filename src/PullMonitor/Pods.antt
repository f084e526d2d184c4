-- ===== src/PullMonitor/Pods.antt =====
-- platform/pull-monitor/pull-monitor/interact.go: pods and containers.
use Prim.Native.String.{◌++◌ as str_append}
use homeworld.Common.{
  ℕ, zero, suc, ◌-◌, String, Bool, true, false, not, Option, none, some, List, [], ◌∷◌, ◌==◌, eqb,
  if◌then◌else◌, Error, message, Result, ok, err, panic,
}
use homeworld.Common.Effects.{Effect, ◌>>=◌, ◌>>◌, and_then, give, wrapping}
use homeworld.PullMonitor.{
  PodSandboxConfig, ContainerConfig, pod, container, Host, error_of, run, with_removal, deferred,
  create_json_tempfile,
}

abbrev pub map_some : {A B : Type 0} → (A → B) → Option A → Option B
map_some f none = none
map_some f (some a) = some (f a)

abbrev pub pod_config : String → PodSandboxConfig
pod_config uid = record {
  metadata = record {
    name = "pullcheck-sandbox";
    uid = str_append "pullcheck-" uid;
    namespace = "pullcheck";
    attempt = 1;
  };
  log_directory = str_append "/tmp/pullcheck-logs/" (str_append uid "/");
}

abbrev pub container_config : String → List String → ContainerConfig
container_config image args = record {
  metadata_name = "pullcheck";
  image = image;
  command = args;
  args = [];
  log_path = "container.log";
}

module _ {W : Type 0} (host : Host W) where
  open host use {crictl, remove, wrap, append}

  -- `configpath` is removed again where the pod does not start; `errors.Errorf` drops the error of
  -- that.
  abbrev pub started : String → Result String × W → Result (String × String) × W
  started configpath (ok result, w) =
      let idstr = host.trim_space result in
      if not (eqb (host.byte_length idstr) 64)
      then (err (message "not a valid ID; not 64 characters long: %s"), (remove configpath w).1)
      else (ok (idstr, configpath), w)
  started configpath (err e, w) =
      let (e', w') = with_removal host configpath e w in (err (wrap "invoking runp" e'), w')
  started configpath (panic t, w) = (panic t, w)

  -- The ID of the pod, and the path of its configuration.
  unfoldable pub start_pod_sandbox : Effect W (String × String)
  unfolding create_json_tempfile
  start_pod_sandbox = do
    uid ← wrapping (wrap "generating UID") host.random_id
    configpath ←
        wrapping (wrap "creating pod config") (create_json_tempfile host (pod (pod_config uid)))
    λ w. started configpath (crictl ("runp" ∷ configpath ∷ []) w)

  unfoldable pub delete_pod_sandbox : String → Effect W (Unit {0})
  delete_pod_sandbox podid = do run host ("stopp" ∷ podid ∷ []); run host ("rmp" ∷ podid ∷ [])

  abbrev pub valid_id : String → Result String
  valid_id result =
      let idstr = host.trim_space result in
      if not (eqb (host.byte_length idstr) 64)
      then err (message "not a valid ID; not 64 characters long: %s")
      else ok idstr

  abbrev pub invoke_create : String → String → String → Effect W String
  invoke_create podid configpath podconfigpath = do
    result ←
        wrapping (wrap "invoking create")
          (crictl ("create" ∷ podid ∷ configpath ∷ podconfigpath ∷ []))
    give (valid_id result)

  unfoldable pub create_container : String → String → String → List String → Effect W String
  unfolding create_json_tempfile
  create_container image podconfigpath podid args = do
    configpath ←
        wrapping (wrap "creating container config")
          (create_json_tempfile host (container (container_config image args)))
    λ w. deferred host (remove configpath) (invoke_create podid configpath podconfigpath w)

  unfoldable pub start_container : String → Effect W (Unit {0})
  start_container containerid = run host ("start" ∷ containerid ∷ [])

  -- A response without a status makes the source dereference nil.
  abbrev pub inspected : Result (Option String) → Result Bool
  inspected (ok (some state)) =
      if state == "CONTAINER_RUNNING"
      then ok true
      else if state == "CONTAINER_EXITED"
      then ok false
      else err (message "unknown state: '%s'")
  inspected (ok none) = panic "invalid memory address or nil pointer dereference"
  inspected (err e) = err (wrap "reading inspection response" e)
  inspected (panic t) = panic t

  unfoldable pub is_container_running : String → Effect W Bool
  is_container_running containerid = do
    result ← wrapping (wrap "inspecting container") (crictl ("inspect" ∷ containerid ∷ []))
    give (inspected (host.decode_inspection result))

  unfoldable pub get_container_logs : String → Effect W String
  get_container_logs containerid = crictl ("logs" ∷ containerid ∷ [])

  -- The loop `for running`, for so many rounds; `none` where it would go on.
  abbrev pub on_poll :
      (W → Option (Result (Unit {0}) × W)) → Result Bool × W → Option (Result (Unit {0}) × W)
  on_poll again (ok true, w) = again w
  on_poll again (ok false, w) = some (ok tt, w)
  on_poll again (err e, w) = some (err (wrap "monitoring container" e), w)
  on_poll again (panic t, w) = some (panic t, w)

  unfoldable pub wait_for : ℕ → String → W → Option (Result (Unit {0}) × W)
  unfolding is_container_running
  wait_for zero containerid w = none
  wait_for (suc rounds) containerid w =
      on_poll (wait_for rounds containerid) (is_container_running containerid w)

  abbrev pub launch_container : String → String → String → List String → Effect W String
  launch_container image podconfigpath podid args = do
    containerid ←
        wrapping (wrap "creating container") (create_container image podconfigpath podid args)
    wrapping (wrap "starting container") (start_container containerid)
    give (ok containerid)

  -- The result of the loop, if it ends, goes on to the logs.
  abbrev pub read_logs : String → Result (Unit {0}) × W → Result String × W
  read_logs containerid =
      and_then λ _. wrapping (wrap "read logs from container") (get_container_logs containerid)

  abbrev pub wait_and_read : ℕ → Result String × W → Option (Result String × W)
  wait_and_read rounds (ok containerid, w) =
      map_some (read_logs containerid) (wait_for rounds containerid w)
  wait_and_read rounds (err e, w) = some (err e, w)
  wait_and_read rounds (panic t, w) = some (panic t, w)

  unfoldable pub run_container :
      ℕ → String → String → String → List String → W → Option (Result String × W)
  unfolding create_container start_container wait_for get_container_logs
  run_container rounds image podconfigpath podid args w =
      wait_and_read rounds (launch_container image podconfigpath podid args w)

  abbrev pub add_deletion : {A : Type 0} → String → Option Error → Result A → Result A
  add_deletion text none r = r
  add_deletion text (some e) (ok x) = err (append none (some (wrap text e)))
  add_deletion text (some e) (err e1) = err (append (some e1) (some (wrap text e)))
  add_deletion text (some e) (panic t) = panic t

  -- The sandbox is deleted unless the container panicked, and the configuration is removed always.
  abbrev pub delete_after : String → Result String × W → Result String × W
  delete_after podid (panic t, w) = (panic t, w)
  delete_after podid (ok result, w) =
      let (deleted, w') = delete_pod_sandbox podid w in
      (add_deletion "deleting pod sandbox" (error_of deleted) (ok result), w')
  delete_after podid (err e, w) =
      let (deleted, w') = delete_pod_sandbox podid w in
      (
        add_deletion "deleting pod sandbox" (error_of deleted) (err (wrap "running container" e)),
        w',
      )

  abbrev pub remove_after : String → Result String × W → Result String × W
  remove_after podconfig (r, w) =
      let (removed, w') = remove podconfig w in
      (add_deletion "removing pod configuration" (error_of removed) r, w')

  abbrev pub run_in_pod :
      ℕ → String → List String → Result (String × String) × W → Option (Result String × W)
  run_in_pod rounds image args (ok (podid, podconfig), w) =
      map_some (λ out. remove_after podconfig (delete_after podid out))
        (run_container rounds image podconfig podid args w)
  run_in_pod rounds image args (err e, w) = some (err (wrap "starting pod sandbox" e), w)
  run_in_pod rounds image args (panic t, w) = some (panic t, w)

  unfoldable pub run_pod : ℕ → String → List String → W → Option (Result String × W)
  unfolding start_pod_sandbox delete_pod_sandbox run_container
  run_pod rounds image args w = run_in_pod rounds image args (start_pod_sandbox w)

  abbrev expected : String → String
  expected echo_data = str_append "hello container world [" (str_append echo_data "]")

  abbrev pub echoed : ℕ → String → Result String × W → Result ℕ × W
  echoed time_start echo_data (ok output, w) =
      if not (host.trim_newlines output == expected echo_data)
      then (err (message "mismatched output from container: '%s' instead of '%s'"), w)
      else (ok (host.now w - time_start), w)
  echoed time_start echo_data (err e, w) = (err (wrap "failed to exec new image" e), w)
  echoed time_start echo_data (panic t, w) = (panic t, w)

  unfoldable pub attempt_echo : ℕ → String → W → Option (Result ℕ × W)
  unfolding run_pod
  attempt_echo rounds image w =
      let (number, w') = host.random_number w in
      let echo_data = str_append "!" (str_append number "!") in
      map_some (echoed (host.now w') echo_data)
        (run_pod rounds image ("/usr/bin/pullcheck" ∷ echo_data ∷ []) w')
