-- ===== src/PullMonitor/Leftovers.antt =====
-- That the pull monitor leaves no temporary file behind.
use homeworld.Common.{
  ℕ, zero, suc, String, ◌≡◌, refl, subst, Bool, true, false, Option, none, some, List, [], ◌∷◌,
  Result, ok, err, panic,
}
use homeworld.Common.Effects.{give, wrapping, Keeps, >>=-Keeps}
use homeworld.PullMonitor.{Host}
use homeworld.PullMonitor.Pods.{
  start_pod_sandbox, inspected, is_container_running, get_container_logs, on_poll, wait_for,
  launch_container, read_logs, map_some, wait_and_read, run_container, delete_after, remove_after,
  run_in_pod, run_pod,
}
use homeworld.PullMonitor.Cleanup.{
  Opened, IsTracking, start_pod_sandbox-Opened, delete_pod_sandbox-Keeps, launch_container-Keeps,
}

module _ {W : Type 0} (host : Host W) (Files : List String → W → Type 0)
    (os : IsTracking host Files) where
  wait_for-Keeps :
      (rounds : ℕ) (containerid : String) (files : List String) (w : W)
      {out : Result (Unit {0}) × W}
      → Files files w
      → wait_for host rounds containerid w ≡ some out
      → Files files out.1
  unfolding wait_for
  wait_for-Keeps zero containerid files w h e = cc
  wait_for-Keeps (suc rounds) containerid files w {out} h e =
      polled (is_container_running host containerid w) (running-Keeps w h)
        (λ (v : W) (o : Result (Unit {0}) × W). wait_for-Keeps rounds containerid files v {out = o})
        e
    where
      running-Keeps : Keeps (Files files) (is_container_running host containerid)
      running-Keeps =
          unfold is_container_running in
          >>=-Keeps (Files files)
            (wrapping (host.wrap "inspecting container")
              (host.crictl ("inspect" ∷ containerid ∷ [])))
            (λ result. give (inspected host (host.decode_inspection result)))
            (os.runs ("inspect" ∷ containerid ∷ []) files) (λ a v k. k)

      polled :
          (r : Result Bool × W)
          → Files files r.1
          → ((v : W) (o : Result (Unit {0}) × W)
              → Files files v
              → wait_for host rounds containerid v ≡ some o
              → Files files o.1)
          → on_poll host (wait_for host rounds containerid) r ≡ some out
          → Files files out.1
      polled (ok true, v) k ih e' = ih v out k e'
      polled (ok false, v) k ih e' =
          let q : ◌≡◌ {A = Result (Unit {0}) × W} (ok tt, v) out = cc in
          subst (λ o. Files files o.1) q k
      polled (err why, v) k ih e' =
          let q : (err (host.wrap "monitoring container" why), v) ≡ out = cc in
          subst (λ o. Files files o.1) q k
      polled (panic t, v) k ih e' =
          let q : (panic t, v) ≡ out = cc in subst (λ o. Files files o.1) q k

  run_container-Keeps :
      (rounds : ℕ) (image podconfigpath podid : String) (args : List String) (files : List String)
      (w : W) {out : Result String × W}
      → Files files w
      → run_container host rounds image podconfigpath podid args w ≡ some out
      → Files files out.1
  unfolding run_container
  run_container-Keeps rounds image podconfigpath podid args files w {out} h e =
      launched (launch_container host image podconfigpath podid args w)
        (launch_container-Keeps host Files os image podconfigpath podid args files w h) e
    where
      logged :
          (containerid : String) (r : Result (Unit {0}) × W)
          → Files files r.1
          → Files files (read_logs host containerid r).1
      logged containerid (ok u, v) k =
          unfold get_container_logs in os.runs ("logs" ∷ containerid ∷ []) files v k
      logged containerid (err why, v) k = k
      logged containerid (panic t, v) k = k

      waited :
          (containerid : String) (o : Option (Result (Unit {0}) × W)) (v : W)
          → wait_for host rounds containerid v ≡ o
          → Files files v
          → map_some (read_logs host containerid) o ≡ some out
          → Files files out.1
      waited containerid none v e1 k e2 = cc
      waited containerid (some r) v e1 k e2 =
          let q : read_logs host containerid r ≡ out = cc in
          subst (λ o. Files files o.1) q
            (logged containerid r (wait_for-Keeps rounds containerid files v k e1))

      launched :
          (r : Result String × W)
          → Files files r.1
          → wait_and_read host rounds r ≡ some out
          → Files files out.1
      launched (ok containerid, v) k e1 =
          waited containerid (wait_for host rounds containerid v) v refl k e1
      launched (err why, v) k e1 =
          let q : (err why, v) ≡ out = cc in subst (λ o. Files files o.1) q k
      launched (panic t, v) k e1 =
          let q : (panic t, v) ≡ out = cc in subst (λ o. Files files o.1) q k

  -- However a pod ends, with a result, an error or a panic, the temporary files are those that there
  -- were before: each file that it made is gone again, and no other is. This is so if creating a file
  -- adds its path alone, closing one succeeds, removing the newest takes it away, commands and encodings
  -- do not panic, and neither they nor the drawing of names change the temporary files.
  pub run_pod-Keeps :
      (rounds : ℕ) (image : String) (args : List String) (files : List String) (w : W)
      {out : Result String × W}
      → Files files w
      → run_pod host rounds image args w ≡ some out
      → Files files out.1
  unfolding run_pod
  run_pod-Keeps rounds image args files w {out} h e =
      in_pod (start_pod_sandbox host w) (start_pod_sandbox-Opened host Files os files w h) e
    where
      deleted :
          (podid podconfig : String) (r : Result String × W)
          → Files (podconfig ∷ files) r.1
          → Files (podconfig ∷ files) (delete_after host podid r).1
      deleted podid podconfig (ok result, v) k =
          delete_pod_sandbox-Keeps host Files os podid (podconfig ∷ files) v k
      deleted podid podconfig (err why, v) k =
          delete_pod_sandbox-Keeps host Files os podid (podconfig ∷ files) v k
      deleted podid podconfig (panic t, v) k = k

      ran :
          (podid podconfig : String) (o : Option (Result String × W)) (v : W)
          → run_container host rounds image podconfig podid args v ≡ o
          → Files (podconfig ∷ files) v
          → map_some (λ r. remove_after host podconfig (delete_after host podid r)) o ≡ some out
          → Files files out.1
      ran podid podconfig none v e1 k e2 = cc
      ran podid podconfig (some r) v e1 k e2 =
          let q : remove_after host podconfig (delete_after host podid r) ≡ out = cc in
          subst (λ o. Files files o.1) q
            (os.removes podconfig files (delete_after host podid r).1 (
              deleted podid podconfig r
                (run_container-Keeps rounds image podconfig podid args (podconfig ∷ files) v k e1)))

      in_pod :
          (r : Result (String × String) × W)
          → Opened host Files (λ made. made.1) files r
          → run_in_pod host rounds image args r ≡ some out
          → Files files out.1
      in_pod (ok (podid, podconfig), v) k e1 =
          ran podid podconfig (run_container host rounds image podconfig podid args v) v refl k e1
      in_pod (err why, v) k e1 =
          let q : (err (host.wrap "starting pod sandbox" why), v) ≡ out = cc in
          subst (λ o. Files files o.1) q k
      in_pod (panic t, v) k e1 = let q : (panic t, v) ≡ out = cc in subst (λ o. Files files o.1) q k
