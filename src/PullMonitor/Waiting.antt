-- ===== src/PullMonitor/Waiting.antt =====
-- That the pull monitor does not wait for ever, if its containers stop.
use Prim.Native.String.{◌++◌ as str_append}
use homeworld.Common.{
  ℕ, zero, suc, ◌<◌, String, ◌≡◌, refl, ◌∙◌, ◌≢◌, ◌⊎◌, inl, inr, Bool, true, false, some, List, [],
  ◌∷◌, arith, Result, ok, err, panic,
}
use homeworld.PullMonitor.{Host, refetch}
use homeworld.PullMonitor.Pods.{
  is_container_running, on_poll, wait_for, run_container, launch_container, wait_and_read,
  read_logs, run_pod, run_in_pod, start_pod_sandbox, attempt_echo, remove_after, delete_after,
  echoed,
}
use homeworld.PullMonitor.Cycle.{Metrics, cycle, exec_checked, oci_checked}

-- What a cycle leaves on the gauges: the outcome of the pull, and of the run behind it.
abbrev pub IsGauged : Metrics → Metrics → Type 0
IsGauged m after =
    ((after.oci_check ≡ 0)
      × (after.exec_check ≡ 0)
      × (after.oci_timing ≡ m.oci_timing)
      × (after.exec_timing ≡ m.exec_timing))
    ⊎ ((after.oci_check ≡ 1)
        × ((pull : ℕ) × (after.oci_timing ≡ pull ∷ m.oci_timing))
        × (((after.exec_check ≡ 0) × (after.exec_timing ≡ m.exec_timing))
            ⊎ ((after.exec_check ≡ 1) × ((exec : ℕ) × (after.exec_timing ≡ exec ∷ m.exec_timing)))))

abbrev pub IsCycled : Metrics → Result Metrics → Type 0
IsCycled m (ok after) = IsGauged m after
IsCycled m (err e) = ⊥
IsCycled m (panic t) = Unit

module _ {W : Type 0} (host : Host W) where
  -- The container is seen running for so many polls, and then not any more, or the poll fails.
  abbrev pub StopsAfter : ℕ → String → W → Type 0
  StopsAfter zero containerid w = (is_container_running host containerid w).0 ≢ ok true
  StopsAfter (suc polls) containerid w =
      ((is_container_running host containerid w).0 ≡ ok true)
      × StopsAfter polls containerid (is_container_running host containerid w).1

  -- The container stops in fewer polls than the rounds.
  abbrev pub StopsWithin : ℕ → String → W → Type 0
  StopsWithin rounds containerid w = (polls : ℕ) × (polls < rounds) × StopsAfter polls containerid w

  wait_for-returns :
      (rounds polls : ℕ) (containerid : String) (w : W)
      → polls < rounds
      → StopsAfter polls containerid w
      → (out : Result (Unit {0}) × W) × (wait_for host rounds containerid w ≡ some out)
  unfolding wait_for
  wait_for-returns zero polls containerid w h stops = absurd (omega arith)
  wait_for-returns (suc rounds) zero containerid w h stops =
      stopped (is_container_running host containerid w) stops
    where
      stopped :
          (r : Result Bool × W)
          → r.0 ≢ ok true
          → (out : Result (Unit {0}) × W) × (on_poll host (wait_for host rounds containerid) r
              ≡ some out)
      stopped (ok true, u) k = absurd (k refl)
      stopped (ok false, u) k = ((ok tt, u), refl)
      stopped (err e, u) k = ((err (host.wrap "monitoring container" e), u), refl)
      stopped (panic t, u) k = ((panic t, u), refl)
  wait_for-returns (suc rounds) (suc polls) containerid w h stops =
      let (out, e) =
        wait_for-returns rounds polls containerid (is_container_running host containerid w).1
          (omega arith) stops.1 in
      (out, again (is_container_running host containerid w) stops.0 ∙ e)
    where
      again :
          (r : Result Bool × W)
          → r.0 ≡ ok true
          → on_poll host (wait_for host rounds containerid) r ≡ wait_for host rounds containerid r.1
      again (ok true, u) k = refl
      again (ok false, u) k = cc
      again (err e, u) k = cc
      again (panic t, u) k = cc

  module _ (rounds : ℕ)
      (stops : (containerid : String) (w : W) → StopsWithin rounds containerid w) where
    run_container-returns :
        (image podconfigpath podid : String) (args : List String) (w : W)
        → (out : Result String × W) × (run_container host rounds image podconfigpath podid args w
            ≡ some out)
    unfolding run_container
    run_container-returns image podconfigpath podid args w =
        go (launch_container host image podconfigpath podid args w)
      where
        go :
            (r : Result String × W)
            → (out : Result String × W) × (wait_and_read host rounds r ≡ some out)
        go (err e, u) = ((err e, u), refl)
        go (panic t, u) = ((panic t, u), refl)
        go (ok containerid, u) =
            let (polls, few, s) = stops containerid u in
            let (out, e) = wait_for-returns rounds polls containerid u few s in
            (read_logs host containerid out, rw e refl)

    run_pod-returns :
        (image : String) (args : List String) (w : W)
        → (out : Result String × W) × (run_pod host rounds image args w ≡ some out)
    unfolding run_pod
    run_pod-returns image args w = go (start_pod_sandbox host w)
      where
        go :
            (r : Result (String × String) × W)
            → (out : Result String × W) × (run_in_pod host rounds image args r ≡ some out)
        go (err e, u) = (_, refl)
        go (panic t, u) = (_, refl)
        go (ok (podid, podconfig), u) =
            let (out, e) = run_container-returns image podconfig podid args u in
            (remove_after host podconfig (delete_after host podid out), rw e refl)

    attempt_echo-returns :
        (image : String) (w : W)
        → (out : Result ℕ × W) × (attempt_echo host rounds image w ≡ some out)
    unfolding attempt_echo
    attempt_echo-returns image w =
        let (number, w') = host.random_number w in
        let echo_data = str_append "!" (str_append number "!") in
        let (out, e) = run_pod-returns image ("/usr/bin/pullcheck" ∷ echo_data ∷ []) w' in
        (echoed host (host.now w') echo_data out, rw e refl)

    -- If every container is seen to stop in fewer polls than the rounds, a cycle ends, and never with an
    -- error. Unless it panics, the gauge for the run is 1 only if that for the pull is, each gauge is 0
    -- or 1, and exactly those that are 1 have a new time recorded.
    pub cycle-returns :
        (image : String) (m : Metrics) (w : W)
        → (out : Result Metrics × W) × (cycle host rounds image m w ≡ some out) × IsCycled m out.0
    unfolding cycle
    cycle-returns image m w = go (refetch host image w)
      where
        gauged :
            (pull : ℕ) (r : Result ℕ × W)
            → IsCycled m
                (exec_checked (record m { oci_check = 1; oci_timing = pull ∷ m.oci_timing }) r).0
        gauged pull (ok exec, u) = inr (refl, (pull, refl), inr (refl, (exec, refl)))
        gauged pull (err e, u) = inr (refl, (pull, refl), inl (refl, refl))
        gauged pull (panic t, u) = tt

        go :
            (r : Result ℕ × W)
            → (out : Result Metrics × W) × (oci_checked host rounds image m r ≡ some out)
              × IsCycled m out.0
        go (ok pull, u) =
            let (out, e) = attempt_echo-returns image u in
            let m' = record m { oci_check = 1; oci_timing = pull ∷ m.oci_timing } in
            (exec_checked m' out, rw e refl, gauged pull out)
        go (err e, u) = (_, refl, inl (refl, refl, refl, refl))
        go (panic t, u) = (_, refl, tt)
