-- ===== src/PullMonitor/Cycle.antt =====
-- platform/pull-monitor/pull-monitor/pull-monitor.go: one cycle, with the gauges and the observations
-- of the image. Times are in nanoseconds.
use homeworld.Common.{ℕ, String, Option, some, List, ◌∷◌, Result, ok, err, panic}
use homeworld.PullMonitor.{Host, refetch}
use homeworld.PullMonitor.Pods.{attempt_echo, map_some}

pub record Metrics : Type 0 where
  pub oci_check : ℕ
  pub exec_check : ℕ
  pub oci_timing : List ℕ
  pub exec_timing : List ℕ

abbrev pub exec_checked : {W : Type 0} → Metrics → Result ℕ × W → Result Metrics × W
exec_checked m (ok time_taken, w) =
    (ok (record m { exec_check = 1; exec_timing = time_taken ∷ m.exec_timing }), w)
exec_checked m (err e, w) = (ok (record m { exec_check = 0 }), w)
exec_checked m (panic t, w) = (panic t, w)

module _ {W : Type 0} (host : Host W) where
  abbrev pub oci_checked : ℕ → String → Metrics → Result ℕ × W → Option (Result Metrics × W)
  oci_checked rounds image m (ok time_taken, w) =
      map_some (exec_checked (record m { oci_check = 1; oci_timing = time_taken ∷ m.oci_timing }))
        (attempt_echo host rounds image w)
  oci_checked rounds image m (err e, w) = some (ok (record m { oci_check = 0; exec_check = 0 }), w)
  oci_checked rounds image m (panic t, w) = some (panic t, w)

  -- A panic ends the process.
  unfoldable pub cycle : ℕ → String → Metrics → W → Option (Result Metrics × W)
  unfolding refetch attempt_echo
  cycle rounds image m w = oci_checked rounds image m (refetch host image w)
