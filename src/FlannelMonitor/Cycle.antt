-- ===== src/FlannelMonitor/Cycle.antt =====
-- platform/flannel-monitor/monitor/flannel-monitor.go: one cycle, which pings the reflectors. What the
-- Kubernetes API lists is an argument; `W` is the state of the network, and times are in nanoseconds.
use Prim.Native.String.{◌++◌ as str_append}
use homeworld.Common.{
  ℕ, ◌-◌, String, Bool, true, false, Option, none, some, List, [], ◌∷◌, ◌==◌, if◌then◌else◌, Result,
  ok, err, panic,
}
use homeworld.Monitor.{GaugeVec, probe_all}
use homeworld.FlannelMonitor.{Node, Pod, Matched, list_and_match_running_app_pods_to_nodes}

-- `http.Client.Get` and `ioutil.ReadAll`, of whose failures only that they fail is seen.
pub record Web (Body W : Type 0) : Type 0 where
  pub get : String → W → Option Body × W
  pub read_all : Body → W → Option String × W
  pub now : W → ℕ

-- The vectors whose one label is this host are its gauge; the histograms are what was observed.
pub record Metrics (V : Type 0) : Type 0 where
  pub talk_check : V
  pub talk_timing : List (String × ℕ)
  pub mon_recency : ℕ
  pub mon_check : ℕ
  pub dup_check : ℕ

module _ {Body W : Type 0} (web : Web Body W) where
  open web use {get, read_all, now}

  abbrev pub Timings : Type 0
  Timings = List (String × ℕ)

  abbrev pub read_pong : String → ℕ → Timings → Option String × W → Bool × (W × Timings)
  read_pong host_ip time seen (none, w) = (false, (w, seen))
  read_pong host_ip time seen (some body, w) =
      if body == "PONG" then (true, (w, (host_ip, time) ∷ seen)) else (false, (w, seen))

  abbrev pub got_response : String → ℕ → Timings → Option Body × W → Bool × (W × Timings)
  got_response host_ip start seen (none, w) = (false, (w, seen))
  got_response host_ip start seen (some body, w) =
      read_pong host_ip (now w - start) seen (read_all body w)

  -- The body of the loop over the pods, of which the gauge is set by `probe_all`.
  unfoldable pub ping : String → String → W × Timings → Bool × (W × Timings)
  ping host_ip pod_ip (w, seen) =
      got_response host_ip (now w) seen (get (str_append "http://" (str_append pod_ip "/ping")) w)

  module _ {V : Type 0} (g : GaugeVec V) (source_hostip : String) where
    abbrev pub talk_label : String → List String
    talk_label host_ip = source_hostip ∷ host_ip ∷ []

    -- The loop over the nodes with no pod.
    unfoldable pub set_podless : List String → V → V
    set_podless [] v = v
    set_podless (node_ip ∷ ips) v = set_podless ips (g.set (talk_label node_ip) 0 v)

    abbrev pub pinged : ℕ → Bool → V × (W × Timings) → Result (Metrics V) × W
    pinged recency duplicates (v, (w, seen)) = (
      ok (record {
        talk_check = v;
        talk_timing = seen;
        mon_recency = recency;
        mon_check = 1;
        dup_check = if duplicates then 0 else 1;
      }),
      w,
    )

    abbrev pub monitored : Result Matched → Metrics V → W → Result (Metrics V) × W
    monitored (err e) m w = (
      ok (record m {
        talk_check = g.reset m.talk_check;
        talk_timing = [];
        mon_check = 0;
        dup_check = 0;
      }),
      w,
    )
    monitored (panic t) m w = (panic t, w)
    monitored (ok r) m w = pinged (now w) r.has_any_duplicates (
        probe_all g talk_label ping r.map_nodeip_to_podip
          (set_podless r.ips_not_found m.talk_check, (w, m.talk_timing)))

    unfoldable pub cycle :
        Result (List Node) → Result (List Pod) → Metrics V → W → Result (Metrics V) × W
    unfolding list_and_match_running_app_pods_to_nodes set_podless ping probe_all
    cycle nodelist podlist = monitored (list_and_match_running_app_pods_to_nodes nodelist podlist)
