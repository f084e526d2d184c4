-- ===== src/FlannelMonitor/Collector.antt =====
-- platform/flannel-monitor/collector/flannel-monitor-collector.go: one cycle, which scrapes the monitors,
-- and what it exports. What the Kubernetes API lists is an argument.
use Prim.Native.String.{◌++◌ as str_append}
use homeworld.Common.{
  ℕ, String, Bool, true, false, Option, none, some, List, [], ◌∷◌, ◌++◌, if◌then◌else◌, Result, ok,
  err, panic, ◌>>=◌,
}
use homeworld.Monitor.{GaugeVec, probe_all}
use homeworld.FlannelMonitor.{Node, Pod, Matched, list_and_match_running_app_pods_to_nodes}

-- `http.Client.Get` and `expfmt.TextParser`, of whose failures only that they fail is seen. The families of
-- a map come in some order.
pub record Scraper (Body Family W : Type 0) : Type 0 where
  pub get : String → W → Option Body × W
  pub text_to_metric_families : Body → W → Option (List Family) × W

pub record Metrics (V Family : Type 0) : Type 0 where
  pub collect_check : ℕ
  pub dup_check : ℕ
  pub scrape_check : V
  pub additional_metrics : List Family

abbrev pub hostip_label : String → List String
hostip_label host_ip = host_ip ∷ []

module _ {Body Family W : Type 0} (s : Scraper Body Family W) where
  open s use {get, text_to_metric_families}

  abbrev pub parsed : List Family → Option (List Family) × W → Bool × (W × List Family)
  parsed result (none, w) = (false, (w, result))
  parsed result (some metrics, w) = (true, (w, result ++ metrics))

  abbrev pub scraped : List Family → Option Body × W → Bool × (W × List Family)
  scraped result (none, w) = (false, (w, result))
  scraped result (some body, w) = parsed result (text_to_metric_families body w)

  -- The body of the loop over the pods, of which the gauge is set by `probe_all`.
  unfoldable pub scrape : String → String → W × List Family → Bool × (W × List Family)
  scrape host_ip pod_ip (w, result) =
      scraped result (get (str_append "http://" (str_append pod_ip "/metrics")) w)

  module _ {V : Type 0} (g : GaugeVec V) where
    unfoldable pub set_unscraped : List String → V → V
    set_unscraped [] v = v
    set_unscraped (node_ip ∷ ips) v = set_unscraped ips (g.set (hostip_label node_ip) 0 v)

    abbrev pub scraped_all : Bool → V × (W × List Family) → Result (Metrics V Family) × W
    scraped_all duplicates (v, (w, result)) = (
      ok (record {
        collect_check = 1;
        dup_check = if duplicates then 0 else 1;
        scrape_check = v;
        additional_metrics = result;
      }),
      w,
    )

    abbrev pub collected : Result Matched → Metrics V Family → W → Result (Metrics V Family) × W
    collected (err e) m w = (
      ok (record {
        collect_check = 0;
        dup_check = 0;
        scrape_check = g.reset m.scrape_check;
        additional_metrics = [];
      }),
      w,
    )
    collected (panic t) m w = (panic t, w)
    collected (ok r) m w = scraped_all r.has_any_duplicates (
        probe_all g hostip_label scrape r.map_nodeip_to_podip
          (set_unscraped r.ips_not_found m.scrape_check, (w, [])))

    unfoldable pub collect :
        Result (List Node)
        → Result (List Pod)
        → Metrics V Family
        → W
        → Result (Metrics V Family) × W
    unfolding list_and_match_running_app_pods_to_nodes set_unscraped scrape probe_all
    collect nodelist podlist = collected (list_and_match_running_app_pods_to_nodes nodelist podlist)

-- What is served: what the registry gathers, and then the families that the last cycle scraped.
unfoldable pub gather :
    {V Family : Type 0}
    → (Metrics V Family → Result (List Family))
    → Metrics V Family
    → Result (List Family)
gather registry_gather m = do gathered ← registry_gather m; ok (gathered ++ m.additional_metrics)
