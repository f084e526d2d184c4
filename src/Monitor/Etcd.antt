-- ===== src/Monitor/Etcd.antt =====
-- platform/etcd-metrics-exporter/etcd-metrics-exporter.go: the gauge of etcd's version, which has the
-- version as its label, and what is exported. `W` is the state of the network.
use Prim.Native.String.{◌++◌ as str_append}
use text.Mathlib.Text.{starts_with}
use homeworld.Common.{
  ℕ, zero, suc, String, Bool, true, false, List, [], ◌∷◌, ◌++◌, ◌==◌, if◌then◌else◌, message,
  Result, ok, err, panic, guard,
}
use homeworld.Common.Effects.{Effect, ◌>>=◌, ◌>>◌, give}
use homeworld.Monitor.{GaugeVec}

-- `http.Client.Get`, with the body read; `encoding/json` of the field "etcdserver", and `expfmt`.
pub record Etcd (Family W : Type 0) : Type 0 where
  pub scrape_base : String
  pub get : String → Effect W String
  pub decode_version : String → Result String
  pub text_to_metric_families : String → Result (List Family)

module _ {Family W : Type 0} (etcd : Etcd Family W) where
  unfoldable pub request_to_etcd : String → Effect W String
  request_to_etcd endpoint = do
    give (guard (starts_with endpoint "/") (message "no '/' prefix on endpoint"))
    etcd.get (str_append etcd.scrape_base endpoint)

  unfoldable pub scrape_metrics : Effect W (List Family)
  unfolding request_to_etcd
  scrape_metrics = do body ← request_to_etcd "/metrics"; give (etcd.text_to_metric_families body)

  -- `custom` is what the registry gathers.
  unfoldable pub gather : Result (List Family) → Effect W (List Family)
  unfolding scrape_metrics
  gather custom = do
    etcd_metrics ← scrape_metrics
    families ← give custom
    give (ok (etcd_metrics ++ families))

  module _ {V : Type 0} (g : GaugeVec V) where
    -- The gauge of the version that was seen before is deleted, if one was.
    abbrev pub forgotten : String → V → Bool × V
    forgotten last v = if last == "" then (true, v) else g.delete (last ∷ []) v

    abbrev pub recorded : String → String → Bool × V → Result (Unit {0}) × (String × V)
    recorded last version (false, v) =
        (err (message "Failed to delete previous version's metric"), (last, v))
    recorded last version (true, v) = (ok tt, (version, g.set (version ∷ []) 1 v))

    unfoldable pub update_version : String → String × V → Result (Unit {0}) × (String × V)
    update_version version (last, v) =
        if last == version then (ok tt, (last, v)) else recorded last version (forgotten last v)

    abbrev pub decoded : String × V → Result String × W → Result (Unit {0}) × ((String × V) × W)
    decoded seen (ok version, w) = let (r, seen') = update_version version seen in (r, (seen', w))
    decoded seen (err e, w) = (err e, (seen, w))
    decoded seen (panic t, w) = (panic t, (seen, w))

    unfoldable pub get_version : (String × V) × W → Result (Unit {0}) × ((String × V) × W)
    unfolding request_to_etcd update_version
    get_version (seen, w) =
        decoded seen ((do body ← request_to_etcd "/version"; give (etcd.decode_version body)) w)

    -- The requests of the loop so far; a failed one is logged.
    unfoldable pub get_version_periodically : ℕ → (String × V) × W → (String × V) × W
    unfolding get_version
    get_version_periodically zero s = s
    get_version_periodically (suc n) s = get_version_periodically n (get_version s).1
