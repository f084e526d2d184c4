-- ===== src/Monitor.antt =====
-- What the monitors share (platform/dns-monitor, platform/flannel-monitor, platform/etcd-metrics-exporter,
-- platform/auth-monitor): gauges with labels, and the loop that sets one for each entry of a map.
use homeworld.Common.{
  ℕ, ◌+◌, ◌-◌, ◌/◌, String, ◌≡◌, ap, ◌≢◌, Bool, true, not, Option, none, some, List, [], ◌∷◌, map,
  ltb, if◌then◌else◌, ◌>>=◌, ◌>>◌,
}
use homeworld.Common.Dict.{Dict}
pub mod Probing
pub mod Dns
pub mod Resolution
pub mod Etcd
pub mod Version

-- `prometheus.GaugeVec`, with the labels' values in order: `With(labels).Set(v)`, `Reset`, `Delete`, which
-- says whether there was a gauge, and what is exported under the labels.
pub record GaugeVec (V : Type 0) : Type 0 where
  pub set : List String → ℕ → V → V
  pub reset : V → V
  pub delete : List String → V → Bool × V
  pub value : List String → V → Option ℕ

-- What its documentation says.
pub record IsGaugeVec {V : Type 0} (g : GaugeVec V) : Type 0 where
  pub value-set_self : (l : List String) (n : ℕ) (v : V) → g.value l (g.set l n v) ≡ some n
  pub value-set_ne :
      (l k : List String) (n : ℕ) (v : V) → k ≢ l → g.value l (g.set k n v) ≡ g.value l v
  pub value-reset : (l : List String) (v : V) → g.value l (g.reset v) ≡ none
  pub delete_found :
      (l : List String) (n : ℕ) (v : V) → g.value l v ≡ some n → (g.delete l v).0 ≡ true
  pub value-delete_self : (l : List String) (v : V) → g.value l (g.delete l v).1 ≡ none
  pub value-delete_ne :
      (l k : List String) (v : V) → k ≢ l → g.value l (g.delete k v).1 ≡ g.value l v

abbrev pub score : Bool → ℕ
score pass = if pass then 1 else 0

-- The sleep behind a cycle that began at `start` and ended at `finish`, in nanoseconds.
unfoldable pub delta : ℕ → ℕ → ℕ
delta start finish =
    if ltb (start + 15_000_000_000 - finish) 1_000_000_000
    then 1_000_000_000
    else start + 15_000_000_000 - finish

-- `for key, a := range m { ...; vec.With(label).Set(pass) }`, where `S` is what the probe changes.
module _ {V : Type 0} (g : GaugeVec V) {A S : Type 0} (label : String → List String)
    (probe : String → A → S → Bool × S) where
  abbrev pub record_probe : String → V → Bool × S → V × S
  record_probe key v (pass, s) = (g.set (label key) (score pass) v, s)

  unfoldable pub probe_all : Dict A → V × S → V × S
  probe_all [] out = out
  probe_all ((key, a) ∷ m) (v, s) = probe_all m (record_probe key v (probe key a s))

-- The turns of a monitor's loop so far, each with the flag that its channel was closed: the `break` of the
-- source leaves the `select` and not the loop, so that the turn ends without a sleep.
unfoldable pub loop : {S : Type 0} → (S → ℕ) → (S → S) → (ℕ → S → S) → List Bool → S → S
unfolding delta
loop now cycle sleep [] s = s
loop now cycle sleep (stopped ∷ turns) s =
    let s' = cycle s in
    loop now cycle sleep turns (if stopped then s' else sleep (delta (now s) (now s')) s')
