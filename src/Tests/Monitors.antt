-- ===== src/Tests/Monitors.antt =====
-- The monitors in a sample cluster, where the world is a clock.
use homeworld.Common.{
  ℕ, suc, ◌≤◌, String, ◌≡◌, refl, ap, subst, ◌≢◌, ◌⊎◌, inl, inr, Bool, true, false, ◌&&◌, Option,
  none, some, List, [], ◌∷◌, arith, ◌==◌, eq_iff, eq_refl, eqb, if◌then◌else◌, Bool-cases, message,
  ok, err,
}
use homeworld.Common.Dict.{Dict, lookup, insert}
use homeworld.Util.Substitution.{split_at}
use homeworld.Monitor.{GaugeVec, IsGaugeVec, score}
use homeworld.Monitor.Dns.{
  Resolver, Metrics, hostname_label, cycle, parse_args, add_args, parse_arg,
}
use homeworld.Monitor.Resolution.{Lookups, resolves, cycle-resolves}
use homeworld.Monitor.Etcd.{Etcd, get_version_periodically}
use homeworld.Monitor.Version.{shown, get_version_periodically-IsCurrent}
use homeworld.FlannelMonitor.{list_node_ips}
use homeworld.FlannelMonitor.Matching.{runs_on, share_host}
use homeworld.FlannelMonitor.Hosts.{among, runs_at}
use homeworld.FlannelMonitor.Cycle.{Web, talk_label, Metrics as TalkMetrics, cycle as talk_cycle}
use homeworld.FlannelMonitor.Reports.{Requests, answers, cycle-Reports}
use homeworld.Tests.Nodes.{nodes, pods, result, matches}

abbrev Gauges : Type 0
Gauges = List String → Option ℕ

abbrev same : List String → List String → Bool
same [] [] = true
same (x ∷ xs) (y ∷ ys) = x == y && same xs ys
same [] (y ∷ ys) = false
same (x ∷ xs) [] = false

same_refl : (l : List String) → same l l ≡ true
same_refl [] = refl
same_refl (x ∷ xs) = ground (arith, eq_refl x, same_refl xs)

eq_of_same : (k l : List String) → same k l ≡ true → k ≡ l
eq_of_same [] [] h = refl
eq_of_same (x ∷ xs) (y ∷ ys) h = ground (arith, eq_iff x y, eq_of_same xs ys)
eq_of_same [] (y ∷ ys) h = cc
eq_of_same (x ∷ xs) [] h = cc

same_ne : (k l : List String) → k ≢ l → same k l ≡ false
same_ne k l ne = ground (arith, eq_of_same k l)

abbrev is_some : Option ℕ → Bool
is_some none = false
is_some (some n) = true

abbrev gauges : GaugeVec Gauges
gauges = record {
  set = λ k n v l. if same k l then some n else v l;
  reset = λ v l. none;
  delete = λ k v. (is_some (v k), λ l. if same k l then none else v l);
  value = λ l v. v l;
}

gauges-IsGaugeVec : IsGaugeVec gauges
gauges-IsGaugeVec = record {
  value-set_self = λ l n v. ground (arith, same_refl l);
  value-set_ne = λ l k n v ne. ground (arith, same_ne k l);
  value-reset = λ l v. refl;
  delete_found = λ l n v e. ap is_some e;
  value-delete_self = λ l v. ground (arith, same_refl l);
  value-delete_ne = λ l k v ne. ground (arith, same_ne k l);
}

abbrev resolver : Resolver ℕ ℕ
resolver = record {
  lookup_ip_addr = λ host w. (some (4 ∷ []), suc w);
  now = λ w. w;
  parse_ip = λ text. if text == "10.0.0.4" then some 4 else some 5;
  is_equal = eqb;
}

abbrev metrics : Metrics Gauges
metrics = record { internal_check = λ l. none; timing = []; recency = 0 }

abbrev arguments : List String
arguments = "kube=10.0.0.4" ∷ "etcd=10.0.0.5" ∷ []

abbrev expectations : Dict ℕ
expectations = ("kube", 4) ∷ ("etcd", 5) ∷ []

parsed : parse_args resolver arguments ≡ ok expectations
unfolding parse_args add_args parse_arg split_at lookup insert
parsed = refl

cycle-resolves_example :
    (t : ℕ) × Lookups resolver 7 t
    × ((cycle resolver gauges expectations metrics 7).0.recency ≤ t)
    × ((cycle resolver gauges expectations metrics 7).0.internal_check (hostname_label "etcd")
        ≡ some (score (resolves resolver 5 (some (4 ∷ [])))))
unfolding lookup
cycle-resolves_example =
    cycle-resolves resolver gauges gauges-IsGaugeVec arguments expectations metrics 7 parsed
      (λ host u. omega arith) "etcd" 5 refl

abbrev web : Web String ℕ
web = record {
  get = λ url w. (some url, suc w);
  read_all = λ body w. (some "PONG", suc w);
  now = λ w. w;
}

abbrev talk_metrics : TalkMetrics Gauges
talk_metrics = record {
  talk_check = λ l. none;
  talk_timing = [];
  mon_recency = 0;
  mon_check = 0;
  dup_check = 0;
}

cycle-Reports_example :
    (after : TalkMetrics Gauges) × (u : ℕ) × (ips : List String) × (talk_cycle web gauges "10.0.0.1"
        (ok nodes)
        (ok pods)
        talk_metrics
        7
      ≡ (ok after, u))
    × (after.mon_check ≡ 1)
    × (after.dup_check ≡ (if share_host pods then 0 else 1))
    × (list_node_ips (ok nodes) ≡ ok ips)
    × ((ip : String)
        → among ip ips ≡ true
        → ((runs_on ip pods ≡ false)
            × (after.talk_check (talk_label web gauges "10.0.0.1" ip) ≡ some 0))
          ⊎ ((pod_ip : String) × (t : ℕ) × (runs_at pod_ip ip pods ≡ true)
              × (Requests web 7 t × (after.mon_recency ≤ t))
              × (after.talk_check (talk_label web gauges "10.0.0.1" ip)
                  ≡ some (score (answers web pod_ip t)))))
cycle-Reports_example =
    cycle-Reports web (λ url w. omega arith) (λ body w. omega arith) gauges gauges-IsGaugeVec
      "10.0.0.1" nodes pods result talk_metrics 7 matches

-- Every request sees another version.
abbrev etcd : Etcd (Unit {0}) ℕ
etcd = record {
  scrape_base = "https://etcd";
  get = λ url w. (ok (if eqb w 0 then "3.2" else "3.3"), suc w);
  decode_version = λ body. if body == "" then err (message "empty") else ok body;
  text_to_metric_families = λ body. ok [];
}

decode_version_named :
    (body version : String) → etcd.decode_version body ≡ ok version → (version == "") ≡ false
decode_version_named body version e = elim (Bool-cases (body == "")) [
  | inl empty ↦ let k = rw empty at e in cc
  | inr other ↦
      let k = rw other at e in let q : body ≡ version = cc in subst (λ s. (s == "") ≡ false) q other
]

nothing_yet :
    (version : String) → ◌≡◌ {A = Option ℕ} none (shown gauges gauges-IsGaugeVec "" version)
nothing_yet version = ground (arith, eq_iff "" version)

-- The version that was seen first is no longer shown.
get_version_periodically-IsCurrent_example :
    (get_version_periodically etcd gauges 2 (("", λ l. none), 0)).0.1 ("3.2" ∷ []) ≡ none
unfolding get_version_periodically
get_version_periodically-IsCurrent_example =
    get_version_periodically-IsCurrent gauges gauges-IsGaugeVec etcd decode_version_named 2
      (("", λ l. none), 0) nothing_yet "3.2"
