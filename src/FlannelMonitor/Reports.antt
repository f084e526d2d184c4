-- ===== src/FlannelMonitor/Reports.antt =====
-- What the gauges of platform/flannel-monitor/monitor/flannel-monitor.go say of the nodes after a cycle.
use Prim.Native.String.{◌++◌ as str_append}
use homeworld.Common.{
  ℕ, ◌-◌, ◌≤◌, String, ◌≡◌, refl, sym, ap, ◌∙◌, subst, ◌≢◌, ◌⊎◌, inl, inr, Bool, true, false,
  Option, none, some, List, [], ◌∷◌, arith, ◌==◌, eq_iff, if◌then◌else◌, Bool-cases, Option-cases,
  ok,
}
use homeworld.Common.Dict.{Dict, IsMap, IsFresh, lookup}
use homeworld.Monitor.{GaugeVec, IsGaugeVec, score, probe_all}
use homeworld.Monitor.Probing.{AreOthers, probe_all_others, probe_all-Reports}
use homeworld.FlannelMonitor.{
  Node, Pod, Matched, match_hosts, is_present, list_node_ips,
  list_and_match_running_app_pods_to_nodes,
}
use homeworld.FlannelMonitor.Matching.{runs_on, share_host, entries_of, list_and_match_sound}
use homeworld.FlannelMonitor.Hosts.{
  among, among-without_pod, match_hosts-IsMap, IsFresh-of_lookup, runs_at, runs_at_of_lookup,
  map_of_entries,
}
use homeworld.FlannelMonitor.Cycle.{
  Web, Metrics, read_pong, got_response, ping, talk_label, set_podless, monitored, cycle,
}

-- The states of the network that requests lead to.
pub data Requests {Body W : Type 0} (web : Web Body W) (w : W) : W → Type 0 where
  start : Requests web w w
  fetched : (url : String) {u : W} → Requests web w u → Requests web w (web.get url u).1
  drained : (body : Body) {u : W} → Requests web w u → Requests web w (web.read_all body u).1

module _ {Body W : Type 0} (web : Web Body W) where
  open web use {get, read_all, now}

  -- The reflector at the address answers "PONG".
  abbrev read_as : Option String → Bool
  read_as none = false
  read_as (some body) = body == "PONG"

  abbrev responds : Option Body × W → Bool
  responds (none, w) = false
  responds (some body, w) = read_as (read_all body w).0

  abbrev pub answers : String → W → Bool
  answers pod_ip w = responds (get (str_append "http://" (str_append pod_ip "/ping")) w)

  ping-answers :
      (host_ip pod_ip : String) (w : W) (seen : List (String × ℕ))
      → (ping web host_ip pod_ip (w, seen)).0 ≡ answers pod_ip w
  unfolding ping
  ping-answers host_ip pod_ip w seen =
      got (get (str_append "http://" (str_append pod_ip "/ping")) w)
    where
      got : (a : Option Body × W) → (got_response web host_ip (now w) seen a).0 ≡ responds a
      got (none, u) = refl
      got (some body, u) = read (read_all body u)
        where
          read :
              (b : Option String × W)
              → (read_pong web host_ip (now u - now w) seen b).0 ≡ read_as b.0
          read (none, v) = refl
          read (some text, v) = ground arith

  -- What requests keep, a ping keeps.
  ping-Keeps :
      (P : W → Type 0)
      → ((url : String) (w : W) → P w → P (get url w).1)
      → ((body : Body) (w : W) → P w → P (read_all body w).1)
      → (host_ip pod_ip : String) (s : W × List (String × ℕ)) → P s.0
      → P (ping web host_ip pod_ip s).1.0
  unfolding ping
  ping-Keeps P get_keeps read_keeps host_ip pod_ip (w, seen) h = got (get url w) (get_keeps url w h)
    where
      url : String
      url = str_append "http://" (str_append pod_ip "/ping")

      got : (a : Option Body × W) → P a.1 → P (got_response web host_ip (now w) seen a).1.0
      got (none, u) k = k
      got (some body, u) k = read (read_all body u) (read_keeps body u k)
        where
          read :
              (b : Option String × W) → P b.1 → P (read_pong web host_ip (now u - now w) seen b).1.0
          read (none, v) l = l
          read (some text, v) l = elim (Bool-cases (text == "PONG")) [
            | inl same ↦ rw same l
            | inr differs ↦ rw differs l
          ]

  -- A state that requests lead to, no earlier.
  abbrev pub IsLater : W → W → Type 0
  IsLater w t = Requests web w t × (now w ≤ now t)

  module _ (get_forward : (url : String) (w : W) → now w ≤ now (get url w).1)
      (read_forward : (body : Body) (w : W) → now w ≤ now (read_all body w).1) where
    ping-IsLater :
        (w : W) (host_ip pod_ip : String) (s : W × List (String × ℕ))
        → IsLater w s.0
        → IsLater w (ping web host_ip pod_ip s).1.0
    ping-IsLater w =
        ping-Keeps (IsLater w)
          (λ url u (made, h). (fetched url made, omega (arith, get_forward url u)))
          (λ body u (made, h). (drained body made, omega (arith, read_forward body u)))

    module _ {V : Type 0} (g : GaugeVec V) (laws : IsGaugeVec g) (source : String) where
      abbrev label : String → List String
      label = talk_label web g source

      apart : (j k : String) → j ≢ k → label j ≢ label k
      apart j k ne same = ne (ap host_of same)
        where
          host_of : List String → String
          host_of (s ∷ host ∷ l) = host
          host_of l = ""

      zero_stays :
          (ip : String) (ips : List String) (v : V)
          → g.value (label ip) v ≡ some 0
          → g.value (label ip) (set_podless web g source ips v) ≡ some 0
      unfolding set_podless
      zero_stays ip [] v h = h
      zero_stays ip (x ∷ xs) v h =
          zero_stays ip xs (g.set (label x) 0 v) (next (Bool-cases (x == ip)))
        where
          next :
              ((x == ip) ≡ true) ⊎ ((x == ip) ≡ false)
              → g.value (label ip) (g.set (label x) 0 v) ≡ some 0
          next (inl same) =
              ap (λ q. g.value (label q) (g.set (label x) 0 v)) (sym ((eq_iff x ip).0 same))
              ∙ laws.value-set_self (label x) 0 v
          next (inr differs) =
              laws.value-set_ne (label ip) (label x) 0 v
                (apart x ip (λ e. let q = (eq_iff x ip).1 e in cc))
              ∙ h

      set_podless_zero :
          (ip : String) (ips : List String) (v : V)
          → among ip ips ≡ true
          → g.value (label ip) (set_podless web g source ips v) ≡ some 0
      unfolding set_podless
      set_podless_zero ip [] v h = cc
      set_podless_zero ip (x ∷ xs) v h = elim (Bool-cases (x == ip)) [
        | inl same ↦ zero_stays ip xs (g.set (label x) 0 v) (
            ap (λ q. g.value (label q) (g.set (label x) 0 v)) (sym ((eq_iff x ip).0 same))
            ∙ laws.value-set_self (label x) 0 v)
        | inr differs ↦ set_podless_zero ip xs (g.set (label x) 0 v) (rw differs at h)
      ]

      AreOthers-of_absent :
          (ip : String) (m : Dict String)
          → IsFresh ip m
          → AreOthers g laws label (ping web) (label ip) m
      AreOthers-of_absent ip [] h = tt
      AreOthers-of_absent ip ((k, p) ∷ m) (ne, h) = (apart k ip ne, AreOthers-of_absent ip m h)

      pinged_node :
          (pods : List Pod) (r : Matched) (m : Metrics V) (w : W)
          → r.map_nodeip_to_podip ≡ (match_hosts (entries_of pods) false []).1
          → (ip : String) → is_present ip r.map_nodeip_to_podip ≡ true
          → (pod_ip : String) × (t : W) × (runs_at pod_ip ip pods ≡ true)
            × IsLater w t
            × (g.value
                  (label ip)
                  (probe_all g label
                    (ping web)
                    r.map_nodeip_to_podip
                    (set_podless web g source r.ips_not_found m.talk_check, (w, m.talk_timing))).0
                ≡ some (score (answers pod_ip t)))
      pinged_node pods r m w filled ip there =
          elim (Option-cases (lookup ip r.map_nodeip_to_podip)) [
            | inl gone ↦ let k = rw (gone, is_present) at there in cc
            | inr (pod_ip, e) ↦
                let ((t, seen), p, q) =
                  probe_all-Reports g laws label (ping web) apart
                    (λ (s : W × List (String × ℕ)). IsLater w s.0) (ping-IsLater w)
                    r.map_nodeip_to_podip (set_podless web g source r.ips_not_found m.talk_check)
                    (w, m.talk_timing) (start, omega arith)
                    (subst IsMap (sym filled) (match_hosts-IsMap (entries_of pods) false [] tt)) ip
                    pod_ip e in
                (
                  pod_ip,
                  t,
                  runs_at_of_lookup pod_ip ip pods (ap (lookup ip) (sym filled) ∙ e),
                  p,
                  q ∙ ap (λ b. some (score b)) (ping-answers ip pod_ip t seen),
                )
          ]

      -- If the nodes and the pods are matched, and the clock never goes back during a request, the gauges
      -- of all nodes are of this cycle: a node with no running reflector has 0, and any other has 1 or 0
      -- by a ping of a reflector that runs there, in a state that requests lead to from the beginning of the
      -- pings, and no earlier than the recency; it is 1 exactly if the answer was "PONG". The monitor is
      -- marked as valid, and the check for duplicates passes exactly if no node has two.
      pub cycle-Reports :
          (nodes : List Node) (pods : List Pod) (r : Matched) (m : Metrics V) (w : W)
          → list_and_match_running_app_pods_to_nodes (ok nodes) (ok pods) ≡ ok r
          → (after : Metrics V) × (u : W) × (ips : List String) × (cycle web g source
                (ok nodes)
                (ok pods)
                m
                w
              ≡ (ok after, u))
            × (after.mon_check ≡ 1)
            × (after.dup_check ≡ (if share_host pods then 0 else 1))
            × (list_node_ips (ok nodes) ≡ ok ips)
            × ((ip : String)
                → among ip ips ≡ true
                → ((runs_on ip pods ≡ false) × (g.value (label ip) after.talk_check ≡ some 0))
                  ⊎ ((pod_ip : String) × (t : W) × (runs_at pod_ip ip pods ≡ true)
                      × (Requests web w t × (after.mon_recency ≤ now t))
                      × (g.value (label ip) after.talk_check ≡ some (score (answers pod_ip t)))))
      unfolding cycle
      cycle-Reports nodes pods r m w h =
          let (ips, listed, lost, shared, present) = list_and_match_sound nodes pods r h in
          (
            _,
            _,
            ips,
            ap (λ q. monitored web g source q m w) h,
            refl,
            ap (λ b. if b then 0 else 1) shared,
            listed,
            λ ip here. elim (Bool-cases (runs_on ip pods)) [
              | inl runs ↦
                  inr
                    (pinged_node pods r m w (map_of_entries nodes pods r h) ip (present ip ∙ runs))
              | inr none_runs ↦ inl (
                none_runs,
                probe_all_others g laws label (ping web) (label ip) r.map_nodeip_to_podip
                      (set_podless web g source r.ips_not_found m.talk_check) (w, m.talk_timing)
                      (AreOthers-of_absent ip r.map_nodeip_to_podip
                        (IsFresh-of_lookup ip r.map_nodeip_to_podip (present ip ∙ none_runs)))
                    ∙ set_podless_zero ip r.ips_not_found m.talk_check
                        (ap (among ip) lost ∙ among-without_pod pods ip ips none_runs here),
              )
            ],
          )
