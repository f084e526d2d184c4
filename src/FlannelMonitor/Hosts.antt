-- ===== src/FlannelMonitor/Hosts.antt =====
-- The map from hosts to pods, platform/flannel-monitor/common/common.go, in terms of the pods.
use homeworld.Common.{
  String, ◌≡◌, refl, sym, ap, ◌∙◌, ◌⊎◌, inl, inr, Bool, true, false, ◌&&◌, ◌||◌, some, List, [],
  ◌∷◌, arith, ◌==◌, eq_iff, if◌then◌else◌, ok, >>=-eq-ok,
}
use homeworld.Common.Dict.{Dict, IsMap, IsFresh, lookup, insert, lookup-insert, IsMap-insert}
use homeworld.FlannelMonitor.{
  Node, Pod, Matched, matched, match_hosts, is_present, list_node_ips, list_running_app_pods,
  list_and_match_running_app_pods_to_nodes,
}
use homeworld.FlannelMonitor.Matching.{
  is_running, runs_on, without_pod, entries_of, running_pods-entries,
}

-- The text is one of the list.
abbrev pub among : String → List String → Bool
among ip [] = false
among ip (x ∷ xs) = x == ip || among ip xs

pub among-without_pod :
    (pods : List Pod) (ip : String) (ips : List String)
    → runs_on ip pods ≡ false
    → among ip ips ≡ true
    → among ip (without_pod pods ips) ≡ true
among-without_pod pods ip [] h e = cc
among-without_pod pods ip (x ∷ xs) h e = ground (arith, eq_iff x ip, among-without_pod pods ip xs h)

-- No host stands twice in the map from hosts to pods.
pub match_hosts-IsMap :
    (es : Dict String) (d : Bool) (m : Dict String) → IsMap m → IsMap (match_hosts es d m).1
unfolding match_hosts
match_hosts-IsMap [] d m h = h
match_hosts-IsMap ((pod_ip, host) ∷ es) d m h =
    match_hosts-IsMap es (if is_present host m then true else d) (insert host pod_ip m)
      (IsMap-insert host pod_ip m h)

pub IsFresh-of_lookup : (key : String) (m : Dict String) → is_present key m ≡ false → IsFresh key m
unfolding lookup
IsFresh-of_lookup key [] h = tt
IsFresh-of_lookup key ((j, v) ∷ m) h = ground (arith, eq_iff j key, IsFresh-of_lookup key m)

-- A running pod of the list has this address and this host.
abbrev pub runs_at : String → String → List Pod → Bool
runs_at pod_ip host [] = false
runs_at pod_ip host (item ∷ items) =
    (is_running item && (item.pod_ip == pod_ip && item.host_ip == host))
    || runs_at pod_ip host items

abbrev entry_in : String → String → Dict String → Bool
entry_in pod_ip host [] = false
entry_in pod_ip host ((p, at) ∷ es) = (p == pod_ip && at == host) || entry_in pod_ip host es

entry_in-entries :
    (pod_ip host : String) (items : List Pod)
    → entry_in pod_ip host (entries_of items) ≡ runs_at pod_ip host items
entry_in-entries pod_ip host [] = refl
entry_in-entries pod_ip host (item ∷ items) = ground (arith, entry_in-entries pod_ip host items)

match_hosts_origin :
    (host pod_ip : String) (es : Dict String) (d : Bool) (m : Dict String)
    → lookup host (match_hosts es d m).1 ≡ some pod_ip
    → (lookup host m ≡ some pod_ip) ⊎ (entry_in pod_ip host es ≡ true)
unfolding match_hosts
match_hosts_origin host pod_ip [] d m h = inl h
match_hosts_origin host pod_ip ((p, at) ∷ es) d m h =
    elim (match_hosts_origin host pod_ip es (if is_present at m then true else d) (insert at p m)
      h) [
        | inr later ↦ inr (ground arith)
        | inl now' ↦ ground (arith, lookup-insert at host p m, eq_iff p pod_ip)
      ]

pub runs_at_of_lookup :
    (pod_ip host : String) (items : List Pod)
    → lookup host (match_hosts (entries_of items) false []).1 ≡ some pod_ip
    → runs_at pod_ip host items ≡ true
unfolding lookup
runs_at_of_lookup pod_ip host items e =
    elim (match_hosts_origin host pod_ip (entries_of items) false [] e) [
      | inl empty ↦ cc
      | inr found ↦ sym (entry_in-entries pod_ip host items) ∙ found
    ]

-- The map is filled from the running pods alone.
pub map_of_entries :
    (nodes : List Node) (pods : List Pod) (r : Matched)
    → list_and_match_running_app_pods_to_nodes (ok nodes) (ok pods) ≡ ok r
    → r.map_nodeip_to_podip ≡ (match_hosts (entries_of pods) false []).1
unfolding list_and_match_running_app_pods_to_nodes
map_of_entries nodes pods r h =
    let (ips, h1, listed) = >>=-eq-ok (list_node_ips (ok nodes)) _ h in
    let (found, h2, ran) = >>=-eq-ok (list_running_app_pods (ok pods)) _ h1 in
    let entries : found ≡ entries_of pods =
      running_pods-entries pods [] (unfold list_running_app_pods in ran) in
    let same : matched ips found ≡ r = cc in
    ap (λ (q : Matched). q.map_nodeip_to_podip) (sym same)
    ∙ ap (λ es. (match_hosts es false []).1) entries
