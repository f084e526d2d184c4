-- ===== src/FlannelMonitor/Matching.antt =====
-- The match of nodes and pods, described on the lists that the Kubernetes API gives.
use mathlib.Core.List.{append-nil, append_assoc}
use homeworld.Common.{
  String, ◌≡◌, refl, sym, ap, ◌∙◌, inl, inr, Bool, true, false, ◌&&◌, ◌||◌, none, List, [], ◌∷◌,
  ◌++◌, arith, ◌==◌, eq_iff, if◌then◌else◌, Bool-cases, Option-cases, ok, >>=-eq-ok,
}
use homeworld.Common.Dict.{Dict, lookup, insert, lookup-insert}
use homeworld.FlannelMonitor.{
  Node, Pod, list_node_ips, running_pods, list_running_app_pods, is_present, match_hosts,
  hosts_not_found, Matched, matched, list_and_match_running_app_pods_to_nodes,
}

abbrev pub is_running : Pod → Bool
is_running item = item.phase == "Running"

-- A pod of the list runs on the host.
abbrev pub runs_on : String → List Pod → Bool
runs_on host [] = false
runs_on host (item ∷ items) = (is_running item && item.host_ip == host) || runs_on host items

-- Two pods of the list run on one host.
abbrev pub share_host : List Pod → Bool
share_host [] = false
share_host (item ∷ items) = (is_running item && runs_on item.host_ip items) || share_host items

-- The hosts on which no pod of the list runs, in order.
abbrev pub without_pod : List Pod → List String → List String
without_pod items [] = []
without_pod items (ip ∷ ips) =
    if runs_on ip items then without_pod items ips else ip ∷ without_pod items ips

abbrev pub entries_of : List Pod → Dict String
entries_of [] = []
entries_of (item ∷ items) =
    if is_running item then (item.pod_ip, item.host_ip) ∷ entries_of items else entries_of items

insert-fresh :
    (key new : String) (m : Dict String)
    → lookup key m ≡ none
    → insert key new m ≡ m ++ (key, new) ∷ []
unfolding lookup insert
insert-fresh key new [] h = refl
insert-fresh key new ((at, held) ∷ m) h = elim (Bool-cases (at == key)) [
  | inl same ↦ let k = rw same at h in cc
  | inr other ↦
      let k = rw other at h in rw other (ap (λ l. (at, held) ∷ l) (insert-fresh key new m k))
]

pub running_pods-entries :
    (items : List Pod) (m : Dict String) {after : Dict String}
    → running_pods items m ≡ ok after
    → after ≡ m ++ entries_of items
unfolding running_pods
running_pods-entries [] m {after} h = let e : m ≡ after = cc in sym e ∙ sym (append-nil m)
running_pods-entries (item ∷ items) m {after} h = elim (Bool-cases (is_running item)) [
  | inr stopped ↦ let k = rw stopped at h in rw stopped (running_pods-entries items m k)
  | inl running ↦
      let k = rw running at h in
      elim (Option-cases (lookup item.pod_ip m)) [
        | inr (held, found) ↦ let k' = rw found at k in cc
        | inl fresh ↦
            let k' = rw fresh at k in
            rw running (
              running_pods-entries items (insert item.pod_ip item.host_ip m) k'
              ∙ ap (λ l. l ++ entries_of items) (insert-fresh item.pod_ip item.host_ip m fresh)
              ∙ append_assoc m ((item.pod_ip, item.host_ip) ∷ []) (entries_of items))
      ]
]

abbrev host_in : String → Dict String → Bool
host_in host [] = false
host_in host ((pod_ip, at) ∷ es) = at == host || host_in host es

abbrev shares : Dict String → Bool
shares [] = false
shares ((pod_ip, at) ∷ es) = host_in at es || shares es

abbrev any_present : Dict String → Dict String → Bool
any_present [] m = false
any_present ((pod_ip, at) ∷ es) m = is_present at m || any_present es m

eq_sym : (s t : String) → (s == t) ≡ (t == s)
eq_sym s t = ground (arith, eq_iff s t, eq_iff t s)

is_present-insert :
    (host key pod_ip : String) (m : Dict String)
    → is_present key (insert host pod_ip m) ≡ (host == key || is_present key m)
is_present-insert host key pod_ip m = ground (arith, lookup-insert host key pod_ip m)

any_present-insert :
    (host pod_ip : String) (es m : Dict String)
    → any_present es (insert host pod_ip m) ≡ (host_in host es || any_present es m)
any_present-insert host pod_ip [] m = refl
any_present-insert host pod_ip ((p, at) ∷ es) m =
    ground (
      arith,
      is_present-insert host at pod_ip m,
      any_present-insert host pod_ip es m,
      eq_sym host at,
    )

match_hosts-present :
    (key : String) (es : Dict String) (d : Bool) (m : Dict String)
    → is_present key (match_hosts es d m).1 ≡ (is_present key m || host_in key es)
unfolding match_hosts
match_hosts-present key [] d m = ground arith
match_hosts-present key ((p, at) ∷ es) d m =
    match_hosts-present key es (if is_present at m then true else d) (insert at p m)
    ∙ ap (λ b. b || host_in key es) (is_present-insert at key p m)
    ∙ swap (at == key) (is_present key m) (host_in key es)
  where
    swap : (a b c : Bool) → ((a || b) || c) ≡ (b || (a || c))
    swap a b c = ground arith

match_hosts-shares :
    (es : Dict String) (d : Bool) (m : Dict String)
    → (match_hosts es d m).0 ≡ (d || (any_present es m || shares es))
unfolding match_hosts
match_hosts-shares [] d m = ground arith
match_hosts-shares ((p, at) ∷ es) d m =
    match_hosts-shares es (if is_present at m then true else d) (insert at p m)
    ∙ ap (λ b. (if is_present at m then true else d) || (b || shares es))
        (any_present-insert at p es m)
    ∙ regroup (is_present at m) d (host_in at es) (any_present es m) (shares es)
  where
    regroup :
        (a d' b c e : Bool)
        → ((if a then true else d') || ((b || c) || e)) ≡ (d' || ((a || c) || (b || e)))
    regroup a d' b c e = ground arith

host_in-entries :
    (host : String) (items : List Pod) → host_in host (entries_of items) ≡ runs_on host items
host_in-entries host [] = refl
host_in-entries host (item ∷ items) = ground (arith, host_in-entries host items)

shares-entries : (items : List Pod) → shares (entries_of items) ≡ share_host items
shares-entries [] = refl
shares-entries (item ∷ items) =
    ground (arith, host_in-entries item.host_ip items, shares-entries items)

any_present-nil : (es : Dict String) → any_present es [] ≡ false
unfolding lookup
any_present-nil [] = refl
any_present-nil ((p, at) ∷ es) = any_present-nil es

is_present-nil : (key : String) → is_present key [] ≡ false
unfolding lookup
is_present-nil key = refl

hosts_not_found-lem :
    (items : List Pod) (m : Dict String)
    → ((key : String) → is_present key m ≡ runs_on key items)
    → (ips : List String) → hosts_not_found ips m ≡ without_pod items ips
unfolding hosts_not_found
hosts_not_found-lem items m h [] = refl
hosts_not_found-lem items m h (ip ∷ ips) =
    rw (h ip) (ap (λ l. if runs_on ip items then l else ip ∷ l) (hosts_not_found-lem items m h ips))

-- If the match succeeds, the addresses that are not found are those of the nodes on which no running
-- pod of the application is, in the order of the nodes; the flag says whether two running pods are on
-- one host; and the map has an entry for exactly the hosts of running pods.
pub list_and_match_sound :
    (nodes : List Node) (pods : List Pod) (r : Matched)
    → list_and_match_running_app_pods_to_nodes (ok nodes) (ok pods) ≡ ok r
    → (ips : List String) × (list_node_ips (ok nodes) ≡ ok ips)
      × (r.ips_not_found ≡ without_pod pods ips)
      × (r.has_any_duplicates ≡ share_host pods)
      × ((ip : String) → is_present ip r.map_nodeip_to_podip ≡ runs_on ip pods)
unfolding list_and_match_running_app_pods_to_nodes
list_and_match_sound nodes pods r h =
    let (ips, h1, listed) = >>=-eq-ok (list_node_ips (ok nodes)) _ h in
    let (found, h2, ran) = >>=-eq-ok (list_running_app_pods (ok pods)) _ h1 in
    let entries : found ≡ entries_of pods =
      running_pods-entries pods [] (unfold list_running_app_pods in ran) in
    let same : matched ips found ≡ r = cc in
    let present = λ (ip : String).
      match_hosts-present ip found false []
      ∙ ap (λ b. b || host_in ip found) (is_present-nil ip)
      ∙ ap (host_in ip) entries
      ∙ host_in-entries ip pods in
    (
      ips,
      listed,
      ap (λ (q : Matched). q.ips_not_found) (sym same)
          ∙ hosts_not_found-lem pods (match_hosts found false []).1 present ips,
      ap (λ (q : Matched). q.has_any_duplicates) (sym same)
          ∙ match_hosts-shares found false []
          ∙ ap (λ b. b || shares found) (any_present-nil found)
          ∙ ap shares entries
          ∙ shares-entries pods,
      λ ip. ap (λ (q : Matched). is_present ip q.map_nodeip_to_podip) (sym same) ∙ present ip,
    )
