-- ===== src/FlannelMonitor.antt =====
-- platform/flannel-monitor/common/common.go: which nodes of the cluster run a pod of an application. What
-- the Kubernetes API lists is an argument, an error included.
use homeworld.Common.{
  ◌-◌, ◌/◌, ◌%◌, String, ap, Bool, true, false, not, ◌&&◌, Option, none, some, List, [], ◌∷◌, map,
  ◌==◌, if◌then◌else◌, message, Result, ok, err, ◌>>=◌, ◌>>◌,
}
use homeworld.Common.Dict.{Dict, lookup, insert}
pub mod Matching
pub mod Hosts
pub mod Cycle
pub mod Collector
pub mod Reports
pub mod Reflector
pub mod LocalAddress

pub record NodeAddress : Type 0 where
  pub kind : String
  pub address : String

pub record Node : Type 0 where
  pub name : String
  pub addresses : List NodeAddress

pub record Pod : Type 0 where
  pub name : String
  pub phase : String
  pub host_ip : String
  pub pod_ip : String

-- The loop over the addresses of one node, from the address found so far.
unfoldable pub internal_ip : List NodeAddress → String → Result String
internal_ip [] node_ip = ok node_ip
internal_ip (addr ∷ addrs) node_ip = elim (addr.kind == "InternalIP") [
  | false ↦ internal_ip addrs node_ip
  | true ↦
      if not (node_ip == "") && not (node_ip == addr.address)
      then err (message "got multiple IPs for node: %s")
      else internal_ip addrs addr.address
]

abbrev pub some_ip : String → Result String
some_ip node_ip =
    if node_ip == "" then err (message "could not get IP for node: %s") else ok node_ip

-- The loop over the nodes, which appends to `ip_list`.
unfoldable pub node_ips : List Node → Result (List String)
unfolding internal_ip
node_ips [] = ok []
node_ips (item ∷ items) = do
  found ← internal_ip item.addresses ""
  node_ip ← some_ip found
  rest ← node_ips items
  ok (node_ip ∷ rest)

unfoldable pub list_node_ips : Result (List Node) → Result (List String)
unfolding node_ips
list_node_ips nodelist = do items ← nodelist; node_ips items

abbrev pub add_pod : Pod → Option String → Dict String → Result (Dict String)
add_pod item (some held) m = err (message "duplicate pod for podIP: %s for %s")
add_pod item none m = ok (insert item.pod_ip item.host_ip m)

abbrev pub consider_pod : Pod → Dict String → Result (Dict String)
consider_pod item m =
    if not (item.phase == "Running") then ok m else add_pod item (lookup item.pod_ip m) m

-- The loop over the pods, which fills the map from their addresses to those of their hosts.
unfoldable pub running_pods : List Pod → Dict String → Result (Dict String)
running_pods [] m = ok m
running_pods (item ∷ items) m = do m' ← consider_pod item m; running_pods items m'

unfoldable pub list_running_app_pods : Result (List Pod) → Result (Dict String)
unfolding running_pods
list_running_app_pods podlist = do items ← podlist; running_pods items []

abbrev pub is_present : String → Dict String → Bool
is_present key m = elim (lookup key m) [ none ↦ false | some _ ↦ true ]

-- The loop over that map, with the flag for duplicates and the map from hosts to pods.
unfoldable pub match_hosts : Dict String → Bool → Dict String → Bool × Dict String
match_hosts [] has_any_duplicates m = (has_any_duplicates, m)
match_hosts ((pod_ip, host_ip) ∷ pods) has_any_duplicates m =
    match_hosts pods (if is_present host_ip m then true else has_any_duplicates)
      (insert host_ip pod_ip m)

unfoldable pub hosts_not_found : List String → Dict String → List String
hosts_not_found [] m = []
hosts_not_found (node_ip ∷ ips) m =
    let rest = hosts_not_found ips m in if is_present node_ip m then rest else node_ip ∷ rest

pub record Matched : Type 0 where
  pub ips_not_found : List String
  pub has_any_duplicates : Bool
  pub map_nodeip_to_podip : Dict String

abbrev pub matched : List String → Dict String → Matched
matched ips pods =
    let (duplicates, m) = match_hosts pods false [] in
    record {
      ips_not_found = hosts_not_found ips m;
      has_any_duplicates = duplicates;
      map_nodeip_to_podip = m;
    }

unfoldable pub list_and_match_running_app_pods_to_nodes :
    Result (List Node) → Result (List Pod) → Result Matched
unfolding list_node_ips list_running_app_pods match_hosts hosts_not_found
list_and_match_running_app_pods_to_nodes nodelist podlist = do
  ips ← list_node_ips nodelist
  pods ← list_running_app_pods podlist
  ok (matched ips pods)
