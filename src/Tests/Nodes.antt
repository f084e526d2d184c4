-- ===== src/Tests/Nodes.antt =====
-- The match of nodes and pods at a sample cluster.
use homeworld.Common.{String, ◌≡◌, refl, true, List, [], ◌∷◌, ok}
use homeworld.Common.Dict.{insert, lookup}
use homeworld.FlannelMonitor.{Node, Pod, Matched, list_and_match_running_app_pods_to_nodes}

abbrev pub node : String → String → Node
node name ip = record {
  name = name;
  addresses =
      record { kind = "Hostname"; address = name }
      ∷ record { kind = "InternalIP"; address = ip }
      ∷ [];
}

abbrev pub pod : String → String → String → Pod
pod phase host_ip pod_ip = record {
  name = "flannel";
  phase = phase;
  host_ip = host_ip;
  pod_ip = pod_ip;
}

abbrev pub nodes : List Node
nodes = node "one" "10.0.0.1" ∷ node "two" "10.0.0.2" ∷ node "three" "10.0.0.3" ∷ []

abbrev pub pods : List Pod
pods =
    pod "Running" "10.0.0.1" "172.0.0.1"
    ∷ pod "Pending" "10.0.0.2" "172.0.0.2"
    ∷ pod "Running" "10.0.0.1" "172.0.0.3"
    ∷ []

abbrev pub result : Matched
result = record {
  ips_not_found = "10.0.0.2" ∷ "10.0.0.3" ∷ [];
  has_any_duplicates = true;
  map_nodeip_to_podip = ("10.0.0.1", "172.0.0.3") ∷ [];
}

pub matches : list_and_match_running_app_pods_to_nodes (ok nodes) (ok pods) ≡ ok result
unfolding list_and_match_running_app_pods_to_nodes lookup insert
matches = refl
