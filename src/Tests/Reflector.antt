-- ===== src/Tests/Reflector.antt =====
-- The reflector on a machine with two interfaces, of which one address is in the network of flannel.
use homeworld.Common.{
  ℕ, ◌/◌, ◌≡◌, refl, ◌↔◌, none, some, List, [], ◌∷◌, map, ◌==◌, eqb, if◌then◌else◌, message, ok,
  err,
}
use homeworld.FlannelMonitor.Reflector.{Surroundings, scan_addresses, scan_interfaces, get_ip, main}
use homeworld.FlannelMonitor.LocalAddress.{matching, all_addresses, get_ip_iff}

-- Addresses and networks are numbers: an address is in the network of its hundreds.
abbrev surroundings : Surroundings ℕ ℕ
surroundings = record {
  in_cluster_config = ok tt;
  new_for_config = none;
  getenv = λ name. "172";
  parse_cidr = λ text. if text == "172" then ok 172 else err (message "invalid CIDR address");
  pod_ip = λ namespace name. ok "172.1";
  parse_ip = λ text. if text == "172.1" then some 17201 else none;
  contains = λ network ip. eqb (ip / 100) network;
  is_equal = eqb;
  interfaces = ok (map ok ((101 ∷ []) ∷ (1804 ∷ 17201 ∷ []) ∷ []));
}

main_runs : main surroundings ≡ ok 17201
unfolding main get_ip scan_interfaces scan_addresses
main_runs = refl

get_ip_iff_example : (get_ip surroundings 172 ≡ ok 17201) ↔ (
    (lists : List (List ℕ)) × (surroundings.interfaces ≡ ok (map ok lists))
    × (matching surroundings 172 (all_addresses surroundings 172 lists) ≡ 17201 ∷ []))
get_ip_iff_example = get_ip_iff surroundings 172 17201
