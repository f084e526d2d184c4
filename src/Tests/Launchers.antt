-- ===== src/Tests/Launchers.antt =====
-- The launchers on a sample machine, whose state is the list of the commands that were run.
use Prim.Native.Char.{Char, code}
use Prim.Native.String.{[] as nil, ◌∷◌ as cons}
use homeworld.Common.{
  String, ◌≡◌, refl, ◌↔◌, ◌⊎◌, Bool, false, ◌||◌, Option, none, some, List, [], ◌∷◌, ◌==◌, eqb,
  if◌then◌else◌, message, not_exist, foreign, ok, err, IsErr, All,
}
use homeworld.Common.Dict.{Dict, lookup, insert}
use homeworld.Kubernetes.{
  Machine, get_conf, get_cluster_conf, get_local_conf, cluster_conf_path, local_conf_path,
}
use homeworld.Kubernetes.Settings.{get_conf_iff, last_assigned, IsLine}
use homeworld.Kubernetes.Launch.{launch_api_server, run_with_verbosity, api_server_command}
use homeworld.Kubernetes.Kubelet.{launch_service}
use homeworld.Kubernetes.Hardening.{IsHardened, launch_service-Keeps}
use homeworld.Kubernetes.Refusals.{IsUsable, launch_api_server_cases}

-- What stands before and after the first equals sign.
abbrev key_and_rest : Char → Option (String × String) → Option (String × String)
key_and_rest c none = none
key_and_rest c (some (key, held)) = some (cons c key, held)

abbrev split_equals : String → Option (String × String)
split_equals nil = none
split_equals (cons c s) =
    if eqb (code c) b'=' then some (nil, s) else key_and_rest c (split_equals s)

abbrev starts_comment : String → Bool
starts_comment nil = false
starts_comment (cons c s) = eqb (code c) b'#'

abbrev cluster_lines : List String
cluster_lines =
    "# the cluster" ∷ "APISERVER_COUNT=1" ∷ "SERVICE_CIDR=172.28.0.0/16" ∷ "" ∷ "SERVICE_DNS=dns"
    ∷ "CLUSTER_DOMAIN=hyades.local" ∷ "ETCD_ENDPOINTS=https://18.4.60.150:2379"
    ∷ "APISERVER_COUNT=3" ∷ []

abbrev local_lines : List String
local_lines = "HOST_IP=18.4.60.150" ∷ "SCHEDULE_WORK=true" ∷ []

abbrev pub machine : Machine (List (List String))
machine = record {
  read_file = λ path w.
      if path == cluster_conf_path || path == local_conf_path
      then ok path
      else err (not_exist "no such file");
  split_lines = λ text. if text == cluster_conf_path then cluster_lines else local_lines;
  split_pair = split_equals;
  trim_space = λ text. text;
  is_comment = starts_comment;
  count = λ text part. if text == "" then 0 else 1;
  parse_uint32 = λ text. if text == "" then some (message "invalid syntax") else none;
  parse_cidr = λ text. if text == "" then some (message "invalid CIDR address") else none;
  parses_as_ip = λ text. text == "18.4.60.150";
  parse_bool = λ text. ok (text == "true");
  wrap = λ text e. foreign text e;
  write_kube_config = λ config path w. (ok tt, w);
  run = λ args w. (ok tt, args ∷ w);
}

abbrev cluster_conf : Dict String
cluster_conf =
    ("APISERVER_COUNT", "3")
    ∷ ("SERVICE_CIDR", "172.28.0.0/16")
    ∷ ("SERVICE_DNS", "dns")
    ∷ ("CLUSTER_DOMAIN", "hyades.local")
    ∷ ("ETCD_ENDPOINTS", "https://18.4.60.150:2379")
    ∷ []

abbrev local_conf : Dict String
local_conf = ("HOST_IP", "18.4.60.150") ∷ ("SCHEDULE_WORK", "true") ∷ []

get_cluster_conf_runs : get_cluster_conf machine [] ≡ ok cluster_conf
unfolding get_cluster_conf insert
get_cluster_conf_runs = refl

get_local_conf_runs : get_local_conf machine [] ≡ ok local_conf
unfolding get_local_conf insert
get_local_conf_runs = refl

get_conf_iff_example :
    ((kvs : Dict String) × (get_conf machine cluster_conf_path [] ≡ ok kvs)
      × ((key : String) → lookup key kvs ≡ last_assigned machine key cluster_lines))
    ↔ All (IsLine machine) cluster_lines
get_conf_iff_example = get_conf_iff machine cluster_conf_path cluster_conf_path [] refl

-- The commands that were run are hardened.
launch_service-Keeps_example : All (IsHardened machine) (launch_service machine "apiserver" []).1
launch_service-Keeps_example =
    launch_service-Keeps machine (All (IsHardened machine)) (λ config path pinned w p. p)
      (λ args h w p. (h, p)) "apiserver" [] tt

launch_api_server_cases_example :
    (IsUsable machine cluster_conf local_conf
      × (launch_api_server machine []
          ≡ run_with_verbosity machine "while running apiserver"
              (api_server_command "3" "18.4.60.150" "172.28.0.0/16" "https://18.4.60.150:2379")
              []))
    ⊎ (¬ IsUsable machine cluster_conf local_conf
        × IsErr (launch_api_server machine []).0
        × ((launch_api_server machine []).1 ≡ []))
unfolding lookup
launch_api_server_cases_example =
    launch_api_server_cases machine cluster_conf local_conf [] get_cluster_conf_runs
      get_local_conf_runs
