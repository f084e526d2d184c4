-- ===== src/Kubernetes.antt =====
-- platform/kubernetes/wrapper/wrap.go: configuration files and kubeconfigs. `W` is the state of the
-- operating system.
use Prim.Native.String.{◌++◌ as str_append}
use homeworld.Common.{
  ℕ, ◌+◌, ◌-◌, ◌/◌, ◌%◌, String, ap, Bool, not, ◌&&◌, Option, none, some, List, [], ◌∷◌, ◌++◌, map,
  ◌==◌, if◌then◌else◌, Error, message, Result, ok, err, panic,
}
use homeworld.Common.Dict.{Dict, insert, lookup}
use homeworld.Common.Effects.{Effect, ◌>>=◌, ◌>>◌, give, ask, wrapping}
pub mod Settings
pub mod Launch
pub mod Kubelet
pub mod Hardening
pub mod Refusals
pub mod Deploy
pub mod Queue

pub record Cluster : Type 0 where
  pub server : String
  pub certificate_authority : String

pub record AuthInfo : Type 0 where
  pub client_certificate : String
  pub client_key : String

pub record KubeContext : Type 0 where
  pub cluster : String
  pub auth_info : String

-- The fields of `api.Config` of client-go that the source sets.
pub record KubeConfig : Type 0 where
  pub current_context : String
  pub clusters : Dict Cluster
  pub auth_infos : Dict AuthInfo
  pub contexts : Dict KubeContext

-- The packages that the launchers call: `net`, `strconv`, `strings`, `os/exec`, `github.com/pkg/errors`
-- and client-go.
pub record Machine (W : Type 0) : Type 0 where
  pub read_file : String → W → Result String
  -- `strings.Split` at "\n", and `strings.SplitN` at "=" into two parts, if there are two
  pub split_lines : String → List String
  pub split_pair : String → Option (String × String)
  pub trim_space : String → String
  -- `line[0] == '#'`, for a line that is not empty
  pub is_comment : String → Bool
  pub count : String → String → ℕ
  pub parse_uint32 : String → Option Error
  pub parse_cidr : String → Option Error
  -- `net.ParseIP` gives an address
  pub parses_as_ip : String → Bool
  pub parse_bool : String → Result Bool
  pub wrap : String → Error → Error
  -- `clientcmd.WriteToFile`
  pub write_kube_config : KubeConfig → String → Effect W (Unit {0})
  -- `exec.Command` and `Run`
  pub run : List String → Effect W (Unit {0})

abbrev pub kubernetes_ca_path : String
kubernetes_ca_path = "/etc/homeworld/authorities/kubernetes.pem"

abbrev pub cluster_conf_path : String
cluster_conf_path = "/etc/homeworld/config/cluster.conf"

abbrev pub local_conf_path : String
local_conf_path = "/etc/homeworld/config/local.conf"

-- A read of a Go map that gives "" for a missing key.
abbrev pub or_empty : Option String → String
or_empty none = ""
or_empty (some held) = held

abbrev pub setting : String → Dict String → String
setting key kvs = or_empty (lookup key kvs)

abbrev pub then_lines :
    (Dict String → Result (Dict String)) → Result (Dict String) → Result (Dict String)
then_lines rest (ok kvs) = rest kvs
then_lines rest (err e) = err e
then_lines rest (panic t) = panic t

abbrev find_api_server : Option String → Result String
find_api_server none = err (message "could not find key 'APISERVER'")
find_api_server (some apiserver) = ok apiserver

abbrev pub kube_config : String → String → String → KubeConfig
kube_config apiserver keypath certpath = record {
  current_context = "hyades";
  clusters =
      ("hyades-cluster", record { server = apiserver; certificate_authority = kubernetes_ca_path })
      ∷ [];
  auth_infos =
      ("kubelet-auth", record { client_certificate = certpath; client_key = keypath }) ∷ [];
  contexts = ("hyades", record { cluster = "hyades-cluster"; auth_info = "kubelet-auth" }) ∷ [];
}

module _ {W : Type 0} (machine : Machine W) where
  open machine use {trim_space, split_pair, is_comment}

  abbrev pub keeps_line : String → Bool
  keeps_line line = not (line == "") && not (is_comment line)

  abbrev pub store : Option (String × String) → Dict String → Result (Dict String)
  store none kvs = err (message "incorrectly formatted configuration file '%s'")
  store (some (key, held)) kvs = ok (insert (trim_space key) (trim_space held) kvs)

  -- The body of the loop, with the line already trimmed.
  abbrev pub read_line : String → Dict String → Result (Dict String)
  read_line line kvs = if keeps_line line then store (split_pair line) kvs else ok kvs

  unfoldable pub read_lines : List String → Dict String → Result (Dict String)
  read_lines [] kvs = ok kvs
  read_lines (line ∷ lines) kvs = then_lines (read_lines lines) (read_line (trim_space line) kvs)

  abbrev pub read_conf : Result String → Result (Dict String)
  read_conf (ok conf) = read_lines (machine.split_lines conf) []
  read_conf (err e) = err e
  read_conf (panic t) = panic t

  unfoldable pub get_conf : String → W → Result (Dict String)
  unfolding read_lines
  get_conf filename w = read_conf (machine.read_file filename w)

  unfoldable pub get_cluster_conf : W → Result (Dict String)
  unfolding get_conf
  get_cluster_conf = get_conf cluster_conf_path

  unfoldable pub get_local_conf : W → Result (Dict String)
  unfolding get_conf
  get_local_conf = get_conf local_conf_path

  unfoldable pub get_api_server : Effect W String
  unfolding get_cluster_conf
  get_api_server = do kvs ← ask get_cluster_conf; give (find_api_server (lookup "APISERVER" kvs))

  unfoldable pub generate_kube_config_for_api_server_to_file :
      String → String → String → String → Effect W (Unit {0})
  generate_kube_config_for_api_server_to_file apiserver keypath certpath =
      machine.write_kube_config (kube_config apiserver keypath certpath)

  unfoldable pub generate_kube_config_to_file : String → String → String → Effect W (Unit {0})
  unfolding get_api_server generate_kube_config_for_api_server_to_file
  generate_kube_config_to_file keypath certpath filename = do
    apiserver ← get_api_server
    generate_kube_config_for_api_server_to_file apiserver keypath certpath filename
