-- ===== src/WorldConfig/Spire.antt =====
-- platform/keysystem/worldconfig/spiresetup.go. `setup` says whether the pointer of a node to its
-- setup is set, and `net_ip` is nil until the node is validated.
use Prim.Native.String.{◌++◌ as str_append}
use homeworld.Common.{
  ℕ, ◌+◌, String, Bool, true, false, not, ◌||◌, Option, none, some, List, [], ◌∷◌, ◌++◌, ◌==◌, eqb,
  if◌then◌else◌, message, Result, ok, err, panic, ◌>>=◌, ◌>>◌, guard,
}
use homeworld.Authority.Crypto.{Ip, Net}

pub record SpireNode : Type 0 where
  pub hostname : String
  pub ip : String
  pub net_ip : Option Ip
  pub setup : Bool
  pub kind : String

pub record Cluster : Type 0 where
  pub external_domain : String
  pub internal_domain : String
  pub kerberos_realm : String

-- The nodes are pointers in the source; a null entry of the file, at which the source panics, is left out.
pub record SpireSetup : Type 0 where
  pub cluster : Cluster
  pub service_api : String
  pub nodes : List SpireNode
  pub supervisor : Option SpireNode
  pub root_admins : List String

unfoldable pub is_supervisor : SpireNode → Bool
is_supervisor s = s.kind == "supervisor"

unfoldable pub is_master : SpireNode → Bool
is_master s = s.kind == "master"

unfoldable pub is_worker : SpireNode → Bool
is_worker s = s.kind == "worker"

unfoldable pub dns : Cluster → SpireNode → Result String
dns cluster s =
    if s.setup
    then ok (str_append s.hostname (str_append "." cluster.external_domain))
    else panic "uninitialized"

unfoldable pub net_ip : SpireNode → Result Ip
net_ip s = elim s.net_ip [ none ↦ panic "uninitialized" | some ip ↦ ok ip ]

unfoldable pub supervisor : SpireSetup → Result SpireNode
supervisor s = elim s.supervisor [ none ↦ panic "uninitialized" | some node ↦ ok node ]

-- What the loop over the nodes has so far: the nodes as they are now, `setup.supervisor`, and the
-- number of supervisors.
pub record Scan : Type 0 where
  pub checked : List SpireNode
  pub supervisor : Option SpireNode
  pub supervisors : ℕ

abbrev pub note : SpireNode → Scan → Scan
note node s =
    if is_supervisor node
    then record {
      checked = s.checked ++ node ∷ [];
      supervisor = some node;
      supervisors = s.supervisors + 1;
    }
    else record s { checked = s.checked ++ node ∷ [] }

module _ (net : Net) where
  -- The body of the loop for one node.
  unfoldable pub check_node : SpireNode → Result SpireNode
  unfolding is_supervisor is_master is_worker
  check_node node = do
    guard (is_supervisor node || is_master node || is_worker node)
        (message "unrecognized kind of node: %s")
    elim (net.parse_ip node.ip) [
      | none ↦ err (message "could not parse IP: %s")
      | some ip ↦ ok (record node { net_ip = some ip; setup = true })
    ]

  unfoldable pub check_nodes : List SpireNode → Scan → Result Scan
  unfolding check_node
  check_nodes [] s = ok s
  check_nodes (node ∷ nodes) s = do checked ← check_node node; check_nodes nodes (note checked s)

-- `_, found := dupcheck[rootadmin]`
unfoldable pub is_member : String → List String → Bool
is_member name [] = false
is_member name (seen ∷ rest) = name == seen || is_member name rest

unfoldable pub check_admins : List String → List String → Result (Unit {0})
unfolding is_member
check_admins dupcheck [] = ok tt
check_admins dupcheck (rootadmin ∷ rest) = do
  guard (not (rootadmin == "")) (message "invalid root admin name ''")
  guard (not (is_member rootadmin dupcheck)) (message "duplicate root admin: %s")
  check_admins (rootadmin ∷ dupcheck) rest

abbrev pub empty_scan : Scan
empty_scan = record { checked = []; supervisor = none; supervisors = 0 }

module _ (net : Net) where
  -- The validation steps, over the setup that was parsed.
  unfoldable pub validate : SpireSetup → Result SpireSetup
  unfolding check_nodes check_admins
  validate setup = do
    s ← check_nodes net setup.nodes empty_scan
    guard (eqb s.supervisors 1) (message "expected exactly 1 declared supervisor, not %d")
    check_admins [] setup.root_admins
    ok (record setup { nodes = s.checked; supervisor = s.supervisor })

  -- `parse_yaml` is `yaml.Unmarshal` of `gopkg.in/yaml.v2`, and the content is what was read.
  unfoldable pub load_spire_setup : (String → Result SpireSetup) → Result String → Result SpireSetup
  unfolding validate
  load_spire_setup parse_yaml read = do content ← read; setup ← parse_yaml content; validate setup
