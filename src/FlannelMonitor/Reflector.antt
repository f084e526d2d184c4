-- ===== src/FlannelMonitor/Reflector.antt =====
-- platform/flannel-monitor/reflector/flannel-monitor-reflector.go, which answers pings at the address that its
-- pod has in the network of flannel. `log.Fatal` ends the program with an error.
use homeworld.Common.{
  ℕ, String, Bool, not, Option, none, some, List, [], ◌∷◌, ◌==◌, if◌then◌else◌, Error, message,
  Result, ok, err, panic, ◌>>=◌, ◌>>◌, guard,
}

-- The package `net`, client-go and the environment of the process. The interfaces of the machine are
-- listed with the addresses of each.
pub record Surroundings (Ip Network : Type 0) : Type 0 where
  pub in_cluster_config : Result (Unit {0})
  -- `NewForConfigOrDie` panics at an error
  pub new_for_config : Option Error
  pub getenv : String → String
  pub parse_cidr : String → Result Network
  -- `.Status.PodIP` of the pod with this name in this namespace
  pub pod_ip : String → String → Result String
  pub parse_ip : String → Option Ip
  pub contains : Network → Ip → Bool
  pub is_equal : Ip → Ip → Bool
  pub interfaces : Result (List (Result (List Ip)))

abbrev or_die : Option Error → Result (Unit {0})
or_die none = ok tt
or_die (some e) = panic "new clientset"

abbrev pub some_or : {A : Type 0} → String → Option A → Result A
some_or text none = err (message text)
some_or text (some a) = ok a

abbrev or_fatal : {A : Type 0} → String → Result A → Result A
or_fatal text (ok a) = ok a
or_fatal text (err e) = err (message text)
or_fatal text (panic t) = panic t

-- The handler: the status and the body.
unfoldable pub answer : String → ℕ × String
answer path = if path == "/ping" then (200, "PONG") else (404, "not found\n")

module _ {Ip Network : Type 0} (s : Surroundings Ip Network) where
  open s use {getenv, contains}

  abbrev pub find : Ip → Option Ip → Result (Option Ip)
  find ip none = ok (some ip)
  find ip (some found) = err (message "multiple IPs found that match network %v: %v, %v")

  abbrev pub consider : Network → Ip → Option Ip → Result (Option Ip)
  consider network ip found = if contains network ip then find ip found else ok found

  -- The loop over the addresses of an interface, and the loop over the interfaces.
  unfoldable pub scan_addresses : Network → List Ip → Option Ip → Result (Option Ip)
  scan_addresses network [] found = ok found
  scan_addresses network (ip ∷ ips) found = do
    found' ← consider network ip found
    scan_addresses network ips found'

  unfoldable pub scan_interfaces :
      Network → List (Result (List Ip)) → Option Ip → Result (Option Ip)
  unfolding scan_addresses
  scan_interfaces network [] found = ok found
  scan_interfaces network (iface ∷ ifaces) found = do
    addrs ← iface
    found' ← scan_addresses network addrs found
    scan_interfaces network ifaces found'

  unfoldable pub get_ip : Network → Result Ip
  unfolding scan_interfaces
  get_ip network = do
    interfaces ← s.interfaces
    found ← scan_interfaces network interfaces none
    some_or "could not find matching local IP for network %v" found

  -- What stands before `http.ListenAndServe`, with the address that is found.
  unfoldable pub main : Result Ip
  unfolding get_ip
  main = do
    s.in_cluster_config
    or_die s.new_for_config
    let namespace = getenv "POD_NAMESPACE"
    guard (not (namespace == "")) (message "no namespace found in POD_NAMESPACE")
    let name = getenv "POD_NAME"
    guard (not (name == "")) (message "no name found in POD_NAME")
    let network_raw = getenv "FLANNEL_NETWORK"
    guard (not (name == "")) (message "no network found in FLANNEL_NETWORK")
    network ← s.parse_cidr network_raw
    status ← or_fatal "cannot get info for current reflector pod: %s" (s.pod_ip namespace name)
    pod_ip ← some_or "invalid pod IP" (s.parse_ip status)
    guard (contains network pod_ip) (message "pod IP not in expected network")
    local_ip ← or_fatal "could not get local IP" (get_ip network)
    guard (s.is_equal local_ip pod_ip) (message "discovered IP mismatch")
    ok local_ip
