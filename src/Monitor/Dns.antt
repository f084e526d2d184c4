-- ===== src/Monitor/Dns.antt =====
-- platform/dns-monitor/dns-monitor.go. `W` is the state of the network; times are in nanoseconds.
use homeworld.Common.{
  ℕ, ◌-◌, String, Bool, true, false, Option, none, some, List, [], ◌∷◌, if◌then◌else◌, message,
  Result, ok, err, ◌>>=◌,
}
use homeworld.Common.Dict.{Dict, lookup, insert}
use homeworld.Util.Substitution.{split_at}
use homeworld.Monitor.{GaugeVec, probe_all}

-- `LookupIPAddr` gives addresses or fails, of which only that is seen; `parse_ip` is `net.ParseIP`.
pub record Resolver (Ip W : Type 0) : Type 0 where
  pub lookup_ip_addr : String → W → Option (List Ip) × W
  pub now : W → ℕ
  pub parse_ip : String → Option Ip
  pub is_equal : Ip → Ip → Bool

-- The histograms are the list of what was observed, with the hostname.
pub record Metrics (V : Type 0) : Type 0 where
  pub internal_check : V
  pub timing : List (String × ℕ)
  pub recency : ℕ

abbrev pub hostname_label : String → List String
hostname_label hostname = hostname ∷ []

abbrev pub two_parts : String × List String → Result (String × String)
two_parts (first, second ∷ []) = ok (first, second)
two_parts (first, []) = err (message "found improperly formatted parameter: %s")
two_parts (first, second ∷ third ∷ rest) = err (message "found improperly formatted parameter: %s")

module _ {Ip W : Type 0} (r : Resolver Ip W) where
  open r use {lookup_ip_addr, now, parse_ip, is_equal}

  abbrev pub parsed_ip : Option Ip → Result Ip
  parsed_ip none = err (message "found invalid IP address: %s")
  parsed_ip (some ip) = ok ip

  abbrev pub add_expectation : String → Ip → Dict Ip → Option Ip → Result (Dict Ip)
  add_expectation hostname ip m none = ok (insert hostname ip m)
  add_expectation hostname ip m (some held) = err (message "duplicate hostname: %s")

  -- The body of the loop over the arguments.
  unfoldable pub parse_arg : String → Dict Ip → Result (Dict Ip)
  unfolding split_at
  parse_arg arg expectations = do
    (hostname, text) ← two_parts (split_at b'=' arg)
    ip ← parsed_ip (parse_ip text)
    add_expectation hostname ip expectations (lookup hostname expectations)

  unfoldable pub add_args : List String → Dict Ip → Result (Dict Ip)
  unfolding parse_arg
  add_args [] expectations = ok expectations
  add_args (arg ∷ args) expectations = do
    expectations' ← parse_arg arg expectations
    add_args args expectations'

  abbrev pub some_expected : Dict Ip → Result (Dict Ip)
  some_expected [] = err (message "no parameters provided")
  some_expected (entry ∷ m) = ok (entry ∷ m)

  unfoldable pub parse_args : List String → Result (Dict Ip)
  unfolding add_args
  parse_args args = do expectations ← add_args args []; some_expected expectations

  abbrev pub one_address : ℕ → Option (List Ip) × W → Option (Ip × ℕ) × W
  one_address start (some (ip ∷ []), w) = (some (ip, now w - start), w)
  one_address start (some [], w) = (none, w)
  one_address start (some (ip ∷ other ∷ ips), w) = (none, w)
  one_address start (none, w) = (none, w)

  unfoldable pub grab_one_ipv4 : String → W → Option (Ip × ℕ) × W
  grab_one_ipv4 host w = one_address (now w) (lookup_ip_addr host w)

  abbrev pub compared :
      String → Ip → List (String × ℕ) → Option (Ip × ℕ) × W → Bool × (W × List (String × ℕ))
  compared hostname expect_ip seen (none, w) = (false, (w, seen))
  compared hostname expect_ip seen (some (found_ip, duration), w) =
      if is_equal expect_ip found_ip
      then (true, (w, (hostname, duration) ∷ seen))
      else (false, (w, seen))

  -- The body of the loop of `cycle`, of which the gauge is set by `probe_all`.
  unfoldable pub check_hostname :
      String → Ip → W × List (String × ℕ) → Bool × (W × List (String × ℕ))
  unfolding grab_one_ipv4
  check_hostname hostname expect_ip (w, seen) =
      compared hostname expect_ip seen (grab_one_ipv4 hostname w)

  module _ {V : Type 0} (g : GaugeVec V) where
    abbrev pub finished : ℕ → V × (W × List (String × ℕ)) → Metrics V × W
    finished recency (v, (w, seen)) =
        (record { internal_check = v; timing = seen; recency = recency }, w)

    unfoldable pub cycle : Dict Ip → Metrics V → W → Metrics V × W
    unfolding check_hostname probe_all
    cycle expectations m w =
        finished (now w)
          (probe_all g hostname_label check_hostname expectations (m.internal_check, (w, m.timing)))
