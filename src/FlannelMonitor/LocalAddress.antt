-- ===== src/FlannelMonitor/LocalAddress.antt =====
-- What platform/flannel-monitor/reflector/flannel-monitor-reflector.go takes as the address of its machine.
use homeworld.Common.{
  ◌≡◌, refl, sym, ap, ◌∙◌, ◌↔◌, Bool, true, false, Option, none, some, List, [], ◌∷◌, ◌++◌, map,
  if◌then◌else◌, message, Result, ok, err, ◌>>=◌, >>=-eq-ok,
}
use homeworld.FlannelMonitor.Reflector.{
  Surroundings, some_or, find, scan_addresses, scan_interfaces, get_ip,
}

module _ {Ip Network : Type 0} (s : Surroundings Ip Network) (network : Network) where
  open s use {contains}

  -- The addresses in the network.
  unfoldable pub matching : List Ip → List Ip
  matching [] = []
  matching (ip ∷ ips) = let rest = matching ips in if contains network ip then ip ∷ rest else rest

  -- At most one address may be found, together with the one that was found before.
  abbrev pub outcome : Option Ip → List Ip → Result (Option Ip)
  outcome found [] = ok found
  outcome none (ip ∷ []) = ok (some ip)
  outcome none (ip ∷ next ∷ ips) = err (message "multiple IPs found that match network %v: %v, %v")
  outcome (some found) (ip ∷ ips) = err (message "multiple IPs found that match network %v: %v, %v")

  outcome-find :
      (ip : Ip) (found : Option Ip) (rest : List Ip)
      → (do found' ← find s ip found; outcome found' rest) ≡ outcome found (ip ∷ rest)
  outcome-find ip none [] = refl
  outcome-find ip none (next ∷ ips) = refl
  outcome-find ip (some found) rest = refl

  scan_addresses-outcome :
      (ips : List Ip) (found : Option Ip)
      → scan_addresses s network ips found ≡ outcome found (matching ips)
  unfolding scan_addresses matching
  scan_addresses-outcome [] found = refl
  scan_addresses-outcome (ip ∷ ips) found =
      considered (contains network ip) (λ f. scan_addresses-outcome ips f)
    where
      considered :
          (b : Bool)
          → ((f : Option Ip) → scan_addresses s network ips f ≡ outcome f (matching ips))
          → (do
            found' ← if b then find s ip found else ok found
            scan_addresses s network ips found')
            ≡ outcome found (if b then ip ∷ matching ips else matching ips)
      considered true ih =
          (λ i. find s ip found >>= λ found'. ih found' i) ∙ outcome-find ip found (matching ips)
      considered false ih = ih found

  matching-append : (xs ys : List Ip) → matching (xs ++ ys) ≡ matching xs ++ matching ys
  unfolding matching
  matching-append [] ys = refl
  matching-append (x ∷ xs) ys = kept (contains network x) (matching-append xs ys)
    where
      kept :
          (b : Bool)
          → matching (xs ++ ys) ≡ matching xs ++ matching ys
          → (if b then x ∷ matching (xs ++ ys) else matching (xs ++ ys))
            ≡ (if b then x ∷ matching xs else matching xs) ++ matching ys
      kept true ih = ap (λ l. x ∷ l) ih
      kept false ih = ih

  outcome-append :
      (xs ys : List Ip) (found : Option Ip)
      → (do found' ← outcome found xs; outcome found' ys) ≡ outcome found (xs ++ ys)
  outcome-append [] ys found = refl
  outcome-append (x ∷ xs) ys (some found) = refl
  outcome-append (x ∷ []) [] none = refl
  outcome-append (x ∷ []) (y ∷ ys) none = refl
  outcome-append (x ∷ next ∷ xs) ys none = refl

  -- All addresses of the interfaces, in the order in which they are looked at.
  unfoldable pub all_addresses : List (List Ip) → List Ip
  all_addresses [] = []
  all_addresses (ips ∷ lists) = ips ++ all_addresses lists

  scan_interfaces-outcome :
      (lists : List (List Ip)) (found : Option Ip)
      → scan_interfaces s network (map ok lists) found
        ≡ outcome found (matching (all_addresses lists))
  unfolding scan_interfaces all_addresses matching
  scan_interfaces-outcome [] found = refl
  scan_interfaces-outcome (ips ∷ lists) found =
      ap (λ r. do found' ← r; scan_interfaces s network (map ok lists) found')
        (scan_addresses-outcome ips found)
      ∙ (λ i. outcome found (matching ips) >>= λ found'. scan_interfaces-outcome lists found' i)
      ∙ outcome-append (matching ips) (matching (all_addresses lists)) found
      ∙ ap (outcome found) (sym (matching-append ips (all_addresses lists)))

  scan_interfaces-reads :
      (ifaces : List (Result (List Ip))) (found last : Option Ip)
      → scan_interfaces s network ifaces found ≡ ok last
      → (lists : List (List Ip)) × (ifaces ≡ map ok lists)
  unfolding scan_interfaces
  scan_interfaces-reads [] found last e = ([], refl)
  scan_interfaces-reads (iface ∷ ifaces) found last e =
      let (ips, h, e1) = >>=-eq-ok iface _ e in
      let (found', h', e2) = >>=-eq-ok (scan_addresses s network ips found) _ h in
      let (lists, k) = scan_interfaces-reads ifaces found' last h' in (ips ∷ lists, cc)

  outcome-single :
      (ips : List Ip) (ip : Ip)
      → (do
        found ← outcome none ips
        some_or "could not find matching local IP for network %v" found)
        ≡ ok ip
      → ips ≡ ip ∷ []
  outcome-single [] ip e = cc
  outcome-single (x ∷ []) ip e = cc
  outcome-single (x ∷ next ∷ xs) ip e = cc

  -- The address of the machine is found exactly if all interfaces can be read and one address of them is
  -- in the network.
  pub get_ip_iff :
      (ip : Ip)
      → (get_ip s network ≡ ok ip) ↔ (
          (lists : List (List Ip)) × (s.interfaces ≡ ok (map ok lists))
          × (matching (all_addresses lists) ≡ ip ∷ []))
  unfolding get_ip
  get_ip_iff ip = (only_if, if_so)
    where
      only_if :
          get_ip s network ≡ ok ip
          → (lists : List (List Ip)) × (s.interfaces ≡ ok (map ok lists))
            × (matching (all_addresses lists) ≡ ip ∷ [])
      only_if e =
          let (ifaces, h, e1) = >>=-eq-ok s.interfaces _ e in
          let (found, h', e2) = >>=-eq-ok (scan_interfaces s network ifaces none) _ h in
          let (lists, k) = scan_interfaces-reads ifaces none found e2 in
          (
            lists,
            e1 ∙ ap ok k,
            outcome-single (matching (all_addresses lists)) ip (
                ap
                  (λ r. do
                    found ← r
                    some_or "could not find matching local IP for network %v" found)
                  (sym (scan_interfaces-outcome lists none)
                    ∙ ap (λ l. scan_interfaces s network l none) (sym k))
                ∙ h),
          )

      if_so :
          (lists : List (List Ip)) × (s.interfaces ≡ ok (map ok lists))
            × (matching (all_addresses lists) ≡ ip ∷ [])
          → get_ip s network ≡ ok ip
      if_so (lists, h, k) =
          ap
            (λ r. do
              ifaces ← r
              found ← scan_interfaces s network ifaces none
              some_or "could not find matching local IP for network %v" found)
            h
          ∙ ap (λ r. do found ← r; some_or "could not find matching local IP for network %v" found)
              (scan_interfaces-outcome lists none ∙ ap (outcome none) k)
