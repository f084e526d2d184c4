-- ===== src/Monitor/Resolution.antt =====
-- What the gauges of the DNS monitor (platform/dns-monitor/dns-monitor.go) say after a cycle, and which
-- arguments it takes.
use homeworld.Common.{
  ℕ, ◌≤◌, String, ◌≡◌, refl, ap, ◌∙◌, subst, inl, inr, Bool, false, Option, none, some, List, [],
  ◌∷◌, arith, Bool-cases, Option-cases, ok, >>=-eq-ok,
}
use homeworld.Common.Dict.{Dict, IsMap, lookup, insert, IsMap-insert}
use homeworld.Util.Substitution.{split_at}
use homeworld.Monitor.{GaugeVec, IsGaugeVec, score}
use homeworld.Monitor.Probing.{probe_all-Reports}
use homeworld.Monitor.Dns.{
  Resolver, Metrics, hostname_label, one_address, compared, grab_one_ipv4, check_hostname, cycle,
  parse_arg, add_args, parse_args, add_expectation, two_parts, parsed_ip, some_expected,
}

-- The states of the network that lookups lead to.
pub data Lookups {Ip W : Type 0} (r : Resolver Ip W) (w : W) : W → Type 0 where
  start : Lookups r w w
  looked_up : (host : String) {u : W} → Lookups r w u → Lookups r w (r.lookup_ip_addr host u).1

module _ {Ip W : Type 0} (r : Resolver Ip W) where
  open r use {lookup_ip_addr, now, is_equal}

  -- The lookup gave one address, and it is the one expected.
  abbrev pub resolves : Ip → Option (List Ip) → Bool
  resolves expect_ip none = false
  resolves expect_ip (some []) = false
  resolves expect_ip (some (ip ∷ [])) = is_equal expect_ip ip
  resolves expect_ip (some (ip ∷ other ∷ ips)) = false

  check_hostname-resolves :
      (hostname : String) (expect_ip : Ip) (w : W) (seen : List (String × ℕ))
      → (check_hostname r hostname expect_ip (w, seen)).0
        ≡ resolves expect_ip (lookup_ip_addr hostname w).0
  unfolding check_hostname grab_one_ipv4
  check_hostname-resolves hostname expect_ip w seen = answered (lookup_ip_addr hostname w)
    where
      answered :
          (a : Option (List Ip) × W)
          → (compared r hostname expect_ip seen (one_address r (now w) a)).0
            ≡ resolves expect_ip a.0
      answered (none, u) = refl
      answered (some [], u) = refl
      answered (some (ip ∷ []), u) = ground arith
      answered (some (ip ∷ other ∷ ips), u) = refl

  check_hostname_world :
      (hostname : String) (expect_ip : Ip) (w : W) (seen : List (String × ℕ))
      → (check_hostname r hostname expect_ip (w, seen)).1.0 ≡ (lookup_ip_addr hostname w).1
  unfolding check_hostname grab_one_ipv4
  check_hostname_world hostname expect_ip w seen = answered (lookup_ip_addr hostname w)
    where
      answered :
          (a : Option (List Ip) × W)
          → (compared r hostname expect_ip seen (one_address r (now w) a)).1.0 ≡ a.1
      answered (none, u) = refl
      answered (some [], u) = refl
      answered (some (ip ∷ []), u) = elim (Bool-cases (is_equal expect_ip ip)) [
        | inl same ↦ rw same refl
        | inr differs ↦ rw differs refl
      ]
      answered (some (ip ∷ other ∷ ips), u) = refl

  added-IsMap :
      (hostname : String) (ip : Ip) (before : Dict Ip) {after : Dict Ip}
      → IsMap before
      → add_expectation r hostname ip before (lookup hostname before) ≡ ok after
      → IsMap after
  added-IsMap hostname ip before h e = elim (Option-cases (lookup hostname before)) [
    | inl fresh ↦
        let e' = rw fresh at e in
        let q : insert hostname ip before ≡ _ = cc in
        subst IsMap q (IsMap-insert hostname ip before h)
    | inr (held, found) ↦ let e' = rw found at e in cc
  ]

  add_args-IsMap :
      (args : List String) (before : Dict Ip) {after : Dict Ip}
      → IsMap before
      → add_args r args before ≡ ok after
      → IsMap after
  unfolding add_args parse_arg
  add_args-IsMap [] before {after} h e = let q : before ≡ after = cc in subst IsMap q h
  add_args-IsMap (arg ∷ args) before h e =
      let (next, h1, e1) = >>=-eq-ok (parse_arg r arg before) _ e in
      let ((hostname, text), h2, e2) = >>=-eq-ok (two_parts (split_at b'=' arg)) _ e1 in
      let (ip, h3, e3) = >>=-eq-ok (parsed_ip r (r.parse_ip text)) _ h2 in
      add_args-IsMap args next (added-IsMap hostname ip before h h3) h1

  -- The arguments name every host once.
  parse_args-IsMap :
      (args : List String) (expectations : Dict Ip)
      → parse_args r args ≡ ok expectations
      → IsMap expectations
  unfolding parse_args
  parse_args-IsMap args expectations e =
      let (m, h1, e1) = >>=-eq-ok (add_args r args []) _ e in
      subst IsMap (some_same m h1) (add_args-IsMap args [] tt e1)
    where
      some_same : (m : Dict Ip) → some_expected r m ≡ ok expectations → m ≡ expectations
      some_same [] h = cc
      some_same (entry ∷ m) h = cc

  -- If the clock never goes back during a lookup, no gauge of a name on the command line is older after
  -- a cycle than the recency: it is 1 or 0 by a lookup, in a state that lookups lead to from the
  -- beginning of the cycle, and is 1 exactly if this gave one address, the one expected.
  pub cycle-resolves :
      {V : Type 0} (g : GaugeVec V) (laws : IsGaugeVec g) (args : List String)
      (expectations : Dict Ip) (m : Metrics V) (w : W)
      → parse_args r args ≡ ok expectations
      → ((host : String) (u : W) → now u ≤ now (lookup_ip_addr host u).1)
      → (hostname : String) (ip : Ip) → lookup hostname expectations ≡ some ip
      → (t : W) × Lookups r w t
        × ((cycle r g expectations m w).0.recency ≤ now t)
        × (g.value (hostname_label hostname) (cycle r g expectations m w).0.internal_check
            ≡ some (score (resolves ip (lookup_ip_addr hostname t).0)))
  unfolding cycle
  cycle-resolves g laws args expectations m w parsed forward hostname ip e =
      let ((t, seen), (made, p), q) =
        probe_all-Reports g laws hostname_label (check_hostname r)
          (λ j k ne same. ne (ap first same))
          (λ (s : W × List (String × ℕ)). Lookups r w s.0 × (now w ≤ now s.0)) later expectations
          m.internal_check (w, m.timing) (start, omega arith)
          (parse_args-IsMap args expectations parsed) hostname ip e in
      (t, made, p, q ∙ ap (λ b. some (score b)) (check_hostname-resolves hostname ip t seen))
    where
      first : List String → String
      first [] = ""
      first (s ∷ l) = s

      later :
          (key : String) (a : Ip) (s : W × List (String × ℕ))
          → Lookups r w s.0 × (now w ≤ now s.0)
          → Lookups r w (check_hostname r key a s).1.0
            × (now w ≤ now (check_hostname r key a s).1.0)
      later key a (u, seen) (made, h) =
          rw (check_hostname_world key a u seen) (looked_up key made, omega (arith, forward key u))
