-- ===== src/WorldConfig/Validation.antt =====
-- What a setup must be to pass the validation of worldconfig/spiresetup.go.
use homeworld.Common.{
  ℕ, suc, ◌+◌, ◌<◌, String, ◌≡◌, refl, sym, ap, ◌∙◌, ◌≢◌, ◌↔◌, ◌⊎◌, inl, inr, true, false, not,
  Option, none, some, List, [], ◌∷◌, ◌++◌, map, arith, ◌==◌, eq_iff, eqb, if◌then◌else◌, Bool-cases,
  Option-cases, eq_false, ok, guard, >>=-eq-ok, guard-eq-ok, All,
}
use mathlib.Core.List.{append-nil, append_assoc}
use homeworld.Authority.Crypto.{Ip, Net}
use homeworld.WorldConfig.Spire.{
  SpireNode, SpireSetup, is_supervisor, Scan, check_node, check_nodes, note, is_member,
  check_admins, empty_scan, validate,
}

-- A node that can be configured: of a kind that is known, with an address that parses.
pub record IsUsable (net : Net) (node : SpireNode) : Type 0 where
  pub kind : (node.kind ≡ "supervisor") ⊎ ((node.kind ≡ "master") ⊎ (node.kind ≡ "worker"))
  pub address : (ip : Ip) × (net.parse_ip node.ip ≡ some ip)

-- The node once it is validated.
abbrev pub ready : Net → SpireNode → SpireNode
ready net node = record node { net_ip = net.parse_ip node.ip; setup = true }

abbrev pub count_supervisors : List SpireNode → ℕ
count_supervisors [] = 0
count_supervisors (node ∷ nodes) =
    if node.kind == "supervisor" then suc (count_supervisors nodes) else count_supervisors nodes

-- No name is empty, and none stands twice or among those seen.
abbrev pub IsAdminList : List String → List String → Type 0
IsAdminList seen [] = Unit
IsAdminList seen (name ∷ names) =
    (name ≢ "") × (is_member name seen ≡ false) × IsAdminList (name ∷ seen) names

checked-note : (node : SpireNode) (s : Scan) → (note node s).checked ≡ s.checked ++ node ∷ []
unfolding is_supervisor
checked-note node s = ground arith

module _ (net : Net) where
  -- The scan with all nodes taken as they will be.
  scanned : List SpireNode → Scan → Scan
  scanned [] s = s
  scanned (node ∷ nodes) s = scanned nodes (note (ready net node) s)

  check_node_sound :
      (node : SpireNode) {checked : SpireNode} (parsed : Option Ip)
      → net.parse_ip node.ip ≡ parsed
      → check_node net node ≡ ok checked
      → IsUsable net node × (checked ≡ ready net node)
  unfolding check_node
  check_node_sound node none e h = ground arith
  check_node_sound node {checked} (some ip) e h = (
    record {
      kind = ground (
        arith,
        eq_iff node.kind "supervisor",
        eq_iff node.kind "master",
        eq_iff node.kind "worker",
      );
      address = (ip, e);
    },
    ground arith,
  )

  check_node_complete :
      (node : SpireNode) → IsUsable net node → check_node net node ≡ ok (ready net node)
  unfolding check_node
  check_node_complete node u =
      ground
        (arith, eq_iff node.kind "supervisor", eq_iff node.kind "master", eq_iff node.kind "worker")

  check_nodes_iff :
      (nodes : List SpireNode) (s s' : Scan)
      → (check_nodes net nodes s ≡ ok s') ↔ (All (IsUsable net) nodes × (s' ≡ scanned nodes s))
  unfolding check_nodes scanned
  check_nodes_iff [] s s' = (λ h. (tt, ground arith), λ (_, e). ap ok (sym e))
  check_nodes_iff (node ∷ nodes) s s' = (
    λ h.
        (let (checked, rest, now) = >>=-eq-ok (check_node net node) _ h in
          let (usable, same) = check_node_sound node (net.parse_ip node.ip) refl now in
          let (others, final) = (check_nodes_iff nodes (note checked s) s').0 rest in
          ((usable, others), final ∙ ap (λ n. scanned nodes (note n s)) same)),
    λ ((usable, others), final).
        rw (check_node_complete node usable)
          ((check_nodes_iff nodes (note (ready net node) s) s').1 (others, final)),
  )

  supervisors-scanned :
      (nodes : List SpireNode) (s : Scan)
      → (scanned nodes s).supervisors ≡ s.supervisors + count_supervisors nodes
  unfolding scanned is_supervisor
  supervisors-scanned [] s = omega arith
  supervisors-scanned (node ∷ nodes) s = elim (Bool-cases (node.kind == "supervisor")) [
    | inl yes_sup ↦ rw (supervisors-scanned nodes (note (ready net node) s), yes_sup) (omega arith)
    | inr no_sup ↦ rw (supervisors-scanned nodes (note (ready net node) s), no_sup) (omega arith)
  ]

  checked-scanned :
      (nodes : List SpireNode) (s : Scan)
      → (scanned nodes s).checked ≡ s.checked ++ map (ready net) nodes
  unfolding scanned is_supervisor
  checked-scanned [] s = sym (append-nil s.checked)
  checked-scanned (node ∷ nodes) s =
      checked-scanned nodes (note (ready net node) s)
      ∙ rw checked-note (append_assoc s.checked (ready net node ∷ []) (map (ready net) nodes))

check_admins_iff :
    (seen names : List String) → (check_admins seen names ≡ ok tt) ↔ IsAdminList seen names
unfolding check_admins
check_admins_iff seen [] = (λ h. tt, λ h. refl)
check_admins_iff seen (name ∷ names) = (
  λ h.
      (let (_, rest, named) = >>=-eq-ok (guard (not (name == "")) _) _ h in
        let (_, later, fresh) = >>=-eq-ok (guard (not (is_member name seen)) _) _ rest in
        (
          ground (arith, eq_iff name "", guard-eq-ok (not (name == "")) _ named),
          ground (arith, guard-eq-ok (not (is_member name seen)) _ fresh),
          (check_admins_iff (name ∷ seen) names).0 later,
        )),
  λ (named, fresh, later).
      rw (eq_false name "" named, fresh) ((check_admins_iff (name ∷ seen) names).1 later),
)

-- The last node that is a supervisor.
abbrev pub last_supervisor : List SpireNode → Option SpireNode
last_supervisor [] = none
last_supervisor (node ∷ nodes) = elim (last_supervisor nodes) [
  | some later ↦ some later
  | none ↦ if node.kind == "supervisor" then some node else none
]

-- The last node found so far, or the one that was found before.
abbrev pub found : Net → Option SpireNode → Option SpireNode → Option SpireNode
found net (some node) before = some (ready net node)
found net none before = before

last_kind :
    (nodes : List SpireNode) {node : SpireNode}
    → last_supervisor nodes ≡ some node
    → node.kind ≡ "supervisor"
last_kind [] h = cc
last_kind (first ∷ nodes) {node} h = elim (Option-cases (last_supervisor nodes)) [
  | inl missing ↦ ground (arith, eq_iff first.kind "supervisor")
  | inr (later, e) ↦ let k = rw e at h in last_kind nodes (e ∙ k)
]

pub last_supervisor_exists :
    (nodes : List SpireNode)
    → 0 < count_supervisors nodes
    → (node : SpireNode) × (last_supervisor nodes ≡ some node) × (node.kind ≡ "supervisor")
last_supervisor_exists [] h = absurd (omega arith)
last_supervisor_exists (node ∷ nodes) h = elim (Bool-cases (node.kind == "supervisor")) [
  | inl yes_sup ↦ elim (Option-cases (last_supervisor nodes)) [
    | inl missing ↦ (node, rw (missing, yes_sup) refl, (eq_iff node.kind "supervisor").0 yes_sup)
    | inr (later, e) ↦ (later, rw e refl, last_kind nodes e)
  ]
  | inr no_sup ↦
      let k = rw no_sup at h in
      let (later, e, kind) = last_supervisor_exists nodes k in (later, rw e refl, kind)
]

module _ (net : Net) where
  supervisor-scanned :
      (nodes : List SpireNode) (s : Scan)
      → (scanned net nodes s).supervisor ≡ found net (last_supervisor nodes) s.supervisor
  unfolding scanned is_supervisor
  supervisor-scanned [] s = refl
  supervisor-scanned (node ∷ nodes) s =
      supervisor-scanned nodes (note (ready net node) s) ∙ ground arith

  -- A setup passes exactly if every node is of a known kind with an address that parses, one node is
  -- a supervisor, and the administrators have distinct names, none of them empty. What comes out has
  -- the same nodes, each with its parsed address and attached to the setup, with the supervisor
  -- recorded, and nothing else is changed.
  pub validate_iff :
      (setup result : SpireSetup)
      → (validate net setup ≡ ok result) ↔ (
          All (IsUsable net) setup.nodes
          × (count_supervisors setup.nodes ≡ 1)
          × IsAdminList [] setup.root_admins
          × (result ≡ record setup {
            nodes = map (ready net) setup.nodes;
            supervisor = found net (last_supervisor setup.nodes) none;
          }))
  unfolding validate
  validate_iff setup result =
      (sound, λ (usable, one, admins, same). complete usable one admins same)
    where
      scan : Scan
      scan = scanned net setup.nodes empty_scan

      end_count : scan.supervisors ≡ count_supervisors setup.nodes
      end_count = supervisors-scanned net setup.nodes empty_scan ∙ omega arith

      end_result :
          ◌≡◌ {A = SpireSetup}
            (record setup { nodes = scan.checked; supervisor = scan.supervisor })
            (record setup {
              nodes = map (ready net) setup.nodes;
              supervisor = found net (last_supervisor setup.nodes) none;
            })
      end_result =
          cc (checked-scanned net setup.nodes empty_scan, supervisor-scanned setup.nodes empty_scan)

      sound :
          validate net setup ≡ ok result
          → All (IsUsable net) setup.nodes
            × (count_supervisors setup.nodes ≡ 1)
            × IsAdminList [] setup.root_admins
            × (result ≡ record setup {
              nodes = map (ready net) setup.nodes;
              supervisor = found net (last_supervisor setup.nodes) none;
            })
      sound h =
          let (s, h1, checked) = >>=-eq-ok (check_nodes net setup.nodes empty_scan) _ h in
          let (usable, same) = (check_nodes_iff net setup.nodes empty_scan s).0 checked in
          let (_, h2, counted) = >>=-eq-ok (guard (eqb s.supervisors 1) _) _ h1 in
          let (_, h3, admins) = >>=-eq-ok (check_admins [] setup.root_admins) _ h2 in
          let one : s.supervisors ≡ 1 =
            ground (arith, guard-eq-ok (eqb s.supervisors 1) _ counted) in
          let kept : ok (record setup { nodes = s.checked; supervisor = s.supervisor })
              ≡ ok result =
            h3 in
          let is_result : record setup { nodes = s.checked; supervisor = s.supervisor } ≡ result =
            ground arith in
          (
            usable,
            sym end_count ∙ ap (λ (x : Scan). x.supervisors) (sym same) ∙ one,
            (check_admins_iff [] setup.root_admins).0 admins,
            sym is_result ∙ rw same end_result,
          )

      complete :
          All (IsUsable net) setup.nodes
          → count_supervisors setup.nodes ≡ 1
          → IsAdminList [] setup.root_admins
          → result ≡ record setup {
            nodes = map (ready net) setup.nodes;
            supervisor = found net (last_supervisor setup.nodes) none;
          }
          → validate net setup ≡ ok result
      complete usable one admins same =
          let nodes_ok = (check_nodes_iff net setup.nodes empty_scan scan).1 (usable, refl) in
          let count_ok : scan.supervisors ≡ 1 = end_count ∙ one in
          let admins_ok = (check_admins_iff [] setup.root_admins).1 admins in
          rw (nodes_ok, count_ok, admins_ok) (ap ok (end_result ∙ sym same))
