-- ===== src/Kubernetes/Settings.antt =====
-- What a configuration file says, described without the map that `GetConf` fills.
use homeworld.Common.{
  String, ◌≡◌, refl, ap, ◌∙◌, ◌↔◌, ◌⊎◌, inl, inr, false, Option, none, some, List, [], ◌∷◌, arith,
  ◌==◌, if◌then◌else◌, Bool-cases, Result, ok, err, panic, All,
}
use homeworld.Common.Dict.{Dict, insert, lookup, lookup-insert}
use homeworld.Kubernetes.{Machine, keeps_line, store, read_line, then_lines, read_lines, get_conf}

module _ {W : Type 0} (machine : Machine W) where
  open machine use {trim_space, split_pair}

  -- The value that a line gives to a key.
  abbrev pub assigned_by : String → Option (String × String) → Option String
  assigned_by key none = none
  assigned_by key (some (name, held)) =
      if trim_space name == key then some (trim_space held) else none

  abbrev pub assigned : String → String → Option String
  assigned key line =
      if keeps_line machine (trim_space line)
      then assigned_by key (split_pair (trim_space line))
      else none

  abbrev pub or_else : Option String → Option String → Option String
  or_else (some later) earlier = some later
  or_else none earlier = earlier

  -- The last line that gives the key a value counts.
  abbrev pub last_assigned : String → List String → Option String
  last_assigned key [] = none
  last_assigned key (line ∷ lines) = or_else (last_assigned key lines) (assigned key line)

  -- The line is empty, a comment, or has an equals sign.
  abbrev pub IsLine : String → Type 0
  IsLine line =
      (keeps_line machine (trim_space line) ≡ false)
      ⊎ ((p : String × String) × (split_pair (trim_space line) ≡ some p))

  store-lookup :
      (o : Option (String × String)) (kvs : Dict String) {after : Dict String} (key : String)
      → store machine o kvs ≡ ok after
      → lookup key after ≡ or_else (assigned_by key o) (lookup key kvs)
  store-lookup none kvs key h = cc
  store-lookup (some (name, held)) kvs {after} key h =
      let e : insert (trim_space name) (trim_space held) kvs ≡ after = cc in
      rw (← e) (ground (arith, lookup-insert (trim_space name) key (trim_space held) kvs))

  store-splits :
      (o : Option (String × String)) (kvs : Dict String) {after : Dict String}
      → store machine o kvs ≡ ok after
      → (p : String × String) × (o ≡ some p)
  store-splits none kvs h = cc
  store-splits (some p) kvs h = (p, refl)

  read_line-lookup :
      (line : String) (kvs : Dict String) {after : Dict String} (key : String)
      → read_line machine (trim_space line) kvs ≡ ok after
      → (lookup key after ≡ or_else (assigned key line) (lookup key kvs)) × IsLine line
  read_line-lookup line kvs {after} key h =
      elim (Bool-cases (keeps_line machine (trim_space line))) [
        | inr skipped ↦ rw skipped (let k = rw skipped at h in (cc, inl refl))
        | inl kept ↦ rw kept (
            let k = rw kept at h in
            (
              store-lookup (split_pair (trim_space line)) kvs key k,
              inr (store-splits (split_pair (trim_space line)) kvs k),
            ))
      ]

  -- The line is read, whatever was read before.
  read_line-total :
      (line : String) (kvs : Dict String)
      → IsLine line
      → (after : Dict String) × (read_line machine (trim_space line) kvs ≡ ok after)
  read_line-total line kvs (inl skipped) = (kvs, rw skipped refl)
  read_line-total line kvs (inr ((key, held), e)) =
      elim (Bool-cases (keeps_line machine (trim_space line))) [
        | inr skipped ↦ (kvs, rw skipped refl)
        | inl kept ↦ (insert (trim_space key) (trim_space held) kvs, rw (kept, e) refl)
      ]

  then_lines-eq-ok :
      (rest : Dict String → Result (Dict String)) (first : Result (Dict String))
      {after : Dict String}
      → then_lines rest first ≡ ok after
      → (kvs : Dict String) × (first ≡ ok kvs) × (rest kvs ≡ ok after)
  then_lines-eq-ok rest (ok kvs) h = (kvs, refl, h)
  then_lines-eq-ok rest (err e) h = cc
  then_lines-eq-ok rest (panic t) h = cc

  or_else_assoc : (a b c : Option String) → or_else a (or_else b c) ≡ or_else (or_else a b) c
  or_else_assoc (some x) b c = refl
  or_else_assoc none b c = refl

  or_else-none : (a : Option String) → or_else a none ≡ a
  or_else-none (some x) = refl
  or_else-none none = refl

  read_lines-lookup :
      (lines : List String) (kvs : Dict String) {after : Dict String}
      → read_lines machine lines kvs ≡ ok after
      → All IsLine lines
        × ((key : String) → lookup key after ≡ or_else (last_assigned key lines) (lookup key kvs))
  unfolding read_lines
  read_lines-lookup [] kvs h = (tt, λ key. cc)
  read_lines-lookup (line ∷ lines) kvs h =
      let (kvs', first, rest) =
        then_lines-eq-ok (read_lines machine lines) (read_line machine (trim_space line) kvs) h in
      let (fine, found) = read_lines-lookup lines kvs' rest in
      (
        ((read_line-lookup line kvs "" first).1, fine),
        λ key.
            found key
            ∙ ap (or_else (last_assigned key lines)) (read_line-lookup line kvs key first).0
            ∙ or_else_assoc (last_assigned key lines) (assigned key line) (lookup key kvs),
      )

  read_lines-total :
      (lines : List String) (kvs : Dict String)
      → All IsLine lines
      → (after : Dict String) × (read_lines machine lines kvs ≡ ok after)
  unfolding read_lines
  read_lines-total [] kvs h = (kvs, refl)
  read_lines-total (line ∷ lines) kvs (p, h) =
      let (kvs', first) = read_line-total line kvs p in
      let (after, rest) = read_lines-total lines kvs' h in (after, rw first rest)

  -- A configuration file that can be read is accepted exactly if each of its lines is empty, a
  -- comment or an assignment. The map that comes out has for each key the value that the last line
  -- for this key assigns, and no other keys.
  pub get_conf_iff :
      (filename conf : String) (w : W)
      → machine.read_file filename w ≡ ok conf
      → ((kvs : Dict String) × (get_conf machine filename w ≡ ok kvs)
          × ((key : String) → lookup key kvs ≡ last_assigned key (machine.split_lines conf)))
        ↔ All IsLine (machine.split_lines conf)
  unfolding get_conf
  get_conf_iff filename conf w r = rw r (
    λ (kvs, h, found). (read_lines-lookup (machine.split_lines conf) [] h).0,
    λ h.
        let (kvs, e) = read_lines-total (machine.split_lines conf) [] h in
        (
          kvs,
          e,
          λ key.
              (read_lines-lookup (machine.split_lines conf) [] e).1 key
              ∙ unfold lookup in or_else-none (last_assigned key (machine.split_lines conf)),
        ),
  )
