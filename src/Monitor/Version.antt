-- ===== src/Monitor/Version.antt =====
-- That platform/etcd-metrics-exporter/etcd-metrics-exporter.go exports one version of etcd.
use homeworld.Common.{
  ℕ, zero, suc, String, ◌≡◌, refl, sym, ap, ◌∙◌, subst, ◌≢◌, inl, inr, Bool, true, false, not, ◌&&◌,
  Option, none, some, List, [], ◌∷◌, arith, ◌==◌, eq_iff, eq_refl, if◌then◌else◌, Bool-cases,
  Result, ok, err, panic,
}
use homeworld.Common.Effects.{and_then, give}
use homeworld.Monitor.{GaugeVec, IsGaugeVec}
use homeworld.Monitor.Etcd.{
  Etcd, request_to_etcd, forgotten, recorded, update_version, decoded, get_version,
  get_version_periodically,
}

module _ {V : Type 0} (g : GaugeVec V) (laws : IsGaugeVec g) where
  -- What is exported of a version, by the version that was seen last.
  abbrev pub shown : String → String → Option ℕ
  shown last version = if last == version && not (last == "") then some 1 else none

  -- The gauge of a version is 1 for the version that was seen last, and there is none for any other.
  abbrev pub IsCurrent : String × V → Type 0
  IsCurrent (last, v) = (version : String) → g.value (version ∷ []) v ≡ shown last version

  abbrev first_label : List String → String
  first_label [] = ""
  first_label (s ∷ l) = s

  apart : (j k : String) → (j == k) ≡ false → j ∷ [] ≢ k ∷ []
  apart j k differs same = let q = (eq_iff j k).1 (ap first_label same) in cc

  set-IsCurrent :
      (version : String) (v : V)
      → (version == "") ≡ false
      → ((k : String) → g.value (k ∷ []) v ≡ none)
      → IsCurrent (version, g.set (version ∷ []) 1 v)
  set-IsCurrent version v named empty k = elim (Bool-cases (version == k)) [
    | inl same ↦
        rw (same, named)
          (ap (λ j. g.value (j ∷ []) (g.set (version ∷ []) 1 v)) (sym ((eq_iff version k).0 same))
            ∙ laws.value-set_self (version ∷ []) 1 v)
    | inr differs ↦
        rw (differs)
          (laws.value-set_ne (k ∷ []) (version ∷ []) 1 v (apart version k differs) ∙ empty k)
  ]

  recorded_lem :
      {Family W : Type 0} (etcd : Etcd Family W) (last version : String) (p : Bool × V)
      → p.0 ≡ true
      → recorded etcd g last version p ≡ (ok tt, (version, g.set (version ∷ []) 1 p.1))
  recorded_lem etcd last version (true, v) h = refl
  recorded_lem etcd last version (false, v) h = cc

  shown-none : (last version : String) → (last == "") ≡ true → shown last version ≡ none
  shown-none last version e = ground (arith, eq_iff last version)

  shown_self : (last : String) → (last == "") ≡ false → shown last last ≡ some 1
  shown_self last e = ground (arith, eq_refl last)

  -- What is deleted is found, and nothing is left.
  forgotten_all :
      {Family W : Type 0} (etcd : Etcd Family W) (last : String) (v : V)
      → IsCurrent (last, v)
      → ((forgotten etcd g last v).0 ≡ true)
        × ((k : String) → g.value (k ∷ []) (forgotten etcd g last v).1 ≡ none)
  forgotten_all etcd last v h = elim (Bool-cases (last == "")) [
    | inl none_yet ↦ rw none_yet (refl, λ k. h k ∙ shown-none last k none_yet)
    | inr some_last ↦ rw some_last (
      laws.delete_found (last ∷ []) 1 v (h last ∙ shown_self last some_last),
      λ k. elim (Bool-cases (last == k)) [
        | inl same ↦
            ap (λ j. g.value (j ∷ []) (g.delete (last ∷ []) v).1) (sym ((eq_iff last k).0 same))
            ∙ laws.value-delete_self (last ∷ []) v
        | inr differs ↦
            laws.value-delete_ne (k ∷ []) (last ∷ []) v (apart last k differs)
            ∙ h k
            ∙ rw differs refl
      ],
    )
  ]

  update_version-IsCurrent :
      {Family W : Type 0} (etcd : Etcd Family W) (version last : String) (v : V)
      → (version == "") ≡ false
      → IsCurrent (last, v)
      → ((update_version etcd g version (last, v)).0 ≡ ok tt)
        × IsCurrent (update_version etcd g version (last, v)).1
  unfolding update_version
  update_version-IsCurrent etcd version last v named h = elim (Bool-cases (last == version)) [
    | inl same ↦ rw same (refl, h)
    | inr changed ↦
        let (found, empty) = forgotten_all etcd last v h in
        let e = recorded_lem etcd last version (forgotten etcd g last v) found in
        rw changed (
          ap (λ r. r.0) e,
          subst IsCurrent (ap (λ r. r.1) (sym e))
              (set-IsCurrent version (forgotten etcd g last v).1 named empty),
        )
  ]

  decoded-IsCurrent :
      {Family W : Type 0} (etcd : Etcd Family W) (last : String) (v : V) (r : Result String) (u : W)
      → ((version : String) → r ≡ ok version → (version == "") ≡ false)
      → IsCurrent (last, v)
      → IsCurrent (decoded etcd g (last, v) (r, u)).1.0
  decoded-IsCurrent etcd last v (ok version) u k h =
      (update_version-IsCurrent etcd version last v (k version refl) h).1
  decoded-IsCurrent etcd last v (err e) u k h = h
  decoded-IsCurrent etcd last v (panic t) u k h = h

  -- However many requests are made and however they end, the exporter goes on to show the version that it
  -- has seen last, and no other, if it did so before and etcd never reports an empty version.
  pub get_version_periodically-IsCurrent :
      {Family W : Type 0} (etcd : Etcd Family W)
      → ((body version : String) → etcd.decode_version body ≡ ok version → (version == "") ≡ false)
      → (n : ℕ) (s : (String × V) × W) → IsCurrent s.0
      → (version : String)
      → g.value (version ∷ []) (get_version_periodically etcd g n s).0.1
        ≡ shown (get_version_periodically etcd g n s).0.0 version
  unfolding get_version_periodically get_version
  get_version_periodically-IsCurrent {Family} {W} etcd named zero s h = h
  get_version_periodically-IsCurrent {Family} {W} etcd named (suc n) ((last, v), w) h =
      get_version_periodically-IsCurrent etcd named n (get_version etcd g ((last, v), w)).1
        (responded (request_to_etcd etcd "/version" w))
    where
      responded :
          (r : Result String × W)
          → IsCurrent
              (decoded etcd g (last, v) (and_then (λ body. give (etcd.decode_version body)) r)).1.0
      responded (ok body, u) =
          decoded-IsCurrent etcd last v (etcd.decode_version body) u (named body) h
      responded (err e, u) = h
      responded (panic t, u) = h
