-- ===== src/Token/Ledger.antt =====
-- What the token registry promises, without its map and its `sync.Once` values: a ledger says for each
-- text whether it is a token, for whom, until when, and whether it was used.
use homeworld.Common.{
  ℕ, ◌+◌, String, ◌≡◌, refl, sym, ap, ◌∙◌, subst, inl, inr, Bool, true, false, ◌||◌, Option, none,
  some, arith, ◌==◌, eq_iff, ltb, eqb, if◌then◌else◌, Bool-cases, Option-cases, Result, ok, err,
  panic,
}
use homeworld.Common.Dict.{Dict, lookup, lookup-insert, lookup-delete_if}
use homeworld.Token.{
  ScopedToken, Encoding, Moment, Tokens, has_expired, grant_token, verify, lookup_token,
  expire_old_entries, mark,
}
use homeworld.Token.Registry.{
  IsValid, granted, lookup-expire_old_entries, after_grant, grant_token_inv,
}

pub record Held : Type 0 where
  pub subject : String
  pub expires : ℕ
  pub is_used : Bool

abbrev pub Ledger : Type 0
Ledger = String → Option Held

abbrev pub hold : (ℕ → Bool) → ScopedToken → Held
hold spent t = record { subject = t.subject; expires = t.expires; is_used = spent t.claimed }

abbrev pub hold_some : (ℕ → Bool) → Option ScopedToken → Option Held
hold_some spent none = none
hold_some spent (some t) = some (hold spent t)

-- The ledger that a registry stands for.
abbrev pub ledger_of : Tokens → Ledger
ledger_of s token = hold_some s.onces.spent (lookup token s.registry.by_token)

abbrev pub use_held : ℕ → String → Ledger → Option Held → Option String × Ledger
use_held now token ledger none = (none, ledger)
use_held now token ledger (some h) =
    if ltb h.expires now || h.is_used
    then (none, ledger)
    else (some h.subject, λ k. if token == k then some (record h { is_used = true }) else ledger k)

-- A token is worth its subject if it is known, not expired and not used, and is used then.
abbrev pub redeem : ℕ → String → Ledger → Option String × Ledger
redeem now token ledger =
    if token == "" then (none, ledger) else use_held now token ledger (ledger token)

-- A grant forgets what has expired, and adds a token that was not known.
abbrev pub unexpired : ℕ → Option Held → Option Held
unexpired now none = none
unexpired now (some h) = if ltb h.expires now then none else some h

abbrev pub issue : String → String → ℕ → (String → ℕ) → Ledger → Ledger
issue token subject expires clock ledger k =
    if token == k
    then some (record { subject = subject; expires = expires; is_used = false })
    else unexpired (clock k) (ledger k)

abbrev pub accepted : Result String → Option String
accepted (ok subject) = some subject
accepted (err e) = none
accepted (panic t) = none

-- Marking the `sync.Once` of one entry uses that entry alone.
hold_some-mark :
    (s : Tokens) (token k : String) (t : ScopedToken)
    → IsValid s
    → lookup token s.registry.by_token ≡ some t
    → hold_some (mark s.onces.spent t.claimed) (lookup k s.registry.by_token) ≡ (
        if token == k
        then some (record (hold s.onces.spent t) { is_used = true })
        else ledger_of s k)
hold_some-mark s token k t v h = go (lookup k s.registry.by_token) refl
  where
    go :
        (o : Option ScopedToken)
        → lookup k s.registry.by_token ≡ o
        → hold_some (mark s.onces.spent t.claimed) o ≡ (
            if token == k
            then some (record (hold s.onces.spent t) { is_used = true })
            else hold_some s.onces.spent o)
    go none e = elim (Bool-cases (token == k)) [
      | inr other ↦ rw other refl
      | inl same ↦
          let q = (eq_iff token k).0 same in
          let r : lookup token s.registry.by_token ≡ none =
            ap (λ j. lookup j s.registry.by_token) q ∙ e in
          cc
    ]
    go (some u) e = elim (Bool-cases (token == k)) [
      | inl same ↦
          let q = (eq_iff token k).0 same in
          let r : lookup token s.registry.by_token ≡ some u =
            ap (λ j. lookup j s.registry.by_token) q ∙ e in
          let tu : t ≡ u = cc in
          rw same (
            subst
              (λ w.
                some (hold (mark s.onces.spent t.claimed) w)
                ≡ some (record (hold s.onces.spent t) { is_used = true }))
              tu (ground arith))
      | inr other ↦
          let apart = v.unshared token k t u h e in
          let ne : eqb t.claimed u.claimed ≡ false = ground (arith, apart.1, eq_iff token k) in
          rw (other, ne) refl
    ]

used_already :
    (s : Tokens) (token k : String) (t : ScopedToken)
    → lookup token s.registry.by_token ≡ some t
    → s.onces.spent t.claimed ≡ true
    → (if token == k
        then some (record (hold s.onces.spent t) { is_used = true })
        else ledger_of s k)
      ≡ ledger_of s k
used_already s token k t found used = elim (Bool-cases (token == k)) [
  | inr other ↦ rw other refl
  | inl same ↦
      let q = (eq_iff token k).0 same in
      let r : lookup k s.registry.by_token ≡ some t =
        ap (λ j. lookup j s.registry.by_token) (sym q) ∙ found in
      rw (same, r)
        (ap (λ b. some (record { subject = t.subject; expires = t.expires; is_used = b }))
          (sym used))
]

-- The registry, while it is well formed, verifies as the ledger redeems: the same texts are accepted for
-- the same subjects, and the ledger that is left is the same for every text.
pub verify-refines :
    (now : ℕ) (token : String) (s : Tokens)
    → IsValid s
    → (accepted (verify now token s).0 ≡ (redeem now token (ledger_of s)).0)
      × ((k : String) → ledger_of (verify now token s).1 k ≡ (redeem now token (ledger_of s)).1 k)
unfolding verify
verify-refines now token s v = elim (Bool-cases (token == "")) [
  | inl empty ↦ rw empty (refl, λ k. refl)
  | inr named ↦ rw named (elim (Option-cases (lookup token s.registry.by_token)) [
    | inl missing ↦ rw (missing, lookup_token) (refl, λ k. refl)
    | inr (t, found) ↦
        rw (found, lookup_token)
          (elim (Bool-cases (ltb t.expires now)) [
            | inl expired ↦ rw expired (refl, λ k. refl)
            | inr live ↦ rw live (elim (Bool-cases (s.onces.spent t.claimed)) [
              | inr unused ↦ rw unused (refl, λ k. hold_some-mark s token k t v found)
              | inl used ↦ rw used (
                refl,
                λ k. hold_some-mark s token k t v found ∙ used_already s token k t found used,
              )
            ])
          ])
  ])
]

-- The sweep, on a ledger.
ledger-expire_old_entries :
    (clock : String → ℕ) (s : Tokens) (k : String)
    → IsValid s
    → hold_some s.onces.spent (lookup k (expire_old_entries clock s.registry).by_token)
      ≡ unexpired (clock k) (ledger_of s k)
unfolding expire_old_entries has_expired
ledger-expire_old_entries clock s k v =
    let e = lookup-delete_if (λ j t. has_expired (clock j) t) k s.registry.by_token v.map in
    ap (hold_some s.onces.spent) e ∙ go (lookup k s.registry.by_token)
  where
    go :
        (o : Option ScopedToken)
        → hold_some s.onces.spent
            (elim o [ none ↦ none | some t ↦ if has_expired (clock k) t then none else some t ])
          ≡ unexpired (clock k) (hold_some s.onces.spent o)
    go none = refl
    go (some t) = ground arith

-- What a grant leaves, for one text.
ledger-granted :
    (token subject : String) (lifespan : ℕ) (m : Moment) (s : Tokens) (k : String)
    → IsValid s
    → ledger_of (after_grant token subject lifespan m s) k
      ≡ issue token subject (m.now + lifespan) m.sweep (ledger_of s) k
ledger-granted token subject lifespan m s k v = elim (Bool-cases (token == k)) [
  | inl same ↦
      let e = lookup-insert token k new swept in
      rw same (
        ap (hold_some spent) (e ∙ ap (λ b. if b then some new else lookup k swept) same)
        ∙ ground arith)
  | inr other ↦
      let e = lookup-insert token k new swept in
      rw other (
        ap (hold_some spent) (e ∙ ap (λ b. if b then some new else lookup k swept) other)
        ∙ older (lookup k swept) refl
        ∙ ledger-expire_old_entries m.sweep s k v)
]
  where
    new : ScopedToken
    new = granted token subject lifespan m s

    swept : Dict ScopedToken
    swept = (expire_old_entries m.sweep s.registry).by_token

    spent : ℕ → Bool
    spent = (after_grant token subject lifespan m s).onces.spent

    older :
        (o : Option ScopedToken)
        → lookup k swept ≡ o
        → hold_some spent o ≡ hold_some s.onces.spent o
    older none e = refl
    older (some t) e =
        let before = lookup-expire_old_entries m.sweep s.registry k t v.map e in
        let small = (v.unshared k k t t before before).0 in ground arith

module _ (enc : Encoding) where
  -- The registry, while it is well formed, grants as the ledger issues: the token was not known after the
  -- sweep, and the ledger that is left is the same for every text.
  pub grant_token-refines :
      (subject : String) (lifespan : ℕ) (m : Moment) (s : Tokens) {token : String} {s' : Tokens}
      → IsValid s
      → grant_token enc subject lifespan m s ≡ (ok token, s')
      → (unexpired (m.sweep token) (ledger_of s token) ≡ none)
        × ((k : String)
            → ledger_of s' k ≡ issue token subject (m.now + lifespan) m.sweep (ledger_of s) k)
  grant_token-refines subject lifespan m s {token} {s'} v h =
      let (fresh, after) = grant_token_inv enc subject lifespan m s h in
      (
        sym (ledger-expire_old_entries m.sweep s token v) ∙ ap (hold_some s.onces.spent) fresh,
        λ k. rw after (ledger-granted token subject lifespan m s k v),
      )
