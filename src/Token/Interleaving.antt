-- ===== src/Token/Interleaving.antt =====
-- Concurrent requests on one registry: token/registry.go locks its mutex once in each of
-- `expireOldEntries`, `addToken` and `LookupToken`, and `sync.Once` makes `Claim` atomic, so
-- `GrantToken` is three steps and `Verify` is two, between which other requests may run.
use homeworld.Common.{
  ℕ, suc, ◌<◌, String, ◌≡◌, refl, sym, ◌∙◌, subst, ◌≢◌, ◌⊎◌, inl, inr, Bool, true, false, List, [],
  ◌∷◌, ◌++◌, arith, Error, ok, err, All, All-mono, All-remove, All-mono_both,
}
use homeworld.Common.Dict.{
  AllValues-mono, AllValues, AllValues-lookup, AllValues-insert, AllValues-delete_if,
}
use homeworld.Token.Registry.{generate_token_inv, add_token_inv}
use homeworld.Token.{
  Encoding, Moment, Onces, ScopedToken, TokenRegistry, claim, lookup_token, add_token,
  expire_old_entries, generate_token,
}

-- Who holds a copy of which token. `issued` and `wins` are histories: every token that was ever
-- generated, and every token at each claim of it that succeeded.
pub record System : Type 0 where
  pub registry : TokenRegistry
  pub onces : Onces
  pub pending : List ScopedToken
  pub held : List ScopedToken
  pub issued : List ScopedToken
  pub wins : List ScopedToken

abbrev pub In : ScopedToken → List ScopedToken → Type 0
In t [] = ⊥
In t (x ∷ xs) = (t ≡ x) ⊎ In t xs

module _ (enc : Encoding) where
  pub data Step (s : System) : System → Type 0 where
    sweep :
        (clock : String → ℕ) → Step s (record s { registry = expire_old_entries clock s.registry })
    generate :
        (subject : String) (lifespan : ℕ) (m : Moment) {t : ScopedToken} {o : Onces}
        → generate_token enc subject lifespan m s.onces ≡ ok (t, o)
        → Step s (record s { onces = o; pending = t ∷ s.pending; issued = t ∷ s.issued })
    add :
        (before : List ScopedToken) (t : ScopedToken) (after : List ScopedToken) {r : TokenRegistry}
        → s.pending ≡ before ++ t ∷ after
        → add_token t s.registry ≡ ok r
        → Step s (record s { registry = r; pending = before ++ after })
    look :
        (token : String) {t : ScopedToken}
        → lookup_token token s.registry ≡ ok t
        → Step s (record s { held = t ∷ s.held })
    win :
        (t : ScopedToken) (now : ℕ) {o : Onces}
        → In t s.held
        → claim now t s.onces ≡ (ok tt, o)
        → Step s (record s { onces = o; wins = t ∷ s.wins })
    lose :
        (t : ScopedToken) (now : ℕ) {e : Error} {o : Onces}
        → In t s.held
        → claim now t s.onces ≡ (err e, o)
        → Step s (record s { onces = o })

  pub data Reach : System → Type 0 where
    start : Reach (record {
      registry = record { by_token = [] };
      onces = record { next = 0; spent = λ _. false };
      pending = [];
      held = [];
      issued = [];
      wins = [];
    })
    next : {s t : System} → Reach s → Step s t → Reach t

-- No token of the list has the `sync.Once` at the address.
abbrev pub IsUnused : ℕ → List ScopedToken → Type 0
IsUnused a xs = All (λ t. t.claimed ≢ a) xs

abbrev pub IsDistinct : List ScopedToken → Type 0
IsDistinct [] = Unit
IsDistinct (x ∷ xs) = IsUnused x.claimed xs × IsDistinct xs

record IsSafe (s : System) : Type 0 where
  bounded : All (λ t. t.claimed < s.onces.next) s.issued
  distinct : IsDistinct s.issued
  registered : AllValues (λ t. In t s.issued) s.registry.by_token
  waiting : All (λ t. In t s.issued) s.pending
  copied : All (λ t. In t s.issued) s.held
  genuine : All (λ t. In t s.issued) s.wins
  spent : All (λ t. s.onces.spent t.claimed ≡ true) s.wins
  once : IsDistinct s.wins

In-All :
    (P : ScopedToken → Type 0) (t : ScopedToken) (xs : List ScopedToken) → All P xs → In t xs → P t
In-All P t [] h i = absurd i
In-All P t (x ∷ xs) (p, h) (inl e) = subst P (sym e) p
In-All P t (x ∷ xs) (p, h) (inr i) = In-All P t xs h i

-- A fresh token, and what is left of the others.
issue_fresh :
    {t : ScopedToken} {s : System} {o : Onces}
    → IsSafe s
    → t.claimed ≡ s.onces.next
    → o.next ≡ suc s.onces.next
    → ((a : ℕ) → a < s.onces.next → o.spent a ≡ s.onces.spent a)
    → IsSafe (record s { onces = o; pending = t ∷ s.pending; issued = t ∷ s.issued })
issue_fresh {t} {s} {o} v here grown same = record {
  bounded = (omega arith, All-mono s.issued (λ u h. omega arith) v.bounded);
  distinct = (All-mono s.issued (λ u h. omega arith) v.bounded, v.distinct);
  registered = AllValues-mono s.registry.by_token (λ u. inr) v.registered;
  waiting = (inl refl, All-mono s.pending (λ u. inr) v.waiting);
  copied = All-mono s.held (λ u. inr) v.copied;
  genuine = All-mono s.wins (λ u. inr) v.genuine;
  spent =
      All-mono_both s.wins
        (λ u i h.
          same u.claimed (In-All (λ x. x.claimed < s.onces.next) u s.issued v.bounded i) ∙ h)
        v.genuine v.spent;
  once = v.once;
}

add_token-AllValues :
    (P : ScopedToken → Type 0) (t : ScopedToken) (r : TokenRegistry) {r' : TokenRegistry}
    → add_token t r ≡ ok r'
    → P t
    → AllValues P r.by_token
    → AllValues P r'.by_token
add_token-AllValues P t r {r'} h p v =
    subst (λ (x : TokenRegistry). AllValues P x.by_token) (sym (add_token_inv t r h))
      (AllValues-insert P t.token t r.by_token p v)

lookup_token-AllValues :
    (P : ScopedToken → Type 0) (token : String) (r : TokenRegistry) {t : ScopedToken}
    → lookup_token token r ≡ ok t
    → AllValues P r.by_token
    → P t
unfolding lookup_token
lookup_token-AllValues P token r {t} h v = AllValues-lookup P token t r.by_token v (ground arith)

claim_inv :
    (now : ℕ) (t : ScopedToken) (o : Onces) {o' : Onces}
    → claim now t o ≡ (ok tt, o')
    → (o.spent t.claimed ≡ false)
      × (o'.next ≡ o.next)
      × (o'.spent t.claimed ≡ true)
      × ((a : ℕ) → o.spent a ≡ true → o'.spent a ≡ true)
unfolding claim
claim_inv now t o h = (ground arith, ground arith, ground arith, λ a k. ground arith)

claim_inv_err :
    (now : ℕ) (t : ScopedToken) (o : Onces) {e : Error} {o' : Onces}
    → claim now t o ≡ (err e, o')
    → (o'.next ≡ o.next) × ((a : ℕ) → o.spent a ≡ true → o'.spent a ≡ true)
unfolding claim
claim_inv_err now t o h = (ground arith, λ a k. ground arith)

-- The claim that wins is of a token whose `sync.Once` had not run, unlike those of `wins`.
win_IsUnused :
    (a : ℕ) (spent : ℕ → Bool) (xs : List ScopedToken)
    → spent a ≡ false
    → All (λ t. spent t.claimed ≡ true) xs
    → IsUnused a xs
win_IsUnused a spent xs h = All-mono xs (λ t k e. cc)

module _ (enc : Encoding) where
  Step-IsSafe : {s t : System} → Step enc s t → IsSafe s → IsSafe t
  Step-IsSafe {s} (sweep clock) v = record {
    bounded = v.bounded;
    distinct = v.distinct;
    registered =
        unfold expire_old_entries in AllValues-delete_if _ _ s.registry.by_token v.registered;
    waiting = v.waiting;
    copied = v.copied;
    genuine = v.genuine;
    spent = v.spent;
    once = v.once;
  }
  Step-IsSafe (generate subject lifespan m {t = u} h) v =
      let (here, grown, same) = generate_token_inv enc subject lifespan m _ h in
      issue_fresh v here grown same
  Step-IsSafe {s} (add before u after {r = r} e h) v =
      let (i, rest) =
        All-remove (λ x. In x s.issued) before u after
          (subst (All (λ x. In x s.issued)) e v.waiting) in
      record {
        bounded = v.bounded;
        distinct = v.distinct;
        registered = add_token-AllValues (λ x. In x s.issued) u s.registry h i v.registered;
        waiting = rest;
        copied = v.copied;
        genuine = v.genuine;
        spent = v.spent;
        once = v.once;
      }
  Step-IsSafe {s} (look token h) v = record {
    bounded = v.bounded;
    distinct = v.distinct;
    registered = v.registered;
    waiting = v.waiting;
    copied =
        (lookup_token-AllValues (λ x. In x s.issued) token s.registry h v.registered, v.copied);
    genuine = v.genuine;
    spent = v.spent;
    once = v.once;
  }
  Step-IsSafe {s} (win u now {o = o} i h) v =
      let (was, same, is, kept) = claim_inv now u s.onces h in
      record {
        bounded = All-mono s.issued (λ x k. rw same k) v.bounded;
        distinct = v.distinct;
        registered = v.registered;
        waiting = v.waiting;
        copied = v.copied;
        genuine = (In-All (λ x. In x s.issued) u s.held v.copied i, v.genuine);
        spent = (is, All-mono s.wins (λ x k. kept x.claimed k) v.spent);
        once = (win_IsUnused u.claimed s.onces.spent s.wins was v.spent, v.once);
      }
  Step-IsSafe {s} (lose u now {o = o} i h) v =
      let (same, kept) = claim_inv_err now u s.onces h in
      record {
        bounded = All-mono s.issued (λ x k. rw same k) v.bounded;
        distinct = v.distinct;
        registered = v.registered;
        waiting = v.waiting;
        copied = v.copied;
        genuine = v.genuine;
        spent = All-mono s.wins (λ x k. kept x.claimed k) v.spent;
        once = v.once;
      }

  Reach-IsSafe : {s : System} → Reach enc s → IsSafe s
  Reach-IsSafe start = record {
    bounded = tt;
    distinct = tt;
    registered = tt;
    waiting = tt;
    copied = tt;
    genuine = tt;
    spent = tt;
    once = tt;
  }
  Reach-IsSafe (next r st) = Step-IsSafe st (Reach-IsSafe r)

  -- However the steps of concurrent requests interleave, every claim that succeeded was of a token
  -- that was generated, no two generated tokens share a `sync.Once`, and no token is ever claimed
  -- with success twice.
  pub single_use :
      {s : System}
      → Reach enc s
      → All (λ t. In t s.issued) s.wins × IsDistinct s.issued × IsDistinct s.wins
  single_use r = let v = Reach-IsSafe r in (v.genuine, v.distinct, v.once)
