-- ===== src/Token/Registry.antt =====
-- The registry of token/registry.go: what an operation keeps, and what it does to the tokens.
use homeworld.Common.{
  ℕ, suc, ◌+◌, ◌<◌, String, ◌≡◌, refl, ◌⊎◌, inl, inr, Bool, false, none, some, arith, eq_iff, eqb,
  if◌then◌else◌, Option-cases, Result, ok, err, panic, ◌>>=◌,
}
use homeworld.Common.Dict.{
  Dict, lookup, insert, lookup-delete_if, IsMap, IsMap-insert, lookup-insert, IsMap-delete_if,
  AllValues, AllValues-delete_if, AllValues-insert,
}
use homeworld.Token.{
  ScopedToken, has_expired, Encoding, Moment, TokenRegistry, expire_old_entries, Tokens,
  grant_token, generate_token, add_token, Onces, add_granted, generate_token_id, verify,
}

-- Every entry of the map stands under the text of its own token.
abbrev pub IsKeyed : Dict ScopedToken → Type 0
IsKeyed m = (k : String) (t : ScopedToken) → lookup k m ≡ some t → t.token ≡ k

-- The `sync.Once` of an entry exists, and no two entries share one.
abbrev pub IsUnshared : ℕ → Dict ScopedToken → Type 0
IsUnshared next m =
    (k j : String) (t u : ScopedToken)
    → lookup k m ≡ some t
    → lookup j m ≡ some u
    → (t.claimed < next) × (t.claimed ≡ u.claimed → k ≡ j)

pub record IsValid (s : Tokens) : Type 0 where
  pub map : IsMap s.registry.by_token
  pub keyed : IsKeyed s.registry.by_token
  pub unshared : IsUnshared s.onces.next s.registry.by_token

-- An entry that is left by the sweep was there before.
pub lookup-expire_old_entries :
    (clock : String → ℕ) (r : TokenRegistry) (k : String) (t : ScopedToken)
    → IsMap r.by_token
    → lookup k (expire_old_entries clock r).by_token ≡ some t
    → lookup k r.by_token ≡ some t
unfolding expire_old_entries
lookup-expire_old_entries clock r k t m h =
    ground (arith, lookup-delete_if (λ k v. has_expired (clock k) v) k r.by_token m)

IsUnshared-expire_old_entries :
    (clock : String → ℕ) (r : TokenRegistry) (next : ℕ)
    → IsMap r.by_token
    → IsUnshared next r.by_token
    → IsUnshared next (expire_old_entries clock r).by_token
IsUnshared-expire_old_entries clock r next m v k j t u p q =
    v k j t u (lookup-expire_old_entries clock r k t m p)
      (lookup-expire_old_entries clock r j u m q)

-- An entry after an insertion is the new one, or was there before.
pub lookup-insert_cases :
    {V : Type 0} (k j : String) (v w : V) (m : Dict V)
    → lookup j (insert k v m) ≡ some w
    → ((k ≡ j) × (w ≡ v)) ⊎ (lookup j m ≡ some w)
lookup-insert_cases k j v w m h = ground (arith, lookup-insert k j v m, eq_iff k j)

IsKeyed-insert : (t : ScopedToken) (m : Dict ScopedToken) → IsKeyed m → IsKeyed (insert t.token t m)
IsKeyed-insert t m v k u h = ground (arith, lookup-insert_cases t.token k t u m h, v k u)

IsUnshared-insert :
    (t : ScopedToken) (m : Dict ScopedToken)
    → IsUnshared t.claimed m
    → IsUnshared (suc t.claimed) (insert t.token t m)
IsUnshared-insert t m v k j u w p q = ground (
  arith,
  lookup-insert_cases t.token k t u m p,
  lookup-insert_cases t.token j t w m q,
  v k j u w,
  v k k u u,
  v j j w w,
)

IsMap-expire_old_entries :
    (clock : String → ℕ) (r : TokenRegistry)
    → IsMap r.by_token
    → IsMap (expire_old_entries clock r).by_token
unfolding expire_old_entries
IsMap-expire_old_entries clock r m = IsMap-delete_if _ r.by_token m

pub generate_token_inv :
    (enc : Encoding) (subject : String) (lifespan : ℕ) (m : Moment) (o : Onces) {t : ScopedToken}
    {o' : Onces}
    → generate_token enc subject lifespan m o ≡ ok (t, o')
    → (t.claimed ≡ o.next)
      × (o'.next ≡ suc o.next)
      × ((a : ℕ) → a < o.next → o'.spent a ≡ o.spent a)
unfolding generate_token
generate_token_inv enc subject lifespan m o h = (ground arith, ground arith, λ a k. ground arith)

pub add_token_inv :
    (t : ScopedToken) (r : TokenRegistry) {r' : TokenRegistry}
    → add_token t r ≡ ok r'
    → r' ≡ record { by_token = insert t.token t r.by_token }
unfolding add_token
add_token_inv t r h = ground arith

-- The token that a successful grant makes, and the state that it leaves.
abbrev pub granted : String → String → ℕ → Moment → Tokens → ScopedToken
granted id subject lifespan m s = record {
  token = id;
  subject = subject;
  expires = m.now + lifespan;
  claimed = s.onces.next;
}

abbrev pub after_grant : String → String → ℕ → Moment → Tokens → Tokens
after_grant id subject lifespan m s = record {
  registry = record {
    by_token =
        insert id (granted id subject lifespan m s)
          (expire_old_entries m.sweep s.registry).by_token;
  };
  onces = record {
    next = suc s.onces.next;
    spent = λ a. if eqb a s.onces.next then false else s.onces.spent a;
  };
}

after_grant-IsValid :
    (id subject : String) (lifespan : ℕ) (m : Moment) (s : Tokens)
    → IsValid s
    → IsValid (after_grant id subject lifespan m s)
after_grant-IsValid id subject lifespan m s v = record {
  map = IsMap-insert _ _ _ (IsMap-expire_old_entries m.sweep s.registry v.map);
  keyed =
      IsKeyed-insert (granted id subject lifespan m s) _
        (λ k t h. v.keyed k t (lookup-expire_old_entries m.sweep s.registry k t v.map h));
  unshared =
      IsUnshared-insert (granted id subject lifespan m s) _
        (IsUnshared-expire_old_entries m.sweep s.registry s.onces.next v.map v.unshared);
}

swept-IsValid :
    (m : Moment) (s : Tokens)
    → IsValid s
    → IsValid (record s { registry = expire_old_entries m.sweep s.registry })
swept-IsValid m s v = record {
  map = IsMap-expire_old_entries m.sweep s.registry v.map;
  keyed = λ k t h. v.keyed k t (lookup-expire_old_entries m.sweep s.registry k t v.map h);
  unshared = IsUnshared-expire_old_entries m.sweep s.registry s.onces.next v.map v.unshared;
}

-- A `sync.Once` that no entry holds does no harm.
spent_one-IsValid :
    (r : TokenRegistry) (o : Onces) (spent : ℕ → Bool)
    → IsValid (record { registry = r; onces = o })
    → IsValid (record { registry = r; onces = record { next = suc o.next; spent = spent } })
spent_one-IsValid r o spent v = record {
  map = v.map;
  keyed = v.keyed;
  unshared = λ k j t u p q. let (h, e) = v.unshared k j t u p q in (omega arith, e);
}

add_token_fresh :
    (t : ScopedToken) (r : TokenRegistry)
    → lookup t.token r.by_token ≡ none
    → add_token t r ≡ ok (record { by_token = insert t.token t r.by_token })
unfolding add_token
add_token_fresh t r h = ground arith

add_token_taken :
    (t : ScopedToken) (r : TokenRegistry) (u : ScopedToken)
    → lookup t.token r.by_token ≡ some u
    → add_token t r ≡ panic "Token collision (is that even possible?)"
unfolding add_token
add_token_taken t r u h = ground arith

module _ (enc : Encoding) where
  pub grant_token_inv :
      (subject : String) (lifespan : ℕ) (m : Moment) (s : Tokens) {token : String} {s' : Tokens}
      → grant_token enc subject lifespan m s ≡ (ok token, s')
      → (lookup token (expire_old_entries m.sweep s.registry).by_token ≡ none)
        × (s' ≡ after_grant token subject lifespan m s)
  unfolding grant_token
  grant_token_inv subject lifespan m s h = ground arith

  add_granted-IsValid :
      (subject : String) (lifespan : ℕ) (m : Moment) (s : Tokens) (id : Result String)
      → IsValid s
      → IsValid
          (add_granted enc (expire_old_entries m.sweep s.registry) s.onces (do
            id' ← id
            ok (granted id' subject lifespan m s, (after_grant id' subject lifespan m s).onces))).1
  add_granted-IsValid subject lifespan m s (err e) v = swept-IsValid m s v
  add_granted-IsValid subject lifespan m s (panic t) v = swept-IsValid m s v
  add_granted-IsValid subject lifespan m s (ok id) v =
      elim (Option-cases (lookup id (expire_old_entries m.sweep s.registry).by_token)) [
        | inl free ↦
            rw
              (
                add_token_fresh (granted id subject lifespan m s)
                    (expire_old_entries m.sweep s.registry) free,
                add_granted,
              )
              (after_grant-IsValid id subject lifespan m s v)
        | inr (t, taken) ↦
            rw
              (
                add_token_taken (granted id subject lifespan m s)
                    (expire_old_entries m.sweep s.registry) t taken,
                add_granted,
              )
              (spent_one-IsValid _ _ _ (swept-IsValid m s v))
      ]

  -- If the registry is well formed, so it is after a grant, also after one that panics.
  pub grant_token-IsValid :
      (subject : String) (lifespan : ℕ) (m : Moment) (s : Tokens)
      → IsValid s
      → IsValid (grant_token enc subject lifespan m s).1
  unfolding grant_token
  grant_token-IsValid subject lifespan m s v =
      add_granted-IsValid subject lifespan m s (generate_token_id enc m.random) v

  -- What holds of the registered tokens, and of every token for the subject, holds after a grant.
  pub grant_token-AllValues :
      (P : ScopedToken → Type 0) (subject : String) (lifespan : ℕ) (m : Moment) (s : Tokens)
      → ((t : ScopedToken) → t.subject ≡ subject → P t)
      → AllValues P s.registry.by_token
      → AllValues P (grant_token enc subject lifespan m s).1.registry.by_token
  unfolding grant_token
  grant_token-AllValues P subject lifespan m s h v = go (generate_token_id enc m.random)
    where
      swept : AllValues P (expire_old_entries m.sweep s.registry).by_token
      swept = AllValues-delete_if P _ s.registry.by_token v

      go :
          (id : Result String)
          → AllValues P
              (add_granted enc (expire_old_entries m.sweep s.registry) s.onces (do
                id' ← id
                ok (
                  granted id' subject lifespan m s,
                  (after_grant id' subject lifespan m s).onces,
                ))).1.registry.by_token
      go (err e) = swept
      go (panic t) = swept
      go (ok id) =
          elim (Option-cases (lookup id (expire_old_entries m.sweep s.registry).by_token)) [
            | inl free ↦
                rw
                  (
                    add_token_fresh (granted id subject lifespan m s)
                        (expire_old_entries m.sweep s.registry) free,
                    add_granted,
                  )
                  (AllValues-insert P id (granted id subject lifespan m s) _ (h _ refl) swept)
            | inr (t, taken) ↦
                rw
                  (
                    add_token_taken (granted id subject lifespan m s)
                        (expire_old_entries m.sweep s.registry) t taken,
                    add_granted,
                  )
                  swept
          ]

-- A verification changes nothing but whether a `sync.Once` has run.
pub verify_keeps :
    (now : ℕ) (header : String) (s : Tokens)
    → ((verify now header s).1.registry ≡ s.registry)
      × ((verify now header s).1.onces.next ≡ s.onces.next)
unfolding verify
verify_keeps now header s = (ground arith, ground arith)
