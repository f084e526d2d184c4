-- ===== src/Common/Dict.antt =====
-- Go's maps with string keys, as association lists. A read takes the first entry for a key, a
-- write replaces it or adds one at the end, and `delete` drops every entry for the key. The order
-- of the entries stands for the order of a `range`, which Go leaves open.
use Prim.Native.String.{String}
use mathlib.Core.Path.{◌≡◌, refl, subst}
use mathlib.Core.Logic.{◌≢◌, inl, inr}
use mathlib.Core.Bool.{Bool}
use mathlib.Core.Option.{Option, none, some}
use mathlib.Core.List.{List, [], ◌∷◌}
use native.Mathlib.Omega.{arith}
use text.Mathlib.Text.{◌==◌}
use text.Mathlib.TextEquality.{eq_iff}
use homeworld.Common.Tests.{if◌then◌else◌, Bool-cases}

abbrev pub Dict {ℓ} : Type ℓ → Type ℓ
Dict V = List (String × V)

module _ {ℓ} {V : Type ℓ} where
  -- `v, found := m[key]`
  unfoldable pub lookup : String → Dict V → Option V
  lookup key [] = none
  lookup key ((at, held) ∷ rest) = if at == key then some held else lookup key rest

  -- `m[key] = new`
  unfoldable pub insert : String → V → Dict V → Dict V
  insert key new [] = (key, new) ∷ []
  insert key new ((at, held) ∷ rest) =
      if at == key then (at, new) ∷ rest else (at, held) ∷ insert key new rest

  -- The entries for which the test fails are deleted in a loop over the map.
  unfoldable pub delete_if : (String → V → Bool) → Dict V → Dict V
  delete_if p [] = []
  delete_if p ((j, v) ∷ m) = let rest = delete_if p m in if p j v then rest else (j, v) ∷ rest

  pub lookup-insert :
      (wrote read : String) (new : V) (m : Dict V)
      → lookup read (insert wrote new m) ≡ (if wrote == read then some new else lookup read m)
  unfolding lookup insert
  lookup-insert wrote read new ((at, held) ∷ rest) =
      ground (
        arith,
        lookup-insert wrote read new rest,
        eq_iff at wrote,
        eq_iff wrote read,
        eq_iff at read,
      )
  lookup-insert wrote read new [] = refl

  -- No key stands twice: the form that a Go map keeps.
  abbrev pub IsFresh : String → Dict V → Type 0
  IsFresh k [] = Unit
  IsFresh k ((j, v) ∷ m) = (j ≢ k) × IsFresh k m

  abbrev pub IsMap : Dict V → Type 0
  IsMap [] = Unit
  IsMap ((j, v) ∷ m) = IsFresh j m × IsMap m

  pub lookup_of_IsFresh : (k : String) (m : Dict V) → IsFresh k m → lookup k m ≡ none
  unfolding lookup
  lookup_of_IsFresh k [] h = refl
  lookup_of_IsFresh k ((j, v) ∷ m) h = ground (arith, eq_iff j k, lookup_of_IsFresh k m h.1)

  IsFresh-delete_if :
      (p : String → V → Bool) (k : String) (m : Dict V) → IsFresh k m → IsFresh k (delete_if p m)
  unfolding delete_if
  IsFresh-delete_if p k [] h = tt
  IsFresh-delete_if p k ((j, v) ∷ m) h = ground (arith, IsFresh-delete_if p k m h.1)

  pub IsMap-delete_if : (p : String → V → Bool) (m : Dict V) → IsMap m → IsMap (delete_if p m)
  unfolding delete_if
  IsMap-delete_if p [] h = tt
  IsMap-delete_if p ((j, v) ∷ m) h =
      ground (arith, IsFresh-delete_if p j m h.0, IsMap-delete_if p m h.1)

  IsFresh-insert :
      (k j : String) (v : V) (m : Dict V) → j ≢ k → IsFresh k m → IsFresh k (insert j v m)
  unfolding insert
  IsFresh-insert k j v [] ne h = (ne, tt)
  IsFresh-insert k j v ((i, w) ∷ m) ne h = ground (arith, eq_iff i j, IsFresh-insert k j v m ne h.1)

  pub IsMap-insert : (k : String) (v : V) (m : Dict V) → IsMap m → IsMap (insert k v m)
  unfolding insert
  IsMap-insert k v [] h = (tt, tt)
  IsMap-insert k v ((j, w) ∷ m) h =
      ground (arith, eq_iff j k, IsFresh-insert j k v m, IsMap-insert k v m h.1)

  -- Exactly the entries that fail the test survive.
  pub lookup-delete_if :
      (p : String → V → Bool) (k : String) (m : Dict V)
      → IsMap m
      → lookup k (delete_if p m)
        ≡ elim (lookup k m) [ none ↦ none | some v ↦ if p k v then none else some v ]
  unfolding lookup delete_if
  lookup-delete_if p k [] h = refl
  lookup-delete_if p k ((j, v) ∷ m) h =
      ground (arith, eq_iff j k, lookup_of_IsFresh k m, lookup-delete_if p k m h.1)

-- What holds of every value of a map.
module _ {V : Type 0} (P : V → Type 0) where
  abbrev pub AllValues : Dict V → Type 0
  AllValues [] = Unit
  AllValues ((k, v) ∷ m) = P v × AllValues m

  pub AllValues-lookup : (k : String) (v : V) (m : Dict V) → AllValues m → lookup k m ≡ some v → P v
  unfolding lookup
  AllValues-lookup k v [] h e = cc
  AllValues-lookup k v ((j, w) ∷ m) (p, h) e = elim (Bool-cases (j == k)) [
    | inl same ↦ let e' = rw same at e in let q : w ≡ v = cc in subst P q p
    | inr other ↦ AllValues-lookup k v m h (rw other at e)
  ]

  pub AllValues-insert :
      (k : String) (v : V) (m : Dict V) → P v → AllValues m → AllValues (insert k v m)
  unfolding insert
  AllValues-insert k v [] p h = (p, tt)
  AllValues-insert k v ((j, w) ∷ m) p (q, h) = elim (Bool-cases (j == k)) [
    | inl same ↦ rw same (p, h)
    | inr other ↦ rw other (q, AllValues-insert k v m p h)
  ]

  pub AllValues-delete_if :
      (p : String → V → Bool) (m : Dict V) → AllValues m → AllValues (delete_if p m)
  unfolding delete_if
  AllValues-delete_if p [] h = tt
  AllValues-delete_if p ((j, w) ∷ m) (q, h) = elim (Bool-cases (p j w)) [
    | inl gone ↦ rw gone (AllValues-delete_if p m h)
    | inr kept ↦ rw kept (q, AllValues-delete_if p m h)
  ]

pub AllValues-mono :
    {V : Type 0} {P Q : V → Type 0} (m : Dict V)
    → ((v : V) → P v → Q v)
    → AllValues P m
    → AllValues Q m
AllValues-mono [] f h = tt
AllValues-mono ((k, v) ∷ m) f (p, h) = (f v p, AllValues-mono m f h)
