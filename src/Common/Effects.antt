-- ===== src/Common/Effects.antt =====
-- Programs that act on the world: a call takes the state of the operating system and of the network
-- and gives its result beside the new state.
pub use homeworld.Common.Errors.{wrapped}
use mathlib.Core.Path.{◌≡◌, refl}
use homeworld.Common.Errors.{Error, Result, ok, err, panic}

abbrev pub Effect {ℓ κ} : Type ℓ → Type κ → Type (ℓ ⊔ κ)
Effect W A = W → Result A × W

infixl 5 ◌>>=◌ ◌>>◌
abbrev pub and_then : {W A B : Type 0} → (A → Effect W B) → Result A × W → Result B × W
and_then rest (ok x, w) = rest x w
and_then rest (err e, w) = (err e, w)
and_then rest (panic t, w) = (panic t, w)

abbrev pub ◌>>=◌ : {W A B : Type 0} → Effect W A → (A → Effect W B) → Effect W B
(first >>= rest) w = and_then rest (first w)

abbrev pub ◌>>◌ : {W B : Type 0} → Effect W (Unit {0}) → Effect W B → Effect W B
first >> second = first >>= λ _. second

-- A result that needs no call, and a call that changes nothing.
abbrev pub give : {W A : Type 0} → Result A → Effect W A
give r w = (r, w)

abbrev pub ask : {W A : Type 0} → (W → Result A) → Effect W A
ask f w = (f w, w)

abbrev pub wrapping : {W A : Type 0} → (Error → Error) → Effect W A → Effect W A
wrapping wrap f w = let (r, w') = f w in (wrapped wrap r, w')

-- A sequence that returns a value has a first part that does.
pub >>=-returns :
    {W A B : Type 0} {b : B} {u : W} (first : Effect W A) (rest : A → Effect W B) (w : W)
    → (first >>= rest) w ≡ (ok b, u)
    → (a : A) × (v : W) × (rest a v ≡ (ok b, u)) × (first w ≡ (ok a, v))
>>=-returns {W} {A} {B} {b} {u} first rest w h = split (first w) refl h
  where
    split :
        (r : Result A × W)
        → first w ≡ r
        → and_then rest r ≡ (ok b, u)
        → (a : A) × (v : W) × (rest a v ≡ (ok b, u)) × (first w ≡ (ok a, v))
    split (ok a, v) e k = (a, v, k, e)
    split (err why, v) e k = cc
    split (panic text, v) e k = cc

-- What a program keeps, whatever it returns: an invariant of the world.
abbrev pub Keeps : {W A : Type 0} → (W → Type 0) → Effect W A → Type 0
Keeps P f = (w : _) → P w → P (f w).1

pub >>=-Keeps :
    {W A B : Type 0} (P : W → Type 0) (first : Effect W A) (rest : A → Effect W B)
    → Keeps P first
    → ((a : A) → Keeps P (rest a))
    → Keeps P (first >>= rest)
>>=-Keeps {W} {A} {B} P first rest h k w p = split (first w) (h w p)
  where
    split : (r : Result A × W) → P r.1 → P (and_then rest r).1
    split (ok a, v) q = k a v q
    split (err why, v) q = q
    split (panic text, v) q = q
