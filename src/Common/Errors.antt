-- ===== src/Common/Errors.antt =====
-- Go's error values, and the outcome of a call: a value, an error, or a panic.
use Prim.Native.String.{String}
use mathlib.Core.Path.{◌≡◌, refl}
use mathlib.Core.Bool.{Bool, true, false}

pub data Error : Type 0 where
  -- `errors.New` and `fmt.Errorf`, with the text of the message
  message : String → Error
  -- `*operation.OperationForbiddenError`: the principal and the API
  operation_forbidden : String → String → Error
  -- `endpoint.OperationForbidden{}`
  forbidden_by_server : Error
  -- an error of the file system for which `os.IsNotExist` holds
  not_exist : String → Error
  -- an error of a dynamic type that a package outside the repository declares, around another
  foreign : String → Error → Error

pub data Result {ℓ} (A : Type ℓ) : Type ℓ where
  ok : A → Result A
  err : Error → Result A
  panic : String → Result A

infixl 5 ◌>>=◌ ◌>>◌
-- An error is returned at once, and a panic unwinds.
abbrev pub ◌>>=◌ {ℓ κ} : {X : Type ℓ} {Y : Type κ} → Result X → (X → Result Y) → Result Y
panic text >>= rest = panic text
err why >>= rest = err why
ok x >>= rest = rest x

abbrev pub ◌>>◌ {ℓ} : {Y : Type ℓ} → Result (Unit {0}) → Result Y → Result Y
first >> second = first >>= λ _. second

-- `if !test { return nil, why }`
abbrev pub guard : Bool → Error → Result (Unit {0})
guard false why = err why
guard true why = ok tt

-- A sequence that returns a value has a first part that does.
pub >>=-eq-ok {ℓ κ} :
    {Y : Type κ} {X : Type ℓ} {y : Y} (first : Result X) (rest : X → Result Y)
    → (first >>= rest) ≡ ok y
    → (x : X) × (rest x ≡ ok y) × (first ≡ ok x)
>>=-eq-ok (panic text) rest e = cc
>>=-eq-ok (ok x) rest e = (x, e, refl)
>>=-eq-ok (err why) rest e = cc

-- The call returns a non-nil error.
abbrev pub IsErr {ℓ} : {A : Type ℓ} → Result A → Type 0
IsErr (err why) = Unit
IsErr (ok x) = ⊥
IsErr (panic text) = ⊥

pub guard-eq-ok : (test : Bool) (why : Error) {u : Unit {0}} → guard test why ≡ ok u → test ≡ true
guard-eq-ok true why e = refl
guard-eq-ok false why e = cc

-- `errors.Wrap` on the error of a call
abbrev pub wrapped {ℓ} : {A : Type ℓ} → (Error → Error) → Result A → Result A
wrapped wrap (ok x) = ok x
wrapped wrap (err e) = err (wrap e)
wrapped wrap (panic t) = panic t

pub wrapped-eq-ok {ℓ} :
    {A : Type ℓ} (wrap : Error → Error) (r : Result A) {a : A} → wrapped wrap r ≡ ok a → r ≡ ok a
wrapped-eq-ok wrap (ok b) h = h
wrapped-eq-ok wrap (err e) h = cc
wrapped-eq-ok wrap (panic t) h = cc
