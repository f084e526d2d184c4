-- ===== src/Keyclient/Effects.antt =====
-- The state that the key client runs in, and the packages that it calls: a call takes the state and
-- gives a result beside the new one. `Client` joins `ClientState` of keyclient/state/state.go and the
-- `NewActionContext` of keyclient/actloop/actloop.go, which points to it; `errored` holds what is
-- logged by `Errored`. `W` is the state of the operating system and of the network.
pub use homeworld.Common.{
  ℕ, ◌+◌, ◌-◌, ◌/◌, ◌%◌, String, ap, Bool, true, false, not, Option, List, [], ◌∷◌, ◌++◌,
  if◌then◌else◌, Error, message, not_exist, Result, ok, err, panic, wrapped,
}
use homeworld.Common.{
  ℕ, String, Bool, true, false, Option, List, [], ◌∷◌, ◌++◌, if◌then◌else◌, Error, message,
  not_exist, Result, ok, err, panic,
}
use homeworld.Common.Dict.{Dict}

pub record Client (W : Type 0) : Type 0 where
  pub keygrant : Option String
  pub retry_at : Dict ℕ
  pub blocked_by : List Error
  pub errored : List Error
  pub performed : Bool
  pub world : W

-- `github.com/pkg/errors`
pub record Errors : Type 0 where
  pub wrap : String → Error → Error
  pub cause : Error → Error

pub record FileInfo : Type 0 where
  pub is_dir : Bool
  pub mod_time : ℕ

-- What is sent to the keyserver: the headers and certificates of the endpoint are one credential.
pub data Credential : Type 0 where
  nobody : Credential
  token : String → Credential
  keygrant_cert : String → Credential

pub record HttpRequest : Type 0 where
  pub verb : String
  pub url : String
  pub credential : Credential
  pub body : String

-- A response whose body may fail to be read.
pub record HttpResponse : Type 0 where
  pub status : ℕ
  pub body : Result String

-- The standard library, as far as it is called.
pub record Os (W : Type 0) : Type 0 where
  pub now : W → ℕ
  pub open_file : String → W → Result (Unit {0})
  pub read_file : String → W → Result String
  pub stat : String → W → Result FileInfo
  pub abs : String → W → Result String
  pub dir : String → String
  pub trim_space : String → String
  -- `strings.Split` at "\n", and `strings.SplitN` at "=" into two parts, if there are two
  pub split_lines : String → List String
  pub split_pair : String → Option (String × String)
  pub hostname : W → Result String
  pub load_x509_key_pair : String → String → W → Result String
  pub generate_rsa : ℕ → W → Result String × W
  pub mkdir_all : String → W → Result (Unit {0}) × W
  -- the path, the contents and the mode
  pub write_file : String → String → ℕ → W → Result (Unit {0}) × W
  -- `os.OpenFile` with `O_WRONLY|O_EXCL|O_CREATE`, and the calls on the file that it opens
  pub open_new : String → ℕ → W → Result (Unit {0}) × W
  pub write : String → String → W → Result (Unit {0}) × W
  pub close : String → W → Result (Unit {0}) × W
  pub remove : String → W → Result (Unit {0}) × W
  pub run_command : String → W → Result (Unit {0}) × W
  pub send : HttpRequest → W → Result HttpResponse × W

abbrev pub Act : Type 0 → Type 0 → Type 0
Act W A = Client W → Result A × Client W

infixl 5 ◌>>=◌ ◌>>◌
abbrev pub and_then : {W A B : Type 0} → (A → Act W B) → Result A × Client W → Result B × Client W
and_then rest (ok x, c) = rest x c
and_then rest (err e, c) = (err e, c)
and_then rest (panic t, c) = (panic t, c)

abbrev pub ◌>>=◌ : {W A B : Type 0} → Act W A → (A → Act W B) → Act W B
(first >>= rest) c = and_then rest (first c)

abbrev pub ◌>>◌ : {W B : Type 0} → Act W (Unit {0}) → Act W B → Act W B
first >> second = first >>= λ _. second

abbrev pub give : {W A : Type 0} → Result A → Act W A
give r c = (r, c)

abbrev pub nothing : {W : Type 0} → Act W (Unit {0})
nothing c = (ok tt, c)

-- A call that reads the world, and one that changes it.
abbrev pub ask : {W A : Type 0} → (W → Result A) → Act W A
ask f c = (f c.world, c)

abbrev pub tell : {W A : Type 0} → (W → Result A × W) → Act W A
tell f c = let (r, w) = f c.world in (r, record c { world = w })

abbrev pub wrapping : {W A : Type 0} → (Error → Error) → Act W A → Act W A
wrapping wrap f c = let (r, c') = f c in (wrapped wrap r, c')

-- `nac.Errored` and `nac.Blocked`, `nac.NotifyPerformed`
abbrev pub blocked : {W : Type 0} → Error → Act W (Unit {0})
blocked e c = (ok tt, record c { blocked_by = c.blocked_by ++ e ∷ [] })

abbrev pub errored : {W : Type 0} → Error → Act W (Unit {0})
errored e c = (ok tt, record c { errored = c.errored ++ e ∷ [] })

abbrev pub notify_performed : {W : Type 0} → Act W (Unit {0})
notify_performed c = (ok tt, record c { performed = true })

-- `if err != nil { nac.Errored(info, err) } else { done }`
abbrev pub report_then :
    {W : Type 0} → Act W (Unit {0}) → Result (Unit {0}) × Client W → Result (Unit {0}) × Client W
report_then done (ok u, c) = done c
report_then done (err e, c) = errored e c
report_then done (panic t, c) = (panic t, c)

abbrev pub report : {W : Type 0} → Act W (Unit {0}) → Act W (Unit {0}) → Act W (Unit {0})
report f done c = report_then done (f c)

-- `fileutil.Exists`
abbrev pub is_ok : {A : Type 0} → Result A → Bool
is_ok (ok x) = true
is_ok (err e) = false
is_ok (panic t) = false

module _ {W : Type 0} (os : Os W) where
  abbrev pub exists : String → Client W → Bool
  exists path c = is_ok (os.open_file path c.world)

  abbrev must_be_dir : FileInfo → Result (Unit {0})
  must_be_dir info = if info.is_dir then ok tt else err (message "not a directory")

  -- What follows the first `os.Stat`.
  abbrev pub ensure_stat : String → Result FileInfo → Act W (Unit {0})
  ensure_stat dirname (ok info) = give (must_be_dir info)
  ensure_stat dirname (err (not_exist text)) = do
    tell (os.mkdir_all dirname)
    info ← ask (os.stat dirname)
    give (must_be_dir info)
  ensure_stat dirname (err e) = give (err e)
  ensure_stat dirname (panic t) = give (panic t)

  -- `fileutil.EnsureIsFolder`
  abbrev pub ensure_is_folder : String → Act W (Unit {0})
  ensure_is_folder dirname c = ensure_stat dirname (os.stat dirname c.world) c

  -- The error that stays after the file was removed again.
  abbrev removed : Error → Result (Unit {0}) × Client W → Result (Unit {0}) × Client W
  removed e (ok u, c) = (err e, c)
  removed e (err (not_exist text), c) = (err e, c)
  removed e (err e2, c) = (err (message "multiple errors while creating file: %s | %s"), c)
  removed e (panic t, c) = (panic t, c)

  abbrev clean_up : String → Result (Unit {0}) × Client W → Result (Unit {0}) × Client W
  clean_up filename (ok u, c) = (ok u, c)
  clean_up filename (err e, c) = removed e (tell (os.remove filename) c)
  clean_up filename (panic t, c) = (panic t, c)

  -- The file is closed either way, and only after a write that went well does closing count.
  abbrev written : String → Result (Unit {0}) × Client W → Result (Unit {0}) × Client W
  written filename (ok u, c) = tell (os.close filename) c
  written filename (err e, c) = (err e, (tell (os.close filename) c).1)
  written filename (panic t, c) = (panic t, c)

  -- `fileutil.CreateFile`
  unfoldable pub create_file : String → String → ℕ → Act W (Unit {0})
  create_file filename contents permissions = do
    tell (os.open_new filename permissions)
    λ c. clean_up filename (written filename (tell (os.write filename contents) c))
