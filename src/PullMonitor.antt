-- ===== src/PullMonitor.antt =====
-- platform/pull-monitor/pull-monitor/interact.go: images, pods and containers of CRI-O. `W` is the
-- state of the operating system. Results beside an error are left out, since every caller looks at the
-- error first.
use Prim.Native.String.{◌++◌ as str_append}
use homeworld.Common.{
  ℕ, ◌+◌, ◌-◌, ◌/◌, String, ap, Bool, true, false, not, Option, none, some, List, [], ◌∷◌, ◌++◌,
  Error, message, Result, ok, err, panic, length,
}
use homeworld.Common.Effects.{Effect, ◌>>=◌, ◌>>◌, give, ask, wrapping, wrapped}
pub mod Pods
pub mod Cycle
pub mod Waiting
pub mod Cleanup
pub mod Leftovers

pub record PodSandboxMetadata : Type 0 where
  pub name : String
  pub uid : String
  pub namespace : String
  pub attempt : ℕ

pub record PodSandboxConfig : Type 0 where
  pub metadata : PodSandboxMetadata
  pub log_directory : String

pub record ContainerConfig : Type 0 where
  pub metadata_name : String
  pub image : String
  pub command : List String
  pub args : List String
  pub log_path : String

-- What is written to a temporary file.
pub data Manifest : Type 0 where
  pod : PodSandboxConfig → Manifest
  container : ContainerConfig → Manifest

-- The calls of `os`, `os/exec`, `crypto/rand`, `encoding/json`, `github.com/pkg/errors` and
-- `github.com/hashicorp/go-multierror`. A command is run by its arguments, without the name `crictl`.
pub record Host (W : Type 0) : Type 0 where
  pub crictl : List String → Effect W String
  -- `ioutil.TempFile`, by the name of the file that is open then
  pub temp_file : String → Effect W String
  pub encode : Manifest → String → Effect W (Unit {0})
  pub close : String → Effect W (Unit {0})
  pub remove : String → Effect W (Unit {0})
  -- sixteen random bytes, in hexadecimal
  pub random_id : Effect W String
  pub now : W → ℕ
  -- `rand.Uint64`, in decimal
  pub random_number : W → String × W
  pub trim_space : String → String
  pub trim_newlines : String → String
  pub byte_length : String → ℕ
  -- the state in the status, if the response has a status
  pub decode_inspection : String → Result (Option String)
  pub wrap : String → Error → Error
  -- `multierror.Append`; either error may be nil
  pub append : Option Error → Option Error → Error

abbrev pub error_of : {A : Type 0} → Result A → Option Error
error_of (ok x) = none
error_of (err e) = some e
error_of (panic t) = none

module _ {W : Type 0} (host : Host W) where
  open host use {crictl, remove, wrap, append}

  -- `cmd.Run`, and `cmd.Output` whose output is dropped
  abbrev pub run : List String → Effect W (Unit {0})
  run args = do _ ← crictl args; give (ok tt)

  abbrev is_nil : {A : Type 0} → Result A × W → Bool × W
  is_nil (ok x, w) = (true, w)
  is_nil (err e, w) = (false, w)
  is_nil (panic t, w) = (false, w)

  unfoldable pub does_image_exist : String → W → Bool × W
  does_image_exist image w = is_nil (crictl ("inspecti" ∷ image ∷ []) w)

  unfoldable pub delete_image : String → Effect W (Unit {0})
  delete_image image = run ("rmi" ∷ image ∷ [])

  unfoldable pub pull_image : String → Effect W (Unit {0})
  pull_image image = run ("pull" ∷ image ∷ [])

  abbrev pub delete_if : Bool × W → String → Result (Unit {0}) × W
  delete_if (true, w) image =
      wrapping (wrap "failed to remove previous image") (delete_image image) w
  delete_if (false, w) image = (ok tt, w)

  abbrev pub fetched : ℕ → Bool × W → Result ℕ × W
  fetched time_taken (true, w) = (ok time_taken, w)
  fetched time_taken (false, w) = (err (message "pulled image, yet it does not exist"), w)

  -- The time that the pull takes, in nanoseconds.
  abbrev pub timed_pull : String → Effect W ℕ
  timed_pull image w =
      let time_start = host.now w in
      let (result, w') = pull_image image w in
      (
        elim result [
          | ok _ ↦ ok (host.now w' - time_start)
          | err e ↦ err (wrap "failed to fetch new image" e)
          | panic t ↦ panic t
        ],
        w',
      )

  unfoldable pub refetch : String → Effect W ℕ
  unfolding does_image_exist delete_image pull_image
  refetch image = do
    λ w. delete_if (does_image_exist image w) image
    time_taken ← timed_pull image
    λ w. fetched time_taken (does_image_exist image w)

  -- An error that a call had before the file was removed again.
  abbrev pub with_removal : String → Error → W → Error × W
  with_removal path e w =
      let (result, w') = remove path w in (append (some e) (error_of result), w')

  abbrev pub written : String → Result (Unit {0}) × W → Result String × W
  written path (ok u, w) = (ok path, w)
  written path (err e, w) =
      let (e', w') = with_removal path e w in (err (wrap "writing JSON" e'), w')
  written path (panic t, w) = (panic t, w)

  -- A deferred call, and what its error makes of the result.
  abbrev pub add_error : {A : Type 0} → Option Error → Result A → Result A
  add_error none r = r
  add_error (some e) (ok x) = err (append none (some e))
  add_error (some e) (err e1) = err (append (some e1) (some e))
  add_error (some e) (panic t) = panic t

  abbrev pub deferred : {A : Type 0} → Effect W (Unit {0}) → Result A × W → Result A × W
  deferred call (r, w) = let (result, w') = call w in (add_error (error_of result) r, w')

  unfoldable pub create_json_tempfile : Manifest → Effect W String
  create_json_tempfile contents = do
    path ← wrapping (wrap "creating tempfile") (host.temp_file "pullcheck-manifest-")
    λ w. deferred (host.close path) (written path (host.encode contents path w))
