-- ===== src/Keyclient/Hostname.antt =====
-- platform/keysystem/keyclient/actions/hostname/hostname.go
use Prim.Native.String.{◌++◌ as str_append}
use text.Mathlib.Text.{starts_with}
use homeworld.Common.{
  String, Bool, not, ◌&&◌, Option, none, some, List, [], ◌∷◌, ◌==◌, if◌then◌else◌, message,
  not_exist, Result, ok, err, panic,
}
use homeworld.Common.Dict.{Dict, lookup, insert}
use homeworld.Keyclient.Effects.{
  Client, Os, Act, ◌>>=◌, ◌>>◌, give, nothing, ask, tell, blocked, notify_performed, report,
}

module _ {W : Type 0} (os : Os W) where
  abbrev is_entry : String → Bool
  is_entry line = not (line == "") && not (starts_with line "#")

  abbrev add_pair : Option (String × String) → Dict String → Result (Dict String)
  add_pair none kvs = err (message "incorrectly formatted local.conf")
  add_pair (some (key, value)) kvs = ok (insert (os.trim_space key) (os.trim_space value) kvs)

  abbrev add_line : String → Dict String → Result (Dict String)
  add_line line kvs = if is_entry line then add_pair (os.split_pair line) kvs else ok kvs

  -- The loop over the lines.
  unfoldable pub read_lines : List String → Dict String → Act W (Dict String)
  read_lines [] kvs = give (ok kvs)
  read_lines (line ∷ rest) kvs = do
    next ← give (add_line (os.trim_space line) kvs)
    read_lines rest next

  unfoldable pub read_config : String → Act W (Dict String)
  unfolding read_lines
  read_config path = do conf ← ask (os.read_file path); read_lines (os.split_lines conf) []

  abbrev set_hostname : String → String → Act W (Unit {0})
  set_hostname wanted current = if wanted == current then nothing else (do
    tell (os.run_command (str_append "hostnamectl set-hostname " wanted))
    notify_performed)

  abbrev reload_entry : Option String → Act W (Unit {0})
  reload_entry none = give (err (message "no HOST_NODE entry in local.conf"))
  reload_entry (some wanted) = do current ← ask os.hostname; set_hostname wanted current

  abbrev reload_conf : Result (Dict String) × Client W → Result (Unit {0}) × Client W
  reload_conf (ok conf, c) = reload_entry (lookup "HOST_NODE" conf) c
  reload_conf (err (not_exist text), c) = blocked (not_exist text) c
  reload_conf (err e, c) = (err e, c)
  reload_conf (panic t, c) = (panic t, c)

  unfoldable pub perform_reload : String → Act W (Unit {0})
  unfolding read_config
  perform_reload path c = reload_conf (read_config path c)

  unfoldable pub reload_hostname_from : String → Act W (Unit {0})
  unfolding perform_reload
  reload_hostname_from path = report (perform_reload path) nothing
