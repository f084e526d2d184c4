-- ===== src/Tests/KeyclientRounds.antt =====
-- The key client with a server that forbids every operation. The world is a clock.
use homeworld.Common.{
  ℕ, String, ◌≡◌, refl, Bool, true, false, ◌&&◌, none, some, List, [], ◌∷◌, leb, Error, message,
  operation_forbidden, forbidden_by_server, not_exist, foreign, ok, err,
}
use homeworld.Common.Dict.{lookup}
use homeworld.Keyclient.Effects.{Client, Errors, Os, nothing}
use homeworld.Keyclient.Target.{authenticated}
use homeworld.Keyclient.State.{can_retry}
use homeworld.Keyclient.Download.{fetch_api}
use homeworld.Keyclient.Renewal.{RequestOrRenewAction}
use homeworld.Keyclient.Loop.{Pause, Round, pause_time, run_round, run}
use homeworld.Keyclient.Readiness.{IsAlternating, run-IsAlternating}
use homeworld.Keyclient.Formats.{is_token}
use homeworld.Keyclient.Converge.{Formats, converge_state}
use homeworld.Keyclient.Schedule.{Runs, schedule, converge_state-Runs}
use homeworld.Operation.{Json}
use homeworld.Keyclient.State.{
  bootstrap, bootstrap_request, build_csr, send_with_token, get_token, replace_keygranting_cert,
  reload_keygranting_cert,
}
use homeworld.Keyclient.Target.{send_request, post_json, endpoint_request, authenticate_with_token}
use homeworld.Keyclient.Admission.{bootstrap-performed}
use homeworld.Tests.Sample.{json}

abbrev root_cause : Error → Error
root_cause (foreign text e) = root_cause e
root_cause (message text) = message text
root_cause (operation_forbidden principal api) = operation_forbidden principal api
root_cause forbidden_by_server = forbidden_by_server
root_cause (not_exist text) = not_exist text

abbrev pub errors : Errors
errors = record { wrap = foreign; cause = root_cause }

abbrev pub os : Os ℕ
os = record {
  now = λ w. w;
  open_file = λ path w. ok tt;
  read_file = λ path w. ok "";
  stat = λ path w. err (not_exist path);
  abs = λ path w. ok path;
  dir = λ path. path;
  trim_space = λ s. s;
  split_lines = λ s. s ∷ [];
  split_pair = λ s. none;
  hostname = λ w. ok "node";
  load_x509_key_pair = λ cert key w. ok cert;
  generate_rsa = λ bits w. (ok "key", w);
  mkdir_all = λ path w. (ok tt, w);
  write_file = λ path contents mode w. (ok tt, w);
  open_new = λ path mode w. (ok tt, w);
  write = λ path contents w. (ok tt, w);
  close = λ path w. (ok tt, w);
  remove = λ path w. (ok tt, w);
  run_command = λ command w. (ok tt, w);
  send = λ request w. (ok (record { status = 403; body = ok "" }), w);
}

abbrev pub client : Client ℕ
client = record {
  keygrant = some "cert";
  retry_at = [];
  blocked_by = [];
  errored = [];
  performed = false;
  world = 100;
}

-- The client an hour later.
abbrev an_hour_later : Client ℕ
an_hour_later = record (fetch_api os errors json "https://keyserver/" "get-local-config" client).1 {
  world = 3600000000100;
}

abbrev renewal : RequestOrRenewAction
renewal = record {
  in_advance = 10;
  api = "grant-registry-host";
  check_expiration = λ s. ok 50;
  gen_csr = λ s. ok "csr";
  key_file = "key.pem";
  cert_file = "cert.pem";
}

abbrev first_round : Round ℕ
first_round = record { was_stabilized = false; client = client }

abbrev stable_round : Round ℕ
stable_round = record { was_stabilized = true; client = client }

-- Two rounds until the loop is cancelled, with `onReady` in the first.
abbrev until_cancelled : List Bool
until_cancelled = false ∷ false ∷ true ∷ []

abbrev two_pauses : List (Bool × Pause)
two_pauses = (true, pause_time) ∷ (false, pause_time) ∷ []

rounds_done : run nothing until_cancelled first_round ≡ ok (stable_round, two_pauses)
unfolding run run_round
rounds_done = refl

run-IsAlternating_example : IsAlternating false two_pauses
run-IsAlternating_example =
    run-IsAlternating nothing until_cancelled first_round stable_round two_pauses rounds_done

abbrev formats : Formats
formats = record {
  check_tls_cert_expiration = λ s. ok 50;
  build_tls_csr = λ s. ok "csr";
  check_ssh_cert_expiration = λ s. ok 50;
  build_ssh_csr = λ s. ok "csr";
  is_token = λ s. true;
}

converge_state-Runs_example :
    Runs
      (schedule os errors json "https://keyserver/" formats)
      client
      (converge_state os errors json "https://keyserver/" formats client)
converge_state-Runs_example = converge_state-Runs os errors json "https://keyserver/" formats client

-- A server that answers every request, and a client that has a token and no certificate.
abbrev admitting : Os ℕ
admitting = record os {
  read_file = λ path w. ok "abc";
  stat = λ path w. ok (record { is_dir = true; mod_time = 0 });
  send = λ request w. (ok (record { status = 200; body = ok "" }), w);
}

abbrev answering : Json
answering = record json { decode_texts = λ s. ok ("certificate" ∷ []) }

abbrev newcomer : Client ℕ
newcomer = record client { keygrant = none }

admitted :
    (bootstrap admitting errors answering "https://keyserver/" formats.is_token
      formats.build_tls_csr "renew-keygrant" newcomer).1.performed
    ≡ true
unfolding bootstrap can_retry bootstrap_request build_csr send_with_token get_token
    authenticate_with_token authenticated post_json endpoint_request send_request
    replace_keygranting_cert reload_keygranting_cert lookup
admitted = refl

bootstrap-performed_example :
    (cert : String) × ((bootstrap admitting errors answering "https://keyserver/" formats.is_token
        formats.build_tls_csr "renew-keygrant" newcomer).1.keygrant
      ≡ some cert)
bootstrap-performed_example =
    bootstrap-performed admitting errors answering "https://keyserver/" formats.is_token
      formats.build_tls_csr "renew-keygrant" newcomer refl admitted

abbrev is_printable : ℕ → Bool
is_printable c = leb 32 c && leb c 126

token_characters :
    (is_token is_printable "tokenxy" ≡ true) × (is_token is_printable "token xy" ≡ false)
unfolding is_token
token_characters = (refl, refl)
