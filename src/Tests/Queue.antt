-- ===== src/Tests/Queue.antt =====
-- The setup queue with two manifests, on a machine whose state is the commands that were run and the
-- files of the directory; the second manifest is refused.
use text.Mathlib.TextEquality.{eq_iff}
use homeworld.Common.{
  String, ◌≡◌, refl, sym, subst, ◌⊎◌, inl, inr, Bool, true, false, some, List, [], ◌∷◌, arith, ◌==◌,
  eq_iff, if◌then◌else◌, message, Result, ok, err,
}
use homeworld.Kubernetes.{Machine}
use homeworld.Kubernetes.Deploy.{
  Directory, apply_command, setup_queue_config, deploy_single, deploy_file, deploy_files,
  deploy_all,
}
use homeworld.Kubernetes.Queue.{IsQueue, kubectl_apply, deploy_all-Keeps}
use homeworld.Tests.Launchers.{machine as launcher}
use homeworld.Common.Dict.{lookup, insert}

abbrev State : Type 0
State = List (List String) × List String

-- One text is among these.
abbrev Among : {A : Type 0} → A → List A → Type 0
Among x [] = ⊥
Among x (y ∷ ys) = (y ≡ x) ⊎ Among x ys

abbrev without : String → List String → List String
without file [] = []
without file (f ∷ files) = let rest = without file files in if f == file then rest else f ∷ rest

without-Among :
    (removed file : String) (files : List String)
    → Among file files
    → (removed ≡ file) ⊎ Among file (without removed files)
without-Among removed file [] h = elim h [ ]
without-Among removed file (f ∷ files) (inl same) = ground (arith, eq_iff f removed)
without-Among removed file (f ∷ files) (inr later) =
    ground (arith, eq_iff f removed, without-Among removed file files later)

abbrev last : List String → String
last [] = ""
last (arg ∷ []) = arg
last (arg ∷ next ∷ args) = last (next ∷ args)

abbrev finished : Bool → List String → State → Result (Unit {0}) × State
finished true args (commands, files) = (err (message "exit status 1"), (commands, files))
finished false args (commands, files) = (ok tt, (args ∷ commands, files))

abbrev machine : Machine State
machine = record {
  read_file = λ path w. launcher.read_file path w.0;
  split_lines = λ text. "APISERVER=kube" ∷ [];
  split_pair = λ text. some ("APISERVER", "kube");
  trim_space = λ text. text;
  is_comment = launcher.is_comment;
  count = launcher.count;
  parse_uint32 = launcher.parse_uint32;
  parse_cidr = launcher.parse_cidr;
  parses_as_ip = launcher.parses_as_ip;
  parse_bool = launcher.parse_bool;
  wrap = launcher.wrap;
  write_kube_config = λ config path w. (ok tt, w);
  run = λ args. finished (last args == "b.yaml") args;
}

abbrev directory : Directory State
directory = record {
  read_dir = λ dir w. ok w.1;
  join = λ dir file. file;
  remove = λ file w. (ok tt, (w.0, without file w.1));
}

abbrev Applied : String → State → Type 0
Applied file w = Among (apply_command setup_queue_config file) w.0

abbrev Queued : String → State → Type 0
Queued file w = Among file w.1

finished-applies :
    (b : Bool) (args : List String) (w : State)
    → (finished b args w).0 ≡ ok tt
    → Among args (finished b args w).1.0
finished-applies true args w e = cc
finished-applies false args w e = inl refl

finished-keeps :
    (b : Bool) (args command : List String) (w : State)
    → Among command w.0
    → Among command (finished b args w).1.0
finished-keeps true args command w h = h
finished-keeps false args command w h = inr h

finished-leaves : (b : Bool) (args : List String) (w : State) → (finished b args w).1.1 ≡ w.1
finished-leaves true args w = refl
finished-leaves false args w = refl

os : IsQueue machine directory "queue" Applied Queued
os = record {
  applies = λ path. finished-applies (path == "b.yaml") (apply_command setup_queue_config path);
  apply_applied =
      λ other path. finished-keeps (other == "b.yaml") (kubectl_apply other) (kubectl_apply path);
  apply_queued = λ other file w.
      subst (Among file) (sym (finished-leaves (other == "b.yaml") (kubectl_apply other) w));
  write_applied = λ config path w h. h;
  write_queued = λ config file w h. h;
  remove_applied = λ removed path w h. h;
  remove_queued = λ removed file w. without-Among removed file w.1;
}

abbrev two_files : State
two_files = ([], "a.yaml" ∷ "b.yaml" ∷ [])

-- The first is applied and removed, and the second stays.
deploy_all_stops : deploy_all machine directory "queue" two_files ≡ (
  err (message "exit status 1"),
  (apply_command setup_queue_config "a.yaml" ∷ [], "b.yaml" ∷ []),
)
unfolding deploy_all deploy_files deploy_file deploy_single lookup insert
deploy_all_stops = refl

deploy_all-Keeps_example :
    Applied "b.yaml" (deploy_all machine directory "queue" two_files).1
    ⊎ Queued "b.yaml" (deploy_all machine directory "queue" two_files).1
deploy_all-Keeps_example =
    deploy_all-Keeps machine directory "queue" Applied Queued os "b.yaml" two_files (inr (inl refl))
