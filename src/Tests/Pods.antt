-- ===== src/Tests/Pods.antt =====
-- The pull monitor on a sample host, whose state is the number of temporary files.
use Prim.Native.String.{◌++◌ as str_append}
use homeworld.Common.{
  ℕ, suc, ◌-◌, String, ◌≡◌, refl, ap, ◌∙◌, some, List, [], ◌∷◌, arith, ◌==◌, eq_iff, if◌then◌else◌,
  message, Result, ok,
}
use homeworld.PullMonitor.{Host, create_json_tempfile}
use homeworld.PullMonitor.Pods.{
  run_pod, start_pod_sandbox, delete_pod_sandbox, run_container, create_container, start_container,
  wait_for, get_container_logs, is_container_running,
}
use homeworld.PullMonitor.Cycle.{Metrics, cycle}
use homeworld.PullMonitor.Waiting.{IsCycled, StopsWithin, cycle-returns}
use homeworld.PullMonitor.Cleanup.{IsTracking}
use homeworld.PullMonitor.Leftovers.{run_pod-Keeps}

abbrev host : Host ℕ
host = record {
  crictl = λ args w. (ok "id", w);
  temp_file = λ pattern w. (ok "/tmp/pullcheck-manifest-1", suc w);
  encode = λ manifest path w. (ok tt, w);
  close = λ path w. (ok tt, w);
  remove = λ path w. (ok tt, w - 1);
  random_id = λ w. (ok "00", w);
  now = λ w. w;
  random_number = λ w. ("7", w);
  trim_space = λ text. text;
  trim_newlines = λ text. text;
  byte_length = λ text. 64;
  decode_inspection = λ text. ok (some "CONTAINER_EXITED");
  wrap = λ text e. e;
  append = λ first second. message "2 errors occurred";
}

-- A host whose state is the temporary files, the newest first, each with a longer name.
abbrev fresh : List String → String
fresh [] = "/tmp/pullcheck-manifest-1"
fresh (path ∷ files) = str_append path "1"

abbrev without : String → List String → List String
without path [] = []
without path (file ∷ files) = if path == file then files else file ∷ without path files

abbrev disk : Host (List String)
disk = record {
  crictl = λ args w. (ok "id", w);
  temp_file = λ pattern w. (ok (fresh w), fresh w ∷ w);
  encode = λ manifest path w. (ok tt, w);
  close = λ path w. (ok tt, w);
  remove = λ path w. (ok tt, without path w);
  random_id = λ w. (ok "00", w);
  now = λ w. 0;
  random_number = λ w. ("7", w);
  trim_space = λ text. text;
  trim_newlines = λ text. text;
  byte_length = λ text. 64;
  decode_inspection = λ text. ok (some "CONTAINER_EXITED");
  wrap = λ text e. e;
  append = λ first second. message "2 errors occurred";
}

abbrev Files : List String → List String → Type 0
Files files w = w ≡ files

without-newest : (path : String) (files : List String) → without path (path ∷ files) ≡ files
without-newest path files = rw ((eq_iff path path).1 refl) refl

tracking : IsTracking disk Files
tracking = record {
  opens = λ pattern files w h. ap (λ u. fresh w ∷ u) h;
  removes = λ path files w h. ap (without path) h ∙ without-newest path files;
  closes = λ path files w h. (refl, h);
  encodes = λ m path files w h. h;
  encodes_return = λ m path w. tt;
  runs = λ args files w h. h;
  runs_return = λ args w. tt;
  draws = λ files w h. h;
}

abbrev old : List String
old = "/tmp/other" ∷ []

run_pod_runs : run_pod disk 1 "pullcheck" [] old ≡ some (ok "id", old)
unfolding run_pod start_pod_sandbox delete_pod_sandbox run_container create_json_tempfile
    create_container start_container wait_for is_container_running get_container_logs
run_pod_runs = refl

run_pod-Keeps_example : Files old old
run_pod-Keeps_example = run_pod-Keeps disk Files tracking 1 "pullcheck" [] old old refl run_pod_runs

-- Every container has exited when it is first inspected.
exits : (containerid : String) (w : ℕ) → StopsWithin host 1 containerid w
unfolding is_container_running
exits containerid w = (0, omega arith, λ e. cc)

abbrev before : Metrics
before = record { oci_check = 0; exec_check = 0; oci_timing = []; exec_timing = [] }

cycle-returns_example :
    (out : Result Metrics × ℕ) × (cycle host 1 "pullcheck" before 4 ≡ some out)
    × IsCycled before out.0
cycle-returns_example = cycle-returns host 1 exits "pullcheck" before 4
