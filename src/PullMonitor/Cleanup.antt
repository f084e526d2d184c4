-- ===== src/PullMonitor/Cleanup.antt =====
-- The temporary files of the pull monitor, up to the launch of a container.
use homeworld.Common.{
  String, ◌≡◌, inl, inr, List, [], ◌∷◌, eqb, Bool-cases, Error, Result, ok, err, panic,
}
use homeworld.Common.Effects.{
  Effect, ◌>>=◌, ◌>>◌, and_then, give, wrapping, wrapped, Keeps, >>=-Keeps,
}
use homeworld.PullMonitor.{
  Host, Manifest, pod, container, deferred, written, run, create_json_tempfile,
}
use homeworld.PullMonitor.Pods.{
  pod_config, container_config, started, start_pod_sandbox, delete_pod_sandbox, valid_id,
  invoke_create, create_container, start_container, launch_container,
}

-- The call does not panic.
abbrev pub Returns : {A : Type 0} → Result A → Type 0
Returns (ok x) = Unit
Returns (err e) = Unit
Returns (panic t) = ⊥

module _ {W : Type 0} (host : Host W) (Files : List String → W → Type 0) where
  -- A call that leaves one file more if it succeeds, at the path in its result, and no more if it fails.
  abbrev pub Opened : {A : Type 0} → (A → String) → List String → Result A × W → Type 0
  Opened path_of files (ok x, w) = Files (path_of x ∷ files) w
  Opened path_of files (err e, w) = Files files w
  Opened path_of files (panic t, w) = Files files w

  -- What is asked of the operating system, where `Files files w` says that these are the temporary
  -- files, the newest first: creating one adds its path, removing the newest takes away its path,
  -- closing one succeeds and, as all other calls do, leaves them alone; and commands and encodings do
  -- not panic. Nothing is said of the removal of another path.
  pub record IsTracking : Type 0 where
    pub opens :
        (pattern : String) (files : List String) (w : W)
        → Files files w
        → Opened (λ path. path) files (host.temp_file pattern w)
    pub removes :
        (path : String) (files : List String) (w : W)
        → Files (path ∷ files) w
        → Files files (host.remove path w).1
    pub closes :
        (path : String) (files : List String) (w : W)
        → Files files w
        → ((host.close path w).0 ≡ ok tt) × Files files (host.close path w).1
    pub encodes :
        (m : Manifest) (path : String) (files : List String)
        → Keeps (Files files) (host.encode m path)
    pub encodes_return : (m : Manifest) (path : String) (w : W) → Returns (host.encode m path w).0
    pub runs : (args : List String) (files : List String) → Keeps (Files files) (host.crictl args)
    pub runs_return : (args : List String) (w : W) → Returns (host.crictl args w).0
    pub draws : (files : List String) → Keeps (Files files) host.random_id

  Opened-wrapping :
      {A : Type 0} (path_of : A → String) (wrap : Error → Error) (files : List String)
      (r : Result A × W)
      → Opened path_of files r
      → Opened path_of files (wrapped wrap r.0, r.1)
  Opened-wrapping path_of wrap files (ok x, w) h = h
  Opened-wrapping path_of wrap files (err e, w) h = h
  Opened-wrapping path_of wrap files (panic t, w) h = h

  Opened-and_then :
      {A B : Type 0} (path_of : A → String) (path_after : B → String) (files : List String)
      (rest : A → Effect W B) (r : Result A × W)
      → ((a : A) (w : W) → Files (path_of a ∷ files) w → Opened path_after files (rest a w))
      → Opened path_of files r
      → Opened path_after files (and_then rest r)
  Opened-and_then path_of path_after files rest (ok x, w) h k = h x w k
  Opened-and_then path_of path_after files rest (err e, w) h k = k
  Opened-and_then path_of path_after files rest (panic t, w) h k = k

  module _ (os : IsTracking) where
    create_json_tempfile-Opened :
        (contents : Manifest) (files : List String) (w : W)
        → Files files w
        → Opened (λ p. p) files (create_json_tempfile host contents w)
    unfolding create_json_tempfile
    create_json_tempfile-Opened contents files w h =
        Opened-and_then (λ path. path) (λ path. path) files
          (λ path w'.
            deferred host (host.close path) (written host path (host.encode contents path w')))
          (wrapping (host.wrap "creating tempfile") (host.temp_file "pullcheck-manifest-") w)
          (λ path w' k.
            filled path (host.encode contents path w') (os.encodes_return contents path w')
              (os.encodes contents path (path ∷ files) w' k))
          (Opened-wrapping (λ path. path) (host.wrap "creating tempfile") files
            (host.temp_file "pullcheck-manifest-" w) (os.opens "pullcheck-manifest-" files w h))
      where
        closed :
            (path : String) (r : Result String × W)
            → Opened (λ p. p) files r
            → Opened (λ p. p) files (deferred host (host.close path) r)
        closed path (ok x, v) k = let (fine, kept) = os.closes path (x ∷ files) v k in rw fine kept
        closed path (err e, v) k = let (fine, kept) = os.closes path files v k in rw fine kept
        closed path (panic t, v) k = let (fine, kept) = os.closes path files v k in rw fine kept

        filled :
            (path : String) (r : Result (Unit {0}) × W)
            → Returns r.0
            → Files (path ∷ files) r.1
            → Opened (λ p. p) files (deferred host (host.close path) (written host path r))
        filled path (ok u, v) j k = closed path (ok path, v) k
        filled path (err e, v) j k = closed path _ (os.removes path files v k)
        filled path (panic t, v) j k = absurd j

    pub start_pod_sandbox-Opened :
        (files : List String) (w : W)
        → Files files w
        → Opened (λ made. made.1) files (start_pod_sandbox host w)
    unfolding start_pod_sandbox
    start_pod_sandbox-Opened files w h = drawn (host.random_id w) (os.draws files w h)
      where
        after_runp :
            (path : String) (r : Result String × W)
            → Returns r.0
            → Files (path ∷ files) r.1
            → Opened (λ made. made.1) files (started host path r)
        after_runp path (ok result, v) j k =
            elim (Bool-cases (eqb (host.byte_length (host.trim_space result)) 64)) [
              | inl fine ↦ rw fine k
              | inr bad ↦ rw bad (os.removes path files v k)
            ]
        after_runp path (err e, v) j k = os.removes path files v k
        after_runp path (panic t, v) j k = absurd j

        configured :
            (r : Result String × W)
            → Opened (λ p. p) files r
            → Opened
                (λ made. made.1)
                files
                (and_then
                  (λ path w'. started host path (host.crictl ("runp" ∷ path ∷ []) w'))
                  (wrapped (host.wrap "creating pod config") r.0, r.1))
        configured (ok path, v) k =
            after_runp path (host.crictl ("runp" ∷ path ∷ []) v)
              (os.runs_return ("runp" ∷ path ∷ []) v)
              (os.runs ("runp" ∷ path ∷ []) (path ∷ files) v k)
        configured (err e, v) k = k
        configured (panic t, v) k = k

        drawn :
            (r : Result String × W)
            → Files files r.1
            → Opened
                (λ made. made.1)
                files
                (and_then
                  (λ uid.
                    wrapping
                      (host.wrap "creating pod config")
                      (create_json_tempfile host (pod (pod_config uid)))
                    >>= λ path w'. started host path (host.crictl ("runp" ∷ path ∷ []) w'))
                  (wrapped (host.wrap "generating UID") r.0, r.1))
        drawn (ok uid, v) k =
            configured (create_json_tempfile host (pod (pod_config uid)) v)
              (create_json_tempfile-Opened (pod (pod_config uid)) files v k)
        drawn (err e, v) k = k
        drawn (panic t, v) k = k

    run-Keeps : (args : List String) (files : List String) → Keeps (Files files) (run host args)
    run-Keeps args files =
        >>=-Keeps (Files files) (host.crictl args) (λ _. give (ok tt)) (os.runs args files)
          (λ a w h. h)

    pub delete_pod_sandbox-Keeps :
        (podid : String) (files : List String) → Keeps (Files files) (delete_pod_sandbox host podid)
    unfolding delete_pod_sandbox
    delete_pod_sandbox-Keeps podid files =
        >>=-Keeps (Files files) (run host ("stopp" ∷ podid ∷ []))
          (λ _. run host ("rmp" ∷ podid ∷ [])) (run-Keeps ("stopp" ∷ podid ∷ []) files)
          (λ _. run-Keeps ("rmp" ∷ podid ∷ []) files)

    create_container-Keeps :
        (image podconfigpath podid : String) (args : List String) (files : List String)
        → Keeps (Files files) (create_container host image podconfigpath podid args)
    unfolding create_container
    create_container-Keeps image podconfigpath podid args files w h =
        made (create_json_tempfile host (container (container_config image args)) w)
          (create_json_tempfile-Opened (container (container_config image args)) files w h)
      where
        invoke :
            (path : String)
            → Keeps (Files (path ∷ files)) (invoke_create host podid path podconfigpath)
        invoke path =
            >>=-Keeps (Files (path ∷ files))
              (wrapping (host.wrap "invoking create")
                (host.crictl ("create" ∷ podid ∷ path ∷ podconfigpath ∷ [])))
              (λ result. give (valid_id host result))
              (os.runs ("create" ∷ podid ∷ path ∷ podconfigpath ∷ []) (path ∷ files)) (λ a v k. k)

        made :
            (r : Result String × W)
            → Opened (λ p. p) files r
            → Files files
                (and_then
                  (λ path w'.
                    deferred host
                      (host.remove path)
                      (invoke_create host podid path podconfigpath w'))
                  (wrapped (host.wrap "creating container config") r.0, r.1)).1
        made (ok path, v) k =
            os.removes path files (invoke_create host podid path podconfigpath v).1
              (invoke path v k)
        made (err e, v) k = k
        made (panic t, v) k = k

    pub launch_container-Keeps :
        (image podconfigpath podid : String) (args : List String) (files : List String)
        → Keeps (Files files) (launch_container host image podconfigpath podid args)
    launch_container-Keeps image podconfigpath podid args files =
        >>=-Keeps (Files files)
          (wrapping (host.wrap "creating container")
            (create_container host image podconfigpath podid args))
          (λ containerid.
            wrapping (host.wrap "starting container") (start_container host containerid)
            >> give (ok containerid))
          (create_container-Keeps image podconfigpath podid args files)
          (λ containerid.
            >>=-Keeps (Files files)
              (wrapping (host.wrap "starting container") (start_container host containerid))
              (λ _. give (ok containerid))
              (unfold start_container in run-Keeps ("start" ∷ containerid ∷ []) files) (λ _ w h. h))
