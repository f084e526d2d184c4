-- ===== src/Keyclient/Readiness.antt =====
-- When the loop of the key client, platform/keysystem/keyclient/actloop/actloop.go, calls `onReady`.
use homeworld.Common.{
  ◌≡◌, refl, sym, ap, subst, Bool, true, false, not, ◌&&◌, List, [], ◌∷◌, if◌then◌else◌, Result, ok,
  err, panic, >>=-eq-ok,
}
use homeworld.Keyclient.Effects.{Client, Act}
use homeworld.Keyclient.Loop.{
  Pause, cycle_time, pause_time, is_nil, Round, new_action_context, finish, after_round, run_round,
  run,
}

-- From a round that was stable before or not: `onReady` is called only in a round that is stable, if
-- the round before it was not.
abbrev pub IsAlternating : Bool → List (Bool × Pause) → Type 0
IsAlternating stable [] = Unit
IsAlternating stable ((true, pause_time) ∷ pauses) = (stable ≡ false) × IsAlternating true pauses
IsAlternating stable ((true, cycle_time) ∷ pauses) = ⊥
IsAlternating stable ((false, pause_time) ∷ pauses) = IsAlternating true pauses
IsAlternating stable ((false, cycle_time) ∷ pauses) = IsAlternating false pauses

module _ {W : Type 0} (actions : Act W (Unit {0})) where
  pause_next :
      (stable performed unblocked : Bool) (pauses : List (Bool × Pause))
      → IsAlternating (not performed) pauses
      → IsAlternating stable (
          (if performed then (false, cycle_time) else (not stable && unblocked, pause_time))
          ∷ pauses)
  pause_next stable true unblocked pauses h = h
  pause_next true false unblocked pauses h = h
  pause_next false false true pauses h = (refl, h)
  pause_next false false false pauses h = h

  round_next :
      (stable : Bool) (out : Result (Unit {0}) × Client W) (client : Client W) (next : Round W)
      (pause : Bool × Pause) (pauses : List (Bool × Pause))
      → after_round (record { was_stabilized = stable; client = client }) out ≡ ok (next, pause)
      → IsAlternating next.was_stabilized pauses
      → IsAlternating stable (pause ∷ pauses)
  round_next stable (ok u, c) client next pause pauses e h =
      let q : ◌≡◌ {A = Round W × (Bool × Pause)}
          (record { was_stabilized = not c.performed; client = c }, finish stable c) (next, pause) =
        cc in
      subst (λ p. IsAlternating stable (p ∷ pauses)) (ap (λ x. x.1) q)
        (pause_next stable c.performed (is_nil c.blocked_by) pauses
          (subst (λ b. IsAlternating b pauses) (sym (ap (λ x. x.0.was_stabilized) q)) h))
  round_next stable (err why, c) client next pause pauses e h = cc
  round_next stable (panic text, c) client next pause pauses e h = cc

  pauses_of :
      {r last : Round W} {all pauses : List (Bool × Pause)}
      → ◌≡◌ {A = Result (Round W × List (Bool × Pause))} (ok (r, all)) (ok (last, pauses))
      → all ≡ pauses
  pauses_of e = cc

  -- Whatever the actions do, and as long as the loop runs: between two rounds in which `onReady` is
  -- called, there is one in which an action was performed, behind which the loop sleeps the short time;
  -- the first call is not in the first round if the loop begins stable.
  pub run-IsAlternating :
      (cancelled : List Bool) (r last : Round W) (pauses : List (Bool × Pause))
      → run actions cancelled r ≡ ok (last, pauses)
      → IsAlternating r.was_stabilized pauses
  unfolding run run_round
  run-IsAlternating [] r last pauses e = subst (IsAlternating r.was_stabilized) (pauses_of e) tt
  run-IsAlternating (true ∷ cancelled) r last pauses e =
      subst (IsAlternating r.was_stabilized) (pauses_of e) tt
  run-IsAlternating (false ∷ cancelled) r last pauses e =
      let ((next, pause), h, e1) = >>=-eq-ok (run_round actions r) _ e in
      let ((end, later), h2, e2) = >>=-eq-ok (run actions cancelled next) _ h in
      subst (IsAlternating r.was_stabilized) (pauses_of h2) (
        round_next r.was_stabilized (actions (new_action_context r.client)) r.client next pause
          later e1 (run-IsAlternating cancelled next end later e2))
