-- ===== src/Keyclient/Loop.antt =====
-- platform/keysystem/keyclient/actloop/actloop.go. The loop runs until it is cancelled, which another
-- goroutine decides: what `IsCancelled` returns in turn is an argument. What is logged is left out, and
-- a sleep only lets time pass.
use homeworld.Common.{
  ◌>>=◌, Bool, true, false, not, ◌&&◌, List, [], ◌∷◌, if◌then◌else◌, Error, Result, ok, err, panic,
}
use homeworld.Keyclient.Effects.{Client, Act}

-- What a round ends with: the call of `onReady`, and the sleep.
pub data Pause : Type 0 where
  cycle_time pause_time : Pause

pub record Round (W : Type 0) : Type 0 where
  pub was_stabilized : Bool
  pub client : Client W

-- The context of a round is new, the state is kept.
abbrev pub new_action_context : {W : Type 0} → Client W → Client W
new_action_context c = record c { blocked_by = []; errored = []; performed = false }

abbrev pub is_nil : List Error → Bool
is_nil [] = true
is_nil (e ∷ es) = false

-- Whether `onReady` is called, and which sleep follows.
abbrev pub finish : {W : Type 0} → Bool → Client W → Bool × Pause
finish was_stabilized c =
    if c.performed
    then (false, cycle_time)
    else (not was_stabilized && is_nil c.blocked_by, pause_time)

abbrev pub after_round :
    {W : Type 0} → Round W → Result (Unit {0}) × Client W → Result (Round W × (Bool × Pause))
after_round r (ok u, c) =
    ok (record { was_stabilized = not c.performed; client = c }, finish r.was_stabilized c)
after_round r (err e, c) = err e
after_round r (panic t, c) = panic t

-- The body of the loop.
unfoldable pub run_round :
    {W : Type 0} → Act W (Unit {0}) → Round W → Result (Round W × (Bool × Pause))
run_round actions r = after_round r (actions (new_action_context r.client))

-- `Run`, with what it calls and how long it sleeps, round by round. `cancelled` are the values of
-- `IsCancelled` so far; at their end, the loop is still running.
unfoldable pub run :
    {W : Type 0} → Act W (Unit {0}) → List Bool → Round W → Result (Round W × List (Bool × Pause))
unfolding run_round
run actions [] r = ok (r, [])
run actions (true ∷ cancelled) r = ok (r, [])
run actions (false ∷ cancelled) r = do
  (r', pause) ← run_round actions r
  (last, pauses) ← run actions cancelled r'
  ok (last, pause ∷ pauses)
