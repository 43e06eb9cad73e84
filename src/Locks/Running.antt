-- ===== src/Locks/Running.antt =====
-- services/Tx.ts: when `lockedRun` holds the sender's locks, as the sequence of what it does.
use sui_effect.Prelude.{Bool, Option, none, some, List, [], ◌∷◌, ◌++◌, if◌then◌else◌}
use sui_effect.Schemas.{SuiAddress}
use sui_effect.Journal.{Result, success, failure}
use sui_effect.Tx.Bytes.{
  LockSetting, LockSenderPolicy, when_pinned, always, never, lock_sender_policy_of,
}

-- What a run does that others can see: it takes and returns the permit of an address, waits for the
-- runs in flight on one, builds, registers in flight, signs and submits, and leaves the registry.
pub data Event : Type 0 where
  locked unlocked drained : SuiAddress → Event
  built : Event
  registered : List SuiAddress → Event
  finished : Event
  unregistered : List SuiAddress → Event

-- `withLocks`: the first address is taken first and returned last.
unfoldable pub with_locks : List SuiAddress → List Event → List Event
with_locks [] inner = inner
with_locks (a ∷ xs) inner = locked a ∷ (with_locks xs inner ++ (unlocked a ∷ []))

unfoldable pub drain_first : Option SuiAddress → List Event
drain_first none = []
drain_first (some a) = drained a ∷ []

-- `keeps`, `inFlightOn` and `finish` of the run, over what was built.
module _ {B E A : Type 0} (keeps : B → Bool) (in_flight_on : B → List SuiAddress)
    (finish : B → Result E A) where
  -- Build and finish in one go.
  unfoldable pub build_and_finish : Result E B → List Event × Result E A
  build_and_finish (failure e) = ([], failure e)
  build_and_finish (success b) = (built ∷ finished ∷ [], finish b)

  -- The step under the locks: what it does there, and what is left to do without them.
  unfoldable pub locked_step :
      Option SuiAddress → Result E B → List Event × (List Event × Result E A)
  locked_step drains (failure e) = (drain_first drains, ([], failure e))
  locked_step drains (success b) =
      if keeps b then (drain_first drains ++ (built ∷ finished ∷ []), ([], finish b)) else (
        drain_first drains ++ (built ∷ registered (in_flight_on b) ∷ []),
        (finished ∷ unregistered (in_flight_on b) ∷ [], finish b),
      )

  unfoldable pub run_under :
      LockSenderPolicy → List SuiAddress → Option SuiAddress → Result E B → List Event × Result E A
  run_under never addresses drains build = build_and_finish build
  run_under always addresses drains build =
      let run = build_and_finish build in (with_locks addresses run.0, run.1)
  run_under when_pinned addresses drains build =
      let step = locked_step drains build in (with_locks addresses step.0 ++ step.1.0, step.1.1)

  unfoldable pub locked_run :
      LockSetting → List SuiAddress → Option SuiAddress → Result E B → List Event × Result E A
  locked_run setting addresses drains build =
      run_under (lock_sender_policy_of setting) addresses drains build
