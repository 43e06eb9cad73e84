-- ===== src/Locks/Covered.antt =====
-- services/Tx.ts: a run is locked or in flight from its build to its end, and leaves nothing held.
use sui_effect.Prelude.{
  Bool, true, false, Option, none, some, List, [], ◌∷◌, ◌++◌, ◌≡◌, refl, sym, ap, ◌∙◌,
  if◌then◌else◌, text_eq, text_eq_refl, Bool-cases, inl, inr, ◌||◌, not, ◌&&◌,
}
use mathlib.Core.List.{append-nil}
use sui_effect.Schemas.{SuiAddress}
use sui_effect.Journal.{Result, success, failure}
use sui_effect.Tx.Bytes.{
  LockSetting, LockSenderPolicy, when_pinned, always, never, lock_sender_policy_of,
}
use sui_effect.Locks.Running.{
  Event, locked, unlocked, drained, built, registered, finished, unregistered, with_locks,
  drain_first, build_and_finish, locked_step, run_under, locked_run,
}

-- What an observer keeps: the addresses held, the last taken first; the run's entries in flight; and whether
-- something is built that is not finished; and, from the finish on, the addresses that were held at
-- it and whether the run was in flight.
pub record Watch : Type 0 where
  pub held : List SuiAddress
  pub in_flight : Option (List SuiAddress)
  pub pending : Bool
  pub at_finish : Option (List SuiAddress × Bool)

abbrev pub has_flight : Option (List SuiAddress) → Bool
has_flight none = false
has_flight (some xs) = true

-- The permit returned is the one taken last, and not while something built is not in flight.
abbrev pub return_lock : Watch → SuiAddress → List SuiAddress → Option Watch
return_lock w a [] = none
return_lock w a (b ∷ bs) =
    if text_eq a b && (not w.pending || has_flight w.in_flight)
    then some (record w { held = bs })
    else none

abbrev pub leave : Watch → Option (List SuiAddress) → Option Watch
leave w none = none
leave w (some xs) = if not w.pending then some (record w { in_flight = none }) else none

-- One event; nothing, when it breaks the rules.
abbrev pub observe : Event → Watch → Option Watch
observe (locked a) w = some (record w { held = a ∷ w.held })
observe (unlocked a) w = return_lock w a w.held
observe (drained a) w = if w.pending then none else some w
observe built w = if w.pending then none else some (record w { pending = true })
observe (registered xs) w = some (record w { in_flight = some xs })
observe finished w =
    if w.pending
    then some (record w { pending = false; at_finish = some (w.held, has_flight w.in_flight) })
    else none
observe (unregistered xs) w = leave w w.in_flight

abbrev pub watch_then : Option Watch → (Watch → Option Watch) → Option Watch
watch_then none f = none
watch_then (some w) f = f w

abbrev pub observe_all : List Event → Watch → Option Watch
observe_all [] w = some w
observe_all (e ∷ es) w = watch_then (observe e w) (λ v. observe_all es v)

abbrev pub idle : Watch
idle = record { held = []; in_flight = none; pending = false; at_finish = none }

-- The addresses held after taking those of the list in order.
abbrev pub stacked : List SuiAddress → List SuiAddress → List SuiAddress
stacked [] held = held
stacked (a ∷ more) held = stacked more (a ∷ held)

watch_then_assoc :
    (o : Option Watch) (f g h : Watch → Option Watch)
    → ((v : Watch) → h v ≡ watch_then (f v) g)
    → watch_then o h ≡ watch_then (watch_then o f) g
watch_then_assoc none f g h k = refl
watch_then_assoc (some w) f g h k = k w

observe_all-append :
    (es fs : List Event) (w : Watch)
    → observe_all (es ++ fs) w ≡ watch_then (observe_all es w) (λ v. observe_all fs v)
observe_all-append [] fs w = refl
observe_all-append (e ∷ es) fs w =
    watch_then_assoc (observe e w) (λ v. observe_all es v) (λ v. observe_all fs v)
      (λ v. observe_all (es ++ fs) v) (λ v. observe_all-append es fs v)

return_last :
    (w : Watch) (a : SuiAddress) (held : List SuiAddress)
    → not w.pending || has_flight w.in_flight ≡ true
    → return_lock w a (a ∷ held) ≡ some (record w { held = held })
return_last w a held c = rw (text_eq_refl a, c) refl

observe_all-with_locks :
    (addresses : List SuiAddress) (inner : List Event) (w v : Watch)
    → observe_all inner (record w { held = stacked addresses w.held }) ≡ some v
    → v.held ≡ stacked addresses w.held
    → not v.pending || has_flight v.in_flight ≡ true
    → observe_all (with_locks addresses inner) w ≡ some (record v { held = w.held })
unfolding with_locks
observe_all-with_locks [] inner w v h k c = h ∙ ap (λ x. some (record v { held = x })) k
observe_all-with_locks (a ∷ more) inner w v h k c =
    observe_all-append (with_locks more inner) (unlocked a ∷ []) (record w { held = a ∷ w.held })
    ∙ ap (λ o. watch_then o (λ u. observe_all (unlocked a ∷ []) u))
        (observe_all-with_locks more inner (record w { held = a ∷ w.held }) v h k c)
    ∙ ap (λ o. watch_then o (λ u. some u)) (return_last (record v { held = a ∷ w.held }) a w.held c)

module _ {B E A : Type 0} (keeps : B → Bool) (in_flight_on : B → List SuiAddress)
    (finish : B → Result E A) where
  -- What a run was covered by when it finished, if it was built.
  abbrev pub cover :
      LockSenderPolicy → List SuiAddress → Result E B → Option (List SuiAddress × Bool)
  cover policy addresses (failure e) = none
  cover never addresses (success b) = some ([], false)
  cover always addresses (success b) = some (stacked addresses [], false)
  cover when_pinned addresses (success b) =
      if keeps b then some (stacked addresses [], false) else some ([], true)

  -- Whatever the policy and however the build ends, the run returns its permits in the reverse order,
  -- none of them while something built is neither finished nor in flight, and ends with no lock held and not in flight.
  -- It finishes under all of its locks when the policy is always, or when it is whenPinned and the built bytes keep the lock; in flight
  -- without a lock when it is whenPinned and they do not; and with neither when the policy is never.
  pub locked_run-Watched :
      (setting : LockSetting) (addresses : List SuiAddress) (drains : Option SuiAddress)
      (build : Result E B)
      → observe_all (locked_run keeps in_flight_on finish setting addresses drains build).0 idle
        ≡ some (record idle { at_finish = cover (lock_sender_policy_of setting) addresses build })
  unfolding locked_run run_under build_and_finish locked_step drain_first
  locked_run-Watched setting addresses drains build = run (lock_sender_policy_of setting) build
    where
      inside : List SuiAddress → Watch
      inside held = record { held = held; in_flight = none; pending = false; at_finish = none }

      drain :
          (drains : Option SuiAddress) (es : List Event) (held : List SuiAddress)
          → observe_all (drain_first drains ++ es) (inside held) ≡ observe_all es (inside held)
      drain none es held = refl
      drain (some a) es held = refl

      all : List SuiAddress
      all = stacked addresses []

      around :
          (inner outer : List Event) (v : Watch)
          → observe_all inner (inside all) ≡ some v
          → v.held ≡ all
          → not v.pending || has_flight v.in_flight ≡ true
          → observe_all (with_locks addresses inner ++ outer) idle
            ≡ observe_all outer (record v { held = [] })
      around inner outer v h k c =
          observe_all-append (with_locks addresses inner) outer idle
          ∙ ap (λ o. watch_then o (λ u. observe_all outer u))
              (observe_all-with_locks addresses inner idle v h k c)

      run :
          (policy : LockSenderPolicy) (build : Result E B)
          → observe_all (run_under keeps in_flight_on finish policy addresses drains build).0 idle
            ≡ some (record idle { at_finish = cover policy addresses build })
      run never (failure e) = refl
      run never (success b) = refl
      run always (failure e) = observe_all-with_locks addresses [] idle (inside all) refl refl refl
      run always (success b) =
          observe_all-with_locks addresses (built ∷ finished ∷ []) idle
            (record (inside all) { at_finish = some (all, false) }) refl refl refl
      run when_pinned (failure e) =
          around (drain_first drains) [] (inside all)
            (ap (λ es. observe_all es (inside all)) (sym (append-nil (drain_first drains)))
              ∙ drain drains [] all)
            refl refl
      run when_pinned (success b) = elim (Bool-cases (keeps b)) [
        | inl y ↦ rw (y) (
            around (drain_first drains ++ (built ∷ finished ∷ [])) []
              (record (inside all) { at_finish = some (all, false) })
              (drain drains (built ∷ finished ∷ []) all) refl refl)
        | inr n ↦ rw (n) (
            around (drain_first drains ++ (built ∷ registered (in_flight_on b) ∷ []))
              (finished ∷ unregistered (in_flight_on b) ∷ [])
              (record (inside all) { in_flight = some (in_flight_on b); pending = true })
              (drain drains (built ∷ registered (in_flight_on b) ∷ []) all) refl refl)
      ]
