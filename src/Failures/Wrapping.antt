-- ===== src/Failures/Wrapping.antt =====
-- services/SuiCore.ts: a transport failure that the SDK wraps in a `SimulationError` keeps its meaning.
use sui_effect.Prelude.{
  ℕ, zero, suc, true, false, none, some, List, [], ◌∷◌, ◌≡◌, refl, ◌≤◌, ◌<◌, is_some, Text, length,
  All, arith,
}
use sui_effect.Journal.{success}
use sui_effect.Failures.{
  Properties, Thrown, object, transport_error, Decoders, classify_transport_cause,
}
use sui_effect.Failures.Sdk.{
  is_type_class, is_object_error, is_transaction_error, is_simulation_error, transport_of,
  found_transport, transport_in, transport_cause_of, cause_or, of_simulation, map_object,
  map_sdk_error,
}

module _ (env : Decoders) where
  -- A cause, wrapped once more for each item of the list, the first outermost.
  abbrev pub wrapped : List Properties → Thrown → Thrown
  wrapped [] t = t
  wrapped (p ∷ ps) t = object p (wrapped ps t)

  -- An error with no status of its own that is no `TypeError`.
  abbrev pub Silent : Properties → Type 0
  Silent p =
      ((t : Thrown) → is_some (classify_transport_cause env (object p t)).status ≡ false)
      × (is_type_class p.class_of ≡ false)

  transport_in-wrapped :
      (depth : ℕ) (ps : List Properties) (q : Properties) (t : Thrown)
      → length ps < depth
      → All Silent ps
      → is_some (classify_transport_cause env (object q t)).status ≡ true
      → transport_in env depth (wrapped ps (object q t))
        ≡ some (classify_transport_cause env (object q t))
  unfolding transport_in found_transport
  transport_in-wrapped zero ps q t h k e = absurd (omega arith)
  transport_in-wrapped (suc depth) [] q t h k e = rw (e) refl
  transport_in-wrapped (suc depth) (p ∷ ps) q t h k e =
      rw (k.0.0 (wrapped ps (object q t)), k.0.1)
        (transport_in-wrapped depth ps q t (omega arith) k.1 e)

  cause_or-wrapped :
      (ps : List Properties) (q : Properties) (t whole : Thrown)
      → cause_or env (wrapped ps (object q t)) whole ≡ wrapped ps (object q t)
  unfolding cause_or
  cause_or-wrapped [] q t whole = refl
  cause_or-wrapped (p ∷ ps) q t whole = refl

  -- A `SimulationError` that is no other error of the SDK and has no execution error, and whose cause is an error with
  -- a transport status under at most three errors without one, becomes a transport failure with that status and its
  -- retryability, and not a failed simulation.
  pub map_sdk_error-wrapped :
      (method : Text) (p : Properties) (ps : List Properties) (q : Properties) (t : Thrown)
      → p.is_defect ≡ false
      → is_object_error p ≡ false
      → is_transaction_error p ≡ false
      → is_simulation_error p ≡ true
      → p.execution_error ≡ none
      → length ps ≤ 3
      → All Silent ps
      → is_some (classify_transport_cause env (object q t)).status ≡ true
      → map_sdk_error env method (object p (wrapped ps (object q t)))
        ≡ success (
            transport_error method
              (classify_transport_cause env (object q t)).retryable
              (classify_transport_cause env (object q t)).status
              (wrapped ps (object q t)))
  unfolding map_sdk_error map_object of_simulation transport_of transport_cause_of
  map_sdk_error-wrapped method p ps q t no_defect no_object no_transaction simulation no_execution
        few silent e =
      simp
        (
          no_defect,
          no_object,
          no_transaction,
          simulation,
          no_execution,
          transport_in-wrapped 4 ps q t (omega arith) silent e,
          cause_or-wrapped ps q t (object p (wrapped ps (object q t))),
        )
        refl
