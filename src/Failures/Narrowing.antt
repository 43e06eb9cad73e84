-- ===== src/Failures/Narrowing.antt =====
-- services/SuiCore.ts: the union within which each lookup fails, and what it throws again.
use sui_effect.Prelude.{
  Bool, true, false, Bool-cases, Option, ◌≡◌, refl, ◌⊎◌, inl, inr, ◌||◌, if◌then◌else◌, Text, arith,
}
use sui_effect.Journal.{Result, success, failure}
use sui_effect.Failures.{
  Properties, Thrown, nothing, primitive, object, CoreError, object_not_found, object_deleted,
  object_unavailable, transaction_not_found, simulation_failed, transport_error, Decoders,
  rethrown_defect, is_sdk_argument_error,
}
use sui_effect.Failures.Bugs.{
  Marked, Refuses, Recognised, rethrown_defect_iff, is_sdk_argument_error_sound,
  is_sdk_argument_error_complete, is_object_error_sound, is_transaction_error_sound,
  is_simulation_error_sound,
}
use sui_effect.Failures.Sdk.{
  is_object_error, is_transaction_error, is_simulation_error, transport_of, transport_error_of,
  map_object, map_sdk_error, narrow_object, narrow_transaction, narrow_simulation, narrow_by,
  object_error_of, transaction_error_of, simulation_error_of,
}

-- `ObjectLookupError`, `TransactionLookupError` and `SimulationLookupError`.
abbrev pub IsObjectLookup : CoreError → Type 0
IsObjectLookup (object_not_found id) = Unit
IsObjectLookup (object_deleted id) = Unit
IsObjectLookup (object_unavailable id) = Unit
IsObjectLookup (transaction_not_found d) = ⊥
IsObjectLookup (simulation_failed r c m) = ⊥
IsObjectLookup (transport_error m r s c) = Unit

abbrev pub IsTransactionLookup : CoreError → Type 0
IsTransactionLookup (object_not_found id) = ⊥
IsTransactionLookup (object_deleted id) = ⊥
IsTransactionLookup (object_unavailable id) = ⊥
IsTransactionLookup (transaction_not_found d) = Unit
IsTransactionLookup (simulation_failed r c m) = ⊥
IsTransactionLookup (transport_error m r s c) = Unit

abbrev pub IsSimulationLookup : CoreError → Type 0
IsSimulationLookup (object_not_found id) = ⊥
IsSimulationLookup (object_deleted id) = ⊥
IsSimulationLookup (object_unavailable id) = ⊥
IsSimulationLookup (transaction_not_found d) = ⊥
IsSimulationLookup (simulation_failed r c m) = Unit
IsSimulationLookup (transport_error m r s c) = Unit

-- No defect, and an argument that was refused only under an error of the SDK.
abbrev pub IsExpected : Thrown → Type 0
IsExpected cause = (Marked cause → ⊥) × (Refuses cause → Recognised cause)

-- The failure is in the union, and what was thrown is no bug; or it is, and is thrown again as it is.
abbrev pub Within : (CoreError → Type 0) → Thrown → Result Thrown CoreError → Type 0
Within P cause (success e) = P e × IsExpected cause
Within P cause (failure defect) = (defect ≡ cause) × (Marked cause ⊎ Refuses cause)

bug_of :
    (cause : Thrown)
    → rethrown_defect cause || is_sdk_argument_error cause ≡ true
    → Marked cause ⊎ Refuses cause
bug_of cause h = elim (Bool-cases (rethrown_defect cause)) [
  | inl y ↦ inl ((rethrown_defect_iff cause).0 y)
  | inr n ↦ inr (is_sdk_argument_error_sound cause (ground (arith, h, n)))
]

no_bug-IsExpected :
    (cause : Thrown)
    → rethrown_defect cause || is_sdk_argument_error cause ≡ false
    → IsExpected cause
no_bug-IsExpected cause h = (
  λ m. ground (arith, h, (rethrown_defect_iff cause).1 m),
  λ r. absurd (ground (arith, h, is_sdk_argument_error_complete cause r)),
)

abbrev AnyError : CoreError → Type 0
AnyError e = Unit

Within-if :
    (P : CoreError → Type 0) (cause : Thrown) (b : Bool) (x y : Result Thrown CoreError)
    → (b ≡ true → Within P cause x)
    → (b ≡ false → Within P cause y)
    → Within P cause (if b then x else y)
Within-if P cause true x y h k = h refl
Within-if P cause false x y h k = k refl

module _ (env : Decoders) where
  transport_error_of-Within :
      (P : CoreError → Type 0) (method : Text) (cause : Thrown)
      → ((r : Bool) (s : Option Text) → P (transport_error method r s cause))
      → Within P cause (transport_error_of env method cause)
  unfolding transport_error_of transport_of
  transport_error_of-Within P method cause h =
      Within-if P cause (rethrown_defect cause || is_sdk_argument_error cause) _ _
        (λ y. (refl, bug_of cause y)) (λ n. (h _ _, no_bug-IsExpected cause n))

  unmarked : (p : Properties) (c : Thrown) → p.is_defect ≡ false → Marked (object p c) → ⊥
  unmarked p c d m = ground (arith, d, m)

  map_sdk_error-Within :
      (method : Text) (cause : Thrown) → Within AnyError cause (map_sdk_error env method cause)
  unfolding map_sdk_error map_object rethrown_defect
  map_sdk_error-Within method nothing =
      transport_error_of-Within AnyError method nothing (λ r s. tt)
  map_sdk_error-Within method primitive =
      transport_error_of-Within AnyError method primitive (λ r s. tt)
  map_sdk_error-Within method (object p c) =
      Within-if AnyError (object p c) p.is_defect _ _ (λ y. (refl, inl y))
        (λ d.
          Within-if AnyError (object p c) (is_object_error p) _ _
            (λ y. (tt, (unmarked p c d, λ r. inl (is_object_error_sound p y))))
            (λ n.
              Within-if AnyError (object p c) (is_transaction_error p) _ _
                (λ y. (tt, (unmarked p c d, λ r. inr (inl (is_transaction_error_sound p y)))))
                (λ n.
                  Within-if AnyError (object p c) (is_simulation_error p) _ _
                    (λ y. (tt, (unmarked p c d, λ r. inr (inr (is_simulation_error_sound p y)))))
                    (λ n. transport_error_of-Within AnyError method (object p c) (λ r s. tt)))))

  narrow_by-Within :
      (P : CoreError → Type 0) (cause : Thrown) (narrow : CoreError → Result Thrown CoreError)
      (r : Result Thrown CoreError)
      → (IsExpected cause → (e : CoreError) → Within P cause (narrow e))
      → Within AnyError cause r
      → Within P cause (narrow_by env narrow r)
  unfolding narrow_by
  narrow_by-Within P cause narrow (failure d) h k = k
  narrow_by-Within P cause narrow (success e) h k = h k.1 e

  narrow_object-Within :
      (method : Text) (cause : Thrown)
      → IsExpected cause
      → (e : CoreError) → Within IsObjectLookup cause (narrow_object env method cause e)
  unfolding narrow_object
  narrow_object-Within method cause expected (object_not_found id) = (tt, expected)
  narrow_object-Within method cause expected (object_deleted id) = (tt, expected)
  narrow_object-Within method cause expected (object_unavailable id) = (tt, expected)
  narrow_object-Within method cause expected (transaction_not_found d) =
      transport_error_of-Within IsObjectLookup method cause (λ r s. tt)
  narrow_object-Within method cause expected (simulation_failed r c m) =
      transport_error_of-Within IsObjectLookup method cause (λ r s. tt)
  narrow_object-Within method cause expected (transport_error m r s c) = (tt, expected)

  narrow_transaction-Within :
      (method : Text) (cause : Thrown)
      → IsExpected cause
      → (e : CoreError) → Within IsTransactionLookup cause (narrow_transaction env method cause e)
  unfolding narrow_transaction
  narrow_transaction-Within method cause expected (object_not_found id) =
      transport_error_of-Within IsTransactionLookup method cause (λ r s. tt)
  narrow_transaction-Within method cause expected (object_deleted id) =
      transport_error_of-Within IsTransactionLookup method cause (λ r s. tt)
  narrow_transaction-Within method cause expected (object_unavailable id) =
      transport_error_of-Within IsTransactionLookup method cause (λ r s. tt)
  narrow_transaction-Within method cause expected (transaction_not_found d) = (tt, expected)
  narrow_transaction-Within method cause expected (simulation_failed r c m) =
      transport_error_of-Within IsTransactionLookup method cause (λ r s. tt)
  narrow_transaction-Within method cause expected (transport_error m r s c) = (tt, expected)

  narrow_simulation-Within :
      (method : Text) (cause : Thrown)
      → IsExpected cause
      → (e : CoreError) → Within IsSimulationLookup cause (narrow_simulation env method cause e)
  unfolding narrow_simulation
  narrow_simulation-Within method cause expected (object_not_found id) =
      transport_error_of-Within IsSimulationLookup method cause (λ r s. tt)
  narrow_simulation-Within method cause expected (object_deleted id) =
      transport_error_of-Within IsSimulationLookup method cause (λ r s. tt)
  narrow_simulation-Within method cause expected (object_unavailable id) =
      transport_error_of-Within IsSimulationLookup method cause (λ r s. tt)
  narrow_simulation-Within method cause expected (transaction_not_found d) =
      transport_error_of-Within IsSimulationLookup method cause (λ r s. tt)
  narrow_simulation-Within method cause expected (simulation_failed r c m) = (tt, expected)
  narrow_simulation-Within method cause expected (transport_error m r s c) = (tt, expected)

  pub record Narrowed (method : Text) (cause : Thrown) : Type 0 where
    pub lookup : Within IsObjectLookup cause (object_error_of env method cause)
    pub transaction : Within IsTransactionLookup cause (transaction_error_of env method cause)
    pub simulation : Within IsSimulationLookup cause (simulation_error_of env method cause)

  -- Whatever is thrown, an object, a transaction and a simulation lookup each fail with an error of the
  -- union that they declare, or throw it again as it is. They throw it again only if it is marked as a defect or
  -- refuses the caller's arguments; and always if it is marked, or if it refuses the arguments and is not one
  -- of the SDK's object, transaction or simulation errors.
  pub object_error_of-Narrowed : (method : Text) (cause : Thrown) → Narrowed method cause
  unfolding object_error_of transaction_error_of simulation_error_of
  object_error_of-Narrowed method cause =
      let known = map_sdk_error-Within method cause in
      record {
        lookup =
            narrow_by-Within IsObjectLookup cause (narrow_object env method cause)
              (map_sdk_error env method cause) (narrow_object-Within method cause) known;
        transaction =
            narrow_by-Within IsTransactionLookup cause (narrow_transaction env method cause)
              (map_sdk_error env method cause) (narrow_transaction-Within method cause) known;
        simulation =
            narrow_by-Within IsSimulationLookup cause (narrow_simulation env method cause)
              (map_sdk_error env method cause) (narrow_simulation-Within method cause) known;
      }
