-- ===== src/Failures/Sdk.antt =====
-- services/SuiCore.ts: `mapSdkError` and its narrowings, and the reads with their retries.
use sui_effect.Prelude.{
  ℕ, zero, suc, Bool, true, false, Option, none, some, List, ◌&&◌, ◌||◌, not, if◌then◌else◌,
  is_some, Text, codes,
}
use sui_effect.Schemas.{Digest, ObjectId}
use sui_effect.Journal.{Result, success, failure}
use sui_effect.Moves.{get_or}
use sui_effect.Failures.{
  ErrorClass, object_error, transaction_error, simulation_error, type_error, plain_error, no_error,
  Field, absent, text, number, other, ExecutionError, Properties, Thrown, nothing, primitive,
  object, Classified, CoreError, object_not_found, object_deleted, object_unavailable,
  transaction_not_found, simulation_failed, transport_error, Decoders, one_of, object_reasons,
  has_text, is_error, is_absent, is_sdk_argument_error, rethrown_defect, classify_transport_cause,
}

-- `instanceof` of one class.
unfoldable pub is_object_class : ErrorClass → Bool
is_object_class object_error = true
is_object_class transaction_error = false
is_object_class simulation_error = false
is_object_class type_error = false
is_object_class plain_error = false
is_object_class no_error = false

unfoldable pub is_transaction_class : ErrorClass → Bool
is_transaction_class object_error = false
is_transaction_class transaction_error = true
is_transaction_class simulation_error = false
is_transaction_class type_error = false
is_transaction_class plain_error = false
is_transaction_class no_error = false

unfoldable pub is_simulation_class : ErrorClass → Bool
is_simulation_class object_error = false
is_simulation_class transaction_error = false
is_simulation_class simulation_error = true
is_simulation_class type_error = false
is_simulation_class plain_error = false
is_simulation_class no_error = false

unfoldable pub is_type_class : ErrorClass → Bool
is_type_class object_error = false
is_type_class transaction_error = false
is_type_class simulation_error = false
is_type_class type_error = true
is_type_class plain_error = false
is_type_class no_error = false

unfoldable pub text_of : Field → Option Text
text_of (text t) = some t
text_of absent = none
text_of (number n) = none
text_of other = none

unfoldable pub reason_in : List Text → Option Text → Bool
reason_in reasons none = false
reason_in reasons (some r) = one_of r reasons

-- Recognised by class, or by the shape that another copy of the SDK gives it.
unfoldable pub is_object_error : Properties → Bool
is_object_error p =
    is_object_class p.class_of || (not (is_absent p.object_id) && reason_in object_reasons p.reason)

unfoldable pub is_transaction_error : Properties → Bool
is_transaction_error p =
    is_transaction_class p.class_of || (has_text p.reason (codes "notFound") && is_some p.digest)

unfoldable pub is_simulation_error : Properties → Bool
is_simulation_error p =
    is_simulation_class p.class_of
    || (is_error p.class_of && has_text p.name (codes "SimulationError"))

unfoldable pub object_failure : Option Text → ObjectId → CoreError
object_failure reason id =
    if has_text reason (codes "notFound")
    then object_not_found id
    else if has_text reason (codes "deleted")
    then object_deleted id
    else object_unavailable id

unfoldable pub is_retryable_read : CoreError → Bool
is_retryable_read (transport_error m r s c) = r
is_retryable_read (object_not_found id) = false
is_retryable_read (object_deleted id) = false
is_retryable_read (object_unavailable id) = false
is_retryable_read (transaction_not_found d) = false
is_retryable_read (simulation_failed r c m) = false

module _ (env : Decoders) where
  unfoldable pub as_object_id : Option Text → ObjectId
  as_object_id none = env.zero_object_id
  as_object_id (some t) = get_or env.zero_object_id (env.decode_object_id t)

  unfoldable pub as_digest : Option Text → Digest
  as_digest none = env.zero_digest
  as_digest (some t) = get_or env.zero_digest (env.decode_digest t)

  unfoldable pub transport_of : Text → Classified → Thrown → CoreError
  transport_of method classified cause =
      transport_error method classified.retryable classified.status cause

  -- `transportError`: a bug of the caller is thrown again.
  unfoldable pub transport_error_of : Text → Thrown → Result Thrown CoreError
  transport_error_of method cause =
      if rethrown_defect cause || is_sdk_argument_error cause
      then failure cause
      else success (transport_of method (classify_transport_cause env cause) cause)

  unfoldable pub found_transport : Properties → Classified → Option Classified → Option Classified
  found_transport p classified deeper =
      if is_some classified.status
      then some classified
      else if is_type_class p.class_of
      then some (record { status = none; retryable = true })
      else deeper

  -- The chain of causes, walked to a depth.
  unfoldable pub transport_in : ℕ → Thrown → Option Classified
  transport_in zero cause = none
  transport_in (suc depth) nothing = none
  transport_in (suc depth) primitive = none
  transport_in (suc depth) (object p c) =
      let deeper = transport_in depth c in
      found_transport p (classify_transport_cause env (object p c)) deeper

  unfoldable pub transport_cause_of : Thrown → Option Classified
  transport_cause_of cause = transport_in 4 cause

  -- `simulation.cause ?? cause`
  unfoldable pub cause_or : Thrown → Thrown → Thrown
  cause_or nothing whole = whole
  cause_or primitive whole = primitive
  cause_or (object p c) whole = object p c

  unfoldable pub of_simulation :
      Text → Properties → Thrown → Option ExecutionError → Option Classified → CoreError
  of_simulation method p c (some e) found = simulation_failed (some e.reason) e.command p.message
  of_simulation method p c none (some found) = transport_of method found (cause_or c (object p c))
  of_simulation method p c none none = simulation_failed none none p.message

  unfoldable pub map_object : Text → Properties → Thrown → Result Thrown CoreError
  map_object method p c =
      if is_object_error p
      then success (object_failure p.reason (as_object_id (text_of p.object_id)))
      else if is_transaction_error p
      then success (transaction_not_found (as_digest p.digest))
      else if is_simulation_error p
      then success (of_simulation method p c p.execution_error (transport_cause_of c))
      else transport_error_of method (object p c)

  -- A defect is thrown again.
  unfoldable pub map_sdk_error : Text → Thrown → Result Thrown CoreError
  map_sdk_error method nothing = transport_error_of method nothing
  map_sdk_error method primitive = transport_error_of method primitive
  map_sdk_error method (object p c) =
      if p.is_defect then failure (object p c) else map_object method p c

  unfoldable pub narrow_object : Text → Thrown → CoreError → Result Thrown CoreError
  narrow_object method cause (transaction_not_found d) = transport_error_of method cause
  narrow_object method cause (simulation_failed r c m) = transport_error_of method cause
  narrow_object method cause (object_not_found id) = success (object_not_found id)
  narrow_object method cause (object_deleted id) = success (object_deleted id)
  narrow_object method cause (object_unavailable id) = success (object_unavailable id)
  narrow_object method cause (transport_error m r s c) = success (transport_error m r s c)

  unfoldable pub narrow_transaction : Text → Thrown → CoreError → Result Thrown CoreError
  narrow_transaction method cause (transaction_not_found d) = success (transaction_not_found d)
  narrow_transaction method cause (transport_error m r s c) = success (transport_error m r s c)
  narrow_transaction method cause (simulation_failed r c m) = transport_error_of method cause
  narrow_transaction method cause (object_not_found id) = transport_error_of method cause
  narrow_transaction method cause (object_deleted id) = transport_error_of method cause
  narrow_transaction method cause (object_unavailable id) = transport_error_of method cause

  unfoldable pub narrow_simulation : Text → Thrown → CoreError → Result Thrown CoreError
  narrow_simulation method cause (simulation_failed r c m) = success (simulation_failed r c m)
  narrow_simulation method cause (transport_error m r s c) = success (transport_error m r s c)
  narrow_simulation method cause (transaction_not_found d) = transport_error_of method cause
  narrow_simulation method cause (object_not_found id) = transport_error_of method cause
  narrow_simulation method cause (object_deleted id) = transport_error_of method cause
  narrow_simulation method cause (object_unavailable id) = transport_error_of method cause

  unfoldable pub narrow_by :
      (CoreError → Result Thrown CoreError) → Result Thrown CoreError → Result Thrown CoreError
  narrow_by narrow (failure defect) = failure defect
  narrow_by narrow (success e) = narrow e

  unfoldable pub object_error_of : Text → Thrown → Result Thrown CoreError
  object_error_of method cause = narrow_by (narrow_object method cause) (map_sdk_error method cause)

  unfoldable pub transaction_error_of : Text → Thrown → Result Thrown CoreError
  transaction_error_of method cause =
      narrow_by (narrow_transaction method cause) (map_sdk_error method cause)

  unfoldable pub simulation_error_of : Text → Thrown → Result Thrown CoreError
  simulation_error_of method cause =
      narrow_by (narrow_simulation method cause) (map_sdk_error method cause)
