-- ===== src/Scenarios/Values.antt =====
-- Values that the SDK throws, runs under a sender lock, and a receipt.
use sui_effect.Prelude.{
  ℕ, zero, suc, Bool, true, false, Option, none, some, List, [], ◌∷◌, ◌≡◌, refl, codes, arith, ◌↔◌,
  text_eq,
}
use sui_effect.Schemas.{SuiAddress}
use sui_effect.Journal.{Result, success}
use sui_effect.Moves.{Tags}
use sui_effect.Tx.Bytes.{policy, when_pinned, lock_sender_policy_of}
use sui_effect.Failures.{
  is_absent, plain_error, simulation_error, absent, text, Properties, nothing, object, CoreError,
  transport_error, Decoders, classify_transport_cause, classify_status, classify_code, has_text,
}
use sui_effect.Failures.Sdk.{
  is_object_class, is_transaction_class, is_simulation_class, is_type_class, map_sdk_error,
  is_object_error, is_transaction_error, is_simulation_error,
}
use sui_effect.Failures.Narrowing.{Narrowed, object_error_of-Narrowed}
use sui_effect.Failures.Wrapping.{wrapped, Silent, map_sdk_error-wrapped}
use sui_effect.Failures.Retries.{read, attempt, EndsAt, read-EndsAt}
use sui_effect.Locks.Running.{locked_run}
use sui_effect.Locks.Covered.{idle, observe_all, cover, locked_run-Watched}
use sui_effect.Receipts.{
  Change, ChangeSource, ChangedRef, address_owner, exists, does_not_exist, object_write, created,
  no_operation,
}
use sui_effect.Receipts.Selecting.{expect_created, created_of}
use sui_effect.Receipts.Buckets.{Sorted, created_of-Sorted, expect_created_iff}

abbrev decoders : Decoders
decoders = record {
  show = λ n. n ∷ [];
  decode_object_id = λ t. some t;
  decode_digest = λ t. some t;
  zero_object_id = codes "0x0";
  zero_digest = codes "1";
}

-- An error with a message only, a `SimulationError`, and an error with a gRPC code.
abbrev plain : Properties
plain = record {
  class_of = plain_error;
  is_defect = false;
  constructor_is_error = true;
  tag = none;
  name = some (codes "Error");
  message = codes "fetch failed";
  status = absent;
  code = absent;
  reason = none;
  object_id = absent;
  digest = none;
  execution_error = none;
}

abbrev simulation : Properties
simulation = record plain { class_of = simulation_error; name = some (codes "SimulationError") }

abbrev unavailable : Properties
unavailable = record plain { code = text (codes "UNAVAILABLE") }

object_error_of-Narrowed_example : Narrowed decoders (codes "getObject") (object simulation nothing)
object_error_of-Narrowed_example =
    object_error_of-Narrowed decoders (codes "getObject") (object simulation nothing)

silent : Silent decoders plain
unfolding classify_transport_cause classify_status classify_code has_text text_eq is_type_class
silent = (λ t. refl, refl)

map_sdk_error-wrapped_example :
    map_sdk_error decoders
      (codes "simulateTransaction")
      (object simulation (wrapped decoders (plain ∷ []) (object unavailable nothing)))
    ≡ success (
        transport_error
          (codes "simulateTransaction")
          (classify_transport_cause decoders (object unavailable nothing)).retryable
          (classify_transport_cause decoders (object unavailable nothing)).status
          (wrapped decoders (plain ∷ []) (object unavailable nothing)))
unfolding is_object_error is_transaction_error is_simulation_error classify_transport_cause
    classify_status classify_code has_text is_object_class is_absent is_transaction_class
    is_simulation_class text_eq
map_sdk_error-wrapped_example =
    map_sdk_error-wrapped decoders (codes "simulateTransaction") simulation (plain ∷ []) unavailable
      nothing refl refl refl refl refl (omega arith) (silent, tt) refl

-- Two attempts get no answer, and the third does.
abbrev answers : ℕ → Option (Result CoreError ℕ)
answers zero = none
answers (suc zero) = none
answers (suc (suc n)) = some (success 7)

read-EndsAt_example :
    (k : ℕ) × EndsAt 0
      (λ n. attempt (codes "getBalance") (answers n))
      (read none 5 (codes "getBalance") answers)
      k
read-EndsAt_example = read-EndsAt 5 (codes "getBalance") answers (omega arith)

-- A run whose bytes pin nothing.
abbrev keeps : ℕ → Bool
keeps n = false

abbrev in_flight_on : ℕ → List SuiAddress
in_flight_on n = codes "0xa" ∷ []

abbrev finish : ℕ → Result ℕ ℕ
finish n = success (suc n)

locked_run-Watched_example :
    observe_all
      (locked_run keeps in_flight_on finish
        (policy when_pinned)
        (codes "0xa" ∷ codes "0xb" ∷ [])
        (some (codes "0xa"))
        (success 3)).0
      idle
    ≡ some (record idle {
      at_finish =
          cover keeps in_flight_on finish
            (lock_sender_policy_of (policy when_pinned))
            (codes "0xa" ∷ codes "0xb" ∷ [])
            (success 3);
    })
locked_run-Watched_example =
    locked_run-Watched keeps in_flight_on finish (policy when_pinned)
      (codes "0xa" ∷ codes "0xb" ∷ []) (some (codes "0xa")) (success 3)

-- One object is created, and another one is given away.
abbrev created_change : Change
created_change = record {
  object_id = codes "0x1";
  input_state = does_not_exist;
  input_version = none;
  input_digest = none;
  input_owner = none;
  output_state = object_write;
  output_version = some 4;
  output_digest = some (codes "D");
  output_owner = some (address_owner (codes "0xa"));
  id_operation = created;
}

abbrev given_change : Change
given_change = record created_change {
  object_id = codes "0x2";
  input_state = exists;
  input_owner = some (address_owner (codes "0xb"));
  id_operation = no_operation;
}

abbrev receipt : ChangeSource
receipt = record {
  digest = codes "T";
  changed_objects = created_change ∷ given_change ∷ [];
  events = [];
  type_of = λ id. some (codes "0x5::m::T");
}

abbrev tags : Tags
tags = record { parse_struct_tag = λ t. none; normalize_struct_tag = λ t. none }

abbrev created_ref : ChangedRef
created_ref = record {
  id = codes "0x1";
  type_tag = some (codes "0x5::m::T");
  version = some 4;
  digest = some (codes "D");
  owner = some (address_owner (codes "0xa"));
}

created_of-Sorted_example : Sorted tags receipt none
created_of-Sorted_example = created_of-Sorted tags receipt none

expect_created_iff_example :
    (expect_created tags receipt (codes "0x5::m::T") ≡ success created_ref)
    ↔ (created_of tags receipt (some (codes "0x5::m::T")) ≡ created_ref ∷ [])
expect_created_iff_example = expect_created_iff tags receipt (codes "0x5::m::T") created_ref
