-- ===== src/Failures.antt =====
-- domain/errors.ts and services/SuiCore.ts: what a value thrown by the SDK becomes, and how reads are
-- retried.
pub mod Sdk
pub mod Bugs
pub mod Narrowing
pub mod Wrapping
pub mod Retries
use sui_effect.Prelude.{
  ℕ, zero, suc, Bool, true, false, Option, none, some, List, [], ◌∷◌, ◌&&◌, ◌||◌, not, ◌==◌, leb,
  if◌then◌else◌, or_else, is_some, Text, codes, text_eq, strip_prefix, ◌+◌,
}
use sui_effect.Schemas.{Digest, ObjectId}
use sui_effect.Journal.{Result, success, failure}
use sui_effect.Moves.{get_or}

-- The class by `instanceof`: one of the SDK's, `TypeError`, another `Error`, or no error at all.
pub data ErrorClass : Type 0 where
  object_error transaction_error simulation_error type_error plain_error no_error : ErrorClass

-- A property that is absent, a text, a number, or something else.
pub data Field : Type 0 where
  absent : Field
  text : Text → Field
  number : ℕ → Field
  other : Field

pub record ExecutionError : Type 0 where
  pub command : Option ℕ
  pub reason : Text

-- The properties that the library reads of a thrown object.
pub record Properties : Type 0 where
  pub class_of : ErrorClass
  pub is_defect : Bool
  pub constructor_is_error : Bool
  pub tag : Option Text
  pub name : Option Text
  pub message : Text
  pub status : Field
  pub code : Field
  pub reason : Option Text
  pub object_id : Field
  pub digest : Option Text
  pub execution_error : Option ExecutionError

-- Any value: `undefined` or `null`, a primitive, or an object with its `cause`.
pub data Thrown : Type 0 where
  nothing primitive : Thrown
  object : Properties → Thrown → Thrown

pub record Classified : Type 0 where
  pub status : Option Text
  pub retryable : Bool

pub data CoreError : Type 0 where
  object_not_found object_deleted object_unavailable : ObjectId → CoreError
  transaction_not_found : Digest → CoreError
  simulation_failed : Option Text → Option ℕ → Text → CoreError
  transport_error : Text → Bool → Option Text → Thrown → CoreError

-- `String(n)`, and the strict decoders of ids and digests.
pub record Decoders : Type 0 where
  pub show : ℕ → Text
  pub decode_object_id : Text → Option ObjectId
  pub decode_digest : Text → Option Digest
  pub zero_object_id : ObjectId
  pub zero_digest : Digest

unfoldable pub one_of : Text → List Text → Bool
one_of t [] = false
one_of t (x ∷ xs) = text_eq t x || one_of t xs

unfoldable pub includes : Text → Text → Bool
includes t [] = is_some (strip_prefix t [])
includes t (c ∷ cs) = is_some (strip_prefix t (c ∷ cs)) || includes t cs

unfoldable pub includes_one : List Text → Text → Bool
includes_one [] t = false
includes_one (x ∷ xs) t = includes x t || includes_one xs t

abbrev pub retryable_grpc_statuses : List Text
retryable_grpc_statuses =
    codes "UNAVAILABLE"
    ∷ codes "DEADLINE_EXCEEDED"
    ∷ codes "RESOURCE_EXHAUSTED"
    ∷ codes "INTERNAL"
    ∷ codes "UNKNOWN"
    ∷ []

abbrev pub sdk_argument_errors : List Text
sdk_argument_errors =
    codes "Paginating transactions filtered by function requires"
    ∷ codes "Invalid function filter"
    ∷ codes "Invalid emitModule filter"
    ∷ codes "Invalid eventType filter"
    ∷ codes "filter must specify exactly one of"
    ∷ codes "Only one of `after` or `before` may be provided"
    ∷ codes "`after` can not be combined with descending"
    ∷ codes "`before` can not be combined with ascending"
    ∷ []

abbrev pub object_reasons : List Text
object_reasons = codes "notFound" ∷ codes "deleted" ∷ codes "unknown" ∷ []

unfoldable pub is_retryable_http_status : ℕ → Bool
is_retryable_http_status n = (n == 429) || leb 500 n

unfoldable pub has_text : Option Text → Text → Bool
has_text none t = false
has_text (some s) t = text_eq s t

unfoldable pub is_error : ErrorClass → Bool
is_error no_error = false
is_error object_error = true
is_error transaction_error = true
is_error simulation_error = true
is_error type_error = true
is_error plain_error = true

unfoldable pub is_absent : Field → Bool
is_absent absent = true
is_absent (text t) = false
is_absent (number n) = false
is_absent other = false

unfoldable pub is_sdk_argument_error : Thrown → Bool
is_sdk_argument_error nothing = false
is_sdk_argument_error primitive = false
is_sdk_argument_error (object p c) =
    is_error p.class_of
    && p.constructor_is_error
    && is_absent p.code
    && includes_one sdk_argument_errors p.message

unfoldable pub rethrown_defect : Thrown → Bool
rethrown_defect nothing = false
rethrown_defect primitive = false
rethrown_defect (object p c) = p.is_defect

module _ (env : Decoders) where
  unfoldable pub classify_code : Field → Classified
  classify_code (text t) = record { status = some t; retryable = one_of t retryable_grpc_statuses }
  classify_code (number n) = record { status = some (env.show n); retryable = false }
  classify_code absent = record { status = none; retryable = false }
  classify_code other = record { status = none; retryable = false }

  unfoldable pub classify_status : Field → Field → Classified
  classify_status (number n) code = record {
    status = some (env.show n);
    retryable = is_retryable_http_status n;
  }
  classify_status (text t) code = classify_code code
  classify_status absent code = classify_code code
  classify_status other code = classify_code code

  unfoldable pub classify_transport_cause : Thrown → Classified
  classify_transport_cause nothing = record { status = none; retryable = false }
  classify_transport_cause primitive = record { status = none; retryable = false }
  classify_transport_cause (object p c) =
      if has_text p.tag (codes "TimeoutError")
        || has_text p.name (codes "TimeoutError")
        || has_text p.name (codes "AbortError")
      then record { status = some (codes "DEADLINE_EXCEEDED"); retryable = true }
      else classify_status p.status p.code
