-- ===== src/Reads/Objects.antt =====
-- services/Sui.ts: one object, read and decoded.
use sui_effect.Prelude.{ℕ, false, Option, none, some, List, [], if◌then◌else◌, Text, text_eq, codes}
use sui_effect.Schemas.{ObjectId, Bytes}
use sui_effect.Journal.{Result, success, failure}
use sui_effect.Tx.Network.{TransportError, transport, answer_not_decoded, object_unavailable_cause}
use sui_effect.Moves.{Tags, Codec, DecodeError, type_kind, get_or, type_matches, decode_content}
use sui_effect.Reads.Results.{then_do}

pub record Envelope : Type 0 where
  pub object_id : ObjectId
  pub version : Text
  pub digest : Text
  pub type_tag : Text
  pub owner : Text

-- An object as the SDK answers it; `decode_envelope` of the reader takes the rest of it.
pub record RawObject : Type 0 where
  pub object_id : Text
  pub content : Option Bytes
  pub fields : List (Text × Text)

-- `SuiObject<S | Uint8Array>`
pub data Content (S : Type 0) : Type 0 where
  decoded : S → Content S
  raw : Option Bytes → Content S

pub record SuiObject (S : Type 0) : Type 0 where
  pub envelope : Envelope
  pub content : Content S

-- What an object read can fail with; a batch item fails with the first four only.
pub data BatchItemError : Type 0 where
  object_not_found object_deleted object_unavailable : ObjectId → BatchItemError
  decode_failed : DecodeError → BatchItemError

-- `DecodeError | TransportError`
pub data DecodeFailure : Type 0 where
  not_decoded : DecodeError → DecodeFailure
  not_read : TransportError → DecodeFailure

-- The parts outside the repository: the schema of an envelope, `normalizeSuiAddress` (`none` where
-- it throws), the type parser, and `Array.chunksOf`.
pub record Sdk : Type 0 where
  pub decode_envelope : RawObject → Option Envelope
  pub normalize_sui_address : Text → Option Text
  pub tags : Tags
  pub chunks_of : ℕ → List ObjectId → List (List ObjectId)

pub record ReadOptions (S : Type 0) : Type 0 where
  pub schema : Option (Codec S)
  pub expected_type : Option Text

unfoldable pub boundary_error : Text → TransportError
boundary_error method = transport method false none answer_not_decoded

unfoldable pub raw_of : Envelope → Option Bytes → Option Bytes
raw_of envelope (some bytes) = some bytes
raw_of envelope none = if text_eq envelope.type_tag (codes "package") then some [] else none

unfoldable pub make_sui_object : {S : Type 0} → Envelope → Content S → SuiObject S
make_sui_object envelope content = record { envelope = envelope; content = content }

-- `GetObjectError`: an object's own failure, or the transport's.
pub data GetObjectError : Type 0 where
  item_failed : BatchItemError → GetObjectError
  read_failed_with : TransportError → GetObjectError

module _ {S : Type 0} where
  unfoldable pub of_decoded :
      Result DecodeFailure (SuiObject S) → Result GetObjectError (SuiObject S)
  of_decoded (success object) = success object
  of_decoded (failure (not_decoded e)) = failure (item_failed (decode_failed e))
  of_decoded (failure (not_read e)) = failure (read_failed_with e)

  -- An object that is not there is no failure.
  unfoldable pub option_of :
      Result GetObjectError (SuiObject S) → Result GetObjectError (Option (SuiObject S))
  option_of (success object) = success (some object)
  option_of (failure (item_failed (object_not_found id))) = success none
  option_of (failure (item_failed (object_deleted id))) = success none
  option_of (failure (item_failed (object_unavailable id))) =
      failure (item_failed (object_unavailable id))
  option_of (failure (item_failed (decode_failed e))) = failure (item_failed (decode_failed e))
  option_of (failure (read_failed_with e)) = failure (read_failed_with e)

  -- As `option_of`, for a field's object: one that cannot be served is the transport's failure.
  unfoldable pub field_of :
      Result GetObjectError (SuiObject S) → Result GetObjectError (Option (SuiObject S))
  field_of (failure (item_failed (object_unavailable id))) = failure (
      read_failed_with
        (transport (codes "getDynamicObjectField") false none (object_unavailable_cause id)))
  field_of (failure (item_failed (object_not_found id))) = success none
  field_of (failure (item_failed (object_deleted id))) = success none
  field_of (failure (item_failed (decode_failed e))) = failure (item_failed (decode_failed e))
  field_of (failure (read_failed_with e)) = failure (read_failed_with e)
  field_of (success object) = success (some object)

module _ (sdk : Sdk) where
  unfoldable pub key_of : ObjectId → Text
  key_of id = get_or id (sdk.normalize_sui_address id)

  -- Only a type that was asked for is compared when no schema is given.
  unfoldable pub raw_object :
      {S : Type 0} → Envelope → Option Bytes → Option Text → Result DecodeFailure (SuiObject S)
  raw_object envelope bytes none = success (make_sui_object envelope (raw bytes))
  raw_object envelope bytes (some expected) =
      if type_matches sdk.tags expected envelope.type_tag
      then success (make_sui_object envelope (raw bytes))
      else failure (
          not_decoded (record {
            object_id = some envelope.object_id;
            expected_type = some expected;
            actual_type = some envelope.type_tag;
            kind = type_kind;
          }))

  unfoldable pub decoded_object :
      {S : Type 0} → Envelope → Result DecodeError S → Result DecodeFailure (SuiObject S)
  decoded_object envelope (failure e) = failure (not_decoded e)
  decoded_object envelope (success s) = success (make_sui_object envelope (decoded s))

  unfoldable pub content_object :
      {S : Type 0}
      → Envelope
      → Option Bytes
      → Option (Codec S)
      → Option Text
      → Result DecodeFailure (SuiObject S)
  content_object envelope bytes none expected = raw_object envelope bytes expected
  content_object envelope bytes (some codec) expected = decoded_object envelope (
      decode_content sdk.tags codec bytes (some envelope.object_id) expected
        (some envelope.type_tag))

  unfoldable pub with_envelope :
      {S : Type 0}
      → RawObject
      → ReadOptions S
      → Option Envelope
      → Result DecodeFailure (SuiObject S)
  with_envelope object opts none = failure (not_read (boundary_error (codes "getObject")))
  with_envelope object opts (some envelope) =
      content_object envelope (raw_of envelope object.content) opts.schema opts.expected_type

  unfoldable pub decode_object :
      {S : Type 0} → RawObject → ReadOptions S → Result DecodeFailure (SuiObject S)
  decode_object object opts = with_envelope object opts (sdk.decode_envelope object)

  module _ {S : Type 0} (opts : ReadOptions S)
      (core_get_object : ObjectId → Result GetObjectError RawObject) where
    unfoldable pub get_object : ObjectId → Result GetObjectError (SuiObject S)
    get_object id = then_do (core_get_object id) (λ object. of_decoded (decode_object object opts))

    unfoldable pub get_object_option : ObjectId → Result GetObjectError (Option (SuiObject S))
    get_object_option id = option_of (get_object id)

  -- The node is asked for the object of a field by its parent and its name.
  module _ {S N : Type 0} (opts : ReadOptions S)
      (core_get_dynamic_object_field : ObjectId → N → Result GetObjectError RawObject) where
    unfoldable pub get_dynamic_object_field_option :
        ObjectId → N → Result GetObjectError (Option (SuiObject S))
    get_dynamic_object_field_option parent name = field_of (
        then_do (core_get_dynamic_object_field parent name)
          (λ object. of_decoded (decode_object object opts)))
