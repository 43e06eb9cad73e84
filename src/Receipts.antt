-- ===== src/Receipts.antt =====
-- domain/executed.ts: what an executed transaction created, changed, deleted, wrapped, transferred and
-- published, as its effects say.
pub mod Selecting
pub mod Buckets
use sui_effect.Prelude.{
  ℕ, suc, zero, Bool, true, false, Option, none, some, List, [], ◌∷◌, ◌++◌, ◌&&◌, ◌||◌, not, map,
  filter, is_some, if◌then◌else◌, Text, codes, text_eq,
}
use sui_effect.Schemas.{Digest, ObjectId, SuiAddress, Bytes}
use sui_effect.Journal.{Result, success, failure}
use sui_effect.Moves.{Tags, type_matches}

pub data Owner : Type 0 where
  address_owner : SuiAddress → Owner
  object_owner : ObjectId → Owner
  shared : ℕ → Owner
  immutable : Owner
  consensus_address_owner : ℕ → SuiAddress → Owner
  unknown_owner : Owner

pub data InputState : Type 0 where
  unknown_input does_not_exist exists : InputState

pub data OutputState : Type 0 where
  unknown_output no_output object_write package_write accumulator_write : OutputState

pub data IdOperation : Type 0 where
  unknown_operation no_operation created deleted : IdOperation

-- `ChangedObject` of the effects.
pub record Change : Type 0 where
  pub object_id : ObjectId
  pub input_state : InputState
  pub input_version : Option ℕ
  pub input_digest : Option Text
  pub input_owner : Option Owner
  pub output_state : OutputState
  pub output_version : Option ℕ
  pub output_digest : Option Text
  pub output_owner : Option Owner
  pub id_operation : IdOperation

pub record ChangedRef : Type 0 where
  pub id : ObjectId
  pub type_tag : Option Text
  pub version : Option ℕ
  pub digest : Option Text
  pub owner : Option Owner

-- An event as the effects carry it.
pub record Event : Type 0 where
  pub package_id : ObjectId
  pub event_type : Text
  pub content : Bytes

-- The type of an object by the `objectTypes` join, as `ObjectType` decodes it.
pub record ChangeSource : Type 0 where
  pub digest : Digest
  pub changed_objects : List Change
  pub events : List Event
  pub type_of : ObjectId → Option Text

pub record UnexpectedEffects : Type 0 where
  pub digest : Digest
  pub expected : Text
  pub found : List ObjectId

pub record Published : Type 0 where
  pub package_id : ObjectId
  pub package_of : ChangedRef
  pub upgrade_cap : ChangedRef

pub data Side : Type 0 where
  input output : Side

unfoldable pub by_side : {A : Type 0} → Side → A → A → A
by_side input i o = i
by_side output i o = o

unfoldable pub is_accumulator_write : OutputState → Bool
is_accumulator_write accumulator_write = true
is_accumulator_write unknown_output = false
is_accumulator_write no_output = false
is_accumulator_write object_write = false
is_accumulator_write package_write = false

unfoldable pub wrote_an_object : OutputState → Bool
wrote_an_object object_write = true
wrote_an_object unknown_output = true
wrote_an_object no_output = false
wrote_an_object package_write = false
wrote_an_object accumulator_write = false

unfoldable pub is_package_write : OutputState → Bool
is_package_write package_write = true
is_package_write object_write = false
is_package_write unknown_output = false
is_package_write no_output = false
is_package_write accumulator_write = false

unfoldable pub is_no_output : OutputState → Bool
is_no_output no_output = true
is_no_output package_write = false
is_no_output object_write = false
is_no_output unknown_output = false
is_no_output accumulator_write = false

unfoldable pub is_exists : InputState → Bool
is_exists exists = true
is_exists does_not_exist = false
is_exists unknown_input = false

unfoldable pub may_exist : InputState → Bool
may_exist exists = true
may_exist unknown_input = true
may_exist does_not_exist = false

unfoldable pub is_none_operation : IdOperation → Bool
is_none_operation no_operation = true
is_none_operation created = false
is_none_operation deleted = false
is_none_operation unknown_operation = false

unfoldable pub is_created_operation : IdOperation → Bool
is_created_operation created = true
is_created_operation no_operation = false
is_created_operation deleted = false
is_created_operation unknown_operation = false

unfoldable pub is_deleted_operation : IdOperation → Bool
is_deleted_operation deleted = true
is_deleted_operation created = false
is_deleted_operation no_operation = false
is_deleted_operation unknown_operation = false

unfoldable pub owner_key : Owner → Option Text
owner_key (address_owner a) = some (codes "address:" ++ a)
owner_key (object_owner o) = some (codes "object:" ++ o)
owner_key (shared v) = some (codes "shared")
owner_key immutable = some (codes "immutable")
owner_key (consensus_address_owner v a) = some (codes "consensus:" ++ a)
owner_key unknown_owner = none

-- Both keys are known, and they differ.
unfoldable pub keys_differ : Option Text → Option Text → Bool
keys_differ none after = false
keys_differ (some a) none = false
keys_differ (some a) (some b) = not (text_eq a b)

unfoldable pub owner_changed : Option Owner → Option Owner → Bool
owner_changed none after = false
owner_changed (some a) none = false
owner_changed (some a) (some b) = keys_differ (owner_key a) (owner_key b)
