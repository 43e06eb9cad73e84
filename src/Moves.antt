-- ===== src/Moves.antt =====
-- domain/bcs.ts: how a Move type is matched and how the content of an object is decoded.
use sui_effect.Prelude.{
  ℕ, zero, suc, Bool, true, false, Option, none, some, ◌&&◌, if◌then◌else◌, or_else, Text, text_eq,
  not,
}
use sui_effect.Schemas.{ObjectId, Bytes}
use sui_effect.Journal.{Result, success, failure}

-- What `parseStructTag` of the SDK answers, with the number of type parameters.
pub record StructTag : Type 0 where
  pub address : Text
  pub mod_name : Text
  pub name : Text
  pub type_params : ℕ

-- The SDK's parser and normaliser, `none` where they throw.
pub record Tags : Type 0 where
  pub parse_struct_tag : Text → Option StructTag
  pub normalize_struct_tag : Text → Option Text

pub data DecodeKind : Type 0 where
  type_kind bytes_kind shape_kind : DecodeKind

pub record DecodeError : Type 0 where
  pub object_id : Option ObjectId
  pub expected_type : Option Text
  pub actual_type : Option Text
  pub kind : DecodeKind

-- A `Schema.Codec` from bytes, with the Move type recorded on it.
pub record Codec (S : Type 0) : Type 0 where
  pub decode : Option Bytes → Option S
  pub sui_type : Option Text

unfoldable pub get_or : {A : Type 0} → A → Option A → A
get_or a none = a
get_or a (some b) = b

unfoldable pub is_zero : ℕ → Bool
is_zero zero = true
is_zero (suc n) = false

module _ (tags : Tags) where
  unfoldable pub normalize_safe : Text → Text
  normalize_safe t = get_or t (tags.normalize_struct_tag t)

  unfoldable pub same_text : Text → Text → Bool
  same_text expected actual = text_eq (normalize_safe expected) (normalize_safe actual)

  unfoldable pub match_bare : Text → Text → StructTag → Option StructTag → Bool
  match_bare expected actual e none = same_text expected actual
  match_bare expected actual e (some a) =
      text_eq e.address a.address && text_eq e.mod_name a.mod_name && text_eq e.name a.name

  unfoldable pub match_tag : Text → Text → Option StructTag → Bool
  match_tag expected actual none = same_text expected actual
  match_tag expected actual (some e) =
      if not (is_zero e.type_params)
      then same_text expected actual
      else match_bare expected actual e (tags.parse_struct_tag actual)

  unfoldable pub type_matches : Text → Text → Bool
  type_matches expected actual = match_tag expected actual (tags.parse_struct_tag expected)

  -- A type that is expected and known must match.
  unfoldable pub type_refused : Option Text → Option Text → Bool
  type_refused none actual = false
  type_refused (some e) none = false
  type_refused (some e) (some a) = not (type_matches e a)

  unfoldable pub decoded_or :
      {S : Type 0} → Option ObjectId → Option Text → Option S → Result DecodeError S
  decoded_or id expected (some s) = success s
  decoded_or id expected none =
      failure
        (record { object_id = id; expected_type = expected; actual_type = none; kind = bytes_kind })

  unfoldable pub decode_content :
      {S : Type 0}
      → Codec S
      → Option Bytes
      → Option ObjectId
      → Option Text
      → Option Text
      → Result DecodeError S
  decode_content codec content id expected_type actual =
      let expected = or_else expected_type codec.sui_type in
      if type_refused expected actual
      then failure (record {
        object_id = id;
        expected_type = expected;
        actual_type = actual;
        kind = type_kind;
      })
      else decoded_or id expected (codec.decode content)
