-- ===== src/Receipts/Selecting.antt =====
-- domain/executed.ts: the selections of changed objects and events, and what expects exactly one.
use sui_effect.Prelude.{
  Bool, true, false, Option, none, some, List, [], ◌∷◌, ◌++◌, ◌&&◌, ◌||◌, not, map, filter,
  if◌then◌else◌, or_else, Text, codes,
}
use sui_effect.Schemas.{ObjectId}
use sui_effect.Journal.{Result, success, failure}
use sui_effect.Moves.{Tags, Codec, DecodeError, type_kind, type_matches, decode_content}
use sui_effect.Reads.Results.{traverse, then_do}
use sui_effect.Receipts.{
  Change, ChangedRef, Owner, Event, ChangeSource, UnexpectedEffects, Published, Side, input, output,
  by_side, is_accumulator_write, wrote_an_object, is_package_write, is_no_output, is_exists,
  may_exist, is_none_operation, is_created_operation, is_deleted_operation, owner_changed,
}

-- `expectEvent` fails with either.
pub data EventFailure : Type 0 where
  unexpected : UnexpectedEffects → EventFailure
  not_decoded : DecodeError → EventFailure

abbrev pub upgrade_cap_type : Text
upgrade_cap_type = codes "0x2::package::UpgradeCap"

unfoldable pub ref_of : ChangeSource → Change → Side → ChangedRef
ref_of source c side = record {
  id = c.object_id;
  type_tag = source.type_of c.object_id;
  version = by_side side c.input_version c.output_version;
  digest = by_side side c.input_digest c.output_digest;
  owner = by_side side c.input_owner c.output_owner;
}

unfoldable pub is_created : Change → Bool
is_created c = is_created_operation c.id_operation && wrote_an_object c.output_state

unfoldable pub is_mutated : Change → Bool
is_mutated c =
    is_none_operation c.id_operation && wrote_an_object c.output_state && may_exist c.input_state

unfoldable pub is_deleted : Change → Bool
is_deleted c = is_deleted_operation c.id_operation

unfoldable pub is_wrapped : Change → Bool
is_wrapped c =
    is_none_operation c.id_operation && is_exists c.input_state && is_no_output c.output_state

unfoldable pub is_transferred : Change → Bool
is_transferred c =
    is_none_operation c.id_operation
    && is_exists c.input_state
    && wrote_an_object c.output_state
    && owner_changed c.input_owner c.output_owner

unfoldable pub is_published : Change → Bool
is_published c = is_package_write c.output_state && is_created_operation c.id_operation

unfoldable pub select_from :
    ChangeSource → (Change → Bool) → Side → (ChangedRef → Bool) → List Change → List ChangedRef
select_from source predicate side keep [] = []
select_from source predicate side keep (c ∷ cs) =
    let rest = select_from source predicate side keep cs in
    let ref = ref_of source c side in
    if is_accumulator_write c.output_state
    then rest
    else if not (predicate c)
    then rest
    else if not (keep ref)
    then rest
    else ref ∷ rest

unfoldable pub select :
    ChangeSource → (Change → Bool) → Side → (ChangedRef → Bool) → List ChangedRef
select source predicate side keep = select_from source predicate side keep source.changed_objects

abbrev pub any_ref : ChangedRef → Bool
any_ref ref = true

-- A package without a type reads as one.
unfoldable pub package_ref : ChangedRef → ChangedRef
package_ref ref = record ref { type_tag = or_else ref.type_tag (some (codes "package")) }

unfoldable pub only_one : {A : Type 0} → UnexpectedEffects → List A → Result UnexpectedEffects A
only_one e [] = failure e
only_one e (x ∷ []) = success x
only_one e (x ∷ y ∷ more) = failure e

unfoldable pub if_any : {A : Type 0} → List A → List A → List A
if_any [] others = others
if_any (x ∷ xs) others = x ∷ xs

module _ (tags : Tags) where
  unfoldable pub has_type : Text → Option Text → Bool
  has_type wanted none = false
  has_type wanted (some t) = type_matches tags wanted t

  unfoldable pub by_type : Option Text → ChangedRef → Bool
  by_type none ref = true
  by_type (some wanted) ref = has_type wanted ref.type_tag

  unfoldable pub created_where : ChangeSource → (ChangedRef → Bool) → List ChangedRef
  created_where source keep = select source is_created output keep

  unfoldable pub created_of : ChangeSource → Option Text → List ChangedRef
  created_of source wanted = created_where source (by_type wanted)

  unfoldable pub mutated_of : ChangeSource → Option Text → List ChangedRef
  mutated_of source wanted = select source is_mutated output (by_type wanted)

  unfoldable pub deleted_of : ChangeSource → List ChangedRef
  deleted_of source = select source (λ c. is_deleted c || is_wrapped c) input any_ref

  unfoldable pub wrapped_of : ChangeSource → List ChangedRef
  wrapped_of source = select source is_wrapped input any_ref

  -- With the owner before.
  unfoldable pub transferred_of : ChangeSource → Option Text → List (ChangedRef × Option Owner)
  transferred_of source wanted =
      filter (λ t. by_type wanted t.0)
        (map (λ c. (ref_of source c output, c.input_owner))
          (filter (λ c. not (is_accumulator_write c.output_state) && is_transferred c)
            source.changed_objects))

  unfoldable pub packages_published : ChangeSource → List ChangedRef
  packages_published source =
      map (λ c. package_ref (ref_of source c output)) (filter is_published source.changed_objects)

  unfoldable pub ids_of : List ChangedRef → List ObjectId
  ids_of refs = map (λ r. r.id) refs

  unfoldable pub unexpected_of : ChangeSource → Text → List ObjectId → UnexpectedEffects
  unexpected_of source expected found = record {
    digest = source.digest;
    expected = expected;
    found = found;
  }

  unfoldable pub expect_created : ChangeSource → Text → Result UnexpectedEffects ChangedRef
  expect_created source wanted =
      let found = created_of source (some wanted) in
      only_one (unexpected_of source wanted (ids_of found)) found

  -- The cap of an upgrade is changed, not created.
  unfoldable pub upgrade_caps : ChangeSource → List ChangedRef
  upgrade_caps source =
      if_any (created_of source (some upgrade_cap_type)) (mutated_of source (some upgrade_cap_type))

  unfoldable pub with_cap : ChangeSource → ChangedRef → Result UnexpectedEffects Published
  with_cap source p =
      let caps = upgrade_caps source in
      then_do
        (only_one (unexpected_of source (codes "exactly one " ++ upgrade_cap_type) (ids_of caps))
          caps)
        (λ cap. success (record { package_id = p.id; package_of = p; upgrade_cap = cap }))

  unfoldable pub expect_published : ChangeSource → Result UnexpectedEffects Published
  expect_published source =
      let packages = packages_published source in
      then_do
        (only_one (unexpected_of source (codes "exactly one published package") (ids_of packages))
          packages)
        (λ p. with_cap source p)

  unfoldable pub events_of_type : ChangeSource → Text → List Event
  events_of_type source wanted = filter (λ e. type_matches tags wanted e.event_type) source.events

  -- The events' own type decides which of them are decoded.
  module _ {T : Type 0} (codec : Codec T) where
    unfoldable pub decode_event : Text → Event → Result DecodeError T
    decode_event wanted e =
        decode_content tags codec (some e.content) none (some wanted) (some e.event_type)

    -- The caller's type, or the one the codec was built with.
    unfoldable pub selecting_type : Option Text → Option Text
    selecting_type event_type = or_else event_type codec.sui_type

    unfoldable pub no_type : DecodeError
    no_type = record {
      object_id = none;
      expected_type = none;
      actual_type = none;
      kind = type_kind;
    }

    unfoldable pub events_as : ChangeSource → Option Text → Result DecodeError (List T)
    events_as source none = failure no_type
    events_as source (some wanted) = traverse (decode_event wanted) (events_of_type source wanted)

    unfoldable pub events_of : ChangeSource → Option Text → Result DecodeError (List T)
    events_of source event_type = events_as source (selecting_type event_type)

    unfoldable pub to_event_failure : Result DecodeError T → Result EventFailure T
    to_event_failure (failure d) = failure (not_decoded d)
    to_event_failure (success t) = success t

    unfoldable pub decoded_event : Text → Result UnexpectedEffects Event → Result EventFailure T
    decoded_event wanted (failure e) = failure (unexpected e)
    decoded_event wanted (success e) = to_event_failure (decode_event wanted e)

    unfoldable pub expect_as : ChangeSource → Option Text → Result EventFailure T
    expect_as source none = failure (not_decoded no_type)
    expect_as source (some wanted) =
        let matching = events_of_type source wanted in
        decoded_event wanted (
          only_one
            (unexpected_of source (codes "exactly one event " ++ wanted)
              (map (λ e. e.package_id) matching))
            matching)

    unfoldable pub expect_event : ChangeSource → Option Text → Result EventFailure T
    expect_event source event_type = expect_as source (selecting_type event_type)
