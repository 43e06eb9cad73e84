-- ===== src/Reads/Batches.antt =====
-- services/Sui.ts: the batched reads of objects.
use sui_effect.Prelude.{
  ℕ, suc, Bool, false, Option, none, some, List, [], ◌∷◌, ◌==◌, length, not, if◌then◌else◌, Text,
  text_eq, codes, ◌||◌,
}
use sui_effect.Schemas.{ObjectId}
use sui_effect.Journal.{Result, success, failure}
use sui_effect.Tx.Network.{
  TransportError, transport, Cause, wrong_count, no_entry, answered_for_object,
}
use sui_effect.Reads.Results.{cons_result, then_do, traverse}
use sui_effect.Reads.Objects.{
  RawObject, SuiObject, BatchItemError, object_not_found, object_deleted, object_unavailable,
  decode_failed, DecodeFailure, not_decoded, not_read, Sdk, ReadOptions, GetObjectError,
  item_failed, read_failed_with, key_of, decode_object,
}

-- An item of a batch: the object, or the SDK's error for it by its reason.
pub data BatchEntry : Type 0 where
  found : RawObject → BatchEntry
  error : Text → BatchEntry

abbrev pub chunk_size : ℕ
chunk_size = 50

unfoldable pub batch_error : Cause → TransportError
batch_error cause = transport (codes "getObjects") false none cause

unfoldable pub map_object_item_error : ObjectId → Text → BatchItemError
map_object_item_error id reason =
    if text_eq reason (codes "deleted")
    then object_deleted id
    else if text_eq reason (codes "notFound")
    then object_not_found id
    else object_unavailable id

-- `requested.has(key)`
unfoldable pub has_key : Text → List Text → Bool
has_key k [] = false
has_key k (l ∷ ls) = text_eq k l || has_key k ls

-- The map from keys to items; the entry that was set last is found first.
module _ {I : Type 0} where
  unfoldable pub set_page : List (Text × I) → List (Text × I) → List (Text × I)
  set_page answers [] = answers
  set_page answers (entry ∷ entries) = set_page (entry ∷ answers) entries

  unfoldable pub set_pages : List (Text × I) → List (List (Text × I)) → List (Text × I)
  set_pages answers [] = answers
  set_pages answers (page ∷ pages) = set_pages (set_page answers page) pages

  unfoldable pub find_answer : Text → List (Text × I) → Option I
  find_answer k [] = none
  find_answer k ((l, item) ∷ answers) =
      let rest = find_answer k answers in if text_eq k l then some item else rest

  unfoldable pub answer_or : ObjectId → Option I → Result TransportError I
  answer_or id none = failure (batch_error (no_entry id))
  answer_or id (some item) = success item

-- The first failure of a list of items, or all of them.
module _ {S : Type 0} where
  unfoldable pub strict_item :
      Result BatchItemError (SuiObject S) → Result GetObjectError (SuiObject S)
  strict_item (failure e) = failure (item_failed e)
  strict_item (success object) = success object

  unfoldable pub strict_of :
      Result TransportError (List (Result BatchItemError (SuiObject S)))
      → Result GetObjectError (List (SuiObject S))
  strict_of (failure e) = failure (read_failed_with e)
  strict_of (success items) = traverse strict_item items

module _ (sdk : Sdk) where
  -- The ids without the ones whose key was requested before, in the order of the request.
  unfoldable pub unique_ids : List Text → List ObjectId → List ObjectId
  unique_ids requested [] = []
  unique_ids requested (id ∷ ids) =
      let others = unique_ids (key_of sdk id ∷ requested) ids in
      let rest = unique_ids requested ids in
      if has_key (key_of sdk id) requested then rest else id ∷ others

  unfoldable pub pages_for : List ObjectId → List (List ObjectId)
  pages_for ids = sdk.chunks_of chunk_size (unique_ids [] ids)

  -- The batched read. A node may answer the same request differently, so that the number of the
  -- request is an argument of its answer.
  module _ {S : Type 0} (opts : ReadOptions S) where
    abbrev pub Item : Type 0
    Item = Result BatchItemError (SuiObject S)

    unfoldable pub item_of_decoded : Result DecodeFailure (SuiObject S) → Result TransportError Item
    item_of_decoded (success object) = success (success object)
    item_of_decoded (failure (not_decoded e)) = success (failure (decode_failed e))
    item_of_decoded (failure (not_read e)) = failure e

    unfoldable pub item_for : ObjectId → Option BatchEntry → Result TransportError Item
    item_for id none = failure (batch_error (no_entry id))
    item_for id (some (error reason)) = success (failure (map_object_item_error id reason))
    item_for id (some (found object)) =
        if not (text_eq (key_of sdk object.object_id) (key_of sdk id))
        then failure (batch_error (answered_for_object id object.object_id))
        else item_of_decoded (decode_object sdk object opts)

    unfoldable pub entry_for : ObjectId → Option BatchEntry → Result TransportError (Text × Item)
    entry_for id item = then_do (item_for id item) (λ x. success (key_of sdk id, x))

    -- The loop over a page whose answers are as many as its ids.
    unfoldable pub entries_of :
        List ObjectId → List (Option BatchEntry) → Result TransportError (List (Text × Item))
    entries_of [] objects = success []
    entries_of (id ∷ ids) [] = failure (batch_error (no_entry id))
    entries_of (id ∷ ids) (o ∷ objects) = cons_result (entry_for id o) (entries_of ids objects)

    unfoldable pub page_entries :
        List ObjectId → List (Option BatchEntry) → Result TransportError (List (Text × Item))
    page_entries page objects =
        if not (length objects == length page)
        then failure (batch_error (wrong_count (length page) (length objects)))
        else entries_of page objects

    module _
        (core_get_objects : ℕ
          → List ObjectId
          → Result TransportError (List (Option BatchEntry))) where
      unfoldable pub fetch_page : ℕ → List ObjectId → Result TransportError (List (Text × Item))
      fetch_page n page = then_do (core_get_objects n page) (λ objects. page_entries page objects)

      unfoldable pub fetch_pages :
          ℕ → List (List ObjectId) → Result TransportError (List (List (Text × Item)))
      fetch_pages n [] = success []
      fetch_pages n (page ∷ pages) = cons_result (fetch_page n page) (fetch_pages (suc n) pages)

      unfoldable pub get_objects : List ObjectId → Result TransportError (List Item)
      get_objects ids = then_do (fetch_pages 0 (pages_for ids)) (λ pages.
          traverse (λ id. answer_or id (find_answer (key_of sdk id) (set_pages [] pages))) ids)

      unfoldable pub get_objects_strict : List ObjectId → Result GetObjectError (List (SuiObject S))
      get_objects_strict ids = strict_of (get_objects ids)
