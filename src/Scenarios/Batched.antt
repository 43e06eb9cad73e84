-- ===== src/Scenarios/Batched.antt =====
-- Batched reads over a node that lacks one of its objects.
use sui_effect.Prelude.{
  ℕ, zero, suc, Option, none, some, List, [], ◌∷◌, ◌≡◌, refl, codes, text_eq, text_eq_refl, ap, ◌∙◌,
  ◌++◌, arith, map, if◌then◌else◌, All, inl, inr, Bool-cases, length, ◌≤◌, take, drop,
}
use sui_effect.Fold.{chunk_from}
use sui_effect.Schemas.{ObjectId, Bytes}
use sui_effect.Journal.{Result, success, failure}
use sui_effect.Tx.Network.{TransportError}
use sui_effect.Moves.{get_or}
use sui_effect.Reads.Results.{Each}
use sui_effect.Reads.Objects.{
  Sdk, ReadOptions, Envelope, RawObject, raw, object_deleted, decode_object, with_envelope,
  content_object, raw_object, raw_of, make_sui_object, key_of,
}
use sui_effect.Reads.Batches.{
  BatchEntry, found, error, item_of_decoded, map_object_item_error, Item, get_objects, pages_for,
  item_for,
}
use sui_effect.Reads.Batch.{AnsweredBy, get_objects-Answered}
use sui_effect.Reads.Requests.{Asks, pages_for-Asks, Chunking, concat}
use sui_effect.Reads.Honest.{Honest, get_objects-one_by_one}

-- Objects whose content is their own bytes, and a node that lacks one of them.
abbrev envelope_of : RawObject → Envelope
envelope_of o = record {
  object_id = o.object_id;
  version = codes "1";
  digest = codes "D";
  type_tag = codes "0x2::coin::Coin";
  owner = codes "0xa";
}

abbrev reader : Sdk
reader = record {
  decode_envelope = λ o. some (envelope_of o);
  normalize_sui_address = λ t. none;
  tags = record { parse_struct_tag = λ t. none; normalize_struct_tag = λ t. none };
  chunks_of = λ n xs. chunk_from (length xs) n xs;
}

abbrev options : ReadOptions Bytes
options = record { schema = none; expected_type = none }

abbrev object_at : ObjectId → RawObject
object_at id = record { object_id = id; content = some id; fields = [] }

alike : (a b : ObjectId) → key_of reader a ≡ key_of reader b → a ≡ b
unfolding key_of get_or
alike a b e = e

abbrev gone : ObjectId
gone = codes "0x3"

abbrev answer : ObjectId → Option BatchEntry
answer id = if text_eq id gone then some (error (codes "deleted")) else some (found (object_at id))

abbrev item : ObjectId → Item reader options
item id =
    if text_eq id gone
    then failure (object_deleted id)
    else success (record { envelope = envelope_of (object_at id); content = raw (some id) })

abbrev core_get_objects : ℕ → List ObjectId → Result TransportError (List (Option BatchEntry))
core_get_objects n page = success (map answer page)

answer-about : (id : ObjectId) → item_for reader options id (answer id) ≡ success (item id)
unfolding item_for key_of decode_object with_envelope content_object raw_object raw_of
    item_of_decoded make_sui_object map_object_item_error get_or text_eq
answer-about id = elim (Bool-cases (text_eq id gone)) [
  | inl y ↦ rw (y) refl
  | inr n ↦ rw (n, text_eq_refl id) refl
]

abbrev node : Honest reader options core_get_objects answer item
node = record { answers = λ n page. refl; about = answer-about }

chunk_from-small :
    (left n : ℕ) (xs : List ObjectId) → All (λ page. length page ≤ n) (chunk_from left n xs)
unfolding chunk_from
chunk_from-small zero n xs = tt
chunk_from-small (suc left) n [] = tt
chunk_from-small (suc left) n (x ∷ xs) =
    (length-take n (x ∷ xs), chunk_from-small left n (drop n (x ∷ xs)))
  where
    length-take : (n : ℕ) (ys : List ObjectId) → length (take n ys) ≤ n
    length-take zero ys = omega arith
    length-take (suc n) [] = omega arith
    length-take (suc n) (y ∷ ys) = omega (arith, length-take n ys)

length-drop : (n : ℕ) (xs : List ObjectId) → length (drop n xs) ≤ length xs
length-drop zero xs = omega arith
length-drop (suc n) [] = omega arith
length-drop (suc n) (x ∷ xs) = omega (arith, length-drop n xs)

take-drop : (n : ℕ) (xs : List ObjectId) → take n xs ++ drop n xs ≡ xs
take-drop zero xs = refl
take-drop (suc n) [] = refl
take-drop (suc n) (x ∷ xs) = ap (λ ys. x ∷ ys) (take-drop n xs)

chunk_from-whole :
    (left n : ℕ) (xs : List ObjectId) → length xs ≤ left → concat (chunk_from left (suc n) xs) ≡ xs
unfolding chunk_from
chunk_from-whole zero n [] h = refl
chunk_from-whole zero n (x ∷ xs) h = absurd (omega arith)
chunk_from-whole (suc left) n [] h = refl
chunk_from-whole (suc left) n (x ∷ xs) h =
    ap (λ ys. x ∷ (take n xs ++ ys))
      (chunk_from-whole left n (drop n xs) (omega (arith, length-drop n xs)))
    ∙ ap (λ ys. x ∷ ys) (take-drop n xs)

abbrev chunking : Chunking reader
chunking = record {
  small = λ n xs. chunk_from-small (length xs) n xs;
  whole = λ n xs. chunk_from-whole (length xs) n xs (omega arith);
}

-- One id is asked for twice, and one object is gone.
abbrev ids : List ObjectId
ids = codes "0x1" ∷ gone ∷ codes "0x1" ∷ codes "0x2" ∷ []

pages_for-Asks_example : Asks reader ids (pages_for reader ids)
pages_for-Asks_example = pages_for-Asks reader chunking ids

get_objects-one_by_one_example :
    get_objects reader options core_get_objects ids ≡ success (map item ids)
get_objects-one_by_one_example =
    get_objects-one_by_one reader options core_get_objects answer item node chunking ids
      (λ a b m k e. ap item (alike a b e))

get_objects-Answered_example :
    Each
      (λ id it. AnsweredBy reader options core_get_objects (key_of reader id) it)
      ids
      (map item ids)
get_objects-Answered_example =
    get_objects-Answered reader options core_get_objects chunking.small ids (map item ids) (
      get_objects-one_by_one reader options core_get_objects answer item node chunking ids
        (λ a b m k e. ap item (alike a b e)))
