-- ===== src/Scenarios/Stores.antt =====
-- A `KeyValueStore` over an association list, and a codec for entries with nothing optional.
use sui_effect.Prelude.{
  zero, suc, Bool, true, false, Option, none, some, List, [], ◌∷◌, ◌≡◌, ◌↔◌, refl, arith, Text,
  text_eq, text_eq_iff, is_some, In, if◌then◌else◌, ◌&&◌,
}
use sui_effect.Schemas.{Digest, Signed}
use sui_effect.Journal.{
  JournalEntry, signed_entry, executed_entry, failed_entry, unknown_entry, not_applied_entry,
}
use sui_effect.Kv.{KeyValueStore}
use sui_effect.Durable.{Codec}

abbrev pub Pairs : Type 0
Pairs = List (Text × Text)

abbrev pub get : Text → Pairs → Option Text
get j [] = none
get j ((k, v) ∷ s) = if text_eq k j then some v else get j s

abbrev pub remove : Text → Pairs → Pairs
remove j [] = []
remove j ((k, v) ∷ s) = let rest = remove j s in if text_eq k j then rest else (k, v) ∷ rest

abbrev pub keys : Pairs → List Text
keys [] = []
keys ((k, v) ∷ s) = k ∷ keys s

pub get-remove :
    (k j : Text) (s : Pairs) → get j (remove k s) ≡ (if text_eq k j then none else get j s)
get-remove k j [] = ground arith
get-remove k j ((i, v) ∷ s) =
    ground (arith, get-remove k j s, text_eq_iff i k, text_eq_iff i j, text_eq_iff k j)

pub get-set :
    (k j v : Text) (s : Pairs)
    → get j ((k, v) ∷ remove k s) ≡ (if text_eq k j then some v else get j s)
get-set k j v s = ground (arith, get-remove k j s)

pub In-keys : (k : Text) (s : Pairs) → In k (keys s) ↔ (is_some (get k s) ≡ true)
In-keys k [] = ground arith
In-keys k ((j, v) ∷ s) = ground (arith, In-keys k s, text_eq_iff j k)

unfoldable pub pair_store : KeyValueStore Pairs
pair_store = record {
  get = get;
  has = λ k s. is_some (get k s);
  set = λ k v s. (k, v) ∷ remove k s;
  remove = remove;
  keys = keys;
  has_get = λ k s. refl;
  get_set = get-set;
  get_remove = get-remove;
  in_keys = In-keys;
}

-- A signed transaction that its digest determines.
abbrev pub plain : Digest → Signed
plain d = record {
  digest = d;
  bytes = d;
  signatures = [];
  sender = d;
  gas_owner = none;
  expiration = none;
  chain = none;
}

abbrev is_absent : {A : Type 0} → Option A → Bool
is_absent none = true
is_absent (some a) = false

abbrev is_nil : List Text → Bool
is_nil [] = true
is_nil (x ∷ xs) = false

is_absent-none : {A : Type 0} (o : Option A) → is_absent o ≡ true → o ≡ none
is_absent-none none h = refl
is_absent-none (some a) h = ground arith

is_nil-[] : (xs : List Text) → is_nil xs ≡ true → xs ≡ []
is_nil-[] [] h = refl
is_nil-[] (x ∷ xs) h = ground arith

unfoldable pub is_plain : Digest → Signed → Bool
is_plain d s =
    text_eq s.digest d
    && text_eq s.bytes d
    && is_nil s.signatures
    && text_eq s.sender d
    && is_absent s.gas_owner
    && is_absent s.expiration
    && is_absent s.chain

is_plain-plain : (d : Digest) (s : Signed) → is_plain d s ≡ true → s ≡ plain d
unfolding is_plain
is_plain-plain d s h = ground (
  arith,
  text_eq_iff s.digest d,
  text_eq_iff s.bytes d,
  text_eq_iff s.sender d,
  is_nil-[] s.signatures,
  is_absent-none s.gas_owner,
  is_absent-none s.expiration,
  is_absent-none s.chain,
)

unfoldable pub encode : JournalEntry → Option Text
unfolding is_plain
encode (executed_entry d none at) = some (0 ∷ at ∷ d)
encode (executed_entry d (some c) at) = none
encode (failed_entry d r at) = none
encode (signed_entry d s at) = if is_plain d s then some (1 ∷ at ∷ d) else none
encode (unknown_entry d s e n at) = none
encode (not_applied_entry d e at) = none

unfoldable pub decode : Text → Option JournalEntry
decode [] = none
decode (n ∷ []) = none
decode (zero ∷ at ∷ d) = some (executed_entry d none at)
decode (suc n ∷ at ∷ d) = some (signed_entry d (plain d) at)

pub decode-encode : (e : JournalEntry) (t : Text) → encode e ≡ some t → decode t ≡ some e
unfolding encode decode is_plain
decode-encode (executed_entry d none at) t h = ground arith
decode-encode (executed_entry d (some c) at) t h = ground arith
decode-encode (failed_entry d r at) t h = ground arith
decode-encode (signed_entry d s at) t h = ground (arith, is_plain-plain d s)
decode-encode (unknown_entry d s e n at) t h = ground arith
decode-encode (not_applied_entry d e at) t h = ground arith

unfoldable pub pair_codec : Codec
unfolding encode decode
pair_codec = record { encode = encode; decode = decode; decode_encode = decode-encode }
