-- ===== src/Durable.antt =====
-- services/JournalKeyValueStore.ts: the durable journal, as programs that call a `KeyValueStore`.
-- The store a journal sees is already the view under its prefix (`viewOf`).
pub mod Safety
pub mod Crash
pub mod Scan
pub mod Refines
use sui_effect.Prelude.{
  ℕ, Bool, true, false, Option, none, some, List, [], ◌∷◌, ◌++◌, ◌≡◌, Text, codes, strip_prefix,
  text_eq, text_lt, filter, length, map, ltb, ◌==◌, ◌||◌, ◌&&◌, not, if◌then◌else◌,
}
use sui_effect.Schemas.{Digest}
use sui_effect.Journal.{
  JournalEntry, signed_entry, executed_entry, failed_entry, unknown_entry, not_applied_entry,
  digest_of, is_unresolved, Result, success, failure, JournalError, undecodable, held,
}
use sui_effect.Kv.{
  Program, Reply, done, pure, handle, and_then, ◌>>=◌, ◌>>◌, for_each, get, has, set, remove, keys,
}

abbrev pub entry_prefix : Text
entry_prefix = codes "entry:"

abbrev pub settled_prefix : Text
settled_prefix = codes "settled:"

unfoldable pub entry_key : Digest → Text
entry_key d = entry_prefix ++ d

unfoldable pub settled_key : Digest → Text
settled_key d = settled_prefix ++ d

-- `entry._tag`
unfoldable pub tag : JournalEntry → Text
tag (signed_entry d s at) = codes "Signed"
tag (executed_entry d c at) = codes "Executed"
tag (failed_entry d r at) = codes "Failed"
tag (unknown_entry d s e n at) = codes "Unknown"
tag (not_applied_entry d e at) = codes "NotApplied"

unfoldable pub stamp_of : JournalEntry → ℕ
stamp_of (signed_entry d s at) = at
stamp_of (executed_entry d c at) = at
stamp_of (failed_entry d r at) = at
stamp_of (unknown_entry d s e n at) = at
stamp_of (not_applied_entry d e at) = at

-- `oldestFirst(a, b) < 0`
unfoldable pub before : JournalEntry → JournalEntry → Bool
unfolding stamp_of
before a b =
    if stamp_of a == stamp_of b
    then text_lt (digest_of a) (digest_of b)
    else ltb (stamp_of a) (stamp_of b)

-- `Array.sort(oldestFirst)`, which is stable: an item goes behind those that are not after it.
unfoldable pub insert_sorted : JournalEntry → List JournalEntry → List JournalEntry
insert_sorted e [] = e ∷ []
insert_sorted e (x ∷ xs) =
    let rest = insert_sorted e xs in if before x e then x ∷ rest else e ∷ x ∷ xs

unfoldable pub sort_oldest_first : List JournalEntry → List JournalEntry
sort_oldest_first [] = []
sort_oldest_first (x ∷ xs) = insert_sorted x (sort_oldest_first xs)

abbrev pub somes : {A : Type 0} → List (Option A) → List A
somes [] = []
somes (none ∷ xs) = somes xs
somes (some x ∷ xs) = x ∷ somes xs

abbrev pub contains : List Text → Text → Bool
contains [] d = false
contains (x ∷ xs) d = text_eq x d || contains xs d

-- The digests of the entry keys and of the settled markers.
pub record Listing : Type 0 where
  pub entries : List Digest
  pub settled : List Digest

abbrev pub list_key : Text → Listing → Listing
list_key key l = elim (strip_prefix entry_prefix key) [
  | some d ↦ record l { entries = d ∷ l.entries }
  | none ↦ elim (strip_prefix settled_prefix key) [
    | some d ↦ record l { settled = d ∷ l.settled }
    | none ↦ l
  ]
]

unfoldable pub split_keys : List Text → Listing
split_keys [] = record { entries = []; settled = [] }
split_keys (k ∷ ks) = list_key k (split_keys ks)

abbrev pub kv_set : Text → Text → Program (Unit {0})
kv_set k v = set k v done

abbrev pub kv_remove : Text → Program (Unit {0})
kv_remove k = remove k done

unfoldable pub list_keys : Program Listing
list_keys = keys (and_then (λ ks. pure (split_keys ks)))

pub data OnUnresolved : Type 0 where
  fail ignore : OnUnresolved

-- `Schema.fromJsonString(JournalEntry)` of effect: an entry that does not encode, or a text that
-- does not decode, is `none`.
pub record Codec : Type 0 where
  pub encode : JournalEntry → Option Text
  pub decode : Text → Option JournalEntry
  pub decode_encode : (e : JournalEntry) (t : Text) → encode e ≡ some t → decode t ≡ some e

-- `Option.isSome(again) && !isUnresolved(again.value)`, and `false` where the read failed
abbrev pub confirms : Reply (Option JournalEntry) → Bool
confirms (success (some e)) = not (is_unresolved e)
confirms (success none) = false
confirms (failure e) = false

abbrev pub prune_one : JournalEntry → Program (Unit {0})
prune_one e = do kv_remove (settled_key (digest_of e)); kv_remove (entry_key (digest_of e))

abbrev pub prunable : ℕ → JournalEntry → Bool
prunable cutoff e = not (is_unresolved e) && ltb (stamp_of e) cutoff

abbrev pub refuse_held : OnUnresolved → List JournalEntry → Program (Unit {0})
refuse_held ignore es = pure tt
refuse_held fail [] = pure tt
refuse_held fail (e ∷ es) = done (failure (held (map digest_of (e ∷ es))))

module _ (codec : Codec) where
  abbrev pub decode_raw : Option Text → Program (Option JournalEntry)
  decode_raw none = pure none
  decode_raw (some t) = elim (codec.decode t) [
    | none ↦ done (failure undecodable)
    | some e ↦ pure (some e)
  ]

  unfoldable pub read_entry : Digest → Program (Option JournalEntry)
  read_entry d = get (entry_key d) (and_then decode_raw)

  unfoldable pub clear_marker : Digest → Program (Unit {0})
  clear_marker d =
      has (settled_key d) (and_then λ there. if there then kv_remove (settled_key d) else pure tt)

  unfoldable pub settle_marker : JournalEntry → Program (Unit {0})
  settle_marker e = do
    kv_set (settled_key (digest_of e)) (tag e)
    handle (read_entry (digest_of e))
        λ again. if confirms again then pure tt else kv_remove (settled_key (digest_of e))

  unfoldable pub heal : JournalEntry → Program (Unit {0})
  unfolding settle_marker
  heal e = handle (settle_marker e) (λ _. pure tt)

  unfoldable pub put : JournalEntry → Program (Unit {0})
  unfolding settle_marker clear_marker
  put e = elim (codec.encode e) [
    | none ↦ done (failure undecodable)
    | some json ↦
        if is_unresolved e
        then (do
          clear_marker (digest_of e)
          kv_set (entry_key (digest_of e)) json
          clear_marker (digest_of e))
        else (do kv_set (entry_key (digest_of e)) json; settle_marker e)
  ]

  abbrev pub heal_settled : Option JournalEntry → Program (Option JournalEntry)
  heal_settled none = pure none
  heal_settled (some e) = if is_unresolved e then pure (some e) else (do heal e; pure (some e))

  unfoldable pub read_and_heal : Digest → Program (Option JournalEntry)
  unfolding read_entry heal
  read_and_heal d = do found ← read_entry d; heal_settled found

  unfoldable pub read_unmarked : Program (List JournalEntry)
  unfolding list_keys read_and_heal
  read_unmarked = do
    l ← list_keys
    read ← for_each read_and_heal (filter (λ d. not (contains l.settled d)) l.entries)
    pure (filter is_unresolved (somes read))

  unfoldable pub list_unresolved : Program (List JournalEntry)
  unfolding read_unmarked
  list_unresolved = do es ← read_unmarked; pure (sort_oldest_first es)

  unfoldable pub prune_settled : ℕ → Program ℕ
  unfolding list_keys read_entry
  prune_settled cutoff = do
    l ← list_keys
    read ← for_each read_entry l.entries
    let settled = filter (prunable cutoff) (somes read)
    _ ← for_each prune_one settled
    _ ←
        for_each (λ d. kv_remove (settled_key d))
          (filter (λ d. not (contains l.entries d)) l.settled)
    pure (length settled)

  unfoldable pub layer_key_value_store : OnUnresolved → Program (Unit {0})
  layer_key_value_store mode = do es ← list_unresolved; refuse_held mode es
