-- ===== src/Durable/Safety.antt =====
-- What a store of the durable journal must satisfy so that a listing misses nothing, and what each
-- kind of write does to it.
use sui_effect.Prelude.{
  true, false, none, some, ◌≡◌, refl, arith, Text, text_eq, text_eq_iff, if◌then◌else◌,
}
use sui_effect.Schemas.{Digest}
use sui_effect.Journal.{JournalEntry, digest_of, is_unresolved}
use sui_effect.Kv.{KeyValueStore}
use sui_effect.Durable.{Codec, entry_key, settled_key}

-- The two families of keys are apart, and each has one key for a digest.
entry-settled_key : (d k : Digest) → text_eq (entry_key d) (settled_key k) ≡ false
unfolding entry_key settled_key text_eq
entry-settled_key d k = refl

settled-entry_key : (d k : Digest) → text_eq (settled_key d) (entry_key k) ≡ false
unfolding entry_key settled_key text_eq
settled-entry_key d k = refl

entry-entry_key : (d k : Digest) → text_eq (entry_key d) (entry_key k) ≡ text_eq d k
unfolding entry_key text_eq
entry-entry_key d k = refl

settled-settled_key : (d k : Digest) → text_eq (settled_key d) (settled_key k) ≡ text_eq d k
unfolding settled_key text_eq
settled-settled_key d k = refl

module _ {S : Type 0} (store : KeyValueStore S) where
  pub entry-set_entry :
      (d k : Digest) (v : Text) (s : S)
      → store.get (entry_key k) (store.set (entry_key d) v s)
        ≡ (if text_eq d k then some v else store.get (entry_key k) s)
  entry-set_entry d k v s = rw (store.get_set, entry-entry_key)

  pub entry-set_settled :
      (d k : Digest) (v : Text) (s : S)
      → store.get (entry_key k) (store.set (settled_key d) v s) ≡ store.get (entry_key k) s
  entry-set_settled d k v s = rw (store.get_set, settled-entry_key)

  pub settled-set_entry :
      (d k : Digest) (v : Text) (s : S)
      → store.get (settled_key k) (store.set (entry_key d) v s) ≡ store.get (settled_key k) s
  settled-set_entry d k v s = rw (store.get_set, entry-settled_key)

  pub settled-set_settled :
      (d k : Digest) (v : Text) (s : S)
      → store.get (settled_key k) (store.set (settled_key d) v s)
        ≡ (if text_eq d k then some v else store.get (settled_key k) s)
  settled-set_settled d k v s = rw (store.get_set, settled-settled_key)

  pub entry-remove_entry :
      (d k : Digest) (s : S)
      → store.get (entry_key k) (store.remove (entry_key d) s)
        ≡ (if text_eq d k then none else store.get (entry_key k) s)
  entry-remove_entry d k s = rw (store.get_remove, entry-entry_key)

  pub entry-remove_settled :
      (d k : Digest) (s : S)
      → store.get (entry_key k) (store.remove (settled_key d) s) ≡ store.get (entry_key k) s
  entry-remove_settled d k s = rw (store.get_remove, settled-entry_key)

  pub settled-remove_entry :
      (d k : Digest) (s : S)
      → store.get (settled_key k) (store.remove (entry_key d) s) ≡ store.get (settled_key k) s
  settled-remove_entry d k s = rw (store.get_remove, entry-settled_key)

  pub settled-remove_settled :
      (d k : Digest) (s : S)
      → store.get (settled_key k) (store.remove (settled_key d) s)
        ≡ (if text_eq d k then none else store.get (settled_key k) s)
  settled-remove_settled d k s = rw (store.get_remove, settled-settled_key)

  module _ (codec : Codec) where
    -- Every entry stands under its own digest, and no marker stands beside an unresolved one.
    abbrev pub IsSafe : S → Type 0
    IsSafe s =
        (d : Digest) (t : Text) (e : JournalEntry)
        → store.get (entry_key d) s ≡ some t
        → codec.decode t ≡ some e
        → (digest_of e ≡ d) × (is_unresolved e ≡ true → store.get (settled_key d) s ≡ none)

    -- Whatever is stored under a digest is settled.
    abbrev pub IsSettled : Digest → S → Type 0
    IsSettled d s =
        (t : Text) (e : JournalEntry)
        → store.get (entry_key d) s ≡ some t
        → codec.decode t ≡ some e
        → is_unresolved e ≡ false

    module _ (d : Digest) (s : S) (safe : IsSafe s) where
      pub IsSafe-remove_settled : IsSafe (store.remove (settled_key d) s)
      IsSafe-remove_settled k t e found read =
          rw settled-remove_settled
            (ground (arith, safe k t e (rw entry-remove_settled at found) read))

      pub IsSafe-remove_entry : IsSafe (store.remove (entry_key d) s)
      IsSafe-remove_entry k t e found read =
          rw settled-remove_entry (ground (arith, entry-remove_entry d k s, safe k t e))

      pub IsSafe-set_entry_settled :
          (v : Text) (x : JournalEntry)
          → codec.decode v ≡ some x
          → digest_of x ≡ d
          → is_unresolved x ≡ false
          → IsSafe (store.set (entry_key d) v s)
      IsSafe-set_entry_settled v x written own closed k t e found read =
          rw settled-set_entry
            (ground (arith, entry-set_entry d k v s, safe k t e, text_eq_iff d k))

      pub IsSafe-set_entry_unmarked :
          (v : Text) (x : JournalEntry)
          → codec.decode v ≡ some x
          → digest_of x ≡ d
          → store.get (settled_key d) s ≡ none
          → IsSafe (store.set (entry_key d) v s)
      IsSafe-set_entry_unmarked v x written own unmarked k t e found read =
          rw settled-set_entry
            (ground (arith, entry-set_entry d k v s, safe k t e, text_eq_iff d k))

      pub IsSafe-set_settled : (v : Text) → IsSettled d s → IsSafe (store.set (settled_key d) v s)
      IsSafe-set_settled v settled k t e found read =
          rw settled-set_settled
            (ground (arith, entry-set_settled d k v s, safe k t e, settled t e, text_eq_iff d k))
