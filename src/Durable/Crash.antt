-- ===== src/Durable/Crash.antt =====
-- Every program of the durable journal keeps its store safe, whatever fails, and wherever the
-- process dies.
use sui_effect.Prelude.{
  Bool, true, false, Option, none, some, ◌≡◌, refl, arith, Text, text_eq_refl, if◌then◌else◌, ◌∙◌,
}
use sui_effect.Schemas.{Digest}
use sui_effect.Journal.{JournalEntry, is_unresolved, digest_of, success, failure, undecodable}
use sui_effect.Kv.{KeyValueStore, Program, Reply, done, pure, handle, and_then, ◌>>◌, remove}
use sui_effect.Kv.Run.{
  Fate, served, lost, landed, replied, wrote, Ensures, Ensures-handle, Ensures-weaken,
}
use sui_effect.Durable.{
  Codec, decode_raw, confirms, entry_key, settled_key, tag, kv_set, read_entry, clear_marker,
  settle_marker, put, heal,
}
use sui_effect.Durable.Safety.{
  IsSafe, IsSettled, entry-set_entry, settled-remove_settled, IsSafe-remove_settled,
  IsSafe-set_entry_settled, IsSafe-set_entry_unmarked, IsSafe-set_settled,
}

module _ {S : Type 0} (store : KeyValueStore S) (codec : Codec) where
  abbrev pub Keeps : {A : Type 0} → (Reply A → S → Type 0) → Program A → S → Type 0
  Keeps Q p s = Ensures store (IsSafe store codec) Q p s

  abbrev pub Any : {A : Type 0} → Reply A → S → Type 0
  Any r s = Unit

  -- After a clear that succeeds the marker is gone.
  abbrev pub Cleared : Digest → Reply (Unit {0}) → S → Type 0
  Cleared d r s = r ≡ success tt → store.get (settled_key d) s ≡ none

  pub remove_settled-Keeps :
      (d : Digest) (s : S)
      → IsSafe store codec s
      → Keeps (Cleared d) (remove (settled_key d) done) s
  remove_settled-Keeps d s safe = (safe, after)
    where
      gone : store.get (settled_key d) (store.remove (settled_key d) s) ≡ none
      gone = settled-remove_settled store d d s ∙ rw text_eq_refl refl

      after :
          (f : Fate)
          → IsSafe store codec (wrote f (store.remove (settled_key d) s) s)
            × Cleared d (replied f tt) (wrote f (store.remove (settled_key d) s) s)
      after served = (IsSafe-remove_settled store codec d s safe, λ _. gone)
      after lost = (safe, λ e. cc)
      after landed = (IsSafe-remove_settled store codec d s safe, λ e. cc)

  pub clear_marker-Keeps :
      (d : Digest) (s : S) → IsSafe store codec s → Keeps (Cleared d) (clear_marker codec d) s
  unfolding clear_marker
  clear_marker-Keeps d s safe = (safe, after)
    where
      branch :
          (b : Bool)
          → store.has (settled_key d) s ≡ b
          → Keeps (Cleared d) (if b then remove (settled_key d) done else pure tt) s
      branch true e = remove_settled-Keeps d s safe
      branch false e = (safe, λ _. ground (arith, store.has_get (settled_key d) s))

      after :
          (f : Fate)
          → Keeps
              (Cleared d)
              (and_then
                (λ (there : Bool). if there then remove (settled_key d) done else pure tt)
                (replied f (store.has (settled_key d) s)))
              s
      after served = branch (store.has (settled_key d) s) refl
      after lost = (safe, λ e. cc)
      after landed = (safe, λ e. cc)

  -- A read changes nothing, and answers with an entry only if that is stored.
  abbrev pub Found : Digest → S → Reply (Option JournalEntry) → S → Type 0
  Found d s r s' =
      (s' ≡ s)
      × ((e : JournalEntry)
          → r ≡ success (some e)
          → (t : Text) × (store.get (entry_key d) s ≡ some t) × (codec.decode t ≡ some e))

  pub read_entry-Keeps :
      (d : Digest) (s : S) → IsSafe store codec s → Keeps (Found d s) (read_entry codec d) s
  unfolding read_entry
  read_entry-Keeps d s safe = (safe, after)
    where
      decoded :
          (t : Text) (o : Option JournalEntry)
          → store.get (entry_key d) s ≡ some t
          → codec.decode t ≡ o
          → Keeps
              (Found d s)
              (elim o [ none ↦ done (failure undecodable) | some e ↦ pure (some e) ])
              s
      decoded t none found read = (safe, (refl, λ e q. cc))
      decoded t (some x) found read = (safe, (refl, λ e q. (t, found, ground arith)))

      branch :
          (o : Option Text)
          → store.get (entry_key d) s ≡ o
          → Keeps (Found d s) (decode_raw codec o) s
      branch none found = (safe, (refl, λ e q. cc))
      branch (some t) found = decoded t (codec.decode t) found refl

      after :
          (f : Fate)
          → Keeps
              (Found d s)
              (and_then (decode_raw codec) (replied f (store.get (entry_key d) s)))
              s
      after served = branch (store.get (entry_key d) s) refl
      after lost = (safe, (refl, λ e q. cc))
      after landed = (safe, (refl, λ e q. cc))

  pub settle_marker-Keeps :
      (e : JournalEntry) (s : S)
      → IsSafe store codec s
      → IsSettled store codec (digest_of e) s
      → Keeps Any (settle_marker codec e) s
  unfolding settle_marker
  settle_marker-Keeps e s safe settled = (safe, after)
    where
      d : Digest
      d = digest_of e

      marked : S
      marked = store.set (settled_key d) (tag e) s

      safe' : IsSafe store codec marked
      safe' = IsSafe-set_settled store codec d s safe (tag e) settled

      withdraw :
          (b : Bool) (t : S)
          → IsSafe store codec t
          → Keeps Any (if b then pure tt else remove (settled_key d) done) t
      withdraw true t h = (h, tt)
      withdraw false t h = (h, λ f. (((remove_settled-Keeps d t h).1 f).0, tt))

      again :
          Keeps Any
            (handle
              (read_entry codec d)
              (λ r. if confirms r then pure tt else remove (settled_key d) done))
            marked
      again =
          Ensures-handle store (IsSafe store codec) (Found d marked) Any (read_entry codec d) _
            marked (λ r t h _. withdraw (confirms r) t h) (read_entry-Keeps d marked safe')

      after :
          (f : Fate)
          → Keeps Any
              (and_then
                (λ (_ : Unit {0}).
                  handle
                    (read_entry codec d)
                    (λ r. if confirms r then pure tt else remove (settled_key d) done))
                (replied f tt))
              (wrote f marked s)
      after served = again
      after lost = (safe, tt)
      after landed = (safe', tt)

  pub heal-Keeps :
      (e : JournalEntry) (s : S)
      → IsSafe store codec s
      → IsSettled store codec (digest_of e) s
      → Keeps Any (heal codec e) s
  unfolding heal
  heal-Keeps e s safe settled =
      Ensures-handle store (IsSafe store codec) Any Any (settle_marker codec e) _ s
        (λ r t h _. (h, tt)) (settle_marker-Keeps e s safe settled)

  -- The entry that an unresolved `put` writes, once the marker is gone.
  put_open-Keeps :
      (e : JournalEntry) (json : Text) (s : S)
      → codec.encode e ≡ some json
      → IsSafe store codec s
      → store.get (settled_key (digest_of e)) s ≡ none
      → Keeps Any
          (handle
            (kv_set (entry_key (digest_of e)) json)
            (and_then (λ (_ : Unit {0}). clear_marker codec (digest_of e))))
          s
  put_open-Keeps e json s written safe unmarked = (safe, after)
    where
      d : Digest
      d = digest_of e

      stored : S
      stored = store.set (entry_key d) json s

      safe' : IsSafe store codec stored
      safe' =
          IsSafe-set_entry_unmarked store codec d s safe json e (codec.decode_encode e json written)
            refl unmarked

      weaken : (t : S) → IsSafe store codec t → Keeps Any (clear_marker codec d) t
      weaken t h =
          Ensures-weaken store (IsSafe store codec) (Cleared d) Any (clear_marker codec d) t
            (λ r u q. tt) (clear_marker-Keeps d t h)

      after :
          (f : Fate)
          → Keeps Any
              (and_then (λ (_ : Unit {0}). clear_marker codec d) (replied f tt))
              (wrote f stored s)
      after served = weaken stored safe'
      after lost = (safe, tt)
      after landed = (safe', tt)

  put_closed-Keeps :
      (e : JournalEntry) (json : Text) (s : S)
      → codec.encode e ≡ some json
      → is_unresolved e ≡ false
      → IsSafe store codec s
      → Keeps Any
          (handle
            (kv_set (entry_key (digest_of e)) json)
            (and_then (λ (_ : Unit {0}). settle_marker codec e)))
          s
  put_closed-Keeps e json s written closed safe = (safe, after)
    where
      d : Digest
      d = digest_of e

      read : codec.decode json ≡ some e
      read = codec.decode_encode e json written

      stored : S
      stored = store.set (entry_key d) json s

      safe' : IsSafe store codec stored
      safe' = IsSafe-set_entry_settled store codec d s safe json e read refl closed

      settled : IsSettled store codec d stored
      settled t x found decoded =
          ground (arith, entry-set_entry store d d json s, text_eq_refl d, read)

      after :
          (f : Fate)
          → Keeps Any
              (and_then (λ (_ : Unit {0}). settle_marker codec e) (replied f tt))
              (wrote f stored s)
      after served = settle_marker-Keeps e stored safe' settled
      after lost = (safe, tt)
      after landed = (safe', tt)

  pub put-Keeps : (e : JournalEntry) (s : S) → IsSafe store codec s → Keeps Any (put codec e) s
  unfolding put
  put-Keeps e s safe = encoded (codec.encode e) refl
    where
      d : Digest
      d = digest_of e

      opened :
          (json : Text)
          → codec.encode e ≡ some json
          → (r : Reply (Unit {0})) (t : S) → IsSafe store codec t
          → Cleared d r t
          → Keeps Any
              (and_then
                (λ (_ : Unit {0}).
                  handle
                    (kv_set (entry_key d) json)
                    (and_then (λ (_ : Unit {0}). clear_marker codec d)))
                r)
              t
      opened json written (success u) t h cleared = put_open-Keeps e json t written h (cleared refl)
      opened json written (failure x) t h cleared = (h, tt)

      branch :
          (json : Text)
          → codec.encode e ≡ some json
          → (b : Bool) → is_unresolved e ≡ b
          → Keeps Any
              (if b
                then (do clear_marker codec d; kv_set (entry_key d) json; clear_marker codec d)
                else (do kv_set (entry_key d) json; settle_marker codec e))
              s
      branch json written true b =
          Ensures-handle store (IsSafe store codec) (Cleared d) Any (clear_marker codec d) _ s
            (opened json written) (clear_marker-Keeps d s safe)
      branch json written false b = put_closed-Keeps e json s written b safe

      encoded :
          (o : Option Text)
          → codec.encode e ≡ o
          → Keeps Any
              (elim o [
                | none ↦ done (failure undecodable)
                | some json ↦
                    if is_unresolved e
                    then (do clear_marker codec d; kv_set (entry_key d) json; clear_marker codec d)
                    else (do kv_set (entry_key d) json; settle_marker codec e)
              ])
              s
      encoded none q = (safe, tt)
      encoded (some json) q = branch json q (is_unresolved e) refl
