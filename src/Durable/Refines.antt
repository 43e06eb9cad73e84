-- ===== src/Durable/Refines.antt =====
-- services/JournalKeyValueStore.ts against services/Journal.ts: the puts and gets of the durable journal,
-- while its requests are served, seen through the entry keys. The listings are not compared: the durable
-- journal sorts by time, the memory journal keeps the order of the puts.
use sui_effect.Prelude.{
  Bool, true, false, Option, none, some, List, [], ◌∷◌, ◌≡◌, refl, sym, ap, ap₂, subst, Text,
  text_eq, if◌then◌else◌,
}
use sui_effect.Schemas.{Digest}
use sui_effect.Journal.{
  JournalEntry, digest_of, is_unresolved, JournalService, Result, success, failure, JournalError,
}
use sui_effect.Journal.Memory.{Entries, lookup, lookup-put, make_memory_unsafe}
use sui_effect.Kv.{KeyValueStore, Program, Reply, pure, ◌>>◌, handle, and_then}
use sui_effect.Kv.Run.{perform, perform-handle}
use sui_effect.Durable.{
  Codec, entry_key, settled_key, tag, decode_raw, read_entry, confirms, kv_remove, kv_set,
  clear_marker, settle_marker, heal, heal_settled, read_and_heal,
}
use sui_effect.Durable.Safety.{entry-set_entry, entry-set_settled, entry-remove_settled}
use sui_effect.Durable
use sui_effect.Journal.Memory

-- A call of a journal.
pub data Call : Type 0 where
  putting : JournalEntry → Call
  getting : Digest → Call

abbrev put_answer : Result JournalError (Unit {0}) → Result JournalError (Option JournalEntry)
put_answer (success u) = success none
put_answer (failure e) = failure e

module _ {J : Type 0} (journal : JournalService J) where
  -- What a sequence of calls answers, one after another.
  unfoldable pub answers : List Call → J → List (Result JournalError (Option JournalEntry))
  answers [] j = []
  answers (putting e ∷ calls) j = put_answer (journal.put e j).0 ∷ answers calls (journal.put e j).1
  answers (getting d ∷ calls) j = (journal.get d j).0 ∷ answers calls (journal.get d j).1

module _ {S : Type 0} (store : KeyValueStore S) where
  -- A served program answers `r`, and `P` holds of the store at its end.
  abbrev Leads : {A : Type 0} → Program A → S → Reply A → (S → Type 0) → Type 0
  Leads p s r P = ((perform store p s).0 ≡ r) × P (perform store p s).1

  Leads-handle :
      {A B : Type 0} (p : Program A) (g : Reply A → Program B) (s : S) (r : Reply A) (q : Reply B)
      (P Q : S → Type 0)
      → Leads p s r P
      → ((t : S) → P t → Leads (g r) t q Q)
      → Leads (handle p g) s q Q
  Leads-handle p g s r q P Q h k =
      subst (λ x. (x.0 ≡ q) × Q x.1) (sym (perform-handle store p g s))
        (subst (λ x. Leads (g x) (perform store p s).1 q Q) (sym h.0) (k (perform store p s).1 h.1))

  module _ (codec : Codec) where
    -- The entry of a digest, and the text that is stored for it.
    abbrev Stands : Option JournalEntry → Option Text → Type 0
    Stands none stored = stored ≡ none
    Stands (some e) stored = (t : Text) × (stored ≡ some t) × (codec.decode t ≡ some e)

    -- A store that represents the memory journal's map.
    abbrev pub Represents : Entries → S → Type 0
    Represents m s = (d : Digest) → Stands (lookup d m) (store.get (entry_key d) s)

    Represents-remove_settled :
        (m : Entries) (d : Digest) (s : S)
        → Represents m s
        → Represents m (store.remove (settled_key d) s)
    Represents-remove_settled m d s h k = rw (entry-remove_settled store) (h k)

    Represents-set_settled :
        (m : Entries) (d : Digest) (v : Text) (s : S)
        → Represents m s
        → Represents m (store.set (settled_key d) v s)
    Represents-set_settled m d v s h k = rw (entry-set_settled store) (h k)

    remove_marker-Leads :
        (m : Entries) (b : Bool) (d : Digest) (s : S)
        → Represents m s
        → Leads (if b then pure tt else kv_remove (settled_key d)) s (success tt) (Represents m)
    unfolding perform
    remove_marker-Leads m true d s h = (refl, h)
    remove_marker-Leads m false d s h = (refl, Represents-remove_settled m d s h)

    clear_marker-Leads :
        (m : Entries) (d : Digest) (s : S)
        → Represents m s
        → Leads (clear_marker codec d) s (success tt) (Represents m)
    unfolding clear_marker perform
    clear_marker-Leads m d s h = go (store.has (settled_key d) s)
      where
        go :
            (b : Bool)
            → Leads (if b then kv_remove (settled_key d) else pure tt) s (success tt) (Represents m)
        go true = (refl, Represents-remove_settled m d s h)
        go false = (refl, h)

    decode_raw-some :
        (t : Text) (e : JournalEntry)
        → codec.decode t ≡ some e
        → decode_raw codec (some t) ≡ pure (some e)
    decode_raw-some t e h = rw (decode_raw, h) refl

    read_entry-Leads :
        (m : Entries) (d : Digest) (s : S)
        → Represents m s
        → Leads (read_entry codec d) s (success (lookup d m)) (Represents m)
    unfolding read_entry perform
    read_entry-Leads m d s h = go (lookup d m) (store.get (entry_key d) s) (h d)
      where
        go :
            (o : Option JournalEntry) (stored : Option Text)
            → Stands o stored
            → Leads (and_then (decode_raw codec) (success stored)) s (success o) (Represents m)
        go none stored k = rw (k) (refl, h)
        go (some e) stored k = rw (k.1, decode_raw-some k.0 e k.2) (refl, h)

    settle_marker-Leads :
        (m : Entries) (e : JournalEntry) (s : S)
        → Represents m s
        → Leads (settle_marker codec e) s (success tt) (Represents m)
    unfolding settle_marker perform
    settle_marker-Leads m e s h =
        Leads-handle (read_entry codec (digest_of e)) _
          (store.set (settled_key (digest_of e)) (tag e) s) (success (lookup (digest_of e) m))
          (success tt) (Represents m) (Represents m)
          (read_entry-Leads m (digest_of e) _ (Represents-set_settled m (digest_of e) (tag e) s h))
          (λ t k.
            remove_marker-Leads m (confirms (success (lookup (digest_of e) m))) (digest_of e) t k)

    Stands-put :
        (m : Entries) (e : JournalEntry) (json : Text) (s : S)
        → codec.encode e ≡ some json
        → Represents m s
        → Represents (Memory.put e m) (store.set (entry_key (digest_of e)) json s)
    Stands-put m e json s written h k =
        rw (lookup-put, entry-set_entry store) (go (text_eq (digest_of e) k))
      where
        go :
            (b : Bool)
            → Stands
                (if b then some e else lookup k m)
                (if b then some json else store.get (entry_key k) s)
        go true = (json, refl, codec.decode_encode e json written)
        go false = h k

    put-Leads :
        (m : Entries) (e : JournalEntry) (json : Text) (s : S)
        → codec.encode e ≡ some json
        → Represents m s
        → Leads (Durable.put codec e) s (success tt) (Represents (Memory.put e m))
    unfolding Durable.put perform
    put-Leads m e json s written h = rw (Durable.put, written) (go (is_unresolved e))
      where
        after :
            (t : S)
            → Represents m t
            → Represents (Memory.put e m) (store.set (entry_key (digest_of e)) json t)
        after t k = Stands-put m e json t written k

        go :
            (b : Bool)
            → Leads
                (if b
                  then (do
                    clear_marker codec (digest_of e)
                    kv_set (entry_key (digest_of e)) json
                    clear_marker codec (digest_of e))
                  else (do kv_set (entry_key (digest_of e)) json; settle_marker codec e))
                s
                (success tt)
                (Represents (Memory.put e m))
        go false = settle_marker-Leads (Memory.put e m) e _ (after s h)
        go true =
            Leads-handle (clear_marker codec (digest_of e)) _ s (success tt) (success tt)
              (Represents m) (Represents (Memory.put e m)) (clear_marker-Leads m (digest_of e) s h)
              (λ t k. clear_marker-Leads (Memory.put e m) (digest_of e) _ (after t k))

    -- `make`, over a store whose requests are all served.
    unfoldable pub make_journal : JournalService S
    make_journal = record {
      put = λ e s. perform store (Durable.put codec e) s;
      get = λ d s. perform store (read_entry codec d) s;
      list_unresolved = λ s. perform store (Durable.list_unresolved codec) s;
    }

    abbrev pub Encodes : List Call → Type 0
    Encodes [] = Unit
    Encodes (putting e ∷ calls) = ((json : Text) × (codec.encode e ≡ some json)) × Encodes calls
    Encodes (getting d ∷ calls) = Encodes calls

    -- Over a store that represents the map of the memory journal and whose requests are served, any sequence of puts, of
    -- entries that can be encoded, and of gets is answered as the memory journal answers it.
    pub answers-refines :
        (calls : List Call) (m : Entries) (s : S)
        → Encodes calls
        → Represents m s
        → answers make_journal calls s ≡ answers make_memory_unsafe calls m
    unfolding answers make_journal make_memory_unsafe
    answers-refines [] m s written h = refl
    answers-refines (putting e ∷ calls) m s ((json, encoded), written) h =
        let (replied, after) = put-Leads m e json s encoded h in
        ap₂ ◌∷◌ (ap put_answer replied) (answers-refines calls (Memory.put e m) _ written after)
    answers-refines (getting d ∷ calls) m s written h =
        let (replied, after) = read_entry-Leads m d s h in
        ap₂ ◌∷◌ replied (answers-refines calls m _ written after)
