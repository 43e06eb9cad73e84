-- ===== src/Durable/Scan.antt =====
-- The programs that list the keys: a listing heals what it reads, and a prune removes settled
-- entries. Both keep the store safe, and so does every history of operations.
use sui_effect.Prelude.{
  ℕ, Bool, true, false, Option, none, some, List, [], ◌∷◌, ◌≡◌, refl, arith, Text, filter, length,
  if◌then◌else◌,
}
use sui_effect.Schemas.{Digest}
use sui_effect.Journal.{JournalEntry, is_unresolved, digest_of, success, failure}
use sui_effect.Kv.{KeyValueStore, Program, Reply, pure, and_then, ◌>>=◌, ◌>>◌, for_each}
use sui_effect.Kv.Run.{
  Fate, served, lost, landed, replied, wrote, run, run-Ensures, Ensures-handle, Ensures-weaken,
}
use sui_effect.Durable.{
  Codec, OnUnresolved, fail, ignore, entry_key, settled_key, kv_remove, read_entry, put, heal,
  heal_settled, read_and_heal, list_keys, split_keys, sort_oldest_first, read_unmarked,
  list_unresolved, prune_one, prunable, somes, prune_settled, refuse_held, layer_key_value_store,
}
use sui_effect.Durable.Safety.{IsSafe, IsSettled, IsSafe-remove_settled, IsSafe-remove_entry}
use sui_effect.Durable.Crash.{Keeps, Any, Found, read_entry-Keeps, heal-Keeps, put-Keeps}

-- What a process asks of its journal, each with the fates of its requests: one that ends early
-- has died and is followed by the operations of the next process.
pub data Operation : Type 0 where
  put_entry : JournalEntry → Operation
  list : Operation
  prune : ℕ → Operation
  open_layer : OnUnresolved → Operation

module _ {S : Type 0} (store : KeyValueStore S) (codec : Codec) where
  abbrev KeepsAll : {A : Type 0} → Program A → Type 0
  KeepsAll p = (s : S) → IsSafe store codec s → Keeps store codec (Any store codec) p s

  bind-KeepsAll :
      {A B : Type 0} (p : Program A) (f : A → Program B)
      → KeepsAll p
      → ((a : A) → KeepsAll (f a))
      → KeepsAll (p >>= f)
  bind-KeepsAll {A} {B} p f hp hf s safe =
      Ensures-handle store (IsSafe store codec) (Any store codec) (Any store codec) p (and_then f) s
        after (hp s safe)
    where
      after :
          (r : Reply A) (t : S)
          → IsSafe store codec t
          → Unit {0}
          → Keeps store codec (Any store codec) (and_then f r) t
      after (success a) t h _ = hf a t h
      after (failure e) t h _ = (h, tt)

  pure-KeepsAll : {A : Type 0} (a : A) → KeepsAll (pure a)
  pure-KeepsAll a s safe = (safe, tt)

  for_each-KeepsAll :
      {A B : Type 0} (f : A → Program B) (xs : List A)
      → ((a : A) → KeepsAll (f a))
      → KeepsAll (for_each f xs)
  unfolding for_each
  for_each-KeepsAll {B} f [] h = pure-KeepsAll {A = List B} []
  for_each-KeepsAll f (x ∷ xs) h = bind-KeepsAll (f x) _ (h x) (λ b.
      bind-KeepsAll (for_each f xs) _ (for_each-KeepsAll f xs h) (λ bs. pure-KeepsAll (b ∷ bs)))

  replied-KeepsAll :
      {A B : Type 0} (f : Fate) (a : A) (g : A → Program B)
      → KeepsAll (g a)
      → KeepsAll (and_then g (replied f a))
  replied-KeepsAll served a g h = h
  replied-KeepsAll lost a g h = λ s safe. (safe, tt)
  replied-KeepsAll landed a g h = λ s safe. (safe, tt)

  list_keys-KeepsAll : KeepsAll list_keys
  unfolding list_keys
  list_keys-KeepsAll s safe = (
    safe,
    λ f. replied-KeepsAll f (store.keys s) _ (pure-KeepsAll (split_keys (store.keys s))) s safe,
  )

  read_entry-KeepsAll : (d : Digest) → KeepsAll (read_entry codec d)
  read_entry-KeepsAll d s safe =
      Ensures-weaken store (IsSafe store codec) (Found store codec d s) (Any store codec)
        (read_entry codec d) s (λ r t q. tt) (read_entry-Keeps store codec d s safe)

  heal_found-Keeps :
      (d : Digest) (e : JournalEntry) (t : Text) (s : S)
      → IsSafe store codec s
      → store.get (entry_key d) s ≡ some t
      → codec.decode t ≡ some e
      → Keeps store codec (Any store codec) (heal_settled codec (some e)) s
  heal_found-Keeps d e t s safe found read = branch (is_unresolved e) refl
    where
      settled : is_unresolved e ≡ false → IsSettled store codec (digest_of e) s
      settled closed t' x found' read' = ground (arith, safe d t e found read)

      branch :
          (b : Bool)
          → is_unresolved e ≡ b
          → Keeps store codec
              (Any store codec)
              (if b then pure (some e) else (do heal codec e; pure (some e)))
              s
      branch true q = (safe, tt)
      branch false q =
          Ensures-handle store (IsSafe store codec) (Any store codec) (Any store codec)
            (heal codec e) _ s (λ r u h _. after r u h)
            (heal-Keeps store codec e s safe (settled q))
        where
          after :
              (r : Reply (Unit {0})) (u : S)
              → IsSafe store codec u
              → Keeps store codec (Any store codec) (and_then (λ (_ : Unit {0}). pure (some e)) r) u
          after (success w) u h = (h, tt)
          after (failure w) u h = (h, tt)

  read_and_heal-KeepsAll : (d : Digest) → KeepsAll (read_and_heal codec d)
  unfolding read_and_heal
  read_and_heal-KeepsAll d s safe =
      Ensures-handle store (IsSafe store codec) (Found store codec d s) (Any store codec)
        (read_entry codec d) _ s after (read_entry-Keeps store codec d s safe)
    where
      after :
          (r : Reply (Option JournalEntry)) (t : S)
          → IsSafe store codec t
          → Found store codec d s r t
          → Keeps store codec (Any store codec) (and_then (heal_settled codec) r) t
      after (failure e) t h q = (h, tt)
      after (success none) t h q = (h, tt)
      after (success (some e)) t h q =
          let (text, found, read) = q.1 e refl in heal_found-Keeps d e text t h (rw q.0 found) read

  read_unmarked-KeepsAll : KeepsAll (read_unmarked codec)
  unfolding read_unmarked
  read_unmarked-KeepsAll = bind-KeepsAll list_keys _ list_keys-KeepsAll (λ l.
      bind-KeepsAll (for_each (read_and_heal codec) _) _
        (for_each-KeepsAll (read_and_heal codec) _ read_and_heal-KeepsAll)
        (λ es. pure-KeepsAll (filter is_unresolved (somes es))))

  list_unresolved-KeepsAll : KeepsAll (list_unresolved codec)
  unfolding list_unresolved
  list_unresolved-KeepsAll =
      bind-KeepsAll (read_unmarked codec) _ read_unmarked-KeepsAll
        (λ es. pure-KeepsAll (sort_oldest_first es))

  remove_settled-KeepsAll : (d : Digest) → KeepsAll (kv_remove (settled_key d))
  remove_settled-KeepsAll d s safe = (safe, after)
    where
      after :
          (f : Fate) → IsSafe store codec (wrote f (store.remove (settled_key d) s) s) × Unit {0}
      after served = (IsSafe-remove_settled store codec d s safe, tt)
      after lost = (safe, tt)
      after landed = (IsSafe-remove_settled store codec d s safe, tt)

  remove_entry-KeepsAll : (d : Digest) → KeepsAll (kv_remove (entry_key d))
  remove_entry-KeepsAll d s safe = (safe, after)
    where
      after : (f : Fate) → IsSafe store codec (wrote f (store.remove (entry_key d) s) s) × Unit {0}
      after served = (IsSafe-remove_entry store codec d s safe, tt)
      after lost = (safe, tt)
      after landed = (IsSafe-remove_entry store codec d s safe, tt)

  prune_settled-KeepsAll : (cutoff : ℕ) → KeepsAll (prune_settled codec cutoff)
  unfolding prune_settled
  prune_settled-KeepsAll cutoff = bind-KeepsAll list_keys _ list_keys-KeepsAll (λ l.
      bind-KeepsAll (for_each (read_entry codec) l.entries) _
        (for_each-KeepsAll (read_entry codec) l.entries read_entry-KeepsAll)
        (λ es. bind-KeepsAll (for_each prune_one _) _ (for_each-KeepsAll prune_one _ prune) (λ _.
          bind-KeepsAll (for_each (λ d. kv_remove (settled_key d)) _) _
            (for_each-KeepsAll (λ d. kv_remove (settled_key d)) _ remove_settled-KeepsAll)
            (λ _. pure-KeepsAll (length (filter (prunable cutoff) (somes es)))))))
    where
      prune : (e : JournalEntry) → KeepsAll (prune_one e)
      prune e =
          bind-KeepsAll (kv_remove (settled_key (digest_of e))) _
            (remove_settled-KeepsAll (digest_of e)) (λ _. remove_entry-KeepsAll (digest_of e))

  refuse_held-KeepsAll :
      (mode : OnUnresolved) (es : List JournalEntry) → KeepsAll (refuse_held mode es)
  refuse_held-KeepsAll ignore es s safe = (safe, tt)
  refuse_held-KeepsAll fail [] s safe = (safe, tt)
  refuse_held-KeepsAll fail (e ∷ es) s safe = (safe, tt)

  layer-KeepsAll : (mode : OnUnresolved) → KeepsAll (layer_key_value_store codec mode)
  unfolding layer_key_value_store
  layer-KeepsAll mode =
      bind-KeepsAll (list_unresolved codec) _ list_unresolved-KeepsAll (refuse_held-KeepsAll mode)

  abbrev pub operate : Operation → List Fate → S → S
  operate (put_entry e) fates s = (run store (put codec e) fates s).1
  operate list fates s = (run store (list_unresolved codec) fates s).1
  operate (prune cutoff) fates s = (run store (prune_settled codec cutoff) fates s).1
  operate (open_layer mode) fates s = (run store (layer_key_value_store codec mode) fates s).1

  unfoldable pub history : List (Operation × List Fate) → S → S
  history [] s = s
  history ((op, fates) ∷ rest) s = history rest (operate op fates s)

  run-IsSafe :
      {A : Type 0} (p : Program A) (fates : List Fate) (s : S)
      → KeepsAll p
      → IsSafe store codec s
      → IsSafe store codec (run store p fates s).1
  run-IsSafe p fates s keeps safe =
      run-Ensures store (IsSafe store codec) (Any store codec) p fates s (keeps s safe)

  operate-IsSafe :
      (op : Operation) (fates : List Fate) (s : S)
      → IsSafe store codec s
      → IsSafe store codec (operate op fates s)
  operate-IsSafe (put_entry e) fates s = run-IsSafe (put codec e) fates s (put-Keeps store codec e)
  operate-IsSafe list fates s = run-IsSafe (list_unresolved codec) fates s list_unresolved-KeepsAll
  operate-IsSafe (prune cutoff) fates s =
      run-IsSafe (prune_settled codec cutoff) fates s (prune_settled-KeepsAll cutoff)
  operate-IsSafe (open_layer mode) fates s =
      run-IsSafe (layer_key_value_store codec mode) fates s (layer-KeepsAll mode)

  -- Start from a safe store, the empty one among them. After any operations of one process after
  -- another, in which any request may fail, with its write made or not, and each operation may stop
  -- before any request, every entry stands under its own digest, and no settled marker stands
  -- beside an unresolved entry, so no listing skips one.
  pub history-IsSafe :
      (ops : List (Operation × List Fate)) (s : S)
      → IsSafe store codec s
      → IsSafe store codec (history ops s)
  unfolding history
  history-IsSafe [] s safe = safe
  history-IsSafe ((op, fates) ∷ rest) s safe =
      history-IsSafe rest (operate op fates s) (operate-IsSafe op fates s safe)
