-- ===== src/Journal/Memory.antt =====
-- services/Journal.ts: `makeMemoryUnsafe`, a journal over a `Map`, which keeps insertion order.
use sui_effect.Prelude.{
  Bool, Option, none, some, List, [], ◌∷◌, ◌++◌, ◌≡◌, refl, arith, text_eq, text_eq_iff, filter,
  if◌then◌else◌, not,
}
use sui_effect.Schemas.{Digest}
use sui_effect.Journal.Entry.{JournalEntry, JournalService, success, digest_of, is_unresolved}

abbrev pub Entries : Type 0
Entries = List (Digest × JournalEntry)

-- `Map.get`, `Map.delete` and `Map.set`
unfoldable pub lookup : Digest → Entries → Option JournalEntry
lookup d [] = none
lookup d ((k, e) ∷ m) = if text_eq k d then some e else lookup d m

pub delete : Digest → Entries → Entries
delete d [] = []
delete d ((k, e) ∷ m) = let rest = delete d m in if text_eq k d then rest else (k, e) ∷ rest

pub assign : Digest → JournalEntry → Entries → Entries
assign d x [] = (d, x) ∷ []
assign d x ((k, e) ∷ m) = if text_eq k d then (k, x) ∷ m else (k, e) ∷ assign d x m

-- `entries.delete(entry.digest); entries.set(entry.digest, entry)`: the entry moves to the end.
unfoldable pub put : JournalEntry → Entries → Entries
unfolding lookup delete assign
put e m = assign (digest_of e) e (delete (digest_of e) m)

abbrev values : Entries → List JournalEntry
values [] = []
values ((k, e) ∷ m) = e ∷ values m

unfoldable pub list_unresolved : Entries → List JournalEntry
list_unresolved m = filter is_unresolved (values m)

unfoldable pub make_memory_unsafe : JournalService Entries
make_memory_unsafe = record {
  put = λ e m. (success tt, put e m);
  get = λ d m. (success (lookup d m), m);
  list_unresolved = λ m. (success (list_unresolved m), m);
}

lookup-delete :
    (d k : Digest) (m : Entries)
    → lookup k (delete d m) ≡ (if text_eq d k then none else lookup k m)
unfolding lookup delete
lookup-delete d k [] = ground arith
lookup-delete d k ((j, e) ∷ m) =
    ground (arith, lookup-delete d k m, text_eq_iff j d, text_eq_iff j k, text_eq_iff d k)

lookup-assign :
    (d k : Digest) (x : JournalEntry) (m : Entries)
    → lookup k (assign d x m) ≡ (if text_eq d k then some x else lookup k m)
unfolding lookup assign
lookup-assign d k x [] = refl
lookup-assign d k x ((j, e) ∷ m) =
    ground (arith, lookup-assign d k x m, text_eq_iff j d, text_eq_iff j k, text_eq_iff d k)

-- A digest answers with what was last put under it, and no other digest is touched.
pub lookup-put :
    (e : JournalEntry) (k : Digest) (m : Entries)
    → lookup k (put e m) ≡ (if text_eq (digest_of e) k then some e else lookup k m)
unfolding put
lookup-put e k m = ground (
  arith,
  lookup-assign (digest_of e) k e (delete (digest_of e) m),
  lookup-delete (digest_of e) k m,
)

assign-delete :
    (d : Digest) (x : JournalEntry) (m : Entries)
    → assign d x (delete d m) ≡ delete d m ++ (d, x) ∷ []
unfolding assign delete
assign-delete d x [] = refl
assign-delete d x ((j, e) ∷ m) = ground (arith, assign-delete d x m)

-- The entries under their own digests, which `put` maintains.
abbrev pub OwnKeys : Entries → Type 0
OwnKeys [] = Unit
OwnKeys ((k, e) ∷ m) = (k ≡ digest_of e) × OwnKeys m

abbrev pub others : Digest → JournalEntry → Bool
others d e = not (text_eq (digest_of e) d)

list-delete :
    (d : Digest) (m : Entries)
    → OwnKeys m
    → list_unresolved (delete d m) ≡ filter (others d) (list_unresolved m)
unfolding list_unresolved delete
list-delete d [] h = refl
list-delete d ((k, e) ∷ m) h = ground (arith, list-delete d m h.1)

list-append : (m n : Entries) → list_unresolved (m ++ n) ≡ list_unresolved m ++ list_unresolved n
unfolding list_unresolved
list-append [] n = refl
list-append ((k, e) ∷ m) n = ground (arith, list-append m n)

list-single :
    (e : JournalEntry)
    → list_unresolved ((digest_of e, e) ∷ []) ≡ (if is_unresolved e then e ∷ [] else [])
unfolding list_unresolved
list-single e = refl

-- Where every entry stands under its own digest: a listing after a put holds the entries of the
-- other digests in their order, then the new entry, if it is unresolved, at the end.
pub list_unresolved-put :
    (e : JournalEntry) (m : Entries)
    → OwnKeys m
    → list_unresolved (put e m)
      ≡ filter (others (digest_of e)) (list_unresolved m)
        ++ (if is_unresolved e then e ∷ [] else [])
unfolding put
list_unresolved-put e m h =
    rw (assign-delete, list-append, list-delete (digest_of e) m h, list-single) refl

OwnKeys-delete : (d : Digest) (m : Entries) → OwnKeys m → OwnKeys (delete d m)
unfolding delete
OwnKeys-delete d [] h = tt
OwnKeys-delete d ((k, e) ∷ m) h = ground (arith, OwnKeys-delete d m h.1)

OwnKeys-assign : (e : JournalEntry) (m : Entries) → OwnKeys m → OwnKeys (assign (digest_of e) e m)
unfolding assign
OwnKeys-assign e [] h = (refl, tt)
OwnKeys-assign e ((k, x) ∷ m) h =
    ground (arith, OwnKeys-assign e m h.1, text_eq_iff k (digest_of e))

pub OwnKeys-put : (e : JournalEntry) (m : Entries) → OwnKeys m → OwnKeys (put e m)
unfolding put
OwnKeys-put e m h = OwnKeys-assign e _ (OwnKeys-delete (digest_of e) m h)
