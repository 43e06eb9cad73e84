-- ===== src/Kv.antt =====
-- `KeyValueStore` of effect/persistence, which the repository only calls: its operations and the
-- documented behaviour of a map, as a record; and the programs that call it, one request at a time.
pub mod Run
use sui_effect.Prelude.{
  Bool, true, Option, none, some, List, [], ◌∷◌, ◌≡◌, ◌↔◌, Text, text_eq, is_some, In,
  if◌then◌else◌,
}
use sui_effect.Journal.{Result, success, failure, JournalError}

pub record KeyValueStore (S : Type 0) : Type 0 where
  pub get : Text → S → Option Text
  pub has : Text → S → Bool
  pub set : Text → Text → S → S
  pub remove : Text → S → S
  pub keys : S → List Text
  pub has_get : (k : Text) (s : S) → has k s ≡ is_some (get k s)
  pub get_set :
      (k j v : Text) (s : S) → get j (set k v s) ≡ (if text_eq k j then some v else get j s)
  pub get_remove :
      (k j : Text) (s : S) → get j (remove k s) ≡ (if text_eq k j then none else get j s)
  pub in_keys : (k : Text) (s : S) → In k (keys s) ↔ (is_some (get k s) ≡ true)

-- What the store answers to one request: the value, or that the request failed.
abbrev pub Reply : Type 0 → Type 0
Reply A = Result JournalError A

pub data Program (A : Type 0) : Type 0 where
  done : Reply A → Program A
  get : Text → (Reply (Option Text) → Program A) → Program A
  has : Text → (Reply Bool → Program A) → Program A
  set : Text → Text → (Reply (Unit {0}) → Program A) → Program A
  remove : Text → (Reply (Unit {0}) → Program A) → Program A
  keys : (Reply (List Text) → Program A) → Program A

-- `Effect.succeed`
abbrev pub pure : {A : Type 0} → A → Program A
pure a = done (success a)

-- The rest of the program sees the failure too, as after `Effect.result`.
abbrev pub handle : {A B : Type 0} → Program A → (Reply A → Program B) → Program B
handle (done r) f = f r
handle (get k c) f = get k (λ r. handle (c r) f)
handle (has k c) f = has k (λ r. handle (c r) f)
handle (set k v c) f = set k v (λ r. handle (c r) f)
handle (remove k c) f = remove k (λ r. handle (c r) f)
handle (keys c) f = keys (λ r. handle (c r) f)

abbrev pub and_then : {A B : Type 0} → (A → Program B) → Reply A → Program B
and_then f (success a) = f a
and_then f (failure e) = done (failure e)

infixl 5 ◌>>=◌ ◌>>◌
abbrev pub ◌>>=◌ : {A B : Type 0} → Program A → (A → Program B) → Program B
m >>= f = handle m (and_then f)

abbrev pub ◌>>◌ : {B : Type 0} → Program (Unit {0}) → Program B → Program B
m >> n = m >>= λ _. n

-- `Effect.forEach`, in the order of the list.
unfoldable pub for_each : {A B : Type 0} → (A → Program B) → List A → Program (List B)
for_each f [] = pure []
for_each f (x ∷ xs) = do b ← f x; bs ← for_each f xs; pure (b ∷ bs)
