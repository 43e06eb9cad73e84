-- ===== src/Kv/Run.antt =====
-- Runs of a program against a store. Each request meets a fate; when the fates end, the process
-- has died, and what it wrote stays written.
use sui_effect.Prelude.{Option, none, some, List, [], ◌∷◌, ◌≡◌, refl}
use sui_effect.Journal.{success, failure, store_failed}
use sui_effect.Kv.{KeyValueStore, Program, Reply, done, get, has, set, remove, keys, handle}

-- `served`: the request succeeds. `lost`: it fails and changes nothing. `landed`: it fails, but a
-- write was made.
pub data Fate : Type 0 where
  served lost landed : Fate

abbrev pub replied : {A : Type 0} → Fate → A → Reply A
replied served a = success a
replied lost a = failure store_failed
replied landed a = failure store_failed

abbrev pub wrote : {S : Type 0} → Fate → S → S → S
wrote served new old = new
wrote lost new old = old
wrote landed new old = new

module _ {S : Type 0} (store : KeyValueStore S) where
  -- `none`: the process died before the program ended.
  unfoldable pub run : {A : Type 0} → Program A → List Fate → S → Option (Reply A) × S
  run (done r) fates s = (some r, s)
  run (get k c) [] s = (none, s)
  run (get k c) (f ∷ fates) s = run (c (replied f (store.get k s))) fates s
  run (has k c) [] s = (none, s)
  run (has k c) (f ∷ fates) s = run (c (replied f (store.has k s))) fates s
  run (set k v c) [] s = (none, s)
  run (set k v c) (f ∷ fates) s = run (c (replied f tt)) fates (wrote f (store.set k v s) s)
  run (remove k c) [] s = (none, s)
  run (remove k c) (f ∷ fates) s = run (c (replied f tt)) fates (wrote f (store.remove k s) s)
  run (keys c) [] s = (none, s)
  run (keys c) (f ∷ fates) s = run (c (replied f (store.keys s))) fates s

  -- The run in which every request is served.
  unfoldable pub perform : {A : Type 0} → Program A → S → Reply A × S
  perform (done r) s = (r, s)
  perform (get k c) s = perform (c (success (store.get k s))) s
  perform (has k c) s = perform (c (success (store.has k s))) s
  perform (set k v c) s = perform (c (success tt)) (store.set k v s)
  perform (remove k c) s = perform (c (success tt)) (store.remove k s)
  perform (keys c) s = perform (c (success (store.keys s))) s

  -- `I` holds of the store before each request and at the end, whatever the fates, and `Q` holds of
  -- the answer and the store at the end.
  abbrev pub Ensures : {A : Type 0} → (S → Type 0) → (Reply A → S → Type 0) → Program A → S → Type 0
  Ensures I Q (done r) s = I s × Q r s
  Ensures I Q (get k c) s = I s × ((f : Fate) → Ensures I Q (c (replied f (store.get k s))) s)
  Ensures I Q (has k c) s = I s × ((f : Fate) → Ensures I Q (c (replied f (store.has k s))) s)
  Ensures I Q (set k v c) s =
      I s × ((f : Fate) → Ensures I Q (c (replied f tt)) (wrote f (store.set k v s) s))
  Ensures I Q (remove k c) s =
      I s × ((f : Fate) → Ensures I Q (c (replied f tt)) (wrote f (store.remove k s) s))
  Ensures I Q (keys c) s = I s × ((f : Fate) → Ensures I Q (c (replied f (store.keys s))) s)

  pub run-Ensures :
      {A : Type 0} (I : S → Type 0) (Q : Reply A → S → Type 0) (p : Program A) (fates : List Fate)
      (s : S)
      → Ensures I Q p s
      → I (run p fates s).1
  unfolding run
  run-Ensures I Q (done r) fates s h = h.0
  run-Ensures I Q (get k c) [] s h = h.0
  run-Ensures I Q (get k c) (f ∷ fates) s h =
      run-Ensures I Q (c (replied f (store.get k s))) fates s (h.1 f)
  run-Ensures I Q (has k c) [] s h = h.0
  run-Ensures I Q (has k c) (f ∷ fates) s h =
      run-Ensures I Q (c (replied f (store.has k s))) fates s (h.1 f)
  run-Ensures I Q (set k v c) [] s h = h.0
  run-Ensures I Q (set k v c) (f ∷ fates) s h =
      run-Ensures I Q (c (replied f tt)) fates (wrote f (store.set k v s) s) (h.1 f)
  run-Ensures I Q (remove k c) [] s h = h.0
  run-Ensures I Q (remove k c) (f ∷ fates) s h =
      run-Ensures I Q (c (replied f tt)) fates (wrote f (store.remove k s) s) (h.1 f)
  run-Ensures I Q (keys c) [] s h = h.0
  run-Ensures I Q (keys c) (f ∷ fates) s h =
      run-Ensures I Q (c (replied f (store.keys s))) fates s (h.1 f)

  pub Ensures-handle :
      {A B : Type 0} (I : S → Type 0) (Q : Reply A → S → Type 0) (R : Reply B → S → Type 0)
      (p : Program A) (g : Reply A → Program B) (s : S)
      → ((r : Reply A) (t : S) → I t → Q r t → Ensures I R (g r) t)
      → Ensures I Q p s
      → Ensures I R (handle p g) s
  Ensures-handle I Q R (done r) g s k h = k r s h.0 h.1
  Ensures-handle I Q R (get a c) g s k h =
      (h.0, λ f. Ensures-handle I Q R (c (replied f (store.get a s))) g s k (h.1 f))
  Ensures-handle I Q R (has a c) g s k h =
      (h.0, λ f. Ensures-handle I Q R (c (replied f (store.has a s))) g s k (h.1 f))
  Ensures-handle I Q R (set a v c) g s k h =
      (h.0, λ f. Ensures-handle I Q R (c (replied f tt)) g (wrote f (store.set a v s) s) k (h.1 f))
  Ensures-handle I Q R (remove a c) g s k h =
      (h.0, λ f. Ensures-handle I Q R (c (replied f tt)) g (wrote f (store.remove a s) s) k (h.1 f))
  Ensures-handle I Q R (keys c) g s k h =
      (h.0, λ f. Ensures-handle I Q R (c (replied f (store.keys s))) g s k (h.1 f))

  -- A served run is a run whose answer and end the postcondition describes.
  pub perform-handle :
      {A B : Type 0} (p : Program A) (g : Reply A → Program B) (s : S)
      → perform (handle p g) s ≡ perform (g (perform p s).0) (perform p s).1
  unfolding perform
  perform-handle (done r) g s = refl
  perform-handle (get k c) g s = perform-handle (c (success (store.get k s))) g s
  perform-handle (has k c) g s = perform-handle (c (success (store.has k s))) g s
  perform-handle (set k v c) g s = perform-handle (c (success tt)) g (store.set k v s)
  perform-handle (remove k c) g s = perform-handle (c (success tt)) g (store.remove k s)
  perform-handle (keys c) g s = perform-handle (c (success (store.keys s))) g s

  pub Ensures-weaken :
      {A : Type 0} (I : S → Type 0) (Q R : Reply A → S → Type 0) (p : Program A) (s : S)
      → ((r : Reply A) (t : S) → Q r t → R r t)
      → Ensures I Q p s
      → Ensures I R p s
  Ensures-weaken I Q R (done r) s k h = (h.0, k r s h.1)
  Ensures-weaken I Q R (get a c) s k h =
      (h.0, λ f. Ensures-weaken I Q R (c (replied f (store.get a s))) s k (h.1 f))
  Ensures-weaken I Q R (has a c) s k h =
      (h.0, λ f. Ensures-weaken I Q R (c (replied f (store.has a s))) s k (h.1 f))
  Ensures-weaken I Q R (set a v c) s k h =
      (h.0, λ f. Ensures-weaken I Q R (c (replied f tt)) (wrote f (store.set a v s) s) k (h.1 f))
  Ensures-weaken I Q R (remove a c) s k h =
      (h.0, λ f. Ensures-weaken I Q R (c (replied f tt)) (wrote f (store.remove a s) s) k (h.1 f))
  Ensures-weaken I Q R (keys c) s k h =
      (h.0, λ f. Ensures-weaken I Q R (c (replied f (store.keys s))) s k (h.1 f))
