-- ===== src/Reads/Batch.antt =====
-- Every result of a batched read of services/Sui.ts is what the node answered for that id.
use sui_effect.Prelude.{
  ℕ, suc, Option, none, some, List, [], ◌∷◌, ◌≡◌, refl, sym, ◌∙◌, subst, ◌==◌, length, not, Text,
  text_eq, text_eq_iff, ◌≤◌, All, arith, ◌⊎◌, inl, inr,
}
use sui_effect.Schemas.{ObjectId}
use sui_effect.Journal.{Result, success, failure}
use sui_effect.Tx.Network.{TransportError}
use sui_effect.Reads.Results.{
  cons_result_sound, then_do_sound, traverse, Each, traverse-Each, if_cases,
}
use sui_effect.Reads.Objects.{Sdk, ReadOptions, key_of}
use sui_effect.Reads.Batches.{
  BatchEntry, chunk_size, Item, item_for, entry_for, entries_of, page_entries, fetch_page,
  fetch_pages, get_objects, set_page, set_pages, find_answer, answer_or, pages_for, unique_ids,
}

-- The id and the entry stand at the same place of their lists.
abbrev pub Paired : {A B : Type 0} → A → B → List A → List B → Type 0
Paired a b [] ys = ⊥
Paired a b (x ∷ xs) [] = ⊥
Paired a b (x ∷ xs) (y ∷ ys) = ((a ≡ x) × (b ≡ y)) ⊎ Paired a b xs ys

-- Every entry of a map has the property.
abbrev pub Sound : {I : Type 0} → (Text → I → Type 0) → List (Text × I) → Type 0
Sound P entries = All (λ e. P e.0 e.1) entries

pub set_page-Sound :
    {I : Type 0} (P : Text → I → Type 0) (answers entries : List (Text × I))
    → Sound P answers
    → Sound P entries
    → Sound P (set_page answers entries)
unfolding set_page
set_page-Sound P answers [] h k = h
set_page-Sound P answers (e ∷ es) h k = set_page-Sound P (e ∷ answers) es (k.0, h) k.1

pub set_pages-Sound :
    {I : Type 0} (P : Text → I → Type 0) (answers : List (Text × I))
    (pages : List (List (Text × I)))
    → Sound P answers
    → All (Sound P) pages
    → Sound P (set_pages answers pages)
unfolding set_pages
set_pages-Sound P answers [] h k = h
set_pages-Sound P answers (p ∷ ps) h k =
    set_pages-Sound P (set_page answers p) ps (set_page-Sound P answers p h k.0) k.1

pub find_answer-Sound :
    {I : Type 0} (P : Text → I → Type 0) (k : Text) (answers : List (Text × I)) (item : I)
    → Sound P answers
    → find_answer k answers ≡ some item
    → P k item
unfolding find_answer
find_answer-Sound P k [] item h e = cc
find_answer-Sound P k ((l, i) ∷ answers) item h e =
    elim (if_cases (text_eq k l) (some i) (find_answer k answers) (some item) e) [
      | inl (y, f) ↦
          subst (λ x. P x item) (sym ((text_eq_iff k l).0 y)) (subst (P l) (ground (arith, f)) h.0)
      | inr (n, f) ↦ find_answer-Sound P k answers item h.1 f
    ]

answer_or_sound :
    {I : Type 0} (id : ObjectId) (o : Option I) (item : I)
    → answer_or id o ≡ success item
    → o ≡ some item
unfolding answer_or
answer_or_sound id none item h = cc
answer_or_sound id (some i) item h = ground (arith, h)

module _ (sdk : Sdk) {S : Type 0} (opts : ReadOptions S)
    (core_get_objects : ℕ → List ObjectId → Result TransportError (List (Option BatchEntry))) where
  -- The node was asked for a page of at most fifty ids, one of which has the key, it answered with as
  -- many entries, and the item is the one made of the entry at the place of that id.
  pub record AnsweredBy (key : Text) (item : Item sdk opts) : Type 0 where
    pub number : ℕ
    pub page : List ObjectId
    pub objects : List (Option BatchEntry)
    pub asked : ObjectId
    pub entry : Option BatchEntry
    pub small : length page ≤ chunk_size
    pub answered : core_get_objects number page ≡ success objects
    pub same_count : length objects ≡ length page
    pub same_place : Paired asked entry page objects
    pub same_key : key_of sdk asked ≡ key
    pub made : item_for sdk opts asked entry ≡ success item

  entry_for-made :
      (id : ObjectId) (o : Option BatchEntry) (e : Text × Item sdk opts)
      → entry_for sdk opts id o ≡ success e
      → (key_of sdk id ≡ e.0) × (item_for sdk opts id o ≡ success e.1)
  unfolding entry_for
  entry_for-made id o e h =
      let (x, (p, q)) =
        then_do_sound (item_for sdk opts id o) (λ x. success (key_of sdk id, x)) e h in
      (ground (arith, q), p ∙ ground (arith, q))

  entries_of-All :
      (P : Text × Item sdk opts → Type 0) (ids : List ObjectId) (objects : List (Option BatchEntry))
      (es : List (Text × Item sdk opts))
      → ((id : ObjectId) (o : Option BatchEntry) (e : Text × Item sdk opts)
          → Paired id o ids objects
          → entry_for sdk opts id o ≡ success e
          → P e)
      → entries_of sdk opts ids objects ≡ success es
      → All P es
  unfolding entries_of
  entries_of-All P [] objects [] h e = tt
  entries_of-All P [] objects (x ∷ es) h e = cc
  entries_of-All P (id ∷ ids) [] es h e = cc
  entries_of-All P (id ∷ ids) (o ∷ objects) es h e =
      let (x, xs, (p, q, r)) =
        cons_result_sound (entry_for sdk opts id o) (entries_of sdk opts ids objects) es e in
      subst (All P) (sym r) (
        h id o x (inl (refl, refl)) p,
        entries_of-All P ids objects xs (λ a b c m. h a b c (inr m)) q,
      )

  fetch_page-Answered :
      (n : ℕ) (page : List ObjectId) (es : List (Text × Item sdk opts))
      → length page ≤ chunk_size
      → fetch_page sdk opts core_get_objects n page ≡ success es
      → Sound AnsweredBy es
  unfolding fetch_page page_entries
  fetch_page-Answered n page es small h =
      let (objects, (a, b)) =
        then_do_sound (core_get_objects n page) (λ objects. page_entries sdk opts page objects) es
          h in
      elim (if_cases (not (length objects == length page)) (failure _)
        (entries_of sdk opts page objects) (success es) b) [
          | inl (c, d) ↦ cc
          | inr (c, d) ↦
              entries_of-All (λ e. AnsweredBy e.0 e.1) page objects es
                (λ id o e m k.
                  let (same, made) = entry_for-made id o e k in
                  record {
                    number = n;
                    page = page;
                    objects = objects;
                    asked = id;
                    entry = o;
                    small = small;
                    answered = a;
                    same_count = ground arith;
                    same_place = m;
                    same_key = same;
                    made = made;
                  })
                d
        ]

  fetch_pages-Answered :
      (n : ℕ) (pages : List (List ObjectId)) (ess : List (List (Text × Item sdk opts)))
      → All (λ page. length page ≤ chunk_size) pages
      → fetch_pages sdk opts core_get_objects n pages ≡ success ess
      → All (Sound AnsweredBy) ess
  unfolding fetch_pages
  fetch_pages-Answered n [] [] small h = tt
  fetch_pages-Answered n [] (es ∷ ess) small h = cc
  fetch_pages-Answered n (page ∷ pages) ess small h =
      let (x, xs, (p, q, r)) =
        cons_result_sound (fetch_page sdk opts core_get_objects n page)
          (fetch_pages sdk opts core_get_objects (suc n) pages) ess h in
      subst (All (Sound AnsweredBy)) (sym r)
        (fetch_page-Answered n page x small.0 p, fetch_pages-Answered (suc n) pages xs small.1 q)

  -- When chunks have at most the size that is asked for, a batched read that succeeds has one result per
  -- requested id, in their order, and each is made of what the node answered, in a page of at most fifty ids
  -- answered in full, at the place of an id with the same key.
  pub get_objects-Answered :
      ((n : ℕ) (xs : List ObjectId) → All (λ page. length page ≤ n) (sdk.chunks_of n xs))
      → (ids : List ObjectId) (items : List (Item sdk opts))
      → get_objects sdk opts core_get_objects ids ≡ success items
      → Each (λ id item. AnsweredBy (key_of sdk id) item) ids items
  unfolding get_objects pages_for
  get_objects-Answered small ids items h =
      let (pages, (a, b)) =
        then_do_sound (fetch_pages sdk opts core_get_objects 0 (pages_for sdk ids))
          (λ pages.
            traverse (λ id. answer_or id (find_answer (key_of sdk id) (set_pages [] pages))) ids)
          items h in
      traverse-Each (λ id item. AnsweredBy (key_of sdk id) item)
        (λ id. answer_or id (find_answer (key_of sdk id) (set_pages [] pages))) ids items
        (λ id item k.
          find_answer-Sound AnsweredBy (key_of sdk id) (set_pages [] pages) item
            (set_pages-Sound AnsweredBy [] pages tt (
              fetch_pages-Answered 0 (pages_for sdk ids) pages
                (small chunk_size (unique_ids sdk [] ids)) a))
            (answer_or_sound id (find_answer (key_of sdk id) (set_pages [] pages)) item k))
        b
