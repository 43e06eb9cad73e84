-- ===== src/Reads/Honest.antt =====
-- A batched read of services/Sui.ts reads what one read per id would, over a node that answers alike.
use sui_effect.Prelude.{
  ℕ, suc, Option, some, List, [], ◌∷◌, ◌++◌, ◌≡◌, refl, sym, ap, ◌∙◌, map, ==_iff, length, Text,
  text_eq, text_eq_refl, All, In, In-append, arith, ◌⊎◌, inl, inr, Bool-cases,
}
use sui_effect.Schemas.{ObjectId}
use sui_effect.Journal.{Result, success}
use sui_effect.Tx.Network.{TransportError}
use sui_effect.Reads.Results.{cons_result, then_do, traverse}
use sui_effect.Reads.Objects.{Sdk, ReadOptions, key_of}
use sui_effect.Reads.Batches.{
  BatchEntry, Item, item_for, entry_for, entries_of, page_entries, fetch_page, fetch_pages,
  get_objects, set_page, set_pages, find_answer, answer_or, pages_for,
}
use sui_effect.Reads.Batch.{Sound, set_pages-Sound, find_answer-Sound}
use sui_effect.Reads.Requests.{Chunking, Asks, KeyAmong, pages_for-Asks, concat}

module _ {I : Type 0} where
  -- The map has an entry of the key.
  abbrev HasEntry : Text → List (Text × I) → Type 0
  HasEntry k [] = ⊥
  HasEntry k ((l, item) ∷ answers) = (k ≡ l) ⊎ HasEntry k answers

  find_answer-HasEntry :
      (k : Text) (answers : List (Text × I))
      → HasEntry k answers
      → (item : I) × (find_answer k answers ≡ some item)
  unfolding find_answer
  find_answer-HasEntry k [] h = absurd h
  find_answer-HasEntry k ((l, i) ∷ answers) (inl e) = (i, rw (e, text_eq_refl) refl)
  find_answer-HasEntry k ((l, i) ∷ answers) (inr h) = elim (Bool-cases (text_eq k l)) [
    | inl y ↦ (i, rw (y) refl)
    | inr n ↦ rw (n) (find_answer-HasEntry k answers h)
  ]

  set_page-HasEntry :
      (k : Text) (answers entries : List (Text × I))
      → HasEntry k answers ⊎ HasEntry k entries
      → HasEntry k (set_page answers entries)
  unfolding set_page
  set_page-HasEntry k answers [] (inl h) = h
  set_page-HasEntry k answers [] (inr h) = absurd h
  set_page-HasEntry k answers ((l, i) ∷ es) (inl h) =
      set_page-HasEntry k ((l, i) ∷ answers) es (inl (inr h))
  set_page-HasEntry k answers ((l, i) ∷ es) (inr (inl e)) =
      set_page-HasEntry k ((l, i) ∷ answers) es (inl (inl e))
  set_page-HasEntry k answers ((l, i) ∷ es) (inr (inr h)) =
      set_page-HasEntry k ((l, i) ∷ answers) es (inr h)

  set_pages-HasEntry :
      (k : Text) (answers : List (Text × I)) (pages : List (List (Text × I)))
      → HasEntry k answers ⊎ HasEntry k (concat pages)
      → HasEntry k (set_pages answers pages)
  unfolding set_pages
  set_pages-HasEntry k answers [] (inl h) = h
  set_pages-HasEntry k answers [] (inr h) = absurd h
  set_pages-HasEntry k answers (p ∷ ps) (inl h) =
      set_pages-HasEntry k (set_page answers p) ps (inl (set_page-HasEntry k answers p (inl h)))
  set_pages-HasEntry k answers (p ∷ ps) (inr h) = elim (split p h) [
    | inl m ↦
        set_pages-HasEntry k (set_page answers p) ps (inl (set_page-HasEntry k answers p (inr m)))
    | inr m ↦ set_pages-HasEntry k (set_page answers p) ps (inr m)
  ]
    where
      split :
          (p : List (Text × I))
          → HasEntry k (p ++ concat ps)
          → HasEntry k p ⊎ HasEntry k (concat ps)
      split [] h = inr h
      split ((l, i) ∷ p) (inl e) = inl (inl e)
      split ((l, i) ∷ p) (inr h) = ground (arith, split p h)

module _ (sdk : Sdk) {S : Type 0} (opts : ReadOptions S)
    (core_get_objects : ℕ → List ObjectId → Result TransportError (List (Option BatchEntry)))
    (answer : ObjectId → Option BatchEntry) (item : ObjectId → Item sdk opts) where
  -- The node answers every request id by id, and each of its entries is about its id.
  pub record Honest : Type 0 where
    pub answers :
        (n : ℕ) (page : List ObjectId) → core_get_objects n page ≡ success (map answer page)
    pub about : (id : ObjectId) → item_for sdk opts id (answer id) ≡ success (item id)

  abbrev pair : ObjectId → Text × Item sdk opts
  pair id = (key_of sdk id, item id)

  module _ (node : Honest) where
    entries_of-pairs :
        (page : List ObjectId)
        → entries_of sdk opts page (map answer page) ≡ success (map pair page)
    unfolding entries_of entry_for then_do cons_result
    entries_of-pairs [] = refl
    entries_of-pairs (id ∷ ids) = rw (node.about id, entries_of-pairs ids) refl

    length-map : {A B : Type 0} (f : A → B) (xs : List A) → length (map f xs) ≡ length xs
    length-map f [] = refl
    length-map f (x ∷ xs) = omega (arith, length-map f xs)

    fetch_page-pairs :
        (n : ℕ) (page : List ObjectId)
        → fetch_page sdk opts core_get_objects n page ≡ success (map pair page)
    unfolding fetch_page page_entries then_do
    fetch_page-pairs n page =
        rw
          (node.answers n page, length-map answer page, (==_iff (length page) (length page)).1 refl)
          (entries_of-pairs page)

    fetch_pages-pairs :
        (n : ℕ) (pages : List (List ObjectId))
        → fetch_pages sdk opts core_get_objects n pages ≡ success (map (map pair) pages)
    unfolding fetch_pages cons_result
    fetch_pages-pairs n [] = refl
    fetch_pages-pairs n (page ∷ pages) =
        rw (fetch_page-pairs n page, fetch_pages-pairs (suc n) pages) refl

    HasEntry-pairs :
        (k : Text) (pages : List (List ObjectId))
        → KeyAmong sdk k (concat pages)
        → HasEntry k (concat (map (map pair) pages))
    HasEntry-pairs k pages (u, (e, m)) = go pages m
      where
        here :
            (page : List ObjectId) (others : List (Text × Item sdk opts))
            → In u page
            → HasEntry k (map pair page ++ others)
        here [] others m = absurd m
        here (x ∷ page) others (inl h) = inl (sym e ∙ ap (key_of sdk) h)
        here (x ∷ page) others (inr h) = inr (here page others h)

        there :
            (page : List ObjectId) (others : List (Text × Item sdk opts))
            → HasEntry k others
            → HasEntry k (map pair page ++ others)
        there [] others h = h
        there (x ∷ page) others h = inr (there page others h)

        go :
            (pages : List (List ObjectId))
            → In u (concat pages)
            → HasEntry k (concat (map (map pair) pages))
        go [] h = absurd h
        go (page ∷ pages) h = elim ((In-append page (concat pages) u).0 h) [
          | inl x ↦ here page (concat (map (map pair) pages)) x
          | inr x ↦ there page (concat (map (map pair) pages)) (go pages x)
        ]

    -- An entry of the map is the item of a requested id with its key.
    abbrev Read : List ObjectId → Text → Item sdk opts → Type 0
    Read ids k it = (u : ObjectId) × (In u ids × ((key_of sdk u ≡ k) × (it ≡ item u)))

    Read-pairs :
        (ids : List ObjectId) (pages : List (List ObjectId))
        → ((u : ObjectId) → In u (concat pages) → In u ids)
        → All (Sound (Read ids)) (map (map pair) pages)
    Read-pairs ids [] h = tt
    Read-pairs ids (page ∷ pages) h = (
      go page (λ u m. h u ((In-append page (concat pages) u).1 (inl m))),
      Read-pairs ids pages (λ u m. h u ((In-append page (concat pages) u).1 (inr m))),
    )
      where
        go :
            (xs : List ObjectId)
            → ((u : ObjectId) → In u xs → In u ids)
            → Sound (Read ids) (map pair xs)
        go [] k = tt
        go (x ∷ xs) k = ((x, (k x (inl refl), (refl, refl))), go xs (λ u m. k u (inr m)))

    traverse-success :
        {A B : Type 0} (f : A → Result TransportError B) (g : A → B) (xs : List A)
        → ((x : A) → In x xs → f x ≡ success (g x))
        → traverse f xs ≡ success (map g xs)
    unfolding traverse cons_result
    traverse-success f g [] h = refl
    traverse-success f g (x ∷ xs) h =
        rw (h x (inl refl), traverse-success f g xs (λ y m. h y (inr m))) refl

    -- Over a node that answers every request id by id, with an entry about each, and when requested ids with
    -- the same key have the same item, the batched read is the list of the items that the requested ids have,
    -- one by one: chunks, repeated ids and their order are not seen.
    pub get_objects-one_by_one :
        Chunking sdk
        → (ids : List ObjectId)
        → ((a b : ObjectId) → In a ids → In b ids → key_of sdk a ≡ key_of sdk b → item a ≡ item b)
        → get_objects sdk opts core_get_objects ids ≡ success (map item ids)
    unfolding get_objects then_do answer_or
    get_objects-one_by_one chunking ids alike =
        rw (fetch_pages-pairs 0 (pages_for sdk ids))
          (traverse-success (λ id. answer_or id (find_answer (key_of sdk id) answers)) item ids one)
      where
        answers : List (Text × Item sdk opts)
        answers = set_pages [] (map (map pair) (pages_for sdk ids))

        asks : Asks sdk ids (pages_for sdk ids)
        asks = pages_for-Asks sdk chunking ids

        one :
            (id : ObjectId)
            → In id ids
            → answer_or id (find_answer (key_of sdk id) answers) ≡ success (item id)
        one id m =
            let (it, e) = find_answer-HasEntry (key_of sdk id) answers (
              set_pages-HasEntry (key_of sdk id) [] (map (map pair) (pages_for sdk ids))
                (inr (HasEntry-pairs (key_of sdk id) (pages_for sdk ids) (asks.covered id m)))) in
            let (u, (n, (k, i))) =
              find_answer-Sound (Read ids) (key_of sdk id) answers it
                (set_pages-Sound (Read ids) [] (map (map pair) (pages_for sdk ids)) tt
                  (Read-pairs ids (pages_for sdk ids) asks.asked))
                e in
            rw (e) (ap success (i ∙ alike u id n m k))
