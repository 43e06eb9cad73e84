-- ===== src/Reads/Requests.antt =====
-- services/Sui.ts: the ids that a batched read asks for.
use sui_effect.Prelude.{
  ℕ, suc, true, false, List, [], ◌∷◌, ◌++◌, ◌≡◌, refl, sym, ap, subst, length, Text, text_eq,
  text_eq_iff, ◌≤◌, All, In, arith, ◌⊎◌, inl, inr, Bool-cases,
}
use sui_effect.Schemas.{ObjectId}
use sui_effect.Reads.Objects.{Sdk, key_of}
use sui_effect.Reads.Batches.{chunk_size, pages_for, unique_ids, has_key}

abbrev pub concat : {A : Type 0} → List (List A) → List A
concat [] = []
concat (xs ∷ xss) = xs ++ concat xss

module _ (sdk : Sdk) where
  abbrev KeyIn : Text → List ObjectId → Type 0
  KeyIn k ids = (id : ObjectId) × ((key_of sdk id ≡ k) × In id ids)

  -- No two ids have one key.
  abbrev pub Distinct : List ObjectId → Type 0
  Distinct [] = Unit
  Distinct (id ∷ ids) = (¬ KeyIn (key_of sdk id) ids) × Distinct ids

  abbrev pub KeyAmong : Text → List ObjectId → Type 0
  KeyAmong = KeyIn

  KeyIn-cons : (k : Text) (id : ObjectId) (ids : List ObjectId) → KeyIn k ids → KeyIn k (id ∷ ids)
  KeyIn-cons k id ids (i, (e, m)) = (i, (e, inr m))

  has_key-cons :
      (k l : Text) (ls : List Text) → has_key k (l ∷ ls) ≡ true → (k ≡ l) ⊎ (has_key k ls ≡ true)
  unfolding has_key
  has_key-cons k l ls h = elim (Bool-cases (text_eq k l)) [
    | inl y ↦ inl ((text_eq_iff k l).0 y)
    | inr n ↦ inr (ground (arith, n, h))
  ]

  -- Of a key that was not requested before, an id remains; of one that was, none does.
  unique_ids-covers :
      (requested : List Text) (ids : List ObjectId) (id : ObjectId)
      → In id ids
      → (has_key (key_of sdk id) requested ≡ true)
        ⊎ KeyIn (key_of sdk id) (unique_ids sdk requested ids)
  unfolding unique_ids has_key
  unique_ids-covers requested [] id m = absurd m
  unique_ids-covers requested (i ∷ ids) id (inl e) =
      elim (Bool-cases (has_key (key_of sdk i) requested)) [
        | inl y ↦ inl (rw (e) y)
        | inr n ↦ inr (rw (n) (i, (ap (key_of sdk) (sym e), inl refl)))
      ]
  unique_ids-covers requested (i ∷ ids) id (inr m) =
      elim (Bool-cases (has_key (key_of sdk i) requested)) [
        | inl y ↦ rw (y) (unique_ids-covers requested ids id m)
        | inr n ↦ rw (n) (elim (unique_ids-covers (key_of sdk i ∷ requested) ids id m) [
          | inr u ↦
              inr (KeyIn-cons (key_of sdk id) i (unique_ids sdk (key_of sdk i ∷ requested) ids) u)
          | inl y ↦ elim (has_key-cons (key_of sdk id) (key_of sdk i) requested y) [
            | inl e ↦ inr (i, (sym e, inl refl))
            | inr r ↦ inl r
          ]
        ])
      ]

  -- What remains was asked for.
  unique_ids-In :
      (requested : List Text) (ids : List ObjectId) (id : ObjectId)
      → In id (unique_ids sdk requested ids)
      → In id ids × (has_key (key_of sdk id) requested ≡ false)
  unfolding unique_ids has_key
  unique_ids-In requested [] id m = absurd m
  unique_ids-In requested (i ∷ ids) id m =
      ground
        (arith, unique_ids-In requested ids id, unique_ids-In (key_of sdk i ∷ requested) ids id)

  unique_ids-Distinct :
      (requested : List Text) (ids : List ObjectId) → Distinct (unique_ids sdk requested ids)
  unfolding unique_ids has_key
  unique_ids-Distinct requested [] = tt
  unique_ids-Distinct requested (i ∷ ids) = elim (Bool-cases (has_key (key_of sdk i) requested)) [
    | inl y ↦ rw (y) (unique_ids-Distinct requested ids)
    | inr n ↦ rw (n) (fresh, unique_ids-Distinct (key_of sdk i ∷ requested) ids)
  ]
    where
      fresh : ¬ KeyIn (key_of sdk i) (unique_ids sdk (key_of sdk i ∷ requested) ids)
      fresh (u, (e, m)) =
          let (a, b) = unique_ids-In (key_of sdk i ∷ requested) ids u m in
          ground (arith, (text_eq_iff (key_of sdk u) (key_of sdk i)).1 e, b)

  -- The chunks of a list have at most the size that is asked for, and together they are the list.
  pub record Chunking : Type 0 where
    pub small : (n : ℕ) (xs : List ObjectId) → All (λ page. length page ≤ n) (sdk.chunks_of n xs)
    pub whole : (n : ℕ) (xs : List ObjectId) → concat (sdk.chunks_of (suc n) xs) ≡ xs

  pub record Asks (ids : List ObjectId) (pages : List (List ObjectId)) : Type 0 where
    pub small : All (λ page. length page ≤ chunk_size) pages
    pub once : Distinct (concat pages)
    pub asked : (id : ObjectId) → In id (concat pages) → In id ids
    pub covered : (id : ObjectId) → In id ids → KeyIn (key_of sdk id) (concat pages)

  -- When chunks are those of the list, the pages of a batched read have at most fifty ids each, every id
  -- of theirs was requested, no two of them have the same key, and every requested id's key is among theirs.
  pub pages_for-Asks : Chunking → (ids : List ObjectId) → Asks ids (pages_for sdk ids)
  unfolding pages_for has_key
  pages_for-Asks chunking ids = record {
    small = chunking.small chunk_size (unique_ids sdk [] ids);
    once =
        subst Distinct (sym (chunking.whole 49 (unique_ids sdk [] ids)))
          (unique_ids-Distinct [] ids);
    asked = λ id m.
        (unique_ids-In [] ids id (subst (In id) (chunking.whole 49 (unique_ids sdk [] ids)) m)).0;
    covered = λ id m.
        subst (KeyIn (key_of sdk id)) (sym (chunking.whole 49 (unique_ids sdk [] ids)))
          (covers id m);
  }
    where
      covers : (id : ObjectId) → In id ids → KeyIn (key_of sdk id) (unique_ids sdk [] ids)
      covers id m = elim (unique_ids-covers [] ids id m) [ inl y ↦ cc | inr u ↦ u ]
