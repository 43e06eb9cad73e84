-- ===== src/Fold/Chunks.antt =====
-- Sorting and chunking keep the coins, and chunks have the allowed sizes.
use sui_effect.Prelude.{
  ℕ, zero, suc, Bool, List, [], ◌∷◌, ◌++◌, ◌≡◌, refl, arith, ◌+◌, ◌≤◌, take, drop, length,
  if◌then◌else◌, All,
}
use sui_effect.Fold.{Coin, FoldBatch, chunk_from, insert_coin, sort_largest_first}

-- How many coins of a list pass a test: two lists that agree on every test hold the same coins.
abbrev pub count : (Coin → Bool) → List Coin → ℕ
count p [] = 0
count p (c ∷ cs) = let rest = count p cs in if p c then suc rest else rest

abbrev pub count_groups : (Coin → Bool) → List (List Coin) → ℕ
count_groups p [] = 0
count_groups p (g ∷ gs) = count p g + count_groups p gs

abbrev pub count_batches : (Coin → Bool) → List FoldBatch → ℕ
count_batches p [] = 0
count_batches p (b ∷ bs) = count p b.coins + count_batches p bs

module _ (p : Coin → Bool) where
  pub count-append : (xs ys : List Coin) → count p (xs ++ ys) ≡ count p xs + count p ys
  count-append [] ys = omega arith
  count-append (x ∷ xs) ys = ground (arith, count-append xs ys)

  pub count_batches-append :
      (xs ys : List FoldBatch)
      → count_batches p (xs ++ ys) ≡ count_batches p xs + count_batches p ys
  count_batches-append [] ys = omega arith
  count_batches-append (x ∷ xs) ys = omega (arith, count_batches-append xs ys)

  count-insert_coin : (c : Coin) (xs : List Coin) → count p (insert_coin c xs) ≡ count p (c ∷ xs)
  unfolding insert_coin
  count-insert_coin c [] = refl
  count-insert_coin c (x ∷ xs) = ground (arith, count-insert_coin c xs)

  pub count-sort_largest_first : (xs : List Coin) → count p (sort_largest_first xs) ≡ count p xs
  unfolding sort_largest_first
  count-sort_largest_first [] = refl
  count-sort_largest_first (x ∷ xs) =
      ground (arith, count-sort_largest_first xs, count-insert_coin x (sort_largest_first xs))

  count-take-drop :
      (n : ℕ) (xs : List Coin) → count p (take n xs) + count p (drop n xs) ≡ count p xs
  count-take-drop zero xs = omega arith
  count-take-drop (suc n) [] = refl
  count-take-drop (suc n) (x ∷ xs) = ground (arith, count-take-drop n xs)

length-drop : (n : ℕ) (xs : List Coin) → length (drop n xs) ≤ length xs
length-drop zero xs = omega arith
length-drop (suc n) [] = omega arith
length-drop (suc n) (x ∷ xs) = omega (arith, length-drop n xs)

length-take : (n : ℕ) (xs : List Coin) → length (take n xs) ≤ n
length-take zero xs = omega arith
length-take (suc n) [] = omega arith
length-take (suc n) (x ∷ xs) = omega (arith, length-take n xs)

-- With as many chunks as there are items, none is left over.
pub count-chunk_from :
    (p : Coin → Bool) (left n : ℕ) (xs : List Coin)
    → length xs ≤ left
    → count_groups p (chunk_from left (suc n) xs) ≡ count p xs
unfolding chunk_from
count-chunk_from p zero n [] h = refl
count-chunk_from p zero n (x ∷ xs) h = omega arith
count-chunk_from p (suc left) n [] h = refl
count-chunk_from p (suc left) n (x ∷ xs) h =
    ground (arith, count-chunk_from p left n (drop n xs), count-take-drop p n xs, length-drop n xs)

abbrev pub Sized : ℕ → List Coin → Type 0
Sized n g = (1 ≤ length g) × (length g ≤ n)

pub chunk_from-Sized :
    (left n : ℕ) (xs : List Coin) → All (Sized (suc n)) (chunk_from left (suc n) xs)
unfolding chunk_from
chunk_from-Sized zero n xs = tt
chunk_from-Sized (suc left) n [] = tt
chunk_from-Sized (suc left) n (x ∷ xs) =
    ((omega arith, omega (arith, length-take n xs)), chunk_from-Sized left n (drop n xs))
