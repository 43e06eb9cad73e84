-- ===== src/Fold/Recipe.antt =====
-- The recipe of a planned batch: it throws nothing, and takes every coin of the batch once.
use sui_effect.Prelude.{
  ℕ, zero, suc, Bool, true, false, List, [], ◌∷◌, ◌++◌, ◌≡◌, refl, ap, subst, ◌∙◌, ltb→lt, arith,
  ◌≤◌, take, drop, map, length, ltb, if◌then◌else◌,
}
use sui_effect.Schemas.{SuiAddress}
use sui_effect.Journal.{Result, success, failure}
use sui_effect.Fold.{
  Coin, CoinRef, FoldBatch, FoldGas, Reads, Argument, gas_coin, object_ref, pure_address, Command,
  set_gas_payment, merge_coins, move_call, FoldError, ref_of, fold, fold_checked, auto,
  folded_coins, address_balance, deposit, merge_into, deposit_first, and_before, fold_by,
  too_many_coins, max_gas_payment_coins,
}
use sui_effect.Fold.Batches.{FoldsWell, GasFits}

abbrev pub objects : List Argument → List CoinRef
objects [] = []
objects (gas_coin ∷ xs) = objects xs
objects (object_ref r ∷ xs) = r ∷ objects xs
objects (pure_address a ∷ xs) = objects xs

-- The coins that pay for gas, those merged into another coin, and those passed to a call.
abbrev pub paid : List Command → List CoinRef
paid [] = []
paid (set_gas_payment refs ∷ cs) = refs ++ paid cs
paid (merge_coins target xs ∷ cs) = paid cs
paid (move_call f ts xs ∷ cs) = paid cs

abbrev pub merged : List Command → List CoinRef
merged [] = []
merged (set_gas_payment refs ∷ cs) = merged cs
merged (merge_coins target xs ∷ cs) = objects xs ++ merged cs
merged (move_call f ts xs ∷ cs) = merged cs

abbrev pub deposited : List Command → List CoinRef
deposited [] = []
deposited (set_gas_payment refs ∷ cs) = deposited cs
deposited (merge_coins target xs ∷ cs) = deposited cs
deposited (move_call f ts xs ∷ cs) = objects xs ++ deposited cs

objects-map : (refs : List CoinRef) → objects (map object_ref refs) ++ [] ≡ refs
objects-map [] = refl
objects-map (r ∷ rs) = ap (λ xs. r ∷ xs) (objects-map rs)

take-drop : (n : ℕ) (xs : List CoinRef) → take n xs ++ drop n xs ≡ xs
take-drop zero xs = refl
take-drop (suc n) [] = refl
take-drop (suc n) (x ∷ xs) = ap (λ ys. x ∷ ys) (take-drop n xs)

length-take : (n : ℕ) (xs : List CoinRef) → length (take n xs) ≤ n
length-take zero xs = omega arith
length-take (suc n) [] = omega arith
length-take (suc n) (x ∷ xs) = omega (arith, length-take n xs)

append_nil : (xs : List CoinRef) → xs ++ [] ≡ xs
append_nil [] = refl
append_nil (x ∷ xs) = ap (λ ys. x ∷ ys) (append_nil xs)

-- Commands that take these coins once each, and pay with at most 256 of them.
abbrev pub Takes : List CoinRef → Result FoldError (List Command) → Type 0
Takes refs (success cs) =
    (deposited cs ++ paid cs ++ merged cs ≡ refs) × (length (paid cs) ≤ max_gas_payment_coins)
Takes refs (failure e) = ⊥

folded-Takes :
    (b : FoldBatch) (ts ds : List CoinRef)
    → length ts ≤ 256
    → Takes (ts ++ ds) (success (set_gas_payment ts ∷ merge_into gas_coin ds (deposit b gas_coin)))
folded-Takes b ts [] h = (append_nil (ts ++ []), rw append_nil h)
folded-Takes b ts (d ∷ ds) h = (
  ap (λ xs. xs ++ (objects (map object_ref (d ∷ ds)) ++ [])) (append_nil ts)
      ∙ ap (λ xs. ts ++ xs) (objects-map (d ∷ ds)),
  rw append_nil h,
)

deposit_first-Takes :
    (b : FoldBatch) (r : CoinRef) (rs : List CoinRef) → Takes (r ∷ rs) (deposit_first b (r ∷ rs))
deposit_first-Takes b r [] = (refl, omega arith)
deposit_first-Takes b r (x ∷ xs) = (ap (λ ys. r ∷ ys) (objects-map (x ∷ xs)), omega arith)

address_balance-Takes :
    (b : FoldBatch) (r : CoinRef) (rs : List CoinRef)
    → Takes (r ∷ rs) (and_before (set_gas_payment []) (deposit_first b (r ∷ rs)))
address_balance-Takes b r [] = deposit_first-Takes b r []
address_balance-Takes b r (x ∷ xs) = deposit_first-Takes b r (x ∷ xs)

module _ (reads : Reads) (owner : SuiAddress) (price size : ℕ) where
  fold_by-Takes :
      (b : FoldBatch) (gas : FoldGas) (r : CoinRef) (rs : List CoinRef)
      → GasFits reads owner price b gas
      → Takes (r ∷ rs) (fold_by reads gas b (r ∷ rs))
  fold_by-Takes b folded_coins r rs (q, covered) = rw q (
      subst
        (λ refs. Takes refs (
          success (
            set_gas_payment (take 256 (r ∷ rs))
            ∷ merge_into gas_coin (drop 256 (r ∷ rs)) (deposit b gas_coin))))
        (take-drop 256 (r ∷ rs))
        (folded-Takes b (take 256 (r ∷ rs)) (drop 256 (r ∷ rs)) (length-take 256 (r ∷ rs))))
  fold_by-Takes b address_balance r rs q = address_balance-Takes b r rs
  fold_by-Takes b auto r rs q = deposit_first-Takes b r rs

  -- The recipe of a batch that is planned well, with a limit of at most 500, throws nothing: what
  -- it deposits, pays with and merges are the coins of the batch, once each and in their order,
  -- and the gas payment names at most 256 of them.
  pub fold-Takes :
      (b : FoldBatch)
      → FoldsWell reads owner price size b
      → size ≤ 500
      → Takes (map ref_of b.coins) (fold reads b)
  unfolding fold
  fold-Takes b well le = checked b.coins well.least (omega (arith, well.most))
    where
      checked :
          (cs : List Coin)
          → 1 ≤ length cs
          → length cs ≤ 500
          → Takes (map ref_of cs) (fold_checked reads b cs)
      checked [] lo hi = omega arith
      checked (c ∷ cs) lo hi = small (ltb 500 (length (c ∷ cs))) refl
        where
          small :
              (big : Bool)
              → ltb 500 (length (c ∷ cs)) ≡ big
              → Takes (map ref_of (c ∷ cs)) (
                  if big
                  then failure (too_many_coins (length (c ∷ cs)))
                  else fold_by reads b.gas b (map ref_of (c ∷ cs)))
          small true q = omega (arith, ltb→lt 500 (length (c ∷ cs)) q)
          small false q = fold_by-Takes b b.gas (ref_of c) (map ref_of cs) well.gas
