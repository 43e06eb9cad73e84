-- ===== src/Scenarios/Folds.antt =====
-- An owner with four SUI coins and one of another type, and the plan that folds them.
use sui_effect.Prelude.{
  ℕ, none, some, List, [], ◌∷◌, ◌≡◌, refl, Text, codes, text_eq, arith, map, if◌then◌else◌,
}
use sui_effect.Journal.{Result, success, failure}
use sui_effect.Tx.Network.{TransportError}
use sui_effect.Fold.{
  Coin, FoldBatch, FoldPlan, FoldGas, address_balance, auto, Reads, folded_coins, ref_of, plan_fold,
  fold, batch_of,
}
use sui_effect.Fold.Batches.{FoldsWell, Folds, plan_fold-Folds}
use sui_effect.Fold.Funding.{Pays, plan_fold-Pays}
use sui_effect.Fold.Recipe.{Takes, fold-Takes}

abbrev coin : Text → ℕ → Coin
coin id n = record { object_id = id; version = 3; digest = codes "O"; balance = n }

abbrev sui : Text
sui = codes "0x2::sui::SUI"

abbrev usdc : Text
usdc = codes "0x5::usdc::USDC"

abbrev coins_of : Text → List Coin
coins_of t =
    if text_eq t sui
    then coin (codes "0x1") 50
      ∷ coin (codes "0x2") 20000
      ∷ coin (codes "0x3") 100
      ∷ coin (codes "0x4") 9000
      ∷ []
    else coin (codes "0x9") 6 ∷ []

abbrev reads : Reads
reads = record {
  sui = sui;
  normalize_struct_tag = λ t. some t;
  normalize_coin_type = λ t. t;
  balances_of = λ owner. success (
      record { coin_type = usdc; coin_balance = 6 }
      ∷ record { coin_type = sui; coin_balance = 29150 }
      ∷ []);
  coins_of = λ owner t. success (coins_of t);
  reference_gas_price = success 1;
  address_balance_of = λ owner. success 0;
}

abbrev owner : Text
owner = codes "0xa"

plan_fold-Folds_example : Folds reads owner none (some 2) (plan_fold reads owner none (some 2))
plan_fold-Folds_example = plan_fold-Folds reads owner none (some 2)

plan_fold-Pays_example : Pays reads owner (plan_fold reads owner none (some 2))
plan_fold-Pays_example = plan_fold-Pays reads owner none (some 2)

abbrev plan_gas : Result TransportError FoldPlan → List FoldGas
plan_gas (success plan) = map (λ b. b.gas) plan.batches
plan_gas (failure e) = []

-- The first batch pays for itself, the second from what the first leaves.
gas_kinds :
    plan_gas (plan_fold reads owner none (some 2)) ≡ folded_coins ∷ address_balance ∷ auto ∷ []
unfolding plan_fold text_eq
gas_kinds = refl

abbrev first_batch : FoldBatch
first_batch =
    batch_of owner sui (coin (codes "0x2") 20000 ∷ coin (codes "0x4") 9000 ∷ []) folded_coins

first_batch-FoldsWell : FoldsWell reads owner 1 2 first_batch
unfolding text_eq
first_batch-FoldsWell = record {
  least = omega arith;
  most = omega arith;
  total = refl;
  own = refl;
  gas = (refl, omega arith);
}

fold-Takes_example : Takes (map ref_of first_batch.coins) (fold reads first_batch)
fold-Takes_example = fold-Takes reads owner 1 2 first_batch first_batch-FoldsWell (omega arith)
