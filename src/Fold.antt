-- ===== src/Fold.antt =====
-- services/Fold.ts: `planFold` and `fold`. The reads of `Sui` and the SDK's struct tags are parameters.
pub mod Chunks
pub mod Batches
pub mod Funding
pub mod Recipe
use sui_effect.Prelude.{
  ℕ, zero, suc, Bool, true, false, not, Option, none, some, List, [], ◌∷◌, ◌++◌, Text, text_eq,
  codes, ◌+◌, ◌-◌, ◌*◌, min, max, filter, length, take, drop, ltb, leb, map, if◌then◌else◌,
}
use sui_effect.Schemas.{ObjectId, SuiAddress}
use sui_effect.Journal.{Result, success, failure}
use sui_effect.Tx.Network.{TransportError}

-- `Coin` of domain/schemas.ts, as far as it is read here.
pub record Coin : Type 0 where
  pub object_id : ObjectId
  pub version : ℕ
  pub digest : Text
  pub balance : ℕ

pub data FoldGas : Type 0 where
  folded_coins address_balance auto : FoldGas

pub record FoldBatch : Type 0 where
  pub owner : SuiAddress
  pub coin_type : Text
  pub coins : List Coin
  pub amount : ℕ
  pub gas : FoldGas

pub record FoldPlan : Type 0 where
  pub owner : SuiAddress
  pub batches : List FoldBatch
  pub skipped : List Coin

pub record CoinBalance : Type 0 where
  pub coin_type : Text
  pub coin_balance : ℕ

-- What `Sui` and the SDK answer. `sui` is the normalized type of SUI.
pub record Reads : Type 0 where
  pub sui : Text
  pub normalize_struct_tag : Text → Option Text
  pub normalize_coin_type : Text → Text
  pub balances_of : SuiAddress → Result TransportError (List CoinBalance)
  pub coins_of : SuiAddress → Text → Result TransportError (List Coin)
  pub reference_gas_price : Result TransportError ℕ
  pub address_balance_of : SuiAddress → Result TransportError ℕ

abbrev pub max_fold_coins : ℕ
max_fold_coins = 500

abbrev pub max_gas_payment_coins : ℕ
max_gas_payment_coins = 256

abbrev pub fold_budget_units : ℕ → ℕ
fold_budget_units coins = 10000 + 1000 * coins

-- `for (index = 0; index < items.length; index += size)`, where `left` bounds the chunks to come.
unfoldable pub chunk_from : {A : Type 0} → ℕ → ℕ → List A → List (List A)
chunk_from zero size xs = []
chunk_from (suc left) size [] = []
chunk_from (suc left) size (x ∷ xs) = take size (x ∷ xs) ∷ chunk_from left size (drop size (x ∷ xs))

abbrev pub chunk : {A : Type 0} → List A → ℕ → List (List A)
chunk items size = chunk_from (length items) size items

abbrev pub sum_of : List Coin → ℕ
sum_of [] = 0
sum_of (c ∷ cs) = c.balance + sum_of cs

-- The stable sort by balance, largest first: a coin stays before the equal ones that followed it.
unfoldable pub insert_coin : Coin → List Coin → List Coin
insert_coin c [] = c ∷ []
insert_coin c (x ∷ xs) =
    let rest = insert_coin c xs in if ltb c.balance x.balance then x ∷ rest else c ∷ x ∷ xs

unfoldable pub sort_largest_first : List Coin → List Coin
unfolding insert_coin
sort_largest_first [] = []
sort_largest_first (c ∷ cs) = insert_coin c (sort_largest_first cs)

-- The mutable state of the loop.
pub record Planning : Type 0 where
  pub projected : ℕ
  pub batches : List FoldBatch
  pub skipped : List Coin

-- `Math.min(500, Math.max(1, Math.floor(limit ?? 500)))`, for a whole number
abbrev pub per_transaction_of : Option ℕ → ℕ
per_transaction_of none = 500
per_transaction_of (some n) = min max_fold_coins (max 1 n)

abbrev pub batch_of : SuiAddress → Text → List Coin → FoldGas → FoldBatch
batch_of owner coin_type group gas = record {
  owner = owner;
  coin_type = coin_type;
  coins = group;
  amount = sum_of group;
  gas = gas;
}

-- A coin at its version, as `tx.objectRef` takes it; the version is written in decimal there.
pub record CoinRef : Type 0 where
  pub object_id : ObjectId
  pub version : ℕ
  pub digest : Text

pub data Argument : Type 0 where
  gas_coin : Argument
  object_ref : CoinRef → Argument
  pure_address : SuiAddress → Argument

-- What a recipe asks of the transaction builder, in order.
pub data Command : Type 0 where
  set_gas_payment : List CoinRef → Command
  merge_coins : Argument → List Argument → Command
  move_call : Text → List Text → List Argument → Command

-- What `fold` throws.
pub data FoldError : Type 0 where
  no_coins : FoldError
  too_many_coins : ℕ → FoldError
  only_sui : Text → FoldError

abbrev pub ref_of : Coin → CoinRef
ref_of c = record { object_id = c.object_id; version = c.version; digest = c.digest }

abbrev pub merge_into : Argument → List CoinRef → List Command → List Command
merge_into target [] rest = rest
merge_into target (r ∷ rs) rest = merge_coins target (map object_ref (r ∷ rs)) ∷ rest

abbrev pub deposit : FoldBatch → Argument → List Command
deposit batch coin =
    move_call (codes "0x2::coin::send_funds") (batch.coin_type ∷ [])
      (coin ∷ pure_address batch.owner ∷ [])
    ∷ []

abbrev pub deposit_first : FoldBatch → List CoinRef → Result FoldError (List Command)
deposit_first batch [] = failure no_coins
deposit_first batch (r ∷ rs) = success (merge_into (object_ref r) rs (deposit batch (object_ref r)))

abbrev pub and_before : Command → Result FoldError (List Command) → Result FoldError (List Command)
and_before c (success cs) = success (c ∷ cs)
and_before c (failure e) = failure e

module _ (reads : Reads) where
  abbrev pub is_sui : Text → Bool
  is_sui t = elim (reads.normalize_struct_tag t) [ none ↦ false | some s ↦ text_eq s reads.sui ]

  -- One turn of the inner loop. The subtraction never stops at 0: either the amount or the
  -- projected balance covers the estimate.
  unfoldable pub place : SuiAddress → ℕ → Text → List Coin → Planning → Planning
  place owner gas_price coin_type group st =
      let amount = sum_of group in
      let estimate = gas_price * fold_budget_units (length group) in
      if not (is_sui coin_type)
      then record st { batches = st.batches ++ batch_of owner coin_type group auto ∷ [] }
      else if leb estimate amount
      then record {
        projected = st.projected + amount - estimate;
        batches = st.batches ++ batch_of owner coin_type group folded_coins ∷ [];
        skipped = st.skipped;
      }
      else if leb estimate st.projected
      then record {
        projected = st.projected + amount - estimate;
        batches = st.batches ++ batch_of owner coin_type group address_balance ∷ [];
        skipped = st.skipped;
      }
      else record st { skipped = st.skipped ++ group }

  unfoldable pub place_all : SuiAddress → ℕ → Text → List (List Coin) → Planning → Planning
  unfolding place
  place_all owner gas_price t [] st = st
  place_all owner gas_price t (g ∷ gs) st =
      place_all owner gas_price t gs (place owner gas_price t g st)

  unfoldable pub plan_types :
      SuiAddress → ℕ → ℕ → List Text → Planning → Result TransportError Planning
  unfolding place_all sort_largest_first chunk_from
  plan_types owner gas_price size [] st = success st
  plan_types owner gas_price size (t ∷ ts) st = elim (reads.coins_of owner t) [
    | failure e ↦ failure e
    | success coins ↦
        plan_types owner gas_price size ts
          (place_all owner gas_price t (chunk (sort_largest_first coins) size) st)
  ]

  abbrev pub held_types : List CoinBalance → List Text
  held_types [] = []
  held_types (b ∷ bs) =
      let rest = held_types bs in
      if ltb 0 b.coin_balance then reads.normalize_coin_type b.coin_type ∷ rest else rest

  abbrev pub sui_first : List Text → List Text
  sui_first types = filter is_sui types ++ filter (λ t. not (is_sui t)) types

  -- The types to fold, in the order they are read.
  unfoldable pub ordered_types : SuiAddress → Option Text → Result TransportError (List Text)
  ordered_types owner (some t) = success (sui_first (reads.normalize_coin_type t ∷ []))
  ordered_types owner none = elim (reads.balances_of owner) [
    | failure e ↦ failure e
    | success balances ↦ success (sui_first (held_types balances))
  ]

  abbrev pub plan_of : SuiAddress → Result TransportError Planning → Result TransportError FoldPlan
  plan_of owner (failure e) = failure e
  plan_of owner (success st) =
      success (record { owner = owner; batches = st.batches; skipped = st.skipped })

  abbrev pub plan_with :
      SuiAddress
      → ℕ
      → Result TransportError (List Text)
      → Result TransportError ℕ
      → Result TransportError ℕ
      → Result TransportError FoldPlan
  plan_with owner size (failure e) price balance = failure e
  plan_with owner size (success types) (failure e) balance = failure e
  plan_with owner size (success types) (success price) (failure e) = failure e
  plan_with owner size (success types) (success price) (success balance) = plan_of owner (
      plan_types owner price size types
        (record { projected = balance; batches = []; skipped = [] }))

  -- The gas price and the balance are read at once; where both fail, either failure may be the
  -- result, and this is the first.
  unfoldable pub plan_fold : SuiAddress → Option Text → Option ℕ → Result TransportError FoldPlan
  unfolding ordered_types plan_types
  plan_fold owner coin_type limit =
      plan_with owner (per_transaction_of limit) (ordered_types owner coin_type)
        reads.reference_gas_price (reads.address_balance_of owner)

  abbrev pub fold_folded : FoldBatch → List CoinRef → Result FoldError (List Command)
  fold_folded batch refs =
      if is_sui batch.coin_type
      then success (
          set_gas_payment (take max_gas_payment_coins refs)
          ∷ merge_into gas_coin (drop max_gas_payment_coins refs) (deposit batch gas_coin))
      else failure (only_sui batch.coin_type)

  abbrev pub fold_by : FoldGas → FoldBatch → List CoinRef → Result FoldError (List Command)
  fold_by folded_coins batch refs = fold_folded batch refs
  fold_by address_balance batch refs = and_before (set_gas_payment []) (deposit_first batch refs)
  fold_by auto batch refs = deposit_first batch refs

  abbrev pub fold_checked : FoldBatch → List Coin → Result FoldError (List Command)
  fold_checked batch [] = failure no_coins
  fold_checked batch (c ∷ cs) =
      if ltb max_fold_coins (length (c ∷ cs))
      then failure (too_many_coins (length (c ∷ cs)))
      else fold_by batch.gas batch (map ref_of (c ∷ cs))

  unfoldable pub fold : FoldBatch → Result FoldError (List Command)
  fold batch = fold_checked batch batch.coins
