-- ===== src/Tx/Build/Checks.antt =====
-- services/Tx.ts: `build`, from the recipe to the bytes, and what it refuses of them.
use sui_effect.Prelude.{
  ℕ, zero, suc, Bool, true, false, Option, none, some, List, [], ◌∷◌, ◌&&◌, ◌||◌, not, ◌==◌, ltb,
  ◌+◌, if◌then◌else◌, is_some, Text, text_eq,
}
use sui_effect.Schemas.{SuiAddress, Bytes, Expiration}
use sui_effect.Journal.{Result, success, failure}
use sui_effect.Moves.{get_or}
use sui_effect.Reads.Results.{then_do}
use sui_effect.Tx.Bytes.{
  Sdk, ObjectRef, refs_or_none, is_empty, owned_inputs_of, gas_owner_of, gas_payment_kind_of,
  sui_withdrawals_from,
}
use sui_effect.Tx.Build.{
  mentions_gas_coin, BuildConfig, BuiltData, BuiltGas, Built, BuildFailure, build_error,
  rejected_sender, rejected_expiration, rejected_payment, recipe_threw, pays_with_coins,
  gas_coin_from_balance, no_epoch_bound, short_balance, no_digest, no_gas_data, Builder,
  DraftExpiration, try_build, transported, session_open, gas_ceiling, is_balance, is_coins,
  is_required, bounds_epochs, expiration_of, Simulation, is_none_policy, refuse_if,
}
use sui_effect.Tx.Build.Window.{default_expiration, epoch_of}
use sui_effect.Tx.Build.Resolving.{payment_length_of, uses_gas_coin, resolved_by}

-- What the payment of the draft was before it was resolved.
pub record Payment : Type 0 where
  pub is_set : Bool
  pub explicitly_empty : Bool

unfoldable pub is_zero_length : Option ℕ → Bool
is_zero_length none = false
is_zero_length (some n) = n == 0

unfoldable pub normalized_refs : Sdk → List ObjectRef → List ObjectRef
normalized_refs sdk [] = []
normalized_refs sdk (r ∷ refs) =
    record r { object_id = sdk.normalize_sui_address r.object_id } ∷ normalized_refs sdk refs

unfoldable pub budget_of : Option BuiltData → Option ℕ
budget_of none = none
budget_of (some content) = content.transaction.gas_budget

module _ {D : Type 0} (builder : Builder D) (config : BuildConfig) where
  unfoldable pub set_default : Option DraftExpiration → D → Result BuildFailure D
  set_default none draft = success draft
  set_default (some e) draft = try_build rejected_expiration (builder.set_expiration e draft)

  -- A bound is checked again when the expiration is not the default's.
  unfoldable pub session_checked : Bool → Option ℕ → Result BuildFailure (Unit {0})
  session_checked defaulted none = success tt
  session_checked defaulted (some bound) =
      if not defaulted || is_none_policy config.expiration
      then then_do (transported (builder.current_epoch 1))
          (λ text. then_do (transported (epoch_of builder text)) (λ now. session_open now bound))
      else success tt

  unfoldable pub with_default : Bool → Option ℕ → D → Result BuildFailure D
  with_default true bound draft =
      then_do (default_expiration builder config bound) (λ e. set_default e draft)
  with_default false bound draft = success draft

  unfoldable pub pinned_payment : Bool → D → Result BuildFailure D
  pinned_payment true draft = try_build rejected_payment (builder.set_no_payment draft)
  pinned_payment false draft = success draft

  unfoldable pub owner_of_data :
      Option SuiAddress → SuiAddress → Option BuiltData → Option SuiAddress
  owner_of_data asked sender (some content) = gas_owner_of builder.sdk content.transaction
  owner_of_data none sender none = none
  owner_of_data (some owner) sender none =
      if text_eq (builder.sdk.normalize_sui_address owner)
        (builder.sdk.normalize_sui_address sender)
      then none
      else some owner

  unfoldable pub required_of : ℕ → BuiltData → SuiAddress → ℕ
  required_of budget content payer =
      budget + sui_withdrawals_from builder.sdk builder.sui_type content.transaction payer

  unfoldable pub enough_balance : ℕ → BuiltData → SuiAddress → ℕ → Result BuildFailure (Unit {0})
  enough_balance budget content payer balance =
      refuse_if (ltb balance (required_of budget content payer)) (
        short_balance balance budget
          (sui_withdrawals_from builder.sdk builder.sui_type content.transaction payer))

  unfoldable pub balance_checked :
      Bool → Option ℕ → BuiltData → SuiAddress → Result BuildFailure (Unit {0})
  balance_checked true (some (suc n)) content payer =
      then_do (transported (builder.address_balance_of payer))
        (λ balance. enough_balance (suc n) content payer balance)
  balance_checked true (some zero) content payer = success tt
  balance_checked true none content payer = success tt
  balance_checked false budget content payer = success tt

  unfoldable pub coins_refused : Payment → BuiltData → Bool
  coins_refused payment content =
      not payment.is_set
      && is_coins (gas_payment_kind_of builder.sdk content.transaction)
      && is_required config.gas_payment

  unfoldable pub gas_coin_refused : BuiltData → Bool
  gas_coin_refused content =
      is_balance (gas_payment_kind_of builder.sdk content.transaction)
      && mentions_gas_coin content.commands

  unfoldable pub unbounded_refused : BuiltData → Bool
  unbounded_refused content =
      is_balance (gas_payment_kind_of builder.sdk content.transaction)
      && is_empty (owned_inputs_of builder.sdk content.transaction.inputs)
      && not (bounds_epochs content.expiration)

  unfoldable pub data_checked :
      Payment → Option ℕ → SuiAddress → Option BuiltData → Result BuildFailure (Unit {0})
  data_checked payment budget payer none = success tt
  data_checked payment budget payer (some content) =
      then_do (refuse_if (coins_refused payment content) pays_with_coins) (λ a.
        then_do (refuse_if (gas_coin_refused content) gas_coin_from_balance) (λ b.
          then_do (refuse_if (unbounded_refused content) no_epoch_bound)
            (λ c. balance_checked payment.explicitly_empty budget content payer)))

  unfoldable pub gas_from : SuiAddress → BuiltData → Option ℕ → Option ℕ → Option BuiltGas
  gas_from sender content (some budget) (some price) = builder.decode_built_gas (record {
    budget = budget;
    price = price;
    owner = builder.sdk.normalize_sui_address (named_owner content.transaction.gas_owner sender);
    payment = normalized_refs builder.sdk (refs_or_none content.transaction.payment);
    source = gas_payment_kind_of builder.sdk content.transaction;
  })
    where
      named_owner : Option Text → Text → Text
      named_owner none s = s
      named_owner (some []) s = s
      named_owner (some (c ∷ cs)) s = c ∷ cs
  gas_from sender content none price = none
  gas_from sender content (some budget) none = none

  unfoldable pub gas_of_bytes : Option BuiltData → SuiAddress → Result BuildFailure BuiltGas
  gas_of_bytes none sender = failure (build_error no_gas_data)
  gas_of_bytes (some content) sender =
      try_build no_gas_data
        (gas_from sender content content.transaction.gas_budget content.transaction.gas_price)

  unfoldable pub recorded : Option BuiltData → Option Expiration
  recorded none = none
  recorded (some content) = expiration_of content.expiration

  unfoldable pub simulated_once : Bool → Bytes → Result BuildFailure (Option Simulation)
  simulated_once true bytes = success none
  simulated_once false bytes = then_do (builder.simulate bytes) (λ s. success (some s))

  -- From the resolved bytes to what is built.
  unfoldable pub finish_build :
      SuiAddress → Option SuiAddress → Payment → Bytes × Bool → Result BuildFailure Built
  finish_build sender asked payment (bytes, simulated) =
      let content = builder.data_of_bytes bytes in
      let owner = owner_of_data asked sender content in
      then_do (simulated_once simulated bytes) (λ simulation.
        then_do (gas_ceiling (budget_of content) config) (λ b.
          then_do (data_checked payment (budget_of content) (get_or sender owner) content) (λ c.
            then_do (try_build no_digest (builder.digest_of_bytes bytes)) (λ digest.
              then_do (gas_of_bytes content sender) (λ gas. success (record {
                digest = digest;
                bytes = bytes;
                sender = sender;
                chain = builder.chain_id;
                gas_owner = owner;
                expiration = recorded content;
                gas = gas;
                simulation = simulation;
              }))))))

  -- Whether an unset payment is made empty before the SDK resolves it.
  unfoldable pub pinned_by_policy : D → Bool
  pinned_by_policy draft =
      not (is_some (payment_length_of (builder.get_data draft)))
      && is_required config.gas_payment
      && not (uses_gas_coin (builder.get_data draft))

  unfoldable pub resolve_draft : SuiAddress → Option SuiAddress → D → Result BuildFailure Built
  resolve_draft sender asked draft =
      then_do (pinned_payment (pinned_by_policy draft) draft) (λ ready.
        then_do (resolved_by builder ready) (λ resolved.
          finish_build sender asked
            (record {
              is_set = is_some (payment_length_of (builder.get_data draft));
              explicitly_empty =
                  pinned_by_policy draft
                  || is_zero_length (payment_length_of (builder.get_data draft));
            })
            resolved))

  -- From the recipe to a draft with its sender and its expiration.
  unfoldable pub prepare : SuiAddress → Option SuiAddress → Option ℕ → Result BuildFailure D
  prepare sender asked bound = then_do (try_build recipe_threw builder.to_transaction) (λ draft.
      then_do (try_build rejected_sender (builder.set_sender sender asked draft)) (λ named.
        let defaulted = not (builder.has_expiration named) in
        then_do (with_default defaulted bound named) (λ expiring.
          then_do (session_checked defaulted bound) (λ open_session. success expiring))))

  unfoldable pub build : SuiAddress → Option SuiAddress → Option ℕ → Result BuildFailure Built
  build sender asked bound = then_do (prepare sender asked bound) (resolve_draft sender asked)
