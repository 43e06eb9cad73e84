-- ===== src/Tx/Build/Checked.antt =====
-- services/Tx.ts: what the checks that `build` makes of the parsed bytes leave.
use sui_effect.Prelude.{
  ℕ, suc, [], inl, inr, Bool, true, false, Bool-cases, Option, none, some, ◌≡◌, refl, subst, ◌≤◌,
  ◌+◌, arith,
}
use sui_effect.Schemas.{SuiAddress}
use sui_effect.Journal.{Result, success, failure}
use sui_effect.Reads.Results.{then_do, then_do_sound}
use sui_effect.Tx.Network.{TransportError}
use sui_effect.Tx.Bytes.{
  is_empty, owned_inputs_of, gas_payment_kind_of, refs_or_none, sui_withdrawals_from,
}
use sui_effect.Tx.Bytes.Withdrawals.{Withdraws, sui_withdrawals_from-Withdraws}
use sui_effect.Tx.Bytes.Pins.{PinsInput, owned_inputs_of-PinsInput}
use sui_effect.Tx.Build.{
  BuildConfig, BuiltData, BuildReason, Builder, try_build, gas_ceiling, is_balance, refuse_if,
  transported,
}
use sui_effect.Tx.Build.Criteria.{Mentions, Mentions-found, BoundsEpochs, bounds_epochs_sound}
use sui_effect.Tx.Build.Checks.{
  Payment, coins_refused, gas_coin_refused, unbounded_refused, balance_checked, enough_balance,
  required_of, data_checked,
}

-- What holds of the parsed bytes; their gas is paid from an address balance when they name no payment.
pub record Sound {D : Type 0} (builder : Builder D) (config : BuildConfig) (content : BuiltData)
    : Type 0 where
  pub under_ceiling :
      (budget : ℕ) → content.transaction.gas_budget ≡ some budget → budget ≤ config.max_gas_budget
  pub no_gas_coin : refs_or_none content.transaction.payment ≡ [] → Mentions content.commands → ⊥
  pub bounded :
      refs_or_none content.transaction.payment ≡ []
      → (PinsInput builder.sdk content.transaction.inputs → ⊥)
      → BoundsEpochs content.expiration

-- The balance of the payer holds the budget, and what the bytes withdraw from it.
abbrev pub Covers : {D : Type 0} → Builder D → BuiltData → SuiAddress → ℕ → Type 0
Covers builder content payer budget =
    (balance : ℕ) × (withdrawals : ℕ) × (builder.address_balance_of payer ≡ success balance)
    × Withdraws builder.sdk builder.sui_type content.transaction payer content.transaction.inputs
        withdrawals
    × (budget + withdrawals ≤ balance)

refuse_if_sound : (b : Bool) (reason : BuildReason) → refuse_if b reason ≡ success tt → b ≡ false
unfolding refuse_if
refuse_if_sound true reason h = cc
refuse_if_sound false reason h = refl

pub try_build_sound :
    {A : Type 0} (reason : BuildReason) (o : Option A) (a : A)
    → try_build reason o ≡ success a
    → o ≡ some a
unfolding try_build
try_build_sound reason none a h = cc
try_build_sound reason (some b) a h = ground (arith, h)

gas_ceiling_sound :
    (budget : ℕ) (config : BuildConfig)
    → gas_ceiling (some budget) config ≡ success tt
    → budget ≤ config.max_gas_budget
unfolding gas_ceiling
gas_ceiling_sound budget config h = ground (arith, h)

module _ {D : Type 0} (builder : Builder D) (config : BuildConfig) where
  -- A payment that names no object is of the kind that a balance pays.
  balance_kind :
      (content : BuiltData)
      → refs_or_none content.transaction.payment ≡ []
      → is_balance (gas_payment_kind_of builder.sdk content.transaction) ≡ true
  unfolding gas_payment_kind_of is_balance
  balance_kind content h = rw (h) refl

  pub not_true : (b : Bool) → (b ≡ true → ⊥) → b ≡ false
  not_true true h = absurd (h refl)
  not_true false h = refl

  bounded_by :
      (content : BuiltData)
      → unbounded_refused builder config content ≡ false
      → refs_or_none content.transaction.payment ≡ []
      → (PinsInput builder.sdk content.transaction.inputs → ⊥)
      → BoundsEpochs content.expiration
  unfolding unbounded_refused
  bounded_by content h balance unpinned =
      elim (Bool-cases (is_empty (owned_inputs_of builder.sdk content.transaction.inputs))) [
        | inl y ↦
            bounds_epochs_sound content.expiration
              (ground (arith, h, y, balance_kind content balance))
        | inr n ↦
            absurd (unpinned (owned_inputs_of-PinsInput builder.sdk content.transaction.inputs n))
      ]

  uncoined_by :
      (content : BuiltData)
      → gas_coin_refused builder config content ≡ false
      → refs_or_none content.transaction.payment ≡ []
      → Mentions content.commands
      → ⊥
  unfolding gas_coin_refused
  uncoined_by content h balance m =
      ground (arith, h, balance_kind content balance, Mentions-found m)

  enough_by :
      (budget : ℕ) (content : BuiltData) (payer : SuiAddress)
      → balance_checked builder config true (some (suc budget)) content payer ≡ success tt
      → Covers builder content payer (suc budget)
  unfolding balance_checked enough_balance required_of transported refuse_if then_do
  enough_by budget content payer h = go (builder.address_balance_of payer) refl h
    where
      go :
          (r : Result TransportError ℕ)
          → builder.address_balance_of payer ≡ r
          → then_do
              (transported r)
              (λ balance. enough_balance builder config (suc budget) content payer balance)
            ≡ success tt
          → Covers builder content payer (suc budget)
      go (failure e) q k = absurd (ground (arith, k))
      go (success balance) q k = (
        balance,
        sui_withdrawals_from builder.sdk builder.sui_type content.transaction payer,
        q,
        sui_withdrawals_from-Withdraws builder.sdk builder.sui_type content.transaction payer,
        ground (arith, refuse_if_sound _ _ k),
      )

  -- What the checks of the parsed bytes leave.
  pub record Checked (payment : Payment) (payer : SuiAddress) (content : BuiltData) : Type 0 where
    pub sound : Sound builder config content
    pub covered :
        (budget : ℕ)
        → payment.explicitly_empty ≡ true
        → content.transaction.gas_budget ≡ some (suc budget)
        → Covers builder content payer (suc budget)

  pub data_checked-Checked :
      (payment : Payment) (payer : SuiAddress) (content : BuiltData)
      → gas_ceiling content.transaction.gas_budget config ≡ success tt
      → data_checked builder config payment content.transaction.gas_budget payer (some content)
        ≡ success tt
      → Checked payment payer content
  unfolding data_checked
  data_checked-Checked payment payer content ceiling h =
      let (a, (p, h1)) =
        then_do_sound (refuse_if (coins_refused builder config payment content) _) _ tt h in
      let (b, (q, h2)) =
        then_do_sound (refuse_if (gas_coin_refused builder config content) _) _ tt h1 in
      let (c, (r, h3)) =
        then_do_sound (refuse_if (unbounded_refused builder config content) _) _ tt h2 in
      record {
        sound = record {
          under_ceiling = λ budget e.
              gas_ceiling_sound budget config
                (subst (λ o. gas_ceiling o config ≡ success tt) e ceiling);
          no_gas_coin = uncoined_by content (refuse_if_sound _ _ q);
          bounded = bounded_by content (refuse_if_sound _ _ r);
        };
        covered = λ budget empty e. enough_by budget content payer (
            subst (λ o. balance_checked builder config true o content payer ≡ success tt) e
              (subst
                (λ x.
                  balance_checked builder config x content.transaction.gas_budget content payer
                  ≡ success tt)
                empty h3));
      }
