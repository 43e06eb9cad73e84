-- ===== src/Tx/Bytes/Withdrawals.antt =====
-- services/Tx.ts: what the inputs of a transaction withdraw from the SUI balance of its payer.
use sui_effect.Prelude.{
  ℕ, Bool, true, Option, none, some, List, [], ◌∷◌, ◌≡◌, refl, ap, ◌∙◌, ◌⊎◌, inl, inr, ◌+◌, ◌&&◌,
  Bool-cases, or_else, Text, text_eq_iff, arith,
}
use sui_effect.Tx.Bytes.{
  Sdk, TransactionData, Withdrawal, WithdrawFrom, sender, sponsor, sender_allowance, Input,
  imm_or_owned, receiving, shared, funds_withdrawal, other, funder, is_address, is_type, amount_of,
  sum_withdrawals, sui_withdrawals_from,
}

-- Whose balance a withdrawal draws from: the sender's, the gas owner's or else the sender's, or the
-- address of an allowance.
abbrev pub Funder : TransactionData → WithdrawFrom → Text → Type 0
Funder tx sender a = tx.sender ≡ some a
Funder tx sponsor a = (tx.gas_owner ≡ some a) ⊎ ((tx.gas_owner ≡ none) × (tx.sender ≡ some a))
Funder tx (sender_allowance b) a = b ≡ a

funder_sound :
    (sdk : Sdk) (tx : TransactionData) (f : WithdrawFrom) (a : Text)
    → funder sdk tx f ≡ some a
    → Funder tx f a
funder_sound sdk tx sender a h = h
funder_sound sdk tx sponsor a h = go tx.gas_owner refl h
  where
    go :
        (o : Option Text)
        → tx.gas_owner ≡ o
        → or_else o tx.sender ≡ some a
        → (tx.gas_owner ≡ some a) ⊎ ((tx.gas_owner ≡ none) × (tx.sender ≡ some a))
    go none e k = inr (e, k)
    go (some b) e k = inl (e ∙ k)
funder_sound sdk tx (sender_allowance b) a h = ground (arith, h)

funder_complete :
    (sdk : Sdk) (tx : TransactionData) (f : WithdrawFrom) (a : Text)
    → Funder tx f a
    → funder sdk tx f ≡ some a
funder_complete sdk tx sender a h = h
funder_complete sdk tx sponsor a (inl e) = rw (e) refl
funder_complete sdk tx sponsor a (inr (e, k)) = rw (e) k
funder_complete sdk tx (sender_allowance b) a h = ap some h

module _ (sdk : Sdk) (sui : Text) (tx : TransactionData) (payer : Text) where
  -- A withdrawal of SUI from the payer's balance.
  abbrev pub IsPayers : Withdrawal → Type 0
  IsPayers w =
      (sdk.normalize_struct_tag w.balance_type ≡ some sui)
      × ((a : Text) × Funder tx w.withdraw_from a
          × (sdk.normalize_sui_address a ≡ sdk.normalize_sui_address payer))

  -- What the inputs withdraw from it.
  pub data Withdraws : List Input → ℕ → Type 0 where
    nothing_left : Withdraws [] 0
    no_withdrawal :
        {x : Input} {xs : List Input} {n : ℕ}
        → ((w : Withdrawal) → x ≡ funds_withdrawal w → ⊥)
        → Withdraws xs n
        → Withdraws (x ∷ xs) n
    of_other :
        {w : Withdrawal} {xs : List Input} {n : ℕ}
        → (IsPayers w → ⊥)
        → Withdraws xs n
        → Withdraws (funds_withdrawal w ∷ xs) (0 + n)
    of_payer :
        {w : Withdrawal} {xs : List Input} {n : ℕ}
        → IsPayers w
        → Withdraws xs n
        → Withdraws (funds_withdrawal w ∷ xs) (amount_of sdk w.max_amount + n)

  is_type_sound : (o : Option Text) → is_type sdk sui o ≡ true → o ≡ some sui
  is_type_sound none h = absurd (ground (arith, h))
  is_type_sound (some t) h = ap some ((text_eq_iff t sui).0 h)

  is_address_sound :
      (o : Option Text)
      → is_address sdk (sdk.normalize_sui_address payer) o ≡ true
      → (a : Text) × (o ≡ some a) × (sdk.normalize_sui_address a ≡ sdk.normalize_sui_address payer)
  is_address_sound none h = absurd (ground (arith, h))
  is_address_sound (some a) h =
      (a, refl, (text_eq_iff (sdk.normalize_sui_address a) (sdk.normalize_sui_address payer)).0 h)

  abbrev is_payers : Withdrawal → Bool
  is_payers w =
      is_type sdk sui (sdk.normalize_struct_tag w.balance_type)
      && is_address sdk (sdk.normalize_sui_address payer) (funder sdk tx w.withdraw_from)

  is_payers-IsPayers : (w : Withdrawal) → is_payers w ≡ true → IsPayers w
  is_payers-IsPayers w h =
      let (a, e, k) = is_address_sound (funder sdk tx w.withdraw_from) (ground (arith, h)) in
      (
        is_type_sound (sdk.normalize_struct_tag w.balance_type) (ground (arith, h)),
        (a, funder_sound sdk tx w.withdraw_from a e, k),
      )

  IsPayers-is_payers : (w : Withdrawal) → IsPayers w → is_payers w ≡ true
  IsPayers-is_payers w (t, (a, f, k)) =
      rw
        (
          t,
          funder_complete sdk tx w.withdraw_from a f,
          (text_eq_iff sui sui).1 refl,
          (text_eq_iff (sdk.normalize_sui_address a) (sdk.normalize_sui_address payer)).1 k,
        )
        refl

  sum_withdrawals-Withdraws :
      (xs : List Input)
      → Withdraws xs (sum_withdrawals sdk tx (sdk.normalize_sui_address payer) sui xs)
  sum_withdrawals-Withdraws [] = nothing_left
  sum_withdrawals-Withdraws (imm_or_owned r ∷ xs) =
      no_withdrawal (λ w e. cc) (sum_withdrawals-Withdraws xs)
  sum_withdrawals-Withdraws (receiving r ∷ xs) =
      no_withdrawal (λ w e. cc) (sum_withdrawals-Withdraws xs)
  sum_withdrawals-Withdraws (shared i ∷ xs) =
      no_withdrawal (λ w e. cc) (sum_withdrawals-Withdraws xs)
  sum_withdrawals-Withdraws (other ∷ xs) = no_withdrawal (λ w e. cc) (sum_withdrawals-Withdraws xs)
  sum_withdrawals-Withdraws (funds_withdrawal w ∷ xs) = elim (Bool-cases (is_payers w)) [
    | inl y ↦ rw (y) (of_payer (is_payers-IsPayers w y) (sum_withdrawals-Withdraws xs))
    | inr n ↦
        rw (n)
          (of_other (λ k. ground (arith, n, IsPayers-is_payers w k)) (sum_withdrawals-Withdraws xs))
  ]

  pub sui_withdrawals_from-Withdraws : Withdraws tx.inputs (sui_withdrawals_from sdk sui tx payer)
  unfolding sui_withdrawals_from
  sui_withdrawals_from-Withdraws = sum_withdrawals-Withdraws tx.inputs
