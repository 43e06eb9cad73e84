-- ===== src/Tx/Bytes.antt =====
-- services/Tx.ts: what is read back out of a transaction's bytes: the object versions they pin, who
-- signs, how gas is paid, and whether the sender lock is kept.
pub mod Pins
pub mod Withdrawals
use sui_effect.Prelude.{
  ℕ, Bool, true, false, Option, none, some, List, [], ◌∷◌, ◌++◌, ◌≡◌, Text, codes, text_eq, length,
  drop, ◌==◌, ◌&&◌, ◌||◌, not, is_some, or_else, if◌then◌else◌, ltb, ◌+◌,
}
use sui_effect.Schemas.{ObjectId, Bytes}

-- `{ objectId, version, digest }` as the SDK writes it: the version is a decimal string.
pub record ObjectRef : Type 0 where
  pub object_id : ObjectId
  pub version : Text
  pub digest : Text

-- Where a `FundsWithdrawal` draws from.
pub data WithdrawFrom : Type 0 where
  sender : WithdrawFrom
  sponsor : WithdrawFrom
  sender_allowance : Text → WithdrawFrom

-- `balance_type` is the coin type; `max_amount` is the reservation, if it is a `MaxAmountU64`.
pub record Withdrawal : Type 0 where
  pub balance_type : Text
  pub withdraw_from : WithdrawFrom
  pub max_amount : Option ℕ

pub data Input : Type 0 where
  imm_or_owned : ObjectRef → Input
  receiving : ObjectRef → Input
  shared : ObjectId → Input
  funds_withdrawal : Withdrawal → Input
  other : Input

-- The part of the SDK's `TransactionDataBuilder` that is read here.
pub record TransactionData : Type 0 where
  pub sender : Option Text
  pub inputs : List Input
  pub gas_owner : Option Text
  pub gas_budget : Option ℕ
  pub gas_price : Option ℕ
  pub payment : Option (List ObjectRef)

-- What the SDK and the schemas of effect do: parsing bytes, base58, addresses and struct tags.
-- `none` stands for a throw or a failed decode.
pub record Sdk : Type 0 where
  pub data_of_bytes : Bytes → Option TransactionData
  pub from_base58 : Text → Option Bytes
  pub normalize_sui_address : Text → Text
  pub normalize_struct_tag : Text → Option Text
  pub decode_version : Text → Option ℕ
  pub decode_object_id : Text → Option ObjectId
  pub decode_digest : Text → Option Text
  pub decode_address : Text → Option Text

pub record PinnedRef : Type 0 where
  pub object_id : ObjectId
  pub version : ℕ

abbrev pub coin_reservation_magic : ℕ
coin_reservation_magic = 0xac

abbrev pub coin_reservation_magic_offset : ℕ
coin_reservation_magic_offset = 12

abbrev pub digest_length : ℕ
digest_length = 32

abbrev pub all_magic : Bytes → Bool
all_magic [] = true
all_magic (b ∷ bs) = (b == coin_reservation_magic) && all_magic bs

-- `payment ?? []`
abbrev pub refs_or_none : Option (List ObjectRef) → List ObjectRef
refs_or_none none = []
refs_or_none (some refs) = refs

abbrev pub is_empty : {A : Type 0} → List A → Bool
is_empty [] = true
is_empty (x ∷ xs) = false

pub data GasPaymentKind : Type 0 where
  address_balance coin_reservation coins : GasPaymentKind

pub data LockSenderPolicy : Type 0 where
  when_pinned always never : LockSenderPolicy

-- What `SubmitConfig.lockSender` may hold: a policy, a boolean from before 0.4.0, or anything else.
pub data LockSetting : Type 0 where
  policy : LockSenderPolicy → LockSetting
  flag : Bool → LockSetting
  unrecognized : LockSetting

unfoldable pub lock_sender_policy_of : LockSetting → LockSenderPolicy
lock_sender_policy_of (policy p) = p
lock_sender_policy_of (flag false) = never
lock_sender_policy_of (flag true) = always
lock_sender_policy_of unrecognized = always

module _ (sdk : Sdk) where
  abbrev pinned : ObjectRef → List PinnedRef → List PinnedRef
  pinned ref rest = elim (sdk.decode_version ref.version) [
    | none ↦ rest
    | some v ↦ record { object_id = ref.object_id; version = v } ∷ rest
  ]

  unfoldable pub owned_inputs_of : List Input → List PinnedRef
  owned_inputs_of [] = []
  owned_inputs_of (imm_or_owned ref ∷ xs) = pinned ref (owned_inputs_of xs)
  owned_inputs_of (receiving ref ∷ xs) = pinned ref (owned_inputs_of xs)
  owned_inputs_of (shared id ∷ xs) = owned_inputs_of xs
  owned_inputs_of (funds_withdrawal w ∷ xs) = owned_inputs_of xs
  owned_inputs_of (other ∷ xs) = owned_inputs_of xs

  unfoldable pub is_coin_reservation_ref : ObjectRef → Bool
  is_coin_reservation_ref ref =
      if text_eq ref.version (codes "0")
      then (elim (sdk.from_base58 ref.digest) [
        | none ↦ false
        | some bytes ↦
            (length bytes == digest_length) && all_magic (drop coin_reservation_magic_offset bytes)
      ])
      else false

  unfoldable pub gas_payment_of : List ObjectRef → List PinnedRef
  gas_payment_of [] = []
  gas_payment_of (ref ∷ refs) =
      let rest = gas_payment_of refs in
      if is_coin_reservation_ref ref then rest else pinned ref rest

  unfoldable pub pinned_refs_of_bytes : Bytes → List PinnedRef
  unfolding owned_inputs_of gas_payment_of
  pinned_refs_of_bytes bytes = elim (sdk.data_of_bytes bytes) [
    | none ↦ []
    | some tx ↦ owned_inputs_of tx.inputs ++ gas_payment_of (refs_or_none tx.payment)
  ]

  -- A string of length 0 names no address.
  abbrev address_part : Option Text → List Text
  address_part none = []
  address_part (some []) = []
  address_part (some (c ∷ cs)) = sdk.normalize_sui_address (c ∷ cs) ∷ []

  unfoldable pub signers_of_bytes : Bytes → List Text
  signers_of_bytes bytes = elim (sdk.data_of_bytes bytes) [
    | none ↦ []
    | some tx ↦ address_part tx.sender ++ address_part tx.gas_owner
  ]

  abbrev named_sender : Option Text → Text → Bool
  named_sender none address = false
  named_sender (some s) address = text_eq (sdk.normalize_sui_address s) address

  abbrev other_owner : TransactionData → Option Text → Option Text
  other_owner tx none = none
  other_owner tx (some []) = none
  other_owner tx (some (c ∷ cs)) =
      let address = sdk.normalize_sui_address (c ∷ cs) in
      if named_sender tx.sender address then none else sdk.decode_address address

  unfoldable pub gas_owner_of : TransactionData → Option Text
  gas_owner_of tx = other_owner tx tx.gas_owner

  abbrev all_reservations : List ObjectRef → Bool
  all_reservations [] = true
  all_reservations (ref ∷ refs) = is_coin_reservation_ref ref && all_reservations refs

  unfoldable pub gas_payment_kind_of : TransactionData → GasPaymentKind
  gas_payment_kind_of tx =
      let payment = refs_or_none tx.payment in
      if is_empty payment
      then address_balance
      else if all_reservations payment
      then coin_reservation
      else coins

  unfoldable pub keeps_sender_lock : Bytes → Bool
  unfolding owned_inputs_of
  keeps_sender_lock bytes = elim (sdk.data_of_bytes bytes) [
    | none ↦ true
    | some tx ↦
        not (is_empty (owned_inputs_of tx.inputs)) || not (is_empty (refs_or_none tx.payment))
  ]

  -- Who pays for a withdrawal: a bad or missing address matches no payer.
  abbrev funder : TransactionData → WithdrawFrom → Option Text
  funder tx (sender_allowance a) = some a
  funder tx sender = tx.sender
  funder tx sponsor = or_else tx.gas_owner tx.sender

  abbrev is_address : Text → Option Text → Bool
  is_address target none = false
  is_address target (some a) = text_eq (sdk.normalize_sui_address a) target

  abbrev is_type : Text → Option Text → Bool
  is_type sui none = false
  is_type sui (some t) = text_eq t sui

  abbrev amount_of : Option ℕ → ℕ
  amount_of none = 0
  amount_of (some n) = n

  abbrev withdrawn : TransactionData → Text → Text → Withdrawal → ℕ
  withdrawn tx target sui w =
      if is_type sui (sdk.normalize_struct_tag w.balance_type)
        && is_address target (funder tx w.withdraw_from)
      then amount_of w.max_amount
      else 0

  -- `sui` is the normalized type of SUI.
  abbrev sum_withdrawals : TransactionData → Text → Text → List Input → ℕ
  sum_withdrawals tx target sui [] = 0
  sum_withdrawals tx target sui (funds_withdrawal w ∷ xs) =
      withdrawn tx target sui w + sum_withdrawals tx target sui xs
  sum_withdrawals tx target sui (imm_or_owned r ∷ xs) = sum_withdrawals tx target sui xs
  sum_withdrawals tx target sui (receiving r ∷ xs) = sum_withdrawals tx target sui xs
  sum_withdrawals tx target sui (shared i ∷ xs) = sum_withdrawals tx target sui xs
  sum_withdrawals tx target sui (other ∷ xs) = sum_withdrawals tx target sui xs

  unfoldable pub sui_withdrawals_from : Text → TransactionData → Text → ℕ
  sui_withdrawals_from sui tx payer =
      sum_withdrawals tx (sdk.normalize_sui_address payer) sui tx.inputs
