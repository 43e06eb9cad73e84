-- ===== src/Schemas.antt =====
-- domain/schemas.ts: the values of a transaction's lifecycle, and the bounds of its expiration.
use sui_effect.Prelude.{ℕ, Option, none, some, List, Text, or_else}

-- `Digest`, `ObjectId`, `SuiAddress` and `Signature` are branded strings; `Uint8Array` is a list
-- of bytes; a `bigint` that is never negative is a number.
abbrev pub Digest : Type 0
Digest = Text

abbrev pub ObjectId : Type 0
ObjectId = Text

abbrev pub SuiAddress : Type 0
SuiAddress = Text

abbrev pub Bytes : Type 0
Bytes = List ℕ

pub record ValidDuring : Type 0 where
  pub min_epoch : Option ℕ
  pub max_epoch : Option ℕ
  pub min_timestamp : Option ℕ
  pub max_timestamp : Option ℕ
  pub chain : Text
  pub nonce : ℕ

pub record AllowedProposers : Type 0 where
  pub epoch : ℕ
  pub proposers : List ℕ

pub record Validity : Type 0 where
  pub allowed_proposers : Option AllowedProposers
  pub min_epoch : Option ℕ
  pub max_epoch : Option ℕ
  pub min_timestamp : Option ℕ
  pub max_timestamp : Option ℕ
  pub chain : Text
  pub nonce : ℕ

-- `TransactionExpiration`, by its `$kind`.
pub data Expiration : Type 0 where
  never : Expiration
  epoch : ℕ → Expiration
  valid_during : ValidDuring → Expiration
  validity : Validity → Expiration

pub record Signed : Type 0 where
  pub digest : Digest
  pub bytes : Bytes
  pub signatures : List Text
  pub sender : SuiAddress
  pub gas_owner : Option SuiAddress
  pub expiration : Option Expiration
  pub chain : Option Text

pub data Evidence : Type 0 where
  expired input_consumed refused : Evidence

unfoldable pub max_epoch_of : Option Expiration → Option ℕ
max_epoch_of none = none
max_epoch_of (some (epoch n)) = some n
max_epoch_of (some (valid_during v)) = v.max_epoch
max_epoch_of (some (validity v)) = v.max_epoch
max_epoch_of (some never) = none

unfoldable pub max_timestamp_ms_of : Option Expiration → Option ℕ
max_timestamp_ms_of none = none
max_timestamp_ms_of (some (valid_during v)) = v.max_timestamp
max_timestamp_ms_of (some (validity v)) = v.max_timestamp
max_timestamp_ms_of (some never) = none
max_timestamp_ms_of (some (epoch n)) = none

unfoldable pub chain_of : Option Expiration → Option Text
chain_of none = none
chain_of (some (valid_during v)) = some v.chain
chain_of (some (validity v)) = some v.chain
chain_of (some never) = none
chain_of (some (epoch n)) = none

-- services/Tx.ts: `minEpochOf`
unfoldable pub min_epoch_of : Option Expiration → Option ℕ
min_epoch_of none = none
min_epoch_of (some (valid_during v)) = v.min_epoch
min_epoch_of (some (validity v)) = v.min_epoch
min_epoch_of (some never) = none
min_epoch_of (some (epoch n)) = none

-- services/Tx.ts: `chainOfSigned`
unfoldable pub chain_of_signed : Signed → Option Text
unfolding chain_of
chain_of_signed s = or_else (chain_of s.expiration) s.chain
