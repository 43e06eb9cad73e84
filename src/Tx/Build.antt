-- ===== src/Tx/Build.antt =====
-- services/Tx.ts: what `build` reads and answers, and its tests. The draft of the SDK's builder, each attempt to
-- resolve it and the simulation are parameters.
pub mod Window
pub mod Resolving
pub mod Criteria
pub mod Checks
pub mod Refusals
pub mod Reading
pub mod Checked
pub mod Accepted
use sui_effect.Prelude.{
  ℕ, zero, suc, Bool, true, false, Option, none, some, List, [], ◌∷◌, ◌++◌, ◌&&◌, ◌||◌, not, ◌==◌,
  ltb, leb, ◌+◌, ◌≡◌, if◌then◌else◌, is_some, or_else, Text, codes, text_eq,
}
use sui_effect.Schemas.{
  Digest, SuiAddress, Bytes, Expiration, never, epoch, valid_during, validity, ValidDuring,
}
use sui_effect.Journal.{Result, success, failure}
use sui_effect.Moves.{get_or}
use sui_effect.Reads.Results.{then_do}
use sui_effect.Tx.Network.{TransportError, transport, said}
use sui_effect.Tx.Bytes.{
  TransactionData, Sdk, ObjectRef, refs_or_none, is_empty, GasPaymentKind, address_balance,
  coin_reservation, coins, owned_inputs_of, gas_owner_of, gas_payment_kind_of, sui_withdrawals_from,
}

-- A value of the commands: a scalar, or an array or object of values, an object with its `$kind`.
mutual
  pub data Value : Type 0 where
    scalar : Value
    array : Values → Value
    object : Bool → Values → Value

  pub data Values : Type 0 where
    no_values : Values
    and_value : Value → Values → Values

unfoldable mutual
  pub mentions_gas_coin : Value → Bool
  mentions_gas_coin scalar = false
  mentions_gas_coin (array vs) = some_mention vs
  mentions_gas_coin (object is_gas_coin vs) = is_gas_coin || some_mention vs

  pub some_mention : Values → Bool
  some_mention no_values = false
  some_mention (and_value v vs) = mentions_gas_coin v || some_mention vs

pub data ExpirationPolicy : Type 0 where
  policy_valid_during policy_epoch policy_none : ExpirationPolicy

-- The expiration as the SDK's builder takes it: an epoch is a text.
pub data DraftExpiration : Type 0 where
  epoch_text : Text → DraftExpiration
  during : ValidDuring → DraftExpiration

pub data GasPaymentPolicy : Type 0 where
  prefer_address_balance require_address_balance : GasPaymentPolicy

-- The parts of `SubmitConfig` that a build reads; the nonce is what its effect answers.
pub record BuildConfig : Type 0 where
  pub expiration : ExpirationPolicy
  pub max_gas_budget : ℕ
  pub gas_payment : GasPaymentPolicy
  pub valid_for : Option ℕ
  pub nonce : ℕ

-- The expiration as the SDK reads it: its `$kind`, and what `decodeExpiration` answers of it.
pub record SdkExpiration : Type 0 where
  pub kind : Text
  pub decoded : Option Expiration

-- A simulation of some bytes, as far as it is told apart here.
pub record Simulation : Type 0 where
  pub digest : Text

-- The parsed bytes, with the commands and the expiration.
pub record BuiltData : Type 0 where
  pub transaction : TransactionData
  pub commands : Value
  pub expiration : Option SdkExpiration

pub record BuiltGas : Type 0 where
  pub budget : ℕ
  pub price : ℕ
  pub owner : Text
  pub payment : List ObjectRef
  pub source : GasPaymentKind

pub record Built : Type 0 where
  pub digest : Digest
  pub bytes : Bytes
  pub sender : SuiAddress
  pub chain : Text
  pub gas_owner : Option SuiAddress
  pub expiration : Option Expiration
  pub gas : BuiltGas
  pub simulation : Option Simulation

pub data BuildReason : Type 0 where
  recipe_threw rejected_sender rejected_expiration rejected_payment : BuildReason
  session_expired : ℕ → ℕ → BuildReason
  bad_nonce : ℕ → BuildReason
  pays_with_coins gas_coin_from_balance no_epoch_bound : BuildReason
  short_balance : ℕ → ℕ → ℕ → BuildReason
  no_digest no_gas_data : BuildReason
  unreadable_bytes no_sender : BuildReason
  other_chain : Text → BuildReason
  input_unavailable : Text → BuildReason
  zero_gas_unmet : Text → BuildReason
  inputs_not_found : List Text → BuildReason
  node_refused : Text → Text → BuildReason
  sdk_refused : Text → BuildReason

pub data BuildFailure : Type 0 where
  build_error : BuildReason → BuildFailure
  policy_denied : ℕ → ℕ → BuildFailure
  simulation_failed : Text → BuildFailure
  transport_failed : TransportError → BuildFailure

-- An input of a draft.
pub data DraftInput : Type 0 where
  unresolved_object : Text → DraftInput
  unresolved_pure resolved_input : DraftInput

-- What `getData` answers of a draft: whether a price and a budget are there, and the payment's length.
pub record DraftData : Type 0 where
  pub inputs : List DraftInput
  pub has_price : Bool
  pub has_budget : Bool
  pub payment_length : Option ℕ
  pub has_expiration : Bool
  pub commands : Value

-- What stands under a transport failure of the resolver: the library's own class, an `Error` that is
-- no subclass, or anything else, with its message.
pub data ResolverCause : Type 0 where
  zero_gas_not_resolved plain_error other_cause : Text → ResolverCause

-- How one attempt of the SDK's resolution fails.
pub data ResolveFailure : Type 0 where
  lookup_failed simulation_refused : Text → ResolveFailure
  resolver_failed : ResolverCause → TransportError → ResolveFailure

-- What is outside: a draft of the SDK, whose setters and reads throw on `none`; one attempt to resolve
-- it to bytes, which may change it; how often the read policy tries again; and the node's answers, the
-- n-th of a build.
pub record Builder (D : Type 0) : Type 0 where
  pub sdk : Sdk
  pub sui_type : Text
  pub chain_id : Text
  pub data_of_bytes : Bytes → Option BuiltData
  pub to_transaction : Option D
  pub set_sender : SuiAddress → Option SuiAddress → D → Option D
  pub set_expiration : DraftExpiration → D → Option D
  pub set_no_payment : D → Option D
  pub has_expiration : D → Bool
  pub get_data : D → Option DraftData
  pub is_sui_grpc_client : Bool
  pub retries : ℕ
  pub resolve : D → Result ResolveFailure Bytes × D
  pub simulate : Bytes → Result BuildFailure Simulation
  pub current_epoch : ℕ → Result TransportError Text
  pub parse_epoch : Text → Option ℕ
  pub chain_time : Result TransportError ℕ
  pub address_balance_of : SuiAddress → Result TransportError ℕ
  pub digest_of_bytes : Bytes → Option Digest
  pub decode_built_gas : BuiltGas → Option BuiltGas

abbrev pub u32_max : ℕ
u32_max = 4294967295

unfoldable pub try_build : {A : Type 0} → BuildReason → Option A → Result BuildFailure A
try_build reason none = failure (build_error reason)
try_build reason (some a) = success a

unfoldable pub transported : {A : Type 0} → Result TransportError A → Result BuildFailure A
transported (failure e) = failure (transport_failed e)
transported (success a) = success a

unfoldable pub session_open : ℕ → ℕ → Result BuildFailure (Unit {0})
session_open now bound =
    if leb now bound then success tt else failure (build_error (session_expired bound now))

unfoldable pub session_open_if : ℕ → Option ℕ → Result BuildFailure (Unit {0})
session_open_if now none = success tt
session_open_if now (some bound) = session_open now bound

unfoldable pub nonce_of : BuildConfig → Result BuildFailure ℕ
nonce_of config =
    if leb config.nonce u32_max
    then success config.nonce
    else failure (build_error (bad_nonce config.nonce))

-- The last epoch of the window: the next one, or an earlier bound.
unfoldable pub last_epoch : ℕ → Option ℕ → ℕ
last_epoch now none = now + 1
last_epoch now (some bound) = if ltb bound (now + 1) then bound else now + 1

unfoldable pub gas_ceiling : Option ℕ → BuildConfig → Result BuildFailure (Unit {0})
gas_ceiling none config = success tt
gas_ceiling (some budget) config =
    if ltb config.max_gas_budget budget
    then failure (policy_denied budget config.max_gas_budget)
    else success tt

unfoldable pub is_balance : GasPaymentKind → Bool
is_balance address_balance = true
is_balance coin_reservation = false
is_balance coins = false

unfoldable pub is_coins : GasPaymentKind → Bool
is_coins coins = true
is_coins coin_reservation = false
is_coins address_balance = false

unfoldable pub is_required : GasPaymentPolicy → Bool
is_required require_address_balance = true
is_required prefer_address_balance = false

unfoldable pub expiration_of : Option SdkExpiration → Option Expiration
expiration_of none = none
expiration_of (some e) = e.decoded

-- The test of the `$kind` that the bytes carry.
unfoldable pub bounds_epochs : Option SdkExpiration → Bool
bounds_epochs none = false
bounds_epochs (some e) = text_eq e.kind (codes "ValidDuring") || text_eq e.kind (codes "Validity")

unfoldable pub is_none_policy : ExpirationPolicy → Bool
is_none_policy policy_none = true
is_none_policy policy_epoch = false
is_none_policy policy_valid_during = false

unfoldable pub refuse_if : Bool → BuildReason → Result BuildFailure (Unit {0})
refuse_if true reason = failure (build_error reason)
refuse_if false reason = success tt
