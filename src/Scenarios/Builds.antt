-- ===== src/Scenarios/Builds.antt =====
-- A transfer that pays from an address balance, built and signed.
use sui_effect.Prelude.{
  ℕ, sym, ap, subst, Text, true, false, ◌==◌, if◌then◌else◌, none, some, [], ◌∷◌, ◌≡◌, refl, codes,
  text_eq,
}
use sui_effect.Schemas.{chain_of, SuiAddress, ValidDuring, valid_during}
use sui_effect.Journal.{success}
use sui_effect.Tx.Bytes.{
  Sdk, TransactionData, address_balance, gas_owner_of, gas_payment_kind_of, is_coin_reservation_ref,
  owned_inputs_of, signers_of_bytes, sui_withdrawals_from,
}
use sui_effect.Tx.Build.{
  BuildConfig, BuiltData, Built, Builder, other_cause, scalar, policy_valid_during,
  require_address_balance, during, bounds_epochs, expiration_of, gas_ceiling, is_balance, is_coins,
  is_none_policy, is_required, last_epoch, mentions_gas_coin, nonce_of, refuse_if, session_open,
  session_open_if, transported, try_build,
}
use sui_effect.Tx.Build.Window.{
  Window, epoch_window, default_expiration, default_expiration-Window, default_for, epoch_from,
  epoch_of, max_timestamp_of, open_at, valid_during_of,
}
use sui_effect.Tx.Build.Checks.{
  build, prepare, pinned_by_policy, balance_checked, budget_of, coins_refused, data_checked,
  enough_balance, finish_build, gas_coin_refused, gas_from, gas_of_bytes, is_zero_length,
  owner_of_data, pinned_payment, recorded, required_of, resolve_draft, session_checked, set_default,
  simulated_once, unbounded_refused, with_default, normalized_refs,
}
use sui_effect.Tx.Build.Resolving.{
  resolver_error, resolved_by, resolve_from, attempt_of, with_simulated, is_retryable, resolution,
  sdk_simulates, will_resolve, some_unresolved, payment_open, lacks_budget,
  unresolved_object_ids_of, object_ids, payment_length_of, uses_gas_coin,
}
use sui_effect.Tx.Build.Reading.{sender_named, from_bytes, from_bytes-build}
use sui_effect.Tx.Build.Refusals.{Kept, resolver_error-Kept}
use sui_effect.Tx.Network.{transport, no_answer_in_time}
use sui_effect.Tx.Build.Accepted.{Accepted, build-Accepted}
use sui_effect.Tx.Signing.{
  Verifier, not_enabled, attach, signed_with, add_signature, attach_decoded, includes_text,
  distinct, signer_allowed,
}
use sui_effect.Tx.Signing.{Signer, assert_signer_address, sign}
use sui_effect.Tx.Signing.Parties.{sign_parties, cosign_required, Complete, sign_parties-Complete}
use sui_effect.Reads.Results.{then_do}
use sui_effect.Moves.{get_or}
use sui_effect.Tx.Signing.Allowed.{Attached, attach-Attached}

abbrev alice : SuiAddress
alice = codes "0xa"

abbrev transaction : TransactionData
transaction = record {
  sender = some alice;
  inputs = [];
  gas_owner = none;
  gas_budget = some 100;
  gas_price = some 1;
  payment = some [];
}

abbrev sdk : Sdk
sdk = record {
  data_of_bytes = λ bytes. some transaction;
  from_base58 = λ t. none;
  normalize_sui_address = λ t. t;
  normalize_struct_tag = λ t. some t;
  decode_version = λ t. none;
  decode_object_id = λ t. some t;
  decode_digest = λ t. some t;
  decode_address = λ t. some t;
}

abbrev config : BuildConfig
config = record {
  expiration = policy_valid_during;
  max_gas_budget = 500;
  gas_payment = require_address_balance;
  valid_for = none;
  nonce = 9;
}

abbrev window_of_seven : ValidDuring
window_of_seven = record {
  min_epoch = some 7;
  max_epoch = some 8;
  min_timestamp = none;
  max_timestamp = none;
  chain = codes "testnet";
  nonce = 9;
}

-- A draft is a number.
abbrev builder : Builder ℕ
builder = record {
  sdk = sdk;
  sui_type = codes "0x2::sui::SUI";
  chain_id = codes "testnet";
  data_of_bytes = λ bytes. some (record {
    transaction = transaction;
    commands = scalar;
    expiration =
        some (record { kind = codes "ValidDuring"; decoded = some (valid_during window_of_seven) });
  });
  to_transaction = some 0;
  set_sender = λ s o d. some d;
  set_expiration = λ e d. some d;
  set_no_payment = λ d. some 1;
  has_expiration = λ d. false;
  get_data = λ d. some (record {
    inputs = [];
    has_price = true;
    has_budget = true;
    payment_length = if d == 1 then some 0 else none;
    has_expiration = true;
    commands = scalar;
  });
  is_sui_grpc_client = false;
  retries = 4;
  resolve = λ d. (success (1 ∷ 2 ∷ []), d);
  simulate = λ bytes. success (record { digest = codes "D" });
  current_epoch = λ n. success (codes "7");
  parse_epoch = λ t. some 7;
  chain_time = success 0;
  address_balance_of = λ a. success 1000;
  digest_of_bytes = λ bytes. some (codes "D");
  decode_built_gas = λ gas. some gas;
}

abbrev built : Built
built = record {
  digest = codes "D";
  bytes = 1 ∷ 2 ∷ [];
  sender = alice;
  chain = codes "testnet";
  gas_owner = none;
  expiration = some (valid_during window_of_seven);
  gas = record { budget = 100; price = 1; owner = alice; payment = []; source = address_balance };
  simulation = some (record { digest = codes "D" });
}

its_window : default_expiration builder config (some 8) ≡ success (some (during window_of_seven))
unfolding then_do try_build transported session_open_if session_open nonce_of is_none_policy
    last_epoch default_for epoch_of epoch_from valid_during_of max_timestamp_of open_at epoch_window
    default_expiration
its_window = refl

its_build : build builder config alice none (some 8) ≡ success built
unfolding then_do try_build transported session_open_if session_open nonce_of is_none_policy
    last_epoch default_for epoch_of epoch_from valid_during_of max_timestamp_of open_at epoch_window
    default_expiration get_or text_eq build with_default set_default session_checked resolve_draft
    balance_checked budget_of coins_refused data_checked enough_balance finish_build
    gas_coin_refused gas_from gas_of_bytes is_zero_length owner_of_data pinned_payment recorded
    required_of simulated_once unbounded_refused bounds_epochs gas_ceiling is_balance is_coins
    is_required mentions_gas_coin refuse_if gas_owner_of gas_payment_kind_of is_coin_reservation_ref
    owned_inputs_of sui_withdrawals_from resolved_by resolution sdk_simulates will_resolve
    some_unresolved payment_open lacks_budget unresolved_object_ids_of object_ids payment_length_of
    uses_gas_coin normalized_refs prepare pinned_by_policy resolve_from attempt_of with_simulated
    is_retryable expiration_of
its_build = refl

abbrev content : BuiltData
content = record {
  transaction = transaction;
  commands = scalar;
  expiration =
      some (record { kind = codes "ValidDuring"; decoded = some (valid_during window_of_seven) });
}

Named : BuiltData → Type 0
unfolding sender_named
Named c =
    (sender_named builder config c.transaction.sender ≡ some alice)
    × ((chain : Text)
        → chain_of (expiration_of c.expiration) ≡ some chain
        → chain ≡ codes "testnet")

its_names : (c : BuiltData) → builder.data_of_bytes built.bytes ≡ some c → Named c
unfolding Named sender_named chain_of get_or expiration_of
its_names c h = subst Named (some_inj h) (refl, λ chain k. sym (some_inj k))
  where
    some_inj : {A : Type 0} {a b : A} → some a ≡ some b → a ≡ b
    some_inj {a = a} e = ap (get_or a) e

from_bytes-build_example :
    from_bytes builder config built.bytes ≡ success (record built { simulation = none })
unfolding Named
from_bytes-build_example =
    from_bytes-build builder config alice none (some 8) built its_build its_names

default_expiration-Window_example : Window builder (some 8) window_of_seven
default_expiration-Window_example =
    default_expiration-Window builder config (some 8) window_of_seven its_window

build-Accepted_example :
    (draft : ℕ) × (prepare builder config alice none (some 8) ≡ success draft)
    × Accepted builder config alice draft built
build-Accepted_example = build-Accepted builder config alice none (some 8) built its_build

-- Every signature is the sender's.
abbrev verifier : Verifier
verifier = record {
  sdk = sdk;
  decode_signature = λ t. some t;
  verify = λ bytes s. success alice;
  read_aliases = λ a. success (not_enabled a);
}

its_signature :
    attach verifier (signed_with built (codes "S")) (codes "T")
    ≡ success (add_signature (signed_with built (codes "S")) (codes "T"))
unfolding attach attach_decoded signer_allowed distinct includes_text then_do signers_of_bytes
    text_eq
its_signature = refl

attach-Attached_example :
    Attached verifier
      (signed_with built (codes "S"))
      (add_signature (signed_with built (codes "S")) (codes "T"))
      (codes "T")
attach-Attached_example =
    attach-Attached verifier (signed_with built (codes "S"))
      (add_signature (signed_with built (codes "S")) (codes "T")) (codes "T") its_signature

-- An unavailable node.
resolver_error-Kept_example :
    Kept
      (other_cause (codes "unavailable"))
      (transport (codes "use") true (some (codes "UNAVAILABLE")) no_answer_in_time)
      (resolver_error
        (other_cause (codes "unavailable"))
        (transport (codes "use") true (some (codes "UNAVAILABLE")) no_answer_in_time)
        [])
resolver_error-Kept_example =
    resolver_error-Kept (other_cause (codes "unavailable"))
      (transport (codes "use") true (some (codes "UNAVAILABLE")) no_answer_in_time) []

abbrev signer : Signer
signer = record { address = alice; sign_transaction = λ bytes. success (codes "S") }

-- Nobody but the sender is named.
all_signed : sign_parties sdk built signer none ≡ success (signed_with built (codes "S"))
unfolding sign_parties sign cosign_required assert_signer_address includes_text then_do
    signers_of_bytes text_eq signed_with
all_signed = refl

sign_parties-Complete_example : Complete sdk built signer none (signed_with built (codes "S"))
sign_parties-Complete_example =
    sign_parties-Complete sdk built signer none (signed_with built (codes "S")) all_signed
