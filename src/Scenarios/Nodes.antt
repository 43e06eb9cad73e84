-- ===== src/Scenarios/Nodes.antt =====
-- A node on which a transaction takes effect at tick 3, and a world to start from.
use sui_effect.Prelude.{ℕ, suc, false, Option, none, some, [], ◌∷◌, Text, codes, ◌-◌}
use sui_effect.Schemas.{Digest, Signed, epoch}
use sui_effect.Journal.{success, signed_entry}
use sui_effect.Journal.Memory.{Entries, make_memory_unsafe}
use sui_effect.Tx.Bytes.{Sdk, imm_or_owned, ObjectRef}
use sui_effect.Tx.Network.{
  Env, Node, World, Executed, TransactionAnswer, found, missing, present, ExecuteAnswer,
  epoch_then_miss,
}

abbrev pub digest : Digest
digest = codes "D1"

abbrev digit : Text → Option ℕ
digit [] = none
digit (c ∷ cs) = some (c - 48)

abbrev pub pin : ObjectRef
pin = record { object_id = codes "0x5"; version = codes "7"; digest = codes "O1" }

abbrev pub sdk : Sdk
sdk = record {
  data_of_bytes = λ bytes. some (record {
    sender = some (codes "0xa");
    inputs = imm_or_owned pin ∷ [];
    gas_owner = none;
    gas_budget = none;
    gas_price = none;
    payment = none;
  });
  from_base58 = λ t. some t;
  normalize_sui_address = λ t. t;
  normalize_struct_tag = λ t. some t;
  decode_version = digit;
  decode_object_id = λ t. some t;
  decode_digest = λ t. some t;
  decode_address = λ t. some t;
}

abbrev pub executed_here : Executed
executed_here = record { digest = digest; checkpoint = some 40; sender = none; effects = none }

abbrev pub served_from : ℕ → TransactionAnswer
served_from (suc (suc (suc t))) = found executed_here
served_from _ = missing

abbrev pub epoch_at : ℕ → ℕ
epoch_at (suc (suc (suc t))) = 10
epoch_at _ = 4

-- No execute is answered in time; the transaction takes effect at tick 3 and is served from then.
abbrev pub node : Node
node = record {
  chain_id = codes "4btiuiMPvEENsttpZC7CZ53DruC3MAgfznDbASZ7DR6S";
  get_transaction = λ d t. served_from t;
  get_object = λ id t. present (some 7) none;
  current_epoch = λ t. success (epoch_at t);
  chain_time = λ t. success t;
  has_ledger = false;
  lowest_available = λ t. success none;
  first_checkpoint = λ n t. success none;
  execute = λ bytes signatures t. ExecuteAnswer.silent;
  clock = λ t. t;
}

abbrev pub env : Env Entries
env = record {
  node = node;
  config = record {
    resubmit_attempts = 2;
    expiry_margin = 0;
    expiry_evidence = epoch_then_miss;
    await_visibility = false;
  };
  sdk = sdk;
  journal = make_memory_unsafe;
  describe = λ e. codes "TransportError";
  describe_unknown = λ e. codes "SubmissionUnknown";
}

abbrev pub signed : Signed
signed = record {
  digest = digest;
  bytes = 1 ∷ 2 ∷ 3 ∷ [];
  signatures = codes "S1" ∷ [];
  sender = codes "0xa";
  gas_owner = none;
  expiration = some (epoch 5);
  chain = none;
}

abbrev pub start : World Entries
start = record { tick = 0; journal = []; trace = [] }

-- The journal of a process that died after it had written `signed`.
abbrev pub restart : World Entries
restart = record { tick = 0; journal = (digest, signed_entry digest signed 0) ∷ []; trace = [] }
