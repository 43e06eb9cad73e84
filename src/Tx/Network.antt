-- ===== src/Tx/Network.antt =====
-- What the lifecycle of services/Tx.ts works against: the failures, the node, the journal, and the
-- effects that use them.
use sui_effect.Prelude.{ℕ, Bool, Option, List, Text, ◌+◌}
use sui_effect.Schemas.{Digest, ObjectId, SuiAddress, Bytes, Signed, Evidence}
use sui_effect.Journal.{JournalEntry, JournalError, JournalService, Result, success, failure}
use sui_effect.Tx.Bytes.{Sdk}

-- Why an object that moved on proves nothing.
pub data Inconclusive : Type 0 where
  gone : Inconclusive
  no_last_mutation : Inconclusive
  consumed_version_unknown : Text → Inconclusive
  consumed_later : Text → ℕ → ℕ → Inconclusive

-- Why a miss on a node says nothing about the past.
pub data Pruned : Type 0 where
  no_lowest : Pruned
  no_epoch_start : ℕ → Pruned
  pruned_past : ℕ → ℕ → ℕ → Pruned
  epoch_not_served : ℕ → Pruned
  history_unreadable : Pruned

-- The `cause` of a failure: what was said by the node or a service, or one of the library's own
-- sentences, a constructor for each.
mutual
  pub data Cause : Type 0 where
    said : Text → Cause
    no_answer_in_time : Cause
    answer_not_decoded : Cause
    wrong_count : ℕ → ℕ → Cause
    no_entry : ObjectId → Cause
    answered_for_object : ObjectId → ObjectId → Cause
    object_unavailable_cause : ObjectId → Cause
    answered_for_another : Digest → Digest → Cause
    bad_version : ObjectId → Cause
    other_chain : Text → Text → Cause
    digest_unknown_no_bytes : Cause
    applied_not_served : ObjectId → Bool → Cause
    input_moved : ObjectId → Inconclusive → Option Pruned → Cause
    nothing_proves : Cause
    window_closed_but : Pruned → Cause
    no_envelope : Cause
    read_failed : TransportError → Cause
    after_last_send : Cause → Text → Cause

  -- `TransportError`: method, retryable, status, cause.
  pub data TransportError : Type 0 where
    transport : Text → Bool → Option Text → Cause → TransportError

unfoldable pub retryable : TransportError → Bool
retryable (transport m r s c) = r

unfoldable pub status : TransportError → Option Text
status (transport m r s c) = s

unfoldable pub cause : TransportError → Cause
cause (transport m r s c) = c

pub record ChangedObject : Type 0 where
  pub object_id : ObjectId
  pub input_version : Option ℕ

-- `Executed`, with what the lifecycle reads of it.
pub record Executed : Type 0 where
  pub digest : Digest
  pub checkpoint : Option ℕ
  pub sender : Option SuiAddress
  pub effects : Option (List ChangedObject)

pub record ExecutionFailed : Type 0 where
  pub digest : Digest
  pub reason : Text
  pub effects : Option (List ChangedObject)

pub record NotApplied : Type 0 where
  pub digest : Digest
  pub evidence : Evidence

pub record SubmissionUnknown : Type 0 where
  pub digest : Digest
  pub signed : Option Signed
  pub cause : Cause

-- Every failure of the lifecycle; which of them an operation can end in is proved.
pub data Failure : Type 0 where
  transport_error : TransportError → Failure
  execution_failed : ExecutionFailed → Failure
  not_applied : NotApplied → Failure
  submission_unknown : SubmissionUnknown → Failure
  journal_error : JournalError → Failure

pub data TransactionAnswer : Type 0 where
  found : Executed → TransactionAnswer
  failed : ExecutionFailed → TransactionAnswer
  missing : TransactionAnswer
  unreachable : TransportError → TransactionAnswer

-- An object's version, if it is a number, and the transaction that last mutated it.
pub data ObjectAnswer : Type 0 where
  present : Option ℕ → Option Text → ObjectAnswer
  absent : ObjectAnswer
  unreachable : TransportError → ObjectAnswer

pub data ExecuteAnswer : Type 0 where
  executed : Executed → ExecuteAnswer
  aborted : ExecutionFailed → ExecuteAnswer
  undecoded : ExecuteAnswer
  refused : TransportError → ExecuteAnswer
  silent : ExecuteAnswer

pub data LedgerFailure : Type 0 where
  ledger_transport : TransportError → LedgerFailure
  ledger_other : LedgerFailure

-- The node, or the nodes behind one address: each request is answered as of its own tick, and
-- nothing ties the answers of two ticks together.
pub record Node : Type 0 where
  pub chain_id : Text
  pub get_transaction : Digest → ℕ → TransactionAnswer
  pub get_object : ObjectId → ℕ → ObjectAnswer
  pub current_epoch : ℕ → Result TransportError ℕ
  pub chain_time : ℕ → Result TransportError ℕ
  pub has_ledger : Bool
  pub lowest_available : ℕ → Result LedgerFailure (Option ℕ)
  pub first_checkpoint : ℕ → ℕ → Result LedgerFailure (Option ℕ)
  pub execute : Bytes → List Text → ℕ → ExecuteAnswer
  pub clock : ℕ → ℕ

pub data ExpiryEvidence : Type 0 where
  epoch_then_miss never : ExpiryEvidence

-- `SubmitConfig`, with what the lifecycle reads of it; the margin in milliseconds.
pub record Config : Type 0 where
  pub resubmit_attempts : ℕ
  pub expiry_margin : ℕ
  pub expiry_evidence : ExpiryEvidence
  pub await_visibility : Bool

pub record Env (J : Type 0) : Type 0 where
  pub node : Node
  pub config : Config
  pub sdk : Sdk
  pub journal : JournalService J
  -- `SuiError.describe`
  pub describe : TransportError → Text
  pub describe_unknown : SubmissionUnknown → Text

-- What left the process: bytes on the wire, and writes to the journal, with their results.
pub data Event : Type 0 where
  sent : Bytes → List Text → Event
  wrote : JournalEntry → Result JournalError (Unit {0}) → Event

-- `tick` counts requests; `trace` holds the events, the latest first.
pub record World (J : Type 0) : Type 0 where
  pub tick : ℕ
  pub journal : J
  pub trace : List Event

abbrev pub Eff : Type 0 → Type 0 → Type 0
Eff J A = World J → Result Failure A × World J

module _ {J : Type 0} where
  abbrev pub pure : {A : Type 0} → A → Eff J A
  pure a w = (success a, w)

  abbrev pub raise : {A : Type 0} → Failure → Eff J A
  raise e w = (failure e, w)

  -- `Effect.result`: the rest sees the failure too.
  abbrev pub handle : {A B : Type 0} → Eff J A → (Result Failure A → Eff J B) → Eff J B
  handle m f w = let (r, w') = m w in f r w'

  abbrev pub and_then : {A B : Type 0} → (A → Eff J B) → Result Failure A → Eff J B
  and_then f (success a) w = f a w
  and_then f (failure e) w = (failure e, w)

  infixl 5 ◌>>=◌ ◌>>◌
  abbrev pub ◌>>=◌ : {A B : Type 0} → Eff J A → (A → Eff J B) → Eff J B
  ◌>>=◌ m f w = let (r, w') = m w in and_then f r w'

  abbrev pub ◌>>◌ : {A B : Type 0} → Eff J A → Eff J B → Eff J B
  m >> n = m >>= λ _. n

  -- One request, answered as of this tick.
  abbrev pub ask : {A : Type 0} → (ℕ → A) → Eff J A
  ask answer w = (success (answer w.tick), record w { tick = w.tick + 1 })

  abbrev pub from_transport : {A : Type 0} → Result TransportError A → Eff J A
  from_transport (success a) = pure a
  from_transport (failure e) = raise (transport_error e)
