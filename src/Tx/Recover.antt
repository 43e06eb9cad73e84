-- ===== src/Tx/Recover.antt =====
-- services/Tx.ts: `recover`, `reconcile` without its journal write, and what they share.
pub mod Reads
pub mod ReadOnly
pub mod Outcome
pub mod Soundness
pub mod Consumers
use sui_effect.Prelude.{
  or_else, ℕ, Bool, true, false, Option, none, some, List, [], ◌∷◌, ◌≡◌, Text, codes, text_eq,
  if◌then◌else◌,
}
use sui_effect.Schemas.{Digest, Signed, expired, input_consumed, chain_of_signed}
use sui_effect.Journal.{Result, success, failure}
use sui_effect.Tx.Network.{
  Env, World, Eff, Failure, transport_error, execution_failed, not_applied, submission_unknown,
  journal_error, TransportError, transport, Cause, answered_for_another, other_chain,
  digest_unknown_no_bytes, applied_not_served, input_moved, nothing_proves, window_closed_but,
  read_failed, Pruned, Executed, ExecutionFailed, SubmissionUnknown, NotApplied, TransactionAnswer,
  found, failed, missing, epoch_then_miss, never, ExpiryEvidence, pure, raise, handle, and_then,
  ask, ◌>>=◌, ◌>>◌,
}
use sui_effect.Tx.Evidence.{
  InputEvidence, no_evidence, consumed_by_other, applied_by_us, unreadable, History, covered,
  unreported, pruned, input_evidence, expiry_closed, history_of,
}

-- `ReconcileInput`
pub data ReconcileInput : Type 0 where
  by_digest : Digest → ReconcileInput
  by_signed : Signed → ReconcileInput
  by_unknown : SubmissionUnknown → ReconcileInput

-- `inputOf`, in its two fields
unfoldable pub digest_of_input : ReconcileInput → Digest
digest_of_input (by_digest d) = d
digest_of_input (by_signed s) = s.digest
digest_of_input (by_unknown u) = u.digest

unfoldable pub signed_of_input : ReconcileInput → Option Signed
signed_of_input (by_digest d) = none
signed_of_input (by_signed s) = some s
signed_of_input (by_unknown u) = u.signed

abbrev pub unknown : Digest → Option Signed → Cause → Failure
unknown digest signed why =
    submission_unknown (record { digest = digest; signed = signed; cause = why })

abbrev pub answered_for : Text → Digest → Digest → Failure
answered_for method answered digest =
    transport_error (transport method false none (answered_for_another answered digest))

-- `withSender`
-- The sender of the bytes, where the answer does not carry one.
abbrev pub with_sender : Option Signed → Executed → Executed
with_sender none e = e
with_sender (some s) e = record e { sender = or_else e.sender (some s.sender) }

-- The ordered, repeated expiry rule, as far as it goes: it found the transaction, it did not
-- observe a closed window and a miss twice, or it did.
pub data ExpiryRule : Type 0 where
  landed : Executed → ExpiryRule
  open_window : ExpiryRule
  closed_window : ExpiryRule

module _ {J : Type 0} (env : Env J) where
  open env use {node, config}

  abbrev pub lookup_answer : Digest → TransactionAnswer → Eff J (Option Executed)
  lookup_answer digest (found e) =
      if text_eq e.digest digest
      then pure (some e)
      else raise (answered_for (codes "getTransaction") e.digest digest)
  lookup_answer digest (failed e) =
      if text_eq e.digest digest
      then raise (execution_failed e)
      else raise (answered_for (codes "getTransaction") e.digest digest)
  lookup_answer digest missing = pure none
  lookup_answer digest (TransactionAnswer.unreachable e) = raise (transport_error e)

  -- One `getTransaction`, with "the node does not know it" as a value.
  unfoldable pub lookup : Digest → Eff J (Option Executed)
  lookup digest = do answer ← ask (node.get_transaction digest); lookup_answer digest answer

  -- What a lookup finds ends the recovery; otherwise it goes on.
  abbrev pub or_continue : {A : Type 0} → (Executed → Eff J A) → Eff J A → Option Executed → Eff J A
  or_continue stop go (some e) = stop e
  or_continue stop go none = go

  abbrev pub third_lookup : Digest → Eff J ExpiryRule
  third_lookup digest = do
    third ← lookup digest
    or_continue (λ e. pure (landed e)) (pure closed_window) third

  abbrev pub second_round : Digest → Signed → Eff J ExpiryRule
  second_round digest signed = do
    ask (λ _. tt)  -- `Effect.sleep(config.reconcileRecheck)`
    closed ← expiry_closed env signed
    if closed then third_lookup digest else pure open_window

  abbrev pub first_round : Digest → Signed → Eff J ExpiryRule
  first_round digest signed = do
    closed ← expiry_closed env signed
    if closed
        then (do
          second ← lookup digest
          or_continue (λ e. pure (landed e)) (second_round digest signed) second)
        else pure open_window

  -- Closed, then missing, then, after a delay, closed and missing again.
  unfoldable pub expiry_rule : Digest → Signed → ExpiryEvidence → Eff J ExpiryRule
  unfolding lookup
  expiry_rule digest signed never = pure open_window
  expiry_rule digest signed epoch_then_miss = first_round digest signed

  -- The transaction applied, whatever the lookups said: ask once more for the receipt.
  abbrev pub ask_again : Digest → Signed → Cause → Eff J Executed
  ask_again digest signed why = do
    again ← lookup digest
    or_continue pure (raise (unknown digest (some signed) why)) again

  abbrev pub conclude : Digest → Signed → InputEvidence → Option Pruned → Eff J Executed
  conclude digest signed (applied_by_us id) pruning =
      raise (unknown digest (some signed) (applied_not_served id false))
  conclude digest signed (consumed_by_other id by) pruning =
      raise (not_applied (record { digest = digest; evidence = input_consumed }))
  conclude digest signed (unreadable id why) pruning =
      raise (unknown digest (some signed) (input_moved id why pruning))
  conclude digest signed no_evidence none = raise (unknown digest (some signed) nothing_proves)
  conclude digest signed no_evidence (some p) =
      raise (unknown digest (some signed) (window_closed_but p))

  abbrev pub conclude_expired : Digest → Signed → InputEvidence → History → Eff J Executed
  conclude_expired digest signed evidence (pruned p) = conclude digest signed evidence (some p)
  conclude_expired digest signed _ covered =
      raise (not_applied (record { digest = digest; evidence = expired }))
  conclude_expired digest signed _ unreported =
      raise (not_applied (record { digest = digest; evidence = expired }))

  -- Positive evidence is read before a closed window may conclude anything.
  abbrev pub weigh : Digest → Signed → Bool → InputEvidence → Eff J Executed
  weigh digest signed closed (applied_by_us id) =
      ask_again digest signed (applied_not_served id closed)
  weigh digest signed true evidence = do
    history ← history_of env signed
    conclude_expired digest signed evidence history
  weigh digest signed false evidence = conclude digest signed evidence none

  abbrev pub after_rule : Digest → Signed → ExpiryRule → Eff J Executed
  after_rule digest signed (landed e) = pure e
  after_rule digest signed open_window = do
    evidence ← input_evidence env digest signed
    weigh digest signed false evidence
  after_rule digest signed closed_window = do
    evidence ← input_evidence env digest signed
    weigh digest signed true evidence

  abbrev pub after_first : Digest → Option Signed → Eff J Executed
  after_first digest none = raise (unknown digest none digest_unknown_no_bytes)
  after_first digest (some signed) = do
    rule ← expiry_rule digest signed config.expiry_evidence
    after_rule digest signed rule

  -- Bytes built for another chain are not asked about at all.
  abbrev pub foreign_chain : Option Text → Option Text
  foreign_chain none = none
  foreign_chain (some chain) = if text_eq chain node.chain_id then none else some chain

  abbrev pub chain_guard : Option Signed → Option Text
  chain_guard none = none
  chain_guard (some signed) = foreign_chain (chain_of_signed signed)

  unfoldable pub recover : Digest → Option Signed → Eff J Executed
  unfolding lookup chain_of_signed
  recover digest signed = elim (chain_guard signed) [
    | some chain ↦ raise (unknown digest signed (other_chain chain node.chain_id))
    | none ↦ (do first ← lookup digest; or_continue pure (after_first digest signed) first)
  ]

  -- No `TransportError` escapes: a read that fails says nothing about the transaction.
  abbrev pub settle_read : Digest → Option Signed → Result Failure Executed → Eff J Executed
  settle_read digest signed (success e) = pure (with_sender signed e)
  settle_read digest signed (failure (transport_error e)) =
      raise (unknown digest signed (read_failed e))
  settle_read digest signed (failure (execution_failed e)) = raise (execution_failed e)
  settle_read digest signed (failure (not_applied e)) = raise (not_applied e)
  settle_read digest signed (failure (submission_unknown e)) = raise (submission_unknown e)
  settle_read digest signed (failure (journal_error e)) = raise (journal_error e)

  unfoldable pub reconcile_unjournaled : ReconcileInput → Eff J Executed
  unfolding digest_of_input signed_of_input
  reconcile_unjournaled input =
      handle (recover (digest_of_input input) (signed_of_input input))
        (settle_read (digest_of_input input) (signed_of_input input))
