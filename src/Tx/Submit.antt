-- ===== src/Tx/Submit.antt =====
-- services/Tx.ts: `send`, `submit`, `settle` and `reconcileSigned`, with their journal writes.
-- Interruption, spans, metrics and logs are left out.
pub mod Trace
pub mod Settling
pub mod Attempts
pub mod Concluding
pub mod Sends
use sui_effect.Prelude.{
  ℕ, zero, suc, Bool, true, false, not, Option, none, some, List, [], ◌∷◌, ◌≡◌, Text, codes,
  text_eq, ◌+◌, ◌-◌, ◌==◌, ◌&&◌, ◌||◌, filter, if◌then◌else◌,
}
use sui_effect.Schemas.{Digest, Signed, Evidence, refused, chain_of_signed}
use sui_effect.Journal.{
  JournalEntry, signed_entry, executed_entry, failed_entry, unknown_entry, not_applied_entry,
  is_unresolved, JournalError, Result, success, failure,
}
use sui_effect.Tx.Network.{
  Env, World, Eff, Failure, transport_error, execution_failed, not_applied, submission_unknown,
  journal_error, TransportError, transport, retryable, status, cause, Cause, said,
  no_answer_in_time, answer_not_decoded, answered_for_another, after_last_send, Executed,
  ExecutionFailed, NotApplied, SubmissionUnknown, ExecuteAnswer, Event, sent, wrote, pure, raise,
  handle, and_then, ask, ◌>>=◌, ◌>>◌,
}
use sui_effect.Tx.Evidence.{expiry_closed}
use sui_effect.Tx.Recover.{
  ReconcileInput, by_digest, by_signed, by_unknown, digest_of_input, signed_of_input, with_sender,
  foreign_chain, reconcile_unjournaled,
}
use sui_effect.Tx.Wording.{lock_conflict}

-- `Reconciled`
pub data Reconciled : Type 0 where
  executed_answer : Executed → Reconciled
  failed_answer : ExecutionFailed → Reconciled
  not_applied_answer : NotApplied → Reconciled
  unknown_answer : SubmissionUnknown → Reconciled

-- How the execute attempts of one send ended, and how many there were.
pub data Sending : Type 0 where
  landed : Executed → ℕ → Sending
  aborted : ExecutionFailed → ℕ → Sending
  unanswered : TransportError → ℕ → Sending

abbrev pub is_refusal_status : Option Text → Bool
is_refusal_status none = false
is_refusal_status (some s) = text_eq s (codes "INVALID_ARGUMENT") || text_eq s (codes "3")

unfoldable pub refused_outright : TransportError → Bool
unfolding retryable status
refused_outright e = not (retryable e) && is_refusal_status (status e)

abbrev pub lock_conflict_rechecks : ℕ
lock_conflict_rechecks = 3

abbrev pub timeout_error : TransportError
timeout_error =
    transport (codes "executeTransaction") true (some (codes "DEADLINE_EXCEEDED")) no_answer_in_time

abbrev pub undecoded_error : TransportError
undecoded_error = transport (codes "executeTransaction") false none answer_not_decoded

abbrev pub foreign_error : Digest → Digest → TransportError
foreign_error answered digest =
    transport (codes "executeTransaction") false none (answered_for_another answered digest)

abbrev pub is_unknown : {A : Type 0} → Result Failure A → Bool
is_unknown (failure (submission_unknown u)) = true
is_unknown _ = false

module _ {J : Type 0} (env : Env J) where
  open env use {node, config, journal}

  abbrev pub from_journal : {A : Type 0} → Result JournalError A → Eff J A
  from_journal (success a) = pure a
  from_journal (failure e) = raise (journal_error e)

  abbrev pub put_entry : JournalEntry → Eff J (Unit {0})
  put_entry entry w =
      let (r, j) = journal.put entry w.journal in
      from_journal r (record w { journal = j; trace = wrote entry r ∷ w.trace })

  -- A write after the network has answered: a failure is logged, and the answer stands.
  abbrev pub journal_settled : JournalEntry → Eff J (Unit {0})
  journal_settled entry = handle (put_entry entry) (λ _. pure tt)

  unfoldable pub journal_signed : Signed → Eff J (Unit {0})
  journal_signed signed = do now ← ask node.clock; put_entry (signed_entry signed.digest signed now)

  unfoldable pub journal_executed : Executed → Eff J (Unit {0})
  journal_executed e = do
    now ← ask node.clock
    journal_settled (executed_entry e.digest e.checkpoint now)

  unfoldable pub journal_failed : ExecutionFailed → Eff J (Unit {0})
  journal_failed e = do now ← ask node.clock; journal_settled (failed_entry e.digest e.reason now)

  unfoldable pub journal_not_applied : NotApplied → Eff J (Unit {0})
  journal_not_applied e = do
    now ← ask node.clock
    journal_settled (not_applied_entry e.digest e.evidence now)

  unfoldable pub journal_refused : Signed → Eff J (Unit {0})
  unfolding journal_not_applied
  journal_refused signed =
      journal_not_applied (record { digest = signed.digest; evidence = refused })

  unfoldable pub journal_unknown : Signed → Text → ℕ → Eff J (Unit {0})
  journal_unknown signed last_error attempts = do
    now ← ask node.clock
    journal_settled (unknown_entry signed.digest signed last_error attempts now)

  abbrev pub or_text : Option Text → Text → Text
  or_text none t = t
  or_text (some s) t = s

  -- Journals one reconcile answer. The last two cases do not arise: `reconcile_sound`.
  unfoldable pub record_answer :
      Signed → ℕ → Option Text → Result Failure Executed → Eff J Reconciled
  unfolding journal_executed journal_failed journal_not_applied journal_unknown
  record_answer signed attempts last_error (success e) = do
    journal_executed e
    pure (executed_answer e)
  record_answer signed attempts last_error (failure (execution_failed e)) = do
    journal_failed e
    pure (failed_answer e)
  record_answer signed attempts last_error (failure (not_applied e)) = do
    journal_not_applied e
    pure (not_applied_answer e)
  record_answer signed attempts last_error (failure (submission_unknown u)) = do
    journal_unknown signed (or_text last_error (env.describe_unknown u)) attempts
    pure (unknown_answer u)
  record_answer signed attempts last_error (failure (transport_error e)) = raise (transport_error e)
  record_answer signed attempts last_error (failure (journal_error e)) = raise (journal_error e)

  -- The reconcile of `settle`, and again while it says `SubmissionUnknown` and rounds are left.
  unfoldable pub reconcile_rounds : Signed → ℕ → Eff J (Result Failure Executed)
  reconcile_rounds signed zero = handle (reconcile_unjournaled env (by_signed signed)) pure
  reconcile_rounds signed (suc n) = do
    result ← handle (reconcile_unjournaled env (by_signed signed)) pure
    if is_unknown result
        then (do
          ask (λ _. tt)  -- `Effect.sleep(config.reconcileRecheck)`
          reconcile_rounds signed n)
        else pure result

  unfoldable pub settle : Signed → ℕ → Option Text → ℕ → Eff J Reconciled
  unfolding record_answer reconcile_rounds
  settle signed attempts last_error rechecks = do
    result ← reconcile_rounds signed rechecks
    record_answer signed attempts last_error result

  -- A `SubmissionUnknown` carries what the last send said as well.
  abbrev pub answer_of : Text → Reconciled → Eff J Executed
  answer_of sent_text (executed_answer e) = pure e
  answer_of sent_text (failed_answer e) = raise (execution_failed e)
  answer_of sent_text (not_applied_answer e) = raise (not_applied e)
  answer_of sent_text (unknown_answer u) =
      raise (submission_unknown (record u { cause = after_last_send u.cause sent_text }))

  unfoldable pub reconcile_signed : Signed → TransportError → ℕ → ℕ → Eff J Executed
  unfolding settle
  reconcile_signed signed last_error attempts rechecks = do
    settled ← settle signed attempts (some (env.describe last_error)) rechecks
    answer_of (env.describe last_error) settled

  -- One `executeTransaction`; no answer within `executeTimeout` is a retryable failure.
  abbrev pub once : Signed → Eff J ExecuteAnswer
  once signed w = (
    success (node.execute signed.bytes signed.signatures w.tick),
    record w { tick = w.tick + 1; trace = sent signed.bytes signed.signatures ∷ w.trace },
  )

  abbrev pub retry_or : Eff J Sending → TransportError → ℕ → Eff J Sending
  retry_or again e n = if retryable e then again else pure (unanswered e n)

  -- What an attempt, the `n`-th, came to, where `again` is what a retryable failure leads to.
  abbrev pub after_attempt : (TransportError → Eff J Sending) → ℕ → ExecuteAnswer → Eff J Sending
  after_attempt again n (ExecuteAnswer.executed e) = pure (landed e n)
  after_attempt again n (ExecuteAnswer.aborted e) = pure (aborted e n)
  after_attempt again n ExecuteAnswer.undecoded = pure (unanswered undecoded_error n)
  after_attempt again n (ExecuteAnswer.refused e) = retry_or (again e) e n
  after_attempt again n ExecuteAnswer.silent = again timeout_error

  -- `retries` are left, and `n` attempts were made.
  unfoldable pub attempt : Signed → ℕ → ℕ → Eff J Sending
  unfolding retryable
  attempt signed zero n = do
    answer ← once signed
    after_attempt (λ e. pure (unanswered e (suc n))) (suc n) answer
  attempt signed (suc retries) n = do
    answer ← once signed
    after_attempt (λ _. attempt signed retries (suc n)) (suc n) answer

  -- The answer is journalled before anything else, if it is about these bytes.
  unfoldable pub journal_sending : Signed → Sending → Eff J (Unit {0})
  unfolding journal_executed journal_failed
  journal_sending signed (landed e n) =
      if text_eq e.digest signed.digest then journal_executed e else pure tt
  journal_sending signed (aborted e n) =
      if text_eq e.digest signed.digest then journal_failed e else pure tt
  journal_sending signed (unanswered e n) = pure tt

  abbrev pub await_visible : Eff J (Unit {0})
  await_visible = if config.await_visibility then ask (λ _. tt) else pure tt

  abbrev pub rechecks_of : TransportError → ℕ
  rechecks_of e = if lock_conflict e then lock_conflict_rechecks else 0

  unfoldable pub conclude_sending : Signed → Bool → Sending → Eff J Executed
  unfolding reconcile_signed journal_refused refused_outright
  conclude_sending signed resent (landed e n) =
      if text_eq e.digest signed.digest
      then (do await_visible; pure e)
      else reconcile_signed signed (foreign_error e.digest signed.digest) n 0
  conclude_sending signed resent (aborted e n) =
      if text_eq e.digest signed.digest
      then raise (execution_failed e)
      else reconcile_signed signed (foreign_error e.digest signed.digest) n 0
  conclude_sending signed resent (unanswered e n) =
      if not resent && (n == 1) && refused_outright e
      then (do journal_refused signed; raise (transport_error e))
      else reconcile_signed signed e n (rechecks_of e)

  abbrev pub name_sender : Signed → Executed → Eff J Executed
  name_sender signed e = pure (with_sender (some signed) e)

  unfoldable pub send : Signed → Bool → Eff J Executed
  unfolding journal_signed attempt journal_sending conclude_sending
  send signed resent = do
    journal_signed signed
    sending ← attempt signed (config.resubmit_attempts - 1) 0
    journal_sending signed sending
    e ← conclude_sending signed resent sending
    name_sender signed e

  unfoldable pub submit : Signed → Eff J Executed
  unfolding send
  submit signed = send signed false
