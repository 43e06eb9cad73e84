-- ===== src/Tx/Resubmit.antt =====
-- services/Tx.ts: `reconcile` with its journal write, `resubmit`, `reconcileAll` and `submitVia`.
pub mod Resend
pub mod Startup
pub mod Service
pub mod Answers
use sui_effect.Prelude.{
  ℕ, zero, suc, Bool, true, false, Option, none, some, List, [], ◌∷◌, ◌≡◌, Text, codes, text_eq,
  filter, if◌then◌else◌,
}
use sui_effect.Schemas.{Digest, Signed, chain_of_signed}
use sui_effect.Journal.{
  JournalEntry, signed_entry, executed_entry, failed_entry, unknown_entry, not_applied_entry,
  is_unresolved, JournalError, Result, success, failure,
}
use sui_effect.Tx.Network.{
  Env, World, Eff, Failure, transport_error, execution_failed, not_applied, submission_unknown,
  journal_error, TransportError, transport, Cause, said, no_envelope, Executed, ExecutionFailed,
  NotApplied, ExecuteAnswer, pure, raise, handle, and_then, ◌>>=◌, ◌>>◌,
}
use sui_effect.Tx.Evidence.{expiry_closed}
use sui_effect.Tx.Recover.{
  ReconcileInput, by_digest, by_signed, by_unknown, digest_of_input, signed_of_input, with_sender,
  foreign_chain, reconcile_unjournaled,
}
use sui_effect.Tx.Submit.{
  Reconciled, executed_answer, failed_answer, not_applied_answer, unknown_answer, from_journal,
  journal_signed, journal_executed, journal_failed, journal_not_applied, journal_refused, settle,
  answer_of, reconcile_signed, send,
}

abbrev pub holds_unresolved : Option JournalEntry → Bool
holds_unresolved none = false
holds_unresolved (some e) = is_unresolved e

-- What a third party answers when it has submitted the bytes: nothing that can be read, an SDK
-- `TransactionResult`, or a reduced envelope, with what `Executed.fromPartial` makes of it.
pub data Reply : Type 0 where
  acknowledged : Reply
  transaction_result : ExecuteAnswer → Reply
  envelope : (has_effects reports_failure : Bool) → Option Executed → Reply

-- How the third party failed: it declared `outcome: "not_applied"`, or it did not.
pub data ServiceFailure : Type 0 where
  declared_not_applied : Text → ServiceFailure
  undeclared : Text → ServiceFailure

-- What a reply says of these bytes.
pub data ReplyVerdict : Type 0 where
  applied : Executed → ReplyVerdict
  applied_and_failed : ExecutionFailed → ReplyVerdict
  ask_the_chain : ReplyVerdict

abbrev pub own_executed : Digest → Executed → ReplyVerdict
own_executed digest e = if text_eq e.digest digest then applied e else ask_the_chain

unfoldable pub executed_of_reply : Digest → Reply → ReplyVerdict
executed_of_reply digest acknowledged = ask_the_chain
executed_of_reply digest (transaction_result (ExecuteAnswer.executed e)) = own_executed digest e
executed_of_reply digest (transaction_result (ExecuteAnswer.aborted e)) =
    if text_eq e.digest digest then applied_and_failed e else ask_the_chain
executed_of_reply digest (transaction_result ExecuteAnswer.undecoded) = ask_the_chain
executed_of_reply digest (transaction_result (ExecuteAnswer.refused e)) = ask_the_chain
executed_of_reply digest (transaction_result ExecuteAnswer.silent) = ask_the_chain
executed_of_reply digest (envelope false reports_failure e) = ask_the_chain
executed_of_reply digest (envelope true true e) = ask_the_chain
executed_of_reply digest (envelope true false none) = ask_the_chain
executed_of_reply digest (envelope true false (some e)) = own_executed digest e

module _ {J : Type 0} (env : Env J) where
  open env use {node, config, journal}

  abbrev pub get_entry : Digest → Eff J (Option JournalEntry)
  get_entry d w =
      let (r, j) = journal.get d w.journal in from_journal env r (record w { journal = j })

  abbrev pub get_unresolved : Eff J (List JournalEntry)
  get_unresolved w =
      let (r, j) = journal.list_unresolved w.journal in
      from_journal env r (record w { journal = j })

  abbrev pub write_terminal : Result Failure Executed → Eff J (Unit {0})
  write_terminal (success e) = journal_executed env e
  write_terminal (failure (execution_failed e)) = journal_failed env e
  write_terminal (failure (not_applied e)) = journal_not_applied env e
  write_terminal (failure (submission_unknown u)) = pure tt
  write_terminal (failure (transport_error e)) = pure tt
  write_terminal (failure (journal_error e)) = pure tt

  -- A journal that cannot be read is logged, and the answer stands.
  abbrev pub when_held : Eff J (Unit {0}) → Result Failure (Option JournalEntry) → Eff J (Unit {0})
  when_held write (success entry) = if holds_unresolved entry then write else pure tt
  when_held write (failure e) = pure tt

  unfoldable pub record_if_held : Digest → Result Failure Executed → Eff J (Unit {0})
  unfolding journal_executed journal_failed journal_not_applied
  record_if_held digest (failure (submission_unknown u)) = pure tt
  record_if_held digest result = handle (get_entry digest) (when_held (write_terminal result))

  abbrev pub from_result : Result Failure Executed → Eff J Executed
  from_result (success e) = pure e
  from_result (failure e) = raise e

  unfoldable pub reconcile : ReconcileInput → Eff J Executed
  unfolding record_if_held
  reconcile input = do
    result ← handle (reconcile_unjournaled env input) pure
    record_if_held (digest_of_input input) result
    from_result result

  -- Whether a re-send is pointless: another chain's bytes, or a closed window. A read that fails
  -- cannot tell.
  abbrev pub seen_closed : Result Failure Bool → Eff J Bool
  seen_closed (success b) = pure b
  seen_closed (failure (transport_error e)) = pure false
  seen_closed (failure (execution_failed e)) = raise (execution_failed e)
  seen_closed (failure (not_applied e)) = raise (not_applied e)
  seen_closed (failure (submission_unknown e)) = raise (submission_unknown e)
  seen_closed (failure (journal_error e)) = raise (journal_error e)

  abbrev pub cannot_land : Signed → Option Text → Eff J Bool
  cannot_land signed (some chain) = pure true
  cannot_land signed none = handle (expiry_closed env signed) seen_closed

  -- `settled._tag === "Executed" ? settled.executed : yield* settled.error`
  abbrev pub settled_result : Reconciled → Eff J Executed
  settled_result (executed_answer e) = pure e
  settled_result (failed_answer e) = raise (execution_failed e)
  settled_result (not_applied_answer e) = raise (not_applied e)
  settled_result (unknown_answer u) = raise (submission_unknown u)

  unfoldable pub resend : Signed → Eff J Executed
  unfolding send settle chain_of_signed
  resend signed = do
    closed ← cannot_land signed (foreign_chain env (chain_of_signed signed))
    if closed
        then (do settled ← settle env signed 1 none 0; settled_result settled)
        else send env signed true

  abbrev pub resubmit_held : Signed → Digest → Option JournalEntry → Eff J Executed
  resubmit_held signed digest none = resend signed
  resubmit_held signed digest (some (executed_entry d c at)) = reconcile (by_signed signed)
  resubmit_held signed digest (some (failed_entry d r at)) = reconcile (by_signed signed)
  resubmit_held signed digest (some (not_applied_entry d e at)) =
      raise (not_applied (record { digest = digest; evidence = e }))
  resubmit_held signed digest (some (signed_entry d s at)) = resend signed
  resubmit_held signed digest (some (unknown_entry d s l n at)) = resend signed

  abbrev pub resubmit_signed : Digest → Option Signed → Eff J Executed
  resubmit_signed digest none = reconcile (by_digest digest)
  resubmit_signed digest (some signed) = do
    entry ← get_entry digest
    resubmit_held signed digest entry

  unfoldable pub resubmit : ReconcileInput → Eff J Executed
  unfolding reconcile resend digest_of_input signed_of_input
  resubmit input = resubmit_signed (digest_of_input input) (signed_of_input input)

  -- What a re-send of an entry that stays unknown comes to; `settled` where it was not made.
  abbrev pub after_resend : Reconciled → Result Failure Executed → Eff J Reconciled
  after_resend settled (success e) = pure (executed_answer e)
  after_resend settled (failure (execution_failed e)) = pure (failed_answer e)
  after_resend settled (failure (not_applied e)) = pure (not_applied_answer e)
  after_resend settled (failure (submission_unknown u)) = pure (unknown_answer u)
  after_resend settled (failure (transport_error e)) = pure settled
  after_resend settled (failure (journal_error e)) = pure settled

  abbrev pub resend_unknown : Bool → Signed → Reconciled → Eff J Reconciled
  resend_unknown true signed (unknown_answer u) =
      handle (resend signed) (after_resend (unknown_answer u))
  resend_unknown true signed (executed_answer e) = pure (executed_answer e)
  resend_unknown true signed (failed_answer e) = pure (failed_answer e)
  resend_unknown true signed (not_applied_answer e) = pure (not_applied_answer e)
  resend_unknown false signed settled = pure settled

  unfoldable pub settle_entry : Bool → Signed → ℕ → Eff J Reconciled
  unfolding settle resend
  settle_entry resubmit_too signed attempts = do
    settled ← settle env signed attempts none 0
    resend_unknown resubmit_too signed settled

  -- `entries.filter(isUnresolved)`: the other entries have no bytes.
  unfoldable pub settle_all : Bool → List JournalEntry → Eff J (List Reconciled)
  settle_all resubmit_too [] = pure []
  settle_all resubmit_too (signed_entry d s at ∷ es) = do
    r ← settle_entry resubmit_too s 1
    rs ← settle_all resubmit_too es
    pure (r ∷ rs)
  settle_all resubmit_too (unknown_entry d s l n at ∷ es) = do
    r ← settle_entry resubmit_too s n
    rs ← settle_all resubmit_too es
    pure (r ∷ rs)
  settle_all resubmit_too (executed_entry d c at ∷ es) = settle_all resubmit_too es
  settle_all resubmit_too (failed_entry d r at ∷ es) = settle_all resubmit_too es
  settle_all resubmit_too (not_applied_entry d e at ∷ es) = settle_all resubmit_too es

  unfoldable pub reconcile_all : Bool → Eff J (List Reconciled)
  unfolding settle_all settle_entry
  reconcile_all resubmit_too = do entries ← get_unresolved; settle_all resubmit_too entries

  abbrev pub via_error : Cause → TransportError
  via_error why = transport (codes "submitVia") false none why

  abbrev pub after_verdict : Signed → ReplyVerdict → Eff J Executed
  after_verdict signed (applied_and_failed e) = do journal_failed env e; raise (execution_failed e)
  after_verdict signed (applied e) = do journal_executed env e; pure (with_sender (some signed) e)
  after_verdict signed ask_the_chain = reconcile_signed env signed (via_error no_envelope) 1 0

  -- The inner failure is the service's own, passed on.
  abbrev pub after_service :
      Signed → Result ServiceFailure Reply → Eff J (Result ServiceFailure Executed)
  after_service signed (success reply) = do
    e ← after_verdict signed (executed_of_reply signed.digest reply)
    pure (success e)
  after_service signed (failure (declared_not_applied why)) = do
    journal_refused env signed
    pure (failure (declared_not_applied why))
  after_service signed (failure (undeclared why)) = do
    e ← reconcile_signed env signed (via_error (said why)) 1 0
    pure (success e)

  unfoldable pub submit_via :
      Signed → Eff J (Result ServiceFailure Reply) → Eff J (Result ServiceFailure Executed)
  unfolding journal_signed journal_executed journal_failed journal_refused reconcile_signed
      executed_of_reply
  submit_via signed service = do
    journal_signed env signed
    reply ← service
    after_service signed reply
