-- ===== src/Tx/Submit/Settling.antt =====
-- `settle` and `reconcileSigned`: they never fail with a transport or journal error, answer for the
-- digest of the bytes, and add nothing to the trace but journal writes.
use sui_effect.Prelude.{
  ℕ, zero, suc, Bool, true, false, Option, some, ◌∷◌, ◌≡◌, ◌+◌, Text, if◌then◌else◌,
}
use sui_effect.Schemas.{Digest, Signed}
use sui_effect.Journal.{JournalEntry, JournalError, Result, success, failure}
use sui_effect.Tx.Network.{
  Env, World, Failure, transport_error, execution_failed, not_applied, submission_unknown,
  journal_error, TransportError, Executed, ExecutionFailed, NotApplied, wrote, handle, ◌>>=◌, pure,
  ask,
}
use sui_effect.Tx.Recover.{by_signed, digest_of_input, reconcile_unjournaled}
use sui_effect.Tx.Ends.{Post}
use sui_effect.Tx.Recover.Soundness.{Reconciled, Ours}
use sui_effect.Tx.Recover.Outcome.{reconcile_sound}
use sui_effect.Tx.Recover.ReadOnly.{reconcile_unjournaled-ReadOnly}
use sui_effect.Tx.Submit
use sui_effect.Tx.Submit.{
  from_journal, put_entry, journal_settled, journal_executed, journal_failed, journal_not_applied,
  journal_unknown, journal_refused, record_answer, reconcile_rounds, settle, answer_of,
  reconcile_signed, is_unknown, executed_answer, failed_answer, not_applied_answer, unknown_answer,
  or_text,
}
use sui_effect.Tx.Submit.Trace.{OnlyWrites, unchanged, one_more, Ends, Ends-bind, Logs, Logs-bind}

module _ {J : Type 0} (env : Env J) where
  open env use {journal, node}

  abbrev pub Done : Unit {0} → Type 0
  Done u = Unit

  journal_settled-Logs :
      (entry : JournalEntry) (w : World J) → Ends (Logs w Done) (journal_settled env entry w)
  journal_settled-Logs entry w = go (journal.put entry w.journal).0
    where
      go :
          (r : Result JournalError (Unit {0}))
          → Ends (Logs w Done) (
            success tt,
            (from_journal env r (record w {
              journal = (journal.put entry w.journal).1;
              trace = wrote entry (journal.put entry w.journal).0 ∷ w.trace;
            })).1,
          )
      go (success u) = (tt, one_more entry _ unchanged)
      go (failure e) = (tt, one_more entry _ unchanged)

  pub journal_executed-Logs :
      (e : Executed) (w : World J) → Ends (Logs w Done) (journal_executed env e w)
  unfolding journal_executed
  journal_executed-Logs e w = journal_settled-Logs _ (record w { tick = w.tick + 1 })

  pub journal_failed-Logs :
      (e : ExecutionFailed) (w : World J) → Ends (Logs w Done) (journal_failed env e w)
  unfolding journal_failed
  journal_failed-Logs e w = journal_settled-Logs _ (record w { tick = w.tick + 1 })

  pub journal_not_applied-Logs :
      (e : NotApplied) (w : World J) → Ends (Logs w Done) (journal_not_applied env e w)
  unfolding journal_not_applied
  journal_not_applied-Logs e w = journal_settled-Logs _ (record w { tick = w.tick + 1 })

  pub journal_refused-Logs :
      (signed : Signed) (w : World J) → Ends (Logs w Done) (journal_refused env signed w)
  unfolding journal_refused
  journal_refused-Logs signed w = journal_not_applied-Logs _ w

  journal_unknown-Logs :
      (signed : Signed) (text : Text) (n : ℕ) (w : World J)
      → Ends (Logs w Done) (journal_unknown env signed text n w)
  unfolding journal_unknown
  journal_unknown-Logs signed text n w = journal_settled-Logs _ (record w { tick = w.tick + 1 })

  -- An answer about the digest, and neither a transport nor a journal failure.
  abbrev pub Fits : Digest → Result Failure Executed → Type 0
  Fits d (success e) = e.digest ≡ d
  Fits d (failure e) = Reconciled env d (λ _. ⊥) e

  Post-Fits :
      (d : Digest) (x : Result Failure Executed × World J)
      → Post (Ours env d (λ _. ⊥)) (Reconciled env d (λ _. ⊥)) x
      → Fits d x.0
  Post-Fits d (success e, v) h = h
  Post-Fits d (failure e, v) h = h

  pub reconcile-Logs :
      (signed : Signed) (w : World J)
      → Ends
          (Logs w (Fits signed.digest))
          (handle (reconcile_unjournaled env (by_signed signed)) pure w)
  unfolding digest_of_input
  reconcile-Logs signed w = (
    Post-Fits signed.digest _ (
        reconcile_sound env (by_signed signed) (λ _. ⊥) w
          (λ s q. record {
            closed_window_ends = λ t a c h. absurd h;
            history_complete = λ t a u m le v h. absurd h;
            consumed_once = λ r i t a h. h;
          })),
    unmoved,
  )
    where
      unmoved : OnlyWrites w.trace (reconcile_unjournaled env (by_signed signed) w).1.trace
      unmoved = rw (reconcile_unjournaled-ReadOnly env (by_signed signed) w).trace unchanged

  reconcile_rounds-Logs :
      (signed : Signed) (n : ℕ) (w : World J)
      → Ends (Logs w (Fits signed.digest)) (reconcile_rounds env signed n w)
  unfolding reconcile_rounds
  reconcile_rounds-Logs signed zero w = reconcile-Logs signed w
  reconcile_rounds-Logs signed (suc n) w =
      Logs-bind (Fits signed.digest) (Fits signed.digest)
        (handle (reconcile_unjournaled env (by_signed signed)) pure) _ w (reconcile-Logs signed w)
        (λ r v h. again (reconcile_rounds-Logs signed n) r (is_unknown r) v h)
    where
      again :
          ((v : World J) → Ends (Logs v (Fits signed.digest)) (reconcile_rounds env signed n v))
          → (r : Result Failure Executed) (b : Bool) (v : World J) → Fits signed.digest r
          → Ends
              (Logs v (Fits signed.digest))
              ((if b then (ask (λ _. tt {0}) >>= λ _. reconcile_rounds env signed n) else pure r) v)
      again rest r true v h = rest (record v { tick = v.tick + 1 })
      again rest r false v h = (h, unchanged)

  -- What `settle` answers is about the digest.
  abbrev pub About : Digest → Submit.Reconciled → Type 0
  About d (executed_answer e) = e.digest ≡ d
  About d (failed_answer e) = e.digest ≡ d
  About d (not_applied_answer e) = e.digest ≡ d
  About d (unknown_answer e) = e.digest ≡ d

  record_answer-Logs :
      (signed : Signed) (n : ℕ) (text : Option Text) (d : Digest) (r : Result Failure Executed)
      (w : World J)
      → Fits d r
      → Ends (Logs w (About d)) (record_answer env signed n text r w)
  unfolding record_answer
  record_answer-Logs signed n text d (success e) w h =
      Logs-bind Done (About d) (journal_executed env e) (λ _. pure (executed_answer e)) w
        (journal_executed-Logs e w) (λ _ v _. (h, unchanged))
  record_answer-Logs signed n text d (failure (execution_failed e)) w h =
      Logs-bind Done (About d) (journal_failed env e) (λ _. pure (failed_answer e)) w
        (journal_failed-Logs e w) (λ _ v _. (h, unchanged))
  record_answer-Logs signed n text d (failure (not_applied e)) w h =
      Logs-bind Done (About d) (journal_not_applied env e) (λ _. pure (not_applied_answer e)) w
        (journal_not_applied-Logs e w) (λ _ v _. (h.0, unchanged))
  record_answer-Logs signed n text d (failure (submission_unknown u)) w h =
      Logs-bind Done (About d)
        (journal_unknown env signed (or_text env text (env.describe_unknown u)) n)
        (λ _. pure (unknown_answer u)) w
        (journal_unknown-Logs signed (or_text env text (env.describe_unknown u)) n w)
        (λ _ v _. (h, unchanged))
  record_answer-Logs signed n text d (failure (transport_error e)) w h = absurd h
  record_answer-Logs signed n text d (failure (journal_error e)) w h = absurd h

  -- `settle` never fails, whatever the node and the journal do: it answers for the digest of the
  -- bytes, sends nothing, and only writes to the journal.
  pub settle-never_fails :
      (signed : Signed) (n : ℕ) (text : Option Text) (rechecks : ℕ) (w : World J)
      → Ends (Logs w (About signed.digest)) (settle env signed n text rechecks w)
  unfolding settle
  settle-never_fails signed n text rechecks w =
      Logs-bind (Fits signed.digest) (About signed.digest) (reconcile_rounds env signed rechecks) _
        w (reconcile_rounds-Logs signed rechecks w)
        (λ r v h. record_answer-Logs signed n text signed.digest r v h)

  -- The result of a reconcile after a send.
  abbrev pub Asked : Digest → World J → Result Failure Executed → World J → Type 0
  Asked d w r v = Fits d r × OnlyWrites w.trace v.trace

  pub reconcile_signed-Asked :
      (signed : Signed) (e : TransportError) (n rechecks : ℕ) (w : World J)
      → Ends (Asked signed.digest w) (reconcile_signed env signed e n rechecks w)
  unfolding reconcile_signed
  reconcile_signed-Asked signed e n rechecks w =
      Ends-bind (Logs w (About signed.digest)) (Asked signed.digest w)
        (settle env signed n (some (env.describe e)) rechecks) _ w
        (settle-never_fails signed n (some (env.describe e)) rechecks w) answered
        (λ f v h. absurd h)
    where
      answered :
          (a : Submit.Reconciled) (v : World J)
          → Logs w (About signed.digest) (success a) v
          → Ends (Asked signed.digest w) (answer_of env (env.describe e) a v)
      answered (executed_answer x) v h = h
      answered (failed_answer x) v h = h
      answered (not_applied_answer x) v h = ((h.0, λ a q. q), h.1)
      answered (unknown_answer x) v h = h
