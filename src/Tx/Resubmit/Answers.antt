-- ===== src/Tx/Resubmit/Answers.antt =====
-- `reconcile`, `resubmit` and `submitVia`: what their results say, whatever the node, the journal and
-- the service do.
use sui_effect.Prelude.{
  Bool, true, false, Option, none, some, ◌≡◌, refl, sym, subst, arith, if◌then◌else◌,
}
use sui_effect.Schemas.{Digest, Signed}
use sui_effect.Journal.{
  JournalEntry, signed_entry, executed_entry, failed_entry, unknown_entry, not_applied_entry,
  is_unresolved, JournalError, Result, success, failure,
}
use sui_effect.Tx.Network.{
  Env, World, Failure, transport_error, execution_failed, not_applied, submission_unknown,
  journal_error, Executed, handle, ◌>>=◌, pure,
}
use sui_effect.Tx.Recover.{ReconcileInput, by_signed, digest_of_input, reconcile_unjournaled}
use sui_effect.Tx.Recover.ReadOnly.{reconcile_unjournaled-ReadOnly}
use sui_effect.Tx.Submit.{from_journal}
use sui_effect.Tx.Submit.Trace.{
  OnlyWrites, unchanged, OnlyWrites-trans, nothing, Sends-OnlyWrites, Ends, Ends-bind, Logs,
}
use sui_effect.Tx.Submit.Settling.{
  Fits, journal_executed-Logs, journal_failed-Logs, journal_not_applied-Logs, reconcile-Logs,
}
use sui_effect.Tx.Resubmit.{
  get_entry, write_terminal, when_held, holds_unresolved, record_if_held, from_result, reconcile,
  resubmit_held, resubmit,
}
use sui_effect.Tx.Resubmit.Resend.{Resent, ResentAt, resend-ResentAt}

module _ {J : Type 0} (env : Env J) where
  abbrev Quiet : World J → Result Failure (Unit {0}) → World J → Type 0
  Quiet w = Logs w (λ _. Unit {0})

  write_terminal-Quiet :
      (r : Result Failure Executed) (w : World J) → Ends (Quiet w) (write_terminal env r w)
  write_terminal-Quiet (success e) w = journal_executed-Logs env e w
  write_terminal-Quiet (failure (execution_failed e)) w = journal_failed-Logs env e w
  write_terminal-Quiet (failure (not_applied e)) w = journal_not_applied-Logs env e w
  write_terminal-Quiet (failure (submission_unknown u)) w = (tt, unchanged)
  write_terminal-Quiet (failure (transport_error e)) w = (tt, unchanged)
  write_terminal-Quiet (failure (journal_error e)) w = (tt, unchanged)

  when_held-Quiet :
      (r : Result Failure Executed) (held : Result Failure (Option JournalEntry)) (w : World J)
      → Ends (Quiet w) (when_held env (write_terminal env r) held w)
  when_held-Quiet r (failure e) w = (tt, unchanged)
  when_held-Quiet r (success entry) w = choose (holds_unresolved entry)
    where
      choose : (b : Bool) → Ends (Quiet w) ((if b then write_terminal env r else pure tt) w)
      choose true = write_terminal-Quiet r w
      choose false = (tt, unchanged)

  -- Reading the journal leaves the trace alone, whether it can be read or not.
  read_held :
      (d : Digest) (r : Result Failure Executed) (w : World J)
      → Ends (Quiet w) (handle (get_entry env d) (when_held env (write_terminal env r)) w)
  read_held d r w = read (env.journal.get d w.journal).0
    where
      world : World J
      world = record w { journal = (env.journal.get d w.journal).1 }

      read :
          (x : Result JournalError (Option JournalEntry))
          → Ends
              (Quiet w)
              (handle (λ _. from_journal env x world) (when_held env (write_terminal env r)) world)
      read (success o) = when_held-Quiet r (success o) world
      read (failure e) = (tt, unchanged)

  record_if_held-Quiet :
      (d : Digest) (r : Result Failure Executed) (w : World J)
      → Ends (Quiet w) (record_if_held env d r w)
  unfolding record_if_held
  record_if_held-Quiet d (success e) w = read_held d (success e) w
  record_if_held-Quiet d (failure (execution_failed e)) w =
      read_held d (failure (execution_failed e)) w
  record_if_held-Quiet d (failure (not_applied e)) w = read_held d (failure (not_applied e)) w
  record_if_held-Quiet d (failure (submission_unknown u)) w = (tt, unchanged)
  record_if_held-Quiet d (failure (transport_error e)) w =
      read_held d (failure (transport_error e)) w
  record_if_held-Quiet d (failure (journal_error e)) w = read_held d (failure (journal_error e)) w

  -- The answer is `r`, and only journal writes were added.
  abbrev pub Stands : Result Failure Executed → World J → Result Failure Executed → World J → Type 0
  Stands r w x v = (x ≡ r) × OnlyWrites w.trace v.trace

  from_result-Stands :
      (r : Result Failure Executed) (w v : World J)
      → OnlyWrites w.trace v.trace
      → Ends (Stands r w) (from_result env r v)
  from_result-Stands (success e) w v o = (refl, o)
  from_result-Stands (failure e) w v o = (refl, o)

  -- `reconcile` answers what it found out, whether or not the journal can be read or written; it
  -- sends nothing, and adds only journal writes to the trace.
  pub reconcile-Stands :
      (input : ReconcileInput) (w : World J)
      → Ends (Stands (reconcile_unjournaled env input w).0 w) (reconcile env input w)
  unfolding reconcile
  reconcile-Stands input w =
      Ends-bind (Quiet found) (Stands r w) (record_if_held env (digest_of_input input) r)
        (λ _. from_result env r) found (record_if_held-Quiet (digest_of_input input) r found)
        (λ u v o. from_result-Stands r w v (OnlyWrites-trans asked o.1)) (λ e v o. absurd o)
    where
      r : Result Failure Executed
      r = (reconcile_unjournaled env input w).0

      found : World J
      found = (reconcile_unjournaled env input w).1

      asked : OnlyWrites w.trace found.trace
      asked =
          subst (λ t. OnlyWrites w.trace t) (sym (reconcile_unjournaled-ReadOnly env input w).trace)
            unchanged

  Fits-Resent : (d : Digest) (r : Result Failure Executed) → Fits env d r → Resent d r
  Fits-Resent d (success e) h = h
  Fits-Resent d (failure (execution_failed e)) h = h
  Fits-Resent d (failure (not_applied e)) h = h.0
  Fits-Resent d (failure (submission_unknown e)) h = h
  Fits-Resent d (failure (transport_error e)) h = absurd h
  Fits-Resent d (failure (journal_error e)) h = absurd h

  reconcile-ResentAt :
      (signed : Signed) (w : World J)
      → Ends (ResentAt env signed w) (reconcile env (by_signed signed) w)
  reconcile-ResentAt signed w =
      let (same, o) = reconcile-Stands (by_signed signed) w in
      (
        subst (λ r. Resent signed.digest r) (sym same)
            (Fits-Resent signed.digest (reconcile_unjournaled env (by_signed signed) w).0
              (reconcile-Logs env signed w).0),
        (0, omega arith, Sends-OnlyWrites nothing o),
      )

  resubmit_held-ResentAt :
      (signed : Signed) (held : Option JournalEntry) (w : World J)
      → Ends (ResentAt env signed w) (resubmit_held env signed signed.digest held w)
  resubmit_held-ResentAt signed none w = resend-ResentAt env signed w
  resubmit_held-ResentAt signed (some (executed_entry d c at)) w = reconcile-ResentAt signed w
  resubmit_held-ResentAt signed (some (failed_entry d r at)) w = reconcile-ResentAt signed w
  resubmit_held-ResentAt signed (some (not_applied_entry d e at)) w =
      (refl, (0, omega arith, nothing))
  resubmit_held-ResentAt signed (some (signed_entry d s at)) w = resend-ResentAt env signed w
  resubmit_held-ResentAt signed (some (unknown_entry d s l n at)) w = resend-ResentAt env signed w

  -- `resubmit` of signed bytes ends in a success about their digest, in a failure that names it, or
  -- in a failure of the journal, never in a transport failure; it sends exactly these bytes and
  -- signatures, at most `max 1 resubmit_attempts` times, and only writes to the journal besides.
  pub resubmit-ResentAt :
      (signed : Signed) (w : World J)
      → Ends (ResentAt env signed w) (resubmit env (by_signed signed) w)
  unfolding resubmit
  resubmit-ResentAt signed w = held (env.journal.get signed.digest w.journal).0
    where
      world : World J
      world = record w { journal = (env.journal.get signed.digest w.journal).1 }

      held :
          (x : Result JournalError (Option JournalEntry))
          → Ends
              (ResentAt env signed w)
              ((from_journal env x >>= resubmit_held env signed signed.digest) world)
      held (success o) = resubmit_held-ResentAt signed o world
      held (failure e) = (tt, (0, omega arith, nothing))

  settled_held-quiet :
      (signed : Signed) (entry : JournalEntry) (w : World J)
      → is_unresolved entry ≡ false
      → Ends
          (λ r v. OnlyWrites w.trace v.trace)
          (resubmit_held env signed signed.digest (some entry) w)
  unfolding is_unresolved
  settled_held-quiet signed (executed_entry d c at) w h = (reconcile-Stands (by_signed signed) w).1
  settled_held-quiet signed (failed_entry d r at) w h = (reconcile-Stands (by_signed signed) w).1
  settled_held-quiet signed (not_applied_entry d e at) w h = unchanged
  settled_held-quiet signed (signed_entry d s at) w h = ground arith
  settled_held-quiet signed (unknown_entry d s l n at) w h = ground arith

  -- Bytes whose digest the journal holds as settled are not sent again: `resubmit` then adds only
  -- journal writes to the trace.
  pub resubmit-settled :
      (signed : Signed) (entry : JournalEntry) (w : World J)
      → (env.journal.get signed.digest w.journal).0 ≡ success (some entry)
      → is_unresolved entry ≡ false
      → OnlyWrites w.trace (resubmit env (by_signed signed) w).1.trace
  unfolding resubmit
  resubmit-settled signed entry w held settled = rw held (
      settled_held-quiet signed entry
        (record w { journal = (env.journal.get signed.digest w.journal).1 }) settled)
