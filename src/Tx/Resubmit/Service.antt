-- ===== src/Tx/Resubmit/Service.antt =====
-- `submitVia`, where a third party submits the bytes: what its result says, whatever the service, the
-- node and the journal do.
use sui_effect.Prelude.{
  ℕ, Bool, true, false, none, some, ◌∷◌, ◌≡◌, refl, ◌+◌, text_eq, text_eq_iff, if◌then◌else◌, ◌⊎◌,
  inl, inr,
}
use sui_effect.Schemas.{Digest, Signed}
use sui_effect.Journal.{JournalError, Result, success, failure}
use sui_effect.Tx.Network.{
  Env, World, Eff, Failure, transport_error, execution_failed, not_applied, submission_unknown,
  journal_error, Executed, ExecuteAnswer, no_envelope, said, wrote, ◌>>=◌, pure, ask,
}
use sui_effect.Tx.Submit.{
  from_journal, journal_executed, journal_failed, journal_refused, reconcile_signed,
}
use sui_effect.Tx.Submit.Trace.{OnlyWrites, Ends, Ends-bind, Logs}
use sui_effect.Tx.Submit.Settling.{
  Asked, journal_executed-Logs, journal_failed-Logs, journal_refused-Logs, reconcile_signed-Asked,
}
use sui_effect.Tx.Submit.Sends.{opening}
use sui_effect.Tx.Resubmit.{
  Reply, acknowledged, transaction_result, envelope, ServiceFailure, declared_not_applied,
  undeclared, ReplyVerdict, applied, applied_and_failed, ask_the_chain, own_executed,
  executed_of_reply, via_error, after_verdict, after_service, submit_via,
}

-- A verdict that is about the digest.
abbrev pub VerdictOn : Digest → ReplyVerdict → Type 0
VerdictOn d (applied e) = e.digest ≡ d
VerdictOn d (applied_and_failed e) = e.digest ≡ d
VerdictOn d ask_the_chain = Unit

own_executed-VerdictOn : (d : Digest) (e : Executed) → VerdictOn d (own_executed d e)
own_executed-VerdictOn d e = own (text_eq e.digest d) refl
  where
    own : (b : Bool) → text_eq e.digest d ≡ b → VerdictOn d (if b then applied e else ask_the_chain)
    own true q = (text_eq_iff e.digest d).0 q
    own false q = tt

-- A reply about another transaction is no answer about this one.
executed_of_reply-VerdictOn : (d : Digest) (r : Reply) → VerdictOn d (executed_of_reply d r)
unfolding executed_of_reply
executed_of_reply-VerdictOn d acknowledged = tt
executed_of_reply-VerdictOn d (transaction_result (ExecuteAnswer.executed e)) =
    own_executed-VerdictOn d e
executed_of_reply-VerdictOn d (transaction_result (ExecuteAnswer.aborted e)) =
    own (text_eq e.digest d) refl
  where
    own :
        (b : Bool)
        → text_eq e.digest d ≡ b
        → VerdictOn d (if b then applied_and_failed e else ask_the_chain)
    own true q = (text_eq_iff e.digest d).0 q
    own false q = tt
executed_of_reply-VerdictOn d (transaction_result ExecuteAnswer.undecoded) = tt
executed_of_reply-VerdictOn d (transaction_result (ExecuteAnswer.refused e)) = tt
executed_of_reply-VerdictOn d (transaction_result ExecuteAnswer.silent) = tt
executed_of_reply-VerdictOn d (envelope false reports e) = tt
executed_of_reply-VerdictOn d (envelope true true e) = tt
executed_of_reply-VerdictOn d (envelope true false none) = tt
executed_of_reply-VerdictOn d (envelope true false (some e)) = own_executed-VerdictOn d e

-- The service says itself that nothing was applied.
abbrev pub IsDeclared : ServiceFailure → Type 0
IsDeclared (declared_not_applied why) = Unit
IsDeclared (undeclared why) = ⊥

module _ {J : Type 0} (env : Env J) where
  -- What `submitVia` answers after the service has answered `s`.
  abbrev pub ViaResult :
      Digest
      → Result ServiceFailure Reply
      → Result Failure (Result ServiceFailure Executed)
      → Type 0
  ViaResult d s (success (success e)) = e.digest ≡ d
  ViaResult d s (success (failure e)) = (s ≡ failure e) × IsDeclared e
  ViaResult d s (failure (execution_failed e)) = e.digest ≡ d
  ViaResult d s (failure (not_applied e)) = e.digest ≡ d
  ViaResult d s (failure (submission_unknown e)) = e.digest ≡ d
  ViaResult d s (failure (transport_error e)) = ⊥
  ViaResult d s (failure (journal_error e)) = ⊥

  abbrev pub ViaAt :
      Digest
      → Result ServiceFailure Reply
      → World J
      → Result Failure (Result ServiceFailure Executed)
      → World J
      → Type 0
  ViaAt d s w r v = ViaResult d s r × OnlyWrites w.trace v.trace

  after_verdict-Asked :
      (signed : Signed) (verdict : ReplyVerdict) (w : World J)
      → VerdictOn signed.digest verdict
      → Ends (Asked env signed.digest w) (after_verdict env signed verdict w)
  after_verdict-Asked signed (applied e) w h =
      Ends-bind (Logs w (λ _. Unit {0})) (Asked env signed.digest w) (journal_executed env e) _ w
        (journal_executed-Logs env e w) (λ u v o. (h, o.1)) (λ f v o. absurd o)
  after_verdict-Asked signed (applied_and_failed e) w h =
      Ends-bind (Logs w (λ _. Unit {0})) (Asked env signed.digest w) (journal_failed env e) _ w
        (journal_failed-Logs env e w) (λ u v o. (h, o.1)) (λ f v o. absurd o)
  after_verdict-Asked signed ask_the_chain w h =
      reconcile_signed-Asked env signed (via_error env no_envelope) 1 0 w

  Asked-ViaAt :
      (d : Digest) (s : Result ServiceFailure Reply) (w : World J) (m : Eff J Executed)
      → Ends (Asked env d w) (m w)
      → Ends (ViaAt d s w) ((m >>= λ e. pure (success e)) w)
  Asked-ViaAt d s w m h =
      Ends-bind (Asked env d w) (ViaAt d s w) m (λ e. pure (success e)) w h (λ e v k. k) fails
    where
      fails : (e : Failure) (v : World J) → Asked env d w (failure e) v → ViaAt d s w (failure e) v
      fails (execution_failed e) v k = k
      fails (not_applied e) v k = (k.0.0, k.1)
      fails (submission_unknown e) v k = k
      fails (transport_error e) v k = absurd k.0
      fails (journal_error e) v k = absurd k.0

  after_service-ViaAt :
      (signed : Signed) (s : Result ServiceFailure Reply) (w : World J)
      → Ends (ViaAt signed.digest s w) (after_service env signed s w)
  after_service-ViaAt signed (success reply) w =
      Asked-ViaAt signed.digest (success reply) w
        (after_verdict env signed (executed_of_reply signed.digest reply))
        (after_verdict-Asked signed (executed_of_reply signed.digest reply) w
          (executed_of_reply-VerdictOn signed.digest reply))
  after_service-ViaAt signed (failure (declared_not_applied why)) w =
      Ends-bind (Logs w (λ _. Unit {0}))
        (ViaAt signed.digest (failure (declared_not_applied why)) w) (journal_refused env signed) _
        w (journal_refused-Logs env signed w) (λ u v o. ((refl, tt), o.1)) (λ f v o. absurd o)
  after_service-ViaAt signed (failure (undeclared why)) w =
      Asked-ViaAt signed.digest (failure (undeclared why)) w
        (reconcile_signed env signed (via_error env (said why)) 1 0)
        (reconcile_signed-Asked env signed (via_error env (said why)) 1 0 w)

  -- The service was not asked, because the journal did not take the bytes; or it was, after that.
  abbrev pub Via :
      Signed
      → (ℕ → Result ServiceFailure Reply)
      → World J
      → Result Failure (Result ServiceFailure Executed)
      → World J
      → Type 0
  Via signed service w r v =
      ((e : JournalError) × (r ≡ failure (journal_error e))
        × (v.trace ≡ wrote (opening env signed w) (failure e) ∷ w.trace))
      ⊎ (ViaResult signed.digest (service (w.tick + 1)) r
          × OnlyWrites (wrote (opening env signed w) (success tt) ∷ w.trace) v.trace)

  -- `submitVia` writes the bytes to the journal before it asks the service; where that write fails,
  -- its failure is the result and the service is not asked. Otherwise a success and every failure
  -- are about the digest of the bytes, whatever the service and the node answer, none is a transport
  -- or a journal failure, and a failure of the service is passed on as it stated it, and only if it
  -- declares that nothing was applied;
  -- `submitVia` itself sends nothing and only writes to the journal.
  pub submit_via-Via :
      (signed : Signed) (service : ℕ → Result ServiceFailure Reply) (w : World J)
      → Ends (Via signed service w) (submit_via env signed (ask service) w)
  unfolding submit_via
  submit_via-Via signed service w = opened (env.journal.put (opening env signed w) w.journal).0
    where
      world : Result JournalError (Unit {0}) → World J
      world r = record w {
        tick = w.tick + 1;
        journal = (env.journal.put (opening env signed w) w.journal).1;
        trace = wrote (opening env signed w) r ∷ w.trace;
      }

      asked : World J
      asked = record (world (success tt)) { tick = w.tick + 1 + 1 }

      opened :
          (r : Result JournalError (Unit {0}))
          → Ends
              (Via signed service w)
              ((from_journal env r >>= λ _. ask service >>= after_service env signed) (world r))
      opened (failure e) = inl (e, refl, refl)
      opened (success u) = inr (after_service-ViaAt signed (service (w.tick + 1)) asked)
