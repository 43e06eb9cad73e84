-- ===== src/Tx/Submit/Sends.antt =====
-- `send` and `submit`: what they send, and what the result says, whatever the node and the journal
-- do.
use sui_effect.Prelude.{
  or_else, is_some, Option, none, Text, ℕ, Bool, true, false, some, List, ◌∷◌, ◌≡◌, refl, ◌+◌, ◌-◌,
  max, text_eq, if◌then◌else◌, arith, ◌⊎◌, inl, inr,
}
use sui_effect.Schemas.{Signed}
use sui_effect.Journal.{JournalEntry, JournalError, Result, success, failure, signed_entry}
use sui_effect.Tx.Network.{
  Env, World, Eff, Failure, transport_error, execution_failed, not_applied, submission_unknown,
  journal_error, Executed, Event, wrote, and_then, ◌>>=◌, pure,
}
use sui_effect.Tx.Submit.{
  Sending, landed, aborted, unanswered, from_journal, journal_signed, journal_executed,
  journal_failed, attempt, journal_sending, conclude_sending, send, submit, name_sender,
}
use sui_effect.Tx.Submit.Trace.{unchanged, nothing, Sends-OnlyWrites, Ends, Ends-bind, Logs}
use sui_effect.Tx.Submit.Settling.{journal_executed-Logs, journal_failed-Logs}
use sui_effect.Tx.Submit.Attempts.{Attempted, attempt-Attempted}
use sui_effect.Tx.Submit.Concluding.{Finished, Same, conclude-Finished}

-- An answer about the bytes, which names a sender.
abbrev pub Named : Signed → Executed → Type 0
Named signed e = (e.digest ≡ signed.digest) × (is_some e.sender ≡ true)

module _ {J : Type 0} (env : Env J) where
  open env use {config}

  journal_sending-Logs :
      (signed : Signed) (s : Sending) (w : World J)
      → Ends (Logs w (λ _. Unit {0})) (journal_sending env signed s w)
  unfolding journal_sending
  journal_sending-Logs signed (landed e n) w = own (text_eq e.digest signed.digest)
    where
      own :
          (b : Bool)
          → Ends (Logs w (λ _. Unit {0})) ((if b then journal_executed env e else pure tt) w)
      own true = journal_executed-Logs env e w
      own false = (tt, unchanged)
  journal_sending-Logs signed (aborted e n) w = own (text_eq e.digest signed.digest)
    where
      own :
          (b : Bool)
          → Ends (Logs w (λ _. Unit {0})) ((if b then journal_failed env e else pure tt) w)
      own true = journal_failed-Logs env e w
      own false = (tt, unchanged)
  journal_sending-Logs signed (unanswered e n) w = (tt, unchanged)

  some_sender : (o : Option Text) (a : Text) → is_some (or_else o (some a)) ≡ true
  some_sender none a = refl
  some_sender (some b) a = refl

  Named-Finished :
      (signed : Signed) (resent : Bool) (old : List Event) (m : ℕ)
      (x : Result Failure Executed × World J)
      → Finished (Same signed) signed resent old m x.0 x.1
      → Ends
          (Finished (Named signed) signed resent old m)
          (and_then (name_sender env signed) x.0 x.1)
  Named-Finished signed resent old m (success e, v) (k, lo, hi, h, q) =
      (k, lo, hi, h, (q, some_sender e.sender signed.sender))
  Named-Finished signed resent old m (failure (transport_error e), v) h = h
  Named-Finished signed resent old m (failure (execution_failed e), v) h = h
  Named-Finished signed resent old m (failure (not_applied e), v) h = h
  Named-Finished signed resent old m (failure (submission_unknown e), v) h = h
  Named-Finished signed resent old m (failure (journal_error e), v) h = h

  abbrev after_sending : Signed → Bool → Sending → Eff J Executed
  after_sending signed resent s = journal_sending env signed s >>= λ _.
      conclude_sending env signed resent s >>= name_sender env signed

  after_sending-Finished :
      (signed : Signed) (resent : Bool) (old : List Event) (m : ℕ) (s : Sending) (w : World J)
      → Attempted signed old 0 m (success s) w
      → Ends (Finished (Named signed) signed resent old m) (after_sending signed resent s w)
  after_sending-Finished signed resent old m s w h =
      Ends-bind (Logs w (λ _. Unit {0})) (Finished (Named signed) signed resent old m)
        (journal_sending env signed s)
        (λ _. conclude_sending env signed resent s >>= name_sender env signed) w
        (journal_sending-Logs signed s w)
        (λ u v o.
          Named-Finished signed resent old m (conclude_sending env signed resent s v)
            (conclude-Finished env signed resent old m s v h.1.0 h.1.1 (Sends-OnlyWrites h.0 o.1)))
        (λ e v o. absurd o)

  -- The entry that `send` writes before it sends anything.
  abbrev pub opening : Signed → World J → JournalEntry
  opening signed w = signed_entry signed.digest signed (env.node.clock w.tick)

  -- The journal did not take the bytes, and nothing was sent.
  abbrev pub Unopened : Signed → World J → Result Failure Executed → World J → Type 0
  Unopened signed w r v =
      (e : JournalError) × (r ≡ failure (journal_error e))
      × (v.trace ≡ wrote (opening signed w) (failure e) ∷ w.trace)

  -- The journal holds the bytes, and they were sent after that.
  abbrev pub Opened : Signed → Bool → World J → Result Failure Executed → World J → Type 0
  Opened signed resent w r v =
      Finished (Named signed) signed resent (wrote (opening signed w) (success tt) ∷ w.trace)
        (max 1 config.resubmit_attempts) r v

  abbrev pub Sent : Signed → Bool → World J → Result Failure Executed → World J → Type 0
  Sent signed resent w r v = Unopened signed w r v ⊎ Opened signed resent w r v

  pub send-Sent :
      (signed : Signed) (resent : Bool) (w : World J)
      → Ends (Sent signed resent w) (send env signed resent w)
  unfolding send journal_signed
  send-Sent signed resent w = opened (env.journal.put (opening signed w) w.journal).0
    where
      world : Result JournalError (Unit {0}) → World J
      world r = record w {
        tick = w.tick + 1;
        journal = (env.journal.put (opening signed w) w.journal).1;
        trace = wrote (opening signed w) r ∷ w.trace;
      }

      attempts : Eff J Sending
      attempts = attempt env signed (config.resubmit_attempts - 1) 0

      opened :
          (r : Result JournalError (Unit {0}))
          → Ends
              (Sent signed resent w)
              ((from_journal env r >>= λ _. attempts >>= after_sending signed resent) (world r))
      opened (failure e) = inl (e, refl, refl)
      opened (success u) = inr (
          Ends-bind
            (Attempted signed (wrote (opening signed w) (success tt) ∷ w.trace) 0
              (max 1 config.resubmit_attempts))
            (Opened signed resent w) attempts (after_sending signed resent) (world (success tt))
            (attempt-Attempted env signed (wrote (opening signed w) (success tt) ∷ w.trace)
              (max 1 config.resubmit_attempts) (config.resubmit_attempts - 1) 0 (world (success tt))
              (omega arith) nothing)
            (λ s v h.
              after_sending-Finished signed resent (wrote (opening signed w) (success tt) ∷ w.trace)
                (max 1 config.resubmit_attempts) s v h)
            (λ e v h. absurd h))

  -- `submit`, whatever the node answers and the journal does, writes the bytes to the journal
  -- first. If that write fails, the result is its failure and nothing is sent. Otherwise it sends
  -- exactly these bytes and signatures, at least once and at most `max 1 resubmit_attempts` times,
  -- and writes nothing but journal entries besides; a success is about the digest of the bytes and
  -- names a sender; a transport failure is the outright refusal of the only send; every other
  -- failure names the digest of the bytes, and none is a journal failure.
  pub submit-Sent :
      (signed : Signed) (w : World J) → Ends (Sent signed false w) (submit env signed w)
  unfolding submit
  submit-Sent signed w = send-Sent signed false w
