-- ===== src/Tx/Resubmit/Resend.antt =====
-- `resend`, the body of `resubmit`: what its result says, whatever the node and the journal do.
use sui_effect.Prelude.{
  ℕ, max, ◌≤◌, arith, inl, inr, sym, subst, Bool, true, false, Option, none, some, ◌≡◌, refl, Text,
  if◌then◌else◌,
}
use sui_effect.Schemas.{Digest, Signed, chain_of_signed}
use sui_effect.Journal.{Result, success, failure}
use sui_effect.Tx.Network.{
  Env, World, Eff, Failure, transport_error, execution_failed, not_applied, submission_unknown,
  journal_error, Executed, ◌>>=◌,
}
use sui_effect.Tx.Evidence.{expiry_closed}
use sui_effect.Tx.Ends.{Post}
use sui_effect.Tx.Recover.ReadOnly.{expiry_closed-ReadOnly}
use sui_effect.Tx.Recover.{foreign_chain}
use sui_effect.Tx.Recover.Reads.{IsTransport, Observed, expiry_closed-Post}
use sui_effect.Tx.Submit
use sui_effect.Tx.Submit.{
  executed_answer, failed_answer, not_applied_answer, unknown_answer, settle, send,
}
use sui_effect.Tx.Submit.Trace.{
  OnlyWrites, unchanged, one_more, Sends, nothing, write, Sends-OnlyWrites, Sends-after, Ends,
  Ends-bind, Logs,
}
use sui_effect.Tx.Submit.Settling.{About, settle-never_fails}
use sui_effect.Tx.Submit.Sends.{Sent, send-Sent}
use sui_effect.Tx.Resubmit.{seen_closed, cannot_land, settled_result, resend}

-- A result about the digest, or a journal that could not be written, and no transport failure.
abbrev pub Resent : Digest → Result Failure Executed → Type 0
Resent d (success e) = e.digest ≡ d
Resent d (failure (execution_failed e)) = e.digest ≡ d
Resent d (failure (not_applied e)) = e.digest ≡ d
Resent d (failure (submission_unknown e)) = e.digest ≡ d
Resent d (failure (transport_error e)) = ⊥
Resent d (failure (journal_error e)) = Unit

module _ {J : Type 0} (env : Env J) where
  open env use {config}

  abbrev Answers : World J → Result Failure Bool → World J → Type 0
  Answers w (success b) v = v.trace ≡ w.trace
  Answers w (failure e) v = ⊥

  seen_closed-Answers :
      (Q : Bool → World J → Type 0) (w : World J) (x : Result Failure Bool × World J)
      → Post Q IsTransport x
      → x.1.trace ≡ w.trace
      → Ends (Answers w) (seen_closed env x.0 x.1)
  seen_closed-Answers Q w (success b, v) h q = q
  seen_closed-Answers Q w (failure (transport_error e), v) h q = q
  seen_closed-Answers Q w (failure (execution_failed e), v) h q = absurd h
  seen_closed-Answers Q w (failure (not_applied e), v) h q = absurd h
  seen_closed-Answers Q w (failure (submission_unknown e), v) h q = absurd h
  seen_closed-Answers Q w (failure (journal_error e), v) h q = absurd h

  cannot_land-Answers :
      (signed : Signed) (chain : Option Text) (w : World J)
      → Ends (Answers w) (cannot_land env signed chain w)
  cannot_land-Answers signed (some chain) w = refl
  cannot_land-Answers signed none w =
      seen_closed-Answers (Observed env signed w.tick) w (expiry_closed env signed w)
        (expiry_closed-Post env signed w) (expiry_closed-ReadOnly env signed w).trace

  -- At most `max 1 resubmit_attempts` sends of these bytes, and what the result says.
  abbrev pub ResentAt : Signed → World J → Result Failure Executed → World J → Type 0
  ResentAt signed w r v =
      Resent signed.digest r
      × ((k : ℕ) × (k ≤ max 1 config.resubmit_attempts) × Sends signed w.trace k v.trace)

  Sent-ResentAt :
      (signed : Signed) (w : World J) (r : Result Failure Executed) (v : World J)
      → Sent env signed true w r v
      → ResentAt signed w r v
  Sent-ResentAt signed w r v (inl (e, q, t)) = (
    subst (λ x. Resent signed.digest x) (sym q) tt,
    (0, omega arith, subst (λ u. Sends signed w.trace 0 u) (sym t) (write _ _ nothing)),
  )
  Sent-ResentAt signed w (success e) v (inr (k, lo, hi, h, q)) =
      (q.0, (k, hi, Sends-after (one_more _ _ unchanged) h))
  Sent-ResentAt signed w (failure (transport_error e)) v (inr (k, lo, hi, h, (one, fresh, out))) =
      cc
  Sent-ResentAt signed w (failure (execution_failed e)) v (inr (k, lo, hi, h, q)) =
      (q, (k, hi, Sends-after (one_more _ _ unchanged) h))
  Sent-ResentAt signed w (failure (not_applied e)) v (inr (k, lo, hi, h, q)) =
      (q, (k, hi, Sends-after (one_more _ _ unchanged) h))
  Sent-ResentAt signed w (failure (submission_unknown e)) v (inr (k, lo, hi, h, q)) =
      (q, (k, hi, Sends-after (one_more _ _ unchanged) h))
  Sent-ResentAt signed w (failure (journal_error e)) v (inr (k, lo, hi, h, q)) = absurd q

  settled-ResentAt :
      (signed : Signed) (w v : World J) (a : Submit.Reconciled)
      → OnlyWrites w.trace v.trace
      → About env signed.digest a
      → Ends (ResentAt signed w) (settled_result env a v)
  settled-ResentAt signed w v (executed_answer e) o h =
      (h, (0, omega arith, Sends-OnlyWrites nothing o))
  settled-ResentAt signed w v (failed_answer e) o h =
      (h, (0, omega arith, Sends-OnlyWrites nothing o))
  settled-ResentAt signed w v (not_applied_answer e) o h =
      (h, (0, omega arith, Sends-OnlyWrites nothing o))
  settled-ResentAt signed w v (unknown_answer e) o h =
      (h, (0, omega arith, Sends-OnlyWrites nothing o))

  -- What a re-send does, whatever the node and the journal do.
  pub resend-ResentAt :
      (signed : Signed) (w : World J) → Ends (ResentAt signed w) (resend env signed w)
  unfolding resend
  resend-ResentAt signed w =
      Ends-bind (Answers w) (ResentAt signed w)
        (cannot_land env signed (foreign_chain env (chain_of_signed signed))) next w
        (cannot_land-Answers signed (foreign_chain env (chain_of_signed signed)) w) after
        (λ e v h. absurd h)
    where
      pointless : Eff J Executed
      pointless = settle env signed 1 none 0 >>= settled_result env

      next : Bool → Eff J Executed
      next closed = if closed then pointless else send env signed true

      moved : (v : World J) → v.trace ≡ w.trace → OnlyWrites w.trace v.trace
      moved v q = subst (λ t. OnlyWrites w.trace t) (sym q) unchanged

      weaker :
          (v : World J)
          → v.trace ≡ w.trace
          → (x : Result Failure Executed × World J) → ResentAt signed v x.0 x.1
          → ResentAt signed w x.0 x.1
      weaker v q x (h, (k, hi, s)) = (h, (k, hi, Sends-after (moved v q) s))

      after : (b : Bool) (v : World J) → v.trace ≡ w.trace → Ends (ResentAt signed w) (next b v)
      after true v q = weaker v q (pointless v) (
          Ends-bind (Logs v (About env signed.digest)) (ResentAt signed v)
            (settle env signed 1 none 0) (settled_result env) v
            (settle-never_fails env signed 1 none 0 v)
            (λ a u h. settled-ResentAt signed v u a h.1 h.0) (λ e u h. absurd h))
      after false v q = weaker v q (send env signed true v) (
          Sent-ResentAt signed v (send env signed true v).0 (send env signed true v).1
            (send-Sent env signed true v))
