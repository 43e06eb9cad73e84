-- ===== src/Tx/Submit/Concluding.antt =====
-- `conclude_sending`: what `send` answers, once the attempts are over.
use sui_effect.Prelude.{
  ℕ, Bool, true, false, List, ◌≡◌, refl, ◌≤◌, ◌==◌, ◌&&◌, not, text_eq, text_eq_iff, if◌then◌else◌,
  arith, ==_iff,
}
use sui_effect.Schemas.{Signed}
use sui_effect.Journal.{Result, success, failure}
use sui_effect.Tx.Network.{
  Env, World, Eff, Failure, transport_error, execution_failed, not_applied, submission_unknown,
  journal_error, Executed, Event, ◌>>=◌, pure, raise, ask,
}
use sui_effect.Tx.Submit.{
  Sending, landed, aborted, unanswered, journal_refused, refused_outright, foreign_error,
  conclude_sending, rechecks_of, reconcile_signed,
}
use sui_effect.Tx.Submit.Trace.{Sends, Sends-OnlyWrites, Ends, Ends-bind, Logs}
use sui_effect.Tx.Submit.Settling.{Asked, journal_refused-Logs, reconcile_signed-Asked}
use sui_effect.Tx.Submit.Attempts.{attempts_of}

-- What the result of a send says, after `k` sends.
abbrev pub Verdict : (Executed → Type 0) → Signed → Bool → ℕ → Result Failure Executed → Type 0
Verdict Q signed resent k (success e) = Q e
Verdict Q signed resent k (failure (transport_error e)) =
    (k ≡ 1) × (resent ≡ false) × (refused_outright e ≡ true)
Verdict Q signed resent k (failure (execution_failed e)) = e.digest ≡ signed.digest
Verdict Q signed resent k (failure (not_applied e)) = e.digest ≡ signed.digest
Verdict Q signed resent k (failure (submission_unknown e)) = e.digest ≡ signed.digest
Verdict Q signed resent k (failure (journal_error e)) = ⊥

abbrev pub Same : Signed → Executed → Type 0
Same signed e = e.digest ≡ signed.digest

module _ {J : Type 0} where
  -- At least one send of these bytes, at most `m`, and a result that says what came of them.
  abbrev pub Finished :
      (Executed → Type 0)
      → Signed
      → Bool
      → List Event
      → ℕ
      → Result Failure Executed
      → World J
      → Type 0
  Finished Q signed resent old m r v =
      (k : ℕ) × (1 ≤ k) × (k ≤ m) × Sends signed old k v.trace × Verdict Q signed resent k r

module _ {J : Type 0} (env : Env J) where
  open env use {config}

  Asked-Finished :
      (signed : Signed) (resent : Bool) (old : List Event) (m k : ℕ) (w : World J)
      (x : Result Failure Executed × World J)
      → 1 ≤ k
      → k ≤ m
      → Sends signed old k w.trace
      → Ends (Asked env signed.digest w) x
      → Ends (Finished (Same signed) signed resent old m) x
  Asked-Finished signed resent old m k w (success e, v) lo hi h (q, o) =
      (k, lo, hi, Sends-OnlyWrites h o, q)
  Asked-Finished signed resent old m k w (failure (transport_error e), v) lo hi h (q, o) = absurd q
  Asked-Finished signed resent old m k w (failure (execution_failed e), v) lo hi h (q, o) =
      (k, lo, hi, Sends-OnlyWrites h o, q)
  Asked-Finished signed resent old m k w (failure (not_applied e), v) lo hi h (q, o) =
      (k, lo, hi, Sends-OnlyWrites h o, q.0)
  Asked-Finished signed resent old m k w (failure (submission_unknown e), v) lo hi h (q, o) =
      (k, lo, hi, Sends-OnlyWrites h o, q)
  Asked-Finished signed resent old m k w (failure (journal_error e), v) lo hi h (q, o) = absurd q

  -- `conclude_sending` after `attempts_of s` sends.
  pub conclude-Finished :
      (signed : Signed) (resent : Bool) (old : List Event) (m : ℕ) (s : Sending) (w : World J)
      → 1 ≤ attempts_of s
      → attempts_of s ≤ m
      → Sends signed old (attempts_of s) w.trace
      → Ends (Finished (Same signed) signed resent old m) (conclude_sending env signed resent s w)
  unfolding conclude_sending
  conclude-Finished signed resent old m (landed e n) w lo hi h =
      own (text_eq e.digest signed.digest) refl config.await_visibility
    where
      foreign : Eff J Executed
      foreign = reconcile_signed env signed (foreign_error e.digest signed.digest) n 0

      own :
          (b : Bool)
          → text_eq e.digest signed.digest ≡ b
          → (visible : Bool)
          → Ends (Finished (Same signed) signed resent old m) (
              (if b
                  then ((if visible then ask (λ _. tt {0}) else pure tt) >>= λ _. pure e)
                  else foreign)
                w)
      own true q true = (n, lo, hi, h, (text_eq_iff e.digest signed.digest).0 q)
      own true q false = (n, lo, hi, h, (text_eq_iff e.digest signed.digest).0 q)
      own false q visible =
          Asked-Finished signed resent old m n w (foreign w) lo hi h
            (reconcile_signed-Asked env signed (foreign_error e.digest signed.digest) n 0 w)
  conclude-Finished signed resent old m (aborted e n) w lo hi h =
      own (text_eq e.digest signed.digest) refl
    where
      foreign : Eff J Executed
      foreign = reconcile_signed env signed (foreign_error e.digest signed.digest) n 0

      own :
          (b : Bool)
          → text_eq e.digest signed.digest ≡ b
          → Ends
              (Finished (Same signed) signed resent old m)
              ((if b then raise (execution_failed e) else foreign) w)
      own true q = (n, lo, hi, h, (text_eq_iff e.digest signed.digest).0 q)
      own false q =
          Asked-Finished signed resent old m n w (foreign w) lo hi h
            (reconcile_signed-Asked env signed (foreign_error e.digest signed.digest) n 0 w)
  conclude-Finished signed resent old m (unanswered e n) w lo hi h =
      either (not resent && (n == 1) && refused_outright e) refl
    where
      settled : Eff J Executed
      settled = reconcile_signed env signed e n (rechecks_of env e)

      refused_at : (Unit {0}) → Eff J Executed
      refused_at u = raise (transport_error e)

      reasons : (a b c : Bool) → (not a && b && c) ≡ true → (a ≡ false) × (b ≡ true) × (c ≡ true)
      reasons false true true q = (refl, refl, refl)
      reasons false true false q = ground arith
      reasons false false c q = ground arith
      reasons true b c q = ground arith

      either :
          (b : Bool)
          → (not resent && (n == 1) && refused_outright e) ≡ b
          → Ends
              (Finished (Same signed) signed resent old m)
              ((if b then (journal_refused env signed >>= refused_at) else settled) w)
      either true q =
          let (fresh, one, outright) = reasons resent (n == 1) (refused_outright e) q in
          Ends-bind (Logs w (λ _. Unit {0})) (Finished (Same signed) signed resent old m)
            (journal_refused env signed) refused_at w (journal_refused-Logs env signed w)
            (λ u v o. (n, lo, hi, Sends-OnlyWrites h o.1, ((==_iff n 1).0 one, fresh, outright)))
            (λ f v o. absurd o)
      either false q =
          Asked-Finished signed resent old m n w (settled w) lo hi h
            (reconcile_signed-Asked env signed e n (rechecks_of env e) w)
