-- ===== src/Tx/Submit/Attempts.antt =====
-- `attempt`: how many sends an attempt loop makes.
use sui_effect.Prelude.{ℕ, zero, suc, Bool, true, false, List, ◌∷◌, ◌+◌, ◌≤◌, if◌then◌else◌, arith}
use sui_effect.Schemas.{Signed}
use sui_effect.Journal.{Result, success, failure}
use sui_effect.Tx.Network.{Env, World, Failure, retryable, ExecuteAnswer, Event, pure}
use sui_effect.Tx.Submit.{Sending, landed, aborted, unanswered, after_attempt, attempt}
use sui_effect.Tx.Submit.Trace.{Sends, resend, Ends}

-- How many sends a `Sending` tells of.
abbrev pub attempts_of : Sending → ℕ
attempts_of (landed e n) = n
attempts_of (aborted e n) = n
attempts_of (unanswered e n) = n

module _ {J : Type 0} where
  -- After an attempt loop that started with `n` of at most `m` sends made: it says how many were.
  abbrev pub Attempted : Signed → List Event → ℕ → ℕ → Result Failure Sending → World J → Type 0
  Attempted signed old n m (success s) v =
      Sends signed old (attempts_of s) v.trace × (suc n ≤ attempts_of s × attempts_of s ≤ m)
  Attempted signed old n m (failure e) v = ⊥

module _ {J : Type 0} (env : Env J) where
  open env use {config}

  pub attempt-Attempted :
      (signed : Signed) (old : List Event) (m retries n : ℕ) (w : World J)
      → suc (n + retries) ≤ m
      → Sends signed old n w.trace
      → Ends (Attempted signed old n m) (attempt env signed retries n w)
  unfolding attempt
  attempt-Attempted signed old m zero n w le h =
      last (env.node.execute signed.bytes signed.signatures w.tick)
    where
      w' : World J
      w' = record w {
        tick = w.tick + 1;
        trace = Event.sent signed.bytes signed.signatures ∷ w.trace;
      }

      bounds : suc n ≤ suc n × suc n ≤ m
      bounds = (omega arith, omega arith)

      last :
          (a : ExecuteAnswer)
          → Ends
              (Attempted signed old n m)
              (after_attempt env (λ e. pure (unanswered e (suc n))) (suc n) a w')
      last (ExecuteAnswer.executed e) = (resend h, bounds)
      last (ExecuteAnswer.aborted e) = (resend h, bounds)
      last ExecuteAnswer.undecoded = (resend h, bounds)
      last (ExecuteAnswer.silent) = (resend h, bounds)
      last (ExecuteAnswer.refused e) = either (retryable e)
        where
          either :
              (b : Bool)
              → Ends
                  (Attempted signed old n m)
                  ((if b then pure (unanswered e (suc n)) else pure (unanswered e (suc n))) w')
          either true = (resend h, bounds)
          either false = (resend h, bounds)
  attempt-Attempted signed old m (suc retries) n w le h =
      next (λ v le' h'. attempt-Attempted signed old m retries (suc n) v le' h')
        (env.node.execute signed.bytes signed.signatures w.tick)
    where
      Rest : Type 0
      Rest =
          (v : World J)
          → suc (suc n + retries) ≤ m
          → Sends signed old (suc n) v.trace
          → Ends (Attempted signed old (suc n) m) (attempt env signed retries (suc n) v)

      w' : World J
      w' = record w {
        tick = w.tick + 1;
        trace = Event.sent signed.bytes signed.signatures ∷ w.trace;
      }

      bounds : suc n ≤ suc n × suc n ≤ m
      bounds = (omega arith, omega arith)

      later :
          (x : Result Failure Sending × World J)
          → Attempted signed old (suc n) m x.0 x.1
          → Attempted signed old n m x.0 x.1
      later (success s, v) q = (q.0, (omega arith, q.1.1))
      later (failure e, v) q = q

      again : Rest → Ends (Attempted signed old n m) (attempt env signed retries (suc n) w')
      again rest = later (attempt env signed retries (suc n) w') (rest w' (omega arith) (resend h))

      next :
          Rest
          → (a : ExecuteAnswer)
          → Ends
              (Attempted signed old n m)
              (after_attempt env (λ _. attempt env signed retries (suc n)) (suc n) a w')
      next rest (ExecuteAnswer.executed e) = (resend h, bounds)
      next rest (ExecuteAnswer.aborted e) = (resend h, bounds)
      next rest ExecuteAnswer.undecoded = (resend h, bounds)
      next rest (ExecuteAnswer.silent) = again rest
      next rest (ExecuteAnswer.refused e) = either (retryable e)
        where
          either :
              (b : Bool)
              → Ends (Attempted signed old n m) (
                  (if b then attempt env signed retries (suc n) else pure (unanswered e (suc n)))
                    w')
          either true = again rest
          either false = (resend h, bounds)
