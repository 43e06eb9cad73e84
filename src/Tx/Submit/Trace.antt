-- ===== src/Tx/Submit/Trace.antt =====
-- The trace of a submission: what was sent, what was written to the journal, and the answer.
use sui_effect.Prelude.{ℕ, zero, suc, List, ◌∷◌}
use sui_effect.Schemas.{Signed}
use sui_effect.Journal.{JournalEntry, JournalError, Result, success, failure}
use sui_effect.Tx.Network.{World, Eff, Failure, Event, sent, wrote, and_then, ◌>>=◌}

-- Only journal writes were added.
pub data OnlyWrites (old : List Event) : List Event → Type 0 where
  unchanged : OnlyWrites old old
  one_more :
      {t : List Event} (e : JournalEntry) (r : Result JournalError (Unit {0}))
      → OnlyWrites old t
      → OnlyWrites old (wrote e r ∷ t)

pub OnlyWrites-trans : {a b c : List Event} → OnlyWrites a b → OnlyWrites b c → OnlyWrites a c
OnlyWrites-trans h unchanged = h
OnlyWrites-trans h (one_more e r k) = one_more e r (OnlyWrites-trans h k)

-- Journal writes, and `k` sends of exactly these bytes and signatures, were added.
pub data Sends (signed : Signed) (old : List Event) : ℕ → List Event → Type 0 where
  nothing : Sends signed old zero old
  write :
      {k : ℕ} {t : List Event} (e : JournalEntry) (r : Result JournalError (Unit {0}))
      → Sends signed old k t
      → Sends signed old k (wrote e r ∷ t)
  resend :
      {k : ℕ} {t : List Event}
      → Sends signed old k t
      → Sends signed old (suc k) (sent signed.bytes signed.signatures ∷ t)

pub Sends-OnlyWrites :
    {signed : Signed} {old t u : List Event} {k : ℕ}
    → Sends signed old k t
    → OnlyWrites t u
    → Sends signed old k u
Sends-OnlyWrites h unchanged = h
Sends-OnlyWrites h (one_more e r w) = write e r (Sends-OnlyWrites h w)

-- Sends after other events are sends after the earlier ones, if only writes stand between.
pub Sends-after :
    {signed : Signed} {old t u : List Event} {k : ℕ}
    → OnlyWrites old t
    → Sends signed t k u
    → Sends signed old k u
Sends-after h nothing = Sends-OnlyWrites nothing h
Sends-after h (write e r k) = write e r (Sends-after h k)
Sends-after h (resend k) = resend (Sends-after h k)

module _ {J : Type 0} where
  -- `R` holds of the result, success or failure, and of the world it leaves.
  abbrev pub Ends :
      {A : Type 0} → (Result Failure A → World J → Type 0) → Result Failure A × World J → Type 0
  Ends R x = R x.0 x.1

  pub Ends-bind :
      {A B : Type 0} (P : Result Failure A → World J → Type 0)
      (R : Result Failure B → World J → Type 0) (m : Eff J A) (f : A → Eff J B) (w : World J)
      → Ends P (m w)
      → ((a : A) (v : World J) → P (success a) v → Ends R (f a v))
      → ((e : Failure) (v : World J) → P (failure e) v → R (failure e) v)
      → Ends R ((m >>= f) w)
  Ends-bind {A} {B} P R m f w h k l = after (m w) h
    where
      after : (x : Result Failure A × World J) → P x.0 x.1 → Ends R (and_then f x.0 x.1)
      after (success a, v) q = k a v q
      after (failure e, v) q = l e v q

  -- The effect succeeds, and only journal writes are added.
  abbrev pub Logs : {A : Type 0} → World J → (A → Type 0) → Result Failure A → World J → Type 0
  Logs w P (success a) v = P a × OnlyWrites w.trace v.trace
  Logs w P (failure e) v = ⊥

  pub Logs-bind :
      {A B : Type 0} (P : A → Type 0) (Q : B → Type 0) (m : Eff J A) (f : A → Eff J B) (w : World J)
      → Ends (Logs w P) (m w)
      → ((a : A) (v : World J) → P a → Ends (Logs v Q) (f a v))
      → Ends (Logs w Q) ((m >>= f) w)
  Logs-bind {A} {B} P Q m f w h k = Ends-bind (Logs w P) (Logs w Q) m f w h next (λ e v q. q)
    where
      lift :
          (v : World J)
          → OnlyWrites w.trace v.trace
          → (x : Result Failure B × World J) → Logs v Q x.0 x.1
          → Logs w Q x.0 x.1
      lift v o (success b, u) q = (q.0, OnlyWrites-trans o q.1)
      lift v o (failure e, u) q = q

      next : (a : A) (v : World J) → Logs w P (success a) v → Ends (Logs w Q) (f a v)
      next a v q = lift v q.1 (f a v) (k a v q.0)
