-- ===== src/Tx/Recover/Reads.antt =====
-- What each read of a recovery tells about the node's answers, tick by tick.
use sui_effect.Prelude.{
  ℕ, Bool, true, false, Option, none, some, ◌≡◌, refl, arith, ltb, ◌≤◌, ◌<◌, ◌+◌, ◌⊎◌, inl, inr,
  if◌then◌else◌, ltb→lt,
}
use sui_effect.Schemas.{Signed, max_epoch_of, max_timestamp_ms_of}
use sui_effect.Journal.{Result, success, failure}
use sui_effect.Tx.Network.{
  Env, World, Failure, transport_error, TransportError, from_transport, ◌>>=◌,
}
use sui_effect.Tx.Evidence.{past_epoch, past_time, expiry_closed}
use sui_effect.Tx.Ends.{Post, Post-bind}

abbrev pub IsTransport : Failure → Type 0
IsTransport (transport_error e) = Unit
IsTransport _ = ⊥

module _ {J : Type 0} (env : Env J) where
  open env use {node, config}

  -- The node said at this tick that the window of these bytes is over.
  abbrev pub ClosedAt : Signed → ℕ → Type 0
  ClosedAt signed t =
      ((last : ℕ) × (epoch : ℕ) × (max_epoch_of signed.expiration ≡ some last)
        × (node.current_epoch t ≡ success epoch)
        × (last < epoch))
      ⊎ ((bound : ℕ) × (now : ℕ) × (max_timestamp_ms_of signed.expiration ≡ some bound)
          × (node.chain_time t ≡ success now)
          × (bound + config.expiry_margin < now))

  -- A closed window was observed at some tick from `w` on and before `v`.
  abbrev pub Observed : Signed → ℕ → Bool → World J → Type 0
  Observed signed start b v =
      (start ≤ v.tick) × (b ≡ true → (t : ℕ) × (start ≤ t) × (t < v.tick) × ClosedAt signed t)

  past_epoch-Post :
      (signed : Signed) (w : World J)
      → Post
          (Observed signed w.tick)
          IsTransport
          (past_epoch env (max_epoch_of signed.expiration) w)
  past_epoch-Post signed w = bounded (max_epoch_of signed.expiration) refl
    where
      answered :
          (last : ℕ)
          → max_epoch_of signed.expiration ≡ some last
          → (r : Result TransportError ℕ) → node.current_epoch w.tick ≡ r
          → Post (Observed signed w.tick) IsTransport (
              (from_transport r >>= λ epoch. λ v. (success (ltb last epoch), v))
                (record w { tick = w.tick + 1 }))
      answered last bound (success epoch) q = (
        omega arith,
        λ h. (w.tick, omega arith, omega arith, inl (last, epoch, bound, q, ltb→lt last epoch h)),
      )
      answered last bound (failure e) q = tt

      bounded :
          (o : Option ℕ)
          → max_epoch_of signed.expiration ≡ o
          → Post (Observed signed w.tick) IsTransport (past_epoch env o w)
      bounded none q = (omega arith, λ h. cc)
      bounded (some last) q = answered last q (node.current_epoch w.tick) refl

  past_time-Post :
      (signed : Signed) (w : World J)
      → Post
          (Observed signed w.tick)
          IsTransport
          (past_time env (max_timestamp_ms_of signed.expiration) w)
  past_time-Post signed w = bounded (max_timestamp_ms_of signed.expiration) refl
    where
      answered :
          (bound : ℕ)
          → max_timestamp_ms_of signed.expiration ≡ some bound
          → (r : Result TransportError ℕ) → node.chain_time w.tick ≡ r
          → Post (Observed signed w.tick) IsTransport (
              (from_transport r >>= λ now.
              λ v. (success (ltb (bound + config.expiry_margin) now), v))
                (record w { tick = w.tick + 1 }))
      answered bound set (success now) q = (
        omega arith,
        λ h. (
          w.tick,
          omega arith,
          omega arith,
          inr (bound, now, set, q, ltb→lt (bound + config.expiry_margin) now h),
        ),
      )
      answered bound set (failure e) q = tt

      bounded :
          (o : Option ℕ)
          → max_timestamp_ms_of signed.expiration ≡ o
          → Post (Observed signed w.tick) IsTransport (past_time env o w)
      bounded none q = (omega arith, λ h. cc)
      bounded (some bound) q = answered bound q (node.chain_time w.tick) refl

  pub expiry_closed-Post :
      (signed : Signed) (w : World J)
      → Post (Observed signed w.tick) IsTransport (expiry_closed env signed w)
  unfolding expiry_closed
  expiry_closed-Post signed w =
      Post-bind (Observed signed w.tick) (Observed signed w.tick) IsTransport
        (past_epoch env (max_epoch_of signed.expiration)) _ w (past_epoch-Post signed w) next
    where
      later :
          (v : World J)
          → w.tick ≤ v.tick
          → (x : Result Failure Bool × World J) → Post (Observed signed v.tick) IsTransport x
          → Post (Observed signed w.tick) IsTransport x
      later v le (success b, u) h =
          (omega arith, λ q. let (t, a, c, closed) = h.1 q in (t, omega arith, c, closed))
      later v le (failure e, u) h = h

      next :
          (b : Bool) (v : World J)
          → Observed signed w.tick b v
          → Post (Observed signed w.tick) IsTransport (
              (if b
                  then (λ u. (success true, u))
                  else past_time env (max_timestamp_ms_of signed.expiration))
                v)
      next true v h = h
      next false v h =
          later v h.0 (past_time env (max_timestamp_ms_of signed.expiration) v)
            (past_time-Post signed v)
