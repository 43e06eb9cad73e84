-- ===== src/Tx/Recover/Soundness.antt =====
-- services/Tx.ts: what `reconcile` may say of a transaction, over a chain and nodes that are honest about it.
use sui_effect.Prelude.{
  ℕ, Option, none, some, ◌≡◌, refl, arith, text_eq, text_eq_iff, ◌≤◌, ◌<◌, ◌+◌, ◌⊎◌, In,
}
use sui_effect.Schemas.{Digest, Signed}
use sui_effect.Journal.{success}
use sui_effect.Tx.Bytes.{PinnedRef, pinned_refs_of_bytes}
use sui_effect.Tx.Network.{
  Env, World, Failure, transport_error, execution_failed, not_applied, submission_unknown,
  journal_error, Executed, TransactionAnswer, found, failed, missing, epoch_then_miss, never,
  ExpiryEvidence,
}
use sui_effect.Tx.Evidence.{covered, unreported, history_of, expiry_closed}
use sui_effect.Tx.Recover.{
  lookup, lookup_answer, ExpiryRule, landed, open_window, closed_window, expiry_rule, third_lookup,
  second_round, first_round, or_continue,
}
use sui_effect.Tx.Ends.{Post, Post-bind, Post-if, Post-weaken}
use sui_effect.Tx.Recover.Reads.{IsTransport, ClosedAt, Observed, expiry_closed-Post}
use sui_effect.Tx.Recover.Consumers.{TakenByOther}

module _ {J : Type 0} (env : Env J) where
  open env use {node, config, sdk}

  -- The node's history reaches back far enough, or is not reported, as read at `u`.
  abbrev pub Vouches : Signed → World J → Type 0
  Vouches signed u =
      ((history_of env signed u).0 ≡ success covered)
      ⊎ ((history_of env signed u).0 ≡ success unreported)

  -- What is relied on of the chain and the nodes. `applied t` says that the transaction takes
  -- effect at tick `t`.
  pub record Honest (digest : Digest) (signed : Signed) (applied : ℕ → Type 0) : Type 0 where
    -- Nothing takes effect after its window was seen closed.
    pub closed_window_ends : (t a : ℕ) → ClosedAt env signed t → applied a → a ≤ t
    -- A node that holds the window's history, as it says later, has not missed what took effect.
    pub history_complete :
        (t a : ℕ) (u : World J)
        → node.get_transaction digest t ≡ missing
        → t ≤ u.tick
        → Vouches signed u
        → applied a
        → t < a
    -- One version of an object is consumed once.
    pub consumed_once :
        (ref : PinnedRef)
        → In ref (pinned_refs_of_bytes sdk signed.bytes)
        → TakenByOther env digest ref
        → (a : ℕ) → applied a
        → ⊥

  abbrev pub NeverApplied : (ℕ → Type 0) → Type 0
  NeverApplied applied = (a : ℕ) → applied a → ⊥

  -- What a failure says of a transaction.
  abbrev pub Truthful : Digest → (ℕ → Type 0) → Failure → Type 0
  Truthful digest applied (transport_error e) = Unit
  Truthful digest applied (execution_failed e) = e.digest ≡ digest
  Truthful digest applied (not_applied e) = (e.digest ≡ digest) × NeverApplied applied
  Truthful digest applied (submission_unknown e) = e.digest ≡ digest
  Truthful digest applied (journal_error e) = ⊥

  -- The same, where a transport failure has become a `SubmissionUnknown`.
  abbrev pub Reconciled : Digest → (ℕ → Type 0) → Failure → Type 0
  Reconciled digest applied (transport_error e) = ⊥
  Reconciled digest applied (execution_failed e) = e.digest ≡ digest
  Reconciled digest applied (not_applied e) = (e.digest ≡ digest) × NeverApplied applied
  Reconciled digest applied (submission_unknown e) = e.digest ≡ digest
  Reconciled digest applied (journal_error e) = ⊥

  pub IsTransport-Truthful :
      (digest : Digest) (applied : ℕ → Type 0) (e : Failure)
      → IsTransport e
      → Truthful digest applied e
  IsTransport-Truthful digest applied (transport_error e) h = tt
  IsTransport-Truthful digest applied (execution_failed e) h = absurd h
  IsTransport-Truthful digest applied (not_applied e) h = absurd h
  IsTransport-Truthful digest applied (submission_unknown e) h = absurd h
  IsTransport-Truthful digest applied (journal_error e) h = absurd h

  -- What one lookup tells.
  abbrev pub Looked : Digest → ℕ → Option Executed → World J → Type 0
  Looked digest start (some e) v = (start < v.tick) × (e.digest ≡ digest)
  Looked digest start none v = (start < v.tick) × (node.get_transaction digest start ≡ missing)

  module _ (digest : Digest) (applied : ℕ → Type 0) where
    pub lookup-Post :
        (w : World J) → Post (Looked digest w.tick) (Truthful digest applied) (lookup env digest w)
    unfolding lookup
    lookup-Post w = answered (node.get_transaction digest w.tick) refl
      where
        answered :
            (a : TransactionAnswer)
            → node.get_transaction digest w.tick ≡ a
            → Post
                (Looked digest w.tick)
                (Truthful digest applied)
                (lookup_answer env digest a (record w { tick = w.tick + 1 }))
        answered (found e) q =
            Post-if (Looked digest w.tick) (Truthful digest applied) (text_eq e.digest digest) _ _ _
              (λ same. (omega arith, (text_eq_iff e.digest digest).0 same)) (λ _. tt)
        answered (failed e) q =
            Post-if (Looked digest w.tick) (Truthful digest applied) (text_eq e.digest digest) _ _ _
              (λ same. (text_eq_iff e.digest digest).0 same) (λ _. tt)
        answered missing q = (omega arith, q)
        answered (TransactionAnswer.unreachable e) q = tt

    abbrev pub Ours : Executed → World J → Type 0
    Ours e v = e.digest ≡ digest

    module _ (signed : Signed) where
      -- A closed window seen before a miss.
      abbrev pub ClosedThenMissed : ℕ → Type 0
      ClosedThenMissed end =
          (t m : ℕ) × (t < m)
          × (m < end)
          × ClosedAt env signed t
          × (node.get_transaction digest m ≡ missing)

      abbrev pub Ruled : ExpiryRule → World J → Type 0
      Ruled (landed e) v = e.digest ≡ digest
      Ruled open_window v = Unit
      Ruled closed_window v = ClosedThenMissed v.tick

      closed-Post :
          (w : World J)
          → Post (Observed env signed w.tick) (Truthful digest applied) (expiry_closed env signed w)
      closed-Post w =
          Post-weaken (Observed env signed w.tick) _ IsTransport (Truthful digest applied) _
            (λ b v h. h) (IsTransport-Truthful digest applied) (expiry_closed-Post env signed w)

      third_lookup-Post :
          (t : ℕ) (w : World J)
          → t < w.tick
          → ClosedAt env signed t
          → Post Ruled (Truthful digest applied) (third_lookup env digest w)
      third_lookup-Post t w lt closed =
          Post-bind (Looked digest w.tick) Ruled (Truthful digest applied) (lookup env digest) _ w
            (lookup-Post w) next
        where
          next :
              (o : Option Executed) (v : World J)
              → Looked digest w.tick o v
              → Post Ruled (Truthful digest applied) (
                  or_continue env
                    (λ e u. (success (landed e), u))
                    (λ u. (success closed_window, u))
                    o
                    v)
          next (some e) v h = h.1
          next none v h = (t, w.tick, lt, h.0, closed, h.1)

      second_round-Post :
          (w : World J) → Post Ruled (Truthful digest applied) (second_round env digest signed w)
      second_round-Post w =
          Post-bind (Observed env signed (w.tick + 1)) Ruled (Truthful digest applied)
            (expiry_closed env signed) _ (record w { tick = w.tick + 1 })
            (closed-Post (record w { tick = w.tick + 1 }))
            (λ b v h.
              Post-if Ruled (Truthful digest applied) b _ _ v
                (λ q. let (t, a, c, closed) = h.1 q in third_lookup-Post t v c closed) (λ _. tt))

      first_round-Post :
          (w : World J) → Post Ruled (Truthful digest applied) (first_round env digest signed w)
      first_round-Post w =
          Post-bind (Observed env signed w.tick) Ruled (Truthful digest applied)
            (expiry_closed env signed) _ w (closed-Post w)
            (λ b v h.
              Post-if Ruled (Truthful digest applied) b _ _ v
                (λ _.
                  Post-bind (Looked digest v.tick) Ruled (Truthful digest applied)
                    (lookup env digest) _ v (lookup-Post v) (next v.tick))
                (λ _. tt))
        where
          next :
              (start : ℕ) (o : Option Executed) (v : World J)
              → Looked digest start o v
              → Post Ruled (Truthful digest applied) (
                  or_continue env
                    (λ e u. (success (landed e), u))
                    (second_round env digest signed)
                    o
                    v)
          next start (some e) v h = h.1
          next start none v h = second_round-Post v

      pub expiry_rule-Post :
          (p : ExpiryEvidence) (w : World J)
          → Post Ruled (Truthful digest applied) (expiry_rule env digest signed p w)
      unfolding expiry_rule
      expiry_rule-Post never w = tt
      expiry_rule-Post epoch_then_miss w = first_round-Post w
