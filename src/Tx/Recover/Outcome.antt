-- ===== src/Tx/Recover/Outcome.antt =====
-- From the expiry rule and the evidence to the answer of `recover` and of `reconcile`.
use sui_effect.Prelude.{
  ℕ, zero, suc, true, false, Option, none, some, List, ◌≡◌, refl, arith, Text, ◌≤◌, ◌+◌, inl, inr,
}
use sui_effect.Schemas.{Digest, Signed}
use sui_effect.Journal.{Result, success, failure}
use sui_effect.Tx.Bytes.{PinnedRef, pinned_refs_of_bytes}
use sui_effect.Tx.Network.{
  Env, World, Eff, Failure, transport_error, execution_failed, not_applied, submission_unknown,
  journal_error, Executed, Cause, other_chain, Pruned, LedgerFailure, ledger_transport,
  ledger_other, status, pure, ◌>>=◌,
}
use sui_effect.Tx.Evidence.{
  InputEvidence, no_evidence, consumed_by_other, applied_by_us, unreadable, History, covered,
  unreported, pruned, history_of, input_evidence, history_from, history_failure, is_not_found,
  compare_checkpoints, epoch_start,
}
use sui_effect.Tx.Recover.{
  ReconcileInput, digest_of_input, signed_of_input, lookup, ExpiryRule, landed, open_window,
  closed_window, expiry_rule, or_continue, ask_again, conclude, conclude_expired, weigh, after_rule,
  after_first, recover, chain_guard, settle_read, reconcile_unjournaled, with_sender, unknown,
}
use sui_effect.Tx.Ends.{Post, Post-bind, Post-if, Post-weaken, Post-self}
use sui_effect.Tx.Recover.Reads.{IsTransport}
use sui_effect.Tx.Recover.Consumers.{Evidence, input_evidence-Post}
use sui_effect.Tx.Recover.Soundness.{
  Honest, Truthful, NeverApplied, Vouches, IsTransport-Truthful, Looked, Ours, ClosedThenMissed,
  Ruled, Reconciled, lookup-Post, expiry_rule-Post,
}

module _ {J : Type 0} (env : Env J) where
  open env use {node, config, sdk}

  history_from-Post :
      (start : ℕ) (o : Option ℕ) (w : World J)
      → Post (λ h v. Unit) IsTransport (history_from env start o w)
  history_from-Post start none w = tt
  history_from-Post start (some zero) w = tt
  history_from-Post start (some (suc n)) w =
      told (node.first_checkpoint start w.tick) (record w { tick = w.tick + 1 })
    where
      told :
          (r : Result LedgerFailure (Option ℕ)) (v : World J)
          → Post
              (λ h v. Unit {0})
              IsTransport
              ((elim r as (λ _. Eff J History) [
                | success first ↦ pure (compare_checkpoints env start (suc n) first)
                | failure e ↦ history_failure env start e
              ])
                v)
      told (success first) v = tt
      told (failure (ledger_transport e)) v =
          Post-if (λ h v. Unit {0}) IsTransport (is_not_found (status e)) _ _ v (λ _. tt) (λ _. tt)
      told (failure ledger_other) v = tt

  history_of-Post :
      (signed : Signed) (w : World J) → Post (λ h v. Unit) IsTransport (history_of env signed w)
  unfolding history_of
  history_of-Post signed w =
      Post-if (λ h v. Unit) IsTransport node.has_ledger _ _ w
        (λ _. told (node.lowest_available w.tick) (record w { tick = w.tick + 1 })) (λ _. tt)
    where
      told :
          (r : Result LedgerFailure (Option ℕ)) (v : World J)
          → Post
              (λ h v. Unit {0})
              IsTransport
              ((elim r as (λ _. Eff J History) [
                | success lowest ↦ history_from env (epoch_start env signed.expiration) lowest
                | failure e ↦ history_failure env (epoch_start env signed.expiration) e
              ])
                v)
      told (success lowest) v = history_from-Post (epoch_start env signed.expiration) lowest v
      told (failure (ledger_transport e)) v =
          Post-if (λ h v. Unit {0}) IsTransport (is_not_found (status e)) _ _ v (λ _. tt) (λ _. tt)
      told (failure ledger_other) v = tt

  module _ (digest : Digest) (applied : ℕ → Type 0) (signed : Signed)
      (honest : Honest env digest signed applied) where
    abbrev refs_of : List PinnedRef
    refs_of = pinned_refs_of_bytes sdk signed.bytes

    abbrev Answers : Result Failure Executed × World J → Type 0
    Answers = Post (Ours env digest applied) (Truthful env digest applied)

    conclude-Answers :
        (x : InputEvidence) (p : Option Pruned) (start : ℕ) (w : World J)
        → Evidence env digest refs_of start x w
        → Answers (conclude env digest signed x p w)
    conclude-Answers (applied_by_us id) p start w h = refl
    conclude-Answers (consumed_by_other id by) p start w h =
        (refl, honest.consumed_once h.1.0 h.1.1 h.1.2)
    conclude-Answers (unreadable id why) p start w h = refl
    conclude-Answers no_evidence none start w h = refl
    conclude-Answers no_evidence (some p) start w h = refl

    -- A closed window before a miss, vouched for by the history, rules every tick out.
    ruled_out :
        (u : World J)
        → ClosedThenMissed env digest applied signed (u.tick)
        → Vouches env signed u
        → NeverApplied env applied
    ruled_out u (t, m, lt, before, closed, missed) vouched a at = omega (
      arith,
      honest.closed_window_ends t a closed at,
      honest.history_complete m a u missed (omega arith) vouched at,
    )

    conclude_expired-Answers :
        (x : InputEvidence) (start : ℕ) (u : World J)
        → Evidence env digest refs_of start x u
        → ClosedThenMissed env digest applied signed u.tick
        → (h : History) (v : World J) → (history_of env signed u).0 ≡ success h
        → Answers (conclude_expired env digest signed x h v)
    conclude_expired-Answers x start u e c (pruned p) v q =
        conclude-Answers x (some p) 0 v (omega arith, e.1)
    conclude_expired-Answers x start u e c covered v q = (refl, ruled_out u c (inl q))
    conclude_expired-Answers x start u e c unreported v q = (refl, ruled_out u c (inr q))

    ask_again-Answers : (why : Cause) (w : World J) → Answers (ask_again env digest signed why w)
    ask_again-Answers why w =
        Post-bind (Looked env digest w.tick) (Ours env digest applied) (Truthful env digest applied)
          (lookup env digest) _ w (lookup-Post env digest applied w) next
      where
        next :
            (o : Option Executed) (v : World J)
            → Looked env digest w.tick o v
            → Answers
                (or_continue env pure (λ u. (failure (unknown digest (some signed) why), u)) o v)
        next (some e) v h = h.1
        next none v h = refl

    ended-Missed :
        (m n : ℕ)
        → m ≤ n
        → ClosedThenMissed env digest applied signed m
        → ClosedThenMissed env digest applied signed n
    ended-Missed m n le (t, k, lt, before, closed, missed) = (t, k, lt, omega arith, closed, missed)

    weigh_closed :
        (x : InputEvidence) (start : ℕ) (u : World J)
        → Evidence env digest refs_of start x u
        → ClosedThenMissed env digest applied signed u.tick
        → Answers ((history_of env signed >>= conclude_expired env digest signed x) u)
    weigh_closed x start u e c =
        Post-bind (λ h v. (history_of env signed u).0 ≡ success h) (Ours env digest applied)
          (Truthful env digest applied) (history_of env signed) _ u
          (Post-weaken (λ (h : History) (v : World J). (history_of env signed u).0 ≡ success h) _
            IsTransport (Truthful env digest applied) (history_of env signed u) (λ h v q. q)
            (IsTransport-Truthful env digest applied)
            (Post-self IsTransport (history_of env signed u) (history_of-Post signed u)))
          (conclude_expired-Answers x start u e c)

    weigh_closed-Answers :
        (x : InputEvidence) (start : ℕ) (u : World J)
        → Evidence env digest refs_of start x u
        → ClosedThenMissed env digest applied signed u.tick
        → Answers (weigh env digest signed true x u)
    weigh_closed-Answers (applied_by_us id) start u e c = ask_again-Answers _ u
    weigh_closed-Answers (consumed_by_other id by) start u e c =
        weigh_closed (consumed_by_other id by) start u e c
    weigh_closed-Answers no_evidence start u e c = weigh_closed no_evidence start u e c
    weigh_closed-Answers (unreadable id why) start u e c =
        weigh_closed (unreadable id why) start u e c

    weigh_open-Answers :
        (x : InputEvidence) (start : ℕ) (u : World J)
        → Evidence env digest refs_of start x u
        → Answers (weigh env digest signed false x u)
    weigh_open-Answers (applied_by_us id) start u e = ask_again-Answers _ u
    weigh_open-Answers (consumed_by_other id by) start u e =
        conclude-Answers (consumed_by_other id by) none start u e
    weigh_open-Answers no_evidence start u e = conclude-Answers no_evidence none start u e
    weigh_open-Answers (unreadable id why) start u e =
        conclude-Answers (unreadable id why) none start u e

    evidence-Post :
        (w : World J)
        → Post
            (Evidence env digest refs_of w.tick)
            (Truthful env digest applied)
            (input_evidence env digest signed w)
    evidence-Post w =
        Post-weaken (Evidence env digest refs_of w.tick) _ IsTransport (Truthful env digest applied)
          _ (λ x v h. h) (IsTransport-Truthful env digest applied)
          (input_evidence-Post env digest signed w)

    after_rule-Answers :
        (r : ExpiryRule) (w : World J)
        → Ruled env digest applied signed r w
        → Answers (after_rule env digest signed r w)
    after_rule-Answers (landed e) w h = h
    after_rule-Answers open_window w h =
        Post-bind (Evidence env digest refs_of w.tick) (Ours env digest applied)
          (Truthful env digest applied) (input_evidence env digest signed) _ w (evidence-Post w)
          (λ x v e. weigh_open-Answers x w.tick v e)
    after_rule-Answers closed_window w h =
        Post-bind (Evidence env digest refs_of w.tick) (Ours env digest applied)
          (Truthful env digest applied) (input_evidence env digest signed) _ w (evidence-Post w)
          (λ x v e. weigh_closed-Answers x w.tick v e (ended-Missed w.tick v.tick e.0 h))

    after_first_signed : (w : World J) → Answers (after_first env digest (some signed) w)
    after_first_signed w =
        Post-bind (Ruled env digest applied signed) (Ours env digest applied)
          (Truthful env digest applied) (expiry_rule env digest signed config.expiry_evidence) _ w
          (expiry_rule-Post env digest applied signed config.expiry_evidence w) after_rule-Answers

  module _ (digest : Digest) (applied : ℕ → Type 0) (signed : Option Signed)
      (honest : (s : Signed) → signed ≡ some s → Honest env digest s applied) where
    after_first-Answers :
        (o : Option Signed)
        → signed ≡ o
        → (w : World J)
        → Post (Ours env digest applied) (Truthful env digest applied) (after_first env digest o w)
    after_first-Answers none q w = refl
    after_first-Answers (some s) q w = after_first_signed digest applied s (honest s q) w

    recover-Answers :
        (w : World J)
        → Post (Ours env digest applied) (Truthful env digest applied) (recover env digest signed w)
    unfolding recover
    recover-Answers w = guarded (chain_guard env signed)
      where
        next :
            (o : Option Executed) (v : World J)
            → Looked env digest w.tick o v
            → Post
                (Ours env digest applied)
                (Truthful env digest applied)
                (or_continue env pure (after_first env digest signed) o v)
        next (some e) v h = h.1
        next none v h = after_first-Answers signed refl v

        guarded :
            (o : Option Text)
            → Post (Ours env digest applied) (Truthful env digest applied) (
                (elim o as (λ _. Eff J Executed) [
                  | some chain ↦
                      λ u. (failure (unknown digest signed (other_chain chain node.chain_id)), u)
                  | none ↦
                      (lookup env digest >>= or_continue env pure (after_first env digest signed))
                ])
                  w)
        guarded (some chain) = refl
        guarded none =
            Post-bind (Looked env digest w.tick) (Ours env digest applied)
              (Truthful env digest applied) (lookup env digest) _ w
              (lookup-Post env digest applied w) next

    settle_read-Reconciled :
        (x : Result Failure Executed × World J)
        → Post (Ours env digest applied) (Truthful env digest applied) x
        → Post
            (Ours env digest applied)
            (Reconciled env digest applied)
            (settle_read env digest signed x.0 x.1)
    settle_read-Reconciled (success e, v) h = sender_kept signed
      where
        sender_kept : (o : Option Signed) → (with_sender o e).digest ≡ digest
        sender_kept none = h
        sender_kept (some s) = h
    settle_read-Reconciled (failure (transport_error e), v) h = refl
    settle_read-Reconciled (failure (execution_failed e), v) h = h
    settle_read-Reconciled (failure (not_applied e), v) h = h
    settle_read-Reconciled (failure (submission_unknown e), v) h = h
    settle_read-Reconciled (failure (journal_error e), v) h = h

  -- Let the chain and the nodes be honest about the bytes, if there are any. Then a success and an
  -- `ExecutionFailed` of `reconcile` are about the digest that was asked, every other failure names
  -- that digest, no transport or journal failure escapes, and `NotApplied` is said only of a
  -- transaction that never takes effect.
  pub reconcile_sound :
      (input : ReconcileInput) (applied : ℕ → Type 0) (w : World J)
      → ((s : Signed)
          → signed_of_input input ≡ some s
          → Honest env (digest_of_input input) s applied)
      → Post
          (Ours env (digest_of_input input) applied)
          (Reconciled env (digest_of_input input) applied)
          (reconcile_unjournaled env input w)
  unfolding reconcile_unjournaled
  reconcile_sound input applied w honest =
      settle_read-Reconciled (digest_of_input input) applied (signed_of_input input) honest
        (recover env (digest_of_input input) (signed_of_input input) w)
        (recover-Answers (digest_of_input input) applied (signed_of_input input) honest w)
