-- ===== src/Tx/Recover/ReadOnly.antt =====
-- services/Tx.ts: the recovery that `reconcile` makes before it writes its answer to the journal.
use sui_effect.Prelude.{
  ℕ, ◌+◌, Bool, true, false, Option, none, some, List, [], ◌∷◌, ◌≡◌, refl, arith, ◌∙◌, Text,
  if◌then◌else◌,
}
use sui_effect.Schemas.{Digest, Signed}
use sui_effect.Journal.{Result, success, failure}
use sui_effect.Tx.Bytes.{PinnedRef, pinned_refs_of_bytes}
use sui_effect.Tx.Network.{
  Env, World, Eff, Failure, Executed, handle, and_then, pure, ◌>>=◌, epoch_then_miss, never,
  ExpiryEvidence, raise, Pruned, other_chain, transport_error, execution_failed, not_applied,
  submission_unknown, journal_error,
}
use sui_effect.Tx.Evidence.{
  InputEvidence, no_evidence, consumed_by_other, applied_by_us, unreadable, History, covered,
  unreported, pruned, Remembered, RefVerdict, unmoved, inconclusive, ours, others, next_ref,
  remember, consumed_version_of, input_state_of, verdict_of_ref, evidence_from, input_evidence,
  expiry_closed, history_of, InputState, absent_state, present_state, verdict_of_state,
  verdict_of_id,
}
use sui_effect.Tx.Recover.{
  ReconcileInput, digest_of_input, signed_of_input, lookup, ExpiryRule, landed, open_window,
  closed_window, expiry_rule, third_lookup, second_round, unknown, or_continue, weigh, after_rule,
  after_first, conclude, conclude_expired, recover, settle_read, chain_guard, reconcile_unjournaled,
}

module _ {J : Type 0} where
  pub record Kept (w v : World J) : Type 0 where
    pub trace : v.trace ≡ w.trace
    pub journal : v.journal ≡ w.journal

  abbrev pub ReadOnly : {A : Type 0} → Eff J A → Type 0
  ReadOnly m = (w : World J) → Kept w (m w).1

  pub Kept-trans : {u v w : World J} → Kept u v → Kept v w → Kept u w
  Kept-trans h k = record { trace = k.trace ∙ h.trace; journal = k.journal ∙ h.journal }

  pub Kept-refl : {w : World J} → Kept w w
  Kept-refl = record { trace = refl; journal = refl }

  module _ {A B : Type 0} (m : Eff J A) where
    pub ReadOnly-bind :
        (f : A → Eff J B) → ReadOnly m → ((a : A) → ReadOnly (f a)) → ReadOnly (m >>= f)
    ReadOnly-bind f hm hf w = after (m w) (hm w)
      where
        after : (x : Result Failure A × World J) → Kept w x.1 → Kept w (and_then f x.0 x.1).1
        after (success a, v) h = Kept-trans h (hf a v)
        after (failure e, v) h = h

    pub ReadOnly-handle :
        (f : Result Failure A → Eff J B)
        → ReadOnly m
        → ((r : Result Failure A) → ReadOnly (f r))
        → ReadOnly (handle m f)
    ReadOnly-handle f hm hf w = Kept-trans (hm w) (hf (m w).0 (m w).1)

module _ {J : Type 0} (env : Env J) where
  open env use {node, config, sdk}

  lookup-ReadOnly : (d : Digest) → ReadOnly (lookup env d)
  unfolding lookup
  lookup-ReadOnly d w = ground arith

  input_state_of-ReadOnly : (id : Digest) → ReadOnly (input_state_of env id)
  unfolding input_state_of
  input_state_of-ReadOnly id w = ground arith

  consumed_version_of-ReadOnly : (by id : Digest) → ReadOnly (consumed_version_of env by id)
  unfolding consumed_version_of
  consumed_version_of-ReadOnly by id w = ground arith

  pub expiry_closed-ReadOnly : (signed : Signed) → ReadOnly (expiry_closed env signed)
  unfolding expiry_closed
  expiry_closed-ReadOnly signed w = ground arith

  history_of-ReadOnly : (signed : Signed) → ReadOnly (history_of env signed)
  unfolding history_of
  history_of-ReadOnly signed w = ground arith

  verdict_of_state-ReadOnly :
      (d id : Digest) (n : ℕ) (state : InputState) → ReadOnly (verdict_of_state env d id n state)
  verdict_of_state-ReadOnly d id n absent_state w = Kept-refl
  verdict_of_state-ReadOnly d id n (present_state v none) w = ground arith
  verdict_of_state-ReadOnly d id n (present_state v (some by)) w =
      ground (arith, consumed_version_of-ReadOnly by id w)

  verdict_of_id-ReadOnly :
      (d : Digest) (n : ℕ) (id : Option Digest) → ReadOnly (verdict_of_id env d n id)
  verdict_of_id-ReadOnly d n none = λ w. Kept-refl
  verdict_of_id-ReadOnly d n (some id) =
      ReadOnly-bind (input_state_of env id) _ (input_state_of-ReadOnly id)
        (verdict_of_state-ReadOnly d id n)

  verdict_of_ref-ReadOnly : (d : Digest) (ref : PinnedRef) → ReadOnly (verdict_of_ref env d ref)
  unfolding verdict_of_ref
  verdict_of_ref-ReadOnly d ref =
      verdict_of_id-ReadOnly d ref.version (sdk.decode_object_id ref.object_id)

  next_ref-ReadOnly :
      (go : Remembered → Eff J InputEvidence) (mem : Remembered) (v : RefVerdict)
      → ((m : Remembered) → ReadOnly (go m))
      → ReadOnly (next_ref env go mem v)
  next_ref-ReadOnly go mem unmoved h = h mem
  next_ref-ReadOnly go mem (inconclusive id why) h = h (remember mem id why)
  next_ref-ReadOnly go mem (ours id) h = λ w. Kept-refl
  next_ref-ReadOnly go mem (others id by) h = λ w. Kept-refl

  evidence_from-ReadOnly :
      (d : Digest) (refs : List PinnedRef) (mem : Remembered)
      → ReadOnly (evidence_from env d refs mem)
  unfolding evidence_from
  evidence_from-ReadOnly d [] mem = λ w. Kept-refl
  evidence_from-ReadOnly d (ref ∷ refs) mem =
      ReadOnly-bind (verdict_of_ref env d ref) _ (verdict_of_ref-ReadOnly d ref)
        (λ v. next_ref-ReadOnly (evidence_from env d refs) mem v (evidence_from-ReadOnly d refs))

  input_evidence-ReadOnly : (d : Digest) (signed : Signed) → ReadOnly (input_evidence env d signed)
  unfolding input_evidence
  input_evidence-ReadOnly d signed =
      evidence_from-ReadOnly d (pinned_refs_of_bytes sdk signed.bytes) none

  expiry_rule-ReadOnly :
      (d : Digest) (signed : Signed) (p : ExpiryEvidence) → ReadOnly (expiry_rule env d signed p)
  unfolding expiry_rule
  expiry_rule-ReadOnly d signed never = λ w. Kept-refl
  expiry_rule-ReadOnly d signed epoch_then_miss =
      ReadOnly-bind (expiry_closed env signed) _ (expiry_closed-ReadOnly signed) first
    where
      third : (b : Bool) → ReadOnly (if b then third_lookup env d else pure open_window)
      third false = λ w. Kept-refl
      third true =
          ReadOnly-bind (lookup env d) _ (lookup-ReadOnly d)
            (elim [ none ↦ λ w. Kept-refl | some e ↦ λ w. Kept-refl ])

      recheck :
          ReadOnly
            (expiry_closed env signed >>= λ b. if b then third_lookup env d else pure open_window)
      recheck =
          ReadOnly-bind (expiry_closed env signed)
            (λ b. if b then third_lookup env d else pure open_window)
            (expiry_closed-ReadOnly signed) third

      round : ReadOnly (second_round env d signed)
      round w =
          Kept-trans {v = record w { tick = w.tick + 1 }} (record { trace = refl; journal = refl })
            (recheck (record w { tick = w.tick + 1 }))

      second :
          (o : Option Executed)
          → ReadOnly (or_continue env (λ e. pure (landed e)) (second_round env d signed) o)
      second (some e) = λ w. Kept-refl
      second none = round

      first :
          (b : Bool)
          → ReadOnly (
              if b
              then (lookup env d
                  >>= or_continue env (λ e. pure (landed e)) (second_round env d signed))
              else pure open_window)
      first false = λ w. Kept-refl
      first true = ReadOnly-bind (lookup env d) _ (lookup-ReadOnly d) second

  conclude-ReadOnly :
      (d : Digest) (signed : Signed) (x : InputEvidence) (p : Option Pruned)
      → ReadOnly (conclude env d signed x p)
  conclude-ReadOnly d signed (applied_by_us id) p = λ w. Kept-refl
  conclude-ReadOnly d signed (consumed_by_other id by) p = λ w. Kept-refl
  conclude-ReadOnly d signed (unreadable id why) p = λ w. Kept-refl
  conclude-ReadOnly d signed no_evidence none = λ w. Kept-refl
  conclude-ReadOnly d signed no_evidence (some p) = λ w. Kept-refl

  conclude_expired-ReadOnly :
      (d : Digest) (signed : Signed) (x : InputEvidence) (h : History)
      → ReadOnly (conclude_expired env d signed x h)
  conclude_expired-ReadOnly d signed x (pruned p) = conclude-ReadOnly d signed x (some p)
  conclude_expired-ReadOnly d signed x covered = λ w. Kept-refl
  conclude_expired-ReadOnly d signed x unreported = λ w. Kept-refl

  weigh-ReadOnly :
      (d : Digest) (signed : Signed) (b : Bool) (x : InputEvidence)
      → ReadOnly (weigh env d signed b x)
  weigh-ReadOnly d signed b (applied_by_us id) =
      ReadOnly-bind (lookup env d) _ (lookup-ReadOnly d)
        (elim [ none ↦ λ w. Kept-refl | some e ↦ λ w. Kept-refl ])
  weigh-ReadOnly d signed true (consumed_by_other id by) =
      ReadOnly-bind (history_of env signed) _ (history_of-ReadOnly signed)
        (conclude_expired-ReadOnly d signed (consumed_by_other id by))
  weigh-ReadOnly d signed true (unreadable id why) =
      ReadOnly-bind (history_of env signed) _ (history_of-ReadOnly signed)
        (conclude_expired-ReadOnly d signed (unreadable id why))
  weigh-ReadOnly d signed true no_evidence =
      ReadOnly-bind (history_of env signed) _ (history_of-ReadOnly signed)
        (conclude_expired-ReadOnly d signed no_evidence)
  weigh-ReadOnly d signed false (consumed_by_other id by) =
      conclude-ReadOnly d signed (consumed_by_other id by) none
  weigh-ReadOnly d signed false (unreadable id why) =
      conclude-ReadOnly d signed (unreadable id why) none
  weigh-ReadOnly d signed false no_evidence = conclude-ReadOnly d signed no_evidence none

  after_rule-ReadOnly :
      (d : Digest) (signed : Signed) (r : ExpiryRule) → ReadOnly (after_rule env d signed r)
  after_rule-ReadOnly d signed (landed e) = λ w. Kept-refl
  after_rule-ReadOnly d signed open_window =
      ReadOnly-bind (input_evidence env d signed) _ (input_evidence-ReadOnly d signed)
        (weigh-ReadOnly d signed false)
  after_rule-ReadOnly d signed closed_window =
      ReadOnly-bind (input_evidence env d signed) _ (input_evidence-ReadOnly d signed)
        (weigh-ReadOnly d signed true)

  recover-ReadOnly : (d : Digest) (signed : Option Signed) → ReadOnly (recover env d signed)
  unfolding recover
  recover-ReadOnly d signed = guarded (chain_guard env signed)
    where
      first : (o : Option Signed) → ReadOnly (after_first env d o)
      first none = λ w. Kept-refl
      first (some s) =
          ReadOnly-bind (expiry_rule env d s config.expiry_evidence) _
            (expiry_rule-ReadOnly d s config.expiry_evidence) (after_rule-ReadOnly d s)

      next : (o : Option Executed) → ReadOnly (or_continue env pure (after_first env d signed) o)
      next (some e) = λ w. Kept-refl
      next none = first signed

      guarded :
          (o : Option Text)
          → ReadOnly (elim o as (λ _. Eff J Executed) [
            | some chain ↦ raise (unknown d signed (other_chain chain node.chain_id))
            | none ↦ lookup env d >>= or_continue env pure (after_first env d signed)
          ])
      guarded (some chain) = λ w. Kept-refl
      guarded none = ReadOnly-bind (lookup env d) _ (lookup-ReadOnly d) next

  -- The recovery before the answer is journaled sends no bytes, and does not touch the journal.
  pub reconcile_unjournaled-ReadOnly :
      (input : ReconcileInput) → ReadOnly (reconcile_unjournaled env input)
  unfolding reconcile_unjournaled
  reconcile_unjournaled-ReadOnly input =
      ReadOnly-handle (recover env (digest_of_input input) (signed_of_input input))
        (settle_read env (digest_of_input input) (signed_of_input input))
        (recover-ReadOnly (digest_of_input input) (signed_of_input input))
        (elim [
          | success e ↦ λ w. Kept-refl
          | failure (transport_error e) ↦ λ w. Kept-refl
          | failure (execution_failed e) ↦ λ w. Kept-refl
          | failure (not_applied e) ↦ λ w. Kept-refl
          | failure (submission_unknown e) ↦ λ w. Kept-refl
          | failure (journal_error e) ↦ λ w. Kept-refl
        ])
