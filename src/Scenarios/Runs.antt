-- ===== src/Scenarios/Runs.antt =====
-- The theorems, applied to the stores and the nodes of this directory.
use sui_effect.Prelude.{
  ℕ, zero, suc, true, false, none, some, List, [], ◌∷◌, ◌≡◌, ◌↔◌, ◌≤◌, ◌<◌, refl, subst, arith, inl,
  inr, Text, codes, text_eq, In,
}
use mathlib.Core.Option.{some-injective}
use sui_effect.Schemas.{Digest, Signed, max_epoch_of, max_timestamp_ms_of}
use sui_effect.Journal.{signed_entry, executed_entry, digest_of, is_unresolved}
use sui_effect.Journal.Memory.{lookup, put, list_unresolved, lookup-put, list_unresolved-put}
use sui_effect.Kv.Run.{Fate, served, lost, landed}
use sui_effect.Durable.{fail}
use sui_effect.Durable.Safety.{IsSafe}
use sui_effect.Durable.Scan.{Operation, put_entry, list, prune, open_layer, history, history-IsSafe}
use sui_effect.Tx.Network.{missing}
use sui_effect.Tx.Bytes.{Sdk, PinnedRef, shared, keeps_sender_lock, pinned_refs_of_bytes}
use sui_effect.Tx.Bytes.Pins.{IsUnpinned, keeps_sender_lock-pinned}
use sui_effect.Tx.Ends.{Post}
use sui_effect.Tx.Recover.{by_signed, digest_of_input, signed_of_input, reconcile_unjournaled}
use sui_effect.Tx.Recover.Soundness.{Honest, Reconciled, Ours}
use sui_effect.Tx.Recover.Reads.{ClosedAt}
use sui_effect.Tx.Recover.Consumers.{TakenByOther, reported}
use sui_effect.Tx.Recover.Outcome.{reconcile_sound}
use sui_effect.Tx.Submit.{settle, submit}
use sui_effect.Tx.Submit.Trace.{Ends, Logs}
use sui_effect.Tx.Submit.Settling.{About, settle-never_fails}
use sui_effect.Tx.Submit.Sends.{Sent, submit-Sent}
use sui_effect.Tx.Resubmit.{reconcile_all}
use sui_effect.Tx.Resubmit.Startup.{Settled, listed, reconcile_all-Settled}
use sui_effect.Scenarios.Stores.{pair_store, pair_codec, plain}
use sui_effect.Scenarios.Nodes.{digest, sdk, env, signed, start, restart, served_from, epoch_at}

-- A process signs, sends and dies while the answer is written; the next one lists, opens and prunes.
abbrev operations : List (Operation × List Fate)
operations =
    (put_entry (signed_entry digest (plain digest) 1), served ∷ served ∷ landed ∷ [])
    ∷ (put_entry (executed_entry digest none 2), served ∷ landed ∷ [])
    ∷ (list, served ∷ served ∷ lost ∷ [])
    ∷ (open_layer fail, served ∷ served ∷ served ∷ served ∷ [])
    ∷ (prune 5, served ∷ served ∷ served ∷ served ∷ served ∷ [])
    ∷ []

empty-IsSafe : IsSafe pair_store pair_codec []
unfolding pair_store
empty-IsSafe d t e stored read = ground arith

history-IsSafe_example : IsSafe pair_store pair_codec (history pair_store pair_codec operations [])
history-IsSafe_example = history-IsSafe pair_store pair_codec operations [] empty-IsSafe

-- The transaction takes effect at tick 3.
abbrev AtThree : ℕ → Type 0
AtThree a = a ≡ 3

late : (t : ℕ) → served_from t ≡ missing → t < 3
late zero h = omega arith
late (suc zero) h = omega arith
late (suc (suc zero)) h = omega arith
late (suc (suc (suc t))) h = ground arith

closed_late : (t : ℕ) → 5 < epoch_at t → 3 ≤ t
closed_late zero h = omega arith
closed_late (suc zero) h = omega arith
closed_late (suc (suc zero)) h = omega arith
closed_late (suc (suc (suc t))) h = omega arith

closed_window_ends : (t a : ℕ) → ClosedAt env signed t → AtThree a → a ≤ t
unfolding max_epoch_of max_timestamp_ms_of
closed_window_ends t a (inl (last, now, bound, asked, past)) at = ground (arith, closed_late t)
closed_window_ends t a (inr (bound, now, set, asked, past)) at = ground arith

nothing_reported :
    (id : Text) (asked : Digest) (t n : ℕ) → reported env id asked (served_from t) ≡ some n → ⊥
nothing_reported id asked zero n h = ground arith
nothing_reported id asked (suc zero) n h = ground arith
nothing_reported id asked (suc (suc zero)) n h = ground arith
nothing_reported id asked (suc (suc (suc t))) n h = ground arith

consumed_once :
    (ref : PinnedRef)
    → In ref (pinned_refs_of_bytes sdk signed.bytes)
    → TakenByOther env digest ref
    → (a : ℕ) → AtThree a
    → ⊥
consumed_once ref pinned taken a at =
    nothing_reported taken.id taken.asked taken.at ref.version taken.took

node-Honest : Honest env digest signed AtThree
node-Honest = record {
  closed_window_ends = closed_window_ends;
  history_complete = λ t a u miss le v at. ground (arith, late t miss);
  consumed_once = consumed_once;
}

signed-Honest :
    (s : Signed) → signed_of_input (by_signed signed) ≡ some s → Honest env digest s AtThree
unfolding signed_of_input
signed-Honest s q = subst (λ x. Honest env digest x AtThree) (some-injective signed s q) node-Honest

reconcile_sound_example :
    Post
      (Ours env digest AtThree)
      (Reconciled env digest AtThree)
      (reconcile_unjournaled env (by_signed signed) start)
unfolding digest_of_input
reconcile_sound_example = reconcile_sound env (by_signed signed) AtThree start signed-Honest

settle-never_fails_example : Ends (Logs start (About env digest)) (settle env signed 2 none 1 start)
settle-never_fails_example = settle-never_fails env signed 2 none 1 start

submit-Sent_example : Ends (Sent env signed false start) (submit env signed start)
submit-Sent_example = submit-Sent env signed start

reconcile_all-Settled_example :
    Ends (Settled env true restart (listed env restart)) (reconcile_all env true restart)
reconcile_all-Settled_example = reconcile_all-Settled env true restart

lookup-put_example :
    lookup digest (put (executed_entry digest none 2) restart.journal)
    ≡ some (executed_entry digest none 2)
unfolding text_eq digest_of
lookup-put_example = lookup-put (executed_entry digest none 2) digest restart.journal

list_unresolved-put_example :
    list_unresolved (put (executed_entry digest none 2) restart.journal) ≡ []
unfolding digest_of list_unresolved is_unresolved text_eq
list_unresolved-put_example =
    list_unresolved-put (executed_entry digest none 2) restart.journal (refl, tt)

-- A transaction with a shared input and no payment.
abbrev unpinned : Sdk
unpinned = record sdk {
  data_of_bytes = λ bytes. some (record {
    sender = some (codes "0xa");
    inputs = shared (codes "0x6") ∷ [];
    gas_owner = none;
    gas_budget = none;
    gas_price = none;
    payment = none;
  });
}

keeps_sender_lock-pinned_example :
    ((keeps_sender_lock unpinned (1 ∷ []) ≡ false)
      ↔ IsUnpinned unpinned (unpinned.data_of_bytes (1 ∷ [])))
    × (keeps_sender_lock unpinned (1 ∷ []) ≡ false → pinned_refs_of_bytes unpinned (1 ∷ []) ≡ [])
keeps_sender_lock-pinned_example = keeps_sender_lock-pinned unpinned (1 ∷ [])
