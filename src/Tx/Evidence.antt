-- ===== src/Tx/Evidence.antt =====
-- services/Tx.ts: what reading the pinned objects, the epoch, the clock and the node's history
-- proves about a transaction that the node does not know.
use sui_effect.Prelude.{
  ℕ, zero, suc, Bool, true, false, Option, none, some, List, [], ◌∷◌, Text, codes, text_eq, ltb,
  leb, ◌+◌, ◌==◌, if◌then◌else◌,
}
use sui_effect.Schemas.{
  Digest, ObjectId, Signed, Expiration, max_epoch_of, max_timestamp_ms_of, min_epoch_of,
}
use sui_effect.Journal.{success, failure}
use sui_effect.Tx.Bytes.{PinnedRef, pinned_refs_of_bytes}
use sui_effect.Tx.Network.{
  Env, Eff, transport_error, transport, bad_version, status, Inconclusive, gone, no_last_mutation,
  consumed_version_unknown, consumed_later, Pruned, no_lowest, no_epoch_start, pruned_past,
  epoch_not_served, history_unreadable, ChangedObject, TransactionAnswer, found, failed, missing,
  ObjectAnswer, present, absent, LedgerFailure, ledger_transport, ledger_other, pure, raise, ask,
  from_transport, ◌>>=◌,
}

pub data InputState : Type 0 where
  absent_state : InputState
  present_state : ℕ → Option Text → InputState

pub data InputEvidence : Type 0 where
  no_evidence : InputEvidence
  consumed_by_other : ObjectId → Text → InputEvidence
  applied_by_us : ObjectId → InputEvidence
  unreadable : ObjectId → Inconclusive → InputEvidence

-- What one pinned reference proves: nothing, for it has not moved; nothing, for a reason; that this
-- transaction moved it; or that another one consumed the pinned version.
pub data RefVerdict : Type 0 where
  unmoved : RefVerdict
  inconclusive : ObjectId → Inconclusive → RefVerdict
  ours : ObjectId → RefVerdict
  others : ObjectId → Text → RefVerdict

pub data History : Type 0 where
  covered unreported : History
  pruned : Pruned → History

-- What the loop remembers: the first reference that proved nothing.
abbrev pub Remembered : Type 0
Remembered = Option (ObjectId × Inconclusive)

abbrev pub remember : Remembered → ObjectId → Inconclusive → Remembered
remember none id why = some (id, why)
remember (some r) id why = some r

abbrev pub conclude : Remembered → InputEvidence
conclude none = no_evidence
conclude (some (id, why)) = unreadable id why

abbrev pub is_not_found : Option Text → Bool
is_not_found none = false
is_not_found (some s) = if text_eq s (codes "NOT_FOUND") then true else text_eq s (codes "5")

module _ {J : Type 0} (env : Env J) where
  open env use {node, config, sdk}

  abbrev pub state_of_answer : ObjectId → ObjectAnswer → Eff J InputState
  state_of_answer id (present none by) =
      raise (transport_error (transport (codes "getObject") false none (bad_version id)))
  state_of_answer id (present (some v) by) = pure (present_state v by)
  state_of_answer id absent = pure absent_state
  state_of_answer id (ObjectAnswer.unreachable e) = raise (transport_error e)

  unfoldable pub input_state_of : ObjectId → Eff J InputState
  input_state_of id = do answer ← ask (node.get_object id); state_of_answer id answer

  -- The first change of the wanted object decides.
  abbrev pub input_version_of : Text → List ChangedObject → Option ℕ
  input_version_of wanted [] = none
  input_version_of wanted (c ∷ cs) =
      let rest = input_version_of wanted cs in
      if text_eq (sdk.normalize_sui_address c.object_id) wanted then c.input_version else rest

  -- An answer about another transaction is no evidence.
  abbrev pub version_in : ObjectId → Text → Text → Option (List ChangedObject) → Option ℕ
  version_in id asked answered none = none
  version_in id asked answered (some changes) =
      if text_eq answered asked
      then input_version_of (sdk.normalize_sui_address id) changes
      else none

  abbrev pub consumed_in : ObjectId → Text → TransactionAnswer → Eff J (Option ℕ)
  consumed_in id by (found e) = pure (version_in id by e.digest e.effects)
  consumed_in id by (failed e) = pure (version_in id by e.digest e.effects)
  consumed_in id by missing = pure none
  consumed_in id by (TransactionAnswer.unreachable e) = raise (transport_error e)

  abbrev pub consumed_by : ObjectId → Option Digest → Eff J (Option ℕ)
  consumed_by id none = pure none
  consumed_by id (some d) = do answer ← ask (node.get_transaction d); consumed_in id d answer

  unfoldable pub consumed_version_of : Text → ObjectId → Eff J (Option ℕ)
  consumed_version_of by id = consumed_by id (sdk.decode_digest by)

  abbrev pub compare_versions : ObjectId → ℕ → Text → Option ℕ → RefVerdict
  compare_versions id pinned by none = inconclusive id (consumed_version_unknown by)
  compare_versions id pinned by (some v) =
      if v == pinned then others id by else inconclusive id (consumed_later by v pinned)

  abbrev pub verdict_of_mutation : Digest → ObjectId → ℕ → Option Text → Eff J RefVerdict
  verdict_of_mutation digest id pinned none = pure (inconclusive id no_last_mutation)
  verdict_of_mutation digest id pinned (some by) =
      if text_eq by digest
      then pure (ours id)
      else (do consumed ← consumed_version_of by id; pure (compare_versions id pinned by consumed))

  abbrev pub verdict_of_state : Digest → ObjectId → ℕ → InputState → Eff J RefVerdict
  verdict_of_state digest id pinned absent_state = pure (inconclusive id gone)
  verdict_of_state digest id pinned (present_state v by) =
      if leb v pinned then pure unmoved else verdict_of_mutation digest id pinned by

  abbrev pub verdict_of_id : Digest → ℕ → Option ObjectId → Eff J RefVerdict
  verdict_of_id digest version none = pure unmoved
  verdict_of_id digest version (some id) = do
    state ← input_state_of id
    verdict_of_state digest id version state

  -- One round of the loop of `inputEvidence`.
  unfoldable pub verdict_of_ref : Digest → PinnedRef → Eff J RefVerdict
  unfolding input_state_of consumed_version_of
  verdict_of_ref digest ref = verdict_of_id digest ref.version (sdk.decode_object_id ref.object_id)

  -- What a verdict does to the loop, where `go` is the rest of it.
  abbrev pub next_ref :
      (Remembered → Eff J InputEvidence) → Remembered → RefVerdict → Eff J InputEvidence
  next_ref go mem unmoved = go mem
  next_ref go mem (inconclusive id why) = go (remember mem id why)
  next_ref go mem (ours id) = pure (applied_by_us id)
  next_ref go mem (others id by) = pure (consumed_by_other id by)

  unfoldable pub evidence_from : Digest → List PinnedRef → Remembered → Eff J InputEvidence
  evidence_from digest [] mem = pure (conclude mem)
  evidence_from digest (ref ∷ refs) mem = do
    verdict ← verdict_of_ref digest ref
    next_ref (evidence_from digest refs) mem verdict

  unfoldable pub input_evidence : Digest → Signed → Eff J InputEvidence
  unfolding evidence_from pinned_refs_of_bytes
  input_evidence digest signed = evidence_from digest (pinned_refs_of_bytes sdk signed.bytes) none

  abbrev pub past_epoch : Option ℕ → Eff J Bool
  past_epoch none = pure false
  past_epoch (some last) = do
    answer ← ask node.current_epoch
    epoch ← from_transport answer
    pure (ltb last epoch)

  abbrev pub past_time : Option ℕ → Eff J Bool
  past_time none = pure false
  past_time (some bound) = do
    answer ← ask node.chain_time
    now ← from_transport answer
    pure (ltb (bound + config.expiry_margin) now)

  unfoldable pub expiry_closed : Signed → Eff J Bool
  unfolding max_epoch_of max_timestamp_ms_of
  expiry_closed signed = do
    closed ← past_epoch (max_epoch_of signed.expiration)
    if closed then pure true else past_time (max_timestamp_ms_of signed.expiration)

  abbrev pub epoch_start : Option Expiration → ℕ
  epoch_start expiration = elim (min_epoch_of expiration) [ none ↦ 0 | some e ↦ e ]

  abbrev pub history_failure : ℕ → LedgerFailure → Eff J History
  history_failure start (ledger_transport e) =
      if is_not_found (status e)
      then pure (pruned (epoch_not_served start))
      else raise (transport_error e)
  history_failure start ledger_other = pure (pruned history_unreadable)

  abbrev pub compare_checkpoints : ℕ → ℕ → Option ℕ → History
  compare_checkpoints start lowest none = pruned (no_epoch_start start)
  compare_checkpoints start lowest (some first) =
      if leb lowest first then covered else pruned (pruned_past lowest first start)

  abbrev pub history_from : ℕ → Option ℕ → Eff J History
  history_from start none = pure (pruned no_lowest)
  history_from start (some zero) = pure covered
  history_from start (some (suc n)) = do
    answer ← ask (node.first_checkpoint start)
    elim answer [
      | success first ↦ pure (compare_checkpoints start (suc n) first)
      | failure e ↦ history_failure start e
    ]

  unfoldable pub history_of : Signed → Eff J History
  unfolding min_epoch_of status
  history_of signed =
      if node.has_ledger
      then (do
        answer ← ask node.lowest_available
        elim answer [
          | success lowest ↦ history_from (epoch_start signed.expiration) lowest
          | failure e ↦ history_failure (epoch_start signed.expiration) e
        ])
      else pure unreported
