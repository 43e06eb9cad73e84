-- ===== src/Tx/Recover/Consumers.antt =====
-- What `inputEvidence` proves when it names another transaction: that transaction reports that it
-- took a pinned object at the pinned version.
use sui_effect.Prelude.{
  ℕ, Bool, true, false, Option, none, some, List, [], ◌∷◌, ◌≡◌, ◌≢◌, refl, arith, Text, text_eq,
  text_eq_iff, leb, ◌==◌, ◌≤◌, ◌+◌, inl, inr, In, if◌then◌else◌, ==_iff,
}
use sui_effect.Schemas.{Digest, ObjectId, Signed}
use sui_effect.Tx.Bytes.{PinnedRef, pinned_refs_of_bytes}
use sui_effect.Tx.Network.{
  Env, World, TransactionAnswer, found, failed, missing, ObjectAnswer, present, absent,
  consumed_later,
}
use sui_effect.Tx.Evidence.{
  InputState, absent_state, present_state, RefVerdict, unmoved, inconclusive, ours, others,
  InputEvidence, no_evidence, consumed_by_other, applied_by_us, unreadable, Remembered, remember,
  conclude, version_in, consumed_in, consumed_by, consumed_version_of, input_state_of,
  state_of_answer, compare_versions, verdict_of_mutation, verdict_of_state, verdict_of_id, next_ref,
  verdict_of_ref, evidence_from, input_evidence,
}
use sui_effect.Tx.Ends.{Post, Post-bind, Post-if, Post-weaken}
use sui_effect.Tx.Recover.Reads.{IsTransport}

module _ {J : Type 0} (env : Env J) where
  open env use {node, sdk}

  -- The version of the object that an answer about `asked` reports as its input.
  abbrev pub reported : ObjectId → Text → TransactionAnswer → Option ℕ
  reported id asked (found e) = version_in env id asked e.digest e.effects
  reported id asked (failed e) = version_in env id asked e.digest e.effects
  reported id asked missing = none
  reported id asked (TransactionAnswer.unreachable e) = none

  -- At some tick the node answered that a transaction other than `digest` took the pinned object
  -- at the pinned version.
  pub record TakenByOther (digest : Digest) (ref : PinnedRef) : Type 0 where
    pub id : ObjectId
    pub by : Text
    pub asked : Digest
    pub at : ℕ
    pub id_of : sdk.decode_object_id ref.object_id ≡ some id
    pub named : sdk.decode_digest by ≡ some asked
    pub other : by ≢ digest
    pub took : reported id asked (node.get_transaction asked at) ≡ some ref.version

  -- The consumed version that was read, with the answer that it was read from.
  abbrev Consumed : ObjectId → Text → ℕ → Option ℕ → World J → Type 0
  Consumed id by start o v =
      (start ≤ v.tick)
      × ((n : ℕ)
          → o ≡ some n
          → (asked : Digest) × (at : ℕ) × (sdk.decode_digest by ≡ some asked)
            × (reported id asked (node.get_transaction asked at) ≡ some n))

  consumed_version_of-Post :
      (by : Text) (id : ObjectId) (w : World J)
      → Post (Consumed id by w.tick) IsTransport (consumed_version_of env by id w)
  unfolding consumed_version_of
  consumed_version_of-Post by id w = decoded (sdk.decode_digest by) refl
    where
      answered :
          (d : Digest)
          → sdk.decode_digest by ≡ some d
          → (a : TransactionAnswer) → node.get_transaction d w.tick ≡ a
          → Post
              (Consumed id by w.tick)
              IsTransport
              (consumed_in env id d a (record w { tick = w.tick + 1 }))
      answered d q (found e) p = (omega arith, λ n h. (d, w.tick, q, ground arith))
      answered d q (failed e) p = (omega arith, λ n h. (d, w.tick, q, ground arith))
      answered d q missing p = (omega arith, λ n h. cc)
      answered d q (TransactionAnswer.unreachable e) p = tt

      decoded :
          (o : Option Digest)
          → sdk.decode_digest by ≡ o
          → Post (Consumed id by w.tick) IsTransport (consumed_by env id o w)
      decoded none q = (omega arith, λ n h. cc)
      decoded (some d) q = answered d q (node.get_transaction d w.tick) refl

  abbrev Told : Digest → PinnedRef → RefVerdict → Type 0
  Told digest ref (others id by) = TakenByOther digest ref
  Told digest ref unmoved = Unit
  Told digest ref (inconclusive id why) = Unit
  Told digest ref (ours id) = Unit

  abbrev Verdict : Digest → PinnedRef → ℕ → RefVerdict → World J → Type 0
  Verdict digest ref start verdict v = (start ≤ v.tick) × Told digest ref verdict

  module _ (digest : Digest) (ref : PinnedRef) (id : ObjectId)
      (id_of : sdk.decode_object_id ref.object_id ≡ some id) where
    Told-versions :
        (by : Text)
        → by ≢ digest
        → (o : Option ℕ) (start : ℕ) (v : World J) → Consumed id by start o v
        → Told digest ref (compare_versions env id ref.version by o)
    Told-versions by other none start v h = tt
    Told-versions by other (some n) start v h = same (n == ref.version) refl
      where
        same :
            (b : Bool)
            → (n == ref.version) ≡ b
            → Told digest ref
                (if b then others id by else inconclusive id (consumed_later by n ref.version))
        same false q = tt
        same true q =
            let (asked, at, named, took) = h.1 n refl in
            record {
              id = id;
              by = by;
              asked = asked;
              at = at;
              id_of = id_of;
              named = named;
              other = other;
              took = rw (← (==_iff n ref.version).0 q) took;
            }

    verdict_of_mutation-Post :
        (o : Option Text) (start : ℕ) (w : World J)
        → start ≤ w.tick
        → Post
            (Verdict digest ref start)
            IsTransport
            (verdict_of_mutation env digest id ref.version o w)
    verdict_of_mutation-Post none start w le = (le, tt)
    verdict_of_mutation-Post (some by) start w le =
        Post-if (Verdict digest ref start) IsTransport (text_eq by digest) _ _ w (λ _. (le, tt))
          λ q.
            Post-bind (Consumed id by w.tick) (Verdict digest ref start) IsTransport
              (consumed_version_of env by id) _ w (consumed_version_of-Post by id w)
              λ o v h. (
                omega arith,
                Told-versions by (λ e. cc (q, (text_eq_iff by digest).1 e)) o w.tick v h,
              )

    verdict_of_state-Post :
        (o : InputState) (start : ℕ) (w : World J)
        → start ≤ w.tick
        → Post
            (Verdict digest ref start)
            IsTransport
            (verdict_of_state env digest id ref.version o w)
    verdict_of_state-Post absent_state start w le = (le, tt)
    verdict_of_state-Post (present_state v by) start w le =
        Post-if (Verdict digest ref start) IsTransport (leb v ref.version) _ _ w (λ _. (le, tt))
          (λ _. verdict_of_mutation-Post by start w le)

  abbrev Later : {A : Type 0} → ℕ → A → World J → Type 0
  Later start a v = start ≤ v.tick

  input_state_of-Post :
      (id : ObjectId) (w : World J) → Post (Later w.tick) IsTransport (input_state_of env id w)
  unfolding input_state_of
  input_state_of-Post id w = answered (node.get_object id w.tick)
    where
      answered :
          (a : ObjectAnswer)
          → Post
              (Later w.tick)
              IsTransport
              (state_of_answer env id a (record w { tick = w.tick + 1 }))
      answered (present none by) = tt
      answered (present (some v) by) = omega arith
      answered absent = omega arith
      answered (ObjectAnswer.unreachable e) = tt

  verdict_of_ref-Post :
      (digest : Digest) (ref : PinnedRef) (w : World J)
      → Post (Verdict digest ref w.tick) IsTransport (verdict_of_ref env digest ref w)
  unfolding verdict_of_ref
  verdict_of_ref-Post digest ref w = decoded (sdk.decode_object_id ref.object_id) refl
    where
      decoded :
          (o : Option ObjectId)
          → sdk.decode_object_id ref.object_id ≡ o
          → Post (Verdict digest ref w.tick) IsTransport (verdict_of_id env digest ref.version o w)
      decoded none q = (omega arith, tt)
      decoded (some id) q =
          Post-bind (Later w.tick) (Verdict digest ref w.tick) IsTransport (input_state_of env id) _
            w (input_state_of-Post id w)
            (λ state v le. verdict_of_state-Post digest ref id q state w.tick v le)

  -- What the evidence tells about the references it was read from.
  abbrev Shown : Digest → List PinnedRef → InputEvidence → Type 0
  Shown digest refs (consumed_by_other id by) =
      (ref : PinnedRef) × In ref refs × TakenByOther digest ref
  Shown digest refs no_evidence = Unit
  Shown digest refs (applied_by_us id) = Unit
  Shown digest refs (unreadable id why) = Unit

  abbrev pub Evidence : Digest → List PinnedRef → ℕ → InputEvidence → World J → Type 0
  Evidence digest refs start evidence v = (start ≤ v.tick) × Shown digest refs evidence

  conclude-Shown : (digest : Digest) (mem : Remembered) → Shown digest [] (conclude mem)
  conclude-Shown digest none = tt
  conclude-Shown digest (some (id, why)) = tt

  wider :
      (digest : Digest) (ref : PinnedRef) (refs : List PinnedRef) (start now : ℕ)
      → start ≤ now
      → (x : InputEvidence) (v : World J) → Evidence digest refs now x v
      → Evidence digest (ref ∷ refs) start x v
  wider digest ref refs start now le (consumed_by_other id by) v h =
      (omega arith, (h.1.0, inr h.1.1, h.1.2))
  wider digest ref refs start now le no_evidence v h = (omega arith, tt)
  wider digest ref refs start now le (applied_by_us id) v h = (omega arith, tt)
  wider digest ref refs start now le (unreadable id why) v h = (omega arith, tt)

  evidence_from-Post :
      (digest : Digest) (refs : List PinnedRef) (mem : Remembered) (w : World J)
      → Post (Evidence digest refs w.tick) IsTransport (evidence_from env digest refs mem w)
  unfolding evidence_from
  evidence_from-Post digest [] mem w = (omega arith, conclude-Shown digest mem)
  evidence_from-Post digest (ref ∷ refs) mem w =
      Post-bind (Verdict digest ref w.tick) (Evidence digest (ref ∷ refs) w.tick) IsTransport
        (verdict_of_ref env digest ref) _ w (verdict_of_ref-Post digest ref w)
        (next (evidence_from-Post digest refs))
    where
      next :
          ((m : Remembered) (u : World J)
            → Post (Evidence digest refs u.tick) IsTransport (evidence_from env digest refs m u))
          → (verdict : RefVerdict) (v : World J) → Verdict digest ref w.tick verdict v
          → Post
              (Evidence digest (ref ∷ refs) w.tick)
              IsTransport
              (next_ref env (evidence_from env digest refs) mem verdict v)
      next rest unmoved v h =
          Post-weaken (Evidence digest refs v.tick) _ IsTransport IsTransport _
            (wider digest ref refs w.tick v.tick h.0) (λ e t. t) (rest mem v)
      next rest (inconclusive id why) v h =
          Post-weaken (Evidence digest refs v.tick) _ IsTransport IsTransport _
            (wider digest ref refs w.tick v.tick h.0) (λ e t. t) (rest (remember mem id why) v)
      next rest (ours id) v h = (h.0, tt)
      next rest (others id by) v h = (h.0, (ref, inl refl, h.1))

  pub input_evidence-Post :
      (digest : Digest) (signed : Signed) (w : World J)
      → Post
          (Evidence digest (pinned_refs_of_bytes sdk signed.bytes) w.tick)
          IsTransport
          (input_evidence env digest signed w)
  unfolding input_evidence
  input_evidence-Post digest signed w =
      evidence_from-Post digest (pinned_refs_of_bytes sdk signed.bytes) none w
