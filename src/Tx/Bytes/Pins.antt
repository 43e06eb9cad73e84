-- ===== src/Tx/Bytes/Pins.antt =====
-- What the bytes of a transaction pin, and when the sender's lock is kept for it.
use sui_effect.Prelude.{
  ℕ, Bool, Bool-cases, ◌⊎◌, ◌↔◌, inl, inr, In, true, false, not, ◌||◌, Option, none, some, List, [],
  ◌∷◌, ◌++◌, ◌≡◌, refl, arith,
}
use sui_effect.Schemas.{Bytes}
use sui_effect.Tx.Bytes.{
  Sdk, PinnedRef, Input, imm_or_owned, receiving, shared, funds_withdrawal, other, TransactionData,
  ObjectRef, refs_or_none, is_empty, owned_inputs_of, gas_payment_of, pinned_refs_of_bytes,
  keeps_sender_lock,
}

module _ (sdk : Sdk) where
  empty-nothing : {A : Type 0} (xs : List A) → not (is_empty xs) ≡ false → xs ≡ []
  empty-nothing [] h = refl
  empty-nothing (x ∷ xs) h = ground arith

  nothing_kept :
      (o : Option TransactionData)
      → (elim o [
        | none ↦ true
        | some tx ↦
            not (is_empty (owned_inputs_of sdk tx.inputs))
            || not (is_empty (refs_or_none tx.payment))
      ])
        ≡ false
      → (elim o [
        | none ↦ []
        | some tx ↦ owned_inputs_of sdk tx.inputs ++ gas_payment_of sdk (refs_or_none tx.payment)
      ])
        ≡ []
  unfolding gas_payment_of
  nothing_kept none h = refl
  nothing_kept (some tx) h = both (owned_inputs_of sdk tx.inputs) (refs_or_none tx.payment) h
    where
      both :
          (xs : List PinnedRef) (ys : List ObjectRef)
          → (not (is_empty xs) || not (is_empty ys)) ≡ false
          → xs ++ gas_payment_of sdk ys ≡ []
      both [] [] h = refl
      both [] (y ∷ ys) h = ground arith
      both (x ∷ xs) ys h = ground arith

  -- An owned or a receiving input whose version can be read.
  abbrev pub PinsInput : List Input → Type 0
  PinsInput xs =
      (ref : ObjectRef) × (version : ℕ) × (In (imm_or_owned ref) xs ⊎ In (receiving ref) xs)
      × (sdk.decode_version ref.version ≡ some version)

  PinsInput-later : (x : Input) (xs : List Input) → PinsInput xs → PinsInput (x ∷ xs)
  PinsInput-later x xs (ref, v, inl m, e) = (ref, v, inl (inr m), e)
  PinsInput-later x xs (ref, v, inr m, e) = (ref, v, inr (inr m), e)

  pinned-found :
      (P : Type 0) (r : ObjectRef) (rest : List PinnedRef)
      → (is_empty rest ≡ false → P)
      → ((v : ℕ) → sdk.decode_version r.version ≡ some v → P)
      → is_empty (elim (sdk.decode_version r.version) [
        | none ↦ rest
        | some v ↦ record { object_id = r.object_id; version = v } ∷ rest
      ])
        ≡ false
      → P
  pinned-found P r rest later now h = go (sdk.decode_version r.version) refl h
    where
      go :
          (o : Option ℕ)
          → sdk.decode_version r.version ≡ o
          → is_empty (elim o [
            | none ↦ rest
            | some v ↦ record { object_id = r.object_id; version = v } ∷ rest
          ])
            ≡ false
          → P
      go none e k = later k
      go (some v) e k = now v e

  -- The inputs are found empty exactly when none pins an object.
  pub owned_inputs_of-PinsInput :
      (xs : List Input) → is_empty (owned_inputs_of sdk xs) ≡ false → PinsInput xs
  unfolding owned_inputs_of
  owned_inputs_of-PinsInput [] h = cc
  owned_inputs_of-PinsInput (imm_or_owned r ∷ xs) h =
      pinned-found (PinsInput (imm_or_owned r ∷ xs)) r (owned_inputs_of sdk xs)
        (λ k. PinsInput-later (imm_or_owned r) xs (owned_inputs_of-PinsInput xs k))
        (λ v e. (r, v, inl (inl refl), e)) h
  owned_inputs_of-PinsInput (receiving r ∷ xs) h =
      pinned-found (PinsInput (receiving r ∷ xs)) r (owned_inputs_of sdk xs)
        (λ k. PinsInput-later (receiving r) xs (owned_inputs_of-PinsInput xs k))
        (λ v e. (r, v, inr (inl refl), e)) h
  owned_inputs_of-PinsInput (shared i ∷ xs) h =
      PinsInput-later (shared i) xs (owned_inputs_of-PinsInput xs h)
  owned_inputs_of-PinsInput (funds_withdrawal w ∷ xs) h =
      PinsInput-later (funds_withdrawal w) xs (owned_inputs_of-PinsInput xs h)
  owned_inputs_of-PinsInput (other ∷ xs) h =
      PinsInput-later other xs (owned_inputs_of-PinsInput xs h)

  pinned-kept :
      (r : ObjectRef) (rest : List PinnedRef)
      → is_empty (elim (sdk.decode_version r.version) [
        | none ↦ rest
        | some v ↦ record { object_id = r.object_id; version = v } ∷ rest
      ])
        ≡ true
      → (sdk.decode_version r.version ≡ none) × (is_empty rest ≡ true)
  pinned-kept r rest h = go (sdk.decode_version r.version) refl h
    where
      go :
          (o : Option ℕ)
          → sdk.decode_version r.version ≡ o
          → is_empty (elim o [
            | none ↦ rest
            | some v ↦ record { object_id = r.object_id; version = v } ∷ rest
          ])
            ≡ true
          → (sdk.decode_version r.version ≡ none) × (is_empty rest ≡ true)
      go none e k = (e, k)
      go (some v) e k = absurd (ground (arith, k))

  pub owned_inputs_of-nothing :
      (xs : List Input) → is_empty (owned_inputs_of sdk xs) ≡ true → PinsInput xs → ⊥
  unfolding owned_inputs_of
  owned_inputs_of-nothing [] h (r, v, inl m, e) = m
  owned_inputs_of-nothing [] h (r, v, inr m, e) = m
  owned_inputs_of-nothing (imm_or_owned q ∷ xs) h (r, v, inl (inl k), e) =
      ground (arith, k, e, (pinned-kept q (owned_inputs_of sdk xs) h).0)
  owned_inputs_of-nothing (imm_or_owned q ∷ xs) h (r, v, inl (inr m), e) =
      owned_inputs_of-nothing xs (pinned-kept q (owned_inputs_of sdk xs) h).1 (r, v, inl m, e)
  owned_inputs_of-nothing (imm_or_owned q ∷ xs) h (r, v, inr (inl k), e) = cc
  owned_inputs_of-nothing (imm_or_owned q ∷ xs) h (r, v, inr (inr m), e) =
      owned_inputs_of-nothing xs (pinned-kept q (owned_inputs_of sdk xs) h).1 (r, v, inr m, e)
  owned_inputs_of-nothing (receiving q ∷ xs) h (r, v, inr (inl k), e) =
      ground (arith, k, e, (pinned-kept q (owned_inputs_of sdk xs) h).0)
  owned_inputs_of-nothing (receiving q ∷ xs) h (r, v, inr (inr m), e) =
      owned_inputs_of-nothing xs (pinned-kept q (owned_inputs_of sdk xs) h).1 (r, v, inr m, e)
  owned_inputs_of-nothing (receiving q ∷ xs) h (r, v, inl (inl k), e) = cc
  owned_inputs_of-nothing (receiving q ∷ xs) h (r, v, inl (inr m), e) =
      owned_inputs_of-nothing xs (pinned-kept q (owned_inputs_of sdk xs) h).1 (r, v, inl m, e)
  owned_inputs_of-nothing (shared i ∷ xs) h (r, v, inl (inl k), e) = cc
  owned_inputs_of-nothing (shared i ∷ xs) h (r, v, inl (inr m), e) =
      owned_inputs_of-nothing xs h (r, v, inl m, e)
  owned_inputs_of-nothing (shared i ∷ xs) h (r, v, inr (inl k), e) = cc
  owned_inputs_of-nothing (shared i ∷ xs) h (r, v, inr (inr m), e) =
      owned_inputs_of-nothing xs h (r, v, inr m, e)
  owned_inputs_of-nothing (funds_withdrawal w ∷ xs) h (r, v, inl (inl k), e) = cc
  owned_inputs_of-nothing (funds_withdrawal w ∷ xs) h (r, v, inl (inr m), e) =
      owned_inputs_of-nothing xs h (r, v, inl m, e)
  owned_inputs_of-nothing (funds_withdrawal w ∷ xs) h (r, v, inr (inl k), e) = cc
  owned_inputs_of-nothing (funds_withdrawal w ∷ xs) h (r, v, inr (inr m), e) =
      owned_inputs_of-nothing xs h (r, v, inr m, e)
  owned_inputs_of-nothing (other ∷ xs) h (r, v, inl (inl k), e) = cc
  owned_inputs_of-nothing (other ∷ xs) h (r, v, inl (inr m), e) =
      owned_inputs_of-nothing xs h (r, v, inl m, e)
  owned_inputs_of-nothing (other ∷ xs) h (r, v, inr (inl k), e) = cc
  owned_inputs_of-nothing (other ∷ xs) h (r, v, inr (inr m), e) =
      owned_inputs_of-nothing xs h (r, v, inr m, e)

  -- The bytes can be read, no input of theirs pins an object, and they name no gas payment.
  abbrev pub IsUnpinned : Option TransactionData → Type 0
  IsUnpinned none = ⊥
  IsUnpinned (some tx) = (PinsInput tx.inputs → ⊥) × (refs_or_none tx.payment ≡ [])

  -- The sender's lock is given up before the send exactly for bytes that can be read, in which no owned or receiving
  -- input has a version that can be read, and that name no object as gas payment; and those bytes pin nothing.
  pub keeps_sender_lock-pinned :
      (bytes : Bytes)
      → ((keeps_sender_lock sdk bytes ≡ false) ↔ IsUnpinned (sdk.data_of_bytes bytes))
        × (keeps_sender_lock sdk bytes ≡ false → pinned_refs_of_bytes sdk bytes ≡ [])
  unfolding keeps_sender_lock pinned_refs_of_bytes
  keeps_sender_lock-pinned bytes = (
    (forward (sdk.data_of_bytes bytes), backward (sdk.data_of_bytes bytes)),
    nothing_kept (sdk.data_of_bytes bytes),
  )
    where
      parts : (a b : Bool) → (not a || not b) ≡ false → (a ≡ true) × (b ≡ true)
      parts true true h = (refl, refl)
      parts true false h = absurd (ground (arith, h))
      parts false b h = absurd (ground (arith, h))

      no_refs : (refs : List ObjectRef) → is_empty refs ≡ true → refs ≡ []
      no_refs [] h = refl
      no_refs (r ∷ refs) h = absurd (ground (arith, h))

      forward :
          (o : Option TransactionData)
          → (elim o [
            | none ↦ true
            | some tx ↦
                not (is_empty (owned_inputs_of sdk tx.inputs))
                || not (is_empty (refs_or_none tx.payment))
          ])
            ≡ false
          → IsUnpinned o
      forward none h = absurd (ground (arith, h))
      forward (some tx) h =
          let (a, b) =
            parts (is_empty (owned_inputs_of sdk tx.inputs)) (is_empty (refs_or_none tx.payment))
              h in
          (owned_inputs_of-nothing tx.inputs a, no_refs (refs_or_none tx.payment) b)

      backward :
          (o : Option TransactionData)
          → IsUnpinned o
          → (elim o [
            | none ↦ true
            | some tx ↦
                not (is_empty (owned_inputs_of sdk tx.inputs))
                || not (is_empty (refs_or_none tx.payment))
          ])
            ≡ false
      backward none h = absurd h
      backward (some tx) (h, k) = elim (Bool-cases (is_empty (owned_inputs_of sdk tx.inputs))) [
        | inl y ↦ rw (y, k) refl
        | inr n ↦ absurd (h (owned_inputs_of-PinsInput tx.inputs n))
      ]
