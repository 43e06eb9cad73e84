-- ===== src/Tx/Build/Criteria.antt =====
-- services/Tx.ts: what `build` looks for, said without its functions: when the SDK simulates, what
-- mentions the gas coin, and which payments are empty on purpose.
use sui_effect.Prelude.{
  ℕ, zero, suc, Bool, true, false, Bool-cases, Option, none, some, List, [], ◌∷◌, ◌≡◌, refl, ◌⊎◌,
  inl, inr, In, Text, codes, text_eq, text_eq_iff, arith,
}
use sui_effect.Schemas.{Bytes}
use sui_effect.Journal.{Result, success, failure}
use sui_effect.Reads.Results.{if_cases}
use sui_effect.Tx.Build.{
  Value, scalar, array, object, Values, no_values, and_value, mentions_gas_coin, some_mention,
  BuildConfig, require_address_balance, DraftInput, unresolved_object, unresolved_pure,
  resolved_input, DraftData, ResolveFailure, SdkExpiration, bounds_epochs, Builder,
}
use sui_effect.Tx.Build.Resolving.{
  some_unresolved, payment_open, will_resolve, lacks_budget, sdk_simulates, with_simulated,
  is_retryable, attempt_of, resolve_from,
}

-- Somewhere inside a value stands the gas coin.
mutual
  pub data Mentions : Value → Type 0 where
    is_coin : {vs : Values} → Mentions (object true vs)
    in_object : {b : Bool} {vs : Values} → MentionsOne vs → Mentions (object b vs)
    in_array : {vs : Values} → MentionsOne vs → Mentions (array vs)

  pub data MentionsOne : Values → Type 0 where
    first_one : {v : Value} {vs : Values} → Mentions v → MentionsOne (and_value v vs)
    later_one : {v : Value} {vs : Values} → MentionsOne vs → MentionsOne (and_value v vs)

mutual
  unfolding mentions_gas_coin some_mention

  pub Mentions-found : {v : Value} → Mentions v → mentions_gas_coin v ≡ true
  Mentions-found is_coin = refl
  Mentions-found (in_object m) = ground (arith, MentionsOne-found m)
  Mentions-found (in_array m) = MentionsOne-found m

  pub MentionsOne-found : {vs : Values} → MentionsOne vs → some_mention vs ≡ true
  MentionsOne-found (first_one m) = ground (arith, Mentions-found m)
  MentionsOne-found (later_one m) = ground (arith, MentionsOne-found m)

mutual
  unfolding mentions_gas_coin some_mention

  pub mentions_gas_coin_sound : (v : Value) → mentions_gas_coin v ≡ true → Mentions v
  mentions_gas_coin_sound scalar h = absurd (ground (arith, h))
  mentions_gas_coin_sound (array vs) h = in_array (some_mention_sound vs h)
  mentions_gas_coin_sound (object true vs) h = is_coin
  mentions_gas_coin_sound (object false vs) h = in_object (some_mention_sound vs h)

  pub some_mention_sound : (vs : Values) → some_mention vs ≡ true → MentionsOne vs
  some_mention_sound no_values h = absurd (ground (arith, h))
  some_mention_sound (and_value v vs) h = elim (Bool-cases (mentions_gas_coin v)) [
    | inl y ↦ first_one (mentions_gas_coin_sound v y)
    | inr n ↦ later_one (some_mention_sound vs (ground (arith, h, n)))
  ]

-- An expiration that bounds the epochs, by its `$kind`.
abbrev pub BoundsEpochs : Option SdkExpiration → Type 0
BoundsEpochs none = ⊥
BoundsEpochs (some e) = (e.kind ≡ codes "ValidDuring") ⊎ (e.kind ≡ codes "Validity")

pub bounds_epochs_sound : (o : Option SdkExpiration) → bounds_epochs o ≡ true → BoundsEpochs o
unfolding bounds_epochs
bounds_epochs_sound none h = absurd (ground (arith, h))
bounds_epochs_sound (some e) h = elim (Bool-cases (text_eq e.kind (codes "ValidDuring"))) [
  | inl y ↦ inl ((text_eq_iff e.kind (codes "ValidDuring")).0 y)
  | inr n ↦ inr ((text_eq_iff e.kind (codes "Validity")).0 (ground (arith, h, n)))
]

abbrev pub HasUnresolved : List DraftInput → Type 0
HasUnresolved inputs = ((id : Text) × In (unresolved_object id) inputs) ⊎ In unresolved_pure inputs

-- What the SDK has to resolve: an input, the price, the budget, the payment, or the expiration that
-- an empty payment needs.
abbrev pub NeedsResolution : DraftData → Type 0
NeedsResolution draft =
    HasUnresolved draft.inputs
    ⊎ (draft.has_price ≡ false)
    ⊎ (draft.has_budget ≡ false)
    ⊎ (draft.payment_length ≡ none)
    ⊎ ((draft.payment_length ≡ some 0) × (draft.has_expiration ≡ false))

-- The gRPC resolver simulates whenever it runs, any other one to find a budget that is not set.
abbrev pub Simulates : Bool → DraftData → Type 0
Simulates is_grpc draft = NeedsResolution draft × ((is_grpc ≡ true) ⊎ (draft.has_budget ≡ false))

some_unresolved_sound : (xs : List DraftInput) → some_unresolved xs ≡ true → HasUnresolved xs
unfolding some_unresolved
some_unresolved_sound [] h = absurd (ground (arith, h))
some_unresolved_sound (unresolved_object id ∷ xs) h = inl (id, inl refl)
some_unresolved_sound (unresolved_pure ∷ xs) h = inr (inl refl)
some_unresolved_sound (resolved_input ∷ xs) h = later (some_unresolved_sound xs h)
  where
    later : HasUnresolved xs → HasUnresolved (resolved_input ∷ xs)
    later (inl (id, m)) = inl (id, inr m)
    later (inr m) = inr (inr m)

payment_open_sound :
    (n : Option ℕ) (b : Bool) → payment_open n b ≡ true → (n ≡ none) ⊎ ((n ≡ some 0) × (b ≡ false))
unfolding payment_open
payment_open_sound none b h = inl refl
payment_open_sound (some zero) false h = inr (refl, refl)
payment_open_sound (some zero) true h = absurd (ground (arith, h))
payment_open_sound (some (suc n)) b h = absurd (ground (arith, h))

will_resolve_sound : (draft : DraftData) → will_resolve (some draft) ≡ true → NeedsResolution draft
unfolding will_resolve
will_resolve_sound draft h = elim (Bool-cases (some_unresolved draft.inputs)) [
  | inl y ↦ inl (some_unresolved_sound draft.inputs y)
  | inr a ↦ elim (Bool-cases draft.has_price) [
    | inr b ↦ inr (inl b)
    | inl b ↦ elim (Bool-cases draft.has_budget) [
      | inr c ↦ inr (inr (inl c))
      | inl c ↦ payment (
          payment_open_sound draft.payment_length draft.has_expiration (ground (arith, h, a, b, c)))
    ]
  ]
]
  where
    payment :
        (draft.payment_length ≡ none)
          ⊎ ((draft.payment_length ≡ some 0) × (draft.has_expiration ≡ false))
        → NeedsResolution draft
    payment (inl e) = inr (inr (inr (inl e)))
    payment (inr e) = inr (inr (inr (inr e)))

sdk_simulates_sound :
    (o : Option DraftData) (is_grpc : Bool)
    → sdk_simulates o is_grpc ≡ true
    → (draft : DraftData) × (o ≡ some draft) × Simulates is_grpc draft
unfolding sdk_simulates will_resolve lacks_budget
sdk_simulates_sound none is_grpc h = absurd (ground (arith, h))
sdk_simulates_sound (some draft) is_grpc h =
    (draft, refl, (will_resolve_sound draft (ground (arith, h)), ground (arith, h)))

module _ {D : Type 0} (builder : Builder D) where
  -- The drafts that a build asks the SDK to resolve: the one it prepared, with an empty payment where
  -- it sets one, and what each attempt leaves for the next.
  pub data Tried (start : D) : D → Type 0 where
    as_prepared : Tried start start
    paying_by_balance : (draft : D) → builder.set_no_payment start ≡ some draft → Tried start draft
    tried_again : (draft : D) → Tried start draft → Tried start (builder.resolve draft).1

  -- An attempt answered these bytes.
  abbrev pub Resolves : D → D → Bytes → Type 0
  Resolves start draft bytes = Tried start draft × ((builder.resolve draft).0 ≡ success bytes)

  -- The SDK simulated the bytes in the attempt that answered them.
  abbrev pub BySdk : D → Bytes → Type 0
  BySdk start bytes =
      (draft : D) × (read : DraftData) × Resolves start draft bytes
      × (builder.get_data draft ≡ some read)
      × Simulates builder.is_sui_grpc_client read

  attempt_of-BySdk :
      (start draft : D) (bytes : Bytes) (simulated : Bool)
      → Tried start draft
      → attempt_of builder draft ≡ success (bytes, simulated)
      → simulated ≡ true
      → BySdk start bytes
  unfolding attempt_of with_simulated
  attempt_of-BySdk start draft bytes simulated t h k = go (builder.resolve draft).0 refl h
    where
      go :
          (r : Result ResolveFailure Bytes)
          → (builder.resolve draft).0 ≡ r
          → with_simulated (sdk_simulates (builder.get_data draft) builder.is_sui_grpc_client) r
            ≡ success (bytes, simulated)
          → BySdk start bytes
      go (failure e) q z = absurd (ground (arith, z))
      go (success bs) q z =
          let (read, e, s) =
            sdk_simulates_sound (builder.get_data draft) builder.is_sui_grpc_client
              (ground (arith, z, k)) in
          (draft, read, (t, ground (arith, q, z)), e, s)

  pub resolve_from-BySdk :
      (n : ℕ) (start draft : D) (bytes : Bytes) (simulated : Bool)
      → Tried start draft
      → resolve_from builder n draft ≡ success (bytes, simulated)
      → simulated ≡ true
      → BySdk start bytes
  unfolding resolve_from
  resolve_from-BySdk zero start draft bytes simulated t h k =
      attempt_of-BySdk start draft bytes simulated t h k
  resolve_from-BySdk (suc n) start draft bytes simulated t h k =
      elim (if_cases (is_retryable (attempt_of builder draft)) _ _ (success (bytes, simulated)) h) [
        | inl (y, e) ↦
            resolve_from-BySdk n start (builder.resolve draft).1 bytes simulated
              (tried_again draft t) e k
        | inr (m, e) ↦ attempt_of-BySdk start draft bytes simulated t e k
      ]

  module _ (config : BuildConfig) where
    -- A payment that the recipe left empty, or that the policy does.
    abbrev pub IsEmptyPayment : DraftData → Type 0
    IsEmptyPayment draft =
        (draft.payment_length ≡ some 0)
        ⊎ ((draft.payment_length ≡ none)
            × (config.gas_payment ≡ require_address_balance)
            × (Mentions draft.commands → ⊥))
