-- ===== src/Tx/Build/Accepted.antt =====
-- services/Tx.ts: what holds of every transaction that `build` answers.
use sui_effect.Prelude.{
  ℕ, suc, ◌⊎◌, inl, inr, ◌∙◌, sym, Bool, true, false, Option, none, some, ◌≡◌, refl, ap, subst,
  ◌||◌, arith,
}
use sui_effect.Schemas.{SuiAddress, Bytes}
use sui_effect.Journal.{Result, success, failure}
use sui_effect.Moves.{get_or}
use sui_effect.Reads.Results.{then_do_sound}
use sui_effect.Tx.Bytes.{gas_owner_of}
use sui_effect.Tx.Build.{
  mentions_gas_coin, BuildConfig, BuiltData, BuiltGas, Built, ResolveFailure, DraftData,
  BuildFailure, Builder, Simulation, no_digest, rejected_payment, try_build, gas_ceiling,
  expiration_of, is_required,
}
use sui_effect.Tx.Build.Criteria.{
  mentions_gas_coin_sound, Tried, as_prepared, paying_by_balance, BySdk, IsEmptyPayment,
  resolve_from-BySdk,
}
use sui_effect.Tx.Build.Checks.{
  simulated_once, pinned_payment, pinned_by_policy, Payment, budget_of, owner_of_data,
  is_zero_length, data_checked, gas_of_bytes, recorded, finish_build, resolve_draft, prepare, build,
}
use sui_effect.Tx.Build.Resolving.{
  unresolved_object_ids_of, resolution, resolve_from, resolved_by, payment_length_of, uses_gas_coin,
}
use sui_effect.Tx.Build.Checked.{Sound, Covers, data_checked-Checked, try_build_sound, not_true}

-- What holds of a built transaction of a draft.
pub record Accepted {D : Type 0} (builder : Builder D) (config : BuildConfig) (sender : SuiAddress)
    (draft : D) (built : Built) : Type 0 where
  pub content : BuiltData
  pub parsed : builder.data_of_bytes built.bytes ≡ some content
  pub sound : Sound builder config content
  pub simulated :
      (BySdk builder draft built.bytes × (built.simulation ≡ none))
      ⊎ ((s : Simulation) × (builder.simulate built.bytes ≡ success s)
          × (built.simulation ≡ some s))
  pub covered :
      (read : DraftData) (budget : ℕ)
      → builder.get_data draft ≡ some read
      → IsEmptyPayment builder config read
      → content.transaction.gas_budget ≡ some (suc budget)
      → Covers builder content (get_or sender built.gas_owner) (suc budget)
  pub its_digest : builder.digest_of_bytes built.bytes ≡ some built.digest
  pub its_sender : built.sender ≡ sender
  pub its_chain : built.chain ≡ builder.chain_id
  pub its_expiration : built.expiration ≡ expiration_of content.expiration
  pub its_gas_owner : built.gas_owner ≡ gas_owner_of builder.sdk content.transaction
  pub its_gas : gas_of_bytes builder config (some content) sender ≡ success built.gas

module _ {D : Type 0} (builder : Builder D) (config : BuildConfig) where
  -- The bytes were read, since their gas was.
  gas_of_bytes-parsed :
      (o : Option BuiltData) (sender : SuiAddress) (gas : BuiltGas)
      → gas_of_bytes builder config o sender ≡ success gas
      → (content : BuiltData) × (o ≡ some content)
  unfolding gas_of_bytes
  gas_of_bytes-parsed none sender gas h = cc
  gas_of_bytes-parsed (some content) sender gas h = (content, refl)

  simulated_by :
      (draft : D) (simulated : Bool) (bytes : Bytes) (o : Option Simulation)
      → (simulated ≡ true → BySdk builder draft bytes)
      → simulated_once builder config simulated bytes ≡ success o
      → (BySdk builder draft bytes × (o ≡ none))
        ⊎ ((s : Simulation) × (builder.simulate bytes ≡ success s) × (o ≡ some s))
  unfolding simulated_once
  simulated_by draft true bytes o its h = inl (its refl, ground (arith, h))
  simulated_by draft false bytes o its h =
      let (s, (p, q)) = then_do_sound (builder.simulate bytes) _ o h in
      inr (s, p, ground (arith, q))

  module _ (sender : SuiAddress) (asked : Option SuiAddress) where
    finish_build-Accepted :
        (draft : D) (payment : Payment) (bytes : Bytes) (simulated : Bool) (built : Built)
        → (simulated ≡ true → BySdk builder draft bytes)
        → ((read : DraftData)
            → builder.get_data draft ≡ some read
            → IsEmptyPayment builder config read
            → payment.explicitly_empty ≡ true)
        → finish_build builder config sender asked payment (bytes, simulated) ≡ success built
        → Accepted builder config sender draft built
    unfolding finish_build budget_of recorded owner_of_data
    finish_build-Accepted draft payment bytes simulated built its empty h =
        let (simulation, (p, h1)) =
          then_do_sound (simulated_once builder config simulated bytes) _ built h in
        let (b, (q, h2)) =
          then_do_sound (gas_ceiling (budget_of (builder.data_of_bytes bytes)) config) _ built h1 in
        let (c, (r, h3)) =
          then_do_sound (data_checked builder config payment _ _ (builder.data_of_bytes bytes)) _
            built h2 in
        let (digest, (s, h4)) =
          then_do_sound (try_build no_digest (builder.digest_of_bytes bytes)) _ built h3 in
        let (gas, (t, h5)) =
          then_do_sound (gas_of_bytes builder config (builder.data_of_bytes bytes) sender) _ built
            h4 in
        let (content, parsed) = gas_of_bytes-parsed (builder.data_of_bytes bytes) sender gas t in
        let checked =
          data_checked-Checked builder config payment
            (get_or sender (owner_of_data builder config asked sender (some content))) content
            (subst (λ o. gas_ceiling (budget_of o) config ≡ success tt) parsed q)
            (subst
              (λ o.
                data_checked builder config payment (budget_of o)
                  (get_or sender (owner_of_data builder config asked sender o)) o
                ≡ success tt)
              parsed r) in
        subst (Accepted builder config sender draft) (same _ h5) (record {
          content = content;
          parsed = parsed;
          sound = checked.sound;
          simulated = simulated_by draft simulated bytes simulation its p;
          covered = λ read budget e k z.
              subst (λ o. Covers builder content (get_or sender o) (suc budget))
                (sym (ap (owner_of_data builder config asked sender) parsed))
                (checked.covered budget (empty read e k) z);
          its_digest = try_build_sound no_digest (builder.digest_of_bytes bytes) digest s;
          its_sender = refl;
          its_chain = refl;
          its_expiration = ap (recorded builder config) parsed;
          its_gas_owner = ap (owner_of_data builder config asked sender) parsed;
          its_gas = subst (λ o. gas_of_bytes builder config o sender ≡ success gas) parsed t;
        })
      where
        same :
            (b : Built)
            → ◌≡◌ {A = Result BuildFailure Built} (success b) (success built)
            → b ≡ built
        same b h = ground (arith, h)

    -- The payment that is put on, and that was there, when it is empty on purpose.
    empty_seen :
        (draft : D) (read : DraftData)
        → builder.get_data draft ≡ some read
        → IsEmptyPayment builder config read
        → pinned_by_policy builder config draft
            || is_zero_length (payment_length_of (builder.get_data draft))
          ≡ true
    unfolding pinned_by_policy payment_length_of uses_gas_coin is_zero_length is_required
    empty_seen draft read e (inl z) = rw (e, z) (ground arith)
    empty_seen draft read e (inr (z, required, coinless)) =
        rw
          (
            e,
            z,
            required,
            not_true builder config (mentions_gas_coin read.commands)
                (λ y. coinless (mentions_gas_coin_sound read.commands y)),
          )
          refl

    pinned_payment-Tried :
        (b : Bool) (draft ready : D)
        → pinned_payment builder config b draft ≡ success ready
        → Tried builder draft ready
    unfolding pinned_payment
    pinned_payment-Tried true draft ready h =
        paying_by_balance ready (try_build_sound rejected_payment _ ready h)
    pinned_payment-Tried false draft ready h = subst (Tried builder draft) (same h) as_prepared
      where
        same : ◌≡◌ {A = Result BuildFailure D} (success draft) (success ready) → draft ≡ ready
        same e = ground (arith, e)

    resolved_by-BySdk :
        (draft ready : D) (resolved : Bytes × Bool)
        → Tried builder draft ready
        → resolved_by builder ready ≡ success resolved
        → resolved.1 ≡ true
        → BySdk builder draft resolved.0
    unfolding resolved_by resolution
    resolved_by-BySdk draft ready resolved t h k =
        go (resolve_from builder builder.retries ready) refl h
      where
        go :
            (r : Result ResolveFailure (Bytes × Bool))
            → resolve_from builder builder.retries ready ≡ r
            → resolution (unresolved_object_ids_of (builder.get_data ready)) r ≡ success resolved
            → BySdk builder draft resolved.0
        go (failure e) q z = absurd (ground (arith, z))
        go (success x) q z =
            resolve_from-BySdk builder builder.retries draft ready resolved.0 resolved.1 t
              (q ∙ same x z) k
          where
            same :
                (x : Bytes × Bool)
                → ◌≡◌ {A = Result BuildFailure (Bytes × Bool)} (success x) (success resolved)
                → ◌≡◌ {A = Result ResolveFailure (Bytes × Bool)} (success x) (success resolved)
            same x e = ground (arith, e)

    -- A transaction that `build` answers is of the draft that it prepares, for the sender and the client's chain, and its
    -- bytes can be read, have its digest, its expiration, its gas owner and its gas. They were simulated: by the SDK in the
    -- attempt that resolved them, which had something to resolve and was gRPC's or had no budget set; or by the node, and
    -- then the transaction carries that simulation. Their gas budget is within the ceiling of the configuration. When they
    -- name no gas payment their commands do not mention the gas coin; and then, if no owned or receiving input has a version
    -- that can be read, their expiration is a ValidDuring or a Validity. When the draft's payment was empty, or was not set
    -- under a policy that requires the address balance and its commands do not mention the gas coin, the payer's balance
    -- holds the budget and what the bytes withdraw from it, unless there is no budget.
    pub build-Accepted :
        (bound : Option ℕ) (built : Built)
        → build builder config sender asked bound ≡ success built
        → (draft : D) × (prepare builder config sender asked bound ≡ success draft)
          × Accepted builder config sender draft built
    unfolding build resolve_draft
    build-Accepted bound built h =
        let (draft, (a, h1)) =
          then_do_sound (prepare builder config sender asked bound) _ built h in
        let (ready, (e, h2)) = then_do_sound (pinned_payment builder config _ draft) _ built h1 in
        let (resolved, (f, h3)) = then_do_sound (resolved_by builder ready) _ built h2 in
        (
          draft,
          a,
          finish_build-Accepted draft _ resolved.0 resolved.1 built
              (resolved_by-BySdk draft ready resolved (pinned_payment-Tried _ draft ready e) f)
              (empty_seen draft) h3,
        )
