-- ===== src/Tx/Build/Window.antt =====
-- services/Tx.ts: the expiration that `build` sets by default, and its bounds.
use sui_effect.Prelude.{
  ◌^◌, ℕ, false, Option, none, some, ◌≡◌, refl, leb, leb→le, ◌+◌, ◌≤◌, ◌<◌, arith, Text, codes,
  Bool-cases, subst, inl, inr,
}
use sui_effect.Schemas.{ValidDuring}
use sui_effect.Journal.{Result, success, failure}
use sui_effect.Reads.Results.{then_do, then_do_sound}
use sui_effect.Tx.Network.{TransportError, transport, said}
use sui_effect.Tx.Build.{
  BuildConfig, DraftExpiration, epoch_text, during, BuildFailure, Builder, ExpirationPolicy,
  policy_valid_during, policy_epoch, policy_none, transported, session_open, session_open_if,
  nonce_of, last_epoch, u32_max,
}

module _ {D : Type 0} (builder : Builder D) where
  unfoldable pub epoch_from : Option ℕ → Result TransportError ℕ
  epoch_from none = failure (
      transport (codes "getCurrentSystemState") false (some (codes "INVALID_ARGUMENT"))
        (said (codes "epoch is not a number")))
  epoch_from (some n) = success n

  unfoldable pub epoch_of : Text → Result TransportError ℕ
  epoch_of text = epoch_from (builder.parse_epoch text)

  unfoldable pub max_timestamp_of : Option ℕ → Result BuildFailure (Option ℕ)
  max_timestamp_of none = success none
  max_timestamp_of (some valid_for) =
      then_do (transported builder.chain_time) (λ now. success (some (now + valid_for)))

  unfoldable pub epoch_window : BuildConfig → Option ℕ → ℕ → ℕ → Option ℕ → ValidDuring
  epoch_window config bound now nonce max_timestamp = record {
    min_epoch = some now;
    max_epoch = some (last_epoch now bound);
    min_timestamp = none;
    max_timestamp = max_timestamp;
    chain = builder.chain_id;
    nonce = nonce;
  }

  unfoldable pub valid_during_of :
      BuildConfig → Option ℕ → ℕ → Result BuildFailure (Option DraftExpiration)
  valid_during_of config bound now = then_do (session_open_if now bound) (λ open_session.
      then_do (nonce_of config) (λ nonce.
        then_do (max_timestamp_of config.valid_for) (λ max_timestamp.
          success (some (during (epoch_window config bound now nonce max_timestamp))))))

  unfoldable pub open_at : Text → Option ℕ → Result BuildFailure (Unit {0})
  open_at text none = success tt
  open_at text (some bound) = then_do (transported (epoch_of text)) (λ now. session_open now bound)

  -- The system state is read once; the epoch is a number only where it is compared.
  unfoldable pub default_for :
      ExpirationPolicy → BuildConfig → Option ℕ → Result BuildFailure (Option DraftExpiration)
  default_for policy_none config bound = success none
  default_for policy_epoch config bound =
      then_do (transported (builder.current_epoch 0))
        (λ text. then_do (open_at text bound) (λ open_session. success (some (epoch_text text))))
  default_for policy_valid_during config bound =
      then_do (transported (builder.current_epoch 0))
        (λ text. then_do (transported (epoch_of text)) (λ now. valid_during_of config bound now))

  unfoldable pub default_expiration :
      BuildConfig → Option ℕ → Result BuildFailure (Option DraftExpiration)
  default_expiration config bound = default_for config.expiration config bound

  abbrev Below : Option ℕ → ℕ → Type 0
  Below none n = Unit
  Below (some bound) n = n ≤ bound

  -- A window that starts at the epoch that the node reports (`current_epoch`, as a number), covers it and at most the next, ends within the session's
  -- bound, is bound to the client's chain, and has a nonce of 32 bits.
  pub record Window (bound : Option ℕ) (v : ValidDuring) : Type 0 where
    pub reported : Text
    pub first : ℕ
    pub last : ℕ
    pub asked_node : builder.current_epoch 0 ≡ success reported
    pub is_number : builder.parse_epoch reported ≡ some first
    pub starts : v.min_epoch ≡ some first
    pub ends : v.max_epoch ≡ some last
    pub covers : first ≤ last
    pub two_epochs : last ≤ first + 1
    pub in_session : Below bound last
    pub bound_chain : v.chain ≡ builder.chain_id
    pub small_nonce : v.nonce < 2 ^ 32

  last_epoch-bounds :
      (now : ℕ) (bound : Option ℕ)
      → session_open_if now bound ≡ success tt
      → (now ≤ last_epoch now bound)
        × (last_epoch now bound ≤ now + 1)
        × Below bound (last_epoch now bound)
  unfolding last_epoch session_open_if session_open
  last_epoch-bounds now none h = (omega arith, omega arith, tt)
  last_epoch-bounds now (some bound) h = elim (Bool-cases (leb now bound)) [
    | inl y ↦ ground (arith, leb→le now bound y)
    | inr n ↦ absurd (ground (arith, h, n))
  ]

  nonce_of-small : (config : BuildConfig) (n : ℕ) → nonce_of config ≡ success n → n < 2 ^ 32
  unfolding nonce_of
  nonce_of-small config n h = elim (Bool-cases (leb config.nonce u32_max)) [
    | inl y ↦ ground (arith, leb→le config.nonce u32_max y, h)
    | inr k ↦ absurd (ground (arith, h, k))
  ]

  transported_sound :
      {A : Type 0} (r : Result TransportError A) (a : A) → transported r ≡ success a → r ≡ success a
  unfolding transported
  transported_sound (failure e) a h = absurd (ground (arith, h))
  transported_sound (success b) a h = ground (arith, h)

  epoch_of_sound :
      (text : Text) (n : ℕ) → epoch_of text ≡ success n → builder.parse_epoch text ≡ some n
  unfolding epoch_of epoch_from
  epoch_of_sound text n h = go (builder.parse_epoch text) h
    where
      go : (o : Option ℕ) → epoch_from o ≡ success n → o ≡ some n
      go none k = absurd (ground (arith, k))
      go (some m) k = ground (arith, k)

  valid_during_of-Window :
      (config : BuildConfig) (bound : Option ℕ) (now : ℕ) (v : ValidDuring) (text : Text)
      → builder.current_epoch 0 ≡ success text
      → builder.parse_epoch text ≡ some now
      → valid_during_of config bound now ≡ success (some (during v))
      → Window bound v
  unfolding valid_during_of epoch_window
  valid_during_of-Window config bound now v text answered parsed h =
      let (open_session, (a, b)) = then_do_sound (session_open_if now bound) _ _ h in
      let (nonce, (c, d)) = then_do_sound (nonce_of config) _ _ b in
      let (max_timestamp, (e, f)) = then_do_sound (max_timestamp_of config.valid_for) _ _ d in
      let (x, y, z) = last_epoch-bounds now bound a in
      subst (Window bound) (same (epoch_window config bound now nonce max_timestamp) f) (record {
        reported = text;
        asked_node = answered;
        is_number = parsed;
        first = now;
        last = last_epoch now bound;
        starts = refl;
        ends = refl;
        covers = x;
        two_epochs = y;
        in_session = z;
        bound_chain = refl;
        small_nonce = nonce_of-small config nonce c;
      })
    where
      same :
          (w : ValidDuring)
          → ◌≡◌ {A = Result BuildFailure (Option DraftExpiration)}
              (success (some (during w)))
              (success (some (during v)))
          → w ≡ v
      same w h = ground (arith, h)

  -- A default expiration that is a window starts at the epoch that the node reports, covers it and at most the next one,
  -- ends within the session's bound when there is one, names the client's chain, and has a nonce below 2^32.
  pub default_expiration-Window :
      (config : BuildConfig) (bound : Option ℕ) (v : ValidDuring)
      → default_expiration config bound ≡ success (some (during v))
      → Window bound v
  unfolding default_expiration default_for
  default_expiration-Window config bound v h = go config.expiration h
    where
      go :
          (policy : ExpirationPolicy)
          → default_for policy config bound ≡ success (some (during v))
          → Window bound v
      go policy_none k = absurd (ground (arith, k))
      go policy_epoch k =
          let (text, (a, b)) = then_do_sound (transported (builder.current_epoch 0)) _ _ k in
          let (open_session, (c, d)) = then_do_sound (open_at text bound) _ _ b in
          absurd (ground (arith, d))
      go policy_valid_during k =
          let (text, (a, b)) = then_do_sound (transported (builder.current_epoch 0)) _ _ k in
          let (now, (c, d)) = then_do_sound (transported (epoch_of text)) _ _ b in
          valid_during_of-Window config bound now v text (transported_sound _ text a)
            (epoch_of_sound text now (transported_sound _ now c)) d
