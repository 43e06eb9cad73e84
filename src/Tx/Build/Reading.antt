-- ===== src/Tx/Build/Reading.antt =====
-- services/Tx.ts: `fromBytes`, which reads a built transaction back out of its bytes.
use sui_effect.Prelude.{
  ℕ, Option, none, some, ◌≡◌, refl, ap, ◌∙◌, Text, text_eq, arith, text_eq_iff, if◌then◌else◌,
}
use sui_effect.Schemas.{SuiAddress, Bytes, chain_of}
use sui_effect.Journal.{Result, success, failure}
use sui_effect.Reads.Results.{then_do}
use sui_effect.Tx.Bytes.{gas_owner_of}
use sui_effect.Tx.Build.{
  expiration_of, BuildConfig, BuiltData, Built, BuildFailure, build_error, Builder,
  unreadable_bytes, no_sender, no_digest, other_chain, try_build,
}
use sui_effect.Tx.Build.Checks.{gas_of_bytes, build}
use sui_effect.Tx.Build.Accepted.{Accepted, build-Accepted}

module _ {D : Type 0} (builder : Builder D) (config : BuildConfig) where
  unfoldable pub sender_named : Option Text → Option SuiAddress
  sender_named none = none
  sender_named (some s) = builder.sdk.decode_address (builder.sdk.normalize_sui_address s)

  unfoldable pub same_chain : Option Text → Result BuildFailure (Unit {0})
  same_chain none = success tt
  same_chain (some chain) =
      if text_eq chain builder.chain_id
      then success tt
      else failure (build_error (other_chain chain))

  unfoldable pub from_content : Bytes → Option BuiltData → Result BuildFailure Built
  from_content bytes none = failure (build_error unreadable_bytes)
  from_content bytes (some content) =
      then_do (try_build no_sender (sender_named content.transaction.sender)) (λ sender.
        then_do (try_build no_digest (builder.digest_of_bytes bytes)) (λ digest.
          then_do (same_chain (chain_of (expiration_of content.expiration))) (λ on_chain.
            then_do (gas_of_bytes builder config (some content) sender) (λ gas. success (record {
              digest = digest;
              bytes = bytes;
              sender = sender;
              chain = builder.chain_id;
              gas_owner = gas_owner_of builder.sdk content.transaction;
              expiration = expiration_of content.expiration;
              gas = gas;
              simulation = none;
            })))))

  unfoldable pub from_bytes : Bytes → Result BuildFailure Built
  from_bytes bytes = from_content bytes (builder.data_of_bytes bytes)

  same_chain-client :
      (o : Option Text)
      → ((chain : Text) → o ≡ some chain → chain ≡ builder.chain_id)
      → same_chain o ≡ success tt
  unfolding same_chain
  same_chain-client none h = refl
  same_chain-client (some chain) h =
      ground (arith, h chain refl, text_eq_iff chain builder.chain_id)

  from_content-Accepted :
      (sender : SuiAddress) (draft : D) (built : Built)
      (a : Accepted builder config sender draft built)
      → sender_named a.content.transaction.sender ≡ some sender
      → same_chain (chain_of (expiration_of a.content.expiration)) ≡ success tt
      → from_content built.bytes (some a.content) ≡ success (record built { simulation = none })
  unfolding from_content then_do try_build
  from_content-Accepted sender draft built a named on_chain =
      rw
        (
          named,
          a.its_digest,
          on_chain,
          a.its_gas,
          ← a.its_gas_owner,
          ← a.its_expiration,
          ← a.its_chain,
          ← a.its_sender,
        )
        refl

  -- A transaction that `build` answers is, but for the simulation that it carries, what `fromBytes` reads out of its bytes,
  -- when the bytes name the sender that was asked for, and no chain but the client's.
  pub from_bytes-build :
      (sender : SuiAddress) (asked : Option SuiAddress) (bound : Option ℕ) (built : Built)
      → build builder config sender asked bound ≡ success built
      → ((content : BuiltData)
          → builder.data_of_bytes built.bytes ≡ some content
          → (sender_named content.transaction.sender ≡ some sender)
            × ((chain : Text)
                → chain_of (expiration_of content.expiration) ≡ some chain
                → chain ≡ builder.chain_id))
      → from_bytes built.bytes ≡ success (record built { simulation = none })
  unfolding from_bytes
  from_bytes-build sender asked bound built h names =
      let (draft, prepared, a) = build-Accepted builder config sender asked bound built h in
      let (named, chain) = names a.content a.parsed in
      ap (from_content built.bytes) a.parsed
      ∙ from_content-Accepted sender draft built a named (same_chain-client _ chain)
