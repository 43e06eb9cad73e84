-- ===== src/Tx/Signing.antt =====
-- services/Tx.ts and domain/address-alias.ts: signatures put on built bytes, and who may make them.
pub mod Allowed
pub mod Parties
use sui_effect.Prelude.{
  ℕ, Bool, true, false, Option, none, some, List, [], ◌∷◌, ◌++◌, ◌≡◌, refl, sym, ap, ◌∙◌, ◌⊎◌, inl,
  inr, ◌&&◌, ◌||◌, not, if◌then◌else◌, Text, text_eq, text_eq_iff, In, arith, Bool-cases, subst,
}
use sui_effect.Schemas.{SuiAddress, Bytes, Signed}
use sui_effect.Journal.{Result, success, failure}
use sui_effect.Reads.Results.{then_do, then_do_sound, if_cases}
use sui_effect.Tx.Network.{TransportError}
use sui_effect.Tx.Bytes.{Sdk, is_empty, signers_of_bytes}
use sui_effect.Tx.Build.{Built}

-- `AddressAliases`
pub data AddressAliases : Type 0 where
  not_enabled : SuiAddress → AddressAliases
  enabled : SuiAddress → List SuiAddress → AddressAliases

pub data SigningFailure : Type 0 where
  signing_error : Text → SigningFailure
  wrong_signer : SuiAddress → List Text → SigningFailure
  no_sponsor : SuiAddress → SigningFailure
  wrong_sponsor : SuiAddress → SuiAddress → SigningFailure
  empty_signature : SigningFailure
  alias_denied : Text → SigningFailure
  transport_failed : TransportError → SigningFailure

pub record Signer : Type 0 where
  pub address : SuiAddress
  pub sign_transaction : Bytes → Result SigningFailure Text

-- The SDK's, and the node's: whose key made a signature over some bytes, and an address's aliases.
pub record Verifier : Type 0 where
  pub sdk : Sdk
  pub decode_signature : Text → Option Text
  pub verify : Bytes → Text → Result SigningFailure SuiAddress
  pub read_aliases : SuiAddress → Result TransportError AddressAliases

unfoldable pub includes_text : Text → List Text → Bool
includes_text a [] = false
includes_text a (b ∷ bs) = text_eq a b || includes_text a bs

pub includes_text-In : (a : Text) (bs : List Text) → includes_text a bs ≡ true → In a bs
unfolding includes_text
includes_text-In a [] h = cc
includes_text-In a (b ∷ bs) h = ground (arith, text_eq_iff a b, includes_text-In a bs)

unfoldable pub signed_with : Built → Text → Signed
signed_with built signature = record {
  digest = built.digest;
  bytes = built.bytes;
  signatures = signature ∷ [];
  sender = built.sender;
  gas_owner = built.gas_owner;
  expiration = built.expiration;
  chain = some built.chain;
}

-- The members of a set made of a list, in its order.
unfoldable pub distinct : List Text → List Text → List Text
distinct seen [] = []
distinct seen (a ∷ others) =
    if includes_text a seen then distinct seen others else a ∷ distinct (a ∷ seen) others

-- A signature that is there already is not put on again.
unfoldable pub add_signature : Signed → Text → Signed
add_signature signed signature =
    if includes_text signature signed.signatures
    then signed
    else record signed { signatures = signed.signatures ++ (signature ∷ []) }

module _ (sdk : Sdk) where
  unfoldable pub one_normalizes_to : Text → List SuiAddress → Bool
  one_normalizes_to candidate [] = false
  one_normalizes_to candidate (a ∷ aliases) =
      text_eq (sdk.normalize_sui_address a) candidate || one_normalizes_to candidate aliases

  unfoldable pub alias_allows : AddressAliases → SuiAddress → Bool
  alias_allows (not_enabled address) signer =
      text_eq (sdk.normalize_sui_address signer) (sdk.normalize_sui_address address)
  alias_allows (enabled address aliases) signer =
      one_normalizes_to (sdk.normalize_sui_address signer) aliases

  unfoldable pub assert_signer_address : Bytes → Signer → Result SigningFailure (Unit {0})
  assert_signer_address bytes signer =
      let allowed = signers_of_bytes sdk bytes in
      if is_empty allowed || includes_text (sdk.normalize_sui_address signer.address) allowed
      then success tt
      else failure (wrong_signer signer.address allowed)

  unfoldable pub sign : Built → Signer → Result SigningFailure Signed
  sign built signer = then_do (assert_signer_address built.bytes signer) (λ a.
      then_do (signer.sign_transaction built.bytes)
        (λ signature. success (signed_with built signature)))

  unfoldable pub cosign : Signed → Signer → Result SigningFailure Signed
  cosign signed signer = then_do (assert_signer_address signed.bytes signer) (λ a.
      then_do (signer.sign_transaction signed.bytes) (λ signature.
        success (record signed { signatures = signed.signatures ++ (signature ∷ []) })))

unfoldable pub to_signing : {A : Type 0} → Result TransportError A → Result SigningFailure A
to_signing (failure e) = failure (transport_failed e)
to_signing (success a) = success a

module _ (verifier : Verifier) where
  unfoldable pub aliases_of : SuiAddress → Result SigningFailure AddressAliases
  aliases_of required = to_signing (verifier.read_aliases required)

  -- The loop over the required signers: the first whose aliases allow the address ends it.
  unfoldable pub covered_by : SuiAddress → List SuiAddress → Result SigningFailure Bool
  covered_by address [] = success false
  covered_by address (required ∷ others) =
      let rest = covered_by address others in
      then_do (aliases_of (verifier.sdk.normalize_sui_address required)) (λ aliases.
        if alias_allows verifier.sdk aliases (verifier.sdk.normalize_sui_address address)
        then success true
        else rest)

  unfoldable pub denied_unless : SuiAddress → Bool → Result SigningFailure (Unit {0})
  denied_unless address true = success tt
  denied_unless address false = failure (alias_denied address)

  unfoldable pub signer_allowed : SuiAddress → List SuiAddress → Result SigningFailure (Unit {0})
  signer_allowed address allowed =
      if is_empty allowed || includes_text address allowed
      then success tt
      else then_do (covered_by address allowed) (λ covered. denied_unless address covered)

  unfoldable pub attach_decoded : Signed → Option Text → Result SigningFailure Signed
  attach_decoded target none = failure empty_signature
  attach_decoded target (some signature) = then_do (verifier.verify target.bytes signature) (λ key.
      then_do
        (signer_allowed (verifier.sdk.normalize_sui_address key)
          (distinct [] (signers_of_bytes verifier.sdk target.bytes)))
        (λ a. success (add_signature target signature)))

  unfoldable pub attach : Signed → Text → Result SigningFailure Signed
  attach target signature = attach_decoded target (verifier.decode_signature signature)
