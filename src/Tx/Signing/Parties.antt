-- ===== src/Tx/Signing/Parties.antt =====
-- services/Tx.ts: the signatures that `run` puts on built bytes before it submits them.
use sui_effect.Prelude.{
  Option, none, some, List, [], ◌∷◌, ◌≡◌, refl, sym, ap, subst, ◌∙◌, ◌⊎◌, inl, inr, if◌then◌else◌,
  Text, text_eq, text_eq_iff, In, In-append, arith,
}
use sui_effect.Schemas.{SuiAddress, Signed}
use sui_effect.Journal.{Result, success, failure}
use sui_effect.Reads.Results.{then_do, then_do_sound, if_cases}
use sui_effect.Tx.Bytes.{Sdk, signers_of_bytes}
use sui_effect.Tx.Build.{Built}
use sui_effect.Tx.Signing.{
  SigningFailure, no_sponsor, wrong_sponsor, Signer, assert_signer_address, signed_with, sign,
  cosign,
}

module _ (sdk : Sdk) where
  unfoldable pub assert_sponsor : SuiAddress → Option Signer → Result SigningFailure Signer
  assert_sponsor gas_owner none = failure (no_sponsor gas_owner)
  assert_sponsor gas_owner (some sponsor) =
      if text_eq (sdk.normalize_sui_address sponsor.address) (sdk.normalize_sui_address gas_owner)
      then success sponsor
      else failure (wrong_sponsor sponsor.address gas_owner)

  -- The loop over the addresses that the bytes name: each one but the sender is the sponsor's.
  unfoldable pub cosign_required :
      SuiAddress → Option Signer → List SuiAddress → Signed → Result SigningFailure Signed
  cosign_required sender sponsor [] signed = success signed
  cosign_required sender sponsor (required ∷ others) signed =
      if text_eq required (sdk.normalize_sui_address sender)
      then cosign_required sender sponsor others signed
      else then_do (assert_sponsor required sponsor) (λ party.
        then_do (cosign sdk signed party) (λ more. cosign_required sender sponsor others more))

  unfoldable pub sign_parties : Built → Signer → Option Signer → Result SigningFailure Signed
  sign_parties built signer sponsor =
      then_do (sign sdk built signer)
        (λ signed. cosign_required signer.address sponsor (signers_of_bytes sdk built.bytes) signed)

  -- The same bytes with at least the same signatures.
  abbrev Extends : Signed → Signed → Type 0
  Extends a b =
      (b.digest ≡ a.digest)
      × (b.bytes ≡ a.bytes)
      × ((s : Text) → In s a.signatures → In s b.signatures)

  -- A signature by a party over the bytes is on.
  abbrev pub HasSigned : Signer → Signed → Type 0
  HasSigned party signed =
      (s : Text) × (party.sign_transaction signed.bytes ≡ success s) × In s signed.signatures

  -- An address is the sender's, or the sponsor's, who has signed.
  abbrev pub Covered : SuiAddress → Option Signer → Signed → SuiAddress → Type 0
  Covered sender sponsor signed required =
      (required ≡ sdk.normalize_sui_address sender)
      ⊎ ((party : Signer) × (sponsor ≡ some party)
          × (sdk.normalize_sui_address party.address ≡ sdk.normalize_sui_address required)
          × HasSigned party signed)

  HasSigned-Extends :
      (party : Signer) (a b : Signed) → Extends a b → HasSigned party a → HasSigned party b
  HasSigned-Extends party a b (x, y, z) (s, t, u) = (s, ap party.sign_transaction y ∙ t, z s u)

  Extends-trans : (a b c : Signed) → Extends a b → Extends b c → Extends a c
  Extends-trans a b c (x, y, z) (u, v, w) = (u ∙ x, v ∙ y, λ s m. w s (z s m))

  assert_sponsor_sound :
      (gas_owner : SuiAddress) (sponsor : Option Signer) (party : Signer)
      → assert_sponsor gas_owner sponsor ≡ success party
      → (sponsor ≡ some party)
        × (sdk.normalize_sui_address party.address ≡ sdk.normalize_sui_address gas_owner)
  unfolding assert_sponsor
  assert_sponsor_sound gas_owner none party h = cc
  assert_sponsor_sound gas_owner (some p) party h = ground (
    arith,
    h,
    text_eq_iff (sdk.normalize_sui_address p.address) (sdk.normalize_sui_address gas_owner),
  )

  cosign_sound :
      (a b : Signed) (party : Signer)
      → cosign sdk a party ≡ success b
      → Extends a b × HasSigned party b
  unfolding cosign
  cosign_sound a b party h =
      let (u, (x, y)) = then_do_sound (assert_signer_address sdk a.bytes party) _ b h in
      let (s, (z, w)) = then_do_sound (party.sign_transaction a.bytes) _ b y in
      subst (λ c. Extends a c × HasSigned party c) (same _ w)
        (
          (refl, refl, λ t m. (In-append a.signatures (s ∷ []) t).1 (inl m)),
          (s, z, (In-append a.signatures (s ∷ []) s).1 (inr (inl refl))),
        )
    where
      same : (c : Signed) → ◌≡◌ {A = Result SigningFailure Signed} (success c) (success b) → c ≡ b
      same c e = ground (arith, e)

  cosign_required_sound :
      (sender : SuiAddress) (sponsor : Option Signer) (allowed : List SuiAddress) (a b : Signed)
      → cosign_required sender sponsor allowed a ≡ success b
      → Extends a b × ((r : SuiAddress) → In r allowed → Covered sender sponsor b r)
  unfolding cosign_required
  cosign_required_sound sender sponsor [] a b h =
      (subst (Extends a) (same h) (refl, refl, λ s m. m), λ r m. absurd m)
    where
      same : ◌≡◌ {A = Result SigningFailure Signed} (success a) (success b) → a ≡ b
      same e = ground (arith, e)
  cosign_required_sound sender sponsor (required ∷ others) a b h =
      elim (if_cases (text_eq required (sdk.normalize_sui_address sender)) _ _ (success b) h) [
        | inl (y, e) ↦
            let (x, f) = cosign_required_sound sender sponsor others a b e in
            (x, first f (inl ((text_eq_iff required (sdk.normalize_sui_address sender)).0 y)))
        | inr (n, e) ↦
            let (party, (u, v)) = then_do_sound (assert_sponsor required sponsor) _ b e in
            let (more, (w, z)) = then_do_sound (cosign sdk a party) _ b v in
            let (x, f) = cosign_required_sound sender sponsor others more b z in
            let (p, q) = cosign_sound a more party w in
            let (k, l) = assert_sponsor_sound required sponsor party u in
            (
              Extends-trans a more b p x,
              first f (inr (party, k, l, HasSigned-Extends party more b x q)),
            )
      ]
    where
      first :
          ((r : SuiAddress) → In r others → Covered sender sponsor b r)
          → Covered sender sponsor b required
          → (r : SuiAddress) → In r (required ∷ others)
          → Covered sender sponsor b r
      first f c r (inl e) = subst (Covered sender sponsor b) (sym e) c
      first f c r (inr m) = f r m

  -- What is signed for submission.
  pub record Complete (built : Built) (signer : Signer) (sponsor : Option Signer) (signed : Signed)
      : Type 0 where
    pub its_digest : signed.digest ≡ built.digest
    pub its_bytes : signed.bytes ≡ built.bytes
    pub by_sender : HasSigned signer signed
    pub by_all :
        (required : SuiAddress)
        → In required (signers_of_bytes sdk built.bytes)
        → Covered signer.address sponsor signed required

  sign_sound :
      (built : Built) (signer : Signer) (a : Signed)
      → sign sdk built signer ≡ success a
      → (a.digest ≡ built.digest) × (a.bytes ≡ built.bytes) × HasSigned signer a
  unfolding sign signed_with
  sign_sound built signer a h =
      let (u, (x, y)) = then_do_sound (assert_signer_address sdk built.bytes signer) _ a h in
      let (s, (z, w)) = then_do_sound (signer.sign_transaction built.bytes) _ a y in
      subst (λ c. (c.digest ≡ built.digest) × (c.bytes ≡ built.bytes) × HasSigned signer c)
        (same _ w) (refl, refl, (s, z, inl refl))
    where
      same : (c : Signed) → ◌≡◌ {A = Result SigningFailure Signed} (success c) (success a) → c ≡ a
      same c e = ground (arith, e)

  -- When a run has put its signatures on, the bytes and the digest are those that were built, the signer has signed them, and
  -- every address that the bytes name is the sender's, or is the sponsor's, who has signed them too.
  pub sign_parties-Complete :
      (built : Built) (signer : Signer) (sponsor : Option Signer) (signed : Signed)
      → sign_parties built signer sponsor ≡ success signed
      → Complete built signer sponsor signed
  unfolding sign_parties
  sign_parties-Complete built signer sponsor signed h =
      let (a, (x, y)) = then_do_sound (sign sdk built signer) _ signed h in
      let (u, v, w) = sign_sound built signer a x in
      let (e, f) = cosign_required_sound signer.address sponsor _ a signed y in
      record {
        its_digest = e.0 ∙ u;
        its_bytes = e.1 ∙ v;
        by_sender = HasSigned-Extends signer a signed e w;
        by_all = f;
      }
