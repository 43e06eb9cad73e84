-- ===== src/Tx/Signing/Allowed.antt =====
-- services/Tx.ts: a signature is attached only when its key may sign.
use sui_effect.Prelude.{
  Bool, true, false, Option, none, some, List, [], ◌∷◌, ◌≡◌, refl, ap, ◌∙◌, ◌⊎◌, inl, inr, ◌||◌,
  Text, text_eq, text_eq_iff, Bool-cases, subst, ◌++◌, if◌then◌else◌, In, arith,
}
use sui_effect.Schemas.{SuiAddress, Signed}
use sui_effect.Journal.{Result, success, failure}
use sui_effect.Reads.Results.{then_do_sound, if_cases}
use sui_effect.Tx.Network.{TransportError}
use sui_effect.Tx.Bytes.{Sdk, is_empty, signers_of_bytes}
use sui_effect.Tx.Signing.{
  AddressAliases, SigningFailure, Verifier, includes_text, includes_text-In, distinct,
  add_signature, alias_allows, to_signing, aliases_of, covered_by, denied_unless, signer_allowed,
  attach_decoded, attach, not_enabled, enabled, one_normalizes_to,
}

to_signing_sound :
    {A : Type 0} (r : Result TransportError A) (a : A) → to_signing r ≡ success a → r ≡ success a
unfolding to_signing
to_signing_sound (failure e) a h = cc
to_signing_sound (success b) a h = ground (arith, h)

or_cases : (a b : Bool) → a || b ≡ true → (a ≡ true) ⊎ (b ≡ true)
or_cases true b h = inl refl
or_cases false b h = inr h

not_in : (a : Text) (bs : List Text) → includes_text a bs ≡ false → In a bs → ⊥
unfolding includes_text
not_in a [] h m = m
not_in a (b ∷ bs) h (inl e) = ground (arith, h, (text_eq_iff a b).1 e)
not_in a (b ∷ bs) h (inr m) = not_in a bs (ground (arith, h)) m

distinct-cons : (y : Text) (ys : List Text) → distinct [] (y ∷ ys) ≡ [] → ⊥
unfolding distinct includes_text
distinct-cons y ys h = ground (arith, h)

-- The aliases of an address let another sign for it: itself while they are not enabled, and then only
-- a member of the set.
abbrev pub LetSign : Verifier → AddressAliases → SuiAddress → Type 0
LetSign verifier (not_enabled address) signer =
    verifier.sdk.normalize_sui_address signer ≡ verifier.sdk.normalize_sui_address address
LetSign verifier (enabled address aliases) signer =
    (member : SuiAddress) × In member aliases
    × (verifier.sdk.normalize_sui_address member ≡ verifier.sdk.normalize_sui_address signer)

one_normalizes_to_sound :
    (sdk : Sdk) (target : Text) (xs : List SuiAddress)
    → one_normalizes_to sdk target xs ≡ true
    → (member : SuiAddress) × In member xs × (sdk.normalize_sui_address member ≡ target)
unfolding one_normalizes_to
one_normalizes_to_sound sdk target [] h = absurd (ground (arith, h))
one_normalizes_to_sound sdk target (x ∷ xs) h =
    elim (Bool-cases (text_eq (sdk.normalize_sui_address x) target)) [
      | inl y ↦ (x, inl refl, (text_eq_iff (sdk.normalize_sui_address x) target).0 y)
      | inr n ↦
          let (m, i, e) = one_normalizes_to_sound sdk target xs (ground (arith, h, n)) in
          (m, inr i, e)
    ]

distinct_sound : (seen xs : List Text) (a : Text) → In a (distinct seen xs) → In a xs
unfolding distinct
distinct_sound seen [] a m = m
distinct_sound seen (x ∷ xs) a m =
    step (includes_text x seen) (distinct_sound seen xs a) (distinct_sound (x ∷ seen) xs a) m
  where
    step :
        (b : Bool)
        → (In a (distinct seen xs) → In a xs)
        → (In a (distinct (x ∷ seen) xs) → In a xs)
        → In a (if b then distinct seen xs else x ∷ distinct (x ∷ seen) xs)
        → In a (x ∷ xs)
    step true f g k = inr (f k)
    step false f g (inl e) = inl e
    step false f g (inr k) = inr (g k)

alias_allows_sound :
    (verifier : Verifier) (aliases : AddressAliases) (signer : SuiAddress)
    → alias_allows verifier.sdk aliases signer ≡ true
    → LetSign verifier aliases signer
unfolding alias_allows
alias_allows_sound verifier (not_enabled address) signer h =
    (text_eq_iff (verifier.sdk.normalize_sui_address signer)
        (verifier.sdk.normalize_sui_address address)).0
      h
alias_allows_sound verifier (enabled address aliases) signer h = member_of aliases h
  where
    target : SuiAddress
    target = verifier.sdk.normalize_sui_address signer

    member_of :
        (xs : List SuiAddress)
        → one_normalizes_to verifier.sdk target xs ≡ true
        → (member : SuiAddress) × In member xs
          × (verifier.sdk.normalize_sui_address member ≡ target)
    member_of xs h = one_normalizes_to_sound verifier.sdk target xs h

module _ (verifier : Verifier) where
  abbrev pub Covers : SuiAddress → List SuiAddress → Type 0
  Covers address allowed =
      (required : SuiAddress) × (aliases : AddressAliases) × (In required allowed
        × (verifier.read_aliases (verifier.sdk.normalize_sui_address required) ≡ success aliases)
        × (LetSign verifier aliases (verifier.sdk.normalize_sui_address address)))

  covered_by-Covers :
      (address : SuiAddress) (allowed : List SuiAddress)
      → covered_by verifier address allowed ≡ success true
      → Covers address allowed
  unfolding covered_by aliases_of
  covered_by-Covers address [] h = absurd (ground (arith, h))
  covered_by-Covers address (r ∷ rs) h =
      let (aliases, (a, b)) =
        then_do_sound (to_signing (verifier.read_aliases (verifier.sdk.normalize_sui_address r))) _
          true h in
      elim (if_cases
        (alias_allows verifier.sdk aliases (verifier.sdk.normalize_sui_address address))
        (success true) (covered_by verifier address rs) (success true) b) [
          | inl (y, e) ↦ (
            r,
            aliases,
            (inl refl, to_signing_sound _ aliases a, alias_allows_sound verifier aliases _ y),
          )
          | inr (n, e) ↦ later (covered_by-Covers address rs e)
        ]
    where
      later : Covers address rs → Covers address (r ∷ rs)
      later (q, aliases, (m, e, f)) = (q, aliases, (inr m, e, f))

  -- An address may sign when nobody is named, when it is named, or when the aliases of one that is
  -- named let it.
  abbrev pub MaySign : SuiAddress → List SuiAddress → Type 0
  MaySign address allowed = (allowed ≡ []) ⊎ In address allowed ⊎ Covers address allowed

  signer_allowed-MaySign :
      (address : SuiAddress) (allowed : List SuiAddress)
      → signer_allowed verifier address allowed ≡ success tt
      → MaySign address allowed
  unfolding signer_allowed denied_unless
  signer_allowed-MaySign address allowed h =
      elim (if_cases (is_empty allowed || includes_text address allowed) (success tt) _ (success tt)
        h) [
          | inl (y, e) ↦ named (or_cases (is_empty allowed) (includes_text address allowed) y)
          | inr (n, e) ↦
              let (covered, (a, b)) = then_do_sound (covered_by verifier address allowed) _ tt e in
              inr (inr (covered_by-Covers address allowed (a ∙ ap success (is_covered covered b))))
        ]
    where
      nobody : (xs : List SuiAddress) → is_empty xs ≡ true → xs ≡ []
      nobody [] y = refl
      nobody (x ∷ xs) y = absurd (ground (arith, y))

      named :
          (is_empty allowed ≡ true) ⊎ (includes_text address allowed ≡ true)
          → MaySign address allowed
      named (inl y) = inl (nobody allowed y)
      named (inr y) = inr (inl (includes_text-In address allowed y))

      is_covered : (b : Bool) → denied_unless verifier address b ≡ success tt → b ≡ true
      is_covered true h = refl
      is_covered false h = cc

  -- Who may sign among the distinct addresses may sign among all.
  MaySign-distinct :
      (address : SuiAddress) (xs : List SuiAddress)
      → MaySign address (distinct [] xs)
      → MaySign address xs
  MaySign-distinct address xs (inl e) = inl (nobody xs e)
    where
      nobody : (ys : List SuiAddress) → distinct [] ys ≡ [] → ys ≡ []
      nobody [] h = refl
      nobody (y ∷ ys) h = absurd (distinct-cons y ys h)
  MaySign-distinct address xs (inr (inl m)) = inr (inl (distinct_sound [] xs address m))
  MaySign-distinct address xs (inr (inr (r, aliases, (m, e, f)))) =
      inr (inr (r, aliases, (distinct_sound [] xs r m, e, f)))

  -- A signature is on once more than before, at the end, unless it was there, and nothing else changes.
  abbrev pub PutOn : Signed → Text → Signed → Type 0
  PutOn target signature signed =
      (In signature target.signatures × (signed ≡ target))
      ⊎ ((In signature target.signatures → ⊥)
          × (signed ≡ record target { signatures = target.signatures ++ (signature ∷ []) }))

  add_signature-PutOn :
      (target : Signed) (signature : Text) → PutOn target signature (add_signature target signature)
  unfolding add_signature
  add_signature-PutOn target signature =
      elim (Bool-cases (includes_text signature target.signatures)) [
        | inl y ↦ inl (includes_text-In signature target.signatures y, rw (y) refl)
        | inr n ↦ inr (not_in signature target.signatures n, rw (n) refl)
      ]

  -- What is attached: the signature as it was decoded, and the address of its key.
  pub record Attached (target signed : Signed) (text : Text) : Type 0 where
    pub signature : Text
    pub key : SuiAddress
    pub decoded : verifier.decode_signature text ≡ some signature
    pub verified : verifier.verify target.bytes signature ≡ success key
    pub may_sign :
        MaySign
          (verifier.sdk.normalize_sui_address key)
          (signers_of_bytes verifier.sdk target.bytes)
    pub put_on : PutOn target signature signed

  -- When a signature is attached, it verifies over the bytes of the target, and the address of its key is the sender's or
  -- the gas owner's, or one that the aliases that the node reports for one of them let sign: itself while they are not
  -- enabled, else a member of the set; unless the bytes name nobody. The result is the target as it was when the signature
  -- was on it already, and else the target with the signature after its others.
  pub attach-Attached :
      (target signed : Signed) (signature : Text)
      → attach verifier target signature ≡ success signed
      → Attached target signed signature
  unfolding attach attach_decoded
  attach-Attached target signed signature h = go (verifier.decode_signature signature) refl h
    where
      same :
          (x : Signed)
          → ◌≡◌ {A = Result SigningFailure Signed} (success x) (success signed)
          → x ≡ signed
      same x e = ground (arith, e)

      go :
          (o : Option Text)
          → verifier.decode_signature signature ≡ o
          → attach_decoded verifier target o ≡ success signed
          → Attached target signed signature
      go none q k = absurd (ground (arith, k))
      go (some s) q k =
          let (key, (a, b)) = then_do_sound (verifier.verify target.bytes s) _ signed k in
          let (u, (c, d)) = then_do_sound (signer_allowed verifier _ _) _ signed b in
          record {
            signature = s;
            key = key;
            decoded = q;
            verified = a;
            may_sign = MaySign-distinct _ _ (signer_allowed-MaySign _ _ c);
            put_on =
                subst (PutOn target s) (same (add_signature target s) d)
                  (add_signature-PutOn target s);
          }
