-- ===== src/Failures/Bugs.antt =====
-- services/SuiCore.ts: which thrown values are bugs of the caller, and which are the SDK's own errors,
-- said without the tests that look for them.
use sui_effect.Prelude.{
  true, Bool-cases, Option, none, some, List, [], ◌∷◌, ◌++◌, ◌≡◌, ◌↔◌, ◌⊎◌, inl, inr, refl, ap,
  is_some, In, Text, codes, text_eq_iff, strip_prefix, strip_prefix-append, strip_prefix_sound,
  arith,
}
use sui_effect.Failures.{
  ErrorClass, object_error, transaction_error, simulation_error, type_error, plain_error, no_error,
  Field, absent, text, number, other, Properties, Thrown, nothing, primitive, object, one_of,
  includes, includes_one, sdk_argument_errors, object_reasons, has_text, is_error, is_absent,
  is_sdk_argument_error, rethrown_defect,
}
use sui_effect.Failures.Sdk.{
  is_object_class, is_transaction_class, is_simulation_class, reason_in, is_object_error,
  is_transaction_error, is_simulation_error,
}

-- A defect carries its marker.
abbrev pub Marked : Thrown → Type 0
Marked nothing = ⊥
Marked primitive = ⊥
Marked (object p c) = p.is_defect ≡ true

abbrev pub Contains : Text → Text → Type 0
Contains part whole = (before : Text) × (after : Text) × (whole ≡ before ++ (part ++ after))

abbrev pub ContainsOne : List Text → Text → Type 0
ContainsOne parts whole = (part : Text) × In part parts × Contains part whole

-- The SDK's refusal of an argument: an `Error` of no subclass, without a code, with one of its sentences.
abbrev pub Refuses : Thrown → Type 0
Refuses nothing = ⊥
Refuses primitive = ⊥
Refuses (object p c) =
    (p.class_of ≡ no_error → ⊥)
    × (p.constructor_is_error ≡ true)
    × (p.code ≡ absent)
    × ContainsOne sdk_argument_errors p.message

-- An error of the SDK, by its class or by the shape that another copy of the SDK gives it.
abbrev pub IsObjectError : Properties → Type 0
IsObjectError p =
    (p.class_of ≡ object_error)
    ⊎ ((p.object_id ≡ absent → ⊥) × ((r : Text) × (p.reason ≡ some r) × In r object_reasons))

abbrev pub IsTransactionError : Properties → Type 0
IsTransactionError p =
    (p.class_of ≡ transaction_error)
    ⊎ ((p.reason ≡ some (codes "notFound")) × ((d : Text) × (p.digest ≡ some d)))

abbrev pub IsSimulationError : Properties → Type 0
IsSimulationError p =
    (p.class_of ≡ simulation_error)
    ⊎ ((p.class_of ≡ no_error → ⊥) × (p.name ≡ some (codes "SimulationError")))

abbrev pub Recognised : Thrown → Type 0
Recognised nothing = ⊥
Recognised primitive = ⊥
Recognised (object p c) = IsObjectError p ⊎ IsTransactionError p ⊎ IsSimulationError p

is_some-some : {A : Type 0} (o : Option A) → is_some o ≡ true → (a : A) × (o ≡ some a)
is_some-some none h = absurd (ground (arith, h))
is_some-some (some a) h = (a, refl)

includes_sound : (t m : Text) → includes t m ≡ true → Contains t m
unfolding includes
includes_sound t [] h =
    let (rest, e) = is_some-some (strip_prefix t []) h in ([], rest, strip_prefix_sound t [] rest e)
includes_sound t (c ∷ cs) h = elim (Bool-cases (is_some (strip_prefix t (c ∷ cs)))) [
  | inl y ↦
      let (rest, e) = is_some-some (strip_prefix t (c ∷ cs)) y in
      ([], rest, strip_prefix_sound t (c ∷ cs) rest e)
  | inr n ↦
      let (before, after, e) = includes_sound t cs (ground (arith, h, n)) in
      (c ∷ before, after, ap (λ x. c ∷ x) e)
]

includes-here : (t after : Text) → includes t (t ++ after) ≡ true
unfolding includes
includes-here t after = go (t ++ after) (strip_prefix-append t after)
  where
    go : (m : Text) → strip_prefix t m ≡ some after → includes t m ≡ true
    go [] e = rw (e) refl
    go (c ∷ cs) e = rw (e) refl

includes_complete : (t before after : Text) → includes t (before ++ (t ++ after)) ≡ true
unfolding includes
includes_complete t [] after = includes-here t after
includes_complete t (c ∷ before) after = ground (arith, includes_complete t before after)

includes_one_sound : (ts : List Text) (m : Text) → includes_one ts m ≡ true → ContainsOne ts m
unfolding includes_one
includes_one_sound [] m h = absurd (ground (arith, h))
includes_one_sound (t ∷ ts) m h = elim (Bool-cases (includes t m)) [
  | inl y ↦ (t, inl refl, includes_sound t m y)
  | inr n ↦ let (part, i, c) = includes_one_sound ts m (ground (arith, h, n)) in (part, inr i, c)
]

includes_one_complete : (ts : List Text) (m : Text) → ContainsOne ts m → includes_one ts m ≡ true
unfolding includes_one
includes_one_complete [] m (part, i, c) = absurd i
includes_one_complete (t ∷ ts) m (part, inl e, (before, after, q)) =
    rw (q, e, includes_complete t before after) refl
includes_one_complete (t ∷ ts) m (part, inr i, c) =
    ground (arith, includes_one_complete ts m (part, i, c))

one_of_sound : (t : Text) (ts : List Text) → one_of t ts ≡ true → In t ts
unfolding one_of
one_of_sound t [] h = absurd (ground (arith, h))
one_of_sound t (x ∷ xs) h = ground (arith, h, text_eq_iff t x, one_of_sound t xs)

is_error_iff : (c : ErrorClass) → (is_error c ≡ true) ↔ (c ≡ no_error → ⊥)
unfolding is_error
is_error_iff no_error = (λ h k. ground (arith, h), λ h. absurd (h refl))
is_error_iff object_error = (λ h k. cc, λ h. refl)
is_error_iff transaction_error = (λ h k. cc, λ h. refl)
is_error_iff simulation_error = (λ h k. cc, λ h. refl)
is_error_iff type_error = (λ h k. cc, λ h. refl)
is_error_iff plain_error = (λ h k. cc, λ h. refl)

is_absent_iff : (f : Field) → (is_absent f ≡ true) ↔ (f ≡ absent)
unfolding is_absent
is_absent_iff absent = (λ h. refl, λ h. refl)
is_absent_iff (text t) = (λ h. absurd (ground (arith, h)), λ h. absurd cc)
is_absent_iff (number n) = (λ h. absurd (ground (arith, h)), λ h. absurd cc)
is_absent_iff other = (λ h. absurd (ground (arith, h)), λ h. absurd cc)

has_text_sound : (o : Option Text) (t : Text) → has_text o t ≡ true → o ≡ some t
unfolding has_text
has_text_sound none t h = absurd (ground (arith, h))
has_text_sound (some s) t h = ap some ((text_eq_iff s t).0 h)

pub is_sdk_argument_error_sound :
    (cause : Thrown) → is_sdk_argument_error cause ≡ true → Refuses cause
unfolding is_sdk_argument_error
is_sdk_argument_error_sound nothing h = absurd (ground (arith, h))
is_sdk_argument_error_sound primitive h = absurd (ground (arith, h))
is_sdk_argument_error_sound (object p c) h = (
  (is_error_iff p.class_of).0 (ground (arith, h)),
  ground (arith, h),
  (is_absent_iff p.code).0 (ground (arith, h)),
  includes_one_sound sdk_argument_errors p.message (ground (arith, h)),
)

pub is_sdk_argument_error_complete :
    (cause : Thrown) → Refuses cause → is_sdk_argument_error cause ≡ true
unfolding is_sdk_argument_error
is_sdk_argument_error_complete nothing r = absurd r
is_sdk_argument_error_complete primitive r = absurd r
is_sdk_argument_error_complete (object p c) (a, b, k, m) =
    rw
      (
        (is_error_iff p.class_of).1 a,
        b,
        (is_absent_iff p.code).1 k,
        includes_one_complete sdk_argument_errors p.message m,
      )
      refl

pub rethrown_defect_iff : (cause : Thrown) → (rethrown_defect cause ≡ true) ↔ Marked cause
unfolding rethrown_defect
rethrown_defect_iff nothing = (λ h. ground (arith, h), λ h. absurd h)
rethrown_defect_iff primitive = (λ h. ground (arith, h), λ h. absurd h)
rethrown_defect_iff (object p c) = (λ h. h, λ h. h)

is_object_class_sound : (c : ErrorClass) → is_object_class c ≡ true → c ≡ object_error
unfolding is_object_class
is_object_class_sound object_error h = refl
is_object_class_sound transaction_error h = absurd (ground (arith, h))
is_object_class_sound simulation_error h = absurd (ground (arith, h))
is_object_class_sound type_error h = absurd (ground (arith, h))
is_object_class_sound plain_error h = absurd (ground (arith, h))
is_object_class_sound no_error h = absurd (ground (arith, h))

is_transaction_class_sound :
    (c : ErrorClass) → is_transaction_class c ≡ true → c ≡ transaction_error
unfolding is_transaction_class
is_transaction_class_sound object_error h = absurd (ground (arith, h))
is_transaction_class_sound transaction_error h = refl
is_transaction_class_sound simulation_error h = absurd (ground (arith, h))
is_transaction_class_sound type_error h = absurd (ground (arith, h))
is_transaction_class_sound plain_error h = absurd (ground (arith, h))
is_transaction_class_sound no_error h = absurd (ground (arith, h))

is_simulation_class_sound : (c : ErrorClass) → is_simulation_class c ≡ true → c ≡ simulation_error
unfolding is_simulation_class
is_simulation_class_sound object_error h = absurd (ground (arith, h))
is_simulation_class_sound transaction_error h = absurd (ground (arith, h))
is_simulation_class_sound simulation_error h = refl
is_simulation_class_sound type_error h = absurd (ground (arith, h))
is_simulation_class_sound plain_error h = absurd (ground (arith, h))
is_simulation_class_sound no_error h = absurd (ground (arith, h))

reason_in_sound :
    (ts : List Text) (o : Option Text) → reason_in ts o ≡ true → (r : Text) × (o ≡ some r) × In r ts
unfolding reason_in
reason_in_sound ts none h = absurd (ground (arith, h))
reason_in_sound ts (some r) h = (r, refl, one_of_sound r ts h)

pub is_object_error_sound : (p : Properties) → is_object_error p ≡ true → IsObjectError p
unfolding is_object_error
is_object_error_sound p h = elim (Bool-cases (is_object_class p.class_of)) [
  | inl y ↦ inl (is_object_class_sound p.class_of y)
  | inr n ↦ inr (
    λ k. ground (arith, h, n, (is_absent_iff p.object_id).1 k),
    reason_in_sound object_reasons p.reason (ground (arith, h, n)),
  )
]

pub is_transaction_error_sound :
    (p : Properties) → is_transaction_error p ≡ true → IsTransactionError p
unfolding is_transaction_error
is_transaction_error_sound p h = elim (Bool-cases (is_transaction_class p.class_of)) [
  | inl y ↦ inl (is_transaction_class_sound p.class_of y)
  | inr n ↦ inr (
    has_text_sound p.reason (codes "notFound") (ground (arith, h, n)),
    is_some-some p.digest (ground (arith, h, n)),
  )
]

pub is_simulation_error_sound :
    (p : Properties) → is_simulation_error p ≡ true → IsSimulationError p
unfolding is_simulation_error
is_simulation_error_sound p h = elim (Bool-cases (is_simulation_class p.class_of)) [
  | inl y ↦ inl (is_simulation_class_sound p.class_of y)
  | inr n ↦ inr (
    (is_error_iff p.class_of).0 (ground (arith, h, n)),
    has_text_sound p.name (codes "SimulationError") (ground (arith, h, n)),
  )
]
