-- ===== src/Prelude/Lists.antt =====
-- Lists measured by native numbers, Boolean filters, and predicates on lists by recursion.
use Prim.Native.Nat.{ℕ, zero, suc, ◌+◌}
use mathlib.Core.Path.{◌≡◌, refl, sym, subst}
use mathlib.Core.Logic.{◌⊎◌, ◌↔◌, inl, inr}
use mathlib.Core.Bool.{Bool, true}
use mathlib.Core.List.{List, [], ◌∷◌, ◌++◌}
use native.Mathlib.Omega.{arith}
use sui_effect.Prelude.Tests.{if◌then◌else◌}

module _ {ℓ} {A : Type ℓ} where
  abbrev pub length : List A → ℕ
  length [] = 0
  length (x ∷ xs) = suc (length xs)

  abbrev pub filter : (A → Bool) → List A → List A
  filter p [] = []
  filter p (x ∷ xs) = let rest = filter p xs in if p x then x ∷ rest else rest

  abbrev pub take : ℕ → List A → List A
  take zero xs = []
  take (suc n) [] = []
  take (suc n) (x ∷ xs) = x ∷ take n xs

  abbrev pub drop : ℕ → List A → List A
  drop zero xs = xs
  drop (suc n) [] = []
  drop (suc n) (x ∷ xs) = drop n xs

  pub length-append : (xs ys : List A) → length (xs ++ ys) ≡ length xs + length ys
  length-append [] ys = omega arith
  length-append (x ∷ xs) ys = omega (arith, length-append xs ys)

-- `a` stands in the list. A sum by recursion, which the tactics take apart.
abbrev pub In : {A : Type 0} → A → List A → Type 0
In a [] = ⊥
In a (x ∷ xs) = (a ≡ x) ⊎ In a xs

-- Every item of the list has the property.
abbrev pub All {ℓ κ} : {A : Type ℓ} → (A → Type κ) → List A → Type κ
All P [] = Unit
All P (x ∷ xs) = P x × All P xs

pub All-In : {A : Type 0} {P : A → Type 0} (xs : List A) → ((a : A) → In a xs → P a) → All P xs
All-In [] h = tt
All-In (x ∷ xs) h = (h x (inl refl), All-In xs (λ a m. h a (inr m)))

pub In-All : {A : Type 0} (P : A → Type 0) (xs : List A) → All P xs → {a : A} → In a xs → P a
In-All P [] h m = absurd m
In-All P (x ∷ xs) h (inl e) = subst P (sym e) h.0
In-All P (x ∷ xs) h (inr m) = In-All P xs h.1 m

pub In-filter :
    {A : Type 0} (p : A → Bool) (xs : List A) (a : A)
    → In a (filter p xs) ↔ (In a xs × (p a ≡ true))
In-filter p [] a = (λ h. absurd h, λ h. h.0)
In-filter p (x ∷ xs) a =
    (λ h. ground (arith, (In-filter p xs a).0), λ h. ground (arith, (In-filter p xs a).1))

pub In-append : {A : Type 0} (xs ys : List A) (a : A) → In a (xs ++ ys) ↔ (In a xs ⊎ In a ys)
In-append [] ys a = (λ h. inr h, λ h. elim h [ inl x ↦ absurd x | inr y ↦ y ])
In-append (x ∷ xs) ys a =
    (λ h. ground (arith, (In-append xs ys a).0), λ h. ground (arith, (In-append xs ys a).1))
