-- ===== src/Reads/Results.antt =====
-- Chains of answers that stop at the first failure, and what follows from the chain's success.
use sui_effect.Prelude.{
  true, false, if◌then◌else◌, Bool, List, [], ◌∷◌, ◌≡◌, refl, ◌⊎◌, inl, inr, subst, sym, arith,
}
use sui_effect.Journal.{Result, success, failure}

pub if_cases :
    {A : Type 0} (b : Bool) (x y z : A)
    → (if b then x else y) ≡ z
    → ((b ≡ true) × (x ≡ z)) ⊎ ((b ≡ false) × (y ≡ z))
if_cases true x y z h = inl (refl, h)
if_cases false x y z h = inr (refl, h)

module _ {E A : Type 0} where
  unfoldable pub cons_result : Result E A → Result E (List A) → Result E (List A)
  cons_result (failure e) rest = failure e
  cons_result (success x) (failure e) = failure e
  cons_result (success x) (success xs) = success (x ∷ xs)

  pub cons_result_sound :
      (r : Result E A) (rest : Result E (List A)) (ys : List A)
      → cons_result r rest ≡ success ys
      → (x : A) × (xs : List A) × ((r ≡ success x) × (rest ≡ success xs) × (ys ≡ x ∷ xs))
  unfolding cons_result
  cons_result_sound (failure e) rest ys h = cc
  cons_result_sound (success x) (failure e) ys h = cc
  cons_result_sound (success x) (success xs) ys h = (x, xs, (refl, refl, ground (arith, h)))

module _ {A B : Type 0} where
  -- The results of a chain stand in the order of its items, each that of its item.
  abbrev pub Each : (A → B → Type 0) → List A → List B → Type 0
  Each P [] [] = Unit
  Each P [] (y ∷ ys) = ⊥
  Each P (x ∷ xs) [] = ⊥
  Each P (x ∷ xs) (y ∷ ys) = P x y × Each P xs ys

module _ {E A B : Type 0} where
  unfoldable pub then_do : Result E A → (A → Result E B) → Result E B
  then_do (failure e) f = failure e
  then_do (success x) f = f x

  pub then_do_sound :
      (r : Result E A) (f : A → Result E B) (y : B)
      → then_do r f ≡ success y
      → (x : A) × ((r ≡ success x) × (f x ≡ success y))
  unfolding then_do
  then_do_sound (failure e) f y h = cc
  then_do_sound (success x) f y h = (x, (refl, h))

  unfoldable pub traverse : (A → Result E B) → List A → Result E (List B)
  traverse f [] = success []
  traverse f (x ∷ xs) = cons_result (f x) (traverse f xs)

  pub traverse-Each :
      (P : A → B → Type 0) (f : A → Result E B) (xs : List A) (ys : List B)
      → ((x : A) (y : B) → f x ≡ success y → P x y)
      → traverse f xs ≡ success ys
      → Each P xs ys
  unfolding traverse
  traverse-Each P f [] [] h e = tt
  traverse-Each P f [] (y ∷ ys) h e = cc
  traverse-Each P f (x ∷ xs) zs h e =
      let (y, ys, (p, q, r)) = cons_result_sound (f x) (traverse f xs) zs e in
      subst (Each P (x ∷ xs)) (sym r) (h x y p, traverse-Each P f xs ys h q)
