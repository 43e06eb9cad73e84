-- ===== src/Tx/Ends.antt =====
-- Postconditions of effects, with one rule for each way to build an effect.
use sui_effect.Prelude.{Bool, true, false, ◌≡◌, refl, if◌then◌else◌}
use sui_effect.Journal.{Result, success, failure}
use sui_effect.Tx.Network.{World, Eff, Failure, and_then, ◌>>=◌}

module _ {J : Type 0} where
  -- `Q` holds of what a success returns and of the world it leaves, `E` of a failure.
  abbrev pub Post :
      {A : Type 0}
      → (A → World J → Type 0)
      → (Failure → Type 0)
      → Result Failure A × World J
      → Type 0
  Post Q E (success a, w) = Q a w
  Post Q E (failure e, w) = E e

  module _ {A B : Type 0} (P : A → World J → Type 0) (Q : B → World J → Type 0)
      (E : Failure → Type 0) where
    after :
        (f : A → Eff J B) (x : Result Failure A × World J)
        → ((a : A) (v : World J) → P a v → Post Q E (f a v))
        → Post P E x
        → Post Q E (and_then f x.0 x.1)
    after f (success a, v) k h = k a v h
    after f (failure e, v) k h = h

    pub Post-bind :
        (m : Eff J A) (f : A → Eff J B) (w : World J)
        → Post P E (m w)
        → ((a : A) (v : World J) → P a v → Post Q E (f a v))
        → Post Q E ((m >>= f) w)
    Post-bind m f w h k = after f (m w) k h

  pub Post-if :
      {A : Type 0} (Q : A → World J → Type 0) (E : Failure → Type 0) (b : Bool) (m n : Eff J A)
      (w : World J)
      → (b ≡ true → Post Q E (m w))
      → (b ≡ false → Post Q E (n w))
      → Post Q E ((if b then m else n) w)
  Post-if Q E true m n w h k = h refl
  Post-if Q E false m n w h k = k refl

  pub Post-weaken :
      {A : Type 0} (P Q : A → World J → Type 0) (D E : Failure → Type 0)
      (x : Result Failure A × World J)
      → ((a : A) (v : World J) → P a v → Q a v)
      → ((e : Failure) → D e → E e)
      → Post P D x
      → Post Q E x
  Post-weaken P Q D E (success a, v) k l h = k a v h
  Post-weaken P Q D E (failure e, v) k l h = l e h

  -- The success of an effect, as an equation.
  pub Post-self :
      {A : Type 0} (E : Failure → Type 0) (x : Result Failure A × World J)
      → Post (λ a v. Unit {0}) E x
      → Post (λ a v. x.0 ≡ success a) E x
  Post-self E (success a, v) h = refl
  Post-self E (failure e, v) h = h
