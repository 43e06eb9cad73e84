-- ===== src/Locks/Exclusion.antt =====
-- The permits that fibers hold under one address never exceed the permits of one entry, however
-- entries come and go, and the registry keeps an entry only while a fiber refers to it.
use sui_effect.Prelude.{
  ℕ, true, Option, none, some, List, [], ◌∷◌, ◌++◌, ◌≡◌, refl, sym, is_some, ◌∙◌, arith, ◌≤◌,
}
use mathlib.Core.Option.{some-injective}
use sui_effect.Locks.{
  Semaphores, Permits, Stage, outside, waiting, holding, released, Registry, Step, enter, take,
  give, leave, give_up, Reaches, here, there,
}
use sui_effect.Locks.Counts.{
  one_ref, one_held, held, total, refers, idle, total-append, held-referred, total-idle,
  total-refers, total-held,
}
use sui_effect.Locks.Invariant.{
  IsSound, take-IsSound, give-IsSound, release-IsSound, acquire-IsSound,
}

module _ {S : Type 0} (semaphores : Semaphores S) (permits : ℕ) where
  abbrev Sound : Registry S × List Stage → Type 0
  Sound (r, fs) = IsSound semaphores permits r fs

  step-Sound : (a b : Registry S × List Stage) → Step semaphores permits a b → Sound a → Sound b
  step-Sound a b (enter r xs zs n) h = acquire-IsSound semaphores permits r xs zs n h
  step-Sound a b (take r xs zs id n s took) h =
      take-IsSound semaphores permits r xs zs id n s took h
  step-Sound a b (give r xs zs id n) h = give-IsSound semaphores permits r xs zs id n h
  step-Sound a b (leave r xs zs id) h =
      release-IsSound semaphores permits r xs zs id (released id) (λ j. refl) (λ j. refl) h
  step-Sound a b (give_up r xs zs id n) h =
      release-IsSound semaphores permits r xs zs id (waiting id n) (λ j. refl) (λ j. refl) h

  Reaches-Sound :
      (a b : Registry S × List Stage) → Reaches semaphores permits a b → Sound a → Sound b
  Reaches-Sound a b here h = h
  Reaches-Sound a b (there {a = c} path step) h = step-Sound c b step (Reaches-Sound a c path h)

  -- Where all references are to one entry, all permits held are its permits.
  held-one :
      (c : ℕ) (fs : List Stage)
      → ((j : ℕ) → 1 ≤ total (one_ref j) fs → c ≡ j)
      → total held fs ≡ total (one_held c) fs
  held-one c [] h = refl
  held-one c (outside ∷ fs) h = omega (arith, held-one c fs (λ j le. h j (omega arith)))
  held-one c (waiting id n ∷ fs) h = omega (arith, held-one c fs (λ j le. h j (omega arith)))
  held-one c (holding id n ∷ fs) h =
      ground (arith, held-one c fs (λ j le. h j (omega arith)), h id (ground arith))
  held-one c (released id ∷ fs) h = omega (arith, held-one c fs (λ j le. h j (omega arith)))

  nothing-held : (fs : List Stage) → ((j : ℕ) → total (one_ref j) fs ≡ 0) → total held fs ≡ 0
  nothing-held fs h =
      held-one 0 fs (λ j le. absurd (ground (arith, h j))) ∙ held-referred 0 fs (h 0)

  -- Every reference is to the entry under the key.
  all_held :
      (r : Registry S) (fs : List Stage) → IsSound semaphores permits r fs → total held fs ≤ permits
  all_held r fs h = under r.current refl
    where
      under : (o : Option ℕ) → r.current ≡ o → total held fs ≤ permits
      under none q = omega (arith, nothing-held fs (λ j. ground (arith, h.live j)))
      under (some c) q = omega (
        arith,
        held-one c fs (λ j le. some-injective c j (sym q ∙ h.live j le)),
        h.divided c (h.kept c q).0,
      )

  no_entry :
      (r : Registry S) (fs : List Stage)
      → IsSound semaphores permits r fs
      → total refers fs ≡ 0
      → r.current ≡ none
  no_entry r fs h out = under r.current refl
    where
      under : (o : Option ℕ) → r.current ≡ o → r.current ≡ none
      under none q = q
      under (some c) q = absurd (omega (arith, (h.kept c q).1, total-refers c fs))

  -- No entry yet, and all fibers outside.
  abbrev pub start : (ℕ → Permits S) → ℕ → Registry S × List Stage
  start entries fibers = (record { current = none; entries = entries; made = 0 }, idle fibers)

  start-Sound : (entries : ℕ → Permits S) (fibers : ℕ) → Sound (start entries fibers)
  start-Sound entries fibers = record {
    counted = λ j lt. omega arith;
    divided = λ j lt. omega arith;
    unmade = λ j le. total-idle j fibers;
    live = λ j le. ground (arith, total-idle j fibers);
    kept = λ j q. ground arith;
  }

  -- Any number of fibers enter, wait, hold, leave and are interrupted while they wait, in any order.
  -- The permits they hold under one address are never more than those of one entry, so a lock with
  -- one permit has one holder, and who holds them all holds them alone; and when no fiber refers to
  -- the address, the registry keeps no entry for it.
  pub Reaches-exclusive :
      (entries : ℕ → Permits S) (fibers : ℕ) (r : Registry S) (fs : List Stage)
      → Reaches semaphores permits (start entries fibers) (r, fs)
      → (total held fs ≤ permits) × (total refers fs ≡ 0 → r.current ≡ none)
  Reaches-exclusive entries fibers r fs path = (all_held r fs sound, no_entry r fs sound)
    where
      sound : IsSound semaphores permits r fs
      sound = Reaches-Sound (start entries fibers) (r, fs) path (start-Sound entries fibers)

  -- A fiber that waits for no more permits than there are is served as soon as none is held: its
  -- request for permits does not wait any longer.
  pub waiting-served :
      (entries : ℕ → Permits S) (fibers : ℕ) (r : Registry S) (xs zs : List Stage) (id n : ℕ)
      → Reaches semaphores permits (start entries fibers) (r, xs ++ waiting id n ∷ zs)
      → n ≤ permits
      → total held (xs ++ waiting id n ∷ zs) ≡ 0
      → is_some (semaphores.take n (r.entries id).semaphore) ≡ true
  waiting-served entries fibers r xs zs id n path le none_held =
      semaphores.take_enough n (r.entries id).semaphore (
        omega (
          arith,
          le,
          none_held,
          h.divided id (h.kept id current).0,
          total-held id (xs ++ waiting id n ∷ zs),
        ))
    where
      h : IsSound semaphores permits r (xs ++ waiting id n ∷ zs)
      h =
          Reaches-Sound (start entries fibers) (r, xs ++ waiting id n ∷ zs) path
            (start-Sound entries fibers)

      current : r.current ≡ some id
      current = h.live id (ground (arith, total-append (one_ref id) xs (waiting id n ∷ zs)))
