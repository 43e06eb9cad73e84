-- ===== src/Scenarios/Queues.antt =====
-- Two fibers that want the lock of one sender.
use sui_effect.Prelude.{
  ℕ, true, none, some, [], ◌∷◌, ◌≡◌, refl, arith, ◌+◌, ◌-◌, ◌≤◌, leb, is_some, if◌then◌else◌,
}
use sui_effect.Locks.{
  Semaphores, Permits, Registry, outside, waiting, holding, acquire, set_semaphore, enter, take,
  Reaches, here, there,
}
use sui_effect.Locks.Counts.{total, held, refers}
use sui_effect.Locks.Exclusion.{start, Reaches-exclusive, waiting-served}

-- A semaphore that is its number of free permits.
pub counted_down : (n s t : ℕ) → (if leb n s then some (s - n) else none) ≡ some t → t + n ≡ s
counted_down n s t q = ground arith

pub taken_enough : (n s : ℕ) → n ≤ s → is_some (if leb n s then some (s - n) else none) ≡ true
taken_enough n s le = ground arith

abbrev counter : Semaphores ℕ
counter = record {
  make = λ n. n;
  free = λ s. s;
  take = λ n s. if leb n s then some (s - n) else none;
  give = λ n s. s + n;
  free_make = λ n. refl;
  free_take = counted_down;
  take_enough = taken_enough;
  free_give = λ n s. refl;
}

abbrev no_entries : ℕ → Permits ℕ
no_entries j = record { semaphore = 0; refs = 0 }

abbrev entered : Registry ℕ
entered = (acquire counter 1 (start counter 1 no_entries 2).0).1

abbrev taken : Registry ℕ
taken = set_semaphore counter 1 0 0 entered

-- The first fiber enters.
one_waits : Reaches counter 1 (start counter 1 no_entries 2) (entered, waiting 0 1 ∷ outside ∷ [])
unfolding acquire
one_waits = there here (enter (start counter 1 no_entries 2).0 [] (outside ∷ []) 1)

-- It takes the permit, and the second fiber has to wait.
one_holds :
    Reaches counter 1
      (start counter 1 no_entries 2)
      ((acquire counter 1 taken).1, holding 0 1 ∷ waiting 0 1 ∷ [])
unfolding acquire
one_holds =
    there (there one_waits (take entered [] (outside ∷ []) 0 1 0 refl))
      (enter taken (holding 0 1 ∷ []) [] 1)

Reaches-exclusive_example :
    (total held (holding 0 1 ∷ waiting 0 1 ∷ []) ≤ 1)
    × (total refers (holding 0 1 ∷ waiting 0 1 ∷ []) ≡ 0
        → (acquire counter 1 taken).1.current ≡ none)
Reaches-exclusive_example =
    Reaches-exclusive counter 1 no_entries 2 (acquire counter 1 taken).1
      (holding 0 1 ∷ waiting 0 1 ∷ []) one_holds

waiting-served_example : is_some (counter.take 1 (entered.entries 0).semaphore) ≡ true
waiting-served_example =
    waiting-served counter 1 no_entries 2 entered [] (outside ∷ []) 0 1 one_waits (omega arith) refl
