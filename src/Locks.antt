-- ===== src/Locks.antt =====
-- services/Tx.ts: the permits of one address, which the sender locks and the lock-free runs in flight
-- share. The registry is a `Map` from normalized addresses, so the addresses do not touch each other,
-- and one key is enough. The semaphore of effect is a parameter.
pub mod Counts
pub mod Invariant
pub mod Exclusion
pub mod Running
pub mod Covered
use sui_effect.Prelude.{
  ℕ, zero, suc, Bool, true, false, Option, none, some, List, [], ◌∷◌, ◌++◌, ◌≡◌, ◌+◌, ◌-◌, ◌==◌,
  ◌&&◌, ◌≤◌, is_some, if◌then◌else◌,
}

-- `Semaphore`: `take` is `none` where the fiber has to wait.
pub record Semaphores (S : Type 0) : Type 0 where
  pub make : ℕ → S
  pub free : S → ℕ
  pub take : ℕ → S → Option S
  pub give : ℕ → S → S
  pub free_make : (n : ℕ) → free (make n) ≡ n
  pub free_take : (n : ℕ) (s t : S) → take n s ≡ some t → free t + n ≡ free s
  pub take_enough : (n : ℕ) (s : S) → n ≤ free s → is_some (take n s) ≡ true
  pub free_give : (n : ℕ) (s : S) → free (give n s) ≡ free s + n

-- `Permits`
pub record Permits (S : Type 0) : Type 0 where
  pub semaphore : S
  pub refs : ℕ

-- Where a fiber is: outside, with a reference to an entry and waiting for permits of it, holding
-- them, or with the reference only, after it has given them back.
pub data Stage : Type 0 where
  outside : Stage
  waiting : (entry wanted : ℕ) → Stage
  holding : (entry permits : ℕ) → Stage
  released : (entry : ℕ) → Stage

-- What the registry holds under the key, the entries that were ever made, by number, and the fibers.
pub record Registry (S : Type 0) : Type 0 where
  pub current : Option ℕ
  pub entries : ℕ → Permits S
  pub made : ℕ

abbrev pub same_entry : Option ℕ → ℕ → Bool
same_entry none id = false
same_entry (some j) id = j == id

module _ {S : Type 0} (semaphores : Semaphores S) (permits : ℕ) where
  abbrev pub write : ℕ → Permits S → Registry S → Registry S
  write id p r = record r { entries = λ j. if j == id then p else r.entries j }

  abbrev pub add_ref : Permits S → Permits S
  add_ref p = record p { refs = p.refs + 1 }

  -- The acquire of `permitsOf`: the entry under the key, made where there is none, with one more
  -- reference.
  unfoldable pub acquire : Registry S → ℕ × Registry S
  acquire r = elim r.current [
    | some id ↦ (id, write id (add_ref (r.entries id)) r)
    | none ↦ (
      r.made,
      record (write r.made (record { semaphore = semaphores.make permits; refs = 1 }) r) {
        current = some r.made;
        made = r.made + 1;
      },
    )
  ]

  -- The release of `permitsOf`: the last reference out deletes the entry, if it is still the one
  -- under the key.
  unfoldable pub release : ℕ → Registry S → Registry S
  release id r =
      let p = record (r.entries id) { refs = (r.entries id).refs - 1 } in
      if (p.refs == 0) && same_entry r.current id
      then record (write id p r) { current = none }
      else write id p r

  abbrev pub set_semaphore : ℕ → S → Registry S → Registry S
  set_semaphore id s r = write id (record (r.entries id) { semaphore = s }) r

  -- One step of one fiber; `xs` and `zs` are the fibers before and after it.
  pub data Step : Registry S × List Stage → Registry S × List Stage → Type 0 where
    enter :
        (r : Registry S) (xs zs : List Stage) (wanted : ℕ)
        → Step (r, xs ++ outside ∷ zs) ((acquire r).1, xs ++ waiting (acquire r).0 wanted ∷ zs)
    take :
        (r : Registry S) (xs zs : List Stage) (id wanted : ℕ) (s : S)
        → semaphores.take wanted (r.entries id).semaphore ≡ some s
        → Step
            (r, xs ++ waiting id wanted ∷ zs)
            (set_semaphore id s r, xs ++ holding id wanted ∷ zs)
    give :
        (r : Registry S) (xs zs : List Stage) (id n : ℕ)
        → Step
            (r, xs ++ holding id n ∷ zs)
            (
              set_semaphore id (semaphores.give n (r.entries id).semaphore) r,
              xs ++ released id ∷ zs,
            )
    leave :
        (r : Registry S) (xs zs : List Stage) (id : ℕ)
        → Step (r, xs ++ released id ∷ zs) (release id r, xs ++ outside ∷ zs)
    -- Interrupted while it waits.
    give_up :
        (r : Registry S) (xs zs : List Stage) (id wanted : ℕ)
        → Step (r, xs ++ waiting id wanted ∷ zs) (release id r, xs ++ outside ∷ zs)

  pub data Reaches (start : Registry S × List Stage) : Registry S × List Stage → Type 0 where
    here : Reaches start start
    there : {a b : Registry S × List Stage} → Reaches start a → Step a b → Reaches start b
