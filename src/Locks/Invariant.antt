-- ===== src/Locks/Invariant.antt =====
-- What every step of the fibers keeps: the references and the permits of each entry add up, and every
-- reference is to the entry under the key.
use sui_effect.Prelude.{
  ℕ, Option, none, some, List, ◌∷◌, ◌++◌, ◌≡◌, refl, arith, ◌+◌, ◌==◌, ◌≤◌, ◌<◌, if◌then◌else◌,
}
use mathlib.Core.Option.{some-injective}
use sui_effect.Locks.{
  Semaphores, Stage, outside, waiting, holding, released, Registry, write, add_ref, acquire,
  release, set_semaphore,
}
use sui_effect.Locks.Counts.{one_ref, one_held, total, total-append, held-referred}

module _ {S : Type 0} (semaphores : Semaphores S) (permits : ℕ) where
  pub record IsSound (r : Registry S) (fs : List Stage) : Type 0 where
    pub counted : (j : ℕ) → j < r.made → (r.entries j).refs ≡ total (one_ref j) fs
    pub divided :
        (j : ℕ)
        → j < r.made
        → semaphores.free (r.entries j).semaphore + total (one_held j) fs ≡ permits
    pub unmade : (j : ℕ) → r.made ≤ j → total (one_ref j) fs ≡ 0
    pub live : (j : ℕ) → 1 ≤ total (one_ref j) fs → r.current ≡ some j
    pub kept : (j : ℕ) → r.current ≡ some j → (j < r.made) × (1 ≤ total (one_ref j) fs)

  pub take-IsSound :
      (r : Registry S) (xs zs : List Stage) (id n : ℕ) (s : S)
      → semaphores.take n (r.entries id).semaphore ≡ some s
      → IsSound r (xs ++ waiting id n ∷ zs)
      → IsSound (set_semaphore semaphores permits id s r) (xs ++ holding id n ∷ zs)
  take-IsSound r xs zs id n s took h = record {
    counted = λ j lt. ground (
      arith,
      h.counted j lt,
      total-append (one_ref j) xs (waiting id n ∷ zs),
      total-append (one_ref j) xs (holding id n ∷ zs),
    );
    divided = λ j lt. ground (
      arith,
      h.divided j lt,
      total-append (one_held j) xs (waiting id n ∷ zs),
      total-append (one_held j) xs (holding id n ∷ zs),
      semaphores.free_take n (r.entries id).semaphore s took,
    );
    unmade = λ j le. ground (
      arith,
      h.unmade j le,
      total-append (one_ref j) xs (waiting id n ∷ zs),
      total-append (one_ref j) xs (holding id n ∷ zs),
    );
    live = λ j le. ground (
      arith,
      h.live j,
      total-append (one_ref j) xs (waiting id n ∷ zs),
      total-append (one_ref j) xs (holding id n ∷ zs),
    );
    kept = λ j q. ground (
      arith,
      h.kept j q,
      total-append (one_ref j) xs (waiting id n ∷ zs),
      total-append (one_ref j) xs (holding id n ∷ zs),
    );
  }

  pub give-IsSound :
      (r : Registry S) (xs zs : List Stage) (id n : ℕ)
      → IsSound r (xs ++ holding id n ∷ zs)
      → IsSound
          (set_semaphore semaphores permits id (semaphores.give n (r.entries id).semaphore) r)
          (xs ++ released id ∷ zs)
  give-IsSound r xs zs id n h = record {
    counted = λ j lt. ground (
      arith,
      h.counted j lt,
      total-append (one_ref j) xs (holding id n ∷ zs),
      total-append (one_ref j) xs (released id ∷ zs),
    );
    divided = λ j lt. ground (
      arith,
      h.divided j lt,
      total-append (one_held j) xs (holding id n ∷ zs),
      total-append (one_held j) xs (released id ∷ zs),
      semaphores.free_give n (r.entries id).semaphore,
    );
    unmade = λ j le. ground (
      arith,
      h.unmade j le,
      total-append (one_ref j) xs (holding id n ∷ zs),
      total-append (one_ref j) xs (released id ∷ zs),
    );
    live = λ j le. ground (
      arith,
      h.live j,
      total-append (one_ref j) xs (holding id n ∷ zs),
      total-append (one_ref j) xs (released id ∷ zs),
    );
    kept = λ j q. ground (
      arith,
      h.kept j q,
      total-append (one_ref j) xs (holding id n ∷ zs),
      total-append (one_ref j) xs (released id ∷ zs),
    );
  }

  -- The release of a reference, whatever the fiber waited for.
  pub release-IsSound :
      (r : Registry S) (xs zs : List Stage) (id : ℕ) (s : Stage)
      → ((j : ℕ) → one_ref j s ≡ (if id == j then 1 else 0))
      → ((j : ℕ) → one_held j s ≡ 0)
      → IsSound r (xs ++ s ∷ zs)
      → IsSound (release semaphores permits id r) (xs ++ outside ∷ zs)
  unfolding release
  release-IsSound r xs zs id s one none_held h = record {
    counted = λ j lt. ground (
      arith,
      h.counted j,
      h.counted id,
      h.live id,
      h.kept id,
      one j,
      one id,
      total-append (one_ref j) xs (s ∷ zs),
      total-append (one_ref j) xs (outside ∷ zs),
    );
    divided = λ j lt. ground (
      arith,
      h.divided j,
      none_held j,
      total-append (one_held j) xs (s ∷ zs),
      total-append (one_held j) xs (outside ∷ zs),
    );
    unmade = λ j le. ground (
      arith,
      h.unmade j,
      one j,
      total-append (one_ref j) xs (s ∷ zs),
      total-append (one_ref j) xs (outside ∷ zs),
    );
    live = λ j le. ground (
      arith,
      refers,
      counts,
      h.live j,
      some-injective id j,
      one j,
      one id,
      total-append (one_ref j) xs (s ∷ zs),
      total-append (one_ref j) xs (outside ∷ zs),
      total-append (one_ref id) xs (s ∷ zs),
      total-append (one_ref id) xs (outside ∷ zs),
    );
    kept = λ j q. ground (
      arith,
      refers,
      counts,
      h.kept j,
      some-injective id j,
      one j,
      one id,
      total-append (one_ref j) xs (s ∷ zs),
      total-append (one_ref j) xs (outside ∷ zs),
      total-append (one_ref id) xs (s ∷ zs),
      total-append (one_ref id) xs (outside ∷ zs),
    );
  }
    where
      refers : r.current ≡ some id
      refers = h.live id (ground (arith, one id, total-append (one_ref id) xs (s ∷ zs)))

      counts : (r.entries id).refs ≡ total (one_ref id) (xs ++ s ∷ zs)
      counts = h.counted id (h.kept id refers).0

  pub acquire-IsSound :
      (r : Registry S) (xs zs : List Stage) (n : ℕ)
      → IsSound r (xs ++ outside ∷ zs)
      → IsSound
          (acquire semaphores permits r).1
          (xs ++ waiting (acquire semaphores permits r).0 n ∷ zs)
  unfolding acquire
  acquire-IsSound r xs zs n h = entered r.current refl
    where
      entered :
          (o : Option ℕ)
          → r.current ≡ o
          → IsSound
              (elim o as (λ _. ℕ × Registry S) [
                | some id ↦
                    (id, write semaphores permits id (add_ref semaphores permits (r.entries id)) r)
                | none ↦ (
                  r.made,
                  record (write semaphores permits r.made
                      (record { semaphore = semaphores.make permits; refs = 1 })
                      r) { current = some r.made; made = r.made + 1 },
                )
              ]).1
              (xs
                ++ waiting
                    (elim o as (λ _. ℕ × Registry S) [
                      | some id ↦ (
                        id,
                        write semaphores permits id (add_ref semaphores permits (r.entries id)) r,
                      )
                      | none ↦ (
                        r.made,
                        record (write semaphores permits r.made
                            (record { semaphore = semaphores.make permits; refs = 1 })
                            r) { current = some r.made; made = r.made + 1 },
                      )
                    ]).0
                    n
                  ∷ zs)
      entered (some id) q = record {
        counted = λ j lt. ground (
          arith,
          h.counted j lt,
          total-append (one_ref j) xs (outside ∷ zs),
          total-append (one_ref j) xs (waiting id n ∷ zs),
        );
        divided = λ j lt. ground (
          arith,
          h.divided j lt,
          total-append (one_held j) xs (outside ∷ zs),
          total-append (one_held j) xs (waiting id n ∷ zs),
        );
        unmade = λ j le. ground (
          arith,
          h.unmade j le,
          h.kept id q,
          total-append (one_ref j) xs (outside ∷ zs),
          total-append (one_ref j) xs (waiting id n ∷ zs),
        );
        live = λ j le. ground (
          arith,
          q,
          h.live j,
          total-append (one_ref j) xs (outside ∷ zs),
          total-append (one_ref j) xs (waiting id n ∷ zs),
        );
        kept = λ j k. ground (
          arith,
          h.kept j k,
          total-append (one_ref j) xs (outside ∷ zs),
          total-append (one_ref j) xs (waiting id n ∷ zs),
        );
      }
      entered none q = record {
        counted = λ j lt. ground (
          arith,
          h.counted j,
          h.unmade j,
          total-append (one_ref j) xs (outside ∷ zs),
          total-append (one_ref j) xs (waiting r.made n ∷ zs),
        );
        divided = λ j lt. ground (
          arith,
          h.divided j,
          h.unmade j,
          held-referred j (xs ++ outside ∷ zs),
          semaphores.free_make permits,
          total-append (one_held j) xs (outside ∷ zs),
          total-append (one_held j) xs (waiting r.made n ∷ zs),
        );
        unmade = λ j le. ground (
          arith,
          h.unmade j,
          total-append (one_ref j) xs (outside ∷ zs),
          total-append (one_ref j) xs (waiting r.made n ∷ zs),
        );
        live = λ j le. ground (
          arith,
          q,
          h.live j,
          total-append (one_ref j) xs (outside ∷ zs),
          total-append (one_ref j) xs (waiting r.made n ∷ zs),
        );
        kept = λ j k. ground (
          arith,
          some-injective r.made j k,
          total-append (one_ref j) xs (outside ∷ zs),
          total-append (one_ref j) xs (waiting r.made n ∷ zs),
        );
      }
