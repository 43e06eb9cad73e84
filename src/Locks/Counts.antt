-- ===== src/Locks/Counts.antt =====
-- How many fibers refer to an entry, and how many permits they hold.
use sui_effect.Prelude.{
  ℕ, zero, suc, List, [], ◌∷◌, ◌++◌, ◌≡◌, refl, arith, ◌+◌, ◌==◌, ◌≤◌, if◌then◌else◌,
}
use sui_effect.Locks.{Stage, outside, waiting, holding, released}

abbrev pub one_ref : ℕ → Stage → ℕ
one_ref j outside = 0
one_ref j (waiting id n) = if id == j then 1 else 0
one_ref j (holding id n) = if id == j then 1 else 0
one_ref j (released id) = if id == j then 1 else 0

abbrev pub one_held : ℕ → Stage → ℕ
one_held j outside = 0
one_held j (waiting id n) = 0
one_held j (holding id n) = if id == j then n else 0
one_held j (released id) = 0

abbrev pub held : Stage → ℕ
held outside = 0
held (waiting id n) = 0
held (holding id n) = n
held (released id) = 0

abbrev pub total : (Stage → ℕ) → List Stage → ℕ
total f [] = 0
total f (s ∷ fs) = f s + total f fs

pub total-append :
    (f : Stage → ℕ) (xs zs : List Stage) → total f (xs ++ zs) ≡ total f xs + total f zs
total-append f [] zs = omega arith
total-append f (x ∷ xs) zs = omega (arith, total-append f xs zs)

-- Who holds permits of an entry refers to it.
pub held-referred : (j : ℕ) (fs : List Stage) → total (one_ref j) fs ≡ 0 → total (one_held j) fs ≡ 0
held-referred j [] h = refl
held-referred j (outside ∷ fs) h = ground (arith, held-referred j fs)
held-referred j (waiting id n ∷ fs) h = ground (arith, held-referred j fs)
held-referred j (holding id n ∷ fs) h = ground (arith, held-referred j fs)
held-referred j (released id ∷ fs) h = ground (arith, held-referred j fs)

abbrev pub refers : Stage → ℕ
refers outside = 0
refers (waiting id n) = 1
refers (holding id n) = 1
refers (released id) = 1

abbrev pub idle : ℕ → List Stage
idle zero = []
idle (suc n) = outside ∷ idle n

pub total-idle : (j n : ℕ) → total (one_ref j) (idle n) ≡ 0
total-idle j zero = refl
total-idle j (suc n) = omega (arith, total-idle j n)

pub total-refers : (j : ℕ) (fs : List Stage) → total (one_ref j) fs ≤ total refers fs
total-refers j [] = omega arith
total-refers j (outside ∷ fs) = ground (arith, total-refers j fs)
total-refers j (waiting id n ∷ fs) = ground (arith, total-refers j fs)
total-refers j (holding id n ∷ fs) = ground (arith, total-refers j fs)
total-refers j (released id ∷ fs) = ground (arith, total-refers j fs)

pub total-held : (j : ℕ) (fs : List Stage) → total (one_held j) fs ≤ total held fs
total-held j [] = omega arith
total-held j (outside ∷ fs) = ground (arith, total-held j fs)
total-held j (waiting id n ∷ fs) = ground (arith, total-held j fs)
total-held j (holding id n ∷ fs) = ground (arith, total-held j fs)
total-held j (released id ∷ fs) = ground (arith, total-held j fs)
