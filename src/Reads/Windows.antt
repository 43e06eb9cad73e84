-- ===== src/Reads/Windows.antt =====
-- The wanted items of a ledger between two of its positions.
use sui_effect.Prelude.{
  ℕ, zero, suc, Bool, List, [], ◌∷◌, ◌++◌, ◌≡◌, refl, sym, ap, ◌∙◌, arith, ◌≤◌, take, drop, filter,
}

module _ {A : Type 0} where
  -- The items from position a up to position b.
  abbrev pub window : ℕ → ℕ → List A → List A
  window a b xs = drop a (take b xs)

  pub filter-append :
      (p : A → Bool) (xs ys : List A) → filter p (xs ++ ys) ≡ filter p xs ++ filter p ys
  filter-append p [] ys = refl
  filter-append p (x ∷ xs) ys = ground (arith, filter-append p xs ys)

  take-window : (b c : ℕ) (xs : List A) → b ≤ c → take b xs ++ drop b (take c xs) ≡ take c xs
  take-window zero c xs h = refl
  take-window (suc b) zero xs h = absurd (omega arith)
  take-window (suc b) (suc c) [] h = refl
  take-window (suc b) (suc c) (x ∷ xs) h = ap (λ ys. x ∷ ys) (take-window b c xs (omega arith))

  window-join :
      (a b c : ℕ) (xs : List A) → a ≤ b → b ≤ c → window a b xs ++ window b c xs ≡ window a c xs
  window-join zero b c xs h k = take-window b c xs k
  window-join (suc a) zero c xs h k = absurd (omega arith)
  window-join (suc a) (suc b) zero xs h k = absurd (omega arith)
  window-join (suc a) (suc b) (suc c) [] h k = refl
  window-join (suc a) (suc b) (suc c) (x ∷ xs) h k =
      window-join a b c xs (omega arith) (omega arith)

  -- The items between two positions that pass the filter.
  abbrev pub between : (A → Bool) → List A → ℕ → ℕ → List A
  between wanted ledger a b = filter wanted (window a b ledger)

  pub between-join :
      (wanted : A → Bool) (ledger : List A) (a b c : ℕ)
      → a ≤ b
      → b ≤ c
      → between wanted ledger a b ++ between wanted ledger b c ≡ between wanted ledger a c
  between-join wanted ledger a b c h k =
      sym (filter-append wanted (window a b ledger) (window b c ledger))
      ∙ ap (filter wanted) (window-join a b c ledger h k)

  append-empty : (xs ys : List A) → xs ++ ys ≡ [] → xs ≡ []
  append-empty [] ys h = refl
  append-empty (x ∷ xs) ys h = cc

  -- Nothing wanted between two positions, nothing wanted between the first and one before the second.
  pub between-empty :
      (wanted : A → Bool) (ledger : List A) (a b c : ℕ)
      → a ≤ b
      → b ≤ c
      → between wanted ledger a c ≡ []
      → between wanted ledger a b ≡ []
  between-empty wanted ledger a b c h k e =
      append-empty (between wanted ledger a b) (between wanted ledger b c)
        (between-join wanted ledger a b c h k ∙ e)
