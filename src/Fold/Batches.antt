-- ===== src/Fold/Batches.antt =====
-- A plan takes every coin that was read exactly once, in batches of the allowed sizes.
use sui_effect.Prelude.{
  ℕ, zero, suc, Bool, true, false, not, Option, none, some, List, [], ◌∷◌, ◌++◌, ◌≡◌, refl, sym,
  subst, Text, arith, ◌+◌, ◌-◌, ◌*◌, ◌≤◌, length, leb, leb→le, if◌then◌else◌, All, ◌⊎◌, inl, inr,
}
use sui_effect.Schemas.{SuiAddress}
use sui_effect.Journal.{Result, success, failure}
use sui_effect.Tx.Network.{TransportError}
use sui_effect.Fold.{
  Coin, FoldBatch, FoldPlan, FoldGas, Reads, Planning, chunk, sort_largest_first, place, place_all,
  plan_types, plan_with, plan_of, plan_fold, ordered_types, per_transaction_of, batch_of, is_sui,
  sum_of, fold_budget_units, auto, folded_coins, address_balance,
}
use sui_effect.Fold.Chunks.{
  count, count_groups, count_batches, count-append, count_batches-append, count-sort_largest_first,
  count-chunk_from, Sized, chunk_from-Sized,
}

All-append : {A : Type 0} (P : A → Type 0) (xs ys : List A) → All P xs → All P ys → All P (xs ++ ys)
All-append P [] ys h k = k
All-append P (x ∷ xs) ys h k = (h.0, All-append P xs ys h.1 k)

module _ (reads : Reads) (owner : SuiAddress) (price : ℕ) where
  -- The batch's gas fits its coins: only SUI pays for its own fold, and only if it covers the
  -- estimate.
  abbrev pub GasFits : FoldBatch → FoldGas → Type 0
  GasFits b auto = is_sui reads b.coin_type ≡ false
  GasFits b folded_coins =
      (is_sui reads b.coin_type ≡ true) × (price * fold_budget_units (length b.coins) ≤ b.amount)
  GasFits b address_balance = is_sui reads b.coin_type ≡ true

  pub record FoldsWell (size : ℕ) (b : FoldBatch) : Type 0 where
    pub least : 1 ≤ length b.coins
    pub most : length b.coins ≤ size
    pub total : b.amount ≡ sum_of b.coins
    pub own : b.owner ≡ owner
    pub gas : GasFits b b.gas

  abbrev count_plan : (Coin → Bool) → Planning → ℕ
  count_plan p st = count_batches p st.batches + count p st.skipped

  place-count :
      (p : Coin → Bool) (t : Text) (g : List Coin) (st : Planning)
      → count_plan p (place reads owner price t g st) ≡ count_plan p st + count p g
  unfolding place
  place-count p t g st = ground (
    arith,
    count_batches-append p st.batches (batch_of owner t g auto ∷ []),
    count_batches-append p st.batches (batch_of owner t g folded_coins ∷ []),
    count_batches-append p st.batches (batch_of owner t g address_balance ∷ []),
    count-append p st.skipped g,
  )

  place_all-count :
      (p : Coin → Bool) (t : Text) (gs : List (List Coin)) (st : Planning)
      → count_plan p (place_all reads owner price t gs st) ≡ count_plan p st + count_groups p gs
  unfolding place_all
  place_all-count p t [] st = omega arith
  place_all-count p t (g ∷ gs) st =
      omega (arith, place_all-count p t gs (place reads owner price t g st), place-count p t g st)

  abbrev AllWell : ℕ → Planning → Type 0
  AllWell size st = All (FoldsWell size) st.batches

  one_more :
      (size : ℕ) (t : Text) (g : List Coin) (gas : FoldGas) (bs : List FoldBatch)
      → Sized size g
      → GasFits (batch_of owner t g gas) gas
      → All (FoldsWell size) bs
      → All (FoldsWell size) (bs ++ batch_of owner t g gas ∷ [])
  one_more size t g gas bs (lo, hi) fits h =
      All-append (FoldsWell size) bs _ h
        (record { least = lo; most = hi; total = refl; own = refl; gas = fits }, tt)

  place-AllWell :
      (size : ℕ) (t : Text) (g : List Coin) (st : Planning)
      → Sized size g
      → AllWell size st
      → AllWell size (place reads owner price t g st)
  unfolding place
  place-AllWell size t g st fit h =
      cases (is_sui reads t) refl (leb (price * fold_budget_units (length g)) (sum_of g)) refl
        (leb (price * fold_budget_units (length g)) st.projected)
    where
      cases :
          (s : Bool)
          → is_sui reads t ≡ s
          → (a : Bool) → leb (price * fold_budget_units (length g)) (sum_of g) ≡ a
          → (b : Bool)
          → AllWell size (
              if not s
              then record st { batches = st.batches ++ batch_of owner t g auto ∷ [] }
              else if a
              then record {
                projected = st.projected + sum_of g - price * fold_budget_units (length g);
                batches = st.batches ++ batch_of owner t g folded_coins ∷ [];
                skipped = st.skipped;
              }
              else if b
              then record {
                projected = st.projected + sum_of g - price * fold_budget_units (length g);
                batches = st.batches ++ batch_of owner t g address_balance ∷ [];
                skipped = st.skipped;
              }
              else record st { skipped = st.skipped ++ g })
      cases false q a r b = one_more size t g auto st.batches fit q h
      cases true q true r b =
          one_more size t g folded_coins st.batches fit
            (q, leb→le (price * fold_budget_units (length g)) (sum_of g) r) h
      cases true q false r true = one_more size t g address_balance st.batches fit q h
      cases true q false r false = h

  place_all-AllWell :
      (size : ℕ) (t : Text) (gs : List (List Coin)) (st : Planning)
      → All (Sized size) gs
      → AllWell size st
      → AllWell size (place_all reads owner price t gs st)
  unfolding place_all
  place_all-AllWell size t [] st fit h = h
  place_all-AllWell size t (g ∷ gs) st fit h =
      place_all-AllWell size t gs (place reads owner price t g st) fit.1
        (place-AllWell size t g st fit.0 h)

  abbrev pub count_read : (Coin → Bool) → Result TransportError (List Coin) → ℕ
  count_read p (success cs) = count p cs
  count_read p (failure e) = 0

  -- The coins read of these types that pass a test.
  abbrev pub count_types : (Coin → Bool) → List Text → ℕ
  count_types p [] = 0
  count_types p (t ∷ ts) = count_read p (reads.coins_of owner t) + count_types p ts

  -- A plan of all coins that were read, or the failure of a read.
  abbrev pub Planned : ℕ → List Text → Planning → Result TransportError Planning → Type 0
  Planned size ts st (success out) =
      ((p : Coin → Bool) → count_plan p out ≡ count_plan p st + count_types p ts) × AllWell size out
  Planned size ts st (failure e) = (t : Text) × (reads.coins_of owner t ≡ failure e)

  plan_types-Planned :
      (n : ℕ) (ts : List Text) (st : Planning)
      → AllWell (suc n) st
      → Planned (suc n) ts st (plan_types reads owner price (suc n) ts st)
  unfolding plan_types
  plan_types-Planned n [] st h = (λ p. omega arith, h)
  plan_types-Planned n (t ∷ ts) st h = read (plan_types-Planned n ts) (reads.coins_of owner t) refl
    where
      next : List Coin → Planning
      next coins = place_all reads owner price t (chunk (sort_largest_first coins) (suc n)) st

      Rest : Type 0
      Rest =
          (u : Planning)
          → AllWell (suc n) u
          → Planned (suc n) ts u (plan_types reads owner price (suc n) ts u)

      all_placed :
          (p : Coin → Bool) (coins : List Coin)
          → count_plan p (next coins) ≡ count_plan p st + count p coins
      all_placed p coins = omega (
        arith,
        place_all-count p t (chunk (sort_largest_first coins) (suc n)) st,
        count-chunk_from p (length (sort_largest_first coins)) n (sort_largest_first coins)
            (omega arith),
        count-sort_largest_first p coins,
      )

      weaker :
          (coins : List Coin)
          → reads.coins_of owner t ≡ success coins
          → (r : Result TransportError Planning) → Planned (suc n) ts (next coins) r
          → Planned (suc n) (t ∷ ts) st r
      weaker coins q (success out) k = ((λ p. ground (arith, k.0 p, all_placed p coins, q)), k.1)
      weaker coins q (failure e) k = k

      read :
          Rest
          → (r : Result TransportError (List Coin)) → reads.coins_of owner t ≡ r
          → Planned (suc n) (t ∷ ts) st (elim r [
            | failure e ↦ failure e
            | success coins ↦ plan_types reads owner price (suc n) ts (next coins)
          ])
      read rest (failure e) q = (t, q)
      read rest (success coins) q =
          weaker coins q (plan_types reads owner price (suc n) ts (next coins)) (
            rest (next coins) (
              place_all-AllWell (suc n) t (chunk (sort_largest_first coins) (suc n)) st
                (chunk_from-Sized (length (sort_largest_first coins)) n (sort_largest_first coins))
                h))

positive : (m : ℕ) → 1 ≤ m → (n : ℕ) × (m ≡ suc n)
positive zero h = (0, omega arith)
positive (suc n) h = (n, refl)

per_transaction_of-positive : (limit : Option ℕ) → 1 ≤ per_transaction_of limit
per_transaction_of-positive none = omega arith
per_transaction_of-positive (some n) = omega arith

module _ (reads : Reads) (owner : SuiAddress) where
  -- The failure of one of the reads.
  abbrev pub ReadFailed : Option Text → TransportError → Type 0
  ReadFailed coin_type e =
      (ordered_types reads owner coin_type ≡ failure e)
      ⊎ (reads.reference_gas_price ≡ failure e)
      ⊎ (reads.address_balance_of owner ≡ failure e)
      ⊎ ((t : Text) × (reads.coins_of owner t ≡ failure e))

  -- The plan of `planFold`, or the failure of a read.
  abbrev pub Folds : Option Text → Option ℕ → Result TransportError FoldPlan → Type 0
  Folds coin_type limit (success plan) =
      (types : List Text) × (price : ℕ) × (ordered_types reads owner coin_type ≡ success types)
      × (reads.reference_gas_price ≡ success price)
      × ((p : Coin → Bool)
          → count_batches p plan.batches + count p plan.skipped
            ≡ count_types reads owner price p types)
      × All (FoldsWell reads owner price (per_transaction_of limit)) plan.batches
  Folds coin_type limit (failure e) = ReadFailed coin_type e

  -- `planFold` fails only with the failure of one of its reads. Otherwise every coin that was read
  -- of the types to fold stands exactly once in the batches and the skipped coins, and nothing else
  -- does; every batch belongs to the owner, holds at least one coin and at most the limit, which is
  -- between 1 and 500, and states their sum; it pays by its own coins only if they are SUI and
  -- cover the estimate, by the address balance only if they are SUI, and else by the resolver.
  pub plan_fold-Folds :
      (coin_type : Option Text) (limit : Option ℕ)
      → Folds coin_type limit (plan_fold reads owner coin_type limit)
  unfolding plan_fold
  plan_fold-Folds coin_type limit =
      read (ordered_types reads owner coin_type) refl reads.reference_gas_price refl
        (reads.address_balance_of owner) refl
    where
      size : ℕ
      size = per_transaction_of limit

      empty : ℕ → Planning
      empty balance = record { projected = balance; batches = []; skipped = [] }

      planned :
          (types : List Text) (price balance : ℕ)
          → Planned reads owner price size types
              (empty balance)
              (plan_types reads owner price size types (empty balance))
      planned types price balance =
          let (n, q) = positive size (per_transaction_of-positive limit) in
          subst
            (λ m.
              Planned reads owner price m types (empty balance)
                (plan_types reads owner price m types (empty balance)))
            (sym q) (plan_types-Planned reads owner price n types (empty balance) tt)

      finish :
          (types : List Text) (price balance : ℕ)
          → ordered_types reads owner coin_type ≡ success types
          → reads.reference_gas_price ≡ success price
          → (r : Result TransportError Planning)
          → Planned reads owner price size types (empty balance) r
          → Folds coin_type limit (plan_of reads owner r)
      finish types price balance q s (success out) k =
          (types, price, q, s, λ p. omega (arith, k.0 p), k.1)
      finish types price balance q s (failure e) k = inr (inr (inr k))

      read :
          (ts : Result TransportError (List Text))
          → ordered_types reads owner coin_type ≡ ts
          → (pr : Result TransportError ℕ) → reads.reference_gas_price ≡ pr
          → (ab : Result TransportError ℕ) → reads.address_balance_of owner ≡ ab
          → Folds coin_type limit (plan_with reads owner size ts pr ab)
      read (failure e) q pr s ab v = inl q
      read (success types) q (failure e) s ab v = inr (inl s)
      read (success types) q (success price) s (failure e) v = inr (inr (inl v))
      read (success types) q (success price) s (success balance) v =
          finish types price balance q s (plan_types reads owner price size types (empty balance))
            (planned types price balance)
