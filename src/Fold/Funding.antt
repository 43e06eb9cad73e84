-- ===== src/Fold/Funding.antt =====
-- services/Fold.ts: run in order, the SUI batches of a plan find the gas that they are estimated to use.
use sui_effect.Prelude.{
  ℕ, true, false, not, Option, ap, ◌∙◌, ◌⊎◌, inl, inr, All, All-In, In-filter, filter, none, some,
  List, [], ◌∷◌, ◌++◌, ◌≡◌, refl, Text, arith, ◌+◌, ◌-◌, ◌*◌, length, leb, if◌then◌else◌,
}
use sui_effect.Schemas.{SuiAddress}
use sui_effect.Journal.{Result, success, failure}
use sui_effect.Tx.Network.{TransportError}
use sui_effect.Fold.{
  Coin, CoinBalance, is_sui, sui_first, held_types, FoldBatch, FoldPlan, Reads, Planning, chunk,
  sort_largest_first, place, place_all, plan_types, plan_with, plan_of, plan_fold, ordered_types,
  per_transaction_of, batch_of, fold_budget_units, auto, folded_coins, address_balance,
}

-- The SUI balance after a batch that the estimate is charged for: `none` where what the plan says it
-- pays with does not cover it. The resolver pays for a batch of another coin from the balance when that
-- covers the estimate, and from SUI coins otherwise.
abbrev pub balance_after : ℕ → FoldBatch → ℕ → Option ℕ
balance_after price b balance =
    let estimate = price * fold_budget_units (length b.coins) in
    elim b.gas [
      | auto ↦ some (if leb estimate balance then balance - estimate else balance)
      | folded_coins ↦
          if leb estimate b.amount then some (balance + (b.amount - estimate)) else none
      | address_balance ↦
          if leb estimate balance then some ((balance - estimate) + b.amount) else none
    ]

abbrev pub and_run : (ℕ → Option ℕ) → Option ℕ → Option ℕ
and_run f none = none
and_run f (some n) = f n

abbrev pub run_batches : ℕ → List FoldBatch → ℕ → Option ℕ
run_batches price [] balance = some balance
run_batches price (b ∷ bs) balance = and_run (run_batches price bs) (balance_after price b balance)

run_batches-append :
    (price : ℕ) (bs : List FoldBatch) (b : FoldBatch) (balance : ℕ)
    → run_batches price (bs ++ b ∷ []) balance
      ≡ and_run (balance_after price b) (run_batches price bs balance)
run_batches-append price [] b balance = last (balance_after price b balance)
  where
    last : (o : Option ℕ) → and_run some o ≡ o
    last none = refl
    last (some n) = refl
run_batches-append price (x ∷ bs) b balance =
    go (run_batches-append price bs b) (balance_after price x balance)
  where
    go :
        ((n : ℕ)
          → run_batches price (bs ++ b ∷ []) n
            ≡ and_run (balance_after price b) (run_batches price bs n))
        → (o : Option ℕ)
        → and_run (run_batches price (bs ++ b ∷ [])) o
          ≡ and_run (balance_after price b) (and_run (run_batches price bs) o)
    go h none = refl
    go h (some n) = h n

module _ (reads : Reads) (owner : SuiAddress) (price start : ℕ) where
  -- The projected balance is what running the batches so far leaves.
  abbrev Funded : Planning → Type 0
  Funded st = run_batches price st.batches start ≡ some st.projected

  -- The batches so far can be run.
  abbrev pub Runs : Planning → Type 0
  Runs st = (left : ℕ) × (run_batches price st.batches start ≡ some left)

  place-Funded :
      (t : Text) (g : List Coin) (st : Planning)
      → is_sui reads t ≡ true
      → Funded st
      → Funded (place reads owner price t g st)
  unfolding place
  place-Funded t g st sui h = ground (
    arith,
    sui,
    run_batches-append price st.batches (batch_of owner t g folded_coins) start,
    run_batches-append price st.batches (batch_of owner t g address_balance) start,
  )

  place_all-Funded :
      (t : Text) (gs : List (List Coin)) (st : Planning)
      → is_sui reads t ≡ true
      → Funded st
      → Funded (place_all reads owner price t gs st)
  unfolding place_all
  place_all-Funded t [] st sui h = h
  place_all-Funded t (g ∷ gs) st sui h =
      place_all-Funded t gs (place reads owner price t g st) sui (place-Funded t g st sui h)

  place-Runs :
      (t : Text) (g : List Coin) (st : Planning)
      → is_sui reads t ≡ false
      → Runs st
      → Runs (place reads owner price t g st)
  unfolding place
  place-Runs t g st other (left, h) = rw (other) (
    _,
    run_batches-append price st.batches (batch_of owner t g auto) start
        ∙ ap (and_run (balance_after price (batch_of owner t g auto))) h,
  )

  place_all-Runs :
      (t : Text) (gs : List (List Coin)) (st : Planning)
      → is_sui reads t ≡ false
      → Runs st
      → Runs (place_all reads owner price t gs st)
  unfolding place_all
  place_all-Runs t [] st other h = h
  place_all-Runs t (g ∷ gs) st other h =
      place_all-Runs t gs (place reads owner price t g st) other (place-Runs t g st other h)

  abbrev pub ResultRuns : Result TransportError Planning → Type 0
  ResultRuns (success st) = Runs st
  ResultRuns (failure e) = Unit

  -- One type is read, and the rest is planned from where its coins leave it.
  read_type :
      (size : ℕ) (t : Text) (ts : List Text) (st : Planning) (I J : Planning → Type 0)
      → ((gs : List (List Coin)) → I st → J (place_all reads owner price t gs st))
      → ((u : Planning) → J u → ResultRuns (plan_types reads owner price size ts u))
      → I st
      → ResultRuns (plan_types reads owner price size (t ∷ ts) st)
  unfolding plan_types
  read_type size t ts st I J placed rest h = go (reads.coins_of owner t)
    where
      go :
          (r : Result TransportError (List Coin))
          → ResultRuns (elim r [
            | failure e ↦ failure e
            | success coins ↦
                plan_types reads owner price size ts
                  (place_all reads owner price t (chunk (sort_largest_first coins) size) st)
          ])
      go (failure e) = tt
      go (success coins) = rest _ (placed (chunk (sort_largest_first coins) size) h)

  abbrev pub NoSui : List Text → Type 0
  NoSui ts = All (λ t. is_sui reads t ≡ false) ts

  -- The SUI types come first.
  abbrev pub SuiFirst : List Text → Type 0
  SuiFirst [] = Unit
  SuiFirst (t ∷ ts) = ((is_sui reads t ≡ true) × SuiFirst ts) ⊎ NoSui (t ∷ ts)

  plan_types-Runs :
      (size : ℕ) (ts : List Text) (st : Planning)
      → NoSui ts
      → Runs st
      → ResultRuns (plan_types reads owner price size ts st)
  unfolding plan_types
  plan_types-Runs size [] st n h = h
  plan_types-Runs size (t ∷ ts) st n h =
      read_type size t ts st Runs Runs (λ gs k. place_all-Runs t gs st n.0 k)
        (λ u k. plan_types-Runs size ts u n.1 k) h

  plan_types-Funded :
      (size : ℕ) (ts : List Text) (st : Planning)
      → SuiFirst ts
      → Funded st
      → ResultRuns (plan_types reads owner price size ts st)
  unfolding plan_types
  plan_types-Funded size [] st o h = (st.projected, h)
  plan_types-Funded size (t ∷ ts) st (inl (sui, o)) h =
      read_type size t ts st Funded Funded (λ gs k. place_all-Funded t gs st sui k)
        (λ u k. plan_types-Funded size ts u o k) h
  plan_types-Funded size (t ∷ ts) st (inr n) h =
      plan_types-Runs size (t ∷ ts) st n (st.projected, h)

  NoSui-filter : (ts : List Text) → NoSui (filter (λ t. not (is_sui reads t)) ts)
  NoSui-filter ts =
      All-In _ (λ t m. ground (arith, ((In-filter (λ t. not (is_sui reads t)) ts t).0 m).1))

  SuiFirst-append :
      (xs ys : List Text) → All (λ t. is_sui reads t ≡ true) xs → NoSui ys → SuiFirst (xs ++ ys)
  SuiFirst-append [] [] a n = tt
  SuiFirst-append [] (y ∷ ys) a n = inr n
  SuiFirst-append (x ∷ xs) ys a n = inl (a.0, SuiFirst-append xs ys a.1 n)

  sui_first-SuiFirst : (ts : List Text) → SuiFirst (sui_first reads ts)
  sui_first-SuiFirst ts =
      SuiFirst-append (filter (is_sui reads) ts) (filter (λ t. not (is_sui reads t)) ts)
        (All-In _ (λ t m. ((In-filter (is_sui reads) ts t).0 m).1)) (NoSui-filter ts)

  abbrev pub OrderedResult : Result TransportError (List Text) → Type 0
  OrderedResult (success ts) = SuiFirst ts
  OrderedResult (failure e) = Unit

  ordered_types-SuiFirst :
      (coin_type : Option Text) → OrderedResult (ordered_types reads owner coin_type)
  unfolding ordered_types
  ordered_types-SuiFirst (some t) = sui_first-SuiFirst (reads.normalize_coin_type t ∷ [])
  ordered_types-SuiFirst none = go (reads.balances_of owner)
    where
      go :
          (r : Result TransportError (List CoinBalance))
          → OrderedResult (elim r [
            | failure e ↦ failure e
            | success balances ↦ success (sui_first reads (held_types reads balances))
          ])
      go (failure e) = tt
      go (success balances) = sui_first-SuiFirst (held_types reads balances)

module _ (reads : Reads) (owner : SuiAddress) where
  -- From the price and the address balance that were read, the batches can be run in their order.
  abbrev pub Pays : Result TransportError FoldPlan → Type 0
  Pays (success plan) =
      (price : ℕ) × (balance : ℕ) × (left : ℕ) × (reads.reference_gas_price ≡ success price)
      × (reads.address_balance_of owner ≡ success balance)
      × (run_batches price plan.batches balance ≡ some left)
  Pays (failure e) = Unit

  -- Where `planFold` answers with a plan: run in its order from the owner's address balance, each SUI batch
  -- finds its estimated budget, in its own coins if it pays by them and in the balance that the batches before
  -- it leave if it pays by that; where a batch of another coin takes its estimate from the balance whenever
  -- that covers it.
  pub plan_fold-Pays :
      (coin_type : Option Text) (limit : Option ℕ) → Pays (plan_fold reads owner coin_type limit)
  unfolding plan_fold
  plan_fold-Pays coin_type limit =
      read (ordered_types reads owner coin_type)
        (λ price balance. ordered_types-SuiFirst reads owner price balance coin_type)
        reads.reference_gas_price refl (reads.address_balance_of owner) refl
    where
      size : ℕ
      size = per_transaction_of limit

      finish :
          (price balance : ℕ)
          → reads.reference_gas_price ≡ success price
          → reads.address_balance_of owner ≡ success balance
          → (r : Result TransportError Planning) → ResultRuns reads owner price balance r
          → Pays (plan_of reads owner r)
      finish price balance p b (success st) (left, h) = (price, balance, left, p, b, h)
      finish price balance p b (failure e) h = tt

      read :
          (ts : Result TransportError (List Text))
          → ((price balance : ℕ) → OrderedResult reads owner price balance ts)
          → (pr : Result TransportError ℕ) → reads.reference_gas_price ≡ pr
          → (ab : Result TransportError ℕ) → reads.address_balance_of owner ≡ ab
          → Pays (plan_with reads owner size ts pr ab)
      read (failure e) o pr s ab v = tt
      read (success types) o (failure e) s ab v = tt
      read (success types) o (success price) s (failure e) v = tt
      read (success types) o (success price) s (success balance) v =
          finish price balance s v
            (plan_types reads owner price size types
              (record { projected = balance; batches = []; skipped = [] }))
            (plan_types-Funded reads owner price balance size types
              (record { projected = balance; batches = []; skipped = [] }) (o price balance) refl)
