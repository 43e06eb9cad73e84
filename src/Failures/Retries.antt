-- ===== src/Failures/Retries.antt =====
-- services/SuiCore.ts: the attempts of a read, and how many the default policy makes.
use sui_effect.Prelude.{
  ℕ, zero, suc, Bool, true, Option, none, some, ◌≡◌, refl, sym, ap, ◌&&◌, ◌+◌, ◌≤◌, ◌<◌, leb,
  if◌then◌else◌, Text, codes, arith, ◌⊎◌, inl, inr, Bool-cases, subst,
}
use sui_effect.Journal.{Result, success, failure}
use sui_effect.Failures.{CoreError, transport_error, nothing}
use sui_effect.Failures.Sdk.{is_retryable_read}

abbrev pub max_read_attempts : ℕ
max_read_attempts = 5

-- `readPolicy`: a schedule of the layer's own decides for itself when to stop.
unfoldable pub allows : Option (ℕ → Bool) → ℕ → CoreError → Bool
allows none n e = is_retryable_read e && leb n 4
allows (some schedule) n e = is_retryable_read e && schedule n

module _ {A : Type 0} where
  -- One attempt, bounded by the request timeout: `none` is no answer in time.
  unfoldable pub attempt : Text → Option (Result CoreError A) → Result CoreError A
  attempt method (some r) = r
  attempt method none =
      failure (transport_error method true (some (codes "DEADLINE_EXCEEDED")) nothing)

  unfoldable pub after_attempt :
      Option (ℕ → Bool)
      → ℕ
      → Result CoreError A
      → Option (Result CoreError A)
      → Option (Result CoreError A)
  after_attempt custom n (success a) retried = some (success a)
  after_attempt custom n (failure e) retried =
      if allows custom n e then retried else some (failure e)

  -- The answers of the attempts from the n-th on, `none` when the fuel is used up.
  unfoldable pub retry_from :
      Option (ℕ → Bool) → ℕ → ℕ → (ℕ → Result CoreError A) → Option (Result CoreError A)
  retry_from custom zero n answers = none
  retry_from custom (suc fuel) n answers =
      let retried = retry_from custom fuel (suc n) answers in
      after_attempt custom (suc n) (answers n) retried

  unfoldable pub read :
      Option (ℕ → Bool) → ℕ → Text → (ℕ → Option (Result CoreError A)) → Option (Result CoreError A)
  read custom fuel method answers = retry_from custom fuel 0 (λ n. attempt method (answers n))

  abbrev pub Retryable : Result CoreError A → Type 0
  Retryable (success a) = ⊥
  Retryable (failure e) = is_retryable_read e ≡ true

  -- The read ends at the n-th attempt: those before it failed retryably, and it did not, or was the fifth.
  pub record EndsAt (start : ℕ) (answers : ℕ → Result CoreError A) (r : Option (Result CoreError A))
      (n : ℕ) : Type 0 where
    pub bounded : n < max_read_attempts
    pub answered : r ≡ some (answers n)
    pub before : (m : ℕ) → start ≤ m → m < n → Retryable (answers m)
    pub last : (¬ Retryable (answers n)) ⊎ (suc n ≡ max_read_attempts)

  after_attempt-EndsAt :
      (n : ℕ) (answers : ℕ → Result CoreError A) (r : Result CoreError A)
      (retried : Option (Result CoreError A))
      → answers n ≡ r
      → n < max_read_attempts
      → (suc n < max_read_attempts → (k : ℕ) × EndsAt (suc n) answers retried k)
      → (k : ℕ) × EndsAt n answers (after_attempt none (suc n) r retried) k
  unfolding after_attempt allows
  after_attempt-EndsAt n answers (success a) retried q h rec = (
    n,
    record {
      bounded = h;
      answered = ap some (sym q);
      before = λ m x y. absurd (omega arith);
      last = inl (λ x. subst Retryable q x);
    },
  )
  after_attempt-EndsAt n answers (failure e) retried q h rec =
      elim (Bool-cases (is_retryable_read e)) [
        | inr y ↦ rw (y) (
          n,
          record {
            bounded = h;
            answered = ap some (sym q);
            before = λ m a b. absurd (omega arith);
            last = inl (λ x. ground (arith, subst Retryable q x, y));
          },
        )
        | inl y ↦ elim (Bool-cases (leb (suc n) 4)) [
          | inr z ↦
              rw (y, z)
                (
                  n,
                  record {
                    bounded = h;
                    answered = ap some (sym q);
                    before = λ m a b. absurd (omega arith);
                    last = inr (ground arith);
                  },
                )
          | inl z ↦ rw (y, z) (again y (rec (ground arith)))
        ]
      ]
    where
      again :
          is_retryable_read e ≡ true
          → (k : ℕ) × EndsAt (suc n) answers retried k
          → (k : ℕ) × EndsAt n answers retried k
      again y (k, end) = (
        k,
        record {
          bounded = end.bounded;
          answered = end.answered;
          before = λ m a b. elim (split m a) [
            | inl c ↦ subst (λ i. Retryable (answers i)) (sym c) (subst Retryable (sym q) y)
            | inr c ↦ end.before m c b
          ];
          last = end.last;
        },
      )
        where
          split : (m : ℕ) → n ≤ m → (m ≡ n) ⊎ (suc n ≤ m)
          split m a = ground arith

  retry_from-EndsAt :
      (fuel n : ℕ) (answers : ℕ → Result CoreError A)
      → n < max_read_attempts
      → max_read_attempts ≤ n + fuel
      → (k : ℕ) × EndsAt n answers (retry_from none fuel n answers) k
  unfolding retry_from
  retry_from-EndsAt zero n answers h e = absurd (omega arith)
  retry_from-EndsAt (suc fuel) n answers h e =
      after_attempt-EndsAt n answers (answers n) (retry_from none fuel (suc n) answers) refl h
        (λ below. retry_from-EndsAt fuel (suc n) answers below (omega arith))

  -- Without a schedule of the layer's own, fuel for five attempts is enough: the read ends with the
  -- answer of one of the first five attempts; every attempt before it failed retryably, a request with
  -- no answer in time among those; and that one did not, or it is the fifth.
  pub read-EndsAt :
      (fuel : ℕ) (method : Text) (answers : ℕ → Option (Result CoreError A))
      → max_read_attempts ≤ fuel
      → (k : ℕ) × EndsAt 0 (λ n. attempt method (answers n)) (read none fuel method answers) k
  unfolding read
  read-EndsAt fuel method answers h =
      retry_from-EndsAt fuel 0 (λ n. attempt method (answers n)) (omega arith) (omega arith)
