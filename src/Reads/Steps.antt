-- ===== src/Reads/Steps.antt =====
-- One step of a tail of services/Sui.ts over a node's ledger: what its retries end with, and where
-- its cursor stands after a page.
use sui_effect.Prelude.{
  ℕ, zero, suc, Bool, true, false, Option, none, some, List, [], ◌∷◌, ◌++◌, ◌≡◌, refl, sym, ap, ◌∙◌,
  inl, inr, arith, ◌≤◌, Text, or_else, text_eq_iff, is_some, if◌then◌else◌, Bool-cases,
}
use sui_effect.Journal.{Result, success, failure}
use sui_effect.Tx.Network.{TransportError, retryable}
use sui_effect.Reads.Pages.{RawPage}
use sui_effect.Reads.Windows.{between, between-join, between-empty}
use sui_effect.Reads.Tail.{
  Attempts, persistently, retry_after, same_cursor, is_empty, more_after, tail_cursor,
}

-- What stops the retries is an answer, or a failure that may not be retried.
abbrev pub Settled :
    {X : Type 0} → (Result TransportError X → Type 0) → Option (Result TransportError X) → Type 0
Settled P none = Unit
Settled P (some (success x)) = P (success x)
Settled P (some (failure e)) = retryable e ≡ false

retry_after-Settled :
    {X : Type 0} (P : Result TransportError X → Type 0) (r : Result TransportError X)
    (retried : Option (Result TransportError X))
    → P r
    → Settled P retried
    → Settled P (retry_after r retried)
unfolding retry_after
retry_after-Settled P (success x) retried h k = h
retry_after-Settled P (failure e) retried h k = elim (Bool-cases (retryable e)) [
  | inl y ↦ rw (y) k
  | inr n ↦ rw (n) n
]

pub persistently-Settled :
    {X : Type 0} (P : Result TransportError X → Type 0) (fuel : ℕ) (attempts : Attempts X)
    → ((k : ℕ) → P (attempts k))
    → Settled P (persistently fuel attempts)
unfolding persistently
persistently-Settled P zero attempts h = tt
persistently-Settled P (suc fuel) attempts h =
    retry_after-Settled P (attempts 0) (persistently fuel (λ k. attempts (suc k))) (h 0)
      (persistently-Settled P fuel (λ k. attempts (suc k)) (λ k. h (suc k)))

pub same_cursor_sound : (a b : Option Text) → same_cursor a b ≡ true → a ≡ b
unfolding same_cursor
same_cursor_sound none none h = refl
same_cursor_sound none (some b) h = cc
same_cursor_sound (some a) none h = cc
same_cursor_sound (some a) (some b) h = ap some ((text_eq_iff a b).0 h)

is_empty_sound : {A : Type 0} (xs : List A) → is_empty xs ≡ true → xs ≡ []
unfolding is_empty
is_empty_sound [] h = refl
is_empty_sound (x ∷ xs) h = cc

module _ {A : Type 0} (ledger : List A) (wanted : A → Bool) (position : Option Text → ℕ) where
  -- A page read from a cursor when the node's ledger had reached a height: it holds the wanted items
  -- up to the position it names, and if there is no more, nothing wanted follows up to the height.
  pub record CoversTo (c : Option Text) (height : ℕ) (page : RawPage A) : Type 0 where
    pub later : position c ≤ position (or_else page.end_cursor c)
    pub inside : position (or_else page.end_cursor c) ≤ height
    pub covered :
        page.items ≡ between wanted ledger (position c) (position (or_else page.end_cursor c))
    pub quiet :
        more_after page ≡ false
        → between wanted ledger (position (or_else page.end_cursor c)) height ≡ []

  abbrev pub PageAt : ℕ → Option Text → Result TransportError (RawPage A) → Type 0
  PageAt height c (failure e) = Unit
  PageAt height c (success page) = CoversTo c height page

  -- The head is the newest position of the unfiltered ledger at the time it is read.
  abbrev pub HeadAt : ℕ → Result TransportError (Option Text) → Type 0
  HeadAt height (failure e) = Unit
  HeadAt height (success none) = Unit
  HeadAt height (success (some c)) = position (some c) ≡ height

  pub record StepAt (c next : Option Text) (height : ℕ) (page : RawPage A) : Type 0 where
    pub later : position c ≤ position next
    pub inside : position next ≤ height
    pub covered : page.items ≡ between wanted ledger (position c) (position next)

  StepAt-stay :
      (c : Option Text) (height : ℕ) (page : RawPage A)
      → CoversTo c height page
      → StepAt c (or_else page.end_cursor c) height page
  StepAt-stay c height page k = record { later = k.later; inside = k.inside; covered = k.covered }

  -- With nothing found and nothing more, nothing wanted stands up to the head.
  StepAt-jump :
      (c head : Option Text) (height : ℕ) (page : RawPage A)
      → position c ≤ position head
      → position head ≤ height
      → more_after page ≡ false
      → page.items ≡ []
      → CoversTo c height page
      → StepAt c head height page
  StepAt-jump c head height page below in_order over found k = record {
    later = below;
    inside = in_order;
    covered =
        found
        ∙ sym (
            between-empty wanted ledger (position c) (position head) height below in_order nothing);
  }
    where
      nothing : between wanted ledger (position c) height ≡ []
      nothing =
          sym (
            between-join wanted ledger (position c) (position (or_else page.end_cursor c)) height
              k.later k.inside)
          ∙ ap (λ xs. xs ++ between wanted ledger (position (or_else page.end_cursor c)) height)
              (sym k.covered ∙ found)
          ∙ k.quiet over

  -- The cursor after a page, the head's included, stands where the page's items end.
  pub tail_cursor-StepAt :
      (c : Option Text) (low height : ℕ) (head : Option Text) (page : RawPage A)
      → position c ≤ low
      → low ≤ height
      → HeadAt low (success head)
      → CoversTo c height page
      → StepAt c (tail_cursor c head page) height page
  unfolding tail_cursor
  tail_cursor-StepAt c low height head page below in_order at_head k =
      elim (Bool-cases (more_after page)) [
        | inl m ↦ rw (m) (StepAt-stay c height page k)
        | inr m ↦ elim (Bool-cases (is_empty page.items)) [
          | inr e ↦ rw (m, e) (StepAt-stay c height page k)
          | inl e ↦ rw (m, e) (jump head at_head m (is_empty_sound page.items e))
        ]
      ]
    where
      jump :
          (head : Option Text)
          → HeadAt low (success head)
          → more_after page ≡ false
          → page.items ≡ []
          → StepAt c (if is_some head then head else or_else page.end_cursor c) height page
      jump none h m e = StepAt-stay c height page k
      jump (some t) h m e =
          StepAt-jump c (some t) height page (omega (arith, h)) (omega (arith, h)) m e k
