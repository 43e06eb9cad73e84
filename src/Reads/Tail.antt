-- ===== src/Reads/Tail.antt =====
-- services/Sui.ts: the tail loop of `tailEvents` and `tailTransactions`, over retried requests.
use sui_effect.Prelude.{
  ℕ, zero, suc, Bool, true, false, Option, none, some, List, [], ◌∷◌, ◌+◌, ◌&&◌, ◌||◌, not, length,
  if◌then◌else◌, or_else, is_some, Text, text_eq, ◌++◌,
}
use sui_effect.Journal.{Result, success, failure}
use sui_effect.Tx.Network.{TransportError, retryable}
use sui_effect.Reads.Pages.{RawPage, ListPage, Ending, failed, cut}

-- The answers of the attempts at one request.
abbrev pub Attempts : Type 0 → Type 0
Attempts X = ℕ → Result TransportError X

-- `Effect.retry(effect, { while: (error) => error.retryable })`, `none` when the fuel is used up.
module _ {X : Type 0} where
  unfoldable pub retry_after :
      Result TransportError X → Option (Result TransportError X) → Option (Result TransportError X)
  retry_after (success x) retried = some (success x)
  retry_after (failure e) retried = if retryable e then retried else some (failure e)

  unfoldable pub persistently : ℕ → Attempts X → Option (Result TransportError X)
  persistently zero attempts = none
  persistently (suc fuel) attempts =
      let retried = persistently fuel (λ k. attempts (suc k)) in retry_after (attempts 0) retried

pub record TailState : Type 0 where
  pub cursor : Option Text
  pub waited : Bool
  pub pages : ℕ

unfoldable pub same_cursor : Option Text → Option Text → Bool
same_cursor none none = true
same_cursor none (some b) = false
same_cursor (some a) none = false
same_cursor (some a) (some b) = text_eq a b

unfoldable pub is_empty : {A : Type 0} → List A → Bool
is_empty [] = true
is_empty (x ∷ xs) = false

-- The head is asked before the page, and only after a wait.
unfoldable pub head_if :
    ℕ
    → ℕ
    → Bool
    → Option (ℕ → Attempts (Option Text))
    → Option (Result TransportError (Option Text))
head_if retries n waited none = some (success none)
head_if retries n false (some attempts) = some (success none)
head_if retries n true (some attempts) = persistently retries (attempts n)

module _ {A : Type 0} where
  unfoldable pub more_after : RawPage A → Bool
  more_after page = page.has_next_page && is_some page.end_cursor

  -- The cursor to go on from: the head's, when there is nothing more and nothing was found.
  unfoldable pub tail_cursor : Option Text → Option Text → RawPage A → Option Text
  tail_cursor cursor head page =
      if not (more_after page) && is_empty page.items && is_some head
      then head
      else or_else page.end_cursor cursor

  unfoldable pub emitted_page : Option Text → Option Text → RawPage A → List (ListPage A)
  emitted_page cursor next page =
      if not (is_empty page.items) || not (same_cursor next cursor)
      then record { items = page.items; end_cursor = next; has_next_page = more_after page } ∷ []
      else []

  unfoldable pub tail_next : TailState → Option Text → RawPage A → TailState
  tail_next s head page =
      let next = tail_cursor s.cursor head page in
      record {
        cursor = next;
        waited = not (more_after page);
        pages = s.pages + length (emitted_page s.cursor next page);
      }

  -- `Stream.paginate` of the tail: every step names a next state.
  module _ (retries : ℕ) (head : Option (ℕ → Attempts (Option Text)))
      (fetch_page : ℕ → Option Text → Attempts (RawPage A)) where
    unfoldable pub with_page :
        TailState
        → Option Text
        → Option (Result TransportError (RawPage A))
        → (TailState → List (ListPage A) × Ending TransportError TailState)
        → List (ListPage A) × Ending TransportError TailState
    with_page s h none go = ([], cut s)
    with_page s h (some (failure e)) go = ([], failed e)
    with_page s h (some (success page)) go =
        let next = tail_next s h page in
        let rest = go next in (emitted_page s.cursor next.cursor page ++ rest.0, rest.1)

    unfoldable pub with_head :
        ℕ
        → TailState
        → Option (Result TransportError (Option Text))
        → (TailState → List (ListPage A) × Ending TransportError TailState)
        → List (ListPage A) × Ending TransportError TailState
    with_head n s none go = ([], cut s)
    with_head n s (some (failure e)) go = ([], failed e)
    with_head n s (some (success h)) go =
        with_page s h (persistently retries (fetch_page n s.cursor)) go

    unfoldable pub tail_from :
        ℕ → ℕ → TailState → List (ListPage A) × Ending TransportError TailState
    tail_from zero n s = ([], cut s)
    tail_from (suc fuel) n s =
        with_head n s (head_if retries n s.waited head) (λ t. tail_from fuel (suc n) t)

    unfoldable pub tail_of : ℕ → Option Text → List (ListPage A) × Ending TransportError TailState
    tail_of fuel start = tail_from fuel 0 (record { cursor = start; waited = false; pages = 0 })
