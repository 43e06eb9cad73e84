-- ===== src/Reads/Pages.antt =====
-- services/Sui.ts: the pagination loop behind every `Sui.stream*` member.
use sui_effect.Prelude.{
  ℕ, zero, suc, Bool, true, false, Option, none, some, List, [], ◌∷◌, ◌++◌, or_else, Text,
}
use sui_effect.Journal.{Result, success, failure}

-- `RawPage`: the items, whether the node says there is more, and its cursor, if it names one.
pub record RawPage (A : Type 0) : Type 0 where
  pub items : List A
  pub has_next_page : Bool
  pub end_cursor : Option Text

-- `ListPage`: the cursor is the one to continue from.
pub record ListPage (A : Type 0) : Type 0 where
  pub items : List A
  pub end_cursor : Option Text
  pub has_next_page : Bool

-- How a stream ended: it did, it failed, or the model's fuel was used up at a state.
pub data Ending (E S : Type 0) : Type 0 where
  done : Ending E S
  failed : E → Ending E S
  cut : S → Ending E S

-- `Stream.paginate`: emit what the step answers and go on from the state it names, if any.
module _ {A E S : Type 0} where
  unfoldable pub continue_with :
      (S → List A × Ending E S) → Result E (List A × Option S) → List A × Ending E S
  continue_with go (failure e) = ([], failed e)
  continue_with go (success (emitted, none)) = (emitted, done)
  continue_with go (success (emitted, some s)) = let rest = go s in (emitted ++ rest.0, rest.1)

  unfoldable pub paginate : (ℕ → S → Result E (List A × Option S)) → ℕ → ℕ → S → List A × Ending E S
  paginate step zero n s = ([], cut s)
  paginate step (suc fuel) n s = continue_with (λ t. paginate step fuel (suc n) t) (step n s)

unfoldable pub next_cursor : Bool → Option Text → Option (Option Text)
next_cursor true (some c) = some (some c)
next_cursor true none = none
next_cursor false c = none

unfoldable pub page_step :
    {A E : Type 0}
    → Option Text
    → Result E (RawPage A)
    → Result E (List (ListPage A) × Option (Option Text))
page_step cursor (failure e) = failure e
page_step cursor (success page) = success (
  (record {
    items = page.items;
    end_cursor = or_else page.end_cursor cursor;
    has_next_page = page.has_next_page;
  }
      ∷ []),
  next_cursor page.has_next_page page.end_cursor,
)

unfoldable pub flatten : {A : Type 0} → List (ListPage A) → List A
flatten [] = []
flatten (p ∷ ps) = p.items ++ flatten ps

module _ {A E : Type 0} (fetch_page : ℕ → Option Text → Result E (RawPage A)) where
  -- The n-th request of a stream may be answered unlike the one before.
  unfoldable pub pages_of : ℕ → Option Text → List (ListPage A) × Ending E (Option Text)
  pages_of fuel start = paginate (λ n cursor. page_step cursor (fetch_page n cursor)) fuel 0 start

  unfoldable pub paginated : ℕ → Option Text → List A × Ending E (Option Text)
  paginated fuel start = let r = pages_of fuel start in (flatten r.0, r.1)
