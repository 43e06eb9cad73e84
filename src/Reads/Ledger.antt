-- ===== src/Reads/Ledger.antt =====
-- What a stream of services/Sui.ts emits of a node's ledger: all of it, however it is cut in pages.
use sui_effect.Prelude.{
  ℕ, zero, suc, Bool, true, false, Option, some, List, ◌++◌, ◌≡◌, refl, ap, ◌∙◌, ◌⊎◌, inl, inr,
  arith, ◌+◌, ◌≤◌, ◌<◌, length, drop, filter, Text,
}
use mathlib.Core.List.{append_assoc, append-nil}
use sui_effect.Journal.{Result, success, failure}
use sui_effect.Reads.Pages.{
  RawPage, ListPage, Ending, done, failed, cut, paginate, continue_with, next_cursor, page_step,
  flatten, pages_of, paginated,
}

-- A node that lists a ledger through a filter: a cursor stands for a position of the ledger, and a
-- page covers the positions from its cursor on, up to the one its own cursor names or to the end.
-- A page may be empty and still say that there is more, when nothing it covers passes the filter.
module _ {A : Type 0} (ledger : List A) (wanted : A → Bool) (position : Option Text → ℕ) where
  abbrev pub rest_of : Option Text → List A
  rest_of c = filter wanted (drop (position c) ledger)

  pub record MoreAt (c : Option Text) (page : RawPage A) (e : Text) : Type 0 where
    pub more : page.has_next_page ≡ true
    pub named : page.end_cursor ≡ some e
    pub later : position c < position (some e)
    pub inside : position (some e) ≤ length ledger
    pub covered : page.items ++ rest_of (some e) ≡ rest_of c

  pub record LastAt (c : Option Text) (page : RawPage A) : Type 0 where
    pub no_more : page.has_next_page ≡ false
    pub covered : page.items ≡ rest_of c

  abbrev pub PageOf : Option Text → RawPage A → Type 0
  PageOf c page = ((e : Text) × MoreAt c page e) ⊎ LastAt c page

  abbrev pub AnswerOf : {E : Type 0} → Option Text → Result E (RawPage A) → Type 0
  AnswerOf c (failure e) = Unit
  AnswerOf c (success page) = PageOf c page

  -- Everything from the cursor on was emitted, or what was is followed exactly by what is left at
  -- some cursor, and the stream failed there.
  abbrev pub ReadsFrom : {E : Type 0} → Option Text → List A × Ending E (Option Text) → Type 0
  ReadsFrom c (items, done) = items ≡ rest_of c
  ReadsFrom c (items, failed e) = (k : Option Text) × (items ++ rest_of k ≡ rest_of c)
  ReadsFrom c (items, cut s) = ⊥

  -- What a page leaves to be read at its cursor is read by the rest of the stream.
  ReadsFrom-append :
      {E : Type 0} (c : Option Text) (page : RawPage A) (e : Text) (ps : List (ListPage A))
      (end : Ending E (Option Text))
      → MoreAt c page e
      → ReadsFrom (some e) (flatten ps, end)
      → ReadsFrom c (page.items ++ flatten ps, end)
  ReadsFrom-append c page e ps done m h = ap (λ xs. page.items ++ xs) h ∙ m.covered
  ReadsFrom-append c page e ps (failed x) m (k, h) = (
    k,
    append_assoc page.items (flatten ps) (rest_of k) ∙ ap (λ xs. page.items ++ xs) h ∙ m.covered,
  )
  ReadsFrom-append c page e ps (cut s) m h = h

  ReadsFrom-continue :
      {E : Type 0} (c : Option Text) (go : Option Text → List (ListPage A) × Ending E (Option Text))
      (r : Result E (RawPage A))
      → AnswerOf c r
      → ((page : RawPage A) (e : Text)
          → MoreAt c page e
          → ReadsFrom (some e) (flatten (go (some e)).0, (go (some e)).1))
      → ReadsFrom c
          (flatten (continue_with go (page_step c r)).0, (continue_with go (page_step c r)).1)
  unfolding continue_with page_step next_cursor flatten
  ReadsFrom-continue c go (failure e) h rec = (c, refl)
  ReadsFrom-continue c go (success page) (inl (e, m)) rec =
      rw (m.more, m.named)
        (ReadsFrom-append c page e (go (some e)).0 (go (some e)).1 m (rec page e m))
  ReadsFrom-continue c go (success page) (inr l) rec =
      rw (l.no_more) (append-nil page.items ∙ l.covered)

  -- Over a node whose pages cover the ledger, a stream with fuel for the positions that are left ends,
  -- and it emits every wanted item from its cursor on, once and in order, or the ones up to a cursor at which a
  -- request failed.
  pub paginated-ReadsFrom :
      {E : Type 0} (fetch_page : ℕ → Option Text → Result E (RawPage A))
      → ((n : ℕ) (c : Option Text) → AnswerOf c (fetch_page n c))
      → (fuel : ℕ) (start : Option Text) → position start ≤ length ledger
      → length ledger < position start + fuel
      → ReadsFrom start (paginated fetch_page fuel start)
  unfolding paginated pages_of paginate
  paginated-ReadsFrom fetch_page answers fuel start = go fuel 0 start
    where
      go :
          (fuel n : ℕ) (c : Option Text)
          → position c ≤ length ledger
          → length ledger < position c + fuel
          → ReadsFrom c (
            flatten (paginate (λ n cursor. page_step cursor (fetch_page n cursor)) fuel n c).0,
            (paginate (λ n cursor. page_step cursor (fetch_page n cursor)) fuel n c).1,
          )
      go zero n c inside enough = omega (arith)
      go (suc fuel) n c inside enough =
          ReadsFrom-continue c
            (λ t. paginate (λ n cursor. page_step cursor (fetch_page n cursor)) fuel (suc n) t)
            (fetch_page n c) (answers n c)
            (λ page e m. go fuel (suc n) (some e) m.inside (omega (arith, m.later)))
