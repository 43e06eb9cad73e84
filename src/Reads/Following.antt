-- ===== src/Reads/Following.antt =====
-- A tail of services/Sui.ts neither skips nor repeats an item, and every page it emits can be
-- resumed from.
use sui_effect.Prelude.{
  ℕ, zero, suc, Bool, true, false, Option, none, some, List, [], ◌∷◌, ◌++◌, ◌≡◌, refl, inl, inr,
  arith, ◌≤◌, Text, subst, Bool-cases,
}
use sui_effect.Journal.{Result, success, failure}
use sui_effect.Tx.Network.{TransportError, retryable}
use sui_effect.Reads.Pages.{RawPage, ListPage, Ending, done, failed, cut}
use sui_effect.Reads.Windows.{between}
use sui_effect.Reads.Tail.{
  Attempts, persistently, TailState, same_cursor, is_empty, tail_cursor, emitted_page, tail_next,
  head_if, with_page, with_head, tail_from, tail_of,
}
use sui_effect.Reads.Steps.{
  Settled, persistently-Settled, same_cursor_sound, PageAt, HeadAt, StepAt, tail_cursor-StepAt,
}

module _ {A : Type 0} (ledger : List A) (wanted : A → Bool) (position : Option Text → ℕ) where
  abbrev Head : ℕ → Result TransportError (Option Text) → Type 0
  Head = HeadAt ledger wanted position

  abbrev Page : ℕ → Option Text → Result TransportError (RawPage A) → Type 0
  Page = PageAt ledger wanted position

  abbrev Step : Option Text → Option Text → ℕ → RawPage A → Type 0
  Step = StepAt ledger wanted position

  -- Every page holds exactly the wanted items between the cursor of the page before and its own.
  abbrev pub Chained : ℕ → List (ListPage A) → ℕ → Type 0
  Chained p [] q = p ≡ q
  Chained p (page ∷ pages) q =
      (p ≤ position page.end_cursor)
      × (page.items ≡ between wanted ledger p (position page.end_cursor))
      × Chained (position page.end_cursor) pages q

  Chained-emitted :
      (c next : Option Text) (height : ℕ) (page : RawPage A) (pages : List (ListPage A)) (q : ℕ)
      → Step c next height page
      → Chained (position next) pages q
      → Chained (position c) (emitted_page c next page ++ pages) q
  unfolding emitted_page
  Chained-emitted c next height page pages q k h = elim (Bool-cases (is_empty page.items)) [
    | inr e ↦ rw (e) (k.later, k.covered, h)
    | inl e ↦ elim (Bool-cases (same_cursor next c)) [
      | inr d ↦ rw (e, d) (k.later, k.covered, h)
      | inl d ↦ rw (e, d) (subst (λ t. Chained (position t) pages q) (same_cursor_sound next c d) h)
    ]
  ]

  abbrev pub Follows : ℕ → List (ListPage A) × Ending TransportError TailState → Type 0
  Follows p (pages, done) = ⊥
  Follows p (pages, failed e) = (retryable e ≡ false) × ((q : ℕ) × Chained p pages q)
  Follows p (pages, cut s) = Chained p pages (position s.cursor)

  Follows-emitted :
      (c next : Option Text) (height : ℕ) (page : RawPage A)
      (r : List (ListPage A) × Ending TransportError TailState)
      → Step c next height page
      → Follows (position next) r
      → Follows (position c) (emitted_page c next page ++ r.0, r.1)
  Follows-emitted c next height page (pages, done) k h = h
  Follows-emitted c next height page (pages, failed e) k (n, (q, h)) =
      (n, (q, Chained-emitted c next height page pages q k h))
  Follows-emitted c next height page (pages, cut s) k h =
      Chained-emitted c next height page pages (position s.cursor) k h

  -- A node whose ledger only grows: at each step the head is read before the page.
  pub record Growing (head : Option (ℕ → Attempts (Option Text)))
      (fetch_page : ℕ → Option Text → Attempts (RawPage A)) : Type 0 where
    pub head_height : ℕ → ℕ → ℕ
    pub page_height : ℕ → ℕ → ℕ
    pub page_after_head : (n j k : ℕ) → head_height n j ≤ page_height n k
    pub head_after_page : (n j k : ℕ) → page_height n k ≤ head_height (suc n) j
    pub heads :
        (n k : ℕ) (f : ℕ → Attempts (Option Text)) → head ≡ some f → Head (head_height n k) (f n k)
    pub pages : (n k : ℕ) (c : Option Text) → Page (page_height n k) c (fetch_page n c k)

  module _ (retries : ℕ) (head : Option (ℕ → Attempts (Option Text)))
      (fetch_page : ℕ → Option Text → Attempts (RawPage A)) (node : Growing head fetch_page) where
    open node use {head_height, page_height, page_after_head, head_after_page, heads, pages}

    -- The cursor stands on the ledger as it was when the step began.
    abbrev Ready : ℕ → Option Text → Type 0
    Ready n c = (j : ℕ) → position c ≤ head_height n j

    abbrev HeadRead : ℕ → Option Text → Result TransportError (Option Text) → Type 0
    HeadRead n c r = (low : ℕ) × Head low r × (position c ≤ low) × ((k : ℕ) → low ≤ page_height n k)

    abbrev PageRead : ℕ → Option Text → ℕ → Result TransportError (RawPage A) → Type 0
    PageRead n c low r =
        (height : ℕ) × Page height c r × (low ≤ height) × ((j : ℕ) → height ≤ head_height (suc n) j)

    abbrev Goes : ℕ → (TailState → List (ListPage A) × Ending TransportError TailState) → Type 0
    Goes n go = (t : TailState) → Ready (suc n) t.cursor → Follows (position t.cursor) (go t)

    with_page-Follows :
        (n : ℕ) (s : TailState) (h : Option Text) (low : ℕ)
        (r : Option (Result TransportError (RawPage A)))
        (go : TailState → List (ListPage A) × Ending TransportError TailState)
        → position s.cursor ≤ low
        → Head low (success h)
        → Settled (PageRead n s.cursor low) r
        → Goes n go
        → Follows (position s.cursor) (with_page retries head fetch_page s h r go)
    unfolding with_page tail_next
    with_page-Follows n s h low none go below at_head k rec = refl
    with_page-Follows n s h low (some (failure e)) go below at_head k rec =
        (k, (position s.cursor, refl))
    with_page-Follows n s h low (some (success page)) go below at_head (height, k, over, under)
          rec =
        let step =
          tail_cursor-StepAt ledger wanted position s.cursor low height h page below over at_head
            k in
        Follows-emitted s.cursor (tail_cursor s.cursor h page) height page (go (tail_next s h page))
          step (rec (tail_next s h page) (λ j. omega (arith, step.inside, under j)))

    with_head-Follows :
        (n : ℕ) (s : TailState) (r : Option (Result TransportError (Option Text)))
        (go : TailState → List (ListPage A) × Ending TransportError TailState)
        → Settled (HeadRead n s.cursor) r
        → Goes n go
        → Follows (position s.cursor) (with_head retries head fetch_page n s r go)
    unfolding with_head
    with_head-Follows n s none go k rec = refl
    with_head-Follows n s (some (failure e)) go k rec = (k, (position s.cursor, refl))
    with_head-Follows n s (some (success h)) go (low, at_head, below, over) rec =
        with_page-Follows n s h low (persistently retries (fetch_page n s.cursor)) go below at_head
          (persistently-Settled (PageRead n s.cursor low) retries (fetch_page n s.cursor)
            (λ k. (page_height n k, pages n k s.cursor, over k, λ j. head_after_page n j k)))
          rec

    head_if-Settled :
        (n : ℕ) (c : Option Text) (waited : Bool) (h : Option (ℕ → Attempts (Option Text)))
        → head ≡ h
        → Ready n c
        → Settled (HeadRead n c) (head_if retries n waited h)
    unfolding head_if
    head_if-Settled n c waited none e ready =
        (head_height n 0, tt, ready 0, λ k. page_after_head n 0 k)
    head_if-Settled n c false (some f) e ready =
        (head_height n 0, tt, ready 0, λ k. page_after_head n 0 k)
    head_if-Settled n c true (some f) e ready =
        persistently-Settled (HeadRead n c) retries (f n)
          (λ j. (head_height n j, heads n j f e, ready j, λ k. page_after_head n j k))

    tail_from-Follows :
        (fuel n : ℕ) (s : TailState)
        → Ready n s.cursor
        → Follows (position s.cursor) (tail_from retries head fetch_page fuel n s)
    unfolding tail_from
    tail_from-Follows zero n s ready = refl
    tail_from-Follows (suc fuel) n s ready =
        with_head-Follows n s (head_if retries n s.waited head)
          (λ t. tail_from retries head fetch_page fuel (suc n) t)
          (head_if-Settled n s.cursor s.waited head refl ready)
          (λ t k. tail_from-Follows fuel (suc n) t k)

    -- However long it runs, a tail of a growing ledger emits pages of which each holds exactly the wanted items
    -- between the cursor of the page before (the start, for the first) and its own, also when the cursor
    -- moved to the head; it never ends, and it fails only with a failure that is not retryable.
    pub tail_of-Follows :
        (fuel : ℕ) (start : Option Text)
        → ((j : ℕ) → position start ≤ node.head_height 0 j)
        → Follows (position start) (tail_of retries head fetch_page fuel start)
    unfolding tail_of
    tail_of-Follows fuel start ready =
        tail_from-Follows fuel 0 (record { cursor = start; waited = false; pages = 0 }) ready
