-- ===== src/Scenarios/Readings.antt =====
-- Nodes that list a small ledger, and a tail of it.
use sui_effect.Prelude.{
  ℕ, zero, suc, Bool, true, false, Option, none, some, List, [], ◌∷◌, ◌≡◌, refl, Text, codes, arith,
  subst, filter, inl, inr, length, drop,
}
use sui_effect.Journal.{Result, success, failure}
use sui_effect.Tx.Network.{TransportError, transport, said}
use sui_effect.Reads.Pages.{RawPage, paginated}
use sui_effect.Reads.Ledger.{AnswerOf, ReadsFrom, paginated-ReadsFrom}
use sui_effect.Reads.Tail.{Attempts, tail_of}
use sui_effect.Reads.Steps.{PageAt, HeadAt}
use sui_effect.Reads.Following.{Growing, Follows, tail_of-Follows}
use sui_effect.Reads.Listing.{Frame}

-- A ledger of four numbers of which the odd ones are wanted, in pages of two positions.
abbrev ledger : List ℕ
ledger = 1 ∷ 2 ∷ 4 ∷ 7 ∷ []

abbrev is_odd : ℕ → Bool
is_odd zero = false
is_odd (suc zero) = true
is_odd (suc (suc n)) = is_odd n

-- A cursor is the text of its position.
abbrev position : Option Text → ℕ
position none = 0
position (some t) = length t

abbrev wanted_page : ℕ → Option Text → Result TransportError (RawPage ℕ)
wanted_page n none =
    success (record { items = 1 ∷ []; has_next_page = true; end_cursor = some (codes "ab") })
wanted_page n (some t) = success (record {
  items = filter is_odd (drop (length t) ledger);
  has_next_page = false;
  end_cursor = none;
})

abbrev wanted_answers :
    (n : ℕ) (c : Option Text) → AnswerOf ledger is_odd position c (wanted_page n c)
wanted_answers n none = inl (
  codes "ab",
  record { more = refl; named = refl; later = omega arith; inside = omega arith; covered = refl },
)
wanted_answers n (some t) = inr (record { no_more = refl; covered = refl })

paginated-ReadsFrom_example : ReadsFrom ledger is_odd position none (paginated wanted_page 5 none)
paginated-ReadsFrom_example =
    paginated-ReadsFrom ledger is_odd position wanted_page wanted_answers 5 none (omega arith)
      (omega arith)

-- A ledger whose only wanted item is the first: the tail reads it, waits, and moves to the head.
abbrev quiet_ledger : List ℕ
quiet_ledger = 1 ∷ 2 ∷ 4 ∷ 8 ∷ []

abbrev out_of_range : TransportError
out_of_range =
    transport (codes "listEvents") false (some (codes "OUT_OF_RANGE")) (said (codes "pruned"))

abbrev nothing_more : RawPage ℕ
nothing_more = record { items = []; has_next_page = false; end_cursor = none }

abbrev quiet_page : ℕ → Option Text → Attempts (RawPage ℕ)
quiet_page n none k =
    success (record { items = 1 ∷ []; has_next_page = true; end_cursor = some (codes "ab") })
quiet_page n (some (a ∷ b ∷ [])) k = success nothing_more
quiet_page n (some (a ∷ b ∷ c ∷ d ∷ [])) k = success nothing_more
quiet_page n (some _) k = failure out_of_range

abbrev quiet_answers :
    (n k : ℕ) (c : Option Text) → PageAt quiet_ledger is_odd position 4 c (quiet_page n c k)
quiet_answers n k none = record {
  later = omega arith;
  inside = omega arith;
  covered = refl;
  quiet = λ e. refl;
}
quiet_answers n k (some []) = tt
quiet_answers n k (some (a ∷ [])) = tt
quiet_answers n k (some (a ∷ b ∷ [])) = record {
  later = omega arith;
  inside = omega arith;
  covered = refl;
  quiet = λ e. refl;
}
quiet_answers n k (some (a ∷ b ∷ c ∷ [])) = tt
quiet_answers n k (some (a ∷ b ∷ c ∷ d ∷ [])) = record {
  later = omega arith;
  inside = omega arith;
  covered = refl;
  quiet = λ e. refl;
}
quiet_answers n k (some (a ∷ b ∷ c ∷ d ∷ e ∷ t)) = tt

abbrev quiet_head : ℕ → Attempts (Option Text)
quiet_head n k = success (some (codes "abcd"))

abbrev quiet_node : Growing quiet_ledger is_odd position (some quiet_head) quiet_page
quiet_node = record {
  head_height = λ n k. 4;
  page_height = λ n k. 4;
  page_after_head = λ n j k. omega arith;
  head_after_page = λ n j k. omega arith;
  heads =
      λ n k f e. subst (λ g. HeadAt quiet_ledger is_odd position 4 (g n k)) (same_head f e) refl;
  pages = quiet_answers;
}
  where
    same_head : (f : ℕ → Attempts (Option Text)) → some quiet_head ≡ some f → quiet_head ≡ f
    same_head f e = ground arith

tail_of-Follows_example :
    Follows quiet_ledger is_odd position 0 (tail_of 3 (some quiet_head) quiet_page 4 none)
tail_of-Follows_example =
    tail_of-Follows quiet_ledger is_odd position 3 (some quiet_head) quiet_page quiet_node 4 none
      (λ j. omega arith)

-- A stream of one digest under one watermark, some number of times, and then one under another.
abbrev repeated : ℕ → List Frame
repeated zero =
    record { digest = some (codes "C"); watermark = some (8 ∷ []); end = some (some 3) } ∷ []
repeated (suc n) =
    record { digest = some (codes "A"); watermark = some (7 ∷ []); end = none } ∷ repeated n
