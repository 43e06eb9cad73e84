-- ===== src/Reads/Listing.antt =====
-- services/Sui.ts: one page of digests of an address, read from the frames of the ledger's stream.
use sui_effect.Prelude.{
  ℕ, Bool, true, false, Option, none, some, List, [], ◌∷◌, ◌++◌, ◌==◌, ◌||◌, leb, length,
  if◌then◌else◌, or_else, Text,
}
use sui_effect.Schemas.{Digest, Bytes}

-- A frame: the digest of its transaction, its watermark's cursor, and at the end the reason.
pub record Frame : Type 0 where
  pub digest : Option Digest
  pub watermark : Option Bytes
  pub end : Option (Option ℕ)

pub record DigestPage : Type 0 where
  pub digests : List Digest
  pub has_next_page : Bool
  pub end_cursor : Option Text

-- What the loop over the frames keeps.
pub record Scan : Type 0 where
  pub digests : List Digest
  pub end_cursor : Option Text
  pub frontier : Option Text
  pub end_reason : Option ℕ
  pub saw_lookahead : Bool

abbrev pub ledger_page_size : ℕ
ledger_page_size = 50

abbrev pub end_item_limit : ℕ
end_item_limit = 1

abbrev pub end_scan_limit : ℕ
end_scan_limit = 2

unfoldable pub is_reason : ℕ → Option ℕ → Bool
is_reason n none = false
is_reason n (some m) = m == n

unfoldable pub end_reason_of : Option ℕ → Option (Option ℕ) → Option ℕ
end_reason_of before none = before
end_reason_of before (some reason) = reason

unfoldable pub add_digest : Scan → Option Digest → Scan
add_digest s none = s
add_digest s (some d) =
    if leb ledger_page_size (length s.digests)
    then record s { saw_lookahead = true }
    else record s { end_cursor = s.frontier; digests = s.digests ++ (d ∷ []) }

-- `toBase64` is the SDK's.
module _ (to_base64 : Bytes → Text) where
  unfoldable pub frontier_after : Option Text → Option Bytes → Option Text
  frontier_after before none = before
  frontier_after before (some []) = before
  frontier_after before (some (b ∷ bs)) = some (to_base64 (b ∷ bs))

  unfoldable pub read_frame : Scan → Frame → Scan
  read_frame s f =
      let added =
        add_digest (record s { frontier = frontier_after s.frontier f.watermark }) f.digest in
      record added { end_reason = end_reason_of added.end_reason f.end }

  unfoldable pub read_frames : Scan → List Frame → Scan
  read_frames s [] = s
  read_frames s (f ∷ fs) = read_frames (read_frame s f) fs

  unfoldable pub page_of_scan : Scan → DigestPage
  page_of_scan s =
      let more =
        s.saw_lookahead
        || is_reason end_scan_limit s.end_reason
        || is_reason end_item_limit s.end_reason in
      record {
        digests = s.digests;
        has_next_page = more;
        end_cursor =
            if s.saw_lookahead
            then s.end_cursor
            else if more
            then or_else s.frontier s.end_cursor
            else s.end_cursor;
      }

  abbrev pub first_scan : Scan
  first_scan = record {
    digests = [];
    end_cursor = none;
    frontier = none;
    end_reason = none;
    saw_lookahead = false;
  }

  unfoldable pub list_affected_digests : List Frame → DigestPage
  list_affected_digests frames = page_of_scan (read_frames first_scan frames)
