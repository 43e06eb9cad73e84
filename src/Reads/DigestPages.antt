-- ===== src/Reads/DigestPages.antt =====
-- A page of an address's digests of services/Sui.ts: at most fifty, in order, and where to go on.
use sui_effect.Prelude.{
  ℕ, true, Option, none, some, List, [], ◌∷◌, ◌≡◌, ◌<◌, ◌↔◌, ◌⊎◌, ltb, length, take, Text,
}
use sui_effect.Schemas.{Bytes}
use sui_effect.Reads.Listing.{Frame, DigestPage, ledger_page_size}
use sui_effect.Reads.Watermarks.{digests_of, up_to, last_watermark}

-- The last reason with which a frame ends the stream.
abbrev pub last_end : Option ℕ → List Frame → Option ℕ
last_end before [] = before
last_end before (f ∷ fs) = last_end (elim f.end [ none ↦ before | some reason ↦ reason ]) fs

-- The stream was cut by the node's item limit or its scan limit.
abbrev pub IsLimit : Option ℕ → Type 0
IsLimit o = (o ≡ some 1) ⊎ (o ≡ some 2)

module _ (to_base64 : Bytes → Text) where
  -- What the page of some frames is.
  pub record PageOf (frames : List Frame) (page : DigestPage) : Type 0 where
    pub first_fifty : page.digests ≡ take ledger_page_size (digests_of frames)
    pub has_next :
        (page.has_next_page ≡ true)
        ↔ ((ledger_page_size < length (digests_of frames)) ⊎ IsLimit (last_end none frames))
    pub more_digests :
        ltb ledger_page_size (length (digests_of frames)) ≡ true
        → page.end_cursor ≡ last_watermark to_base64 none (up_to ledger_page_size frames)
