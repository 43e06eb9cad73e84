-- ===== src/Tx/Wording.antt =====
-- services/Tx.ts: `reasonOf` and `lockConflict`, which read what a validator quorum said. The regular
-- expression is two literal phrases under the `i` flag.
use sui_effect.Prelude.{
  ℕ, Bool, not, [], ◌∷◌, Text, codes, strip_prefix, is_some, leb, ◌+◌, ◌&&◌, ◌||◌, map,
  if◌then◌else◌,
}
use sui_effect.Tx.Network.{TransportError, retryable, cause, Cause, said}

abbrev pub lower : ℕ → ℕ
lower c = if leb 65 c && leb c 90 then c + 32 else c

-- `/phrase/i.test(text)` for a literal phrase in lower case
unfoldable pub mentions : Text → Text → Bool
unfolding strip_prefix
mentions phrase [] = is_some (strip_prefix phrase [])
mentions phrase (c ∷ cs) =
    let rest = mentions phrase cs in is_some (strip_prefix phrase (map lower (c ∷ cs))) || rest

-- The sentences that the library writes itself hold neither phrase, and are not written out.
unfoldable pub reason_of : Cause → Text
reason_of (said text) = text
reason_of _ = []

unfoldable pub lock_conflict : TransportError → Bool
unfolding retryable cause reason_of mentions
lock_conflict e =
    not (retryable e)
    && (mentions (codes "already locked by a different transaction") (reason_of (cause e))
        || mentions (codes "rejected as invalid by more than 1/3 of validators")
            (reason_of (cause e)))
