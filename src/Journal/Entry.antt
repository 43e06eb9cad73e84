-- ===== src/Journal/Entry.antt =====
-- domain/journal-entry.ts and the interface of services/Journal.ts: the entries of the submission
-- journal, and the operations that its users call.
use sui_effect.Prelude.{ℕ, Bool, true, false, Option, List, Text}
use sui_effect.Schemas.{Digest, Signed, Evidence}

-- `reason` is the opaque `ExecutionReason`; times are epoch milliseconds.
pub data JournalEntry : Type 0 where
  signed_entry : Digest → Signed → ℕ → JournalEntry
  executed_entry : Digest → Option ℕ → ℕ → JournalEntry
  failed_entry : Digest → Text → ℕ → JournalEntry
  unknown_entry : Digest → Signed → Text → ℕ → ℕ → JournalEntry
  not_applied_entry : Digest → Evidence → ℕ → JournalEntry

unfoldable pub digest_of : JournalEntry → Digest
digest_of (signed_entry d s at) = d
digest_of (executed_entry d c at) = d
digest_of (failed_entry d r at) = d
digest_of (unknown_entry d s e n at) = d
digest_of (not_applied_entry d e at) = d

-- `JournalEntry.isAnyOf(["Signed", "Unknown"])`
unfoldable pub is_unresolved : JournalEntry → Bool
is_unresolved (signed_entry d s at) = true
is_unresolved (unknown_entry d s e n at) = true
is_unresolved (executed_entry d c at) = false
is_unresolved (failed_entry d r at) = false
is_unresolved (not_applied_entry d e at) = false

-- Why a journal operation failed: the store, an entry that does not decode, or entries left
-- unresolved when the layer was to be built.
pub data JournalError : Type 0 where
  store_failed : JournalError
  undecodable : JournalError
  held : List Digest → JournalError

pub data Result {ℓ} (E A : Type ℓ) : Type ℓ where
  success : A → Result E A
  failure : E → Result E A

-- `JournalService`, over the state `J` of the journal.
pub record JournalService (J : Type 0) : Type 0 where
  pub put : JournalEntry → J → Result JournalError (Unit {0}) × J
  pub get : Digest → J → Result JournalError (Option JournalEntry) × J
  pub list_unresolved : J → Result JournalError (List JournalEntry) × J
