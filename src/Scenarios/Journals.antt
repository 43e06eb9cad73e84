-- ===== src/Scenarios/Journals.antt =====
-- The durable journal over an empty store, next to the memory journal.
use sui_effect.Prelude.{none, List, [], ◌∷◌, ◌≡◌, refl, codes, text_eq}
use sui_effect.Journal.{executed_entry, signed_entry}
use sui_effect.Journal.Memory.{make_memory_unsafe, lookup}
use sui_effect.Durable.Refines.{
  Call, putting, getting, answers, make_journal, Encodes, answers-refines,
}
use sui_effect.Scenarios.Stores.{pair_store, pair_codec, plain, encode, is_plain}

abbrev calls : List Call
calls =
    putting (signed_entry (codes "D") (plain (codes "D")) 3)
    ∷ getting (codes "D")
    ∷ putting (executed_entry (codes "D") none 5)
    ∷ getting (codes "D")
    ∷ getting (codes "E")
    ∷ []

calls_encode : Encodes pair_store pair_codec calls
unfolding pair_codec encode is_plain text_eq
calls_encode = ((1 ∷ 3 ∷ codes "D", refl), ((0 ∷ 5 ∷ codes "D", refl), tt))

answers-refines_example :
    answers (make_journal pair_store pair_codec) calls [] ≡ answers make_memory_unsafe calls []
unfolding lookup pair_store
answers-refines_example = answers-refines pair_store pair_codec calls [] [] calls_encode (λ d. refl)
