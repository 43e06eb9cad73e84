-- ===== src/Tx/Build/Resolving.antt =====
-- services/Tx.ts: what is read of a draft before it is resolved, and what a failed resolution means.
use sui_effect.Prelude.{
  ℕ, zero, suc, Bool, true, false, Option, none, some, List, [], ◌∷◌, ◌&&◌, ◌||◌, not, ◌==◌,
  if◌then◌else◌, Text, codes, text_eq,
}
use sui_effect.Schemas.{Bytes}
use sui_effect.Journal.{Result, success, failure}
use sui_effect.Tx.Network.{TransportError, transport}
use sui_effect.Tx.Build.{
  mentions_gas_coin, BuildFailure, build_error, simulation_failed, transport_failed,
  input_unavailable, zero_gas_unmet, inputs_not_found, node_refused, sdk_refused, DraftInput,
  unresolved_object, unresolved_pure, resolved_input, DraftData, ResolverCause,
  zero_gas_not_resolved, plain_error, other_cause, ResolveFailure, lookup_failed,
  simulation_refused, resolver_failed, Builder,
}

unfoldable pub some_unresolved : List DraftInput → Bool
some_unresolved [] = false
some_unresolved (unresolved_object id ∷ inputs) = true
some_unresolved (unresolved_pure ∷ inputs) = true
some_unresolved (resolved_input ∷ inputs) = some_unresolved inputs

-- Whether a payment leaves something to resolve.
unfoldable pub payment_open : Option ℕ → Bool → Bool
payment_open none has_expiration = true
payment_open (some n) has_expiration = n == 0 && not has_expiration

unfoldable pub will_resolve : Option DraftData → Bool
will_resolve none = false
will_resolve (some draft) =
    some_unresolved draft.inputs
    || not draft.has_price
    || not draft.has_budget
    || payment_open draft.payment_length draft.has_expiration

unfoldable pub lacks_budget : Option DraftData → Bool
lacks_budget none = false
lacks_budget (some draft) = not draft.has_budget

unfoldable pub sdk_simulates : Option DraftData → Bool → Bool
sdk_simulates draft is_grpc = will_resolve draft && (is_grpc || lacks_budget draft)

unfoldable pub object_ids : List DraftInput → List Text
object_ids [] = []
object_ids (unresolved_object id ∷ inputs) = id ∷ object_ids inputs
object_ids (unresolved_pure ∷ inputs) = object_ids inputs
object_ids (resolved_input ∷ inputs) = object_ids inputs

unfoldable pub unresolved_object_ids_of : Option DraftData → List Text
unresolved_object_ids_of none = []
unresolved_object_ids_of (some draft) = object_ids draft.inputs

unfoldable pub payment_length_of : Option DraftData → Option ℕ
payment_length_of none = none
payment_length_of (some draft) = draft.payment_length

-- A draft that cannot be read counts as one that uses the gas coin.
unfoldable pub uses_gas_coin : Option DraftData → Bool
uses_gas_coin none = true
uses_gas_coin (some draft) = mentions_gas_coin draft.commands

unfoldable pub refused_to_resolve : Text → Bool
refused_to_resolve s =
    text_eq s (codes "INVALID_ARGUMENT")
    || text_eq s (codes "3")
    || text_eq s (codes "FAILED_PRECONDITION")
    || text_eq s (codes "9")

unfoldable pub message_of : ResolverCause → Text
message_of (zero_gas_not_resolved t) = t
message_of (plain_error t) = t
message_of (other_cause t) = t

-- The failure keeps its status and its retryability under the name of `Tx.build`.
unfoldable pub renamed : TransportError → BuildFailure
renamed (transport m r s c) = transport_failed (transport (codes "Tx.build") r s c)

-- A failure that is neither retryable nor has a status: the SDK's own refusal, when it is plain.
unfoldable pub without_status : ResolverCause → TransportError → BuildFailure
without_status (plain_error t) e = build_error (sdk_refused t)
without_status (zero_gas_not_resolved t) e = renamed e
without_status (other_cause t) e = renamed e

unfoldable pub resolver_error : ResolverCause → TransportError → List Text → BuildFailure
resolver_error (zero_gas_not_resolved t) e unresolved = build_error (zero_gas_unmet t)
resolver_error c (transport m true (some s) k) unresolved =
    if text_eq s (codes "NOT_FOUND")
    then build_error (inputs_not_found unresolved)
    else renamed (transport m true (some s) k)
resolver_error c (transport m false (some s) k) unresolved =
    if text_eq s (codes "NOT_FOUND")
    then build_error (inputs_not_found unresolved)
    else if refused_to_resolve s
    then build_error (node_refused s (message_of c))
    else renamed (transport m false (some s) k)
resolver_error c (transport m true none k) unresolved = renamed (transport m true none k)
resolver_error c (transport m false none k) unresolved = without_status c (transport m false none k)

unfoldable pub resolve_failure : List Text → ResolveFailure → BuildFailure
resolve_failure unresolved (lookup_failed t) = build_error (input_unavailable t)
resolve_failure unresolved (simulation_refused t) = simulation_failed t
resolve_failure unresolved (resolver_failed c e) = resolver_error c e unresolved

unfoldable pub with_simulated :
    Bool → Result ResolveFailure Bytes → Result ResolveFailure (Bytes × Bool)
with_simulated simulated (failure e) = failure e
with_simulated simulated (success bytes) = success (bytes, simulated)

-- A retryable `TransportError`.
unfoldable pub is_retryable : Result ResolveFailure (Bytes × Bool) → Bool
is_retryable (success bytes) = false
is_retryable (failure (lookup_failed t)) = false
is_retryable (failure (simulation_refused t)) = false
is_retryable (failure (resolver_failed c (transport m r s k))) = r

unfoldable pub resolution :
    List Text → Result ResolveFailure (Bytes × Bool) → Result BuildFailure (Bytes × Bool)
resolution unresolved (failure e) = failure (resolve_failure unresolved e)
resolution unresolved (success bytes) = success bytes

module _ {D : Type 0} (builder : Builder D) where
  -- Whether the SDK simulates is asked in each attempt, before it builds.
  unfoldable pub attempt_of : D → Result ResolveFailure (Bytes × Bool)
  attempt_of draft =
      with_simulated (sdk_simulates (builder.get_data draft) builder.is_sui_grpc_client)
        (builder.resolve draft).0

  -- The next attempt starts from the draft that this one left.
  unfoldable pub resolve_from : ℕ → D → Result ResolveFailure (Bytes × Bool)
  resolve_from zero draft = attempt_of draft
  resolve_from (suc n) draft =
      let again = resolve_from n (builder.resolve draft).1 in
      if is_retryable (attempt_of draft) then again else attempt_of draft

  unfoldable pub resolved_by : D → Result BuildFailure (Bytes × Bool)
  resolved_by draft =
      resolution (unresolved_object_ids_of (builder.get_data draft))
        (resolve_from builder.retries draft)
