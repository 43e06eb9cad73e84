-- ===== src/Tx/Build/Refusals.antt =====
-- services/Tx.ts: which failures of a resolution are the transaction's own.
use sui_effect.Prelude.{
  Bool, true, false, none, some, List, ◌≡◌, refl, ◌⊎◌, inl, inr, Text, codes, text_eq, text_eq_iff,
  Bool-cases, if◌then◌else◌, ap,
}
use sui_effect.Tx.Network.{TransportError, Cause, transport, status, retryable, cause}
use sui_effect.Tx.Build.{
  BuildReason, BuildFailure, build_error, transport_failed, ResolverCause, zero_gas_not_resolved,
  plain_error, other_cause, inputs_not_found, node_refused, zero_gas_unmet, sdk_refused,
}
use sui_effect.Tx.Build.Resolving.{
  resolver_error, renamed, without_status, refused_to_resolve, message_of,
}

abbrev pub IsZeroGas : ResolverCause → Type 0
IsZeroGas c = (t : Text) × (c ≡ zero_gas_not_resolved t)

-- A failure that another attempt of the same build does not mend.
abbrev pub Final : ResolverCause → TransportError → Type 0
Final c e = IsZeroGas c ⊎ (status e ≡ some (codes "NOT_FOUND")) ⊎ (retryable e ≡ false)

-- What a failure becomes: the same one under another name, or a build error that no retry mends.
abbrev pub Kept : ResolverCause → TransportError → BuildFailure → Type 0
Kept c e answer =
    (answer ≡ transport_failed (transport (codes "Tx.build") (retryable e) (status e) (cause e)))
    ⊎ ((reason : BuildReason) × (answer ≡ build_error reason) × Final c e)

unknown_input-Kept :
    (c : ResolverCause) (r : Bool) (m s : Text) (k : Cause) (ids : List Text) (other : BuildFailure)
    → Kept c (transport m r (some s) k) other
    → Kept c
        (transport m r (some s) k)
        (if text_eq s (codes "NOT_FOUND") then build_error (inputs_not_found ids) else other)
unfolding status
unknown_input-Kept c r m s k ids other h = elim (Bool-cases (text_eq s (codes "NOT_FOUND"))) [
  | inl y ↦ rw (y) (
      inr
        (inputs_not_found ids, refl, inr (inl (ap some ((text_eq_iff s (codes "NOT_FOUND")).0 y)))))
  | inr n ↦ rw (n) h
]

refused-Kept :
    (c : ResolverCause) (m s : Text) (k : Cause)
    → Kept c (transport m false (some s) k) (
        if refused_to_resolve s
        then build_error (node_refused s (message_of c))
        else renamed (transport m false (some s) k))
unfolding status retryable cause renamed
refused-Kept c m s k = elim (Bool-cases (refused_to_resolve s)) [
  | inl y ↦ rw (y) (inr (node_refused s (message_of c), refl, inr (inr refl)))
  | inr n ↦ rw (n) (inl refl)
]

-- A failure of the resolver becomes a build error only when zero gas was required and not met, when its status is NOT_FOUND,
-- or when it is not retryable; any other stays a transport failure, with its status, retryability and cause, named after the build.
pub resolver_error-Kept :
    (c : ResolverCause) (e : TransportError) (ids : List Text) → Kept c e (resolver_error c e ids)
unfolding resolver_error renamed without_status status retryable cause
resolver_error-Kept (zero_gas_not_resolved t) e ids = inr (zero_gas_unmet t, refl, inl (t, refl))
resolver_error-Kept (plain_error t) (transport m true (some s) k) ids =
    unknown_input-Kept (plain_error t) true m s k ids _ (inl refl)
resolver_error-Kept (plain_error t) (transport m false (some s) k) ids =
    unknown_input-Kept (plain_error t) false m s k ids _ (refused-Kept (plain_error t) m s k)
resolver_error-Kept (plain_error t) (transport m true none k) ids = inl refl
resolver_error-Kept (plain_error t) (transport m false none k) ids =
    inr (sdk_refused t, refl, inr (inr refl))
resolver_error-Kept (other_cause t) (transport m true (some s) k) ids =
    unknown_input-Kept (other_cause t) true m s k ids _ (inl refl)
resolver_error-Kept (other_cause t) (transport m false (some s) k) ids =
    unknown_input-Kept (other_cause t) false m s k ids _ (refused-Kept (other_cause t) m s k)
resolver_error-Kept (other_cause t) (transport m true none k) ids = inl refl
resolver_error-Kept (other_cause t) (transport m false none k) ids = inl refl
