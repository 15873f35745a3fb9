-- ===== src/ManagedAgent/Contract/Acks.antt =====
-- Which acknowledgements of a command are accepted.
use auspex.Prelude.{
  String, len, ◌≤◌, ◌≡◌, ◌≢◌, ◌↔◌, ◌⊎◌, Bool, true, false, Option, none, some, ok, arith, eq_iff,
  is_empty, refl, inl, inr, Bool-cases,
}
use text.Mathlib.TextLemmas.{cons≢nil}
use auspex.ManagedAgent.Contract.{
  ManagedAgentCommandAck, ManagedAgentCommandAckStatus, ManagedAgentCommandAckRejection,
  method_delegate_dispatch, method_delegate_get, method_delegate_result, method_delegate_cancel,
  validate_ack, is_delegate_method, is_final_code, is_transient_code, validate_status,
}

abbrev pub IsDelegateMethod : String → Type 0
IsDelegateMethod m =
    (m ≡ method_delegate_dispatch)
    ⊎ (m ≡ method_delegate_get)
    ⊎ (m ≡ method_delegate_result)
    ⊎ (m ≡ method_delegate_cancel)

abbrev pub IsNotFinal : String → Type 0
IsNotFinal code =
    (code ≢ "unsupported_schema")
    × (code ≢ "invalid_envelope")
    × (code ≢ "unauthorized")
    × (code ≢ "unknown_method")
    × (code ≢ "command_id_conflict")

abbrev pub IsNotTransient : String → Type 0
IsNotTransient code = (code ≢ "overloaded") × (code ≢ "temporarily_unavailable")

-- What a rejection may say about a retry: one that may be retried has no final code, and one that
-- may not has no transient code.
abbrev pub SaysRetry : String → Bool → Type 0
SaysRetry code retryable =
    ((retryable ≡ true) × IsNotFinal code) ⊎ ((retryable ≡ false) × IsNotTransient code)

abbrev pub IsSoundRejection : ManagedAgentCommandAckRejection → Type 0
IsSoundRejection r = (len r.safe_message ≤ 1024) × (r.code ≢ "") × SaysRetry r.code r.retryable

is_empty_iff : (s : String) → (is_empty s ≡ true) ↔ (s ≡ "")
is_empty_iff String.[] = (λ h. refl, λ h. refl)
is_empty_iff (String.◌∷◌ c s) = (λ h. cc, λ h. absurd (cons≢nil h))

is_delegate_method_iff : (m : String) → (is_delegate_method m ≡ true) ↔ IsDelegateMethod m
unfolding is_delegate_method
is_delegate_method_iff m = (
  λ h. grind (arith, eq_iff),
  λ h. ground (
    arith,
    eq_iff m method_delegate_dispatch,
    eq_iff m method_delegate_get,
    eq_iff m method_delegate_result,
    eq_iff m method_delegate_cancel,
  ),
)

is_final_code_iff : (code : String) → (is_final_code code ≡ false) ↔ IsNotFinal code
unfolding is_final_code
is_final_code_iff code = (λ h. final_facts h, λ h. facts h)
  where
    final_facts : is_final_code code ≡ false → IsNotFinal code
    final_facts h = ground (
      arith,
      eq_iff code "unsupported_schema",
      eq_iff code "invalid_envelope",
      eq_iff code "unauthorized",
      eq_iff code "unknown_method",
      eq_iff code "command_id_conflict",
    )

    facts : IsNotFinal code → is_final_code code ≡ false
    facts h = ground (
      arith,
      eq_iff code "unsupported_schema",
      eq_iff code "invalid_envelope",
      eq_iff code "unauthorized",
      eq_iff code "unknown_method",
      eq_iff code "command_id_conflict",
    )

is_transient_code_iff : (code : String) → (is_transient_code code ≡ false) ↔ IsNotTransient code
unfolding is_transient_code
is_transient_code_iff code = (
  λ h. ground (arith, eq_iff code "overloaded", eq_iff code "temporarily_unavailable"),
  λ h. ground (arith, eq_iff code "overloaded", eq_iff code "temporarily_unavailable"),
)

validate_rejection_iff :
    (r : ManagedAgentCommandAckRejection)
    → (validate_status ManagedAgentCommandAckStatus.rejected (some r) ≡ ok tt) ↔ IsSoundRejection r
unfolding validate_status
validate_rejection_iff r = elim (Bool-cases r.retryable) [
  | inl retry ↦ (
    λ h. (
      ground arith,
      ground (arith, is_empty_iff r.code),
      inl (retry, ground (arith, is_final_code_iff r.code)),
    ),
    λ h.
        ground (arith, is_empty_iff r.code, is_final_code_iff r.code, is_transient_code_iff r.code),
  )
  | inr final ↦ (
    λ h. (
      ground arith,
      ground (arith, is_empty_iff r.code),
      inr (final, ground (arith, is_transient_code_iff r.code)),
    ),
    λ h.
        ground (arith, is_empty_iff r.code, is_final_code_iff r.code, is_transient_code_iff r.code),
  )
]

-- An acceptance has no rejection, and a rejection has a sound one.
abbrev pub IsSoundStatus :
    ManagedAgentCommandAckStatus → Option ManagedAgentCommandAckRejection → Type 0
IsSoundStatus ManagedAgentCommandAckStatus.accepted none = Unit
IsSoundStatus ManagedAgentCommandAckStatus.accepted (some r) = ⊥
IsSoundStatus ManagedAgentCommandAckStatus.rejected none = ⊥
IsSoundStatus ManagedAgentCommandAckStatus.rejected (some r) = IsSoundRejection r

validate_status_iff :
    (status : ManagedAgentCommandAckStatus) (rejection : Option ManagedAgentCommandAckRejection)
    → (validate_status status rejection ≡ ok tt) ↔ IsSoundStatus status rejection
validate_status_iff ManagedAgentCommandAckStatus.rejected (some r) = validate_rejection_iff r
validate_status_iff ManagedAgentCommandAckStatus.accepted none =
    (λ h. tt, λ h. unfold validate_status in refl)
validate_status_iff ManagedAgentCommandAckStatus.accepted (some r) =
    (λ h. unfold validate_status in ground arith, λ h. absurd h)
validate_status_iff ManagedAgentCommandAckStatus.rejected none =
    (λ h. unfold validate_status in ground arith, λ h. absurd h)

-- An acknowledgement is taken exactly when it has the contract's version and one of the four
-- methods, and either accepts with no rejection, or rejects with a message of at most 1024 bytes, a
-- code that is not empty, and a retry flag that fits the code.
pub validate_ack_iff :
    (ack : ManagedAgentCommandAck)
    → (validate_ack ack ≡ ok tt) ↔ (
        (ack.schema_version ≡ 1)
        × IsDelegateMethod ack.method
        × IsSoundStatus ack.status ack.rejection)
unfolding validate_ack
validate_ack_iff ack = (
  λ h. (
    ground (arith, is_delegate_method_iff ack.method),
    (is_delegate_method_iff ack.method).0 (ground arith),
    (validate_status_iff ack.status ack.rejection).0 (ground arith),
  ),
  λ h. ground (
    arith,
    (is_delegate_method_iff ack.method).1 h.1,
    (validate_status_iff ack.status ack.rejection).1 h.2,
  ),
)
