-- ===== src/Core/Error.antt =====
-- crates/aios-core/src/error.rs: the stable error codes and the failures of validation. A message
-- of a failure is left out: it is a text for people, fixed by the field and the limit.

pub data ErrorCode : Type 0 where
  invalid_task idempotency_conflict capability_denied approval_expired budget_exceeded : ErrorCode
  runtime_restarted runtime_unavailable internal_error : ErrorCode
