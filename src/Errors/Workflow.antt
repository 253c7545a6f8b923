-- ===== src/Errors/Workflow.antt =====
-- crates/workflow-errors/src/lib.rs, and `ResumeTooEarly`, which the contract names in addition.
pub data WorkflowError : Type 0 where
  unauthorized not_configured pause_target_failed unpause_target_failed : WorkflowError
  no_pause_targets too_many_pause_targets duplicate_pause_target self_pause_target : WorkflowError
  emergency_pause_active not_emergency_paused resume_too_early : WorkflowError
