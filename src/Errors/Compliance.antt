-- ===== src/Errors/Compliance.antt =====
-- crates/compliance-errors/src/lib.rs
pub data ComplianceError : Type 0 where
  already_initialized unauthorized contract_paused batch_too_large : ComplianceError
  address_index_full bulk_operation_cooldown unexpected_schema_version : ComplianceError
  operator_cannot_clear_admin_block operator_set_full : ComplianceError
  invalid_jurisdiction_code no_pending_admin : ComplianceError
