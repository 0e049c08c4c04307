-- ===== src/Contracts/Permissions.antt =====
-- crates/acp-contracts-permissions/src/lib.rs: permission requests and the user's decision.
use acp_orchestrator.Common.{Text}

pub record PermissionRequest : Type 0 where
  pub request_id : Text
  pub summary : Text

pub data PermissionDecision : Type 0 where
  approve deny : PermissionDecision

pub record ResolvePermissionResponse : Type 0 where
  pub request_id : Text
  pub decision : PermissionDecision
