-- ===== src/Contracts/Sessions.antt =====
-- crates/acp-contracts-sessions/src/lib.rs: what clients see of a session.
use acp_orchestrator.Common.{ℕ, Bool, true, false, Text, List}
use acp_orchestrator.Contracts.Messages.{ConversationMessage}
use acp_orchestrator.Contracts.Permissions.{PermissionRequest}

pub data SessionStatus : Type 0 where
  active closed : SessionStatus

-- `status == SessionStatus::Closed` and `status == SessionStatus::Active`
abbrev pub is_closed : SessionStatus → Bool
is_closed active = false
is_closed closed = true

abbrev pub is_active : SessionStatus → Bool
is_active active = true
is_active closed = false

pub record SessionSnapshot : Type 0 where
  pub id : Text
  pub workspace_id : Text
  pub title : Text
  pub status : SessionStatus
  pub latest_sequence : ℕ
  pub messages : List ConversationMessage
  pub pending_permissions : List PermissionRequest
  pub active_turn : Bool

pub record SessionListItem : Type 0 where
  pub id : Text
  pub workspace_id : Text
  pub title : Text
  pub status : SessionStatus
  pub last_activity_at : ℕ
