-- ===== src/Contracts/Stream.antt =====
-- crates/acp-contracts-stream/src/lib.rs: the events that a session broadcasts.
use acp_orchestrator.Common.{ℕ, Bool, Text}
use acp_orchestrator.Contracts.Messages.{ConversationMessage}
use acp_orchestrator.Contracts.Permissions.{PermissionRequest}
use acp_orchestrator.Contracts.Sessions.{SessionSnapshot}

pub data StreamEventPayload : Type 0 where
  session_snapshot : SessionSnapshot → StreamEventPayload
  -- the flag is `partial`
  conversation_message : ConversationMessage → Bool → StreamEventPayload
  permission_requested : PermissionRequest → StreamEventPayload
  -- the session's id and the reason
  session_closed : Text → Text → StreamEventPayload
  status : Text → StreamEventPayload

pub record StreamEvent : Type 0 where
  pub sequence : ℕ
  pub payload : StreamEventPayload

-- `StreamEvent::snapshot`
unfoldable pub snapshot_event : SessionSnapshot → StreamEvent
snapshot_event s = record { sequence = s.latest_sequence; payload = session_snapshot s }

-- `StreamEvent::status`
unfoldable pub status_event : ℕ → Text → StreamEvent
status_event sequence message = record { sequence = sequence; payload = status message }
