-- ===== src/Tui/Updates.antt =====
-- crates/acp-cli/src/events.rs: the updates that the events of a session's stream bring.
use acp_orchestrator.Common.{
  Bool, not, Text, List, [], ◌∷◌, ◌++◌, Option, none, some, map, filter, any, if◌then◌else◌, ◌==◌,
  text_eq,
}
use acp_orchestrator.Contracts.Messages.{ConversationMessage}
use acp_orchestrator.Contracts.Permissions.{PermissionRequest}
use acp_orchestrator.Contracts.Sessions.{SessionSnapshot}
use acp_orchestrator.Contracts.Stream.{StreamEvent, StreamEventPayload, session_snapshot}
use acp_orchestrator.Contracts.Stream as Stream
use acp_orchestrator.Tui.Types.{StreamUpdate, ChatApp}
use acp_orchestrator.Tui.Transcript.{apply_stream_update}

-- The two `HashSet`s as lists.
pub record InitialSnapshotState : Type 0 where
  pub message_ids : List Text
  pub permission_request_ids : List Text

-- `from_messages_and_permissions`
unfoldable pub from_messages_and_permissions :
    List ConversationMessage → List PermissionRequest → InitialSnapshotState
from_messages_and_permissions messages pending_permissions = record {
  message_ids = map (λ (m : ConversationMessage). m.id) messages;
  permission_request_ids = map (λ (r : PermissionRequest). r.request_id) pending_permissions;
}

abbrev pub contains : List Text → Text → Bool
contains ids id = any (λ known. known == id) ids

-- `resume_state_updates`
unfoldable pub resume_state_updates :
    List ConversationMessage → List PermissionRequest → List StreamUpdate
resume_state_updates messages pending_permissions =
    map StreamUpdate.conversation_message messages
    ++ map StreamUpdate.permission_requested pending_permissions

-- `event_updates`
unfoldable pub event_updates : StreamEventPayload → List StreamUpdate
unfolding resume_state_updates
event_updates (session_snapshot session) =
    resume_state_updates session.messages session.pending_permissions
event_updates (Stream.conversation_message message partial) =
    if partial then [] else StreamUpdate.conversation_message message ∷ []
event_updates (Stream.permission_requested request) = StreamUpdate.permission_requested request ∷ []
event_updates (Stream.session_closed session_id reason) =
    StreamUpdate.session_closed session_id reason ∷ []
event_updates (Stream.status message) = StreamUpdate.status message ∷ []

-- `initial_snapshot_delta_updates`
unfoldable pub initial_snapshot_delta_updates :
    SessionSnapshot → InitialSnapshotState → List StreamUpdate
initial_snapshot_delta_updates session known =
    map StreamUpdate.conversation_message
      (filter (λ (m : ConversationMessage). not (contains known.message_ids m.id)) session.messages)
    ++ map StreamUpdate.permission_requested (
        filter (λ (r : PermissionRequest). not (contains known.permission_request_ids r.request_id))
          session.pending_permissions)

-- `stream_event_updates`, where there is a snapshot: the state that is known is used once.
unfoldable pub snapshot_updates : SessionSnapshot → Option InitialSnapshotState → List StreamUpdate
unfolding initial_snapshot_delta_updates resume_state_updates
snapshot_updates session (some known) = initial_snapshot_delta_updates session known
snapshot_updates session none = resume_state_updates session.messages session.pending_permissions

-- `stream_event_updates`
unfoldable pub stream_event_updates :
    StreamEventPayload
    → Option InitialSnapshotState
    → List StreamUpdate × Option InitialSnapshotState
unfolding snapshot_updates event_updates
stream_event_updates (session_snapshot session) known = (snapshot_updates session known, none)
stream_event_updates payload known = (event_updates payload, known)

unfoldable pub apply_updates : ChatApp → List StreamUpdate → ChatApp
apply_updates app [] = app
apply_updates app (update ∷ updates) = apply_updates (apply_stream_update app update) updates

-- The loop of `stream_updates`, with `ChatApp::apply_stream_update` as the handler.
unfoldable pub follow : ChatApp → Option InitialSnapshotState → List StreamEvent → ChatApp
unfolding apply_updates stream_event_updates
follow app known [] = app
follow app known (event ∷ events) =
    let (updates, known') = stream_event_updates event.payload known in
    follow (apply_updates app updates) known' events
