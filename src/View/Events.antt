-- ===== src/View/Events.antt =====
-- What an event of the stream does to the page, in
-- crates/acp-web-frontend/src/session_page_actions/stream/events.rs.
use acp_orchestrator.Common.{
  ℕ, Bool, true, false, not, ◌&&◌, Text, codes, decimal, List, [], ◌∷◌, ◌++◌, Option, none, some,
  any, is_empty, trim, if◌then◌else◌, ◌==◌, text_eq,
}
use acp_orchestrator.Contracts.Messages.{ConversationMessage, is_assistant}
use acp_orchestrator.Contracts.Permissions.{PermissionRequest}
use acp_orchestrator.Contracts.Sessions.{SessionStatus, SessionSnapshot, SessionListItem}
use acp_orchestrator.Contracts.Stream.{StreamEvent, StreamEventPayload}
use acp_orchestrator.Slash.Types.{CompletionCandidate}
use acp_orchestrator.View.Types.{
  SessionLifecycle, TurnState, SessionEntry, SessionSignals, from_message, status_entry,
  session_end_message, session_status_label, should_release_turn_state,
  should_apply_snapshot_turn_state, turn_state_for_snapshot, bootstrap_entries, tool_activity_text,
  normalized_workspace_value,
}

-- `Option<String>`'s `==`
abbrev pub same_option : Option Text → Option Text → Bool
same_option none none = true
same_option (some a) (some b) = a == b
same_option _ _ = false

abbrev pub or_stored : Option Text → Option Text → Option Text
or_stored (some stored) next = some stored
or_stored none next = next

-- `set_current_workspace_id`, for a value that is normalized
abbrev pub move_to : Option Text → SessionSignals → SessionSignals
move_to next signals = record signals {
  selected_workspace_id = or_stored signals.selected_workspace_id next;
  current_workspace_name =
      if same_option signals.current_workspace_id next
      then signals.current_workspace_name
      else none;
  current_workspace_id = next;
}

unfoldable pub set_current_workspace_id : Text → SessionSignals → SessionSignals
set_current_workspace_id workspace_id signals =
    move_to (normalized_workspace_value (some workspace_id)) signals

unfoldable pub apply_session_snapshot : SessionSnapshot → SessionSignals → SessionSignals
unfolding set_current_workspace_id turn_state_for_snapshot bootstrap_entries
apply_session_snapshot session signals =
    let moved = set_current_workspace_id session.workspace_id signals in
    record moved {
      session_status = session_status_label session.status;
      turn_state =
          if should_apply_snapshot_turn_state moved.turn_state
          then turn_state_for_snapshot session.pending_permissions session.active_turn
          else moved.turn_state;
      pending_permissions = session.pending_permissions;
      entries = bootstrap_entries session.status session.messages;
    }

-- The first entry with the message's id takes its text; a message that has none is a new entry.
unfoldable pub put_message : ConversationMessage → List SessionEntry → List SessionEntry
put_message message [] = from_message message ∷ []
put_message message (entry ∷ entries) =
    if entry.id == message.id
    then record entry { text = message.text } ∷ entries
    else entry ∷ put_message message entries

abbrev pub release : Bool → TurnState → TurnState
release over turn_state =
    if over && should_release_turn_state turn_state then TurnState.idle else turn_state

unfoldable pub apply_conversation_message :
    ConversationMessage → Bool → SessionSignals → SessionSignals
unfolding put_message
apply_conversation_message message partial signals = record signals {
  entries = put_message message signals.entries;
  turn_state = release (is_assistant message.role && not partial) signals.turn_state;
}

-- `push_status_entry` and `push_activity_entry`, with the entry's id
unfoldable pub push_entry : Text → Text → List SessionEntry → List SessionEntry
unfolding trim
push_entry id text entries =
    if is_empty (trim text)
    then entries
    else if any (λ entry. entry.id == id) entries
    then entries
    else entries ++ status_entry id text ∷ []

unfoldable pub push_status_entry : ℕ → Text → List SessionEntry → List SessionEntry
unfolding push_entry decimal
push_status_entry sequence text entries =
    push_entry (codes "status-" ++ decimal sequence) text entries

unfoldable pub push_tool_activity_entry :
    Text → Text → Text → List CompletionCandidate → List SessionEntry → List SessionEntry
unfolding push_entry tool_activity_text
push_tool_activity_entry id title detail commands entries =
    push_entry (codes "activity-" ++ id) (tool_activity_text title detail commands) entries

abbrev pub add_request : PermissionRequest → List PermissionRequest → List PermissionRequest
add_request request requests =
    if any (λ current. current.request_id == request.request_id) requests
    then requests
    else requests ++ request ∷ []

unfoldable pub apply_permission_request : PermissionRequest → SessionSignals → SessionSignals
unfolding push_tool_activity_entry
apply_permission_request request signals = record signals {
  pending_permissions = add_request request signals.pending_permissions;
  turn_state = TurnState.awaiting_permission;
  entries =
      push_tool_activity_entry (codes "permission-" ++ request.request_id)
        (codes "Permission required") request.summary [] signals.entries;
}

unfoldable pub mark_session_closed : Text → List SessionListItem → List SessionListItem
mark_session_closed session_id [] = []
mark_session_closed session_id (session ∷ sessions) =
    if session.id == session_id
    then record session { status = SessionStatus.closed } ∷ sessions
    else session ∷ mark_session_closed session_id sessions

unfoldable pub apply_session_closed : ℕ → Text → Text → SessionSignals → SessionSignals
unfolding mark_session_closed push_status_entry session_end_message
apply_session_closed sequence session_id reason signals = record signals {
  session_status = SessionLifecycle.closed;
  turn_state = TurnState.idle;
  pending_permissions = [];
  pending_action_busy = false;
  list_items = mark_session_closed session_id signals.list_items;
  entries = push_status_entry sequence (session_end_message (some reason)) signals.entries;
}

unfoldable pub apply_status_update : ℕ → Text → SessionSignals → SessionSignals
unfolding push_status_entry
apply_status_update sequence message signals = record signals {
  turn_state = release true signals.turn_state;
  entries = push_status_entry sequence message signals.entries;
}

unfoldable pub apply_payload : ℕ → StreamEventPayload → SessionSignals → SessionSignals
unfolding apply_session_snapshot apply_conversation_message apply_permission_request
    apply_session_closed apply_status_update
apply_payload sequence (StreamEventPayload.session_snapshot session) =
    apply_session_snapshot session
apply_payload sequence (StreamEventPayload.conversation_message message partial) =
    apply_conversation_message message partial
apply_payload sequence (StreamEventPayload.permission_requested request) =
    apply_permission_request request
apply_payload sequence (StreamEventPayload.session_closed session_id reason) =
    apply_session_closed sequence session_id reason
apply_payload sequence (StreamEventPayload.status message) = apply_status_update sequence message

unfoldable pub handle_sse_event : StreamEvent → SessionSignals → SessionSignals
unfolding apply_payload
handle_sse_event event = apply_payload event.sequence event.payload

-- A stream of events, the first first.
unfoldable pub handle_events : List StreamEvent → SessionSignals → SessionSignals
unfolding handle_sse_event
handle_events [] signals = signals
handle_events (event ∷ events) signals = handle_events events (handle_sse_event event signals)
