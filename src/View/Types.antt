-- ===== src/View/Types.antt =====
-- What the page of a session holds, in crates/acp-web-frontend/src: session_lifecycle.rs,
-- session_state.rs, session_activity.rs, session_page_entries.rs, session_page_signals.rs and
-- session_page_bootstrap.rs.
use acp_orchestrator.Common.{
  Bool, true, false, not, ◌||◌, ◌&&◌, Text, codes, List, [], ◌∷◌, ◌++◌, map, Option, none, some,
  any, is_empty, trim, join, if◌then◌else◌, ◌==◌, text_eq,
}
use acp_orchestrator.Contracts.Messages.{MessageRole, ConversationMessage}
use acp_orchestrator.Contracts.Permissions.{PermissionRequest}
use acp_orchestrator.Contracts.Sessions.{SessionStatus, SessionListItem}
use acp_orchestrator.Slash.Types.{CompletionCandidate}

pub data SessionLifecycle : Type 0 where
  loading active closed unavailable error : SessionLifecycle

pub data TurnState : Type 0 where
  idle submitting awaiting_reply awaiting_permission cancelling : TurnState

pub data SessionEntryRole : Type 0 where
  user assistant status : SessionEntryRole

pub record SessionEntry : Type 0 where
  pub id : Text
  pub role : SessionEntryRole
  pub text : Text

abbrev pub entry_role : MessageRole → SessionEntryRole
entry_role MessageRole.user = SessionEntryRole.user
entry_role MessageRole.assistant = SessionEntryRole.assistant

abbrev pub from_message : ConversationMessage → SessionEntry
from_message message = record {
  id = message.id;
  role = entry_role message.role;
  text = message.text;
}

abbrev pub status_entry : Text → Text → SessionEntry
status_entry id text = record { id = id; role = SessionEntryRole.status; text = text }

-- The signals that the events of the stream change, and the workspace that the browser has stored.
pub record SessionSignals : Type 0 where
  pub entries : List SessionEntry
  pub pending_permissions : List PermissionRequest
  pub session_status : SessionLifecycle
  pub turn_state : TurnState
  pub pending_action_busy : Bool
  pub current_workspace_id : Option Text
  pub current_workspace_name : Option Text
  pub list_items : List SessionListItem
  pub selected_workspace_id : Option Text

abbrev pub closed_session_message : Text
closed_session_message = codes "Conversation ended."

unfoldable pub session_end_message : Option Text → Text
session_end_message none = closed_session_message
session_end_message (some reason) =
    if is_empty (trim reason) || trim reason == codes "closed by user"
    then closed_session_message
    else trim reason

abbrev pub session_status_label : SessionStatus → SessionLifecycle
session_status_label SessionStatus.active = SessionLifecycle.active
session_status_label SessionStatus.closed = SessionLifecycle.closed

abbrev pub is_active : SessionLifecycle → Bool
is_active SessionLifecycle.active = true
is_active _ = false

abbrev pub is_idle : TurnState → Bool
is_idle TurnState.idle = true
is_idle _ = false

unfoldable pub session_action_busy : TurnState → Bool → Bool → Bool
session_action_busy turn_state pending_action_busy action_in_progress =
    pending_action_busy || (action_in_progress || not (is_idle turn_state))

unfoldable pub session_composer_disabled : SessionLifecycle → TurnState → Bool → Bool
session_composer_disabled session_status turn_state current_session_deleting =
    current_session_deleting || (not (is_active session_status) || not (is_idle turn_state))

abbrev pub idle_message : SessionLifecycle → Text
idle_message SessionLifecycle.active = []
idle_message SessionLifecycle.closed = codes "This conversation has ended."
idle_message SessionLifecycle.loading = codes "Connecting..."
idle_message SessionLifecycle.unavailable = codes "Session unavailable. Start a fresh chat."
idle_message SessionLifecycle.error = codes "Session unavailable. Start a fresh chat."

abbrev pub turn_message : SessionLifecycle → TurnState → Text
turn_message session_status TurnState.submitting = codes "Waiting for response..."
turn_message session_status TurnState.awaiting_reply = codes "Waiting for response..."
turn_message session_status TurnState.awaiting_permission =
    codes "Resolve the pending request before sending another message."
turn_message session_status TurnState.cancelling = codes "Cancelling..."
turn_message session_status TurnState.idle = idle_message session_status

unfoldable pub session_composer_status_message : SessionLifecycle → TurnState → Bool → Text
session_composer_status_message session_status turn_state current_session_deleting =
    if current_session_deleting
    then codes "Deleting session..."
    else turn_message session_status turn_state

abbrev pub should_release_turn_state : TurnState → Bool
should_release_turn_state TurnState.awaiting_reply = true
should_release_turn_state TurnState.cancelling = true
should_release_turn_state _ = false

unfoldable pub session_composer_cancel_visible : TurnState → Bool → Bool → Bool
session_composer_cancel_visible turn_state has_pending_permissions current_session_deleting =
    not current_session_deleting
    && (not has_pending_permissions && should_release_turn_state turn_state)

abbrev pub should_apply_snapshot_turn_state : TurnState → Bool
should_apply_snapshot_turn_state TurnState.idle = true
should_apply_snapshot_turn_state TurnState.awaiting_permission = true
should_apply_snapshot_turn_state _ = false

unfoldable pub turn_state_for_snapshot : List PermissionRequest → Bool → TurnState
turn_state_for_snapshot pending_permissions active_turn =
    if not (is_empty pending_permissions)
    then TurnState.awaiting_permission
    else if active_turn
    then TurnState.awaiting_reply
    else TurnState.idle

-- The ids of entries, and what is a status.
abbrev pub is_status : SessionEntryRole → Bool
is_status SessionEntryRole.status = true
is_status _ = false

abbrev pub push_bootstrap_closed_status_entry : List SessionEntry → List SessionEntry
push_bootstrap_closed_status_entry entries =
    if any (λ entry. is_status entry.role && entry.text == closed_session_message) entries
    then entries
    else entries ++ status_entry (codes "status-session-ended") closed_session_message ∷ []

-- The entries of `session_bootstrap_from_snapshot`
unfoldable pub bootstrap_entries : SessionStatus → List ConversationMessage → List SessionEntry
bootstrap_entries SessionStatus.active messages = map from_message messages
bootstrap_entries SessionStatus.closed messages =
    push_bootstrap_closed_status_entry (map from_message messages)

abbrev pub nonblank_line : Text → List Text
nonblank_line line = if is_empty (trim line) then [] else trim line ∷ []

unfoldable pub format_tool_activity_command : CompletionCandidate → Text
format_tool_activity_command command =
    if is_empty (trim command.detail)
    then codes "- " ++ command.label
    else codes "- " ++ (command.label ++ (codes " — " ++ trim command.detail))

abbrev pub command_lines : List CompletionCandidate → List Text
command_lines [] = []
command_lines (c ∷ cs) = codes "Commands:" ∷ map format_tool_activity_command (c ∷ cs)

unfoldable pub tool_activity_text : Text → Text → List CompletionCandidate → Text
unfolding format_tool_activity_command join
tool_activity_text title detail commands =
    join (b'\n' ∷ []) (nonblank_line title ++ (nonblank_line detail ++ command_lines commands))

abbrev pub normalized_workspace_value : Option Text → Option Text
normalized_workspace_value none = none
normalized_workspace_value (some value) = if is_empty (trim value) then none else some value
