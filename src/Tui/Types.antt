-- ===== src/Tui/Types.antt =====
-- The state of crates/acp-cli/src/tui/app.rs, and the updates of crates/acp-cli/src/events.rs.
use acp_orchestrator.Common.{
  ℕ, zero, suc, ◌+◌, ◌-◌, ◌%◌, Bool, Text, List, Option, none, some, length, get_elem?,
}
use acp_orchestrator.Contracts.Messages.{ConversationMessage}
use acp_orchestrator.Contracts.Permissions.{PermissionRequest}
use acp_orchestrator.Slash.Types.{CompletionCandidate}

pub data ConnectionState : Type 0 where
  connected : ConnectionState
  disconnected : Text → ConnectionState
  closed : Text → ConnectionState

pub record CompletionMenu : Type 0 where
  pub candidates : List CompletionCandidate
  pub selected : ℕ

pub record ChatApp : Type 0 where
  pub session_id : Text
  pub server_url : Text
  pub connection : ConnectionState
  pub transcript : List Text
  pub pending_permissions : List PermissionRequest
  pub status_entries : List Text
  pub command_catalog : List CompletionCandidate
  pub input_history : List Text
  pub input : Text
  pub cursor : ℕ
  pub completion_menu : Option CompletionMenu
  pub history_index : Option ℕ
  pub history_draft : Option Text
  pub follow_transcript : Bool
  pub transcript_scroll : ℕ
  pub should_quit : Bool

pub data StreamUpdate : Type 0 where
  conversation_message : ConversationMessage → StreamUpdate
  permission_requested : PermissionRequest → StreamUpdate
  session_closed : Text → Text → StreamUpdate
  status : Text → StreamUpdate

-- `CompletionMenu::select_next`, where `none` is the panic of a remainder by zero
unfoldable pub select_next : CompletionMenu → Option CompletionMenu
select_next m = elim (length m.candidates) [
  | zero ↦ none
  | suc n ↦ some (record m { selected = (m.selected + 1) % suc n })
]

-- `CompletionMenu::select_previous`
unfoldable pub select_previous : CompletionMenu → CompletionMenu
select_previous m = record m {
  selected = elim m.selected [ zero ↦ length m.candidates - 1 | suc n ↦ n ];
}

-- `CompletionMenu::current`
unfoldable pub current : CompletionMenu → Option CompletionCandidate
current m = get_elem? m.candidates m.selected
