-- ===== src/Tui/Actions.antt =====
-- The methods of `ChatApp` in crates/acp-cli/src/tui/app.rs that change it, as one type.
use acp_orchestrator.Common.{ℕ, Text, List, Option, some}
use acp_orchestrator.Contracts.Permissions.{PermissionRequest}
use acp_orchestrator.Slash.Types.{CompletionCandidate}
use acp_orchestrator.Tui.Types.{ChatApp, StreamUpdate}
use acp_orchestrator.Tui.Editing.{
  insert_char, backspace, move_cursor_left, move_cursor_right, clear_input, clear_completion_menu,
  show_completion_menu, select_next_completion, select_previous_completion,
  apply_selected_completion,
}
use acp_orchestrator.Tui.History.{record_submitted_input, recall_previous_input, recall_next_input}
use acp_orchestrator.Tui.Transcript.{
  apply_stream_update, set_connection_lost, push_status, remove_pending_permission,
  set_command_catalog, replace_pending_permissions, request_quit, resume_follow,
}
use acp_orchestrator.Tui.Scroll.{scroll_up, scroll_down}

pub data Action : Type 0 where
  inserts : ℕ → Action
  erases moves_left moves_right clears hides_menu selects_next selects_previous applies : Action
  shows_menu : List CompletionCandidate → Action
  submits : Text → Action
  recalls_previous recalls_next quits follows : Action
  updates : StreamUpdate → Action
  loses : Text → Action
  notes : Text → Action
  settles : Text → Action
  catalogs : List CompletionCandidate → Action
  replaces : List PermissionRequest → Action
  scrolls_up scrolls_down : ℕ → ℕ → ℕ → Action

-- The application after an action; `none` is a panic.
unfoldable pub act : (Text → ℕ) → ChatApp → Action → Option ChatApp
act width app (inserts c) = insert_char app c
act width app erases = backspace app
act width app moves_left = move_cursor_left app
act width app moves_right = move_cursor_right app
act width app clears = some (clear_input app)
act width app hides_menu = some (clear_completion_menu app)
act width app selects_next = select_next_completion app
act width app selects_previous = some (select_previous_completion app)
act width app applies = apply_selected_completion app
act width app (shows_menu candidates) = some (show_completion_menu app candidates)
act width app (submits value) = some (record_submitted_input app value)
act width app recalls_previous = recall_previous_input app
act width app recalls_next = recall_next_input app
act width app quits = some (request_quit app)
act width app follows = some (resume_follow app)
act width app (updates update) = some (apply_stream_update app update)
act width app (loses message) = some (set_connection_lost app message)
act width app (notes message) = some (push_status app message)
act width app (settles request_id) = some (remove_pending_permission app request_id)
act width app (catalogs catalog) = some (set_command_catalog app catalog)
act width app (replaces pending) = some (replace_pending_permissions app pending)
act width app (scrolls_up h w amount) = some (scroll_up width app h w amount)
act width app (scrolls_down h w amount) = some (scroll_down width app h w amount)
