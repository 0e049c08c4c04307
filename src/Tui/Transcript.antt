-- ===== src/Tui/Transcript.antt =====
-- The transcript, the status lines and the stream updates of crates/acp-cli/src/tui/app.rs. The
-- display width of a string (`UnicodeWidthStr::width`) is a parameter.
use acp_orchestrator.Common.{
  ℕ, ◌-◌, Bool, true, false, not, Text, codes, decimal, List, [], ◌∷◌, ◌++◌, none, map, length,
  drop, filter, any, is_empty, if◌then◌else◌, ◌==◌, nat_eq, text_eq,
}
use acp_orchestrator.Contracts.Messages.{MessageRole, user, assistant, ConversationMessage}
use acp_orchestrator.Contracts.Permissions.{PermissionRequest}
use acp_orchestrator.Slash.Types.{CompletionCandidate}
use acp_orchestrator.Tui.Types.{ChatApp, ConnectionState, StreamUpdate}

abbrev pub max_status_entries : ℕ
max_status_entries = 32

-- `push_status`
unfoldable pub push_status : ChatApp → Text → ChatApp
push_status app message =
    let entries = app.status_entries ++ message ∷ [] in
    record app { status_entries = drop (length entries - max_status_entries) entries }

-- A line without the carriage return at its end.
unfoldable pub strip_cr : Text → Text
strip_cr [] = []
strip_cr (c ∷ []) = if c == b'\r' then [] else c ∷ []
strip_cr (c ∷ d ∷ s) = c ∷ strip_cr (d ∷ s)

-- The character `c` in front of the first of the lines.
unfoldable pub onto_first : ℕ → List Text → List Text
onto_first c [] = (c ∷ []) ∷ []
onto_first c (l ∷ ls) = (c ∷ l) ∷ ls

-- The text between line feeds; what is behind the last one counts if it is not empty.
unfoldable pub split_lines : Text → List Text
unfolding onto_first
split_lines [] = []
split_lines (c ∷ s) =
    let rest = split_lines s in if c == b'\n' then [] ∷ rest else onto_first c rest

-- Whether a text ends in a line feed.
unfoldable pub ends_in_newline : Text → Bool
ends_in_newline [] = false
ends_in_newline (c ∷ []) = c == b'\n'
ends_in_newline (c ∷ d ∷ s) = ends_in_newline (d ∷ s)

-- `str::lines`: a carriage return goes where a line feed follows it.
unfoldable pub strip_ended : Text → List Text → List Text
unfolding strip_cr ends_in_newline
strip_ended s [] = []
strip_ended s (l ∷ []) = if ends_in_newline s then strip_cr l ∷ [] else l ∷ []
strip_ended s (l ∷ k ∷ ls) = strip_cr l ∷ strip_ended s (k ∷ ls)

unfoldable pub lines : Text → List Text
unfolding split_lines strip_ended
lines s = strip_ended s (split_lines s)

abbrev pub role_prefix : MessageRole → Text
role_prefix user = codes "[user]"
role_prefix assistant = codes "[assistant]"

-- `formatted_message_lines`, on the lines of the text
unfoldable pub formatted_lines : Text → List Text → List Text
formatted_lines prefix [] = (prefix ++ codes " ") ∷ []
formatted_lines prefix (first ∷ rest) =
    (prefix ++ codes " " ++ first) ∷ map (λ line. codes "  " ++ line) rest

-- `formatted_message_lines`
unfoldable pub formatted_message_lines : MessageRole → Text → List Text
unfolding formatted_lines lines
formatted_message_lines role text = formatted_lines (role_prefix role) (lines text)

-- `append_message`
unfoldable pub append_message : ChatApp → ConversationMessage → ChatApp
unfolding formatted_message_lines
append_message app message = record app {
  transcript = app.transcript ++ formatted_message_lines message.role message.text;
}

unfoldable pub append_messages : ChatApp → List ConversationMessage → ChatApp
unfolding append_message
append_messages app [] = app
append_messages app (message ∷ messages) = append_messages (append_message app message) messages

-- The record that `ChatApp::new` starts from.
unfoldable pub initial : Text → Text → List PermissionRequest → List CompletionCandidate → ChatApp
initial session_id server_url pending_permissions command_catalog = record {
  session_id = session_id;
  server_url = server_url;
  connection = ConnectionState.connected;
  transcript = [];
  pending_permissions = pending_permissions;
  status_entries = [];
  command_catalog = command_catalog;
  input_history = [];
  input = [];
  cursor = 0;
  completion_menu = none;
  history_index = none;
  history_draft = none;
  follow_transcript = true;
  transcript_scroll = 0;
  should_quit = false;
}

-- `ChatApp::new`
unfoldable pub new :
    Text
    → Text
    → Bool
    → List ConversationMessage
    → List PermissionRequest
    → List CompletionCandidate
    → ChatApp
new session_id server_url resumed messages pending_permissions command_catalog =
    let shown =
      push_status
        (append_messages (initial session_id server_url pending_permissions command_catalog)
          messages)
        (if resumed then codes "resumed existing session" else codes "new session ready") in
    if is_empty pending_permissions
    then shown
    else push_status shown (
        decimal (length pending_permissions)
        ++ codes " pending permission request(s) need attention")

-- `apply_stream_update`
unfoldable pub apply_stream_update : ChatApp → StreamUpdate → ChatApp
unfolding append_message push_status
apply_stream_update app (StreamUpdate.conversation_message message) = append_message app message
apply_stream_update app (StreamUpdate.permission_requested request) =
    if any (λ (p : PermissionRequest). p.request_id == request.request_id) app.pending_permissions
    then app
    else record app { pending_permissions = app.pending_permissions ++ request ∷ [] }
apply_stream_update app (StreamUpdate.session_closed session_id reason) =
    push_status (record app { connection = ConnectionState.closed reason })
      (codes "session closed: " ++ reason)
apply_stream_update app (StreamUpdate.status message) = push_status app message

-- `set_connection_lost`
unfoldable pub set_connection_lost : ChatApp → Text → ChatApp
unfolding push_status
set_connection_lost app message =
    push_status (record app { connection = ConnectionState.disconnected message }) message

-- `remove_pending_permission`
unfoldable pub remove_pending_permission : ChatApp → Text → ChatApp
remove_pending_permission app request_id = record app {
  pending_permissions =
      filter (λ (r : PermissionRequest). not (r.request_id == request_id)) app.pending_permissions;
}

-- `set_command_catalog`, `replace_pending_permissions`, `request_quit` and `resume_follow`
unfoldable pub set_command_catalog : ChatApp → List CompletionCandidate → ChatApp
set_command_catalog app catalog = record app { command_catalog = catalog }

unfoldable pub replace_pending_permissions : ChatApp → List PermissionRequest → ChatApp
replace_pending_permissions app pending = record app { pending_permissions = pending }

unfoldable pub request_quit : ChatApp → ChatApp
request_quit app = record app { should_quit = true }

unfoldable pub resume_follow : ChatApp → ChatApp
resume_follow app = record app { follow_transcript = true }
