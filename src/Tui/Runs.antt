-- ===== src/Tui/Runs.antt =====
-- Whole runs of the terminal chat of crates/acp-cli/src/tui/app.rs, from its start.
use acp_orchestrator.Common.{ℕ, Bool, Text, List, [], ◌∷◌, Option, none, some, is_empty, arith}
use acp_orchestrator.Contracts.Messages.{ConversationMessage}
use acp_orchestrator.Contracts.Permissions.{PermissionRequest}
use acp_orchestrator.Slash.Types.{CompletionCandidate}
use acp_orchestrator.Tui.Types.{ChatApp}
use acp_orchestrator.Tui.Transcript.{initial, new, append_messages, append_message}
use acp_orchestrator.Tui.Utf8.{len}
use acp_orchestrator.Tui.Boundary.{whole}
use acp_orchestrator.Tui.WellFormed.{WellFormed, Safe}
use acp_orchestrator.Tui.Actions.{Action, act}
use acp_orchestrator.Tui.Safety.{act-Safe, pushed, either}

unfoldable pub then_act : (Text → ℕ) → Option ChatApp → List Action → Option ChatApp
then_act width none actions = none
then_act width (some app) [] = some app
then_act width (some app) (a ∷ actions) = then_act width (act width app a) actions

then_act-Safe :
    (width : Text → ℕ) (app : Option ChatApp) (actions : List Action)
    → Safe app
    → Safe (then_act width app actions)
unfolding then_act
then_act-Safe width none actions h = h
then_act-Safe width (some app) [] h = h
then_act-Safe width (some app) (a ∷ actions) h =
    then_act-Safe width (act width app a) actions (act-Safe width app a h)

appended :
    (app : ChatApp) (messages : List ConversationMessage)
    → WellFormed app
    → WellFormed (append_messages app messages)
unfolding append_messages append_message
appended app [] w = w
appended app (message ∷ messages) w =
    appended (append_message app message) messages
      (record { cursor = w.cursor; menu = w.menu; history = w.history; status = w.status })

initial-WellFormed :
    (session_id server_url : Text) (pending : List PermissionRequest)
    (catalog : List CompletionCandidate)
    → WellFormed (initial session_id server_url pending catalog)
unfolding initial len
initial-WellFormed session_id server_url pending catalog = record {
  cursor = whole [];
  menu = tt;
  history = tt;
  status = omega arith;
}

pub new-WellFormed :
    (session_id server_url : Text) (resumed : Bool) (messages : List ConversationMessage)
    (pending : List PermissionRequest) (catalog : List CompletionCandidate)
    → WellFormed (new session_id server_url resumed messages pending catalog)
unfolding new
new-WellFormed session_id server_url resumed messages pending catalog =
    let shown =
      pushed _ (appended _ messages (initial-WellFormed session_id server_url pending catalog)) _ in
    either (is_empty pending) shown (pushed _ shown _)

-- From a new chat, no sequence of actions panics: afterwards the cursor is on a boundary of
-- characters of the input, a menu that is shown has the candidate that is selected, the place in
-- the history exists, and there are at most 32 status lines.
pub run-Safe :
    (width : Text → ℕ) (session_id server_url : Text) (resumed : Bool)
    (messages : List ConversationMessage) (pending : List PermissionRequest)
    (catalog : List CompletionCandidate) (actions : List Action)
    → Safe
        (then_act width (some (new session_id server_url resumed messages pending catalog)) actions)
run-Safe width session_id server_url resumed messages pending catalog actions =
    then_act-Safe width _ actions
      (new-WellFormed session_id server_url resumed messages pending catalog)
