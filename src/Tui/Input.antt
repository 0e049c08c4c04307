-- ===== src/Tui/Input.antt =====
-- What the keys of the terminal chat do: crates/acp-cli/src/tui/input.rs. The answers of the server
-- and the size of the transcript's viewport are arguments; `none` is a panic.
use acp_orchestrator.Common.{
  ℕ, suc, Bool, not, ◌&&◌, ◌||◌, Text, codes, List, [], ◌∷◌, ◌++◌, Option, none, some, is_some,
  is_empty, leb, trim, starts_with, if◌then◌else◌, ◌==◌, nat_eq,
}
use acp_orchestrator.Common.Attempt.{Attempt, done, failed}
use acp_orchestrator.Contracts.Permissions.{PermissionRequest}
use acp_orchestrator.Slash.Types.{CompletionCandidate}
use acp_orchestrator.Slash.Parse.{classify_slash_completion_prefix}
use acp_orchestrator.Tui.Types.{ChatApp}
use acp_orchestrator.Tui.Utf8.{split_bytes}
use acp_orchestrator.Tui.Editing.{
  insert_char, backspace, move_cursor_left, move_cursor_right, clear_input, clear_completion_menu,
  show_completion_menu, select_next_completion, select_previous_completion,
  apply_selected_completion,
}
use acp_orchestrator.Tui.History.{record_submitted_input, recall_previous_input, recall_next_input}
use acp_orchestrator.Tui.Transcript.{
  push_status, remove_pending_permission, set_command_catalog, replace_pending_permissions,
  request_quit, resume_follow,
}
use acp_orchestrator.Tui.Scroll.{scroll_up, scroll_down}

-- The keys of `crossterm` that the code names.
pub data KeyCode : Type 0 where
  char : ℕ → KeyCode
  esc tab back_tab enter up down page_up page_down end back_space left right other : KeyCode

pub record KeyModifiers : Type 0 where
  pub control : Bool
  pub shift : Bool
  pub others : Bool

pub record KeyEvent : Type 0 where
  pub code : KeyCode
  pub modifiers : KeyModifiers
  pub released : Bool

pub data TerminalEvent : Type 0 where
  key : KeyEvent → TerminalEvent
  paste : Text → TerminalEvent
  other : TerminalEvent

pub data CompletionAnswer : Type 0 where
  answered : List CompletionCandidate → CompletionAnswer
  unavailable : Text → CompletionAnswer
  timed_out : CompletionAnswer

pub data ReplCommandNotice : Type 0 where
  help : List CompletionCandidate → ReplCommandNotice
  status : Text → ReplCommandNotice

pub data PendingPermissionsUpdate : Type 0 where
  nothing refresh : PendingPermissionsUpdate
  remove : Text → PendingPermissionsUpdate

pub record ReplCommandOutcome : Type 0 where
  pub notices : List ReplCommandNotice
  pub pending_permissions_update : PendingPermissionsUpdate
  pub should_quit : Bool

-- What the server answers while one event is handled.
pub record Answers : Type 0 where
  pub slash_completions : Text → CompletionAnswer
  pub command : Text → Attempt Text ReplCommandOutcome
  pub submit_prompt : Text → Attempt Text (Unit {0})
  pub session : Attempt Text (List PermissionRequest)

-- The application behind an event, with the error that ends the chat, if there is one.
abbrev pub Handled : Type 0
Handled = ChatApp × Attempt Text (Unit {0})

abbrev pub handled : Option ChatApp → Option Handled
handled none = none
handled (some app) = some (app, done tt)

abbrev pub kept_on : ChatApp → Option Handled
kept_on app = some (app, done tt)

abbrev pub apply_notice : ChatApp → ReplCommandNotice → ChatApp
apply_notice app (ReplCommandNotice.help candidates) =
    push_status (set_command_catalog app candidates) (codes "available slash commands refreshed")
apply_notice app (ReplCommandNotice.status message) = push_status app message

abbrev pub apply_notices : ChatApp → List ReplCommandNotice → ChatApp
apply_notices app [] = app
apply_notices app (notice ∷ notices) = apply_notices (apply_notice app notice) notices

abbrev pub refreshed : ChatApp → Attempt Text (List PermissionRequest) → ChatApp
refreshed app (done pending) = replace_pending_permissions app pending
refreshed app (failed error) = push_status app error

abbrev pub apply_update : Answers → ChatApp → PendingPermissionsUpdate → ChatApp
apply_update answers app PendingPermissionsUpdate.nothing = app
apply_update answers app PendingPermissionsUpdate.refresh = refreshed app answers.session
apply_update answers app (PendingPermissionsUpdate.remove request_id) =
    remove_pending_permission app request_id

unfoldable pub apply_command_outcome : Answers → ChatApp → ReplCommandOutcome → ChatApp
unfolding push_status set_command_catalog replace_pending_permissions remove_pending_permission
    request_quit
apply_command_outcome answers app outcome =
    let updated =
      apply_update answers (apply_notices app outcome.notices) outcome.pending_permissions_update in
    if outcome.should_quit then request_quit updated else updated

abbrev pub command_answered : Answers → ChatApp → Attempt Text ReplCommandOutcome → Option Handled
command_answered answers app (failed error) = some (app, failed error)
command_answered answers app (done outcome) =
    kept_on (apply_command_outcome answers (clear_input app) outcome)

abbrev pub prompt_answered : ChatApp → Attempt Text (Unit {0}) → Option Handled
prompt_answered app (done u) = kept_on (clear_input app)
prompt_answered app (failed error) = kept_on (push_status app error)

unfoldable pub submit_line : Answers → ChatApp → Text → Option Handled
unfolding record_submitted_input clear_input push_status apply_command_outcome
submit_line answers app line =
    let recorded = record_submitted_input app line in
    if is_empty line
    then kept_on app
    else if starts_with line (codes "/")
    then command_answered answers recorded (answers.command line)
    else prompt_answered recorded (answers.submit_prompt line)

unfoldable pub submit_current_input : Answers → ChatApp → Option Handled
unfolding submit_line trim
submit_current_input answers app = submit_line answers app (trim app.input)

-- `completion_query`; the outer `none` is a panic
abbrev pub completion_query : Text → ℕ → Option (Option Text)
completion_query line cursor = elim (split_bytes cursor line) [
  | none ↦ none
  | some (prefix, after) ↦
      some (if is_some (classify_slash_completion_prefix prefix) then some prefix else none)
]

abbrev pub show_candidates : ChatApp → List CompletionCandidate → Option Handled
show_candidates app (c ∷ []) =
    handled (apply_selected_completion (show_completion_menu app (c ∷ [])))
show_candidates app candidates = kept_on (show_completion_menu app candidates)

abbrev pub completion_answered : ChatApp → CompletionAnswer → Option Handled
completion_answered app (CompletionAnswer.answered candidates) = show_candidates app candidates
completion_answered app (CompletionAnswer.unavailable error) =
    kept_on (push_status app (codes "slash completion unavailable: " ++ error))
completion_answered app CompletionAnswer.timed_out =
    kept_on (push_status app (codes "slash completion timed out"))

unfoldable pub complete_query : Answers → ChatApp → Option (Option Text) → Option Handled
unfolding clear_completion_menu show_completion_menu apply_selected_completion push_status
complete_query answers app none = none
complete_query answers app (some none) = kept_on (clear_completion_menu app)
complete_query answers app (some (some prefix)) =
    completion_answered app (answers.slash_completions prefix)

unfoldable pub update_completion_menu : Answers → ChatApp → Option Handled
unfolding complete_query split_bytes classify_slash_completion_prefix
update_completion_menu answers app =
    complete_query answers app (completion_query app.input app.cursor)

abbrev pub enter_key : Answers → ChatApp → Option Handled
enter_key answers app =
    if is_some app.completion_menu
    then handled (apply_selected_completion app)
    else submit_current_input answers app

abbrev pub tab_key : Answers → ChatApp → Option Handled
tab_key answers app =
    if is_some app.completion_menu
    then handled (select_next_completion app)
    else update_completion_menu answers app

-- `handle_edit_key`, for a character
abbrev pub edit_char : KeyModifiers → ChatApp → ℕ → Option Handled
edit_char modifiers app value =
    if not modifiers.control && not modifiers.others
    then handled (insert_char app value)
    else kept_on app

abbrev pub char_key : Answers → KeyModifiers → ChatApp → ℕ → Option Handled
char_key answers modifiers app value =
    if value == b'c' && modifiers.control
    then kept_on (push_status app (codes "interrupted input. Use `/quit` to leave the chat."))
    else if value == b'\n' || value == b'\r'
    then enter_key answers app
    else edit_char modifiers app value

abbrev pub at_least_one : ℕ → ℕ
at_least_one n = if leb 1 n then n else 1

-- `handle_key`, which tries `handle_completion_shortcuts`, `handle_navigation_key` and
-- `handle_edit_key` in turn; each key belongs to one of them.
unfoldable pub handle_key :
    (Text → ℕ) → Answers → ChatApp → ℕ → ℕ → KeyModifiers → KeyCode → Option Handled
unfolding push_status clear_completion_menu select_next_completion select_previous_completion
    apply_selected_completion submit_current_input update_completion_menu recall_previous_input
    recall_next_input scroll_up scroll_down resume_follow backspace move_cursor_left
    move_cursor_right insert_char
handle_key width answers app height columns modifiers (KeyCode.char value) =
    char_key answers modifiers app value
handle_key width answers app height columns modifiers KeyCode.esc =
    kept_on (clear_completion_menu app)
handle_key width answers app height columns modifiers KeyCode.tab = tab_key answers app
handle_key width answers app height columns modifiers KeyCode.back_tab =
    kept_on (select_previous_completion app)
handle_key width answers app height columns modifiers KeyCode.enter = enter_key answers app
handle_key width answers app height columns modifiers KeyCode.up =
    if is_some app.completion_menu
    then kept_on (select_previous_completion app)
    else handled (recall_previous_input app)
handle_key width answers app height columns modifiers KeyCode.down =
    if is_some app.completion_menu
    then handled (select_next_completion app)
    else handled (recall_next_input app)
handle_key width answers app height columns modifiers KeyCode.page_up =
    kept_on (scroll_up width app height columns (at_least_one height))
handle_key width answers app height columns modifiers KeyCode.page_down =
    kept_on (scroll_down width app height columns (at_least_one height))
handle_key width answers app height columns modifiers KeyCode.end = kept_on (resume_follow app)
handle_key width answers app height columns modifiers KeyCode.back_space = handled (backspace app)
handle_key width answers app height columns modifiers KeyCode.left = handled (move_cursor_left app)
handle_key width answers app height columns modifiers KeyCode.right =
    handled (move_cursor_right app)
handle_key width answers app height columns modifiers KeyCode.other = kept_on app

abbrev pub paste_char : Answers → ChatApp → ℕ → Option Handled
paste_char answers app value =
    if value == b'\n' || value == b'\r'
    then submit_current_input answers app
    else handled (insert_char app value)

-- The answers are those to the characters of the text in turn.
unfoldable pub handle_paste : (ℕ → Answers) → ChatApp → Text → Option Handled
unfolding submit_current_input insert_char
handle_paste answers app [] = kept_on app
handle_paste answers app (value ∷ values) = elim (paste_char (answers 0) app value) [
  | none ↦ none
  | some (app', failed error) ↦ some (app', failed error)
  | some (app', done u) ↦ handle_paste (λ n. answers (suc n)) app' values
]

unfoldable pub handle_terminal_event :
    (Text → ℕ) → (ℕ → Answers) → ℕ → ℕ → ChatApp → TerminalEvent → Option Handled
unfolding handle_key handle_paste
handle_terminal_event width answers height columns app (TerminalEvent.key event) =
    if event.released
    then kept_on app
    else handle_key width (answers 0) app height columns event.modifiers event.code
handle_terminal_event width answers height columns app (TerminalEvent.paste text) =
    handle_paste answers app text
handle_terminal_event width answers height columns app TerminalEvent.other = kept_on app

-- An event with what the server answers and the size of the viewport.
abbrev pub TerminalTurn : Type 0
TerminalTurn = TerminalEvent × ((ℕ → Answers) × (ℕ × ℕ))

-- Events in turn, up to an error.
unfoldable pub handle_terminal_events : (Text → ℕ) → ChatApp → List TerminalTurn → Option Handled
unfolding handle_terminal_event
handle_terminal_events width app [] = kept_on app
handle_terminal_events width app ((event, (answers, (height, columns))) ∷ turns) =
    elim (handle_terminal_event width answers height columns app event) [
      | none ↦ none
      | some (app', failed error) ↦ some (app', failed error)
      | some (app', done u) ↦ handle_terminal_events width app' turns
    ]
