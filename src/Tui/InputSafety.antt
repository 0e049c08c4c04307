-- ===== src/Tui/InputSafety.antt =====
-- No key and no paste makes the terminal chat panic: crates/acp-cli/src/tui/input.rs.
use acp_orchestrator.Common.{
  ℕ, suc, Bool, not, ◌&&◌, ◌||◌, Text, List, [], ◌∷◌, Option, none, some, is_some, either_branch,
  ◌==◌, nat_eq,
}
use acp_orchestrator.Common.Attempt.{done, failed}
use acp_orchestrator.Contracts.Permissions.{PermissionRequest}
use acp_orchestrator.Contracts.Messages.{ConversationMessage}
use acp_orchestrator.Slash.Types.{CompletionCandidate}
use acp_orchestrator.Tui.Types.{ChatApp}
use acp_orchestrator.Tui.Transcript.{new}
use acp_orchestrator.Tui.Actions.{Action, act}
use acp_orchestrator.Tui.WellFormed.{WellFormed}
use acp_orchestrator.Tui.Safety.{act-Safe}
use acp_orchestrator.Tui.Runs.{new-WellFormed}
use acp_orchestrator.Tui.Input.{
  KeyCode, KeyModifiers, TerminalEvent, Answers, Handled, enter_key, tab_key, char_key,
  at_least_one, handle_key, paste_char, handle_paste, handle_terminal_event, TerminalTurn,
  handle_terminal_events,
}
use acp_orchestrator.Tui.AnswerSafety.{
  SafeHandled, acted, submit_current_input-Safe, update_completion_menu-Safe,
}

module _ (width : Text → ℕ) where
  enter_key-Safe :
      (answers : Answers) (app : ChatApp) → WellFormed app → SafeHandled (enter_key answers app)
  unfolding act
  enter_key-Safe answers app w =
      either_branch SafeHandled (is_some app.completion_menu) _ _ (acted width app Action.applies w)
        (submit_current_input-Safe width answers app w)

  tab_key-Safe :
      (answers : Answers) (app : ChatApp) → WellFormed app → SafeHandled (tab_key answers app)
  unfolding act
  tab_key-Safe answers app w =
      either_branch SafeHandled (is_some app.completion_menu) _ _
        (acted width app Action.selects_next w) (update_completion_menu-Safe width answers app w)

  char_key-Safe :
      (answers : Answers) (modifiers : KeyModifiers) (app : ChatApp) (value : ℕ)
      → WellFormed app
      → SafeHandled (char_key answers modifiers app value)
  unfolding act
  char_key-Safe answers modifiers app value w =
      either_branch SafeHandled (value == b'c' && modifiers.control) _ _
        (act-Safe width app (Action.notes _) w)
        (either_branch SafeHandled (value == b'\n' || value == b'\r') _ _
          (enter_key-Safe answers app w)
          (either_branch SafeHandled (not modifiers.control && not modifiers.others) _ _
            (acted width app (Action.inserts value) w) w))

  handle_key-Safe :
      (answers : Answers) (app : ChatApp) (height columns : ℕ) (modifiers : KeyModifiers)
      (code : KeyCode)
      → WellFormed app
      → SafeHandled (handle_key width answers app height columns modifiers code)
  unfolding handle_key act
  handle_key-Safe answers app height columns modifiers (KeyCode.char value) w =
      char_key-Safe answers modifiers app value w
  handle_key-Safe answers app height columns modifiers KeyCode.esc w =
      act-Safe width app Action.hides_menu w
  handle_key-Safe answers app height columns modifiers KeyCode.tab w = tab_key-Safe answers app w
  handle_key-Safe answers app height columns modifiers KeyCode.back_tab w =
      act-Safe width app Action.selects_previous w
  handle_key-Safe answers app height columns modifiers KeyCode.enter w =
      enter_key-Safe answers app w
  handle_key-Safe answers app height columns modifiers KeyCode.up w =
      either_branch SafeHandled (is_some app.completion_menu) _ _
        (act-Safe width app Action.selects_previous w) (acted width app Action.recalls_previous w)
  handle_key-Safe answers app height columns modifiers KeyCode.down w =
      either_branch SafeHandled (is_some app.completion_menu) _ _
        (acted width app Action.selects_next w) (acted width app Action.recalls_next w)
  handle_key-Safe answers app height columns modifiers KeyCode.page_up w =
      act-Safe width app (Action.scrolls_up height columns (at_least_one height)) w
  handle_key-Safe answers app height columns modifiers KeyCode.page_down w =
      act-Safe width app (Action.scrolls_down height columns (at_least_one height)) w
  handle_key-Safe answers app height columns modifiers KeyCode.end w =
      act-Safe width app Action.follows w
  handle_key-Safe answers app height columns modifiers KeyCode.back_space w =
      acted width app Action.erases w
  handle_key-Safe answers app height columns modifiers KeyCode.left w =
      acted width app Action.moves_left w
  handle_key-Safe answers app height columns modifiers KeyCode.right w =
      acted width app Action.moves_right w
  handle_key-Safe answers app height columns modifiers KeyCode.other w = w

  paste_char-Safe :
      (answers : Answers) (app : ChatApp) (value : ℕ)
      → WellFormed app
      → SafeHandled (paste_char answers app value)
  unfolding act
  paste_char-Safe answers app value w =
      either_branch SafeHandled (value == b'\n' || value == b'\r') _ _
        (submit_current_input-Safe width answers app w) (acted width app (Action.inserts value) w)

  -- What follows an event that is handled.
  abbrev pub next_paste : (ℕ → Answers) → Text → Option Handled → Option Handled
  next_paste answers values none = none
  next_paste answers values (some (app, failed error)) = some (app, failed error)
  next_paste answers values (some (app, done u)) = handle_paste answers app values

  pasted :
      (answers : ℕ → Answers) (values : Text) (o : Option Handled)
      → ((app : ChatApp) → WellFormed app → SafeHandled (handle_paste answers app values))
      → SafeHandled o
      → SafeHandled (next_paste answers values o)
  pasted answers values none rest h = h
  pasted answers values (some (app, failed error)) rest h = h
  pasted answers values (some (app, done u)) rest h = rest app h

  handle_paste-Safe :
      (answers : ℕ → Answers) (app : ChatApp) (text : Text)
      → WellFormed app
      → SafeHandled (handle_paste answers app text)
  unfolding handle_paste
  handle_paste-Safe answers app [] w = w
  handle_paste-Safe answers app (value ∷ values) w =
      let later : ℕ → Answers = λ n. answers (suc n) in
      pasted later values (paste_char (answers 0) app value)
        (λ app' w'. handle_paste-Safe later app' values w')
        (paste_char-Safe (answers 0) app value w)

  handle_terminal_event-Safe :
      (answers : ℕ → Answers) (height columns : ℕ) (app : ChatApp) (event : TerminalEvent)
      → WellFormed app
      → SafeHandled (handle_terminal_event width answers height columns app event)
  unfolding handle_terminal_event
  handle_terminal_event-Safe answers height columns app (TerminalEvent.key event) w =
      either_branch SafeHandled event.released _ _ w
        (handle_key-Safe (answers 0) app height columns event.modifiers event.code w)
  handle_terminal_event-Safe answers height columns app (TerminalEvent.paste text) w =
      handle_paste-Safe answers app text w
  handle_terminal_event-Safe answers height columns app TerminalEvent.other w = w

  next_turn :
      (turns : List TerminalTurn) (o : Option Handled)
      → ((app : ChatApp) → WellFormed app → SafeHandled (handle_terminal_events width app turns))
      → SafeHandled o
      → SafeHandled (elim o [
        | none ↦ none
        | some (app', failed error) ↦ some (app', failed error)
        | some (app', done u) ↦ handle_terminal_events width app' turns
      ])
  next_turn turns none rest h = h
  next_turn turns (some (app, failed error)) rest h = h
  next_turn turns (some (app, done u)) rest h = rest app h

  handle_terminal_events-WellFormed :
      (app : ChatApp) (turns : List TerminalTurn)
      → WellFormed app
      → SafeHandled (handle_terminal_events width app turns)
  unfolding handle_terminal_events
  handle_terminal_events-WellFormed app [] w = w
  handle_terminal_events-WellFormed app ((event, (answers, (height, columns))) ∷ turns) w =
      next_turn turns (handle_terminal_event width answers height columns app event)
        (λ app' w'. handle_terminal_events-WellFormed app' turns w')
        (handle_terminal_event-Safe answers height columns app event w)

-- From a new chat, no keys, pastes and other terminal events, with whatever answers of the server
-- and sizes of the viewport, make the chat panic: where the events end, or one ends the chat with
-- an error, the cursor is on a boundary of characters of the input, a menu that is shown has the
-- candidate that is selected, the place in the history exists, and there are at most 32 status
-- lines.
pub handle_terminal_events-Safe :
    (width : Text → ℕ) (session_id server_url : Text) (resumed : Bool)
    (messages : List ConversationMessage) (pending : List PermissionRequest)
    (catalog : List CompletionCandidate) (turns : List TerminalTurn)
    → SafeHandled (
        handle_terminal_events width
          (new session_id server_url resumed messages pending catalog)
          turns)
handle_terminal_events-Safe width session_id server_url resumed messages pending catalog turns =
    handle_terminal_events-WellFormed width _ turns
      (new-WellFormed session_id server_url resumed messages pending catalog)
