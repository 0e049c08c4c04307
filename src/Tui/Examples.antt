-- ===== src/Tui/Examples.antt =====
-- The theorems on the terminal chat at a run that types, completes and recalls.
use acp_orchestrator.Common.{◌≡◌, false, split_whitespace, true, codes, List, [], ◌∷◌, some, length}
use acp_orchestrator.Slash.Types.{CompletionCandidate, CompletionKind}
use acp_orchestrator.Tui.Transcript.{new}
use acp_orchestrator.Tui.WellFormed.{Safe}
use acp_orchestrator.Tui.Actions.{
  Action, inserts, erases, moves_left, submits, recalls_previous, shows_menu, selects_next, applies,
}
use acp_orchestrator.Tui.Runs.{then_act, run-Safe}
use acp_orchestrator.Common.Attempt.{done, failed}
use acp_orchestrator.Slash.Parse.{parse_slash_command}
use acp_orchestrator.Tui.Input.{
  Answers, CompletionAnswer, KeyCode, TerminalEvent, TerminalTurn, handle_terminal_events,
}
use acp_orchestrator.Tui.AnswerSafety.{SafeHandled}
use acp_orchestrator.Tui.InputSafety.{handle_terminal_events-Safe}
use acp_orchestrator.Tui.Commands.{Api, execute_repl_command}
use acp_orchestrator.Tui.Quitting.{quits, is_quit, first_word, execute_repl_command-quits}

abbrev candidate : CompletionCandidate
candidate = record {
  label = codes "/help";
  insert_text = codes "/help";
  detail = codes "Show available slash commands";
  kind = CompletionKind.command;
}

-- `é` takes two bytes.
abbrev typed : List Action
typed =
    inserts 0xe9
    ∷ inserts b'/'
    ∷ moves_left
    ∷ erases
    ∷ shows_menu (candidate ∷ candidate ∷ [])
    ∷ selects_next
    ∷ applies
    ∷ submits (codes "/help")
    ∷ recalls_previous
    ∷ []

run-Safe_example :
    Safe
      (then_act length (some (new (codes "s_1") (codes "url") true [] [] (candidate ∷ []))) typed)
run-Safe_example = run-Safe length (codes "s_1") (codes "url") true [] [] (candidate ∷ []) typed

-- The server has no answer but an error.
abbrev offline : Answers
offline = record {
  slash_completions = λ prefix. CompletionAnswer.timed_out;
  command = λ line. failed (codes "offline");
  submit_prompt = λ line. failed (codes "offline");
  session = failed (codes "offline");
}

abbrev plain_key : KeyCode → TerminalTurn
plain_key code = (
  TerminalEvent.key (record {
    code = code;
    modifiers = record { control = false; shift = false; others = false };
    released = false;
  }),
  (λ n. offline, (24, 80)),
)

abbrev turns : List TerminalTurn
turns =
    plain_key (KeyCode.char 0xe9)
    ∷ plain_key KeyCode.left
    ∷ plain_key KeyCode.tab
    ∷ (TerminalEvent.paste (codes "/a\nb"), (λ n. offline, (24, 80)))
    ∷ plain_key KeyCode.enter
    ∷ []

handle_terminal_events-Safe_example : SafeHandled (
    handle_terminal_events length
      (new (codes "s_1") (codes "url") true [] [] (candidate ∷ []))
      turns)
handle_terminal_events-Safe_example =
    handle_terminal_events-Safe length (codes "s_1") (codes "url") true [] [] (candidate ∷ []) turns

abbrev api : Api
api = record {
  get_slash_completions = λ prefix. done (candidate ∷ []);
  cancel_turn = done true;
  resolve_permission = λ request_id decision. failed (codes "gone");
}

execute_repl_command-quits_example :
    quits (execute_repl_command api (codes " /quit now"))
    ≡ some (is_quit (parse_slash_command (first_word (split_whitespace (codes " /quit now")))))
execute_repl_command-quits_example = execute_repl_command-quits api (codes " /quit now")
