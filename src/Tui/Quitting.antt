-- ===== src/Tui/Quitting.antt =====
-- Which commands end the terminal chat: crates/acp-cli/src/repl_commands.rs and
-- crates/acp-cli/src/tui/input.rs.
use acp_orchestrator.Common.{
  ◌≡◌, refl, ap, Bool, true, false, Text, List, [], ◌∷◌, Option, none, some, split_whitespace,
}
use acp_orchestrator.Common.Attempt.{Attempt, done, failed}
use acp_orchestrator.Contracts.Permissions.{ResolvePermissionResponse}
use acp_orchestrator.Slash.Types.{CompletionCandidate, SlashCommand}
use acp_orchestrator.Slash.Parse.{parse_slash_command}
use acp_orchestrator.Tui.Input.{ReplCommandOutcome}
use acp_orchestrator.Tui.Commands.{
  Api, permission_decision, cancel_outcome, catalog_outcome, resolved_outcome, load_help_catalog,
  handle_cancel_command, handle_permission_command, load_command_catalog, run_command,
  words_command, execute_repl_command,
}

-- Whether an answer ends the chat; an error is none.
abbrev pub quits : Attempt Text ReplCommandOutcome → Option Bool
quits (failed error) = none
quits (done outcome) = some outcome.should_quit

abbrev pub first_word : List Text → Text
first_word [] = []
first_word (w ∷ ws) = w

abbrev pub is_quit : Option SlashCommand → Bool
is_quit (some SlashCommand.quit) = true
is_quit _ = false

cancel_outcome_stays : (r : Attempt Text Bool) → (cancel_outcome r).should_quit ≡ false
cancel_outcome_stays (failed error) = refl
cancel_outcome_stays (done true) = refl
cancel_outcome_stays (done false) = refl

catalog_outcome_stays :
    (r : Attempt Text (List CompletionCandidate)) → (catalog_outcome r).should_quit ≡ false
catalog_outcome_stays (failed error) = refl
catalog_outcome_stays (done []) = refl
catalog_outcome_stays (done (c ∷ cs)) = refl

resolved_outcome_stays :
    (r : Attempt Text ResolvePermissionResponse) → (resolved_outcome r).should_quit ≡ false
resolved_outcome_stays (failed error) = refl
resolved_outcome_stays (done response) = refl

handle_permission_command_stays :
    (api : Api) (c : SlashCommand) (args : List Text)
    → (handle_permission_command api c args).should_quit ≡ false
unfolding handle_permission_command
handle_permission_command_stays api c [] = refl
handle_permission_command_stays api c (request_id ∷ []) =
    resolved_outcome_stays (api.resolve_permission request_id (permission_decision c))
handle_permission_command_stays api c (request_id ∷ arg ∷ args) = refl

handle_cancel_command_stays :
    (api : Api) (args : List Text) → (handle_cancel_command api args).should_quit ≡ false
unfolding handle_cancel_command
handle_cancel_command_stays api [] = cancel_outcome_stays api.cancel_turn
handle_cancel_command_stays api (arg ∷ args) = refl

run_command-quits :
    (api : Api) (c : Option SlashCommand) (args : List Text)
    → (run_command api c args).should_quit ≡ is_quit c
unfolding run_command load_help_catalog
run_command-quits api none args = refl
run_command-quits api (some SlashCommand.help) args =
    catalog_outcome_stays (load_command_catalog api)
run_command-quits api (some SlashCommand.quit) args = refl
run_command-quits api (some SlashCommand.cancel) args = handle_cancel_command_stays api args
run_command-quits api (some SlashCommand.approve) args =
    handle_permission_command_stays api SlashCommand.approve args
run_command-quits api (some SlashCommand.deny) args =
    handle_permission_command_stays api SlashCommand.deny args

words_command-quits :
    (api : Api) (words : List Text)
    → (words_command api words).should_quit ≡ is_quit (parse_slash_command (first_word words))
words_command-quits api [] = run_command-quits api (parse_slash_command []) []
words_command-quits api (name ∷ args) = run_command-quits api (parse_slash_command name) args

-- A slash command is never answered with an error, and its answer ends the chat exactly if the
-- first word of the line is the quit command, whatever the server answers.
pub execute_repl_command-quits :
    (api : Api) (line : Text)
    → quits (execute_repl_command api line)
      ≡ some (is_quit (parse_slash_command (first_word (split_whitespace line))))
unfolding execute_repl_command
execute_repl_command-quits api line = ap some (words_command-quits api (split_whitespace line))
