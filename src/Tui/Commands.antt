-- ===== src/Tui/Commands.antt =====
-- The slash commands that the terminal chat runs: crates/acp-cli/src/repl_commands.rs. The answers of
-- the server are an argument.
use acp_orchestrator.Common.{
  Bool, true, false, Text, codes, List, [], ◌∷◌, ◌++◌, Option, none, some, filter, split_whitespace,
  if◌then◌else◌,
}
use acp_orchestrator.Common.Attempt.{Attempt, done, failed}
use acp_orchestrator.Contracts.Permissions.{PermissionDecision, ResolvePermissionResponse}
use acp_orchestrator.Slash.Types.{
  CompletionCandidate, CompletionKind, SlashCommand, SlashCommandSpec,
}
use acp_orchestrator.Slash.Parse.{parse_slash_command, spec}
use acp_orchestrator.Tui.Input.{ReplCommandNotice, PendingPermissionsUpdate, ReplCommandOutcome}

-- What the server answers to a command.
pub record Api : Type 0 where
  pub get_slash_completions : Text → Attempt Text (List CompletionCandidate)
  pub cancel_turn : Attempt Text Bool
  pub resolve_permission : Text → PermissionDecision → Attempt Text ResolvePermissionResponse

abbrev pub outcome : List ReplCommandNotice → PendingPermissionsUpdate → Bool → ReplCommandOutcome
outcome notices update should_quit = record {
  notices = notices;
  pending_permissions_update = update;
  should_quit = should_quit;
}

-- `ReplCommandOutcome::status`, `help` and `quit`
abbrev pub status_outcome : Text → ReplCommandOutcome
status_outcome message =
    outcome (ReplCommandNotice.status message ∷ []) PendingPermissionsUpdate.nothing false

abbrev pub help_outcome : List CompletionCandidate → ReplCommandOutcome
help_outcome catalog =
    outcome (ReplCommandNotice.help catalog ∷ []) PendingPermissionsUpdate.nothing false

abbrev pub quit_outcome : ReplCommandOutcome
quit_outcome = outcome [] PendingPermissionsUpdate.nothing true

abbrev pub is_command : CompletionKind → Bool
is_command CompletionKind.command = true
is_command _ = false

abbrev pub commands_of :
    Attempt Text (List CompletionCandidate) → Attempt Text (List CompletionCandidate)
commands_of (failed error) = failed error
commands_of (done candidates) = done (filter (λ c. is_command c.kind) candidates)

unfoldable pub load_command_catalog : Api → Attempt Text (List CompletionCandidate)
load_command_catalog api = commands_of (api.get_slash_completions (codes "/"))

abbrev pub catalog_outcome : Attempt Text (List CompletionCandidate) → ReplCommandOutcome
catalog_outcome (failed error) = status_outcome error
catalog_outcome (done []) = status_outcome (codes "no slash commands available")
catalog_outcome (done (c ∷ cs)) = help_outcome (c ∷ cs)

unfoldable pub load_help_catalog : Api → ReplCommandOutcome
unfolding load_command_catalog
load_help_catalog api = catalog_outcome (load_command_catalog api)

-- Every command has a spec, `Slash.Agreement.parse-spec`.
abbrev pub label_of : Option SlashCommandSpec → Text
label_of none = []
label_of (some s) = s.label

abbrev pub usage : SlashCommand → ReplCommandOutcome
usage command = status_outcome (codes "usage: " ++ label_of (spec command))

abbrev pub cancel_outcome : Attempt Text Bool → ReplCommandOutcome
cancel_outcome (failed error) = status_outcome error
cancel_outcome (done cancelled) =
    if cancelled
    then outcome (ReplCommandNotice.status (codes "cancel requested for the running turn") ∷ [])
        PendingPermissionsUpdate.refresh false
    else status_outcome (codes "no running turn to cancel")

unfoldable pub handle_cancel_command : Api → List Text → ReplCommandOutcome
handle_cancel_command api [] = cancel_outcome api.cancel_turn
handle_cancel_command api (arg ∷ args) = usage SlashCommand.cancel

abbrev pub permission_decision_label : PermissionDecision → Text
permission_decision_label PermissionDecision.approve = codes "approved"
permission_decision_label PermissionDecision.deny = codes "denied"

abbrev pub permission_decision : SlashCommand → PermissionDecision
permission_decision SlashCommand.approve = PermissionDecision.approve
permission_decision _ = PermissionDecision.deny

abbrev pub resolved_outcome : Attempt Text ResolvePermissionResponse → ReplCommandOutcome
resolved_outcome (failed error) = status_outcome error
resolved_outcome (done response) =
    outcome
      (ReplCommandNotice.status (
          codes "permission "
          ++ (response.request_id ++ (codes " " ++ permission_decision_label response.decision)))
        ∷ [])
      (PendingPermissionsUpdate.remove response.request_id) false

unfoldable pub handle_permission_command : Api → SlashCommand → List Text → ReplCommandOutcome
handle_permission_command api command [] = usage command
handle_permission_command api command (request_id ∷ []) =
    resolved_outcome (api.resolve_permission request_id (permission_decision command))
handle_permission_command api command (request_id ∷ arg ∷ args) = usage command

unfoldable pub run_command : Api → Option SlashCommand → List Text → ReplCommandOutcome
unfolding load_help_catalog handle_cancel_command handle_permission_command
run_command api none args = status_outcome (codes "unknown command. Use `/help`.")
run_command api (some SlashCommand.help) args = load_help_catalog api
run_command api (some SlashCommand.quit) args = quit_outcome
run_command api (some SlashCommand.cancel) args = handle_cancel_command api args
run_command api (some SlashCommand.approve) args =
    handle_permission_command api SlashCommand.approve args
run_command api (some SlashCommand.deny) args = handle_permission_command api SlashCommand.deny args

abbrev pub words_command : Api → List Text → ReplCommandOutcome
words_command api [] = run_command api (parse_slash_command []) []
words_command api (name ∷ args) = run_command api (parse_slash_command name) args

-- `execute_repl_command`, which answers every command
unfoldable pub execute_repl_command : Api → Text → Attempt Text ReplCommandOutcome
unfolding run_command split_whitespace parse_slash_command
execute_repl_command api command = done (words_command api (split_whitespace command))
