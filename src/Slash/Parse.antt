-- ===== src/Slash/Parse.antt =====
-- crates/acp-contracts-slash/src/lib.rs: reading slash commands and the prefixes of them.
use acp_orchestrator.Common.{
  ℕ, Bool, true, false, not, ◌||◌, Text, codes, [], ◌∷◌, Option, none, some, any, find, trim_start,
  starts_with, is_empty, is_whitespace, if◌then◌else◌, ◌==◌, nat_eq, text_eq,
}
use acp_orchestrator.Slash.Types.{
  SlashCommand, SlashCommandSpec, SlashCompletionQuery, slash_command_specs,
}

-- The derived equality of `SlashCommand`.
unfoldable pub same_command : SlashCommand → SlashCommand → Bool
same_command SlashCommand.help SlashCommand.help = true
same_command SlashCommand.quit SlashCommand.quit = true
same_command SlashCommand.cancel SlashCommand.cancel = true
same_command SlashCommand.approve SlashCommand.approve = true
same_command SlashCommand.deny SlashCommand.deny = true
same_command _ _ = false

-- `SlashCommand::spec`, where `none` is the panic of `expect`
unfoldable pub spec : SlashCommand → Option SlashCommandSpec
unfolding slash_command_specs same_command
spec c = find (λ (s : SlashCommandSpec). same_command s.command c) slash_command_specs

-- `takes_request_id`
unfoldable pub takes_request_id : SlashCommand → Bool
takes_request_id SlashCommand.approve = true
takes_request_id SlashCommand.deny = true
takes_request_id _ = false

abbrev command_of : Option SlashCommandSpec → Option SlashCommand
command_of none = none
command_of (some s) = some s.command

-- `parse_slash_command`
unfoldable pub parse_slash_command : Text → Option SlashCommand
unfolding slash_command_specs
parse_slash_command name =
    command_of (find (λ (s : SlashCommandSpec). s.name == name) slash_command_specs)

-- `str::split_once`, at a character
unfoldable pub split_once : ℕ → Text → Option (Text × Text)
split_once sep [] = none
split_once sep (c ∷ s) =
    let rest = split_once sep s in
    if c == sep
    then some ([], s)
    else elim rest [ none ↦ none | some (before, after) ↦ some (c ∷ before, after) ]

-- `classify_slash_completion_prefix`, where a space ends the command's name
unfoldable pub classify_argument : Option SlashCommand → Text → Option SlashCompletionQuery
classify_argument none argument = none
classify_argument (some c) argument =
    let argument_prefix = trim_start argument in
    if not (takes_request_id c) || any is_whitespace argument_prefix
    then none
    else some (SlashCompletionQuery.request_id c argument_prefix)

-- `classify_slash_completion_prefix`, where there is no space yet
unfoldable pub classify_name : Text → Option SlashCompletionQuery
classify_name normalized =
    if any (λ (s : SlashCommandSpec). starts_with s.name normalized) slash_command_specs
    then some (SlashCompletionQuery.commands normalized)
    else none

-- `classify_slash_completion_prefix`
unfoldable pub classify_slash_completion_prefix : Text → Option SlashCompletionQuery
unfolding classify_argument classify_name split_once trim_start parse_slash_command
classify_slash_completion_prefix prefix =
    let normalized = trim_start prefix in
    if is_empty normalized || not (starts_with normalized (codes "/"))
    then none
    else elim (split_once b' ' normalized) [
      | none ↦ classify_name normalized
      | some (name, argument) ↦ classify_argument (parse_slash_command name) argument
    ]
