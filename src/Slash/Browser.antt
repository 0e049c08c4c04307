-- ===== src/Slash/Browser.antt =====
-- crates/acp-web-frontend/src/slash.rs: slash commands in the browser, which knows only `/help`.
use acp_orchestrator.Common.{
  ℕ, zero, suc, ◌+◌, ◌%◌, Bool, true, false, not, Text, codes, List, [], ◌∷◌, ◌++◌, Option, none,
  some, filter, map, get_elem?, starts_with, split_whitespace, is_whitespace, if◌then◌else◌, ◌==◌,
  nat_eq, text_eq,
}
use acp_orchestrator.Slash.Types.{
  CompletionCandidate, SlashCommand, SlashCommandSpec, SlashCompletionQuery, slash_command_specs,
}
use acp_orchestrator.Slash.Parse.{spec, parse_slash_command, classify_slash_completion_prefix}
use acp_orchestrator.Slash.Resolve.{command_candidate}

pub data BrowserSlashAction : Type 0 where
  help : BrowserSlashAction

-- `Result<BrowserSlashAction, String>`
pub data Parsed : Type 0 where
  ok : BrowserSlashAction → Parsed
  err : Text → Parsed

-- `browser_supports_slash_command`
unfoldable pub browser_supports_slash_command : SlashCommand → Bool
browser_supports_slash_command SlashCommand.help = true
browser_supports_slash_command _ = false

-- `local_slash_candidates`, on the query of the draft
unfoldable pub local_candidates : Option SlashCompletionQuery → List CompletionCandidate
unfolding command_candidate browser_supports_slash_command
local_candidates (some (SlashCompletionQuery.commands prefix)) = map command_candidate (
    filter (λ (s : SlashCommandSpec). starts_with s.name prefix)
      (filter (λ (s : SlashCommandSpec). browser_supports_slash_command s.command)
        slash_command_specs))
local_candidates _ = []

-- `local_slash_candidates`
unfoldable pub local_slash_candidates : Text → List CompletionCandidate
unfolding local_candidates
local_slash_candidates draft = local_candidates (classify_slash_completion_prefix draft)

-- `local_browser_commands`
unfoldable pub local_browser_commands : List CompletionCandidate
unfolding command_candidate browser_supports_slash_command slash_command_specs
local_browser_commands = map command_candidate (
    filter (λ (s : SlashCommandSpec). browser_supports_slash_command s.command) slash_command_specs)

-- `browser_supports_slash_prefix`, on the query of the draft; `/help` has a spec, so nothing panics.
unfoldable pub supports_query : Option SlashCompletionQuery → Bool
unfolding spec browser_supports_slash_command
supports_query none = false
supports_query (some (SlashCompletionQuery.commands prefix)) = elim (spec SlashCommand.help) [
  | none ↦ false
  | some s ↦ starts_with s.name prefix
]
supports_query (some (SlashCompletionQuery.request_id c prefix)) = browser_supports_slash_command c

-- `slash_palette_is_visible`
unfoldable pub slash_palette_is_visible : Text → Bool
unfolding supports_query
slash_palette_is_visible draft = supports_query (classify_slash_completion_prefix draft)

-- The whitespace in front of a draft, `&draft[..leading_whitespace_len]`.
unfoldable pub leading_whitespace : Text → Text
leading_whitespace [] = []
leading_whitespace (c ∷ s) = if is_whitespace c then c ∷ leading_whitespace s else []

-- `&draft[..draft.rfind(' ')? + 1]`
unfoldable pub through_last_space : Text → Option Text
through_last_space [] = none
through_last_space (c ∷ s) = elim (through_last_space s) [
  | none ↦ if c == b' ' then some (c ∷ []) else none
  | some kept ↦ some (c ∷ kept)
]

-- `apply_slash_completion`, on the query of the draft
unfoldable pub apply_to_query :
    Text → CompletionCandidate → Option SlashCompletionQuery → Option Text
unfolding leading_whitespace through_last_space
apply_to_query draft candidate none = none
apply_to_query draft candidate (some (SlashCompletionQuery.commands prefix)) =
    some (leading_whitespace draft ++ candidate.insert_text)
apply_to_query draft candidate (some (SlashCompletionQuery.request_id c prefix)) =
    elim (through_last_space draft) [
      | none ↦ none
      | some kept ↦ some (kept ++ candidate.insert_text)
    ]

-- `apply_slash_completion`
unfoldable pub apply_slash_completion : Text → CompletionCandidate → Option Text
unfolding apply_to_query
apply_slash_completion draft candidate =
    apply_to_query draft candidate (classify_slash_completion_prefix draft)

-- `slash_palette_should_apply_selected`
unfoldable pub slash_palette_should_apply_selected : Text → List CompletionCandidate → ℕ → Bool
unfolding apply_slash_completion
slash_palette_should_apply_selected draft candidates selected_index =
    elim (get_elem? candidates selected_index) [
      | none ↦ false
      | some candidate ↦ elim (apply_slash_completion draft candidate) [
        | none ↦ false
        | some next_draft ↦ not (next_draft == draft)
      ]
    ]

-- `cycle_slash_selection`
unfoldable pub cycle_slash_selection : ℕ → ℕ → Bool → ℕ
cycle_slash_selection zero current_index forward = 0
cycle_slash_selection (suc n) current_index true = (current_index + 1) % suc n
cycle_slash_selection (suc n) zero false = n
cycle_slash_selection (suc n) (suc i) false = i

-- `unsupported_browser_slash_message`
unfoldable pub unsupported_browser_slash_message : SlashCommand → Text
unsupported_browser_slash_message SlashCommand.help = codes "Unknown slash command. Use `/help`."
unsupported_browser_slash_message SlashCommand.quit =
    codes "Use the session list to leave or delete chats in the web UI."
unsupported_browser_slash_message _ = codes "Use the on-screen action buttons in the web UI."

-- `ensure_no_extra_slash_args`, and the action where there are none
unfoldable pub without_args : SlashCommand → List Text → Parsed
unfolding spec
without_args c [] = Parsed.ok BrowserSlashAction.help
without_args c (arg ∷ args) = elim (spec c) [
  | none ↦ Parsed.err []
  | some s ↦ Parsed.err (codes "Usage: " ++ s.label)
]

unfoldable pub parsed_action : Option SlashCommand → List Text → Parsed
unfolding browser_supports_slash_command unsupported_browser_slash_message without_args
parsed_action none args = Parsed.err (codes "Unknown slash command. Use `/help`.")
parsed_action (some c) args =
    if browser_supports_slash_command c
    then without_args c args
    else Parsed.err (unsupported_browser_slash_message c)

unfoldable pub parse_parts : List Text → Parsed
unfolding parsed_action parse_slash_command
parse_parts [] = parsed_action (parse_slash_command []) []
parse_parts (name ∷ args) = parsed_action (parse_slash_command name) args

-- `parse_browser_slash_action`
unfoldable pub parse_browser_slash_action : Text → Parsed
unfolding parse_parts split_whitespace
parse_browser_slash_action input = parse_parts (split_whitespace input)
