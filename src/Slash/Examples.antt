-- ===== src/Slash/Examples.antt =====
-- The theorems on the slash commands at concrete commands, indices and drafts.
use acp_orchestrator.Common.{◌≡◌, ◌<◌, true, not, codes, some, is_empty, arith}
use acp_orchestrator.Slash.Types.{SlashCommand, SlashCommandSpec}
use acp_orchestrator.Slash.Parse.{spec, parse_slash_command}
use acp_orchestrator.Slash.Browser.{
  cycle_slash_selection, slash_palette_is_visible, local_slash_candidates,
}
use acp_orchestrator.Slash.Agreement.{parse-spec, cycle-InRange, visible-candidates}

parse-spec_example :
    (s : SlashCommandSpec) × (spec SlashCommand.deny ≡ some s)
    × (s.command ≡ SlashCommand.deny)
    × (parse_slash_command s.name ≡ some SlashCommand.deny)
parse-spec_example = parse-spec SlashCommand.deny

cycle-InRange_example :
    (cycle_slash_selection 3 2 true < 3)
    × (cycle_slash_selection 3 (cycle_slash_selection 3 2 true) (not true) ≡ 2)
cycle-InRange_example = cycle-InRange 3 2 true (omega arith)

visible-candidates_example :
    slash_palette_is_visible (codes "/he") ≡ not (is_empty (local_slash_candidates (codes "/he")))
visible-candidates_example = visible-candidates (codes "/he")
