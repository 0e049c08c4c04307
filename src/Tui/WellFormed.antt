-- ===== src/Tui/WellFormed.antt =====
-- What stays true of the terminal chat of crates/acp-cli/src/tui/app.rs, so that nothing panics.
use acp_orchestrator.Common.{ℕ, ◌≤◌, ◌<◌, Text, List, Option, none, some, length}
use acp_orchestrator.Tui.Types.{ChatApp, CompletionMenu}
use acp_orchestrator.Tui.Boundary.{Boundary}
use acp_orchestrator.Tui.Transcript.{max_status_entries}

-- A menu that is shown has the selected candidate.
abbrev pub InMenu : Option CompletionMenu → Type 0
InMenu none = Unit
InMenu (some menu) = menu.selected < length menu.candidates

-- An index into the history is below its length.
abbrev pub InHistory : Option ℕ → List Text → Type 0
InHistory none history = Unit
InHistory (some index) history = index < length history

pub record WellFormed (app : ChatApp) : Type 0 where
  pub cursor : Boundary app.input app.cursor
  pub menu : InMenu app.completion_menu
  pub history : InHistory app.history_index app.input_history
  pub status : length app.status_entries ≤ max_status_entries

-- A call that does not panic, and keeps the application well formed.
abbrev pub Safe : Option ChatApp → Type 0
Safe none = ⊥
Safe (some app) = WellFormed app
