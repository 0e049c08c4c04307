-- ===== src/Tui/History.antt =====
-- The history of submitted inputs, in crates/acp-cli/src/tui/app.rs.
use acp_orchestrator.Common.{
  ℕ, ◌+◌, ◌-◌, Bool, true, false, Text, List, [], ◌∷◌, ◌++◌, Option, none, some, length, get_elem?,
  trim, is_empty, ltb, if◌then◌else◌, ◌==◌, text_eq,
}
use acp_orchestrator.Tui.Types.{ChatApp}
use acp_orchestrator.Tui.Editing.{replace_input, reset_history_navigation}

-- `self.input_history.last().is_none_or(|existing| existing != value)`
unfoldable pub is_new : Text → List Text → Bool
is_new value [] = true
is_new value (existing ∷ []) = if existing == value then false else true
is_new value (x ∷ y ∷ xs) = is_new value (y ∷ xs)

-- `record_submitted_input`
unfoldable pub record_submitted_input : ChatApp → Text → ChatApp
unfolding is_new reset_history_navigation
record_submitted_input app value =
    let trimmed = trim value in
    let recorded = record app { input_history = app.input_history ++ trimmed ∷ [] } in
    if is_empty trimmed
    then app
    else reset_history_navigation (if is_new trimmed app.input_history then recorded else app)

-- `self.replace_input(self.input_history[index].clone())`, where `none` is the panic
unfoldable pub show_entry : ChatApp → ℕ → Option Text → Option ChatApp
unfolding replace_input
show_entry app index none = none
show_entry app index (some value) =
    some (replace_input (record app { history_index = some index }) value)

unfoldable pub recall : ChatApp → ℕ → Option ChatApp
unfolding show_entry
recall app index = show_entry app index (get_elem? app.input_history index)

-- `recall_previous_input`, on the index where the history stands
unfoldable pub recall_before : ChatApp → Option ℕ → Option ChatApp
recall_before app none =
    recall (record app { history_draft = some app.input }) (length app.input_history - 1)
recall_before app (some index) = recall app (index - 1)

-- `recall_previous_input`
unfoldable pub recall_previous_input : ChatApp → Option ChatApp
unfolding recall_before
recall_previous_input app =
    if is_empty app.input_history then some app else recall_before app app.history_index

-- `unwrap_or_default`
abbrev pub draft_or_empty : Option Text → Text
draft_or_empty none = []
draft_or_empty (some draft) = draft

-- `recall_next_input`, on the index where the history stands
unfoldable pub recall_after : ChatApp → Option ℕ → Option ChatApp
unfolding replace_input
recall_after app none = some app
recall_after app (some index) =
    if ltb (index + 1) (length app.input_history)
    then recall app (index + 1)
    else some (
        replace_input (record app { history_index = none; history_draft = none })
          (draft_or_empty app.history_draft))

-- `recall_next_input`
unfoldable pub recall_next_input : ChatApp → Option ChatApp
unfolding recall_after
recall_next_input app = recall_after app app.history_index
