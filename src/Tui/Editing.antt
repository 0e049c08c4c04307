-- ===== src/Tui/Editing.antt =====
-- The input line of crates/acp-cli/src/tui/app.rs: the cursor, the completion menu and the
-- history. Where a method can panic, the result is an `Option`, and `none` is the panic.
use acp_orchestrator.Common.{
  ℕ, ◌+◌, Text, List, [], ◌∷◌, ◌++◌, Option, none, some, is_empty, leb, if◌then◌else◌, ◌==◌, nat_eq,
  text_eq,
}
use acp_orchestrator.Slash.Types.{CompletionCandidate}
use acp_orchestrator.Tui.Types.{CompletionMenu, ChatApp, select_next, select_previous, current}
use acp_orchestrator.Tui.Utf8.{len_utf8, len, split_bytes, without_last, last_index, rsplit_once}

-- `clear_completion_menu`
unfoldable pub clear_completion_menu : ChatApp → ChatApp
clear_completion_menu app = record app { completion_menu = none }

-- `replace_input`
unfoldable pub replace_input : ChatApp → Text → ChatApp
unfolding clear_completion_menu
replace_input app value = clear_completion_menu (record app { input = value; cursor = len value })

-- `reset_history_navigation`
unfoldable pub reset_history_navigation : ChatApp → ChatApp
reset_history_navigation app = record app { history_index = none; history_draft = none }

-- What follows `&self.input[..self.cursor]`.
unfoldable pub at_cursor : ChatApp → (Text → Text → Option ChatApp) → Option ChatApp
at_cursor app k = elim (split_bytes app.cursor app.input) [
  | none ↦ none
  | some (before, after) ↦ k before after
]

-- `insert_char`
unfoldable pub insert_char : ChatApp → ℕ → Option ChatApp
unfolding at_cursor reset_history_navigation clear_completion_menu
insert_char app value =
    let reset = reset_history_navigation app in
    at_cursor reset (λ before after. some (
      clear_completion_menu
        (record reset { input = before ++ value ∷ after; cursor = app.cursor + len_utf8 value })))

-- `backspace`
unfoldable pub backspace : ChatApp → Option ChatApp
unfolding at_cursor reset_history_navigation clear_completion_menu last_index
backspace app =
    if app.cursor == 0
    then some app
    else at_cursor app (λ before after. some (
        clear_completion_menu (record (reset_history_navigation app) {
          input = without_last before ++ after;
          cursor = last_index before;
        })))

-- `move_cursor_left`
unfoldable pub move_cursor_left : ChatApp → Option ChatApp
unfolding at_cursor last_index
move_cursor_left app =
    if app.cursor == 0
    then some app
    else at_cursor app (λ before after. some (record app { cursor = last_index before }))

-- The offset of the second character behind the cursor, or the end.
unfoldable pub next_index : ℕ → Text → ℕ → ℕ
next_index cursor (c ∷ d ∷ s) end = cursor + len_utf8 c
next_index cursor _ end = end

-- `move_cursor_right`
unfoldable pub move_cursor_right : ChatApp → Option ChatApp
unfolding at_cursor next_index
move_cursor_right app =
    if leb (len app.input) app.cursor
    then some app
    else at_cursor app
        (λ before after. some (record app { cursor = next_index app.cursor after (len app.input) }))

-- `clear_input`
unfoldable pub clear_input : ChatApp → ChatApp
unfolding replace_input reset_history_navigation
clear_input app = replace_input (reset_history_navigation app) []

-- `show_completion_menu`
unfoldable pub show_completion_menu : ChatApp → List CompletionCandidate → ChatApp
show_completion_menu app candidates = record app {
  completion_menu =
      if is_empty candidates then none else some (record { candidates = candidates; selected = 0 });
}

unfoldable pub with_menu : ChatApp → Option CompletionMenu → Option ChatApp
with_menu app none = none
with_menu app (some menu) = some (record app { completion_menu = some menu })

-- `select_next_completion`, on the menu that is shown
unfoldable pub select_next_in : ChatApp → Option CompletionMenu → Option ChatApp
unfolding with_menu
select_next_in app none = some app
select_next_in app (some menu) = with_menu app (select_next menu)

-- `select_next_completion`
unfoldable pub select_next_completion : ChatApp → Option ChatApp
unfolding select_next_in
select_next_completion app = select_next_in app app.completion_menu

-- `select_previous_completion`, on the menu that is shown
unfoldable pub select_previous_in : ChatApp → Option CompletionMenu → ChatApp
unfolding select_previous
select_previous_in app none = app
select_previous_in app (some menu) = record app { completion_menu = some (select_previous menu) }

-- `select_previous_completion`
unfoldable pub select_previous_completion : ChatApp → ChatApp
unfolding select_previous_in
select_previous_completion app = select_previous_in app app.completion_menu

abbrev pub start_after : Option (Text × Text) → ℕ
start_after none = 0
start_after (some (before, after)) = len before + 1

-- `completion_start`
unfoldable pub completion_start : Text → ℕ
completion_start prefix = start_after (rsplit_once b' ' prefix)

-- The end of `apply_selected_completion`, with the text in front of the replaced range.
unfoldable pub replace_after : ChatApp → ℕ → Text → Text → Option (Text × Text) → Option ChatApp
unfolding reset_history_navigation clear_completion_menu
replace_after app start insert_text after none = none
replace_after app start insert_text after (some (kept, replaced)) = some (
    clear_completion_menu (record (reset_history_navigation app) {
      input = kept ++ (insert_text ++ after);
      cursor = start + len insert_text;
    }))

-- `apply_selected_completion`, once there is a text to insert
unfoldable pub apply_completion : ChatApp → Text → Option ChatApp
unfolding replace_after
apply_completion app insert_text = at_cursor app (λ before after.
    let start = completion_start before in
    replace_after app start insert_text after (split_bytes start before))

unfoldable pub apply_candidate : ChatApp → Option CompletionCandidate → Option ChatApp
apply_candidate app none = some app
apply_candidate app (some candidate) = apply_completion app candidate.insert_text

-- `apply_selected_completion`, on the menu that is shown
unfoldable pub apply_in : ChatApp → Option CompletionMenu → Option ChatApp
unfolding apply_candidate
apply_in app none = some app
apply_in app (some menu) = apply_candidate app (current menu)

-- `apply_selected_completion`
unfoldable pub apply_selected_completion : ChatApp → Option ChatApp
unfolding apply_in
apply_selected_completion app = apply_in app app.completion_menu
