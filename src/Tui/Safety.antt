-- ===== src/Tui/Safety.antt =====
-- No method of `ChatApp` in crates/acp-cli/src/tui/app.rs panics.
use acp_orchestrator.Common.{
  trim, any, ◌==◌, text_eq, ℕ, zero, suc, ◌+◌, ◌-◌, ◌<◌, ◌≡◌, refl, ap, Text, List, [], ◌∷◌, ◌++◌,
  Option, none, some, arith, length, length-drop, inl, inr, Bool-cases, is_empty, ltb, ltb→lt,
  is_some, get_elem?, true, false, Bool, if◌then◌else◌,
}
use acp_orchestrator.Contracts.Permissions.{PermissionRequest}
use acp_orchestrator.Slash.Types.{CompletionCandidate}
use acp_orchestrator.Tui.Types.{ChatApp, ConnectionState, StreamUpdate}
use acp_orchestrator.Tui.Editing.{
  replace_input, clear_input, clear_completion_menu, show_completion_menu, reset_history_navigation,
}
use acp_orchestrator.Tui.History.{
  show_entry, recall, recall_before, recall_after, recall_previous_input, recall_next_input,
  record_submitted_input, is_new,
}
use acp_orchestrator.Tui.Transcript.{
  push_status, append_message, apply_stream_update, set_connection_lost, max_status_entries,
  remove_pending_permission, set_command_catalog, replace_pending_permissions, request_quit,
  resume_follow,
}
use acp_orchestrator.Tui.Scroll.{scroll_up, scroll_down}
use acp_orchestrator.Tui.Boundary.{whole}
use acp_orchestrator.Tui.WellFormed.{WellFormed, InHistory, Safe}
use acp_orchestrator.Tui.EditingSafety.{
  insert_char-Safe, backspace-Safe, move_cursor_left-Safe, move_cursor_right-Safe, select_next-Safe,
  select_previous-WellFormed, apply_selected-Safe,
}
use acp_orchestrator.Tui.Actions.{
  Action, act, inserts, erases, moves_left, moves_right, clears, hides_menu, selects_next,
  selects_previous, applies, shows_menu, submits, recalls_previous, recalls_next, quits, follows,
  updates, loses, notes, settles, catalogs, replaces, scrolls_up, scrolls_down,
}

in_range : {A : Type 0} (xs : List A) (i : ℕ) → i < length xs → (a : A) × (get_elem? xs i ≡ some a)
in_range [] i h = absurd (omega arith)
in_range (x ∷ xs) zero h = (x, refl)
in_range (x ∷ xs) (suc i) h = in_range xs i (omega arith)

pub either :
    {x y : ChatApp} (b : Bool) → WellFormed x → WellFormed y → WellFormed (if b then x else y)
either true wx wy = wx
either false wx wy = wy

filled-lt : {A : Type 0} (xs : List A) → is_empty xs ≡ false → length xs - 1 < length xs
filled-lt [] e = cc
filled-lt (x ∷ xs) e = omega arith

module _ (app : ChatApp) (w : WellFormed app) where
  pub pushed : (message : Text) → WellFormed (push_status app message)
  unfolding push_status
  pushed message = record {
    cursor = w.cursor;
    menu = w.menu;
    history = w.history;
    status = omega (
      arith,
      length-drop (length (app.status_entries ++ message ∷ []) - max_status_entries)
          (app.status_entries ++ message ∷ []),
    );
  }

  show_entry-Safe :
      (index : ℕ) (o : Option Text)
      → index < length app.input_history
      → is_some o ≡ true
      → Safe (show_entry app index o)
  unfolding show_entry replace_input
  show_entry-Safe index none h e = cc
  show_entry-Safe index (some value) h e = record {
    cursor = whole value;
    menu = tt;
    history = h;
    status = w.status;
  }

  recall-Safe : (index : ℕ) → index < length app.input_history → Safe (recall app index)
  unfolding recall
  recall-Safe index h =
      show_entry-Safe index _ h (ap is_some (in_range app.input_history index h).1)

  recall_after-Safe : (o : Option ℕ) → InHistory o app.input_history → Safe (recall_after app o)
  unfolding recall_after replace_input
  recall_after-Safe none h = w
  recall_after-Safe (some index) h =
      elim (Bool-cases (ltb (index + 1) (length app.input_history))) [
        | inl more ↦ rw more (recall-Safe (index + 1) (ltb→lt _ _ more))
        | inr last ↦
            rw last (record { cursor = whole _; menu = tt; history = tt; status = w.status })
      ]

recall_before-Safe :
    (app : ChatApp) (w : WellFormed app) (o : Option ℕ)
    → is_empty app.input_history ≡ false
    → InHistory o app.input_history
    → Safe (recall_before app o)
unfolding recall_before
recall_before-Safe app w none filled h =
    recall-Safe (record app { history_draft = some app.input })
      (record { cursor = w.cursor; menu = w.menu; history = w.history; status = w.status })
      (length app.input_history - 1) (filled-lt app.input_history filled)
recall_before-Safe app w (some index) filled h = recall-Safe app w (index - 1) (omega arith)

module _ (app : ChatApp) (w : WellFormed app) where
  submitted : (value : Text) → WellFormed (record_submitted_input app value)
  unfolding record_submitted_input reset_history_navigation
  submitted value = elim (Bool-cases (is_empty (trim value))) [
    | inl blank ↦ rw blank w
    | inr filled ↦ elim (Bool-cases (is_new (trim value) app.input_history)) [
      | inl fresh ↦
          rw (filled, fresh)
            (record { cursor = w.cursor; menu = w.menu; history = tt; status = w.status })
      | inr old ↦
          rw (filled, old)
            (record { cursor = w.cursor; menu = w.menu; history = tt; status = w.status })
    ]
  ]

  shown : (candidates : List CompletionCandidate) → WellFormed (show_completion_menu app candidates)
  unfolding show_completion_menu
  shown [] = record { cursor = w.cursor; menu = tt; history = w.history; status = w.status }
  shown (c ∷ cs) = record {
    cursor = w.cursor;
    menu = omega arith;
    history = w.history;
    status = w.status;
  }

  recall_previous-Safe : Safe (recall_previous_input app)
  unfolding recall_previous_input
  recall_previous-Safe = elim (Bool-cases (is_empty app.input_history)) [
    | inl nothing ↦ rw nothing w
    | inr filled ↦ rw filled (recall_before-Safe app w app.history_index filled w.history)
  ]

  updated : (update : StreamUpdate) → WellFormed (apply_stream_update app update)
  unfolding apply_stream_update append_message
  updated (StreamUpdate.conversation_message message) = record {
    cursor = w.cursor;
    menu = w.menu;
    history = w.history;
    status = w.status;
  }
  updated (StreamUpdate.permission_requested request) =
      elim (Bool-cases (
        any (λ (p : PermissionRequest). p.request_id == request.request_id)
          app.pending_permissions)) [
            | inl known ↦ rw known w
            | inr fresh ↦ rw fresh (record {
              cursor = w.cursor;
              menu = w.menu;
              history = w.history;
              status = w.status;
            })
          ]
  updated (StreamUpdate.session_closed session_id reason) =
      pushed (record app { connection = ConnectionState.closed reason })
        (record { cursor = w.cursor; menu = w.menu; history = w.history; status = w.status }) _
  updated (StreamUpdate.status message) = pushed app w message

  recall_next-Safe : Safe (recall_next_input app)
  unfolding recall_next_input
  recall_next-Safe = recall_after-Safe app w app.history_index w.history

  moved :
      (follow : Bool) (scroll : ℕ)
      → WellFormed (record app { follow_transcript = follow; transcript_scroll = scroll })
  moved follow scroll = record {
    cursor = w.cursor;
    menu = w.menu;
    history = w.history;
    status = w.status;
  }

  scrolled_up :
      (width : Text → ℕ) (height viewport amount : ℕ)
      → WellFormed (scroll_up width app height viewport amount)
  unfolding scroll_up
  scrolled_up width height viewport amount = either _ (moved _ _) (moved _ _)

  scrolled_down :
      (width : Text → ℕ) (height viewport amount : ℕ)
      → WellFormed (scroll_down width app height viewport amount)
  unfolding scroll_down
  scrolled_down width height viewport amount =
      either _ (moved _ _) (either app.follow_transcript w (moved _ _))

  cleared : WellFormed (clear_input app)
  unfolding clear_input reset_history_navigation replace_input
  cleared = record { cursor = whole []; menu = tt; history = tt; status = w.status }

  hidden : WellFormed (clear_completion_menu app)
  unfolding clear_completion_menu
  hidden = record { cursor = w.cursor; menu = tt; history = w.history; status = w.status }

  lost : (message : Text) → WellFormed (set_connection_lost app message)
  unfolding set_connection_lost
  lost message =
      pushed (record app { connection = ConnectionState.disconnected message })
        (record { cursor = w.cursor; menu = w.menu; history = w.history; status = w.status })
        message

-- An action on a well-formed application does not panic, and leaves it well formed.
pub act-Safe :
    (width : Text → ℕ) (app : ChatApp) (a : Action) → WellFormed app → Safe (act width app a)
unfolding act request_quit resume_follow remove_pending_permission set_command_catalog
    replace_pending_permissions
act-Safe width app (inserts c) w = insert_char-Safe app w c
act-Safe width app erases w = backspace-Safe app w
act-Safe width app moves_left w = move_cursor_left-Safe app w
act-Safe width app moves_right w = move_cursor_right-Safe app w
act-Safe width app clears w = cleared app w
act-Safe width app hides_menu w = hidden app w
act-Safe width app selects_next w = select_next-Safe app w
act-Safe width app selects_previous w = select_previous-WellFormed app w
act-Safe width app applies w = apply_selected-Safe app w
act-Safe width app (shows_menu candidates) w = shown app w candidates
act-Safe width app (submits value) w = submitted app w value
act-Safe width app recalls_previous w = recall_previous-Safe app w
act-Safe width app recalls_next w = recall_next-Safe app w
act-Safe width app (updates update) w = updated app w update
act-Safe width app (loses message) w = lost app w message
act-Safe width app (notes message) w = pushed app w message
act-Safe width app (scrolls_up h v amount) w = scrolled_up app w width h v amount
act-Safe width app (scrolls_down h v amount) w = scrolled_down app w width h v amount
act-Safe width app quits w = record {
  cursor = w.cursor;
  menu = w.menu;
  history = w.history;
  status = w.status;
}
act-Safe width app follows w = record {
  cursor = w.cursor;
  menu = w.menu;
  history = w.history;
  status = w.status;
}
act-Safe width app (settles request_id) w = record {
  cursor = w.cursor;
  menu = w.menu;
  history = w.history;
  status = w.status;
}
act-Safe width app (catalogs catalog) w = record {
  cursor = w.cursor;
  menu = w.menu;
  history = w.history;
  status = w.status;
}
act-Safe width app (replaces pending) w = record {
  cursor = w.cursor;
  menu = w.menu;
  history = w.history;
  status = w.status;
}
