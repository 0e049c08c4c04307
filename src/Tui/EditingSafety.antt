-- ===== src/Tui/EditingSafety.antt =====
-- The editing methods of crates/acp-cli/src/tui/app.rs keep the cursor on a boundary of characters.
use acp_orchestrator.Common.{
  ℕ, zero, suc, ◌+◌, ◌%◌, ◌<◌, ◌≡◌, refl, sym, ap, ◌∙◌, subst, Text, List, [], ◌∷◌, ◌++◌, Option,
  none, some, arith, length, inl, inr, Option-cases, Bool-cases, ◌==◌, nat_eq, leb, is_some, true,
}
use acp_orchestrator.Slash.Types.{CompletionCandidate}
use acp_orchestrator.Tui.Types.{ChatApp, CompletionMenu, select_next, select_previous, current}
use acp_orchestrator.Tui.Utf8.{len_utf8, len, without_last, last_index, rsplit_once}
use acp_orchestrator.Tui.Boundary.{
  Boundary, len-append, append_assoc, split_bytes-append, split_bytes-Boundary, last_part, whole,
  rsplit_once-parts,
}
use acp_orchestrator.Tui.Editing.{
  at_cursor, insert_char, backspace, move_cursor_left, move_cursor_right, next_index, replace_input,
  select_next_completion, select_previous_completion, apply_selected_completion, apply_completion,
  completion_start, start_after, with_menu, select_next_in, select_previous_in, replace_after,
  apply_candidate, apply_in,
}
use acp_orchestrator.Tui.WellFormed.{WellFormed, InMenu, Safe}

next-InMenu :
    (cs : List CompletionCandidate) (i : ℕ)
    → i < length cs
    → (menu : CompletionMenu) × (select_next (record { candidates = cs; selected = i }) ≡ some menu)
      × InMenu (some menu)
unfolding select_next
next-InMenu [] i h = absurd (omega arith)
next-InMenu (c ∷ cs) i h =
    (record { candidates = c ∷ cs; selected = (i + 1) % suc (length cs) }, refl, omega arith)

previous-InMenu :
    (cs : List CompletionCandidate) (i : ℕ)
    → i < length cs
    → InMenu (some (select_previous (record { candidates = cs; selected = i })))
unfolding select_previous
previous-InMenu cs zero h = omega arith
previous-InMenu cs (suc i) h = omega arith

no_space : (s : Text) → rsplit_once b' ' s ≡ none → completion_start s ≡ len []
unfolding completion_start len
no_space s e = ap start_after e

behind_space :
    (s : Text) {x y : Text}
    → rsplit_once b' ' s ≡ some (x, y)
    → completion_start s ≡ len (x ++ b' ' ∷ [])
unfolding completion_start len len_utf8
behind_space s {x} e = ap start_after e ∙ omega (arith, len-append x (b' ' ∷ []))

module _ (app : ChatApp) (w : WellFormed app) where
  at_cursor-eq :
      (k : Text → Text → Option ChatApp) → at_cursor app k ≡ k w.cursor.before w.cursor.after
  unfolding at_cursor
  at_cursor-eq k = rw (split_bytes-Boundary app.input app.cursor w.cursor, at_cursor) refl

  -- Whatever follows the slice at the cursor is safe if it is at the boundary's parts.
  at_cursor-Safe :
      (k : Text → Text → Option ChatApp)
      → Safe (k w.cursor.before w.cursor.after)
      → Safe (at_cursor app k)
  at_cursor-Safe k safe = subst Safe (sym (at_cursor-eq k)) safe

  pub insert_char-Safe : (c : ℕ) → Safe (insert_char app c)
  unfolding insert_char len
  insert_char-Safe c = at_cursor-Safe _ (record {
    cursor = record {
      before = w.cursor.before ++ c ∷ [];
      after = w.cursor.after;
      parts = sym (append_assoc w.cursor.before (c ∷ []) w.cursor.after);
      offset = omega (arith, w.cursor.offset, len-append w.cursor.before (c ∷ []));
    };
    menu = tt;
    history = tt;
    status = w.status;
  })

  pub backspace-Safe : Safe (backspace app)
  unfolding backspace last_index
  backspace-Safe = elim (Bool-cases (app.cursor == 0)) [
    | inl start ↦ rw start w
    | inr later ↦ rw later (
        at_cursor-Safe _ (record {
          cursor = record {
            before = without_last w.cursor.before;
            after = w.cursor.after;
            parts = refl;
            offset = refl;
          };
          menu = tt;
          history = tt;
          status = w.status;
        }))
  ]

  pub move_cursor_left-Safe : Safe (move_cursor_left app)
  unfolding move_cursor_left last_index
  move_cursor_left-Safe =
      let (z, split) = last_part w.cursor.before in
      elim (Bool-cases (app.cursor == 0)) [
        | inl start ↦ rw start w
        | inr later ↦ rw later (
            at_cursor-Safe _ (record {
              cursor = record {
                before = without_last w.cursor.before;
                after = z ++ w.cursor.after;
                parts = w.cursor.parts ∙ ap (λ t. t ++ w.cursor.after) split ∙ append_assoc _ z _;
                offset = refl;
              };
              menu = w.menu;
              history = w.history;
              status = w.status;
            }))
      ]

  next-Boundary :
      (before after : Text)
      → app.input ≡ before ++ after
      → app.cursor ≡ len before
      → Boundary app.input (next_index app.cursor after (len app.input))
  unfolding next_index len
  next-Boundary before [] parts offset = whole app.input
  next-Boundary before (c ∷ []) parts offset = whole app.input
  next-Boundary before (c ∷ d ∷ s) parts offset = record {
    before = before ++ c ∷ [];
    after = d ∷ s;
    parts = parts ∙ sym (append_assoc before (c ∷ []) (d ∷ s));
    offset = omega (arith, offset, len-append before (c ∷ []));
  }

  pub move_cursor_right-Safe : Safe (move_cursor_right app)
  unfolding move_cursor_right
  move_cursor_right-Safe = elim (Bool-cases (leb (len app.input) app.cursor)) [
    | inl end ↦ rw end w
    | inr before ↦ rw before (
        at_cursor-Safe _ (record {
          cursor = next-Boundary w.cursor.before w.cursor.after w.cursor.parts w.cursor.offset;
          menu = w.menu;
          history = w.history;
          status = w.status;
        }))
  ]

  pub replaced : (value : Text) → WellFormed (replace_input app value)
  unfolding replace_input
  replaced value = record {
    cursor = whole value;
    menu = tt;
    history = w.history;
    status = w.status;
  }

  with_menu-Safe :
      (o : Option CompletionMenu) → InMenu o → is_some o ≡ true → Safe (with_menu app o)
  unfolding with_menu
  with_menu-Safe none h e = cc
  with_menu-Safe (some m) h e = record {
    cursor = w.cursor;
    menu = h;
    history = w.history;
    status = w.status;
  }

  select_next_in-Safe : (o : Option CompletionMenu) → InMenu o → Safe (select_next_in app o)
  unfolding select_next_in
  select_next_in-Safe none h = w
  select_next_in-Safe (some m) h =
      let (m', eq, inside) = next-InMenu m.candidates m.selected h in
      with_menu-Safe (select_next m) (subst InMenu (sym eq) inside) (ap is_some eq)

  pub select_next-Safe : Safe (select_next_completion app)
  unfolding select_next_completion
  select_next-Safe = select_next_in-Safe app.completion_menu w.menu

  previous_in-WellFormed :
      (o : Option CompletionMenu) → InMenu o → WellFormed (select_previous_in app o)
  unfolding select_previous_in
  previous_in-WellFormed none h = w
  previous_in-WellFormed (some m) h = record {
    cursor = w.cursor;
    menu = previous-InMenu m.candidates m.selected h;
    history = w.history;
    status = w.status;
  }

  pub select_previous-WellFormed : WellFormed (select_previous_completion app)
  unfolding select_previous_completion
  select_previous-WellFormed = previous_in-WellFormed app.completion_menu w.menu

  replace_after-Safe :
      (text kept replaced_part : Text)
      → Safe (replace_after app (len kept) text w.cursor.after (some (kept, replaced_part)))
  unfolding replace_after
  replace_after-Safe text kept replaced_part = record {
    cursor = record {
      before = kept ++ text;
      after = w.cursor.after;
      parts = sym (append_assoc kept text w.cursor.after);
      offset = sym (len-append kept text);
    };
    menu = tt;
    history = tt;
    status = w.status;
  }

  apply-start :
      (text kept replaced_part : Text)
      → w.cursor.before ≡ kept ++ replaced_part
      → completion_start w.cursor.before ≡ len kept
      → Safe (apply_completion app text)
  unfolding apply_completion
  apply-start text kept replaced_part split start = at_cursor-Safe _ (
      rw (start, split, split_bytes-append kept replaced_part)
        (replace_after-Safe text kept replaced_part))

  apply_completion-Safe : (text : Text) → Safe (apply_completion app text)
  apply_completion-Safe text = elim (Option-cases (rsplit_once b' ' w.cursor.before)) [
    | inl e ↦ apply-start text [] w.cursor.before refl (no_space w.cursor.before e)
    | inr ((x, y), e) ↦
        apply-start text (x ++ b' ' ∷ []) y
          (rsplit_once-parts b' ' w.cursor.before e ∙ sym (append_assoc x (b' ' ∷ []) y))
          (behind_space w.cursor.before e)
  ]

  apply_candidate-Safe : (o : Option CompletionCandidate) → Safe (apply_candidate app o)
  unfolding apply_candidate
  apply_candidate-Safe none = w
  apply_candidate-Safe (some candidate) = apply_completion-Safe candidate.insert_text

  apply_in-Safe : (o : Option CompletionMenu) → Safe (apply_in app o)
  unfolding apply_in
  apply_in-Safe none = w
  apply_in-Safe (some menu) = apply_candidate-Safe (current menu)

  pub apply_selected-Safe : Safe (apply_selected_completion app)
  unfolding apply_selected_completion
  apply_selected-Safe = apply_in-Safe app.completion_menu
