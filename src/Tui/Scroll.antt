-- ===== src/Tui/Scroll.antt =====
-- Scrolling the transcript, in crates/acp-cli/src/tui/app.rs. `width` stands for
-- `UnicodeWidthStr::width`; a `usize` sum that saturates is a sum, since the `min` cuts it.
use acp_orchestrator.Common.{
  ℕ, ◌+◌, ◌-◌, ◌/◌, true, false, Text, List, [], ◌∷◌, leb, if◌then◌else◌, ◌==◌, nat_eq,
}
use Prim.Native.Nat.{min, max}
use acp_orchestrator.Tui.Types.{ChatApp}

module _ (width : Text → ℕ) where
  -- `wrapped_line_rows`
  unfoldable pub wrapped_line_rows : Text → ℕ → ℕ
  wrapped_line_rows line viewport_width =
      let w = max viewport_width 1 in (max (width line) 1 + (w - 1)) / w

  unfoldable pub rows_of : List Text → ℕ → ℕ
  unfolding wrapped_line_rows
  rows_of [] viewport_width = 0
  rows_of (line ∷ ls) viewport_width =
      wrapped_line_rows line viewport_width + rows_of ls viewport_width

  -- `transcript_row_count`
  unfoldable pub transcript_row_count : ChatApp → ℕ → ℕ
  unfolding rows_of
  transcript_row_count app viewport_width = rows_of app.transcript viewport_width

  -- `max_transcript_start`
  unfoldable pub max_transcript_start : ChatApp → ℕ → ℕ → ℕ
  max_transcript_start app viewport_height viewport_width =
      transcript_row_count app viewport_width - max viewport_height 1

  -- `transcript_start`
  unfoldable pub transcript_start : ChatApp → ℕ → ℕ → ℕ
  transcript_start app viewport_height viewport_width =
      let max_start = max_transcript_start app viewport_height viewport_width in
      if app.follow_transcript then max_start else min app.transcript_scroll max_start

  -- `scroll_up`
  unfoldable pub scroll_up : ChatApp → ℕ → ℕ → ℕ → ChatApp
  scroll_up app viewport_height viewport_width amount =
      let max_start = max_transcript_start app viewport_height viewport_width in
      let from = if app.follow_transcript then max_start else app.transcript_scroll in
      if max_start == 0
      then record app { follow_transcript = true; transcript_scroll = 0 }
      else record app { follow_transcript = false; transcript_scroll = from - amount }

  -- `scroll_down`
  unfoldable pub scroll_down : ChatApp → ℕ → ℕ → ℕ → ChatApp
  scroll_down app viewport_height viewport_width amount =
      let max_start = max_transcript_start app viewport_height viewport_width in
      let scroll = min (app.transcript_scroll + amount) max_start in
      if max_start == 0
      then record app { follow_transcript = true; transcript_scroll = 0 }
      else if app.follow_transcript
      then app
      else record app { follow_transcript = leb max_start scroll; transcript_scroll = scroll }
