-- ===== src/Tui/AnswerSafety.antt =====
-- What the terminal chat does with an answer does not panic: crates/acp-cli/src/tui/input.rs.
use acp_orchestrator.Common.{
  ℕ, ◌≡◌, refl, sym, subst, Text, codes, List, [], ◌∷◌, Option, none, some, is_some, is_empty,
  starts_with, trim, either_branch, if◌then◌else◌, nat_eq,
}
use acp_orchestrator.Common.Attempt.{Attempt, done, failed}
use acp_orchestrator.Contracts.Permissions.{PermissionRequest}
use acp_orchestrator.Slash.Types.{CompletionCandidate}
use acp_orchestrator.Slash.Parse.{classify_slash_completion_prefix}
use acp_orchestrator.Tui.Types.{ChatApp}
use acp_orchestrator.Tui.Editing.{clear_input}
use acp_orchestrator.Tui.Actions.{Action, act}
use acp_orchestrator.Tui.Boundary.{Boundary, split_bytes-Boundary}
use acp_orchestrator.Tui.WellFormed.{WellFormed, Safe}
use acp_orchestrator.Tui.Safety.{act-Safe}
use acp_orchestrator.Tui.Input.{
  CompletionAnswer, ReplCommandNotice, PendingPermissionsUpdate, ReplCommandOutcome, Answers,
  Handled, handled, apply_notice, apply_notices, refreshed, apply_update, apply_command_outcome,
  command_answered, prompt_answered, submit_line, submit_current_input, show_candidates,
  completion_answered, complete_query, completion_query, update_completion_menu,
}

-- An event that does not panic, and leaves the application well formed.
abbrev pub SafeHandled : Option Handled → Type 0
SafeHandled none = ⊥
SafeHandled (some (app, r)) = WellFormed app

handled-Safe : (o : Option ChatApp) → Safe o → SafeHandled (handled o)
handled-Safe none h = h
handled-Safe (some app) h = h

module _ (width : Text → ℕ) where
  pub acted :
      (app : ChatApp) (a : Action) → WellFormed app → SafeHandled (handled (act width app a))
  acted app a w = handled-Safe (act width app a) (act-Safe width app a w)

  noticed :
      (app : ChatApp) (notice : ReplCommandNotice)
      → WellFormed app
      → WellFormed (apply_notice app notice)
  unfolding act
  noticed app (ReplCommandNotice.help candidates) w =
      act-Safe width _ (Action.notes (codes "available slash commands refreshed"))
        (act-Safe width app (Action.catalogs candidates) w)
  noticed app (ReplCommandNotice.status message) w = act-Safe width app (Action.notes message) w

  all_noticed :
      (app : ChatApp) (notices : List ReplCommandNotice)
      → WellFormed app
      → WellFormed (apply_notices app notices)
  all_noticed app [] w = w
  all_noticed app (notice ∷ notices) w =
      all_noticed (apply_notice app notice) notices (noticed app notice w)

  updated_permissions :
      (answers : Answers) (app : ChatApp) (update : PendingPermissionsUpdate)
      → WellFormed app
      → WellFormed (apply_update answers app update)
  unfolding act
  updated_permissions answers app PendingPermissionsUpdate.nothing w = w
  updated_permissions answers app (PendingPermissionsUpdate.remove request_id) w =
      act-Safe width app (Action.settles request_id) w
  updated_permissions answers app PendingPermissionsUpdate.refresh w =
      session_refreshed answers.session
    where
      session_refreshed : (r : Attempt Text (List PermissionRequest)) → WellFormed (refreshed app r)
      session_refreshed (done pending) = act-Safe width app (Action.replaces pending) w
      session_refreshed (failed error) = act-Safe width app (Action.notes error) w

  apply_command_outcome-WellFormed :
      (answers : Answers) (app : ChatApp) (outcome : ReplCommandOutcome)
      → WellFormed app
      → WellFormed (apply_command_outcome answers app outcome)
  unfolding apply_command_outcome act
  apply_command_outcome-WellFormed answers app outcome w =
      let shown = all_noticed app outcome.notices w in
      let settled = updated_permissions answers _ outcome.pending_permissions_update shown in
      either_branch WellFormed outcome.should_quit _ _ (act-Safe width _ Action.quits settled)
        settled

  command_answered-Safe :
      (answers : Answers) (app : ChatApp) (r : Attempt Text ReplCommandOutcome)
      → WellFormed app
      → SafeHandled (command_answered answers app r)
  unfolding act
  command_answered-Safe answers app (failed error) w = w
  command_answered-Safe answers app (done outcome) w =
      apply_command_outcome-WellFormed answers (clear_input app) outcome
        (act-Safe width app Action.clears w)

  prompt_answered-Safe :
      (app : ChatApp) (r : Attempt Text (Unit {0}))
      → WellFormed app
      → SafeHandled (prompt_answered app r)
  unfolding act
  prompt_answered-Safe app (done u) w = act-Safe width app Action.clears w
  prompt_answered-Safe app (failed error) w = act-Safe width app (Action.notes error) w

  pub submit_current_input-Safe :
      (answers : Answers) (app : ChatApp)
      → WellFormed app
      → SafeHandled (submit_current_input answers app)
  unfolding submit_current_input submit_line act
  submit_current_input-Safe answers app w =
      let line = trim app.input in
      let recorded = act-Safe width app (Action.submits line) w in
      either_branch SafeHandled (is_empty line) _ _ w (
        either_branch SafeHandled (starts_with line (codes "/")) _ _
          (command_answered-Safe answers _ (answers.command line) recorded)
          (prompt_answered-Safe _ (answers.submit_prompt line) recorded))

  show_candidates-Safe :
      (app : ChatApp) (candidates : List CompletionCandidate)
      → WellFormed app
      → SafeHandled (show_candidates app candidates)
  unfolding act
  show_candidates-Safe app [] w = act-Safe width app (Action.shows_menu []) w
  show_candidates-Safe app (c ∷ []) w =
      acted _ Action.applies (act-Safe width app (Action.shows_menu (c ∷ [])) w)
  show_candidates-Safe app (c ∷ d ∷ cs) w = act-Safe width app (Action.shows_menu (c ∷ d ∷ cs)) w

  completion_answered-Safe :
      (app : ChatApp) (answer : CompletionAnswer)
      → WellFormed app
      → SafeHandled (completion_answered app answer)
  unfolding act
  completion_answered-Safe app (CompletionAnswer.answered candidates) w =
      show_candidates-Safe app candidates w
  completion_answered-Safe app (CompletionAnswer.unavailable error) w =
      act-Safe width app (Action.notes _) w
  completion_answered-Safe app CompletionAnswer.timed_out w = act-Safe width app (Action.notes _) w

  complete_query-Safe :
      (answers : Answers) (app : ChatApp) (query : Option Text)
      → WellFormed app
      → SafeHandled (complete_query answers app (some query))
  unfolding complete_query act
  complete_query-Safe answers app none w = act-Safe width app Action.hides_menu w
  complete_query-Safe answers app (some prefix) w =
      completion_answered-Safe app (answers.slash_completions prefix) w

  completion_query-some :
      (line : Text) (cursor : ℕ)
      → Boundary line cursor
      → (query : Option Text) × (completion_query line cursor ≡ some query)
  completion_query-some line cursor b = (
    (if is_some (classify_slash_completion_prefix b.before) then some b.before else none),
    rw (split_bytes-Boundary line cursor b, completion_query) refl,
  )

  pub update_completion_menu-Safe :
      (answers : Answers) (app : ChatApp)
      → WellFormed app
      → SafeHandled (update_completion_menu answers app)
  unfolding update_completion_menu
  update_completion_menu-Safe answers app w =
      let (query, asked) = completion_query-some app.input app.cursor w.cursor in
      subst (λ q. SafeHandled (complete_query answers app q)) (sym asked)
        (complete_query-Safe answers app query w)
