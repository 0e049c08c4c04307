-- ===== src/Slash/Resolve.antt =====
-- crates/acp-web-backend/src/completions.rs: the completions that the server offers for a prefix.
use acp_orchestrator.Common.{Text, List, [], Option, none, some, filter, map, starts_with}
use acp_orchestrator.Contracts.Permissions.{PermissionRequest}
use acp_orchestrator.Session.Types.{Result, ok, err}
use acp_orchestrator.Store.Types.{SessionStore}
use acp_orchestrator.Store.Sessions.{session_pending_permissions, ensure_session_access}
use acp_orchestrator.Slash.Types.{
  CompletionKind, CompletionCandidate, SlashCommandSpec, SlashCompletionQuery, slash_command_specs,
}
use acp_orchestrator.Slash.Parse.{classify_slash_completion_prefix}

unfoldable pub command_candidate : SlashCommandSpec → CompletionCandidate
command_candidate s = record {
  label = s.label;
  insert_text = s.insert_text;
  detail = s.detail;
  kind = CompletionKind.command;
}

-- `command_candidates`
unfoldable pub command_candidates : Text → List CompletionCandidate
unfolding command_candidate
command_candidates prefix =
    map command_candidate
      (filter (λ (s : SlashCommandSpec). starts_with s.name prefix) slash_command_specs)

unfoldable pub request_candidate : PermissionRequest → CompletionCandidate
request_candidate r = record {
  label = r.request_id;
  insert_text = r.request_id;
  detail = r.summary;
  kind = CompletionKind.parameter;
}

abbrev pub map_ok : {A B : Type 0} → (A → B) → Result A → Result B
map_ok f (ok a) = ok (f a)
map_ok f (err e) = err e

-- The `match` of `resolve_slash_completions`; none of its branches changes the store.
unfoldable pub candidates_for :
    SessionStore → Text → Text → Option SlashCompletionQuery → Result (List CompletionCandidate)
unfolding request_candidate
candidates_for s owner session_id none =
    map_ok (λ u. []) (ensure_session_access s owner session_id).1
candidates_for s owner session_id (some (SlashCompletionQuery.commands prefix)) =
    map_ok (λ u. command_candidates prefix) (ensure_session_access s owner session_id).1
candidates_for s owner session_id (some (SlashCompletionQuery.request_id c prefix)) =
    map_ok
      (λ pending.
        map request_candidate
          (filter (λ (r : PermissionRequest). starts_with r.request_id prefix) pending))
      (session_pending_permissions s owner session_id).1

-- `resolve_slash_completions`
unfoldable pub resolve_slash_completions :
    SessionStore → Text → Text → Text → Result (List CompletionCandidate)
unfolding candidates_for
resolve_slash_completions s owner session_id prefix =
    candidates_for s owner session_id (classify_slash_completion_prefix prefix)
