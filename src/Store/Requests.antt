-- ===== src/Store/Requests.antt =====
-- Every operation of crates/acp-web-backend/src/sessions.rs that names an owner and a session, as
-- one type: what a client can ask of a session.
use acp_orchestrator.Common.{ℕ, Bool, false, Text, Option, none, some, trim, is_empty}
use acp_orchestrator.Contracts.Permissions.{PermissionDecision}
use acp_orchestrator.Session.Types.{Stamp, Result, ok, err, SessionStoreError}
use acp_orchestrator.Store.Types.{SessionStore}
use acp_orchestrator.Store.Sessions.{
  discard_session, session_snapshot, session_history, session_pending_permissions,
  ensure_session_access, session_events, close_session, rename_session, delete_session,
  append_assistant_message,
}
use acp_orchestrator.Store.Prompts.{
  submit_prompt, mark_runtime_unavailable, resolve_permission, cancel_active_turn,
}

pub data Request : Type 0 where
  shows reads_history reads_permissions checks_access follows discards cancels : Request
  submits : Stamp → Text → Request
  disables : Text → Request
  resolves : Text → PermissionDecision → Request
  closes : ℕ → Request
  renames : Text → Request
  deletes : ℕ → Request
  appends : Stamp → Text → Request

abbrev pub failure : {A : Type 0} → Result A → Option SessionStoreError
failure (ok a) = none
failure (err e) = some e

abbrev pub without_value :
    {A : Type 0} → SessionStore × Result A → SessionStore × Option SessionStoreError
without_value (s, r) = (s, failure r)

-- The store after a request, and the error if there was one.
unfoldable pub perform :
    SessionStore → Text → Text → Request → SessionStore × Option SessionStoreError
unfolding session_snapshot session_history session_pending_permissions ensure_session_access
    session_events discard_session cancel_active_turn submit_prompt mark_runtime_unavailable
    resolve_permission close_session rename_session delete_session append_assistant_message
perform s owner id shows = without_value (session_snapshot s owner id)
perform s owner id reads_history = without_value (session_history s owner id)
perform s owner id reads_permissions = without_value (session_pending_permissions s owner id)
perform s owner id checks_access = without_value (ensure_session_access s owner id)
perform s owner id follows = without_value (session_events s owner id)
perform s owner id discards = without_value (discard_session s owner id)
perform s owner id cancels = without_value (cancel_active_turn s owner id)
perform s owner id (submits stamp text) = without_value (submit_prompt stamp s owner id text)
perform s owner id (disables reason) = without_value (mark_runtime_unavailable s owner id reason)
perform s owner id (resolves request_id decision) =
    without_value (resolve_permission s owner id request_id decision)
perform s owner id (closes now) = without_value (close_session now s owner id)
perform s owner id (renames title) = without_value (rename_session s owner id title)
perform s owner id (deletes now) = without_value (delete_session now s owner id)
perform s owner id (appends stamp text) =
    without_value (append_assistant_message stamp s owner id text)

abbrev pub is_blank : Request → Bool
is_blank (submits stamp text) = is_empty (trim text)
is_blank _ = false
