-- ===== src/Store/Isolation.antt =====
-- A request on the store of crates/acp-web-backend/src/sessions.rs writes to no other owner's
-- session.
use acp_orchestrator.Common.{
  ℕ, ◌≡◌, ◌≢◌, refl, Text, some, get_elem?, Bool-cases, trim, is_empty, inl, inr,
}
use acp_orchestrator.Session.Types.{SessionHandle}
use acp_orchestrator.Store.Types.{SessionStore}
use acp_orchestrator.Store.Local.{
  returning-Local, authorized-isolated, write-Local, call-Local, close_handle-Local, submit-Local,
}
use acp_orchestrator.Store.Sessions.{
  discard_session, session_snapshot, session_history, session_pending_permissions,
  ensure_session_access, session_events, close_session, rename_session, delete_session,
  append_assistant_message,
}
use acp_orchestrator.Store.Prompts.{
  submit_prompt, mark_runtime_unavailable, resolve_permission, cancel_active_turn,
}
use acp_orchestrator.Store.Requests.{Request, submits, perform}
use acp_orchestrator.Store.Requests as Requests

-- A request of an owner leaves every handle of another owner as it was: its data and what its
-- channel was given.
pub perform-isolated :
    (s : SessionStore) (owner id : Text) (r : Request) (j : ℕ) (h : SessionHandle)
    → get_elem? s.handles j ≡ some h
    → h.session_data.owner ≢ owner
    → get_elem? (perform s owner id r).0.handles j ≡ some h
unfolding perform session_snapshot session_history session_pending_permissions ensure_session_access
    session_events discard_session cancel_active_turn submit_prompt mark_runtime_unavailable
    resolve_permission close_session rename_session delete_session append_assistant_message
perform-isolated s owner id (submits stamp text) j h at_j ne =
    elim (Bool-cases (is_empty (trim text))) [
      | inl blank ↦ rw blank at_j
      | inr filled ↦
          rw filled (authorized-isolated s owner id _ (submit-Local stamp s id text) j at_j ne)
    ]
perform-isolated s owner id (Requests.closes now) j h at_j ne =
    authorized-isolated s owner id _ (close_handle-Local now s) j at_j ne
perform-isolated s owner id (Requests.renames title) j h at_j ne =
    authorized-isolated s owner id _ (λ a g. write-Local s a _) j at_j ne
perform-isolated s owner id (Requests.deletes now) j h at_j ne =
    authorized-isolated s owner id _ (λ a g. write-Local s a _) j at_j ne
perform-isolated s owner id (Requests.appends stamp text) j h at_j ne =
    authorized-isolated s owner id _
      (λ a g i apart. returning-Local s a _ _ (call-Local s a g _ _) i apart) j at_j ne
perform-isolated s owner id Requests.cancels j h at_j ne =
    authorized-isolated s owner id _ (λ a g. call-Local s a g _ _) j at_j ne
perform-isolated s owner id (Requests.disables reason) j h at_j ne =
    authorized-isolated s owner id _ (λ a g. call-Local s a g _ _) j at_j ne
perform-isolated s owner id (Requests.resolves request_id decision) j h at_j ne =
    authorized-isolated s owner id _ (λ a g. call-Local s a g _ _) j at_j ne
perform-isolated s owner id _ j h at_j ne =
    authorized-isolated s owner id _ (λ a g i apart. refl) j at_j ne
