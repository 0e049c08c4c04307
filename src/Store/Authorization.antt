-- ===== src/Store/Authorization.antt =====
-- Who may reach a session of crates/acp-web-backend/src/sessions.rs.
use acp_orchestrator.Common.{
  ℕ, ◌≡◌, ◌≢◌, refl, ap, ◌∙◌, Text, none, some, arith, if◌then◌else◌, ==_ne, text_eq,
}
use acp_orchestrator.Session.Types.{SessionHandle, err, SessionStoreError}
use acp_orchestrator.Store.Types.{SessionStore}
use acp_orchestrator.Store.Access.{authorized_handle, authorized, check_owner, find_handle}
use acp_orchestrator.Store.Requests.{Request, submits, perform, is_blank}

-- The error that a request on a session earns before it reaches it.
abbrev pub refusal : Request → SessionStoreError → SessionStoreError
refusal r e = if is_blank r then SessionStoreError.empty_prompt else e

refused :
    (s : SessionStore) (owner id : Text) (r : Request) {e : SessionStoreError}
    → authorized_handle s owner id ≡ err e
    → perform s owner id r ≡ (s, some (refusal r e))
unfolding perform authorized
refused s owner id (submits stamp text) h = ground arith
refused s owner id _ h = ground arith

-- Why an owner does not reach a session, with the error for it: there is no such session, or it is
-- another owner's.
pub data Unreachable (s : SessionStore) (owner id : Text) : SessionStoreError → Type 0 where
  absent : find_handle s id ≡ none → Unreachable s owner id SessionStoreError.not_found
  foreign :
      (a : ℕ) (h : SessionHandle)
      → find_handle s id ≡ some (a, h)
      → h.session_data.owner ≢ owner
      → Unreachable s owner id SessionStoreError.forbidden

not_authorized :
    (s : SessionStore) (owner id : Text) (e : SessionStoreError)
    → Unreachable s owner id e
    → authorized_handle s owner id ≡ err e
unfolding authorized_handle check_owner
not_authorized s owner id _ (absent e) = ap (check_owner owner) e
not_authorized s owner id _ (foreign a h e ne) =
    ap (check_owner owner) e ∙ rw (==_ne h.session_data.owner owner ne) refl

-- A request of an owner on a session that is not there, or is another owner's, changes nothing and
-- fails with not_found or forbidden; but a blank prompt is refused as empty before.
pub perform-refused :
    (s : SessionStore) (owner id : Text) (r : Request) (e : SessionStoreError)
    → Unreachable s owner id e
    → perform s owner id r ≡ (s, some (refusal r e))
perform-refused s owner id r e u = refused s owner id r (not_authorized s owner id e u)
