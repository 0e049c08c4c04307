-- ===== src/Store/Sessions.antt =====
-- Creating, reading, restoring and ending sessions, in crates/acp-web-backend/src/sessions.rs.
use acp_orchestrator.Common.{
  ℕ, ◌&&◌, Text, codes, List, [], ◌∷◌, ◌++◌, Option, none, some, any, length, get_elem?, set,
  filter, leb, if◌then◌else◌, is_empty, ◌==◌, text_eq,
}
use acp_orchestrator.Common.Assoc.{Assoc, remove}
use acp_orchestrator.Contracts.Messages.{ConversationMessage, assistant}
use acp_orchestrator.Contracts.Permissions.{PermissionRequest}
use acp_orchestrator.Contracts.Sessions.{SessionSnapshot}
use acp_orchestrator.Session.Types.{SessionHandle, Stamp, Result, ok, err, SessionStoreError}
use acp_orchestrator.Session.Lifecycle.{
  new, restore, snapshot, collect_pending_permissions, close, rename, prepare_delete,
  append_message,
}
use acp_orchestrator.Store.Types.{SessionStore}
use acp_orchestrator.Store.Access.{
  owner_matches, handle_is_active, authorized, write, with_data, claim_recent_order, store_handle,
  session_handles, find_handle,
}
use acp_orchestrator.Store.Retention.{prune_closed_sessions, remove_each}
use acp_orchestrator.Store.Calls.{call, returning, no_events}

-- The loop of `create_session` that counts the owner's active sessions.
unfoldable pub active_sessions : SessionStore → Text → ℕ
unfolding session_handles
active_sessions s owner = length (
    filter (λ b. owner_matches b.1 owner && handle_is_active b.1)
      (session_handles s.sessions s.handles))

-- `create_session`
unfoldable pub create_session :
    Stamp → SessionStore → Text → Text → SessionStore × Result SessionSnapshot
unfolding claim_recent_order store_handle
create_session stamp s owner workspace_id =
    let session_id = codes "s_" ++ stamp.uuid in
    let (claimed, recent_order) = claim_recent_order s in
    let h = new session_id owner workspace_id stamp.now recent_order in
    if leb s.session_cap (active_sessions s owner)
    then (s, err SessionStoreError.session_cap_reached)
    else (store_handle claimed session_id h, ok (snapshot h.session_data))

abbrev unmapped : SessionStore → Text → SessionStore
unmapped s session_id = record s { sessions = remove session_id s.sessions }

-- `discard_session`
unfoldable pub discard_session : SessionStore → Text → Text → SessionStore × Result (Unit {0})
discard_session s owner session_id =
    authorized s owner session_id (λ a h. (unmapped s session_id, ok tt))

-- `session_snapshot`
unfoldable pub session_snapshot : SessionStore → Text → Text → SessionStore × Result SessionSnapshot
session_snapshot s owner session_id =
    authorized s owner session_id (λ a h. (s, ok (snapshot h.session_data)))

-- The map's `entry` of `restore_session`: what is there stays.
unfoldable pub entry_or_insert : SessionStore → Text → SessionHandle → SessionStore
unfolding store_handle find_handle
entry_or_insert s session_id h = elim (find_handle s session_id) [
  | none ↦ store_handle s session_id h
  | some found ↦ s
]

-- The end of `restore_session`.
unfoldable pub restored_answer : Text → Option (ℕ × SessionHandle) → Result SessionSnapshot
restored_answer owner none = err SessionStoreError.not_found
restored_answer owner (some (a, h)) =
    if owner_matches h owner then ok (snapshot h.session_data) else err SessionStoreError.forbidden

-- `restore_session`
unfoldable pub restore_session :
    SessionStore → Text → SessionSnapshot → ℕ → SessionStore × Result SessionSnapshot
unfolding claim_recent_order entry_or_insert restored_answer
restore_session s owner snapshot last_activity_at =
    let (claimed, recent_order) = claim_recent_order s in
    let restored = restore owner snapshot last_activity_at recent_order in
    let s' = entry_or_insert claimed snapshot.id restored in
    (s', restored_answer owner (find_handle s' snapshot.id))

-- `session_history`
unfoldable pub session_history :
    SessionStore → Text → Text → SessionStore × Result (List ConversationMessage)
session_history s owner session_id =
    authorized s owner session_id (λ a h. (s, ok (snapshot h.session_data).messages))

-- `session_pending_permissions`
unfoldable pub session_pending_permissions :
    SessionStore → Text → Text → SessionStore × Result (List PermissionRequest)
session_pending_permissions s owner session_id =
    authorized s owner session_id (λ a h. (s, ok (collect_pending_permissions h.session_data)))

-- `ensure_session_access`
unfoldable pub ensure_session_access : SessionStore → Text → Text → SessionStore × Result (Unit {0})
ensure_session_access s owner session_id = authorized s owner session_id (λ a h. (s, ok tt))

-- `session_events`: the receiver gets what the handle's channel is given from here on.
unfoldable pub session_events :
    SessionStore → Text → Text → SessionStore × Result (SessionSnapshot × (ℕ × ℕ))
session_events s owner session_id =
    authorized s owner session_id (λ a h. (s, ok (snapshot h.session_data, (a, length h.sender))))

-- The snapshot that an operation returns after its call.
unfoldable pub snapshot_at : SessionStore → ℕ → SessionHandle → SessionSnapshot
snapshot_at s a h = elim (get_elem? s.handles a) [
  | none ↦ snapshot h.session_data
  | some h' ↦ snapshot h'.session_data
]

-- `close_session`, after its check
unfoldable pub close_handle :
    ℕ → SessionStore → ℕ → SessionHandle → SessionStore × Result SessionSnapshot
close_handle now s a h =
    let (s', answer) =
      call s a h (λ d event. event ∷ []) (close now h.session_data (codes "closed by user")) in
    elim answer [
      | err e ↦ (s', err e)
      | ok event ↦ (prune_closed_sessions s', ok (snapshot_at s' a h))
    ]

-- `close_session`
unfoldable pub close_session :
    ℕ → SessionStore → Text → Text → SessionStore × Result SessionSnapshot
close_session now s owner session_id = authorized s owner session_id (close_handle now s)

-- `rename_session`
unfoldable pub rename_session :
    SessionStore → Text → Text → Text → SessionStore × Result SessionSnapshot
rename_session s owner session_id title =
    authorized s owner session_id
      (λ a h. let d = rename h.session_data title in (write s a (with_data h d), ok (snapshot d)))

-- `delete_session`
unfoldable pub delete_session : ℕ → SessionStore → Text → Text → SessionStore × Result (Unit {0})
delete_session now s owner session_id = authorized s owner session_id (λ a h.
    (unmapped (write s a (with_data h (prepare_delete now h.session_data))) session_id, ok tt))

-- The first loop of `delete_sessions_for_owners`, over the entries of the map: the memory after it
-- and the ids to remove.
unfoldable pub delete_owned :
    ℕ → List Text → Assoc Text ℕ → List SessionHandle → List SessionHandle × List Text
delete_owned now owners [] handles = (handles, [])
delete_owned now owners ((id, a) ∷ m) handles =
    let skipped = delete_owned now owners m handles in
    elim (get_elem? handles a) [
      | none ↦ skipped
      | some h ↦
          let deleted = with_data h (prepare_delete now h.session_data) in
          let (handles', removed) = delete_owned now owners m (set handles a deleted) in
          if any (λ owner. owner == h.session_data.owner) owners
          then (handles', id ∷ removed)
          else skipped
    ]

-- `delete_sessions_for_owners`
unfoldable pub delete_sessions_for_owners : ℕ → SessionStore → List Text → SessionStore × List Text
unfolding remove_each
delete_sessions_for_owners now s owners =
    let (handles, removed) = delete_owned now owners s.sessions s.handles in
    if is_empty owners
    then (s, [])
    else (record s { handles = handles; sessions = remove_each removed s.sessions }, removed)

-- `append_assistant_message`
unfoldable pub append_assistant_message :
    Stamp → SessionStore → Text → Text → Text → SessionStore × Result SessionSnapshot
append_assistant_message stamp s owner session_id text = authorized s owner session_id (λ a h.
    let appended = append_message stamp h.session_data assistant text in
    returning (λ r. snapshot appended.0) (call s a h no_events appended))
