-- ===== src/Session/Lifecycle.antt =====
-- Creation, restoration, metadata and the end of a session, in
-- crates/acp-web-backend/src/sessions/handle.rs.
use acp_orchestrator.Common.{
  ℕ, true, false, not, ◌&&◌, Text, codes, List, [], ◌∷◌, ◌++◌, Option, none, some, any, filter, map,
  length, is_some, leb, if◌then◌else◌, ◌==◌, text_eq,
}
use acp_orchestrator.Common.Assoc.{Assoc}
use acp_orchestrator.Common.Word.{succ_u64}
use acp_orchestrator.Contracts.Messages.{MessageRole, ConversationMessage, is_user}
use acp_orchestrator.Contracts.Permissions.{PermissionRequest}
use acp_orchestrator.Contracts.Sessions.{
  SessionStatus, active, closed, is_closed, SessionSnapshot, SessionListItem,
}
use acp_orchestrator.Contracts.Stream.{StreamEvent, session_closed}
use acp_orchestrator.Session.Types.{
  SessionData, SessionHandle, Stamp, PendingPermission, Result, ok, err, SessionStoreError,
}
use acp_orchestrator.Session.Events.{message_event}
use acp_orchestrator.Session.Turns.{cancel_all_turns_locked}

abbrev pub default_title : Text
default_title = codes "New chat"

-- `SessionHandle::new`
unfoldable pub new : Text → Text → Text → ℕ → ℕ → SessionHandle
new id owner workspace_id last_activity_at recent_order = record {
  sender = [];
  session_data = record {
    id = id;
    owner = owner;
    workspace_id = workspace_id;
    title = default_title;
    title_is_auto = true;
    status = active;
    closed_at = none;
    last_activity_at = last_activity_at;
    recent_order = recent_order;
    latest_sequence = 0;
    next_prompt_order = 0;
    next_permission_request_id = 1;
    next_completion_order = 0;
    pending_completions = [];
    pending_permissions = [];
    active_turn = none;
    runtime_unavailable_reason = none;
    messages = [];
    cancel_flags = [];
    outcomes = [];
  };
}

-- `restored_prompt_order`
unfoldable pub restored_prompt_order : List ConversationMessage → ℕ
restored_prompt_order messages = length (filter (λ m. is_user m.role) messages)

-- `SessionHandle::restore`
unfoldable pub restore : Text → SessionSnapshot → ℕ → ℕ → SessionHandle
unfolding restored_prompt_order
restore owner snapshot last_activity_at recent_order = record {
  sender = [];
  session_data = record {
    id = snapshot.id;
    owner = owner;
    workspace_id = snapshot.workspace_id;
    title = snapshot.title;
    title_is_auto =
        snapshot.title == default_title && not (any (λ m. is_user m.role) snapshot.messages);
    status = snapshot.status;
    closed_at = if is_closed snapshot.status then some last_activity_at else none;
    last_activity_at = last_activity_at;
    recent_order = recent_order;
    latest_sequence = snapshot.latest_sequence;
    next_prompt_order = restored_prompt_order snapshot.messages;
    next_permission_request_id = 1;
    next_completion_order = restored_prompt_order snapshot.messages;
    pending_completions = [];
    pending_permissions = [];
    active_turn = none;
    runtime_unavailable_reason = none;
    messages = snapshot.messages;
    cancel_flags = [];
    outcomes = [];
  };
}

-- The stable `sort_by_key` of `collect_pending_permissions`.
unfoldable pub insert_by_order :
    ℕ × PermissionRequest → Assoc ℕ PermissionRequest → Assoc ℕ PermissionRequest
insert_by_order r [] = r ∷ []
insert_by_order r (s ∷ rs) = if leb r.0 s.0 then r ∷ s ∷ rs else s ∷ insert_by_order r rs

unfoldable pub sort_by_order : Assoc ℕ PermissionRequest → Assoc ℕ PermissionRequest
unfolding insert_by_order
sort_by_order [] = []
sort_by_order (r ∷ rs) = insert_by_order r (sort_by_order rs)

unfoldable pub request_entry : Text × PendingPermission → ℕ × PermissionRequest
request_entry (id, pending) =
    (pending.request_order, record { request_id = id; summary = pending.summary })

-- `collect_pending_permissions`
unfoldable pub collect_pending_permissions : SessionData → List PermissionRequest
unfolding sort_by_order request_entry
collect_pending_permissions d =
    map (λ r. r.1) (sort_by_order (map request_entry d.pending_permissions))

-- `snapshot`
unfoldable pub snapshot : SessionData → SessionSnapshot
snapshot d = record {
  id = d.id;
  workspace_id = d.workspace_id;
  title = d.title;
  status = d.status;
  latest_sequence = d.latest_sequence;
  messages = d.messages;
  pending_permissions = collect_pending_permissions d;
  active_turn = is_some d.active_turn;
}

-- `session_list_item_with_order`
unfoldable pub session_list_item_with_order : SessionData → SessionListItem × ℕ
session_list_item_with_order d = (
  record {
    id = d.id;
    workspace_id = d.workspace_id;
    title = d.title;
    status = d.status;
    last_activity_at = d.last_activity_at;
  },
  d.recent_order,
)

-- `append_message`
unfoldable pub append_message :
    Stamp → SessionData → MessageRole → Text → SessionData × Result (Unit {0})
unfolding message_event
append_message stamp d role text =
    let (d', event) = message_event stamp d role text in
    if is_closed d.status then (d, err SessionStoreError.closed) else (d', ok tt)

-- `touch_recent_activity`
unfoldable pub touch_recent_activity : ℕ → SessionData → ℕ → SessionData
touch_recent_activity now d recent_order = record d {
  last_activity_at = now;
  recent_order = recent_order;
}

-- `rename`
unfoldable pub rename : SessionData → Text → SessionData
rename d title = record d { title = title; title_is_auto = false }

-- `mark_runtime_unavailable`
unfoldable pub mark_runtime_unavailable : SessionData → Text → SessionData × Result (Unit {0})
mark_runtime_unavailable d reason =
    if is_closed d.status
    then (d, err SessionStoreError.closed)
    else (record (cancel_all_turns_locked d) { runtime_unavailable_reason = some reason }, ok tt)

-- `close`
unfoldable pub close : ℕ → SessionData → Text → SessionData × Result StreamEvent
close now d reason =
    let cancelled = cancel_all_turns_locked d in
    let sequence = succ_u64 cancelled.latest_sequence in
    let event : StreamEvent = record {
      sequence = sequence;
      payload = session_closed cancelled.id reason;
    } in
    if is_closed d.status then (d, err SessionStoreError.closed) else (
      record cancelled {
        status = closed;
        closed_at = some now;
        pending_completions = [];
        latest_sequence = sequence;
      },
      ok event,
    )

-- The end of `prepare_delete`: an open session closes; one closed before keeps its time, if any.
unfoldable pub closing_time : ℕ → SessionStatus → Option ℕ → Option ℕ
closing_time now active closed_at = some now
closing_time now closed none = some now
closing_time now closed (some t) = some t

-- `prepare_delete`
unfoldable pub prepare_delete : ℕ → SessionData → SessionData
unfolding closing_time
prepare_delete now d =
    let cancelled = cancel_all_turns_locked d in
    record cancelled {
      pending_completions = [];
      status = closed;
      closed_at = closing_time now cancelled.status cancelled.closed_at;
    }

-- `broadcast`
unfoldable pub broadcast : SessionHandle → StreamEvent → SessionHandle
broadcast h event = record h { sender = h.sender ++ event ∷ [] }
