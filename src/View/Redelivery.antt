-- ===== src/View/Redelivery.antt =====
-- An event that the browser receives twice: the stream of crates/acp-web-frontend/src.
use acp_orchestrator.Common.{
  ℕ, ◌≡◌, refl, ap, Bool, true, false, not, ◌&&◌, Text, List, [], ◌∷◌, ◌++◌, Option, none, some,
  any, is_empty, trim, Bool-cases, either_branch, inl, inr, arith, if◌then◌else◌, ◌==◌, ==_refl,
  text_eq,
}
use acp_orchestrator.Contracts.Messages.{ConversationMessage, is_assistant}
use acp_orchestrator.Contracts.Permissions.{PermissionRequest}
use acp_orchestrator.Contracts.Sessions.{SessionSnapshot, SessionListItem}
use acp_orchestrator.Contracts.Stream.{StreamEvent, StreamEventPayload}
use acp_orchestrator.View.Types.{
  TurnState, SessionEntry, SessionSignals, status_entry, should_apply_snapshot_turn_state,
  turn_state_for_snapshot, normalized_workspace_value,
}
use acp_orchestrator.View.Events.{
  same_option, or_stored, set_current_workspace_id, apply_session_snapshot, put_message, release,
  apply_conversation_message, push_entry, push_status_entry, push_tool_activity_entry, add_request,
  apply_permission_request, mark_session_closed, apply_session_closed, apply_status_update,
  apply_payload, handle_sse_event,
}

release_twice : (over : Bool) (t : TurnState) → release over (release over t) ≡ release over t
release_twice true TurnState.idle = refl
release_twice true TurnState.submitting = refl
release_twice true TurnState.awaiting_reply = refl
release_twice true TurnState.awaiting_permission = refl
release_twice true TurnState.cancelling = refl
release_twice false t = refl

any-last :
    {A : Type 0} (f : A → Bool) (xs : List A) (x : A) → f x ≡ true → any f (xs ++ x ∷ []) ≡ true
any-last f [] x h = ground arith
any-last f (y ∷ xs) x h = ground (arith, any-last f xs x h)

push_entry_twice :
    (id text : Text) (entries : List SessionEntry)
    → push_entry id text (push_entry id text entries) ≡ push_entry id text entries
unfolding push_entry
push_entry_twice id text entries = elim (Bool-cases (is_empty (trim text))) [
  | inl blank ↦ rw blank refl
  | inr kept ↦ elim (Bool-cases (any (λ entry. entry.id == id) entries)) [
    | inl there ↦ rw (kept, there) (rw there refl)
    | inr absent ↦
        rw (kept, absent)
          (rw (any-last (λ entry. entry.id == id) entries (status_entry id text) (==_refl id)) refl)
  ]
]

put_message_twice :
    (message : ConversationMessage) (entries : List SessionEntry)
    → put_message message (put_message message entries) ≡ put_message message entries
unfolding put_message
put_message_twice message [] = rw (==_refl message.id) refl
put_message_twice message (entry ∷ entries) = elim (Bool-cases (entry.id == message.id)) [
  | inl hit ↦ rw hit (rw hit refl)
  | inr miss ↦ rw miss (rw miss (ap (◌∷◌ entry) (put_message_twice message entries)))
]

add_request_twice :
    (request : PermissionRequest) (requests : List PermissionRequest)
    → add_request request (add_request request requests) ≡ add_request request requests
add_request_twice request requests =
    elim (Bool-cases (any (λ current. current.request_id == request.request_id) requests)) [
      | inl there ↦ rw there (rw there refl)
      | inr absent ↦ rw absent (
          rw
            (any-last (λ current. current.request_id == request.request_id) requests request
              (==_refl request.request_id))
            refl)
    ]

mark_session_closed_twice :
    (session_id : Text) (sessions : List SessionListItem)
    → mark_session_closed session_id (mark_session_closed session_id sessions)
      ≡ mark_session_closed session_id sessions
unfolding mark_session_closed
mark_session_closed_twice session_id [] = refl
mark_session_closed_twice session_id (session ∷ sessions) =
    elim (Bool-cases (session.id == session_id)) [
      | inl hit ↦ rw hit (rw hit refl)
      | inr miss ↦
          rw miss (rw miss (ap (◌∷◌ session) (mark_session_closed_twice session_id sessions)))
    ]

same_option_refl : (o : Option Text) → same_option o o ≡ true
same_option_refl none = refl
same_option_refl (some a) = ==_refl a

or_stored_twice :
    (stored next : Option Text) → or_stored (or_stored stored next) next ≡ or_stored stored next
or_stored_twice none none = refl
or_stored_twice none (some a) = refl
or_stored_twice (some b) next = refl

abbrev settled : TurnState → TurnState → TurnState
settled now next = if should_apply_snapshot_turn_state now then next else now

settled_twice : (now next : TurnState) → settled (settled now next) next ≡ settled now next
settled_twice TurnState.idle next =
    either_branch (λ t. t ≡ next) (should_apply_snapshot_turn_state next) next next refl refl
settled_twice TurnState.awaiting_permission next =
    either_branch (λ t. t ≡ next) (should_apply_snapshot_turn_state next) next next refl refl
settled_twice TurnState.submitting next = refl
settled_twice TurnState.awaiting_reply next = refl
settled_twice TurnState.cancelling next = refl

apply_session_snapshot_twice :
    (session : SessionSnapshot) (s : SessionSignals)
    → apply_session_snapshot session (apply_session_snapshot session s)
      ≡ apply_session_snapshot session s
unfolding apply_session_snapshot set_current_workspace_id
apply_session_snapshot_twice session s =
    let next = normalized_workspace_value (some session.workspace_id) in
    rw
      (
        same_option_refl next,
        or_stored_twice s.selected_workspace_id next,
        settled_twice s.turn_state
            (turn_state_for_snapshot session.pending_permissions session.active_turn),
      )
      refl

apply_payload_twice :
    (sequence : ℕ) (payload : StreamEventPayload) (s : SessionSignals)
    → apply_payload sequence payload (apply_payload sequence payload s)
      ≡ apply_payload sequence payload s
unfolding apply_payload apply_conversation_message apply_permission_request apply_session_closed
    apply_status_update push_status_entry push_tool_activity_entry
apply_payload_twice sequence (StreamEventPayload.session_snapshot session) s =
    apply_session_snapshot_twice session s
apply_payload_twice sequence (StreamEventPayload.conversation_message message partial) s =
    rw
      (
        put_message_twice message s.entries,
        release_twice (is_assistant message.role && not partial) s.turn_state,
      )
      refl
apply_payload_twice sequence (StreamEventPayload.permission_requested request) s =
    rw (add_request_twice request s.pending_permissions, push_entry_twice _ _ s.entries) refl
apply_payload_twice sequence (StreamEventPayload.session_closed session_id reason) s =
    rw (mark_session_closed_twice session_id s.list_items, push_entry_twice _ _ s.entries) refl
apply_payload_twice sequence (StreamEventPayload.status message) s =
    rw (release_twice true s.turn_state, push_entry_twice _ _ s.entries) refl

-- An event that arrives twice in a row leaves the page as it was after the first time, whatever
-- the event and the page.
pub handle_sse_event_twice :
    (event : StreamEvent) (s : SessionSignals)
    → handle_sse_event event (handle_sse_event event s) ≡ handle_sse_event event s
unfolding handle_sse_event
handle_sse_event_twice event s = apply_payload_twice event.sequence event.payload s
