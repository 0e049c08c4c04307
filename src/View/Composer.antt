-- ===== src/View/Composer.antt =====
-- The composer of a session that has ended: crates/acp-web-frontend/src/session_state.rs and
-- session_page_actions/stream/events.rs.
use acp_orchestrator.Common.{ℕ, ◌≡◌, refl, Bool, true, false, not, Text, List, [], ◌∷◌, All, arith}
use acp_orchestrator.Contracts.Sessions.{SessionStatus, is_closed}
use acp_orchestrator.Contracts.Stream.{StreamEvent, StreamEventPayload}
use acp_orchestrator.View.Types.{
  SessionLifecycle, TurnState, SessionSignals, session_status_label, session_composer_disabled,
}
use acp_orchestrator.View.Events.{
  apply_session_snapshot, apply_conversation_message, apply_permission_request,
  apply_session_closed, apply_status_update, apply_payload, handle_sse_event, handle_events,
}

abbrev pub reopens : StreamEventPayload → Bool
reopens (StreamEventPayload.session_snapshot session) = not (is_closed session.status)
reopens _ = false

closed_label :
    (status : SessionStatus)
    → not (is_closed status) ≡ false
    → session_status_label status ≡ SessionLifecycle.closed
closed_label SessionStatus.active h = cc
closed_label SessionStatus.closed h = refl

-- The event is no snapshot of a session that goes on.
abbrev pub NotReopening : StreamEvent → Type 0
NotReopening event = reopens event.payload ≡ false

closed-payload :
    (sequence : ℕ) (payload : StreamEventPayload) (s : SessionSignals)
    → reopens payload ≡ false
    → s.session_status ≡ SessionLifecycle.closed
    → (apply_payload sequence payload s).session_status ≡ SessionLifecycle.closed
unfolding apply_payload apply_session_snapshot apply_conversation_message apply_permission_request
    apply_session_closed apply_status_update
closed-payload sequence (StreamEventPayload.session_snapshot session) s h c =
    closed_label session.status h
closed-payload sequence (StreamEventPayload.conversation_message message partial) s h c = c
closed-payload sequence (StreamEventPayload.permission_requested request) s h c = c
closed-payload sequence (StreamEventPayload.session_closed session_id reason) s h c = refl
closed-payload sequence (StreamEventPayload.status message) s h c = c

closed-events :
    (events : List StreamEvent) (s : SessionSignals)
    → All NotReopening events
    → s.session_status ≡ SessionLifecycle.closed
    → (handle_events events s).session_status ≡ SessionLifecycle.closed
unfolding handle_events handle_sse_event
closed-events [] s h c = c
closed-events (event ∷ events) s h c =
    closed-events events (handle_sse_event event s) h.1
      (closed-payload event.sequence event.payload s h.0 c)

disabled_where_closed :
    (status : SessionLifecycle) (turn : TurnState) (deleting : Bool)
    → status ≡ SessionLifecycle.closed
    → session_composer_disabled status turn deleting ≡ true
unfolding session_composer_disabled
disabled_where_closed status turn deleting h = rw h (ground arith)

-- After the event that a session is closed, the composer is disabled through any further events
-- but the snapshot of a session that is active.
pub apply_session_closed_disabled :
    (sequence : ℕ) (session_id reason : Text) (events : List StreamEvent) (s : SessionSignals)
    (deleting : Bool)
    → All NotReopening events
    → session_composer_disabled
        (handle_events events (apply_session_closed sequence session_id reason s)).session_status
        (handle_events events (apply_session_closed sequence session_id reason s)).turn_state
        deleting
      ≡ true
unfolding apply_session_closed
apply_session_closed_disabled sequence session_id reason events s deleting h =
    disabled_where_closed _ _ deleting
      (closed-events events (apply_session_closed sequence session_id reason s) h refl)
