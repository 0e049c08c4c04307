-- ===== src/View/Examples.antt =====
-- Witnesses on a concrete page.
use acp_orchestrator.Common.{
  ◌≡◌, refl, true, false, codes, List, [], ◌∷◌, ◌++◌, none, list_eqb, map,
}
use acp_orchestrator.Contracts.Messages.{MessageRole, ConversationMessage}
use acp_orchestrator.Contracts.Sessions.{SessionStatus, SessionSnapshot}
use acp_orchestrator.Contracts.Stream.{StreamEvent, StreamEventPayload}
use acp_orchestrator.View.Types.{
  SessionLifecycle, TurnState, SessionSignals, session_composer_disabled, bootstrap_entries,
}
use acp_orchestrator.View.Events.{
  apply_session_snapshot, apply_session_closed, handle_sse_event, handle_events,
}
use acp_orchestrator.View.Redelivery.{handle_sse_event_twice}
use acp_orchestrator.View.Ids.{DistinctIds, handle_events-DistinctIds}
use acp_orchestrator.View.Conversation.{
  Arrival, arrival_event, arrived, apply_session_snapshot-arrived,
}
use acp_orchestrator.View.Composer.{apply_session_closed_disabled}

abbrev page : SessionSignals
page = record {
  entries = [];
  pending_permissions = [];
  session_status = SessionLifecycle.loading;
  turn_state = TurnState.idle;
  pending_action_busy = false;
  current_workspace_id = none;
  current_workspace_name = none;
  list_items = [];
  selected_workspace_id = none;
}

abbrev question : ConversationMessage
question = record { id = codes "m1"; role = MessageRole.user; text = codes "hi"; created_at = 1 }

abbrev answer : ConversationMessage
answer = record {
  id = codes "m2";
  role = MessageRole.assistant;
  text = codes "hello";
  created_at = 2;
}

abbrev session : SessionSnapshot
session = record {
  id = codes "s1";
  workspace_id = codes "w1";
  title = codes "t";
  status = SessionStatus.active;
  latest_sequence = 1;
  messages = question ∷ [];
  pending_permissions = [];
  active_turn = true;
}

abbrev asked : StreamEvent
asked = record {
  sequence = 2;
  payload =
      StreamEventPayload.permission_requested
        (record { request_id = codes "r1"; summary = codes "read" });
}

abbrev snapshot : StreamEvent
snapshot = record { sequence = 1; payload = StreamEventPayload.session_snapshot session }

handle_sse_event_twice_example :
    handle_sse_event asked (handle_sse_event asked page) ≡ handle_sse_event asked page
handle_sse_event_twice_example = handle_sse_event_twice asked page

handle_events-DistinctIds_example : DistinctIds (handle_events (snapshot ∷ asked ∷ []) page).entries
unfolding list_eqb
handle_events-DistinctIds_example =
    handle_events-DistinctIds (snapshot ∷ asked ∷ []) page (((refl, tt), refl), (tt, tt)) tt

abbrev arrivals : List Arrival
arrivals = (2, (answer, false)) ∷ []

apply_session_snapshot-arrived_example :
    (handle_events (map arrival_event arrivals) (apply_session_snapshot session page)).entries
    ≡ bootstrap_entries session.status session.messages ++ arrived arrivals
unfolding list_eqb bootstrap_entries
apply_session_snapshot-arrived_example =
    apply_session_snapshot-arrived session arrivals page (refl, (refl, tt))

apply_session_closed_disabled_example :
    session_composer_disabled
      (handle_events (asked ∷ []) (apply_session_closed 3 (codes "s1") [] page)).session_status
      (handle_events (asked ∷ []) (apply_session_closed 3 (codes "s1") [] page)).turn_state
      false
    ≡ true
apply_session_closed_disabled_example =
    apply_session_closed_disabled 3 (codes "s1") [] (asked ∷ []) page false (refl, tt)
