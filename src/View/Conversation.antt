-- ===== src/View/Conversation.antt =====
-- The page shows the conversation: a snapshot and then the messages that come behind it, in
-- crates/acp-web-frontend/src/session_page_actions/stream/events.rs.
use acp_orchestrator.Common.{
  ℕ, ◌≡◌, refl, sym, ap, ◌∙◌, subst, Bool, false, ◌||◌, Text, List, [], ◌∷◌, ◌++◌, map, arith, ◌==◌,
  ==_iff, text_eq,
}
use mathlib.Core.List.{append_assoc, append-nil}
use acp_orchestrator.Contracts.Messages.{ConversationMessage}
use acp_orchestrator.Contracts.Sessions.{SessionSnapshot}
use acp_orchestrator.Contracts.Stream.{StreamEvent, StreamEventPayload}
use acp_orchestrator.View.Types.{SessionEntry, SessionSignals, from_message, bootstrap_entries}
use acp_orchestrator.View.Events.{
  apply_session_snapshot, put_message, apply_conversation_message, apply_payload, handle_sse_event,
  handle_events,
}
use acp_orchestrator.View.Ids.{has_id, DistinctIds}

-- A message as it arrives: its event's number, and whether more of it is to come.
abbrev pub Arrival : Type 0
Arrival = ℕ × (ConversationMessage × Bool)

abbrev pub arrival_event : Arrival → StreamEvent
arrival_event (sequence, (message, partial)) = record {
  sequence = sequence;
  payload = StreamEventPayload.conversation_message message partial;
}

abbrev pub arrived : List Arrival → List SessionEntry
arrived arrivals = map (λ a. from_message a.1.0) arrivals

put_message_new :
    (message : ConversationMessage) (entries : List SessionEntry)
    → has_id message.id entries ≡ false
    → put_message message entries ≡ entries ++ from_message message ∷ []
unfolding put_message
put_message_new message [] h = refl
put_message_new message (entry ∷ entries) h =
    let other : (entry.id == message.id) ≡ false = ground arith in
    rw other (ap (◌∷◌ entry) (put_message_new message entries (ground arith)))

has_id-middle :
    (id : Text) (xs : List SessionEntry) (x : SessionEntry) (ys : List SessionEntry)
    → has_id id (xs ++ x ∷ ys) ≡ (has_id id xs || (x.id == id || has_id id ys))
has_id-middle id [] x ys = refl
has_id-middle id (y ∷ xs) x ys = ground (arith, has_id-middle id xs x ys)

-- An entry behind others has an id that none of them has.
DistinctIds-new :
    (xs : List SessionEntry) (x : SessionEntry) (ys : List SessionEntry)
    → DistinctIds (xs ++ x ∷ ys)
    → has_id x.id xs ≡ false
DistinctIds-new [] x ys d = refl
DistinctIds-new (y ∷ xs) x ys d = ground (
  arith,
  DistinctIds-new xs x ys d.1,
  has_id-middle y.id xs x ys,
  d.0,
  ==_iff x.id y.id,
  ==_iff y.id x.id,
)

handle_events-arrived :
    (arrivals : List Arrival) (s : SessionSignals)
    → DistinctIds (s.entries ++ arrived arrivals)
    → (handle_events (map arrival_event arrivals) s).entries ≡ s.entries ++ arrived arrivals
unfolding handle_events handle_sse_event apply_payload apply_conversation_message
handle_events-arrived [] s d = sym (append-nil s.entries)
handle_events-arrived (a ∷ arrivals) s d =
    let new =
      put_message_new a.1.0 s.entries
        (DistinctIds-new s.entries (from_message a.1.0) (arrived arrivals) d) in
    let whole =
      ap (λ es. es ++ arrived arrivals) new
      ∙ append_assoc s.entries (from_message a.1.0 ∷ []) (arrived arrivals) in
    handle_events-arrived arrivals (apply_conversation_message a.1.0 a.1.1 s)
      (subst DistinctIds (sym whole) d)
    ∙ whole

-- Behind a snapshot, the messages that arrive stand on the page in their order, behind the entries
-- of the snapshot, provided that no two of these entries and messages have the same id.
pub apply_session_snapshot-arrived :
    (session : SessionSnapshot) (arrivals : List Arrival) (s : SessionSignals)
    → DistinctIds (bootstrap_entries session.status session.messages ++ arrived arrivals)
    → (handle_events (map arrival_event arrivals) (apply_session_snapshot session s)).entries
      ≡ bootstrap_entries session.status session.messages ++ arrived arrivals
unfolding apply_session_snapshot
apply_session_snapshot-arrived session arrivals s d =
    handle_events-arrived arrivals (apply_session_snapshot session s) d
