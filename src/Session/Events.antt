-- ===== src/Session/Events.antt =====
-- Messages and the events about them: the event helpers of
-- crates/acp-web-backend/src/sessions/handle.rs. A `&mut SessionData` is returned with the result.
use acp_orchestrator.Common.{
  Bool, false, not, ◌&&◌, Text, codes, List, [], ◌∷◌, ◌++◌, Option, none, some, ◌==◌, nat_eq,
  text_eq, if◌then◌else◌, is_empty,
}
use acp_orchestrator.Common.Word.{succ_u64}
use acp_orchestrator.Contracts.Messages.{MessageRole, assistant, is_assistant, ConversationMessage}
use acp_orchestrator.Contracts.Stream.{StreamEvent, conversation_message}
use acp_orchestrator.Contracts.Stream
use acp_orchestrator.Session.Types.{SessionData, Stamp}

unfoldable pub new_message : Stamp → MessageRole → Text → ConversationMessage
new_message stamp role text = record {
  id = codes "m_" ++ stamp.uuid;
  role = role;
  text = text;
  created_at = stamp.now;
}

-- `conversation_message_event`
unfoldable pub conversation_message_event :
    SessionData → ConversationMessage → Bool → SessionData × StreamEvent
conversation_message_event d message partial =
    let sequence = succ_u64 d.latest_sequence in
    (
      record d { latest_sequence = sequence },
      record { sequence = sequence; payload = conversation_message message partial },
    )

-- `message_event`
unfoldable pub message_event : Stamp → SessionData → MessageRole → Text → SessionData × StreamEvent
unfolding new_message
message_event stamp d role text =
    let sequence = succ_u64 d.latest_sequence in
    let message = new_message stamp role text in
    (
      record d { latest_sequence = sequence; messages = d.messages ++ message ∷ [] },
      record { sequence = sequence; payload = conversation_message message false },
    )

-- `status_event`
unfoldable pub status_event : SessionData → Text → SessionData × StreamEvent
unfolding Stream.status_event
status_event d message =
    let sequence = succ_u64 d.latest_sequence in
    (record d { latest_sequence = sequence }, Stream.status_event sequence message)

-- The test of `assistant_message_mut`.
unfoldable pub is_assistant_message : Text → ConversationMessage → Bool
is_assistant_message message_id m = m.id == message_id && is_assistant m.role

-- A write through the reference that `assistant_message_mut` returns: the first message that passes
-- its test is changed, and returned with the new list.
unfoldable pub modify_assistant :
    Text
    → (ConversationMessage → ConversationMessage)
    → List ConversationMessage
    → Option (ConversationMessage × List ConversationMessage)
unfolding is_assistant_message
modify_assistant message_id f [] = none
modify_assistant message_id f (m ∷ ms) =
    if is_assistant_message message_id m
    then some (f m, f m ∷ ms)
    else elim (modify_assistant message_id f ms) [
      | none ↦ none
      | some (m', ms') ↦ some (m', m ∷ ms')
    ]

-- `assistant_message_mut`: no id, no message.
unfoldable pub assistant_message_mut :
    Option Text
    → (ConversationMessage → ConversationMessage)
    → SessionData
    → Option (ConversationMessage × SessionData)
unfolding modify_assistant
assistant_message_mut none f d = none
assistant_message_mut (some message_id) f d = elim (modify_assistant message_id f d.messages) [
  | none ↦ none
  | some (m, ms) ↦ some (m, record d { messages = ms })
]

-- The final text replaces the streamed one, unless it is empty.
unfoldable pub settle_text : Text → ConversationMessage → ConversationMessage
settle_text text m =
    if not (is_empty text) && not (m.text == text) then record m { text = text } else m

-- `complete_reply_events`
unfoldable pub complete_reply_events :
    Stamp → SessionData → Text → Option Text → SessionData × List StreamEvent
unfolding message_event assistant_message_mut settle_text conversation_message_event
complete_reply_events stamp d text streamed_message_id =
    let (fresh, fresh_event) = message_event stamp d assistant text in
    elim (assistant_message_mut streamed_message_id (settle_text text) d) [
      | none ↦ (fresh, fresh_event ∷ [])
      | some (message, d') ↦
          let (d'', event) = conversation_message_event d' message false in (d'', event ∷ [])
    ]
