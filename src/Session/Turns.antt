-- ===== src/Session/Turns.antt =====
-- Running turns and their permission requests, in crates/acp-web-backend/src/sessions/handle.rs.
use acp_orchestrator.Common.{
  ℕ, Bool, true, false, not, ◌||◌, Text, codes, decimal, List, [], ◌∷◌, ◌++◌, Option, none, some,
  length, set, is_some, is_empty, if◌then◌else◌, ◌==◌, nat_eq, text_eq,
}
use acp_orchestrator.Common.Assoc.{get, insert, remove}
use acp_orchestrator.Common.Word.{succ_u64}
use acp_orchestrator.Contracts.Messages.{ConversationMessage, assistant}
use acp_orchestrator.Contracts.Permissions.{
  PermissionDecision, approve, deny, ResolvePermissionResponse,
}
use acp_orchestrator.Contracts.Sessions.{is_closed}
use acp_orchestrator.Contracts.Stream.{StreamEvent, permission_requested}
use acp_orchestrator.Session.Types.{
  SessionData, Stamp, ActiveTurn, PendingPermission, Oneshot, waiting, sent, dropped, cancelled,
  selected, Result, ok, err, SessionStoreError,
}
use acp_orchestrator.Session.Channels.{
  resolve, resolve_permissions_for_prompt_locked, send_cancel, cancel_each, prompt_orders,
}
use acp_orchestrator.Session.Events.{new_message, assistant_message_mut, conversation_message_event}

-- `start_turn`: the result is the receiver of the turn's watch channel.
unfoldable pub start_turn : SessionData → ℕ → SessionData × Result ℕ
start_turn d prompt_order =
    let cancel_rx = length d.cancel_flags in
    let turn : ActiveTurn = record {
      prompt_order = prompt_order;
      cancel_tx = cancel_rx;
      cancelled = false;
      assistant_message_id = none;
    } in
    if is_closed d.status
    then (d, err SessionStoreError.closed)
    else if is_some d.runtime_unavailable_reason
    then (d, err SessionStoreError.runtime_unavailable)
    else (
      record d { active_turn = some turn; cancel_flags = d.cancel_flags ++ false ∷ [] },
      ok cancel_rx,
    )

-- The message that a chunk starts, where no streamed message is there to extend.
unfoldable pub start_streamed_message :
    Stamp → SessionData → ActiveTurn → Text → ConversationMessage × SessionData
unfolding new_message
start_streamed_message stamp d turn text =
    let message = new_message stamp assistant text in
    (
      message,
      record d {
        messages = d.messages ++ message ∷ [];
        active_turn = some (record turn { assistant_message_id = some message.id });
      },
    )

unfoldable pub push_str : Text → ConversationMessage → ConversationMessage
push_str text m = record m { text = m.text ++ text }

-- The `match` of `stream_assistant_chunk_locked`.
unfoldable pub extend_or_start :
    Stamp → SessionData → ActiveTurn → Text → ConversationMessage × SessionData
unfolding start_streamed_message push_str assistant_message_mut
extend_or_start stamp d turn text =
    elim (assistant_message_mut turn.assistant_message_id (push_str text) d) [
      | none ↦ start_streamed_message stamp d turn text
      | some found ↦ found
    ]

-- `stream_assistant_chunk_locked`, on the turn that is active
unfoldable pub stream_into :
    Stamp → SessionData → Option ActiveTurn → ℕ → Text → SessionData × Option StreamEvent
unfolding extend_or_start conversation_message_event
stream_into stamp d none prompt_order text = (d, none)
stream_into stamp d (some turn) prompt_order text =
    let (message, d') = extend_or_start stamp d turn text in
    let (d'', event) = conversation_message_event d' message true in
    if not (turn.prompt_order == prompt_order) || turn.cancelled
    then (d, none)
    else (d'', some event)

-- `stream_assistant_chunk`
unfoldable pub stream_assistant_chunk :
    Stamp → SessionData → ℕ → Text → SessionData × Result (Option StreamEvent)
unfolding stream_into
stream_assistant_chunk stamp d prompt_order text =
    let (d', event) = stream_into stamp d d.active_turn prompt_order text in
    if is_empty text
    then (d, ok none)
    else if is_closed d.status
    then (d, err SessionStoreError.closed)
    else (d', ok event)

-- `PendingPermissionResolution::cancelled`: a channel that holds the answer already.
unfoldable pub cancelled_resolution : SessionData → SessionData × ℕ
cancelled_resolution d =
    (record d { outcomes = d.outcomes ++ sent cancelled ∷ [] }, length d.outcomes)

-- A value that a map gives up takes its sender with it, so its receiver learns of the drop.
unfoldable pub drop_sender : Option PendingPermission → List Oneshot → List Oneshot
drop_sender none channels = channels
drop_sender (some pending) channels = elim pending.outcome_tx [
  | none ↦ channels
  | some tx ↦ set channels tx dropped
]

-- `format!("req_{request_order}")`
unfoldable pub request_id : ℕ → Text
unfolding decimal
request_id n = codes "req_" ++ decimal n

-- The part of `register_permission_request` after its guards.
unfoldable pub file_request :
    SessionData → ℕ → Text → Text → Text → SessionData × (Option StreamEvent × ℕ)
unfolding request_id drop_sender
file_request d prompt_order summary approve_option_id deny_option_id =
    let order = d.next_permission_request_id in
    let id = request_id order in
    let rx = length d.outcomes in
    let sequence = succ_u64 d.latest_sequence in
    let pending : PendingPermission = record {
      request_order = order;
      prompt_order = prompt_order;
      summary = summary;
      approve_option_id = approve_option_id;
      deny_option_id = deny_option_id;
      outcome_tx = some rx;
    } in
    let event : StreamEvent = record {
      sequence = sequence;
      payload = permission_requested (record { request_id = id; summary = summary });
    } in
    (
      record d {
        next_permission_request_id = succ_u64 order;
        pending_permissions = insert id pending d.pending_permissions;
        latest_sequence = sequence;
        outcomes = drop_sender (get id d.pending_permissions) d.outcomes ++ waiting ∷ [];
      },
      (some event, rx),
    )

-- The guard of `register_permission_request`: the prompt's turn is active and not cancelled.
unfoldable pub accepts_requests : Option ActiveTurn → ℕ → Bool
accepts_requests none prompt_order = false
accepts_requests (some turn) prompt_order =
    not (not (turn.prompt_order == prompt_order) || turn.cancelled)

-- `register_permission_request`: the result is the event and the receiver of the answer.
unfoldable pub register_permission_request :
    SessionData → ℕ → Text → Text → Text → SessionData × Result (Option StreamEvent × ℕ)
unfolding accepts_requests file_request cancelled_resolution
register_permission_request d prompt_order summary approve_option_id deny_option_id =
    let (filed, answer) = file_request d prompt_order summary approve_option_id deny_option_id in
    let (refused, rx) = cancelled_resolution d in
    if is_closed d.status
    then (d, err SessionStoreError.closed)
    else if accepts_requests d.active_turn prompt_order
    then (filed, ok answer)
    else (refused, ok (none, rx))

unfoldable pub chosen_option : PermissionDecision → PendingPermission → Text
chosen_option approve pending = pending.approve_option_id
chosen_option deny pending = pending.deny_option_id

-- `resolve_permission`
unfoldable pub resolve_permission :
    SessionData → Text → PermissionDecision → SessionData × Result ResolvePermissionResponse
unfolding chosen_option
resolve_permission d id decision =
    if is_closed d.status
    then (d, err SessionStoreError.closed)
    else elim (get id d.pending_permissions) [
      | none ↦ (d, err SessionStoreError.permission_not_found)
      | some pending ↦ (
        record d {
          pending_permissions = remove id d.pending_permissions;
          outcomes = resolve pending (selected (chosen_option decision pending)) d.outcomes;
        },
        ok (record { request_id = id; decision = decision }),
      )
    ]

-- `cancel_active_turn_locked`, on the turn that is active
unfoldable pub cancel_turn : SessionData → Option ActiveTurn → SessionData × Bool
cancel_turn d none = (d, false)
cancel_turn d (some turn) =
    let flagged =
      (if turn.cancelled then d else record d {
        active_turn = some (record turn { cancelled = true });
        cancel_flags = send_cancel turn.cancel_tx d.cancel_flags;
      }) in
    (resolve_permissions_for_prompt_locked flagged turn.prompt_order cancelled, true)

-- `cancel_active_turn`
unfoldable pub cancel_active_turn : SessionData → SessionData × Result Bool
unfolding cancel_turn
cancel_active_turn d =
    let (d', done) = cancel_turn d d.active_turn in
    if is_closed d.status then (d, err SessionStoreError.closed) else (d', ok done)

-- The first step of `cancel_all_turns_locked`.
unfoldable pub flag_active_turn : SessionData → Option ActiveTurn → SessionData
unfolding send_cancel
flag_active_turn d none = d
flag_active_turn d (some turn) = record d {
  active_turn = some (record turn { cancelled = true });
  cancel_flags = send_cancel turn.cancel_tx d.cancel_flags;
}

-- `cancel_all_turns_locked`
unfoldable pub cancel_all_turns_locked : SessionData → SessionData
unfolding flag_active_turn prompt_orders
cancel_all_turns_locked d =
    let flagged = flag_active_turn d d.active_turn in
    let resolved = cancel_each (prompt_orders flagged.pending_permissions) flagged in
    record resolved { active_turn = none }
