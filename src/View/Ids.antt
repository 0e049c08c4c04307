-- ===== src/View/Ids.antt =====
-- The entries of the page: crates/acp-web-frontend/src/session_page_actions/stream/events.rs.
use acp_orchestrator.Common.{
  ℕ, ◌≡◌, refl, Bool, false, ◌&&◌, ◌||◌, Text, codes, List, [], ◌∷◌, ◌++◌, map, any, is_empty, trim,
  All, Bool-cases, either_branch, inl, inr, arith, ◌==◌, ==_iff, text_eq,
}
use acp_orchestrator.Contracts.Messages.{ConversationMessage}
use acp_orchestrator.Contracts.Sessions.{SessionStatus, SessionSnapshot}
use acp_orchestrator.Contracts.Stream.{StreamEvent, StreamEventPayload}
use acp_orchestrator.View.Types.{
  SessionEntry, SessionSignals, from_message, status_entry, bootstrap_entries, is_status,
  closed_session_message,
}
use acp_orchestrator.View.Events.{
  apply_session_snapshot, put_message, apply_conversation_message, push_entry, push_status_entry,
  push_tool_activity_entry, apply_permission_request, apply_session_closed, apply_status_update,
  apply_payload, handle_sse_event, handle_events,
}

abbrev pub has_id : Text → List SessionEntry → Bool
has_id id entries = any (λ entry. entry.id == id) entries

-- No two entries have one id.
abbrev pub DistinctIds : List SessionEntry → Type 0
DistinctIds [] = Unit
DistinctIds (entry ∷ entries) = (has_id entry.id entries ≡ false) × DistinctIds entries

-- The messages of a snapshot have ids of their own, and none has that of the ended session's note.
abbrev pub OwnIds : SessionSnapshot → Type 0
OwnIds session =
    DistinctIds (map from_message session.messages)
    × (has_id (codes "status-session-ended") (map from_message session.messages) ≡ false)

has_id-append :
    (id : Text) (xs : List SessionEntry) (x : SessionEntry)
    → has_id id (xs ++ x ∷ []) ≡ (has_id id xs || x.id == id)
has_id-append id [] x = ground arith
has_id-append id (y ∷ xs) x = ground (arith, has_id-append id xs x)

append-DistinctIds :
    (xs : List SessionEntry) (x : SessionEntry)
    → DistinctIds xs
    → has_id x.id xs ≡ false
    → DistinctIds (xs ++ x ∷ [])
append-DistinctIds [] x d h = (refl, tt)
append-DistinctIds (y ∷ xs) x d h = (
  ground (arith, has_id-append y.id xs x, ==_iff x.id y.id, ==_iff y.id x.id, d.0),
  append-DistinctIds xs x d.1 (ground arith),
)

push_entry-DistinctIds :
    (id text : Text) (entries : List SessionEntry)
    → DistinctIds entries
    → DistinctIds (push_entry id text entries)
unfolding push_entry
push_entry-DistinctIds id text entries d = elim (Bool-cases (is_empty (trim text))) [
  | inl blank ↦ rw blank d
  | inr kept ↦ elim (Bool-cases (any (λ entry. entry.id == id) entries)) [
    | inl there ↦ rw (kept, there) d
    | inr absent ↦ rw (kept, absent) (append-DistinctIds entries (status_entry id text) d absent)
  ]
]

has_id-put_message :
    (id : Text) (message : ConversationMessage) (entries : List SessionEntry)
    → has_id id (put_message message entries) ≡ (has_id id entries || message.id == id)
unfolding put_message
has_id-put_message id message [] = ground arith
has_id-put_message id message (entry ∷ entries) = ground (
  arith,
  has_id-put_message id message entries,
  ==_iff entry.id message.id,
  ==_iff entry.id id,
  ==_iff message.id id,
)

put_message-DistinctIds :
    (message : ConversationMessage) (entries : List SessionEntry)
    → DistinctIds entries
    → DistinctIds (put_message message entries)
unfolding put_message
put_message-DistinctIds message [] d = (refl, tt)
put_message-DistinctIds message (entry ∷ entries) d = elim (Bool-cases (entry.id == message.id)) [
  | inl hit ↦ rw hit (d.0, d.1)
  | inr miss ↦ rw miss (
    ground (
      arith,
      has_id-put_message entry.id message entries,
      ==_iff entry.id message.id,
      ==_iff message.id entry.id,
      d.0,
    ),
    put_message-DistinctIds message entries d.1,
  )
]

bootstrap_entries-DistinctIds :
    (status : SessionStatus) (messages : List ConversationMessage)
    → DistinctIds (map from_message messages)
    → has_id (codes "status-session-ended") (map from_message messages) ≡ false
    → DistinctIds (bootstrap_entries status messages)
unfolding bootstrap_entries
bootstrap_entries-DistinctIds SessionStatus.active messages d h = d
bootstrap_entries-DistinctIds SessionStatus.closed messages d h =
    either_branch DistinctIds
      (any (λ entry. is_status entry.role && entry.text == closed_session_message)
        (map from_message messages))
      _ _ d
      (append-DistinctIds (map from_message messages)
        (status_entry (codes "status-session-ended") closed_session_message) d h)

abbrev pub PayloadOwnIds : StreamEventPayload → Type 0
PayloadOwnIds (StreamEventPayload.session_snapshot session) = OwnIds session
PayloadOwnIds _ = Unit

abbrev pub SnapshotOwnIds : StreamEvent → Type 0
SnapshotOwnIds event = PayloadOwnIds event.payload

apply_payload-DistinctIds :
    (sequence : ℕ) (payload : StreamEventPayload) (s : SessionSignals)
    → PayloadOwnIds payload
    → DistinctIds s.entries
    → DistinctIds (apply_payload sequence payload s).entries
unfolding apply_payload apply_session_snapshot apply_conversation_message apply_permission_request
    apply_session_closed apply_status_update push_status_entry push_tool_activity_entry
apply_payload-DistinctIds sequence (StreamEventPayload.session_snapshot session) s h d =
    bootstrap_entries-DistinctIds session.status session.messages h.0 h.1
apply_payload-DistinctIds sequence (StreamEventPayload.conversation_message message partial) s h d =
    put_message-DistinctIds message s.entries d
apply_payload-DistinctIds sequence (StreamEventPayload.permission_requested request) s h d =
    push_entry-DistinctIds _ _ s.entries d
apply_payload-DistinctIds sequence (StreamEventPayload.session_closed session_id reason) s h d =
    push_entry-DistinctIds _ _ s.entries d
apply_payload-DistinctIds sequence (StreamEventPayload.status message) s h d =
    push_entry-DistinctIds _ _ s.entries d

-- Over any stream of events whose snapshots have messages of distinct ids, none of them that of
-- the note for an ended session, the entries of the page keep distinct ids.
pub handle_events-DistinctIds :
    (events : List StreamEvent) (s : SessionSignals)
    → All SnapshotOwnIds events
    → DistinctIds s.entries
    → DistinctIds (handle_events events s).entries
unfolding handle_events handle_sse_event
handle_events-DistinctIds [] s h d = d
handle_events-DistinctIds (event ∷ events) s h d =
    handle_events-DistinctIds events (handle_sse_event event s) h.1
      (apply_payload-DistinctIds event.sequence event.payload s h.0 d)
