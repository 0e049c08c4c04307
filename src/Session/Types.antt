-- ===== src/Session/Types.antt =====
-- The types of crates/acp-web-backend/src/sessions/handle.rs and the errors of sessions.rs.
-- A method holds the lock of the session from its first to its last access, so each is one step.
use acp_orchestrator.Common.{ℕ, Bool, Text, List, Option}
use acp_orchestrator.Common.Assoc.{Assoc}
use acp_orchestrator.Contracts.Messages.{ConversationMessage}
use acp_orchestrator.Contracts.Sessions.{SessionStatus}
use acp_orchestrator.Contracts.Stream.{StreamEvent}

pub data SessionStoreError : Type 0 where
  not_found forbidden closed runtime_unavailable : SessionStoreError
  empty_prompt permission_not_found session_cap_reached : SessionStoreError

pub data Result {ℓ} (A : Type ℓ) : Type ℓ where
  ok : A → Result A
  err : SessionStoreError → Result A

pub data PermissionResolutionOutcome : Type 0 where
  selected : Text → PermissionResolutionOutcome
  cancelled : PermissionResolutionOutcome

-- The shared half of a `oneshot` channel: nothing sent yet, a value sent, or the sender dropped.
pub data Oneshot : Type 0 where
  waiting : Oneshot
  sent : PermissionResolutionOutcome → Oneshot
  dropped : Oneshot

-- `cancel_tx` is the index of the turn's watch channel in `cancel_flags`.
pub record ActiveTurn : Type 0 where
  pub prompt_order : ℕ
  pub cancel_tx : ℕ
  pub cancelled : Bool
  pub assistant_message_id : Option Text

pub data PromptCompletion : Type 0 where
  reply : Text → Option Text → PromptCompletion
  status : Text → Option Text → PromptCompletion
  none : PromptCompletion

-- `outcome_tx` is the index of the request's oneshot channel in `outcomes`.
pub record PendingPermission : Type 0 where
  pub request_order : ℕ
  pub prompt_order : ℕ
  pub summary : Text
  pub approve_option_id : Text
  pub deny_option_id : Text
  pub outcome_tx : Option ℕ

-- The last two fields are the shared halves of the channels that the session has made so far, which
-- the receivers outside the lock read: a watch channel's value, and a oneshot channel's state.
pub record SessionData : Type 0 where
  pub id : Text
  pub owner : Text
  pub workspace_id : Text
  pub title : Text
  pub title_is_auto : Bool
  pub status : SessionStatus
  pub closed_at : Option ℕ
  pub last_activity_at : ℕ
  pub recent_order : ℕ
  pub latest_sequence : ℕ
  pub next_prompt_order : ℕ
  pub next_permission_request_id : ℕ
  pub next_completion_order : ℕ
  pub pending_completions : Assoc ℕ PromptCompletion
  pub pending_permissions : Assoc Text PendingPermission
  pub active_turn : Option ActiveTurn
  pub runtime_unavailable_reason : Option Text
  pub messages : List ConversationMessage
  pub cancel_flags : List Bool
  pub outcomes : List Oneshot

-- `sent` lists what the broadcast channel was given, oldest first.
pub record SessionHandle : Type 0 where
  pub sender : List StreamEvent
  pub session_data : SessionData

-- What a call takes from outside: a fresh `Uuid::new_v4().simple()` and `Utc::now()`.
pub record Stamp : Type 0 where
  pub uuid : Text
  pub now : ℕ
