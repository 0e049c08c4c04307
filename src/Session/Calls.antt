-- ===== src/Session/Calls.antt =====
-- Every call that takes the lock of a session, as one type: the methods of `SessionHandle` in
-- crates/acp-web-backend/src/sessions/handle.rs, with the events that their callers in sessions.rs
-- broadcast. A history of a session is a list of calls, in the order in which they got the lock.
-- The callers broadcast after they have let go of the lock, and take it once more for a snapshot: a
-- history is one in which no other call comes in between.
use acp_orchestrator.Common.{ℕ, Text, List, [], ◌∷◌, ◌++◌, Option, none, some, if◌then◌else◌}
use acp_orchestrator.Contracts.Messages.{MessageRole}
use acp_orchestrator.Contracts.Permissions.{PermissionDecision}
use acp_orchestrator.Contracts.Stream.{StreamEvent, snapshot_event}
use acp_orchestrator.Session.Types.{SessionData, Stamp, PromptCompletion, Result, ok, err}
use acp_orchestrator.Session.Prompts.{submit_user_prompt, complete_prompt}
use acp_orchestrator.Session.Turns.{
  start_turn, stream_assistant_chunk, register_permission_request, resolve_permission,
  cancel_active_turn,
}
use acp_orchestrator.Session.Lifecycle.{
  append_message, touch_recent_activity, rename, mark_runtime_unavailable, close, prepare_delete,
  snapshot,
}

pub data Call : Type 0 where
  submits : Stamp → Text → Call
  starts : ℕ → Call
  streams : Stamp → ℕ → Text → Call
  requests : ℕ → Text → Text → Text → Call
  resolves : Text → PermissionDecision → Call
  cancels : Call
  completes : (ℕ → Stamp) → ℕ → PromptCompletion → Call
  appends : Stamp → MessageRole → Text → Call
  touches : ℕ → ℕ → Call
  renames : Text → Call
  disables : Text → Call
  closes : ℕ → Text → Call
  deletes : ℕ → Call

-- The events that a call hands to `broadcast`: none if it fails.
abbrev pub events_of {ℓ} : {A : Type ℓ} → (A → List StreamEvent) → Result A → List StreamEvent
events_of f (ok a) = f a
events_of f (err e) = []

abbrev pub optional : Option StreamEvent → List StreamEvent
optional none = []
optional (some event) = event ∷ []

unfoldable pub step : SessionData → Call → SessionData × List StreamEvent
step d (submits stamp text) =
    let (d', r) = submit_user_prompt stamp d text in (d', events_of (λ a. a.0 ∷ []) r)
step d (starts prompt_order) = ((start_turn d prompt_order).0, [])
step d (streams stamp prompt_order text) =
    let (d', r) = stream_assistant_chunk stamp d prompt_order text in (d', events_of optional r)
step d (requests prompt_order summary approve_option_id deny_option_id) =
    let (d', r) =
      register_permission_request d prompt_order summary approve_option_id deny_option_id in
    (d', events_of (λ a. optional a.0) r)
step d (resolves id decision) =
    let (d', r) = resolve_permission d id decision in
    (d', events_of (λ a. snapshot_event (snapshot d') ∷ []) r)
step d cancels =
    let (d', r) = cancel_active_turn d in
    (d', events_of (λ done. if done then snapshot_event (snapshot d') ∷ [] else []) r)
step d (completes stamps prompt_order completion) =
    let (d', r) = complete_prompt stamps d prompt_order completion in (d', events_of (λ a. a) r)
step d (appends stamp role text) = ((append_message stamp d role text).0, [])
step d (touches now recent_order) = (touch_recent_activity now d recent_order, [])
step d (renames title) = (rename d title, [])
step d (disables reason) = ((mark_runtime_unavailable d reason).0, [])
step d (closes now reason) = let (d', r) = close now d reason in (d', events_of (λ a. a ∷ []) r)
step d (deletes now) = (prepare_delete now d, [])

unfoldable pub run : SessionData → List Call → SessionData × List StreamEvent
run d [] = (d, [])
run d (c ∷ cs) =
    let (d', events) = step d c in let (last, rest) = run d' cs in (last, events ++ rest)
