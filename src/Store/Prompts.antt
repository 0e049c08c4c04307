-- ===== src/Store/Prompts.antt =====
-- Prompts, permissions and turns through the store, in crates/acp-web-backend/src/sessions.rs.
use acp_orchestrator.Common.{
  ℕ, Bool, Text, [], ◌∷◌, Option, none, some, get_elem?, trim, is_empty, if◌then◌else◌, text_eq,
}
use acp_orchestrator.Contracts.Permissions.{PermissionDecision, ResolvePermissionResponse}
use acp_orchestrator.Session.Types.{
  SessionHandle, Stamp, PromptCompletion, Result, ok, err, SessionStoreError,
}
use acp_orchestrator.Session.Calls.{optional}
use acp_orchestrator.Session.Prompts.{submit_user_prompt, complete_prompt}
use acp_orchestrator.Session.Turns as Turns
use acp_orchestrator.Session.Lifecycle as Lifecycle
use acp_orchestrator.Store.Types.{SessionStore, TurnHandle, PendingPrompt}
use acp_orchestrator.Store.Access.{
  authorized, write, with_data, claim_recent_order, handle_is_active,
}
use acp_orchestrator.Store.Calls.{call, returning, no_events, handle_snapshot_event}

-- `touch_recent_activity`, on the handle at an address
unfoldable pub touch_recent_activity : ℕ → SessionStore → ℕ → SessionStore
unfolding claim_recent_order write
touch_recent_activity now s a =
    let (claimed, recent_order) = claim_recent_order s in
    elim (get_elem? claimed.handles a) [
      | none ↦ claimed
      | some h ↦
          write claimed a
            (with_data h (Lifecycle.touch_recent_activity now h.session_data recent_order))
    ]

-- `submit_prompt`, after its checks
unfoldable pub submit_to_handle :
    Stamp → SessionStore → Text → Text → ℕ → SessionHandle → SessionStore × Result PendingPrompt
unfolding touch_recent_activity
submit_to_handle stamp s session_id text a h =
    let (s', answer) =
      call s a h (λ d r. r.0 ∷ []) (submit_user_prompt stamp h.session_data text) in
    elim answer [
      | err e ↦ (s', err e)
      | ok (event, prompt_order) ↦
          let turn : TurnHandle = record {
            handle = a;
            session_id = session_id;
            prompt_text = text;
            prompt_order = prompt_order;
          } in
          (touch_recent_activity stamp.now s' a, ok (record { turn = turn }))
    ]

-- `submit_prompt`
unfoldable pub submit_prompt :
    Stamp → SessionStore → Text → Text → Text → SessionStore × Result PendingPrompt
submit_prompt stamp s owner session_id text =
    if is_empty (trim text)
    then (s, err SessionStoreError.empty_prompt)
    else authorized s owner session_id (submit_to_handle stamp s session_id text)

-- `mark_runtime_unavailable`
unfoldable pub mark_runtime_unavailable :
    SessionStore → Text → Text → Text → SessionStore × Result (Unit {0})
mark_runtime_unavailable s owner session_id reason =
    authorized s owner session_id
      (λ a h. call s a h no_events (Lifecycle.mark_runtime_unavailable h.session_data reason))

-- `resolve_permission`
unfoldable pub resolve_permission :
    SessionStore
    → Text
    → Text
    → Text
    → PermissionDecision
    → SessionStore × Result ResolvePermissionResponse
resolve_permission s owner session_id request_id decision = authorized s owner session_id (λ a h.
    call s a h (λ d r. handle_snapshot_event d ∷ [])
      (Turns.resolve_permission h.session_data request_id decision))

-- `cancel_active_turn`
unfoldable pub cancel_active_turn : SessionStore → Text → Text → SessionStore × Result Bool
cancel_active_turn s owner session_id = authorized s owner session_id (λ a h.
    call s a h (λ d done. if done then handle_snapshot_event d ∷ [] else [])
      (Turns.cancel_active_turn h.session_data))

module _ {A : Type 0} where
  abbrev pub after_lookup :
      SessionStore
      → Option SessionHandle
      → (SessionHandle → SessionStore × Result A)
      → SessionStore × Result A
  after_lookup s none k = (s, err SessionStoreError.not_found)
  after_lookup s (some h) k = k h

  -- What the turn's handle points to: the memory only grows, so something is always there.
  unfoldable pub at_turn :
      SessionStore → ℕ → (SessionHandle → SessionStore × Result A) → SessionStore × Result A
  at_turn s a k = after_lookup s (get_elem? s.handles a) k

-- `TurnHandle::start_turn`
unfoldable pub start_turn : SessionStore → TurnHandle → SessionStore × Result ℕ
start_turn s turn =
    at_turn s turn.handle
      (λ h. call s turn.handle h no_events (Turns.start_turn h.session_data turn.prompt_order))

-- `TurnHandle::is_active`
unfoldable pub is_active : SessionStore → TurnHandle → SessionStore × Result Bool
is_active s turn = at_turn s turn.handle (λ h. (s, ok (handle_is_active h)))

-- `TurnHandle::register_permission_request`
unfoldable pub register_permission_request :
    SessionStore → TurnHandle → Text → Text → Text → SessionStore × Result ℕ
unfolding returning
register_permission_request s turn summary approve_option_id deny_option_id =
    returning (λ r. r.1)
      (at_turn s turn.handle (λ h.
        call s turn.handle h (λ d r. optional r.0)
          (Turns.register_permission_request h.session_data turn.prompt_order summary
            approve_option_id deny_option_id)))

-- `TurnHandle::stream_assistant_chunk`
unfoldable pub stream_assistant_chunk :
    Stamp → SessionStore → TurnHandle → Text → SessionStore × Result (Unit {0})
unfolding returning
stream_assistant_chunk stamp s turn text =
    returning (λ r. tt)
      (at_turn s turn.handle (λ h.
        call s turn.handle h (λ d r. optional r)
          (Turns.stream_assistant_chunk stamp h.session_data turn.prompt_order text)))

-- What the three `complete_…` methods of `PendingPrompt` share; errors are dropped.
unfoldable pub complete : (ℕ → Stamp) → SessionStore → TurnHandle → PromptCompletion → SessionStore
complete stamps s turn completion =
    (at_turn s turn.handle (λ h.
      call s turn.handle h (λ d events. events)
        (complete_prompt stamps h.session_data turn.prompt_order completion))).0

unfoldable pub complete_with_reply :
    (ℕ → Stamp) → SessionStore → PendingPrompt → Text → SessionStore
unfolding complete
complete_with_reply stamps s prompt text =
    complete stamps s prompt.turn (PromptCompletion.reply text none)

unfoldable pub complete_with_status :
    (ℕ → Stamp) → SessionStore → PendingPrompt → Text → SessionStore
unfolding complete
complete_with_status stamps s prompt message =
    complete stamps s prompt.turn (PromptCompletion.status message none)

unfoldable pub complete_without_output : (ℕ → Stamp) → SessionStore → PendingPrompt → SessionStore
unfolding complete
complete_without_output stamps s prompt = complete stamps s prompt.turn PromptCompletion.none
