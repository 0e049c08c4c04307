-- ===== src/Session/Closed.antt =====
-- A session that is closed: what it has let go of, and that it stays closed.
use acp_orchestrator.Common.{
  text_eq, ℕ, suc, ◌≡◌, refl, ap, ◌∙◌, sym, ◌⊎◌, inl, inr, true, Text, [], Option, none, some,
  arith, length, is_some, Bool-cases, get_elem?, subst,
}
use acp_orchestrator.Common.Assoc.{get}
use acp_orchestrator.Contracts.Sessions.{SessionStatus, active, closed, is_closed}
use acp_orchestrator.Session.Types.{
  SessionData, PermissionResolutionOutcome, PromptCompletion, Stamp, ActiveTurn, waiting, sent,
}
use acp_orchestrator.Session.Settles.{WiredData}
use acp_orchestrator.Session.Cancel.{cancel_all-nothing, cancel_all-Wired, cancel_all-Answered}
use acp_orchestrator.Session.Frame.{
  core-cancel_all_turns, core-cancel_turn, core-clear_turn_state, undelivered-drain,
}
use acp_orchestrator.Session.Prompts.{
  submit_user_prompt, drain, drain_pending_completion_events, file_completion, complete_prompt,
}
use acp_orchestrator.Session.Turns.{
  start_turn, stream_assistant_chunk, stream_into, register_permission_request, resolve_permission,
  cancel_active_turn, cancel_all_turns_locked, cancelled_resolution,
}
use acp_orchestrator.Session.Lifecycle.{
  append_message, touch_recent_activity, rename, mark_runtime_unavailable, close, prepare_delete,
  closing_time,
}
use acp_orchestrator.Session.Calls.{
  Call, streams, cancels, completes, disables, closes, deletes, step,
}

-- What a closed session shows and numbers.
pub record Frozen (d d' : SessionData) : Type 0 where
  pub status : d'.status ≡ closed
  pub messages : d'.messages ≡ d.messages
  pub latest_sequence : d'.latest_sequence ≡ d.latest_sequence
  pub prompts : d'.next_prompt_order ≡ d.next_prompt_order
  pub completions : d'.next_completion_order ≡ d.next_completion_order

-- Every call on a closed session broadcasts nothing, leaves it closed, and changes neither its
-- messages, its latest_sequence, nor its prompt and completion orders.
pub step-Frozen :
    (d : SessionData) (c : Call) → d.status ≡ closed → ((step d c).1 ≡ []) × Frozen d (step d c).0
unfolding step submit_user_prompt start_turn stream_assistant_chunk register_permission_request
    resolve_permission cancel_active_turn complete_prompt append_message touch_recent_activity
    rename mark_runtime_unavailable close prepare_delete
step-Frozen d (deletes now) h = (
  refl,
  record {
    status = refl;
    messages = ap (λ (x : SessionData). x.messages) (core-cancel_all_turns d);
    latest_sequence = ap (λ (x : SessionData). x.latest_sequence) (core-cancel_all_turns d);
    prompts = ap (λ (x : SessionData). x.next_prompt_order) (core-cancel_all_turns d);
    completions = ap (λ (x : SessionData). x.next_completion_order) (core-cancel_all_turns d);
  },
)
step-Frozen d _ h = ground arith

-- What a closed session has let go of.
pub record Released (d : SessionData) : Type 0 where
  pub closed_at : is_some d.closed_at ≡ true
  pub pending_completions : d.pending_completions ≡ []
  pub pending_permissions : d.pending_permissions ≡ []
  pub active_turn : d.active_turn ≡ none

-- A session that is closed has let go of it.
abbrev pub ReleasedBy : SessionStatus → SessionData → Type 0
ReleasedBy active d = Unit
ReleasedBy closed d = Released d

abbrev pub ClosedReleased : SessionData → Type 0
ClosedReleased d = ReleasedBy d.status d

status-cases : (s : SessionStatus) → (s ≡ active) ⊎ (s ≡ closed)
status-cases active = inl refl
status-cases closed = inr refl

closing_time-IsSome :
    (now : ℕ) (s : SessionStatus) (t : Option ℕ) → is_some (closing_time now s t) ≡ true
unfolding closing_time
closing_time-IsSome now active t = refl
closing_time-IsSome now closed none = refl
closing_time-IsSome now closed (some t) = refl

no_turn : (d : SessionData) → (cancel_all_turns_locked d).active_turn ≡ none
unfolding cancel_all_turns_locked
no_turn d = refl

closed_step-Released :
    (d : SessionData) (c : Call)
    → WiredData d
    → d.status ≡ closed
    → Released d
    → Released (step d c).0
unfolding step submit_user_prompt start_turn stream_assistant_chunk register_permission_request
    resolve_permission cancel_active_turn complete_prompt append_message touch_recent_activity
    rename mark_runtime_unavailable close prepare_delete
closed_step-Released d (deletes now) w h r = record {
  closed_at =
      closing_time-IsSome now (cancel_all_turns_locked d).status
        (cancel_all_turns_locked d).closed_at;
  pending_completions = refl;
  pending_permissions = cancel_all-nothing d w;
  active_turn = no_turn d;
}
closed_step-Released d _ w h r = ground arith

-- An open session stays open over every call but `close` and `prepare_delete`.
abbrev pub Ends : Call → Type 0
Ends (closes _ _) = Unit
Ends (deletes _) = Unit
Ends _ = ⊥

stream-active :
    (stamp : Stamp) (d : SessionData) (t : Option ActiveTurn) (prompt_order : ℕ) (text : Text)
    → (stream_into stamp d t prompt_order text).0.status ≡ d.status
unfolding stream_into
stream-active stamp d none prompt_order text = refl
stream-active stamp d (some t) prompt_order text = ground arith

pub complete-active :
    (stamps : ℕ → Stamp) (d : SessionData) (prompt_order : ℕ) (c : PromptCompletion)
    → (complete_prompt stamps d prompt_order c).0.status ≡ d.status
unfolding complete_prompt drain_pending_completion_events file_completion
complete-active stamps d prompt_order c = elim (Bool-cases (is_closed d.status)) [
  | inl e ↦ rw e refl
  | inr e ↦
      rw e (drained ∙ ap (λ (x : SessionData). x.status) (core-clear_turn_state d prompt_order))
]
  where
    filed : SessionData
    filed = file_completion d prompt_order c

    drained : (drain (suc (length filed.pending_completions)) stamps filed).0.status ≡ filed.status
    drained =
        ap (λ (x : SessionData). x.status)
          (undelivered-drain (suc (length filed.pending_completions)) stamps filed)

pub open_step-active :
    (d : SessionData) (c : Call) → d.status ≡ active → ¬ Ends c → (step d c).0.status ≡ active
unfolding step submit_user_prompt start_turn stream_assistant_chunk register_permission_request
    resolve_permission cancel_active_turn append_message touch_recent_activity rename
    mark_runtime_unavailable cancelled_resolution
open_step-active d (streams stamp prompt_order text) h n =
    ground (arith, stream-active stamp d d.active_turn prompt_order text)
open_step-active d cancels h n =
    ground (arith, ap (λ (x : SessionData). x.status) (core-cancel_turn d d.active_turn))
open_step-active d (completes stamps prompt_order c) h n =
    complete-active stamps d prompt_order c ∙ h
open_step-active d (disables reason) h n =
    ground (arith, ap (λ (x : SessionData). x.status) (core-cancel_all_turns d))
open_step-active d (closes now reason) h n = absurd (n tt)
open_step-active d (deletes now) h n = absurd (n tt)
open_step-active d _ h n = ground arith

-- Ending an open session: it is closed, has let go of everything, and every receiver that waited
-- has its request cancelled.
pub record Ended (d d' : SessionData) : Type 0 where
  pub status : d'.status ≡ closed
  pub released : Released d'
  pub cancelled :
      (i : ℕ)
      → get_elem? d.outcomes i ≡ some waiting
      → get_elem? d'.outcomes i ≡ some (sent PermissionResolutionOutcome.cancelled)

-- After `cancel_all_turns_locked` nobody waits.
told :
    (d : SessionData)
    → WiredData d
    → (i : ℕ) → get_elem? d.outcomes i ≡ some waiting
    → get_elem? (cancel_all_turns_locked d).outcomes i
      ≡ some (sent PermissionResolutionOutcome.cancelled)
unfolding get
told d w i e = elim (cancel_all-Answered d w i) [
  | inl same ↦
      let (id, p, g, _) = (cancel_all-Wired d w).accounted i (same ∙ e) in
      let gone = subst (λ m. get id m ≡ some p) (cancel_all-nothing d w) g in cc
  | inr (_, h) ↦ h
]

-- close and prepare_delete on an open session with wired data close it with a closing time, empty
-- its queue of completions, its pending requests and its active turn, and every permission channel
-- that waited gets the answer cancelled.
pub step-Ended :
    (d : SessionData) (c : Call) → WiredData d → d.status ≡ active → Ends c → Ended d (step d c).0
unfolding step close prepare_delete
step-Ended d (closes now reason) w h n = rw (ap is_closed h) (record {
  status = refl;
  released = record {
    closed_at = refl;
    pending_completions = refl;
    pending_permissions = cancel_all-nothing d w;
    active_turn = no_turn d;
  };
  cancelled = told d w;
})
step-Ended d (deletes now) w h n = record {
  status = refl;
  released = record {
    closed_at =
        closing_time-IsSome now (cancel_all_turns_locked d).status
          (cancel_all_turns_locked d).closed_at;
    pending_completions = refl;
    pending_permissions = cancel_all-nothing d w;
    active_turn = no_turn d;
  };
  cancelled = told d w;
}
step-Ended d _ w h n = absurd n

pub Ends-dec : (c : Call) → Ends c ⊎ (¬ Ends c)
Ends-dec (closes _ _) = inl tt
Ends-dec (deletes _) = inl tt
Ends-dec _ = inr (λ x. x)

released_by : (d : SessionData) → Released d → (s : SessionStatus) → ReleasedBy s d
released_by d r active = tt
released_by d r closed = r

-- Every call on wired data keeps: a session that is closed has a closing time, no queued
-- completion, no pending request and no active turn.
pub step-ClosedReleased :
    (d : SessionData) (c : Call) → WiredData d → ClosedReleased d → ClosedReleased (step d c).0
step-ClosedReleased d c w r = elim (status-cases d.status) [
  | inr e ↦ released_by _ (closed_step-Released d c w e (subst (λ s. ReleasedBy s d) e r)) _
  | inl e ↦ elim (Ends-dec c) [
    | inl n ↦ released_by _ (step-Ended d c w e n).released _
    | inr n ↦ subst (λ s. ReleasedBy s (step d c).0) (sym (open_step-active d c e n)) tt
  ]
]
