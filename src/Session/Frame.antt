-- ===== src/Session/Frame.antt =====
-- What answering requests and cancelling turns leave alone: all but the requests, the turn and the
-- channels.
use acp_orchestrator.Common.{
  ℕ, zero, suc, nat_eq, ◌≡◌, refl, ◌∙◌, Text, List, [], ◌∷◌, Option, none, some, arith,
  Option-cases, inl, inr, text_eq,
}
use acp_orchestrator.Common.Assoc.{get}
use acp_orchestrator.Session.Types.{
  SessionData, ActiveTurn, PendingPermission, Stamp, PromptCompletion, PermissionResolutionOutcome,
}
use acp_orchestrator.Session.Channels.{
  resolve_one, resolve_each, resolve_permissions_for_prompt_locked, cancel_each, requests_of,
  prompt_orders,
}
use acp_orchestrator.Session.Events.{complete_reply_events}
use acp_orchestrator.Session.Prompts.{
  clear_turn_state_locked, completion_events, status_completion_events, next_pending_completion,
  drain,
}
use acp_orchestrator.Session.Turns.{cancel_turn, cancel_all_turns_locked, flag_active_turn}

abbrev pub core : SessionData → SessionData
core d = record d { pending_permissions = []; active_turn = none; cancel_flags = []; outcomes = [] }

core-resolve_one :
    (id : Text) (outcome : PermissionResolutionOutcome) (d : SessionData)
    (p : Option PendingPermission)
    → core (resolve_one id outcome d p) ≡ core d
unfolding resolve_one
core-resolve_one id outcome d none = refl
core-resolve_one id outcome d (some p) = refl

core-resolve_each :
    (ids : List Text) (outcome : PermissionResolutionOutcome) (d : SessionData)
    → core (resolve_each ids outcome d) ≡ core d
unfolding resolve_each
core-resolve_each [] outcome d = refl
core-resolve_each (id ∷ ids) outcome d =
    core-resolve_each ids outcome (resolve_one id outcome d (get id d.pending_permissions))
    ∙ core-resolve_one id outcome d (get id d.pending_permissions)

pub core-resolve_permissions :
    (d : SessionData) (prompt_order : ℕ) (outcome : PermissionResolutionOutcome)
    → core (resolve_permissions_for_prompt_locked d prompt_order outcome) ≡ core d
unfolding resolve_permissions_for_prompt_locked
core-resolve_permissions d prompt_order outcome =
    core-resolve_each (requests_of prompt_order d.pending_permissions) outcome d

core-cancel_each : (orders : List ℕ) (d : SessionData) → core (cancel_each orders d) ≡ core d
unfolding cancel_each
core-cancel_each [] d = refl
core-cancel_each (o ∷ orders) d =
    core-cancel_each orders _ ∙ core-resolve_permissions d o PermissionResolutionOutcome.cancelled

core-flag_active_turn :
    (d : SessionData) (t : Option ActiveTurn) → core (flag_active_turn d t) ≡ core d
unfolding flag_active_turn
core-flag_active_turn d none = refl
core-flag_active_turn d (some t) = refl

pub core-cancel_all_turns : (d : SessionData) → core (cancel_all_turns_locked d) ≡ core d
unfolding cancel_all_turns_locked
core-cancel_all_turns d =
    core-cancel_each (prompt_orders (flag_active_turn d d.active_turn).pending_permissions)
      (flag_active_turn d d.active_turn)
    ∙ core-flag_active_turn d d.active_turn

pub core-cancel_turn : (d : SessionData) (t : Option ActiveTurn) → core (cancel_turn d t).0 ≡ core d
unfolding cancel_turn
core-cancel_turn d none = refl
core-cancel_turn d (some t) =
    core-resolve_permissions _ t.prompt_order PermissionResolutionOutcome.cancelled ∙ ground arith

pub core-clear_turn_state :
    (d : SessionData) (prompt_order : ℕ) → core (clear_turn_state_locked d prompt_order) ≡ core d
unfolding clear_turn_state_locked
core-clear_turn_state d prompt_order =
    core-resolve_permissions _ prompt_order PermissionResolutionOutcome.cancelled ∙ ground arith

-- What delivering completions leaves alone.
abbrev pub undelivered : SessionData → SessionData
undelivered d = record d {
  latest_sequence = 0;
  messages = [];
  pending_completions = [];
  next_completion_order = 0;
}

module _ (stamp : Stamp) where
  undelivered-complete_reply :
      (d : SessionData) (text : Text) (id : Option Text)
      → undelivered (complete_reply_events stamp d text id).0 ≡ undelivered d
  unfolding complete_reply_events
  undelivered-complete_reply d text id = ground arith

  undelivered-completion :
      (d : SessionData) (c : PromptCompletion)
      → undelivered (completion_events stamp d c).0 ≡ undelivered d
  unfolding completion_events status_completion_events
  undelivered-completion d (PromptCompletion.reply text id) = undelivered-complete_reply d text id
  undelivered-completion d (PromptCompletion.status message none) = refl
  undelivered-completion d (PromptCompletion.status message (some id)) =
      undelivered-complete_reply d [] (some id)
  undelivered-completion d PromptCompletion.none = refl

pub undelivered-next_pending :
    (d : SessionData) (c : PromptCompletion) (d' : SessionData)
    → next_pending_completion d ≡ some (c, d')
    → undelivered d' ≡ undelivered d
unfolding next_pending_completion
undelivered-next_pending d c d' e = ground arith

pub undelivered-drain :
    (fuel : ℕ) (stamps : ℕ → Stamp) (d : SessionData)
    → undelivered (drain fuel stamps d).0 ≡ undelivered d
unfolding drain
undelivered-drain zero stamps d = refl
undelivered-drain (suc fuel) stamps d = elim (Option-cases (next_pending_completion d)) [
  | inl e ↦ rw (e, drain) refl
  | inr ((c, d'), e) ↦
      rw (e, drain)
        (undelivered-drain fuel (λ n. stamps (suc n)) (completion_events (stamps 0) d' c).0
          ∙ undelivered-completion (stamps 0) d' c
          ∙ undelivered-next_pending d c d' e)
]
