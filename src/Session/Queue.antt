-- ===== src/Session/Queue.antt =====
-- What each call on a session does to its queue of completions.
use mathlib.Core.Path.{subst₂}
use acp_orchestrator.Common.{
  ℕ, zero, suc, ◌+◌, ◌≤◌, ◌<◌, ◌≡◌, refl, ap, ◌∙◌, inl, inr, Text, Option, none, some, arith,
  length, Option-cases, nat_eq,
}
use acp_orchestrator.Common.Assoc.{insert, length-insert-le, length-remove-lt}
use acp_orchestrator.Common.Word.{succ_u64-eq, u64_mod}
use acp_orchestrator.Contracts.Sessions.{active, is_closed}
use acp_orchestrator.Session.Types.{SessionData, PromptCompletion, Stamp, ActiveTurn}
use acp_orchestrator.Session.Frame.{
  core, core-clear_turn_state, core-cancel_turn, core-cancel_all_turns,
}
use acp_orchestrator.Session.Prompts.{
  submit_user_prompt, completion_events, drain, drain_pending_completion_events,
  next_pending_completion, file_completion, complete_prompt, clear_turn_state_locked,
  completion_with_streamed_message, streamed_message_id_for_prompt,
}
use acp_orchestrator.Session.Turns.{
  start_turn, stream_assistant_chunk, stream_into, register_permission_request, resolve_permission,
  cancel_active_turn, cancelled_resolution,
}
use acp_orchestrator.Session.Lifecycle.{
  append_message, touch_recent_activity, rename, mark_runtime_unavailable,
}
use acp_orchestrator.Session.Calls.{
  Call, streams, cancels, completes, disables, closes, deletes, step,
}
use acp_orchestrator.Session.Delivery.{Delivered, Drained, drain-Drained}
use acp_orchestrator.Session.Releases.{
  next_pending-Took, queue-completion, SameLog, Released, drain-Released,
}

pub drain-size :
    (fuel : ℕ) (stamps : ℕ → Stamp) (d : SessionData)
    → d.next_completion_order + fuel < u64_mod
    → (drain fuel stamps d).0.next_completion_order
        + length (drain fuel stamps d).0.pending_completions
      ≤ d.next_completion_order + length d.pending_completions
unfolding drain
drain-size zero stamps d h = omega arith
drain-size (suc fuel) stamps d h = elim (Option-cases (next_pending_completion d)) [
  | inl e ↦ rw (e, drain) (omega arith)
  | inr ((c, d'), e) ↦
      let t = next_pending-Took d c d' e in
      let q = queue-completion (stamps 0) d' c in
      let d'' = (completion_events (stamps 0) d' c).0 in
      let next : d''.next_completion_order ≡ d.next_completion_order + 1 =
        q.1 ∙ t.next ∙ succ_u64-eq d.next_completion_order (omega arith) in
      let later = drain-size fuel (λ i. stamps (suc i)) d'' (omega (arith, next)) in
      let shorter = length-remove-lt d.next_completion_order d.pending_completions t.there in
      rw (e, drain) (omega (arith, later, next, shorter, ap length (q.0 ∙ t.rest)))
]

-- Only the queue and its next order count.
Drained-from :
    (d e last : SessionData)
    → d.next_completion_order ≡ e.next_completion_order
    → d.pending_completions ≡ e.pending_completions
    → Drained d last
    → Drained e last
Drained-from d e last next queue dr = record {
  count = dr.count;
  delivered =
      subst₂ (λ n x. Delivered dr.count n x last.pending_completions) next queue dr.delivered;
  next = omega (arith, dr.next, next);
}

-- The completion that `complete_prompt` files: with the message that the prompt streamed, if any.
abbrev pub settled : SessionData → ℕ → PromptCompletion → PromptCompletion
settled d order c =
    completion_with_streamed_message c (streamed_message_id_for_prompt d.active_turn order)

module _ (d : SessionData) (order : ℕ) (c : PromptCompletion) where
  filed-core : core (clear_turn_state_locked d order) ≡ core d
  filed-core = core-clear_turn_state d order

  pub filed-next : (file_completion d order c).next_completion_order ≡ d.next_completion_order
  unfolding file_completion
  filed-next = ap (λ (x : SessionData). x.next_completion_order) filed-core

  pub filed-queue :
      (file_completion d order c).pending_completions
      ≡ insert order (settled d order c) d.pending_completions
  unfolding file_completion
  filed-queue =
      ap (λ (x : SessionData). insert order (settled d order c) x.pending_completions) filed-core

  filed-SameLog : SameLog (file_completion d order c) d
  unfolding file_completion
  filed-SameLog = record {
    messages = ap (λ (x : SessionData). x.messages) filed-core;
    latest_sequence = ap (λ (x : SessionData). x.latest_sequence) filed-core;
  }

  -- The loop has a round for each completion and one more.
  pub filed_room :
      d.next_completion_order + length d.pending_completions + 2 < u64_mod
      → (file_completion d order c).next_completion_order
          + suc (length (file_completion d order c).pending_completions)
        < u64_mod
  filed_room h = omega (
    arith,
    filed-next,
    ap length filed-queue,
    length-insert-le order (settled d order c) d.pending_completions,
  )

-- `complete_prompt` on an open session releases from the queue with the completion filed.
pub complete-Released :
    (d : SessionData) (stamps : ℕ → Stamp) (order : ℕ) (c : PromptCompletion)
    → d.status ≡ active
    → d.next_completion_order + length d.pending_completions + 2 < u64_mod
    → let queue = insert order (settled d order c) d.pending_completions in
      let result = step d (completes stamps order c) in
      Released stamps d.next_completion_order queue d result
      × Drained (record d { pending_completions = queue }) result.0
unfolding step complete_prompt drain_pending_completion_events
complete-Released d stamps order c is_open h = rw (ap is_closed is_open) (
  subst₂ (λ n queue. Released stamps n queue d (drain fuel stamps filed)) (filed-next d order c)
      (filed-queue d order c) (drain-Released fuel stamps filed d (filed-SameLog d order c) room),
  Drained-from _ _ _ (filed-next d order c) (filed-queue d order c)
      (drain-Drained fuel stamps filed room),
)
  where
    filed : SessionData
    filed = file_completion d order c

    fuel : ℕ
    fuel = suc (length filed.pending_completions)

    room : filed.next_completion_order + fuel < u64_mod
    room = filed_room d order c h

-- The calls other than `complete_prompt`, `close` and `prepare_delete` leave the queue alone.
abbrev pub IsOther : Call → Type 0
IsOther (completes _ _ _) = ⊥
IsOther (closes _ _) = ⊥
IsOther (deletes _) = ⊥
IsOther _ = Unit

same_stream :
    (stamp : Stamp) (d : SessionData) (t : Option ActiveTurn) (order : ℕ) (text : Text)
    → ((stream_into stamp d t order text).0.pending_completions ≡ d.pending_completions)
      × ((stream_into stamp d t order text).0.next_completion_order ≡ d.next_completion_order)
unfolding stream_into
same_stream stamp d none order text = (refl, refl)
same_stream stamp d (some t) order text = (ground arith, ground arith)

pub same_queue :
    (d : SessionData) (c : Call)
    → IsOther c
    → ((step d c).0.pending_completions ≡ d.pending_completions)
      × ((step d c).0.next_completion_order ≡ d.next_completion_order)
unfolding step submit_user_prompt start_turn stream_assistant_chunk register_permission_request
    resolve_permission cancel_active_turn append_message touch_recent_activity rename
    mark_runtime_unavailable cancelled_resolution
same_queue d (streams stamp order text) h =
    let same = same_stream stamp d d.active_turn order text in
    (ground (arith, same.0), ground (arith, same.1))
same_queue d cancels h =
    let same = core-cancel_turn d d.active_turn in
    (
      ground (arith, ap (λ (x : SessionData). x.pending_completions) same),
      ground (arith, ap (λ (x : SessionData). x.next_completion_order) same),
    )
same_queue d (disables reason) h =
    let same = core-cancel_all_turns d in
    (
      ground (arith, ap (λ (x : SessionData). x.pending_completions) same),
      ground (arith, ap (λ (x : SessionData). x.next_completion_order) same),
    )
same_queue d (completes _ _ _) h = absurd h
same_queue d (closes _ _) h = absurd h
same_queue d (deletes _) h = absurd h
same_queue d _ h = (ground arith, ground arith)
