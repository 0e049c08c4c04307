-- ===== src/Session/Examples.antt =====
-- A session with two prompts, completed in the wrong order, and the theorems at it.
use acp_orchestrator.Common.{
  ℕ, ◌+◌, ◌≤◌, ◌<◌, ◌≡◌, refl, Text, codes, List, [], ◌∷◌, none, some, arith, get_elem?, take, suc,
  list_eqb, map, nat_eq, text_eq, Listed, is_whitespace,
}
use acp_orchestrator.Common.Assoc.{get, insert}
use acp_orchestrator.Common.Word.{u64_mod, succ_u64}
use acp_orchestrator.Contracts.Messages.{ConversationMessage}
use acp_orchestrator.Contracts.Sessions.{closed}
use acp_orchestrator.Contracts.Stream.{StreamEvent, snapshot_event}
use acp_orchestrator.Contracts.Permissions.{approve}
use acp_orchestrator.Session.Types.{SessionData, PromptCompletion, Stamp, waiting}
use acp_orchestrator.Session.Lifecycle.{new, close, snapshot}
use acp_orchestrator.Session.Calls.{
  Call, submits, starts, completes, closes, requests, resolves, step, run,
}
use acp_orchestrator.Session.Prompts.{
  completion_events, submit_user_prompt, complete_prompt, file_completion, clear_turn_state_locked,
  drain_pending_completion_events,
}
use acp_orchestrator.Session.Turns.{start_turn, register_permission_request, resolve_permission}
use acp_orchestrator.Session.Channels.{resolve_permissions_for_prompt_locked}
use acp_orchestrator.Session.Events.{complete_reply_events}
use acp_orchestrator.Session.Settles.{WiredData}
use acp_orchestrator.Session.Stable.{Kept}
use acp_orchestrator.Session.History.{run-Kept}
use acp_orchestrator.Session.Closed.{
  Frozen, step-Frozen, Ended, step-Ended, ClosedReleased, step-ClosedReleased,
}
use acp_orchestrator.Session.Numbers.{numbered}
use acp_orchestrator.Session.Sequence.{run-numbers}
use acp_orchestrator.Session.Releases.{Released}
use acp_orchestrator.Session.Delivery.{Drained, drain_pending-Drained}
use acp_orchestrator.Session.InOrder.{InPromptOrder, next_is_first_missing}

abbrev fresh : SessionData
unfolding new
fresh = (new (codes "s_1") (codes "alice") (codes "w_1") 5 1).session_data

abbrev stamp : Stamp
stamp = record { uuid = codes "u"; now = 7 }

abbrev stamps : ℕ → Stamp
stamps n = stamp

abbrev answer : Text → PromptCompletion
answer text = PromptCompletion.reply text none

-- Two prompts, answered second first.
abbrev swapped : List Call
swapped =
    submits stamp (codes "one")
    ∷ submits stamp (codes "two")
    ∷ completes stamps 1 (answer (codes "B"))
    ∷ completes stamps 0 (answer (codes "A"))
    ∷ []

abbrev asked : List Call
asked =
    submits stamp (codes "one")
    ∷ starts 0
    ∷ requests 0 (codes "read") (codes "yes") (codes "no")
    ∷ []

fresh-WiredData : WiredData fresh
unfolding get new
fresh-WiredData = record {
  held = λ id p g. cc;
  apart = λ id j p q g h e. cc;
  accounted = λ i e. cc;
}

-- The answers stand in the order of the prompts.
swapped_texts :
    map (λ (m : ConversationMessage). m.text) (run fresh swapped).0.messages
    ≡ codes "one" ∷ codes "two" ∷ codes "A" ∷ codes "B" ∷ []
unfolding run step new submit_user_prompt complete_prompt file_completion clear_turn_state_locked
    drain_pending_completion_events completion_events is_whitespace succ_u64 get insert
    resolve_permissions_for_prompt_locked complete_reply_events
swapped_texts = refl

asked_waits : get_elem? (run fresh asked).0.outcomes 0 ≡ some waiting
unfolding run step new submit_user_prompt start_turn register_permission_request is_whitespace
    succ_u64 get
asked_waits = refl

next_is_first_missing_example :
    let n = (run fresh swapped).0.next_completion_order in
    (0 ≤ n)
    × ((j : ℕ) → 0 ≤ j → j < n → Listed j (0 ∷ 1 ∷ []))
    × (¬ Listed n (0 ∷ 1 ∷ []))
    × InPromptOrder fresh swapped
unfolding new
next_is_first_missing_example =
    next_is_first_missing fresh swapped refl refl (λ x. x, (λ x. x, (λ x. x, (λ x. x, tt))))
      (omega arith)

run-Kept_example : Kept fresh (run fresh asked).0
run-Kept_example = run-Kept fresh asked fresh-WiredData

step-Ended_example : Ended (run fresh asked).0 (step (run fresh asked).0 (closes 9 (codes "bye"))).0
unfolding run step new submit_user_prompt start_turn register_permission_request is_whitespace
    succ_u64
step-Ended_example =
    step-Ended (run fresh asked).0 (closes 9 (codes "bye"))
      (run-Kept fresh asked fresh-WiredData).wired refl tt

-- The request is answered, which broadcasts a snapshot.
abbrev answered : List Call
answered =
    submits stamp (codes "one")
    ∷ starts 0
    ∷ requests 0 (codes "read") (codes "yes") (codes "no")
    ∷ resolves (codes "req_1") approve
    ∷ submits stamp (codes "two")
    ∷ []

-- The snapshot repeats the number of the request.
answered_numbers : map (λ (e : StreamEvent). e.sequence) (run fresh answered).1 ≡ 1 ∷ 2 ∷ 2 ∷ 3 ∷ []
unfolding run step new submit_user_prompt start_turn register_permission_request resolve_permission
    is_whitespace succ_u64 get insert snapshot snapshot_event list_eqb
answered_numbers = refl

answered_fits : fresh.latest_sequence + numbered (run fresh answered).1 < u64_mod
unfolding run step new submit_user_prompt start_turn register_permission_request resolve_permission
    is_whitespace succ_u64 get insert snapshot snapshot_event list_eqb
answered_fits = omega arith

run-numbers_example :
    ((run fresh answered).0.latest_sequence ≡ 0 + numbered (run fresh answered).1)
    × ((i : ℕ) (e : StreamEvent)
        → get_elem? (run fresh answered).1 i ≡ some e
        → e.sequence ≡ 0 + numbered (take (suc i) (run fresh answered).1))
unfolding new
run-numbers_example = run-numbers fresh answered (tt, (tt, (tt, (tt, (tt, tt))))) answered_fits

abbrev over : SessionData
over = (step fresh (closes 9 (codes "bye"))).0

over-closed : over.status ≡ closed
unfolding step close new
over-closed = refl

step-Frozen_example :
    ((step over (submits stamp (codes "x"))).1 ≡ [])
    × Frozen over (step over (submits stamp (codes "x"))).0
step-Frozen_example = step-Frozen over (submits stamp (codes "x")) over-closed

step-ClosedReleased_example : ClosedReleased (step fresh (closes 9 (codes "bye"))).0
unfolding new
step-ClosedReleased_example = step-ClosedReleased fresh (closes 9 (codes "bye")) fresh-WiredData tt

-- A queue with the answers to two prompts, and one that has to wait.
abbrev queued : SessionData
queued = record fresh {
  pending_completions =
      (1, answer (codes "B")) ∷ (3, answer (codes "D")) ∷ (0, answer (codes "A")) ∷ [];
}

drain_pending-Drained_example :
    let result = drain_pending_completion_events stamps queued in
    Drained queued result.0
    × (get result.0.next_completion_order result.0.pending_completions ≡ none)
    × Released stamps 0 queued.pending_completions queued result
unfolding new
drain_pending-Drained_example = drain_pending-Drained stamps queued (omega arith)
