-- ===== src/Session/Prompts.antt =====
-- Prompts and their completions, in crates/acp-web-backend/src/sessions/handle.rs: submitting a
-- prompt, and delivering the completions in the order of their prompts.
use acp_orchestrator.Common.{
  ℕ, zero, suc, Bool, false, not, ◌&&◌, Text, List, [], ◌∷◌, ◌++◌, Option, none, some, any, length,
  is_some, if◌then◌else◌, ◌==◌, nat_eq, text_eq,
}
use acp_orchestrator.Common.Assoc.{get, insert, remove}
use acp_orchestrator.Common.Word.{succ_u64}
use acp_orchestrator.Contracts.Messages.{user, is_user}
use acp_orchestrator.Contracts.Sessions.{is_closed}
use acp_orchestrator.Contracts.Stream.{StreamEvent}
use acp_orchestrator.Session.Types.{
  SessionData, Stamp, ActiveTurn, PromptCompletion, Result, ok, err, cancelled,
}
use acp_orchestrator.Session.Types.{SessionStoreError}
use acp_orchestrator.Session.Channels.{resolve_permissions_for_prompt_locked}
use acp_orchestrator.Session.Title.{auto_title_from_prompt}
use acp_orchestrator.Session.Events.{message_event, complete_reply_events, status_event}

-- The automatic title of `submit_user_prompt`: from the first user prompt, unless it was renamed.
unfoldable pub auto_titled : SessionData → Text → SessionData
unfolding auto_title_from_prompt
auto_titled d text =
    if d.title_is_auto && not (any (λ m. is_user m.role) d.messages)
    then elim (auto_title_from_prompt text) [ none ↦ d | some title ↦ record d { title = title } ]
    else d

-- `submit_user_prompt`
unfoldable pub submit_user_prompt :
    Stamp → SessionData → Text → SessionData × Result (StreamEvent × ℕ)
unfolding auto_titled message_event
submit_user_prompt stamp d text =
    let titled = auto_titled d text in
    let prompt_order = titled.next_prompt_order in
    let (d', event) =
      message_event stamp (record titled { next_prompt_order = succ_u64 prompt_order }) user text in
    if is_closed d.status
    then (d, err SessionStoreError.closed)
    else if is_some d.runtime_unavailable_reason
    then (d, err SessionStoreError.runtime_unavailable)
    else (d', ok (event, prompt_order))

-- `active_turn.as_ref().is_some_and(|turn| turn.prompt_order == prompt_order)`
unfoldable pub is_turn_of : ℕ → Option ActiveTurn → Bool
is_turn_of prompt_order none = false
is_turn_of prompt_order (some turn) = turn.prompt_order == prompt_order

-- `streamed_message_id_for_prompt`
unfoldable pub streamed_message_id_for_prompt : Option ActiveTurn → ℕ → Option Text
streamed_message_id_for_prompt none prompt_order = none
streamed_message_id_for_prompt (some turn) prompt_order =
    if turn.prompt_order == prompt_order then turn.assistant_message_id else none

-- `clear_turn_state_locked`
unfoldable pub clear_turn_state_locked : SessionData → ℕ → SessionData
unfolding is_turn_of
clear_turn_state_locked d prompt_order =
    let d' = if is_turn_of prompt_order d.active_turn then record d { active_turn = none } else d in
    resolve_permissions_for_prompt_locked d' prompt_order cancelled

-- `completion_with_streamed_message`
unfoldable pub completion_with_streamed_message : PromptCompletion → Option Text → PromptCompletion
completion_with_streamed_message (PromptCompletion.reply text _) id = PromptCompletion.reply text id
completion_with_streamed_message (PromptCompletion.status message _) id =
    PromptCompletion.status message id
completion_with_streamed_message PromptCompletion.none none = PromptCompletion.none
completion_with_streamed_message PromptCompletion.none (some id) =
    PromptCompletion.reply [] (some id)

-- `next_pending_completion`
unfoldable pub next_pending_completion : SessionData → Option (PromptCompletion × SessionData)
next_pending_completion d = elim (get d.next_completion_order d.pending_completions) [
  | none ↦ none
  | some completion ↦ some (
    completion,
    record d {
      pending_completions = remove d.next_completion_order d.pending_completions;
      next_completion_order = succ_u64 d.next_completion_order;
    },
  )
]

-- `push_status_completion_events`
unfoldable pub status_completion_events :
    Stamp → SessionData → Text → Option Text → SessionData × List StreamEvent
unfolding status_event
status_completion_events stamp d message streamed_message_id =
    let (settled, events) =
      (if is_some streamed_message_id
        then complete_reply_events stamp d [] streamed_message_id
        else (d, [])) in
    let (d', event) = status_event settled message in (d', events ++ event ∷ [])

-- `push_completion_events`: the events that a completion adds.
unfoldable pub completion_events :
    Stamp → SessionData → PromptCompletion → SessionData × List StreamEvent
completion_events stamp d (PromptCompletion.reply text id) = complete_reply_events stamp d text id
completion_events stamp d (PromptCompletion.status message id) =
    status_completion_events stamp d message id
completion_events stamp d PromptCompletion.none = (d, [])

-- The loop of `drain_pending_completion_events`; round `n` takes the stamp `stamps n`.
unfoldable pub drain : ℕ → (ℕ → Stamp) → SessionData → SessionData × List StreamEvent
drain zero stamps d = (d, [])
drain (suc fuel) stamps d = elim (next_pending_completion d) [
  | none ↦ (d, [])
  | some (completion, d') ↦
      let (d'', events) = completion_events (stamps 0) d' completion in
      let (last, rest) = drain fuel (λ n. stamps (suc n)) d'' in (last, events ++ rest)
]

-- `drain_pending_completion_events`: each round removes an entry, so one round for each entry and
-- one for the last test are enough.
unfoldable pub drain_pending_completion_events :
    (ℕ → Stamp) → SessionData → SessionData × List StreamEvent
unfolding drain next_pending_completion
drain_pending_completion_events stamps d = drain (suc (length d.pending_completions)) stamps d

-- The completion as `complete_prompt` files it, before the loop.
unfoldable pub file_completion : SessionData → ℕ → PromptCompletion → SessionData
unfolding streamed_message_id_for_prompt completion_with_streamed_message
file_completion d prompt_order completion =
    let id = streamed_message_id_for_prompt d.active_turn prompt_order in
    let cleared = clear_turn_state_locked d prompt_order in
    record cleared {
      pending_completions =
          insert prompt_order (completion_with_streamed_message completion id)
            cleared.pending_completions;
    }

-- `complete_prompt`
unfoldable pub complete_prompt :
    (ℕ → Stamp) → SessionData → ℕ → PromptCompletion → SessionData × Result (List StreamEvent)
complete_prompt stamps d prompt_order completion =
    let (d', events) =
      drain_pending_completion_events stamps (file_completion d prompt_order completion) in
    if is_closed d.status then (d, err SessionStoreError.closed) else (d', ok events)
