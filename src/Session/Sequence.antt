-- ===== src/Session/Sequence.antt =====
-- The numbers of the broadcast events.
use acp_orchestrator.Common.{
  ℕ, zero, suc, ◌+◌, ◌<◌, ◌≡◌, refl, sym, ap, Text, List, [], ◌∷◌, Option, none, some, arith,
  length, get_elem?, take, Bool-cases, Option-cases, inl, inr, All, subst,
}
use acp_orchestrator.Common.Word.{u64_mod}
use acp_orchestrator.Contracts.Stream.{StreamEvent, snapshot_event}
use acp_orchestrator.Contracts.Sessions.{is_closed}
use acp_orchestrator.Session.Types.{SessionData, Stamp, PromptCompletion, ActiveTurn}
use acp_orchestrator.Session.Events.{complete_reply_events}
use acp_orchestrator.Session.Prompts.{
  submit_user_prompt, completion_events, status_completion_events, drain, next_pending_completion,
  drain_pending_completion_events, file_completion, complete_prompt,
}
use acp_orchestrator.Session.Turns.{
  start_turn, stream_assistant_chunk, stream_into, register_permission_request, resolve_permission,
  cancel_active_turn, cancel_all_turns_locked, cancelled_resolution,
}
use acp_orchestrator.Session.Lifecycle.{
  touch_recent_activity, rename, mark_runtime_unavailable, close, prepare_delete, snapshot,
}
use acp_orchestrator.Session.Frame.{core-cancel_all_turns, core-cancel_turn, core-clear_turn_state}
use acp_orchestrator.Session.Numbers.{Gapless, Gapless-append, numbered, Gapless-length, Gapless-at}
use acp_orchestrator.Session.Calls.{
  optional, Call, submits, starts, streams, requests, resolves, cancels, completes, appends,
  touches, renames, disables, closes, deletes, step, run,
}

-- The events of each helper, from the number before it to the number after it.
module _ (stamp : Stamp) where
  Gapless-complete_reply :
      (d : SessionData) (text : Text) (id : Option Text)
      → Gapless d.latest_sequence
          (complete_reply_events stamp d text id).1
          (complete_reply_events stamp d text id).0.latest_sequence
  unfolding complete_reply_events
  Gapless-complete_reply d text id = ground arith

  Gapless-status :
      (d : SessionData) (message : Text) (id : Option Text)
      → Gapless d.latest_sequence
          (status_completion_events stamp d message id).1
          (status_completion_events stamp d message id).0.latest_sequence
  unfolding status_completion_events
  Gapless-status d message none = (refl, refl)
  Gapless-status d message (some id) =
      Gapless-append d.latest_sequence _ _ (complete_reply_events stamp d [] (some id)).1 _
        (Gapless-complete_reply d [] (some id)) (refl, refl)

  Gapless-completion :
      (d : SessionData) (c : PromptCompletion)
      → Gapless d.latest_sequence
          (completion_events stamp d c).1
          (completion_events stamp d c).0.latest_sequence
  unfolding completion_events
  Gapless-completion d (PromptCompletion.reply text id) = Gapless-complete_reply d text id
  Gapless-completion d (PromptCompletion.status message id) = Gapless-status d message id
  Gapless-completion d PromptCompletion.none = refl

sequence-next_pending :
    (d : SessionData) (c : PromptCompletion) (d' : SessionData)
    → next_pending_completion d ≡ some (c, d')
    → d'.latest_sequence ≡ d.latest_sequence
unfolding next_pending_completion
sequence-next_pending d c d' e = ground arith

Gapless-drain :
    (fuel : ℕ) (stamps : ℕ → Stamp) (d : SessionData)
    → Gapless d.latest_sequence (drain fuel stamps d).1 (drain fuel stamps d).0.latest_sequence
unfolding drain
Gapless-drain zero stamps d = refl
Gapless-drain (suc fuel) stamps d = elim (Option-cases (next_pending_completion d)) [
  | inl e ↦ rw (e, drain) refl
  | inr ((c, d'), e) ↦
      rw (e, drain)
        (Gapless-append d.latest_sequence _ _ (completion_events (stamps 0) d' c).1 _
          (subst
            (λ n.
              Gapless n (completion_events (stamps 0) d' c).1
                (completion_events (stamps 0) d' c).0.latest_sequence)
            (sequence-next_pending d c d' e) (Gapless-completion (stamps 0) d' c))
          (Gapless-drain fuel (λ n. stamps (suc n)) (completion_events (stamps 0) d' c).0))
]

sequence-cancel_all_turns :
    (d : SessionData) → (cancel_all_turns_locked d).latest_sequence ≡ d.latest_sequence
sequence-cancel_all_turns d = ap (λ (x : SessionData). x.latest_sequence) (core-cancel_all_turns d)

sequence-file_completion :
    (d : SessionData) (prompt_order : ℕ) (c : PromptCompletion)
    → (file_completion d prompt_order c).latest_sequence ≡ d.latest_sequence
unfolding file_completion
sequence-file_completion d prompt_order c =
    ap (λ (x : SessionData). x.latest_sequence) (core-clear_turn_state d prompt_order)

Gapless-complete :
    (stamps : ℕ → Stamp) (d : SessionData) (prompt_order : ℕ) (c : PromptCompletion)
    → Gapless d.latest_sequence
        (step d (completes stamps prompt_order c)).1
        (step d (completes stamps prompt_order c)).0.latest_sequence
unfolding step complete_prompt drain_pending_completion_events
Gapless-complete stamps d prompt_order c = elim (Bool-cases (is_closed d.status)) [
  | inl e ↦ rw e refl
  | inr e ↦ rw e (
      subst
        (λ n.
          Gapless n (drain (suc (length filed.pending_completions)) stamps filed).1
            (drain (suc (length filed.pending_completions)) stamps filed).0.latest_sequence)
        (sequence-file_completion d prompt_order c)
        (Gapless-drain (suc (length filed.pending_completions)) stamps filed))
]
  where
    filed : SessionData
    filed = file_completion d prompt_order c

Gapless-stream :
    (stamp : Stamp) (d : SessionData) (turn : Option ActiveTurn) (prompt_order : ℕ) (text : Text)
    → Gapless d.latest_sequence
        (optional (stream_into stamp d turn prompt_order text).1)
        (stream_into stamp d turn prompt_order text).0.latest_sequence
unfolding stream_into
Gapless-stream stamp d none prompt_order text = refl
Gapless-stream stamp d (some turn) prompt_order text = ground arith

-- Every call but `append_message`, whose event is thrown away.
abbrev pub IsBroadcast : Call → Type 0
IsBroadcast (appends _ _ _) = ⊥
IsBroadcast _ = Unit

pub step-Gapless :
    (d : SessionData) (c : Call)
    → IsBroadcast c
    → Gapless d.latest_sequence (step d c).1 (step d c).0.latest_sequence
unfolding step submit_user_prompt start_turn stream_assistant_chunk register_permission_request
    cancelled_resolution resolve_permission cancel_active_turn touch_recent_activity rename
    mark_runtime_unavailable close prepare_delete snapshot snapshot_event
step-Gapless d (submits stamp text) h = ground arith
step-Gapless d (starts prompt_order) h = ground arith
step-Gapless d (streams stamp prompt_order text) h =
    ground (arith, Gapless-stream stamp d d.active_turn prompt_order text)
step-Gapless d (requests o s a b) h = ground arith
step-Gapless d (resolves id decision) h = ground arith
step-Gapless d cancels h =
    ground (arith, ap (λ (x : SessionData). x.latest_sequence) (core-cancel_turn d d.active_turn))
step-Gapless d (completes stamps prompt_order c) h = Gapless-complete stamps d prompt_order c
step-Gapless d (appends _ _ _) h = absurd h
step-Gapless d (touches now recent_order) h = refl
step-Gapless d (renames title) h = refl
step-Gapless d (disables reason) h = ground (arith, sequence-cancel_all_turns d)
step-Gapless d (closes now reason) h = ground (arith, sequence-cancel_all_turns d)
step-Gapless d (deletes now) h = sym (sequence-cancel_all_turns d)

-- Over any history without `append_message`, the numbered events carry consecutive numbers, from the
-- one after `latest_sequence` before it to `latest_sequence` after it.
pub run-Gapless :
    (d : SessionData) (cs : List Call)
    → All IsBroadcast cs
    → Gapless d.latest_sequence (run d cs).1 (run d cs).0.latest_sequence
unfolding run
run-Gapless d [] h = refl
run-Gapless d (c ∷ cs) h =
    Gapless-append d.latest_sequence (step d c).0.latest_sequence _ (step d c).1
      (run (step d c).0 cs).1 (step-Gapless d c h.0) (run-Gapless (step d c).0 cs h.1)

-- Over any history without append_message whose numbered events, all but the snapshots of the
-- session, do not wrap u64: the number of each event that is broadcast is the latest_sequence
-- before the history plus the count of the numbered events up to and with it, so that a snapshot
-- repeats the number of the numbered event before it; and latest_sequence grows by the count of
-- all the numbered events.
pub run-numbers :
    (d : SessionData) (cs : List Call)
    → All IsBroadcast cs
    → d.latest_sequence + numbered (run d cs).1 < u64_mod
    → ((run d cs).0.latest_sequence ≡ d.latest_sequence + numbered (run d cs).1)
      × ((i : ℕ) (e : StreamEvent)
          → get_elem? (run d cs).1 i ≡ some e
          → e.sequence ≡ d.latest_sequence + numbered (take (suc i) (run d cs).1))
run-numbers d cs h b = (
  Gapless-length d.latest_sequence (run d cs).0.latest_sequence (run d cs).1 (run-Gapless d cs h) b,
  Gapless-at d.latest_sequence (run d cs).0.latest_sequence (run d cs).1 (run-Gapless d cs h) b,
)
