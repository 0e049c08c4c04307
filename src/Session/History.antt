-- ===== src/Session/History.antt =====
-- Every call keeps the requests wired to their channels, and every answer that was sent.
use acp_orchestrator.Common.{
  ℕ, suc, ◌≡◌, ◌≢◌, refl, sym, ap, inl, inr, true, Text, List, [], ◌∷◌, Option, none, some, arith,
  length, set, subst, ==_iff, ==_refl, Bool-cases, Option-cases, nat_eq, text_eq, length-set,
  if◌then◌else◌,
}
use acp_orchestrator.Common.Assoc.{Assoc, get, remove, insert, get-remove}
use acp_orchestrator.Contracts.Sessions.{is_closed}
use acp_orchestrator.Contracts.Permissions.{PermissionDecision}
use acp_orchestrator.Session.Types.{
  SessionData, PendingPermission, ActiveTurn, waiting, sent, dropped, Oneshot, cancelled, selected,
  PromptCompletion, Stamp,
}
use acp_orchestrator.Session.Channels.{resolve_one, send_cancel}
use acp_orchestrator.Session.Answers.{Wired, answer-Wired, answer-Answered}
use acp_orchestrator.Session.Settles.{WiredData, resolve_one-Settles, resolve_permissions-Settles}
use acp_orchestrator.Session.Cancel.{cancel_all-Wired, cancel_all-Answered}
use acp_orchestrator.Session.Stable.{
  Stable, Kept, Kept-refl, Kept-trans, Kept-same, Settles-Kept, answered_channel-Wired, append-kept,
  Answered-Stable, new_request-Wired,
}
use acp_orchestrator.Session.Frame.{undelivered-drain}
use acp_orchestrator.Session.Prompts.{
  submit_user_prompt, drain, drain_pending_completion_events, file_completion,
  clear_turn_state_locked, complete_prompt, is_turn_of,
}
use acp_orchestrator.Session.Turns.{
  start_turn, stream_assistant_chunk, stream_into, register_permission_request, file_request,
  resolve_permission, accepts_requests, drop_sender, request_id, chosen_option, cancel_active_turn,
  cancel_turn, cancel_all_turns_locked, cancelled_resolution,
}
use acp_orchestrator.Session.Lifecycle.{
  append_message, touch_recent_activity, rename, mark_runtime_unavailable, close, prepare_delete,
}
use acp_orchestrator.Session.Calls.{
  Call, submits, starts, streams, requests, resolves, cancels, completes, appends, touches, renames,
  disables, closes, deletes, step, run,
}

Kept-clear :
    (d : SessionData) (prompt_order : ℕ)
    → WiredData d
    → Kept d (clear_turn_state_locked d prompt_order)
unfolding clear_turn_state_locked
Kept-clear d prompt_order w =
    let d' = if is_turn_of prompt_order d.active_turn then record d { active_turn = none } else d in
    let same = Kept-same d d' w (ground arith) (ground arith) in
    Kept-trans d d' _ same (
      Settles-Kept cancelled d' _
        (resolve_permissions-Settles cancelled d' prompt_order same.wired))

Kept-cancel_turn :
    (d : SessionData) (t : Option ActiveTurn) → WiredData d → Kept d (cancel_turn d t).0
unfolding cancel_turn
Kept-cancel_turn d none w = Kept-refl d w
Kept-cancel_turn d (some t) w =
    let d' = if t.cancelled then d else record d {
      active_turn = some (record t { cancelled = true });
      cancel_flags = send_cancel t.cancel_tx d.cancel_flags;
    } in
    let same = Kept-same d d' w (ground arith) (ground arith) in
    Kept-trans d d' _ same (
      Settles-Kept cancelled d' _
        (resolve_permissions-Settles cancelled d' t.prompt_order same.wired))

Kept-cancel_all : (d : SessionData) → WiredData d → Kept d (cancel_all_turns_locked d)
Kept-cancel_all d w = record {
  wired = cancel_all-Wired d w;
  stable =
      Answered-Stable (sent cancelled) d.outcomes (cancel_all_turns_locked d).outcomes
        (cancel_all-Answered d w);
}

Kept-resolve_permission :
    (d : SessionData) (id : Text) (decision : PermissionDecision)
    → WiredData d
    → Kept d (resolve_permission d id decision).0
unfolding resolve_permission
Kept-resolve_permission d id decision w = elim (Bool-cases (is_closed d.status)) [
  | inl e ↦ rw e (Kept-refl d w)
  | inr e ↦ elim (Option-cases (get id d.pending_permissions)) [
    | inl g ↦ rw (e, g) (Kept-refl d w)
    | inr (p, g) ↦
        rw (e, g)
          (unfold resolve_one in
            Settles-Kept (selected (chosen_option decision p)) d _
              (resolve_one-Settles (selected (chosen_option decision p)) id d (some p) g w))
  ]
]

-- The map and the channels before a request is filed: an old entry under its id is dropped.
record Vacated (id : Text) (m : Assoc Text PendingPermission) (old new : List Oneshot)
    : Type 0 where
  wired : Wired (remove id m) new
  stable : Stable old new
  same_length : length new ≡ length old

absent-Wired :
    (id : Text) (m : Assoc Text PendingPermission) (channels : List Oneshot)
    → get id m ≡ none
    → Wired m channels
    → Wired (remove id m) channels
absent-Wired id m channels none_there w = record {
  held = λ j p g. w.held j p (back j p g);
  apart = λ j k p q g h e. w.apart j k p q (back j p g) (back k q h) e;
  accounted = λ i e.
      let (j, p, g, h) = w.accounted i e in
      (j, p, ground (arith, get-remove id j m, ==_iff id j, ap (λ k. get k m)), h);
}
  where
    back : (j : Text) (p : PendingPermission) → get j (remove id m) ≡ some p → get j m ≡ some p
    back j p g = ground (arith, get-remove id j m)

vacate :
    (id : Text) (m : Assoc Text PendingPermission) (channels : List Oneshot)
    → Wired m channels
    → Vacated id m channels (drop_sender (get id m) channels)
vacate id m channels w = elim (Option-cases (get id m)) [
  | inl e ↦ rw e (
      unfold drop_sender in
      record { wired = absent-Wired id m channels e w; stable = λ i o h. h; same_length = refl })
  | inr (p, e) ↦
      let (tx, holds, _) = w.held id p e in
      let final : dropped ≢ waiting = λ x. cc in
      let eq : set channels tx dropped ≡ drop_sender (get id m) channels =
        unfold drop_sender in rw e (ground arith) in
      subst (Vacated id m channels) eq (record {
        wired = answer-Wired id dropped m channels p tx e holds final w;
        stable =
            Answered-Stable dropped channels _
              (answer-Answered id dropped m channels p tx e holds final w);
        same_length = length-set channels tx dropped;
      })
]

Kept-file_request :
    (d : SessionData) (prompt_order : ℕ) (summary a b : Text)
    → WiredData d
    → Kept d (file_request d prompt_order summary a b).0
unfolding file_request insert
Kept-file_request d prompt_order summary a b w = record {
  wired =
      new_request-Wired (remove id d.pending_permissions) _ id _ v.wired
        (ground (arith, get-remove id id d.pending_permissions, ==_refl id))
        (ap some (sym v.same_length));
  stable = λ i o e. append-kept _ waiting i (v.stable i o e);
}
  where
    id : Text
    id = request_id d.next_permission_request_id

    v :
        Vacated id d.pending_permissions d.outcomes
          (drop_sender (get id d.pending_permissions) d.outcomes)
    v = vacate id d.pending_permissions d.outcomes w

Kept-request :
    (d : SessionData) (prompt_order : ℕ) (summary a b : Text)
    → WiredData d
    → Kept d (register_permission_request d prompt_order summary a b).0
unfolding register_permission_request
Kept-request d prompt_order summary a b w = elim (Bool-cases (is_closed d.status)) [
  | inl e ↦ rw e (Kept-refl d w)
  | inr e ↦ elim (Bool-cases (accepts_requests d.active_turn prompt_order)) [
    | inl g ↦ rw (e, g) (Kept-file_request d prompt_order summary a b w)
    | inr g ↦
        rw (e, g)
          (unfold cancelled_resolution in
            record {
              wired = answered_channel-Wired d.pending_permissions d.outcomes cancelled w;
              stable = λ i o h. append-kept d.outcomes (sent cancelled) i h;
            })
  ]
]

Kept-drain :
    (fuel : ℕ) (stamps : ℕ → Stamp) (d : SessionData) → WiredData d → Kept d (drain fuel stamps d).0
Kept-drain fuel stamps d w =
    Kept-same d _ w
      (ap (λ (x : SessionData). x.pending_permissions) (undelivered-drain fuel stamps d))
      (ap (λ (x : SessionData). x.outcomes) (undelivered-drain fuel stamps d))

Kept-complete :
    (stamps : ℕ → Stamp) (d : SessionData) (prompt_order : ℕ) (c : PromptCompletion)
    → WiredData d
    → Kept d (complete_prompt stamps d prompt_order c).0
unfolding complete_prompt drain_pending_completion_events file_completion
Kept-complete stamps d prompt_order c w = elim (Bool-cases (is_closed d.status)) [
  | inl e ↦ rw e (Kept-refl d w)
  | inr e ↦ rw e (
      Kept-trans d filed _ filed_kept
        (Kept-drain (suc (length filed.pending_completions)) stamps filed filed_kept.wired))
]
  where
    filed : SessionData
    filed = file_completion d prompt_order c

    filed_kept : Kept d filed
    filed_kept =
        let cleared = Kept-clear d prompt_order w in
        Kept-trans d _ _ cleared (Kept-same _ filed cleared.wired refl refl)

same_stream :
    (stamp : Stamp) (d : SessionData) (t : Option ActiveTurn) (prompt_order : ℕ) (text : Text)
    → ((stream_into stamp d t prompt_order text).0.pending_permissions ≡ d.pending_permissions)
      × ((stream_into stamp d t prompt_order text).0.outcomes ≡ d.outcomes)
unfolding stream_into
same_stream stamp d none prompt_order text = (refl, refl)
same_stream stamp d (some t) prompt_order text = (ground arith, ground arith)

pub step-Kept : (d : SessionData) (c : Call) → WiredData d → Kept d (step d c).0
unfolding step submit_user_prompt start_turn stream_assistant_chunk cancel_active_turn
    append_message touch_recent_activity rename mark_runtime_unavailable close prepare_delete
step-Kept d (submits stamp text) w = Kept-same d _ w (ground arith) (ground arith)
step-Kept d (starts prompt_order) w = Kept-same d _ w (ground arith) (ground arith)
step-Kept d (streams stamp prompt_order text) w =
    let same = same_stream stamp d d.active_turn prompt_order text in
    Kept-same d _ w (ground (arith, same.0)) (ground (arith, same.1))
step-Kept d (requests o s a b) w = Kept-request d o s a b w
step-Kept d (resolves id decision) w = Kept-resolve_permission d id decision w
step-Kept d cancels w = elim (Bool-cases (is_closed d.status)) [
  | inl e ↦ rw e (Kept-refl d w)
  | inr e ↦ rw e (Kept-cancel_turn d d.active_turn w)
]
step-Kept d (completes stamps prompt_order c) w = Kept-complete stamps d prompt_order c w
step-Kept d (appends stamp role text) w = Kept-same d _ w (ground arith) (ground arith)
step-Kept d (touches now recent_order) w = Kept-same d _ w refl refl
step-Kept d (renames title) w = Kept-same d _ w refl refl
step-Kept d (disables reason) w = elim (Bool-cases (is_closed d.status)) [
  | inl e ↦ rw e (Kept-refl d w)
  | inr e ↦
      rw e (Kept-trans d _ _ (Kept-cancel_all d w) (Kept-same _ _ (cancel_all-Wired d w) refl refl))
]
step-Kept d (closes now reason) w = elim (Bool-cases (is_closed d.status)) [
  | inl e ↦ rw e (Kept-refl d w)
  | inr e ↦
      rw e (Kept-trans d _ _ (Kept-cancel_all d w) (Kept-same _ _ (cancel_all-Wired d w) refl refl))
]
step-Kept d (deletes now) w =
    Kept-trans d _ _ (Kept-cancel_all d w) (Kept-same _ _ (cancel_all-Wired d w) refl refl)

-- Over any history from wired data, each pending permission request holds the sender of a channel
-- that waits, no two the same one, each channel that waits belongs to a pending request, and an
-- answer that was sent never changes: no waiting agent is forgotten, and none is answered twice.
pub run-Kept : (d : SessionData) (cs : List Call) → WiredData d → Kept d (run d cs).0
unfolding run
run-Kept d [] w = Kept-refl d w
run-Kept d (c ∷ cs) w =
    let first = step-Kept d c w in
    Kept-trans d (step d c).0 _ first (run-Kept (step d c).0 cs first.wired)
