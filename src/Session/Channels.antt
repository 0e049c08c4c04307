-- ===== src/Session/Channels.antt =====
-- Answering permission requests: the channels of crates/acp-web-backend/src/sessions.rs and the
-- resolution of pending requests in sessions/handle.rs.
use acp_orchestrator.Common.{
  ℕ, Bool, true, Text, List, [], ◌∷◌, Option, none, some, set, map, ◌==◌, nat_eq, text_eq,
  if◌then◌else◌,
}
use acp_orchestrator.Common.Assoc.{Assoc, get, remove}
use acp_orchestrator.Session.Types.{
  PermissionResolutionOutcome, cancelled, Oneshot, waiting, sent, dropped, PendingPermission,
  SessionData,
}

-- `oneshot::Sender::send`, which consumes the sender: only a waiting channel takes the value.
unfoldable pub send_outcome : ℕ → PermissionResolutionOutcome → List Oneshot → List Oneshot
send_outcome tx outcome channels = set channels tx (sent outcome)

-- `PendingPermissionResolution::wait`: `none` while the receiver still waits.
unfoldable pub wait : Oneshot → Option PermissionResolutionOutcome
wait waiting = none
wait (sent outcome) = some outcome
wait dropped = some cancelled

-- `PendingPermission::resolve`
unfoldable pub resolve :
    PendingPermission → PermissionResolutionOutcome → List Oneshot → List Oneshot
unfolding send_outcome
resolve pending outcome channels = elim pending.outcome_tx [
  | none ↦ channels
  | some tx ↦ send_outcome tx outcome channels
]

-- The ids of the requests that belong to a prompt.
unfoldable pub requests_of : ℕ → Assoc Text PendingPermission → List Text
requests_of prompt_order [] = []
requests_of prompt_order ((id, pending) ∷ m) =
    if pending.prompt_order == prompt_order
    then id ∷ requests_of prompt_order m
    else requests_of prompt_order m

-- One round of the second loop of `resolve_permissions_for_prompt_locked`, on what the map has at
-- the id.
unfoldable pub resolve_one :
    Text → PermissionResolutionOutcome → SessionData → Option PendingPermission → SessionData
resolve_one id outcome d none = d
resolve_one id outcome d (some pending) = record d {
  pending_permissions = remove id d.pending_permissions;
  outcomes = resolve pending outcome d.outcomes;
}

-- The second loop of `resolve_permissions_for_prompt_locked`.
unfoldable pub resolve_each : List Text → PermissionResolutionOutcome → SessionData → SessionData
resolve_each [] outcome d = d
resolve_each (id ∷ ids) outcome d =
    resolve_each ids outcome (resolve_one id outcome d (get id d.pending_permissions))

unfoldable pub resolve_permissions_for_prompt_locked :
    SessionData → ℕ → PermissionResolutionOutcome → SessionData
unfolding resolve_each resolve_one requests_of resolve
resolve_permissions_for_prompt_locked d prompt_order outcome =
    resolve_each (requests_of prompt_order d.pending_permissions) outcome d

-- `let _ = active_turn.cancel_tx.send(true)`
unfoldable pub send_cancel : ℕ → List Bool → List Bool
send_cancel tx flags = set flags tx true

-- The loop of `cancel_all_turns_locked` over the prompt orders that it has collected.
unfoldable pub cancel_each : List ℕ → SessionData → SessionData
cancel_each [] d = d
cancel_each (prompt_order ∷ orders) d =
    cancel_each orders (resolve_permissions_for_prompt_locked d prompt_order cancelled)

unfoldable pub prompt_orders : Assoc Text PendingPermission → List ℕ
prompt_orders = map (λ b. b.1.prompt_order)
