-- ===== src/Store/Calls.antt =====
-- How an operation of crates/acp-web-backend/src/sessions.rs runs a method of a shared handle.
use acp_orchestrator.Common.{ℕ, List, [], ◌∷◌}
use acp_orchestrator.Contracts.Stream.{StreamEvent, snapshot_event}
use acp_orchestrator.Session.Types.{SessionData, SessionHandle, Result, ok, err}
use acp_orchestrator.Session.Lifecycle.{snapshot, broadcast}
use acp_orchestrator.Store.Types.{SessionStore}
use acp_orchestrator.Store.Access.{write, with_data}

unfoldable pub broadcast_all : SessionHandle → List StreamEvent → SessionHandle
unfolding broadcast
broadcast_all h [] = h
broadcast_all h (event ∷ events) = broadcast_all (broadcast h event) events

-- `StreamEvent::snapshot(handle.snapshot().await)`
unfoldable pub handle_snapshot_event : SessionData → StreamEvent
unfolding snapshot snapshot_event
handle_snapshot_event d = snapshot_event (snapshot d)

module _ {A : Type 0} where
  -- A method's new data goes into the handle; on success the events follow, which may show the
  -- new data. An error goes to the caller (`?`).
  unfoldable pub call :
      SessionStore
      → ℕ
      → SessionHandle
      → (SessionData → A → List StreamEvent)
      → SessionData × Result A
      → SessionStore × Result A
  call s a h events (d, err e) = (write s a (with_data h d), err e)
  call s a h events (d, ok r) = (write s a (broadcast_all (with_data h d) (events d r)), ok r)

module _ {A B : Type 0} where
  -- What an operation returns, from what its last call returned.
  unfoldable pub returning : (A → B) → SessionStore × Result A → SessionStore × Result B
  returning f (s, err e) = (s, err e)
  returning f (s, ok r) = (s, ok (f r))

abbrev pub no_events : {A : Type 0} → SessionData → A → List StreamEvent
no_events d r = []
