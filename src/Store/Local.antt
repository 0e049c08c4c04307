-- ===== src/Store/Local.antt =====
-- Which handles an operation of crates/acp-web-backend/src/sessions.rs can write to.
use acp_orchestrator.Common.{
  ℕ, ◌≡◌, ◌≢◌, refl, ◌∙◌, Text, codes, List, [], ◌∷◌, some, arith, get_elem?, get_elem?-set_ne,
  ◌==◌, ==_iff, text_eq, Bool-cases, Option-cases, inl, inr,
}
use acp_orchestrator.Common.Assoc.{get}
use acp_orchestrator.Contracts.Stream.{StreamEvent}
use acp_orchestrator.Session.Types.{SessionData, SessionHandle, Stamp, Result, ok, err}
use acp_orchestrator.Session.Lifecycle.{close}
use acp_orchestrator.Session.Prompts.{submit_user_prompt}
use acp_orchestrator.Store.Types.{SessionStore}
use acp_orchestrator.Store.Access.{authorized_handle, authorized, find_handle, write}
use acp_orchestrator.Store.Calls.{call, returning}
use acp_orchestrator.Store.Retention.{prune_closed_sessions}
use acp_orchestrator.Store.Sessions.{close_handle}
use acp_orchestrator.Store.Prompts.{touch_recent_activity, submit_to_handle}

-- Between the stores, nothing but the handle at the address has changed.
abbrev pub Local : SessionStore → ℕ → SessionStore → Type 0
Local s a s' = (j : ℕ) → a ≢ j → get_elem? s'.handles j ≡ get_elem? s.handles j

pub write-Local : (s : SessionStore) (a : ℕ) (h : SessionHandle) → Local s a (write s a h)
unfolding write
write-Local s a h j ne = get_elem?-set_ne s.handles a j h ne

module _ {A : Type 0} where
  pub call-Local :
      (s : SessionStore) (a : ℕ) (h : SessionHandle) (events : SessionData → A → List StreamEvent)
      (r : SessionData × Result A)
      → Local s a (call s a h events r).0
  unfolding call
  call-Local s a h events (d, err e) = write-Local s a _
  call-Local s a h events (d, ok r) = write-Local s a _

module _ {A B : Type 0} where
  pub returning-Local :
      (s : SessionStore) (a : ℕ) (f : A → B) (r : SessionStore × Result A)
      → Local s a r.0
      → Local s a (returning f r).0
  unfolding returning
  returning-Local s a f (s', err e) local = local
  returning-Local s a f (s', ok r) local = local

pub touch-Local : (now : ℕ) (s : SessionStore) (a : ℕ) → Local s a (touch_recent_activity now s a)
unfolding touch_recent_activity
touch-Local now s a j ne = elim (Option-cases (get_elem? s.handles a)) [
  | inl e ↦ rw e refl
  | inr (h, e) ↦ rw e (get_elem?-set_ne s.handles a j _ ne)
]

pub find_handle-stored :
    (s : SessionStore) (id : Text) {a : ℕ} {h : SessionHandle}
    → find_handle s id ≡ some (a, h)
    → (get id s.sessions ≡ some a) × (get_elem? s.handles a ≡ some h)
unfolding find_handle
find_handle-stored s id e = ground arith

module _ {A : Type 0} (s : SessionStore) (owner id : Text) where
  -- A handle of another owner is out of reach of an operation that writes to the handle it checked.
  pub authorized-isolated :
      (k : ℕ → SessionHandle → SessionStore × Result A)
      → ((a : ℕ) (h : SessionHandle) → Local s a (k a h).0)
      → (j : ℕ) {h : SessionHandle} → get_elem? s.handles j ≡ some h
      → h.session_data.owner ≢ owner
      → get_elem? (authorized s owner id k).0.handles j ≡ some h
  unfolding authorized authorized_handle
  authorized-isolated k local j {h} at_j ne = elim (Option-cases (find_handle s id)) [
    | inl e ↦ rw e at_j
    | inr ((a, g), e) ↦ elim (Bool-cases (g.session_data.owner == owner)) [
      | inr other ↦ rw (e, other) at_j
      | inl same ↦
          rw (e, same)
            (local a g j
                (ground (arith, find_handle-stored s id e, ==_iff g.session_data.owner owner))
              ∙ at_j)
    ]
  ]

prune-handles : (s : SessionStore) → (prune_closed_sessions s).handles ≡ s.handles
unfolding prune_closed_sessions
prune-handles s = ground arith

pub close_handle-Local :
    (now : ℕ) (s : SessionStore) (a : ℕ) (h : SessionHandle) → Local s a (close_handle now s a h).0
unfolding close_handle
close_handle-Local now s a h j ne =
    let called =
      call s a h (λ d event. event ∷ []) (close now h.session_data (codes "closed by user")) in
    ground (
      arith,
      prune-handles called.0,
      call-Local s a h (λ d event. event ∷ []) (close now h.session_data (codes "closed by user")) j
          ne,
    )

pub submit-Local :
    (stamp : Stamp) (s : SessionStore) (id text : Text) (a : ℕ) (h : SessionHandle)
    → Local s a (submit_to_handle stamp s id text a h).0
unfolding submit_to_handle
submit-Local stamp s id text a h j ne =
    let called = call s a h (λ d r. r.0 ∷ []) (submit_user_prompt stamp h.session_data text) in
    ground (
      arith,
      touch-Local stamp.now called.0 a j ne,
      call-Local s a h (λ d r. r.0 ∷ []) (submit_user_prompt stamp h.session_data text) j ne,
    )
