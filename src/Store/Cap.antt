-- ===== src/Store/Cap.antt =====
-- The cap on active sessions that `create_session` of crates/acp-web-backend/src/sessions.rs keeps.
use mathlib.Core.Path.{ap₂}
use acp_orchestrator.Common.{
  ℕ, suc, ◌≤◌, ◌<◌, ◌≡◌, refl, ap, ◌∙◌, Bool, true, false, ◌&&◌, Text, codes, List, [], ◌∷◌, ◌++◌,
  none, some, arith, inl, inr, length, get_elem?-append_left, get_elem?-append_last, leb, ltb,
  ltb→lt, Bool-cases, if◌then◌else◌, ◌==◌, text_eq, All,
}
use acp_orchestrator.Common.Assoc.{Assoc, get, insert, remove}
use acp_orchestrator.Session.Types.{SessionHandle, Stamp, SessionStoreError}
use acp_orchestrator.Session.Lifecycle.{new}
use acp_orchestrator.Store.Types.{SessionStore}
use acp_orchestrator.Store.Access.{
  with_entry, session_handles, claim_recent_order, store_handle, owner_matches, handle_is_active,
}
use acp_orchestrator.Store.Requests.{failure}
use acp_orchestrator.Store.Count.{active_sessions_of, active_sessions-eq-active_sessions_of}
use acp_orchestrator.Store.Sessions.{active_sessions, create_session}

-- Every address in the map is one of the memory.
abbrev pub Stored : SessionStore → Type 0
Stored s = All (λ b. b.1 < length s.handles) s.sessions

remove-absent : (k : Text) (m : Assoc Text ℕ) → get k m ≡ none → remove k m ≡ m
unfolding get remove
remove-absent k [] e = refl
remove-absent k ((j, a) ∷ m) e = ground (arith, remove-absent k m)

-- A handle more at the end of the memory does not change what the entries show.
session_handles-append :
    (m : Assoc Text ℕ) (hs : List SessionHandle) (h : SessionHandle)
    → All (λ b. b.1 < length hs) m
    → session_handles m (hs ++ h ∷ []) ≡ session_handles m hs
unfolding session_handles
session_handles-append [] hs h stored = refl
session_handles-append ((id, a) ∷ m) hs h stored =
    ap₂ (with_entry id) (get_elem?-append_left hs (h ∷ []) a stored.0)
      (session_handles-append m hs h stored.1)

-- How a new active session of `owner` counts for `o`.
added : Bool → ℕ → ℕ
added own n = if own then suc n else n

active_sessions-store_handle :
    (s : SessionStore) (id : Text) (h : SessionHandle) (o : Text)
    → Stored s
    → get id s.sessions ≡ none
    → handle_is_active h ≡ true
    → active_sessions (store_handle s id h) o ≡ added (owner_matches h o) (active_sessions s o)
unfolding active_sessions store_handle insert session_handles added
active_sessions-store_handle s id h o stored absent active =
    rw
      (
        remove-absent id s.sessions absent,
        get_elem?-append_last s.handles h,
        session_handles-append s.sessions s.handles h stored,
      )
      (ground arith)

active_sessions-claim :
    (s : SessionStore) (o : Text) → active_sessions (claim_recent_order s).0 o ≡ active_sessions s o
unfolding active_sessions claim_recent_order
active_sessions-claim s o = refl

full_refused : (a b : ℕ) → a ≤ b → leb a b ≡ true
full_refused a b h = ground arith

room_left : (a b : ℕ) → b < a → leb a b ≡ false
room_left a b h = ground arith

active_sessions-create :
    (stamp : Stamp) (s : SessionStore) (owner workspace_id o : Text)
    → Stored s
    → get (codes "s_" ++ stamp.uuid) s.sessions ≡ none
    → active_sessions s owner < s.session_cap
    → active_sessions (create_session stamp s owner workspace_id).0 o
      ≡ added (owner == o) (active_sessions s o)
unfolding create_session claim_recent_order new
active_sessions-create stamp s owner workspace_id o stored absent room =
    rw (room_left s.session_cap (active_sessions s owner) room) (
      active_sessions-store_handle (claim_recent_order s).0 (codes "s_" ++ stamp.uuid) _ o stored
        absent refl
      ∙ ap (added (owner == o)) (active_sessions-claim s o))

create_session-counted :
    (stamp : Stamp) (s : SessionStore) (owner workspace_id o : Text)
    → Stored s
    → get (codes "s_" ++ stamp.uuid) s.sessions ≡ none
    → (failure (create_session stamp s owner workspace_id).1 ≡ (
        if ltb (active_sessions s owner) s.session_cap
        then none
        else some SessionStoreError.session_cap_reached))
      × (active_sessions (create_session stamp s owner workspace_id).0 o ≡ (
          if ltb (active_sessions s owner) s.session_cap && (owner == o)
          then suc (active_sessions s o)
          else active_sessions s o))
unfolding create_session added
create_session-counted stamp s owner workspace_id o stored absent =
    elim (Bool-cases (ltb (active_sessions s owner) s.session_cap)) [
      | inl room ↦
          let lt = ltb→lt (active_sessions s owner) s.session_cap room in
          let made = room_left s.session_cap (active_sessions s owner) lt in
          (
            rw (room, made) refl,
            active_sessions-create stamp s owner workspace_id o stored absent lt ∙ rw room refl,
          )
      | inr full ↦
          let kept = full_refused s.session_cap (active_sessions s owner) (ground arith) in
          (rw (full, kept) refl, rw (full, kept) refl)
    ]

-- With a fresh id, and where every address in the map is one of the memory, create_session
-- succeeds exactly where the owner has fewer active sessions than the cap, and fails with
-- session_cap_reached elsewhere. Afterwards an owner has one active session more if the session
-- was created for that owner, and as many as before otherwise. Active sessions are counted entry
-- by entry of the map, by their owner and their status.
pub create_session-cap :
    (stamp : Stamp) (s : SessionStore) (owner workspace_id o : Text)
    → Stored s
    → get (codes "s_" ++ stamp.uuid) s.sessions ≡ none
    → (failure (create_session stamp s owner workspace_id).1 ≡ (
        if ltb (active_sessions_of s owner) s.session_cap
        then none
        else some SessionStoreError.session_cap_reached))
      × (active_sessions_of (create_session stamp s owner workspace_id).0 o ≡ (
          if ltb (active_sessions_of s owner) s.session_cap && (owner == o)
          then suc (active_sessions_of s o)
          else active_sessions_of s o))
create_session-cap stamp s owner workspace_id o stored absent =
    rw
      (
        ← (active_sessions-eq-active_sessions_of s owner),
        ← (active_sessions-eq-active_sessions_of s o),
        ← (active_sessions-eq-active_sessions_of (create_session stamp s owner workspace_id).0 o),
      )
      (create_session-counted stamp s owner workspace_id o stored absent)
