-- ===== src/Store/Count.antt =====
-- How many active sessions an owner has, for `create_session` of
-- crates/acp-web-backend/src/sessions.rs: a count of its own, and the loop of the code.
use acp_orchestrator.Common.{
  ℕ, suc, ◌+◌, ◌≡◌, ◌∙◌, ap, refl, Bool, true, false, ◌&&◌, Text, List, [], ◌∷◌, Option, none, some,
  arith, length, get_elem?, filter, if◌then◌else◌, ◌==◌, text_eq,
}
use acp_orchestrator.Common.Assoc.{Assoc}
use acp_orchestrator.Contracts.Sessions.{SessionStatus, active, closed, is_active}
use acp_orchestrator.Session.Types.{SessionHandle}
use acp_orchestrator.Store.Types.{SessionStore}
use acp_orchestrator.Store.Access.{with_entry, session_handles, owner_matches, handle_is_active}
use acp_orchestrator.Store.Sessions.{active_sessions}

abbrev pub one_if_active : SessionStatus → ℕ
one_if_active active = 1
one_if_active closed = 0

-- What the session behind an entry of the map counts for an owner.
abbrev pub tally : Text → Option SessionHandle → ℕ
tally owner none = 0
tally owner (some h) =
    if h.session_data.owner == owner then one_if_active h.session_data.status else 0

abbrev pub active_count : Assoc Text ℕ → List SessionHandle → Text → ℕ
active_count [] handles owner = 0
active_count ((id, a) ∷ m) handles owner =
    tally owner (get_elem? handles a) + active_count m handles owner

-- The number of active sessions of an owner, among those in the map.
abbrev pub active_sessions_of : SessionStore → Text → ℕ
active_sessions_of s owner = active_count s.sessions s.handles owner

one_more :
    (own : Bool) (status : SessionStatus) (n : ℕ)
    → (if own && is_active status then suc n else n) ≡ (if own then one_if_active status else 0) + n
one_more true active n = omega arith
one_more true closed n = omega arith
one_more false active n = omega arith
one_more false closed n = omega arith

counts : Text → Text × SessionHandle → Bool
counts owner b = owner_matches b.1 owner && handle_is_active b.1

counted_entry :
    (owner id : Text) (o : Option SessionHandle) (rest : List (Text × SessionHandle))
    → length (filter (counts owner) (with_entry id o rest))
      ≡ tally owner o + length (filter (counts owner) rest)
unfolding with_entry counts
counted_entry owner id none rest = omega arith
counted_entry owner id (some h) rest = ground (
  arith,
  one_more (h.session_data.owner == owner) h.session_data.status
      (length (filter (counts owner) rest)),
)

counted :
    (owner : Text) (m : Assoc Text ℕ) (handles : List SessionHandle)
    → length (filter (counts owner) (session_handles m handles)) ≡ active_count m handles owner
unfolding session_handles
counted owner [] handles = refl
counted owner ((id, a) ∷ m) handles =
    counted_entry owner id (get_elem? handles a) (session_handles m handles)
    ∙ ap (λ n. tally owner (get_elem? handles a) + n) (counted owner m handles)

-- The loop of `create_session` counts an owner's active sessions.
pub active_sessions-eq-active_sessions_of :
    (s : SessionStore) (owner : Text) → active_sessions s owner ≡ active_sessions_of s owner
unfolding active_sessions counts
active_sessions-eq-active_sessions_of s owner = counted owner s.sessions s.handles
