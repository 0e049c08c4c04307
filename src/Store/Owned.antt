-- ===== src/Store/Owned.antt =====
-- The sessions of an owner as crates/acp-web-backend/src/sessions.rs lists them, before they are
-- sorted: a list of its own, and the loop of the code.
use acp_orchestrator.Common.{
  ℕ, ◌≡◌, ◌∙◌, ap, refl, Text, List, [], ◌∷◌, ◌++◌, Option, none, some, map, filter, arith,
  get_elem?, if◌then◌else◌, ◌==◌, text_eq,
}
use acp_orchestrator.Common.Assoc.{Assoc}
use acp_orchestrator.Contracts.Sessions.{SessionListItem}
use acp_orchestrator.Session.Types.{SessionHandle}
use acp_orchestrator.Session.Lifecycle.{session_list_item_with_order}
use acp_orchestrator.Store.Types.{SessionStore}
use acp_orchestrator.Store.Access.{with_entry, session_handles, owner_matches}
use acp_orchestrator.Store.Recency.{entries_where, session_entry}

-- The entry of a session, if it is the owner's.
abbrev pub owned_entry : Text → Option SessionHandle → List (ℕ × SessionListItem)
owned_entry owner none = []
owned_entry owner (some h) =
    let d = h.session_data in
    let item : SessionListItem = record {
      id = d.id;
      workspace_id = d.workspace_id;
      title = d.title;
      status = d.status;
      last_activity_at = d.last_activity_at;
    } in
    if d.owner == owner then (d.recent_order, item) ∷ [] else []

abbrev pub owned_entries_in : Assoc Text ℕ → List SessionHandle → Text → List (ℕ × SessionListItem)
owned_entries_in [] handles owner = []
owned_entries_in ((id, a) ∷ m) handles owner =
    owned_entry owner (get_elem? handles a) ++ owned_entries_in m handles owner

-- The owner's sessions in the map, as they are listed.
abbrev pub owned_entries : SessionStore → Text → List (ℕ × SessionListItem)
owned_entries s owner = owned_entries_in s.sessions s.handles owner

entry_first :
    (owner id : Text) (o : Option SessionHandle) (rest : List (Text × SessionHandle))
    → map session_entry (filter (λ b. owner_matches b.1 owner) (with_entry id o rest))
      ≡ owned_entry owner o ++ map session_entry (filter (λ b. owner_matches b.1 owner) rest)
unfolding with_entry session_entry session_list_item_with_order
entry_first owner id none rest = refl
entry_first owner id (some h) rest = ground arith

entries_in :
    (owner : Text) (m : Assoc Text ℕ) (handles : List SessionHandle)
    → map session_entry (filter (λ b. owner_matches b.1 owner) (session_handles m handles))
      ≡ owned_entries_in m handles owner
unfolding session_handles
entries_in owner [] handles = refl
entries_in owner ((id, a) ∷ m) handles =
    entry_first owner id (get_elem? handles a) (session_handles m handles)
    ∙ ap (λ es. owned_entry owner (get_elem? handles a) ++ es) (entries_in owner m handles)

-- The loop of `list_owned_sessions` collects them.
pub entries_where-eq-owned_entries :
    (s : SessionStore) (owner : Text)
    → entries_where (λ h. owner_matches h owner) s ≡ owned_entries s owner
unfolding entries_where
entries_where-eq-owned_entries s owner = entries_in owner s.sessions s.handles
