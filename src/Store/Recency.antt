-- ===== src/Store/Recency.antt =====
-- The lists of sessions, most recent first, in crates/acp-web-backend/src/sessions.rs.
use Prim.Native.Nat.{compare, Ordering}
use acp_orchestrator.Common.{
  ℕ, Bool, true, false, ◌&&◌, Text, List, [], ◌∷◌, map, filter, if◌then◌else◌,
}
use acp_orchestrator.Contracts.Sessions.{SessionListItem}
use acp_orchestrator.Session.Types.{SessionHandle}
use acp_orchestrator.Session.Lifecycle.{session_list_item_with_order}
use acp_orchestrator.Store.Types.{SessionStore}
use acp_orchestrator.Store.Access.{owner_matches, workspace_matches, session_handles}

-- `Ordering::then_with`
abbrev pub then_with : Ordering → Ordering → Ordering
then_with Ordering.eq o = o
then_with Ordering.lt o = Ordering.lt
then_with Ordering.gt o = Ordering.gt

-- `str::cmp`: by bytes, which for UTF-8 is by code points.
unfoldable pub compare_text : Text → Text → Ordering
compare_text [] [] = Ordering.eq
compare_text [] (y ∷ ys) = Ordering.lt
compare_text (x ∷ xs) [] = Ordering.gt
compare_text (x ∷ xs) (y ∷ ys) = then_with (compare x y) (compare_text xs ys)

-- `compare_session_entries`
unfoldable pub compare_session_entries : ℕ × SessionListItem → ℕ × SessionListItem → Ordering
compare_session_entries left right = then_with (compare right.0 left.0) (
    then_with (compare right.1.last_activity_at left.1.last_activity_at)
      (compare_text left.1.id right.1.id))

abbrev pub is_gt : Ordering → Bool
is_gt Ordering.gt = true
is_gt _ = false

-- The stable `sort_by` of `sort_session_entries`.
unfoldable pub insert_entry :
    ℕ × SessionListItem → List (ℕ × SessionListItem) → List (ℕ × SessionListItem)
insert_entry x [] = x ∷ []
insert_entry x (y ∷ ys) =
    if is_gt (compare_session_entries x y) then y ∷ insert_entry x ys else x ∷ y ∷ ys

unfoldable pub sort_session_entries : List (ℕ × SessionListItem) → List (ℕ × SessionListItem)
unfolding insert_entry
sort_session_entries [] = []
sort_session_entries (x ∷ xs) = insert_entry x (sort_session_entries xs)

unfoldable pub session_entry : Text × SessionHandle → ℕ × SessionListItem
session_entry (id, h) =
    let (item, order) = session_list_item_with_order h.session_data in (order, item)

unfoldable pub entries_where : (SessionHandle → Bool) → SessionStore → List (ℕ × SessionListItem)
unfolding session_entry
entries_where p s = map session_entry (filter (λ b. p b.1) (session_handles s.sessions s.handles))

-- `list_owned_sessions`
unfoldable pub list_owned_sessions : SessionStore → Text → List SessionListItem
list_owned_sessions s owner =
    map (λ b. b.1) (sort_session_entries (entries_where (λ h. owner_matches h owner) s))

-- `list_workspace_sessions`
unfoldable pub list_workspace_sessions : SessionStore → Text → Text → List SessionListItem
list_workspace_sessions s owner workspace_id =
    map (λ b. b.1)
      (sort_session_entries
        (entries_where (λ h. owner_matches h owner && workspace_matches h workspace_id) s))
