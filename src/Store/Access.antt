-- ===== src/Store/Access.antt =====
-- Reaching a session through the store, in crates/acp-web-backend/src/sessions.rs.
use acp_orchestrator.Common.{
  ℕ, Bool, Text, List, [], ◌∷◌, ◌++◌, Option, none, some, get_elem?, set, length, if◌then◌else◌,
  ◌==◌, text_eq,
}
use acp_orchestrator.Common.Assoc.{Assoc, get, insert}
use acp_orchestrator.Common.Word.{succ_u64}
use acp_orchestrator.Contracts.Sessions.{is_active}
use acp_orchestrator.Session.Types.{SessionData, SessionHandle, Result, ok, err, SessionStoreError}
use acp_orchestrator.Store.Types.{SessionStore}

-- `SessionHandle::owner_matches`, `workspace_matches` and `is_active`
abbrev pub owner_matches : SessionHandle → Text → Bool
owner_matches h owner = h.session_data.owner == owner

abbrev pub workspace_matches : SessionHandle → Text → Bool
workspace_matches h workspace_id = h.session_data.workspace_id == workspace_id

abbrev pub handle_is_active : SessionHandle → Bool
handle_is_active h = is_active h.session_data.status

-- The handle behind a key of the map.
unfoldable pub find_handle : SessionStore → Text → Option (ℕ × SessionHandle)
find_handle s session_id = elim (get session_id s.sessions) [
  | none ↦ none
  | some a ↦ elim (get_elem? s.handles a) [ none ↦ none | some h ↦ some (a, h) ]
]

-- The owner's check of `authorized_handle`.
unfoldable pub check_owner : Text → Option (ℕ × SessionHandle) → Result (ℕ × SessionHandle)
check_owner owner none = err SessionStoreError.not_found
check_owner owner (some (a, h)) =
    if owner_matches h owner then ok (a, h) else err SessionStoreError.forbidden

-- `authorized_handle`
unfoldable pub authorized_handle : SessionStore → Text → Text → Result (ℕ × SessionHandle)
unfolding check_owner
authorized_handle s owner session_id = check_owner owner (find_handle s session_id)

-- `let handle = self.authorized_handle(owner, session_id).await?;` and what follows.
module _ {A : Type 0} where
  abbrev pub after_check :
      SessionStore
      → Result (ℕ × SessionHandle)
      → (ℕ → SessionHandle → SessionStore × Result A)
      → SessionStore × Result A
  after_check s (err e) k = (s, err e)
  after_check s (ok (a, h)) k = k a h

  unfoldable pub authorized :
      SessionStore
      → Text
      → Text
      → (ℕ → SessionHandle → SessionStore × Result A)
      → SessionStore × Result A
  authorized s owner session_id k = after_check s (authorized_handle s owner session_id) k

-- A write through a shared handle.
unfoldable pub write : SessionStore → ℕ → SessionHandle → SessionStore
write s a h = record s { handles = set s.handles a h }

abbrev pub with_data : SessionHandle → SessionData → SessionHandle
with_data h d = record h { session_data = d }

-- `claim_recent_order`
unfoldable pub claim_recent_order : SessionStore → SessionStore × ℕ
claim_recent_order s =
    let order = succ_u64 s.recent_order_counter in
    (record s { recent_order_counter = order }, order)

-- A new handle in memory, under a key of the map.
unfoldable pub store_handle : SessionStore → Text → SessionHandle → SessionStore
store_handle s session_id h = record s {
  handles = s.handles ++ h ∷ [];
  sessions = insert session_id (length s.handles) s.sessions;
}

unfoldable pub with_entry :
    Text → Option SessionHandle → List (Text × SessionHandle) → List (Text × SessionHandle)
with_entry id none rest = rest
with_entry id (some h) rest = (id, h) ∷ rest

-- `sessions.values()`: the handles of the map, in the order of its entries.
unfoldable pub session_handles : Assoc Text ℕ → List SessionHandle → List (Text × SessionHandle)
unfolding with_entry
session_handles [] handles = []
session_handles ((id, a) ∷ m) handles =
    with_entry id (get_elem? handles a) (session_handles m handles)
