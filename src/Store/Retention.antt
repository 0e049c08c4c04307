-- ===== src/Store/Retention.antt =====
-- `prune_closed_sessions` of crates/acp-web-backend/src/sessions.rs: the oldest closed sessions go.
use acp_orchestrator.Common.{
  ℕ, Text, List, [], ◌∷◌, map, length, drop, Option, none, some, leb, if◌then◌else◌, text_eq,
}
use acp_orchestrator.Common.Assoc.{Assoc, remove}
use acp_orchestrator.Session.Types.{SessionHandle}
use acp_orchestrator.Store.Types.{SessionStore}
use acp_orchestrator.Store.Access.{session_handles}

unfoldable pub with_closing : Text → Option ℕ → List (Text × ℕ) → List (Text × ℕ)
with_closing id none rest = rest
with_closing id (some t) rest = (id, t) ∷ rest

-- The closed sessions with their closing times.
unfoldable pub closed_sessions : List (Text × SessionHandle) → List (Text × ℕ)
unfolding with_closing
closed_sessions [] = []
closed_sessions ((id, h) ∷ hs) = with_closing id h.session_data.closed_at (closed_sessions hs)

-- The stable `sort_by_key` with `Reverse`: latest closing time first.
unfoldable pub insert_closed : Text × ℕ → List (Text × ℕ) → List (Text × ℕ)
insert_closed x [] = x ∷ []
insert_closed x (y ∷ ys) = if leb y.1 x.1 then x ∷ y ∷ ys else y ∷ insert_closed x ys

unfoldable pub sort_closed : List (Text × ℕ) → List (Text × ℕ)
unfolding insert_closed
sort_closed [] = []
sort_closed (x ∷ xs) = insert_closed x (sort_closed xs)

unfoldable pub remove_each : List Text → Assoc Text ℕ → Assoc Text ℕ
remove_each [] m = m
remove_each (id ∷ ids) m = remove_each ids (remove id m)

-- `stale_session_ids`
unfoldable pub stale_session_ids : SessionStore → List Text
unfolding closed_sessions sort_closed session_handles
stale_session_ids s =
    map (λ b. b.0)
      (drop s.closed_session_limit
        (sort_closed (closed_sessions (session_handles s.sessions s.handles))))

-- `prune_closed_sessions`
unfoldable pub prune_closed_sessions : SessionStore → SessionStore
unfolding stale_session_ids remove_each
prune_closed_sessions s =
    if leb (length (closed_sessions (session_handles s.sessions s.handles))) s.closed_session_limit
    then s
    else record s { sessions = remove_each (stale_session_ids s) s.sessions }
