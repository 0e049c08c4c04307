-- ===== src/Store/Types.antt =====
-- The types of crates/acp-web-backend/src/sessions.rs.
use acp_orchestrator.Common.{ℕ, Text, List, []}
use acp_orchestrator.Common.Assoc.{Assoc}
use acp_orchestrator.Session.Types.{SessionHandle}

-- `handles` is the memory behind `Arc<SessionHandle>`: a value in `sessions` is an address in it.
-- `create_session_lock` orders the creations, which the model has by itself.
pub record SessionStore : Type 0 where
  pub handles : List SessionHandle
  pub sessions : Assoc Text ℕ
  pub recent_order_counter : ℕ
  pub closed_session_limit : ℕ
  pub session_cap : ℕ

pub record TurnHandle : Type 0 where
  pub handle : ℕ
  pub session_id : Text
  pub prompt_text : Text
  pub prompt_order : ℕ

pub record PendingPrompt : Type 0 where
  pub turn : TurnHandle

-- `SessionStore::new`
unfoldable pub new : ℕ → SessionStore
new session_cap = record {
  handles = [];
  sessions = [];
  recent_order_counter = 0;
  closed_session_limit = 32;
  session_cap = session_cap;
}
