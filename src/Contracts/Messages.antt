-- ===== src/Contracts/Messages.antt =====
-- crates/acp-contracts-messages/src/lib.rs: the messages of a conversation.
use acp_orchestrator.Common.{ℕ, Bool, true, false, Text}

pub data MessageRole : Type 0 where
  user assistant : MessageRole

abbrev pub is_user : MessageRole → Bool
is_user user = true
is_user assistant = false

abbrev pub is_assistant : MessageRole → Bool
is_assistant user = false
is_assistant assistant = true

pub record ConversationMessage : Type 0 where
  pub id : Text
  pub role : MessageRole
  pub text : Text
  pub created_at : ℕ
