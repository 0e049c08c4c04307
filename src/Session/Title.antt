-- ===== src/Session/Title.antt =====
-- `auto_title_from_prompt` of crates/acp-web-backend/src/sessions/handle.rs.
use acp_orchestrator.Common.{
  Text, Option, none, some, codes, split_whitespace, join, take, is_empty, if◌then◌else◌,
}

unfoldable pub auto_title_from_prompt : Text → Option Text
unfolding split_whitespace join
auto_title_from_prompt prompt =
    let normalized = join (codes " ") (split_whitespace prompt) in
    let title = take 60 normalized in if is_empty title then none else some title
