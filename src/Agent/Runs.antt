-- ===== src/Agent/Runs.antt =====
-- Sequences of calls to the store of the profiles, its file included:
-- crates/acp-web-backend/src/agent_profiles.rs.
use acp_orchestrator.Common.{
  ◌≡◌, Bool, true, false, Text, List, [], ◌∷◌, Option, none, some, All, text_eq,
}
use acp_orchestrator.Common.Attempt.{Attempt, done, failed}
use acp_orchestrator.Agent.Profiles.{
  AgentProfile, UpsertAgentProfileRequest, AgentProfileStore, validate_profile_id,
}
use acp_orchestrator.Agent.Operations.{
  Trouble, File, Answered, upsert_profile, create_profile, delete_profile,
}

-- A call, with what the file system answers and, for a new profile, the ids that are generated.
pub data Call : Type 0 where
  upsert : Trouble → Text → UpsertAgentProfileRequest → Call
  create : Trouble → List Text → UpsertAgentProfileRequest → Call
  delete : Trouble → Text → Call

abbrev pub ValidIds : List Text → Type 0
ValidIds ids = All (λ id. validate_profile_id id ≡ done tt) ids

-- The generator makes valid ids.
abbrev pub Generated : Call → Type 0
Generated (Call.upsert trouble id request) = Unit
Generated (Call.create trouble ids request) = ValidIds ids
Generated (Call.delete trouble id) = Unit

abbrev pub Kept : Type 0 → Type 0
Kept Bytes = AgentProfileStore × File Bytes

abbrev pub kept : {Bytes A : Type 0} → Answered Bytes A → Kept Bytes
kept r = (r.0, r.1.0)

abbrev pub kept_or : {Bytes A : Type 0} → Kept Bytes → Option (Answered Bytes A) → Kept Bytes
kept_or before none = before
kept_or before (some r) = kept r

module _ {Bytes : Type 0} (serialize : List AgentProfile → Attempt Text Bytes) where
  unfoldable pub perform : Call → Kept Bytes → Kept Bytes
  unfolding upsert_profile create_profile delete_profile
  perform (Call.upsert trouble id request) s =
      kept (upsert_profile serialize trouble s.0 s.1 id request)
  perform (Call.create trouble ids request) s =
      kept_or s (create_profile serialize trouble s.0 s.1 ids request)
  perform (Call.delete trouble id) s = kept (delete_profile serialize trouble s.0 s.1 id)

  unfoldable pub run : List Call → Kept Bytes → Kept Bytes
  unfolding perform
  run [] s = s
  run (call ∷ calls) s = run calls (perform call s)

abbrev pub is_done {ℓ κ} : {E : Type ℓ} {A : Type κ} → Attempt E A → Bool
is_done (done a) = true
is_done (failed e) = false

abbrev pub is_done_or : {Bytes A : Type 0} → Option (Answered Bytes A) → Bool
is_done_or none = false
is_done_or (some r) = is_done r.1.1

module _ {Bytes : Type 0} (serialize : List AgentProfile → Attempt Text Bytes) where
  -- Whether the call is answered without an error.
  unfoldable pub succeeds : Call → Kept Bytes → Bool
  unfolding upsert_profile create_profile delete_profile
  succeeds (Call.upsert trouble id request) s =
      is_done (upsert_profile serialize trouble s.0 s.1 id request).1.1
  succeeds (Call.create trouble ids request) s =
      is_done_or (create_profile serialize trouble s.0 s.1 ids request)
  succeeds (Call.delete trouble id) s = is_done (delete_profile serialize trouble s.0 s.1 id).1.1
