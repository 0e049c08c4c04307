-- ===== src/Agent/Examples.antt =====
-- Witnesses and tests on concrete profiles, launches and files.
use acp_orchestrator.Common.{
  ◌≡◌, refl, Text, codes, List, [], ◌∷◌, none, some, is_some, list_eqb, text_eq, trim,
  is_whitespace,
}
use acp_orchestrator.Common.Assoc.{get}
use acp_orchestrator.Common.Attempt.{Attempt, done}
use acp_orchestrator.Agent.Profiles.{
  AgentProfileMode, AgentProfile, UpsertAgentProfileRequest, AgentProfileStore, validate_profile_id,
}
use acp_orchestrator.Agent.Operations.{Trouble, open_store, profile_config}
use acp_orchestrator.Agent.Names.{WellFormed}
use acp_orchestrator.Agent.Runs.{Call, perform, run, succeeds, is_done}
use acp_orchestrator.Agent.Keeping.{Sound, Good, run-Good}
use acp_orchestrator.Agent.Names.{[]-WellFormed}
use acp_orchestrator.Agent.Restart.{looked_up}
use acp_orchestrator.Agent.Reopening.{
  empty_store, profile_config_found, run_reopens, succeeds_stored,
}

abbrev codex : UpsertAgentProfileRequest
codex = record {
  name = codes " Codex ";
  mode = AgentProfileMode.host;
  command_argv = codes "codex" ∷ [];
  env_allowlist = codes "PATH" ∷ [];
  timeout_seconds = 30;
  run_uid = 1000;
  run_gid = 1000;
}

-- A profile that is stored, one that the disk refuses, and one that is new.
abbrev calls : List Call
calls =
    Call.upsert Trouble.fine (codes "a") codex
    ∷ Call.create (Trouble.syncing (codes "full")) (codes "p1" ∷ []) codex
    ∷ []

abbrev saved : List AgentProfile → Attempt Text (List AgentProfile)
saved ps = done ps

saved_faithful : (ps bytes : List AgentProfile) → saved ps ≡ done bytes → saved bytes ≡ done ps
saved_faithful ps bytes h = cc

run-Good_example : Good saved saved (run saved calls (empty_store, none))
unfolding validate_profile_id
run-Good_example =
    run-Good saved saved saved_faithful calls (empty_store, none) (tt, ((refl, tt), tt))
      (record { memory = []-WellFormed; file = Sound.absent })

run_reopens_example :
    (self : AgentProfileStore) × ((open_store saved (run saved calls (empty_store, none)).1
        ≡ done self)
      × WellFormed self.profiles)
unfolding validate_profile_id
run_reopens_example = run_reopens saved saved saved_faithful calls (tt, ((refl, tt), tt))

abbrev last_call : Call
last_call = Call.delete Trouble.fine (codes "a")

succeeds_stored_example :
    looked_up
      (codes "a")
      (open_store saved (perform saved last_call (run saved calls (empty_store, none))).1)
    ≡ get (codes "a") (perform saved last_call (run saved calls (empty_store, none))).0.profiles
unfolding validate_profile_id succeeds run list_eqb get trim is_whitespace
succeeds_stored_example =
    succeeds_stored saved saved saved_faithful calls last_call (codes "a") (tt, ((refl, tt), tt)) tt
      refl

abbrev after_calls : AgentProfileStore
after_calls = (run saved calls (empty_store, none)).0

profile_config_found_example :
    is_done (profile_config after_calls (some (codes "a")))
    ≡ is_some (get (codes "a") after_calls.profiles)
unfolding validate_profile_id run list_eqb get trim is_whitespace
profile_config_found_example =
    profile_config_found after_calls (codes "a")
      (run-Good saved saved saved_faithful calls (empty_store, none) (tt, ((refl, tt), tt))
        (record { memory = []-WellFormed; file = Sound.absent })).memory
      refl
