-- ===== src/Agent/Operations.antt =====
-- What the store of the profiles does, and its file, in
-- crates/acp-web-backend/src/agent_profiles.rs. Serialization and the file system are parameters.
use acp_orchestrator.Common.{
  false, Text, codes, List, [], ◌∷◌, ◌++◌, Option, none, some, is_some, if◌then◌else◌, text_eq,
}
use acp_orchestrator.Common.Assoc.{Assoc, get, remove}
use acp_orchestrator.Common.Attempt.{Attempt, done, failed, and_then}
use acp_orchestrator.Agent.Config.{AgentLaunchConfig}
use acp_orchestrator.Agent.Profiles.{
  AgentProfile, UpsertAgentProfileRequest, AgentProfileStoreError, AgentProfileStore, tree_insert,
  values, validate_profile_id, normalize_profile, ensure_unique_profile_name, profile_to_config,
  lock_profiles,
}

-- What the file system answers to the writing of the file.
pub data Trouble : Type 0 where
  fine : Trouble
  creating writing syncing replacing : Text → Trouble

-- The error of a write that fails, and none of one that does not.
unfoldable pub write_error : Trouble → Option AgentProfileStoreError
write_error Trouble.fine = none
write_error (Trouble.creating e) =
    some (AgentProfileStoreError.io (codes "creating temporary agent profiles failed: " ++ e))
write_error (Trouble.writing e) =
    some (AgentProfileStoreError.io (codes "writing temporary agent profiles failed: " ++ e))
write_error (Trouble.syncing e) =
    some (AgentProfileStoreError.io (codes "syncing temporary agent profiles failed: " ++ e))
write_error (Trouble.replacing e) =
    some (AgentProfileStoreError.io (codes "replacing agent profiles failed: " ++ e))

abbrev pub File : Type 0 → Type 0
File Bytes = Option Bytes

-- The file is replaced only behind a complete temporary one.
unfoldable pub replace :
    {Bytes : Type 0}
    → Option AgentProfileStoreError
    → File Bytes
    → Attempt Text Bytes
    → File Bytes × Attempt AgentProfileStoreError (Unit {0})
replace trouble file (failed e) =
    (file, failed (AgentProfileStoreError.json (codes "serializing agent profiles failed: " ++ e)))
replace none file (done bytes) = (some bytes, done tt)
replace (some error) file (done bytes) = (file, failed error)

unfoldable pub list_profiles :
    AgentProfileStore → Attempt AgentProfileStoreError (List AgentProfile)
unfolding lock_profiles
list_profiles self = and_then (lock_profiles self) (λ profiles. done (values profiles))

abbrev pub found_config :
    Option AgentProfile → Attempt AgentProfileStoreError (Option AgentLaunchConfig)
found_config none = failed AgentProfileStoreError.not_found
found_config (some profile) = and_then (profile_to_config profile) (λ config. done (some config))

unfoldable pub profile_config :
    AgentProfileStore → Option Text → Attempt AgentProfileStoreError (Option AgentLaunchConfig)
unfolding lock_profiles get
profile_config self none = done none
profile_config self (some profile_id) =
    and_then (lock_profiles self) (λ profiles. found_config (get profile_id profiles))

-- The first of the generated ids that no profile has.
unfoldable pub fresh_id : Assoc Text AgentProfile → List Text → Option Text
unfolding get
fresh_id profiles [] = none
fresh_id profiles (id ∷ ids) =
    let rest = fresh_id profiles ids in if is_some (get id profiles) then rest else some id

-- The profile that a request asks for, with the tests before the lock.
unfoldable pub checked_profile :
    Text → UpsertAgentProfileRequest → Attempt AgentProfileStoreError AgentProfile
unfolding normalize_profile profile_to_config
checked_profile profile_id request =
    and_then (normalize_profile profile_id request)
      (λ profile. and_then (profile_to_config profile) (λ config. done profile))

-- The profiles under the lock, if the name is free.
unfoldable pub unique_profiles :
    AgentProfileStore
    → Option Text
    → Text
    → Attempt AgentProfileStoreError (Assoc Text AgentProfile)
unfolding lock_profiles ensure_unique_profile_name
unique_profiles self allowed_profile_id name = and_then (lock_profiles self) (λ profiles.
    and_then (ensure_unique_profile_name profiles allowed_profile_id name) (λ u. done profiles))

abbrev pub with_id : Text → AgentProfile → AgentProfile
with_id id profile = record profile { id = id }

-- The store, its file and the answer.
abbrev pub Answered : Type 0 → Type 0 → Type 0
Answered Bytes A = AgentProfileStore × (File Bytes × Attempt AgentProfileStoreError A)

abbrev pub refused :
    {Bytes A : Type 0} → AgentProfileStore → File Bytes → AgentProfileStoreError → Answered Bytes A
refused self file e = (self, (file, failed e))

module _ {Bytes : Type 0} (serialize : List AgentProfile → Attempt Text Bytes) where
  unfoldable pub write_profiles :
      Trouble
      → File Bytes
      → Assoc Text AgentProfile
      → File Bytes × Attempt AgentProfileStoreError (Unit {0})
  unfolding write_error replace
  write_profiles trouble file profiles =
      replace (write_error trouble) file (serialize (values profiles))

  -- The change in memory stays, whatever becomes of the file.
  unfoldable pub commit :
      {A : Type 0}
      → Trouble
      → AgentProfileStore
      → File Bytes
      → Assoc Text AgentProfile
      → A
      → Answered Bytes A
  unfolding write_profiles
  commit trouble self file profiles a =
      let (file', written) = write_profiles trouble file profiles in
      (record self { profiles = profiles }, (file', and_then written (λ u. done a)))

  unfoldable pub insert_profile :
      Trouble
      → AgentProfileStore
      → File Bytes
      → AgentProfile
      → Assoc Text AgentProfile
      → Answered Bytes AgentProfile
  unfolding commit tree_insert
  insert_profile trouble self file profile profiles =
      commit trouble self file (tree_insert profile.id profile profiles) profile

  unfoldable pub upsert_checked :
      Trouble
      → AgentProfileStore
      → File Bytes
      → Text
      → Attempt AgentProfileStoreError AgentProfile
      → Answered Bytes AgentProfile
  unfolding insert_profile unique_profiles
  upsert_checked trouble self file profile_id (failed e) = refused self file e
  upsert_checked trouble self file profile_id (done profile) =
      elim (unique_profiles self (some profile_id) profile.name) [
        | failed e ↦ refused self file e
        | done profiles ↦ insert_profile trouble self file profile profiles
      ]

  unfoldable pub upsert_profile :
      Trouble
      → AgentProfileStore
      → File Bytes
      → Text
      → UpsertAgentProfileRequest
      → Answered Bytes AgentProfile
  unfolding upsert_checked validate_profile_id checked_profile
  upsert_profile trouble self file profile_id request =
      upsert_checked trouble self file profile_id
        (and_then (validate_profile_id profile_id) (λ u. checked_profile profile_id request))

  unfoldable pub insert_fresh :
      Trouble
      → AgentProfileStore
      → File Bytes
      → AgentProfile
      → Assoc Text AgentProfile
      → Option Text
      → Option (Answered Bytes AgentProfile)
  unfolding insert_profile
  insert_fresh trouble self file profile profiles none = none
  insert_fresh trouble self file profile profiles (some id) =
      some (insert_profile trouble self file (with_id id profile) profiles)

  -- `ids` are the generator's first answers; there is no result where they are all taken.
  unfoldable pub create_checked :
      Trouble
      → AgentProfileStore
      → File Bytes
      → List Text
      → Attempt AgentProfileStoreError AgentProfile
      → Option (Answered Bytes AgentProfile)
  unfolding insert_fresh unique_profiles fresh_id
  create_checked trouble self file ids (failed e) = some (refused self file e)
  create_checked trouble self file ids (done profile) =
      elim (unique_profiles self none profile.name) [
        | failed e ↦ some (refused self file e)
        | done profiles ↦ insert_fresh trouble self file profile profiles (fresh_id profiles ids)
      ]

  -- `create_profile_with_id_generator`
  unfoldable pub create_profile :
      Trouble
      → AgentProfileStore
      → File Bytes
      → List Text
      → UpsertAgentProfileRequest
      → Option (Answered Bytes AgentProfile)
  unfolding create_checked checked_profile
  create_profile trouble self file ids request =
      create_checked trouble self file ids (checked_profile (codes "profile-pending") request)

  unfoldable pub delete_from :
      Trouble
      → AgentProfileStore
      → File Bytes
      → Text
      → Attempt AgentProfileStoreError (Assoc Text AgentProfile)
      → Answered Bytes (Unit {0})
  unfolding commit get remove
  delete_from trouble self file profile_id (failed e) = refused self file e
  delete_from trouble self file profile_id (done profiles) =
      if is_some (get profile_id profiles)
      then commit trouble self file (remove profile_id profiles) tt
      else refused self file AgentProfileStoreError.not_found

  unfoldable pub delete_profile :
      Trouble → AgentProfileStore → File Bytes → Text → Answered Bytes (Unit {0})
  unfolding delete_from validate_profile_id lock_profiles
  delete_profile trouble self file profile_id =
      delete_from trouble self file profile_id
        (and_then (validate_profile_id profile_id) (λ u. lock_profiles self))

-- The request that `validate_stored_profile` makes of a profile.
abbrev pub request_of : AgentProfile → UpsertAgentProfileRequest
request_of profile = record {
  name = profile.name;
  mode = profile.mode;
  command_argv = profile.command_argv;
  env_allowlist = profile.env_allowlist;
  timeout_seconds = profile.timeout_seconds;
  run_uid = profile.run_uid;
  run_gid = profile.run_gid;
}

unfoldable pub validate_stored_profile : AgentProfile → Attempt AgentProfileStoreError (Unit {0})
unfolding validate_profile_id normalize_profile profile_to_config
validate_stored_profile profile = and_then (validate_profile_id profile.id) (λ u.
    and_then (normalize_profile profile.id (request_of profile))
      (λ normal. and_then (profile_to_config profile) (λ config. done tt)))

-- The map of the profiles, later ones over earlier ones; the first that is invalid is the error.
unfoldable pub collect_onto :
    Assoc Text AgentProfile
    → List AgentProfile
    → Attempt AgentProfileStoreError (Assoc Text AgentProfile)
unfolding validate_stored_profile tree_insert
collect_onto m [] = done m
collect_onto m (profile ∷ profiles) =
    let rest = collect_onto (tree_insert profile.id profile m) profiles in
    and_then (validate_stored_profile profile) (λ u. rest)

module _ {Bytes : Type 0} (parse : Bytes → Attempt Text (List AgentProfile)) where
  unfoldable pub parsed_profiles :
      Attempt Text (List AgentProfile) → Attempt AgentProfileStoreError (Assoc Text AgentProfile)
  unfolding collect_onto
  parsed_profiles (failed e) =
      failed (AgentProfileStoreError.json (codes "parsing agent profiles failed: " ++ e))
  parsed_profiles (done profiles) = collect_onto [] profiles

  unfoldable pub read_profiles :
      File Bytes → Attempt AgentProfileStoreError (Assoc Text AgentProfile)
  unfolding parsed_profiles
  read_profiles none = done []
  read_profiles (some bytes) = parsed_profiles (parse bytes)

  -- `AgentProfileStore::new`, where the directory can be made and the file read
  unfoldable pub open_store : File Bytes → Attempt AgentProfileStoreError AgentProfileStore
  unfolding read_profiles
  open_store file =
      and_then (read_profiles file)
        (λ profiles. done (record { profiles = profiles; poisoned = false }))
