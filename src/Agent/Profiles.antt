-- ===== src/Agent/Profiles.antt =====
-- The store of the agents' profiles, in crates/acp-web-backend/src/agent_profiles.rs.
use acp_orchestrator.Common.{
  ℕ, ◌*◌, ◌^◌, Bool, true, false, not, ◌&&◌, ◌||◌, Text, codes, List, [], ◌∷◌, map, Option, none,
  some, any, filter, is_empty, trim, ltb, if◌then◌else◌, ◌==◌, nat_eq, text_eq,
}
use acp_orchestrator.Common.Assoc.{Assoc, remove}
use acp_orchestrator.Common.Attempt.{Attempt, done, failed, and_then}
use acp_orchestrator.Agent.Config.{
  AgentLaunchConfig, AgentLaunchConfigError, display, is_ascii_alphanumeric, all, host_config,
  chroot_config,
}

pub data AgentProfileMode : Type 0 where
  chroot host : AgentProfileMode

pub record AgentProfile : Type 0 where
  pub id : Text
  pub name : Text
  pub mode : AgentProfileMode
  pub command_argv : List Text
  pub env_allowlist : List Text
  pub timeout_seconds : ℕ
  pub run_uid : ℕ
  pub run_gid : ℕ

pub record UpsertAgentProfileRequest : Type 0 where
  pub name : Text
  pub mode : AgentProfileMode
  pub command_argv : List Text
  pub env_allowlist : List Text
  pub timeout_seconds : ℕ
  pub run_uid : ℕ
  pub run_gid : ℕ

pub data AgentProfileStoreError : Type 0 where
  io json validation : Text → AgentProfileStoreError
  not_found : AgentProfileStoreError

-- The profiles by their ids, and whether the lock is poisoned.
pub record AgentProfileStore : Type 0 where
  pub profiles : Assoc Text AgentProfile
  pub poisoned : Bool

abbrev pub invalid : {A : Type 0} → Text → Attempt AgentProfileStoreError A
invalid message = failed (AgentProfileStoreError.validation message)

-- `str`'s order: that of the bytes is that of the characters.
unfoldable pub text_ltb : Text → Text → Bool
text_ltb [] [] = false
text_ltb [] (y ∷ ys) = true
text_ltb (x ∷ xs) [] = false
text_ltb (x ∷ xs) (y ∷ ys) = if ltb x y then true else x == y && text_ltb xs ys

-- A new key goes before the first that is larger.
unfoldable pub place : {V : Type 0} → Text → V → Assoc Text V → Assoc Text V
unfolding text_ltb
place k v [] = (k, v) ∷ []
place k v ((j, w) ∷ m) = if text_ltb k j then (k, v) ∷ (j, w) ∷ m else (j, w) ∷ place k v m

-- `BTreeMap::insert`
unfoldable pub tree_insert : {V : Type 0} → Text → V → Assoc Text V → Assoc Text V
unfolding place remove
tree_insert k v m = place k v (remove k m)

abbrev pub values {ℓ κ} : {K : Type ℓ} {V : Type κ} → Assoc K V → List V
values m = map (λ e. e.1) m

unfoldable pub validate_profile_id : Text → Attempt AgentProfileStoreError (Unit {0})
validate_profile_id profile_id =
    if not (is_empty profile_id)
      && all (λ ch. ch == b'-' || (ch == b'_' || is_ascii_alphanumeric ch)) profile_id
    then done tt
    else invalid (codes "profile id is invalid")

unfoldable pub nonempty_command : List Text → Attempt AgentProfileStoreError (List Text)
nonempty_command [] = invalid (codes "profile command must include at least one argv element")
nonempty_command (arg ∷ args) = done (arg ∷ args)

unfoldable pub normalize_command_argv : List Text → Attempt AgentProfileStoreError (List Text)
unfolding nonempty_command
normalize_command_argv command_argv =
    nonempty_command (filter (λ arg. not (is_empty arg)) (map trim command_argv))

abbrev pub profile_of : Text → Text → UpsertAgentProfileRequest → List Text → AgentProfile
profile_of profile_id name request command_argv = record {
  id = profile_id;
  name = name;
  mode = request.mode;
  command_argv = command_argv;
  env_allowlist = request.env_allowlist;
  timeout_seconds = request.timeout_seconds;
  run_uid = request.run_uid;
  run_gid = request.run_gid;
}

unfoldable pub normalize_profile :
    Text → UpsertAgentProfileRequest → Attempt AgentProfileStoreError AgentProfile
unfolding normalize_command_argv
normalize_profile profile_id request =
    if is_empty (trim request.name)
    then invalid (codes "profile name must not be empty")
    else and_then (normalize_command_argv request.command_argv)
        (λ command_argv. done (profile_of profile_id (trim request.name) request command_argv))

-- `profiles.iter().any`, the test of `ensure_unique_profile_name`
unfoldable pub has_other_named : Assoc Text AgentProfile → Option Text → Text → Bool
has_other_named profiles none name = any (λ e. e.1.name == name) profiles
has_other_named profiles (some allowed) name =
    any (λ e. not (e.0 == allowed) && e.1.name == name) profiles

unfoldable pub ensure_unique_profile_name :
    Assoc Text AgentProfile → Option Text → Text → Attempt AgentProfileStoreError (Unit {0})
unfolding has_other_named
ensure_unique_profile_name profiles allowed_profile_id name =
    if has_other_named profiles allowed_profile_id name
    then invalid (codes "profile name already exists")
    else done tt

abbrev pub config_error :
    Attempt AgentLaunchConfigError AgentLaunchConfig
    → Attempt AgentProfileStoreError AgentLaunchConfig
config_error (done config) = done config
config_error (failed e) = invalid (display e)

-- `Duration::from_secs`, in nanoseconds
abbrev pub from_secs : ℕ → ℕ
from_secs seconds = seconds * 10 ^ 9

abbrev pub config_maker :
    AgentProfileMode
    → List Text
    → List Text
    → ℕ
    → ℕ
    → ℕ
    → Attempt AgentLaunchConfigError AgentLaunchConfig
config_maker AgentProfileMode.host = host_config
config_maker AgentProfileMode.chroot = chroot_config

unfoldable pub profile_to_config : AgentProfile → Attempt AgentProfileStoreError AgentLaunchConfig
unfolding host_config chroot_config
profile_to_config profile = config_error (
    config_maker profile.mode profile.command_argv profile.env_allowlist
      (from_secs profile.timeout_seconds) profile.run_uid profile.run_gid)

-- `lock_profiles`
unfoldable pub lock_profiles :
    AgentProfileStore → Attempt AgentProfileStoreError (Assoc Text AgentProfile)
lock_profiles self =
    if self.poisoned
    then failed (AgentProfileStoreError.io (codes "agent profile store lock is poisoned"))
    else done self.profiles
