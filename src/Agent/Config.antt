-- ===== src/Agent/Config.antt =====
-- How an agent is started: `AgentLaunchConfig`, in crates/acp-web-backend/src/agent_runtime.rs.
use acp_orchestrator.Common.{
  ℕ, Bool, true, false, ◌&&◌, ◌||◌, Text, codes, List, [], ◌∷◌, ◌++◌, Option, none, some, any, find,
  leb, is_empty, not, if◌then◌else◌, ◌==◌, nat_eq,
}
use acp_orchestrator.Common.Attempt.{Attempt, done, failed}

pub data AgentLaunchMode : Type 0 where
  chroot host : AgentLaunchMode

-- `timeout` is in nanoseconds.
pub record AgentLaunchConfig : Type 0 where
  pub mode : AgentLaunchMode
  pub command : List Text
  pub env_allowlist : List Text
  pub timeout : ℕ
  pub run_uid : ℕ
  pub run_gid : ℕ

pub data AgentLaunchConfigError : Type 0 where
  missing_command empty_argv_element invalid_timeout root_run_uid root_run_gid :
      AgentLaunchConfigError
  invalid_env_name : Text → AgentLaunchConfigError

unfoldable pub display : AgentLaunchConfigError → Text
display AgentLaunchConfigError.missing_command = codes "agent command is required"
display AgentLaunchConfigError.empty_argv_element =
    codes "agent command argv elements must not be empty"
display AgentLaunchConfigError.invalid_timeout =
    codes "agent launch timeout must be greater than zero"
display AgentLaunchConfigError.root_run_uid = codes "agent run uid must be non-root"
display AgentLaunchConfigError.root_run_gid = codes "agent run gid must be non-root"
display (AgentLaunchConfigError.invalid_env_name name) =
    codes "agent env allowlist name is invalid: " ++ name

-- `char::is_ascii_alphabetic`
abbrev pub is_ascii_alphabetic : ℕ → Bool
is_ascii_alphabetic c = (leb b'A' c && leb c b'Z') || (leb b'a' c && leb c b'z')

-- `char::is_ascii_alphanumeric`
abbrev pub is_ascii_alphanumeric : ℕ → Bool
is_ascii_alphanumeric c = (leb b'0' c && leb c b'9') || is_ascii_alphabetic c

-- `Iterator::all`
abbrev pub all {ℓ} : {A : Type ℓ} → (A → Bool) → List A → Bool
all p [] = true
all p (x ∷ xs) = p x && all p xs

unfoldable pub is_safe_env_name : Text → Bool
is_safe_env_name [] = false
is_safe_env_name (first ∷ chars) =
    (first == b'_' || is_ascii_alphabetic first)
    && all (λ ch. ch == b'_' || is_ascii_alphanumeric ch) chars

-- The environment's names, the last test of `validate`.
unfoldable pub validate_names : Option Text → Attempt AgentLaunchConfigError (Unit {0})
validate_names none = done tt
validate_names (some name) = failed (AgentLaunchConfigError.invalid_env_name name)

-- The tests of `validate` that only a chroot has.
unfoldable pub validate_ids :
    AgentLaunchMode → ℕ → ℕ → Option Text → Attempt AgentLaunchConfigError (Unit {0})
unfolding validate_names
validate_ids AgentLaunchMode.host run_uid run_gid unsafe_name = validate_names unsafe_name
validate_ids AgentLaunchMode.chroot run_uid run_gid unsafe_name =
    if run_uid == 0
    then failed AgentLaunchConfigError.root_run_uid
    else if run_gid == 0
    then failed AgentLaunchConfigError.root_run_gid
    else validate_names unsafe_name

unfoldable pub validate : AgentLaunchConfig → Attempt AgentLaunchConfigError (Unit {0})
unfolding validate_ids is_safe_env_name
validate self =
    if is_empty self.command
    then failed AgentLaunchConfigError.missing_command
    else if any (λ arg. is_empty arg) self.command
    then failed AgentLaunchConfigError.empty_argv_element
    else if self.timeout == 0
    then failed AgentLaunchConfigError.invalid_timeout
    else validate_ids self.mode self.run_uid self.run_gid
        (find (λ name. not (is_safe_env_name name)) self.env_allowlist)

abbrev pub config_of : AgentLaunchMode → List Text → List Text → ℕ → ℕ → ℕ → AgentLaunchConfig
config_of mode command env_allowlist timeout run_uid run_gid = record {
  mode = mode;
  command = command;
  env_allowlist = env_allowlist;
  timeout = timeout;
  run_uid = run_uid;
  run_gid = run_gid;
}

abbrev pub with_config :
    AgentLaunchConfig
    → Attempt AgentLaunchConfigError (Unit {0})
    → Attempt AgentLaunchConfigError AgentLaunchConfig
with_config config (done u) = done config
with_config config (failed e) = failed e

-- `AgentLaunchConfig::host`
unfoldable pub host_config :
    List Text → List Text → ℕ → ℕ → ℕ → Attempt AgentLaunchConfigError AgentLaunchConfig
unfolding validate
host_config command env_allowlist timeout run_uid run_gid =
    let config = config_of AgentLaunchMode.host command env_allowlist timeout run_uid run_gid in
    with_config config (validate config)

-- `AgentLaunchConfig::chroot`
unfoldable pub chroot_config :
    List Text → List Text → ℕ → ℕ → ℕ → Attempt AgentLaunchConfigError AgentLaunchConfig
unfolding validate
chroot_config command env_allowlist timeout run_uid run_gid =
    let config = config_of AgentLaunchMode.chroot command env_allowlist timeout run_uid run_gid in
    with_config config (validate config)
