-- ===== src/Agent/Valid.antt =====
-- What the store keeps is what it would read back: crates/acp-web-backend/src/agent_profiles.rs.
use acp_orchestrator.Common.{
  ◌≡◌, refl, sym, ◌∙◌, subst, false, not, Text, List, [], ◌∷◌, map, filter, trim, is_empty,
  Bool-cases, inl, inr,
}
use acp_orchestrator.Common.Attempt.{done, and_then-done}
use acp_orchestrator.Agent.Config.{AgentLaunchConfig}
use acp_orchestrator.Agent.Profiles.{
  AgentProfile, UpsertAgentProfileRequest, validate_profile_id, nonempty_command,
  normalize_command_argv, profile_of, normalize_profile, profile_to_config,
}
use acp_orchestrator.Agent.Operations.{
  checked_profile, validate_stored_profile, request_of, with_id,
}
use acp_orchestrator.Agent.Blank.{is_empty-trim-trim}

abbrev trimmed : List Text → List Text
trimmed args = filter (λ arg. not (is_empty arg)) (map trim args)

trimmed_twice :
    (args : List Text) → is_empty (trimmed args) ≡ false → is_empty (trimmed (trimmed args)) ≡ false
trimmed_twice [] h = h
trimmed_twice (arg ∷ args) h = elim (Bool-cases (is_empty (trim arg))) [
  | inl blank ↦ rw blank (trimmed_twice args (rw blank at h))
  | inr kept ↦ rw kept (rw (is_empty-trim-trim arg) (rw kept refl))
]

nonempty_command-done :
    (args normal : List Text)
    → nonempty_command args ≡ done normal
    → (args ≡ normal) × (is_empty args ≡ false)
unfolding nonempty_command
nonempty_command-done [] normal h = cc
nonempty_command-done (a ∷ args) normal h = (cc, refl)

nonempty_command_nonempty :
    (args : List Text) → is_empty args ≡ false → nonempty_command args ≡ done args
unfolding nonempty_command
nonempty_command_nonempty [] h = cc
nonempty_command_nonempty (a ∷ args) h = refl

-- An argument list that was normalized can be normalized again.
normalize_command_argv_twice :
    (args normal : List Text)
    → normalize_command_argv args ≡ done normal
    → (again : List Text) × (normalize_command_argv normal ≡ done again)
unfolding normalize_command_argv
normalize_command_argv_twice args normal h =
    let (same, some_left) = nonempty_command-done (trimmed args) normal h in
    (
      trimmed normal,
      nonempty_command_nonempty (trimmed normal)
          (subst (λ l. is_empty (trimmed l) ≡ false) same (trimmed_twice args some_left)),
    )

-- What the tests before the lock have found of a request.
pub record Checked (id : Text) (request : UpsertAgentProfileRequest) (p : AgentProfile)
    : Type 0 where
  pub args : List Text
  pub config : AgentLaunchConfig
  pub named : is_empty (trim request.name) ≡ false
  pub normal : normalize_command_argv request.command_argv ≡ done args
  pub same : profile_of id (trim request.name) request args ≡ p
  pub launches : profile_to_config p ≡ done config

normalize_profile_parts :
    (id : Text) (request : UpsertAgentProfileRequest) (p : AgentProfile)
    → normalize_profile id request ≡ done p
    → (is_empty (trim request.name) ≡ false)
      × ((args : List Text) × ((normalize_command_argv request.command_argv ≡ done args)
            × (profile_of id (trim request.name) request args ≡ p)))
unfolding normalize_profile
normalize_profile_parts id request p h = elim (Bool-cases (is_empty (trim request.name))) [
  | inl blank ↦ cc (rw blank at h)
  | inr kept ↦
      let (args, (normal, same)) =
        and_then-done (normalize_command_argv request.command_argv) _ p (rw kept at h) in
      (kept, (args, (normal, cc same)))
]

pub checked_profile-Checked :
    (id : Text) (request : UpsertAgentProfileRequest) (p : AgentProfile)
    → checked_profile id request ≡ done p
    → Checked id request p
unfolding checked_profile
checked_profile-Checked id request p h =
    let (q, (made, rest)) = and_then-done (normalize_profile id request) _ p h in
    let (c, (launches, same)) = and_then-done (profile_to_config q) _ p rest in
    let (kept, (args, (normal, q_same))) = normalize_profile_parts id request q made in
    let q_p : q ≡ p = cc in
    record {
      args = args;
      config = c;
      named = kept;
      normal = normal;
      same = q_same ∙ q_p;
      launches = subst (λ r. profile_to_config r ≡ done c) q_p launches;
    }

profile_to_config-with_id :
    (id : Text) (p : AgentProfile) → profile_to_config (with_id id p) ≡ profile_to_config p
unfolding profile_to_config
profile_to_config-with_id id p = refl

normalize_profile_twice :
    (id new : Text) (request : UpsertAgentProfileRequest) (args : List Text)
    → is_empty (trim request.name) ≡ false
    → normalize_command_argv request.command_argv ≡ done args
    → (p : AgentProfile) × (normalize_profile new
          (request_of (profile_of id (trim request.name) request args))
        ≡ done p)
unfolding normalize_profile
normalize_profile_twice id new request args named normal =
    let (again, twice) = normalize_command_argv_twice request.command_argv args normal in
    let kept : is_empty (trim (trim request.name)) ≡ false =
      is_empty-trim-trim request.name ∙ named in
    rw (kept, twice) (_, refl)

validate_profile_of :
    (id new : Text) (request : UpsertAgentProfileRequest) (args : List Text) (c : AgentLaunchConfig)
    → is_empty (trim request.name) ≡ false
    → normalize_command_argv request.command_argv ≡ done args
    → profile_to_config (profile_of id (trim request.name) request args) ≡ done c
    → validate_profile_id new ≡ done tt
    → validate_stored_profile (with_id new (profile_of id (trim request.name) request args))
      ≡ done tt
unfolding validate_stored_profile
validate_profile_of id new request args c named normal launches valid =
    let (p, twice) = normalize_profile_twice id new request args named normal in
    let starts =
      profile_to_config-with_id new (profile_of id (trim request.name) request args) ∙ launches in
    rw valid (rw twice (rw starts refl))

-- A request that passes the tests makes a profile that the file may hold, under any valid id.
pub validate_stored_profile-Checked :
    (id new : Text) (request : UpsertAgentProfileRequest) (p : AgentProfile)
    → Checked id request p
    → validate_profile_id new ≡ done tt
    → validate_stored_profile (with_id new p) ≡ done tt
validate_stored_profile-Checked id new request p h valid =
    subst (λ q. validate_stored_profile (with_id new q) ≡ done tt) h.same
      (validate_profile_of id new request h.args h.config h.named h.normal
        (subst (λ q. profile_to_config q ≡ done h.config) (sym h.same) h.launches) valid)

-- A profile that the file may hold can be launched.
pub validate_stored_profile-launches :
    (p : AgentProfile)
    → validate_stored_profile p ≡ done tt
    → (c : AgentLaunchConfig) × (profile_to_config p ≡ done c)
unfolding validate_stored_profile
validate_stored_profile-launches p h =
    let (u, (valid, rest)) = and_then-done (validate_profile_id p.id) _ tt h in
    let (q, (normal, rest')) = and_then-done (normalize_profile p.id (request_of p)) _ tt rest in
    let (c, (launches, same)) = and_then-done (profile_to_config p) _ tt rest' in (c, launches)
