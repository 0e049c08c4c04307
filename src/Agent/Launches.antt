-- ===== src/Agent/Launches.antt =====
-- Launches and their ends in any order, by any number of threads:
-- crates/acp-web-backend/src/agent_runtime.rs.
use acp_orchestrator.Common.{
  ℕ, ◌≡◌, refl, ◌⊎◌, inl, inr, true, Text, List, [], ◌∷◌, ◌++◌, Option, Option-cases, subst,
}
use acp_orchestrator.Common.Attempt.{Attempt, done, failed}
use acp_orchestrator.Agent.Config.{AgentLaunchConfig, AgentLaunchConfigError, validate}
use acp_orchestrator.Agent.Registry.{
  reserved_launch, validated_launch, stored_answer, AgentLaunchMetadata, AgentChild, LaunchOutcome,
  AgentRuntimeError, FsAgentRuntimeManager, Reservation, reserve_launch, store_launched_child,
  forget_session, config_or, begin_launch, finish_launch,
}

-- One hold of the lock. Between `begin` and `finish` a thread starts the process; `panics` is a thread
-- that stops with the lock held.
pub data Event : Type 0 where
  begin : Text → Option AgentLaunchConfig → Event
  finish : Text → ℕ → Attempt AgentRuntimeError LaunchOutcome → Event
  forget : Text → Event
  panics : Event

unfoldable pub step : Event → FsAgentRuntimeManager → FsAgentRuntimeManager
unfolding begin_launch finish_launch forget_session
step (Event.begin session_id given) self = (begin_launch self session_id given).0
step (Event.finish session_id launch_id launched) self =
    (finish_launch self session_id launch_id launched).0
step (Event.forget session_id) self = forget_session self session_id
step Event.panics self = record self { lock_poisoned = true }

unfoldable pub run : List Event → FsAgentRuntimeManager → FsAgentRuntimeManager
unfolding step
run [] self = self
run (e ∷ es) self = run es (step e self)

-- The process that an event hands to the manager.
abbrev pub started_by : Event → List ℕ
started_by (Event.finish session_id launch_id (done (LaunchOutcome.running child metadata))) =
    child.child ∷ []
started_by _ = []

abbrev pub started : List Event → List ℕ
started [] = []
started (e ∷ es) = started_by e ++ started es

reserved_launch_state :
    (chosen : AgentLaunchConfig) (session_id : Text) (self : FsAgentRuntimeManager)
    (r : Reservation)
    → (reserved_launch chosen session_id (self, r)).0 ≡ self
reserved_launch_state chosen session_id self (Reservation.reserved launch_id) = refl
reserved_launch_state chosen session_id self Reservation.waits = refl
reserved_launch_state chosen session_id self (Reservation.refused (AgentRuntimeError.config e)) =
    refl
reserved_launch_state chosen session_id self (Reservation.refused (AgentRuntimeError.io e)) = refl
reserved_launch_state chosen session_id self
      (Reservation.refused (AgentRuntimeError.unsupported e)) =
    refl
reserved_launch_state chosen session_id self
      (Reservation.refused (AgentRuntimeError.already_running e)) =
    refl
reserved_launch_state chosen session_id self (Reservation.refused (AgentRuntimeError.poisoned e)) =
    refl
reserved_launch_state chosen session_id self
      (Reservation.refused (AgentRuntimeError.launch_timed_out e)) =
    refl

validated_launch_state :
    (self : FsAgentRuntimeManager) (session_id : Text) (chosen : AgentLaunchConfig)
    (valid : Attempt AgentLaunchConfigError (Unit {0}))
    → ((validated_launch self session_id chosen valid).0 ≡ self)
      ⊎ ((validated_launch self session_id chosen valid).0 ≡ (reserve_launch self session_id).0)
validated_launch_state self session_id chosen (failed e) = inl refl
validated_launch_state self session_id chosen (done u) =
    let (after, r) = reserve_launch self session_id in
    inr (reserved_launch_state chosen session_id after r)

-- A launch looks at the registry once, or not at all.
pub begin_launch_state :
    (self : FsAgentRuntimeManager) (session_id : Text) (given : Option AgentLaunchConfig)
    → ((begin_launch self session_id given).0 ≡ self)
      ⊎ ((begin_launch self session_id given).0 ≡ (reserve_launch self session_id).0)
unfolding begin_launch
begin_launch_state self session_id given =
    elim (Option-cases (config_or given self.default_config)) [
      | inl nothing ↦ inl (rw (nothing, begin_launch) refl)
      | inr (chosen, some_config) ↦
          subst (λ x. (x ≡ self) ⊎ (x ≡ (reserve_launch self session_id).0))
            (rw (some_config, begin_launch) refl)
            (validated_launch_state self session_id chosen (validate chosen))
    ]

stored_answer_state :
    (metadata : AgentLaunchMetadata) (self : FsAgentRuntimeManager)
    (r : Attempt AgentRuntimeError (Unit {0}))
    → (stored_answer metadata (self, r)).0 ≡ self
stored_answer_state metadata self (done u) = refl
stored_answer_state metadata self (failed e) = refl

-- A launch that has a process stores it.
pub finish_launch_state :
    (self : FsAgentRuntimeManager) (session_id : Text) (launch_id : ℕ) (child : AgentChild)
    (metadata : AgentLaunchMetadata)
    → (finish_launch self session_id launch_id (done (LaunchOutcome.running child metadata))).0
      ≡ (store_launched_child self session_id launch_id child).0
unfolding finish_launch
finish_launch_state self session_id launch_id child metadata =
    let (after, r) = store_launched_child self session_id launch_id child in
    stored_answer_state metadata after r
