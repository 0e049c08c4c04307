-- ===== src/Agent/Registry.antt =====
-- The agents that run, in crates/acp-web-backend/src/agent_runtime.rs. A thread starts a process
-- between two holds of the registry's lock; what starts it is a parameter.
use acp_orchestrator.Common.{
  ℕ, ◌+◌, Bool, false, Text, codes, List, [], ◌∷◌, ◌++◌, Option, none, some, if◌then◌else◌, ◌==◌,
  nat_eq, text_eq,
}
use acp_orchestrator.Common.Assoc.{Assoc, get, insert, remove}
use acp_orchestrator.Common.Attempt.{Attempt, done, failed}
use acp_orchestrator.Common.Word.{succ_u64}
use acp_orchestrator.Agent.Config.{AgentLaunchConfig, AgentLaunchConfigError, validate}

pub record AgentStdioMetadata : Type 0 where
  pub argv : List Text
  pub env : List (Text × Text)
  pub working_dir : Text

pub record AgentLaunchMetadata : Type 0 where
  pub acp_address : Option Text
  pub stdio : Option AgentStdioMetadata

-- A process, by the number that the system gives it.
pub record AgentChild : Type 0 where
  pub child : ℕ
  pub metadata : AgentLaunchMetadata

pub data AgentChildSlot : Type 0 where
  launching : ℕ → AgentChildSlot
  running : AgentChild → AgentChildSlot

pub record AgentChildRegistry : Type 0 where
  pub slots : Assoc Text AgentChildSlot
  pub next_launch_id : ℕ

pub data LaunchOutcome : Type 0 where
  running : AgentChild → AgentLaunchMetadata → LaunchOutcome
  stdio : AgentLaunchMetadata → LaunchOutcome

pub data AgentRuntimeError : Type 0 where
  config : AgentLaunchConfigError → AgentRuntimeError
  io unsupported already_running poisoned : Text → AgentRuntimeError
  launch_timed_out : ℕ → AgentRuntimeError

-- The manager: the registry, whether its lock is poisoned, its default configuration, the processes
-- it has terminated so far, and how often it has notified the threads that wait.
pub record FsAgentRuntimeManager : Type 0 where
  pub children : AgentChildRegistry
  pub lock_poisoned : Bool
  pub default_config : Option AgentLaunchConfig
  pub terminated : List ℕ
  pub notified : ℕ

abbrev pub with_slots : Assoc Text AgentChildSlot → FsAgentRuntimeManager → FsAgentRuntimeManager
with_slots slots self = record self { children = record self.children { slots = slots } }

abbrev pub notify_all : FsAgentRuntimeManager → FsAgentRuntimeManager
notify_all self = record self { notified = self.notified + 1 }

-- `terminate_agent_child`
abbrev pub terminate_agent_child : AgentChild → FsAgentRuntimeManager → FsAgentRuntimeManager
terminate_agent_child child self = record self { terminated = child.child ∷ self.terminated }

abbrev pub poisoned_child_registry_error : AgentRuntimeError
poisoned_child_registry_error =
    AgentRuntimeError.poisoned (codes "agent runtime child registry is poisoned")

abbrev pub launch_cancelled : AgentRuntimeError
launch_cancelled = AgentRuntimeError.io (codes "agent runtime launch was cancelled")

-- What a look at the registry gives to a thread that wants to launch: it goes ahead or fails, or it
-- waits for a notification and looks again.
pub data Reservation : Type 0 where
  reserved : ℕ → Reservation
  refused : AgentRuntimeError → Reservation
  waits : Reservation

unfoldable pub reserve_slot :
    FsAgentRuntimeManager → Text → Option AgentChildSlot → FsAgentRuntimeManager × Reservation
unfolding insert succ_u64
reserve_slot self session_id none =
    let launch_id = self.children.next_launch_id in
    let slots = insert session_id (AgentChildSlot.launching launch_id) self.children.slots in
    (
      record self { children = record { slots = slots; next_launch_id = succ_u64 launch_id } },
      Reservation.reserved launch_id,
    )
reserve_slot self session_id (some (AgentChildSlot.launching other)) = (self, Reservation.waits)
reserve_slot self session_id (some (AgentChildSlot.running child)) =
    (self, Reservation.refused (AgentRuntimeError.already_running session_id))

-- One round of the loop of `reserve_launch`
unfoldable pub reserve_launch : FsAgentRuntimeManager → Text → FsAgentRuntimeManager × Reservation
unfolding reserve_slot get
reserve_launch self session_id =
    if self.lock_poisoned
    then (self, Reservation.refused poisoned_child_registry_error)
    else reserve_slot self session_id (get session_id self.children.slots)

-- Whether a slot is the reservation of a launch.
abbrev pub is_launching : ℕ → Option AgentChildSlot → Bool
is_launching launch_id (some (AgentChildSlot.launching existing_id)) = existing_id == launch_id
is_launching launch_id _ = false

unfoldable pub clear_launch_reservation : FsAgentRuntimeManager → Text → ℕ → FsAgentRuntimeManager
unfolding get remove
clear_launch_reservation self session_id launch_id =
    if self.lock_poisoned
    then self
    else if is_launching launch_id (get session_id self.children.slots)
    then notify_all (with_slots (remove session_id self.children.slots) self)
    else self

-- The error of `store_launched_child` for a slot that is not the launch's own.
abbrev pub store_error : Text → Option AgentChildSlot → AgentRuntimeError
store_error session_id (some (AgentChildSlot.running child)) =
    AgentRuntimeError.already_running session_id
store_error session_id _ = launch_cancelled

unfoldable pub store_launched_child :
    FsAgentRuntimeManager
    → Text
    → ℕ
    → AgentChild
    → FsAgentRuntimeManager × Attempt AgentRuntimeError (Unit {0})
unfolding get insert
store_launched_child self session_id launch_id child =
    if self.lock_poisoned
    then (terminate_agent_child child self, failed poisoned_child_registry_error)
    else if is_launching launch_id (get session_id self.children.slots)
    then (
      notify_all
          (with_slots (insert session_id (AgentChildSlot.running child) self.children.slots) self),
      done tt,
    )
    else (
      terminate_agent_child child self,
      failed (store_error session_id (get session_id self.children.slots)),
    )

abbrev pub metadata_of :
    Text → Option AgentChildSlot → Attempt AgentRuntimeError AgentLaunchMetadata
metadata_of session_id (some (AgentChildSlot.running child)) = done child.metadata
metadata_of session_id _ = failed (AgentRuntimeError.already_running session_id)

unfoldable pub running_launch_metadata :
    FsAgentRuntimeManager → Text → Attempt AgentRuntimeError AgentLaunchMetadata
unfolding get
running_launch_metadata self session_id =
    if self.lock_poisoned
    then failed poisoned_child_registry_error
    else metadata_of session_id (get session_id self.children.slots)

-- What becomes of the slot that `forget_session` has taken out.
abbrev pub forget_slot : Option AgentChildSlot → FsAgentRuntimeManager → FsAgentRuntimeManager
forget_slot none self = self
forget_slot (some (AgentChildSlot.launching launch_id)) self = notify_all self
forget_slot (some (AgentChildSlot.running child)) self =
    terminate_agent_child child (notify_all self)

-- `forget_session`, but for the session's directory
unfoldable pub forget_session : FsAgentRuntimeManager → Text → FsAgentRuntimeManager
unfolding get remove
forget_session self session_id =
    if self.lock_poisoned
    then self
    else forget_slot (get session_id self.children.slots)
        (with_slots (remove session_id self.children.slots) self)

-- The processes that `drop` terminates.
abbrev pub running_children : Assoc Text AgentChildSlot → List ℕ
running_children [] = []
running_children ((session_id, AgentChildSlot.launching launch_id) ∷ slots) = running_children slots
running_children ((session_id, AgentChildSlot.running child) ∷ slots) =
    child.child ∷ running_children slots

-- `drop`
unfoldable pub drop_manager : FsAgentRuntimeManager → FsAgentRuntimeManager
drop_manager self =
    if self.lock_poisoned
    then self
    else with_slots []
        (record self { terminated = running_children self.children.slots ++ self.terminated })

abbrev pub no_metadata : AgentLaunchMetadata
no_metadata = record { acp_address = none; stdio = none }

-- `launch.config.as_ref().or(self.config.as_ref())`
abbrev pub config_or :
    Option AgentLaunchConfig → Option AgentLaunchConfig → Option AgentLaunchConfig
config_or (some chosen) other = some chosen
config_or none other = other

-- Where a launch stands once it has looked at the registry.
pub data Launch : Type 0 where
  answered : Attempt AgentRuntimeError AgentLaunchMetadata → Launch
  starts : AgentLaunchConfig → ℕ → Launch
  waits : Launch

abbrev pub reserved_launch :
    AgentLaunchConfig → Text → FsAgentRuntimeManager × Reservation → FsAgentRuntimeManager × Launch
reserved_launch chosen session_id (self, Reservation.reserved launch_id) =
    (self, Launch.starts chosen launch_id)
reserved_launch chosen session_id (self, Reservation.waits) = (self, Launch.waits)
reserved_launch chosen session_id
      (self, Reservation.refused (AgentRuntimeError.already_running other)) =
    (self, Launch.answered (running_launch_metadata self session_id))
reserved_launch chosen session_id (self, Reservation.refused error) =
    (self, Launch.answered (failed error))

abbrev pub validated_launch :
    FsAgentRuntimeManager
    → Text
    → AgentLaunchConfig
    → Attempt AgentLaunchConfigError (Unit {0})
    → FsAgentRuntimeManager × Launch
validated_launch self session_id chosen (failed error) =
    (self, Launch.answered (failed (AgentRuntimeError.config error)))
validated_launch self session_id chosen (done u) =
    reserved_launch chosen session_id (reserve_launch self session_id)

-- `launch_session`, up to the start of the process
unfoldable pub begin_launch :
    FsAgentRuntimeManager → Text → Option AgentLaunchConfig → FsAgentRuntimeManager × Launch
unfolding validate reserve_launch running_launch_metadata
begin_launch self session_id given = elim (config_or given self.default_config) [
  | none ↦ (self, Launch.answered (done no_metadata))
  | some chosen ↦ validated_launch self session_id chosen (validate chosen)
]

abbrev pub stored_answer :
    AgentLaunchMetadata
    → FsAgentRuntimeManager × Attempt AgentRuntimeError (Unit {0})
    → FsAgentRuntimeManager × Attempt AgentRuntimeError AgentLaunchMetadata
stored_answer metadata (self, done u) = (self, done metadata)
stored_answer metadata (self, failed error) = (self, failed error)

-- `launch_session`, from the start of the process on
unfoldable pub finish_launch :
    FsAgentRuntimeManager
    → Text
    → ℕ
    → Attempt AgentRuntimeError LaunchOutcome
    → FsAgentRuntimeManager × Attempt AgentRuntimeError AgentLaunchMetadata
unfolding clear_launch_reservation store_launched_child
finish_launch self session_id launch_id (failed error) =
    (clear_launch_reservation self session_id launch_id, failed error)
finish_launch self session_id launch_id (done (LaunchOutcome.stdio metadata)) =
    (clear_launch_reservation self session_id launch_id, done metadata)
finish_launch self session_id launch_id (done (LaunchOutcome.running child metadata)) =
    stored_answer metadata (store_launched_child self session_id launch_id child)
