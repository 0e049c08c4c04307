-- ===== src/Agent/LaunchExamples.antt =====
-- Witnesses on concrete launches.
use acp_orchestrator.Common.{
  ◌+◌, ◌≡◌, refl, Text, codes, List, [], ◌∷◌, none, some, arith, list_eqb, text_eq,
}
use acp_orchestrator.Common.Assoc.{get}
use acp_orchestrator.Common.Attempt.{done}
use acp_orchestrator.Agent.Config.{AgentLaunchMode, AgentLaunchConfig, is_safe_env_name}
use acp_orchestrator.Agent.Registry.{
  AgentChild, LaunchOutcome, FsAgentRuntimeManager, Reservation, no_metadata, running_children,
  terminate_agent_child, reserve_launch, store_launched_child, forget_session, drop_manager,
}
use acp_orchestrator.Agent.Launches.{Event, step, run, started}
use acp_orchestrator.Agent.NoLeak.{count, new_manager, run-held, drop_manager-run}
use acp_orchestrator.Agent.Cancelled.{store_launched_child_forgotten}
use acp_orchestrator.Agent.Waking.{step_woken}

abbrev host : AgentLaunchConfig
host = record {
  mode = AgentLaunchMode.host;
  command = codes "codex" ∷ [];
  env_allowlist = [];
  timeout = 1000;
  run_uid = 0;
  run_gid = 0;
}

abbrev child : AgentChild
child = record { child = 7; metadata = no_metadata }

abbrev s1 : Text
s1 = codes "s1"

abbrev events : List Event
events =
    Event.begin s1 none
    ∷ Event.finish s1 0 (done (LaunchOutcome.running child no_metadata))
    ∷ Event.begin s1 none
    ∷ Event.forget s1
    ∷ Event.begin s1 none
    ∷ []

run-held_example :
    count 7 (started events)
    ≡ count 7 (running_children (run events (new_manager (some host))).children.slots)
      + count 7 (run events (new_manager (some host))).terminated
run-held_example = run-held events (some host) 7

drop_manager-run_example :
    count 7 (drop_manager (run events (new_manager (some host)))).terminated
    ≡ count 7 (started events)
unfolding run is_safe_env_name list_eqb get
drop_manager-run_example = drop_manager-run events (some host) 7 refl

abbrev reserved : FsAgentRuntimeManager
reserved = run (Event.begin s1 none ∷ []) (new_manager (some host))

abbrev late : List Event
late = Event.begin s1 none ∷ []

store_launched_child_forgotten_example :
    (store_launched_child (run late (forget_session reserved s1)) s1 0 child).0
    ≡ terminate_agent_child child (run late (forget_session reserved s1))
unfolding run list_eqb get
store_launched_child_forgotten_example =
    store_launched_child_forgotten reserved s1 0 late child refl (omega arith) (omega arith)

step_woken_example :
    (reserve_launch (step (Event.begin (codes "s2") none) reserved) s1).1 ≡ Reservation.waits
unfolding run reserve_launch step list_eqb get
step_woken_example = step_woken (Event.begin (codes "s2") none) reserved s1 refl refl refl
