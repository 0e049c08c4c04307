-- ===== src/Agent/NoLeak.antt =====
-- No process of an agent is lost or terminated twice: crates/acp-web-backend/src/agent_runtime.rs.
use acp_orchestrator.Common.{
  ℕ, ◌+◌, ◌≡◌, refl, sym, ap, ◌∙◌, inl, inr, true, false, Text, List, [], ◌∷◌, ◌++◌, Option, none,
  some, Bool-cases, either_branch, if_false, arith, if◌then◌else◌, ◌==◌, ==_iff, ==_refl, nat_eq,
  text_eq, subst,
}
use acp_orchestrator.Common.Assoc.{Assoc, get, insert, remove, get-remove}
use acp_orchestrator.Common.Attempt.{Attempt, done, failed}
use acp_orchestrator.Agent.Config.{AgentLaunchConfig}
use acp_orchestrator.Agent.Tree.{Distinct, remove-Distinct}
use acp_orchestrator.Agent.Registry.{
  AgentChild, AgentChildSlot, LaunchOutcome, AgentRuntimeError, FsAgentRuntimeManager, Reservation,
  reserve_slot, reserve_launch, is_launching, clear_launch_reservation, store_launched_child,
  forget_slot, forget_session, running_children, drop_manager, finish_launch, with_slots,
  terminate_agent_child,
}
use acp_orchestrator.Agent.Launches.{
  Event, step, run, started_by, started, begin_launch_state, finish_launch_state,
}

-- How often a process stands in a list.
abbrev pub count : ℕ → List ℕ → ℕ
count c [] = 0
count c (x ∷ xs) = (if x == c then 1 else 0) + count c xs

count-append : (c : ℕ) (xs ys : List ℕ) → count c (xs ++ ys) ≡ count c xs + count c ys
count-append c [] ys = omega arith
count-append c (x ∷ xs) ys = omega (arith, count-append c xs ys)

abbrev slot_children : Option AgentChildSlot → List ℕ
slot_children none = []
slot_children (some (AgentChildSlot.launching launch_id)) = []
slot_children (some (AgentChildSlot.running child)) = child.child ∷ []

entry_children :
    (c : ℕ) (k : Text) (v : AgentChildSlot) (m : Assoc Text AgentChildSlot)
    → count c (running_children ((k, v) ∷ m))
      ≡ count c (slot_children (some v)) + count c (running_children m)
entry_children c k (AgentChildSlot.launching launch_id) m = omega arith
entry_children c k (AgentChildSlot.running child) m = omega arith

-- Taking out a key takes out what `get` finds there.
children-remove :
    (c : ℕ) (k : Text) (m : Assoc Text AgentChildSlot)
    → Distinct m
    → count c (running_children m)
      ≡ count c (slot_children (get k m)) + count c (running_children (remove k m))
unfolding get remove
children-remove c k [] d = omega arith
children-remove c k ((j, v) ∷ m) d = elim (Bool-cases (j == k)) [
  | inl hit ↦
      let absent : get k m ≡ none = subst (λ i. get i m ≡ none) ((==_iff j k).0 hit) d.0 in
      rw hit (omega (arith, entry_children c j v m, rw absent at (children-remove c k m d.1)))
  | inr miss ↦ rw miss (
      omega (
        arith,
        entry_children c j v m,
        children-remove c k m d.1,
        entry_children c j v (remove k m),
      ))
]

-- The processes that the manager has, running and terminated.
abbrev pub held : ℕ → FsAgentRuntimeManager → ℕ
held c self = count c (running_children self.children.slots) + count c self.terminated

insert-Distinct :
    (k : Text) (v : AgentChildSlot) (m : Assoc Text AgentChildSlot)
    → Distinct m
    → Distinct (insert k v m)
unfolding insert
insert-Distinct k v m d = (ground (arith, get-remove k k m, ==_refl k), remove-Distinct k m d)

-- What holds of the manager before and behind an event: the keys are distinct, and the processes are
-- those from before and the new ones.
record Counted (new : List ℕ) (self after : FsAgentRuntimeManager) : Type 0 where
  distinct : Distinct after.children.slots
  total : (c : ℕ) → held c after ≡ count c new + held c self

same_count : (self : FsAgentRuntimeManager) → Distinct self.children.slots → Counted [] self self
same_count self d = record { distinct = d; total = λ c. omega arith }

children-insert :
    (c : ℕ) (k : Text) (v : AgentChildSlot) (m : Assoc Text AgentChildSlot)
    → Distinct m
    → count c (running_children (insert k v m)) + count c (slot_children (get k m))
      ≡ count c (slot_children (some v)) + count c (running_children m)
unfolding insert
children-insert c k v m d =
    omega (arith, entry_children c k v (remove k m), children-remove c k m d)

reserve_slot-Counted :
    (self : FsAgentRuntimeManager) (session_id : Text) (o : Option AgentChildSlot)
    → get session_id self.children.slots ≡ o
    → Distinct self.children.slots
    → Counted [] self (reserve_slot self session_id o).0
unfolding reserve_slot
reserve_slot-Counted self session_id (some (AgentChildSlot.launching other)) eq d =
    same_count self d
reserve_slot-Counted self session_id (some (AgentChildSlot.running child)) eq d = same_count self d
reserve_slot-Counted self session_id none eq d =
    let slot = AgentChildSlot.launching self.children.next_launch_id in
    let slots = self.children.slots in
    record {
      distinct = insert-Distinct session_id slot slots d;
      total = λ c. omega (arith, rw eq at (children-insert c session_id slot slots d));
    }

reserve_launch-Counted :
    (self : FsAgentRuntimeManager) (session_id : Text)
    → Distinct self.children.slots
    → Counted [] self (reserve_launch self session_id).0
unfolding reserve_launch
reserve_launch-Counted self session_id d =
    either_branch (λ (r : FsAgentRuntimeManager × Reservation). Counted [] self r.0)
      self.lock_poisoned _ _ (same_count self d)
      (reserve_slot-Counted self session_id (get session_id self.children.slots) refl d)

is_launching-children :
    (c launch_id : ℕ) (o : Option AgentChildSlot)
    → is_launching launch_id o ≡ true
    → count c (slot_children o) ≡ 0
is_launching-children c launch_id none h = refl
is_launching-children c launch_id (some (AgentChildSlot.launching other)) h = refl
is_launching-children c launch_id (some (AgentChildSlot.running child)) h = cc

clear_launch_reservation-Counted :
    (self : FsAgentRuntimeManager) (session_id : Text) (launch_id : ℕ)
    → Distinct self.children.slots
    → Counted [] self (clear_launch_reservation self session_id launch_id)
unfolding clear_launch_reservation
clear_launch_reservation-Counted self session_id launch_id d =
    let slots = self.children.slots in
    either_branch (Counted [] self) self.lock_poisoned _ _ (same_count self d)
      (elim (Bool-cases (is_launching launch_id (get session_id slots))) [
        | inr other ↦ rw other (same_count self d)
        | inl own ↦ rw own (record {
          distinct = remove-Distinct session_id slots d;
          total = λ c. omega (
            arith,
            children-remove c session_id slots d,
            is_launching-children c launch_id (get session_id slots) own,
          );
        })
      ])

-- A terminated process counts once.
terminated-Counted :
    (self : FsAgentRuntimeManager) (child : AgentChild)
    → Distinct self.children.slots
    → Counted (child.child ∷ []) self (terminate_agent_child child self)
terminated-Counted self child d = record { distinct = d; total = λ c. omega arith }

store_launched_child-Counted :
    (self : FsAgentRuntimeManager) (session_id : Text) (launch_id : ℕ) (child : AgentChild)
    → Distinct self.children.slots
    → Counted (child.child ∷ []) self (store_launched_child self session_id launch_id child).0
unfolding store_launched_child
store_launched_child-Counted self session_id launch_id child d =
    let slots = self.children.slots in
    let slot = AgentChildSlot.running child in
    either_branch
      (λ (r : FsAgentRuntimeManager × Attempt AgentRuntimeError (Unit {0})).
        Counted (child.child ∷ []) self r.0)
      self.lock_poisoned _ _ (terminated-Counted self child d)
      (elim (Bool-cases (is_launching launch_id (get session_id slots))) [
        | inr other ↦ rw other (terminated-Counted self child d)
        | inl own ↦ rw own (record {
          distinct = insert-Distinct session_id slot slots d;
          total = λ c. omega (
            arith,
            children-insert c session_id slot slots d,
            is_launching-children c launch_id (get session_id slots) own,
          );
        })
      ])

forget_slot-Counted :
    (self : FsAgentRuntimeManager) (session_id : Text) (o : Option AgentChildSlot)
    → get session_id self.children.slots ≡ o
    → Distinct self.children.slots
    → Counted [] self (forget_slot o (with_slots (remove session_id self.children.slots) self))
forget_slot-Counted self session_id none eq d = record {
  distinct = remove-Distinct session_id self.children.slots d;
  total = λ c. omega (arith, rw eq at (children-remove c session_id self.children.slots d));
}
forget_slot-Counted self session_id (some (AgentChildSlot.launching launch_id)) eq d = record {
  distinct = remove-Distinct session_id self.children.slots d;
  total = λ c. omega (arith, rw eq at (children-remove c session_id self.children.slots d));
}
forget_slot-Counted self session_id (some (AgentChildSlot.running child)) eq d = record {
  distinct = remove-Distinct session_id self.children.slots d;
  total = λ c. omega (arith, rw eq at (children-remove c session_id self.children.slots d));
}

step-Counted :
    (e : Event) (self : FsAgentRuntimeManager)
    → Distinct self.children.slots
    → Counted (started_by e) self (step e self)
unfolding step forget_session finish_launch
step-Counted (Event.begin session_id given) self d =
    elim (begin_launch_state self session_id given) [
      | inl same ↦ subst (Counted [] self) (sym same) (same_count self d)
      | inr looked ↦ subst (Counted [] self) (sym looked) (reserve_launch-Counted self session_id d)
    ]
step-Counted (Event.finish session_id launch_id (failed e)) self d =
    clear_launch_reservation-Counted self session_id launch_id d
step-Counted (Event.finish session_id launch_id (done (LaunchOutcome.stdio metadata))) self d =
    clear_launch_reservation-Counted self session_id launch_id d
step-Counted (Event.finish session_id launch_id (done (LaunchOutcome.running child metadata))) self
      d =
    subst (Counted (child.child ∷ []) self)
      (sym (finish_launch_state self session_id launch_id child metadata))
      (store_launched_child-Counted self session_id launch_id child d)
step-Counted (Event.forget session_id) self d =
    either_branch (Counted [] self) self.lock_poisoned _ _ (same_count self d)
      (forget_slot-Counted self session_id (get session_id self.children.slots) refl d)
step-Counted Event.panics self d = record { distinct = d; total = λ c. omega arith }

run-Counted :
    (es : List Event) (self : FsAgentRuntimeManager)
    → Distinct self.children.slots
    → Counted (started es) self (run es self)
unfolding run
run-Counted [] self d = same_count self d
run-Counted (e ∷ es) self d =
    let one = step-Counted e self d in
    let more = run-Counted es (step e self) one.distinct in
    record {
      distinct = more.distinct;
      total =
          λ c. omega (arith, more.total c, one.total c, count-append c (started_by e) (started es));
    }

-- A manager as `FsAgentRuntimeManager::new` makes it.
abbrev pub new_manager : Option AgentLaunchConfig → FsAgentRuntimeManager
new_manager config = record {
  children = record { slots = []; next_launch_id = 0 };
  lock_poisoned = false;
  default_config = config;
  terminated = [];
  notified = 0;
}

-- Over any sequence of events from a new manager, launches and their ends by any number of
-- threads, forgotten sessions and panics with the lock held, each process handed to the manager
-- stands among the running and the terminated ones exactly as often as it was handed over: none is
-- lost, none is terminated twice, none is both.
pub run-held :
    (es : List Event) (config : Option AgentLaunchConfig) (c : ℕ)
    → count c (started es)
      ≡ count c (running_children (run es (new_manager config)).children.slots)
        + count c (run es (new_manager config)).terminated
run-held es config c = omega (arith, (run-Counted es (new_manager config) tt).total c)

drop_manager-terminated :
    (self : FsAgentRuntimeManager) (c : ℕ)
    → self.lock_poisoned ≡ false
    → count c (drop_manager self).terminated ≡ held c self
unfolding drop_manager
drop_manager-terminated self c h =
    ap (λ (m : FsAgentRuntimeManager). count c m.terminated) (if_false self.lock_poisoned self _ h)
    ∙ count-append c (running_children self.children.slots) self.terminated

-- Dropping the manager after any sequence of events from a new one, where the lock is not
-- poisoned, leaves each process terminated exactly as often as it was handed over.
pub drop_manager-run :
    (es : List Event) (config : Option AgentLaunchConfig) (c : ℕ)
    → (run es (new_manager config)).lock_poisoned ≡ false
    → count c (drop_manager (run es (new_manager config))).terminated ≡ count c (started es)
drop_manager-run es config c h =
    drop_manager-terminated (run es (new_manager config)) c h ∙ sym (run-held es config c)
