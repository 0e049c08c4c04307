-- ===== src/Agent/Waking.antt =====
-- A launch that waits is woken when it need not wait any more:
-- crates/acp-web-backend/src/agent_runtime.rs.
use acp_orchestrator.Common.{
  ℕ, ◌+◌, ◌≡◌, refl, sym, ap, ◌∙◌, subst, inl, inr, Bool, true, false, Text, Option, none, some,
  Bool-cases, either_branch, if_false, arith, if◌then◌else◌, ◌==◌, ==_iff, nat_eq, text_eq,
}
use acp_orchestrator.Common.Assoc.{get, remove, get-remove, get-insert}
use acp_orchestrator.Common.Attempt.{Attempt, done, failed}
use acp_orchestrator.Agent.Registry.{
  AgentChild, AgentChildSlot, LaunchOutcome, AgentRuntimeError, FsAgentRuntimeManager, Reservation,
  with_slots, reserve_slot, reserve_launch, is_launching, clear_launch_reservation,
  store_launched_child, forget_slot, forget_session, finish_launch,
}
use acp_orchestrator.Agent.Launches.{Event, step, begin_launch_state, finish_launch_state}

-- Whether a slot is some launch's reservation.
abbrev is_reserved : Option AgentChildSlot → Bool
is_reserved (some (AgentChildSlot.launching launch_id)) = true
is_reserved _ = false

reserve_slot-waits :
    (self : FsAgentRuntimeManager) (session_id : Text) (o : Option AgentChildSlot)
    → (reserve_slot self session_id o).1 ≡ Reservation.waits
    → is_reserved o ≡ true
unfolding reserve_slot
reserve_slot-waits self session_id none h = cc
reserve_slot-waits self session_id (some (AgentChildSlot.launching other)) h = refl
reserve_slot-waits self session_id (some (AgentChildSlot.running child)) h = cc

reserve_slot-reserved :
    (self : FsAgentRuntimeManager) (session_id : Text) (o : Option AgentChildSlot)
    → is_reserved o ≡ true
    → (reserve_slot self session_id o).1 ≡ Reservation.waits
unfolding reserve_slot
reserve_slot-reserved self session_id none h = cc
reserve_slot-reserved self session_id (some (AgentChildSlot.launching other)) h = refl
reserve_slot-reserved self session_id (some (AgentChildSlot.running child)) h = cc

open_lock :
    (b : Bool) (self : FsAgentRuntimeManager) (e : AgentRuntimeError)
    (r : FsAgentRuntimeManager × Reservation)
    → (if b then (self, Reservation.refused e) else r).1 ≡ Reservation.waits
    → r.1 ≡ Reservation.waits
open_lock true self e r h = cc
open_lock false self e r h = h

waits-is_reserved :
    (self : FsAgentRuntimeManager) (session_id : Text)
    → (reserve_launch self session_id).1 ≡ Reservation.waits
    → is_reserved (get session_id self.children.slots) ≡ true
unfolding reserve_launch
waits-is_reserved self session_id h =
    reserve_slot-waits self session_id (get session_id self.children.slots)
      (open_lock self.lock_poisoned self _ _ h)

is_reserved-waits :
    (self : FsAgentRuntimeManager) (session_id : Text)
    → self.lock_poisoned ≡ false
    → is_reserved (get session_id self.children.slots) ≡ true
    → (reserve_launch self session_id).1 ≡ Reservation.waits
unfolding reserve_launch
is_reserved-waits self session_id sane h =
    ap (λ (r : FsAgentRuntimeManager × Reservation). r.1) (if_false self.lock_poisoned _ _ sane)
    ∙ reserve_slot-reserved self session_id (get session_id self.children.slots) h

-- The session stays reserved, or the threads that wait are notified.
data Quiet (session_id : Text) (self after : FsAgentRuntimeManager) : Type 0 where
  still : is_reserved (get session_id after.children.slots) ≡ true → Quiet session_id self after
  woken : after.notified ≡ self.notified + 1 → Quiet session_id self after

module _ (session_id : Text) where
  either_reserved :
      (b : Bool) (x y : Option AgentChildSlot)
      → is_reserved x ≡ true
      → is_reserved y ≡ true
      → is_reserved (if b then x else y) ≡ true
  either_reserved b x y hx hy = either_branch (λ o. is_reserved o ≡ true) b x y hx hy

  reserve_slot-Quiet :
      (self : FsAgentRuntimeManager) (k : Text) (o : Option AgentChildSlot)
      → is_reserved (get session_id self.children.slots) ≡ true
      → Quiet session_id self (reserve_slot self k o).0
  unfolding reserve_slot
  reserve_slot-Quiet self k (some (AgentChildSlot.launching other)) h = Quiet.still h
  reserve_slot-Quiet self k (some (AgentChildSlot.running child)) h = Quiet.still h
  reserve_slot-Quiet self k none h =
      let slot = AgentChildSlot.launching self.children.next_launch_id in
      Quiet.still (
        ap is_reserved (get-insert k session_id slot self.children.slots)
        ∙ either_reserved (k == session_id) (some slot) _ refl h)

  clear_launch_reservation-Quiet :
      (self : FsAgentRuntimeManager) (k : Text) (other : ℕ)
      → is_reserved (get session_id self.children.slots) ≡ true
      → Quiet session_id self (clear_launch_reservation self k other)
  unfolding clear_launch_reservation
  clear_launch_reservation-Quiet self k other h =
      either_branch (Quiet session_id self) self.lock_poisoned _ _ (Quiet.still h) (
        either_branch (Quiet session_id self) (is_launching other (get k self.children.slots)) _ _
          (Quiet.woken refl) (Quiet.still h))

  store_launched_child-Quiet :
      (self : FsAgentRuntimeManager) (k : Text) (other : ℕ) (child : AgentChild)
      → is_reserved (get session_id self.children.slots) ≡ true
      → Quiet session_id self (store_launched_child self k other child).0
  unfolding store_launched_child
  store_launched_child-Quiet self k other child h =
      let P = λ (r : FsAgentRuntimeManager × Attempt AgentRuntimeError (Unit {0})).
        Quiet session_id self r.0 in
      either_branch P self.lock_poisoned _ _ (Quiet.still h) (
        either_branch P (is_launching other (get k self.children.slots)) _ _ (Quiet.woken refl)
          (Quiet.still h))

  forget_slot-Quiet :
      (self : FsAgentRuntimeManager) (k : Text) (o : Option AgentChildSlot)
      → get k self.children.slots ≡ o
      → is_reserved (get session_id self.children.slots) ≡ true
      → Quiet session_id self (forget_slot o (with_slots (remove k self.children.slots) self))
  forget_slot-Quiet self k (some (AgentChildSlot.launching other)) eq h = Quiet.woken refl
  forget_slot-Quiet self k (some (AgentChildSlot.running child)) eq h = Quiet.woken refl
  forget_slot-Quiet self k none eq h = elim (Bool-cases (k == session_id)) [
    | inl same ↦
        let nothing : get session_id self.children.slots ≡ none =
          subst (λ i. get i self.children.slots ≡ none) ((==_iff k session_id).0 same) eq in
        absurd (cc (rw nothing at h))
    | inr other ↦ Quiet.still (
        ap is_reserved
          (get-remove k session_id self.children.slots ∙ if_false (k == session_id) _ _ other)
        ∙ h)
  ]

  step-Quiet :
      (e : Event) (self : FsAgentRuntimeManager)
      → is_reserved (get session_id self.children.slots) ≡ true
      → Quiet session_id self (step e self)
  unfolding step finish_launch reserve_launch forget_session
  step-Quiet (Event.begin k given) self h = elim (begin_launch_state self k given) [
    | inl same ↦ subst (Quiet session_id self) (sym same) (Quiet.still h)
    | inr looked ↦ subst (Quiet session_id self) (sym looked) (
        either_branch (λ (r : FsAgentRuntimeManager × Reservation). Quiet session_id self r.0)
          self.lock_poisoned _ _ (Quiet.still h)
          (reserve_slot-Quiet self k (get k self.children.slots) h))
  ]
  step-Quiet (Event.finish k other (failed e)) self h =
      clear_launch_reservation-Quiet self k other h
  step-Quiet (Event.finish k other (done (LaunchOutcome.stdio metadata))) self h =
      clear_launch_reservation-Quiet self k other h
  step-Quiet (Event.finish k other (done (LaunchOutcome.running child metadata))) self h =
      subst (Quiet session_id self) (sym (finish_launch_state self k other child metadata))
        (store_launched_child-Quiet self k other child h)
  step-Quiet (Event.forget k) self h =
      either_branch (Quiet session_id self) self.lock_poisoned _ _ (Quiet.still h)
        (forget_slot-Quiet self k (get k self.children.slots) refl h)
  step-Quiet Event.panics self h = Quiet.still h

still_waiting :
    (self after : FsAgentRuntimeManager) (session_id : Text)
    → after.lock_poisoned ≡ false
    → after.notified ≡ self.notified
    → Quiet session_id self after
    → (reserve_launch after session_id).1 ≡ Reservation.waits
still_waiting self after session_id sane same (Quiet.still h) =
    is_reserved-waits after session_id sane h
still_waiting self after session_id sane same (Quiet.woken more) = absurd (omega arith)

-- A launch that waits still has to wait after any event that notifies nobody, unless the lock is
-- poisoned: whatever ends the wait for a session wakes the threads that wait.
pub step_woken :
    (e : Event) (self : FsAgentRuntimeManager) (session_id : Text)
    → (reserve_launch self session_id).1 ≡ Reservation.waits
    → (step e self).lock_poisoned ≡ false
    → (step e self).notified ≡ self.notified
    → (reserve_launch (step e self) session_id).1 ≡ Reservation.waits
step_woken e self session_id waiting sane same =
    still_waiting self (step e self) session_id sane same
      (step-Quiet session_id e self (waits-is_reserved self session_id waiting))
