-- ===== src/Agent/Cancelled.antt =====
-- A launch whose session is forgotten meanwhile: crates/acp-web-backend/src/agent_runtime.rs.
use acp_orchestrator.Common.{
  ℕ, ◌+◌, ◌<◌, ◌≤◌, ◌≡◌, refl, sym, ap, ◌∙◌, subst, inl, inr, Bool, true, false, Text, List, [],
  ◌∷◌, Option, none, some, length, either_branch, if_false, arith, if◌then◌else◌, ◌==◌, ==_iff,
  ==_refl, nat_eq, text_eq,
}
use acp_orchestrator.Common.Assoc.{Assoc, get, insert, remove, get-remove, get-insert}
use acp_orchestrator.Common.Attempt.{Attempt, done, failed}
use acp_orchestrator.Common.Word.{u64_mod, succ_u64-eq}
use acp_orchestrator.Agent.Registry.{
  AgentChild, AgentChildSlot, LaunchOutcome, AgentRuntimeError, FsAgentRuntimeManager, Reservation,
  with_slots, terminate_agent_child, reserve_slot, reserve_launch, is_launching,
  clear_launch_reservation, store_launched_child, forget_slot, forget_session, finish_launch,
}
use acp_orchestrator.Agent.Launches.{Event, step, run, begin_launch_state, finish_launch_state}

-- The launch is over: its number was given, and the session's slot is not its reservation.
record Over (session_id : Text) (launch_id : ℕ) (self : FsAgentRuntimeManager) : Type 0 where
  given : launch_id < self.children.next_launch_id
  gone : is_launching launch_id (get session_id self.children.slots) ≡ false

-- What one event does to it, where the numbers do not wrap.
record Stays (session_id : Text) (launch_id : ℕ) (self after : FsAgentRuntimeManager) : Type 0 where
  over : Over session_id launch_id after
  growth : after.children.next_launch_id ≤ self.children.next_launch_id + 1

module _ (session_id : Text) (launch_id : ℕ) where
  unchanged :
      (self : FsAgentRuntimeManager)
      → Over session_id launch_id self
      → Stays session_id launch_id self self
  unchanged self h = record { over = h; growth = omega arith }

  either_slot :
      (b : Bool) (x y : Option AgentChildSlot)
      → is_launching launch_id x ≡ false
      → is_launching launch_id y ≡ false
      → is_launching launch_id (if b then x else y) ≡ false
  either_slot true x y hx hy = hx
  either_slot false x y hx hy = hy

  gone-remove :
      (k : Text) (slots : Assoc Text AgentChildSlot)
      → is_launching launch_id (get session_id slots) ≡ false
      → is_launching launch_id (get session_id (remove k slots)) ≡ false
  gone-remove k slots h =
      ap (is_launching launch_id) (get-remove k session_id slots)
      ∙ either_slot (k == session_id) none (get session_id slots) refl h

  gone-insert :
      (k : Text) (v : AgentChildSlot) (slots : Assoc Text AgentChildSlot)
      → is_launching launch_id (some v) ≡ false
      → is_launching launch_id (get session_id slots) ≡ false
      → is_launching launch_id (get session_id (insert k v slots)) ≡ false
  gone-insert k v slots new h =
      ap (is_launching launch_id) (get-insert k session_id v slots)
      ∙ either_slot (k == session_id) (some v) (get session_id slots) new h

  reserve_slot-Stays :
      (self : FsAgentRuntimeManager) (k : Text) (o : Option AgentChildSlot)
      → self.children.next_launch_id + 1 < u64_mod
      → Over session_id launch_id self
      → Stays session_id launch_id self (reserve_slot self k o).0
  unfolding reserve_slot
  reserve_slot-Stays self k (some (AgentChildSlot.launching other)) small h = unchanged self h
  reserve_slot-Stays self k (some (AgentChildSlot.running child)) small h = unchanged self h
  reserve_slot-Stays self k none small h =
      let next = self.children.next_launch_id in
      let plus_one = succ_u64-eq next small in
      let before = h.given in
      let other : (next == launch_id) ≡ false = ground (arith, ==_iff next launch_id) in
      record {
        over = record {
          given = omega arith;
          gone = gone-insert k (AgentChildSlot.launching next) self.children.slots other h.gone;
        };
        growth = omega arith;
      }

  -- The slots change at most by the removal of a session.
  removed :
      (self : FsAgentRuntimeManager) (k : Text)
      → Over session_id launch_id self
      → Over session_id launch_id (with_slots (remove k self.children.slots) self)
  removed self k h = record { given = h.given; gone = gone-remove k self.children.slots h.gone }

  clear_launch_reservation-Stays :
      (self : FsAgentRuntimeManager) (k : Text) (other : ℕ)
      → Over session_id launch_id self
      → Stays session_id launch_id self (clear_launch_reservation self k other)
  unfolding clear_launch_reservation
  clear_launch_reservation-Stays self k other h =
      let after = removed self k h in
      either_branch (Stays session_id launch_id self) self.lock_poisoned _ _ (unchanged self h) (
        either_branch (Stays session_id launch_id self)
          (is_launching other (get k self.children.slots)) _ _
          (record {
            over = record { given = after.given; gone = after.gone };
            growth = omega arith;
          })
          (unchanged self h))

  store_launched_child-Stays :
      (self : FsAgentRuntimeManager) (k : Text) (other : ℕ) (child : AgentChild)
      → Over session_id launch_id self
      → Stays session_id launch_id self (store_launched_child self k other child).0
  unfolding store_launched_child
  store_launched_child-Stays self k other child h =
      let terminated : Stays session_id launch_id self (terminate_agent_child child self) = record {
        over = record { given = h.given; gone = h.gone };
        growth = omega arith;
      } in
      let P = λ (r : FsAgentRuntimeManager × Attempt AgentRuntimeError (Unit {0})).
        Stays session_id launch_id self r.0 in
      either_branch P self.lock_poisoned _ _ terminated (
        either_branch P (is_launching other (get k self.children.slots)) _ _
          (record {
            over = record {
              given = h.given;
              gone = gone-insert k (AgentChildSlot.running child) self.children.slots refl h.gone;
            };
            growth = omega arith;
          })
          terminated)

  forget_slot-Stays :
      (self : FsAgentRuntimeManager) (k : Text) (o : Option AgentChildSlot)
      → Over session_id launch_id self
      → Stays session_id launch_id self
          (forget_slot o (with_slots (remove k self.children.slots) self))
  forget_slot-Stays self k none h = record { over = removed self k h; growth = omega arith }
  forget_slot-Stays self k (some (AgentChildSlot.launching other)) h =
      let after = removed self k h in
      record { over = record { given = after.given; gone = after.gone }; growth = omega arith }
  forget_slot-Stays self k (some (AgentChildSlot.running child)) h =
      let after = removed self k h in
      record { over = record { given = after.given; gone = after.gone }; growth = omega arith }

  step-Stays :
      (e : Event) (self : FsAgentRuntimeManager)
      → self.children.next_launch_id + 1 < u64_mod
      → Over session_id launch_id self
      → Stays session_id launch_id self (step e self)
  unfolding step finish_launch reserve_launch forget_session
  step-Stays (Event.begin k given) self small h = elim (begin_launch_state self k given) [
    | inl same ↦ subst (Stays session_id launch_id self) (sym same) (unchanged self h)
    | inr looked ↦ subst (Stays session_id launch_id self) (sym looked) (
        either_branch
          (λ (r : FsAgentRuntimeManager × Reservation). Stays session_id launch_id self r.0)
          self.lock_poisoned _ _ (unchanged self h)
          (reserve_slot-Stays self k (get k self.children.slots) small h))
  ]
  step-Stays (Event.finish k other (failed e)) self small h =
      clear_launch_reservation-Stays self k other h
  step-Stays (Event.finish k other (done (LaunchOutcome.stdio metadata))) self small h =
      clear_launch_reservation-Stays self k other h
  step-Stays (Event.finish k other (done (LaunchOutcome.running child metadata))) self small h =
      subst (Stays session_id launch_id self)
        (sym (finish_launch_state self k other child metadata))
        (store_launched_child-Stays self k other child h)
  step-Stays (Event.forget k) self small h =
      either_branch (Stays session_id launch_id self) self.lock_poisoned _ _ (unchanged self h)
        (forget_slot-Stays self k (get k self.children.slots) h)
  step-Stays Event.panics self small h = record {
    over = record { given = h.given; gone = h.gone };
    growth = omega arith;
  }

  run-Over :
      (es : List Event) (self : FsAgentRuntimeManager)
      → self.children.next_launch_id + length es < u64_mod
      → Over session_id launch_id self
      → Over session_id launch_id (run es self)
  unfolding run
  run-Over [] self small h = h
  run-Over (e ∷ es) self small h =
      let one = step-Stays e self (omega arith) h in
      let grown = one.growth in run-Over es (step e self) (omega arith) one.over

forget_slot-children :
    (o : Option AgentChildSlot) (self : FsAgentRuntimeManager)
    → (forget_slot o self).children ≡ self.children
forget_slot-children none self = refl
forget_slot-children (some (AgentChildSlot.launching launch_id)) self = refl
forget_slot-children (some (AgentChildSlot.running child)) self = refl

forget_session-children :
    (session_id : Text) (self : FsAgentRuntimeManager)
    → self.lock_poisoned ≡ false
    → (forget_session self session_id).children
      ≡ (with_slots (remove session_id self.children.slots) self).children
unfolding forget_session
forget_session-children session_id self sane =
    ap (λ (m : FsAgentRuntimeManager). m.children) (if_false self.lock_poisoned self _ sane)
    ∙ forget_slot-children (get session_id self.children.slots)
        (with_slots (remove session_id self.children.slots) self)

removed_slot :
    (session_id : Text) (launch_id : ℕ) (slots : Assoc Text AgentChildSlot)
    → is_launching launch_id (get session_id (remove session_id slots)) ≡ false
removed_slot session_id launch_id slots =
    let nothing : get session_id (remove session_id slots) ≡ none =
      ground (arith, get-remove session_id session_id slots, ==_refl session_id) in
    ap (is_launching launch_id) nothing

forget_session-Over :
    (session_id : Text) (launch_id : ℕ) (self : FsAgentRuntimeManager)
    → self.lock_poisoned ≡ false
    → launch_id < self.children.next_launch_id
    → Over session_id launch_id (forget_session self session_id)
forget_session-Over session_id launch_id self sane given =
    let same = forget_session-children session_id self sane in
    record {
      given = subst (λ c. launch_id < c.next_launch_id) (sym same) given;
      gone =
          subst (λ c. is_launching launch_id (get session_id c.slots) ≡ false) (sym same)
            (removed_slot session_id launch_id self.children.slots);
    }

stale_store :
    (self : FsAgentRuntimeManager) (session_id : Text) (launch_id : ℕ) (child : AgentChild)
    → is_launching launch_id (get session_id self.children.slots) ≡ false
    → (store_launched_child self session_id launch_id child).0 ≡ terminate_agent_child child self
unfolding store_launched_child
stale_store self session_id launch_id child stale = rw stale (
    either_branch
      (λ (r : FsAgentRuntimeManager × Attempt AgentRuntimeError (Unit {0})).
        r.0 ≡ terminate_agent_child child self)
      self.lock_poisoned _ _ refl refl)

-- A launch whose session is forgotten before its process is stored cannot take the session's slot,
-- whatever other threads do in between: its process is terminated and nothing else of the manager
-- changes. The condition is that the lock was sound, the launch had been given its number, and the
-- numbers do not wrap.
pub store_launched_child_forgotten :
    (self : FsAgentRuntimeManager) (session_id : Text) (launch_id : ℕ) (es : List Event)
    (child : AgentChild)
    → self.lock_poisoned ≡ false
    → launch_id < self.children.next_launch_id
    → self.children.next_launch_id + length es < u64_mod
    → (store_launched_child (run es (forget_session self session_id)) session_id launch_id child).0
      ≡ terminate_agent_child child (run es (forget_session self session_id))
store_launched_child_forgotten self session_id launch_id es child sane given small =
    let same = ap (λ c. c.next_launch_id) (forget_session-children session_id self sane) in
    let over =
      run-Over session_id launch_id es (forget_session self session_id) (omega arith)
        (forget_session-Over session_id launch_id self sane given) in
    stale_store (run es (forget_session self session_id)) session_id launch_id child over.gone
