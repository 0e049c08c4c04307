-- ===== src/Session/InOrder.antt =====
-- The order in which completions leave the queue, over a history of the calls of
-- crates/acp-web-backend/src/sessions/handle.rs.
use native.Mathlib.Decide.{dec_lt}
use acp_orchestrator.Common.{
  ℕ, suc, ◌+◌, ◌≤◌, ◌<◌, ◌≡◌, refl, ap, ◌∙◌, inl, inr, ◌↔◌, true, List, [], ◌∷◌, none, some, arith,
  length, is_some, Bool-cases, if◌then◌else◌, nat_eq, ◌==◌, ==_iff, Listed, All,
}
use acp_orchestrator.Common.Assoc.{get, insert, get-insert, length-insert-le}
use acp_orchestrator.Common.Word.{u64_mod}
use acp_orchestrator.Contracts.Sessions.{active, is_closed}
use acp_orchestrator.Session.Types.{SessionData, PromptCompletion, Stamp}
use acp_orchestrator.Session.Prompts.{
  drain, drain_pending_completion_events, file_completion, complete_prompt,
}
use acp_orchestrator.Session.Calls.{Call, completes, closes, deletes, step, run}
use acp_orchestrator.Session.Delivery.{Drained, drain-Drained, drain-ends}
use acp_orchestrator.Session.Releases.{Released}
use acp_orchestrator.Session.Queue.{
  settled, filed-next, filed-queue, filed_room, drain-size, complete-Released, same_queue,
}
use acp_orchestrator.Session.Closed.{Ends, open_step-active}

-- With the prompts of `done` completed, starting from prompt `first`.
pub record InOrder (first : ℕ) (done : List ℕ) (d : SessionData) : Type 0 where
  pub start : first ≤ d.next_completion_order
  pub passed : (j : ℕ) → first ≤ j → j < d.next_completion_order → Listed j done
  pub queued :
      (j : ℕ)
      → d.next_completion_order ≤ j
      → (is_some (get j d.pending_completions) ≡ true) ↔ Listed j done
  pub stopped : get d.next_completion_order d.pending_completions ≡ none
  pub size : d.next_completion_order + length d.pending_completions ≤ first + length done

-- Filing one more completion, and draining.
module _ (first : ℕ) (done : List ℕ) (d filed last : SessionData) (order : ℕ) (c : PromptCompletion)
    (inv : InOrder first done d) (next : filed.next_completion_order ≡ d.next_completion_order)
    (queue : filed.pending_completions ≡ insert order c d.pending_completions)
    (dr : Drained filed last)
    (stops : get last.next_completion_order last.pending_completions ≡ none)
    (small : last.next_completion_order + length last.pending_completions
      ≤ filed.next_completion_order + length filed.pending_completions) where
  filed_at :
      (j : ℕ)
      → get j filed.pending_completions
        ≡ (if order == j then some c else get j d.pending_completions)
  filed_at j = ap (get j) queue ∙ get-insert order j c d.pending_completions

  filed_iff :
      (j : ℕ)
      → d.next_completion_order ≤ j
      → (is_some (get j filed.pending_completions) ≡ true) ↔ Listed j (order ∷ done)
  filed_iff j h = elim (Bool-cases (order == j)) [
    | inl e ↦ rw (filed_at j, e) (λ _. inl ((==_iff order j).0 e), λ _. refl)
    | inr e ↦
        rw (filed_at j, e)
          (
            λ s. inr ((inv.queued j h).0 s),
            λ l. elim l [
              | inl same ↦ cc ((==_iff order j).1 same)
              | inr old ↦ (inv.queued j h).1 old
            ],
          )
  ]

  filed-InOrder : InOrder first (order ∷ done) last
  filed-InOrder = record {
    start = omega (arith, inv.start, next, dr.next);
    passed = λ j a b. elim (dec_lt j d.next_completion_order) [
      | yes h ↦ inr (inv.passed j a h)
      | no h ↦
          (filed_iff j (omega arith)).0
            (dr.delivered.there j (omega (arith, next)) (omega (arith, next, dr.next)))
    ];
    queued = λ j a.
        rw (dr.delivered.others j (inr (omega (arith, dr.next))))
          (filed_iff j (omega (arith, next, dr.next)));
    stopped = stops;
    size = omega (
      arith,
      inv.size,
      next,
      small,
      ap length queue,
      length-insert-le order c d.pending_completions,
    );
  }

-- The prompts that a history completes, with those completed before it.
abbrev pub completed : List ℕ → List Call → List ℕ
completed done [] = done
completed done (completes _ order _ ∷ cs) = completed (order ∷ done) cs
completed done (_ ∷ cs) = completed done cs

complete-InOrder :
    (first : ℕ) (done : List ℕ) (d : SessionData) (stamps : ℕ → Stamp) (order : ℕ)
    (c : PromptCompletion)
    → d.status ≡ active
    → InOrder first done d
    → first + length done + 2 < u64_mod
    → InOrder first (order ∷ done) (step d (completes stamps order c)).0
unfolding step complete_prompt drain_pending_completion_events
complete-InOrder first done d stamps order c is_open inv bound = rw (ap is_closed is_open) (
    filed-InOrder first done d filed (drain fuel stamps filed).0 order (settled d order c) inv
      (filed-next d order c) (filed-queue d order c) (drain-Drained fuel stamps filed room)
      (drain-ends fuel stamps filed (omega arith)) (drain-size fuel stamps filed room))
  where
    filed : SessionData
    filed = file_completion d order c

    fuel : ℕ
    fuel = suc (length filed.pending_completions)

    room : filed.next_completion_order + fuel < u64_mod
    room = filed_room d order c (omega (arith, inv.size))

other-InOrder :
    (first : ℕ) (done : List ℕ) (d d' : SessionData)
    → InOrder first done d
    → d'.pending_completions ≡ d.pending_completions
    → d'.next_completion_order ≡ d.next_completion_order
    → InOrder first done d'
other-InOrder first done d d' inv queue next = record {
  start = rw next inv.start;
  passed = rw next inv.passed;
  queued = rw (next, queue) inv.queued;
  stopped = rw (next, queue) inv.stopped;
  size = rw (next, queue) inv.size;
}

completed-grows : (done : List ℕ) (cs : List Call) → length done ≤ length (completed done cs)
completed-grows done [] = omega arith
completed-grows done (completes _ order _ ∷ cs) = omega (arith, completed-grows (order ∷ done) cs)
completed-grows done (_ ∷ cs) = completed-grows done cs

run-InOrder :
    (first : ℕ) (done : List ℕ) (d : SessionData) (cs : List Call)
    → d.status ≡ active
    → InOrder first done d
    → All (λ c. ¬ Ends c) cs
    → first + length (completed done cs) + 2 < u64_mod
    → InOrder first (completed done cs) (run d cs).0
unfolding run
run-InOrder first done d [] is_open inv h b = inv
run-InOrder first done d (completes stamps order c ∷ cs) is_open inv h b =
    run-InOrder first (order ∷ done) _ cs
      (open_step-active d (completes stamps order c) is_open h.0)
      (complete-InOrder first done d stamps order c is_open inv
        (omega (arith, completed-grows (order ∷ done) cs)))
      h.1 b
run-InOrder first done d (closes _ _ ∷ cs) is_open inv h b = absurd (h.0 tt)
run-InOrder first done d (deletes _ ∷ cs) is_open inv h b = absurd (h.0 tt)
run-InOrder first done d (c ∷ cs) is_open inv h b =
    let same = same_queue d c tt in
    run-InOrder first done _ cs (open_step-active d c is_open h.0)
      (other-InOrder first done d _ inv same.0 same.1) h.1 b

-- What a history does to the queue, call by call. A completion is filed under its prompt's order,
-- and the run of completions from next_completion_order on is released; no other call of an open
-- session touches the queue.
abbrev pub InPromptOrder : SessionData → List Call → Type 0
InPromptOrder d [] = Unit
InPromptOrder d (completes stamps order c ∷ cs) =
    let result = step d (completes stamps order c) in
    let queue = insert order (settled d order c) d.pending_completions in
    Released stamps d.next_completion_order queue d result
    × Drained (record d { pending_completions = queue }) result.0
    × InPromptOrder result.0 cs
InPromptOrder d (c ∷ cs) =
    ((step d c).0.pending_completions ≡ d.pending_completions)
    × ((step d c).0.next_completion_order ≡ d.next_completion_order)
    × InPromptOrder (step d c).0 cs

run-InPromptOrder :
    (first : ℕ) (done : List ℕ) (d : SessionData) (cs : List Call)
    → d.status ≡ active
    → InOrder first done d
    → All (λ c. ¬ Ends c) cs
    → first + length (completed done cs) + 2 < u64_mod
    → InPromptOrder d cs
run-InPromptOrder first done d [] is_open inv h b = tt
run-InPromptOrder first done d (completes stamps order c ∷ cs) is_open inv h b =
    let grows = completed-grows (order ∷ done) cs in
    let (released, drained) =
      complete-Released d stamps order c is_open (omega (arith, grows, inv.size)) in
    (
      released,
      drained,
      run-InPromptOrder first (order ∷ done) _ cs
          (open_step-active d (completes stamps order c) is_open h.0)
          (complete-InOrder first done d stamps order c is_open inv (omega (arith, grows))) h.1 b,
    )
run-InPromptOrder first done d (closes _ _ ∷ cs) is_open inv h b = absurd (h.0 tt)
run-InPromptOrder first done d (deletes _ ∷ cs) is_open inv h b = absurd (h.0 tt)
run-InPromptOrder first done d (c ∷ cs) is_open inv h b =
    let same = same_queue d c tt in
    (
      same.0,
      same.1,
      run-InPromptOrder first done _ cs (open_step-active d c is_open h.0)
          (other-InOrder first done d _ inv same.0 same.1) h.1 b,
    )

-- From an open session with an empty queue, over any history that does not end it, if the prompt
-- orders do not wrap: next_completion_order never falls, ends at the first prompt order from where
-- it stood that no complete_prompt of the history named, and all prompt orders before it were
-- completed. Each complete_prompt of the history files its completion, with the streamed message
-- if there is one, under its prompt's order, takes from the queue the completions of the run of
-- orders from next_completion_order on, no others, and broadcasts just their events in prompt
-- order, each completion's on the conversation as the ones before it left it; no other call
-- changes the queue or next_completion_order.
pub next_is_first_missing :
    (d : SessionData) (cs : List Call)
    → d.status ≡ active
    → d.pending_completions ≡ []
    → All (λ c. ¬ Ends c) cs
    → d.next_completion_order + length (completed [] cs) + 2 < u64_mod
    → let n = (run d cs).0.next_completion_order in
      (d.next_completion_order ≤ n)
      × ((j : ℕ) → d.next_completion_order ≤ j → j < n → Listed j (completed [] cs))
      × (¬ Listed n (completed [] cs))
      × InPromptOrder d cs
next_is_first_missing d cs is_open empty h b = (
  last.start,
  last.passed,
  λ l. cc (rw last.stopped at ((last.queued n (omega arith)).1 l)),
  run-InPromptOrder d.next_completion_order [] d cs is_open begin h b,
)
  where
    n : ℕ
    n = (run d cs).0.next_completion_order

    begin : InOrder d.next_completion_order [] d
    begin = record {
      start = omega arith;
      passed = λ j x y. omega arith;
      queued = λ j x. rw empty (unfold get in (λ e. cc, λ l. absurd l));
      stopped = rw empty (unfold get in refl);
      size = rw empty (omega arith);
    }

    last : InOrder d.next_completion_order (completed [] cs) (run d cs).0
    last = run-InOrder d.next_completion_order [] d cs is_open begin h b
