-- ===== src/Session/Delivery.antt =====
-- The loop of `drain_pending_completion_events` in crates/acp-web-backend/src/sessions/handle.rs.
use mathlib.Core.Path.{subst₂}
use native.Mathlib.Decide.{ℕ_discrete}
use acp_orchestrator.Common.{
  ℕ, zero, suc, ◌+◌, ◌≤◌, ◌<◌, ◌≡◌, refl, ap, ◌∙◌, ◌⊎◌, inl, inr, true, none, some, arith, length,
  is_some, Option-cases, nat_eq, ==_iff,
}
use acp_orchestrator.Common.Assoc.{Assoc, get, remove, get-remove, length-remove-lt}
use acp_orchestrator.Common.Word.{succ_u64-eq, u64_mod}
use acp_orchestrator.Session.Types.{SessionData, PromptCompletion, Stamp}
use acp_orchestrator.Session.Releases.{
  next_pending-Took, queue-completion, Released, drain-Released,
}
use acp_orchestrator.Session.Prompts.{
  completion_events, drain, drain_pending_completion_events, next_pending_completion,
}

next_pending-none :
    (d : SessionData)
    → next_pending_completion d ≡ none
    → get d.next_completion_order d.pending_completions ≡ none
unfolding next_pending_completion
next_pending-none d e = ground arith

-- With a round for each entry and one more, the loop ends because the next completion is missing.
pub drain-ends :
    (fuel : ℕ) (stamps : ℕ → Stamp) (d : SessionData)
    → length d.pending_completions < fuel
    → get (drain fuel stamps d).0.next_completion_order (drain fuel stamps d).0.pending_completions
      ≡ none
unfolding drain
drain-ends zero stamps d h = elim h [ ]
drain-ends (suc fuel) stamps d h = elim (Option-cases (next_pending_completion d)) [
  | inl e ↦ rw (e, drain) (next_pending-none d e)
  | inr ((c, d'), e) ↦
      rw (e, drain)
        (drain-ends fuel (λ n. stamps (suc n)) (completion_events (stamps 0) d' c).0
          (shorter c d' e))
]
  where
    shorter :
        (c : PromptCompletion) (d' : SessionData)
        → next_pending_completion d ≡ some (c, d')
        → length (completion_events (stamps 0) d' c).0.pending_completions < fuel
    shorter c d' e =
        let t = next_pending-Took d c d' e in
        omega (
          arith,
          ap length ((queue-completion (stamps 0) d' c).0 ∙ t.rest),
          length-remove-lt d.next_completion_order d.pending_completions t.there,
        )

-- The `k` completions from order `n` on are there, and have been taken out.
pub record Delivered (k n : ℕ) (old new : Assoc ℕ PromptCompletion) : Type 0 where
  pub there : (j : ℕ) → n ≤ j → j < n + k → is_some (get j old) ≡ true
  pub gone : (j : ℕ) → n ≤ j → j < n + k → get j new ≡ none
  pub others : (j : ℕ) → (j < n) ⊎ (n + k ≤ j) → get j new ≡ get j old

-- What a drained queue is: the longest run of completions from the next order on is delivered.
pub record Drained (d d' : SessionData) : Type 0 where
  pub count : ℕ
  pub delivered :
      Delivered count d.next_completion_order d.pending_completions d'.pending_completions
  pub next : d'.next_completion_order ≡ d.next_completion_order + count

none-Drained : (d : SessionData) → Drained d d
none-Drained d = record {
  count = 0;
  delivered = record {
    there = λ j a b. absurd (omega arith);
    gone = λ j a b. absurd (omega arith);
    others = λ j s. refl;
  };
  next = omega arith;
}

-- One more completion in front.
module _ (k n : ℕ) (old new : Assoc ℕ PromptCompletion) (c : PromptCompletion)
    (here : get n old ≡ some c) (del : Delivered k (n + 1) (remove n old) new) where
  Delivered-suc : Delivered (suc k) n old new
  Delivered-suc = record {
    there = λ j a b. elim (ℕ_discrete n j) [
      | yes e ↦ ground (arith, ap (λ i. get i old) e)
      | no e ↦
          ground (arith, get-remove n j old, ==_iff n j, del.there j (omega arith) (omega arith))
    ];
    gone = λ j a b. elim (ℕ_discrete n j) [
      | yes e ↦ ground (arith, get-remove n j old, ==_iff n j, del.others j (inl (omega arith)))
      | no e ↦ del.gone j (omega arith) (omega arith)
    ];
    others = λ j s. elim s [
      | inl lt ↦ ground (arith, get-remove n j old, ==_iff n j, del.others j (inl (omega arith)))
      | inr ge ↦ ground (arith, get-remove n j old, ==_iff n j, del.others j (inr (omega arith)))
    ];
  }

pub drain-Drained :
    (fuel : ℕ) (stamps : ℕ → Stamp) (d : SessionData)
    → d.next_completion_order + fuel < u64_mod
    → Drained d (drain fuel stamps d).0
unfolding drain
drain-Drained zero stamps d h = none-Drained d
drain-Drained (suc fuel) stamps d h = elim (Option-cases (next_pending_completion d)) [
  | inl e ↦ rw (e, drain) (none-Drained d)
  | inr ((c, d'), e) ↦
      let t = next_pending-Took d c d' e in
      let q = queue-completion (stamps 0) d' c in
      let n = d.next_completion_order in
      let m = d.pending_completions in
      let d'' = (completion_events (stamps 0) d' c).0 in
      let next : d''.next_completion_order ≡ n + 1 = q.1 ∙ t.next ∙ succ_u64-eq n (omega arith) in
      let later = drain-Drained fuel (λ i. stamps (suc i)) d'' (omega (arith, next)) in
      let last = (drain fuel (λ i. stamps (suc i)) d'').0.pending_completions in
      rw (e, drain)
        (record {
          count = suc later.count;
          delivered =
              Delivered-suc later.count n m last c t.there (
                subst₂ (λ i x. Delivered later.count i x last) next (q.0 ∙ t.rest) later.delivered);
          next = omega (arith, later.next, next);
        })
]

-- Draining the queue of completions, where orders do not wrap, ends with the next completion
-- missing. The completions of the run of orders from next_completion_order up to there, and no
-- others, are gone from the queue, and next_completion_order grew by their number. The events are
-- those of these completions in the order of their prompts, each completion's on the conversation
-- as the ones before it left it, and so are the conversation and the latest_sequence in the end.
pub drain_pending-Drained :
    (stamps : ℕ → Stamp) (d : SessionData)
    → d.next_completion_order + length d.pending_completions + 1 < u64_mod
    → let result = drain_pending_completion_events stamps d in
      Drained d result.0
      × (get result.0.next_completion_order result.0.pending_completions ≡ none)
      × Released stamps d.next_completion_order d.pending_completions d result
unfolding drain_pending_completion_events
drain_pending-Drained stamps d h = (
  drain-Drained (suc (length d.pending_completions)) stamps d (omega arith),
  drain-ends (suc (length d.pending_completions)) stamps d (omega arith),
  drain-Released (suc (length d.pending_completions)) stamps d d
      (record { messages = refl; latest_sequence = refl }) (omega arith),
)
