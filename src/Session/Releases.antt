-- ===== src/Session/Releases.antt =====
-- What delivering completions shows, in crates/acp-web-backend/src/sessions/handle.rs: their events
-- one completion after the other, and each round of the loop of `drain_pending_completion_events`.
use mathlib.Core.Path.{ap₂, subst₂}
use acp_orchestrator.Common.{
  ℕ, zero, suc, ◌+◌, ◌<◌, ◌≡◌, refl, ap, ◌∙◌, inl, inr, Text, List, [], ◌∷◌, ◌++◌, Option, none,
  some, arith, length, Option-cases, nat_eq, ==_iff,
}
use acp_orchestrator.Common.Assoc.{Assoc, get, remove, get-remove}
use acp_orchestrator.Common.Word.{succ_u64, succ_u64-eq, u64_mod}
use acp_orchestrator.Contracts.Stream.{StreamEvent}
use acp_orchestrator.Session.Types.{SessionData, PromptCompletion, Stamp}
use acp_orchestrator.Session.Events.{complete_reply_events, modify_assistant, settle_text}
use acp_orchestrator.Session.Prompts.{
  completion_events, status_completion_events, drain, next_pending_completion,
}

-- Producing the events of a completion leaves the queue of completions alone.
queue-complete_reply :
    (stamp : Stamp) (d : SessionData) (text : Text) (id : Option Text)
    → ((complete_reply_events stamp d text id).0.pending_completions ≡ d.pending_completions)
      × ((complete_reply_events stamp d text id).0.next_completion_order ≡ d.next_completion_order)
unfolding complete_reply_events
queue-complete_reply stamp d text id = (ground arith, ground arith)

pub queue-completion :
    (stamp : Stamp) (d : SessionData) (c : PromptCompletion)
    → ((completion_events stamp d c).0.pending_completions ≡ d.pending_completions)
      × ((completion_events stamp d c).0.next_completion_order ≡ d.next_completion_order)
unfolding completion_events status_completion_events
queue-completion stamp d (PromptCompletion.reply text id) = queue-complete_reply stamp d text id
queue-completion stamp d (PromptCompletion.status message none) = (refl, refl)
queue-completion stamp d (PromptCompletion.status message (some id)) =
    queue-complete_reply stamp d [] (some id)
queue-completion stamp d PromptCompletion.none = (refl, refl)

-- One round takes the next completion out of the queue.
pub record Took (d : SessionData) (c : PromptCompletion) (d' : SessionData) : Type 0 where
  pub there : get d.next_completion_order d.pending_completions ≡ some c
  pub rest : d'.pending_completions ≡ remove d.next_completion_order d.pending_completions
  pub next : d'.next_completion_order ≡ succ_u64 d.next_completion_order
  pub messages : d'.messages ≡ d.messages
  pub latest_sequence : d'.latest_sequence ≡ d.latest_sequence

pub next_pending-Took :
    (d : SessionData) (c : PromptCompletion) (d' : SessionData)
    → next_pending_completion d ≡ some (c, d')
    → Took d c d'
unfolding next_pending_completion
next_pending-Took d c d' e = ground arith

-- The same conversation and the same last number: all that the events of a completion depend on.
pub record SameLog (d e : SessionData) : Type 0 where
  pub messages : d.messages ≡ e.messages
  pub latest_sequence : d.latest_sequence ≡ e.latest_sequence

-- The events of two sessions with the same conversation.
abbrev SameShown : SessionData × List StreamEvent → SessionData × List StreamEvent → Type 0
SameShown a b = SameLog a.0 b.0 × (a.1 ≡ b.1)

shown_reply :
    (stamp : Stamp) (d e : SessionData) (text : Text) (id : Option Text)
    → SameLog d e
    → SameShown (complete_reply_events stamp d text id) (complete_reply_events stamp e text id)
unfolding complete_reply_events
shown_reply stamp d e text none s = ground arith
shown_reply stamp d e text (some id) s =
    elim (Option-cases (modify_assistant id (settle_text text) e.messages)) [
      | inl n ↦ ground (arith, ap (modify_assistant id (settle_text text)) s.messages)
      | inr (r, n) ↦ ground (arith, ap (modify_assistant id (settle_text text)) s.messages)
    ]

shown_completion :
    (stamp : Stamp) (d e : SessionData) (c : PromptCompletion)
    → SameLog d e
    → SameShown (completion_events stamp d c) (completion_events stamp e c)
unfolding completion_events status_completion_events
shown_completion stamp d e (PromptCompletion.reply text id) s = shown_reply stamp d e text id s
shown_completion stamp d e (PromptCompletion.status message none) s = ground arith
shown_completion stamp d e (PromptCompletion.status message (some id)) s =
    ground (arith, shown_reply stamp d e [] (some id) s)
shown_completion stamp d e PromptCompletion.none s = (s, refl)

-- The completions one after the other, each on the session as the ones before it left it; number
-- `n` takes the stamp `stamps n`.
abbrev pub deliver :
    (ℕ → Stamp) → SessionData → List PromptCompletion → SessionData × List StreamEvent
deliver stamps d [] = (d, [])
deliver stamps d (c ∷ cs) =
    let (d', events) = completion_events (stamps 0) d c in
    let (last, rest) = deliver (λ n. stamps (suc n)) d' cs in (last, events ++ rest)

-- The completions that a queue holds for the orders `n`, `n + 1` and so on.
abbrev pub Run : ℕ → Assoc ℕ PromptCompletion → List PromptCompletion → Type 0
Run n queue [] = Unit
Run n queue (c ∷ cs) = (get n queue ≡ some c) × Run (n + 1) queue cs

Run-remove :
    (k n : ℕ) (queue : Assoc ℕ PromptCompletion) (cs : List PromptCompletion)
    → k < n
    → Run n (remove k queue) cs
    → Run n queue cs
Run-remove k n queue [] lt r = tt
Run-remove k n queue (c ∷ cs) lt r = (
  ground (arith, get-remove k n queue, ==_iff k n),
  Run-remove k (n + 1) queue cs (omega arith) r.1,
)

-- Delivering from a queue whose next order is `n`: the completions from `n` on are taken, in the
-- order of their prompts, and what is shown is what these show on `d`, one after the other.
pub record Released (stamps : ℕ → Stamp) (n : ℕ) (queue : Assoc ℕ PromptCompletion)
    (d : SessionData) (result : SessionData × List StreamEvent) : Type 0 where
  pub completions : List PromptCompletion
  pub in_order : Run n queue completions
  pub next : result.0.next_completion_order ≡ n + length completions
  pub events : result.1 ≡ (deliver stamps d completions).1
  pub log : SameLog result.0 (deliver stamps d completions).0

nothing-Released :
    (stamps : ℕ → Stamp) (d e : SessionData)
    → SameLog d e
    → Released stamps d.next_completion_order d.pending_completions e (d, [])
nothing-Released stamps d e s = record {
  completions = [];
  in_order = tt;
  next = omega arith;
  events = refl;
  log = s;
}

pub drain-Released :
    (fuel : ℕ) (stamps : ℕ → Stamp) (d e : SessionData)
    → SameLog d e
    → d.next_completion_order + fuel < u64_mod
    → Released stamps d.next_completion_order d.pending_completions e (drain fuel stamps d)
unfolding drain
drain-Released zero stamps d e s h = nothing-Released stamps d e s
drain-Released (suc fuel) stamps d e s h = elim (Option-cases (next_pending_completion d)) [
  | inl none_left ↦ rw (none_left, drain) (nothing-Released stamps d e s)
  | inr ((c, d'), found) ↦
      let t = next_pending-Took d c d' found in
      let q = queue-completion (stamps 0) d' c in
      let n = d.next_completion_order in
      let d'' = (completion_events (stamps 0) d' c).0 in
      let shown = shown_completion (stamps 0) d' e c (record {
        messages = t.messages ∙ s.messages;
        latest_sequence = t.latest_sequence ∙ s.latest_sequence;
      }) in
      let next : d''.next_completion_order ≡ n + 1 = q.1 ∙ t.next ∙ succ_u64-eq n (omega arith) in
      let later =
        drain-Released fuel (λ i. stamps (suc i)) d'' (completion_events (stamps 0) e c).0 shown.0
          (omega (arith, next)) in
      rw (found, drain)
        (record {
          completions = c ∷ later.completions;
          in_order = (
            t.there,
            Run-remove n (n + 1) d.pending_completions later.completions (omega arith)
                (subst₂ (λ i x. Run i x later.completions) next (q.0 ∙ t.rest) later.in_order),
          );
          next = omega (arith, later.next, next);
          events = ap₂ ◌++◌ shown.1 later.events;
          log = later.log;
        })
]
