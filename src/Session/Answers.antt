-- ===== src/Session/Answers.antt =====
-- Every permission request is answered, and answered once: the invariant between the pending
-- requests and their channels.
use mathlib.Core.Option.{some-injective}
use native.Mathlib.Decide.{ℕ_discrete}
use acp_orchestrator.Common.{
  ℕ, ◌≡◌, ◌≢◌, sym, ap, ◌∙◌, ◌⊎◌, inl, inr, Text, List, some, arith, get_elem?, set, text_eq,
  ==_iff, get_elem?-lt, get_elem?-set_ne, get_elem?-set_self, subst,
}
use acp_orchestrator.Common.Assoc.{Assoc, get, remove, get-remove}
use acp_orchestrator.Session.Types.{PendingPermission, Oneshot, waiting}

-- Each pending request holds the sender of a channel that waits; no two hold one channel; and each
-- channel that waits is held by a pending request.
pub record Wired (m : Assoc Text PendingPermission) (channels : List Oneshot) : Type 0 where
  pub held :
      (id : Text) (p : PendingPermission)
      → get id m ≡ some p
      → (i : ℕ) × (p.outcome_tx ≡ some i) × (get_elem? channels i ≡ some waiting)
  pub apart :
      (id j : Text) (p q : PendingPermission)
      → get id m ≡ some p
      → get j m ≡ some q
      → p.outcome_tx ≡ q.outcome_tx
      → id ≡ j
  pub accounted :
      (i : ℕ)
      → get_elem? channels i ≡ some waiting
      → (id : Text) × (p : PendingPermission) × (get id m ≡ some p) × (p.outcome_tx ≡ some i)

-- From one list of channels to another, some that waited got the answer `c`; the rest are as before.
abbrev pub Answered : Oneshot → List Oneshot → List Oneshot → Type 0
Answered c old new =
    (i : ℕ)
    → (get_elem? new i ≡ get_elem? old i)
      ⊎ ((get_elem? old i ≡ some waiting) × (get_elem? new i ≡ some c))

-- Taking a request out of the map and answering its channel.
module _ (id : Text) (c : Oneshot) (m : Assoc Text PendingPermission) (channels : List Oneshot)
    (p : PendingPermission) (tx : ℕ) (there : get id m ≡ some p) (holds : p.outcome_tx ≡ some tx)
    (final : c ≢ waiting) (w : Wired m channels) where
  -- What is still there was there before, under another id.
  left :
      (j : Text) (q : PendingPermission)
      → get j (remove id m) ≡ some q
      → (id ≢ j) × (get j m ≡ some q)
  left j q g = ground (arith, get-remove id j m, ==_iff id j)

  kept :
      (j : Text) (q : PendingPermission) → id ≢ j → get j m ≡ some q → get j (remove id m) ≡ some q
  kept j q n g = ground (arith, get-remove id j m, ==_iff id j)

  held_other :
      (j : Text) (q : PendingPermission) → get j (remove id m) ≡ some q → q.outcome_tx ≢ some tx
  held_other j q g e = (left j q g).0 (w.apart id j p q there (left j q g).1 (holds ∙ sym e))

  taken_waits : get_elem? channels tx ≡ some waiting
  taken_waits = ground (arith, w.held id p there)

  stored : (i : ℕ) → tx ≡ i → get_elem? (set channels tx c) i ≡ some c
  stored i same =
      subst (λ k. get_elem? (set channels tx c) k ≡ some c) same
        (get_elem?-set_self channels tx c (get_elem?-lt channels tx taken_waits))

  same_tx :
      (i : ℕ) (j : Text) (q : PendingPermission)
      → id ≡ j
      → get j m ≡ some q
      → q.outcome_tx ≡ some i
      → tx ≡ i
  same_tx i j q same g h = some-injective tx i (
      sym holds
      ∙ ap (λ (r : PendingPermission). r.outcome_tx)
          (some-injective p q (sym there ∙ ap (λ k. get k m) same ∙ g))
      ∙ h)

  pub answer-Wired : Wired (remove id m) (set channels tx c)
  answer-Wired = record {
    held = λ j q g.
        let (i, hi, wi) = w.held j q (left j q g).1 in
        (
          i,
          hi,
          get_elem?-set_ne channels tx i c (λ e. held_other j q g (hi ∙ ap some (sym e))) ∙ wi,
        );
    apart = λ j k q r g h e. w.apart j k q r (left j q g).1 (left k r h).1 e;
    accounted = λ i e. elim (ℕ_discrete tx i) [
      | yes same ↦ absurd (final (some-injective c waiting (sym (stored i same) ∙ e)))
      | no other ↦
          let (j, q, g, h) = w.accounted i (sym (get_elem?-set_ne channels tx i c other) ∙ e) in
          (j, q, kept j q (λ same. other (same_tx i j q same g h)) g, h)
    ];
  }

  pub answer-Answered : Answered c channels (set channels tx c)
  answer-Answered i = elim (ℕ_discrete tx i) [
    | yes same ↦
        inr (subst (λ k. get_elem? channels k ≡ some waiting) same taken_waits, stored i same)
    | no other ↦ inl (get_elem?-set_ne channels tx i c other)
  ]
