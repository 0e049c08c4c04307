-- ===== src/Session/Stable.antt =====
-- Over any history the pending requests and their channels stay wired, and an answer that a
-- receiver can see never changes.
use mathlib.Core.Path.{subst₂}
use mathlib.Core.Option.{some-injective}
use acp_orchestrator.Common.{
  ℕ, zero, suc, ◌≡◌, ◌≢◌, refl, sym, ap, ◌∙◌, ◌⊎◌, inl, inr, Text, List, [], ◌∷◌, ◌++◌, none, some,
  arith, length, get_elem?, Bool-cases, ◌==◌, nat_eq, text_eq, ==_iff, ==_refl,
  get_elem?-append_last, get_elem?-append_left, get_elem?-lt,
}
use acp_orchestrator.Common.Assoc.{Assoc, get}
use acp_orchestrator.Session.Types.{
  SessionData, PendingPermission, PermissionResolutionOutcome, waiting, sent, Oneshot,
}
use acp_orchestrator.Session.Answers.{Wired, Answered}
use acp_orchestrator.Session.Settles.{WiredData, Settles}

-- An answer that has been sent stays.
abbrev pub Stable : List Oneshot → List Oneshot → Type 0
Stable old new =
    (i : ℕ) (o : PermissionResolutionOutcome)
    → get_elem? old i ≡ some (sent o)
    → get_elem? new i ≡ some (sent o)

pub Answered-Stable : (c : Oneshot) (old new : List Oneshot) → Answered c old new → Stable old new
Answered-Stable c old new h i o e = ground (arith, h i)

-- A new channel at the end changes none that is there.
get_elem?-append_cases :
    (channels : List Oneshot) (c : Oneshot) (i : ℕ) {x : Oneshot}
    → get_elem? (channels ++ c ∷ []) i ≡ some x
    → (get_elem? channels i ≡ some x) ⊎ ((i ≡ length channels) × (c ≡ x))
get_elem?-append_cases [] c zero e = inr (refl, some-injective _ _ e)
get_elem?-append_cases [] c (suc i) e = cc
get_elem?-append_cases (y ∷ ys) c zero e = inl e
get_elem?-append_cases (y ∷ ys) c (suc i) e = elim (get_elem?-append_cases ys c i e) [
  | inl h ↦ inl h
  | inr (h, k) ↦ inr (ap suc h, k)
]

pub append-kept :
    (channels : List Oneshot) (c : Oneshot) (i : ℕ) {x : Oneshot}
    → get_elem? channels i ≡ some x
    → get_elem? (channels ++ c ∷ []) i ≡ some x
append-kept channels c i e =
    get_elem?-append_left channels (c ∷ []) i (get_elem?-lt channels i e) ∙ e

-- A channel that no request holds, with its answer in it.
pub answered_channel-Wired :
    (m : Assoc Text PendingPermission) (channels : List Oneshot) (o : PermissionResolutionOutcome)
    → Wired m channels
    → Wired m (channels ++ sent o ∷ [])
answered_channel-Wired m channels o w = record {
  held = λ id p g. let (i, h, e) = w.held id p g in (i, h, append-kept channels (sent o) i e);
  apart = w.apart;
  accounted = λ i e. elim (get_elem?-append_cases channels (sent o) i e) [
    | inl h ↦ w.accounted i h
    | inr (_, k) ↦ cc
  ];
}

-- A new request with a channel of its own.
module _ (m : Assoc Text PendingPermission) (channels : List Oneshot) (id : Text)
    (p : PendingPermission) (w : Wired m channels) (fresh : get id m ≡ none)
    (tx : p.outcome_tx ≡ some (length channels)) where
  found :
      (j : Text) (q : PendingPermission)
      → get j ((id, p) ∷ m) ≡ some q
      → ((id ≡ j) × (q.outcome_tx ≡ some (length channels))) ⊎ (get j m ≡ some q)
  unfolding get
  found j q g = elim (Bool-cases (id == j)) [
    | inl hit ↦ inl (
      (==_iff id j).0 hit,
      ap (λ (r : PendingPermission). r.outcome_tx) (sym (some-injective p q (rw hit at g))) ∙ tx,
    )
    | inr miss ↦ inr (rw miss at g)
  ]

  older :
      (j : Text) (q : PendingPermission) → get j m ≡ some q → q.outcome_tx ≢ some (length channels)
  older j q g e =
      let (i, h, waits) = w.held j q g in
      let same = some-injective i (length channels) (sym h ∙ e) in
      absurd (omega (arith, same, get_elem?-lt channels i waits))

  at_new : get id ((id, p) ∷ m) ≡ some p
  unfolding get
  at_new = rw (==_refl id) refl

  at_other : (j : Text) (q : PendingPermission) → get j m ≡ some q → get j ((id, p) ∷ m) ≡ some q
  unfolding get
  at_other j q g = elim (Bool-cases (id == j)) [
    | inl hit ↦ cc (ap (λ k. get k m) ((==_iff id j).0 hit))
    | inr miss ↦ rw miss g
  ]

  pub new_request-Wired : Wired ((id, p) ∷ m) (channels ++ waiting ∷ [])
  new_request-Wired = record {
    held = λ j q g. elim (found j q g) [
      | inl (_, h) ↦ (length channels, h, get_elem?-append_last channels waiting)
      | inr old ↦ let (i, h, e) = w.held j q old in (i, h, append-kept channels waiting i e)
    ];
    apart = λ j k q r g h e. elim (found j q g) [
      | inl (a, x) ↦ elim (found k r h) [
        | inl (b, _) ↦ sym a ∙ b
        | inr old ↦ absurd (older k r old (sym e ∙ x))
      ]
      | inr young ↦ elim (found k r h) [
        | inl (b, x) ↦ absurd (older j q young (e ∙ x))
        | inr old ↦ w.apart j k q r young old e
      ]
    ];
    accounted = λ i e. elim (get_elem?-append_cases channels waiting i e) [
      | inl h ↦ let (j, q, g, k) = w.accounted i h in (j, q, at_other j q g, k)
      | inr (h, _) ↦ (id, p, at_new, tx ∙ ap some (sym h))
    ];
  }

-- One call: still wired, and no answer changed.
pub record Kept (d d' : SessionData) : Type 0 where
  pub wired : WiredData d'
  pub stable : Stable d.outcomes d'.outcomes

pub Kept-refl : (d : SessionData) → WiredData d → Kept d d
Kept-refl d w = record { wired = w; stable = λ i o e. e }

pub Kept-trans : (d e f : SessionData) → Kept d e → Kept e f → Kept d f
Kept-trans d e f s t = record { wired = t.wired; stable = λ i o h. t.stable i o (s.stable i o h) }

-- A call that leaves requests and channels alone.
pub Kept-same :
    (d d' : SessionData)
    → WiredData d
    → d'.pending_permissions ≡ d.pending_permissions
    → d'.outcomes ≡ d.outcomes
    → Kept d d'
Kept-same d d' w p o = record {
  wired = subst₂ Wired (sym p) (sym o) w;
  stable = λ i a e. ap (λ channels. get_elem? channels i) o ∙ e;
}

pub Settles-Kept :
    (o : PermissionResolutionOutcome) (d d' : SessionData) → Settles (sent o) d d' → Kept d d'
Settles-Kept o d d' s = record {
  wired = s.wired;
  stable = Answered-Stable (sent o) d.outcomes d'.outcomes s.answered;
}
