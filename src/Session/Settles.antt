-- ===== src/Session/Settles.antt =====
-- Answering the pending requests of one prompt: what is left in the map, and what the waiting
-- receivers get.
use mathlib.Core.Option.{some-injective}
use acp_orchestrator.Common.{
  ℕ, ◌≡◌, ◌≢◌, refl, sym, ap, inl, inr, Text, List, [], ◌∷◌, Option, none, some, arith, set, subst,
  ==_refl, Bool-cases, Option-cases, ◌==◌, nat_eq, text_eq, ==_iff, Listed,
}
use acp_orchestrator.Common.Assoc.{Assoc, get, remove, get-remove}
use acp_orchestrator.Session.Types.{
  SessionData, PendingPermission, PermissionResolutionOutcome, waiting, sent, Oneshot,
}
use acp_orchestrator.Session.Channels.{
  resolve, resolve_one, resolve_each, requests_of, resolve_permissions_for_prompt_locked,
  prompt_orders,
}
use acp_orchestrator.Session.Answers.{Wired, Answered, answer-Wired, answer-Answered}

abbrev pub WiredData : SessionData → Type 0
WiredData d = Wired d.pending_permissions d.outcomes

-- `d'` comes from `d` by answering some requests with `c` and taking them out of the map.
pub record Settles (c : Oneshot) (d d' : SessionData) : Type 0 where
  pub wired : WiredData d'
  pub answered : Answered c d.outcomes d'.outcomes
  pub sub :
      (id : Text) (p : PendingPermission)
      → get id d'.pending_permissions ≡ some p
      → get id d.pending_permissions ≡ some p

pub Settles-refl : (c : Oneshot) (d : SessionData) → WiredData d → Settles c d d
Settles-refl c d w = record { wired = w; answered = λ i. inl refl; sub = λ id p g. g }

pub Settles-trans :
    (c : Oneshot) (d e f : SessionData) → Settles c d e → Settles c e f → Settles c d f
Settles-trans c d e f s t = record {
  wired = t.wired;
  answered = λ i. ground (arith, s.answered i, t.answered i);
  sub = λ id p g. s.sub id p (t.sub id p g);
}

-- An id that is gone stays gone.
pub stays_gone :
    (c : Oneshot) (d d' : SessionData)
    → Settles c d d'
    → (id : Text) → get id d.pending_permissions ≡ none
    → get id d'.pending_permissions ≡ none
stays_gone c d d' s id g = elim (Option-cases (get id d'.pending_permissions)) [
  | inl e ↦ e
  | inr (p, e) ↦ cc (s.sub id p e)
]

resolve-set :
    (p : PendingPermission) (outcome : PermissionResolutionOutcome) (channels : List Oneshot)
    (tx : ℕ)
    → p.outcome_tx ≡ some tx
    → resolve p outcome channels ≡ set channels tx (sent outcome)
unfolding resolve
resolve-set p outcome channels tx holds = ground arith

module _ (outcome : PermissionResolutionOutcome) where
  pub resolve_one-Settles :
      (id : Text) (d : SessionData) (o : Option PendingPermission)
      → get id d.pending_permissions ≡ o
      → WiredData d
      → Settles (sent outcome) d (resolve_one id outcome d o)
  unfolding resolve_one
  resolve_one-Settles id d none e w = Settles-refl (sent outcome) d w
  resolve_one-Settles id d (some p) e w =
      let (tx, holds, _) = w.held id p e in
      let eq = sym (resolve-set p outcome d.outcomes tx holds) in
      let m = d.pending_permissions in
      let final : sent outcome ≢ waiting = λ x. cc in
      record {
        wired =
            subst (λ channels. Wired (remove id m) channels) eq
              (answer-Wired id (sent outcome) m d.outcomes p tx e holds final w);
        answered =
            subst (λ channels. Answered (sent outcome) d.outcomes channels) eq
              (answer-Answered id (sent outcome) m d.outcomes p tx e holds final w);
        sub = λ j q g. ground (arith, get-remove id j m);
      }

  pub resolve_each-Settles :
      (ids : List Text) (d : SessionData)
      → WiredData d
      → Settles (sent outcome) d (resolve_each ids outcome d)
  unfolding resolve_each
  resolve_each-Settles [] d w = Settles-refl (sent outcome) d w
  resolve_each-Settles (id ∷ ids) d w =
      let first = resolve_one-Settles id d (get id d.pending_permissions) refl w in
      Settles-trans (sent outcome) d _ _ first (resolve_each-Settles ids _ first.wired)

  pub resolve_permissions-Settles :
      (d : SessionData) (prompt_order : ℕ)
      → WiredData d
      → Settles (sent outcome) d (resolve_permissions_for_prompt_locked d prompt_order outcome)
  unfolding resolve_permissions_for_prompt_locked
  resolve_permissions-Settles d prompt_order w =
      resolve_each-Settles (requests_of prompt_order d.pending_permissions) d w

  -- What the loop has gone over is gone from the map.
  resolve_one-gone :
      (id : Text) (d : SessionData) (o : Option PendingPermission)
      → get id d.pending_permissions ≡ o
      → get id (resolve_one id outcome d o).pending_permissions ≡ none
  unfolding resolve_one
  resolve_one-gone id d none e = e
  resolve_one-gone id d (some p) e =
      ground (arith, get-remove id id d.pending_permissions, ==_refl id)

  pub resolve_each-gone :
      (ids : List Text) (d : SessionData) (id : Text)
      → WiredData d
      → Listed id ids
      → get id (resolve_each ids outcome d).pending_permissions ≡ none
  unfolding resolve_each
  resolve_each-gone [] d id w l = elim l [ ]
  resolve_each-gone (j ∷ ids) d id w (inl e) =
      let first = resolve_one-Settles j d (get j d.pending_permissions) refl w in
      let gone = resolve_one-gone j d (get j d.pending_permissions) refl in
      stays_gone _ _ _ (resolve_each-Settles ids _ first.wired) id (
        subst
          (λ k.
            get k (resolve_one j outcome d (get j d.pending_permissions)).pending_permissions
            ≡ none)
          e gone)
  resolve_each-gone (j ∷ ids) d id w (inr l) =
      resolve_each-gone ids _ id
        (resolve_one-Settles j d (get j d.pending_permissions) refl w).wired l

pub get-requests_of :
    (m : Assoc Text PendingPermission) (id : Text) (p : PendingPermission)
    → get id m ≡ some p
    → Listed id (requests_of p.prompt_order m)
unfolding requests_of get
get-requests_of [] id p g = cc
get-requests_of ((j, q) ∷ m) id p g = elim (Bool-cases (j == id)) [
  | inl hit ↦
      let same = some-injective q p (rw hit at g) in
      rw
        ((==_iff q.prompt_order p.prompt_order).1
          (ap (λ (r : PendingPermission). r.prompt_order) same))
        (inl ((==_iff j id).0 hit))
  | inr miss ↦
      let later = get-requests_of m id p (rw miss at g) in
      elim (Bool-cases (q.prompt_order == p.prompt_order)) [
        | inl e ↦ rw e (inr later)
        | inr e ↦ rw e later
      ]
]

pub get-prompt_orders :
    (m : Assoc Text PendingPermission) (id : Text) (p : PendingPermission)
    → get id m ≡ some p
    → Listed p.prompt_order (prompt_orders m)
unfolding prompt_orders get
get-prompt_orders [] id p g = cc
get-prompt_orders ((j, q) ∷ m) id p g = elim (Bool-cases (j == id)) [
  | inl hit ↦
      inl (ap (λ (r : PendingPermission). r.prompt_order) (some-injective q p (rw hit at g)))
  | inr miss ↦ inr (get-prompt_orders m id p (rw miss at g))
]
