-- ===== src/Session/Cancel.antt =====
-- Cancelling every turn: no request is left, and every receiver that waited is told.
use acp_orchestrator.Common.{
  ℕ, ◌≡◌, ◌≢◌, refl, sym, inl, inr, Text, List, [], ◌∷◌, Option, none, some, subst, Option-cases,
  nat_eq, text_eq, Listed,
}
use acp_orchestrator.Common.Assoc.{get, none_everywhere}
use acp_orchestrator.Session.Types.{
  SessionData, PendingPermission, ActiveTurn, PermissionResolutionOutcome, sent, cancelled,
}
use acp_orchestrator.Session.Channels.{
  requests_of, resolve_permissions_for_prompt_locked, cancel_each, prompt_orders,
}
use acp_orchestrator.Session.Turns.{cancel_all_turns_locked, flag_active_turn}
use acp_orchestrator.Session.Answers.{Answered}
use acp_orchestrator.Session.Settles.{
  WiredData, Settles, Settles-refl, Settles-trans, resolve_permissions-Settles,
  resolve_each-Settles, resolve_each-gone, get-requests_of, get-prompt_orders,
}

-- No request of the prompt is left.
resolve_permissions-gone :
    (outcome : PermissionResolutionOutcome) (d : SessionData) (prompt_order : ℕ)
    → WiredData d
    → (id : Text) (p : PendingPermission)
    → get id (resolve_permissions_for_prompt_locked d prompt_order outcome).pending_permissions
      ≡ some p
    → p.prompt_order ≢ prompt_order
unfolding resolve_permissions_for_prompt_locked
resolve_permissions-gone outcome d prompt_order w id p g same =
    cc (resolve_each-gone outcome ids d id w listed)
  where
    ids : List Text
    ids = requests_of prompt_order d.pending_permissions

    listed : Listed id ids
    listed =
        subst (λ o. Listed id (requests_of o d.pending_permissions)) same
          (get-requests_of d.pending_permissions id p
            ((resolve_each-Settles outcome ids d w).sub id p g))

cancel_each-Settles :
    (orders : List ℕ) (d : SessionData)
    → WiredData d
    → Settles (sent cancelled) d (cancel_each orders d)
unfolding cancel_each
cancel_each-Settles [] d w = Settles-refl (sent cancelled) d w
cancel_each-Settles (o ∷ orders) d w =
    let first = resolve_permissions-Settles cancelled d o w in
    Settles-trans (sent cancelled) d _ _ first (cancel_each-Settles orders _ first.wired)

cancel_each-gone :
    (orders : List ℕ) (d : SessionData)
    → WiredData d
    → (id : Text) (p : PendingPermission)
    → get id (cancel_each orders d).pending_permissions ≡ some p
    → ¬ Listed p.prompt_order orders
unfolding cancel_each
cancel_each-gone [] d w id p g l = l
cancel_each-gone (o ∷ orders) d w id p g (inl e) =
    let first = resolve_permissions-Settles cancelled d o w in
    resolve_permissions-gone cancelled d o w id p
      ((cancel_each-Settles orders _ first.wired).sub id p g) (sym e)
cancel_each-gone (o ∷ orders) d w id p g (inr l) =
    cancel_each-gone orders _ (resolve_permissions-Settles cancelled d o w).wired id p g l

-- `cancel_all_turns_locked` leaves no request.
cancel_each-nothing :
    (d : SessionData)
    → WiredData d
    → (cancel_each (prompt_orders d.pending_permissions) d).pending_permissions ≡ []
cancel_each-nothing d w = none_everywhere _ λ id.
    elim (Option-cases (get id last.pending_permissions)) [
      | inl e ↦ e
      | inr (p, e) ↦ absurd (
          cancel_each-gone orders d w id p e (
            get-prompt_orders d.pending_permissions id p
              ((cancel_each-Settles orders d w).sub id p e)))
    ]
  where
    orders : List ℕ
    orders = prompt_orders d.pending_permissions

    last : SessionData
    last = cancel_each orders d

module _ (d : SessionData) (w : WiredData d) where
  flagged-wired : (t : Option ActiveTurn) → WiredData (flag_active_turn d t)
  unfolding flag_active_turn
  flagged-wired none = w
  flagged-wired (some t) = w

  flagged-outcomes : (t : Option ActiveTurn) → (flag_active_turn d t).outcomes ≡ d.outcomes
  unfolding flag_active_turn
  flagged-outcomes none = refl
  flagged-outcomes (some t) = refl

  pub cancel_all-nothing : (cancel_all_turns_locked d).pending_permissions ≡ []
  unfolding cancel_all_turns_locked
  cancel_all-nothing =
      cancel_each-nothing (flag_active_turn d d.active_turn) (flagged-wired d.active_turn)

  pub cancel_all-Wired : WiredData (cancel_all_turns_locked d)
  unfolding cancel_all_turns_locked
  cancel_all-Wired =
      (cancel_each-Settles (prompt_orders (flag_active_turn d d.active_turn).pending_permissions)
        (flag_active_turn d d.active_turn) (flagged-wired d.active_turn)).wired

  pub cancel_all-Answered :
      Answered (sent cancelled) d.outcomes (cancel_all_turns_locked d).outcomes
  unfolding cancel_all_turns_locked
  cancel_all-Answered =
      subst
        (λ channels.
          Answered (sent cancelled) channels
            (cancel_each (prompt_orders (flag_active_turn d d.active_turn).pending_permissions)
              (flag_active_turn d d.active_turn)).outcomes)
        (flagged-outcomes d.active_turn)
        (cancel_each-Settles (prompt_orders (flag_active_turn d d.active_turn).pending_permissions)
          (flag_active_turn d d.active_turn) (flagged-wired d.active_turn)).answered
