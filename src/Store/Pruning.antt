-- ===== src/Store/Pruning.antt =====
-- What `prune_closed_sessions` of crates/acp-web-backend/src/sessions.rs leaves alone.
use mathlib.Core.Option.{some-injective}
use acp_orchestrator.Common.{
  ℕ, zero, suc, ◌≡◌, ◌≢◌, refl, sym, ap, ◌∙◌, subst, Text, List, [], ◌∷◌, map, drop, length, Option,
  none, some, arith, inl, inr, All, get_elem?, leb, Bool-cases, ◌==◌, ==_iff, ==_ne, text_eq,
}
use acp_orchestrator.Common.Assoc.{Assoc, get, remove, get-remove}
use acp_orchestrator.Session.Types.{SessionHandle}
use acp_orchestrator.Store.Types.{SessionStore}
use acp_orchestrator.Store.Access.{find_handle, session_handles, with_entry}
use acp_orchestrator.Store.Local.{find_handle-stored}
use acp_orchestrator.Store.Retention.{
  closed_sessions, with_closing, insert_closed, sort_closed, remove_each, stale_session_ids,
  prune_closed_sessions,
}

-- Each key of a map stands in it once.
abbrev pub Distinct : Assoc Text ℕ → Type 0
Distinct [] = Unit
Distinct ((k, a) ∷ m) = (get k m ≡ none) × Distinct m

-- No entry of a list is for the session.
abbrev Spares : Text → List (Text × ℕ) → Type 0
Spares id = All (λ b. b.0 ≢ id)

module _ (id : Text) where
  Spares-insert :
      (x : Text × ℕ) (ys : List (Text × ℕ))
      → x.0 ≢ id
      → Spares id ys
      → Spares id (insert_closed x ys)
  unfolding insert_closed
  Spares-insert x [] ne h = (ne, tt)
  Spares-insert x (y ∷ ys) ne h = elim (Bool-cases (leb y.1 x.1)) [
    | inl later ↦ rw later (ne, h)
    | inr earlier ↦ rw earlier (h.0, Spares-insert x ys ne h.1)
  ]

  Spares-sort : (xs : List (Text × ℕ)) → Spares id xs → Spares id (sort_closed xs)
  unfolding sort_closed
  Spares-sort [] h = tt
  Spares-sort (x ∷ xs) h = Spares-insert x _ h.0 (Spares-sort xs h.1)

  Spares-drop : (n : ℕ) (xs : List (Text × ℕ)) → Spares id xs → Spares id (drop n xs)
  Spares-drop zero xs h = h
  Spares-drop (suc n) [] h = tt
  Spares-drop (suc n) (x ∷ xs) h = Spares-drop n xs h.1

  get-remove_each :
      (xs : List (Text × ℕ)) (m : Assoc Text ℕ)
      → Spares id xs
      → get id (remove_each (map (λ b. b.0) xs) m) ≡ get id m
  unfolding remove_each
  get-remove_each [] m h = refl
  get-remove_each (x ∷ xs) m h =
      get-remove_each xs (remove x.0 m) h.1 ∙ get-remove x.0 id m ∙ rw (==_ne x.0 id h.0) refl

  with_closing-Spares :
      (k : Text) (t : Option ℕ) (xs : List (Text × ℕ))
      → k ≢ id
      → Spares id xs
      → Spares id (with_closing k t xs)
  unfolding with_closing
  with_closing-Spares k none xs ne h = h
  with_closing-Spares k (some t) xs ne h = (ne, h)

  other-Spares :
      (k : Text) (o : Option SessionHandle) (hs : List (Text × SessionHandle))
      → k ≢ id
      → Spares id (closed_sessions hs)
      → Spares id (closed_sessions (with_entry k o hs))
  unfolding closed_sessions with_entry
  other-Spares k none hs ne h = h
  other-Spares k (some g) hs ne h = with_closing-Spares k g.session_data.closed_at _ ne h

  absent-Spares :
      (m : Assoc Text ℕ) (handles : List SessionHandle)
      → get id m ≡ none
      → Spares id (closed_sessions (session_handles m handles))
  unfolding session_handles get closed_sessions
  absent-Spares [] handles e = tt
  absent-Spares ((k, a) ∷ m) handles e = elim (Bool-cases (k == id)) [
    | inl same ↦ cc (rw same at e)
    | inr other ↦
        other-Spares k (get_elem? handles a) _ (λ (eq : k ≡ id). ground (arith, ==_iff k id))
          (absent-Spares m handles (rw other at e))
  ]

  own-Spares :
      (o : Option SessionHandle) (hs : List (Text × SessionHandle)) (h : SessionHandle)
      → o ≡ some h
      → h.session_data.closed_at ≡ none
      → Spares id (closed_sessions hs)
      → Spares id (closed_sessions (with_entry id o hs))
  unfolding closed_sessions with_entry with_closing
  own-Spares none hs h e never rest = cc
  own-Spares (some g) hs h e never rest =
      subst (λ t. Spares id (with_closing id t (closed_sessions hs)))
        (sym (ap (λ (x : SessionHandle). x.session_data.closed_at) (some-injective g h e) ∙ never))
        rest

  open-Spares :
      (m : Assoc Text ℕ) (handles : List SessionHandle) (a : ℕ) (h : SessionHandle)
      → Distinct m
      → get id m ≡ some a
      → get_elem? handles a ≡ some h
      → h.session_data.closed_at ≡ none
      → Spares id (closed_sessions (session_handles m handles))
  unfolding session_handles get
  open-Spares [] handles a h once e at_a never = cc
  open-Spares ((k, b) ∷ m) handles a h once e at_a never = elim (Bool-cases (k == id)) [
    | inl same ↦
        let kk = (==_iff k id).0 same in
        subst
          (λ x.
            Spares id
              (closed_sessions (with_entry x (get_elem? handles b) (session_handles m handles))))
          (sym kk)
          (own-Spares (get_elem? handles b) _ h
            (ap (get_elem? handles) (some-injective b a (rw same at e)) ∙ at_a) never
            (absent-Spares m handles (subst (λ x. get x m ≡ none) kk once.0)))
    | inr other ↦
        other-Spares k (get_elem? handles b) _ (λ (eq : k ≡ id). ground (arith, ==_iff k id))
          (open-Spares m handles a h once.1 (rw other at e) at_a never)
  ]

stored-find_handle :
    (s : SessionStore) (id : Text) {a : ℕ} {h : SessionHandle}
    → get id s.sessions ≡ some a
    → get_elem? s.handles a ≡ some h
    → find_handle s id ≡ some (a, h)
unfolding find_handle
stored-find_handle s id e at_a = ground arith

-- Where each key stands once in the map, prune_closed_sessions keeps every session that has no
-- closing time, with its handle as it was.
pub prune-open :
    (s : SessionStore) (id : Text) (a : ℕ) (h : SessionHandle)
    → Distinct s.sessions
    → find_handle s id ≡ some (a, h)
    → h.session_data.closed_at ≡ none
    → find_handle (prune_closed_sessions s) id ≡ some (a, h)
unfolding prune_closed_sessions stale_session_ids
prune-open s id a h once found never =
    let (at_id, at_a) = find_handle-stored s id found in
    let closed = closed_sessions (session_handles s.sessions s.handles) in
    elim (Bool-cases (leb (length closed) s.closed_session_limit)) [
      | inl few ↦ rw few found
      | inr many ↦ rw many (
          stored-find_handle _ id
            (get-remove_each id (drop s.closed_session_limit (sort_closed closed)) s.sessions (
                Spares-drop id s.closed_session_limit _ (
                  Spares-sort id closed
                    (open-Spares id s.sessions s.handles a h once at_id at_a never)))
              ∙ at_id)
            at_a)
    ]
