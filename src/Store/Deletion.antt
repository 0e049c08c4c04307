-- ===== src/Store/Deletion.antt =====
-- What a turn that still runs finds after its session was deleted from the store of
-- crates/acp-web-backend/src/sessions.rs.
use mathlib.Core.Option.{some-injective}
use acp_orchestrator.Common.{
  ℕ, zero, suc, List, [], ◌∷◌, ◌≡◌, refl, sym, ap, ◌∙◌, ◌⊎◌, true, false, Text, none, some, arith,
  inl, inr, get_elem?, get_elem?-set_self, get_elem?-lt, set, Bool-cases, ==_iff, ==_refl, text_eq,
  is_empty, if◌then◌else◌,
}
use acp_orchestrator.Common.Assoc.{get, get-remove}
use acp_orchestrator.Contracts.Stream.{StreamEvent}
use acp_orchestrator.Contracts.Sessions.{is_closed}
use acp_orchestrator.Session.Types.{
  SessionHandle, SessionData, Stamp, PromptCompletion, Result, ok, err, SessionStoreError,
}
use acp_orchestrator.Session.Lifecycle.{prepare_delete}
use acp_orchestrator.Session.Turns as Turns
use acp_orchestrator.Session.Prompts.{complete_prompt}
use acp_orchestrator.Store.Types.{SessionStore, TurnHandle}
use acp_orchestrator.Store.Access.{
  check_owner, authorized_handle, authorized, find_handle, write, with_data,
}
use acp_orchestrator.Store.Calls.{broadcast_all, call, returning}
use acp_orchestrator.Store.Local.{find_handle-stored}
use acp_orchestrator.Store.Sessions.{delete_session}
use acp_orchestrator.Store.Prompts.{
  after_lookup, at_turn, start_turn, register_permission_request, stream_assistant_chunk, complete,
}

-- The handle that the address holds is closed.
pub record GoneAt (s : SessionStore) (a : ℕ) : Type 0 where
  pub handle : SessionHandle
  pub held : get_elem? s.handles a ≡ some handle
  pub closed : is_closed handle.session_data.status ≡ true

set-same : {A : Type 0} (xs : List A) (i : ℕ) {a : A} → get_elem? xs i ≡ some a → set xs i a ≡ xs
set-same [] i e = refl
set-same (x ∷ xs) zero e = ap (λ y. y ∷ xs) (sym (some-injective _ _ e))
set-same (x ∷ xs) (suc i) e = ap (◌∷◌ x) (set-same xs i e)

deleted-GoneAt :
    (now : ℕ) (s : SessionStore) (owner id : Text) {a : ℕ} {h : SessionHandle}
    → find_handle s id ≡ some (a, h)
    → authorized_handle s owner id ≡ ok (a, h)
    → GoneAt (delete_session now s owner id).0 a
unfolding delete_session authorized write prepare_delete
deleted-GoneAt now s owner id {a} {h} found allowed = rw allowed (record {
  handle = with_data h (prepare_delete now h.session_data);
  held =
      get_elem?-set_self s.handles a _ (get_elem?-lt s.handles a (find_handle-stored s id found).1);
  closed = refl;
})

-- What is left of a turn at a closed handle: it cannot start, ask or speak, and completing its
-- prompt changes nothing.
pub record Halted (stamps : ℕ → Stamp) (s : SessionStore) (turn : TurnHandle) : Type 0 where
  pub starting : start_turn s turn ≡ (s, err SessionStoreError.closed)
  pub asking :
      (summary approve deny : Text)
      → register_permission_request s turn summary approve deny ≡ (s, err SessionStoreError.closed)
  pub speaking :
      (text : Text)
      → stream_assistant_chunk (stamps 0) s turn text
        ≡ (s, if is_empty text then ok tt else err SessionStoreError.closed)
  pub completing : (completion : PromptCompletion) → complete stamps s turn completion ≡ s

module _ (s : SessionStore) (turn : TurnHandle) (g : GoneAt s turn.handle) where
  same_write : write s turn.handle (with_data g.handle g.handle.session_data) ≡ s
  unfolding write
  same_write = ap (λ hs. record s { handles = hs }) (set-same s.handles turn.handle g.held)

  module _ {A : Type 0} where
    at_gone : (k : SessionHandle → SessionStore × Result A) → at_turn s turn.handle k ≡ k g.handle
    unfolding at_turn
    at_gone k = ap (λ o. after_lookup s o k) g.held

    -- A method that refuses a closed session leaves the store as it was.
    refused :
        (events : SessionData → A → List StreamEvent) (r : SessionData × Result A)
        → r ≡ (g.handle.session_data, err SessionStoreError.closed)
        → call s turn.handle g.handle events r ≡ (s, err SessionStoreError.closed)
    unfolding call
    refused events r e =
        ap (call s turn.handle g.handle events) e
        ∙ ap (λ s'. (s', err SessionStoreError.closed)) same_write

module _ (stamps : ℕ → Stamp) (s : SessionStore) (turn : TurnHandle) (g : GoneAt s turn.handle)
    (text : Text) where
  silent_speech : is_empty text ≡ true → stream_assistant_chunk (stamps 0) s turn text ≡ (s, ok tt)
  unfolding stream_assistant_chunk Turns.stream_assistant_chunk call returning broadcast_all
  silent_speech silent =
      ap (returning _) (at_gone s turn g _)
      ∙ rw silent (ap (λ s'. (s', ok tt)) (same_write s turn g))

  loud_speech :
      is_empty text ≡ false
      → stream_assistant_chunk (stamps 0) s turn text ≡ (s, err SessionStoreError.closed)
  unfolding stream_assistant_chunk Turns.stream_assistant_chunk returning
  loud_speech filled =
      ap (returning _) (at_gone s turn g _ ∙ refused s turn g _ _ (rw (filled, g.closed) refl))

  halted_speech :
      (is_empty text ≡ true) ⊎ (is_empty text ≡ false)
      → stream_assistant_chunk (stamps 0) s turn text
        ≡ (s, if is_empty text then ok tt else err SessionStoreError.closed)
  halted_speech (inl silent) = silent_speech silent ∙ rw silent refl
  halted_speech (inr filled) = loud_speech filled ∙ rw filled refl

pub Halted-GoneAt :
    (stamps : ℕ → Stamp) (s : SessionStore) (turn : TurnHandle)
    → GoneAt s turn.handle
    → Halted stamps s turn
unfolding start_turn Turns.start_turn register_permission_request Turns.register_permission_request
    stream_assistant_chunk Turns.stream_assistant_chunk complete complete_prompt returning
Halted-GoneAt stamps s turn g = record {
  starting = at_gone s turn g _ ∙ refused s turn g _ _ (rw g.closed refl);
  asking = λ summary approve deny.
      ap (returning _) (at_gone s turn g _ ∙ refused s turn g _ _ (rw g.closed refl));
  speaking = λ text. halted_speech stamps s turn g text (Bool-cases (is_empty text));
  completing =
      λ completion. ap (λ b. b.0) (at_gone s turn g _ ∙ refused s turn g _ _ (rw g.closed refl));
}

absent : (s : SessionStore) (id : Text) → get id s.sessions ≡ none → find_handle s id ≡ none
unfolding find_handle
absent s id e = ground arith

allowed :
    (s : SessionStore) (owner id : Text) {a : ℕ} {h : SessionHandle}
    → find_handle s id ≡ some (a, h)
    → h.session_data.owner ≡ owner
    → authorized_handle s owner id ≡ ok (a, h)
unfolding authorized_handle check_owner
allowed s owner id {a} {h} found same =
    ap (check_owner owner) found ∙ rw ((==_iff h.session_data.owner owner).1 same) refl

deleted-absent :
    (now : ℕ) (s : SessionStore) (owner id : Text) {a : ℕ} {h : SessionHandle}
    → authorized_handle s owner id ≡ ok (a, h)
    → find_handle (delete_session now s owner id).0 id ≡ none
unfolding delete_session authorized write
deleted-absent now s owner id ok_handle =
    rw ok_handle (absent _ id (get-remove id id s.sessions ∙ rw (==_refl id) refl))

-- delete_session by the owner removes the session from the map, and a turn handle that still
-- points to it is halted: it cannot start, ask for permission or speak, and completing its prompt
-- changes nothing.
pub delete_session-Halted :
    (now : ℕ) (stamps : ℕ → Stamp) (s : SessionStore) (owner id : Text) (turn : TurnHandle)
    (h : SessionHandle)
    → find_handle s id ≡ some (turn.handle, h)
    → h.session_data.owner ≡ owner
    → (find_handle (delete_session now s owner id).0 id ≡ none)
      × Halted stamps (delete_session now s owner id).0 turn
delete_session-Halted now stamps s owner id turn h found same =
    let permitted = allowed s owner id found same in
    (
      deleted-absent now s owner id permitted,
      Halted-GoneAt stamps _ turn (deleted-GoneAt now s owner id found permitted),
    )
