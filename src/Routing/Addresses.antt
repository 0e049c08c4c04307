-- ===== src/Routing/Addresses.antt =====
-- crates/acp-web-frontend/src/routing.rs: an address names the page it was made for.
use acp_orchestrator.Common.{
  ℕ, ◌≡◌, refl, false, Text, codes, List, [], ◌∷◌, ◌++◌, Option, none, some, any, trim, trim_start,
  is_empty, arith, Bool-cases, inl, inr, if◌then◌else◌, ◌==◌, nat_eq, nat_eqb, text_eq, list_eqb,
}
use acp_orchestrator.Routing.Utf8.{encode_utf8, bytes}
use acp_orchestrator.Routing.Characters.{IsText}
use acp_orchestrator.Routing.Percent.{encode_byte, encode_bytes, encode_component}
use acp_orchestrator.Routing.RoundTrip.{
  IsPlain, encode_component-IsPlain, decode_component-encode_component,
}
use acp_orchestrator.Routing.Routes.{
  AppRoute, trim_end_matches, strip_prefix, split_at_text, static_route, static_app_route,
  workspace_parts_route, workspace_rest_route, workspace_session_route, plain_session_route,
  session_route, route_from_pathname, app_session_path, app_workspace_session_path,
  app_session_path_for_workspace,
}

trim_end_matches-append :
    (sep : ℕ) (p s : Text) (d : ℕ) (r : Text)
    → trim_end_matches sep s ≡ d ∷ r
    → trim_end_matches sep (p ++ s) ≡ p ++ (d ∷ r)
unfolding trim_end_matches
trim_end_matches-append sep [] s d r h = h
trim_end_matches-append sep (c ∷ []) s d r h = rw h refl
trim_end_matches-append sep (c ∷ e ∷ p) s d r h =
    rw (trim_end_matches-append sep (e ∷ p) s d r h) refl

trim_end_matches_plain :
    (c : ℕ) (s : Text) → IsPlain (c ∷ s) → trim_end_matches b'/' (c ∷ s) ≡ c ∷ s
unfolding trim_end_matches
trim_end_matches_plain c [] h = let other : (c == b'/') ≡ false = ground arith in rw other refl
trim_end_matches_plain c (d ∷ s) h = rw (trim_end_matches_plain d s h.1) refl

-- A path keeps its end where its last part does.
trim_end_matches_path :
    (p s : Text)
    → trim_end_matches b'/' s ≡ s
    → is_empty s ≡ false
    → trim_end_matches b'/' (p ++ s) ≡ p ++ s
trim_end_matches_path p [] h e = cc
trim_end_matches_path p (c ∷ s) h e = trim_end_matches-append b'/' p (c ∷ s) c s h

trim_end_matches-IsPlain : (s : Text) → IsPlain s → is_empty s ≡ false → trim_end_matches b'/' s ≡ s
trim_end_matches-IsPlain [] h e = cc
trim_end_matches-IsPlain (c ∷ s) h e = trim_end_matches_plain c s h

nonempty_behind : (p s : Text) → is_empty s ≡ false → is_empty (p ++ s) ≡ false
nonempty_behind [] s e = e
nonempty_behind (c ∷ p) s e = refl

encode_byte_nonempty : (b : ℕ) (s : Text) → is_empty (encode_byte b ++ s) ≡ false
unfolding encode_byte
encode_byte_nonempty b s = ground arith

encode_utf8_nonempty : (c : ℕ) (s : Text) → is_empty (encode_utf8 c ++ s) ≡ false
unfolding encode_utf8
encode_utf8_nonempty c s = ground arith

encode_bytes_nonempty : (bs : List ℕ) → is_empty bs ≡ false → is_empty (encode_bytes bs) ≡ false
unfolding encode_bytes
encode_bytes_nonempty [] h = h
encode_bytes_nonempty (b ∷ bs) h = encode_byte_nonempty b (encode_bytes bs)

bytes_nonempty : (s : Text) → is_empty s ≡ false → is_empty (bytes s) ≡ false
unfolding bytes
bytes_nonempty [] h = h
bytes_nonempty (c ∷ s) h = encode_utf8_nonempty c (bytes s)

encode_component_nonempty : (s : Text) → is_empty s ≡ false → is_empty (encode_component s) ≡ false
unfolding encode_component
encode_component_nonempty s h = encode_bytes_nonempty (bytes s) (bytes_nonempty s h)

split_at_text_plain :
    (s rest : Text)
    → IsPlain s
    → split_at_text (codes "/sessions/") (s ++ (codes "/sessions/" ++ rest)) ≡ some (s, rest)
unfolding split_at_text strip_prefix
split_at_text_plain [] rest h = refl
split_at_text_plain (c ∷ s) rest h =
    let other : nat_eqb b'/' c ≡ false = ground arith in
    rw (other, split_at_text, strip_prefix) (rw (split_at_text_plain s rest h.1) refl)

any_plain : (s : Text) → IsPlain s → any (λ c. c == b'/') s ≡ false
any_plain [] h = refl
any_plain (c ∷ s) h = ground (arith, any_plain s h.1)

-- The page that a session's address is for: the workspace counts unless it is blank.
abbrev pub page_of : Option Text → Text → AppRoute
page_of none session_id = AppRoute.session session_id
page_of (some workspace_id) session_id =
    if is_empty (trim workspace_id)
    then AppRoute.session session_id
    else AppRoute.workspace_session workspace_id session_id

abbrev pub text_or_empty : Option Text → Text
text_or_empty none = []
text_or_empty (some s) = s

static_session : (s : Text) → static_route (codes "/app/sessions/" ++ s) ≡ none
unfolding static_route list_eqb
static_session s = refl

static_workspace : (s : Text) → static_route (codes "/app/workspaces/" ++ s) ≡ none
unfolding static_route list_eqb
static_workspace s = refl

static_app_route-session :
    (s : Text)
    → IsPlain s
    → is_empty s ≡ false
    → static_app_route (codes "/app/sessions/" ++ s) ≡ none
unfolding static_app_route
static_app_route-session s h e =
    rw (trim_end_matches_path (codes "/app/sessions/") s (trim_end_matches-IsPlain s h e) e)
      (static_session s)

static_app_route-workspace :
    (w s : Text)
    → IsPlain s
    → is_empty s ≡ false
    → static_app_route (codes "/app/workspaces/" ++ (w ++ (codes "/sessions/" ++ s))) ≡ none
unfolding static_app_route
static_app_route-workspace w s h e =
    let tail : Text = codes "/sessions/" ++ s in
    let kept = trim_end_matches_path (codes "/sessions/") s (trim_end_matches-IsPlain s h e) e in
    let whole =
      trim_end_matches_path (codes "/app/workspaces/") (w ++ tail)
        (trim_end_matches_path w tail kept refl) (nonempty_behind w tail refl) in
    rw whole (static_workspace (w ++ tail))

workspace_parts_route_decoded :
    (w s : Text)
    → IsText w
    → IsText s
    → is_empty w ≡ false
    → is_empty s ≡ false
    → workspace_parts_route (some (encode_component w, encode_component s))
      ≡ some (AppRoute.workspace_session w s)
unfolding workspace_parts_route
workspace_parts_route_decoded w s hw hs ew es =
    rw
      (
        encode_component_nonempty w ew,
        encode_component_nonempty s es,
        any_plain (encode_component s) (encode_component-IsPlain s hs),
      )
      (rw (decode_component-encode_component w hw, decode_component-encode_component s hs) refl)

route_from_pathname-app_session_path :
    (id : Text)
    → IsText id
    → is_empty id ≡ false
    → route_from_pathname (app_session_path id) ≡ AppRoute.session id
unfolding route_from_pathname app_session_path session_route workspace_session_route
    workspace_rest_route plain_session_route strip_prefix
route_from_pathname-app_session_path id h e =
    rw
      (static_app_route-session (encode_component id) (encode_component-IsPlain id h)
        (encode_component_nonempty id e))
      (rw (encode_component_nonempty id e) (rw (decode_component-encode_component id h) refl))

route_from_pathname-app_workspace_session_path :
    (w id : Text)
    → IsText w
    → IsText id
    → is_empty w ≡ false
    → is_empty id ≡ false
    → route_from_pathname (app_workspace_session_path w id) ≡ AppRoute.workspace_session w id
unfolding route_from_pathname app_workspace_session_path session_route workspace_session_route
    workspace_rest_route strip_prefix
route_from_pathname-app_workspace_session_path w id hw h ew e =
    rw
      (static_app_route-workspace (encode_component w) (encode_component id)
        (encode_component-IsPlain id h) (encode_component_nonempty id e))
      (rw
        (split_at_text_plain (encode_component w) (encode_component id)
          (encode_component-IsPlain w hw))
        (rw (workspace_parts_route_decoded w id hw h ew e) refl))

nonblank : (w : Text) → is_empty (trim w) ≡ false → is_empty w ≡ false
unfolding trim trim_start
nonblank [] h = h
nonblank (c ∷ w) h = refl

-- The address made for a session and, unless it is blank, a workspace is routed to the page of
-- just that session and workspace, for all ids that are texts of valid characters, where the
-- session's is not empty.
pub app_session_path_for_workspace-page_of :
    (workspace_id : Option Text) (session_id : Text)
    → IsText (text_or_empty workspace_id)
    → IsText session_id
    → is_empty session_id ≡ false
    → route_from_pathname (app_session_path_for_workspace workspace_id session_id)
      ≡ page_of workspace_id session_id
unfolding app_session_path_for_workspace
app_session_path_for_workspace-page_of none id hw h e = route_from_pathname-app_session_path id h e
app_session_path_for_workspace-page_of (some w) id hw h e = elim (Bool-cases (is_empty (trim w))) [
  | inl blank ↦ rw blank (route_from_pathname-app_session_path id h e)
  | inr named ↦
      rw named (route_from_pathname-app_workspace_session_path w id hw h (nonblank w named) e)
]
