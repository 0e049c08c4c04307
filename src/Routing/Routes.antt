-- ===== src/Routing/Routes.antt =====
-- The routes of the browser's pages, in crates/acp-web-frontend/src/routing.rs.
use acp_orchestrator.Common.{
  ℕ, ◌||◌, Text, codes, [], ◌∷◌, ◌++◌, Option, none, some, any, trim, is_empty, nat_eqb,
  if◌then◌else◌, ◌==◌, nat_eq, text_eq,
}
use acp_orchestrator.Routing.Percent.{encode_component, decode_component}

pub data SettingsSection : Type 0 where
  accounts agents : SettingsSection

pub data AppRoute : Type 0 where
  home register sign_in accounts workspaces not_found : AppRoute
  settings : SettingsSection → AppRoute
  session : Text → AppRoute
  workspace_session : Text → Text → AppRoute

-- `str::trim_end_matches`, at a character
unfoldable pub trim_end_matches : ℕ → Text → Text
trim_end_matches sep [] = []
trim_end_matches sep (c ∷ s) = elim (trim_end_matches sep s) [
  | [] ↦ if c == sep then [] else c ∷ []
  | d ∷ r ↦ c ∷ d ∷ r
]

-- `str::strip_prefix`
unfoldable pub strip_prefix : Text → Text → Option Text
strip_prefix [] s = some s
strip_prefix (p ∷ ps) [] = none
strip_prefix (p ∷ ps) (c ∷ s) = if nat_eqb p c then strip_prefix ps s else none

-- `str::split_once`, at a text
unfoldable pub split_at_text : Text → Text → Option (Text × Text)
unfolding strip_prefix
split_at_text sep [] = elim (strip_prefix sep []) [ none ↦ none | some rest ↦ some ([], rest) ]
split_at_text sep (c ∷ s) = elim (strip_prefix sep (c ∷ s)) [
  | some rest ↦ some ([], rest)
  | none ↦ elim (split_at_text sep s) [
    | none ↦ none
    | some (before, after) ↦ some (c ∷ before, after)
  ]
]

-- `static_app_route`, on the path without the slashes at its end
unfoldable pub static_route : Text → Option AppRoute
static_route path =
    if path == codes "/app"
    then some AppRoute.home
    else if path == codes "/app/register"
    then some AppRoute.register
    else if path == codes "/app/sign-in"
    then some AppRoute.sign_in
    else if path == codes "/app/accounts"
    then some AppRoute.accounts
    else if path == codes "/app/settings" || path == codes "/app/settings/accounts"
    then some (AppRoute.settings SettingsSection.accounts)
    else if path == codes "/app/settings/agents"
    then some (AppRoute.settings SettingsSection.agents)
    else if path == codes "/app/workspaces"
    then some AppRoute.workspaces
    else none

-- `static_app_route`
unfoldable pub static_app_route : Text → Option AppRoute
unfolding static_route trim_end_matches
static_app_route pathname = static_route (trim_end_matches b'/' pathname)

abbrev pub workspace_session_of : Option Text → Option Text → Option AppRoute
workspace_session_of (some workspace_id) (some session_id) =
    some (AppRoute.workspace_session workspace_id session_id)
workspace_session_of _ _ = none

-- `workspace_session_route`, on the parts before and behind "/sessions/"
unfoldable pub workspace_parts_route : Option (Text × Text) → Option AppRoute
workspace_parts_route none = none
workspace_parts_route (some (workspace_id, session_part)) =
    if is_empty workspace_id || is_empty session_part || any (λ c. c == b'/') session_part
    then none
    else workspace_session_of (decode_component workspace_id) (decode_component session_part)

unfoldable pub workspace_rest_route : Option Text → Option AppRoute
unfolding workspace_parts_route split_at_text
workspace_rest_route none = none
workspace_rest_route (some rest) = workspace_parts_route (split_at_text (codes "/sessions/") rest)

-- `workspace_session_route`
unfoldable pub workspace_session_route : Text → Option AppRoute
unfolding workspace_rest_route strip_prefix
workspace_session_route pathname =
    workspace_rest_route (strip_prefix (codes "/app/workspaces/") pathname)

abbrev pub session_of : Option Text → Option AppRoute
session_of none = none
session_of (some session_id) = some (AppRoute.session session_id)

-- `session_route`, where the path is none of a workspace's session
unfoldable pub plain_session_route : Option Text → Option AppRoute
plain_session_route none = none
plain_session_route (some id) = if is_empty id then none else session_of (decode_component id)

abbrev pub or_else : Option AppRoute → Option AppRoute → Option AppRoute
or_else (some r) other = some r
or_else none other = other

abbrev pub or_not_found : Option AppRoute → AppRoute
or_not_found none = AppRoute.not_found
or_not_found (some r) = r

-- `session_route`
unfoldable pub session_route : Text → Option AppRoute
unfolding workspace_session_route plain_session_route strip_prefix
session_route pathname =
    or_else (workspace_session_route pathname)
      (plain_session_route (strip_prefix (codes "/app/sessions/") pathname))

-- `route_from_pathname`
unfoldable pub route_from_pathname : Text → AppRoute
unfolding static_app_route session_route
route_from_pathname pathname =
    or_not_found (or_else (static_app_route pathname) (session_route pathname))

-- `app_session_path`
unfoldable pub app_session_path : Text → Text
app_session_path session_id = codes "/app/sessions/" ++ encode_component session_id

-- `app_workspace_session_path`
unfoldable pub app_workspace_session_path : Text → Text → Text
app_workspace_session_path workspace_id session_id =
    codes "/app/workspaces/"
    ++ (encode_component workspace_id ++ (codes "/sessions/" ++ encode_component session_id))

-- `app_session_path_for_workspace`
unfoldable pub app_session_path_for_workspace : Option Text → Text → Text
unfolding app_session_path app_workspace_session_path
app_session_path_for_workspace none session_id = app_session_path session_id
app_session_path_for_workspace (some workspace_id) session_id =
    if is_empty (trim workspace_id)
    then app_session_path session_id
    else app_workspace_session_path workspace_id session_id
