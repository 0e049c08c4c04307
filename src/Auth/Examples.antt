-- ===== src/Auth/Examples.antt =====
-- Witnesses and tests on concrete requests.
use acp_orchestrator.Common.{
  ◌≡◌, refl, true, false, Text, codes, [], ◌∷◌, Option, some, list_eqb, trim, is_whitespace,
  if◌then◌else◌, ◌==◌, text_eq,
}
use acp_orchestrator.Auth.Requests.{
  AuthenticatedPrincipalKind, HeaderMap, authorization, cookie, csrf_header_name, principal,
  authorize_request,
}
use acp_orchestrator.Auth.Decisions.{
  SameToken, authorize_request-SameToken, authorize_request-authorization,
}

-- Every text is its own token.
abbrev any_token : Text → Option Text
any_token t = some t

abbrev browser : HeaderMap
browser name =
    if name == cookie
    then some (codes "acp_session=a; acp_csrf=b") ∷ []
    else if name == csrf_header_name
    then some (codes " b ") ∷ []
    else []

authorize_request-SameToken_example : SameToken any_token browser
unfolding authorize_request list_eqb trim is_whitespace
authorize_request-SameToken_example =
    authorize_request-SameToken any_token browser
      (principal AuthenticatedPrincipalKind.browser_session (codes "a")) refl refl

abbrev client : HeaderMap
client name = if name == authorization then some (codes "Bearer cli") ∷ [] else browser name

abbrev plain_client : HeaderMap
plain_client name = if name == authorization then some (codes "Bearer cli") ∷ [] else []

authorize_request-authorization_example :
    authorize_request any_token client true ≡ authorize_request any_token plain_client false
unfolding list_eqb
authorize_request-authorization_example =
    authorize_request-authorization any_token client plain_client true (some (codes "Bearer cli"))
      [] refl refl
