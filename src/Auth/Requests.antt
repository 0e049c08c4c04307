-- ===== src/Auth/Requests.antt =====
-- The authorization of a request by its headers, in crates/acp-web-backend/src/auth.rs.
use acp_orchestrator.Common.{
  ℕ, Bool, Text, codes, List, [], ◌∷◌, Option, none, some, is_empty, trim, trim_start,
  if◌then◌else◌, ◌==◌, nat_eq, text_eq,
}
use acp_orchestrator.Common.Attempt.{Attempt, done, failed, and_then}
use acp_orchestrator.Routing.Routes.{strip_prefix}
use acp_orchestrator.Slash.Parse.{split_once}

pub data AuthenticatedPrincipalKind : Type 0 where
  bearer browser_session : AuthenticatedPrincipalKind

pub record AuthenticatedPrincipal : Type 0 where
  pub id : Text
  pub kind : AuthenticatedPrincipalKind
  pub subject : Text

pub data AuthError : Type 0 where
  missing_authentication invalid_authentication missing_csrf_token invalid_csrf_token : AuthError

unfoldable pub message : AuthError → Text
message AuthError.missing_authentication = codes "missing authentication"
message AuthError.invalid_authentication = codes "invalid authentication"
message AuthError.missing_csrf_token = codes "missing csrf token"
message AuthError.invalid_csrf_token = codes "invalid csrf token"

-- The headers, by what `HeaderMap::get_all` finds for a name: each value has a text if
-- `HeaderValue::to_str` gives one.
abbrev pub HeaderMap : Type 0
HeaderMap = Text → List (Option Text)

abbrev pub authorization : Text
authorization = codes "authorization"

abbrev pub cookie : Text
cookie = codes "cookie"

abbrev pub session_cookie_name : Text
session_cookie_name = codes "acp_session"

abbrev pub csrf_cookie_name : Text
csrf_cookie_name = codes "acp_csrf"

abbrev pub csrf_header_name : Text
csrf_header_name = codes "x-csrf-token"

-- `HeaderMap::get`: the first of the values.
abbrev pub first_of : List (Option Text) → Option (Option Text)
first_of [] = none
first_of (v ∷ vs) = some v

-- `.filter_map(|value| value.to_str().ok())`
abbrev pub texts : List (Option Text) → List Text
texts [] = []
texts (none ∷ vs) = texts vs
texts (some t ∷ vs) = t ∷ texts vs

abbrev pub onto_first : ℕ → List Text → List Text
onto_first c [] = (c ∷ []) ∷ []
onto_first c (part ∷ parts) = (c ∷ part) ∷ parts

-- `str::split`, at a character
unfoldable pub split : ℕ → Text → List Text
split sep [] = [] ∷ []
split sep (c ∷ s) = let parts = split sep s in if c == sep then [] ∷ parts else onto_first c parts

-- The entries of one `cookie` header: the first that has the name and a value.
abbrev pub entry_value : Text → Option (Text × Text) → Option Text
entry_value name none = none
entry_value name (some (cookie_name, value)) =
    if cookie_name == name
    then (if is_empty (trim value) then none else some (trim value))
    else none

abbrev pub or_later : Option Text → Option Text → Option Text
or_later (some v) later = some v
or_later none later = later

unfoldable pub entries_value : Text → List Text → Option Text
unfolding split_once trim
entries_value name [] = none
entries_value name (entry ∷ entries) =
    or_later (entry_value name (split_once b'=' (trim entry))) (entries_value name entries)

unfoldable pub headers_value : Text → List Text → Option Text
unfolding entries_value split
headers_value name [] = none
headers_value name (raw ∷ raws) =
    or_later (entries_value name (split b';' raw)) (headers_value name raws)

unfoldable pub cookie_value : HeaderMap → Text → Option Text
unfolding headers_value
cookie_value headers name = headers_value name (texts (headers cookie))

abbrev pub principal : AuthenticatedPrincipalKind → Text → AuthenticatedPrincipal
principal kind token = record { id = token; kind = kind; subject = token }

-- `bearer_principal`, on the token behind "Bearer "
abbrev pub token_principal : Option Text → Attempt AuthError (Option AuthenticatedPrincipal)
token_principal none = failed AuthError.invalid_authentication
token_principal (some token) =
    if is_empty (trim token)
    then failed AuthError.invalid_authentication
    else done (some (principal AuthenticatedPrincipalKind.bearer (trim token)))

unfoldable pub header_principal :
    Option (Option Text) → Attempt AuthError (Option AuthenticatedPrincipal)
unfolding strip_prefix trim_start
header_principal none = done none
header_principal (some none) = failed AuthError.invalid_authentication
header_principal (some (some raw)) =
    token_principal (strip_prefix (codes "Bearer ") (trim_start raw))

unfoldable pub bearer_principal : HeaderMap → Attempt AuthError (Option AuthenticatedPrincipal)
unfolding header_principal
bearer_principal headers = header_principal (first_of (headers authorization))

-- `.ok_or(error)`
abbrev pub ok_or : {A : Type 0} → AuthError → Option A → Attempt AuthError A
ok_or error none = failed error
ok_or error (some a) = done a

-- `.filter(|value| !value.is_empty())` behind `str::trim`
abbrev pub trimmed_header : Option (Option Text) → Option Text
trimmed_header (some (some raw)) = if is_empty (trim raw) then none else some (trim raw)
trimmed_header _ = none

-- `parse_uuid` is `Uuid::parse_str`, with the hyphenated text of what it reads.
module _ (parse_uuid : Text → Option Text) where
  unfoldable pub browser_session_token : HeaderMap → Attempt AuthError Text
  unfolding cookie_value
  browser_session_token headers =
      and_then (ok_or AuthError.missing_authentication (cookie_value headers session_cookie_name))
        (λ token. ok_or AuthError.invalid_authentication (parse_uuid token))

  unfoldable pub normalize_uuid_token : Text → Attempt AuthError Text
  normalize_uuid_token value = ok_or AuthError.invalid_csrf_token (parse_uuid value)

  unfoldable pub validate_csrf : HeaderMap → Attempt AuthError (Unit {0})
  unfolding cookie_value normalize_uuid_token
  validate_csrf headers =
      and_then
        (and_then (ok_or AuthError.missing_csrf_token (cookie_value headers csrf_cookie_name))
          normalize_uuid_token)
        (λ expected.
          and_then
            (and_then
              (ok_or AuthError.missing_csrf_token
                (trimmed_header (first_of (headers csrf_header_name))))
              normalize_uuid_token)
            (λ actual. if actual == expected then done tt else failed AuthError.invalid_csrf_token))

  unfoldable pub browser_request : HeaderMap → Bool → Attempt AuthError AuthenticatedPrincipal
  unfolding browser_session_token validate_csrf
  browser_request headers requires_csrf = and_then (browser_session_token headers) (λ token.
      and_then (if requires_csrf then validate_csrf headers else done tt)
        (λ u. done (principal AuthenticatedPrincipalKind.browser_session token)))

  unfoldable pub bearer_or_browser :
      HeaderMap → Bool → Option AuthenticatedPrincipal → Attempt AuthError AuthenticatedPrincipal
  unfolding browser_request
  bearer_or_browser headers requires_csrf none = browser_request headers requires_csrf
  bearer_or_browser headers requires_csrf (some p) = done p

  unfoldable pub authorize_request : HeaderMap → Bool → Attempt AuthError AuthenticatedPrincipal
  unfolding bearer_or_browser bearer_principal
  authorize_request headers requires_csrf =
      and_then (bearer_principal headers) (bearer_or_browser headers requires_csrf)
