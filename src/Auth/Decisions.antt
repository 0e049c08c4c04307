-- ===== src/Auth/Decisions.antt =====
-- What the authorization of a request rests on: crates/acp-web-backend/src/auth.rs.
use acp_orchestrator.Common.{
  ◌≡◌, refl, ap, ◌∙◌, subst, Bool, true, false, Text, List, ◌∷◌, Option, none, some, is_empty, trim,
  Bool-cases, inl, inr, ◌==◌, ==_iff, text_eq, if◌then◌else◌,
}
use acp_orchestrator.Common.Attempt.{Attempt, done, failed, and_then, and_then-done}
use acp_orchestrator.Auth.Requests.{
  AuthenticatedPrincipalKind, AuthenticatedPrincipal, principal, AuthError, HeaderMap,
  authorization, csrf_cookie_name, csrf_header_name, first_of, cookie_value, header_principal,
  bearer_principal, token_principal, ok_or, trimmed_header, normalize_uuid_token, validate_csrf,
  browser_request, browser_session_token, bearer_or_browser, authorize_request,
}

ok_or-done : {A : Type 0} (e : AuthError) (o : Option A) (a : A) → ok_or e o ≡ done a → o ≡ some a
ok_or-done e none a h = cc
ok_or-done e (some b) a h = cc

abbrev accepted : Attempt AuthError (Unit {0})
accepted = done tt

tested_same :
    (actual expected : Text)
    → (if actual == expected then accepted else failed AuthError.invalid_csrf_token) ≡ done tt
    → actual ≡ expected
tested_same actual expected h = elim (Bool-cases (actual == expected)) [
  | inl same ↦ (==_iff actual expected).0 same
  | inr other ↦ cc (rw other at h)
]

token_only :
    (o : Option Text) (q : AuthenticatedPrincipal)
    → token_principal o ≡ done (some q)
    → q.kind ≡ AuthenticatedPrincipalKind.browser_session
    → ⊥
token_only none q h kind = cc
token_only (some token) q h kind = elim (Bool-cases (is_empty (trim token))) [
  | inl blank ↦ cc (rw blank at h)
  | inr kept ↦
      let same : principal AuthenticatedPrincipalKind.bearer (trim token) ≡ q = cc (rw kept at h) in
      cc (ap (λ (p : AuthenticatedPrincipal). p.kind) same ∙ kind)
]

-- The `authorization` header makes no browser's principal.
bearer_only :
    (o : Option (Option Text)) (q : AuthenticatedPrincipal)
    → header_principal o ≡ done (some q)
    → q.kind ≡ AuthenticatedPrincipalKind.browser_session
    → ⊥
unfolding header_principal
bearer_only none q h kind = cc
bearer_only (some none) q h kind = cc
bearer_only (some (some raw)) q h kind = token_only _ q h kind

module _ (parse_uuid : Text → Option Text) where
  -- The cookie and the header of a request carry the same token.
  pub record SameToken (headers : HeaderMap) : Type 0 where
    pub cookie : Text
    pub header : Text
    pub token : Text
    pub has_cookie : cookie_value headers csrf_cookie_name ≡ some cookie
    pub has_header : trimmed_header (first_of (headers csrf_header_name)) ≡ some header
    pub reads_cookie : parse_uuid cookie ≡ some token
    pub reads_header : parse_uuid header ≡ some token

  validate_csrf-SameToken :
      (headers : HeaderMap) → validate_csrf parse_uuid headers ≡ done tt → SameToken headers
  unfolding validate_csrf normalize_uuid_token
  validate_csrf-SameToken headers h =
      let (expected, (left, rest)) =
        and_then-done
          (and_then (ok_or AuthError.missing_csrf_token (cookie_value headers csrf_cookie_name))
            (normalize_uuid_token parse_uuid))
          _ tt h in
      let (actual, (right, tested)) =
        and_then-done
          (and_then
            (ok_or AuthError.missing_csrf_token
              (trimmed_header (first_of (headers csrf_header_name))))
            (normalize_uuid_token parse_uuid))
          _ tt rest in
      let (c, (has_c, reads_c)) =
        and_then-done (ok_or AuthError.missing_csrf_token (cookie_value headers csrf_cookie_name)) _
          expected left in
      let (a, (has_a, reads_a)) =
        and_then-done
          (ok_or AuthError.missing_csrf_token
            (trimmed_header (first_of (headers csrf_header_name))))
          _ actual right in
      record {
        cookie = c;
        header = a;
        token = expected;
        has_cookie = ok_or-done _ _ c has_c;
        has_header = ok_or-done _ _ a has_a;
        reads_cookie = ok_or-done _ _ expected reads_c;
        reads_header = ok_or-done _ _ expected (
            subst (λ t. ok_or AuthError.invalid_csrf_token (parse_uuid a) ≡ done t)
              (tested_same actual expected tested) reads_a);
      }

  browser_request-SameToken :
      (headers : HeaderMap) (p : AuthenticatedPrincipal)
      → browser_request parse_uuid headers true ≡ done p
      → SameToken headers
  unfolding browser_request
  browser_request-SameToken headers p h =
      let (token, (has_token, rest)) =
        and_then-done (browser_session_token parse_uuid headers) _ p h in
      let (u, (valid, made)) = and_then-done (validate_csrf parse_uuid headers) _ p rest in
      validate_csrf-SameToken headers valid

  bearer_or_browser-SameToken :
      (headers : HeaderMap) (o : Option AuthenticatedPrincipal) (p : AuthenticatedPrincipal)
      → header_principal (first_of (headers authorization)) ≡ done o
      → p.kind ≡ AuthenticatedPrincipalKind.browser_session
      → bearer_or_browser parse_uuid headers true o ≡ done p
      → SameToken headers
  unfolding bearer_or_browser
  bearer_or_browser-SameToken headers none p from kind h = browser_request-SameToken headers p h
  bearer_or_browser-SameToken headers (some q) p from kind h =
      let q_p : q ≡ p = cc in
      absurd (bearer_only (first_of (headers authorization)) q from (ap (λ r. r.kind) q_p ∙ kind))

  -- A request that needs a CSRF token and is accepted as a browser's has a CSRF cookie and a CSRF
  -- header that read as the same token.
  pub authorize_request-SameToken :
      (headers : HeaderMap) (p : AuthenticatedPrincipal)
      → p.kind ≡ AuthenticatedPrincipalKind.browser_session
      → authorize_request parse_uuid headers true ≡ done p
      → SameToken headers
  unfolding authorize_request bearer_principal
  authorize_request-SameToken headers p kind h =
      let (o, (from, rest)) =
        and_then-done (header_principal (first_of (headers authorization))) _ p h in
      bearer_or_browser-SameToken headers o p from kind rest

  token_alone :
      (o : Option Text) (headers other : HeaderMap) (requires_csrf : Bool)
      → and_then (token_principal o) (bearer_or_browser parse_uuid headers requires_csrf)
        ≡ and_then (token_principal o) (bearer_or_browser parse_uuid other false)
  unfolding bearer_or_browser
  token_alone none headers other requires_csrf = refl
  token_alone (some token) headers other requires_csrf = elim (Bool-cases (is_empty (trim token))) [
    | inl blank ↦ rw blank refl
    | inr kept ↦ rw kept refl
  ]

  header_alone :
      (v : Option Text) (headers other : HeaderMap) (requires_csrf : Bool)
      → and_then (header_principal (some v)) (bearer_or_browser parse_uuid headers requires_csrf)
        ≡ and_then (header_principal (some v)) (bearer_or_browser parse_uuid other false)
  unfolding header_principal
  header_alone none headers other requires_csrf = refl
  header_alone (some raw) headers other requires_csrf = token_alone _ headers other requires_csrf

  -- Two requests with the same first value and further values of the authorization header get the
  -- same answer, whatever their cookies and other headers, and whether or not a CSRF token is
  -- required.
  pub authorize_request-authorization :
      (headers other : HeaderMap) (requires_csrf : Bool) (v : Option Text) (vs : List (Option Text))
      → headers authorization ≡ v ∷ vs
      → other authorization ≡ v ∷ vs
      → authorize_request parse_uuid headers requires_csrf
        ≡ authorize_request parse_uuid other false
  unfolding authorize_request bearer_principal
  authorize_request-authorization headers other requires_csrf v vs h k =
      rw (h, k) (header_alone v headers other requires_csrf)
