-- ===== src/Routing/Examples.antt =====
-- Witnesses on concrete addresses.
use acp_orchestrator.Common.{◌≡◌, refl, some, codes, trim, is_whitespace}
use acp_orchestrator.Routing.Utf8.{is_char}
use acp_orchestrator.Routing.Percent.{encode_component, decode_component}
use acp_orchestrator.Routing.RoundTrip.{decode_component-encode_component}
use acp_orchestrator.Routing.Routes.{route_from_pathname, app_session_path_for_workspace, AppRoute}
use acp_orchestrator.Routing.Addresses.{app_session_path_for_workspace-page_of}

encode_component_test : encode_component (codes "a b/ü") ≡ codes "a%20b%2F%C3%BC"
unfolding encode_component
encode_component_test = refl

decode_component-encode_component_example :
    decode_component (encode_component (codes "a b/ü")) ≡ some (codes "a b/ü")
unfolding is_char
decode_component-encode_component_example =
    decode_component-encode_component (codes "a b/ü") (refl, (refl, (refl, (refl, (refl, tt)))))

app_session_path_for_workspace-page_of_example :
    route_from_pathname (app_session_path_for_workspace (some (codes "w/1")) (codes "s_1"))
    ≡ AppRoute.workspace_session (codes "w/1") (codes "s_1")
unfolding is_char trim is_whitespace
app_session_path_for_workspace-page_of_example =
    app_session_path_for_workspace-page_of (some (codes "w/1")) (codes "s_1")
      (refl, (refl, (refl, tt))) (refl, (refl, (refl, tt))) refl
