-- ===== src/Api/Tests.antt =====
-- Tests of the requests.
use davy_jones.Prelude.{ℕ, ◌≡◌, refl, some, [], ◌∷◌}
use davy_jones.Prelude.Text.{template, has_char}
use davy_jones.Prelude.Encoding.{encode_uri_component}
use davy_jones.Api.{request, headers_for}
use davy_jones.Api.Calls.{Call, hosts_list, hosts_discover_services, object, text}
use davy_jones.Api.Paths.{post, method_of, path_of, project_query}
use davy_jones.Api.Bodies.{body_of}

abbrev scan : Call ℕ
scan = hosts_discover_services "host_0af3" "LXC"

scan_is_requested : request (some "t0") scan ≡ record {
  method = post;
  path = "/api/hosts/host_0af3/discover-services";
  headers = ("Content-Type", "application/json") ∷ ("Authorization", "Bearer t0") ∷ [];
  body = some (object (("type", text "LXC") ∷ []));
}
unfolding request headers_for method_of path_of body_of template
scan_is_requested = refl

encoded_project :
    path_of {B = ℕ} (hosts_list (some "a/b é")) ≡ "/api/hosts?projectId=a%2Fb%20%C3%A9"
unfolding path_of project_query template encode_uri_component has_char
encoded_project = refl
