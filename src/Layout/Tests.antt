-- ===== src/Layout/Tests.antt =====
-- Tests of the layout on one scene: a VPN with two hosts, a VPN with none, a host whose VPN is gone
-- and a service whose host is gone.
use mathlib.Core.List.{Memᴰ}
use davy_jones.Prelude.{
  ℕ, String, ◌≡◌, refl, true, false, Option, none, some, List, [], ◌∷◌, map, All, Exists,
}
use davy_jones.Prelude.Dict.{group_from, push, set}
use davy_jones.Types.{Vpn, Host, Service, ServiceStatus, online, offline, no_certificate}
use davy_jones.Layout.Model.{
  Scene, Node, Edge, no_actions, vpn_node_id, host_node_id, service_node_id, file_hosts, attachment,
  service_edge,
}
use davy_jones.Layout.Build.{
  build_graph_layout, linked, filed, place_hosts, place_vpns, place_strays, empty_canvas, vpn_edge,
}
use davy_jones.Layout.Complete.{DrawsHost, HasId, host_drawn, service_drawn}
use davy_jones.Layout.Spread.{Apart, positions-Apart}
use davy_jones.Layout.Links.{IsJustified, service_linked, host_linked, edges-IsJustified}

abbrev vpn_named : String → Vpn
vpn_named id = record {
  id = id;
  name = id;
  image = "img";
  container_name = id;
  command = "";
  remote_gateway = "gw";
  port = 10443;
  client_certificate = no_certificate;
  credential_id = none;
  project_id = none;
  shared_project_ids = none;
  idle_timeout_minutes = none;
}

abbrev host_named : String → Option String → Host
host_named id vpn = record {
  id = id;
  name = id;
  ip = "10.0.0.1";
  credential_id = "";
  vpn_id = vpn;
  port = none;
  project_id = none;
}

abbrev service_named : String → String → Service
service_named id host = record {
  id = id;
  name = id;
  kind = "Docker";
  host_id = host;
  project_id = none;
}

abbrev elsewhere : ServiceStatus
elsewhere = record {
  name = "s1";
  running = true;
  state = "ok";
  nodes = some ("n1" ∷ "n2" ∷ []);
  on_this_host = false;
  found = true;
}

abbrev pub scene : Scene ℕ
scene = record {
  vpns = vpn_named "v1" ∷ vpn_named "v2" ∷ [];
  hosts =
      host_named "h1" (some "v1")
      ∷ host_named "h2" (some "gone")
      ∷ host_named "h3" (some "v1")
      ∷ [];
  services = service_named "s1" "h1" ∷ service_named "s2" "h1" ∷ service_named "s3" "nowhere" ∷ [];
  ping_status = ("h1", online) ∷ ("h2", offline) ∷ [];
  metrics = ("h1", 7) ∷ [];
  service_status = ("s1", elsewhere) ∷ [];
  actions = no_actions;
}

-- what a run of the layout unfolds
layout : Unit {0}
unfolding build_graph_layout linked filed file_hosts attachment place_hosts place_vpns place_strays
    group_from push set service_node_id
layout = tt

-- the id and the place of each node
abbrev places : List (Node ℕ) → List (String × ℕ × ℕ)
places = map (λ n. (n.id, n.position.x, n.position.y))

abbrev labels : List Edge → List (String × Option String)
labels = map (λ e. (e.id, e.weak))

layout_places :
    places (build_graph_layout scene).nodes
    ≡ ("host-h1", 0, 220)
      ∷ ("service-s1", 0, 400)
      ∷ ("service-s2", 0, 510)
      ∷ ("host-h3", 260, 220)
      ∷ ("vpn-v1", 130, 40)
      ∷ ("vpn-v2", 520, 40)
      ∷ ("host-h2", 780, 220)
      ∷ ("service-s3", 1040, 400)
      ∷ []
unfolding layout
layout_places = refl

layout_edges :
    labels (build_graph_layout scene).edges
    ≡ ("e-host-h1-svc-s1", some "runs on n1, n2")
      ∷ ("e-host-h1-svc-s2", none)
      ∷ ("e-vpn-v1-host-h1", none)
      ∷ ("e-vpn-v1-host-h3", none)
      ∷ []
unfolding layout
layout_edges = refl

-- the host whose VPN is gone
host_drawn_example :
    Exists (DrawsHost scene (host_named "h2" (some "gone"))) (build_graph_layout scene).nodes
host_drawn_example = host_drawn scene (host_named "h2" (some "gone")) (Memᴰ.tail (Memᴰ.head refl))

-- the service whose host is gone
service_drawn_example : Exists (HasId scene (service_node_id "s3")) (build_graph_layout scene).nodes
service_drawn_example =
    service_drawn scene (service_named "s3" "nowhere") (Memᴰ.tail (Memᴰ.tail (Memᴰ.head refl)))

positions-Apart_example : Apart (build_graph_layout scene).nodes
positions-Apart_example = positions-Apart scene

abbrev web_edge : Edge
web_edge = service_edge scene (host_named "h1" (some "v1")) (service_named "s1" "h1")

service_linked_example :
    Memᴰ web_edge (build_graph_layout scene).edges
    × (web_edge.source ≡ host_node_id "h1")
    × (web_edge.target ≡ service_node_id "s1")
service_linked_example =
    service_linked scene (host_named "h1" (some "v1")) (service_named "s1" "h1") (Memᴰ.head refl)
      (Memᴰ.head refl) refl

abbrev tunnel_edge : Edge
tunnel_edge = vpn_edge scene (vpn_named "v1") (host_named "h3" (some "v1"))

host_linked_example :
    Memᴰ tunnel_edge (build_graph_layout scene).edges
    × (tunnel_edge.source ≡ vpn_node_id "v1")
    × (tunnel_edge.target ≡ host_node_id "h3")
host_linked_example =
    host_linked scene (host_named "h3" (some "v1")) (vpn_named "v1")
      (Memᴰ.tail (Memᴰ.tail (Memᴰ.head refl))) (Memᴰ.head refl) refl (λ e. cc)

edges-IsJustified_example : All (IsJustified scene) (build_graph_layout scene).edges
edges-IsJustified_example = edges-IsJustified scene

abbrev two_hosts : List ℕ
two_hosts =
    (place_hosts scene (host_named "h1" (some "v1") ∷ host_named "h3" (some "v1") ∷ [])
      (record (empty_canvas scene) { col = 3 })).1
