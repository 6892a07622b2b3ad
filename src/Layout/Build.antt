-- ===== src/Layout/Build.antt =====
-- src/components/Graph/layout.ts: `buildGraphLayout`, loop by loop.
use mathlib.Core.List.{foldl}
use davy_jones.Prelude.{
  ℕ, ◌+◌, ◌*◌, ◌/◌, String, Bool, true, false, none, some, List, [], ◌∷◌, ◌++◌, map, ◌==◌,
  if◌then◌else◌, or_else, length, any,
}
use davy_jones.Prelude.Dict.{Dict, get, bucket, group_by}
use davy_jones.Prelude.Text.{template}
use davy_jones.Types.{Vpn, Host, Service, PingStatus, online, checking, NodeKind}
use davy_jones.Layout.Model.{
  col_width, vpn_y, host_y, service_y, service_row_height, vpn_data, host_data, Node, Edge, Scene,
  Canvas, vpn_node_id, host_node_id, is_detached, Filed, file_hosts, service_node, service_edge,
}

-- `pingStatus[host.id] === "online"`
unfoldable pub is_online : Dict PingStatus → String → Bool
unfolding get
is_online ping id = elim (get ping id) [ some online ↦ true | _ ↦ false ]

-- `reduce((a, b) => a + b, 0)`
unfoldable pub sum : List ℕ → ℕ
sum xs = foldl (λ a b. a + b) 0 xs

module _ {M : Type 0} (scene : Scene M) where
  -- one round of `hostServices.forEach`
  unfoldable pub place_service : Host → ℕ → ℕ → Service → Canvas M → Canvas M
  unfolding is_online service_node service_edge
  place_service host x i svc c = record c {
    placed = svc.id ∷ c.placed;
    nodes =
        c.nodes
        ++ service_node scene svc (is_online scene.ping_status host.id) false
            (record { x = x; y = service_y + i * service_row_height })
          ∷ [];
    edges = c.edges ++ service_edge scene host svc ∷ [];
  }

  unfoldable pub place_services : Host → ℕ → ℕ → List Service → Canvas M → Canvas M
  unfolding place_service
  place_services host x i [] c = c
  place_services host x i (svc ∷ svcs) c =
      place_services host x (i + 1) svcs (place_service host x i svc c)

  unfoldable pub host_node : Host → ℕ → Node M
  unfolding get is_detached host_node_id
  host_node host x = record {
    id = host_node_id host.id;
    kind = NodeKind.host;
    position = record { x = x; y = host_y };
    info =
        host_data host (or_else (get scene.ping_status host.id) checking)
          (get scene.metrics host.id) (scene.actions.host host) (is_detached scene.vpns host);
  }

  -- `servicesByHost.get(host.id) ?? []`
  unfoldable pub host_services : Host → List Service
  unfolding get group_by
  host_services host = bucket (group_by (λ (s : Service). s.host_id) scene.services) host.id

  -- `placeHost`, which returns the column's `x`
  unfoldable pub place_host : Host → Canvas M → Canvas M × ℕ
  unfolding place_services host_node host_services
  place_host host c =
      let x = c.col * col_width in
      let drawn = record c { nodes = c.nodes ++ host_node host x ∷ [] } in
      let filled = place_services host x 0 (host_services host) drawn in
      (record filled { col = filled.col + 1 }, x)

  -- `vpnHosts.map(placeHost)`
  unfoldable pub place_hosts : List Host → Canvas M → Canvas M × List ℕ
  unfolding place_host
  place_hosts [] c = (c, [])
  place_hosts (h ∷ hs) c =
      let (c', x) = place_host h c in let (d, xs) = place_hosts hs c' in (d, x ∷ xs)

  unfoldable pub vpn_node : Vpn → ℕ → Node M
  unfolding vpn_node_id
  vpn_node vpn x = record {
    id = vpn_node_id vpn.id;
    kind = NodeKind.vpn;
    position = record { x = x; y = vpn_y };
    info = vpn_data vpn (scene.actions.vpn vpn);
  }

  unfoldable pub vpn_edge : Vpn → Host → Edge
  unfolding template vpn_node_id host_node_id
  vpn_edge vpn h = record {
    id = template ("e-vpn-" ∷ vpn.id ∷ "-host-" ∷ h.id ∷ []);
    source = vpn_node_id vpn.id;
    target = host_node_id h.id;
    weak = none;
  }

  -- A VPN with no host takes a column of its own.
  unfoldable pub place_lone_vpn : Vpn → Canvas M → Canvas M
  unfolding vpn_node
  place_lone_vpn vpn c = record c {
    nodes = c.nodes ++ vpn_node vpn (c.col * col_width) ∷ [];
    col = c.col + 1;
  }

  -- A VPN with hosts stands above the middle of their columns.
  unfoldable pub place_vpn_hosts : Vpn → List Host → Canvas M → Canvas M
  unfolding vpn_node vpn_edge sum
  place_vpn_hosts vpn hosts c =
      let (d, xs) = place_hosts hosts c in
      let center = sum xs / length xs in
      record d {
        nodes = d.nodes ++ vpn_node vpn center ∷ [];
        edges = d.edges ++ map (vpn_edge vpn) hosts;
      }

  -- one round of the loop over the VPNs
  unfoldable pub place_vpn : Vpn → List Host → Canvas M → Canvas M
  unfolding place_lone_vpn place_vpn_hosts
  place_vpn vpn [] c = place_lone_vpn vpn c
  place_vpn vpn (h ∷ hs) c = place_vpn_hosts vpn (h ∷ hs) c

  -- `hostsByVpn.get(vpn.id) ?? []` for each VPN
  unfoldable pub place_vpns : Dict (List Host) → List Vpn → Canvas M → Canvas M
  unfolding place_vpn get
  place_vpns by_vpn [] c = c
  place_vpns by_vpn (v ∷ vs) c = place_vpns by_vpn vs (place_vpn v (bucket by_vpn v.id) c)

  -- The trailing column: services that no host has drawn.
  unfoldable pub place_strays : ℕ → ℕ → List Service → Canvas M → Canvas M
  unfolding service_node
  place_strays x row [] c = c
  place_strays x row (svc ∷ svcs) c =
      let skip = place_strays x row svcs c in
      let drawn = place_strays x (row + 1) svcs (record c {
        nodes =
            c.nodes
            ++ service_node scene svc false true
                (record { x = x; y = service_y + row * service_row_height })
              ∷ [];
      }) in
      if any (λ id. id == svc.id) c.placed then skip else drawn

  abbrev pub empty_canvas : Canvas M
  empty_canvas = record { nodes = []; edges = []; col = 0; placed = [] }

  unfoldable pub filed : Filed
  unfolding file_hosts
  filed = file_hosts scene.vpns (record { by_vpn = []; loose = [] }) scene.hosts

  -- the canvas before the last loop
  unfoldable pub linked : Canvas M
  linked = (place_hosts filed.loose (place_vpns filed.by_vpn scene.vpns empty_canvas)).0

  unfoldable pub build_graph_layout : Canvas M
  build_graph_layout = place_strays (linked.col * col_width) 0 scene.services linked
