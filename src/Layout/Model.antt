-- ===== src/Layout/Model.antt =====
-- src/components/Graph/layout.ts: the data of the automatic layout, and its tests on links. The
-- readings of a host are of a type `M` that the layout passes on without looking at it.
use davy_jones.Prelude.{
  ℕ, String, Bool, false, not, ◌&&◌, Option, none, some, List, [], ◌∷◌, ◌++◌, ◌==◌, if◌then◌else◌,
  any,
}
use davy_jones.Prelude.Dict.{Dict, get, push}
use davy_jones.Prelude.Text.{template, truthy, join}
use davy_jones.Types.{Vpn, Host, Service, ServiceStatus, PingStatus, NodeKind}
use davy_jones.NodeCommands.{NodeAction}

abbrev pub col_width : ℕ
col_width = 260

abbrev pub vpn_y : ℕ
vpn_y = 40

abbrev pub host_y : ℕ
host_y = 220

abbrev pub service_y : ℕ
service_y = 400

abbrev pub service_row_height : ℕ
service_row_height = 110

pub record NodeActionBuilders : Type 0 where
  pub vpn : Vpn → List NodeAction
  pub host : Host → List NodeAction
  pub service : Service → List NodeAction

abbrev pub no_actions : NodeActionBuilders
no_actions = record { vpn = λ _. []; host = λ _. []; service = λ _. [] }

-- the `data` of a node: `VpnNodeData`, `HostNodeData` (`pingStatus`, `metrics`, `actions`,
-- `detached`) and `ServiceNodeData` (`status`, `hostReachable`, `actions`, `detached`)
pub data NodeData (M : Type 0) : Type 0 where
  vpn_data : Vpn → List NodeAction → NodeData M
  host_data : Host → PingStatus → Option M → List NodeAction → Bool → NodeData M
  service_data : Service → Option ServiceStatus → Bool → List NodeAction → Bool → NodeData M

pub record Position : Type 0 where
  pub x : ℕ
  pub y : ℕ

pub record Node (M : Type 0) : Type 0 where
  pub id : String
  pub kind : NodeKind
  pub position : Position
  pub info : NodeData M

-- `weak` is the label of an edge that is drawn as provisional; `none` is a plain edge.
pub record Edge : Type 0 where
  pub id : String
  pub source : String
  pub target : String
  pub weak : Option String

-- the arguments of `buildGraphLayout`
pub record Scene (M : Type 0) : Type 0 where
  pub vpns : List Vpn
  pub hosts : List Host
  pub services : List Service
  pub ping_status : Dict PingStatus
  pub metrics : Dict M
  pub service_status : Dict ServiceStatus
  pub actions : NodeActionBuilders

-- the local variables that the loops change
pub record Canvas (M : Type 0) : Type 0 where
  pub nodes : List (Node M)
  pub edges : List Edge
  pub col : ℕ
  pub placed : List String

unfoldable pub vpn_node_id : String → String
unfolding template
vpn_node_id id = template ("vpn-" ∷ id ∷ [])

unfoldable pub host_node_id : String → String
unfolding template
host_node_id id = template ("host-" ∷ id ∷ [])

unfoldable pub service_node_id : String → String
unfolding template
service_node_id id = template ("service-" ∷ id ∷ [])

-- `vpnIds.has(id)`
unfoldable pub has_vpn : List Vpn → String → Bool
has_vpn vpns id = any (λ v. v.id == id) vpns

-- `h.vpnId && vpnIds.has(h.vpnId)`, with the id where it holds
unfoldable pub attachment : List Vpn → Host → Option String
unfolding has_vpn
attachment vpns h = elim h.vpn_id [
  | none ↦ none
  | some id ↦ if truthy (some id) && has_vpn vpns id then some id else none
]

-- `Boolean(host.vpnId) && !vpnIds.has(host.vpnId)`
unfoldable pub is_detached : List Vpn → Host → Bool
unfolding has_vpn
is_detached vpns h = elim h.vpn_id [
  | none ↦ false
  | some id ↦ truthy (some id) && not (has_vpn vpns id)
]

-- `hostsByVpn` and `looseHosts`, and the loop that fills them
pub record Filed : Type 0 where
  pub by_vpn : Dict (List Host)
  pub loose : List Host

unfoldable pub file_host : List Vpn → Filed → Host → Filed
file_host vpns f h = elim (attachment vpns h) [
  | none ↦ record f { loose = f.loose ++ h ∷ [] }
  | some id ↦ record f { by_vpn = push f.by_vpn id h }
]

unfoldable pub file_hosts : List Vpn → Filed → List Host → Filed
unfolding file_host
file_hosts vpns f [] = f
file_hosts vpns f (h ∷ hs) = file_hosts vpns (file_host vpns f h) hs

-- `status?.found === true && !status.onThisHost`
unfoldable pub runs_elsewhere : Option ServiceStatus → Bool
runs_elsewhere none = false
runs_elsewhere (some status) = status.found && not status.on_this_host

-- the label of a provisional edge
unfoldable pub elsewhere_label : Option ServiceStatus → String
unfolding template join
elsewhere_label none = "runs elsewhere"
elsewhere_label (some status) = elim status.nodes [
  | none ↦ "runs elsewhere"
  | some nodes ↦ elim nodes [
    | [] ↦ "runs elsewhere"
    | n ∷ ns ↦ template ("runs on " ∷ join ", " (n ∷ ns) ∷ [])
  ]
]

module _ {M : Type 0} where
  unfoldable pub service_node : Scene M → Service → Bool → Bool → Position → Node M
  service_node scene svc reachable detached position = record {
    id = service_node_id svc.id;
    kind = NodeKind.service;
    position = position;
    info =
        service_data svc (get scene.service_status svc.id) reachable (scene.actions.service svc)
          detached;
  }

  -- the edge from a host to its `svc`
  unfoldable pub service_edge : Scene M → Host → Service → Edge
  unfolding template runs_elsewhere elsewhere_label
  service_edge scene host svc =
      let status = get scene.service_status svc.id in
      record {
        id = template ("e-host-" ∷ host.id ∷ "-svc-" ∷ svc.id ∷ []);
        source = host_node_id host.id;
        target = service_node_id svc.id;
        weak = if runs_elsewhere status then some (elsewhere_label status) else none;
      }
