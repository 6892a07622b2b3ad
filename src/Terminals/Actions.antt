-- ===== src/Terminals/Actions.antt =====
-- `nodeActionBuilders` of src/components/Dashboard.tsx: the hover menus that the canvas is given.
use davy_jones.Prelude.{Bool, false, ◌≡◌, ap, List, [], ◌∷◌, All, if◌then◌else◌}
use davy_jones.Prelude.Dict.{Dict, get, set}
use davy_jones.Types.{Host}
use davy_jones.NodeCommands.{NodeAction, vpn_actions, host_actions, service_actions}
use davy_jones.Layout.Model.{
  NodeActionBuilders, no_actions, vpn_data, host_data, service_data, Node, Scene, service_node,
}
use davy_jones.Layout.Build.{build_graph_layout, host_node, vpn_node}
use davy_jones.Layout.Everywhere.{All-build_graph_layout}

unfoldable pub host_by_id_from : Dict Host → List Host → Dict Host
unfolding set
host_by_id_from m [] = m
host_by_id_from m (h ∷ hs) = host_by_id_from (set m h.id h) hs

-- `new Map(data.hosts.map((h) => [h.id, h]))`
unfoldable pub host_by_id : List Host → Dict Host
unfolding host_by_id_from
host_by_id hosts = host_by_id_from [] hosts

unfoldable pub node_action_builders : Bool → List Host → NodeActionBuilders
unfolding vpn_actions host_actions service_actions host_by_id get
node_action_builders can_write hosts =
    let by_id = host_by_id hosts in
    if can_write
    then record {
      vpn = vpn_actions;
      host = host_actions;
      service = λ s. service_actions s (get by_id s.host_id);
    }
    else no_actions

-- the buttons of a node
abbrev pub buttons : {M : Type 0} → Node M → List NodeAction
buttons n = elim n.info [
  | vpn_data _ actions ↦ actions
  | host_data _ _ _ actions _ ↦ actions
  | service_data _ _ _ actions _ ↦ actions
]

-- For an account that may not write, no node of the canvas has a button, so that none runs a command.
pub buttons-build_graph_layout :
    {M : Type 0} (scene : Scene M) (hosts : List Host)
    → scene.actions ≡ node_action_builders false hosts
    → All (λ n. buttons n ≡ []) (build_graph_layout scene).nodes
unfolding node_action_builders host_node vpn_node service_node
buttons-build_graph_layout scene hosts e =
    All-build_graph_layout scene (λ n. buttons n ≡ [])
      (λ v x. ap (λ (b : NodeActionBuilders). b.vpn v) e)
      (λ h x. ap (λ (b : NodeActionBuilders). b.host h) e)
      (λ s reachable detached p. ap (λ (b : NodeActionBuilders). b.service s) e)
