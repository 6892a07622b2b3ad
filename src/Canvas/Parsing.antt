-- ===== src/Canvas/Parsing.antt =====
-- `parseNodeId` on the ids that `buildGraphLayout` gives out.
use davy_jones.Prelude.{ℕ, String, Bool, false, ◌≡◌, refl, sym, ap, ◌∙◌, [], ◌∷◌, All, some}
use davy_jones.Prelude.Text.{concat, template, has_char, concat-nil}
use davy_jones.Prelude.Split.{split_first, join-split}
use davy_jones.Types.{Vpn, Host, Service}
use davy_jones.Layout.Model.{
  Position, Node, NodeData, vpn_data, host_data, service_data, Scene, vpn_node_id, host_node_id,
  service_node_id, service_node,
}
use davy_jones.Layout.Build.{build_graph_layout, host_node, vpn_node}
use davy_jones.Layout.Everywhere.{All-build_graph_layout}
use davy_jones.Canvas.Ids.{parts, parse_node_id, kind_name, selected_node_id}

-- An id behind a kind and a dash is found again, whatever dashes it holds.
parse_node_id-template :
    (kind id : String)
    → has_char kind b'-' ≡ false
    → parse_node_id (template (kind ∷ "-" ∷ id ∷ [])) ≡ (kind, id)
unfolding parse_node_id parts template concat
parse_node_id-template kind id h =
    rw (concat-nil id, split_first "-" kind id h, join-split "-" id) refl

-- the id of the resource that a node draws
abbrev pub resource_id : {M : Type 0} → NodeData M → String
resource_id (vpn_data v _) = v.id
resource_id (host_data h _ _ _ _) = h.id
resource_id (service_data s _ _ _ _) = s.id

-- The canvas reads the kind and the resource off the node's id, and back.
abbrev pub IsReadable : {M : Type 0} → Node M → Type 0
IsReadable n =
    (parse_node_id n.id ≡ (kind_name n.kind, resource_id n.info))
    × (selected_node_id (some (parse_node_id n.id)) ≡ some n.id)

readable :
    (kind id node_id : String)
    → has_char kind b'-' ≡ false
    → node_id ≡ template (kind ∷ "-" ∷ id ∷ [])
    → (parse_node_id node_id ≡ (kind, id))
      × (selected_node_id (some (parse_node_id node_id)) ≡ some node_id)
unfolding selected_node_id
readable kind id node_id h e =
    let read : parse_node_id node_id ≡ (kind, id) =
      ap parse_node_id e ∙ parse_node_id-template kind id h in
    (read, ap (λ r. selected_node_id (some r)) read ∙ ap some (sym e))

module _ {M : Type 0} (scene : Scene M) where
  vpn_node-IsReadable : (v : Vpn) (x : ℕ) → IsReadable (vpn_node scene v x)
  unfolding vpn_node vpn_node_id template concat kind_name has_char
  vpn_node-IsReadable v x = readable "vpn" v.id (vpn_node_id v.id) refl refl

  host_node-IsReadable : (h : Host) (x : ℕ) → IsReadable (host_node scene h x)
  unfolding host_node host_node_id template concat kind_name has_char
  host_node-IsReadable h x = readable "host" h.id (host_node_id h.id) refl refl

  service_node-IsReadable :
      (s : Service) (reachable detached : Bool) (p : Position)
      → IsReadable (service_node scene s reachable detached p)
  unfolding service_node service_node_id template concat kind_name has_char
  service_node-IsReadable s reachable detached p =
      readable "service" s.id (service_node_id s.id) refl refl

  -- For every node of the layout, `parseNodeId` gives the node's kind and the id of its resource, and a
  -- click on the node selects this node: the id of the selection is the node's.
  pub build_graph_layout-IsReadable : All IsReadable (build_graph_layout scene).nodes
  build_graph_layout-IsReadable =
      All-build_graph_layout scene IsReadable vpn_node-IsReadable host_node-IsReadable
        service_node-IsReadable
