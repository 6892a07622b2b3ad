-- ===== src/Layout/Whole.antt =====
-- src/components/Graph/layout.ts: the result of `buildGraphLayout` as three runs of nodes (the VPNs
-- with their hosts, the loose hosts, the stray services) and two runs of edges.
use mathlib.Core.List.{append-nil, append_assoc}
use davy_jones.Prelude.{
  ℕ, ◌+◌, ◌*◌, ◌≡◌, refl, sym, ◌∙◌, Bool, true, false, ◌||◌, List, [], ◌∷◌, ◌++◌, ◌==◌, any, String,
  length, arith, if◌then◌else◌, Bool-cases, inl, inr, fun_ext,
}
use davy_jones.Types.{Service}
use davy_jones.Layout.Model.{
  Node, Scene, Canvas, service_y, service_row_height, col_width, service_node,
}
use davy_jones.Layout.Build.{
  place_vpns, place_strays, linked, build_graph_layout, empty_canvas, filed,
}
use davy_jones.Layout.Blocks.{
  blocks, blocks_edges, draws, nodes-place_hosts, edges-place_hosts, col-place_hosts,
  placed-place_hosts,
}
use davy_jones.Layout.Filing.{loose_hosts, loose-filed, by_vpn-filed}
use davy_jones.Layout.Rounds.{
  rounds, rounds_edges, rounds_width, rounds_draw, nodes-place_vpns, edges-place_vpns,
  col-place_vpns, placed-place_vpns,
}

module _ {M : Type 0} (scene : Scene M) where
  -- the trailing column, for services that `drawn` does not have
  abbrev pub strays : (String → Bool) → ℕ → ℕ → List Service → List (Node M)
  strays drawn x row [] = []
  strays drawn x row (svc ∷ svcs) =
      let skip = strays drawn x row svcs in
      let more =
        service_node scene svc false true
          (record { x = x; y = service_y + row * service_row_height })
        ∷ strays drawn x (row + 1) svcs in
      if drawn svc.id then skip else more

  nodes-place_strays :
      (x row : ℕ) (svcs : List Service) (c : Canvas M)
      → (place_strays scene x row svcs c).nodes
        ≡ c.nodes ++ strays (λ id. any (λ j. j == id) c.placed) x row svcs
  unfolding place_strays
  nodes-place_strays x row [] c = sym (append-nil _)
  nodes-place_strays x row (svc ∷ svcs) c = elim (Bool-cases (any (λ j. j == svc.id) c.placed)) [
    | inl e ↦ rw e (nodes-place_strays x row svcs c)
    | inr e ↦ rw e (nodes-place_strays x (row + 1) svcs _ ∙ append_assoc c.nodes _ _)
  ]

  edges-place_strays :
      (x row : ℕ) (svcs : List Service) (c : Canvas M)
      → (place_strays scene x row svcs c).edges ≡ c.edges
  unfolding place_strays
  edges-place_strays x row [] c = refl
  edges-place_strays x row (svc ∷ svcs) c = elim (Bool-cases (any (λ j. j == svc.id) c.placed)) [
    | inl e ↦ rw e (edges-place_strays x row svcs c)
    | inr e ↦ rw e (edges-place_strays x (row + 1) svcs _)
  ]

  -- the number of columns in use before the trailing one
  abbrev pub total_width : ℕ
  total_width = rounds_width scene scene.vpns + length (loose_hosts scene)

  -- A service with this id is drawn below a host.
  abbrev pub drawn_below : String → Bool
  drawn_below id = draws scene (loose_hosts scene) id || rounds_draw scene scene.vpns id

  -- the canvas after the loop over the VPNs
  abbrev after_vpns : Canvas M
  after_vpns = place_vpns scene (filed scene).by_vpn scene.vpns (empty_canvas scene)

  nodes-after_vpns : after_vpns.nodes ≡ rounds scene 0 scene.vpns
  nodes-after_vpns = nodes-place_vpns scene _ (by_vpn-filed scene) scene.vpns (empty_canvas scene)

  edges-after_vpns : after_vpns.edges ≡ rounds_edges scene scene.vpns
  edges-after_vpns = edges-place_vpns scene _ (by_vpn-filed scene) scene.vpns (empty_canvas scene)

  col-after_vpns : after_vpns.col ≡ rounds_width scene scene.vpns
  col-after_vpns =
      omega (arith, col-place_vpns scene _ (by_vpn-filed scene) scene.vpns (empty_canvas scene))

  nodes-linked :
      (linked scene).nodes
      ≡ rounds scene 0 scene.vpns
        ++ blocks scene (rounds_width scene scene.vpns) (loose_hosts scene)
  unfolding linked
  nodes-linked =
      nodes-place_hosts scene (filed scene).loose after_vpns
      ∙ rw (loose-filed scene, nodes-after_vpns, col-after_vpns)

  edges-linked :
      (linked scene).edges ≡ rounds_edges scene scene.vpns ++ blocks_edges scene (loose_hosts scene)
  unfolding linked
  edges-linked =
      edges-place_hosts scene (filed scene).loose after_vpns
      ∙ rw (loose-filed scene, edges-after_vpns)

  col-linked : (linked scene).col ≡ total_width
  unfolding linked
  col-linked =
      col-place_hosts scene (filed scene).loose after_vpns ∙ rw (loose-filed scene, col-after_vpns)

  placed-linked : (id : String) → any (λ j. j == id) (linked scene).placed ≡ drawn_below id
  unfolding linked
  placed-linked id =
      placed-place_hosts scene (filed scene).loose after_vpns id
      ∙ rw
          (
            loose-filed scene,
            placed-place_vpns scene _ (by_vpn-filed scene) scene.vpns (empty_canvas scene) id,
          )
          (ground arith)

  -- the nodes of the finished layout
  pub nodes-build_graph_layout :
      (build_graph_layout scene).nodes
      ≡ (rounds scene 0 scene.vpns
          ++ blocks scene (rounds_width scene scene.vpns) (loose_hosts scene))
        ++ strays drawn_below (total_width * col_width) 0 scene.services
  unfolding build_graph_layout
  nodes-build_graph_layout =
      nodes-place_strays _ 0 scene.services (linked scene)
      ∙ rw (nodes-linked, col-linked, fun_ext placed-linked)

  -- the edges of the finished layout
  pub edges-build_graph_layout :
      (build_graph_layout scene).edges
      ≡ rounds_edges scene scene.vpns ++ blocks_edges scene (loose_hosts scene)
  unfolding build_graph_layout
  edges-build_graph_layout = edges-place_strays _ 0 scene.services (linked scene) ∙ edges-linked
