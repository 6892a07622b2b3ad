-- ===== src/Layout/Edges.antt =====
-- src/components/Graph/layout.ts: no edge dangles.
use mathlib.Core.List.{Memᴰ}
use mathlib.Core.List.Memᴰ
use davy_jones.Prelude.{
  ℕ, ◌+◌, ◌*◌, ◌≡◌, refl, sym, ap, List, [], ◌∷◌, ◌++◌, Exists, Exists-append_left,
  Exists-append_right, Exists-cons, All, All-append, All-imp, All-of_Memᴰ, All-map,
}
use davy_jones.Types.{Vpn, Host, Service}
use davy_jones.Layout.Model.{
  Node, Edge, Scene, col_width, service_node_id, host_node_id, service_node, service_edge,
}
use davy_jones.Layout.Build.{build_graph_layout, host_node, host_services, vpn_node, vpn_edge}
use davy_jones.Layout.Blocks.{stack, block, blocks, block_edges, blocks_edges}
use davy_jones.Layout.Filing.{hosts_of, loose_hosts}
use davy_jones.Layout.Rounds.{vpn_block, rounds, rounds_width, width, rounds_edges, vpn_block_edges}
use davy_jones.Layout.Whole.{nodes-build_graph_layout, edges-build_graph_layout}

module _ {M : Type 0} where
  -- Both ends of `e` are nodes of the list.
  abbrev pub Joins : List (Node M) → Edge → Type 0
  Joins ns e =
      Exists (λ (n : Node M). n.id ≡ e.source) ns × Exists (λ (n : Node M). n.id ≡ e.target) ns

  Joins-left :
      {ns : List (Node M)} (ms : List (Node M)) (e : Edge) → Joins ns e → Joins (ns ++ ms) e
  Joins-left ms e (s, t) = (Exists-append_left ms s, Exists-append_left ms t)

  Joins-right :
      (ms : List (Node M)) {ns : List (Node M)} (e : Edge) → Joins ns e → Joins (ms ++ ns) e
  Joins-right ms e (s, t) = (Exists-append_right ms s, Exists-append_right ms t)

module _ {M : Type 0} (scene : Scene M) where
  stack_has :
      (host : Host) (x i : ℕ) (s : Service) (svcs : List Service)
      → Memᴰ s svcs
      → Exists (λ (n : Node M). n.id ≡ service_node_id s.id) (stack scene host x i svcs)
  unfolding service_node
  stack_has host x i s [] m = absurd (Memᴰ.not-nil m)
  stack_has host x i s (t ∷ ts) (Memᴰ.head e) =
      (_, Memᴰ.head refl, ap (λ (u : Service). service_node_id u.id) (sym e))
  stack_has host x i s (t ∷ ts) (Memᴰ.tail m) = Exists-cons _ (stack_has host x (i + 1) s ts m)

  block_joined : (h : Host) (x : ℕ) → All (Joins (block scene h x)) (block_edges scene h)
  unfolding service_edge host_node
  block_joined h x = All-map _ (service_edge scene h) (host_services scene h) (
      All-of_Memᴰ (host_services scene h) λ s m.
        ((_, Memᴰ.head refl, refl), Exists-cons _ (stack_has h x 0 s (host_services scene h) m)))

  blocks_joined : (k : ℕ) (hs : List Host) → All (Joins (blocks scene k hs)) (blocks_edges scene hs)
  blocks_joined k [] = tt
  blocks_joined k (h ∷ hs) =
      All-append _ (block_edges scene h) _
        (All-imp (block_edges scene h) (Joins-left _) (block_joined h (k * col_width)))
        (All-imp (blocks_edges scene hs) (Joins-right (block scene h (k * col_width)))
          (blocks_joined (k + 1) hs))

  blocks_have :
      (k : ℕ) (h : Host) (hs : List Host)
      → Memᴰ h hs
      → Exists (λ (n : Node M). n.id ≡ host_node_id h.id) (blocks scene k hs)
  unfolding host_node
  blocks_have k h [] m = absurd (Memᴰ.not-nil m)
  blocks_have k h (g ∷ hs) (Memᴰ.head e) =
      (_, Memᴰ.head refl, ap (λ (u : Host). host_node_id u.id) (sym e))
  blocks_have k h (g ∷ hs) (Memᴰ.tail m) =
      Exists-append_right (block scene g (k * col_width)) (blocks_have (k + 1) h hs m)

  vpn_block_joined :
      (v : Vpn) (k : ℕ) (hs : List Host)
      → All (Joins (vpn_block scene v k hs)) (vpn_block_edges scene v hs)
  unfolding vpn_edge vpn_node
  vpn_block_joined v k [] = tt
  vpn_block_joined v k (h ∷ hs) =
      All-append _ (blocks_edges scene (h ∷ hs)) _
        (All-imp (blocks_edges scene (h ∷ hs)) (Joins-left _) (blocks_joined k (h ∷ hs)))
        (All-map _ (vpn_edge scene v) (h ∷ hs) (
          All-of_Memᴰ (h ∷ hs) λ g m. (
            Exists-append_right (blocks scene k (h ∷ hs)) (_, Memᴰ.head refl, refl),
            Exists-append_left _ (blocks_have k g (h ∷ hs) m),
          )))

  rounds_joined : (k : ℕ) (vs : List Vpn) → All (Joins (rounds scene k vs)) (rounds_edges scene vs)
  rounds_joined k [] = tt
  rounds_joined k (v ∷ vs) =
      let hs = hosts_of scene v.id in
      All-append _ (vpn_block_edges scene v hs) _
        (All-imp (vpn_block_edges scene v hs) (Joins-left _) (vpn_block_joined v k hs))
        (All-imp (rounds_edges scene vs) (Joins-right (vpn_block scene v k hs))
          (rounds_joined (k + width scene hs) vs))

  -- Both ends of every edge of the layout are nodes of the layout.
  pub edges_joined : All (Joins (build_graph_layout scene).nodes) (build_graph_layout scene).edges
  edges_joined =
      rw (nodes-build_graph_layout scene, edges-build_graph_layout scene)
        (All-imp _ (Joins-left _) (
          All-append _ (rounds_edges scene scene.vpns) _
            (All-imp (rounds_edges scene scene.vpns) (Joins-left _) (rounds_joined 0 scene.vpns))
            (All-imp (blocks_edges scene (loose_hosts scene))
              (Joins-right (rounds scene 0 scene.vpns))
              (blocks_joined (rounds_width scene scene.vpns) (loose_hosts scene)))))
