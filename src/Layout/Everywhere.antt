-- ===== src/Layout/Everywhere.antt =====
-- src/components/Graph/layout.ts: a property of every node that the code makes, on the whole layout.
use davy_jones.Prelude.{
  ℕ, ◌+◌, ◌*◌, String, Bool, true, false, List, [], ◌∷◌, ◌++◌, All, All-append, Bool-cases, inl,
  inr,
}
use davy_jones.Types.{Vpn, Host, Service}
use davy_jones.Layout.Model.{Position, Node, Scene, col_width, service_node}
use davy_jones.Layout.Build.{build_graph_layout, host_node, host_services, vpn_node}
use davy_jones.Layout.Blocks.{stack, block, blocks}
use davy_jones.Layout.Filing.{hosts_of, loose_hosts}
use davy_jones.Layout.Rounds.{vpn_block, rounds, rounds_width, width}
use davy_jones.Layout.Whole.{strays, drawn_below, total_width, nodes-build_graph_layout}

module _ {M : Type 0} (scene : Scene M) (Q : Node M → Type 0)
    (on_vpn : (v : Vpn) (x : ℕ) → Q (vpn_node scene v x))
    (on_host : (h : Host) (x : ℕ) → Q (host_node scene h x))
    (on_service : (s : Service) (reachable detached : Bool) (p : Position)
      → Q (service_node scene s reachable detached p)) where
  All-stack : (h : Host) (x i : ℕ) (ss : List Service) → All Q (stack scene h x i ss)
  All-stack h x i [] = tt
  All-stack h x i (s ∷ ss) = (on_service s _ _ _, All-stack h x (i + 1) ss)

  All-block : (h : Host) (x : ℕ) → All Q (block scene h x)
  All-block h x = (on_host h x, All-stack h x 0 (host_services scene h))

  All-blocks : (k : ℕ) (hs : List Host) → All Q (blocks scene k hs)
  All-blocks k [] = tt
  All-blocks k (h ∷ hs) =
      All-append Q (block scene h (k * col_width)) _ (All-block h (k * col_width))
        (All-blocks (k + 1) hs)

  All-vpn_block : (v : Vpn) (k : ℕ) (hs : List Host) → All Q (vpn_block scene v k hs)
  All-vpn_block v k [] = (on_vpn v _, tt)
  All-vpn_block v k (h ∷ hs) =
      All-append Q (blocks scene k (h ∷ hs)) _ (All-blocks k (h ∷ hs)) (on_vpn v _, tt)

  All-rounds : (k : ℕ) (vs : List Vpn) → All Q (rounds scene k vs)
  All-rounds k [] = tt
  All-rounds k (v ∷ vs) =
      All-append Q (vpn_block scene v k (hosts_of scene v.id)) _
        (All-vpn_block v k (hosts_of scene v.id))
        (All-rounds (k + width scene (hosts_of scene v.id)) vs)

  All-strays :
      (drawn : String → Bool) (x row : ℕ) (ss : List Service) → All Q (strays scene drawn x row ss)
  All-strays drawn x row [] = tt
  All-strays drawn x row (s ∷ ss) = elim (Bool-cases (drawn s.id)) [
    | inl e ↦ rw e (All-strays drawn x row ss)
    | inr e ↦ rw e (on_service s false true _, All-strays drawn x (row + 1) ss)
  ]

  -- What holds of every node that the code can make holds of all nodes of the layout.
  pub All-build_graph_layout : All Q (build_graph_layout scene).nodes
  All-build_graph_layout = rw (nodes-build_graph_layout scene) (
      All-append Q
        (rounds scene 0 scene.vpns
          ++ blocks scene (rounds_width scene scene.vpns) (loose_hosts scene))
        _
        (All-append Q (rounds scene 0 scene.vpns) _ (All-rounds 0 scene.vpns)
          (All-blocks (rounds_width scene scene.vpns) (loose_hosts scene)))
        (All-strays (drawn_below scene) (total_width scene * col_width) 0 scene.services))
