-- ===== src/Layout/Rounds.antt =====
-- src/components/Graph/layout.ts: the nodes and edges of a whole layout as plain lists.
use mathlib.Core.List.{append-nil, append_assoc}
use davy_jones.Prelude.{
  ℕ, ◌+◌, ◌*◌, ◌/◌, ◌≡◌, refl, sym, ◌∙◌, Bool, ◌||◌, List, [], ◌∷◌, ◌++◌, map, ◌==◌, any, false,
  String, length, arith,
}
use davy_jones.Prelude.Dict.{Dict, bucket}
use davy_jones.Types.{Vpn, Host}
use davy_jones.Layout.Model.{Node, Edge, Scene, Canvas, col_width}
use davy_jones.Layout.Build.{place_vpn, place_vpns, vpn_node, vpn_edge, sum}
use davy_jones.Layout.Blocks.{
  blocks, blocks_edges, columns, draws, nodes-place_hosts, edges-place_hosts, col-place_hosts,
  columns-place_hosts, placed-place_hosts,
}
use davy_jones.Layout.Filing.{hosts_of}

module _ {M : Type 0} (scene : Scene M) where
  -- a VPN with its hosts, from column `k` on
  abbrev pub vpn_block : Vpn → ℕ → List Host → List (Node M)
  vpn_block v k [] = vpn_node scene v (k * col_width) ∷ []
  vpn_block v k (h ∷ hs) =
      blocks scene k (h ∷ hs)
      ++ vpn_node scene v (sum (columns scene k (h ∷ hs)) / length (columns scene k (h ∷ hs))) ∷ []

  abbrev pub vpn_block_edges : Vpn → List Host → List Edge
  vpn_block_edges v [] = []
  vpn_block_edges v (h ∷ hs) = blocks_edges scene (h ∷ hs) ++ map (vpn_edge scene v) (h ∷ hs)

  -- the columns that a VPN takes
  abbrev pub width : List Host → ℕ
  width [] = 1
  width (h ∷ hs) = length (h ∷ hs)

  module _ (v : Vpn) where
    nodes-place_vpn :
        (hs : List Host) (c : Canvas M)
        → (place_vpn scene v hs c).nodes ≡ c.nodes ++ vpn_block v c.col hs
    unfolding place_vpn
    nodes-place_vpn [] c = refl
    nodes-place_vpn (h ∷ hs) c =
        rw (nodes-place_hosts scene (h ∷ hs) c, columns-place_hosts scene (h ∷ hs) c)
          (append_assoc c.nodes (blocks scene c.col (h ∷ hs)) _)

    edges-place_vpn :
        (hs : List Host) (c : Canvas M)
        → (place_vpn scene v hs c).edges ≡ c.edges ++ vpn_block_edges v hs
    unfolding place_vpn
    edges-place_vpn [] c = sym (append-nil _)
    edges-place_vpn (h ∷ hs) c = simp (edges-place_hosts scene (h ∷ hs) c, append_assoc)

    col-place_vpn :
        (hs : List Host) (c : Canvas M) → (place_vpn scene v hs c).col ≡ c.col + width hs
    unfolding place_vpn
    col-place_vpn [] c = refl
    col-place_vpn (h ∷ hs) c = col-place_hosts scene (h ∷ hs) c

    placed-place_vpn :
        (hs : List Host) (c : Canvas M) (id : String)
        → any (λ j. j == id) (place_vpn scene v hs c).placed
          ≡ (draws scene hs id || any (λ j. j == id) c.placed)
    unfolding place_vpn
    placed-place_vpn [] c id = refl
    placed-place_vpn (h ∷ hs) c id = placed-place_hosts scene (h ∷ hs) c id

  -- the whole of the loop over the VPNs
  abbrev pub rounds : ℕ → List Vpn → List (Node M)
  rounds k [] = []
  rounds k (v ∷ vs) =
      vpn_block v k (hosts_of scene v.id) ++ rounds (k + width (hosts_of scene v.id)) vs

  abbrev pub rounds_edges : List Vpn → List Edge
  rounds_edges [] = []
  rounds_edges (v ∷ vs) = vpn_block_edges v (hosts_of scene v.id) ++ rounds_edges vs

  abbrev pub rounds_width : List Vpn → ℕ
  rounds_width [] = 0
  rounds_width (v ∷ vs) = width (hosts_of scene v.id) + rounds_width vs

  abbrev pub rounds_draw : List Vpn → String → Bool
  rounds_draw [] id = false
  rounds_draw (v ∷ vs) id = draws scene (hosts_of scene v.id) id || rounds_draw vs id

  module _ (by_vpn : Dict (List Host))
      (same : (id : String) → bucket by_vpn id ≡ hosts_of scene id) where
    pub nodes-place_vpns :
        (vs : List Vpn) (c : Canvas M)
        → (place_vpns scene by_vpn vs c).nodes ≡ c.nodes ++ rounds c.col vs
    unfolding place_vpns
    nodes-place_vpns [] c = sym (append-nil _)
    nodes-place_vpns (v ∷ vs) c =
        nodes-place_vpns vs (place_vpn scene v (bucket by_vpn v.id) c)
        ∙ rw (same v.id) (simp (nodes-place_vpn, col-place_vpn, append_assoc))

    pub edges-place_vpns :
        (vs : List Vpn) (c : Canvas M)
        → (place_vpns scene by_vpn vs c).edges ≡ c.edges ++ rounds_edges vs
    unfolding place_vpns
    edges-place_vpns [] c = sym (append-nil _)
    edges-place_vpns (v ∷ vs) c =
        edges-place_vpns vs (place_vpn scene v (bucket by_vpn v.id) c)
        ∙ rw (same v.id) (simp (edges-place_vpn, append_assoc))

    pub col-place_vpns :
        (vs : List Vpn) (c : Canvas M)
        → (place_vpns scene by_vpn vs c).col ≡ c.col + rounds_width vs
    unfolding place_vpns
    col-place_vpns [] c = omega arith
    col-place_vpns (v ∷ vs) c =
        col-place_vpns vs (place_vpn scene v (bucket by_vpn v.id) c)
        ∙ rw (same v.id) (omega (arith, col-place_vpn v (hosts_of scene v.id) c))

    pub placed-place_vpns :
        (vs : List Vpn) (c : Canvas M) (id : String)
        → any (λ j. j == id) (place_vpns scene by_vpn vs c).placed
          ≡ (rounds_draw vs id || any (λ j. j == id) c.placed)
    unfolding place_vpns
    placed-place_vpns [] c id = refl
    placed-place_vpns (v ∷ vs) c id =
        placed-place_vpns vs (place_vpn scene v (bucket by_vpn v.id) c) id
        ∙ rw (same v.id) (ground (arith, placed-place_vpn v (hosts_of scene v.id) c id))
