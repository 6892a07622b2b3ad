-- ===== src/Layout/Blocks.antt =====
-- src/components/Graph/layout.ts: what each loop of `buildGraphLayout` appends to the canvas, as a
-- plain list of nodes and of edges.
use mathlib.Core.List.{append-nil, append_assoc}
use davy_jones.Prelude.{
  ℕ, ◌+◌, ◌*◌, ◌≡◌, refl, sym, ap, ◌∙◌, Bool, false, ◌||◌, List, [], ◌∷◌, ◌++◌, map, ◌==◌, any,
  String, length, arith,
}
use davy_jones.Types.{Host, Service}
use davy_jones.Layout.Model.{
  Node, Edge, Scene, Canvas, service_y, service_row_height, col_width, service_node, service_edge,
}
use davy_jones.Layout.Build.{
  place_service, place_services, place_host, place_hosts, host_node, host_services, is_online,
}

module _ {M : Type 0} (scene : Scene M) where
  -- the services below one host
  abbrev pub stack : Host → ℕ → ℕ → List Service → List (Node M)
  stack host x i [] = []
  stack host x i (svc ∷ svcs) =
      service_node scene svc (is_online scene.ping_status host.id) false
        (record { x = x; y = service_y + i * service_row_height })
      ∷ stack host x (i + 1) svcs

  -- one host with its services
  abbrev pub block : Host → ℕ → List (Node M)
  block host x = host_node scene host x ∷ stack host x 0 (host_services scene host)

  -- hosts from column `k` on
  abbrev pub blocks : ℕ → List Host → List (Node M)
  blocks k [] = []
  blocks k (h ∷ hs) = block h (k * col_width) ++ blocks (k + 1) hs

  abbrev pub block_edges : Host → List Edge
  block_edges h = map (service_edge scene h) (host_services scene h)

  abbrev pub blocks_edges : List Host → List Edge
  blocks_edges [] = []
  blocks_edges (h ∷ hs) = block_edges h ++ blocks_edges hs

  abbrev pub columns : ℕ → List Host → List ℕ
  columns k [] = []
  columns k (h ∷ hs) = k * col_width ∷ columns (k + 1) hs

  -- the ids of services that `hs` draw, as the set that the code keeps
  abbrev pub draws : List Host → String → Bool
  draws [] id = false
  draws (h ∷ hs) id = any (λ (s : Service). s.id == id) (host_services scene h) || draws hs id

  module _ (host : Host) (x : ℕ) where
    pub nodes-place_services :
        (i : ℕ) (svcs : List Service) (c : Canvas M)
        → (place_services scene host x i svcs c).nodes ≡ c.nodes ++ stack host x i svcs
    unfolding place_services
    nodes-place_services i [] c = sym (append-nil _)
    nodes-place_services i (svc ∷ svcs) c =
        simp (nodes-place_services (i + 1) svcs (place_service scene host x i svc c), append_assoc)

    pub edges-place_services :
        (i : ℕ) (svcs : List Service) (c : Canvas M)
        → (place_services scene host x i svcs c).edges
          ≡ c.edges ++ map (service_edge scene host) svcs
    unfolding place_services
    edges-place_services i [] c = sym (append-nil _)
    edges-place_services i (svc ∷ svcs) c =
        simp (edges-place_services (i + 1) svcs (place_service scene host x i svc c), append_assoc)

    pub col-place_services :
        (i : ℕ) (svcs : List Service) (c : Canvas M)
        → (place_services scene host x i svcs c).col ≡ c.col
    unfolding place_services
    col-place_services i [] c = refl
    col-place_services i (svc ∷ svcs) c =
        col-place_services (i + 1) svcs (place_service scene host x i svc c)

    -- The set of drawn services grows by the ids of `svcs`.
    pub placed-place_services :
        (i : ℕ) (svcs : List Service) (c : Canvas M) (id : String)
        → any (λ j. j == id) (place_services scene host x i svcs c).placed
          ≡ (any (λ (s : Service). s.id == id) svcs || any (λ j. j == id) c.placed)
    unfolding place_services
    placed-place_services i [] c id = refl
    placed-place_services i (svc ∷ svcs) c id =
        ground (arith, placed-place_services (i + 1) svcs (place_service scene host x i svc c) id)

  module _ (host : Host) (c : Canvas M) where
    pub nodes-place_host :
        (place_host scene host c).0.nodes ≡ c.nodes ++ block host (c.col * col_width)
    unfolding place_host
    nodes-place_host = simp (nodes-place_services, append_assoc)

    pub edges-place_host : (place_host scene host c).0.edges ≡ c.edges ++ block_edges host
    unfolding place_host
    edges-place_host = simp edges-place_services

    pub col-place_host : (place_host scene host c).0.col ≡ c.col + 1
    unfolding place_host
    col-place_host = simp col-place_services

    pub placed-place_host :
        (id : String)
        → any (λ j. j == id) (place_host scene host c).0.placed ≡ (
            any (λ (s : Service). s.id == id) (host_services scene host)
            || any (λ j. j == id) c.placed)
    unfolding place_host
    placed-place_host id =
        placed-place_services host (c.col * col_width) 0 (host_services scene host) _ id

  pub nodes-place_hosts :
      (hs : List Host) (c : Canvas M)
      → (place_hosts scene hs c).0.nodes ≡ c.nodes ++ blocks c.col hs
  unfolding place_hosts
  nodes-place_hosts [] c = sym (append-nil _)
  nodes-place_hosts (h ∷ hs) c =
      nodes-place_hosts hs (place_host scene h c).0
      ∙ simp (nodes-place_host, col-place_host, append_assoc)

  pub edges-place_hosts :
      (hs : List Host) (c : Canvas M)
      → (place_hosts scene hs c).0.edges ≡ c.edges ++ blocks_edges hs
  unfolding place_hosts
  edges-place_hosts [] c = sym (append-nil _)
  edges-place_hosts (h ∷ hs) c =
      edges-place_hosts hs (place_host scene h c).0 ∙ simp (edges-place_host, append_assoc)

  pub col-place_hosts :
      (hs : List Host) (c : Canvas M) → (place_hosts scene hs c).0.col ≡ c.col + length hs
  unfolding place_hosts
  col-place_hosts [] c = omega arith
  col-place_hosts (h ∷ hs) c =
      omega (arith, col-place_hosts hs (place_host scene h c).0, col-place_host h c)

  pub columns-place_hosts :
      (hs : List Host) (c : Canvas M) → (place_hosts scene hs c).1 ≡ columns c.col hs
  unfolding place_hosts
  columns-place_hosts [] c = refl
  columns-place_hosts (h ∷ hs) c =
      ap (λ (xs : List ℕ). c.col * col_width ∷ xs)
        (columns-place_hosts hs (place_host scene h c).0 ∙ simp col-place_host)

  pub placed-place_hosts :
      (hs : List Host) (c : Canvas M) (id : String)
      → any (λ j. j == id) (place_hosts scene hs c).0.placed
        ≡ (draws hs id || any (λ j. j == id) c.placed)
  unfolding place_hosts
  placed-place_hosts [] c id = refl
  placed-place_hosts (h ∷ hs) c id =
      ground (arith, placed-place_hosts hs (place_host scene h c).0 id, placed-place_host h c id)
