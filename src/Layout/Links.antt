-- ===== src/Layout/Links.antt =====
-- src/components/Graph/layout.ts: which edges a layout has.
use mathlib.Core.List.{Memᴰ}
use mathlib.Core.List.Memᴰ
use davy_jones.Prelude.{
  ◌≡◌, refl, sym, ap, ◌∙◌, true, some, List, [], ◌∷◌, ◌==◌, String, All, All-append, All-imp,
  All-of_Memᴰ, All-map, Memᴰ-filter, mem-filter, eq_iff, eq_refl, any, any_of_Memᴰ, ◌≢◌, ◌⊎◌, inl,
  inr, Option-cases, arith,
}
use davy_jones.Prelude.Dict.{bucket-group_by}
use davy_jones.Types.{Vpn, Host, Service}
use davy_jones.Layout.Model.{
  Edge, Scene, attachment, has_vpn, service_edge, vpn_node_id, host_node_id, service_node_id,
}
use davy_jones.Layout.Build.{build_graph_layout, host_services, vpn_edge}
use davy_jones.Layout.Blocks.{block_edges, blocks_edges}
use davy_jones.Layout.Filing.{hosts_of, loose_hosts, attached_to, is_loose}
use davy_jones.Layout.Rounds.{rounds_edges, vpn_block_edges}
use davy_jones.Layout.Whole.{edges-build_graph_layout}
use davy_jones.Layout.Complete.{attachment_sound}

module _ {M : Type 0} (scene : Scene M) where
  service_of :
      (h : Host) (s : Service)
      → Memᴰ s scene.services
      → s.host_id ≡ h.id
      → Memᴰ s (host_services scene h)
  unfolding host_services
  service_of h s m e =
      rw (bucket-group_by (λ (t : Service). t.host_id) scene.services h.id)
        (mem-filter (λ (t : Service). t.host_id == h.id) scene.services m (rw e (eq_refl h.id)))

  of_service :
      (h : Host) (s : Service)
      → Memᴰ s (host_services scene h)
      → Memᴰ s scene.services × (s.host_id ≡ h.id)
  unfolding host_services
  of_service h s m =
      let (there, fits) =
        Memᴰ-filter (λ (t : Service). t.host_id == h.id) scene.services
          (rw (bucket-group_by (λ (t : Service). t.host_id) scene.services h.id) at m) in
      (there, (eq_iff s.host_id h.id).0 fits)

  blocks_link :
      (h : Host) (s : Service) (hs : List Host)
      → Memᴰ h hs
      → Memᴰ s (host_services scene h)
      → Memᴰ (service_edge scene h s) (blocks_edges scene hs)
  blocks_link h s [] m n = absurd (Memᴰ.not-nil m)
  blocks_link h s (g ∷ hs) (Memᴰ.head e) n =
      rw (sym e) (Memᴰ.append_left _ (Memᴰ.map (service_edge scene h) n))
  blocks_link h s (g ∷ hs) (Memᴰ.tail m) n =
      Memᴰ.append_right (block_edges scene g) (blocks_link h s hs m n)

  vpn_block_link :
      (v : Vpn) (h : Host) (s : Service) (hs : List Host)
      → Memᴰ h hs
      → Memᴰ s (host_services scene h)
      → Memᴰ (service_edge scene h s) (vpn_block_edges scene v hs)
  vpn_block_link v h s [] m n = absurd (Memᴰ.not-nil m)
  vpn_block_link v h s (g ∷ hs) m n = Memᴰ.append_left _ (blocks_link h s (g ∷ hs) m n)

  vpn_block_edge :
      (v : Vpn) (h : Host) (hs : List Host)
      → Memᴰ h hs
      → Memᴰ (vpn_edge scene v h) (vpn_block_edges scene v hs)
  vpn_block_edge v h [] m = absurd (Memᴰ.not-nil m)
  vpn_block_edge v h (g ∷ hs) m =
      Memᴰ.append_right (blocks_edges scene (g ∷ hs)) (Memᴰ.map (vpn_edge scene v) m)

  -- what the block of one of the VPNs has, the whole loop has
  rounds_link :
      (e : Edge) (v : Vpn) (vs : List Vpn)
      → Memᴰ v vs
      → Memᴰ e (vpn_block_edges scene v (hosts_of scene v.id))
      → Memᴰ e (rounds_edges scene vs)
  rounds_link e v [] m n = absurd (Memᴰ.not-nil m)
  rounds_link e v (w ∷ vs) (Memᴰ.head q) n = rw (sym q) (Memᴰ.append_left _ n)
  rounds_link e v (w ∷ vs) (Memᴰ.tail m) n =
      Memᴰ.append_right (vpn_block_edges scene w (hosts_of scene w.id)) (rounds_link e v vs m n)

  host_of :
      (h : Host) (v : Vpn)
      → Memᴰ h scene.hosts
      → attachment scene.vpns h ≡ some v.id
      → Memᴰ h (hosts_of scene v.id)
  host_of h v m e =
      mem-filter (attached_to scene.vpns v.id) scene.hosts m (rw (e, attached_to) (eq_refl v.id))

  service_edge_ends :
      (h : Host) (s : Service)
      → ((service_edge scene h s).source ≡ host_node_id h.id)
        × ((service_edge scene h s).target ≡ service_node_id s.id)
  unfolding service_edge
  service_edge_ends h s = (refl, refl)

  vpn_edge_ends :
      (v : Vpn) (h : Host)
      → ((vpn_edge scene v h).source ≡ vpn_node_id v.id)
        × ((vpn_edge scene v h).target ≡ host_node_id h.id)
  unfolding vpn_edge
  vpn_edge_ends v h = (refl, refl)

  service_joined :
      (h : Host) (s : Service)
      → Memᴰ h scene.hosts
      → Memᴰ s scene.services
      → s.host_id ≡ h.id
      → Memᴰ (service_edge scene h s) (build_graph_layout scene).edges
  service_joined h s m n e =
      let below = service_of h s n e in
      rw (edges-build_graph_layout scene) (elim (Option-cases (attachment scene.vpns h)) [
        | inl q ↦ Memᴰ.append_right (rounds_edges scene scene.vpns) (
            blocks_link h s (loose_hosts scene)
              (mem-filter (is_loose scene.vpns) scene.hosts m (rw (q, is_loose) refl)) below)
        | inr (id, q) ↦
            let (v, there, same) = attachment_sound scene.vpns h id q in
            Memᴰ.append_left _ (
              rounds_link _ v scene.vpns there (
                vpn_block_link v h s (hosts_of scene v.id) (host_of h v m (q ∙ ap some (sym same)))
                  below))
      ])

  -- Every service whose host is on the canvas is joined to it by its edge, weak or not: the edge
  -- never disappears, and it goes from the host's node to the service's.
  pub service_linked :
      (h : Host) (s : Service)
      → Memᴰ h scene.hosts
      → Memᴰ s scene.services
      → s.host_id ≡ h.id
      → Memᴰ (service_edge scene h s) (build_graph_layout scene).edges
        × ((service_edge scene h s).source ≡ host_node_id h.id)
        × ((service_edge scene h s).target ≡ service_node_id s.id)
  service_linked h s m n e =
      let (from, to) = service_edge_ends h s in (service_joined h s m n e, from, to)

  -- a host that names a VPN of the list is filed under it
  attachment_complete :
      (h : Host) (v : Vpn)
      → Memᴰ v scene.vpns
      → h.vpn_id ≡ some v.id
      → v.id ≢ ""
      → attachment scene.vpns h ≡ some v.id
  unfolding attachment has_vpn
  attachment_complete h v m e named =
      let there : any (λ (w : Vpn). w.id == v.id) scene.vpns ≡ true =
        any_of_Memᴰ (λ (w : Vpn). w.id == v.id) scene.vpns m (eq_refl v.id) in
      rw (e, there) (ground (arith, eq_iff v.id "", named))

  -- and a host that is filed under an id names it
  attachment_names :
      (h : Host) (id : String) → attachment scene.vpns h ≡ some id → h.vpn_id ≡ some id
  unfolding attachment
  attachment_names h id e = elim (Option-cases h.vpn_id) [ inl q ↦ cc | inr (j, q) ↦ ground arith ]

  -- Every host that names a VPN of the canvas, by an id that is not empty, is joined to it, by an edge
  -- from the VPN's node to the host's.
  pub host_linked :
      (h : Host) (v : Vpn)
      → Memᴰ h scene.hosts
      → Memᴰ v scene.vpns
      → h.vpn_id ≡ some v.id
      → v.id ≢ ""
      → Memᴰ (vpn_edge scene v h) (build_graph_layout scene).edges
        × ((vpn_edge scene v h).source ≡ vpn_node_id v.id)
        × ((vpn_edge scene v h).target ≡ host_node_id h.id)
  host_linked h v m n e named =
      let filed = host_of h v m (attachment_complete h v n e named) in
      let drawn = rounds_link _ v scene.vpns n (vpn_block_edge v h (hosts_of scene v.id) filed) in
      let (from, to) = vpn_edge_ends v h in
      (rw (edges-build_graph_layout scene) (Memᴰ.append_left _ drawn), from, to)

  -- An edge that a link of the data justifies.
  abbrev pub IsJustified : Edge → Type 0
  IsJustified e =
      ((h : Host) × (s : Service) × Memᴰ h scene.hosts
        × Memᴰ s scene.services
        × (s.host_id ≡ h.id)
        × (e ≡ service_edge scene h s)
        × (e.source ≡ host_node_id h.id)
        × (e.target ≡ service_node_id s.id))
      ⊎ ((v : Vpn) × (h : Host) × Memᴰ v scene.vpns
          × Memᴰ h scene.hosts
          × (h.vpn_id ≡ some v.id)
          × (e ≡ vpn_edge scene v h)
          × (e.source ≡ vpn_node_id v.id)
          × (e.target ≡ host_node_id h.id))

  blocks-IsJustified :
      (hs : List Host) → All (λ h. Memᴰ h scene.hosts) hs → All IsJustified (blocks_edges scene hs)
  blocks-IsJustified [] k = tt
  blocks-IsJustified (h ∷ hs) (m, k) =
      All-append IsJustified (block_edges scene h) _
        (All-map IsJustified (service_edge scene h) (host_services scene h) (
          All-of_Memᴰ (host_services scene h) λ s n.
            let (there, fits) = of_service h s n in
            let (from, to) = service_edge_ends h s in inl (h, s, m, there, fits, refl, from, to)))
        (blocks-IsJustified hs k)

  attachment_of :
      (id : String) (h : Host)
      → attached_to scene.vpns id h ≡ true
      → attachment scene.vpns h ≡ some id
  attachment_of id h t = elim (Option-cases (attachment scene.vpns h)) [
    | inl q ↦ ground arith
    | inr (j, q) ↦ ground (arith, eq_iff j id)
  ]

  vpn_block-IsJustified :
      (v : Vpn) (hs : List Host)
      → Memᴰ v scene.vpns
      → All (λ h. Memᴰ h scene.hosts × (h.vpn_id ≡ some v.id)) hs
      → All IsJustified (vpn_block_edges scene v hs)
  vpn_block-IsJustified v [] m k = tt
  vpn_block-IsJustified v (h ∷ hs) m k =
      All-append IsJustified (blocks_edges scene (h ∷ hs)) _
        (blocks-IsJustified (h ∷ hs) (All-imp (h ∷ hs) (λ g q. q.0) k))
        (All-map IsJustified (vpn_edge scene v) (h ∷ hs) (
          All-imp (h ∷ hs)
            (λ g q. let (from, to) = vpn_edge_ends v g in inr (v, g, m, q.0, q.1, refl, from, to))
            k))

  hosts_of-IsJustified :
      (id : String) → All (λ h. Memᴰ h scene.hosts × (h.vpn_id ≡ some id)) (hosts_of scene id)
  hosts_of-IsJustified id = All-of_Memᴰ (hosts_of scene id) λ h m.
      let (there, fits) = Memᴰ-filter (attached_to scene.vpns id) scene.hosts m in
      (there, attachment_names h id (attachment_of id h fits))

  rounds-IsJustified :
      (vs : List Vpn) → All (λ v. Memᴰ v scene.vpns) vs → All IsJustified (rounds_edges scene vs)
  rounds-IsJustified [] k = tt
  rounds-IsJustified (v ∷ vs) (m, k) =
      All-append IsJustified (vpn_block_edges scene v (hosts_of scene v.id)) _
        (vpn_block-IsJustified v (hosts_of scene v.id) m (hosts_of-IsJustified v.id))
        (rounds-IsJustified vs k)

  -- There is no other edge: each goes from a host's node to that of a service that names the host, or
  -- from a VPN's node to that of a host that names the VPN.
  pub edges-IsJustified : All IsJustified (build_graph_layout scene).edges
  edges-IsJustified = rw (edges-build_graph_layout scene) (
      All-append IsJustified (rounds_edges scene scene.vpns) _
        (rounds-IsJustified scene.vpns (All-of_Memᴰ scene.vpns (λ v m. m)))
        (blocks-IsJustified (loose_hosts scene) (
          All-of_Memᴰ (loose_hosts scene)
            λ h m. (Memᴰ-filter (is_loose scene.vpns) scene.hosts m).0)))
