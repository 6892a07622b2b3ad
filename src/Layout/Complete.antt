-- ===== src/Layout/Complete.antt =====
-- src/components/Graph/layout.ts: the one invariant that its comment promises. Every host and every
-- service handed in gets a node, whatever its links say.
use mathlib.Core.List.{Memᴰ}
use mathlib.Core.List.Memᴰ
use davy_jones.Prelude.{
  ℕ, ◌+◌, ◌*◌, ◌≡◌, refl, sym, ap, ◌∙◌, Bool, true, false, List, [], ◌∷◌, ◌==◌, any, String,
  Bool-cases, Option-cases, inl, inr, arith, some, Exists, Exists-append_left, Exists-append_right,
  Exists-cons, Exists-of_any, mem-filter, eq_iff, eq_refl,
}
use davy_jones.Types.{Vpn, Host, Service}
use davy_jones.Layout.Model.{
  Node, Scene, col_width, attachment, has_vpn, service_node_id, service_node,
}
use davy_jones.Layout.Build.{build_graph_layout, host_node, host_services}
use davy_jones.Layout.Blocks.{stack, block, blocks, draws}
use davy_jones.Layout.Filing.{attached_to, is_loose, hosts_of, loose_hosts}
use davy_jones.Layout.Rounds.{vpn_block, rounds, rounds_width, rounds_draw, width}
use davy_jones.Layout.Whole.{strays, drawn_below, total_width, nodes-build_graph_layout}

-- An attachment names a VPN of the canvas.
pub attachment_sound :
    (vpns : List Vpn) (h : Host) (id : String)
    → attachment vpns h ≡ some id
    → Exists (λ (v : Vpn). v.id ≡ id) vpns
unfolding attachment
attachment_sound vpns h id e =
    let there : has_vpn vpns id ≡ true = ground arith in
    let (v, m, q) = Exists-of_any _ vpns there in (v, m, (eq_iff v.id id).0 q)

module _ {M : Type 0} (scene : Scene M) where
  -- the node of `h`, in some column
  abbrev pub DrawsHost : Host → Node M → Type 0
  DrawsHost h n = (k : ℕ) × (n ≡ host_node scene h (k * col_width))

  -- a node with this id
  abbrev pub HasId : String → Node M → Type 0
  HasId id n = n.id ≡ id

  blocks_draw :
      {h : Host} (k : ℕ) (hs : List Host) → Memᴰ h hs → Exists (DrawsHost h) (blocks scene k hs)
  blocks_draw k [] m = absurd (Memᴰ.not-nil m)
  blocks_draw {h} k (g ∷ hs) (Memᴰ.head e) =
      (host_node scene g (k * col_width), Memᴰ.head refl, (k, rw e))
  blocks_draw k (g ∷ hs) (Memᴰ.tail m) =
      Exists-append_right (block scene g (k * col_width)) (blocks_draw (k + 1) hs m)

  vpn_block_draw :
      {h : Host} (v : Vpn) (k : ℕ) (hs : List Host)
      → Memᴰ h hs
      → Exists (DrawsHost h) (vpn_block scene v k hs)
  vpn_block_draw v k [] m = absurd (Memᴰ.not-nil m)
  vpn_block_draw v k (g ∷ hs) m = Exists-append_left _ (blocks_draw k (g ∷ hs) m)

  rounds_draw_host :
      {h : Host} (id : String)
      → Memᴰ h (hosts_of scene id)
      → (k : ℕ) (vs : List Vpn) → Exists (λ (v : Vpn). v.id ≡ id) vs
      → Exists (DrawsHost h) (rounds scene k vs)
  rounds_draw_host id m k [] (v, q, e) = absurd (Memᴰ.not-nil q)
  rounds_draw_host {h} id m k (w ∷ vs) (v, Memᴰ.head q, e) =
      Exists-append_left _
        (vpn_block_draw w k (hosts_of scene w.id) (rw (ap (λ (x : Vpn). x.id) (sym q) ∙ e) m))
  rounds_draw_host id m k (w ∷ vs) (v, Memᴰ.tail q, e) =
      Exists-append_right (vpn_block scene w k (hosts_of scene w.id))
        (rounds_draw_host id m (k + width scene (hosts_of scene w.id)) vs (v, q, e))

  -- Every host that is handed in has its node on the canvas, in one of the columns, also when its
  -- VPN is unknown.
  pub host_drawn :
      (h : Host) → Memᴰ h scene.hosts → Exists (DrawsHost h) (build_graph_layout scene).nodes
  host_drawn h m = rw (nodes-build_graph_layout scene) (
      Exists-append_left _ (elim (Option-cases (attachment scene.vpns h)) [
        | inl e ↦ Exists-append_right (rounds scene 0 scene.vpns) (
            blocks_draw (rounds_width scene scene.vpns) (loose_hosts scene)
              (mem-filter (is_loose scene.vpns) scene.hosts m (rw (e, is_loose) refl)))
        | inr (id, e) ↦ Exists-append_left _ (
            rounds_draw_host id
              (mem-filter (attached_to scene.vpns id) scene.hosts m
                (rw (e, attached_to) (eq_refl id)))
              0 scene.vpns (attachment_sound scene.vpns h id e))
      ]))

  stack_ids :
      (host : Host) (x i : ℕ) (id : String) (svcs : List Service)
      → any (λ (s : Service). s.id == id) svcs ≡ true
      → Exists (HasId (service_node_id id)) (stack scene host x i svcs)
  stack_ids host x i id [] h = cc
  stack_ids host x i id (svc ∷ svcs) h = elim (Bool-cases (svc.id == id)) [
    | inl e ↦
        (_, Memᴰ.head refl, unfold service_node in ap service_node_id ((eq_iff svc.id id).0 e))
    | inr e ↦ Exists-cons _ (stack_ids host x (i + 1) id svcs (rw e at h))
  ]

  blocks_ids :
      (k : ℕ) (id : String) (hs : List Host)
      → draws scene hs id ≡ true
      → Exists (HasId (service_node_id id)) (blocks scene k hs)
  blocks_ids k id [] h = cc
  blocks_ids k id (g ∷ hs) h =
      elim (Bool-cases (any (λ (s : Service). s.id == id) (host_services scene g))) [
        | inl e ↦
            Exists-append_left _
              (Exists-cons _ (stack_ids g (k * col_width) 0 id (host_services scene g) e))
        | inr e ↦
            Exists-append_right (block scene g (k * col_width))
              (blocks_ids (k + 1) id hs (rw e at h))
      ]

  vpn_block_ids :
      (v : Vpn) (k : ℕ) (id : String) (hs : List Host)
      → draws scene hs id ≡ true
      → Exists (HasId (service_node_id id)) (vpn_block scene v k hs)
  vpn_block_ids v k id [] h = cc
  vpn_block_ids v k id (g ∷ hs) h = Exists-append_left _ (blocks_ids k id (g ∷ hs) h)

  rounds_ids :
      (k : ℕ) (id : String) (vs : List Vpn)
      → rounds_draw scene vs id ≡ true
      → Exists (HasId (service_node_id id)) (rounds scene k vs)
  rounds_ids k id [] h = cc
  rounds_ids k id (v ∷ vs) h = elim (Bool-cases (draws scene (hosts_of scene v.id) id)) [
    | inl e ↦ Exists-append_left _ (vpn_block_ids v k id (hosts_of scene v.id) e)
    | inr e ↦
        Exists-append_right (vpn_block scene v k (hosts_of scene v.id))
          (rounds_ids (k + width scene (hosts_of scene v.id)) id vs (rw e at h))
  ]

  strays_ids :
      (drawn : String → Bool) (x row : ℕ) (s : Service) (svcs : List Service)
      → Memᴰ s svcs
      → drawn s.id ≡ false
      → Exists (HasId (service_node_id s.id)) (strays scene drawn x row svcs)
  strays_ids drawn x row s [] m h = absurd (Memᴰ.not-nil m)
  strays_ids drawn x row s (t ∷ ts) (Memᴰ.head e) h =
      rw (ap (λ (u : Service). drawn u.id) (sym e) ∙ h) (
        _,
        Memᴰ.head refl,
        unfold service_node in ap (λ (u : Service). service_node_id u.id) (sym e),
      )
  strays_ids drawn x row s (t ∷ ts) (Memᴰ.tail m) h = elim (Bool-cases (drawn t.id)) [
    | inl e ↦ rw e (strays_ids drawn x row s ts m h)
    | inr e ↦ rw e (Exists-cons _ (strays_ids drawn x (row + 1) s ts m h))
  ]

  -- Every service that is handed in has a node with its id on the canvas, also when its host is
  -- unknown.
  pub service_drawn :
      (s : Service)
      → Memᴰ s scene.services
      → Exists (HasId (service_node_id s.id)) (build_graph_layout scene).nodes
  service_drawn s m =
      rw (nodes-build_graph_layout scene) (elim (Bool-cases (drawn_below scene s.id)) [
        | inr e ↦
            Exists-append_right _ (
              strays_ids (drawn_below scene) (total_width scene * col_width) 0 s scene.services m e)
        | inl e ↦ Exists-append_left _ (elim (Bool-cases (draws scene (loose_hosts scene) s.id)) [
          | inl l ↦
              Exists-append_right (rounds scene 0 scene.vpns)
                (blocks_ids (rounds_width scene scene.vpns) s.id (loose_hosts scene) l)
          | inr l ↦ Exists-append_left _ (rounds_ids 0 s.id scene.vpns (rw l at e))
        ])
      ])
