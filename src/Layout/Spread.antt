-- ===== src/Layout/Spread.antt =====
-- src/components/Graph/layout.ts: no two nodes of the automatic layout stand at the same position.
use davy_jones.Prelude.{
  ℕ, ◌+◌, ◌*◌, ◌≡◌, ◌≢◌, ◌≤◌, ◌<◌, ◌⊎◌, inl, inr, refl, List, [], ◌∷◌, ◌++◌, length, arith, All,
  All-append, All-imp, Bool-cases, Bool, String,
}
use davy_jones.Types.{Vpn, Host, Service}
use davy_jones.Layout.Model.{
  Node, Scene, col_width, host_y, service_y, service_row_height, service_node,
}
use davy_jones.Layout.Build.{build_graph_layout, host_node, host_services, vpn_node}
use davy_jones.Layout.Blocks.{stack, block, blocks}
use davy_jones.Layout.Filing.{hosts_of, loose_hosts}
use davy_jones.Layout.Rounds.{vpn_block, rounds, rounds_width, width}
use davy_jones.Layout.Whole.{strays, drawn_below, total_width, nodes-build_graph_layout}
use davy_jones.Layout.Center.{center-columns}

module _ {M : Type 0} where
  -- two nodes at different positions
  abbrev pub Differ : Node M → Node M → Type 0
  Differ m n = (m.position.x ≢ n.position.x) ⊎ (m.position.y ≢ n.position.y)

  -- no two of the nodes at the same position
  abbrev pub Apart : List (Node M) → Type 0
  Apart [] = Unit
  Apart (n ∷ ns) = All (Differ n) ns × Apart ns

  -- in the columns from `lo` up to, not including, `hi`
  abbrev Within : ℕ → ℕ → Node M → Type 0
  Within lo hi n = (lo * col_width ≤ n.position.x) × (n.position.x < hi * col_width)

  abbrev Lower : ℕ → Node M → Type 0
  Lower y n = y ≤ n.position.y

  Apart-append :
      (ms ns : List (Node M))
      → Apart ms
      → Apart ns
      → All (λ m. All (Differ m) ns) ms
      → Apart (ms ++ ns)
  Apart-append [] ns a b c = b
  Apart-append (m ∷ ms) ns a b c =
      (All-append (Differ m) ms ns a.0 c.0, Apart-append ms ns a.1 b c.1)

  -- Runs in columns that do not overlap.
  Apart-beside :
      (lo mid hi : ℕ) (ms ns : List (Node M))
      → All (Within lo mid) ms
      → All (Within mid hi) ns
      → Apart ms
      → Apart ns
      → Apart (ms ++ ns)
  Apart-beside lo mid hi ms ns h k a b =
      Apart-append ms ns a b (All-imp ms (λ m l. All-imp ns (λ n r. inl (omega arith)) k) h)

  Within-beside :
      (lo mid hi : ℕ) (ms ns : List (Node M))
      → lo ≤ mid
      → mid ≤ hi
      → All (Within lo mid) ms
      → All (Within mid hi) ns
      → All (Within lo hi) (ms ++ ns)
  Within-beside lo mid hi ms ns p q h k =
      All-append (Within lo hi) ms ns (All-imp ms (λ m l. omega arith) h)
        (All-imp ns (λ m l. omega arith) k)

module _ {M : Type 0} (scene : Scene M) where
  stack_below :
      (host : Host) (x i : ℕ) (svcs : List Service)
      → All
          (λ (n : Node M). (n.position.x ≡ x) × (service_y + i * service_row_height ≤ n.position.y))
          (stack scene host x i svcs)
  unfolding service_node
  stack_below host x i [] = tt
  stack_below host x i (s ∷ ss) =
      ((refl, omega arith), All-imp _ (λ n h. (h.0, omega arith)) (stack_below host x (i + 1) ss))

  stack-Apart : (host : Host) (x i : ℕ) (svcs : List Service) → Apart (stack scene host x i svcs)
  unfolding service_node
  stack-Apart host x i [] = tt
  stack-Apart host x i (s ∷ ss) = (
    All-imp _ (λ n h. inr (omega arith)) (stack_below host x (i + 1) ss),
    stack-Apart host x (i + 1) ss,
  )

  block-Apart : (h : Host) (x : ℕ) → Apart (block scene h x)
  unfolding host_node
  block-Apart h x = (
    All-imp _ (λ n r. inr (omega arith)) (stack_below h x 0 (host_services scene h)),
    stack-Apart h x 0 (host_services scene h),
  )

  block-Within : (h : Host) (k : ℕ) → All (Within k (k + 1)) (block scene h (k * col_width))
  unfolding host_node
  block-Within h k = (
    omega arith,
    All-imp _ (λ n r. omega arith) (stack_below h (k * col_width) 0 (host_services scene h)),
  )

  block-Lower : (h : Host) (x : ℕ) → All (Lower host_y) (block scene h x)
  unfolding host_node
  block-Lower h x =
      (omega arith, All-imp _ (λ n r. omega arith) (stack_below h x 0 (host_services scene h)))

  blocks-Lower : (k : ℕ) (hs : List Host) → All (Lower host_y) (blocks scene k hs)
  blocks-Lower k [] = tt
  blocks-Lower k (h ∷ hs) =
      All-append (Lower host_y) (block scene h (k * col_width)) _ (block-Lower h (k * col_width))
        (blocks-Lower (k + 1) hs)

  blocks-Within :
      (k hi : ℕ) (hs : List Host) → k + length hs ≤ hi → All (Within k hi) (blocks scene k hs)
  blocks-Within k hi [] le = tt
  blocks-Within k hi (h ∷ hs) le =
      Within-beside k (k + 1) hi (block scene h (k * col_width)) _ (omega arith) (omega arith)
        (block-Within h k) (blocks-Within (k + 1) hi hs (omega arith))

  blocks-Apart : (k : ℕ) (hs : List Host) → Apart (blocks scene k hs)
  blocks-Apart k [] = tt
  blocks-Apart k (h ∷ hs) =
      Apart-beside k (k + 1) (k + 1 + length hs) (block scene h (k * col_width)) _
        (block-Within h k) (blocks-Within (k + 1) _ hs (omega arith))
        (block-Apart h (k * col_width)) (blocks-Apart (k + 1) hs)

  vpn_block-Within :
      (v : Vpn) (k hi : ℕ) (hs : List Host)
      → k + width scene hs ≤ hi
      → All (Within k hi) (vpn_block scene v k hs)
  unfolding vpn_node
  vpn_block-Within v k hi [] le = (omega arith, tt)
  vpn_block-Within v k hi (h ∷ hs) le =
      All-append (Within k hi) (blocks scene k (h ∷ hs)) _ (blocks-Within k hi (h ∷ hs) le)
        (rw (center-columns scene k h hs) (omega arith), tt)

  vpn_block-Apart : (v : Vpn) (k : ℕ) (hs : List Host) → Apart (vpn_block scene v k hs)
  unfolding vpn_node
  vpn_block-Apart v k [] = (tt, tt)
  vpn_block-Apart v k (h ∷ hs) =
      Apart-append (blocks scene k (h ∷ hs)) _ (blocks-Apart k (h ∷ hs)) (tt, tt)
        (All-imp (blocks scene k (h ∷ hs)) (λ n low. (inr (omega arith), tt))
          (blocks-Lower k (h ∷ hs)))

  rounds-Within :
      (k hi : ℕ) (vs : List Vpn)
      → k + rounds_width scene vs ≤ hi
      → All (Within k hi) (rounds scene k vs)
  rounds-Within k hi [] le = tt
  rounds-Within k hi (v ∷ vs) le =
      let w = width scene (hosts_of scene v.id) in
      Within-beside k (k + w) hi (vpn_block scene v k (hosts_of scene v.id)) _ (omega arith)
        (omega arith) (vpn_block-Within v k (k + w) (hosts_of scene v.id) (omega arith))
        (rounds-Within (k + w) hi vs (omega arith))

  rounds-Apart : (k : ℕ) (vs : List Vpn) → Apart (rounds scene k vs)
  rounds-Apart k [] = tt
  rounds-Apart k (v ∷ vs) =
      let hs = hosts_of scene v.id in
      let w = width scene hs in
      Apart-beside k (k + w) (k + w + rounds_width scene vs) (vpn_block scene v k hs) _
        (vpn_block-Within v k (k + w) hs (omega arith)) (rounds-Within (k + w) _ vs (omega arith))
        (vpn_block-Apart v k hs) (rounds-Apart (k + w) vs)

  strays_below :
      (drawn : String → Bool) (x row : ℕ) (svcs : List Service)
      → All
          (λ (n : Node M).
            (n.position.x ≡ x) × (service_y + row * service_row_height ≤ n.position.y))
          (strays scene drawn x row svcs)
  unfolding service_node
  strays_below drawn x row [] = tt
  strays_below drawn x row (s ∷ ss) = elim (Bool-cases (drawn s.id)) [
    | inl e ↦ rw e (strays_below drawn x row ss)
    | inr e ↦ rw e (
      (refl, omega arith),
      All-imp _ (λ n h. (h.0, omega arith)) (strays_below drawn x (row + 1) ss),
    )
  ]

  strays-Apart :
      (drawn : String → Bool) (x row : ℕ) (svcs : List Service)
      → Apart (strays scene drawn x row svcs)
  unfolding service_node
  strays-Apart drawn x row [] = tt
  strays-Apart drawn x row (s ∷ ss) = elim (Bool-cases (drawn s.id)) [
    | inl e ↦ rw e (strays-Apart drawn x row ss)
    | inr e ↦ rw e (
      All-imp _ (λ n h. inr (omega arith)) (strays_below drawn x (row + 1) ss),
      strays-Apart drawn x (row + 1) ss,
    )
  ]

  -- No two nodes of the layout have the same position.
  pub positions-Apart : Apart (build_graph_layout scene).nodes
  positions-Apart =
      let k = rounds_width scene scene.vpns in
      let hs = loose_hosts scene in
      let w = total_width scene in
      let stray = strays scene (drawn_below scene) (w * col_width) 0 scene.services in
      let below = strays_below (drawn_below scene) (w * col_width) 0 scene.services in
      rw (nodes-build_graph_layout scene) (
        Apart-beside 0 w (w + 1) (rounds scene 0 scene.vpns ++ blocks scene k hs) stray
          (Within-beside 0 k w (rounds scene 0 scene.vpns) (blocks scene k hs) (omega arith)
            (omega arith) (rounds-Within 0 k scene.vpns (omega arith))
            (blocks-Within k w hs (omega arith)))
          (All-imp stray (λ n h. omega arith) below)
          (Apart-beside 0 k w (rounds scene 0 scene.vpns) (blocks scene k hs)
            (rounds-Within 0 k scene.vpns (omega arith)) (blocks-Within k w hs (omega arith))
            (rounds-Apart 0 scene.vpns) (blocks-Apart k hs))
          (strays-Apart (drawn_below scene) (w * col_width) 0 scene.services))
