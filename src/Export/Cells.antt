-- ===== src/Export/Cells.antt =====
-- `buildDrawIO` of src/lib/umlExport.ts: the ids of the cells, and the ends of the edges.
use davy_jones.Prelude.{
  ℕ, zero, suc, ◌+◌, ◌≤◌, ◌<◌, String, ◌≡◌, refl, ap, ◌∙◌, arith, Option, none, some, List, [], ◌∷◌,
  ◌++◌, map, length, length-append, All, All-append, Bool-cases, inl, inr, ◌==◌,
}
use mathlib.Core.List.{map-append}
use davy_jones.Prelude.Dict.{Dict, get, set, get-set, bucket, group_by}
use davy_jones.Prelude.Integers.{ℤ}
use davy_jones.Prelude.Text.{truthy}
use davy_jones.Types.{Vpn, Host, Service, Credential, Project}
use davy_jones.Export.{ExportOpts, cred_by_id}
use davy_jones.Export.DrawIo.{
  Cell, vertex, edge, Drawing, draw, vpn_cell, draw_vpns, host_place, host_cell, draw_link,
  vpn_cell_of, note_lines, note_height, note_cell, service_cell, draw_services, draw_host,
  draw_hosts, drawing,
}

abbrev pub cell_id : Cell → ℕ
cell_id (vertex id _ _ _ _ _ _) = id
cell_id (edge id _ _) = id

-- `n` numbers from `k` on
abbrev pub numbers : ℕ → ℕ → List ℕ
numbers k zero = []
numbers k (suc n) = k ∷ numbers (k + 1) n

-- The ends of an edge are ids of cells that were written before it.
abbrev pub JoinsEarlier : Cell → Type 0
JoinsEarlier (vertex _ _ _ _ _ _ _) = Unit
JoinsEarlier (edge id source target) = (2 ≤ source) × (source < id) × (2 ≤ target) × (target < id)

numbers-suc : (k n : ℕ) → numbers k (suc n) ≡ numbers k n ++ (k + n) ∷ []
numbers-suc k zero = ap (λ m. m ∷ []) (omega arith)
numbers-suc k (suc n) =
    ap (λ r. k ∷ r) (numbers-suc (k + 1) n ∙ ap (λ m. numbers (k + 1) n ++ m ∷ []) (omega arith))

-- the cells in the order of their ids
record IsNumbered (d : Drawing) : Type 0 where
  next : d.next_id ≡ 2 + length d.cells
  ids : map cell_id d.cells ≡ numbers 2 (length d.cells)
  ends : All JoinsEarlier d.cells

draw-IsNumbered :
    (cell : ℕ → Cell) (d : Drawing)
    → IsNumbered d
    → cell_id (cell d.next_id) ≡ d.next_id
    → JoinsEarlier (cell d.next_id)
    → IsNumbered (draw cell d)
unfolding draw
draw-IsNumbered cell d h e j =
    let longer : length (d.cells ++ cell d.next_id ∷ []) ≡ suc (length d.cells) =
      omega (arith, length-append d.cells (cell d.next_id ∷ [])) in
    record {
      next = omega (arith, h.next, length-append d.cells (cell d.next_id ∷ []));
      ids =
          map-append cell_id d.cells (cell d.next_id ∷ [])
          ∙ rw (longer, numbers-suc 2 (length d.cells), h.ids, e, h.next) refl;
      ends = All-append JoinsEarlier d.cells (cell d.next_id ∷ []) h.ends (j, tt);
    }

-- the ids in `vpnCellId` are ids of cells
abbrev AreDrawn : Dict ℕ → Drawing → Type 0
AreDrawn m d = (k : String) (n : ℕ) → get m k ≡ some n → (2 ≤ n) × (n < d.next_id)

AreDrawn-set :
    (m : Dict ℕ) (d : Drawing) (cell : ℕ → Cell) (k : String)
    → AreDrawn m d
    → IsNumbered d
    → AreDrawn (set m k d.next_id) (draw cell d)
unfolding draw
AreDrawn-set m d cell k h num j n e = elim (Bool-cases (k == j)) [
  | inl b ↦
      let same : some d.next_id ≡ some n = rw (get-set m k j d.next_id, b) at e in
      let new : d.next_id ≡ n = cc in (omega (arith, num.next), omega arith)
  | inr b ↦ let (low, high) = h j n (rw (get-set m k j d.next_id, b) at e) in (low, omega arith)
]

draw_link-IsNumbered :
    (o : Option ℕ) (host_id : ℕ) (d : Drawing)
    → IsNumbered d
    → ((n : ℕ) → o ≡ some n → (2 ≤ n) × (n < d.next_id))
    → 2 ≤ host_id
    → host_id < d.next_id
    → IsNumbered (draw_link o host_id d) × (d.next_id ≤ (draw_link o host_id d).next_id)
unfolding draw_link draw
draw_link-IsNumbered none host_id d h a low high = (h, omega arith)
draw_link-IsNumbered (some n) host_id d h a low high =
    let (from, before) = a n refl in
    (draw-IsNumbered (λ id. edge id n host_id) d h refl (from, before, low, high), omega arith)

vpn_cell_of-drawn :
    (m : Dict ℕ) (o : Option String) (d : Drawing)
    → AreDrawn m d
    → (n : ℕ) → vpn_cell_of m o ≡ some n
    → (2 ≤ n) × (n < d.next_id)
unfolding vpn_cell_of
vpn_cell_of-drawn m none d a n e = cc
vpn_cell_of-drawn m (some id) d a n e = elim (Bool-cases (truthy (some id))) [
  | inl b ↦ a id n (rw b at e)
  | inr b ↦ let nothing : none ≡ some n = rw b at e in cc
]

nothing_drawn : (d : Drawing) → AreDrawn [] d
unfolding get
nothing_drawn d k n e = cc

module _ (positions : Dict (ℤ × ℤ)) where
  draw_vpns-IsNumbered :
      (i : ℕ) (vs : List Vpn) (m : Dict ℕ) (d : Drawing)
      → IsNumbered d
      → AreDrawn m d
      → IsNumbered (draw_vpns positions i vs (m, d)).1
        × AreDrawn (draw_vpns positions i vs (m, d)).0 (draw_vpns positions i vs (m, d)).1
  unfolding draw_vpns vpn_cell
  draw_vpns-IsNumbered i [] m d h a = (h, a)
  draw_vpns-IsNumbered i (v ∷ vs) m d h a =
      draw_vpns-IsNumbered (i + 1) vs (set m v.id d.next_id) (draw (vpn_cell positions i v) d)
        (draw-IsNumbered (vpn_cell positions i v) d h refl tt)
        (AreDrawn-set m d (vpn_cell positions i v) v.id a h)

  draw_services-IsNumbered :
      (at : ℤ × ℤ) (height host_id j : ℕ) (ss : List Service) (d : Drawing)
      → IsNumbered d
      → 2 ≤ host_id
      → host_id < d.next_id
      → IsNumbered (draw_services positions at height host_id j ss d)
        × (d.next_id ≤ (draw_services positions at height host_id j ss d).next_id)
  unfolding draw_services service_cell draw
  draw_services-IsNumbered at height host_id j [] d h low high = (h, omega arith)
  draw_services-IsNumbered at height host_id j (s ∷ ss) d h low high =
      let box = service_cell positions at height j s in
      let line = λ (id : ℕ). edge id host_id d.next_id in
      let boxed = draw-IsNumbered box d h refl tt in
      let joined =
        draw-IsNumbered line (draw box d) boxed refl
          (low, omega arith, omega (arith, h.next), omega arith) in
      let (num, more) =
        draw_services-IsNumbered at height host_id (j + 1) ss (draw line (draw box d)) joined low
          (omega arith) in
      (num, omega (arith, more))

  module _ (by_host : Dict (List Service)) (creds : Dict Credential) (opts : ExportOpts)
      (m : Dict ℕ) where
    draw_host-IsNumbered :
        (i : ℕ) (h : Host) (d : Drawing)
        → IsNumbered d
        → AreDrawn m d
        → IsNumbered (draw_host positions by_host creds opts m i h d)
          × (d.next_id ≤ (draw_host positions by_host creds opts m i h d).next_id)
    unfolding draw_host host_cell note_cell draw
    draw_host-IsNumbered i h d num a =
        let lines = note_lines (get creds h.credential_id) opts in
        let at = host_place positions i h in
        let boxed = draw-IsNumbered (host_cell positions i h) d num refl tt in
        let low : 2 ≤ d.next_id = omega (arith, num.next) in
        let (linked, more) =
          draw_link-IsNumbered (vpn_cell_of m h.vpn_id) d.next_id (draw (host_cell positions i h) d)
            boxed
            (λ n e.
              let (from, before) = vpn_cell_of-drawn m h.vpn_id d a n e in (from, omega arith))
            low (omega arith) in
        let noted = draw-IsNumbered (note_cell positions at lines) _ linked refl tt in
        let (done, most) =
          draw_services-IsNumbered at (note_height lines) d.next_id 0 (bucket by_host h.id) _ noted
            low (omega (arith, more)) in
        (done, omega (arith, more, most))

    draw_hosts-IsNumbered :
        (i : ℕ) (hs : List Host) (d : Drawing)
        → IsNumbered d
        → AreDrawn m d
        → IsNumbered (draw_hosts positions by_host creds opts m i hs d)
    unfolding draw_hosts
    draw_hosts-IsNumbered i [] d num a = num
    draw_hosts-IsNumbered i (h ∷ hs) d num a =
        let (one, more) = draw_host-IsNumbered i h d num a in
        draw_hosts-IsNumbered (i + 1) hs (draw_host positions by_host creds opts m i h d) one
          (λ k n e. let (from, before) = a k n e in (from, omega (arith, before, more)))

-- The cells of the diagram have the ids 2, 3, 4 and so on in their order, so that no id is used
-- twice or is one of the two default cells', and both ends of every edge are ids of cells that
-- were written before it.
pub drawing_lem :
    (project : Option Project) (vpns : List Vpn) (hosts : List Host) (services : List Service)
    (credentials : List Credential) (opts : ExportOpts) (positions : Dict (ℤ × ℤ))
    → let cells = (drawing project vpns hosts services credentials opts positions).cells in
      (map cell_id cells ≡ numbers 2 (length cells)) × All JoinsEarlier cells
unfolding drawing
drawing_lem project vpns hosts services credentials opts positions =
    let empty : Drawing = record { cells = []; next_id = 2 } in
    let (drawn, are) =
      draw_vpns-IsNumbered positions 0 vpns [] empty (record { next = refl; ids = refl; ends = tt })
        (nothing_drawn empty) in
    let num =
      draw_hosts-IsNumbered positions (group_by (λ (s : Service). s.host_id) services)
        (cred_by_id credentials) opts _ 0 hosts _ drawn are in
    (num.ids, num.ends)
