-- ===== src/Export/DrawIo.antt =====
-- `buildDrawIO` of src/lib/umlExport.ts. The saved positions have whole coordinates: `Math.round` has
-- been applied to them.
use davy_jones.Prelude.{
  ℕ, ◌+◌, ◌*◌, String, Option, none, some, List, [], ◌∷◌, ◌++◌, map, length, if◌then◌else◌,
}
use davy_jones.Prelude.Dict.{Dict, get, set, bucket, group_by}
use davy_jones.Prelude.Decimal.{decimal}
use davy_jones.Prelude.Integers.{ℤ, pos, ◌+ℤ◌, show_integer}
use davy_jones.Prelude.Text.{template, join, truthy}
use davy_jones.Types.{Vpn, Host, Service, Credential, Project}
use davy_jones.Export.{ExportOpts, cred_by_id}
use davy_jones.Export.Texts.{drawio_label}
use davy_jones.Export.PlantUml.{auth_method, when_set, title}

-- what a call of `cells.push` writes: a vertex, or an edge between two cells
pub data Cell : Type 0 where
  -- id, label, style, x, y, width, height
  vertex : ℕ → String → String → ℤ → ℤ → ℕ → ℕ → Cell
  -- id, source, target
  edge : ℕ → ℕ → ℕ → Cell

unfoldable pub cell_text : Cell → String
unfolding template show_integer decimal
cell_text (vertex id label style x y width height) = template (
    "<mxCell id=\""
    ∷ decimal id
    ∷ "\" value=\""
    ∷ label
    ∷ "\" style=\""
    ∷ style
    ∷ "\" vertex=\"1\" parent=\"1\">"
    ∷ "<mxGeometry x=\""
    ∷ show_integer x
    ∷ "\" y=\""
    ∷ show_integer y
    ∷ "\" width=\""
    ∷ decimal width
    ∷ "\" height=\""
    ∷ decimal height
    ∷ "\" as=\"geometry\" /></mxCell>"
    ∷ [])
cell_text (edge id source target) = template (
    "<mxCell id=\""
    ∷ decimal id
    ∷ "\" style=\"edgeStyle=orthogonalEdgeStyle;rounded=0;html=1;\" edge=\"1\" parent=\"1\" source=\""
    ∷ decimal source
    ∷ "\" target=\""
    ∷ decimal target
    ∷ "\">"
    ∷ "<mxGeometry relative=\"1\" as=\"geometry\" /></mxCell>"
    ∷ [])

-- `cells` and `nextId`
pub record Drawing : Type 0 where
  pub cells : List Cell
  pub next_id : ℕ

-- `const id = nextId++; cells.push(…)`
unfoldable pub draw : (ℕ → Cell) → Drawing → Drawing
draw cell d = record { cells = d.cells ++ cell d.next_id ∷ []; next_id = d.next_id + 1 }

-- `placed(positions, nodeId, fallbackX, fallbackY)`
unfoldable pub placed : Dict (ℤ × ℤ) → String → ℤ → ℤ → ℤ × ℤ
unfolding get
placed positions id x y = elim (get positions id) [ none ↦ (x, y) | some p ↦ p ]

abbrev pub vpn_style : String
vpn_style = "rounded=1;whiteSpace=wrap;html=0;fillColor=#dae8fc;strokeColor=#6c8ebf;"

abbrev pub host_style : String
host_style = "whiteSpace=wrap;html=0;fillColor=#d5e8d4;strokeColor=#82b366;"

abbrev pub note_style : String
note_style =
    "shape=note;whiteSpace=wrap;html=0;align=left;spacingLeft=6;fillColor=#fff2cc;strokeColor=#d6b656;"

abbrev pub service_style : String
service_style = "rounded=1;whiteSpace=wrap;html=0;fillColor=#f8cecc;strokeColor=#b85450;"

-- `credLines`
unfoldable pub note_lines : Option Credential → ExportOpts → List String
unfolding template auth_method when_set
note_lines none opts = "(no credential configured)" ∷ []
note_lines (some cred) opts =
    template (cred.name ∷ " (user: " ∷ cred.username ∷ ", auth: " ∷ auth_method cred ∷ ")" ∷ [])
    ∷ (if opts.include_secrets
        then when_set cred.password (λ s. template ("password: " ∷ s ∷ []))
          ++ when_set cred.private_key (λ s. template ("private key: " ∷ s ∷ []))
          ++ when_set cred.passphrase (λ s. template ("passphrase: " ∷ s ∷ []))
        else [])

-- the edge from the host's VPN, if that is drawn
unfoldable pub draw_link : Option ℕ → ℕ → Drawing → Drawing
unfolding draw
draw_link none id d = d
draw_link (some source) id d = draw (λ edge_id. edge edge_id source id) d

-- `h.vpnId && vpnCellId.has(h.vpnId)`, with the cell
unfoldable pub vpn_cell_of : Dict ℕ → Option String → Option ℕ
unfolding get
vpn_cell_of vpn_ids none = none
vpn_cell_of vpn_ids (some id) = if truthy (some id) then get vpn_ids id else none

-- `40 + credLines.length * 16`
unfoldable pub note_height : List String → ℕ
note_height lines = 40 + length lines * 16

module _ (positions : Dict (ℤ × ℤ)) where
  unfoldable pub vpn_cell : ℕ → Vpn → ℕ → Cell
  unfolding placed template drawio_label
  vpn_cell i v id =
      let at = placed positions (template ("vpn-" ∷ v.id ∷ [])) (pos (i * 220 + 40)) (pos 40) in
      vertex id (drawio_label (template (v.name ∷ "\n" ∷ v.remote_gateway ∷ []))) vpn_style at.0
        at.1 160 60

  -- the loop over the VPNs, with `vpnCellId`
  unfoldable pub draw_vpns : ℕ → List Vpn → Dict ℕ × Drawing → Dict ℕ × Drawing
  unfolding draw vpn_cell set
  draw_vpns i [] s = s
  draw_vpns i (v ∷ vs) s = draw_vpns (i + 1) vs (set s.0 v.id s.1.next_id, draw (vpn_cell i v) s.1)

  unfoldable pub host_place : ℕ → Host → ℤ × ℤ
  unfolding placed template
  host_place i h = placed positions (template ("host-" ∷ h.id ∷ [])) (pos (i * 220 + 40)) (pos 200)

  unfoldable pub host_cell : ℕ → Host → ℕ → Cell
  unfolding host_place template drawio_label
  host_cell i h id =
      let at = host_place i h in
      vertex id (drawio_label (template (h.name ∷ "\n" ∷ h.ip ∷ []))) host_style at.0 at.1 160 60

  unfoldable pub note_cell : ℤ × ℤ → List String → ℕ → Cell
  unfolding note_height drawio_label join ◌+ℤ◌
  note_cell at lines id =
      vertex id (drawio_label (join "\n" lines)) note_style at.0 (at.1 +ℤ pos 80) 180
        (note_height lines)

  unfoldable pub service_cell : ℤ × ℤ → ℕ → ℕ → Service → ℕ → Cell
  unfolding placed template drawio_label ◌+ℤ◌
  service_cell at height j s id =
      let spot =
        placed positions (template ("service-" ∷ s.id ∷ [])) at.0
          (at.1 +ℤ pos (80 + height + 20 + j * 50)) in
      vertex id (drawio_label (template (s.name ∷ " (" ∷ s.kind ∷ ")" ∷ []))) service_style spot.0
        spot.1 160 40

  -- the loop over the services of the host with cell `host_id`
  unfoldable pub draw_services : ℤ × ℤ → ℕ → ℕ → ℕ → List Service → Drawing → Drawing
  unfolding draw service_cell
  draw_services at height host_id j [] d = d
  draw_services at height host_id j (s ∷ ss) d =
      draw_services at height host_id (j + 1) ss
        (draw (λ id. edge id host_id d.next_id) (draw (service_cell at height j s) d))

  module _ (services_by_host : Dict (List Service)) (creds : Dict Credential) (opts : ExportOpts)
      (vpn_ids : Dict ℕ) where
    -- one round of the loop over the hosts
    unfoldable pub draw_host : ℕ → Host → Drawing → Drawing
    unfolding draw host_cell draw_link vpn_cell_of note_lines note_cell draw_services host_place get
        note_height
    draw_host i h d =
        let at = host_place i h in
        let lines = note_lines (get creds h.credential_id) opts in
        draw_services at (note_height lines) d.next_id 0 (bucket services_by_host h.id) (
          draw (note_cell at lines)
            (draw_link (vpn_cell_of vpn_ids h.vpn_id) d.next_id (draw (host_cell i h) d)))

    unfoldable pub draw_hosts : ℕ → List Host → Drawing → Drawing
    unfolding draw_host
    draw_hosts i [] d = d
    draw_hosts i (h ∷ hs) d = draw_hosts (i + 1) hs (draw_host i h d)

module _ (project : Option Project) (vpns : List Vpn) (hosts : List Host) (services : List Service)
    (credentials : List Credential) (opts : ExportOpts) (positions : Dict (ℤ × ℤ)) where
  -- `cells` at the end; 0 and 1 are the default cells
  unfoldable pub drawing : Drawing
  unfolding draw_vpns draw_hosts group_by cred_by_id
  drawing =
      let drawn = draw_vpns positions 0 vpns ([], record { cells = []; next_id = 2 }) in
      draw_hosts positions (group_by (λ (s : Service). s.host_id) services) (cred_by_id credentials)
        opts drawn.0 0 hosts drawn.1

  unfoldable pub build_draw_io : String
  unfolding drawing cell_text join template title drawio_label
  build_draw_io = template (
      "<mxfile host=\"davy-jones\">\n  <diagram name=\""
      ∷ drawio_label (title project)
      ∷ "\" id=\"infra\">\n    <mxGraphModel dx=\"800\" dy=\"600\" grid=\"1\" gridSize=\"10\" guides=\"1\" tooltips=\"1\" connect=\"1\" arrows=\"1\" fold=\"1\" page=\"1\" pageScale=\"1\" pageWidth=\"850\" pageHeight=\"1100\" math=\"0\" shadow=\"0\">\n      <root>\n        <mxCell id=\"0\" />\n        <mxCell id=\"1\" parent=\"0\" />\n        "
      ∷ join "\n        " (map cell_text drawing.cells)
      ∷ "\n      </root>\n    </mxGraphModel>\n  </diagram>\n</mxfile>\n"
      ∷ [])
