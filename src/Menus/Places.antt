-- ===== src/Menus/Places.antt =====
-- src/components/Graph/CanvasContextMenu.tsx: the menu is drawn inside the window.
use davy_jones.Prelude.{ℕ, ◌+◌, ◌≤◌, ◌<◌, ◌⊎◌, arith, ◌≡◌}
use davy_jones.Menus.{nudge}

-- A menu that fits the window with a margin of 8 at both sides is drawn inside it, with this margin at
-- its start and no part beyond its end, and it stays where it was opened unless that is in the margin at
-- the start or it would reach beyond the end.
pub nudge_lem :
    (at size window : ℕ)
    → size + 16 ≤ window
    → (8 ≤ nudge at size window)
      × (nudge at size window + size ≤ window)
      × ((nudge at size window ≡ at) ⊎ (at < 8) ⊎ (window < at + size))
unfolding nudge
nudge_lem at size window h = ground arith
