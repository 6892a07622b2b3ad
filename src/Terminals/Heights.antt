-- ===== src/Terminals/Heights.antt =====
-- src/components/Terminal/TerminalTray.tsx: the tray keeps its least height and leaves room above.
use davy_jones.Prelude.{
  ℕ, ◌+◌, ◌≤◌, arith, String, ◌==◌, Option, none, some, List, [], ◌∷◌, Bool-cases, inl, inr,
}
use davy_jones.Prelude.Integers.{ℤ, pos, negsuc, ◌+ℤ◌, negate}
use davy_jones.Terminals.Height.{
  default_height, key_step, dragged, min_height, max_height, at_least_min, clamp_height,
  stored_height, Drag, Tray, opened, set_height, on_pointer_down, drag_to, end_drag, on_key_down,
  TrayEvent, pointer_down, pointer_move, pointer_up, pointer_cancel, double_click, key_down, resize,
  hear, hear_all,
}

pub record HasRoom (t : Tray) : Type 0 where
  pub least : min_height ≤ t.height
  pub most : t.height ≤ max_height t.window

at_least_min-le : (h : ℤ) → min_height ≤ at_least_min h
unfolding at_least_min
at_least_min-le (pos n) = ground arith
at_least_min-le (negsuc n) = omega arith

clamp_height_lem :
    (window : ℕ) (h : ℤ)
    → (min_height ≤ clamp_height window h) × (clamp_height window h ≤ max_height window)
unfolding clamp_height
clamp_height_lem window h = ground (arith, at_least_min-le h)

set_height-HasRoom : (h : ℤ) (t : Tray) → HasRoom (set_height h t)
unfolding set_height
set_height-HasRoom h t = record {
  least = (clamp_height_lem t.window h).0;
  most = (clamp_height_lem t.window h).1;
}

stored_height_lem :
    (window : ℕ) (stored : Option ℤ)
    → (min_height ≤ stored_height window stored) × (stored_height window stored ≤ max_height window)
unfolding stored_height
stored_height_lem window none = clamp_height_lem window (pos default_height)
stored_height_lem window (some (pos n)) =
    ground (arith, clamp_height_lem window (pos n), clamp_height_lem window (pos default_height))
stored_height_lem window (some (negsuc n)) = clamp_height_lem window (pos default_height)

opened-HasRoom : (window : ℕ) (stored : Option ℤ) → HasRoom (opened window stored)
unfolding opened
opened-HasRoom window stored =
    let (least, most) = stored_height_lem window stored in record { least = least; most = most }

drag_to-HasRoom : (d : Option Drag) (y : ℤ) (t : Tray) → HasRoom t → HasRoom (drag_to d y t)
unfolding drag_to
drag_to-HasRoom none y t h = h
drag_to-HasRoom (some d) y t h = set_height-HasRoom (dragged d y) t

on_key_down-HasRoom : (key : String) (t : Tray) → HasRoom t → HasRoom (on_key_down key t)
unfolding on_key_down
on_key_down-HasRoom key t h = elim (Bool-cases (key == "ArrowUp")) [
  | inl e ↦ rw e (set_height-HasRoom (pos (t.height + key_step)) t)
  | inr e ↦ elim (Bool-cases (key == "ArrowDown")) [
    | inl f ↦ rw (e, f) (set_height-HasRoom (pos t.height +ℤ negate (pos key_step)) t)
    | inr f ↦ rw (e, f) h
  ]
]

hear-HasRoom : (e : TrayEvent) (t : Tray) → HasRoom t → HasRoom (hear e t)
unfolding hear on_pointer_down end_drag
hear-HasRoom (pointer_down button y) t h = ground arith
hear-HasRoom (pointer_move y) t h = drag_to-HasRoom t.drag y t h
hear-HasRoom pointer_up t h = record { least = h.least; most = h.most }
hear-HasRoom pointer_cancel t h = record { least = h.least; most = h.most }
hear-HasRoom double_click t h = set_height-HasRoom (pos default_height) t
hear-HasRoom (key_down key) t h = on_key_down-HasRoom key t h
hear-HasRoom (resize window) t h = set_height-HasRoom (pos t.height) (record t { window = window })

hear_all-HasRoom : (es : List TrayEvent) (t : Tray) → HasRoom t → HasRoom (hear_all es t)
unfolding hear_all
hear_all-HasRoom [] t h = h
hear_all-HasRoom (e ∷ es) t h = hear_all-HasRoom es (hear e t) (hear-HasRoom e t h)

-- Whatever number is stored and whatever happens to the tray and the window, all in whole pixels, the
-- tray has its least height at least, and no more than leaves the reserved room in the window of the time, or the least height where
-- the window is too short for both.
pub hear_all-opened-HasRoom :
    (window : ℕ) (stored : Option ℤ) (es : List TrayEvent)
    → HasRoom (hear_all es (opened window stored))
hear_all-opened-HasRoom window stored es =
    hear_all-HasRoom es (opened window stored) (opened-HasRoom window stored)
