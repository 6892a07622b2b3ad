-- ===== src/Terminals/Height.antt =====
-- src/components/Terminal/TerminalTray.tsx: the height of the tray, in pixels, and the events that change
-- it. All numbers are whole, as the heights are after `Math.round`. A pointer that is dragged out of the window has coordinates of either sign.
use davy_jones.Prelude.{
  ℕ, ◌+◌, ◌-◌, String, ◌==◌, Option, none, some, List, [], ◌∷◌, ltb, nat_eq, if◌then◌else◌,
}
use davy_jones.Prelude.Integers.{ℤ, pos, negsuc, ◌+ℤ◌, negate}

abbrev pub default_height : ℕ
default_height = 320

abbrev pub min_height : ℕ
min_height = 120

abbrev pub reserved_top : ℕ
reserved_top = 160

abbrev pub key_step : ℕ
key_step = 24

-- `Math.max(a, b)` and `Math.min(a, b)`
abbrev pub max : ℕ → ℕ → ℕ
max a b = if ltb a b then b else a

abbrev pub min : ℕ → ℕ → ℕ
min a b = if ltb b a then b else a

-- The greatest height. The difference may be negative, and then the least height is greater.
abbrev pub max_height : ℕ → ℕ
max_height window = max min_height (window - reserved_top)

-- `Math.max(h, MIN_HEIGHT)`
unfoldable pub at_least_min : ℤ → ℕ
at_least_min (pos n) = max n min_height
at_least_min (negsuc n) = min_height

-- `clampHeight` for a height of the window; the heights are whole already
unfoldable pub clamp_height : ℕ → ℤ → ℕ
unfolding at_least_min
clamp_height window h = min (at_least_min h) (max_height window)

-- `storedHeight`, for the number that is stored, if there is one
unfoldable pub stored_height : ℕ → Option ℤ → ℕ
unfolding clamp_height
stored_height window none = clamp_height window (pos default_height)
stored_height window (some (pos n)) =
    if ltb 0 n then clamp_height window (pos n) else clamp_height window (pos default_height)
stored_height window (some (negsuc n)) = clamp_height window (pos default_height)

pub record Drag : Type 0 where
  pub start_y : ℤ
  pub start_height : ℕ

-- the height, the ref `drag`, and `window.innerHeight`
pub record Tray : Type 0 where
  pub height : ℕ
  pub drag : Option Drag
  pub window : ℕ

unfoldable pub opened : ℕ → Option ℤ → Tray
unfolding stored_height
opened window stored = record { height = stored_height window stored; drag = none; window = window }

unfoldable pub set_height : ℤ → Tray → Tray
unfolding clamp_height
set_height h t = record t { height = clamp_height t.window h }

unfoldable pub on_pointer_down : ℕ → ℤ → Tray → Tray
on_pointer_down button y t =
    if nat_eq button 0
    then record t { drag = some (record { start_y = y; start_height = t.height }) }
    else t

-- `drag.startHeight + drag.startY - e.clientY`
abbrev pub dragged : Drag → ℤ → ℤ
dragged d y = pos d.start_height +ℤ d.start_y +ℤ negate y

-- `onPointerMove` for the drag that is going on, if there is one
unfoldable pub drag_to : Option Drag → ℤ → Tray → Tray
unfolding set_height
drag_to none y t = t
drag_to (some d) y t = set_height (dragged d y) t

unfoldable pub end_drag : Tray → Tray
end_drag t = record t { drag = none }

unfoldable pub on_key_down : String → Tray → Tray
unfolding set_height
on_key_down key t =
    if key == "ArrowUp"
    then set_height (pos (t.height + key_step)) t
    else if key == "ArrowDown"
    then set_height (pos t.height +ℤ negate (pos key_step)) t
    else t

pub data TrayEvent : Type 0 where
  pointer_down : ℕ → ℤ → TrayEvent
  pointer_move : ℤ → TrayEvent
  pointer_up pointer_cancel double_click : TrayEvent
  key_down : String → TrayEvent
  resize : ℕ → TrayEvent

unfoldable pub hear : TrayEvent → Tray → Tray
unfolding on_pointer_down drag_to end_drag on_key_down set_height
hear (pointer_down button y) t = on_pointer_down button y t
hear (pointer_move y) t = drag_to t.drag y t
hear pointer_up t = end_drag t
hear pointer_cancel t = end_drag t
hear double_click t = set_height (pos default_height) t
hear (key_down key) t = on_key_down key t
hear (resize window) t = set_height (pos t.height) (record t { window = window })

unfoldable pub hear_all : List TrayEvent → Tray → Tray
unfolding hear
hear_all [] t = t
hear_all (e ∷ es) t = hear_all es (hear e t)
