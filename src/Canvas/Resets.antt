-- ===== src/Canvas/Resets.antt =====
-- The two resets of the canvas: what is shown and what is saved agree.
use davy_jones.Prelude.{
  String, true, ◌≡◌, ◌≢◌, refl, sym, ap, ◌∙◌, Option, none, some, List, [], ◌∷◌, map, ◌==◌,
  Bool-cases, inl, inr, eq_iff, find,
}
use mathlib.Core.List.{Memᴰ}
use mathlib.Core.List.Memᴰ
use davy_jones.Prelude.Dict.{Dict, set}
use davy_jones.Layout.Model.{Position, Node}
use davy_jones.Canvas.{
  Placed, places_from, drag_stop, sync, reset_layout, send_home, homed_places, reset_to,
  reset_position,
}
use davy_jones.Canvas.Polls.{places}

module _ {P Z M : Type 0} (at : Position → P) where
  -- After "Reset layout" nothing is saved, and a reload shows the nodes where the reset has put them.
  pub reset_layout_lem :
      (prev fresh : List (Placed P Z M)) (layout : List (Node M))
      → ((reset_layout at prev layout).1 ≡ [])
        × (places at (sync at true (reset_layout at prev layout).1 fresh layout)
            ≡ places at (reset_layout at prev layout).0)
  unfolding reset_layout sync
  reset_layout_lem prev fresh layout = (refl, same layout)
    where
      same :
          (ns : List (Node M))
          → places at (sync at true [] fresh ns) ≡ places at (reset_layout at prev ns).0
      same [] = refl
      same (n ∷ ns) = ap (λ r. (n.id, at n.position) ∷ r) (same ns)

homed_places_lem :
    {P Z M : Type 0} (id : String) (home : P) (m : Dict P) (nodes : List (Placed P Z M))
    → homed_places id home m nodes ≡ places_from m (map (send_home id home) nodes)
unfolding homed_places places_from send_home
homed_places_lem id home m [] = refl
homed_places_lem id home m (n ∷ ns) = elim (Bool-cases (n.node.id == id)) [
  | inl e ↦ rw e (homed_places_lem id home (set m n.node.id home) ns)
  | inr e ↦ rw e (homed_places_lem id home (set m n.node.id n.place) ns)
]

send_home_other :
    {P Z M : Type 0} (id : String) (home : P) (n : Placed P Z M)
    → n.node.id ≢ id
    → send_home id home n ≡ n
unfolding send_home
send_home_other id home n h = elim (Bool-cases (n.node.id == id)) [
  | inl e ↦ absurd (h ((eq_iff n.node.id id).0 e))
  | inr e ↦ rw e refl
]

kept_by_send_home :
    {P Z M : Type 0} (id : String) (home : P) (n : Placed P Z M) (nodes : List (Placed P Z M))
    → Memᴰ n nodes
    → n.node.id ≢ id
    → Memᴰ n (map (send_home id home) nodes)
kept_by_send_home id home n nodes m h =
    rw (send_home_other id home n h) at (Memᴰ.map (send_home id home) m)

module _ {P Z M : Type 0} (at : Position → P) (id : String) (nodes after : List (Placed P Z M))
    (saved : Dict P) where
  reset_to_lem :
      (home : Option (Node M))
      → reset_to at id nodes home ≡ some (after, saved)
      → (saved ≡ drag_stop after)
        × ((n : Placed P Z M) → Memᴰ n nodes → n.node.id ≢ id → Memᴰ n after)
  unfolding reset_to drag_stop
  reset_to_lem none h = cc
  reset_to_lem (some home) h =
      let shown : map (send_home id (at home.position)) nodes ≡ after = cc in
      let sent : homed_places id (at home.position) [] nodes ≡ saved = cc in
      (
        sym sent ∙ homed_places_lem id (at home.position) [] nodes ∙ ap (places_from []) shown,
        λ n m other. rw (sym shown) (kept_by_send_home id (at home.position) n nodes m other),
      )

  -- "Reset position" saves exactly what is then on screen, and it leaves every other node in its
  -- place.
  pub reset_position_lem :
      (layout : List (Node M))
      → reset_position at id nodes layout ≡ some (after, saved)
      → (saved ≡ drag_stop after)
        × ((n : Placed P Z M) → Memᴰ n nodes → n.node.id ≢ id → Memᴰ n after)
  unfolding reset_position
  reset_position_lem layout h = reset_to_lem (find (λ n. n.id == id) layout) h
