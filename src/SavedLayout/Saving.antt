-- ===== src/SavedLayout/Saving.antt =====
-- src/hooks/useGraphLayout.ts: what is written back, and to which project.
use davy_jones.Prelude.{
  String, ◌≡◌, ◌≢◌, refl, false, none, List, [], ◌∷◌, ◌++◌, ◌==◌, eq_iff, Bool-cases, inl, inr,
}
use davy_jones.SavedLayout.{Arrangement, save_positions, fire, switch, unmount}

module _ {P : Type 0} where
  -- a drag after another, with no pause for the timer
  abbrev pub drag_all : List P → Arrangement P → Arrangement P
  drag_all [] s = s
  drag_all (p ∷ ps) s = drag_all ps (save_positions p s)

  drag_all-sent : (ps : List P) (s : Arrangement P) → (drag_all ps s).sent ≡ s.sent
  unfolding save_positions
  drag_all-sent [] s = refl
  drag_all-sent (p ∷ ps) s = drag_all-sent ps (save_positions p s)

  drag_all-project : (ps : List P) (s : Arrangement P) → (drag_all ps s).project_ref ≡ s.project_ref
  unfolding save_positions
  drag_all-project [] s = refl
  drag_all-project (p ∷ ps) s = drag_all-project ps (save_positions p s)

  -- However many drags come before the timer fires, one request is sent: the last arrangement, to
  -- the project of the drags; and the timer is used up. If the canvas is unmounted before, the same
  -- request is sent at once, and the timer does not fire.
  pub fire-drag_all :
      (ps : List P) (p : P) (s : Arrangement P)
      → ((fire (save_positions p (drag_all ps s))).sent ≡ s.sent ++ (s.project_ref, p) ∷ [])
        × ((fire (save_positions p (drag_all ps s))).pending ≡ none)
        × (fire (fire (save_positions p (drag_all ps s))) ≡ fire (save_positions p (drag_all ps s)))
        × ((unmount (save_positions p (drag_all ps s))).sent ≡ s.sent ++ (s.project_ref, p) ∷ [])
        × (fire (unmount (save_positions p (drag_all ps s)))
            ≡ unmount (save_positions p (drag_all ps s)))
  unfolding fire save_positions unmount
  fire-drag_all ps p s =
      rw (drag_all-sent ps s, drag_all-project ps s) (refl, refl, refl, refl, refl)

  -- A drag that is still waiting when the project changes is not lost, but it is sent to the project
  -- that is switched to, not to the one it was made in.
  pub switch-save_positions :
      (p : P) (s : Arrangement P) (project : String)
      → s.project_ref ≢ project
      → ((switch project (save_positions p s)).sent ≡ s.sent ++ (project, p) ∷ [])
        × ((switch project (save_positions p s)).pending ≡ none)
        × ((switch project (save_positions p s)).timer ≡ false)
  unfolding switch save_positions
  switch-save_positions p s project h = elim (Bool-cases (s.project_ref == project)) [
    | inl e ↦ absurd (h ((eq_iff s.project_ref project).0 e))
    | inr e ↦ rw e (refl, refl, refl)
  ]
