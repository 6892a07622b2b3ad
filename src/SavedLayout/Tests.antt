-- ===== src/SavedLayout/Tests.antt =====
-- Tests of the saved arrangement, with numbers for positions.
use davy_jones.Prelude.{ℕ, String, ◌≡◌, ◌≢◌, refl, true, false, none, [], ◌∷◌, ◌++◌, arith, eq_iff}
use davy_jones.SavedLayout.{Arrangement, mounted, fire, save_positions, switch, unmount}
use davy_jones.SavedLayout.Saving.{drag_all, fire-drag_all, switch-save_positions}

abbrev start : Arrangement ℕ
start = mounted 0 "a"

a_not_b : ◌≢◌ {A = String} "a" "b"
a_not_b = ground (arith, eq_iff "a" "b")

-- The drag is made in project "a" and saved to project "b".
wrong_project : (switch "b" (save_positions 7 start)).sent ≡ ("b", 7) ∷ []
unfolding switch save_positions
wrong_project = refl

fire-drag_all_example :
    ((fire (save_positions 3 (drag_all (1 ∷ 2 ∷ []) start))).sent
      ≡ start.sent ++ (start.project_ref, 3) ∷ [])
    × ((fire (save_positions 3 (drag_all (1 ∷ 2 ∷ []) start))).pending ≡ none)
    × (fire (fire (save_positions 3 (drag_all (1 ∷ 2 ∷ []) start)))
        ≡ fire (save_positions 3 (drag_all (1 ∷ 2 ∷ []) start)))
    × ((unmount (save_positions 3 (drag_all (1 ∷ 2 ∷ []) start))).sent
        ≡ start.sent ++ (start.project_ref, 3) ∷ [])
    × (fire (unmount (save_positions 3 (drag_all (1 ∷ 2 ∷ []) start)))
        ≡ unmount (save_positions 3 (drag_all (1 ∷ 2 ∷ []) start)))
fire-drag_all_example = fire-drag_all (1 ∷ 2 ∷ []) 3 start

switch-save_positions_example :
    ((switch "b" (save_positions 7 start)).sent ≡ start.sent ++ ("b", 7) ∷ [])
    × ((switch "b" (save_positions 7 start)).pending ≡ none)
    × ((switch "b" (save_positions 7 start)).timer ≡ false)
switch-save_positions_example = switch-save_positions 7 start "b" a_not_b

abbrev shown : Arrangement ℕ
shown = record start { positions = 5; loaded = true }
