-- ===== src/SavedLayout/Loading.antt =====
-- src/hooks/useGraphLayout.ts: what is shown while a project's arrangement is loaded.
use davy_jones.Prelude.{
  ℕ, ◌+◌, ◌≤◌, ◌<◌, String, ◌≡◌, ◌≢◌, refl, true, false, Option, none, some, ◌==◌, nat_eq, eq_iff,
  arith, Bool-cases, inl, inr, or_else,
}
use davy_jones.SavedLayout.{Arrangement, send, switch, Loaded, arrived, failed, settle}

nat_eq_refl : (n : ℕ) → nat_eq n n ≡ true
nat_eq_refl n = ground arith

module _ {P : Type 0} (empty : P) where
  positions-send : (o : Option P) (s : Arrangement P) → (send o s).positions ≡ s.positions
  unfolding send
  positions-send none s = refl
  positions-send (some p) s = refl

  positions-switch :
      (s : Arrangement P) (project : String) → (switch project s).positions ≡ s.positions
  unfolding switch
  positions-switch s project = elim (Bool-cases (s.project_ref == project)) [
    | inl e ↦ rw e refl
    | inr e ↦ rw e (positions-send s.pending _)
  ]

  epoch-send : (o : Option P) (s : Arrangement P) → (send o s).epoch ≡ s.epoch
  unfolding send
  epoch-send none s = refl
  epoch-send (some p) s = refl

  epoch-switch :
      (s : Arrangement P) (project : String)
      → s.project_ref ≢ project
      → (switch project s).epoch ≡ s.epoch + 1
  unfolding switch
  epoch-switch s project h = elim (Bool-cases (s.project_ref == project)) [
    | inl e ↦ absurd (h ((eq_iff s.project_ref project).0 e))
    | inr e ↦ rw e (epoch-send s.pending _)
  ]

  loaded-switch :
      (s : Arrangement P) (project : String)
      → s.project_ref ≢ project
      → (switch project s).loaded ≡ false
  unfolding switch
  loaded-switch s project h = elim (Bool-cases (s.project_ref == project)) [
    | inl e ↦ absurd (h ((eq_iff s.project_ref project).0 e))
    | inr e ↦ rw e refl
  ]

  settle_stale :
      (epoch : ℕ) (l : Loaded P) (s : Arrangement P) → epoch < s.epoch → settle empty epoch l s ≡ s
  unfolding settle
  settle_stale epoch (arrived o) s h = ground arith
  settle_stale epoch failed s h = ground arith

  settle_current :
      (epoch : ℕ) (o : Option P) (s : Arrangement P)
      → s.epoch ≡ epoch
      → ((settle empty epoch (arrived o) s).positions ≡ or_else o empty)
        × ((settle empty epoch (arrived o) s).loaded ≡ true)
  unfolding settle
  settle_current epoch o s h = (ground arith, ground arith)

  -- After a switch the answer of an earlier load changes nothing, and the answer of the new load is
  -- shown.
  pub settle-switch :
      (s : Arrangement P) (project : String)
      → s.project_ref ≢ project
      → ((epoch : ℕ) (l : Loaded P)
          → epoch ≤ s.epoch
          → settle empty epoch l (switch project s) ≡ switch project s)
        × ((switch project s).loaded ≡ false)
        × ((o : Option P)
            → ((settle empty (s.epoch + 1) (arrived o) (switch project s)).positions
                ≡ or_else o empty)
              × ((settle empty (s.epoch + 1) (arrived o) (switch project s)).loaded ≡ true))
  settle-switch s project h = (
    λ epoch l older.
        settle_stale epoch l (switch project s) (rw (epoch-switch s project h) (omega arith)),
    loaded-switch s project h,
    λ o. settle_current (s.epoch + 1) o (switch project s) (epoch-switch s project h),
  )

  -- After a switch, a load that fails leaves the arrangement of the project before in place, marked
  -- as loaded.
  pub settle_failed-switch :
      (s : Arrangement P) (project : String)
      → s.project_ref ≢ project
      → ((settle empty (s.epoch + 1) failed (switch project s)).positions ≡ s.positions)
        × ((settle empty (s.epoch + 1) failed (switch project s)).loaded ≡ true)
  unfolding settle
  settle_failed-switch s project h =
      rw (epoch-switch s project h, nat_eq_refl (s.epoch + 1)) (positions-switch s project, refl)
