-- ===== src/Accounts/Seal.antt =====
-- src/components/Auth/SealScreen.tsx: the key shares that open the seal.
use davy_jones.Prelude.{ℕ, String, ◌==◌, Bool, true, false, ◌||◌, Option, none, some, if◌then◌else◌}
use davy_jones.Prelude.Trim.{trim}
use davy_jones.Types.{SealStatus}
use davy_jones.Auth.{Answer, returned, thrown}

pub record State : Type 0 where
  pub share : String
  pub submitting : Bool
  pub copied_index : Option ℕ

abbrev pub opened : State
opened = record { share = ""; submitting = false; copied_index = none }

-- `handleInitialize` around its call
unfoldable pub begin_initialize : State → State
begin_initialize s = record s { submitting = true }

unfoldable pub settle_initialize : State → State
settle_initialize s = record s { submitting = false }

-- `handleSubmit` up to its `await`, with the share that `submitShare` gets
unfoldable pub handle_submit : State → State × Option String
unfolding trim
handle_submit s =
    if trim s.share == "" || s.submitting
    then (s, none)
    else (record s { submitting = true }, some (trim s.share))

-- the rest of it, for a call that returns or throws
unfoldable pub settle : Answer (Unit {0}) → State → State
settle (returned _) s = record s { share = ""; submitting = false }
settle (thrown e) s = record s { submitting = false }

-- `copyShare`, when the clipboard has answered, and its timer
unfoldable pub copied : Answer (Unit {0}) → ℕ → State → State
copied (returned _) i s = record s { copied_index = some i }
copied (thrown e) i s = s

unfoldable pub forget_copied : State → State
forget_copied s = record s { copied_index = none }

-- `threshold`, `totalShares` and `progress`
unfoldable pub shown_status : Option SealStatus → ℕ × ℕ × ℕ
shown_status none = (3, 5, 0)
shown_status (some status) = (status.threshold, status.total_shares, status.progress)
