-- ===== src/Import.antt =====
-- src/components/Admin/ImportProjectDialog.tsx: the import of an exported project. The server is an
-- argument, a function from the requests so far and the next one to its answer.
pub mod Run
pub mod Names
pub mod References
pub mod Dialog
pub mod Issued
pub mod Tally
pub mod Contents
pub mod Counts
pub mod Tests
use davy_jones.Prelude.{
  ℕ, zero, suc, ◌+◌, String, Bool, List, [], ◌∷◌, ◌==◌, if◌then◌else◌, any, length,
}
use davy_jones.Prelude.Text.{template}
use davy_jones.Prelude.Decimal.{decimal}
use davy_jones.Types.{Project}

-- `existing.some((p) => p.name === name)`
unfoldable pub is_taken : String → List Project → Bool
is_taken name existing = any (λ (p : Project). p.name == name) existing

unfoldable pub numbered : String → ℕ → String
unfolding template decimal
numbered name n = template (name ∷ " (" ∷ decimal n ∷ ")" ∷ [])

-- the `while` loop, for as many rounds as `fuel` says, with the name that it leaves
unfoldable pub first_free : ℕ → String → ℕ → List Project → String
unfolding numbered is_taken
first_free zero name n existing = numbered name n
first_free (suc fuel) name n existing =
    let next = first_free fuel name (n + 1) existing in
    if is_taken (numbered name n) existing then next else numbered name n

unfoldable pub dedupe_name : String → List Project → String
unfolding first_free is_taken
dedupe_name name existing =
    if is_taken name existing then first_free (length existing) name 2 existing else name
