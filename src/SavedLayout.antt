-- ===== src/SavedLayout.antt =====
-- src/hooks/useGraphLayout.ts: a project's hand-made arrangement, loaded once and written back with a
-- delay. The positions are of a type `P` that the hook does not look into, with `empty` for `{}`.
pub mod Saving
pub mod Loading
pub mod Tests
use davy_jones.Prelude.{
  ℕ, ◌+◌, String, Bool, true, false, Option, none, some, List, [], ◌∷◌, ◌++◌, ◌==◌, nat_eq,
  if◌then◌else◌, or_else,
}

-- `epoch` counts the runs of the loading effect; `timer` says whether a flush is due; `sent` are the
-- calls of `api.layout.save`.
pub record Arrangement (P : Type 0) : Type 0 where
  pub positions : P
  pub loaded : Bool
  pub project_ref : String
  pub epoch : ℕ
  pub timer : Bool
  pub pending : Option P
  pub sent : List (String × P)

-- What `api.layout.get` settles with: the positions of the answer, or a failure.
pub data Loaded (P : Type 0) : Type 0 where
  arrived : Option P → Loaded P
  failed : Loaded P

module _ {P : Type 0} where
  -- the first render, before anything is loaded
  abbrev pub mounted : P → String → Arrangement P
  mounted empty project = record {
    positions = empty;
    loaded = false;
    project_ref = project;
    epoch = 0;
    timer = false;
    pending = none;
    sent = [];
  }

  -- the body of `flush` below its test
  unfoldable pub send : Option P → Arrangement P → Arrangement P
  send none s = s
  send (some p) s = record s { pending = none; sent = s.sent ++ (s.project_ref, p) ∷ [] }

  unfoldable pub flush : Arrangement P → Arrangement P
  unfolding send
  flush s = send s.pending s

  unfoldable pub save_positions : P → Arrangement P → Arrangement P
  save_positions next s = record s { positions = next; pending = some next; timer = true }

  -- the timer's callback, if it is due
  unfoldable pub fire : Arrangement P → Arrangement P
  unfolding flush
  fire s = if s.timer then flush (record s { timer = false }) else s

  -- `clearTimeout`, then `flush`: the cleanup of the last effect
  unfoldable pub clean_up : Arrangement P → Arrangement P
  unfolding flush
  clean_up s = flush (record s { timer = false })

  -- A render with another project id: `projectRef` is assigned in the render, the cleanups of both
  -- effects follow, and then the loading effect runs anew.
  unfoldable pub switch : String → Arrangement P → Arrangement P
  unfolding clean_up
  switch project s =
      if s.project_ref == project
      then s
      else let cleaned = clean_up (record s { project_ref = project; epoch = s.epoch + 1 }) in
        record cleaned { loaded = false }

  unfoldable pub unmount : Arrangement P → Arrangement P
  unfolding clean_up
  unmount s = clean_up (record s { epoch = s.epoch + 1 })

  -- the `then` and the `catch` of the load that run `epoch` has started
  unfoldable pub settle : P → ℕ → Loaded P → Arrangement P → Arrangement P
  settle empty epoch (arrived o) s =
      if nat_eq epoch s.epoch then record s { positions = or_else o empty; loaded = true } else s
  settle empty epoch failed s = if nat_eq epoch s.epoch then record s { loaded = true } else s
