-- ===== src/Projects.antt =====
-- src/hooks/useProjects.ts: the list of projects, with the two callers of src/components/Dashboard.tsx
-- that switch to a project. What the server answers is an argument; a call that throws is the caller's.
use davy_jones.Prelude.{String, Bool, false, Option, none, some, List, if◌then◌else◌}
use davy_jones.Prelude.Text.{truthy}
use davy_jones.Types.{Project}
use davy_jones.Auth.{Answer, returned, thrown}

pub record Projects : Type 0 where
  pub projects : List Project
  pub loading : Bool

-- `reload`; the error of a list that throws, for the caller
unfoldable pub settle_list : Answer (List Project) → Projects → Projects × Option String
settle_list (returned ps) s = (record { projects = ps; loading = false }, none)
settle_list (thrown e) s = (s, some e)

-- the created project, or the error of the first call that throws
unfoldable pub create_project :
    Answer Project → Answer (List Project) → Projects → Projects × Answer Project
unfolding settle_list
create_project (thrown e) list s = (s, thrown e)
create_project (returned p) list s =
    let (after, error) = settle_list list s in
    (after, elim error [ none ↦ returned p | some e ↦ thrown e ])

unfoldable pub update_project :
    Answer Unit → Answer (List Project) → Projects → Projects × Option String
unfolding settle_list
update_project (thrown e) list s = (s, some e)
update_project (returned _) list s = settle_list list s

unfoldable pub delete_project :
    Answer Unit → Answer (List Project) → Projects → Projects × Option String
unfolding settle_list
delete_project (thrown e) list s = (s, some e)
delete_project (returned _) list s = settle_list list s

-- The projects and the active one, after `createAndSwitchProject`.
unfoldable pub create_and_switch_project :
    Answer Project → Answer (List Project) → Projects × String → Projects × String
unfolding create_project
create_and_switch_project created list s =
    let (after, result) = create_project created list s.0 in
    (after, elim result [ returned p ↦ p.id | thrown _ ↦ s.1 ])

-- The same after `handleProjectsChanged`, with the id of a new project if there is one.
unfoldable pub handle_projects_changed :
    Option String → Answer (List Project) → Projects × String → Projects × String
unfolding settle_list
handle_projects_changed new_id list s =
    let (after, error) = settle_list list s.0 in
    (
      after,
      elim error [
        | some _ ↦ s.1
        | none ↦ elim new_id [ none ↦ s.1 | some id ↦ if truthy (some id) then id else s.1 ]
      ],
    )
