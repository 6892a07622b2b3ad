-- ===== src/Accounts/Projects.antt =====
-- src/components/Admin/ProjectsTab.tsx: the form for projects.
use davy_jones.Prelude.{String, Option, none, some, or_else, List, []}
use davy_jones.Types.{Project}
use davy_jones.Auth.{Answer, returned, thrown}
use davy_jones.Forms.{Draft, Save, save, or_undefined}
use davy_jones.Forms.Vpns.{toggled}

pub record ProjectForm : Type 0 where
  pub name : String
  pub description : String
  pub member_ids : List String

abbrev pub empty_project_form : ProjectForm
empty_project_form = record { name = ""; description = ""; member_ids = [] }

pub record ProjectPayload : Type 0 where
  pub name : String
  pub description : Option String
  pub member_ids : List String

pub record State : Type 0 where
  pub draft : Draft ProjectForm
  pub error : Option String

unfoldable pub start_edit : Project → State → State
start_edit p s = record {
  draft = record {
    editing_id = some p.id;
    form = record {
      name = p.name;
      description = or_else p.description "";
      member_ids = or_else p.member_ids [];
    };
  };
  error = none;
}

unfoldable pub cancel_edit : State → State
cancel_edit s = record {
  draft = record { form = empty_project_form; editing_id = none };
  error = none;
}

unfoldable pub toggle_member : String → State → State
unfolding toggled
toggle_member id s =
    let d = s.draft in
    let f = d.form in
    record s { draft = record d { form = record f { member_ids = toggled id f.member_ids } } }

unfoldable pub project_payload : ProjectForm → ProjectPayload
project_payload f = record {
  name = f.name;
  description = or_undefined f.description;
  member_ids = f.member_ids;
}

-- `handleSubmit` up to its `await`
unfoldable pub handle_submit : State → State × Save ProjectPayload
unfolding project_payload save
handle_submit s =
    (record s { error = none }, save s.draft.editing_id (project_payload s.draft.form))

unfoldable pub settle : Answer (Unit {0}) → State → State
settle (returned _) s = record s { draft = record { form = empty_project_form; editing_id = none } }
settle (thrown e) s = record s { error = some e }
