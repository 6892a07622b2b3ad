-- ===== src/Forms.antt =====
-- The forms of src/components/Layout/AddResourcesPanel.tsx. The forms for hosts, services and
-- credentials hold a draft and the id of the resource that is edited; a submit makes one request, and
-- the form is cleared when it returns. A request that throws leaves the form alone.
pub mod Vpns
pub mod Hosts
pub mod Credentials
pub mod Services
pub mod Building
pub mod Bindings
pub mod Shares
pub mod Reopened
pub mod Tests
use davy_jones.Prelude.{String, ◌==◌, Option, none, some, if◌then◌else◌}
use davy_jones.Auth.{Answer, returned, thrown}

-- the request of a submit, for a payload of type `P`
pub data Save (P : Type 0) : Type 0 where
  create : P → Save P
  update : String → P → Save P

-- `editingId ? onUpdate(editingId, payload) : onCreate(payload)`
unfoldable pub save : {P : Type 0} → Option String → P → Save P
save none p = create p
save (some id) p = if id == "" then create p else update id p

-- a form's values, of type `F`, and `editingId`
pub record Draft (F : Type 0) : Type 0 where
  pub form : F
  pub editing_id : Option String

-- what follows the `await` of a submit, for the form's empty values
unfoldable pub saved : {F : Type 0} → F → Answer (Unit {0}) → Draft F → Draft F
saved empty (returned _) d = record { form = empty; editing_id = none }
saved empty (thrown e) d = d

-- `cancelEdit`
unfoldable pub cancel_edit : {F : Type 0} → F → Draft F → Draft F
cancel_edit empty d = record { form = empty; editing_id = none }

-- `s || undefined`
abbrev pub or_undefined : String → Option String
or_undefined s = if s == "" then none else some s
