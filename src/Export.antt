-- ===== src/Export.antt =====
-- src/lib/umlExport.ts: the exports of a project as PlantUML source and as JSON, and the escaping of
-- both diagram formats.
pub mod Texts
pub mod PlantUml
pub mod ProjectJson
pub mod DrawIo
pub mod Dialog
pub mod Cells
pub mod Lines
pub mod Labels
pub mod Secrets
pub mod Downloads
pub mod Tests
use davy_jones.Prelude.{String, Bool, List, [], ◌∷◌}
use davy_jones.Prelude.Dict.{Dict, set}
use davy_jones.Types.{Credential}

pub record ExportOpts : Type 0 where
  pub include_secrets : Bool

-- the entries set one after another
unfoldable pub cred_by_id_from : Dict Credential → List Credential → Dict Credential
unfolding set
cred_by_id_from m [] = m
cred_by_id_from m (c ∷ cs) = cred_by_id_from (set m c.id c) cs

-- `new Map(credentials.map((c) => [c.id, c]))`
unfoldable pub cred_by_id : List Credential → Dict Credential
unfolding cred_by_id_from
cred_by_id credentials = cred_by_id_from [] credentials
