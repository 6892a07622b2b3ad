-- ===== src/Export/Secrets.antt =====
-- The exports of src/lib/umlExport.ts without `includeSecrets`: the secrets have no influence.
use davy_jones.Prelude.{
  String, ◌≡◌, refl, ap, ◌∙◌, arith, false, true, Option, none, some, List, [], ◌∷◌, ◌==◌, map, All,
  if◌then◌else◌, Bool-cases, ◌⊎◌, inl, inr,
}
use mathlib.Core.Option
use davy_jones.Prelude.Dict.{Dict, get, set, group_by}
use davy_jones.Prelude.Text.{truthy}
use davy_jones.Types.{Vpn, Host, Service, Credential, Project}
use davy_jones.Export.{ExportOpts, cred_by_id, cred_by_id_from}
use davy_jones.Export.PlantUml.{
  auth_method, credential_line, host_lines, hosts_lines, uml_lines, build_plant_uml,
}
use davy_jones.Export.ProjectJson.{redact, build_project_json}

-- the credential with other secrets, but with a private key only if it had one
abbrev pub blinded : Credential → Credential
blinded c = record c {
  password = none;
  private_key = if truthy c.private_key then some "-" else none;
  passphrase = none;
}

pub auth_method-blinded : (c : Credential) → auth_method (blinded c) ≡ auth_method c
unfolding auth_method
auth_method-blinded c = elim (Bool-cases (truthy c.private_key)) [
  | inl e ↦ rw e refl
  | inr e ↦ rw e refl
]

module _ {A B : Type 0} (f : A → B) where
  abbrev on_values : Dict A → Dict B
  on_values = map (λ e. (e.0, f e.1))

  get-on_values : (m : Dict A) (k : String) → get (on_values m) k ≡ Option.map f (get m k)
  unfolding get
  get-on_values [] k = refl
  get-on_values ((j, v) ∷ m) k = ground (arith, get-on_values m k)

  set-on_values :
      (m : Dict A) (k : String) (v : A) → set (on_values m) k (f v) ≡ on_values (set m k v)
  unfolding set
  set-on_values [] k v = refl
  set-on_values ((j, w) ∷ m) k v = elim (Bool-cases (j == k)) [
    | inl e ↦ rw e refl
    | inr e ↦ rw e (ap (λ n. (j, f w) ∷ n) (set-on_values m k v))
  ]

cred_by_id_from-blinded :
    (m : Dict Credential) (cs : List Credential)
    → cred_by_id_from (on_values blinded m) (map blinded cs)
      ≡ on_values blinded (cred_by_id_from m cs)
unfolding cred_by_id_from
cred_by_id_from-blinded m [] = refl
cred_by_id_from-blinded m (c ∷ cs) =
    ap (λ n. cred_by_id_from n (map blinded cs)) (set-on_values blinded m c.id c)
    ∙ cred_by_id_from-blinded (set m c.id c) cs

pub get-blinded :
    (cs : List Credential) (id : String)
    → get (cred_by_id (map blinded cs)) id ≡ Option.map blinded (get (cred_by_id cs) id)
unfolding cred_by_id
get-blinded cs id =
    rw (cred_by_id_from-blinded [] cs) (get-on_values blinded (cred_by_id_from [] cs) id)

abbrev pub no_secrets : ExportOpts
no_secrets = record { include_secrets = false }

credential_line-blinded :
    (o : Option Credential)
    → credential_line (Option.map blinded o) no_secrets ≡ credential_line o no_secrets
unfolding credential_line
credential_line-blinded none = refl
credential_line-blinded (some c) = rw (auth_method-blinded c)

module _ (by_host : Dict (List Service)) (cs : List Credential) where
  host_lines-blinded :
      (h : Host)
      → host_lines by_host (cred_by_id (map blinded cs)) no_secrets h
        ≡ host_lines by_host (cred_by_id cs) no_secrets h
  unfolding host_lines
  host_lines-blinded h = rw (
    get-blinded cs h.credential_id,
    credential_line-blinded (get (cred_by_id cs) h.credential_id),
  )

  hosts_lines-blinded :
      (hs : List Host)
      → hosts_lines by_host (cred_by_id (map blinded cs)) no_secrets hs
        ≡ hosts_lines by_host (cred_by_id cs) no_secrets hs
  unfolding hosts_lines
  hosts_lines-blinded [] = refl
  hosts_lines-blinded (h ∷ hs) = rw (host_lines-blinded h, hosts_lines-blinded hs)

-- Without `includeSecrets` the PlantUML source does not depend on the passwords, the passphrases and
-- the text of the private keys: blinded credentials give the same source.
pub build_plant_uml-blinded :
    (project : Option Project) (vpns : List Vpn) (hosts : List Host) (services : List Service)
    (credentials : List Credential)
    → build_plant_uml project vpns hosts services (map blinded credentials) no_secrets
      ≡ build_plant_uml project vpns hosts services credentials no_secrets
unfolding build_plant_uml uml_lines
build_plant_uml-blinded project vpns hosts services credentials =
    rw (hosts_lines-blinded (group_by (λ (s : Service). s.host_id) services) credentials hosts)

-- nothing that opens a session
abbrev pub IsBare : Credential → Type 0
IsBare c = (c.password ≡ none) × (c.private_key ≡ none) × (c.passphrase ≡ none)

redacted-IsBare : (cs : List Credential) → All IsBare (map redact cs)
unfolding redact
redacted-IsBare [] = tt
redacted-IsBare (c ∷ cs) = ((refl, refl, refl), redacted-IsBare cs)

-- what stays of a credential
abbrev pub shape : Credential → String × String × String × Option String
shape c = (c.id, c.name, c.username, c.project_id)

redacted_shapes : (cs : List Credential) → map shape (map redact cs) ≡ map shape cs
unfolding redact
redacted_shapes [] = refl
redacted_shapes (c ∷ cs) = ap (λ r. shape c ∷ r) (redacted_shapes cs)

map_kept : (cs : List Credential) → map (λ (c : Credential). c) cs ≡ cs
map_kept [] = refl
map_kept (c ∷ cs) = ap (λ r. c ∷ r) (map_kept cs)

-- The JSON export holds no password, key or passphrase unless `includeSecrets` is set. The
-- credentials keep their ids, names, users and projects, and with `includeSecrets` they are exported
-- as they are.
pub build_project_json_lem :
    (project : Option Project) (vpns : List Vpn) (hosts : List Host) (services : List Service)
    (credentials : List Credential) (opts : ExportOpts)
    → ((opts.include_secrets ≡ false)
        × All IsBare (build_project_json project vpns hosts services credentials opts).credentials
        × (map shape (build_project_json project vpns hosts services credentials opts).credentials
            ≡ map shape credentials))
      ⊎ ((opts.include_secrets ≡ true)
          × ((build_project_json project vpns hosts services credentials opts).credentials
              ≡ credentials))
unfolding build_project_json
build_project_json_lem project vpns hosts services credentials opts =
    elim (Bool-cases opts.include_secrets) [
      | inl e ↦ inr (e, rw e (map_kept credentials))
      | inr e ↦ inl (e, rw e (redacted-IsBare credentials), rw e (redacted_shapes credentials))
    ]
