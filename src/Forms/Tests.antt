-- ===== src/Forms/Tests.antt =====
-- Tests of the forms for resources.
use davy_jones.Prelude.{
  String, ◌==◌, ◌≡◌, refl, sym, ap, ◌∙◌, Option, none, some, eq_refl, if◌then◌else◌, ◌⊎◌, inl, inr,
  Bool-cases,
}
use davy_jones.Prelude.Integers.{pos}
use davy_jones.Types.{Credential}
use davy_jones.Auth.{Answer, returned}
use davy_jones.Forms.{update}
use davy_jones.Forms.Vpns as Vpns
use davy_jones.Forms.Vpns.{CommandResult, ipsec, fill_in, preset, apply_preset, toggle_share}
use davy_jones.Forms.Building as Building
use davy_jones.Forms.Building.{VpnPayload, Request, bind, Reply, failed_build}
use davy_jones.Forms.Bindings.{VpnServer}
use davy_jones.Forms.Reopened.{credential_values, has_no_auth, handle_submit-start_edit}
use davy_jones.Forms.Credentials as Credentials

-- a server that keeps two tables: the profile bound to a VPN, and the one its container has
abbrev Tables : Type 0
Tables = (String → String) × (String → String)

abbrev put : String → String → (String → String) → String → String
put id value table k = if k == id then value else table k

abbrev fine : CommandResult
fine = record { stdout = ""; stderr = ""; exit_code = pos 0; error = none }

abbrev broken : CommandResult
broken = record { stdout = ""; stderr = "no image"; exit_code = pos 125; error = none }

-- A build without an image fails, and leaves the container of before.
abbrev build_result : VpnPayload → CommandResult
build_result p = if p.image == "" then broken else fine

abbrev built_with : VpnPayload → String → String → (String → String) → String → String
built_with p id profile table = if p.image == "" then table else put id profile table

two_tables : Request → Tables → Reply Tables
two_tables (bind id profile) (b, u) = ((put id profile b, u), returned none)
two_tables (Building.create p) (b, u) = (
  (put "new" "" b, built_with p "new" "" u),
  returned (some (record { id = "new"; container = build_result p })),
)
two_tables (Building.update id p) (b, u) = (
  (b, built_with p id (b id) u),
  returned (some (record { id = id; container = build_result p })),
)

put-same : (id value : String) (table : String → String) → put id value table id ≡ value
put-same id value table = rw (eq_refl id) refl

binds :
    (id profile : String) (s t : Tables) (r : Option Building.Saved)
    → two_tables (bind id profile) s ≡ (t, returned r)
    → t.0 id ≡ profile
unfolding two_tables
binds id profile (b, u) t r h =
    let there : ◌≡◌ {A = Tables} (put id profile b, u) t = ap (λ (x : Reply Tables). x.0) h in
    ap (λ (x : Tables). x.0 id) (sym there) ∙ put-same id profile b

built_or_failed :
    (p : VpnPayload) (id profile : String) (u : String → String) (v : Building.Saved)
    → v.container ≡ build_result p
    → (built_with p id profile u id ≡ profile) ⊎ (failed_build (some v) ≡ some v.container)
unfolding failed_build
built_or_failed p id profile u v e = elim (Bool-cases (p.image == "")) [
  | inl f ↦ let bad : v.container ≡ broken = rw f at e in inr (rw bad refl)
  | inr f ↦ inl (rw f (put-same id profile u))
]

updates :
    (id : String) (p : VpnPayload) (s t : Tables) (r : Option Building.Saved)
    → two_tables (Building.update id p) s ≡ (t, returned r)
    → (t.0 id ≡ s.0 id)
      × ((v : Building.Saved)
          → r ≡ some v
          → (v.id ≡ id) × ((t.1 id ≡ s.0 id) ⊎ (failed_build (some v) ≡ some v.container)))
unfolding two_tables
updates id p (b, u) t r h =
    let there : ◌≡◌ {A = Tables} (b, built_with p id (b id) u) t =
      ap (λ (x : Reply Tables). x.0) h in
    let new : Building.Saved = record { id = id; container = build_result p } in
    (
      ap (λ (x : Tables). x.0 id) (sym there),
      λ v e.
          let same : new ≡ v = cc in
          (
            ap (λ (w : Building.Saved). w.id) (sym same),
            rw (ap (λ (x : Tables). x.1 id) (sym there)) (
                built_or_failed p id (b id) u v
                  (ap (λ (w : Building.Saved). w.container) (sym same))),
          ),
    )

creates :
    (p : VpnPayload) (s t : Tables) (v : Building.Saved)
    → two_tables (Building.create p) s ≡ (t, returned (some v))
    → (t.0 v.id ≡ "") × ((t.1 v.id ≡ "") ⊎ (failed_build (some v) ≡ some v.container))
unfolding two_tables
creates p (b, u) t v h =
    let there : ◌≡◌ {A = Tables} (put "new" "" b, built_with p "new" "" u) t =
      ap (λ (x : Reply Tables). x.0) h in
    let new : Building.Saved = record { id = "new"; container = build_result p } in
    let answer : ◌≡◌ {A = Answer (Option Building.Saved)} (returned (some new))
        (returned (some v)) =
      ap (λ (x : Reply Tables). x.1) h in
    let same : new ≡ v = cc in
    let bound : t.0 "new" ≡ "" = ap (λ (x : Tables). x.0 "new") (sym there) ∙ put-same "new" "" b in
    let built =
      built_or_failed p "new" "" u v (ap (λ (w : Building.Saved). w.container) (sym same)) in
    (
      ap (λ (w : Building.Saved). t.0 w.id) (sym same) ∙ bound,
      rw
          (ap (λ (w : Building.Saved). t.1 w.id) (sym same)
            ∙ ap (λ (x : Tables). x.1 "new") (sym there))
          built,
    )

abbrev a_server : VpnServer
a_server = record {
  S = Tables;
  serve = two_tables;
  bound = λ s. s.0;
  built = λ s. s.1;
  bind_lem = binds;
  update_lem = updates;
  create_lem = creates;
}

-- a new VPN from the IPsec preset, with a profile chosen
abbrev tunnel : Vpns.State
tunnel = record Vpns.opened {
  form = record Vpns.empty_vpn_form {
    name = "office";
    image = "ipsec-vpn";
    command = ipsec.command;
  };
  ipsec_credential_id = "ipsec-1";
}

abbrev no_tables : Tables
no_tables = (λ id. "", λ id. "")

tunnel_filled : fill_in (preset "ipsec") Vpns.empty_vpn_form ≡ record Vpns.empty_vpn_form {
  image = "davy-jones-ipsec-vpn:latest";
  command = ipsec.command;
  port = 500;
}
unfolding fill_in preset
tunnel_filled = refl

abbrev ended : Tables
ended =
    (put "new" "ipsec-1" (put "new" "" (λ id. "")), put "new" "ipsec-1" (put "new" "" (λ id. "")))

abbrev root : Credential
root = record {
  id = "c1";
  name = "root";
  username = "root";
  password = some "pw";
  private_key = none;
  passphrase = none;
  project_id = none;
}

abbrev empty_state : Credentials.State
empty_state = record {
  draft = record { form = Credentials.empty_credential_form; editing_id = none };
  error = none;
}

handle_submit-start_edit_example :
    (Credentials.handle_submit (Credentials.start_edit root empty_state)).1
    ≡ (if has_no_auth root then none else some (update "c1" (credential_values root)))
handle_submit-start_edit_example = handle_submit-start_edit root empty_state refl
