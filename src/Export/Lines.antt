-- ===== src/Export/Lines.antt =====
-- The PlantUML source line by line: no text of the project starts a line of its own.
use Prim.Native.Nat.{ℕ}
use Prim.Native.Char.{Char, code}
use Prim.Native.String.{[], ◌∷◌}
use mathlib.Core.List.{List}
use mathlib.Core.Bool.{false≢true}
use davy_jones.Prelude.{
  String, Bool, false, true, not, ltb, ◌≡◌, ◌≢◌, sym, refl, ◌∙◌, ap, arith, Option, none, some,
  ◌++◌, map, All, All-append, nat_eq, Bool-cases, inl, inr,
}
use davy_jones.Prelude.Dict.{Dict, get, bucket, group_by}
use davy_jones.Prelude.Text.{template, has_char, expand, truthy, of_char, concat}
use davy_jones.Prelude.Split.{has_char-template, has_char-expand, split, split-join}
use davy_jones.Types.{Vpn, Host, Service, Credential, Project}
use davy_jones.Export.{ExportOpts, cred_by_id}
use davy_jones.Export.Texts.{
  is_word, word_char, sanitize_id, blank_char, mask_first, plant_uml_safe,
}
use davy_jones.Export.PlantUml.{
  when_set, auth_method, one_line, secret_lines, credential_line, vpn_line, artifact_line, host_var,
  host_label, host_block, link_line, host_lines, hosts_lines, title_line, uml_lines,
  build_plant_uml,
}

-- a text without a line feed
abbrev pub IsLine : String → Type 0
IsLine s = has_char s b'\n' ≡ false

b≢not-b : (b : Bool) → b ≢ not b
b≢not-b true e = false≢true (sym e)
b≢not-b false e = false≢true e

-- A test that a line feed settles, in front of a character that is kept.
kept :
    (p : ℕ → Bool) (c : Char) (b : Bool)
    → p b'\n' ≡ not b
    → p (code c) ≡ b
    → nat_eq (code c) b'\n' ≡ false
kept p c b feed e = elim (Bool-cases (nat_eq (code c) b'\n')) [
  | inl h ↦
      let same : code c ≡ b'\n' = ground arith in absurd (b≢not-b b (sym e ∙ ap p same ∙ feed))
  | inr h ↦ h
]

of_char-IsLine : (c : Char) → nat_eq (code c) b'\n' ≡ false → IsLine (of_char c)
unfolding has_char
of_char-IsLine c h = ground arith

word_char-IsLine : (c : Char) → IsLine (word_char c)
word_char-IsLine c = elim (Bool-cases (is_word (code c))) [
  | inl e ↦ rw e (of_char-IsLine c (kept is_word c true refl e))
  | inr e ↦ rw e (elim (Bool-cases (ltb (code c) 65536)) [
    | inl f ↦ rw f (unfold has_char in refl)
    | inr f ↦ rw f (unfold has_char in refl)
  ])
]

sanitize_id-IsLine : (s : String) → IsLine (sanitize_id s)
unfolding sanitize_id
sanitize_id-IsLine s = has_char-expand word_char b'\n' word_char-IsLine s

blank_char-IsLine : (c : Char) → IsLine (blank_char c)
blank_char-IsLine c = elim (Bool-cases (has_char "\"\n\r" (code c))) [
  | inl e ↦ rw e (unfold has_char in refl)
  | inr e ↦ rw e (of_char-IsLine c (kept (has_char "\"\n\r") c false (unfold has_char in refl) e))
]

mask_first-IsLine : (s : String) → IsLine s → IsLine (mask_first s)
unfolding mask_first has_char concat
mask_first-IsLine [] h = refl
mask_first-IsLine (c ∷ s) h = ground arith

plant_uml_safe-IsLine : (s : String) → IsLine (plant_uml_safe s)
unfolding plant_uml_safe
plant_uml_safe-IsLine s =
    mask_first-IsLine (expand blank_char s) (has_char-expand blank_char b'\n' blank_char-IsLine s)

host_var-IsLine : (h : Host) → IsLine (host_var h)
unfolding host_var has_char
host_var-IsLine h = rw (has_char-template, sanitize_id-IsLine) refl

vpn_line-IsLine : (v : Vpn) → IsLine (vpn_line v)
unfolding vpn_line has_char
vpn_line-IsLine v =
    rw (has_char-template, plant_uml_safe-IsLine, plant_uml_safe-IsLine, sanitize_id-IsLine) refl

artifact_line-IsLine : (s : Service) → IsLine (artifact_line s)
unfolding artifact_line has_char
artifact_line-IsLine s =
    rw (has_char-template, plant_uml_safe-IsLine, plant_uml_safe-IsLine, sanitize_id-IsLine) refl

host_label-IsLine : (h : Host) → IsLine (host_label h)
unfolding host_label has_char
host_label-IsLine h = rw (has_char-template, plant_uml_safe-IsLine, plant_uml_safe-IsLine) refl

link_line-IsLine : (h : Host) (id : String) → IsLine (link_line h id)
unfolding link_line has_char
link_line-IsLine h id = rw (has_char-template, sanitize_id-IsLine, host_var-IsLine) refl

title_line-IsLine : (project : Option Project) → IsLine (title_line project)
unfolding title_line has_char
title_line-IsLine project = rw (has_char-template, plant_uml_safe-IsLine) refl

when_set-IsLine :
    (o : Option String) (line : String → String)
    → ((s : String) → IsLine (line s))
    → All IsLine (when_set o line)
unfolding when_set
when_set-IsLine none line h = tt
when_set-IsLine (some []) line h = tt
when_set-IsLine (some (c ∷ s)) line h = (h (c ∷ s), tt)

secret-IsLine :
    (o : Option String) (label : String) (clean : String → String)
    → IsLine label
    → All IsLine
        (when_set o (λ s. template (List.◌∷◌ label (List.◌∷◌ (plant_uml_safe (clean s)) List.[]))))
secret-IsLine o label clean h =
    when_set-IsLine o _ (λ s. rw (has_char-template, h, plant_uml_safe-IsLine) refl)

secret_lines-IsLine : (cred : Credential) → All IsLine (secret_lines cred)
unfolding secret_lines has_char
secret_lines-IsLine cred =
    All-append IsLine _ _
      (All-append IsLine _ _ (secret-IsLine cred.password "  password: " (λ s. s) refl)
        (secret-IsLine cred.private_key "  private key:\\n" one_line refl))
      (secret-IsLine cred.passphrase "  passphrase: " (λ s. s) refl)

auth_method-IsLine : (cred : Credential) → IsLine (auth_method cred)
unfolding auth_method has_char
auth_method-IsLine cred = elim (Bool-cases (truthy cred.private_key)) [
  | inl e ↦ rw e refl
  | inr e ↦ rw e refl
]

credential_line-IsLine :
    (cred : Option Credential) (opts : ExportOpts) → All IsLine (credential_line cred opts)
unfolding credential_line has_char
credential_line-IsLine none opts = (refl, tt)
credential_line-IsLine (some cred) opts = (
  rw (has_char-template, plant_uml_safe-IsLine, plant_uml_safe-IsLine, auth_method-IsLine) refl,
  elim (Bool-cases opts.include_secrets) [
    | inl e ↦ rw e (secret_lines-IsLine cred)
    | inr e ↦ rw e tt
  ],
)

artifacts-IsLine : (ss : List Service) → All IsLine (map artifact_line ss)
artifacts-IsLine List.[] = tt
artifacts-IsLine (List.◌∷◌ s ss) = (artifact_line-IsLine s, artifacts-IsLine ss)

host_block-IsLine : (h : Host) (ss : List Service) → All IsLine (host_block h ss)
unfolding host_block has_char
host_block-IsLine h List.[] = (rw (has_char-template, host_label-IsLine, host_var-IsLine) refl, tt)
host_block-IsLine h (List.◌∷◌ s ss) = (
  rw (has_char-template, host_label-IsLine, host_var-IsLine) refl,
  All-append IsLine (map artifact_line (List.◌∷◌ s ss)) _ (artifacts-IsLine (List.◌∷◌ s ss))
      (refl, tt),
)

module _ (by_host : Dict (List Service)) (creds : Dict Credential) (opts : ExportOpts) where
  note-IsLine :
      (h : Host)
      → All IsLine (
          List.◌∷◌
            (template (List.◌∷◌ "note right of " (List.◌∷◌ (host_var h) List.[])))
            (credential_line (get creds h.credential_id) opts))
  unfolding has_char
  note-IsLine h = (
    rw (has_char-template, host_var-IsLine) refl,
    credential_line-IsLine (get creds h.credential_id) opts,
  )

  host_lines-IsLine : (h : Host) → All IsLine (host_lines by_host creds opts h)
  unfolding host_lines has_char
  host_lines-IsLine h =
      All-append IsLine _ _
        (All-append IsLine _ _
          (All-append IsLine _ _ (host_block-IsLine h (bucket by_host h.id))
            (when_set-IsLine h.vpn_id (link_line h) (link_line-IsLine h)))
          (note-IsLine h))
        (refl, (refl, tt))

  hosts_lines-IsLine : (hs : List Host) → All IsLine (hosts_lines by_host creds opts hs)
  unfolding hosts_lines
  hosts_lines-IsLine List.[] = tt
  hosts_lines-IsLine (List.◌∷◌ h hs) =
      All-append IsLine (host_lines by_host creds opts h) _ (host_lines-IsLine h)
        (hosts_lines-IsLine hs)

vpn_lines-IsLine : (vs : List Vpn) → All IsLine (map vpn_line vs)
vpn_lines-IsLine List.[] = tt
vpn_lines-IsLine (List.◌∷◌ v vs) = (vpn_line-IsLine v, vpn_lines-IsLine vs)

module _ (project : Option Project) (vpns : List Vpn) (hosts : List Host) (services : List Service)
    (credentials : List Credential) (opts : ExportOpts) where
  uml_lines-IsLine : All IsLine (uml_lines project vpns hosts services credentials opts)
  unfolding uml_lines has_char
  uml_lines-IsLine =
      let by_host = group_by (λ (s : Service). s.host_id) services in
      let creds = cred_by_id credentials in
      let tail = List.◌∷◌ "" (hosts_lines by_host creds opts hosts) in
      let front =
        List.◌∷◌ "@startuml" (List.◌∷◌ (title_line project) (List.◌∷◌ "" (map vpn_line vpns))) in
      All-append IsLine (front ++ tail) (List.◌∷◌ "@enduml" List.[])
        (All-append IsLine front tail
          (refl, (title_line-IsLine project, (refl, vpn_lines-IsLine vpns)))
          (refl, hosts_lines-IsLine by_host creds opts hosts))
        (refl, tt)

  -- A reader that splits the source at line feeds gets the lines that were written and no other,
  -- whatever line feeds the names, addresses and secrets of the project hold.
  pub split-build_plant_uml :
      split b'\n' (build_plant_uml project vpns hosts services credentials opts)
      ≡ uml_lines project vpns hosts services credentials opts
  unfolding build_plant_uml uml_lines
  split-build_plant_uml = split-join "\n" "@startuml" _ (unfold uml_lines in uml_lines-IsLine)
