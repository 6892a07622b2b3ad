-- ===== src/Ipsec/Records.antt =====
-- backend/ipsec.go: what `validateIpsecCredential` says of a record that it lets pass.
use davy_jones.Prelude.{
  String, ◌≡◌, refl, Bool, true, false, not, ◌&&◌, none, some, inl, inr, List, [], ◌∷◌, All, any,
  Bool-cases, nat_eq, if◌then◌else◌, Option,
}
use davy_jones.Prelude.Text.{includes, starts_with}
use davy_jones.Types.{IpsecIkeMode}
use davy_jones.Ipsec.{labelled}
use davy_jones.Ipsec.Server.{Stored, validate, check_mode, texts, is_missing, and_then}
use davy_jones.Ipsec.Braces.{IsClean, IsCleanForm}
use davy_jones.Ipsec.Edits.{shown}

All-of_any : (xs : List String) → any (includes "{{") xs ≡ false → All IsClean xs
All-of_any [] h = tt
All-of_any (x ∷ xs) h = elim (Bool-cases (includes "{{" x)) [
  | inl b ↦ let clash : true ≡ false = rw b at h in cc
  | inr b ↦ (b, All-of_any xs (rw b at h))
]

any-of_All : (xs : List String) → All IsClean xs → any (includes "{{") xs ≡ false
any-of_All [] h = refl
any-of_All (x ∷ xs) h = rw (h.0) (any-of_All xs h.1)

checks_passed :
    (x y z : String) (nameless : Bool) (material : Option String) (version braced : Bool)
    → (if nameless
        then some x
        else and_then material (if version then some y else if braced then some z else none))
      ≡ none
    → (nameless ≡ false) × (material ≡ none) × (version ≡ false) × (braced ≡ false)
checks_passed x y z true material version braced h = cc
checks_passed x y z false (some e) version braced h = cc
checks_passed x y z false none true braced h = cc
checks_passed x y z false none false true h = cc
checks_passed x y z false none false false h = (refl, refl, refl, refl)

abbrev pub bad_version : Stored → Bool
bad_version c =
    not (nat_eq c.ike_version 0) && not (nat_eq c.ike_version 1) && not (nat_eq c.ike_version 2)

-- What a record that passes has: a name that is not blank, the material of its mode, a version that
-- the server knows, and no text that contains "{{".
pub validate-parts :
    (c : Stored)
    → validate c ≡ none
    → (is_missing c.name ≡ false)
      × (check_mode c ≡ none)
      × (bad_version c ≡ false)
      × All IsClean (texts c)
unfolding validate
validate-parts c h =
    let (name, material, version, braced) =
      checks_passed "name is required" "ikeVersion must be 1 or 2" "a value must not contain \"{{\""
        (is_missing c.name) (check_mode c) (bad_version c) (any (includes "{{") (texts c)) h in
    (name, material, version, All-of_any (texts c) braced)

pub parts-validate :
    (c : Stored)
    → is_missing c.name ≡ false
    → check_mode c ≡ none
    → bad_version c ≡ false
    → All IsClean (texts c)
    → validate c ≡ none
unfolding validate
parts-validate c n m v h = rw (n, m, v, any-of_All (texts c) h) refl

-- The form that shows a stored record which passes has no braces.
pub shown-IsCleanForm :
    (m : IpsecIkeMode) (c : Stored) → validate c ≡ none → IsCleanForm (shown m c)
unfolding labelled includes starts_with
shown-IsCleanForm m c h =
    let (_, _, _, clean) = validate-parts c h in
    let (
      psk,
      (
        lid,
        (
          rid,
          (
            group,
            (user, (word, (ike, (esp, (phrase, (cert, (key, (gateway, (rts, (lts, _)))))))))),
          ),
        ),
      ),
    ) =
      clean in
    (
      refl,
      (
        refl,
        (refl, (refl, (gateway, (lid, (rid, (user, (refl, (ike, (esp, (rts, (lts, tt))))))))))),
      ),
    )
