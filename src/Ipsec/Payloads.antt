-- ===== src/Ipsec/Payloads.antt =====
-- src/components/Layout/IpsecCredentialForm.tsx: the payload of a submit, field by field.
use davy_jones.Prelude.{
  String, ◌==◌, ◌≡◌, arith, Bool, not, ◌||◌, Option, none, some, if◌then◌else◌,
}
use davy_jones.Ipsec.Keys.{
  Form, Payload, text_of, put, psk_key, certificate_key, private_key_key, passphrase_key,
  password_key,
}
use davy_jones.Ipsec.{payload_of, add_secrets, base_payload}

-- A secret is sent when it is filled in or the record is a new one.
abbrev pub sent : Bool → String → Option String
sent editing v = if not (v == "") || not editing then some v else none

module _ (u v w x y : String) where
  puts :
      (a b c d e : Bool) (p : Payload)
      → (let p1 = if a then put psk_key u p else p in
          let p2 = if b then put certificate_key v p1 else p1 in
          let p3 = if c then put private_key_key w p2 else p2 in
          let p4 = if d then put passphrase_key x p3 else p3 in
          if e then put password_key y p4 else p4)
        ≡ record p {
          psk = if a then some u else p.psk;
          certificate = if b then some v else p.certificate;
          private_key = if c then some w else p.private_key;
          passphrase = if d then some x else p.passphrase;
          password = if e then some y else p.password;
        }
  unfolding put
  puts a b c d e p = ground arith

pub payload_of_lem :
    (editing : Bool) (f : Form)
    → payload_of editing f ≡ record (base_payload f) {
      psk = sent editing f.psk;
      certificate = sent editing f.certificate;
      private_key = sent editing f.private_key;
      passphrase = sent editing f.passphrase;
      password = sent editing f.password;
    }
unfolding payload_of add_secrets text_of
payload_of_lem editing f =
    puts f.psk f.certificate f.private_key f.passphrase f.password
      (not (f.psk == "") || not editing) (not (f.certificate == "") || not editing)
      (not (f.private_key == "") || not editing) (not (f.passphrase == "") || not editing)
      (not (f.password == "") || not editing) (base_payload f)
