-- ===== src/Ipsec/CleanForms.antt =====
-- src/components/Layout/IpsecCredentialForm.tsx: clean texts in a clean form.
use davy_jones.Prelude.{String}
use davy_jones.Ipsec.Keys.{
  Form, TextKey, set_text, name_key, psk_key, certificate_key, private_key_key, passphrase_key,
  gateway_cert_key, local_id_key, remote_id_key, username_key, password_key, ike_proposal_key,
  esp_proposal_key, remote_ts_key, local_ts_key,
}
use davy_jones.Ipsec.{labelled}
use davy_jones.Ipsec.Braces.{IsClean, IsCleanForm}

-- A form stays clean when a clean text is put into one of its fields.
pub set_text-IsCleanForm :
    (k : TextKey) (v : String) (f : Form) → IsClean v → IsCleanForm f → IsCleanForm (set_text k v f)
unfolding labelled set_text
set_text-IsCleanForm name_key v f c h = h
set_text-IsCleanForm psk_key v f c h = (c, h.1)
set_text-IsCleanForm certificate_key v f c h = (h.0, (c, h.1.1))
set_text-IsCleanForm private_key_key v f c h = (h.0, (h.1.0, (c, h.1.1.1)))
set_text-IsCleanForm passphrase_key v f c h = (h.0, (h.1.0, (h.1.1.0, (c, h.1.1.1.1))))
set_text-IsCleanForm gateway_cert_key v f c h =
    (h.0, (h.1.0, (h.1.1.0, (h.1.1.1.0, (c, h.1.1.1.1.1)))))
set_text-IsCleanForm local_id_key v f c h =
    (h.0, (h.1.0, (h.1.1.0, (h.1.1.1.0, (h.1.1.1.1.0, (c, h.1.1.1.1.1.1))))))
set_text-IsCleanForm remote_id_key v f c h =
    (h.0, (h.1.0, (h.1.1.0, (h.1.1.1.0, (h.1.1.1.1.0, (h.1.1.1.1.1.0, (c, h.1.1.1.1.1.1.1)))))))
set_text-IsCleanForm username_key v f c h = (
  h.0,
  (
    h.1.0,
    (
      h.1.1.0,
      (h.1.1.1.0, (h.1.1.1.1.0, (h.1.1.1.1.1.0, (h.1.1.1.1.1.1.0, (c, h.1.1.1.1.1.1.1.1))))),
    ),
  ),
)
set_text-IsCleanForm password_key v f c h = (
  h.0,
  (
    h.1.0,
    (
      h.1.1.0,
      (
        h.1.1.1.0,
        (
          h.1.1.1.1.0,
          (h.1.1.1.1.1.0, (h.1.1.1.1.1.1.0, (h.1.1.1.1.1.1.1.0, (c, h.1.1.1.1.1.1.1.1.1)))),
        ),
      ),
    ),
  ),
)
set_text-IsCleanForm ike_proposal_key v f c h = (
  h.0,
  (
    h.1.0,
    (
      h.1.1.0,
      (
        h.1.1.1.0,
        (
          h.1.1.1.1.0,
          (
            h.1.1.1.1.1.0,
            (
              h.1.1.1.1.1.1.0,
              (h.1.1.1.1.1.1.1.0, (h.1.1.1.1.1.1.1.1.0, (c, h.1.1.1.1.1.1.1.1.1.1))),
            ),
          ),
        ),
      ),
    ),
  ),
)
set_text-IsCleanForm esp_proposal_key v f c h = (
  h.0,
  (
    h.1.0,
    (
      h.1.1.0,
      (
        h.1.1.1.0,
        (
          h.1.1.1.1.0,
          (
            h.1.1.1.1.1.0,
            (
              h.1.1.1.1.1.1.0,
              (
                h.1.1.1.1.1.1.1.0,
                (h.1.1.1.1.1.1.1.1.0, (h.1.1.1.1.1.1.1.1.1.0, (c, h.1.1.1.1.1.1.1.1.1.1.1))),
              ),
            ),
          ),
        ),
      ),
    ),
  ),
)
set_text-IsCleanForm remote_ts_key v f c h = (
  h.0,
  (
    h.1.0,
    (
      h.1.1.0,
      (
        h.1.1.1.0,
        (
          h.1.1.1.1.0,
          (
            h.1.1.1.1.1.0,
            (
              h.1.1.1.1.1.1.0,
              (
                h.1.1.1.1.1.1.1.0,
                (
                  h.1.1.1.1.1.1.1.1.0,
                  (
                    h.1.1.1.1.1.1.1.1.1.0,
                    (h.1.1.1.1.1.1.1.1.1.1.0, (c, h.1.1.1.1.1.1.1.1.1.1.1.1)),
                  ),
                ),
              ),
            ),
          ),
        ),
      ),
    ),
  ),
)
set_text-IsCleanForm local_ts_key v f c h = (
  h.0,
  (
    h.1.0,
    (
      h.1.1.0,
      (
        h.1.1.1.0,
        (
          h.1.1.1.1.0,
          (
            h.1.1.1.1.1.0,
            (
              h.1.1.1.1.1.1.0,
              (
                h.1.1.1.1.1.1.1.0,
                (
                  h.1.1.1.1.1.1.1.1.0,
                  (
                    h.1.1.1.1.1.1.1.1.1.0,
                    (
                      h.1.1.1.1.1.1.1.1.1.1.0,
                      (h.1.1.1.1.1.1.1.1.1.1.1.0, (c, h.1.1.1.1.1.1.1.1.1.1.1.1.1)),
                    ),
                  ),
                ),
              ),
            ),
          ),
        ),
      ),
    ),
  ),
)
