-- ===== src/Layout/Filing.antt =====
-- src/components/Graph/layout.ts: the loop that files each host under its VPN, or with the loose ones.
use mathlib.Core.List.{append-nil, append_assoc}
use davy_jones.Prelude.{
  ◌≡◌, refl, sym, ◌∙◌, Bool, true, false, none, some, List, [], ◌∷◌, ◌++◌, ◌==◌, String, filter,
  arith, Option-cases, Bool-cases, inl, inr, if◌then◌else◌,
}
use davy_jones.Prelude.Dict.{bucket, bucket-push, get}
use davy_jones.Types.{Vpn, Host}
use davy_jones.Layout.Model.{attachment, Filed, file_host, file_hosts}
use davy_jones.Layout.Build.{filed}
use davy_jones.Layout.Model.{Scene}

module _ (vpns : List Vpn) where
  -- `h` hangs below the VPN with this id.
  abbrev pub attached_to : String → Host → Bool
  attached_to id h = elim (attachment vpns h) [ none ↦ false | some j ↦ j == id ]

  -- `h` hangs below no VPN of the canvas.
  abbrev pub is_loose : Host → Bool
  is_loose h = elim (attachment vpns h) [ none ↦ true | some _ ↦ false ]

  loose-file_hosts :
      (f : Filed) (hs : List Host) → (file_hosts vpns f hs).loose ≡ f.loose ++ filter is_loose hs
  unfolding file_hosts
  loose-file_hosts f [] = sym (append-nil _)
  loose-file_hosts f (h ∷ hs) = ground (
    arith,
    loose-file_hosts (file_host vpns f h) hs,
    append_assoc f.loose (h ∷ []) (filter is_loose hs),
  )

  by_vpn-file_host :
      (f : Filed) (h : Host) (id : String)
      → bucket (file_host vpns f h).by_vpn id
        ≡ (if attached_to id h then bucket f.by_vpn id ++ h ∷ [] else bucket f.by_vpn id)
  unfolding file_host
  by_vpn-file_host f h id = elim (Option-cases (attachment vpns h)) [
    | inl e ↦ ground arith
    | inr (j, e) ↦ ground (arith, bucket-push f.by_vpn j id h)
  ]

  by_vpn-file_hosts :
      (f : Filed) (hs : List Host) (id : String)
      → bucket (file_hosts vpns f hs).by_vpn id ≡ bucket f.by_vpn id ++ filter (attached_to id) hs
  unfolding file_hosts
  by_vpn-file_hosts f [] id = sym (append-nil _)
  by_vpn-file_hosts f (h ∷ hs) id =
      by_vpn-file_hosts (file_host vpns f h) hs id
      ∙ rw by_vpn-file_host (elim (Bool-cases (attached_to id h)) [
        | inl e ↦ rw e (append_assoc (bucket f.by_vpn id) (h ∷ []) (filter (attached_to id) hs))
        | inr e ↦ rw e refl
      ])

module _ {M : Type 0} (scene : Scene M) where
  -- the hosts below a VPN
  abbrev pub hosts_of : String → List Host
  hosts_of id = filter (attached_to scene.vpns id) scene.hosts

  abbrev pub loose_hosts : List Host
  loose_hosts = filter (is_loose scene.vpns) scene.hosts

  pub loose-filed : (filed scene).loose ≡ loose_hosts
  unfolding filed
  loose-filed = loose-file_hosts scene.vpns _ scene.hosts

  pub by_vpn-filed : (id : String) → bucket (filed scene).by_vpn id ≡ hosts_of id
  unfolding filed get
  by_vpn-filed id = by_vpn-file_hosts scene.vpns _ scene.hosts id
