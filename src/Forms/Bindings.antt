-- ===== src/Forms/Bindings.antt =====
-- src/components/Layout/AddResourcesPanel.tsx, `handleSubmit` of `VpnForm`: which IPsec profile a saved VPN
-- is bound to, and which its container was built from.
use davy_jones.Prelude.{String, ◌≡◌, refl, Option, some, ◌⊎◌}
use davy_jones.Auth.{returned, thrown}
use davy_jones.Forms.Building.{
  VpnPayload, Saved, Request, bind, create, update, Reply, and_then, failed_build,
}

-- What the server keeps of a VPN's container, and what the requests promise: a build takes the profile
-- that is bound at that time, or it fails and the answer says so (the VPN is saved either way), an
-- update answers with the VPN's id, and a new VPN is bound to none.
pub record VpnServer : Type 1 where
  pub S : Type 0
  pub serve : Request → S → Reply S
  -- the profile that a VPN is bound to, "" for none, and the one that its container was built from
  pub bound : S → String → String
  pub built : S → String → String
  pub bind_lem :
      (id profile : String) (s t : S) (r : Option Saved)
      → serve (bind id profile) s ≡ (t, returned r)
      → bound t id ≡ profile
  pub update_lem :
      (id : String) (p : VpnPayload) (s t : S) (r : Option Saved)
      → serve (update id p) s ≡ (t, returned r)
      → (bound t id ≡ bound s id)
        × ((v : Saved)
            → r ≡ some v
            → (v.id ≡ id)
              × ((built t id ≡ bound s id) ⊎ (failed_build (some v) ≡ some v.container)))
  pub create_lem :
      (p : VpnPayload) (s t : S) (v : Saved)
      → serve (create p) s ≡ (t, returned (some v))
      → (bound t v.id ≡ "") × ((built t v.id ≡ "") ⊎ (failed_build (some v) ≡ some v.container))

-- The VPN is bound to the profile, and its container was built from it, or the answer says that the
-- build has failed.
abbrev IsBuiltFrom : (server : VpnServer) → String → server.S → Saved → Type 0
IsBuiltFrom server profile s v =
    (server.bound s v.id ≡ profile)
    × ((server.built s v.id ≡ profile) ⊎ (failed_build (some v) ≡ some v.container))

-- an `await` that has returned
pub and_then-returned :
    {S : Type 0} (first : Reply S) (next : Option Saved → S → Reply S) (t : S) (r : Option Saved)
    → and_then first next ≡ (t, returned r)
    → (s : S) × (q : Option Saved) × (first ≡ (s, returned q)) × (next q s ≡ (t, returned r))
unfolding and_then
and_then-returned (s, returned q) next t r h = (s, q, refl, h)
and_then-returned (s, thrown e) next t r h = cc
