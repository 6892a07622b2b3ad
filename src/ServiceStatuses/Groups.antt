-- ===== src/ServiceStatuses/Groups.antt =====
-- Which services are asked for, and of which host.
use davy_jones.Prelude.{
  String, Bool, ◌&&◌, ◌≡◌, refl, sym, ◌∙◌, List, [], ◌∷◌, ◌++◌, ◌==◌, filter, Bool-cases, inl, inr,
}
use mathlib.Core.List.{append_assoc, append-nil}
use davy_jones.Prelude.Dict.{Dict, get, bucket, push, bucket-push}
use davy_jones.Types.{Service, PingStatus}
use davy_jones.ServiceStatuses.{is_polled, grouped_from, by_host}

module _ (ping : Dict PingStatus) (dead : List String) where
  -- polled, and of this host
  abbrev pub asks : String → Service → Bool
  asks host_id s = is_polled ping dead s && s.host_id == host_id

  bucket-grouped_from :
      (m : Dict (List Service)) (ss : List Service) (host_id : String)
      → bucket (grouped_from ping dead m ss) host_id ≡ bucket m host_id ++ filter (asks host_id) ss
  unfolding grouped_from
  bucket-grouped_from m [] host_id = sym (append-nil _)
  bucket-grouped_from m (s ∷ ss) host_id = elim (Bool-cases (is_polled ping dead s)) [
    | inr e ↦ rw e (bucket-grouped_from m ss host_id)
    | inl e ↦ rw e (
        bucket-grouped_from (push m s.host_id s) ss host_id
        ∙ rw (bucket-push m s.host_id host_id s) (elim (Bool-cases (s.host_id == host_id)) [
          | inl f ↦ rw f (append_assoc (bucket m host_id) (s ∷ []) (filter (asks host_id) ss))
          | inr f ↦ rw f refl
        ]))
  ]

  -- A round asks each host for exactly its Docker services, in their order, if the host is online and
  -- is not known to be gone; it asks no other host.
  pub bucket-by_host :
      (services : List Service) (host_id : String)
      → bucket (by_host ping dead services) host_id ≡ filter (asks host_id) services
  unfolding by_host get
  bucket-by_host services host_id = bucket-grouped_from [] services host_id
