-- ===== src/Import/Issued.antt =====
-- Which ids the server has issued in a run of the import, and what a request may refer to.
use davy_jones.Prelude.{
  String, Bool, true, false, ◌≡◌, sym, ◌⊎◌, inl, inr, Option, none, some, List, [], ◌∷◌, ◌++◌, ◌==◌,
  Bool-cases,
}
use davy_jones.Prelude.Dict.{Dict, get, set, get-set}
use davy_jones.Auth.{returned}
use davy_jones.Import.Run.{
  Request, create_project, create_credential, create_vpn, create_host, create_service, Server,
}

abbrev pub is_project : Request → Bool
is_project (create_project _ _) = true
is_project _ = false

abbrev pub is_credential : Request → Bool
is_credential (create_credential _ _ _ _ _ _) = true
is_credential _ = false

abbrev pub is_vpn : Request → Bool
is_vpn (create_vpn _ _ _ _ _ _ _ _ _) = true
is_vpn _ = false

abbrev pub is_host : Request → Bool
is_host (create_host _ _ _ _ _ _) = true
is_host _ = false

module _ (server : Server) where
  -- `id` is the server's answer to one of the requests, and that request is of kind `K`.
  pub data Issued (K : Request → Bool) (id : String) : List Request → Type 0 where
    now :
        (log : List Request) (r : Request)
        → K r ≡ true
        → server log r ≡ returned id
        → Issued K id (log ++ r ∷ [])
    later : (log : List Request) (r : Request) → Issued K id log → Issued K id (log ++ r ∷ [])

  -- an optional reference
  abbrev pub IssuedIfSet : (Request → Bool) → List Request → Option String → Type 0
  IssuedIfSet K log none = Unit
  IssuedIfSet K log (some id) = Issued K id log

  -- Every reference of the request has been issued by an earlier one, of the right kind.
  abbrev pub RefersBack : List Request → Request → Type 0
  RefersBack log (create_project _ _) = Unit
  RefersBack log (create_credential _ _ _ _ _ project) = Issued is_project project log
  RefersBack log (create_vpn _ _ _ _ _ _ _ credential project) =
      IssuedIfSet is_credential log credential × Issued is_project project log
  RefersBack log (create_host _ _ credential vpn _ project) =
      ((credential ≡ "") ⊎ Issued is_credential credential log)
      × IssuedIfSet is_vpn log vpn
      × Issued is_project project log
  RefersBack log (create_service _ _ host project) =
      Issued is_host host log × Issued is_project project log

  -- a log of requests that all refer back
  pub data IsLinked : List Request → Type 0 where
    start : IsLinked []
    sent :
        (log : List Request) (r : Request)
        → IsLinked log
        → RefersBack log r
        → IsLinked (log ++ r ∷ [])

  -- every id in the map has been issued
  abbrev pub HoldsIssued : (Request → Bool) → List Request → Dict String → Type 0
  HoldsIssued K log m = (k id : String) → get m k ≡ some id → Issued K id log

  pub HoldsIssued-set :
      (K : Request → Bool) (log : List Request) (m : Dict String) (k id : String)
      → HoldsIssued K log m
      → Issued K id log
      → HoldsIssued K log (set m k id)
  HoldsIssued-set K log m k id h i j other e = elim (Bool-cases (k == j)) [
    | inl b ↦
        let same : some id ≡ some other = rw (get-set m k j id, b) at e in
        let ids : id ≡ other = cc in rw (sym ids) i
    | inr b ↦ h j other (rw (get-set m k j id, b) at e)
  ]

  -- what is known in the course of a run
  pub record Known (project : String) (creds vpns hosts : Dict String) (log : List Request)
      : Type 0 where
    pub from_project : Issued is_project project log
    pub from_creds : HoldsIssued is_credential log creds
    pub from_vpns : HoldsIssued is_vpn log vpns
    pub from_hosts : HoldsIssued is_host log hosts
    pub linked : IsLinked log

  module _ {project : String} {creds vpns hosts : Dict String} {log : List Request} where
    -- What is known stays known after another request that refers back.
    pub Known-sent :
        (r : Request)
        → Known project creds vpns hosts log
        → RefersBack log r
        → Known project creds vpns hosts (log ++ r ∷ [])
    Known-sent r k refers = record {
      from_project = later log r k.from_project;
      from_creds = λ j id e. later log r (k.from_creds j id e);
      from_vpns = λ j id e. later log r (k.from_vpns j id e);
      from_hosts = λ j id e. later log r (k.from_hosts j id e);
      linked = sent log r k.linked refers;
    }

  module _ {project : String} {creds vpns hosts : Dict String} {log : List Request}
      (id new : String) (k : Known project creds vpns hosts log) where
    pub Known-set_creds :
        Issued is_credential new log → Known project (set creds id new) vpns hosts log
    Known-set_creds i = record {
      from_project = k.from_project;
      from_creds = HoldsIssued-set is_credential log creds id new k.from_creds i;
      from_vpns = k.from_vpns;
      from_hosts = k.from_hosts;
      linked = k.linked;
    }

    pub Known-set_vpns : Issued is_vpn new log → Known project creds (set vpns id new) hosts log
    Known-set_vpns i = record {
      from_project = k.from_project;
      from_creds = k.from_creds;
      from_vpns = HoldsIssued-set is_vpn log vpns id new k.from_vpns i;
      from_hosts = k.from_hosts;
      linked = k.linked;
    }

    pub Known-set_hosts : Issued is_host new log → Known project creds vpns (set hosts id new) log
    Known-set_hosts i = record {
      from_project = k.from_project;
      from_creds = k.from_creds;
      from_vpns = k.from_vpns;
      from_hosts = HoldsIssued-set is_host log hosts id new k.from_hosts i;
      linked = k.linked;
    }
