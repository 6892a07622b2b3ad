-- ===== src/ServiceStatuses/Answers.antt =====
-- What an answer does to the readings: names are read per host and become ids.
use mathlib.Core.List.{Memᴰ}
use davy_jones.Prelude.{
  ℕ, String, ◌≡◌, ◌≢◌, refl, sym, ap, ◌∙◌, arith, Option, none, some, List, [], ◌∷◌, ◌==◌, eq_iff,
  nat_eq, Bool-cases, ◌⊎◌, inl, inr,
}
use davy_jones.Prelude.Dict.{Dict, get, set, get-set}
use davy_jones.Types.{Service, ServiceStatus}
use davy_jones.Auth.{returned}
use davy_jones.ServiceStatuses.{by_name_from, by_name, set_found, with_results, Polling, settle}

-- the reading under `name` is one of the results, and it is about this name
by_name_from_sound :
    (m : Dict ServiceStatus) (rs : List ServiceStatus) (name : String) (r : ServiceStatus)
    → get (by_name_from m rs) name ≡ some r
    → (get m name ≡ some r) ⊎ (Memᴰ r rs × (r.name ≡ name))
unfolding by_name_from
by_name_from_sound m [] name r h = inl h
by_name_from_sound m (q ∷ rs) name r h = elim (by_name_from_sound (set m q.name q) rs name r h) [
  | inl before ↦ elim (Bool-cases (q.name == name)) [
    | inl e ↦
        let same : some q ≡ some r = rw (get-set m q.name name q, e) at before in
        let one : q ≡ r = cc in
        inr (
          Memᴰ.head (sym one),
          ap (λ (s : ServiceStatus). s.name) (sym one) ∙ (eq_iff q.name name).0 e,
        )
    | inr e ↦ inl (rw (get-set m q.name name q, e) at before)
  ]
  | inr (later, about) ↦ inr (Memᴰ.tail later, about)
]

set_found-cases :
    (o : Option ServiceStatus) (i id : String) (next : Dict ServiceStatus)
    → (get (set_found o i next) id ≡ get next id)
      ⊎ ((r : ServiceStatus) × (i ≡ id) × (o ≡ some r) × (get (set_found o i next) id ≡ some r))
unfolding set_found
set_found-cases none i id next = inl refl
set_found-cases (some q) i id next = elim (Bool-cases (i == id)) [
  | inl e ↦ inr (q, (eq_iff i id).0 e, refl, rw (get-set next i id q, e) refl)
  | inr e ↦ inl (rw (get-set next i id q, e) refl)
]

module _ (results : List ServiceStatus) where
  -- `r` is one of the results, about the name of a service that was asked for and has the id.
  abbrev pub IsAnswer : List Service → String → ServiceStatus → Type 0
  IsAnswer asked id r =
      (s : Service) × Memᴰ s asked × (s.id ≡ id) × Memᴰ r results × (r.name ≡ s.name)

  abbrev IsUpdate : List Service → String → Option ServiceStatus → Option ServiceStatus → Type 0
  IsUpdate asked id before after =
      (after ≡ before) ⊎ ((r : ServiceStatus) × IsAnswer asked id r × (after ≡ some r))

  named :
      (name : String) (r : ServiceStatus)
      → get (by_name results) name ≡ some r
      → Memᴰ r results × (r.name ≡ name)
  unfolding by_name get
  named name r h = elim (by_name_from_sound [] results name r h) [
    | inl nothing ↦ cc
    | inr found ↦ found
  ]

  IsUpdate-trans :
      (asked : List Service) (id : String) {a b c : Option ServiceStatus}
      → IsUpdate asked id a b
      → IsUpdate asked id b c
      → IsUpdate asked id a c
  IsUpdate-trans asked id (inl e) (inl f) = inl (f ∙ e)
  IsUpdate-trans asked id (inr (r, h, e)) (inl f) = inr (r, h, f ∙ e)
  IsUpdate-trans asked id g (inr h) = inr h

  set_found-IsUpdate :
      (asked : List Service) (s : Service) (next : Dict ServiceStatus) (id : String)
      → Memᴰ s asked
      → IsUpdate asked id
          (get next id)
          (get (set_found (get (by_name results) s.name) s.id next) id)
  set_found-IsUpdate asked s next id m =
      elim (set_found-cases (get (by_name results) s.name) s.id id next) [
        | inl same ↦ inl same
        | inr (r, e, f, g) ↦
            let (there, about) = named s.name r f in inr (r, (s, m, e, there, about), g)
      ]

  with_results-IsUpdate :
      (asked ss : List Service) (next : Dict ServiceStatus) (id : String)
      → ((s : Service) → Memᴰ s ss → Memᴰ s asked)
      → IsUpdate asked id (get next id) (get (with_results (by_name results) ss next) id)
  unfolding with_results
  with_results-IsUpdate asked [] next id h = inl refl
  with_results-IsUpdate asked (s ∷ ss) next id h =
      IsUpdate-trans asked id (set_found-IsUpdate asked s next id (h s (Memᴰ.head refl))) (
        with_results-IsUpdate asked ss (set_found (get (by_name results) s.name) s.id next) id
          (λ t m. h t (Memᴰ.tail m)))

-- An answer changes a reading only to what the server says about a service that this request asked
-- for, found by its name; all other readings stay, those of services of the same name on other hosts
-- among them. An answer to an earlier run changes nothing.
pub settle-IsUpdate :
    (epoch : ℕ) (host_id : String) (asked : List Service) (results : List ServiceStatus)
    (s : Polling) (id : String)
    → ((get (settle epoch host_id asked (returned results) s).statuses id ≡ get s.statuses id)
        ⊎ ((r : ServiceStatus) × IsAnswer results asked id r
            × (get (settle epoch host_id asked (returned results) s).statuses id ≡ some r)))
      × (epoch ≢ s.epoch → settle epoch host_id asked (returned results) s ≡ s)
unfolding settle
settle-IsUpdate epoch host_id asked results s id = elim (Bool-cases (nat_eq epoch s.epoch)) [
  | inl e ↦ rw e (
    with_results-IsUpdate results asked asked s.statuses id (λ t m. m),
    λ other. absurd (other (ground arith)),
  )
  | inr e ↦ rw e (inl refl, λ other. refl)
]
