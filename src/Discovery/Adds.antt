-- ===== src/Discovery/Adds.antt =====
-- src/components/Layout/DiscoverServices.tsx: what a scan and the addition of its findings register on
-- the host.
use davy_jones.Prelude.{
  String, ◌==◌, ◌≡◌, refl, sym, ap, ◌∙◌, arith, Bool, not, ◌&&◌, ◌||◌, none, if◌then◌else◌, inl,
  inr, Bool-cases, eq_iff, eq_refl, List, [], ◌∷◌, ◌++◌, map, filter, All, All-append,
}
use mathlib.Core.List.{append-nil, append_assoc}
use davy_jones.Types.{Service}
use davy_jones.Auth.{Answer, returned, thrown}
use davy_jones.Discovery.{
  has, existing_on_host, Found, State, settle_scan, toggle, Request, Server, Outcome, after_answer,
  create_all, handle_add,
}
use davy_jones.Discovery.Scans.{
  IsDistinct, has-append, append-IsDistinct, IsDistinct-append_left, has-set_of, settle_scan_lem,
}

-- the names that are registered on a host
abbrev pub names_on : List Service → String → List String
names_on services host_id =
    map (λ (s : Service). s.name) (filter (λ (s : Service). s.host_id == host_id) services)

abbrev pub names_of : List Request → List String
names_of rs = map (λ (r : Request). r.name) rs

names_of-append : (xs ys : List Request) → names_of (xs ++ ys) ≡ names_of xs ++ names_of ys
names_of-append [] ys = refl
names_of-append (x ∷ xs) ys = ap (λ (l : List String). x.name ∷ l) (names_of-append xs ys)

module _ (server : Server) (kind host_id : String) where
  -- Each request is for the kind and the host that are chosen.
  abbrev pub IsForHost : Request → Type 0
  IsForHost r = (r.kind ≡ kind) × (r.host_id ≡ host_id)

  -- What came of the loop made requests for the first of all the names, and for all of them unless it
  -- was broken off.
  abbrev IsPrefix : List String → Outcome → Type 0
  IsPrefix all o =
      (rest : List String) × (all ≡ names_of o.made ++ rest) × (o.failure ≡ none → rest ≡ [])

  after_answer-IsPrefix :
      (answer : Answer (Unit {0})) (made : List Request) (names : List String) (o : Outcome)
      → IsPrefix (names_of made ++ names) o
      → IsPrefix (names_of made ++ names) (after_answer server kind host_id answer made o)
  unfolding after_answer
  after_answer-IsPrefix (returned _) made names o h = h
  after_answer-IsPrefix (thrown e) made names o h = (names, refl, λ none_failed. cc)

  create_all-IsPrefix :
      (names : List String) (made : List Request)
      → IsPrefix (names_of made ++ names) (create_all server kind host_id names made)
  unfolding create_all
  create_all-IsPrefix [] made = ([], refl, λ e. refl)
  create_all-IsPrefix (name ∷ names) made =
      let r : Request = record { name = name; kind = kind; host_id = host_id } in
      let moved : names_of (made ++ r ∷ []) ++ names ≡ names_of made ++ name ∷ names =
        ap (λ (l : List String). l ++ names) (names_of-append made (r ∷ []))
        ∙ append_assoc (names_of made) (name ∷ []) names in
      after_answer-IsPrefix (server made r) made (name ∷ names)
        (create_all server kind host_id names (made ++ r ∷ []))
        (rw (sym moved) (create_all-IsPrefix names (made ++ r ∷ [])))

  after_answer-IsForHost :
      (answer : Answer (Unit {0})) (made : List Request) (o : Outcome)
      → All IsForHost made
      → All IsForHost o.made
      → All IsForHost (after_answer server kind host_id answer made o).made
  unfolding after_answer
  after_answer-IsForHost (returned _) made o h k = k
  after_answer-IsForHost (thrown e) made o h k = h

  create_all-IsForHost :
      (names : List String) (made : List Request)
      → All IsForHost made
      → All IsForHost (create_all server kind host_id names made).made
  unfolding create_all
  create_all-IsForHost [] made h = h
  create_all-IsForHost (name ∷ names) made h =
      let r : Request = record { name = name; kind = kind; host_id = host_id } in
      after_answer-IsForHost (server made r) made
        (create_all server kind host_id names (made ++ r ∷ [])) h
        (create_all-IsForHost names (made ++ r ∷ [])
          (All-append IsForHost made (r ∷ []) h ((refl, refl), tt)))

-- the state after a scan that has found `res`, and what comes of adding its selection
abbrev pub scanned : List Service → Found → State → State
scanned services res s = settle_scan (existing_on_host services s.host_id) (returned res) s

abbrev pub added_from : Server → List Service → Found → State → Outcome
added_from server services res s = (handle_add server (scanned services res s)).0

-- The selection of the scan is the names that were found, without those of the host, each once.
selection-append :
    (services : List Service) (res : Found) (s : State)
    → IsDistinct (names_on services s.host_id)
    → IsDistinct (names_on services s.host_id ++ (scanned services res s).selected)
unfolding existing_on_host
selection-append services res s h =
    let (once, holds) = settle_scan_lem (existing_on_host services s.host_id) res s in
    append-IsDistinct (names_on services s.host_id) (scanned services res s).selected h once
      (λ q found. ground (arith, holds q, has-set_of (names_on services s.host_id) q))

added_from-IsPrefix :
    (server : Server) (services : List Service) (res : Found) (s : State)
    → IsPrefix server s.kind s.host_id
        (scanned services res s).selected
        (added_from server services res s)
unfolding handle_add settle_scan
added_from-IsPrefix server services res s =
    create_all-IsPrefix server s.kind s.host_id (scanned services res s).selected []

-- After a scan of a host, adding what it has selected registers no name twice on the host, also when a
-- request fails and the rest is not made, and each request is for this host and the kind that was
-- scanned. The host has no name twice before, and the host and the kind are not changed meanwhile.
pub handle_add-IsDistinct :
    (server : Server) (services : List Service) (res : Found) (s : State)
    → IsDistinct (names_on services s.host_id)
    → IsDistinct (names_on services s.host_id ++ names_of (added_from server services res s).made)
      × All (IsForHost server s.kind s.host_id) (added_from server services res s).made
unfolding handle_add settle_scan
handle_add-IsDistinct server services res s h =
    let (rest, parts, all) = added_from-IsPrefix server services res s in
    let E = names_on services s.host_id in
    let M = names_of (added_from server services res s).made in
    let split : E ++ (scanned services res s).selected ≡ E ++ M ++ rest =
      ap (λ (l : List String). E ++ l) parts ∙ sym (append_assoc E M rest) in
    (
      IsDistinct-append_left (E ++ M) rest (rw split at (selection-append services res s h)),
      create_all-IsForHost server s.kind s.host_id (scanned services res s).selected [] tt,
    )

-- the clicks on the names of the result, between the scan and the addition
abbrev pub toggle_all : List String → State → State
toggle_all [] s = s
toggle_all (n ∷ ns) s = toggle_all ns (toggle n s)

-- `b`, negated once for each click on the name
abbrev pub flipped : List String → String → Bool → Bool
flipped [] q b = b
flipped (n ∷ ns) q b = flipped ns q (if n == q then not b else b)

has-without :
    (n : String) (xs : List String) (q : String)
    → has (filter (λ y. not (y == n)) xs) q ≡ has xs q && not (q == n)
has-without n [] q = refl
has-without n (x ∷ xs) q = elim (Bool-cases (x == q)) [
  | inl e ↦
      let same : x ≡ q = (eq_iff x q).0 e in
      elim (Bool-cases (q == n)) [
        | inl f ↦ rw (same, f, has-without n xs q, f) (ground arith)
        | inr f ↦ rw (same, f, eq_refl q) refl
      ]
  | inr e ↦ elim (Bool-cases (x == n)) [
    | inl f ↦ rw (f, e) (has-without n xs q)
    | inr f ↦ rw (f, e) (has-without n xs q)
  ]
]

has-toggle :
    (n : String) (s : State) (q : String)
    → has (toggle n s).selected q ≡ (if n == q then not (has s.selected q) else has s.selected q)
unfolding toggle
has-toggle n s q = elim (Bool-cases (n == q)) [
  | inl e ↦
      let same : n ≡ q = (eq_iff n q).0 e in
      rw same (elim (Bool-cases (has s.selected q)) [
        | inl f ↦ rw (f, has-without q s.selected q, eq_refl q, f) refl
        | inr f ↦ rw (f, has-append s.selected (q ∷ []) q, f, eq_refl q) refl
      ])
  | inr e ↦ elim (Bool-cases (has s.selected n)) [
    | inl f ↦ rw (f, e, has-without n s.selected q) (ground (arith, eq_iff q n, eq_iff n q))
    | inr f ↦ rw (f, e, has-append s.selected (n ∷ []) q, e) (ground arith)
  ]
]

has-toggle_all :
    (ns : List String) (s : State) (q : String)
    → has (toggle_all ns s).selected q ≡ flipped ns q (has s.selected q)
has-toggle_all [] s q = refl
has-toggle_all (n ∷ ns) s q =
    has-toggle_all ns (toggle n s) q ∙ ap (flipped ns q) (has-toggle n s q)

handle_add-made :
    (server : Server) (s : State)
    → (handle_add server s).0.failure ≡ none
    → names_of (handle_add server s).0.made ≡ s.selected
unfolding handle_add
handle_add-made server s fine =
    let o = create_all server s.kind s.host_id s.selected [] in
    let (rest, parts, all) = create_all-IsPrefix server s.kind s.host_id s.selected [] in
    sym (
      parts
      ∙ ap (λ (l : List String). names_of o.made ++ l) (all fine)
      ∙ append-nil (names_of o.made))

-- After a scan of a host and any clicks on names, with the host and the kind unchanged and no other
-- answer in between, when no request of the addition fails: the names on the host are those that it had
-- and those that are chosen, a name that the scan has found being chosen to begin with if the host has
-- it not, and each click on a name changing whether it is.
pub handle_add-has :
    (server : Server) (services : List Service) (res : Found) (s : State) (ns : List String)
    (q : String)
    → (handle_add server (toggle_all ns (scanned services res s))).0.failure ≡ none
    → has
        (names_on services s.host_id
          ++ names_of (handle_add server (toggle_all ns (scanned services res s))).0.made)
        q
      ≡ (has (names_on services s.host_id) q
          || flipped ns q (has res.names q && not (has (names_on services s.host_id) q)))
unfolding existing_on_host
handle_add-has server services res s ns q fine =
    let E = names_on services s.host_id in
    let t = scanned services res s in
    let (once, holds) = settle_scan_lem (existing_on_host services s.host_id) res s in
    let begun : has t.selected q ≡ has res.names q && not (has E q) =
      holds q ∙ ap (λ b. has res.names q && not b) (has-set_of E q) in
    has-append E (names_of (handle_add server (toggle_all ns t)).0.made) q
    ∙ ap (λ (l : List String). has E q || has l q) (handle_add-made server (toggle_all ns t) fine)
    ∙ ap (λ b. has E q || b) (has-toggle_all ns t q ∙ ap (flipped ns q) begun)
