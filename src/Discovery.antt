-- ===== src/Discovery.antt =====
-- src/components/Layout/DiscoverServices.tsx: the scan of a host, the choice among its findings and the
-- requests that add them. A JavaScript `Set` is the list of its elements, in the order in which they
-- were added. A request for a new service returns or throws; which, is a parameter.
pub mod Scans
pub mod Adds
pub mod Tests
use davy_jones.Prelude.{
  ℕ, String, ◌==◌, Bool, true, false, not, Option, none, some, List, [], ◌∷◌, ◌++◌, any, filter,
  map, length, if◌then◌else◌,
}
use davy_jones.Types.{Service}
use davy_jones.Auth.{Answer, returned, thrown}

-- `set.has(x)`
abbrev pub has : List String → String → Bool
has xs x = any (λ y. y == x) xs

-- `set.add(x)`
unfoldable pub add : String → List String → List String
add x xs = if has xs x then xs else xs ++ x ∷ []

unfoldable pub add_all : List String → List String → List String
unfolding add
add_all [] s = s
add_all (x ∷ xs) s = add_all xs (add x s)

-- `new Set(xs)`
unfoldable pub set_of : List String → List String
unfolding add_all
set_of xs = add_all xs []

-- `DiscoveryResult`, what the component reads of it
pub record Found : Type 0 where
  pub names : List String
  pub error : Option String

pub record State : Type 0 where
  pub host_id : String
  pub kind : String
  pub result : Option Found
  pub selected : List String
  pub busy : Bool
  pub error : Option String
  pub added : Option ℕ

abbrev pub opened : State
opened = record {
  host_id = "";
  kind = "Docker";
  result = none;
  selected = [];
  busy = false;
  error = none;
  added = none;
}

unfoldable pub existing_on_host : List Service → String → List String
unfolding set_of
existing_on_host services host_id =
    set_of (map (λ (s : Service). s.name) (filter (λ (s : Service). s.host_id == host_id) services))

unfoldable pub select_host : String → State → State
select_host id s = record s { host_id = id; result = none; added = none }

unfoldable pub select_kind : String → State → State
select_kind kind s = record s { kind = kind; result = none; added = none }

-- `handleScan` up to its `await`
unfoldable pub begin_scan : State → State
begin_scan s = record s { busy = true; error = none; added = none; result = none }

-- The rest of `handleScan`; `existing` is `existingOnHost` of the render in which it was called.
unfoldable pub settle_scan : List String → Answer Found → State → State
unfolding set_of
settle_scan existing (returned res) s = record s {
  result = some res;
  selected = set_of (filter (λ n. not (has existing n)) res.names);
  busy = false;
}
settle_scan existing (thrown e) s = record s { error = some e; busy = false }

unfoldable pub toggle : String → State → State
unfolding add
toggle name s = record s {
  selected =
      if has s.selected name then filter (λ n. not (n == name)) s.selected else add name s.selected;
}

-- `{ name, type, hostId }`
pub record Request : Type 0 where
  pub name : String
  pub kind : String
  pub host_id : String

-- The answer to a request, after those that were made before it.
abbrev pub Server : Type 0
Server = List Request → Request → Answer (Unit {0})

-- what comes of the loop: the requests that were made and have returned, and what was thrown, if so
pub record Outcome : Type 0 where
  pub made : List Request
  pub failure : Option String

module _ (server : Server) (kind host_id : String) where
  unfoldable pub after_answer : Answer (Unit {0}) → List Request → Outcome → Outcome
  after_answer (returned _) made rest = rest
  after_answer (thrown e) made rest = record { made = made; failure = some e }

  -- the loop of `handleAdd`
  unfoldable pub create_all : List String → List Request → Outcome
  unfolding after_answer
  create_all [] made = record { made = made; failure = none }
  create_all (name ∷ names) made =
      let r : Request = record { name = name; kind = kind; host_id = host_id } in
      after_answer (server made r) made (create_all names (made ++ r ∷ []))

unfoldable pub begin_add : State → State
begin_add s = record s { busy = true; error = none }

-- the rest of `handleAdd`, for the names of its `[...selected]`
unfoldable pub settle_add : List String → Option String → State → State
settle_add names none s = record s {
  added = some (length names);
  result = none;
  selected = [];
  busy = false;
}
settle_add names (some e) s = record s { error = some e; busy = false }

-- `handleAdd`: the requests and the state
unfoldable pub handle_add : Server → State → Outcome × State
unfolding create_all settle_add begin_add
handle_add server s =
    let o = create_all server s.kind s.host_id s.selected [] in
    (o, settle_add s.selected o.failure (begin_add s))
