-- ===== src/Api.antt =====
-- src/lib/api.ts: `request`, and the calls that are made with it. `fetch` is a parameter: a request is
-- a value, and the response to it an argument.
pub mod Calls
pub mod Paths
pub mod Bodies
pub mod Routes
pub mod Segments
pub mod Parts
pub mod Splits
pub mod Served
pub mod Tests
use davy_jones.Prelude.{
  ℕ, String, ◌==◌, Bool, true, false, not, Option, none, some, or_else, List, [], ◌∷◌, ◌++◌,
  if◌then◌else◌,
}
use davy_jones.Prelude.Text.{template, truthy, includes}
use davy_jones.Prelude.Decimal.{decimal}
use davy_jones.Auth.{Answer, returned, thrown}
use davy_jones.Api.Calls.{Body, Call}
use davy_jones.Api.Paths.{Method, get, post, put, delete, method_of, path_of}
use davy_jones.Api.Bodies.{body_of}

-- what is handed to `fetch`
pub record Request (B : Type 0) : Type 0 where
  pub method : Method
  pub path : String
  pub headers : List (String × String)
  pub body : Option (Body B)

abbrev is_some : {A : Type 0} → Option A → Bool
is_some none = false
is_some (some a) = true

unfoldable pub headers_for : {B : Type 0} → Option String → Option (Body B) → List (String × String)
unfolding template
headers_for token body =
    (if is_some body then ("Content-Type", "application/json") ∷ [] else [])
    ++ (if truthy token
        then ("Authorization", template ("Bearer " ∷ or_else token "" ∷ [])) ∷ []
        else [])

-- the request of a call, for the `authToken` of the time
unfoldable pub request : {B : Type 0} → Option String → Call B → Request B
unfolding method_of path_of body_of headers_for
request token c = record {
  method = method_of c;
  path = path_of c;
  headers = headers_for token (body_of c);
  body = body_of c;
}

-- a response, with the JSON of its body (`null` where there is none)
pub record Response (J : Type 0) : Type 0 where
  pub ok : Bool
  pub status : ℕ
  pub content_type : Option String
  pub json : Option J

unfoldable pub method_name : Method → String
method_name get = "GET"
method_name post = "POST"
method_name put = "PUT"
method_name delete = "DELETE"

-- `contentType || "no content-type"`
abbrev shown_type : Option String → String
shown_type o = if truthy o then or_else o "" else "no content-type"

module _ {J : Type 0} (error_of : J → Option String) where
  -- `(json as { error?: string } | null)?.error`
  abbrev json_error : Option J → Option String
  json_error none = none
  json_error (some j) = error_of j

  -- `request` behind its `fetch`; `error_of` reads the property `error` of a JSON value
  unfoldable pub settle : Method → String → Response J → Answer (Option J)
  unfolding template decimal method_name includes
  settle m path r =
      if not r.ok
      then thrown (
          or_else (json_error r.json) (template ("request failed (" ∷ decimal r.status ∷ ")" ∷ [])))
      else if not (includes "application/json" (or_else r.content_type ""))
      then thrown (
          template (
            method_name m
            ∷ " "
            ∷ path
            ∷ " did not return JSON (got "
            ∷ shown_type r.content_type
            ∷ "). This route is missing from the running backend -- restart it so it matches the frontend."
            ∷ []))
      else returned r.json
