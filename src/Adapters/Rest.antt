-- ===== src/Adapters/Rest.antt =====
-- adapters/rest: client.go, driver.go and handle.go. What net/url, net/http, encoding/json and the server say is
-- an argument.
pub mod Answers
use Prim.Native.Char.{code}
use Prim.Native.String
use dbstore.Adapters.Reply.{Reply, failed, got, Exchange, before_response, with_body, close}
use dbstore.Common.{
  ◌<>◌, has_suffix, ℕ, suc, ◌≡◌, Bool, true, false, not, ltb, leb, ◌==◌, ◌||◌, ◌&&◌, String, str_eq,
  Option, none, some, List, [], ◌∷◌, ◌++◌, ◌⊎◌, inl, inr, lookup, insert, if◌then◌else◌,
}

pub record Url : Type 0 where
  pub scheme : String
  pub host : String
  pub path : String
  -- the path with its escapes, where these are not the usual ones; of no effect if it does not fit the path
  pub raw_path : String
  pub query : String

pub record StatusError : Type 0 where
  pub method : String
  pub path : String
  pub status_code : ℕ
  pub status : String
  pub body : String

pub data RestError : Type 0 where
  status_error : StatusError → RestError
  not_found not_absolute : RestError
  external : ℕ → RestError

abbrev pub Header : Type 0
Header = List (String × List String)

pub record Client : Type 0 where
  pub base_url : Url
  pub header : Header

pub record Request : Type 0 where
  pub method : String
  pub url : Url
  pub header : Header
  pub body : Option String

pub record Response : Type 0 where
  pub status_code : ℕ
  pub status : String
  pub body : String

-- What the packages of the standard library make of their arguments: a URL, a reference that is resolved,
-- the canonical form of a header's key, a request, JSON that is decoded, and the start of a body with the
-- space around it taken off.
pub record Library : Type 0 where
  pub parse : String → Reply Url
  pub resolve_reference : Url → Url → Url
  pub canonical : String → String
  pub refuses : String → Url → Option ℕ
  pub decode : String → Reply String
  pub excerpt : String → String

-- `cfg.DSN` is an absolute URL, whose path ends in a slash from then on.
base_of : Url → Url
base_of u = if has_suffix u.path "/" then u else record u { path = u.path <> "/" }

unfoldable pub open_base : Reply Url → Url ⊎ RestError
unfolding base_of
open_base (failed e) = inr (external e)
open_base (got u) =
    if str_eq u.scheme "" || str_eq u.host "" then inr not_absolute else inl (base_of u)

abbrev with_base : Header → Url ⊎ RestError → Client ⊎ RestError
with_base header (inl u) = inl (record { base_url = u; header = header })
with_base header (inr e) = inr e

-- `Driver.Open`, with the header that is copied.
unfoldable pub open_client : Library → Header → String → Client ⊎ RestError
unfolding open_base
open_client lib header dsn = with_base header (open_base (lib.parse dsn))

abbrev starts_with_slash : String → Bool
starts_with_slash String.[] = false
starts_with_slash (String.◌∷◌ c s) = code c == b'/'

-- `strings.TrimPrefix(path, "/")`
abbrev trim_slash : String → String
trim_slash String.[] = ""
trim_slash (String.◌∷◌ c s) = if code c == b'/' then s else String.◌∷◌ c s

abbrev reference : String → Url → Url
reference request_path u =
    if starts_with_slash request_path then record u { path = trim_slash u.path } else u

abbrev resolved : Library → Url → String → Reply Url → Reply Url
resolved lib base request_path (failed e) = failed e
resolved lib base request_path (got u) =
    if str_eq u.scheme ""
    then got (lib.resolve_reference base (reference request_path u))
    else got u

unfoldable pub resolve : Library → Client → String → Reply Url
resolve lib c request_path = resolved lib c.base_url request_path (lib.parse request_path)

-- `Header.Add` and `Header.Set`
abbrev values : Option (List String) → List String
values none = []
values (some vs) = vs

unfoldable pub add : Library → String → String → Header → Header
add lib key value h = let k = lib.canonical key in insert k (values (lookup k h) ++ value ∷ []) h

unfoldable pub set : Library → String → String → Header → Header
set lib key value h = insert (lib.canonical key) (value ∷ []) h

add_values : Library → String → List String → Header → Header
unfolding add
add_values lib key [] h = h
add_values lib key (v ∷ vs) h = add_values lib key vs (add lib key v h)

unfoldable pub add_header : Library → Header → Header → Header
unfolding add_values
add_header lib [] h = h
add_header lib ((key, vs) ∷ rest) h = add_header lib rest (add_values lib key vs h)

abbrev request_to : Library → Client → String → Option String → Url → Option ℕ → Reply Request
request_to lib c method body u (some e) = failed e
request_to lib c method body u none =
    got (record { method = method; url = u; header = add_header lib c.header []; body = body })

abbrev request_at : Library → Client → String → Option String → Reply Url → Reply Request
request_at lib c method body (failed e) = failed e
request_at lib c method body (got u) = request_to lib c method body u (lib.refuses method u)

-- `NewRequest`
unfoldable pub new_request : Library → Client → String → String → Option String → Reply Request
unfolding resolve add_header
new_request lib c method request_path body =
    request_at lib c method body (resolve lib c request_path)

abbrev decoded_as : Reply String → Exchange RestError
decoded_as (failed e) = with_body (some (external e)) none
decoded_as (got t) = with_body none (some t)

-- What follows a response, with whether a result is wanted.
unfoldable pub answer : Library → String → String → Bool → Response → Exchange RestError
answer lib method path wanted r =
    if ltb r.status_code 200 || leb 300 r.status_code
    then with_body
        (some (
          status_error (record {
            method = method;
            path = path;
            status_code = r.status_code;
            status = r.status;
            body = lib.excerpt r.body;
          })))
        none
    else if wanted
    then decoded_as (lib.decode r.body)
    else with_body none none

abbrev after_send : Library → String → String → Bool → Reply Response → Exchange RestError
after_send lib method path wanted (failed e) = before_response (external e)
after_send lib method path wanted (got r) = close (answer lib method path wanted r)

abbrev json_header : Library → Option String → Header → Header
json_header lib none h = set lib "Accept" "application/json" h
json_header lib (some body) h =
    set lib "Accept" "application/json" (set lib "Content-Type" "application/json" h)

abbrev after_request :
    Library → (Request → Reply Response) → String → Bool → Reply Request → Exchange RestError
after_request lib send path wanted (failed e) = before_response (external e)
after_request lib send path wanted (got q) =
    after_send lib q.method path wanted
      (send (record q { header = json_header lib q.body q.header }))

-- `DoJSON`, with what marshalling the body gives, if there is one, and whether a result is wanted.
unfoldable pub do_json :
    Library
    → (Request → Reply Response)
    → Client
    → String
    → String
    → Option (Reply String)
    → Bool
    → Exchange RestError
unfolding new_request answer set
do_json lib send c method path none wanted =
    after_request lib send path wanted (new_request lib c method path none)
do_json lib send c method path (some (failed e)) wanted = before_response (external e)
do_json lib send c method path (some (got body)) wanted =
    after_request lib send path wanted (new_request lib c method path (some body))

abbrev is_404 : RestError → Bool
is_404 (status_error e) = e.status_code == 404
is_404 not_found = false
is_404 not_absolute = false
is_404 (external e) = false

-- The error of `Get` and `Delete`.
unfoldable pub translate : Option RestError → Option RestError
translate none = none
translate (some e) = if is_404 e then some not_found else some e

abbrev translated : Exchange RestError → Exchange RestError
translated x = record x { error = translate x.error }

module _ (lib : Library) (send : Request → Reply Response) (c : Client) (path : String) where
  -- `Get`, with whether `dest` is there to decode into.
  unfoldable pub get : Bool → Exchange RestError
  unfolding do_json translate
  get wanted = translated (do_json lib send c "GET" path none wanted)

  unfoldable pub post : Reply String → Exchange RestError
  unfolding do_json
  post body = do_json lib send c "POST" path (some body) false

  unfoldable pub put : Reply String → Exchange RestError
  unfolding do_json
  put body = do_json lib send c "PUT" path (some body) false

  unfoldable pub delete : Exchange RestError
  unfolding do_json translate
  delete = translated (do_json lib send c "DELETE" path none false)
