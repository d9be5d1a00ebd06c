-- ===== src/Adapters/Elasticsearch.antt =====
-- adapters/elasticsearch: driver.go and handle.go. What the client's package and encoding/json answer is an
-- argument.
pub mod Answers
use dbstore.Common.{
  ℕ, suc, ◌≡◌, Bool, true, false, not, ◌==◌, ◌&&◌, String, str_eq, Option, none, some, List, [],
  ◌∷◌, if◌then◌else◌,
}
use dbstore.Adapters.Reply.{Reply, failed, got, Exchange, before_response, with_body, close}

pub record ClientConfig : Type 0 where
  pub addresses : List String
  pub cloud_id : String

abbrev pub has_none : List String → Bool
has_none [] = true
has_none (address ∷ rest) = false

-- `Driver.Open`, up to the call of `NewClient`.
unfoldable pub client_config : ClientConfig → String → ClientConfig
client_config d dsn =
    if has_none d.addresses && (str_eq d.cloud_id "" && not (str_eq dsn ""))
    then record d { addresses = dsn ∷ [] }
    else d

pub record Response : Type 0 where
  pub status_code : ℕ
  pub status : String
  pub body : String

pub record Payload : Type 0 where
  pub found : Bool
  pub source : String

-- `json.Unmarshal`, `Decode` of the payload, and `IsError` of a response.
pub record Library : Type 0 where
  pub is_error : Response → Bool
  pub decode : String → Reply Payload
  pub unmarshal : String → Reply String

pub data Error : Type 0 where
  not_found : Error
  external : ℕ → Error
  -- the operation, the index, the document and the status
  refused : String → String → String → String → Error

abbrev after_call : (Response → Exchange Error) → Reply Response → Exchange Error
after_call answer (failed e) = before_response (external e)
after_call answer (got r) = close (answer r)

abbrev unmarshalled : Reply String → Exchange Error
unmarshalled (failed e) = with_body (some (external e)) none
unmarshalled (got t) = with_body none (some t)

abbrev after_decode : Library → Reply Payload → Exchange Error
after_decode lib (failed e) = with_body (some (external e)) none
after_decode lib (got p) =
    if p.found then unmarshalled (lib.unmarshal p.source) else with_body (some not_found) none

unfoldable pub get_answer : Library → String → String → Response → Exchange Error
get_answer lib index id r =
    if r.status_code == 404
    then with_body (some not_found) none
    else if lib.is_error r
    then with_body (some (refused "get" index id r.status)) none
    else after_decode lib (lib.decode r.body)

unfoldable pub delete_answer : Library → String → String → Response → Exchange Error
delete_answer lib index id r =
    if r.status_code == 404
    then with_body (some not_found) none
    else if lib.is_error r
    then with_body (some (refused "delete" index id r.status)) none
    else with_body none none

unfoldable pub index_answer : Library → String → String → Response → Exchange Error
index_answer lib index id r =
    if lib.is_error r
    then with_body (some (refused "index" index id r.status)) none
    else with_body none none

-- `Index`, with what marshalling the document gives.
unfoldable pub index_document :
    Library
    → (String → String → String → Reply Response)
    → String
    → String
    → Reply String
    → Exchange Error
unfolding index_answer
index_document lib call index id (failed e) = before_response (external e)
index_document lib call index id (got body) =
    after_call (index_answer lib index id) (call index id body)

unfoldable pub get : Library → (String → String → Reply Response) → String → String → Exchange Error
unfolding get_answer
get lib call index id = after_call (get_answer lib index id) (call index id)

unfoldable pub delete :
    Library → (String → String → Reply Response) → String → String → Exchange Error
unfolding delete_answer
delete lib call index id = after_call (delete_answer lib index id) (call index id)
