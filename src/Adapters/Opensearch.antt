-- ===== src/Adapters/Opensearch.antt =====
-- adapters/opensearch: driver.go and handle.go. What the client's package and encoding/json answer is an
-- argument.
use dbstore.Common.{ℕ, not, ◌&&◌, String, str_eq, Option, none, some, List, [], ◌∷◌, if◌then◌else◌}
use dbstore.Adapters.Reply.{Reply, failed, got}
use dbstore.Adapters.Elasticsearch.{has_none, Payload}

-- `Driver.Open`, up to the call of `NewClient`.
unfoldable pub addresses : List String → String → List String
addresses configured dsn =
    if has_none configured && not (str_eq dsn "") then dsn ∷ [] else configured

pub data Error : Type 0 where
  not_found : Error
  external : ℕ → Error

-- A value that was decoded, none where none is wanted, or an error.
pub data Result : Type 0 where
  err : Error → Result
  ok : Option String → Result

abbrev without_value : {A : Type 0} → Reply A → Result
without_value (failed e) = err (external e)
without_value (got a) = ok none

abbrev with_value : Reply String → Result
with_value (failed e) = err (external e)
with_value (got t) = ok (some t)

abbrev found_or : (String → Reply String) → Reply Payload → Result
found_or unmarshal (failed e) = err (external e)
found_or unmarshal (got p) = if p.found then with_value (unmarshal p.source) else err not_found

-- `Index`, with what marshalling the document gives.
unfoldable pub index_document :
    (String → String → String → Reply String) → String → String → Reply String → Result
index_document call index id (failed e) = err (external e)
index_document call index id (got body) = without_value (call index id body)

unfoldable pub get :
    (String → String → Reply Payload) → (String → Reply String) → String → String → Result
get call unmarshal index id = found_or unmarshal (call index id)

unfoldable pub delete : (String → String → Reply String) → String → String → Result
delete call index id = without_value (call index id)
