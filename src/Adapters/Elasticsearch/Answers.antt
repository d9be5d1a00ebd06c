-- ===== src/Adapters/Elasticsearch/Answers.antt =====
-- What a repository gets from a handle of adapters/elasticsearch.
use dbstore.Common.{ℕ, ◌≡◌, ◌≢◌, ◌⊎◌, refl, ◌↔◌, true, false, String, Option, none, some, arith}
use dbstore.Adapters.Reply.{Reply, failed, got, Exchange, Reflects, Reflects-failed, Reflects-got}
use dbstore.Adapters.Elasticsearch.{
  Response, Payload, Library, Error, not_found, external, after_call, unmarshalled, after_decode,
  get_answer, delete_answer, get, delete,
}

-- The payload is there, and says that the document is missing.
abbrev pub SaysMissing : Library → Response → Type 0
SaysMissing lib r = (p : Payload) × (lib.decode r.body ≡ got p) × (p.found ≡ false)

-- The payload is there, with a document that can be decoded.
abbrev pub HasDocument : Library → Response → Type 0
HasDocument lib r =
    (p : Payload) × (lib.decode r.body ≡ got p)
    × ((p.found ≡ true) × ((t : String) × (lib.unmarshal p.source ≡ got t)))

-- The document is missing, by the status or by the payload of a response without an error.
abbrev pub IsMissing : Library → Response → Type 0
IsMissing lib r = (r.status_code ≡ 404) ⊎ ((lib.is_error r ≡ false) × SaysMissing lib r)

abbrev pub IsFound : Library → Response → Type 0
IsFound lib r = (r.status_code ≢ 404) × (lib.is_error r ≡ false) × HasDocument lib r

unmarshalled-found : (y : Reply String) → (unmarshalled y).error ≢ some not_found
unmarshalled-found (failed e) h = cc
unmarshalled-found (got t) h = cc

unmarshalled-none :
    (y : Reply String) → ((unmarshalled y).error ≡ none) ↔ ((t : String) × (y ≡ got t))
unmarshalled-none (failed e) = (λ h. cc, λ (t, h). cc)
unmarshalled-none (got t) = (λ h. (t, refl), λ h. refl)

decode-missing :
    (lib : Library) (y : Reply Payload)
    → Reflects y (λ p. p.found ≡ false) ((after_decode lib y).error ≡ some not_found)
decode-missing lib (failed e) = Reflects-failed e _ _ (λ h. cc)
decode-missing lib (got p) =
    Reflects-got p _ _ (ground (arith, unmarshalled-found (lib.unmarshal p.source)))

decode-found :
    (lib : Library) (y : Reply Payload)
    → Reflects y
        (λ p. (p.found ≡ true) × ((t : String) × (lib.unmarshal p.source ≡ got t)))
        ((after_decode lib y).error ≡ none)
decode-found lib (failed e) = Reflects-failed e _ _ (λ h. cc)
decode-found lib (got p) =
    Reflects-got p _ _ (ground (arith, unmarshalled-none (lib.unmarshal p.source)))

get_answer-IsMissing :
    (lib : Library) (index id : String) (r : Response)
    → ((get_answer lib index id r).error ≡ some not_found) ↔ IsMissing lib r
unfolding get_answer
get_answer-IsMissing lib index id r = ground (arith, decode-missing lib (lib.decode r.body))

get_answer-IsFound :
    (lib : Library) (index id : String) (r : Response)
    → ((get_answer lib index id r).error ≡ none) ↔ IsFound lib r
unfolding get_answer
get_answer-IsFound lib index id r = ground (arith, decode-found lib (lib.decode r.body))

delete_answer-missing :
    (lib : Library) (index id : String) (r : Response)
    → ((delete_answer lib index id r).error ≡ some not_found) ↔ (r.status_code ≡ 404)
unfolding delete_answer
delete_answer-missing lib index id r = ground arith

after_call-Reflects :
    (answer : Response → Exchange Error) (y : Reply Response) (e : Option Error)
    (P : Response → Type 0)
    → ((n : ℕ) → some (external n) ≢ e)
    → ((r : Response) → ((answer r).error ≡ e) ↔ P r)
    → Reflects y P ((after_call answer y).error ≡ e)
after_call-Reflects answer (failed n) e P other same = Reflects-failed n P _ (other n)
after_call-Reflects answer (got r) e P other same = Reflects-got r P _ (same r)

-- `Get` of an Elasticsearch handle returns `ErrNotFound` exactly when the server answers with 404, or
-- without an error that the document is not found. It returns no error exactly when the server answers
-- without an error, with a document that is found and can be decoded. `Delete` returns `ErrNotFound`
-- exactly when the server answers with 404.
pub get-Reflects :
    (lib : Library) (fetch remove : String → String → Reply Response) (index id : String)
    → Reflects (fetch index id) (IsMissing lib) ((get lib fetch index id).error ≡ some not_found)
      × Reflects (fetch index id) (IsFound lib) ((get lib fetch index id).error ≡ none)
      × Reflects
          (remove index id)
          (λ r. r.status_code ≡ 404)
          ((delete lib remove index id).error ≡ some not_found)
unfolding get delete
get-Reflects lib fetch remove index id = (
  after_call-Reflects _ (fetch index id) _ _ (λ n h. cc) (get_answer-IsMissing lib index id),
  after_call-Reflects _ (fetch index id) _ _ (λ n h. cc) (get_answer-IsFound lib index id),
  after_call-Reflects _ (remove index id) _ _ (λ n h. cc) (delete_answer-missing lib index id),
)
