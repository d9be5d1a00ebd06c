-- ===== src/Adapters/Rest/Answers.antt =====
-- What a repository gets from a handle of adapters/rest.
use dbstore.Common.{suc, ◌≡◌, ◌≢◌, ◌≤◌, ◌<◌, refl, ◌↔◌, Bool, true, String, none, some, arith}
use dbstore.Adapters.Reply.{Reply, failed, got, Reflects, Reflects-failed, Reflects-got}
use dbstore.Adapters.Rest.{
  not_found, Client, Request, Response, Library, new_request, answer, after_send, after_request,
  json_header, do_json, translate, get, decoded_as,
}

-- A status of success, and a body that can be decoded if a result is wanted.
abbrev pub Succeeds : Library → Bool → Response → Type 0
Succeeds lib wanted r =
    (200 ≤ r.status_code)
    × (r.status_code < 300)
    × (wanted ≡ true → (t : String) × (lib.decode r.body ≡ got t))

decoded-none :
    (y : Reply String) → (translate (decoded_as y).error ≡ none) ↔ ((t : String) × (y ≡ got t))
unfolding translate
decoded-none (failed e) = (λ h. cc, λ (t, h). cc)
decoded-none (got t) = (λ h. (t, refl), λ h. refl)

decoded-found : (y : Reply String) → translate (decoded_as y).error ≢ some not_found
unfolding translate
decoded-found (failed e) h = cc
decoded-found (got t) h = cc

answer-NotFound :
    (lib : Library) (method path : String) (wanted : Bool) (r : Response)
    → (translate (answer lib method path wanted r).error ≡ some not_found) ↔ (r.status_code ≡ 404)
unfolding translate answer
answer-NotFound lib method path wanted r = ground (arith, decoded-found (lib.decode r.body))

answer-Succeeds :
    (lib : Library) (method path : String) (wanted : Bool) (r : Response)
    → (translate (answer lib method path wanted r).error ≡ none) ↔ Succeeds lib wanted r
unfolding translate answer
answer-Succeeds lib method path wanted r = ground (arith, decoded-none (lib.decode r.body))

after_send-Reflects :
    (lib : Library) (method path : String) (wanted : Bool) (reply : Reply Response)
    → Reflects reply
        (λ r. r.status_code ≡ 404)
        (translate (after_send lib method path wanted reply).error ≡ some not_found)
      × Reflects reply
          (Succeeds lib wanted)
          (translate (after_send lib method path wanted reply).error ≡ none)
unfolding translate
after_send-Reflects lib method path wanted (failed e) =
    (Reflects-failed e _ _ (λ h. cc), Reflects-failed e _ _ (λ h. cc))
after_send-Reflects lib method path wanted (got r) = (
  Reflects-got r _ _ (answer-NotFound lib method path wanted r),
  Reflects-got r _ _ (answer-Succeeds lib method path wanted r),
)

abbrev pub sent : Library → Request → Request
sent lib q = record q { header = json_header lib q.body q.header }

after_request-Reflects :
    (lib : Library) (send : Request → Reply Response) (path : String) (wanted : Bool)
    (request : Reply Request)
    → Reflects request
        (λ q. (r : Response) × (send (sent lib q) ≡ got r) × (r.status_code ≡ 404))
        (translate (after_request lib send path wanted request).error ≡ some not_found)
      × Reflects request
          (λ q. (r : Response) × (send (sent lib q) ≡ got r) × Succeeds lib wanted r)
          (translate (after_request lib send path wanted request).error ≡ none)
unfolding translate
after_request-Reflects lib send path wanted (failed e) =
    (Reflects-failed e _ _ (λ h. cc), Reflects-failed e _ _ (λ h. cc))
after_request-Reflects lib send path wanted (got q) =
    let (missing, found) = after_send-Reflects lib q.method path wanted (send (sent lib q)) in
    (Reflects-got q _ _ missing, Reflects-got q _ _ found)

decoded-open : (y : Reply String) → (decoded_as y).opened ≡ suc (decoded_as y).closed
decoded-open (failed e) = refl
decoded-open (got t) = refl

answer-open :
    (lib : Library) (method path : String) (wanted : Bool) (r : Response)
    → (answer lib method path wanted r).opened ≡ suc (answer lib method path wanted r).closed
unfolding answer
answer-open lib method path wanted r = ground (arith, decoded-open (lib.decode r.body))

after_send-closed :
    (lib : Library) (method path : String) (wanted : Bool) (reply : Reply Response)
    → (after_send lib method path wanted reply).opened
      ≡ (after_send lib method path wanted reply).closed
after_send-closed lib method path wanted (failed e) = refl
after_send-closed lib method path wanted (got r) = answer-open lib method path wanted r

after_request-closed :
    (lib : Library) (send : Request → Reply Response) (path : String) (wanted : Bool)
    (request : Reply Request)
    → (after_request lib send path wanted request).opened
      ≡ (after_request lib send path wanted request).closed
after_request-closed lib send path wanted (failed e) = refl
after_request-closed lib send path wanted (got q) =
    after_send-closed lib q.method path wanted (send (sent lib q))

-- `Get` of a REST handle returns `ErrNotFound` exactly when the server answers with 404. It returns no error
-- exactly when the server answers with a status of 200 to 299 and, where there is a `dest`, with a body that can
-- be decoded. A response's body that it has opened is closed in every case.
pub get-Responded :
    (lib : Library) (send : Request → Reply Response) (c : Client) (path : String) (wanted : Bool)
    → Reflects
        (new_request lib c "GET" path none)
        (λ q. (r : Response) × (send (sent lib q) ≡ got r) × (r.status_code ≡ 404))
        ((get lib send c path wanted).error ≡ some not_found)
      × Reflects
          (new_request lib c "GET" path none)
          (λ q. (r : Response) × (send (sent lib q) ≡ got r) × Succeeds lib wanted r)
          ((get lib send c path wanted).error ≡ none)
      × ((get lib send c path wanted).opened ≡ (get lib send c path wanted).closed)
unfolding get do_json
get-Responded lib send c path wanted =
    let request = new_request lib c "GET" path none in
    let (missing, found) = after_request-Reflects lib send path wanted request in
    (missing, found, after_request-closed lib send path wanted request)
