-- ===== src/Request/Result.antt =====
-- beater/request/result.go: result identifiers, their statuses, and the setters of a result.
use apm_server.Prelude.{ℕ, String, Option, none, some, Bool, false, leb, if◌then◌else◌}
use apm_server.Auth.Types.{Error, is_unauthorized}

-- `ResultID`, the constants of the source and any other text.
pub data ResultId : Type 0 where
  unset request_count response_count response_errors_count response_valid_count : ResultId
  event_received_count event_dropped_count : ResultId
  not_modified valid_ok accepted : ResultId
  forbidden unauthorized not_found invalid_query request_too_large decode validate rate_limit :
      ResultId
  timeout method_not_allowed full_queue shutting_down service_unavailable internal : ResultId
  other : String → ResultId

-- Go errors with the texts that are made of them. `wrapped` is `errors.Wrap(err, text)`.
mutual
  pub data Text : Type 0 where
    literal : String → Text
    error_text : Fault → Text

  pub data Fault : Type 0 where
    auth : Error → Fault
    message : Text → Fault
    wrapped : Fault → Text → Fault

-- `errors.Is(err, auth.ErrUnauthorized)`
unfoldable pub fault_is_unauthorized : Fault → Bool
unfolding is_unauthorized
fault_is_unauthorized (auth e) = is_unauthorized e
fault_is_unauthorized (message text) = false
fault_is_unauthorized (wrapped fault text) = fault_is_unauthorized fault

-- `errors.Wrap`, which leaves nil alone.
unfoldable pub wrap_error : Option Fault → Text → Option Fault
wrap_error none text = none
wrap_error (some fault) text = some (wrapped fault text)

pub record Status : Type 0 where
  pub code : ℕ
  pub keyword : String

-- `MapResultIDToStatus`
unfoldable pub map_result_id_to_status : ResultId → Option Status
map_result_id_to_status valid_ok = some (record { code = 200; keyword = "request ok" })
map_result_id_to_status accepted = some (record { code = 202; keyword = "request accepted" })
map_result_id_to_status not_modified = some (record { code = 304; keyword = "not modified" })
map_result_id_to_status forbidden = some (record { code = 403; keyword = "forbidden request" })
map_result_id_to_status unauthorized = some (record { code = 401; keyword = "unauthorized" })
map_result_id_to_status not_found = some (record { code = 404; keyword = "404 page not found" })
map_result_id_to_status request_too_large =
    some (record { code = 413; keyword = "request body too large" })
map_result_id_to_status invalid_query = some (record { code = 400; keyword = "invalid query" })
map_result_id_to_status decode = some (record { code = 400; keyword = "data decoding error" })
map_result_id_to_status validate = some (record { code = 400; keyword = "data validation error" })
map_result_id_to_status method_not_allowed =
    some (record { code = 405; keyword = "method not supported" })
map_result_id_to_status rate_limit = some (record { code = 429; keyword = "too many requests" })
map_result_id_to_status timeout = some (record { code = 503; keyword = "request timed out" })
map_result_id_to_status full_queue = some (record { code = 503; keyword = "queue is full" })
map_result_id_to_status shutting_down =
    some (record { code = 503; keyword = "server is shutting down" })
map_result_id_to_status service_unavailable =
    some (record { code = 503; keyword = "service unavailable" })
map_result_id_to_status internal = some (record { code = 500; keyword = "internal error" })
map_result_id_to_status _ = none

-- A body is a text, or another value, named by its encoding.
pub data Body : Type 0 where
  text : Text → Body
  value : String → Body

pub record Result : Type 0 where
  pub id : ResultId
  pub status_code : ℕ
  pub keyword : Text
  pub body : Option Body
  pub err : Option Fault
  pub stacktrace : String

-- `Reset`
unfoldable pub reset : Result
reset = record {
  id = unset;
  status_code = 200;
  keyword = literal "";
  body = none;
  err = none;
  stacktrace = "";
}

unfoldable pub failure : Result → Bool
failure r = leb 400 r.status_code

unfoldable pub or_error {ℓ} : {A : Type ℓ} → Option A → A → A
or_error (some a) b = a
or_error none b = b

-- `Set`, on a result that is not nil.
unfoldable pub set_result : Result → ResultId → ℕ → Text → Option Body → Option Fault → Result
unfolding or_error
set_result r id status_code keyword body err =
    if leb 400 status_code
    then (let fault = or_error err (message keyword) in
        record r {
          id = id;
          status_code = status_code;
          keyword = keyword;
          err = some fault;
          body = some (or_error body (text (error_text fault)));
        })
    else record r { id = id; status_code = status_code; keyword = keyword; body = body; err = err }

-- The status of an identifier: that of an internal error where the map has none.
unfoldable pub status_or_internal : ResultId → Status
unfolding map_result_id_to_status
status_or_internal id = elim (map_result_id_to_status id) [
  | some status ↦ status
  | none ↦ record { code = 500; keyword = "internal error" }
]

-- `set`
unfoldable pub set_from_id : Result → ResultId → Option Body → Option Fault → Result
unfolding set_result status_or_internal wrap_error
set_from_id r id body err =
    let status = status_or_internal id in
    let keyword = literal status.keyword in
    set_result r id status.code keyword body (wrap_error err keyword)

unfoldable pub set_default : Result → ResultId → Result
unfolding set_from_id
set_default r id = set_from_id r id none none

unfoldable pub set_with_error : Result → ResultId → Option Fault → Result
unfolding set_from_id
set_with_error r id err = set_from_id r id none err

unfoldable pub set_with_body : Result → ResultId → Option Body → Result
unfolding set_from_id
set_with_body r id body = set_from_id r id body none
