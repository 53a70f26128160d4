-- ===== src/Payload.antt =====
-- engine/src/core/handler_response.rs: response payloads, cookies and handler results.
pub mod Cookies
use rpress.Common.{
  ℕ, Bool, true, false, not, ◌&&◌, ◌++◌, Option, none, some, List, [], ◌∷◌, Str, codes, retain,
  join, ◌==◌, nat_eq,
}
use rpress.Types.Status.{StatusCode, ok, no_content, accepted, internal_server_error}

pub record ResponsePayload : Type 0 where
  pub status : StatusCode
  pub body : Str
  pub content_type : Str
  pub headers : List (Str × Str)

unfoldable pub sanitize_header_value : Str → Str
sanitize_header_value value = retain (λ c. not (c == 13) && not (c == 10)) value

abbrev plain : Str
plain = codes "text/plain; charset=utf-8"

unfoldable pub text : Str → ResponsePayload
text content = record { status = ok; body = content; content_type = plain; headers = [] }

unfoldable pub html : Str → ResponsePayload
html content = record {
  status = ok;
  body = content;
  content_type = codes "text/html; charset=utf-8";
  headers = [];
}

-- `serialized` is what serde makes of the data, `none` its error.
unfoldable pub json : Option Str → Option ResponsePayload
json none = none
json (some serialized) = some (record {
  status = ok;
  body = serialized;
  content_type = codes "application/json";
  headers = [];
})

unfoldable pub bytes : Str → Str → ResponsePayload
bytes content ct = record { status = ok; body = content; content_type = ct; headers = [] }

unfoldable pub empty : ResponsePayload
empty = record { status = no_content; body = []; content_type = plain; headers = [] }

unfoldable pub with_status : StatusCode → ResponsePayload → ResponsePayload
with_status status p = record p { status = status }

unfoldable pub with_content_type : Str → ResponsePayload → ResponsePayload
with_content_type ct p = record p { content_type = ct }

unfoldable pub with_header : Str → Str → ResponsePayload → ResponsePayload
unfolding sanitize_header_value
with_header key value p = record p {
  headers = p.headers ++ (sanitize_header_value key, sanitize_header_value value) ∷ [];
}

unfoldable pub redirect : Str → StatusCode → ResponsePayload
unfolding sanitize_header_value
redirect location status = record {
  status = status;
  body = [];
  content_type = plain;
  headers = (codes "Location", sanitize_header_value location) ∷ [];
}

pub record RpressError : Type 0 where
  pub status : StatusCode
  pub message : Str

pub data RpressResult : Type 0 where
  done : ResponsePayload → RpressResult
  failed : RpressError → RpressResult

-- The instances of `IntoRpressResult`; the argument of the last two is what the error type's own
-- `into_rpress_error` gives.
unfoldable pub payload_into_result : ResponsePayload → RpressResult
payload_into_result p = done p

unfoldable pub unit_into_result : RpressResult
unit_into_result =
    done (record { status = accepted; body = []; content_type = codes "text/plain"; headers = [] })

unfoldable pub error_into_result : StatusCode × Str → RpressResult
error_into_result (status, message) = failed (record { status = status; message = message })

pub data HandlerResult : Type 0 where
  returned : ResponsePayload → HandlerResult
  raised : StatusCode × Str → HandlerResult

unfoldable pub result_into_result : HandlerResult → RpressResult
unfolding error_into_result
result_into_result (returned p) = done p
result_into_result (raised e) = error_into_result e

unfoldable pub into_rpress_error : RpressError → StatusCode × Str
into_rpress_error e = (e.status, e.message)

-- `From<serde_json::Error>`, from the error's text.
unfoldable pub error_of_json : Str → RpressError
error_of_json message = record { status = internal_server_error; message = message }
