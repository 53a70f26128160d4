-- ===== src/Types/Status.antt =====
-- Status codes of engine/src/types/definitions.rs.
use rpress.Common.{Lacks, ◌≤◌, ◌<◌, arith, ℕ, Str, codes, nat_eq, list_eq}

-- The source's `OK` and `Continue` are `ok` and `continue`; so for the others.
pub data StatusCode : Type 0 where
  continue switching_protocols ok created accepted non_authoritative_information no_content :
      StatusCode
  reset_content partial_content multi_status already_reported moved_permanently found : StatusCode
  see_other not_modified temporary_redirect permanent_redirect bad_request unauthorized : StatusCode
  forbidden not_found method_not_allowed not_acceptable proxy_authentication_required : StatusCode
  request_timeout conflict gone length_required precondition_failed payload_too_large : StatusCode
  uri_too_long unsupported_media_type range_not_satisfiable expectation_failed ima_teapot :
      StatusCode
  unprocessable_entity locked failed_dependency unordered_collection upgrade_required : StatusCode
  precondition_required too_many_requests request_header_fields_too_large : StatusCode
  internal_server_error not_implemented bad_gateway service_unavailable gateway_timeout : StatusCode
  http_version_not_supported variant_also_negotiates insufficient_storage loop_detected : StatusCode
  not_extended network_authentication_required unknown_error : StatusCode

-- `status as u16`
unfoldable pub status_u16 : StatusCode → ℕ
status_u16 continue = 100
status_u16 switching_protocols = 101
status_u16 ok = 200
status_u16 created = 201
status_u16 accepted = 202
status_u16 non_authoritative_information = 203
status_u16 no_content = 204
status_u16 reset_content = 205
status_u16 partial_content = 206
status_u16 multi_status = 207
status_u16 already_reported = 208
status_u16 moved_permanently = 301
status_u16 found = 302
status_u16 see_other = 303
status_u16 not_modified = 304
status_u16 temporary_redirect = 307
status_u16 permanent_redirect = 308
status_u16 bad_request = 400
status_u16 unauthorized = 401
status_u16 forbidden = 403
status_u16 not_found = 404
status_u16 method_not_allowed = 405
status_u16 not_acceptable = 406
status_u16 proxy_authentication_required = 407
status_u16 request_timeout = 408
status_u16 conflict = 409
status_u16 gone = 410
status_u16 length_required = 411
status_u16 precondition_failed = 412
status_u16 payload_too_large = 413
status_u16 uri_too_long = 414
status_u16 unsupported_media_type = 415
status_u16 range_not_satisfiable = 416
status_u16 expectation_failed = 417
status_u16 ima_teapot = 418
status_u16 unprocessable_entity = 422
status_u16 locked = 423
status_u16 failed_dependency = 424
status_u16 unordered_collection = 425
status_u16 upgrade_required = 426
status_u16 precondition_required = 428
status_u16 too_many_requests = 429
status_u16 request_header_fields_too_large = 431
status_u16 internal_server_error = 500
status_u16 not_implemented = 501
status_u16 bad_gateway = 502
status_u16 service_unavailable = 503
status_u16 gateway_timeout = 504
status_u16 http_version_not_supported = 505
status_u16 variant_also_negotiates = 506
status_u16 insufficient_storage = 507
status_u16 loop_detected = 508
status_u16 not_extended = 510
status_u16 network_authentication_required = 511
status_u16 unknown_error = 520

-- `String::from(&status)`
unfoldable pub reason : StatusCode → Str
reason continue = codes "Continue"
reason switching_protocols = codes "Switching Protocols"
reason ok = codes "OK"
reason created = codes "Created"
reason accepted = codes "Accepted"
reason non_authoritative_information = codes "Non-Authoritative Information"
reason no_content = codes "No Content"
reason reset_content = codes "Reset Content"
reason partial_content = codes "Partial Content"
reason multi_status = codes "Multi-Status"
reason already_reported = codes "Already Reported"
reason moved_permanently = codes "Moved Permanently"
reason found = codes "Found"
reason see_other = codes "See Other"
reason not_modified = codes "Not Modified"
reason temporary_redirect = codes "Temporary Redirect"
reason permanent_redirect = codes "Permanent Redirect"
reason bad_request = codes "Bad Request"
reason unauthorized = codes "Unauthorized"
reason forbidden = codes "Forbidden"
reason not_found = codes "Not Found"
reason method_not_allowed = codes "Method Not Allowed"
reason not_acceptable = codes "Not Acceptable"
reason proxy_authentication_required = codes "Proxy Authentication Required"
reason request_timeout = codes "Request Timeout"
reason conflict = codes "Conflict"
reason gone = codes "Gone"
reason length_required = codes "Length Required"
reason precondition_failed = codes "Precondition Failed"
reason payload_too_large = codes "Payload Too Large"
reason uri_too_long = codes "URI Too Long"
reason unsupported_media_type = codes "Unsupported Media Type"
reason range_not_satisfiable = codes "Range Not Satisfiable"
reason expectation_failed = codes "Expectation Failed"
reason ima_teapot = codes "I'm a Teapot"
reason unprocessable_entity = codes "Unprocessable Entity"
reason locked = codes "Locked"
reason failed_dependency = codes "Failed Dependency"
reason unordered_collection = codes "Unordered Collection"
reason upgrade_required = codes "Upgrade Required"
reason precondition_required = codes "Precondition Required"
reason too_many_requests = codes "Too Many Requests"
reason request_header_fields_too_large = codes "Request Header Fields Too Large"
reason internal_server_error = codes "Internal Server Error"
reason not_implemented = codes "Not Implemented"
reason bad_gateway = codes "Bad Gateway"
reason service_unavailable = codes "Service Unavailable"
reason gateway_timeout = codes "Gateway Timeout"
reason http_version_not_supported = codes "HTTP Version Not Supported"
reason variant_also_negotiates = codes "Variant Also Negotiates"
reason insufficient_storage = codes "Insufficient Storage"
reason loop_detected = codes "Loop Detected"
reason not_extended = codes "Not Extended"
reason network_authentication_required = codes "Network Authentication Required"
reason unknown_error = codes "Unknown Error"

-- A code has three digits.
pub status_u16_bounds : (s : StatusCode) → (100 ≤ status_u16 s) × (status_u16 s < 600)
unfolding status_u16
status_u16_bounds continue = (omega arith, omega arith)
status_u16_bounds _ = (omega arith, omega arith)

-- A reason phrase holds no carriage return.
pub reason-Lacks : (s : StatusCode) → Lacks 13 (reason s)
unfolding reason
reason-Lacks continue = omega arith
reason-Lacks _ = omega arith
