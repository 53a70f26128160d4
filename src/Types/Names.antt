-- ===== src/Types/Names.antt =====
-- The header names and methods of engine/src/types/definitions.rs.
use rpress.Common.{Option, none, some, Str, codes, ◌==◌, list_eq, nat_eq, if◌then◌else◌}

pub data HeadersResponse : Type 0 where
  date content content_length content_type content_encoding content_language : HeadersResponse
  content_location content_range content_disposition content_security_policy : HeadersResponse
  content_security_policy_report_only expires last_modified location pragma : HeadersResponse
  retry_after server set_cookie vary www_authenticate x_content_type_options : HeadersResponse
  x_powered_by x_request_id x_robots_tag x_ua_compatible x_frame_options : HeadersResponse
  x_xss_protection alt_svc accept_patch accept_ranges age allow alt_used : HeadersResponse
  cache_control connection content_md5 etag transfer_encoding upgrade : HeadersResponse

-- `String::from(header)`
unfoldable pub header_name : HeadersResponse → Str
header_name date = codes "Date"
header_name content = codes "Content"
header_name content_length = codes "Content-Length"
header_name content_type = codes "Content-Type"
header_name content_encoding = codes "Content-Encoding"
header_name content_language = codes "Content-Language"
header_name content_location = codes "Content-Location"
header_name content_range = codes "Content-Range"
header_name content_disposition = codes "Content-Disposition"
header_name content_security_policy = codes "Content-Security-Policy"
header_name content_security_policy_report_only = codes "Content-Security-Policy-Report-Only"
header_name expires = codes "Expires"
header_name last_modified = codes "Last-Modified"
header_name location = codes "Location"
header_name pragma = codes "Pragma"
header_name retry_after = codes "Retry-After"
header_name server = codes "Server"
header_name set_cookie = codes "Set-Cookie"
header_name vary = codes "Vary"
header_name www_authenticate = codes "WWW-Authenticate"
header_name x_content_type_options = codes "X-Content-Type-Options"
header_name x_powered_by = codes "X-Powered-By"
header_name x_request_id = codes "X-Request-ID"
header_name x_robots_tag = codes "X-Robots-Tag"
header_name x_ua_compatible = codes "X-UA-Compatible"
header_name x_frame_options = codes "X-Frame-Options"
header_name x_xss_protection = codes "X-XSS-Protection"
header_name alt_svc = codes "Alt-Svc"
header_name accept_patch = codes "Accept-Patch"
header_name accept_ranges = codes "Accept-Ranges"
header_name age = codes "Age"
header_name allow = codes "Allow"
header_name alt_used = codes "Alt-Used"
header_name cache_control = codes "Cache-Control"
header_name connection = codes "Connection"
header_name content_md5 = codes "Content-MD5"
header_name etag = codes "ETag"
header_name transfer_encoding = codes "Transfer-Encoding"
header_name upgrade = codes "Upgrade"

pub data HttpVerbs : Type 0 where
  get post delete put patch head options : HttpVerbs

-- `none` is the error `UnknownMethod`.
unfoldable pub try_from_str : Str → Option HttpVerbs
try_from_str method =
    if method == codes "delete"
    then some delete
    else if method == codes "patch"
    then some patch
    else if method == codes "post"
    then some post
    else if method == codes "put"
    then some put
    else if method == codes "get"
    then some get
    else if method == codes "head"
    then some head
    else if method == codes "options"
    then some options
    else none

-- `String::from(verb)`
unfoldable pub verb_name : HttpVerbs → Str
verb_name delete = codes "DELETE"
verb_name get = codes "GET"
verb_name post = codes "POST"
verb_name put = codes "PUT"
verb_name patch = codes "PATCH"
verb_name head = codes "HEAD"
verb_name options = codes "OPTIONS"
