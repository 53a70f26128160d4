-- ===== src/Types/Error.antt =====
-- engine/src/core/error.rs: the errors of the engine, with the texts that they are shown as.
use rpress.Common.{Str, codes, ◌++◌}

-- An error of input or output is known by its text.
pub data RpressEngineError : Type 0 where
  unknown_method : Str → RpressEngineError
  malformed_request : Str → RpressEngineError
  payload_too_large : RpressEngineError
  io : Str → RpressEngineError

unfoldable pub engine_error_text : RpressEngineError → Str
engine_error_text (unknown_method method) = codes "Unknown HTTP method: " ++ method
engine_error_text (malformed_request reason) = codes "Malformed request: " ++ reason
engine_error_text payload_too_large = codes "Payload exceeds maximum allowed size"
engine_error_text (io error) = codes "IO error: " ++ error
