-- ===== src/Session/Errors.antt =====
-- include/beauty/exception.hpp: the classes of `http_error`, as they are with Boost 1.85 and later. The
-- number of a status is Boost's.
use beauty_cl.Prelude.{ℕ, Bytes}
use beauty_cl.Session.{Exception, http_exception}

-- `http_error::client`.
pub data ClientError : Type 0 where
  bad_request unauthorized payment_required forbidden not_found method_not_allowed : ClientError
  not_acceptable proxy_authentication_required request_timeout conflict gone length_required :
      ClientError
  precondition_failed payload_too_large uri_too_long unsupported_media_type : ClientError
  range_not_satisfiable expectation_failed misdirected_request unprocessable_entity locked :
      ClientError
  failed_dependency too_early upgrade_required precondition_required too_many_requests : ClientError
  request_header_fields_too_large unavailable_for_legal_reasons : ClientError

-- `http_error::server`. The header has one more class for older versions, but no version is below the
-- 10850 that it is compared with.
pub data ServerError : Type 0 where
  internal_server_error not_implemented bad_gateway service_unavailable gateway_timeout :
      ServerError
  http_version_not_supported variant_also_negotiates insufficient_storage loop_detected :
      ServerError
  not_extended network_authentication_required : ServerError

pub data HttpError : Type 0 where
  client : ClientError → HttpError
  server : ServerError → HttpError

-- The constructor that the macro defines for each class.
unfoldable pub http_error : (HttpError → ℕ) → HttpError → Bytes → Exception
http_error status error message = http_exception (status error) message
