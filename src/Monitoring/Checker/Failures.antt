-- ===== src/Monitoring/Checker/Failures.antt =====
-- packages/monitoring/src/checker.ts: the failure that an error of any kind stands for.
use link_alive.Common.{
  ℕ, zero, suc, Bool, true, false, ◌&&◌, ◌||◌, Option, none, some, List, [], ◌∷◌, any, text, ◌==◌,
  if◌then◌else◌,
}
use link_alive.Common.Json.{is_text}
use link_alive.Domain.Types.{CheckOutcome, CheckErrorType}
use link_alive.Monitoring.Errors.{CheckFailure, check_failure, target_failure}

-- The classes of undici's errors that are tested for.
pub data ErrorClass : Type 0 where
  headers_timeout connect_timeout other_class : ErrorClass

-- What may be thrown: an object with its class, its `code` where that is a text, and its `cause`; or
-- no object.
pub data ErrorValue : Type 0 where
  no_object : ErrorValue
  error_object : ErrorClass → (code : Option (List ℕ)) → (cause : ErrorValue) → ErrorValue

pub data Thrown : Type 0 where
  failure : CheckFailure → Thrown
  unknown : ErrorValue → Thrown

abbrev pub code_or : Option (List ℕ) → Option (List ℕ) → Option (List ℕ)
code_or none deeper = deeper
code_or (some code) deeper = some code

-- The code of the error or of one of its causes, at most five deep.
abbrev pub code_within : ℕ → ErrorValue → Option (List ℕ)
code_within zero e = none
code_within (suc depth) no_object = none
code_within (suc depth) (error_object class code cause) = code_or code (code_within depth cause)

unfoldable pub nested_error_code : ErrorValue → Option (List ℕ)
nested_error_code e = code_within 5 e

abbrev pub has_code : Option (List ℕ) → List ℕ → Bool
has_code none code = false
has_code (some c) code = is_text c code

abbrev pub starts_with : List ℕ → List ℕ → Bool
starts_with [] s = true
starts_with (c ∷ p) [] = false
starts_with (c ∷ p) (d ∷ s) = c == d && starts_with p s

abbrev pub has_prefix : Option (List ℕ) → List ℕ → Bool
has_prefix none p = false
has_prefix (some c) p = starts_with p c

abbrev pub is_headers_timeout : ErrorValue → Bool
is_headers_timeout (error_object headers_timeout code cause) = true
is_headers_timeout _ = false

abbrev pub is_connect_timeout : ErrorValue → Bool
is_connect_timeout (error_object connect_timeout code cause) = true
is_connect_timeout _ = false

abbrev pub tls_codes : List (List ℕ)
tls_codes =
    text "CERT_HAS_EXPIRED"
    ∷ text "CERT_NOT_YET_VALID"
    ∷ text "DEPTH_ZERO_SELF_SIGNED_CERT"
    ∷ text "SELF_SIGNED_CERT_IN_CHAIN"
    ∷ text "UNABLE_TO_GET_ISSUER_CERT"
    ∷ text "UNABLE_TO_VERIFY_LEAF_SIGNATURE"
    ∷ []

abbrev pub network_codes : List (List ℕ)
network_codes =
    text "ECONNRESET"
    ∷ text "ECONNABORTED"
    ∷ text "EHOSTUNREACH"
    ∷ text "ENETUNREACH"
    ∷ text "ENETDOWN"
    ∷ text "EPIPE"
    ∷ []

-- The kinds of error, in the order in which the tests are made.
pub data ErrorKind : Type 0 where
  timed_out slow_headers slow_connection refused bad_certificate : ErrorKind
  large_headers slow_body broken_network internal : ErrorKind

unfoldable pub kind_of : ErrorValue → Bool → Option (List ℕ) → ErrorKind
kind_of e aborted code =
    if aborted || has_code code (text "ABORT_ERR")
    then timed_out
    else (if is_headers_timeout e || has_code code (text "UND_ERR_HEADERS_TIMEOUT")
        then slow_headers
        else (if is_connect_timeout e
              || has_code code (text "UND_ERR_CONNECT_TIMEOUT")
              || has_code code (text "ETIMEDOUT")
            then slow_connection
            else (if has_code code (text "ECONNREFUSED")
                then refused
                else (if has_prefix code (text "ERR_TLS")
                      || has_prefix code (text "ERR_SSL")
                      || any (has_code code) tls_codes
                    then bad_certificate
                    else (if has_code code (text "UND_ERR_HEADERS_OVERFLOW")
                          || has_code code (text "HPE_HEADER_OVERFLOW")
                        then large_headers
                        else (if has_code code (text "UND_ERR_BODY_TIMEOUT")
                            then slow_body
                            else (if has_code code (text "UND_ERR_SOCKET")
                                  || any (has_code code) network_codes
                                then broken_network
                                else internal)))))))

unfoldable pub failure_of : ErrorKind → CheckFailure
failure_of timed_out = target_failure CheckErrorType.request_timeout (text "전체 요청 제한 시간이 초과되었습니다.")
failure_of slow_headers =
    target_failure CheckErrorType.ttfb_timeout (text "첫 응답 바이트 제한 시간이 초과되었습니다.")
failure_of slow_connection =
    target_failure CheckErrorType.connect_timeout (text "대상 서버 연결 시간이 초과되었습니다.")
failure_of refused = target_failure CheckErrorType.connection_refused (text "대상 서버가 연결을 거절했습니다.")
failure_of bad_certificate =
    target_failure CheckErrorType.tls_error (text "TLS 연결 또는 인증서 검증에 실패했습니다.")
failure_of large_headers =
    target_failure CheckErrorType.response_limit_exceeded (text "응답 헤더 크기 제한을 초과했습니다.")
failure_of slow_body =
    target_failure CheckErrorType.request_timeout (text "응답 본문 처리 제한 시간이 초과되었습니다.")
failure_of broken_network =
    target_failure CheckErrorType.network_error (text "대상 서버와의 네트워크 요청에 실패했습니다.")
failure_of internal = record {
  class = check_failure;
  outcome = CheckOutcome.platform_error;
  error_type = CheckErrorType.platform_error;
  safe_message = text "검사 처리 중 내부 오류가 발생했습니다.";
}

unfoldable pub classify_unknown_error : Thrown → (aborted : Bool) → CheckFailure
unfolding nested_error_code kind_of failure_of
classify_unknown_error (failure f) aborted = f
classify_unknown_error (unknown e) aborted = failure_of (kind_of e aborted (nested_error_code e))
