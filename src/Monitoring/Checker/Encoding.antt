-- ===== src/Monitoring/Checker/Encoding.antt =====
-- packages/monitoring/src/checker.ts: the headers of a response, and how its body is encoded.
use link_alive.Common.{
  ℕ, ◌+◌, Bool, not, ◌&&◌, ◌||◌, Option, none, some, List, [], ◌∷◌, ◌++◌, Result, ok, throw, ◌>>◌,
  throw_if, text, trim, ltb, if◌then◌else◌, any, all, map, is_empty,
}
use link_alive.Common.Json.{is_text}
use link_alive.Domain.Types.{CheckErrorType}
use link_alive.Monitoring.Errors.{CheckFailure, target_failure}
use link_alive.Monitoring.UrlPolicy.Ipv4.{is_digit, number_from}
use link_alive.Monitoring.UrlPolicy.Ipv6.{to_lower}

pub data HeaderValue : Type 0 where
  single : List ℕ → HeaderValue
  several : List (List ℕ) → HeaderValue

abbrev pub Headers : Type 0
Headers = List (List ℕ × HeaderValue)

abbrev pub values_of : HeaderValue → List (List ℕ)
values_of (single v) = v ∷ []
values_of (several vs) = vs

abbrev pub header : Headers → List ℕ → List (List ℕ)
header [] name = []
header ((n, v) ∷ headers) name = if is_text n name then values_of v else header headers name

abbrev pub first : List (List ℕ) → Option (List ℕ)
first [] = none
first (v ∷ vs) = some v

-- `firstHeader`, for a name in lower case.
unfoldable pub first_header : Headers → List ℕ → Option (List ℕ)
first_header headers name = first (header headers name)

-- `approximateHeaderBytes`
abbrev pub value_bytes : (List ℕ → ℕ) → List ℕ → List (List ℕ) → ℕ
value_bytes byte_length name [] = 0
value_bytes byte_length name (v ∷ vs) =
    byte_length (name ++ (text ": " ++ (v ++ (13 ∷ 10 ∷ [])))) + value_bytes byte_length name vs

unfoldable pub approximate_header_bytes : (List ℕ → ℕ) → Headers → ℕ
approximate_header_bytes byte_length [] = 2
approximate_header_bytes byte_length ((name, v) ∷ headers) =
    value_bytes byte_length name (values_of v) + approximate_header_bytes byte_length headers

-- What undoes the encoding of a body.
pub data Decompressor : Type 0 where
  no_decompressor gunzip inflate brotli : Decompressor

-- A header that is there, without white space around it; an absent one is as an empty one.
abbrev pub trimmed : Option (List ℕ) → List ℕ
trimmed none = []
trimmed (some v) = trim v

-- `toLowerCase` of Latin letters, which are all that the names of encodings have.
abbrev pub encoding_of : Headers → List ℕ
encoding_of headers = map to_lower (trimmed (first_header headers (text "content-encoding")))

unfoldable pub decompressor_for : List ℕ → Result CheckFailure Decompressor
decompressor_for encoding =
    if is_empty encoding || is_text encoding (text "identity")
    then ok no_decompressor
    else (if is_text encoding (text "gzip") || is_text encoding (text "x-gzip")
        then ok gunzip
        else (if is_text encoding (text "deflate")
            then ok inflate
            else (if is_text encoding (text "br")
                then ok brotli
                else throw
                    (target_failure CheckErrorType.network_error (text "지원하지 않는 응답 압축 형식입니다.")))))

abbrev pub is_compressed : List ℕ → Bool
is_compressed encoding =
    any (is_text encoding) (text "gzip" ∷ text "x-gzip" ∷ text "deflate" ∷ text "br" ∷ [])

-- A header that is no number is not looked at.
unfoldable pub assert_encoded_content_length : Headers → Result CheckFailure (Unit {0})
unfolding first_header
assert_encoded_content_length headers =
    let raw = trimmed (first_header headers (text "content-length")) in
    throw_if (not (is_empty raw) && all is_digit raw && ltb 262144 (number_from 0 raw))
      (target_failure CheckErrorType.response_limit_exceeded (text "압축 응답의 전송 크기 제한을 초과했습니다."))

unfoldable pub choose_decompressor : Headers → Result CheckFailure Decompressor
unfolding first_header decompressor_for assert_encoded_content_length
choose_decompressor headers =
    let too_long = assert_encoded_content_length headers in
    (if is_compressed (encoding_of headers) then too_long else ok tt)
    >> decompressor_for (encoding_of headers)
