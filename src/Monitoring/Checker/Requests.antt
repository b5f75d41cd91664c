-- ===== src/Monitoring/Checker/Requests.antt =====
-- packages/monitoring/src/checker.ts: the requests of a check, its redirects, and its result.
use link_alive.Common.{
  ℕ, ◌+◌, Bool, true, false, ◌&&◌, Option, none, some, List, Result, ok, throw, text,
}
use link_alive.Common.Json.{is_text}
use link_alive.Domain.Types.{Date}
use link_alive.Monitoring.Errors.{CheckFailure, destination_limiter_error}
use link_alive.Monitoring.UrlPolicy.Urls.{UrlApi, ResolvedAddress, SafeDestination}
use link_alive.Monitoring.Checker.Config.{Method}
use link_alive.Monitoring.Checker.Encoding.{Headers, Decompressor}
use link_alive.Monitoring.Checker.Failures.{Thrown, failure}
use link_alive.Monitoring.Checker.Keyword.{Decoder, Body}
use link_alive.Monitoring.Checker.Session.{Action, give, call, change}

-- A response; `body` is what a decompressor makes of its body.
pub record Response : Type 0 where
  pub status_code : ℕ
  pub headers : Headers
  pub body : Decompressor → Body

-- What the limiter of destinations throws.
pub data LimiterError : Type 0 where
  limiter_error : (safe_message : List ℕ) → LimiterError
  other_error : LimiterError

pub record Limiter : Type 0 where
  pub acquire : (hop : ℕ) → SafeDestination → Result LimiterError (Unit {0})
  pub release : (hop attempt : ℕ) → Result LimiterError (Unit {0})

pub record TransportRequest : Type 0 where
  pub cookie : List ℕ
  pub method : Method
  pub headers_timeout_ms : ℕ
  pub body_timeout_ms : ℕ
  pub max_header_bytes : ℕ

-- What the calls of a check come to, for each of its requests in turn. The times are whole
-- milliseconds since its start; `cookie_of` and `set_cookie` are those of the cookie jar.
pub record Calls : Type 1 where
  pub api : UrlApi
  pub resolve : (hop : ℕ) → List ℕ → Result CheckFailure (List ResolvedAddress)
  pub limiter : Option Limiter
  pub request : (hop : ℕ) → SafeDestination → TransportRequest → Result Thrown Response
  pub close : (hop : ℕ) → Result Thrown (Unit {0})
  pub decoder : Decoder
  pub cookie_of : List (List ℕ × List ℕ) → List ℕ → List ℕ
  pub byte_length : List ℕ → ℕ
  pub elapsed : (hop : ℕ) → ℕ
  pub answered : (hop : ℕ) → ℕ
  pub total_ms : ℕ
  pub started_at : Date
  pub finished_at : Date
  pub aborted : Bool
  pub abort_reason : Thrown

abbrev pub same_request : (url cookie : List ℕ) → List ℕ × List ℕ → Bool
same_request url cookie (u, c) = is_text url u && is_text cookie c

abbrev pub failed : {A : Type 0} → Result CheckFailure A → Result Thrown A
failed (ok a) = ok a
failed (throw f) = throw (failure f)

abbrev pub lease_failure : LimiterError → List ℕ → Thrown
lease_failure (limiter_error message) default = failure (destination_limiter_error message)
lease_failure other_error default = failure (destination_limiter_error default)

abbrev pub acquire_message : List ℕ
acquire_message = text "검사 보호 제한을 확인할 수 없어 이번 검사를 시작하지 않았습니다."

abbrev pub release_message : List ℕ
release_message = text "검사 보호 제한을 안전하게 해제하지 못해 결과를 확정하지 않았습니다."

abbrev pub acquired_lease : Result LimiterError (Unit {0}) → Action (Unit {0})
acquired_lease (ok done) = change (λ s. record s { has_lease = true; acquired = s.acquired + 1 })
acquired_lease (throw e) = call (throw (lease_failure e acquire_message))

unfoldable pub acquire_destination_lease : Option Limiter → SafeDestination → Action (Unit {0})
acquire_destination_lease none destination s = give tt s
acquire_destination_lease (some limiter) destination s =
    acquired_lease (limiter.acquire s.redirects destination) s

abbrev pub released_lease : Result LimiterError (Unit {0}) → Action (Unit {0})
released_lease (ok done) = change (λ s. record s { has_lease = false; released = s.released + 1 })
released_lease (throw e) = call (throw (lease_failure e release_message))

abbrev pub release_of : Bool → Result LimiterError (Unit {0}) → Action (Unit {0})
release_of true result = released_lease result
release_of false result = give tt

-- `attempt` is 1 for the call in the `catch` block.
unfoldable pub release_destination_lease : Option Limiter → (attempt : ℕ) → Action (Unit {0})
release_destination_lease none attempt s = give tt s
release_destination_lease (some limiter) attempt s =
    release_of s.has_lease (limiter.release s.redirects attempt) s
