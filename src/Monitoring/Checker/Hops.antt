-- ===== src/Monitoring/Checker/Hops.antt =====
-- packages/monitoring/src/checker.ts: the loop over redirects, and the result of a check.
use link_alive.Common.{
  ℕ, zero, suc, ◌+◌, ◌-◌, min, max, Bool, true, false, not, ◌&&◌, ◌||◌, Option, none, some, List,
  ◌∷◌, ◌++◌, Result, ok, throw, text, ◌==◌, ltb, if◌then◌else◌, any, map, is_empty,
}
use link_alive.Domain.Types.{CheckErrorType}
use link_alive.Monitoring.Errors.{redirect_policy_error, target_failure}
use link_alive.Monitoring.UrlPolicy.Dotted.{decimal}
use link_alive.Monitoring.UrlPolicy.Urls.{Url, SafeDestination, resolve_safe_destination}
use link_alive.Monitoring.Checker.Config.{NormalizedConfig}
use link_alive.Monitoring.Checker.Encoding.{
  header, first_header, approximate_header_bytes, Decompressor, choose_decompressor,
}
use link_alive.Monitoring.Checker.Failures.{Thrown, failure}
use link_alive.Monitoring.Checker.Keyword.{Inspection, inspect_keyword}
use link_alive.Monitoring.Checker.Session.{
  Session, Action, ◌>>=◌, ◌>>◌, give, current, call, change, fail_if,
}
use link_alive.Monitoring.Checker.Requests.{
  Response, TransportRequest, Calls, same_request, failed, acquire_destination_lease,
  release_destination_lease,
}

abbrev pub is_redirect_status : ℕ → Bool
is_redirect_status n = n == 301 || n == 302 || n == 303 || n == 307 || n == 308

-- A header that is there and not empty.
abbrev pub present : Option (List ℕ) → Option (List ℕ)
present none = none
present (some v) = if is_empty v then none else some v

-- The location to follow.
unfoldable pub redirect_of : NormalizedConfig → Response → Option (List ℕ)
unfolding first_header
redirect_of config response =
    if config.follow_redirects && is_redirect_status response.status_code
    then present (first_header response.headers (text "location"))
    else none

module _ (calls : Calls) (config : NormalizedConfig) where
  open calls use {
    api, resolve, limiter, request, close, decoder, cookie_of, byte_length, elapsed, answered,
    abort_reason,
  }

  unfoldable pub transport_request : (hop : ℕ) → List ℕ → TransportRequest
  transport_request hop cookie =
      let remaining = max 1 (config.timeout_ms - elapsed hop) in
      record {
        cookie = cookie;
        method = config.method;
        headers_timeout_ms = min 5000 remaining;
        body_timeout_ms = remaining;
        max_header_bytes = 32768;
      }

  abbrev pub note_request : (canonical cookie : List ℕ) → Session → Session
  note_request canonical cookie s = record s {
    visited = (canonical, cookie) ∷ s.visited;
    current_url = canonical;
  }

  abbrev pub note_response : Response → Session → Session
  note_response response s = record s {
    has_response = true;
    status_code = some response.status_code;
    ttfb_ms = some (answered s.redirects);
  }

  -- What is thrown by the tests of the loop.
  abbrev pub repeated : Thrown
  repeated = failure (redirect_policy_error (text "리다이렉트 순환이 감지되었습니다."))

  abbrev pub large_headers : Thrown
  large_headers =
      failure (target_failure CheckErrorType.response_limit_exceeded (text "응답 헤더 크기 제한을 초과했습니다."))

  abbrev pub absent_keyword : Thrown
  absent_keyword =
      failure
        (target_failure CheckErrorType.content_mismatch (text "제한된 응답 본문에서 기대 키워드를 찾지 못했습니다."))

  abbrev pub unexpected_status : ℕ → Thrown
  unexpected_status n = failure (
      target_failure CheckErrorType.http_status_mismatch
        (text "기대 범위를 벗어난 HTTP 상태 코드(" ++ (decimal n ++ text ")를 받았습니다.")))

  abbrev pub too_many_redirects : Thrown
  too_many_redirects = failure (redirect_policy_error (text "허용된 리다이렉트 횟수를 초과했습니다."))

  abbrev pub has_large_headers : Response → Bool
  has_large_headers response = ltb 32768 (approximate_header_bytes byte_length response.headers)

  unfoldable pub accept : Url → Response → Action (Url × Response)
  unfolding approximate_header_bytes
  accept url response = do
    change (note_response response)
    fail_if (has_large_headers response) large_headers
    give (url, response)

  unfoldable pub send : SafeDestination → (cookie : List ℕ) → Action (Url × Response)
  unfolding transport_request accept
  send destination cookie = do
    s ← current
    response ← call (request s.redirects destination (transport_request s.redirects cookie))
    accept destination.url response

  abbrev pub cookie_for : Session → SafeDestination → List ℕ
  cookie_for s destination = cookie_of s.cookies (api.to_text destination.url)

  unfoldable pub visit_destination : SafeDestination → Action (Url × Response)
  unfolding send acquire_destination_lease
  visit_destination destination = do
    s ← current
    let canonical = api.to_text destination.url
    fail_if (any (same_request canonical (cookie_for s destination)) s.visited) repeated
    change (note_request canonical (cookie_for s destination))
    acquire_destination_lease limiter destination
    send destination (cookie_for s destination)

  -- One request, up to the test of its headers.
  unfoldable pub visit : Action (Url × Response)
  unfolding visit_destination resolve_safe_destination
  visit = do
    s ← current
    destination ← call (failed (resolve_safe_destination api (resolve s.redirects) s.current_url))
    visit_destination destination

  abbrev pub joined : Option Url → Result Thrown Url
  joined (some url) = ok url
  joined none = throw (failure (redirect_policy_error (text "리다이렉트 주소가 올바르지 않습니다.")))

  -- The cookies that a response sets. An empty text, which the source leaves out where it stands
  -- alone, is one that sets no cookie.
  abbrev pub keep_cookies : Url → Response → Session → Session
  keep_cookies url response s = record s {
    cookies =
        s.cookies ++ map (λ v. (api.to_text url, v)) (header response.headers (text "set-cookie"));
  }

  -- `await response.close(); response = null; await releaseDestinationLease(...)`
  unfoldable pub end_request : Action (Unit {0})
  unfolding release_destination_lease
  end_request = do
    s ← current
    call (close s.redirects)
    change (λ s. record s { has_response = false })
    release_destination_lease limiter 0

  abbrev pub go_to : Url → Session → Session
  go_to url s = record s { current_url = api.to_text url; redirects = s.redirects + 1 }

  unfoldable pub follow_to : Url × Response → Url → Action (Unit {0})
  unfolding end_request
  follow_to (url, response) next = do
    change (keep_cookies url response)
    end_request
    change (go_to next)

  unfoldable pub follow : List ℕ → Url × Response → Action (Unit {0})
  unfolding follow_to
  follow location visited = do
    next ← call (joined (api.join location visited.0))
    follow_to visited next

  unfoldable pub judge : Inspection → Action (Unit {0})
  judge inspection = do
    change (λ s. record s { inspected_body_bytes = inspection.inspected })
    fail_if (not inspection.found) absent_keyword

  unfoldable pub inspect_body : (keyword : List ℕ) → Response → Decompressor → Action (Unit {0})
  unfolding inspect_keyword judge
  inspect_body keyword response decompressor = do
    inspection ← call (inspect_keyword decoder abort_reason keyword (response.body decompressor))
    judge inspection

  unfoldable pub inspect_expected : Option (List ℕ) → Response → Action (Unit {0})
  unfolding inspect_body choose_decompressor
  inspect_expected none response = give tt
  inspect_expected (some keyword) response = do
    decompressor ← call (failed (choose_decompressor response.headers))
    inspect_body keyword response decompressor

  abbrev pub is_unexpected : Response → Bool
  is_unexpected response =
      ltb response.status_code config.expected_status_min
      || ltb config.expected_status_max response.status_code

  unfoldable pub finish : Response → Action (Unit {0})
  unfolding inspect_expected end_request
  finish response = do
    fail_if (is_unexpected response) (unexpected_status response.status_code)
    inspect_expected config.expected_keyword response
    end_request

  -- `rest` is the rest of the loop, unless the redirects have reached their limit.
  unfoldable pub next :
      Option (Action (Unit {0})) → Option (List ℕ) → Url × Response → Action (Unit {0})
  unfolding follow finish
  next rest none v = finish v.1
  next none (some location) v = call (throw too_many_redirects)
  next (some rest) (some location) v = do follow location v; rest

  -- The loop, on the number of redirects that the limit leaves.
  unfoldable pub requests : ℕ → Action (Unit {0})
  unfolding visit next redirect_of
  requests zero = visit >>= λ v. next none (redirect_of config v.1) v
  requests (suc left) = visit >>= λ v. next (some (requests left)) (redirect_of config v.1) v

  -- The `catch` block: the lease that is held is given back, and an error of that comes first.
  abbrev pub first_error : Thrown → Result Thrown (Unit {0}) × Session → Thrown × Session
  first_error e (ok done, s) = (e, s)
  first_error e (throw later, s) = (later, record s { has_lease = false })

  unfoldable pub release_caught : Thrown → Session → Thrown × Session
  unfolding release_destination_lease
  release_caught e s = first_error e (release_destination_lease limiter 1 s)
