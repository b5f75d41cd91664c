-- ===== src/Monitoring/Checker/Config.antt =====
-- packages/monitoring/src/checker.ts: the configuration of a check and its defaults.
use link_alive.Common.{
  ℕ, Bool, true, false, ◌&&◌, ◌||◌, Option, none, some, List, Result, ok, throw, ◌>>=◌, ◌>>◌,
  throw_if, text, trim, ltb, if◌then◌else◌, is_empty,
}
use link_alive.Domain.Types.{CheckSource}
use link_alive.Monitoring.Errors.{CheckFailure, url_policy_error}

pub data Method : Type 0 where
  get head : Method

-- A number of the language: a natural number, or a negative or broken one.
pub data Number : Type 0 where
  natural : ℕ → Number
  other : Number

-- A method that is given is one of the two, or another text.
pub record MonitorCheckConfig : Type 0 where
  pub url : List ℕ
  pub method : Option (Option Method)
  pub timeout_ms : Option Number
  pub expected_status_min : Option Number
  pub expected_status_max : Option Number
  pub expected_keyword : Option (List ℕ)
  pub follow_redirects : Option Bool
  pub max_redirects : Option Number
  pub source : Option CheckSource
  pub config_version : Option ℕ

pub record NormalizedConfig : Type 0 where
  pub url : List ℕ
  pub method : Method
  pub timeout_ms : ℕ
  pub expected_status_min : ℕ
  pub expected_status_max : ℕ
  pub expected_keyword : Option (List ℕ)
  pub follow_redirects : Bool
  pub max_redirects : ℕ
  pub source : CheckSource
  pub config_version : Option ℕ

abbrev pub default_to {ℓ} : {A : Type ℓ} → A → Option A → A
default_to d none = d
default_to d (some a) = a

abbrev pub require_number : Number → List ℕ → Result CheckFailure ℕ
require_number (natural n) message = ok n
require_number other message = throw (url_policy_error message)

abbrev pub require_method : Option Method → Result CheckFailure Method
require_method (some m) = ok m
require_method none = throw (url_policy_error (text "GET 또는 HEAD 방식만 사용할 수 있습니다."))

unfoldable pub keyword_of : Option (List ℕ) → Option (List ℕ)
keyword_of none = none
keyword_of (some k) = if is_empty (trim k) then none else some k

abbrev pub is_head : Method → Bool
is_head head = true
is_head get = false

abbrev pub has_keyword : Option (List ℕ) → Bool
has_keyword none = false
has_keyword (some k) = true

-- A keyword that is not null is not empty.
abbrev pub is_long : (List ℕ → ℕ) → Option (List ℕ) → Bool
is_long byte_length none = false
is_long byte_length (some k) = ltb 4096 (byte_length k)

abbrev pub timeout_message : List ℕ
timeout_message = text "전체 제한 시간은 500~30000ms여야 합니다."

abbrev pub status_message : List ℕ
status_message = text "기대 HTTP 상태 코드 범위가 올바르지 않습니다."

abbrev pub redirects_message : List ℕ
redirects_message = text "리다이렉트는 최대 5회까지 허용됩니다."

-- `byte_length` is `Buffer.byteLength` for UTF-8.
unfoldable pub normalize_config :
    (byte_length : List ℕ → ℕ) → MonitorCheckConfig → Result CheckFailure NormalizedConfig
unfolding keyword_of
normalize_config byte_length config = do
  method ← require_method (default_to (some get) config.method)
  timeout_ms ← require_number (default_to (natural 10000) config.timeout_ms) timeout_message
  throw_if (ltb timeout_ms 500 || ltb 30000 timeout_ms) (url_policy_error timeout_message)
  low ← require_number (default_to (natural 200) config.expected_status_min) status_message
  high ← require_number (default_to (natural 299) config.expected_status_max) status_message
  throw_if (ltb low 100 || ltb 599 high || ltb high low) (url_policy_error status_message)
  max_redirects ← require_number (default_to (natural 5) config.max_redirects) redirects_message
  throw_if (ltb 5 max_redirects) (url_policy_error redirects_message)
  throw_if (is_head method && has_keyword (keyword_of config.expected_keyword))
      (url_policy_error (text "HEAD 검사에는 응답 키워드를 설정할 수 없습니다."))
  throw_if (is_long byte_length (keyword_of config.expected_keyword))
      (url_policy_error (text "응답 키워드는 4096바이트 이하여야 합니다."))
  ok (record {
    url = config.url;
    method = method;
    timeout_ms = timeout_ms;
    expected_status_min = low;
    expected_status_max = high;
    expected_keyword = keyword_of config.expected_keyword;
    follow_redirects = default_to true config.follow_redirects;
    max_redirects = max_redirects;
    source = default_to CheckSource.scheduled config.source;
    config_version = config.config_version;
  })

abbrev pub fallback_method : Option (Option Method) → Method
fallback_method (some (some head)) = head
fallback_method _ = get

-- What a result names where the configuration was refused.
unfoldable pub fallback_config : MonitorCheckConfig → NormalizedConfig
fallback_config input = record {
  url = input.url;
  method = fallback_method input.method;
  timeout_ms = 10000;
  expected_status_min = 200;
  expected_status_max = 299;
  expected_keyword = none;
  follow_redirects = true;
  max_redirects = 5;
  source = default_to CheckSource.scheduled input.source;
  config_version = input.config_version;
}
