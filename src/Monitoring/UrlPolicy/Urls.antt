-- ===== src/Monitoring/UrlPolicy/Urls.antt =====
-- packages/monitoring/src/url-policy.ts: the URL of a monitor, and the addresses of its host.
use link_alive.Common.{
  ℕ, Bool, not, ◌&&◌, ◌||◌, Option, none, some, List, [], ◌∷◌, Result, ok, throw, ◌>>=◌, ◌>>◌,
  throw_if, length, any, text, ◌==◌, ltb, if◌then◌else◌, map, is_empty,
}
use link_alive.Common.Json.{is_text}
use link_alive.Domain.Types.{CheckErrorType}
use link_alive.Monitoring.Errors.{CheckFailure, url_policy_error, target_failure}
use link_alive.Monitoring.UrlPolicy.Parts.{split}
use link_alive.Monitoring.UrlPolicy.Ipv4.{dot}
use link_alive.Monitoring.UrlPolicy.Ipv6.{to_lower}

-- The parts of a URL that are read or written; `rest` are port and path.
pub record Url : Type 0 where
  pub protocol : List ℕ
  pub username : List ℕ
  pub password : List ℕ
  pub hostname : List ℕ
  pub rest : List ℕ
  pub search : List ℕ
  pub hash : List ℕ

-- The `URL` class of the platform, and Node's `isIP`: `parse` is its constructor, `join` the one with
-- a base, and `to_text` is `toString`.
pub record UrlApi : Type 0 where
  pub parse : List ℕ → Option Url
  pub join : List ℕ → Url → Option Url
  pub to_text : Url → List ℕ
  pub is_ip : List ℕ → ℕ

-- `replace(/^\[|\]$/g, '')`
abbrev pub without_last : ℕ → List ℕ → List ℕ
without_last u [] = []
without_last u (c ∷ []) = if c == u then [] else c ∷ []
without_last u (c ∷ d ∷ cs) = c ∷ without_last u (d ∷ cs)

abbrev pub without_first : ℕ → List ℕ → List ℕ
without_first u [] = []
without_first u (c ∷ cs) = if c == u then cs else c ∷ cs

abbrev pub strip_brackets : List ℕ → List ℕ
strip_brackets host = without_last 93 (without_first 91 host)

abbrev pub is_bad_label : List ℕ → Bool
is_bad_label label = length label == 0 || ltb 63 (length label)

unfoldable pub has_bad_name : List ℕ → Bool
unfolding split
has_bad_name hostname = ltb 253 (length hostname) || any is_bad_label (split dot hostname)

-- `ALLOWED_PROTOCOLS.has(protocol)`
unfoldable pub is_allowed_protocol : List ℕ → Bool
is_allowed_protocol protocol = is_text protocol (text "http:") || is_text protocol (text "https:")

module _ (api : UrlApi) where
  abbrev pub parsed : Option Url → Result CheckFailure Url
  parsed none = throw (url_policy_error (text "올바른 HTTP 또는 HTTPS URL이 아닙니다."))
  parsed (some url) = ok url

  unfoldable pub check_url_parts : Url → Result CheckFailure Url
  unfolding url_policy_error has_bad_name is_allowed_protocol
  check_url_parts url = do
    throw_if (not (is_allowed_protocol url.protocol))
        (url_policy_error (text "HTTP와 HTTPS URL만 검사할 수 있습니다."))
    throw_if (is_empty url.hostname) (url_policy_error (text "URL에 호스트 이름이 필요합니다."))
    let hostname = map to_lower (without_last dot (strip_brackets url.hostname))
    throw_if (api.is_ip hostname == 0 && has_bad_name hostname)
        (url_policy_error (text "도메인 이름의 길이가 올바르지 않습니다."))
    ok (record url { hash = [] })

  unfoldable pub parse_monitor_url : List ℕ → Result CheckFailure Url
  unfolding check_url_parts
  parse_monitor_url input = do url ← parsed (api.parse input); check_url_parts url

  abbrev pub displayed : Option Url → List ℕ
  displayed none = text "(invalid URL)"
  displayed (some url) =
      api.to_text (record url { username = []; password = []; search = []; hash = [] })

  unfoldable pub display_url : List ℕ → List ℕ
  display_url input = displayed (api.parse input)

pub record ResolvedAddress : Type 0 where
  pub address : List ℕ
  pub family : ℕ

pub record SafeDestination : Type 0 where
  pub url : Url
  pub addresses : List ResolvedAddress

abbrev pub is_family : ResolvedAddress → Bool
is_family a = a.family == 4 || a.family == 6

abbrev pub with_family : List ResolvedAddress → List ResolvedAddress
with_family [] = []
with_family (a ∷ rest) = if is_family a then a ∷ with_family rest else with_family rest

-- What the lookup comes to: its entries, or that it failed or was aborted.
pub data LookupError : Type 0 where
  lookup_aborted lookup_failed : LookupError

unfoldable pub resolve_entries :
    Result LookupError (List ResolvedAddress) → Result CheckFailure (List ResolvedAddress)
resolve_entries (ok entries) = ok (with_family entries)
resolve_entries (throw lookup_aborted) =
    throw (target_failure CheckErrorType.dns_error (text "DNS 조회 시간이 초과되었습니다."))
resolve_entries (throw lookup_failed) =
    throw (target_failure CheckErrorType.dns_error (text "도메인 이름을 조회할 수 없습니다."))

-- `NodeDnsResolver.resolve`, where `lookup` is Node's with the timeout of 2 seconds.
unfoldable pub node_resolve :
    (is_ip : List ℕ → ℕ) (lookup : List ℕ → Result LookupError (List ResolvedAddress))
    → List ℕ
    → Result CheckFailure (List ResolvedAddress)
unfolding resolve_entries
node_resolve is_ip lookup hostname =
    let family = is_ip hostname in
    if family == 4 || family == 6
    then ok (record { address = hostname; family = family } ∷ [])
    else resolve_entries (lookup hostname)

-- The keys of the `Map`, whose values stand in the order in which the keys came first.
abbrev pub same_address : ResolvedAddress → ResolvedAddress → Bool
same_address a b = a.family == b.family && is_text a.address b.address

abbrev pub without_address : ResolvedAddress → List ResolvedAddress → List ResolvedAddress
without_address a [] = []
without_address a (b ∷ bs) =
    if same_address a b then without_address a bs else b ∷ without_address a bs

unfoldable pub unique_addresses : List ResolvedAddress → List ResolvedAddress
unique_addresses [] = []
unique_addresses (a ∷ rest) = a ∷ without_address a (unique_addresses rest)

unfoldable pub resolve_safe_destination :
    UrlApi
    → (resolve : List ℕ → Result CheckFailure (List ResolvedAddress)) → List ℕ
    → Result CheckFailure SafeDestination
unfolding parse_monitor_url unique_addresses
resolve_safe_destination api resolve input = do
  url ← parse_monitor_url api input
  addresses ← resolve (strip_brackets url.hostname)
  throw_if (is_empty addresses)
      (target_failure CheckErrorType.dns_error (text "도메인 이름에 연결 가능한 주소가 없습니다."))
  ok (record { url = url; addresses = unique_addresses addresses })
