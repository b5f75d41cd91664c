-- ===== src/Monitoring/Checker/Tests.antt =====
-- The search of a body, the class of an error, and a check with a redirect, at concrete inputs.
use link_alive.Common.{
  ℕ, ◌≡◌, refl, true, false, none, some, List, [], ◌∷◌, ok, throw, length, arith, ◌==◌, text,
  if◌then◌else◌, trim,
}
use link_alive.Domain.Types.{CheckErrorType, CheckOutcome, CheckSource, at}
use link_alive.Monitoring.Errors.{destination_limiter_error}
use link_alive.Monitoring.UrlPolicy.Urls.{Url, UrlApi}
use link_alive.Monitoring.Checker.Config.{
  get, MonitorCheckConfig, NormalizedConfig, normalize_config,
}
use link_alive.Monitoring.Checker.Encoding.{single}
use link_alive.Monitoring.Checker.Requests.{Response, Limiter, Calls, other_error}
use link_alive.Monitoring.Checker.Check.{check_url, run_check, is_state_bearing_result}
use link_alive.Monitoring.Checker.Results.{check_url-settled, Succeeds, run_check-Succeeds}
use link_alive.Monitoring.Checker.Failures.{
  Thrown, unknown, no_object, error_object, other_class, classify_unknown_error,
}
use link_alive.Monitoring.Checker.Keyword.{Decoder, Body, ended, chunk, inspect_keyword}
use link_alive.Monitoring.Checker.Prefix.{Finds, body_text, inspect_keyword-found}

-- Bytes that each are a unit of the text.
abbrev ascii : Decoder
ascii = record {
  State = Unit;
  start = tt;
  decode = λ state bytes stream. (bytes, tt);
  flush = λ state. [];
}

abbrev stop : Thrown
stop = unknown no_object

-- The keyword stands across the border of two chunks.
abbrev page : Body
page = chunk (text "<p>it wo") false (chunk (text "rks</p>") false ended)

inspect_keyword-found_example :
    Finds (text "works") (inspect_keyword ascii stop (text "works") page) (body_text ascii page)
inspect_keyword-found_example =
    inspect_keyword-found ascii stop (text "works") page (omega arith) (refl, (refl, tt))

finds_across :
    inspect_keyword ascii stop (text "works") page ≡ ok (record { found = true; inspected = 15 })
unfolding inspect_keyword
finds_across = refl

refused_deeply :
    (classify_unknown_error
      (unknown (
        error_object other_class none
          (error_object other_class (some (text "ECONNREFUSED")) no_object)))
      false).error_type
    ≡ CheckErrorType.connection_refused
unfolding classify_unknown_error
refused_deeply = refl

abbrev address_of : List ℕ → Url
address_of s = record {
  protocol = text "https:";
  username = [];
  password = [];
  hostname = s;
  rest = text "/";
  search = [];
  hash = [];
}

-- URLs that are written as their host alone.
abbrev hosts : UrlApi
hosts = record {
  parse = λ s. some (address_of s);
  join = λ s base. some (address_of s);
  to_text = λ u. u.hostname;
  is_ip = λ s. 0;
}

abbrev moved_to_shop : Response
moved_to_shop = record {
  status_code = 302;
  headers = (text "location", single (text "shop.test")) ∷ [];
  body = λ decompressor. ended;
}

abbrev shop : Response
shop = record { status_code = 200; headers = []; body = λ decompressor. page }

abbrev free_limiter : Limiter
free_limiter = record { acquire = λ hop destination. ok tt; release = λ hop attempt. ok tt }

abbrev stuck_limiter : Limiter
stuck_limiter = record {
  acquire = λ hop destination. ok tt;
  release = λ hop attempt. throw other_error;
}

-- The first request is redirected, the second answered.
abbrev calls_with : Limiter → Calls
calls_with limiter = record {
  api = hosts;
  resolve = λ hop host. ok (record { address = text "203.0.113.9"; family = 4 } ∷ []);
  limiter = some limiter;
  request = λ hop destination request. ok (if hop == 0 then moved_to_shop else shop);
  close = λ hop. ok tt;
  decoder = ascii;
  cookie_of = λ cookies url. [];
  byte_length = λ s. length s;
  elapsed = λ hop. 20;
  answered = λ hop. 40;
  total_ms = 60;
  started_at = at 1000;
  finished_at = at 1060;
  aborted = false;
  abort_reason = stop;
}

abbrev shop_check : MonitorCheckConfig
shop_check = record {
  url = text "old.test";
  method = none;
  timeout_ms = none;
  expected_status_min = none;
  expected_status_max = none;
  expected_keyword = some (text "works");
  follow_redirects = none;
  max_redirects = none;
  source = none;
  config_version = some 1;
}

abbrev shop_config : NormalizedConfig
shop_config = record {
  url = text "old.test";
  method = get;
  timeout_ms = 10000;
  expected_status_min = 200;
  expected_status_max = 299;
  expected_keyword = some (text "works");
  follow_redirects = true;
  max_redirects = 5;
  source = CheckSource.scheduled;
  config_version = some 1;
}

normalizes : normalize_config (λ s. length s) shop_check ≡ ok shop_config
unfolding normalize_config trim
normalizes = refl

check_url-settled_example :
    let (result, session) = check_url (calls_with free_limiter) shop_check in
    session.acquired ≡ session.released
unfolding check_url is_state_bearing_result trim
check_url-settled_example = check_url-settled (calls_with free_limiter) shop_check refl

two_leases : (check_url (calls_with free_limiter) shop_check).1.released ≡ 2
unfolding check_url trim
two_leases = refl

-- A lease that cannot be given back leaves the check without a result that counts.
stuck_lease :
    (check_url (calls_with stuck_limiter) shop_check).0.outcome ≡ CheckOutcome.platform_error
unfolding check_url trim destination_limiter_error
stuck_lease = refl

run_check-Succeeds_example :
    Succeeds (calls_with free_limiter) shop_config (run_check (calls_with free_limiter) shop_config)
unfolding run_check
run_check-Succeeds_example = run_check-Succeeds (calls_with free_limiter) shop_config refl
