-- ===== src/Worker/NetworkPolicy.antt =====
-- apps/worker/src/network-policy.ts: what reference checks say about the worker's own connection.
use link_alive.Common.{
  ℕ, ◌≤◌, ◌≡◌, refl, ◌↔◌, Bool, true, false, ◌&&◌, Option, none, some, List, [], ◌∷◌, length, any,
  all, leb, if◌then◌else◌, arith,
}
use link_alive.Domain.Types.{CheckOutcome, CheckErrorType}
use link_alive.Monitoring.Types.{MonitorCheckResult}

-- The states of the network; UNKNOWN also stands for a snapshot that was superseded.
pub data NetworkStatus : Type 0 where
  online offline unknown disabled : NetworkStatus

-- `status === 'OFFLINE' || outageId !== null`
unfoldable pub reference_check_interval_ms : NetworkStatus → Option ℕ → ℕ
reference_check_interval_ms NetworkStatus.offline outage_id = 10000
reference_check_interval_ms _ (some id) = 10000
reference_check_interval_ms _ none = 60000

-- Membership in NETWORK_ERRORS.
abbrev pub is_network_error : Option CheckErrorType → Bool
is_network_error (some CheckErrorType.dns_error) = true
is_network_error (some CheckErrorType.connect_timeout) = true
is_network_error (some CheckErrorType.connection_refused) = true
is_network_error (some CheckErrorType.ttfb_timeout) = true
is_network_error (some CheckErrorType.request_timeout) = true
is_network_error (some CheckErrorType.network_error) = true
is_network_error _ = false

abbrev pub is_target_failure : CheckOutcome → Bool
is_target_failure CheckOutcome.target_failure = true
is_target_failure _ = false

abbrev pub is_none {ℓ} : {A : Type ℓ} → Option A → Bool
is_none none = true
is_none (some a) = false

abbrev pub is_some {ℓ} : {A : Type ℓ} → Option A → Bool
is_some none = false
is_some (some a) = true

unfoldable pub is_network_failure : MonitorCheckResult → Bool
is_network_failure r =
    is_target_failure r.outcome && is_none r.status_code && is_network_error r.error_type

abbrev pub has_response : MonitorCheckResult → Bool
has_response r = is_some r.status_code

unfoldable pub reference_status : List MonitorCheckResult → NetworkStatus
reference_status results =
    if any has_response results
    then NetworkStatus.online
    else (if leb 2 (length results) && all is_network_failure results
        then NetworkStatus.offline
        else NetworkStatus.unknown)

-- The text that replaces the error message is a constant of the source.
unfoldable pub inconclusive_network_result : List ℕ → MonitorCheckResult → MonitorCheckResult
inconclusive_network_result message r = record r {
  outcome = CheckOutcome.inconclusive;
  error_message_safe = some message;
}

any-all_excluded :
    (rs : List MonitorCheckResult) → all is_network_failure rs ≡ true → any has_response rs ≡ false
unfolding is_network_failure
any-all_excluded [] h = refl
any-all_excluded (r ∷ rs) h = ground (arith, any-all_excluded rs)

-- The connection is taken for lost exactly when there are at least two reference results and every
-- one of them is a network failure.
pub reference_status-offline_iff :
    (rs : List MonitorCheckResult)
    → (reference_status rs ≡ NetworkStatus.offline)
      ↔ ((2 ≤ length rs) × (all is_network_failure rs ≡ true))
unfolding reference_status
reference_status-offline_iff rs = ground (arith, any-all_excluded rs)

-- One HTTP response, of whatever status, proves the connection.
pub reference_status-online_iff :
    (rs : List MonitorCheckResult)
    → (reference_status rs ≡ NetworkStatus.online) ↔ (any has_response rs ≡ true)
unfolding reference_status
reference_status-online_iff rs = ground arith
