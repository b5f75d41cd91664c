-- ===== src/Monitoring/Checker/Results.antt =====
-- packages/monitoring/src/checker.ts: what the result of a check says.
use link_alive.Common.{
  ℕ, ◌+◌, ◌≤◌, ◌≡◌, refl, ◌∙◌, ap, Bool, true, false, Option, none, some, List, Result, ok, throw,
  arith, ◌⊎◌, inl, inr,
}
use link_alive.Domain.Types.{CheckOutcome}
use link_alive.Monitoring.Types.{MonitorCheckResult}
use link_alive.Monitoring.Errors.{CheckFailure, destination_limiter_error}
use link_alive.Monitoring.Checker.Config.{MonitorCheckConfig, NormalizedConfig, normalize_config}
use link_alive.Monitoring.Checker.Failures.{Thrown, failure, classify_unknown_error}
use link_alive.Monitoring.Checker.Session.{Session}
use link_alive.Monitoring.Checker.Ends.{Ends}
use link_alive.Monitoring.Checker.Requests.{
  Limiter, LimiterError, limiter_error, other_error, Calls, lease_failure, release_message,
  release_of, release_destination_lease,
}
use link_alive.Monitoring.Checker.Hops.{requests, first_error, release_caught}
use link_alive.Monitoring.Checker.Check.{
  start_session, is_conclusive, policy_error, result_from_failure, success_result, caught, conclude,
  run_check, check_normalized, check_url, is_state_bearing_result,
}
use link_alive.Monitoring.Checker.Leases.{held, Kept, Within, Kept-Free}
use link_alive.Monitoring.Checker.Settled.{Good, requests-Good}

-- The error of a lease that could not be given back.
abbrev IsLeaseFailure : Thrown → Type 0
IsLeaseFailure e = (message : List ℕ) × (e ≡ failure (destination_limiter_error message))

lease_failure-IsLeaseFailure :
    (e : LimiterError) (default : List ℕ) → IsLeaseFailure (lease_failure e default)
lease_failure-IsLeaseFailure (limiter_error message) default = (message, refl)
lease_failure-IsLeaseFailure other_error default = (default, refl)

-- After the `catch` block no lease is missing, or its error says that one is.
abbrev Caught : Thrown × Session → Type 0
Caught (e, t) = (t.acquired ≡ t.released) ⊎ IsLeaseFailure e

module _ (calls : Calls) (config : NormalizedConfig) where
  release_of-Caught :
      (is_held : Bool) (result : Result LimiterError (Unit {0})) (e : Thrown) (s : Session)
      → s.has_lease ≡ is_held
      → Kept s
      → Caught (first_error calls config e (release_of is_held result s))
  release_of-Caught true (ok done) e s same kept =
      let one : s.acquired ≡ s.released + held true = kept ∙ ap (λ b. s.released + held b) same in
      inl one
  release_of-Caught true (throw later) e s same kept =
      inr (lease_failure-IsLeaseFailure later release_message)
  release_of-Caught false result e s same kept = inl (Kept-Free s same kept).1

  release_lease-Caught :
      (limiter : Option Limiter) (e : Thrown) (s : Session)
      → Within limiter s
      → Caught (first_error calls config e (release_destination_lease limiter 1 s))
  unfolding release_destination_lease
  release_lease-Caught none e s (kept, free) = inl (Kept-Free s (free refl) kept).1
  release_lease-Caught (some limiter) e s (kept, free) =
      release_of-Caught s.has_lease (limiter.release s.redirects 1) e s refl kept

  lease_failure-inconclusive :
      (e : Thrown) (redirects : ℕ) (aborted : Bool)
      → IsLeaseFailure e
      → is_conclusive (classify_unknown_error (policy_error e redirects) aborted).outcome ≡ false
  unfolding policy_error classify_unknown_error destination_limiter_error
  lease_failure-inconclusive e redirects aborted (message, same) = rw same refl

  caught-settled :
      (c : Thrown × Session)
      → Caught c
      → is_conclusive (caught calls config c).0.outcome ≡ true
      → (caught calls config c).1.acquired ≡ (caught calls config c).1.released
  unfolding caught result_from_failure
  caught-settled (e, t) (inl same) h = same
  caught-settled (e, t) (inr fault) h =
      let no = lease_failure-inconclusive e t.redirects calls.aborted fault in absurd cc

  conclude-settled :
      (r : Result Thrown (Unit {0}) × Session)
      → Ends (λ done t. Good calls config t) (Within calls.limiter) r
      → is_conclusive (conclude calls config r).0.outcome ≡ true
      → (conclude calls config r).1.acquired ≡ (conclude calls config r).1.released
  unfolding conclude release_caught
  conclude-settled (ok done, s) good h = good.0.1
  conclude-settled (throw e, s) within h =
      caught-settled (release_caught calls config e s)
        (release_lease-Caught calls.limiter e s within) h

  run_check-Good :
      Ends
        (λ done t. Good calls config t)
        (Within calls.limiter)
        (requests calls config config.max_redirects (start_session config))
  run_check-Good =
      requests-Good calls config config.max_redirects (start_session config) (refl, refl)
        (omega arith)

  -- What a result says that names no error.
  abbrev pub Succeeds : MonitorCheckResult × Session → Type 0
  Succeeds (result, s) =
      (result.outcome ≡ CheckOutcome.success)
      × (n : ℕ) × (result.status_code ≡ some n)
      × (config.expected_status_min ≤ n)
      × (n ≤ config.expected_status_max)
      × (result.redirect_count ≤ config.max_redirects)

  conclude-Succeeds :
      (r : Result Thrown (Unit {0}) × Session)
      → Ends (λ done t. Good calls config t) (Within calls.limiter) r
      → (conclude calls config r).0.error_type ≡ none
      → Succeeds (conclude calls config r)
  unfolding conclude success_result caught result_from_failure
  conclude-Succeeds (ok done, s) (free, (n, status, low, high), few) h =
      (refl, n, status, low, high, few)
  conclude-Succeeds (throw e, s) within h = absurd cc

check_normalized-settled :
    (calls : Calls) (input : MonitorCheckConfig) (r : Result CheckFailure NormalizedConfig)
    → is_conclusive (check_normalized calls input r).0.outcome ≡ true
    → (check_normalized calls input r).1.acquired ≡ (check_normalized calls input r).1.released
unfolding run_check
check_normalized-settled calls input (ok config) h =
    conclude-settled calls config
      (requests calls config config.max_redirects (start_session config))
      (run_check-Good calls config) h
check_normalized-settled calls input (throw f) h = refl

conclusive :
    (result : MonitorCheckResult)
    → is_state_bearing_result result ≡ true
    → is_conclusive result.outcome ≡ true
unfolding is_state_bearing_result
conclusive result h = ground arith

-- A check whose result counts for the health of its monitor has given back each lease that it was
-- given, by a call that succeeded, whatever its calls come to.
pub check_url-settled :
    (calls : Calls) (input : MonitorCheckConfig)
    → is_state_bearing_result (check_url calls input).0 ≡ true
    → (check_url calls input).1.acquired ≡ (check_url calls input).1.released
unfolding check_url
check_url-settled calls input h =
    check_normalized-settled calls input (normalize_config calls.byte_length input)
      (conclusive (check_url calls input).0 h)

-- A result without an error is a success, with a status that the configuration expects, after at
-- most as many redirects as it allows.
pub run_check-Succeeds :
    (calls : Calls) (config : NormalizedConfig)
    → (run_check calls config).0.error_type ≡ none
    → Succeeds calls config (run_check calls config)
unfolding run_check
run_check-Succeeds calls config h =
    conclude-Succeeds calls config
      (requests calls config config.max_redirects (start_session config))
      (run_check-Good calls config) h
