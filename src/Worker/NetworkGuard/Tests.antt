-- ===== src/Worker/NetworkGuard/Tests.antt =====
-- A lost connection between two checks of the references.
use link_alive.Common.{ℕ, ◌≡◌, refl, ◌≢◌, ◌⊎◌, true, none, some, []}
use link_alive.Domain.Types.{CheckSource, CheckOutcome, CheckErrorType, at}
use link_alive.Monitoring.Types.{MonitorCheckResult}
use link_alive.Worker.NetworkPolicy.{NetworkStatus, is_network_failure}
use link_alive.Worker.NetworkGuard.{
  Snapshot, NetworkTables, Read, is_trusted, assess, commit_inspection,
}
use link_alive.Worker.NetworkGuard.Outages.{
  IsConsistent, open_count, assess-trusted, commit_inspection-IsConsistent,
  commit_inspection-active,
}

abbrev unreachable : MonitorCheckResult
unreachable = record {
  source = CheckSource.scheduled;
  outcome = CheckOutcome.target_failure;
  config_version = some 1;
  started_at = at 0;
  finished_at = at 5;
  status_code = none;
  ttfb_ms = none;
  total_ms = 5;
  error_type = some CheckErrorType.dns_error;
  error_message_safe = none;
  final_url_display = [];
  redirect_count = 0;
  inspected_body_bytes = 0;
}

abbrev watched : NetworkTables
watched = record {
  settings_version = 1;
  observer = record {
    status = NetworkStatus.online;
    checked_at = some 10;
    active_outage_id = none;
  };
  outages = [];
  monitors = [];
  next_outage_id = 7;
}

watched-IsConsistent : IsConsistent watched
watched-IsConsistent = record { fits = tt; one_open = refl }

abbrev read_of : NetworkTables → Read
read_of t = record { settings_version = t.settings_version; observer = t.observer }

lost_then_back :
    let lost = (commit_inspection (read_of watched) 1 NetworkStatus.offline 20 21 watched).1 in
    let back = (commit_inspection (read_of lost) 1 NetworkStatus.online 30 31 lost).1 in
    (lost.observer.active_outage_id ≡ some 7) × (back.observer.active_outage_id ≡ none)
unfolding commit_inspection
lost_then_back = (refl, refl)

-- Two inspections that overlap each open an outage: the second read before the first committed.
two_outages :
    let first = (commit_inspection (read_of watched) 1 NetworkStatus.offline 20 21 watched).1 in
    let second = (commit_inspection (read_of watched) 1 NetworkStatus.offline 20 22 first).1 in
    open_count second.outages ≡ 2
unfolding commit_inspection
two_outages = refl

commit_inspection-IsConsistent_example :
    IsConsistent (commit_inspection (read_of watched) 1 NetworkStatus.offline 20 21 watched).1
commit_inspection-IsConsistent_example =
    commit_inspection-IsConsistent (read_of watched) 1 NetworkStatus.offline 20 21 watched refl
      watched-IsConsistent

commit_inspection-active_example :
    let (s, u) = commit_inspection (read_of watched) 1 NetworkStatus.offline 20 21 watched in
    (s.outage_id ≡ u.observer.active_outage_id)
    × (is_trusted NetworkStatus.offline ≡ true → s.outage_id ≡ none)
    × (NetworkStatus.offline ≡ NetworkStatus.offline → s.outage_id ≢ none)
    × (NetworkStatus.offline ≡ NetworkStatus.unknown → s.outage_id ≡ none)
commit_inspection-active_example =
    commit_inspection-active (read_of watched) 1 NetworkStatus.offline 20 21 watched refl refl

abbrev online_at : ℕ → Snapshot
online_at t = record { status = NetworkStatus.online; outage_id = none; checked_at = t }

assess-trusted_example :
    (NetworkStatus.online ≡ NetworkStatus.disabled)
    ⊎ ((NetworkStatus.online ≡ NetworkStatus.online) × (is_trusted NetworkStatus.online ≡ true))
unfolding assess is_network_failure
assess-trusted_example = assess-trusted [] unreachable unreachable (online_at 1) (online_at 2) refl
