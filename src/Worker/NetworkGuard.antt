-- ===== src/Worker/NetworkGuard.antt =====
-- apps/worker/src/network-guard.ts: a network failure of a target is believed only while the
-- worker's own connection is known to work. The tables are those of one observer: its row, its
-- outages, and the monitors with their observations during an outage.
pub mod Outages
mod Tests
use link_alive.Common.{
  ℕ, ◌+◌, Bool, true, false, not, ◌&&◌, ◌||◌, Option, none, some, List, [], ◌∷◌, ◌==◌, ltb, leb,
  any, if◌then◌else◌, map, max, min, ◌-◌,
}
use link_alive.Monitoring.Types.{MonitorCheckResult}
use link_alive.Worker.NetworkPolicy.{
  NetworkStatus, is_network_failure, inconclusive_network_result, reference_check_interval_ms,
  is_some,
}

pub record Snapshot : Type 0 where
  pub status : NetworkStatus
  pub outage_id : Option ℕ
  pub checked_at : ℕ

pub record NetworkAssessment : Type 0 where
  pub result : MonitorCheckResult
  pub outage_id : Option ℕ

-- `status === 'ONLINE' || status === 'DISABLED'`
abbrev pub is_trusted : NetworkStatus → Bool
is_trusted NetworkStatus.online = true
is_trusted NetworkStatus.disabled = true
is_trusted _ = false

module _ (message : List ℕ) where
  -- `result` alone, or made inconclusive with the snapshot's outage.
  abbrev pub suspend : MonitorCheckResult → Snapshot → NetworkAssessment
  suspend r s = record { result = inconclusive_network_result message r; outage_id = s.outage_id }

  abbrev pub believe : MonitorCheckResult → NetworkAssessment
  believe r = record { result = r; outage_id = none }

  -- `assess`, over the answers that its calls get: the first snapshot, the result of the retry and
  -- the forced snapshot behind it.
  unfoldable pub assess :
      MonitorCheckResult → Snapshot → MonitorCheckResult → Snapshot → NetworkAssessment
  unfolding inconclusive_network_result
  assess result first retried confirmed =
      if not (is_network_failure result) then believe result else by_status first.status
    where
      after_retry : NetworkAssessment
      after_retry =
          if not (is_network_failure retried)
          then believe retried
          else (if is_trusted confirmed.status then believe retried else suspend retried confirmed)

      by_status : NetworkStatus → NetworkAssessment
      by_status NetworkStatus.disabled = believe result
      by_status NetworkStatus.online = after_retry
      by_status _ = suspend result first

pub record Outage : Type 0 where
  pub id : ℕ
  pub started_at : ℕ
  pub recovered_at : Option ℕ
  pub canceled_at : Option ℕ
  pub summarized_at : Option ℕ

pub record Observer : Type 0 where
  pub status : NetworkStatus
  pub checked_at : Option ℕ
  pub active_outage_id : Option ℕ

-- A monitor's row, with the outages whose observations of it still wait for a check.
pub record ObservedMonitor : Type 0 where
  pub active : Bool
  pub deleted : Bool
  pub waiting_outages : List ℕ
  pub next_check_at : ℕ

pub record NetworkTables : Type 0 where
  pub settings_version : ℕ
  pub observer : Observer
  pub outages : List Outage
  pub monitors : List ObservedMonitor
  pub next_outage_id : ℕ

-- The close of an outage: recovered, or canceled and never summarized.
unfoldable pub close_outage : NetworkStatus → ℕ → ℕ → Outage → Outage
close_outage status checked_at id o = if o.id == id then by_status status else o
  where
    by_status : NetworkStatus → Outage
    by_status NetworkStatus.online = record o { recovered_at = some checked_at }
    by_status _ = record o { canceled_at = some checked_at; summarized_at = some checked_at }

-- Monitors that wait for the end of outage `id` are checked at once.
unfoldable pub recheck_now : ℕ → ℕ → ObservedMonitor → ObservedMonitor
recheck_now id checked_at m =
    if m.active && not m.deleted && any (λ o. o == id) m.waiting_outages
    then record m { next_check_at = checked_at }
    else m

-- `status === 'OFFLINE' && !outageId`
abbrev pub opens : NetworkStatus → Option ℕ → Bool
opens NetworkStatus.offline none = true
opens _ _ = false

unfoldable pub open_outage : NetworkStatus → ℕ → NetworkTables → NetworkTables
open_outage status started_at t =
    if opens status t.observer.active_outage_id
    then record t {
      observer = record (t.observer) { active_outage_id = some t.next_outage_id };
      outages =
          record {
            id = t.next_outage_id;
            started_at = started_at;
            recovered_at = none;
            canceled_at = none;
            summarized_at = none;
          }
          ∷ t.outages;
      next_outage_id = t.next_outage_id + 1;
    }
    else t

-- The outage to close, if connectivity is back or no longer watched.
abbrev pub closes : NetworkStatus → Option ℕ → Option ℕ
closes status none = none
closes status (some id) = if is_trusted status then some id else none

unfoldable pub settle_outage : NetworkStatus → ℕ → NetworkTables → NetworkTables
unfolding close_outage recheck_now
settle_outage status checked_at t = elim (closes status t.observer.active_outage_id) [
  | none ↦ t
  | some id ↦ record t {
    observer = record (t.observer) { active_outage_id = none };
    outages = map (close_outage status checked_at id) t.outages;
    monitors = map (recheck_now id checked_at) t.monitors;
  }
]

-- `observer.checkedAt && observer.checkedAt > startedAt`
abbrev pub is_newer : Option ℕ → ℕ → Bool
is_newer none started_at = false
is_newer (some c) started_at = ltb started_at c

abbrev pub checked_or : Option ℕ → ℕ → ℕ
checked_or none d = d
checked_or (some c) d = c

-- What the transaction of `inspectFresh` reads of the tables: they are as they were at its first
-- read, before it waits for the lock on the observer.
pub record Read : Type 0 where
  pub settings_version : ℕ
  pub observer : Observer

-- The transaction of `inspectFresh`: `version` and `status` are what was read and measured before
-- it, between `started_at` and `checked_at`; `read` is what it reads, and `t` what it writes to.
unfoldable pub commit_inspection :
    Read → ℕ → NetworkStatus → ℕ → ℕ → NetworkTables → Snapshot × NetworkTables
unfolding open_outage settle_outage
commit_inspection read version status started_at checked_at t =
    if not (read.settings_version == version)
    then (record { status = NetworkStatus.unknown; outage_id = none; checked_at = checked_at }, t)
    else (if is_newer read.observer.checked_at started_at
        then (
          record {
            status = read.observer.status;
            outage_id = read.observer.active_outage_id;
            checked_at = checked_or read.observer.checked_at checked_at;
          },
          t,
        )
        else (let u =
              settle_outage status checked_at
                (open_outage status started_at (record t { observer = read.observer })) in
            (
              record {
                status = status;
                outage_id = u.observer.active_outage_id;
                checked_at = checked_at;
              },
              record u {
                observer = record {
                  status = status;
                  checked_at = some checked_at;
                  active_outage_id = u.observer.active_outage_id;
                };
              },
            )))

-- `nextPollDelayMs`, at time `now`.
unfoldable pub next_poll_delay_ms : Option Snapshot → ℕ → ℕ
unfolding reference_check_interval_ms
next_poll_delay_ms none now = 10000
next_poll_delay_ms (some c) now =
    min 10000 (max 1 (reference_check_interval_ms c.status c.outage_id + c.checked_at - now))
