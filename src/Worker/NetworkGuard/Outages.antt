-- ===== src/Worker/NetworkGuard/Outages.antt =====
-- When a target failure is believed, and how outages open and close.
use link_alive.Common.{
  ℕ, ◌+◌, ◌<◌, ◌≡◌, refl, ◌≢◌, ◌⊎◌, Bool, true, false, ◌&&◌, Option, none, some, List, [], ◌∷◌, All,
  map, arith, ◌==◌, if◌then◌else◌, Option-cases, Bool-cases, inl, inr,
}
use link_alive.Monitoring.Types.{MonitorCheckResult}
use link_alive.Worker.NetworkPolicy.{NetworkStatus, is_network_failure, is_none}
use link_alive.Worker.NetworkGuard.{
  Snapshot, Outage, NetworkTables, Read, is_trusted, assess, opens, closes, is_newer, close_outage,
  open_outage, settle_outage, commit_inspection,
}

-- A network failure of a target reaches the health of its monitor only if the connection is not
-- watched, or if it worked before the retry and is not known to have failed after it.
pub assess-trusted :
    (message : List ℕ) (result retried : MonitorCheckResult) (first confirmed : Snapshot)
    → is_network_failure (assess message result first retried confirmed).result ≡ true
    → (first.status ≡ NetworkStatus.disabled)
      ⊎ ((first.status ≡ NetworkStatus.online) × (is_trusted confirmed.status ≡ true))
unfolding assess is_network_failure
assess-trusted message result retried first confirmed h = ground arith

abbrev pub is_open : Outage → Bool
is_open o = is_none o.recovered_at && is_none o.canceled_at

abbrev pub open_count : List Outage → ℕ
open_count [] = 0
open_count (o ∷ os) = (if is_open o then 1 else 0) + open_count os

abbrev pub active_count : Option ℕ → ℕ
active_count none = 0
active_count (some id) = 1

-- An outage of the observer whose active outage is `active`, with ids below `next`.
abbrev pub Fits : Option ℕ → ℕ → Outage → Type 0
Fits active next o = (o.id < next) × (is_open o ≡ true → active ≡ some o.id)

-- The observer's active outage is its one open outage.
pub record IsConsistent (t : NetworkTables) : Type 0 where
  pub fits : All (Fits t.observer.active_outage_id t.next_outage_id) t.outages
  pub one_open : open_count t.outages ≡ active_count t.observer.active_outage_id

Fits-fresh : (n : ℕ) (os : List Outage) → All (Fits none n) os → All (Fits (some n) (n + 1)) os
Fits-fresh n [] h = tt
Fits-fresh n (o ∷ os) ((lt, calm), hs) =
    ((omega arith, λ p. absurd (none-ne-some (calm p))), Fits-fresh n os hs)
  where
    none-ne-some : {k : ℕ} → none ≡ some k → ⊥
    none-ne-some e = cc

opens-none :
    (status : NetworkStatus) (active : Option ℕ) → opens status active ≡ true → active ≡ none
opens-none status active h = ground arith

close_outage-closed :
    (status : NetworkStatus) (c id : ℕ) (o : Outage)
    → (is_open o ≡ true → ◌≡◌ {A = Option ℕ} (some id) (some o.id))
    → (is_open (close_outage status c id o) ≡ false) × ((close_outage status c id o).id ≡ o.id)
unfolding close_outage
close_outage-closed status c id o h = ground arith

Fits-closed :
    (status : NetworkStatus) (c id n : ℕ) (os : List Outage)
    → All (Fits (some id) n) os
    → All (Fits none n) (map (close_outage status c id) os)
      × (open_count (map (close_outage status c id) os) ≡ 0)
unfolding close_outage
Fits-closed status c id n [] h = (tt, refl)
Fits-closed status c id n (o ∷ os) ((lt, calm), hs) =
    let (rest, zero_open) = Fits-closed status c id n os hs in
    let (shut, same) = close_outage-closed status c id o calm in
    (((rw same lt, λ p. absurd (true≢ shut p)), rest), rw shut (omega arith))
  where
    true≢ : {b : Bool} → b ≡ false → b ≡ true → ⊥
    true≢ e p = cc

open_outage-IsConsistent :
    (status : NetworkStatus) (started_at : ℕ) (t : NetworkTables)
    → IsConsistent t
    → IsConsistent (open_outage status started_at t)
open_outage-IsConsistent status started_at t w =
    elim (Bool-cases (opens status t.observer.active_outage_id)) [
      | inl new ↦
          let idle = opens-none status t.observer.active_outage_id new in
          unfold open_outage in
          rw new (record {
            fits = (
              (omega arith, λ p. refl),
              Fits-fresh t.next_outage_id t.outages (rw idle at w.fits),
            );
            one_open =
                let zero_open : open_count t.outages ≡ 0 = rw idle at w.one_open in omega arith;
          })
      | inr old ↦ unfold open_outage in rw old w
    ]

closes-some :
    (status : NetworkStatus) (active : Option ℕ) (id : ℕ)
    → closes status active ≡ some id
    → active ≡ some id
closes-some status active id h = ground arith

settle_outage-IsConsistent :
    (status : NetworkStatus) (c : ℕ) (t : NetworkTables)
    → IsConsistent t
    → IsConsistent (settle_outage status c t)
settle_outage-IsConsistent status c t w =
    elim (Option-cases (closes status t.observer.active_outage_id)) [
      | inl kept ↦ unfold settle_outage in rw (kept, settle_outage) w
      | inr (id, closing) ↦
          let active = closes-some status t.observer.active_outage_id id closing in
          let (fits, none_open) =
            Fits-closed status c id t.next_outage_id t.outages (rw active at w.fits) in
          unfold settle_outage in
          rw (closing, settle_outage) (record { fits = fits; one_open = none_open })
    ]

module _ (read : Read) (version : ℕ) (status : NetworkStatus) (started_at checked_at : ℕ)
    (t : NetworkTables) where
  commit-stale :
      (read.settings_version == version) ≡ false
      → IsConsistent t
      → IsConsistent (commit_inspection read version status started_at checked_at t).1
  commit-stale stale w = unfold commit_inspection in rw stale w

  commit-newer :
      (read.settings_version == version) ≡ true
      → is_newer read.observer.checked_at started_at ≡ true
      → IsConsistent t
      → IsConsistent (commit_inspection read version status started_at checked_at t).1
  commit-newer current newer w = unfold commit_inspection in rw (current, newer) w

  commit-fresh :
      (read.settings_version == version) ≡ true
      → is_newer read.observer.checked_at started_at ≡ false
      → read.observer ≡ t.observer
      → IsConsistent t
      → IsConsistent (commit_inspection read version status started_at checked_at t).1
  commit-fresh current fresh same w =
      let v : NetworkTables = record t { observer = read.observer } in
      let found : IsConsistent v = record {
        fits = rw same w.fits;
        one_open = rw same w.one_open;
      } in
      let u =
        settle_outage-IsConsistent status checked_at (open_outage status started_at v)
          (open_outage-IsConsistent status started_at v found) in
      unfold commit_inspection in
      rw (current, fresh) (record { fits = u.fits; one_open = u.one_open })

-- Whatever is measured, and in whatever order it is committed: the observer has at most one open
-- outage, that one is its active outage, and outage ids are below the next one, so long as no other
-- inspection of the observer commits between the first read of a transaction and its lock.
pub commit_inspection-IsConsistent :
    (read : Read) (version : ℕ) (status : NetworkStatus) (started_at checked_at : ℕ)
    (t : NetworkTables)
    → read.observer ≡ t.observer
    → IsConsistent t
    → IsConsistent (commit_inspection read version status started_at checked_at t).1
commit_inspection-IsConsistent read version status started_at checked_at t same w =
    elim (Bool-cases (read.settings_version == version)) [
      | inr stale ↦ commit-stale read version status started_at checked_at t stale w
      | inl current ↦ elim (Bool-cases (is_newer read.observer.checked_at started_at)) [
        | inl newer ↦ commit-newer read version status started_at checked_at t current newer w
        | inr fresh ↦ commit-fresh read version status started_at checked_at t current fresh same w
      ]
    ]

-- An inspection that is neither superseded by new settings nor by a newer one, as its transaction
-- reads them, leaves no active outage if the connection works or is not watched, an active one if it
-- is offline, and the one that it has read if it is unknown; the snapshot names the same outage as
-- the row.
pub commit_inspection-active :
    (read : Read) (version : ℕ) (status : NetworkStatus) (started_at checked_at : ℕ)
    (t : NetworkTables)
    → read.settings_version ≡ version
    → is_newer read.observer.checked_at started_at ≡ false
    → let (s, u) = commit_inspection read version status started_at checked_at t in
      (s.outage_id ≡ u.observer.active_outage_id)
      × (is_trusted status ≡ true → s.outage_id ≡ none)
      × (status ≡ NetworkStatus.offline → s.outage_id ≢ none)
      × (status ≡ NetworkStatus.unknown → s.outage_id ≡ read.observer.active_outage_id)
unfolding commit_inspection
commit_inspection-active read version status started_at checked_at t current fresh = ground arith
