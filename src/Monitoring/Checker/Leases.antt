-- ===== src/Monitoring/Checker/Leases.antt =====
-- packages/monitoring/src/checker.ts: the leases that are given and given back.
use link_alive.Common.{
  ℕ, ◌+◌, ◌≡◌, refl, ◌∙◌, ap, Bool, true, false, Option, none, some, Result, ok, throw, arith,
}
use link_alive.Monitoring.UrlPolicy.Urls.{SafeDestination}
use link_alive.Monitoring.Checker.Session.{Session}
use link_alive.Monitoring.Checker.Ends.{Ends}
use link_alive.Monitoring.Checker.Requests.{
  Limiter, LimiterError, acquire_destination_lease, acquired_lease, release_destination_lease,
  release_of,
}

abbrev pub held : Bool → ℕ
held true = 1
held false = 0

-- Each lease was given back, but for one that is held.
abbrev pub Kept : Session → Type 0
Kept s = s.acquired ≡ s.released + held s.has_lease

-- No lease is held.
abbrev pub Free : Session → Type 0
Free s = (s.has_lease ≡ false) × (s.acquired ≡ s.released)

-- Between a request and its end: without a limiter there is no lease.
abbrev pub Within : Option Limiter → Session → Type 0
Within limiter s = Kept s × (limiter ≡ none → s.has_lease ≡ false)

pub Free-Kept : (s : Session) → Free s → Kept s
Free-Kept s (none_held, same) = rw none_held (omega arith)

pub Kept-Free : (s : Session) → s.has_lease ≡ false → Kept s → Free s
Kept-Free s none_held kept =
    let same : s.acquired ≡ s.released + held false =
      kept ∙ ap (λ b. s.released + held b) none_held in
    (none_held, omega arith)

-- The same answer, after the same redirects.
abbrev pub Still : Session → Session → Type 0
Still s t = (t.status_code ≡ s.status_code) × (t.redirects ≡ s.redirects)

pub Free-Within : (limiter : Option Limiter) (s : Session) → Free s → Within limiter s
Free-Within limiter s h = (Free-Kept s h, λ no_limiter. h.0)

acquired_lease-Within :
    (limiter : Limiter) (result : Result LimiterError (Unit {0})) (s : Session)
    → Free s
    → Ends
        (λ done t. Within (some limiter) t × Still s t)
        (Within (some limiter))
        (acquired_lease result s)
acquired_lease-Within limiter (ok done) s (none_held, same) =
    ((omega arith, λ h. absurd cc), (refl, refl))
acquired_lease-Within limiter (throw e) s h = Free-Within (some limiter) s h

pub acquire_destination_lease-Within :
    (limiter : Option Limiter) (d : SafeDestination) (s : Session)
    → Free s
    → Ends
        (λ done t. Within limiter t × Still s t)
        (Within limiter)
        (acquire_destination_lease limiter d s)
unfolding acquire_destination_lease
acquire_destination_lease-Within none d s h = ((Free-Kept s h, λ no_limiter. h.0), (refl, refl))
acquire_destination_lease-Within (some limiter) d s h =
    acquired_lease-Within limiter (limiter.acquire s.redirects d) s h

release_of-Free :
    (limiter : Limiter) (is_held : Bool) (result : Result LimiterError (Unit {0})) (s : Session)
    → s.has_lease ≡ is_held
    → Kept s
    → Ends (λ done t. Free t × Still s t) (Within (some limiter)) (release_of is_held result s)
release_of-Free limiter true (ok done) s same h =
    let one : s.acquired ≡ s.released + held true = h ∙ ap (λ b. s.released + held b) same in
    ((refl, one), (refl, refl))
release_of-Free limiter true (throw e) s same h = (h, λ none_given. absurd cc)
release_of-Free limiter false result s same h = (Kept-Free s same h, (refl, refl))

pub release_destination_lease-Free :
    (limiter : Option Limiter) (attempt : ℕ) (s : Session)
    → Within limiter s
    → Ends
        (λ done t. Free t × Still s t)
        (Within limiter)
        (release_destination_lease limiter attempt s)
unfolding release_destination_lease
release_destination_lease-Free none attempt s (kept, free) =
    (Kept-Free s (free refl) kept, (refl, refl))
release_destination_lease-Free (some limiter) attempt s (kept, free) =
    release_of-Free limiter s.has_lease (limiter.release s.redirects attempt) s refl kept
