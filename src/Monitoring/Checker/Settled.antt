-- ===== src/Monitoring/Checker/Settled.antt =====
-- packages/monitoring/src/checker.ts: how a check ends, and that no lease is lost.
use link_alive.Common.{
  ℕ, zero, suc, ◌+◌, ◌≤◌, ◌≡◌, refl, ◌∙◌, ap, false, not, Option, none, some, List, arith, any,
}
use link_alive.Monitoring.UrlPolicy.Urls.{Url, SafeDestination, resolve_safe_destination}
use link_alive.Monitoring.Checker.Config.{NormalizedConfig}
use link_alive.Monitoring.Checker.Encoding.{Decompressor, choose_decompressor}
use link_alive.Monitoring.Checker.Keyword.{Inspection, inspect_keyword}
use link_alive.Monitoring.Checker.Session.{Session, Action, ◌>>◌, give, change}
use link_alive.Monitoring.Checker.Ends.{
  Ends, >>=-Ends, call-Ends, call_before-Ends, fail_if-Ends, fail_last-Ends, >>-Ends, Ends-moved,
}
use link_alive.Monitoring.Checker.Requests.{
  Response, Calls, same_request, failed, acquire_destination_lease,
}
use link_alive.Monitoring.Checker.Hops.{
  transport_request, note_request, note_response, repeated, large_headers, absent_keyword,
  unexpected_status, has_large_headers, accept, send, cookie_for, visit_destination, visit, joined,
  keep_cookies, redirect_of, end_request, go_to, follow_to, follow, judge, inspect_body,
  inspect_expected, is_unexpected, finish, next, requests,
}
use link_alive.Monitoring.Checker.Leases.{
  Free, Within, Free-Within, Still, acquire_destination_lease-Within,
  release_destination_lease-Free,
}

module _ (calls : Calls) (config : NormalizedConfig) where
  open calls use {limiter}

  end_request-Free :
      (s : Session)
      → Within limiter s
      → Ends (λ done t. Free t × Still s t) (Within limiter) (end_request calls config s)
  unfolding end_request
  end_request-Free s (kept, free) =
      call_before-Ends (Within limiter) (λ done t. Free t × Still s t) (calls.close s.redirects) _ s
        (kept, free)
        (release_destination_lease-Free limiter 0 (record s { has_response = false }) (kept, free))

  -- After a request: its lease is held, and the variables have its status.
  abbrev Visited : Session → Url × Response → Session → Type 0
  Visited s v t =
      Within limiter t × (t.status_code ≡ some v.1.status_code) × (t.redirects ≡ s.redirects)

  accept-Visited :
      (url : Url) (response : Response) (s t : Session)
      → Within limiter t
      → t.redirects ≡ s.redirects
      → Ends (Visited s) (Within limiter) (accept calls config url response t)
  unfolding accept
  accept-Visited url response s t within still =
      fail_if-Ends (Within limiter) (Visited s) (has_large_headers calls config response)
        (large_headers calls config) (give (url, response)) (note_response calls config response t)
        within (λ small. (within, refl, still))

  send-Visited :
      (d : SafeDestination) (cookie : List ℕ) (s t : Session)
      → Within limiter t
      → t.redirects ≡ s.redirects
      → Ends (Visited s) (Within limiter) (send calls config d cookie t)
  unfolding send
  send-Visited d cookie s t within still =
      call-Ends (Within limiter) (Visited s)
        (calls.request t.redirects d (transport_request calls config t.redirects cookie))
        (accept calls config d.url) t within
        (λ response. accept-Visited d.url response s t within still)

  visit_destination-Visited :
      (d : SafeDestination) (s : Session)
      → Free s
      → Ends (Visited s) (Within limiter) (visit_destination calls config d s)
  unfolding visit_destination
  visit_destination-Visited d s h =
      let canonical = calls.api.to_text d.url in
      let cookie = cookie_for calls config s d in
      let noted = note_request calls config canonical cookie s in
      let lease = acquire_destination_lease limiter d in
      let sent = send calls config d cookie in
      fail_if-Ends (Within limiter) (Visited s) (any (same_request canonical cookie) s.visited)
        (repeated calls config)
        (change (note_request calls config canonical cookie) >> (lease >> sent)) s
        (Free-Within limiter s h)
        (λ fresh.
          >>-Ends (λ t. Within limiter t × Still s t) (Visited s) (Within limiter) lease sent noted
            (acquire_destination_lease-Within limiter d noted h)
            (λ t (within, still). send-Visited d cookie s t within still.1))

  visit-Visited : (s : Session) → Free s → Ends (Visited s) (Within limiter) (visit calls config s)
  unfolding visit
  visit-Visited s h =
      call-Ends (Within limiter) (Visited s)
        (failed (resolve_safe_destination calls.api (calls.resolve s.redirects) s.current_url))
        (visit_destination calls config) s (Free-Within limiter s h)
        (λ d. visit_destination-Visited d s h)

  -- Where a request ends: its lease was given back.
  abbrev Ended : Session → Unit {0} → Session → Type 0
  Ended s done t = Free t × Still s t

  -- Where a redirect was followed.
  abbrev Followed : Session → Session → Type 0
  Followed s t = Free t × (t.redirects ≡ s.redirects + 1)

  follow-Followed :
      (location : List ℕ) (v : Url × Response) (s : Session)
      → Within limiter s
      → Ends (λ done t. Followed s t) (Within limiter) (follow calls config location v s)
  unfolding follow follow_to
  follow-Followed location (url, response) s h =
      let kept = keep_cookies calls config url response s in
      call-Ends (Within limiter) (λ done t. Followed s t)
        (joined calls config (calls.api.join location url)) (follow_to calls config (url, response))
        s h
        (λ next.
          >>-Ends (λ t. Free t × Still s t) (λ done t. Followed s t) (Within limiter)
            (end_request calls config) (change (go_to calls config next)) kept
            (end_request-Free kept h) (λ t (free, still). (free, ap (λ n. n + 1) still.1)))

  judge-Within :
      (inspection : Inspection) (s : Session)
      → Within limiter s
      → Ends
          (λ done t. Within limiter t × Still s t)
          (Within limiter)
          (judge calls config inspection s)
  unfolding judge
  judge-Within inspection s h =
      fail_last-Ends (Within limiter) (λ t. Within limiter t × Still s t) (not inspection.found)
        (absent_keyword calls config) (record s { inspected_body_bytes = inspection.inspected }) h
        (h, (refl, refl))

  inspect_body-Within :
      (keyword : List ℕ) (response : Response) (decompressor : Decompressor) (s : Session)
      → Within limiter s
      → Ends
          (λ done t. Within limiter t × Still s t)
          (Within limiter)
          (inspect_body calls config keyword response decompressor s)
  unfolding inspect_body
  inspect_body-Within keyword response decompressor s h =
      call-Ends (Within limiter) (λ done t. Within limiter t × Still s t)
        (inspect_keyword calls.decoder calls.abort_reason keyword (response.body decompressor))
        (judge calls config) s h (λ inspection. judge-Within inspection s h)

  inspect_expected-Within :
      (keyword : Option (List ℕ)) (response : Response) (s : Session)
      → Within limiter s
      → Ends
          (λ done t. Within limiter t × Still s t)
          (Within limiter)
          (inspect_expected calls config keyword response s)
  unfolding inspect_expected
  inspect_expected-Within none response s h = (h, (refl, refl))
  inspect_expected-Within (some keyword) response s h =
      call-Ends (Within limiter) (λ done t. Within limiter t × Still s t)
        (failed (choose_decompressor response.headers)) (inspect_body calls config keyword response)
        s h (λ decompressor. inspect_body-Within keyword response decompressor s h)

  -- The status is one that the configuration expects.
  abbrev pub InRange : Session → Type 0
  InRange t =
      (n : ℕ) × (t.status_code ≡ some n)
      × (config.expected_status_min ≤ n)
      × (n ≤ config.expected_status_max)

  finish-Ends :
      (response : Response) (s : Session)
      → Within limiter s
      → s.status_code ≡ some response.status_code
      → Ends
          (λ done t. Free t × InRange t × (t.redirects ≡ s.redirects))
          (Within limiter)
          (finish calls config response s)
  unfolding finish
  finish-Ends response s h status =
      let Post : Session → Type 0 = λ t. Free t × InRange t × (t.redirects ≡ s.redirects) in
      let inspected = inspect_expected calls config config.expected_keyword response in
      fail_if-Ends (Within limiter) (λ done t. Post t) (is_unexpected calls config response)
        (unexpected_status calls config response.status_code)
        (inspected >> end_request calls config) s h
        (λ expected.
          >>-Ends (λ t. Within limiter t × Still s t) (λ done t. Post t) (Within limiter) inspected
            (end_request calls config) s
            (inspect_expected-Within config.expected_keyword response s h)
            (λ t (within, still).
              Ends-moved (λ u. Free u × Still t u) Post (Within limiter)
                (end_request calls config t) (end_request-Free t within)
                (λ u (free, later). (
                  free,
                  (response.status_code, later.0 ∙ still.0 ∙ status, ground arith, ground arith),
                  later.1 ∙ still.1,
                ))))

  -- How a check ends well: no lease is held, the status is expected, the redirects are not too many.
  abbrev pub Good : Session → Type 0
  Good t = Free t × InRange t × (t.redirects ≤ config.max_redirects)

  finish-Good :
      (v : Url × Response) (s t : Session)
      → Visited s v t
      → s.redirects ≤ config.max_redirects
      → Ends (λ done u. Good u) (Within limiter) (finish calls config v.1 t)
  finish-Good (url, response) s t (within, status, still) few =
      Ends-moved (λ u. Free u × InRange u × (u.redirects ≡ t.redirects)) Good (Within limiter)
        (finish calls config response t) (finish-Ends response t within status)
        (λ u (free, range, same). (free, range, omega arith))

  next-Good :
      (rest : Action (Unit {0})) (location : Option (List ℕ)) (v : Url × Response) (s t : Session)
      → Visited s v t
      → s.redirects ≤ config.max_redirects
      → ((u : Session) → Followed s u → Ends (λ done w. Good w) (Within limiter) (rest u))
      → Ends (λ done u. Good u) (Within limiter) (next calls config (some rest) location v t)
  unfolding next
  next-Good rest none v s t visited few continue = finish-Good v s t visited few
  next-Good rest (some location) v s t (within, status, still) few continue =
      >>-Ends (Followed t) (λ done u. Good u) (Within limiter) (follow calls config location v) rest
        t (follow-Followed location v t within)
        (λ u (free, one_more). continue u (free, one_more ∙ ap (λ n. n + 1) still))

  last-Good :
      (location : Option (List ℕ)) (v : Url × Response) (s t : Session)
      → Visited s v t
      → s.redirects ≤ config.max_redirects
      → Ends (λ done u. Good u) (Within limiter) (next calls config none location v t)
  unfolding next
  last-Good none v s t visited few = finish-Good v s t visited few
  last-Good (some location) v s t (within, status, still) few = within

  pub requests-Good :
      (left : ℕ) (s : Session)
      → Free s
      → s.redirects + left ≡ config.max_redirects
      → Ends (λ done t. Good t) (Within limiter) (requests calls config left s)
  unfolding requests
  requests-Good zero s free limit =
      >>=-Ends (Visited s) (λ done t. Good t) (Within limiter) (visit calls config)
        (λ v. next calls config none (redirect_of config v.1) v) s (visit-Visited s free)
        (λ v t visited. last-Good (redirect_of config v.1) v s t visited (omega arith))
  requests-Good (suc left) s free limit =
      let rest = requests calls config left in
      >>=-Ends (Visited s) (λ done t. Good t) (Within limiter) (visit calls config)
        (λ v. next calls config (some rest) (redirect_of config v.1) v) s (visit-Visited s free)
        (λ v t visited.
          next-Good rest (redirect_of config v.1) v s t visited (omega arith)
            (λ u (free_again, one_more). requests-Good left u free_again (omega arith)))
