-- ===== src/Worker/Outbox/Bounded.antt =====
-- A dispatch ends, stays within its limit, and is a sequence of the statements of a dispatcher.
use link_alive.Common.{
  ℕ, zero, suc, ◌+◌, ◌-◌, min, ◌≤◌, ◌<◌, ◌≡◌, refl, Bool, true, false, not, ◌&&◌, Option, none,
  some, List, [], ◌∷◌, Result, ok, throw, length, length-take, arith, ltb, if-holds,
}
use link_alive.Domain.Types.{NotificationOutboxStatus, is_positive_safe}
use link_alive.Worker.Delivery.{PriorDownStatus, ready, wait, cancel, recovery_prerequisite_status}
use link_alive.Worker.Outbox.Rows.{NotificationOutbox, channel_disabled, down_not_delivered}
use link_alive.Worker.Outbox.Statements.{matches}
use link_alive.Worker.Outbox.Dispatch.{
  NotificationQueue, find_candidates, sort_available, has_failed, Pass, settle_claim,
  ensure_notification_job, hand_over, claim_and_enqueue, by_prerequisite, follow_down,
  dispatch_candidate, dispatch_page,
}
use link_alive.Worker.Outbox.Scan.{
  scan_budget_of, Dispatched, after_page, next_round, scan_pages, dispatch,
}
use link_alive.Worker.Outbox.Steps.{
  DispatchStep, deferred, canceled, claimed, enqueued, released, Dispatches, no_dispatch,
  next_dispatch,
}

Dispatches-trans :
    (rows before after : List NotificationOutbox)
    → Dispatches rows before
    → Dispatches before after
    → Dispatches rows after
Dispatches-trans rows before _ h no_dispatch = h
Dispatches-trans rows before _ h (next_dispatch c d k step) =
    next_dispatch c d (Dispatches-trans rows before c h k) step

one_step : (rows after : List NotificationOutbox) → DispatchStep rows after → Dispatches rows after
one_step rows after step = next_dispatch rows after no_dispatch step

module _ (queue : NotificationQueue) (owner lease_ms : ℕ) (is_live : ℕ → Bool) where
  open queue use {Queue, QueueError}

  -- At most `n` notifications were dispatched, by statements on `rows`.
  abbrev IsWithin : ℕ → List NotificationOutbox → Pass queue owner lease_ms is_live → Type 0
  IsWithin n rows p = (p.dispatched ≤ n) × Dispatches rows p.rows

  settle_claim-IsWithin :
      (now id : ℕ) (r : Result QueueError (Unit {0}) × Queue) (base rows : List NotificationOutbox)
      → Dispatches base rows
      → IsWithin 1 base (settle_claim queue owner lease_ms is_live now id r rows)
  unfolding settle_claim
  settle_claim-IsWithin now id (ok u, q) base rows h =
      (omega arith, next_dispatch rows _ h (enqueued id owner now (now + lease_ms)))
  settle_claim-IsWithin now id (throw e, q) base rows h =
      (omega arith, next_dispatch rows _ h (released id owner now))

  hand_over-IsWithin :
      (now id : ℕ) (has_claim : Bool) (q : Queue) (base rows : List NotificationOutbox)
      → Dispatches base rows
      → IsWithin 1 base (hand_over queue owner lease_ms is_live now id has_claim q rows)
  unfolding hand_over
  hand_over-IsWithin now id false q base rows h = (omega arith, h)
  hand_over-IsWithin now id true q base rows h =
      settle_claim-IsWithin now id (ensure_notification_job queue owner lease_ms is_live id q) base
        rows h

  claim_and_enqueue-IsWithin :
      (now id : ℕ) (q : Queue) (rows : List NotificationOutbox)
      → IsWithin 1 rows (claim_and_enqueue queue owner lease_ms is_live now id q rows)
  unfolding claim_and_enqueue
  claim_and_enqueue-IsWithin now id q rows =
      hand_over-IsWithin now id (matches id now rows) q rows _
        (one_step rows _ (claimed id owner now (now + lease_ms)))

  by_prerequisite-IsWithin :
      (now id : ℕ) (s : PriorDownStatus) (down : Option NotificationOutboxStatus) (q : Queue)
      (rows : List NotificationOutbox)
      → IsWithin 1 rows (by_prerequisite queue owner lease_ms is_live now id s down q rows)
  unfolding by_prerequisite
  by_prerequisite-IsWithin now id ready down q rows = claim_and_enqueue-IsWithin now id q rows
  by_prerequisite-IsWithin now id wait down q rows =
      (omega arith, one_step rows _ (deferred id now))
  by_prerequisite-IsWithin now id cancel down q rows =
      (omega arith, one_step rows _ (canceled id now down_not_delivered (has_failed down)))

  follow_down-IsWithin :
      (now id : ℕ) (down : Option (Option NotificationOutboxStatus)) (q : Queue)
      (rows : List NotificationOutbox)
      → IsWithin 1 rows (follow_down queue owner lease_ms is_live now id down q rows)
  unfolding follow_down
  follow_down-IsWithin now id none q rows = claim_and_enqueue-IsWithin now id q rows
  follow_down-IsWithin now id (some down) q rows =
      by_prerequisite-IsWithin now id (recovery_prerequisite_status down) down q rows

  dispatch_candidate-IsWithin :
      (now : ℕ) (c : NotificationOutbox) (q : Queue) (rows : List NotificationOutbox)
      → IsWithin 1 rows (dispatch_candidate queue owner lease_ms is_live now c q rows)
  unfolding dispatch_candidate
  dispatch_candidate-IsWithin now c q rows =
      if-holds (IsWithin 1 rows) (not (is_live c.channel_id))
        (omega arith, one_step rows _ (canceled c.id now channel_disabled false))
        (follow_down-IsWithin now c.id _ q rows)

  dispatch_page-IsWithin :
      (now : ℕ) (candidates : List NotificationOutbox) (q : Queue) (rows : List NotificationOutbox)
      → IsWithin
          (length candidates)
          rows
          (dispatch_page queue owner lease_ms is_live now candidates q rows)
  unfolding dispatch_page
  dispatch_page-IsWithin now [] q rows = (omega arith, no_dispatch)
  dispatch_page-IsWithin now (c ∷ cs) q rows =
      let (few, h) = dispatch_candidate-IsWithin now c q rows in
      let f = dispatch_candidate queue owner lease_ms is_live now c q rows in
      let (rest, k) = dispatch_page-IsWithin now cs f.queue_after f.rows in
      (omega arith, Dispatches-trans rows f.rows _ h k)

  length-find_candidates :
      (now n : ℕ) (rows : List NotificationOutbox) → length (find_candidates now n rows) ≤ n
  unfolding find_candidates
  length-find_candidates now n rows = length-take n (sort_available now rows)

  -- It returned, with at most `limit` dispatched, by statements on `rows`.
  abbrev pub EndsWithin :
      ℕ → List NotificationOutbox → Option (Dispatched queue owner lease_ms is_live) → Type 0
  EndsWithin limit rows none = ⊥
  EndsWithin limit rows (some (n, q, after)) = (n ≤ limit) × Dispatches rows after

  after_page-EndsWithin :
      (limit : ℕ) (base : List NotificationOutbox) (progress : Bool)
      (done : Dispatched queue owner lease_ms is_live)
      (more : Option (Dispatched queue owner lease_ms is_live))
      → EndsWithin limit base (some done)
      → EndsWithin limit base more
      → EndsWithin limit base (after_page queue owner lease_ms is_live progress done more)
  unfolding after_page
  after_page-EndsWithin limit base true done more h k = k
  after_page-EndsWithin limit base false done more h k = h

  next_round-EndsWithin :
      (limit : ℕ) (base : List NotificationOutbox) (test : Bool) (cs : List NotificationOutbox)
      (done : Dispatched queue owner lease_ms is_live)
      (next : Option (Dispatched queue owner lease_ms is_live))
      → EndsWithin limit base (some done)
      → (test ≡ true → 0 < length cs → EndsWithin limit base next)
      → EndsWithin limit base (next_round queue owner lease_ms is_live test cs done next)
  unfolding next_round
  next_round-EndsWithin limit base false cs done next h k = h
  next_round-EndsWithin limit base true [] done next h k = h
  next_round-EndsWithin limit base true (c ∷ cs) done next h k = k refl (omega arith)

  scan_pages-EndsWithin :
      (fuel now limit budget dispatched scanned : ℕ) (q : Queue)
      (base rows : List NotificationOutbox)
      → budget - scanned < fuel
      → dispatched ≤ limit
      → Dispatches base rows
      → EndsWithin limit base
          (scan_pages queue owner lease_ms is_live fuel now limit budget dispatched scanned q rows)
  unfolding scan_pages
  scan_pages-EndsWithin zero now limit budget d s q base rows enough few h = absurd (omega arith)
  scan_pages-EndsWithin (suc fuel) now limit budget d s q base rows enough few h =
      let candidates = find_candidates now (min (limit - d) (budget - s)) rows in
      let page = dispatch_page queue owner lease_ms is_live now candidates q rows in
      let (added, k) = dispatch_page-IsWithin now candidates q rows in
      let short = length-find_candidates now (min (limit - d) (budget - s)) rows in
      let all_steps = Dispatches-trans base rows page.rows h k in
      next_round-EndsWithin limit base (ltb d limit && ltb s budget) candidates _ _ (few, h)
        (λ goes_on positive.
          after_page-EndsWithin limit base page.made_progress _ _ (omega arith, all_steps)
            (scan_pages-EndsWithin fuel now limit budget (d + page.dispatched)
              (s + length candidates) page.queue_after base page.rows (omega arith) (omega arith)
              all_steps))

  -- A dispatch returns, whatever the queue answers, it dispatches at most `limit` notifications, and
  -- what it does to the outbox are statements of a dispatcher.
  pub dispatch-EndsWithin :
      (now limit : ℕ) (q : Queue) (rows : List NotificationOutbox)
      → EndsWithin limit rows (dispatch queue owner lease_ms is_live now limit q rows)
  unfolding dispatch
  dispatch-EndsWithin now limit q rows =
      if-holds (EndsWithin limit rows) (not (is_positive_safe limit)) (omega arith, no_dispatch)
        (scan_pages-EndsWithin (scan_budget_of limit + 1) now limit (scan_budget_of limit) 0 0 q
          rows rows (omega arith) (omega arith) no_dispatch)
