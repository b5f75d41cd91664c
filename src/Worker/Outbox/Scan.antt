-- ===== src/Worker/Outbox/Scan.antt =====
-- apps/worker/src/outbox-dispatcher.ts: the pages of a dispatch.
use link_alive.Common.{
  ℕ, zero, suc, ◌+◌, ◌-◌, ◌*◌, max, min, Bool, true, false, not, ◌&&◌, Option, none, some, List, [],
  ◌∷◌, length, ltb, if◌then◌else◌,
}
use link_alive.Domain.Types.{is_positive_safe}
use link_alive.Worker.Outbox.Rows.{NotificationOutbox}
use link_alive.Worker.Outbox.Dispatch.{NotificationQueue, find_candidates, dispatch_page}

abbrev pub dispatch_scan_multiplier : ℕ
dispatch_scan_multiplier = 5

abbrev pub max_dispatch_scan : ℕ
max_dispatch_scan = 5000

abbrev pub scan_budget_of : ℕ → ℕ
scan_budget_of limit = max limit (min max_dispatch_scan (limit * dispatch_scan_multiplier))

module _ (queue : NotificationQueue) (owner lease_ms : ℕ) (is_live : ℕ → Bool) where
  open queue use {Queue}

  -- What a dispatch returns, with the queue and the rows it leaves.
  abbrev pub Dispatched : Type 0
  Dispatched = ℕ × Queue × List NotificationOutbox

  -- The end of a round: without progress the loop is left.
  unfoldable pub after_page : Bool → Dispatched → Option Dispatched → Option Dispatched
  after_page true done more = more
  after_page false done more = some done

  -- The loop is left at its limits, or where nothing is available.
  unfoldable pub next_round :
      Bool → List NotificationOutbox → Dispatched → Option Dispatched → Option Dispatched
  next_round false candidates done next = some done
  next_round true [] done next = some done
  next_round true (c ∷ candidates) done next = next

  -- The `while` loop, in which `none` says that the fuel has run out.
  unfoldable pub scan_pages :
      (fuel now limit scan_budget dispatched scanned : ℕ)
      → Queue
      → List NotificationOutbox
      → Option Dispatched
  unfolding after_page next_round
  scan_pages zero now limit scan_budget dispatched scanned q rows = none
  scan_pages (suc fuel) now limit scan_budget dispatched scanned q rows =
      let n = min (limit - dispatched) (scan_budget - scanned) in
      let candidates = find_candidates now n rows in
      let page = dispatch_page queue owner lease_ms is_live now candidates q rows in
      let total = dispatched + page.dispatched in
      let next =
        after_page page.made_progress (total, page.queue_after, page.rows)
          (scan_pages fuel now limit scan_budget total (scanned + length candidates)
            page.queue_after page.rows) in
      next_round (ltb dispatched limit && ltb scanned scan_budget) candidates (dispatched, q, rows)
        next

  unfoldable pub dispatch : (now limit : ℕ) → Queue → List NotificationOutbox → Option Dispatched
  unfolding scan_pages
  dispatch now limit q rows =
      if not (is_positive_safe limit)
      then some (0, q, rows)
      else scan_pages (scan_budget_of limit + 1) now limit (scan_budget_of limit) 0 0 q rows
