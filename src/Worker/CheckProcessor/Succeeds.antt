-- ===== src/Worker/CheckProcessor/Succeeds.antt =====
-- The commit of a result returns.
use link_alive.Common.{◌≡◌, Result, ok}
use link_alive.Worker.CheckProcessor.World.{World, CommitError}
use link_alive.Worker.CheckProcessor.Commit.{ProcessStatus}

abbrev Succeeds : Result CommitError World → Type 0
Succeeds r = (u : World) × (r ≡ ok u)

-- What the network guard notes touches neither the outbox nor what the state machine reads.
abbrev SameRows : World → World → Type 0
SameRows w v =
    (v.monitor.state ≡ w.monitor.state)
    × (v.monitor.failure_threshold ≡ w.monitor.failure_threshold)
    × (v.monitor.recovery_threshold ≡ w.monitor.recovery_threshold)
    × (v.incidents ≡ w.incidents)
    × (v.next_id ≡ w.next_id)
    × (v.outbox ≡ w.outbox)
    × (v.bindings ≡ w.bindings)

abbrev Commits : Result CommitError (ProcessStatus × World) → Type 0
Commits r = (s : ProcessStatus) × (u : World) × (r ≡ ok (s, u))
